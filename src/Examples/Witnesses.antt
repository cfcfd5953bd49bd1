-- ===== src/Examples/Witnesses.antt =====
-- The theorems at concrete states.
use mathlib.Core.Path.{refl}
use mq_ecn.Common.{
  List, ◌*◌, inl, inr, true, ◌≡◌, arith, pos, some, [], ◌∷◌, ◌++◌, Returns, stuck, length,
}
use mq_ecn.Port.Arguments.{is_own, Handles}
use mq_ecn.Examples.{no_command, sim-Arithmetic, sim, packet, sim-IsOrder}
use mq_ecn.Examples.States.{
  dwrr_0, dwrr_0-Valid, priority_0, dwrr_gener, dwrr_long, wfq_pie, wfq_long, wrr_rr, wrr_long,
  dwrr_1, dwrr_1-Valid, priority_1, priority_1-IsValid, wrr_1, wrr_1-IsValid, wrr_starved,
  wrr_starved-IsValid, wrr_starved-IsFresh, wrr_starved-Starved, wfq_1, wfq_1-IsValid, wfq_1-InTime,
  links_12, links_12-IsList,
}
use mq_ecn.ActiveList.{insert_tail, remove_head}
use mq_ecn.ActiveList.Chain.{IsList, insert_tail-IsList, remove_head-IsList}
use mq_ecn.Dwrr.{new_dwrr}
use mq_ecn.Dwrr.Invariant.{Valid}
use mq_ecn.Dwrr.Refine.{EnqueuedListed, enque-EnqueuedListed}
use mq_ecn.Dwrr.Rounds.{DequeuedListed, deque-DequeuedListed}
use mq_ecn.Dwrr.Control.{set_quantum-active}
use mq_ecn.Dwrr.Command.{set_quantum}
use mq_ecn.Priority.Refine.{Enqueued, enque-Enqueues}
use mq_ecn.Priority.Service.{ServedFirst, deque-ServedFirst}
use mq_ecn.Port.Run.{Event, arrives, departs, offered, run, Conserves}
use mq_ecn.Dwrr.Runs.{dwrr_port, run-Dwrr}
use mq_ecn.Priority.Runs.{priority_port, run-Priority}
use mq_ecn.Wrr.Refine.{EnqueuedInTurn, enque-EnqueuedInTurn}
use mq_ecn.Wrr.Rounds.{DequeuedInTurn, deque-DequeuedInTurn}
use mq_ecn.Wrr.Starvation.{loop-stuck}
use mq_ecn.Wfq.Refine.{EnqueuedWeighed, enque-EnqueuedWeighed}
use mq_ecn.Wfq.Service.{ServedEarliest, deque-ServedEarliest}

-- Three packets arrive at two queues and one departs.
abbrev trace : List (Event sim)
trace = arrives 0 (packet 1) ∷ arrives 1 (packet 2) ∷ arrives 2 (packet 1) ∷ departs 5 ∷ []

deque-DequeuedListed_example :
    Returns (DequeuedListed sim dwrr_1) (mq_ecn.Dwrr.Deque.deque sim dwrr_1 7)
deque-DequeuedListed_example = deque-DequeuedListed sim dwrr_1 7 dwrr_1-Valid

enque-EnqueuedListed_example :
    Returns (EnqueuedListed sim dwrr_1 (packet 2)) (mq_ecn.Dwrr.enque sim dwrr_1 3 (packet 2))
enque-EnqueuedListed_example = enque-EnqueuedListed sim dwrr_1 3 (packet 2) dwrr_1-Valid

deque-ServedEarliest_example :
    Returns (ServedEarliest sim wfq_1) (mq_ecn.Wfq.Deque.deque sim wfq_1 7)
deque-ServedEarliest_example =
    deque-ServedEarliest sim wfq_1 7 sim-IsOrder wfq_1-IsValid wfq_1-InTime

enque-EnqueuedWeighed_example :
    Returns (EnqueuedWeighed sim wfq_1 (packet 2)) (mq_ecn.Wfq.enque sim wfq_1 3 (packet 2))
enque-EnqueuedWeighed_example = enque-EnqueuedWeighed sim wfq_1 3 (packet 2) wfq_1-IsValid

deque-DequeuedInTurn_example :
    Returns (DequeuedInTurn sim wrr_1) (mq_ecn.Wrr.Deque.deque sim wrr_1 7)
unfolding mq_ecn.Wrr.enque mq_ecn.Wrr.offer mq_ecn.Wrr.admit mq_ecn.Wrr.wake mq_ecn.Wrr.reset_start
    mq_ecn.Wrr.new_wrr mq_ecn.Wrr.new_slot mq_ecn.Wrr.total_byte_length mq_ecn.Port.clamp_prio
    mq_ecn.Wrr.marking_ecn mq_ecn.Wrr.marks mq_ecn.Port.mark_enque mq_ecn.Wrr.idle_round_time
deque-DequeuedInTurn_example =
    deque-DequeuedInTurn sim wrr_1 7 1 wrr_1-IsValid (omega arith) (_, _, refl, refl, omega arith)

enque-EnqueuedInTurn_example :
    Returns (EnqueuedInTurn sim wrr_1 (packet 2)) (mq_ecn.Wrr.enque sim wrr_1 3 (packet 2))
enque-EnqueuedInTurn_example = enque-EnqueuedInTurn sim wrr_1 3 (packet 2) wrr_1-IsValid

loop-stuck_example : mq_ecn.Wrr.Deque.loop sim 100 wrr_starved 0 ≡ stuck
loop-stuck_example =
    loop-stuck sim 100 wrr_starved 0 wrr_starved-IsValid wrr_starved-IsFresh wrr_starved-Starved

command-KeepsTurn_example :
    Handles
      (mq_ecn.Wrr.Control.KeepsTurn sim wrr_1)
      (is_own "set-quantum" ("q" ∷ "set-quantum" ∷ "1" ∷ "3000" ∷ []))
      (mq_ecn.Wrr.Command.command sim no_command wrr_1 ("q" ∷ "set-quantum" ∷ "1" ∷ "3000" ∷ []))
      (no_command wrr_1 ("q" ∷ "set-quantum" ∷ "1" ∷ "3000" ∷ []))
command-KeepsTurn_example =
    mq_ecn.Wrr.Control.command-KeepsTurn sim no_command wrr_1
      ("q" ∷ "set-quantum" ∷ "1" ∷ "3000" ∷ []) wrr_1-IsValid

command-KeepsWeights_example :
    Handles
      (mq_ecn.Wfq.Control.KeepsWeights sim wfq_1)
      (is_own "set-weight" ("q" ∷ "set-weight" ∷ "1" ∷ "3000" ∷ []))
      (mq_ecn.Wfq.Command.command sim no_command wfq_1 ("q" ∷ "set-weight" ∷ "1" ∷ "3000" ∷ []))
      (no_command wfq_1 ("q" ∷ "set-weight" ∷ "1" ∷ "3000" ∷ []))
command-KeepsWeights_example =
    mq_ecn.Wfq.Control.command-KeepsWeights sim no_command wfq_1
      ("q" ∷ "set-weight" ∷ "1" ∷ "3000" ∷ []) wfq_1-IsValid

deque-ServedFirst_example :
    Returns (ServedFirst sim priority_1) (mq_ecn.Priority.deque sim priority_1 7)
deque-ServedFirst_example = deque-ServedFirst sim priority_1 7 priority_1-IsValid

enque-Enqueues_example :
    Returns (Enqueued sim priority_1 (packet 2)) (mq_ecn.Priority.enque sim priority_1 3 (packet 2))
enque-Enqueues_example = enque-Enqueues sim priority_1 3 (packet 2) priority_1-IsValid

insert_tail-IsList_example :
    Returns
      (λ l. IsList l ((1 ∷ 2 ∷ []) ++ (3 ∷ [])) × (length l.nexts ≡ 4))
      (insert_tail links_12 3)
insert_tail-IsList_example =
    insert_tail-IsList links_12 (1 ∷ 2 ∷ []) 3 links_12-IsList refl (omega arith)

remove_head-IsList_example :
    Returns
      (λ r. (r.0 ≡ some 1) × IsList r.1 (2 ∷ []) × (r.1.nexts ≡ links_12.nexts))
      (remove_head links_12)
remove_head-IsList_example = remove_head-IsList links_12 1 (2 ∷ []) links_12-IsList

set_quantum-active_example :
    Returns (λ r. ¬ Valid sim r.1) (set_quantum sim dwrr_1 (pos 1) (pos 3000))
unfolding mq_ecn.Dwrr.enque mq_ecn.Dwrr.offer mq_ecn.Dwrr.admit mq_ecn.Dwrr.wake
    mq_ecn.Dwrr.activate mq_ecn.Dwrr.start_timer mq_ecn.Dwrr.new_dwrr mq_ecn.Dwrr.new_slot
    mq_ecn.Dwrr.total_byte_length mq_ecn.Port.clamp_prio mq_ecn.Dwrr.marking_ecn mq_ecn.Dwrr.marks
    mq_ecn.Port.mark_enque insert_tail mq_ecn.ActiveList.insert_after mq_ecn.ActiveList.no_links
set_quantum-active_example =
    set_quantum-active sim dwrr_1 1 3000 _ dwrr_1-Valid (omega arith) (omega arith) refl refl
      (λ e. absurd (omega (arith, e)))

marks-IsDynamicDwrr_example : mq_ecn.Dwrr.marks sim dwrr_gener dwrr_long ≡ true
unfolding mq_ecn.Dwrr.new_dwrr mq_ecn.Dwrr.new_slot
marks-IsDynamicDwrr_example =
    mq_ecn.Dwrr.Marking.marks-IsDynamicDwrr sim dwrr_gener dwrr_long sim-Arithmetic (refl, refl)
      (omega arith) (inl refl) refl

marks-IsDynamicWfq_example : mq_ecn.Wfq.marks sim wfq_pie wfq_long ≡ true
unfolding mq_ecn.Wfq.new_wfq mq_ecn.Wfq.new_slot
marks-IsDynamicWfq_example =
    mq_ecn.Wfq.Marking.marks-IsDynamicWfq sim wfq_pie wfq_long sim-Arithmetic (refl, refl)
      (omega arith) (inr refl) refl

marks-IsDynamicWrr_example : mq_ecn.Wrr.marks sim wrr_rr wrr_long ≡ true
unfolding mq_ecn.Wrr.new_wrr mq_ecn.Wrr.new_slot
marks-IsDynamicWrr_example =
    mq_ecn.Wrr.Marking.marks-IsDynamicWrr sim wrr_rr wrr_long sim-Arithmetic (refl, refl)
      (omega arith) (inl refl) refl

run-Dwrr_example :
    Returns
      (Conserves sim (dwrr_port sim) (offered sim trace) (100 * 1500))
      (run sim (dwrr_port sim) trace (record { sent = 0; lost = 0 }) (mq_ecn.Dwrr.new_dwrr sim 100))
run-Dwrr_example = run-Dwrr sim 100 trace

run-Priority_example :
    Returns (Conserves sim (priority_port sim) (offered sim trace) (100 * 1500)) (
      run sim
        (priority_port sim)
        trace
        (record { sent = 0; lost = 0 })
        (mq_ecn.Priority.new_priority sim 100))
run-Priority_example = run-Priority sim 100 trace

enque-MarksWrr_example :
    Returns
      (mq_ecn.Wrr.Ecn.MarksWrr sim (mq_ecn.Wrr.wake sim wrr_starved 3) (packet 2))
      (mq_ecn.Wrr.enque sim wrr_starved 3 (packet 2))
unfolding mq_ecn.Wrr.new_wrr mq_ecn.Wrr.new_slot
enque-MarksWrr_example =
    mq_ecn.Wrr.Ecn.enque-MarksWrr sim wrr_starved 3 (packet 2) wrr_starved-IsValid refl
      (omega arith)

enque-MarksPriority_example :
    Returns
      (mq_ecn.Priority.Ecn.MarksPriority sim priority_0 (packet 2))
      (mq_ecn.Priority.enque sim priority_0 3 (packet 2))
unfolding mq_ecn.Priority.new_priority
enque-MarksPriority_example =
    mq_ecn.Priority.Ecn.enque-MarksPriority sim priority_0 3 (packet 2)
      (mq_ecn.Priority.Refine.new_priority-IsValid sim 100) refl (omega arith)

enque-MarksDwrr_example :
    Returns
      (mq_ecn.Dwrr.Ecn.MarksDwrr sim
        (mq_ecn.Dwrr.wake sim (mq_ecn.Dwrr.start_timer sim dwrr_0) 3)
        3
        (packet 2))
      (mq_ecn.Dwrr.enque sim dwrr_0 3 (packet 2))
unfolding mq_ecn.Dwrr.new_dwrr mq_ecn.Dwrr.new_slot
enque-MarksDwrr_example =
    mq_ecn.Dwrr.Ecn.enque-MarksDwrr sim dwrr_0 3 (packet 2) dwrr_0-Valid refl refl (omega arith)

enque-MarksWfq_example :
    Returns
      (mq_ecn.Wfq.Ecn.MarksWfq sim
        (mq_ecn.Wfq.wake sim (mq_ecn.Wfq.start_timer sim wfq_1) 3)
        (packet 2))
      (mq_ecn.Wfq.enque sim wfq_1 3 (packet 2))
unfolding mq_ecn.Wfq.new_wfq mq_ecn.Wfq.new_slot
enque-MarksWfq_example =
    mq_ecn.Wfq.Ecn.enque-MarksWfq sim wfq_1 3 (packet 2) wfq_1-IsValid refl (omega arith)

-- ===== src/Examples/PrioWitnesses.antt =====
-- The theorems on the schedulers with strict priority queues at concrete states.
use mathlib.Core.Path.{refl}
use mq_ecn.Common.{List, ◌*◌, arith, [], ◌∷◌, Returns}
use mq_ecn.Port.Arguments.{is_own, Handles}
use mq_ecn.Examples.{no_command, sim, packet, sim-IsOrder}
use mq_ecn.Examples.PrioStates.{
  prio_dwrr_0, prio_dwrr_1, prio_dwrr_1-Valid, prio_wfq_1, prio_wfq_1-Valid, prio_wfq_1-InTime,
  sim-KeepsSign,
}
use mq_ecn.PrioWfq.Refine.{EnqueuedInBoth, enque-EnqueuedInBoth}
use mq_ecn.PrioWfq.Service.{DequeuedInOrder, deque-DequeuedInOrder}
use mq_ecn.PrioWfq.Ecn.{MarksPrioWfq, enque-MarksPrioWfq}
use mq_ecn.PrioWfq.Control.{KeepsGroups, command-KeepsGroups}
use mq_ecn.Port.Run.{Event, arrives, departs, offered, run, Conserves}
use mq_ecn.PrioDwrr.Invariant.{new_prio_dwrr-IsValid}
use mq_ecn.PrioDwrr.Refine.{EnqueuedInGroup, enque-EnqueuedInGroup}
use mq_ecn.PrioDwrr.Service.{DequeuedByPriority, deque-DequeuedByPriority}
use mq_ecn.PrioDwrr.Runs.{prio_dwrr_port, run-PrioDwrr}
use mq_ecn.PrioDwrr.Ecn.{MarksPrioDwrr, enque-MarksPrioDwrr}
use mq_ecn.PrioDwrr.Control.{KeepsPackets, command-KeepsPackets}

-- Packets arrive at a queue of each group and one departs.
abbrev trace : List (Event sim)
trace = arrives 0 (packet 2) ∷ arrives 1 (packet 0) ∷ arrives 2 (packet 7) ∷ departs 5 ∷ []

enque-EnqueuedInGroup_example :
    Returns
      (EnqueuedInGroup sim prio_dwrr_1 (packet 0))
      (mq_ecn.PrioDwrr.enque sim prio_dwrr_1 3 (packet 0))
enque-EnqueuedInGroup_example = enque-EnqueuedInGroup sim prio_dwrr_1 3 (packet 0) prio_dwrr_1-Valid

deque-DequeuedByPriority_example :
    Returns (DequeuedByPriority sim prio_dwrr_1) (mq_ecn.PrioDwrr.Deque.deque sim prio_dwrr_1 7)
deque-DequeuedByPriority_example = deque-DequeuedByPriority sim prio_dwrr_1 7 prio_dwrr_1-Valid

run-PrioDwrr_example :
    Returns (Conserves sim (prio_dwrr_port sim) (offered sim trace) (100 * 1500)) (
      run sim
        (prio_dwrr_port sim)
        trace
        (record { sent = 0; lost = 0 })
        (mq_ecn.PrioDwrr.new_prio_dwrr sim 100))
run-PrioDwrr_example = run-PrioDwrr sim 100 trace

enque-MarksPrioDwrr_example :
    Returns
      (MarksPrioDwrr sim
        (mq_ecn.PrioDwrr.wake sim (mq_ecn.PrioDwrr.start_timer sim prio_dwrr_0) 3)
        3
        (packet 2))
      (mq_ecn.PrioDwrr.enque sim prio_dwrr_0 3 (packet 2))
unfolding mq_ecn.PrioDwrr.new_prio_dwrr mq_ecn.Dwrr.new_slot mq_ecn.PrioQueues.new_prio_slot
enque-MarksPrioDwrr_example =
    enque-MarksPrioDwrr sim prio_dwrr_0 3 (packet 2) (new_prio_dwrr-IsValid sim 100) refl
      (omega arith)

command-KeepsPackets_example :
    Handles
      (KeepsPackets sim prio_dwrr_1)
      (is_own "set-quantum" ("q" ∷ "set-quantum" ∷ "1" ∷ "3000" ∷ []))
      (mq_ecn.PrioDwrr.Command.command sim no_command prio_dwrr_1
        ("q" ∷ "set-quantum" ∷ "1" ∷ "3000" ∷ []))
      (no_command prio_dwrr_1 ("q" ∷ "set-quantum" ∷ "1" ∷ "3000" ∷ []))
command-KeepsPackets_example =
    command-KeepsPackets sim no_command prio_dwrr_1 ("q" ∷ "set-quantum" ∷ "1" ∷ "3000" ∷ [])
      prio_dwrr_1-Valid

enque-EnqueuedInBoth_example :
    Returns
      (EnqueuedInBoth sim prio_wfq_1 (packet 9))
      (mq_ecn.PrioWfq.enque sim prio_wfq_1 3 (packet 9))
enque-EnqueuedInBoth_example = enque-EnqueuedInBoth sim prio_wfq_1 3 (packet 9) prio_wfq_1-Valid

deque-DequeuedInOrder_example :
    Returns (DequeuedInOrder sim prio_wfq_1) (mq_ecn.PrioWfq.Deque.deque sim prio_wfq_1 7)
deque-DequeuedInOrder_example =
    deque-DequeuedInOrder sim prio_wfq_1 7 sim-IsOrder prio_wfq_1-Valid prio_wfq_1-InTime

enque-MarksPrioWfq_example :
    Returns
      (MarksPrioWfq sim
        (mq_ecn.PrioWfq.wake sim (mq_ecn.PrioWfq.start_timer sim prio_wfq_1) 3)
        (packet 9))
      (mq_ecn.PrioWfq.enque sim prio_wfq_1 3 (packet 9))
unfolding mq_ecn.PrioWfq.new_prio_wfq mq_ecn.Wfq.new_slot mq_ecn.PrioQueues.new_prio_slot
enque-MarksPrioWfq_example =
    enque-MarksPrioWfq sim prio_wfq_1 3 (packet 9) prio_wfq_1-Valid refl (omega arith)

command-KeepsGroups_example :
    Handles
      (KeepsGroups sim prio_wfq_1)
      (is_own "set-weight" ("q" ∷ "set-weight" ∷ "1" ∷ "3000" ∷ []))
      (mq_ecn.PrioWfq.Command.command sim no_command prio_wfq_1
        ("q" ∷ "set-weight" ∷ "1" ∷ "3000" ∷ []))
      (no_command prio_wfq_1 ("q" ∷ "set-weight" ∷ "1" ∷ "3000" ∷ []))
command-KeepsGroups_example =
    command-KeepsGroups sim no_command prio_wfq_1 ("q" ∷ "set-weight" ∷ "1" ∷ "3000" ∷ [])
      sim-KeepsSign prio_wfq_1-Valid

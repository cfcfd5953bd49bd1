-- ===== src/Examples/States.antt =====
-- States of the schedulers in which packets wait.
use mathlib.Core.Path.{refl, subst}
use mq_ecn.Common.{
  ℕ, ◌≡◌, arith, true, false, none, some, [], ◌∷◌, Result, ok, Returns, get_elem?-replicate,
  replicate, length-replicate, ◌<◌,
}
use mq_ecn.Examples.{sim, packet}
use mq_ecn.Port.{Fate, max_queue_num}
use mq_ecn.ActiveList.{Links}
use mq_ecn.ActiveList.Chain.{IsList}
use mq_ecn.Dwrr.{Dwrr, new_dwrr}
use mq_ecn.Dwrr.Invariant.{Valid}
use mq_ecn.Dwrr.Refine.{enque-EnqueuedListed}
use mq_ecn.Dwrr.Control.{new_dwrr-IsValid}
use mq_ecn.Priority.{Priority, new_priority}
use mq_ecn.Priority.Refine.{new_priority-IsValid, enque-Enqueues}
use mq_ecn.Wrr.{Wrr, new_wrr}
use mq_ecn.Wrr.Refine.{enque-EnqueuedInTurn}
use mq_ecn.Wrr.Turns.{IsFresh}
use mq_ecn.Wrr.Starvation.{Starved}
use mq_ecn.Wrr.Control.{new_wrr-IsValid}
use mq_ecn.Wfq.{Wfq}
use mq_ecn.Wfq.Service.{InTime}

-- The state after a call of `enque`.
abbrev pub state_of {ℓ} : {S : Type ℓ} → S → Result (Fate × S) → S
state_of s (ok (fate, t)) = t
state_of s r = s

pub valid_of {ℓ κ} :
    {S : Type ℓ} (P : Fate × S → Type κ) (s : S) (r : Result (Fate × S))
    → Returns P r
    → (fate : Fate) × P (fate, state_of s r)
valid_of P s r (a, e, p) = (a.0, rw e p)

abbrev pub dwrr_0 : Dwrr sim
dwrr_0 = new_dwrr sim 100

abbrev pub dwrr_1 : Dwrr sim
dwrr_1 = state_of dwrr_0 (mq_ecn.Dwrr.enque sim dwrr_0 0 (packet 1))

pub dwrr_0-Valid : Valid sim dwrr_0
dwrr_0-Valid = ([], new_dwrr-IsValid sim 100)

pub dwrr_1-Valid : Valid sim dwrr_1
dwrr_1-Valid = (valid_of _ dwrr_0 _ (enque-EnqueuedListed sim dwrr_0 0 (packet 1) dwrr_0-Valid)).1.1

abbrev pub priority_0 : Priority sim
priority_0 = new_priority sim 100

abbrev pub priority_1 : Priority sim
priority_1 = state_of priority_0 (mq_ecn.Priority.enque sim priority_0 0 (packet 1))

pub priority_1-IsValid : mq_ecn.Priority.Refine.IsValid sim priority_1
priority_1-IsValid =
    (valid_of _ priority_0 _
      (enque-Enqueues sim priority_0 0 (packet 1) (new_priority-IsValid sim 100))).1.1

abbrev pub wrr_0 : Wrr sim
wrr_0 = new_wrr sim 100

abbrev pub wrr_1 : Wrr sim
wrr_1 = state_of wrr_0 (mq_ecn.Wrr.enque sim wrr_0 0 (packet 1))

pub wrr_1-IsValid : mq_ecn.Wrr.Refine.IsValid sim wrr_1
wrr_1-IsValid =
    (valid_of _ wrr_0 _ (enque-EnqueuedInTurn sim wrr_0 0 (packet 1) (new_wrr-IsValid sim 100))).1.1

-- A queue whose quantum is below its packet.
abbrev starved : mq_ecn.Wrr.Slot sim
starved = record (mq_ecn.Wrr.new_slot sim) { fifo = packet 0 ∷ []; quantum = 100 }

abbrev pub wrr_starved : Wrr sim
wrr_starved = record wrr_0 { slots = replicate max_queue_num starved }

pub wrr_starved-IsValid : mq_ecn.Wrr.Refine.IsValid sim wrr_starved
unfolding new_wrr mq_ecn.Wrr.new_slot
wrr_starved-IsValid = record {
  slots_length = length-replicate max_queue_num starved;
  queue_num_in = omega arith;
  current_in = omega arith;
  others_wait = λ i x g _.
      subst (λ (z : mq_ecn.Wrr.Slot sim). z.counter_updated ≡ false)
        (get_elem?-replicate max_queue_num starved i x g) refl;
}

pub wrr_starved-IsFresh : IsFresh sim wrr_starved.slots
unfolding new_wrr mq_ecn.Wrr.new_slot
wrr_starved-IsFresh i x g =
    subst (λ (z : mq_ecn.Wrr.Slot sim). z.counter_updated ≡ false)
      (get_elem?-replicate max_queue_num starved i x g) refl

small : (p : mq_ecn.Simulator.Packet ℕ) → some (packet 0) ≡ some p → 100 < p.size
small p e = subst (λ (q : mq_ecn.Simulator.Packet ℕ). 100 < q.size) same (omega arith)
  where
    same : packet 0 ≡ p
    same = cc

pub wrr_starved-Starved : Starved sim wrr_starved
unfolding new_wrr mq_ecn.Wrr.new_slot
wrr_starved-Starved i x p g =
    subst (λ (z : mq_ecn.Wrr.Slot sim). sim.head z.fifo ≡ some p → z.quantum < p.size)
      (get_elem?-replicate max_queue_num starved i x g) (small p)

-- Every queue holds one packet that finishes at time 5.
abbrev waiting : mq_ecn.Wfq.Slot sim
waiting = record (mq_ecn.Wfq.new_slot sim) { fifo = packet 0 ∷ []; head_finish_time = 5 }

abbrev pub wfq_1 : Wfq sim
wfq_1 = record (mq_ecn.Wfq.new_wfq sim 1000) { slots = replicate max_queue_num waiting }

pub wfq_1-IsValid : mq_ecn.Wfq.Refine.IsValid sim wfq_1
unfolding mq_ecn.Wfq.new_wfq mq_ecn.Wfq.new_slot
wfq_1-IsValid = record {
  slots_length = length-replicate max_queue_num waiting;
  some_queue = omega arith;
  queue_num_in = omega arith;
  weights = λ i x g.
      subst (mq_ecn.Wfq.Refine.Weighs sim i) (get_elem?-replicate max_queue_num waiting i x g) refl;
}

pub wfq_1-InTime : InTime sim wfq_1
unfolding mq_ecn.Wfq.new_wfq mq_ecn.Wfq.new_slot
wfq_1-InTime i x g b =
    subst (λ (z : mq_ecn.Wfq.Slot sim). sim.lt z.head_finish_time sim.ldbl_max ≡ true)
      (get_elem?-replicate max_queue_num waiting i x g) refl

-- The list of the nodes 1 and 2 of 4.
abbrev pub links_12 : Links
links_12 = record { first = some 1; nexts = none ∷ some 2 ∷ none ∷ none ∷ [] }

pub links_12-IsList : IsList links_12 (1 ∷ 2 ∷ [])
links_12-IsList = record {
  chain = (refl, some 2, refl, (refl, none, refl, refl));
  distinct = (refl, (refl, tt));
  below = (omega arith, (omega arith, tt));
}

-- Queues that hold more than the threshold of the port, 65 packets of 1500 bytes.
abbrev large : mq_ecn.Simulator.Packet ℕ
large = record (packet 0) { size = 100000 }

abbrev pub dwrr_long : mq_ecn.Dwrr.Slot sim
dwrr_long = record (mq_ecn.Dwrr.new_slot sim) { fifo = large ∷ [] }

abbrev pub dwrr_gener : Dwrr sim
dwrr_gener = record dwrr_0 { marking_scheme = 2 }

abbrev pub wfq_long : mq_ecn.Wfq.Slot sim
wfq_long = record (mq_ecn.Wfq.new_slot sim) { fifo = large ∷ [] }

abbrev pub wfq_pie : Wfq sim
wfq_pie = record (mq_ecn.Wfq.new_wfq sim 100) { marking_scheme = 5 }

abbrev pub wrr_long : mq_ecn.Wrr.Slot sim
wrr_long = record (mq_ecn.Wrr.new_slot sim) { fifo = large ∷ [] }

abbrev pub wrr_rr : Wrr sim
wrr_rr = record wrr_0 { marking_scheme = 3 }

-- ===== src/Examples/PrioStates.antt =====
-- States of the schedulers with strict priority queues in which packets wait.
use mathlib.Core.Path.{refl, subst}
use mq_ecn.Common.{
  ◌≡◌, true, [], ◌∷◌, arith, replicate, length-replicate, get_elem?-replicate, lt→ltb,
}
use mq_ecn.Port.{max_queue_num}
use mq_ecn.PrioQueues.Group.{new-IsGroup}
use mq_ecn.Wfq.Service.{InTime}
use mq_ecn.PrioWfq.{PrioWfq, new_prio_wfq, as_wfq}
use mq_ecn.PrioWfq.Control.{KeepsSign}
use mq_ecn.Examples.{sim, packet}
use mq_ecn.Examples.States.{state_of, valid_of}
use mq_ecn.PrioDwrr.{PrioDwrr, new_prio_dwrr}
use mq_ecn.PrioDwrr.Invariant.{Valid, new_prio_dwrr-IsValid}
use mq_ecn.PrioDwrr.Refine.{enque-EnqueuedInGroup}

abbrev pub prio_dwrr_0 : PrioDwrr sim
prio_dwrr_0 = new_prio_dwrr sim 100

-- A packet waits in the second DWRR queue.
abbrev pub prio_dwrr_1 : PrioDwrr sim
prio_dwrr_1 = state_of prio_dwrr_0 (mq_ecn.PrioDwrr.enque sim prio_dwrr_0 0 (packet 2))

pub prio_dwrr_1-Valid : Valid sim prio_dwrr_1
prio_dwrr_1-Valid =
    (valid_of _ prio_dwrr_0 _
      (enque-EnqueuedInGroup sim prio_dwrr_0 0 (packet 2) (new_prio_dwrr-IsValid sim 100))).1.1

-- Every WFQ queue, of as many as there can be, holds one packet that finishes at time 5.
abbrev waiting : mq_ecn.Wfq.Slot sim
waiting = record (mq_ecn.Wfq.new_slot sim) { fifo = packet 0 ∷ []; head_finish_time = 5 }

abbrev pub prio_wfq_1 : PrioWfq sim
prio_wfq_1 = record (new_prio_wfq sim 1000) {
  wfq_queues = replicate max_queue_num waiting;
  wfq_queue_num = 64;
}

pub prio_wfq_1-Valid : mq_ecn.PrioWfq.Invariant.Valid sim prio_wfq_1
unfolding new_prio_wfq mq_ecn.Wfq.new_slot
prio_wfq_1-Valid = record {
  high = new-IsGroup sim;
  low = record {
    slots_length = length-replicate max_queue_num waiting;
    some_queue = omega arith;
    queue_num_in = omega arith;
    weights = λ i x g.
        subst (mq_ecn.Wfq.Refine.Weighs sim i) (get_elem?-replicate max_queue_num waiting i x g)
          refl;
    none_beyond = refl;
  };
}

pub prio_wfq_1-InTime : InTime sim (as_wfq sim prio_wfq_1)
unfolding new_prio_wfq mq_ecn.Wfq.new_slot
prio_wfq_1-InTime i x g b =
    subst (λ (z : mq_ecn.Wfq.Slot sim). sim.lt z.head_finish_time sim.ldbl_max ≡ true)
      (get_elem?-replicate max_queue_num waiting i x g) refl

pub sim-KeepsSign : KeepsSign sim
sim-KeepsSign n h = lt→ltb 0 n h

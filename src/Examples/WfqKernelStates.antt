-- ===== src/Examples/WfqKernelStates.antt =====
-- A state of sch_wfq in which every class holds a packet.
use mathlib.Core.Path.{refl}
use mq_ecn.Common.{
  ℕ, zero, suc, ◌<◌, ◌≡◌, sym, subst, ◌∙◌, pos, none, List, [], ◌∷◌, replicate, get_elem?,
  get_elem?-replicate, sum_first, sum_first-replicate, ◌==◌, if◌then◌else◌, arith,
}
use mq_ecn.SchDwrr.{max_queues, max_prio}
use mq_ecn.SchDwrr.Rate.{precompute_ratedata}
use mq_ecn.SchDwrr.Codel.{new_codel}
use mq_ecn.SchWfq.{WfqParams}
use mq_ecn.SchWfq.Qdisc.{WfqClass, WfqSched}
use mq_ecn.SchWfq.Earliest.{InWindow, Window}
use mq_ecn.SchWfq.Transmission.{Sized, Holds, share}
use mq_ecn.Examples.KernelStates.{linux, packet}

abbrev pub weights : WfqParams
weights = record {
  buffer_mode = pos 0;
  shared_buffer_bytes = pos 2000000;
  bucket_bytes = pos 25000;
  port_thresh_bytes = pos 32000;
  ecn_scheme = pos 1;
  enable_dequeue_ecn = pos 1;
  tcn_thresh = pos 256;
  codel_target = pos 51;
  codel_interval = pos 1024;
  queue_thresh_bytes = replicate max_queues (pos 32000);
  queue_dscp = pos 0 ∷ pos 1 ∷ pos 2 ∷ pos 3 ∷ pos 4 ∷ pos 5 ∷ pos 6 ∷ pos 7 ∷ [];
  queue_weight = replicate max_queues (pos 1);
  queue_buffer_bytes = replicate max_queues (pos 2000000);
  queue_prio = replicate max_queues 0;
}

pub weights-Sized : Sized weights
weights-Sized = record { thresh_length = refl; weight_length = refl }

abbrev waiting : WfqClass linux
waiting = record {
  fifo = packet ∷ [];
  prio = 0;
  len_bytes = 1538;
  head_fin_time = 1538;
  codel = new_codel;
}

abbrev pub busy : WfqSched linux
busy = record {
  queues = replicate max_queues waiting;
  rate = precompute_ratedata 1000000000;
  watchdog = none;
  tokens = 0;
  time_ns = 0;
  sum_len_bytes = 12304;
  prio_len_bytes = 12304 ∷ replicate 7 0;
  virtual_time = replicate max_prio 1538;
  qlen = 8;
}

prio_bytes_here :
    (prio bytes : ℕ)
    → get_elem? (12304 ∷ replicate 7 0) prio ≡ mq_ecn.Common.some bytes
    → bytes ≡ sum_first (share linux prio) max_queues (replicate max_queues waiting)
prio_bytes_here zero bytes g = cc
prio_bytes_here (suc prio) bytes g =
    sym (get_elem?-replicate 7 0 prio bytes g)
    ∙ sym
        (sum_first-replicate (share linux (suc prio)) max_queues max_queues waiting (ground arith))

pub busy-Holds : Holds linux busy
unfolding mq_ecn.SchDwrr.Rate.skb_size
busy-Holds = record {
  queues_length = refl;
  bytes_length = refl;
  virtual_length = refl;
  counted = λ i x g.
      subst (λ (z : WfqClass linux). z.len_bytes ≡ mq_ecn.SchWfq.Transmission.wire linux z)
        (get_elem?-replicate max_queues waiting i x g) refl;
  prio_bytes = prio_bytes_here;
  all_bytes = refl;
}

pub busy-Window : (prio : ℕ) → Window linux 0 prio busy.queues
busy-Window prio j y g w =
    subst (λ (z : WfqClass linux). InWindow 0 z.head_fin_time)
      (get_elem?-replicate max_queues waiting j y g) (omega arith, omega arith)

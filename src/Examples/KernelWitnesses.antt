-- ===== src/Examples/KernelWitnesses.antt =====
-- The theorems on sch_dwrr at concrete values.
use mathlib.Core.Path.{refl}
use mq_ecn.Common.{◌%◌, ltb, ◌+◌, ◌*◌, ◌≤◌, ◌<◌, max, min, ◌≡◌, Returns, arith}
use mq_ecn.SchDwrr.Rate.{precompute_ratedata, l2t_ns, ewma_round, reset_round, mq_ecn_thresh}
use mq_ecn.SchDwrr.Bounds.{ewma_round-between, reset_round-forgets, l2t_ns-exact, mq_ecn_thresh-le}
use mq_ecn.SchDwrr.Qdisc.{enqueue}
use mq_ecn.SchDwrr.Arrivals.{EnqueuedCounted, enqueue-EnqueuedCounted}
use mq_ecn.SchDwrr.Dequeue.{dequeue}
use mq_ecn.SchDwrr.Service.{Dequeued, dequeue-Dequeued}
use mq_ecn.Words.{u64_mod}
use mq_ecn.SchWfq.{time_before}
use mq_ecn.SchWfq.Time.{time_before-exact}
use mq_ecn.SchWfq.Service.{DequeuedEarliest, dequeue-DequeuedEarliest}
use mq_ecn.Examples.WfqKernelStates.{weights, weights-Sized, busy, busy-Holds, busy-Window}
use mq_ecn.Examples.KernelStates.{
  backlogged-Timely, backlogged-Prompt, params-Quanta, backlogged-Listed, linux, limit, params,
  params-Shares, packet, backlogged, backlogged-Counts,
}

ewma_round-between_example :
    (min 12000 24000 ≤ ewma_round params 12000 24000)
    × (ewma_round params 12000 24000 ≤ max 12000 24000)
ewma_round-between_example =
    ewma_round-between params 12000 24000 768 refl (omega arith) (omega arith) (omega arith)

reset_round-forgets_example : reset_round params 160000 0 20000 12000 ≡ 0
reset_round-forgets_example =
    reset_round-forgets params 160000 20000 12000 12000 refl (omega arith) (omega arith)
      (omega arith) (omega arith)

l2t_ns-exact_example :
    (l2t_ns (precompute_ratedata 1000000000) 1538 * 1000000000 ≤ 1538 * 8000000000)
    × (1538 * 8000000000 < (l2t_ns (precompute_ratedata 1000000000) 1538 + 2) * 1000000000)
l2t_ns-exact_example = l2t_ns-exact 1000000000 1538 (omega arith) (omega arith)

mq_ecn_thresh-le_example :
    Returns
      (λ n. n ≤ 32000)
      (mq_ecn_thresh params
        (record { rate_bps = 1000000000; mult = 262144; shift = 15 })
        1538
        24000)
mq_ecn_thresh-le_example =
    mq_ecn_thresh-le params (record { rate_bps = 1000000000; mult = 262144; shift = 15 }) 1538 24000
      32000 refl (omega arith) (omega arith) refl

enqueue-EnqueuedCounted_example :
    Returns
      (EnqueuedCounted linux params limit 40002 backlogged packet)
      (enqueue linux params (λ n. 40000 + n) packet backlogged)
enqueue-EnqueuedCounted_example =
    enqueue-EnqueuedCounted linux params limit (λ n. 40000 + n) packet backlogged params-Shares
      backlogged-Counts backlogged-Timely (omega arith) (omega arith)

dequeue-Dequeued_example :
    Returns (Dequeued linux backlogged) (dequeue linux 1 params 30000 30100 backlogged)
unfolding mq_ecn.SchDwrr.Rate.skb_size
dequeue-Dequeued_example =
    dequeue-Dequeued linux 1 params limit 30000 30100 backlogged params-Shares params-Quanta refl
      backlogged-Counts backlogged-Timely backlogged-Prompt backlogged-Listed (omega arith)
      (omega arith)

time_before-exact_example :
    time_before (18446744073709551610 % u64_mod) (18446744073709551626 % u64_mod)
    ≡ ltb 18446744073709551610 18446744073709551626
time_before-exact_example =
    time_before-exact 18446744073709551610 18446744073709551626 (omega arith) (omega arith)

dequeue-DequeuedEarliest_example :
    Returns
      (DequeuedEarliest linux busy)
      (mq_ecn.SchWfq.Dequeue.dequeue linux weights 30000 30100 busy)
dequeue-DequeuedEarliest_example =
    dequeue-DequeuedEarliest linux weights 0 30000 30100 busy weights-Sized busy-Holds (omega arith)
      (omega arith) busy-Window

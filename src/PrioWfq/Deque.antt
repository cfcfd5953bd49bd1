-- ===== src/PrioWfq/Deque.antt =====
-- `PRIO_WFQ::deque` of NS2/scheduling/prio_wfq/prio_wfq.cc.
use mq_ecn.Common.{◌&&◌, Bool, not, Option, none, some, ltb, ◌==◌, if◌then◌else◌, Result, ok, ◌>>=◌}
use mq_ecn.Simulator.{Simulator, of_nat}
use mq_ecn.Port.{Pkt, zero_double, mq_marking_gener}
use mq_ecn.PrioQueues.{first_with_bytes, serve_prio_at}
use mq_ecn.Wfq.{next_estimate}
use mq_ecn.Wfq.Deque.{earliest, serve}
use mq_ecn.PrioWfq.{
  PrioWfq, as_wfq, with_wfq, settings, total_wfq_byte_length, total_prio_byte_length,
}

module _ (ns : Simulator) where
  -- The branch of the higher priority queues, which returns before the estimates are updated.
  unfoldable pub serve_high : PrioWfq ns → ns.Double → Result (Option (Pkt ns) × PrioWfq ns)
  serve_high s now = do
    (p, xs) ←
        serve_prio_at ns (settings ns s) now s.prio_queues
          (first_with_bytes ns s.prio_queue_num s.prio_queues)
    ok (p, record s { prio_queues = xs })

  -- 0.995 intervals have passed since the last update.
  unfoldable pub estimate_due : PrioWfq ns → ns.Double → Bool
  estimate_due s now =
      let interval =
        ns.div (ns.mul (ns.mul (ns.literal 995 3) s.estimate_weight_interval_bytes) (of_nat ns 8))
          s.link_capacity in
      ns.lt (zero_double ns) s.estimate_weight_interval_bytes
      && ns.lt (zero_double ns) s.link_capacity
      && ns.le interval (ns.sub now s.last_update_time)

  -- The update of the estimate at the end of `deque`; only under this scheme is the idle time kept.
  unfoldable pub settle : PrioWfq ns → ns.Double → PrioWfq ns
  settle s now =
      let s' =
        if estimate_due s now
        then record s {
          weight_sum_estimate = next_estimate ns (as_wfq ns s);
          last_update_time = now;
        }
        else s in
      if s.marking_scheme == mq_marking_gener && not s.estimate_weight_enable_timer
      then (if total_wfq_byte_length ns s' == 0 then record s' { last_idle_time = now } else s')
      else s

  -- The branch of the WFQ queues.
  unfoldable pub serve_low : PrioWfq ns → ns.Double → Result (Option (Pkt ns) × PrioWfq ns)
  serve_low s now = do
    (p, d) ←
        serve ns (as_wfq ns s) now (earliest ns s.wfq_queue_num s.wfq_queues 0 none ns.ldbl_max)
    ok (some p, settle (with_wfq ns s d) now)

  unfoldable pub deque : PrioWfq ns → ns.Double → Result (Option (Pkt ns) × PrioWfq ns)
  deque s now =
      if ltb 0 (total_prio_byte_length ns s)
      then serve_high s now
      else if ltb 0 (total_wfq_byte_length ns s)
      then serve_low s now
      else ok (none, settle s now)

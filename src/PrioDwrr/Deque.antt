-- ===== src/PrioDwrr/Deque.antt =====
-- `PRIO_DWRR::deque` of NS2/scheduling/prio_dwrr/prio_dwrr.cc.
use mq_ecn.Common.{Option, none, some, ltb, ◌==◌, if◌then◌else◌, Result, ok, ◌>>=◌}
use mq_ecn.Simulator.{Simulator}
use mq_ecn.Port.{Pkt}
use mq_ecn.PrioQueues.{first_with_bytes, serve_prio_at}
use mq_ecn.Dwrr.Deque.{loop, rounds, update_estimate}
use mq_ecn.PrioDwrr.{
  PrioDwrr, as_dwrr, with_dwrr, settings, total_dwrr_byte_length, total_prio_byte_length,
}

module _ (ns : Simulator) where
  -- The branch of the higher priority queues, which returns before the estimates are updated.
  unfoldable pub serve_high : PrioDwrr ns → ns.Double → Result (Option (Pkt ns) × PrioDwrr ns)
  serve_high s now = do
    (p, xs) ←
        serve_prio_at ns (settings ns s) now s.prio_queues
          (first_with_bytes ns s.prio_queue_num s.prio_queues)
    ok (p, record s { prio_queues = xs })

  -- The update of the estimate and of the idle time at the end of `deque`.
  unfoldable pub settle : PrioDwrr ns → ns.Double → PrioDwrr ns
  settle s now =
      let s' = with_dwrr ns s (update_estimate ns (as_dwrr ns s) now) in
      if total_dwrr_byte_length ns s' == 0 then record s' { last_idle_time = now } else s'

  -- The branch of the DWRR queues: the loop over the active list.
  unfoldable pub serve_low : PrioDwrr ns → ns.Double → Result (Option (Pkt ns) × PrioDwrr ns)
  serve_low s now = do
    (p, d) ← loop ns (rounds ns (as_dwrr ns s)) (as_dwrr ns s) now
    ok (some p, settle (with_dwrr ns s d) now)

  unfoldable pub deque : PrioDwrr ns → ns.Double → Result (Option (Pkt ns) × PrioDwrr ns)
  deque s now =
      if ltb 0 (total_prio_byte_length ns s)
      then serve_high s now
      else if ltb 0 (total_dwrr_byte_length ns s)
      then serve_low s now
      else ok (none, settle s now)

-- ===== src/Wfq/Deque.antt =====
-- `WFQ::deque` of NS2/diffserv/wfq/wfq.cc.
use mq_ecn.Common.{
  ℕ, zero, suc, ◌&&◌, Option, none, some, List, [], ◌∷◌, ltb, ◌==◌, not, if◌then◌else◌, get_elem?,
  set, Result, ok, exited, ◌>>=◌,
}
use mq_ecn.Simulator.{Simulator, of_nat}
use mq_ecn.Port.{
  measure, mark_latency, zero_double, Pkt, or_undefined, mq_marking_gener, latency_marking,
}
use mq_ecn.Wfq.{Slot, Wfq, total_byte_length, has_capacity, next_estimate}

module _ (ns : Simulator) where
  -- The loop that looks for the earliest finish time: `i` counts up, `queue` is the candidate so far
  -- and `min_t` its finish time.
  unfoldable pub earliest : ℕ → List (Slot ns) → ℕ → Option ℕ → ns.Double → Option ℕ
  earliest zero xs i queue min_t = queue
  earliest (suc n) [] i queue min_t = queue
  earliest (suc n) (x ∷ xs) i queue min_t =
      let better = not (ns.packets x.fifo == 0) && ns.lt x.head_finish_time min_t in
      earliest n xs (suc i) (if better then some i else queue)
        (if better then x.head_finish_time else min_t)

  abbrev latency_thresh : Wfq ns → ns.Double
  latency_thresh s =
      if has_capacity ns s
      then ns.div (ns.mul (ns.mul s.port_thresh (of_nat ns s.mean_pktsize)) (of_nat ns 8))
          s.link_capacity
      else zero_double ns

  -- The finish time of the next head packet of the queue `x` at `i`, or the end of its backlog.
  unfoldable pub next_head : Wfq ns → ℕ → Slot ns → Option (Pkt ns) → Result (Wfq ns)
  next_head s i x none = ok (record s {
    slots = set s.slots i (record x { head_finish_time = ns.ldbl_max });
    weight_sum = ns.sub s.weight_sum x.weight;
  })
  next_head s i x (some p) =
      let finish = ns.add x.head_finish_time (ns.div (of_nat ns p.size) x.weight) in
      if ns.lt (zero_double ns) x.weight
      then ok (record s {
        slots = set s.slots i (record x { head_finish_time = finish });
        curr_time = if ns.lt s.curr_time finish then finish else s.curr_time;
      })
      else exited

  -- The head packet of queue `i` leaves. With no candidate the code gives up.
  unfoldable pub serve : Wfq ns → ns.Double → Option ℕ → Result (Pkt ns × Wfq ns)
  serve s now none = exited
  serve s now (some i) = do
    x ← or_undefined (get_elem? s.slots i)
    p ← or_undefined (ns.deque x.fifo)
    let rest = ns.after_deque x.fifo
    let m =
        measure ns now s.link_capacity s.estimate_rate_alpha s.dq_thresh (ns.byte_length rest)
          p.size x.meter
    s' ← next_head s i (record x { fifo = rest; meter = m }) (ns.head rest)
    ok (
      if s.marking_scheme == latency_marking then mark_latency ns now (latency_thresh s) p else p,
      s',
    )

  -- The update of the estimate at the end of `deque`; only under this scheme is the idle time kept.
  unfoldable pub settle : Wfq ns → ns.Double → Wfq ns
  settle s now =
      let interval =
        ns.div (ns.mul (ns.mul (ns.literal 995 3) s.estimate_weight_interval_bytes) (of_nat ns 8))
          s.link_capacity in
      if s.marking_scheme == mq_marking_gener && not s.estimate_weight_enable_timer
      then (let s' =
            if ns.lt (zero_double ns) s.estimate_weight_interval_bytes
              && has_capacity ns s
              && ns.le interval (ns.sub now s.last_update_time)
            then record s { weight_sum_estimate = next_estimate ns s; last_update_time = now }
            else s in
          if total_byte_length ns s' == 0 then record s' { last_idle_time = now } else s')
      else s

  unfoldable pub deque : Wfq ns → ns.Double → Result (Option (Pkt ns) × Wfq ns)
  deque s now =
      if ltb 0 (total_byte_length ns s)
      then (do
        (p, s') ← serve s now (earliest s.queue_num s.slots 0 none ns.ldbl_max)
        ok (some p, settle s' now))
      else ok (none, settle s now)

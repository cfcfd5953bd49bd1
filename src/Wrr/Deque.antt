-- ===== src/Wrr/Deque.antt =====
-- `WRR::deque` of NS2/diffserv/wrr/wrr.cc. The loop takes fuel.
use mq_ecn.Common.{
  ℕ, zero, suc, ◌+◌, ◌-◌, ◌%◌, true, false, Option, none, some, ltb, leb, ◌==◌, if◌then◌else◌,
  get_elem?, set, Result, ok, stuck, ◌>>=◌,
}
use mq_ecn.Simulator.{Simulator, of_nat}
use mq_ecn.Port.{
  measure, mark_latency, zero_double, average, transmission, Pkt, or_undefined, latency_marking,
}
use mq_ecn.Wrr.{Slot, Wrr, total_byte_length, has_capacity}

module _ (ns : Simulator) where
  -- What one round of the loop of `deque` does: it sends a packet, or goes on.
  pub data Turn : Type 0 where
    sent : Pkt ns → Wrr ns → Turn
    moved : Wrr ns → Turn

  -- `(current + 1) % queue_num_`; the loop runs only with a queue.
  abbrev pub next : Wrr ns → ℕ
  next s = (s.current + 1) % s.queue_num

  -- `port_thresh_ * mean_pktsize_ * 8 / link_capacity_`, or 0 without a capacity.
  abbrev latency_thresh : Wrr ns → ns.Double
  latency_thresh s =
      if has_capacity ns s
      then ns.div (ns.mul (ns.mul s.port_thresh (of_nat ns s.mean_pktsize)) (of_nat ns 8))
          s.link_capacity
      else zero_double ns

  -- The queue after its packet `p` has left: counter and rate.
  unfoldable pub take_packet : Wrr ns → ns.Double → Slot ns → Pkt ns → Slot ns
  take_packet s now x p = record x {
    fifo = ns.after_deque x.fifo;
    counter = x.counter - p.size;
    meter =
        measure ns now s.link_capacity s.estimate_rate_alpha s.dq_thresh
          (ns.byte_length (ns.after_deque x.fifo)) p.size x.meter;
  }

  -- The quantum suffices: the packet leaves, and an emptied queue ends its round.
  unfoldable pub serve : Wrr ns → ns.Double → Slot ns → Result Turn
  unfolding take_packet
  serve s now x = do
    p ← or_undefined (ns.deque x.fifo)
    let p' =
        if s.marking_scheme == latency_marking then mark_latency ns now (latency_thresh s) p else p
    let x' = take_packet s now x p
    let finish = ns.add now (transmission ns s.link_capacity p.size)
    let sample = ns.add (ns.sub now x.start_time) (transmission ns s.link_capacity p.size)
    ok (
        sent p' (
          if ns.packets x'.fifo == 0
          then record s {
            slots =
                set s.slots s.current (record x' { start_time = finish; counter_updated = false });
            round_time = average ns s.estimate_round_alpha s.round_time sample;
            current = next s;
          }
          else record s { slots = set s.slots s.current x' }))

  -- The quantum does not suffice: the round of this queue ends.
  unfoldable pub pass : Wrr ns → ns.Double → Slot ns → Turn
  pass s now x = moved (record s {
    slots = set s.slots s.current (record x { start_time = now; counter_updated = false });
    round_time = average ns s.estimate_round_alpha s.round_time (ns.sub now x.start_time);
    current = next s;
  })

  -- An empty queue.
  unfoldable pub skip : Wrr ns → ns.Double → Slot ns → Turn
  skip s now x = moved (record s {
    slots = set s.slots s.current (record x { start_time = now; counter_updated = false });
    current = next s;
  })

  -- The first visit of a round gives the queue its quantum.
  unfoldable pub refresh : Slot ns → Slot ns
  refresh x =
      if x.counter_updated then x else record x { counter_updated = true; counter = x.quantum }

  unfoldable pub visit : Wrr ns → ns.Double → Slot ns → Result Turn
  visit s now x = do
    p ← or_undefined (ns.head x.fifo)
    if leb p.size x.counter then serve s now x else ok (pass s now x)

  unfoldable pub turn : Wrr ns → ns.Double → Result Turn
  turn s now = do
    x ← or_undefined (get_elem? s.slots s.current)
    if ltb 0 (ns.packets x.fifo) then visit s now (refresh x) else ok (skip s now x)

  unfoldable pub loop : ℕ → Wrr ns → ns.Double → Result (Pkt ns × Wrr ns)
  loop zero s now = stuck
  loop (suc fuel) s now =
      turn s now >>= elim [ sent p s' ↦ ok (p, s') | moved s' ↦ loop fuel s' now ]

  -- `last_idle_time` at the end of `deque`.
  unfoldable pub settle : Wrr ns → ns.Double → Wrr ns
  settle s now = if total_byte_length ns s == 0 then record s { last_idle_time = now } else s

  -- A round of all queues and one visit more.
  unfoldable pub deque : Wrr ns → ns.Double → Result (Option (Pkt ns) × Wrr ns)
  deque s now =
      if ltb 0 (total_byte_length ns s)
      then (do (p, s') ← loop (s.queue_num + 1) s now; ok (some p, settle s' now))
      else ok (none, settle s now)

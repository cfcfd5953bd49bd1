-- ===== src/Dwrr/Deque.antt =====
-- `DWRR::deque` of NS2/diffserv/dwrr/dwrr.cc. The loop takes fuel.
use mq_ecn.Common.{
  ℕ, zero, suc, ◌+◌, ◌-◌, Bool, true, false, ◌&&◌, Option, none, some, ltb, leb, ◌==◌, not,
  if◌then◌else◌, get_elem?, set, sum_first, Result, ok, undefined, stuck, ◌>>=◌, sub_int,
}
use mq_ecn.Simulator.{Simulator, of_nat}
use mq_ecn.Port.{
  measure, mark_latency, set_ce, zero_double, average, transmission, Pkt, or_undefined,
  mq_marking_gener, latency_marking,
}
use mq_ecn.ActiveList.{insert_tail, remove_head}
use mq_ecn.Dwrr.{
  Slot, Dwrr, slot_bytes, total_byte_length, has_capacity, next_estimate, marking_ecn,
}

module _ (ns : Simulator) where
  -- What one round of the loop of `deque` does: it sends a packet, or goes on.
  pub data Turn : Type 0 where
    sent : Pkt ns → Dwrr ns → Turn
    moved : Dwrr ns → Turn

  -- `port_thresh_ * mean_pktsize_ * 8 / link_capacity_`, or 0 without a capacity.
  abbrev latency_thresh : Dwrr ns → ns.Double
  latency_thresh s =
      if has_capacity ns s
      then ns.div (ns.mul (ns.mul s.port_thresh (of_nat ns s.mean_pktsize)) (of_nat ns 8))
          s.link_capacity
      else zero_double ns

  -- The first visit of a round adds the quantum.
  unfoldable pub refresh : Slot ns → Slot ns
  refresh x = if x.current then x else record x { deficit = x.deficit + x.quantum; current = true }

  -- The marks on a packet that leaves queue `i`, in the state without it.
  unfoldable pub mark_deque : Dwrr ns → ns.Double → ℕ → Pkt ns → Result (Pkt ns)
  mark_deque s now i p =
      if s.marking_scheme == latency_marking
      then ok (mark_latency ns now (latency_thresh s) p)
      else if s.deque_marking
      then (do must ← marking_ecn ns s i; ok (if must && p.ect then set_ce ns p else p))
      else ok p

  -- The rate measurement for a packet of `size` bytes that has left.
  unfoldable pub meter_slot : Dwrr ns → ns.Double → ℕ → Slot ns → Slot ns
  meter_slot s now size x = record x {
    meter =
        measure ns now s.link_capacity s.estimate_rate_alpha s.dq_thresh (slot_bytes ns x) size
          x.meter;
  }

  -- The queue `x` at `i`, the head of the list, after a packet of `size` bytes has left: an empty
  -- queue leaves the active list.
  unfoldable pub retire : Dwrr ns → ns.Double → ℕ → ℕ → Slot ns → Result (Dwrr ns)
  retire s now i size x =
      if ns.packets x.fifo == 0
      then (do
        (_, links) ← remove_head s.links
        let sample = ns.add (ns.sub now x.start_time) (transmission ns s.link_capacity size)
        ok (record s {
          slots = set s.slots i (record x { deficit = 0; active = false; current = false });
          links = links;
          round_time = average ns s.estimate_round_alpha s.round_time sample;
          quantum_sum = sub_int s.quantum_sum x.quantum;
        }))
      else ok (record s { slots = set s.slots i x })

  -- The deficit counter suffices: the packet leaves.
  unfoldable pub serve : Dwrr ns → ns.Double → ℕ → Slot ns → Result Turn
  unfolding meter_slot
  serve s now i x = do
    p ← or_undefined (ns.deque x.fifo)
    let x' = record x { fifo = ns.after_deque x.fifo; deficit = x.deficit - p.size }
    p' ← mark_deque (record s { slots = set s.slots i x' }) now i p
    s' ← retire s now i p.size (meter_slot s now p.size x')
    ok (sent p' s')

  -- The deficit counter does not suffice: the queue goes to the tail of the list.
  unfoldable pub rotate : Dwrr ns → ns.Double → ℕ → Slot ns → Result Turn
  rotate s now i x = do
    (_, links) ← remove_head s.links
    links' ← insert_tail links i
    ok (
        moved (record s {
          slots = set s.slots i (record x { current = false; start_time = now });
          links = links';
          round_time = average ns s.estimate_round_alpha s.round_time (ns.sub now x.start_time);
        }))

  unfoldable pub visit : Dwrr ns → ns.Double → ℕ → Slot ns → Result Turn
  visit s now i x = do
    p ← or_undefined (ns.head x.fifo)
    if leb p.size x.deficit then serve s now i x else rotate s now i x

  -- With no active flow the code reports it and goes on through the null pointer; at an empty queue
  -- it does nothing.
  unfoldable pub turn_at : Dwrr ns → ns.Double → Option ℕ → Result Turn
  turn_at s now none = undefined
  turn_at s now (some i) = do
    x ← or_undefined (get_elem? s.slots i)
    if ltb 0 (ns.packets x.fifo) then visit s now i (refresh x) else ok (moved s)

  unfoldable pub turn : Dwrr ns → ns.Double → Result Turn
  unfolding turn_at
  turn s now = turn_at s now s.links.first

  unfoldable pub loop : ℕ → Dwrr ns → ns.Double → Result (Pkt ns × Dwrr ns)
  loop zero s now = stuck
  loop (suc fuel) s now =
      turn s now >>= elim [ sent p s' ↦ ok (p, s') | moved s' ↦ loop fuel s' now ]

  -- What a queue still lacks before its head packet leaves, and one for a round that has begun.
  unfoldable pub lacks : Option (Pkt ns) → ℕ → Bool → ℕ
  lacks none deficit current = 0
  lacks (some p) deficit current = p.size - deficit + (if current then 1 else 0)

  abbrev pub need : Slot ns → ℕ
  need x = lacks (ns.head x.fifo) x.deficit x.current

  -- Every round that sends nothing lowers the sum of the needs.
  unfoldable pub rounds : Dwrr ns → ℕ
  rounds s = suc (sum_first need s.queue_num s.slots)

  -- 0.995 intervals have passed since the last update.
  unfoldable pub estimate_due : Dwrr ns → ns.Double → Bool
  estimate_due s now =
      let interval =
        ns.div
          (ns.mul (ns.mul (ns.literal 995 3) (of_nat ns s.estimate_quantum_interval_bytes))
            (of_nat ns 8))
          s.link_capacity in
      s.marking_scheme == mq_marking_gener
      && not s.estimate_quantum_enable_timer
      && ltb 0 s.estimate_quantum_interval_bytes
      && has_capacity ns s
      && ns.le interval (ns.sub now s.last_update_time)

  -- The update of the estimate at the end of `deque`.
  unfoldable pub update_estimate : Dwrr ns → ns.Double → Dwrr ns
  update_estimate s now =
      if estimate_due s now
      then record s { quantum_sum_estimate = next_estimate ns s; last_update_time = now }
      else s

  unfoldable pub settle : Dwrr ns → ns.Double → Dwrr ns
  unfolding update_estimate
  settle s now =
      let s' = update_estimate s now in
      if total_byte_length ns s' == 0 then record s' { last_idle_time = now } else s'

  unfoldable pub deque : Dwrr ns → ns.Double → Result (Option (Pkt ns) × Dwrr ns)
  deque s now =
      if ltb 0 (total_byte_length ns s)
      then (do (p, s') ← loop (rounds s) s now; ok (some p, settle s' now))
      else ok (none, settle s now)

-- ===== src/PrioQueues.antt =====
-- The strict higher priority queues of NS2/scheduling/prio_dwrr/prio_dwrr.cc and
-- NS2/scheduling/prio_wfq/prio_wfq.cc, which hold the same code for them.
pub mod Serve
pub mod Group
use mathlib.Core.Option
use mq_ecn.Common.{
  ℕ, zero, suc, ◌+◌, ◌*◌, Bool, true, false, ◌&&◌, Option, none, some, List, [], ◌∷◌, ltb, ◌==◌,
  if◌then◌else◌, get_elem?, set, sum_first, Result, ok, ◌>>=◌,
}
use mq_ecn.Simulator.{Simulator, of_nat}
use mq_ecn.Port.{
  Meter, new_meter, measure, mark_latency, exceeds, scaled, zero_double, Pkt, or_undefined,
  latency_marking,
}

-- `MAX_PRIO_QUEUE_NUM`.
abbrev pub max_prio_queue_num : ℕ
max_prio_queue_num = 8

module _ (ns : Simulator) where
  -- `PacketPRIO`. Its `id` is the index in the array.
  pub record PrioSlot : Type 0 where
    pub fifo : ns.Queue
    pub thresh : ns.Double
    pub meter : Meter ns

  unfoldable pub new_prio_slot : PrioSlot
  new_prio_slot = record { fifo = ns.new_queue; thresh = zero_double ns; meter = new_meter ns }

  abbrev pub prio_slot_bytes : PrioSlot → ℕ
  prio_slot_bytes x = ns.byte_length x.fifo

  -- `Total_Prio_ByteLength`.
  abbrev pub total_prio_bytes : List PrioSlot → ℕ
  total_prio_bytes xs = sum_first prio_slot_bytes max_prio_queue_num xs

  -- The settings of the port that serving a queue reads.
  pub record Settings : Type 0 where
    pub mean_pktsize : ℕ
    pub port_thresh : ns.Double
    pub marking_scheme : ℕ
    pub dq_thresh : ℕ
    pub estimate_rate_alpha : ns.Double
    pub link_capacity : ns.Double

  -- The threshold of a queue under `PIE_MARKING`.
  unfoldable pub prio_pie_thresh : Settings → PrioSlot → ns.Double
  prio_pie_thresh c x =
      if ns.le (ns.literal 1 9) x.meter.avg_dq_rate && ns.lt (zero_double ns) c.link_capacity
      then scaled ns (ns.div x.meter.avg_dq_rate c.link_capacity) c.port_thresh
      else c.port_thresh

  -- `port_thresh_ * mean_pktsize_ * 8 / link_capacity_`, or 0 without a capacity.
  abbrev prio_latency_thresh : Settings → ns.Double
  prio_latency_thresh c =
      if ns.lt (zero_double ns) c.link_capacity
      then ns.div (ns.mul (ns.mul c.port_thresh (of_nat ns c.mean_pktsize)) (of_nat ns 8))
          c.link_capacity
      else zero_double ns

  -- The first of the first `n` queues that holds a byte.
  unfoldable pub first_with_bytes : ℕ → List PrioSlot → Option ℕ
  first_with_bytes zero xs = none
  first_with_bytes (suc n) [] = none
  first_with_bytes (suc n) (x ∷ xs) =
      if ltb 0 (ns.byte_length x.fifo) then some 0 else Option.map suc (first_with_bytes n xs)

  -- The body of the loop of `deque`, at a queue that holds a byte.
  unfoldable pub serve_prio : Settings → ns.Double → PrioSlot → Result (Pkt ns × PrioSlot)
  serve_prio c now x = do
    p ← or_undefined (ns.deque x.fifo)
    let rest = ns.after_deque x.fifo
    let p' =
        if c.marking_scheme == latency_marking
        then mark_latency ns now (prio_latency_thresh c) p
        else p
    let m =
        measure ns now c.link_capacity c.estimate_rate_alpha c.dq_thresh (ns.byte_length rest)
          p.size x.meter
    ok (p', record x { fifo = rest; meter = m })

  -- The loop of `deque`, once the queue to serve is found; with none `pkt` is still NULL.
  unfoldable pub serve_prio_at :
      Settings → ns.Double → List PrioSlot → Option ℕ → Result (Option (Pkt ns) × List PrioSlot)
  serve_prio_at c now xs none = ok (none, xs)
  serve_prio_at c now xs (some i) = do
    x ← or_undefined (get_elem? xs i)
    (p, x') ← serve_prio c now x
    ok (some p, set xs i x')

-- ===== src/Priority.antt =====
-- NS2/scheduling/priority/priority.h and priority.cc: strict priority queueing. `now` is
-- `Scheduler::instance().clock()` during the call. The arrays `queues`, `dq_tstamps`, `dq_counts`
-- and `avg_dq_rates` are one list of `Slot`s.
pub mod Refine
pub mod Ecn
pub mod Service
pub mod Runs
use Prim.Native.String.{String}
use text.Mathlib.Text.{◌==◌ as str_eq}
use mathlib.Core.Option
use mq_ecn.Common.{
  ℕ, zero, suc, ◌*◌, ◌+◌, min, max, Bool, true, false, ◌&&◌, Option, none, some, List, [], ◌∷◌, ltb,
  leb, ◌==◌, not, if◌then◌else◌, get_elem?, set, replicate, sum_first, Result, ok, exited, ◌>>=◌,
}
use mq_ecn.Simulator.{Simulator, of_nat}
use mq_ecn.Port.{
  Meter, new_meter, measure, mark_latency, mark_enque, exceeds, scaled, zero_double, Pkt, Fate,
  queued, dropped, Status, tcl_ok, tcl_error, clamp_prio, or_undefined, per_queue_marking,
  per_port_marking, latency_marking, pie_marking, max_queue_num,
}

module _ (ns : Simulator) where
  pub record Slot : Type 0 where
    pub fifo : ns.Queue
    pub meter : Meter ns

  pub record Priority : Type 0 where
    pub slots : List Slot
    pub queue_num : ℕ
    pub qlim : ℕ
    pub mean_pktsize : ℕ
    pub thresh : ℕ
    pub marking_scheme : ℕ
    pub dq_thresh : ℕ
    pub estimate_rate_alpha : ns.Double
    pub link_capacity : ns.Double
    pub total_qlen_tchan : Option ℕ
    pub qlen_tchan : Option ℕ

  abbrev pub new_slot : Slot
  new_slot = record { fifo = ns.new_queue; meter = new_meter ns }

  -- The constructor, at its defaults. `qlim` is the base class's.
  unfoldable pub new_priority : ℕ → Priority
  new_priority qlim = record {
    slots = replicate max_queue_num new_slot;
    queue_num = max_queue_num;
    qlim = qlim;
    mean_pktsize = 1500;
    thresh = 65;
    marking_scheme = per_queue_marking;
    dq_thresh = 10000;
    estimate_rate_alpha = ns.literal 875 3;
    link_capacity = of_nat ns 10000000000;
    total_qlen_tchan = none;
    qlen_tchan = none;
  }

  abbrev pub slot_bytes : Slot → ℕ
  slot_bytes x = ns.byte_length x.fifo

  unfoldable pub total_byte_length : Priority → ℕ
  total_byte_length s = sum_first slot_bytes max_queue_num s.slots

  -- `MarkingECN` once the queue is found.
  unfoldable pub marks : Priority → Slot → Bool
  marks s x =
      if s.marking_scheme == per_queue_marking
      then ltb (s.thresh * s.mean_pktsize) (ns.byte_length x.fifo)
      else if s.marking_scheme == per_port_marking
      then ltb (s.thresh * s.mean_pktsize) (total_byte_length s)
      else if s.marking_scheme == pie_marking
      then exceeds ns (ns.byte_length x.fifo) threshold s.mean_pktsize
      else false
    where
      threshold : ns.Double
      threshold =
          if ns.lt (zero_double ns) x.meter.avg_dq_rate && ns.lt (zero_double ns) s.link_capacity
          then scaled ns (ns.div x.meter.avg_dq_rate s.link_capacity) (of_nat ns s.thresh)
          else of_nat ns s.thresh

  unfoldable pub marking_ecn : Priority → ℕ → Result Bool
  marking_ecn s q =
      if leb s.queue_num q
      then exited
      else do x ← or_undefined (get_elem? s.slots q); ok (marks s x)

  -- `queues[i].enque(p)`.
  abbrev pub put : Slot → Pkt ns → Slot
  put x p = record x { fifo = ns.enque p x.fifo }

  -- `enque` once the buffer has room. `MarkingECN` sees the packet in its queue; the flags that
  -- are then written through the pointer `p` are those of the packet there.
  unfoldable pub admit : Priority → ns.Double → Pkt ns → Result (Fate × Priority)
  admit s now p = do
    i ← clamp_prio s.queue_num p.prio
    x ← or_undefined (get_elem? s.slots i)
    must ←
        if not (s.marking_scheme == latency_marking)
        then marking_ecn (record s { slots = set s.slots i (put x p) }) i
        else ok false
    let p' = mark_enque ns s.marking_scheme true now must p
    ok (queued, record s { slots = set s.slots i (put x p') })

  unfoldable pub enque : Priority → ns.Double → Pkt ns → Result (Fate × Priority)
  enque s now p =
      let s' = record s { queue_num = max (min s.queue_num max_queue_num) 1 } in
      if ltb (s'.qlim * s'.mean_pktsize) (total_byte_length s' + p.size)
      then ok (dropped, s')
      else admit s' now p

  -- The first of the first `n` queues that holds a packet.
  unfoldable pub first_backlogged : ℕ → List Slot → Option ℕ
  first_backlogged zero xs = none
  first_backlogged (suc n) [] = none
  first_backlogged (suc n) (x ∷ xs) =
      if ltb 0 (ns.packets x.fifo) then some 0 else Option.map suc (first_backlogged n xs)

  -- `port_thresh_ * mean_pktsize_ * 8 / link_capacity_`, or 0 without a capacity.
  abbrev latency_thresh : Priority → ns.Double
  latency_thresh s =
      if ns.lt (zero_double ns) s.link_capacity
      then ns.div (of_nat ns (s.thresh * s.mean_pktsize * 8)) s.link_capacity
      else zero_double ns

  -- The body of the loop of `deque`, at a queue that holds a packet.
  unfoldable pub serve : Priority → ns.Double → Slot → Result (Pkt ns × Slot)
  serve s now x = do
    p ← or_undefined (ns.deque x.fifo)
    let rest = ns.after_deque x.fifo
    let p' =
        if s.marking_scheme == latency_marking then mark_latency ns now (latency_thresh s) p else p
    let m =
        measure ns now s.link_capacity s.estimate_rate_alpha s.dq_thresh (ns.byte_length rest)
          p.size x.meter
    ok (p', record { fifo = rest; meter = m })

  -- The loop of `deque`, once the queue to serve is found.
  unfoldable pub serve_at : Priority → ns.Double → Option ℕ → Result (Option (Pkt ns) × Priority)
  serve_at s now none = ok (none, s)
  serve_at s now (some i) = do
    x ← or_undefined (get_elem? s.slots i)
    (p, x') ← serve s now x
    ok (some p, record s { slots = set s.slots i x' })

  unfoldable pub deque : Priority → ns.Double → Result (Option (Pkt ns) × Priority)
  deque s now =
      if ltb 0 (total_byte_length s)
      then serve_at s now (first_backlogged s.queue_num s.slots)
      else ok (none, s)

  -- `attach-total` and `attach-queue`, given the channel that Tcl finds.
  unfoldable pub attach_total : Priority → Option ℕ → Result (Status × Priority)
  attach_total s none = ok (tcl_error, record s { total_qlen_tchan = none })
  attach_total s (some c) = ok (tcl_ok, record s { total_qlen_tchan = some c })

  unfoldable pub attach_queue : Priority → Option ℕ → Result (Status × Priority)
  attach_queue s none = ok (tcl_error, record s { qlen_tchan = none })
  attach_queue s (some c) = ok (tcl_ok, record s { qlen_tchan = some c })

  -- The list is `argv`, and `argc` its length. `inherited` is `Queue::command` of ns-2.
  unfoldable pub command :
      (Priority → List String → Result (Status × Priority))
      → Priority
      → List String
      → Result (Status × Priority)
  command inherited s (self ∷ name ∷ id ∷ []) =
      if str_eq name "attach-total"
      then attach_total s (ns.get_channel id)
      else if str_eq name "attach-queue"
      then attach_queue s (ns.get_channel id)
      else inherited s (self ∷ name ∷ id ∷ [])
  command inherited s args = inherited s args

-- ===== src/Wrr.antt =====
-- NS2/diffserv/wrr/wrr.h and wrr.cc: weighted round robin with MQ-ECN marking. `now` is
-- `Scheduler::instance().clock()` during the call. The loop of `deque` takes fuel.
pub mod Deque
pub mod Command
pub mod Refine
pub mod Ecn
pub mod Marking
pub mod Control
pub mod Turns
pub mod Rounds
pub mod Starvation
use mq_ecn.Common.{
  ℕ, zero, suc, ◌*◌, ◌+◌, ◌-◌, ◌%◌, min, ℤ, pos, negsuc, Bool, true, false, ◌&&◌, Option, none,
  some, List, [], ◌∷◌, ltb, leb, ◌==◌, not, if◌then◌else◌, get_elem?, set, replicate, sum_first,
  Result, ok, exited, stuck, ◌>>=◌,
}
use mq_ecn.Simulator.{Simulator, of_nat}
use mq_ecn.Port.{
  Meter, new_meter, measure, mark_latency, mark_enque, exceeds, scaled, zero_double, average,
  transmission, Pkt, Fate, queued, dropped, Status, tcl_ok, tcl_error, clamp_prio, or_undefined,
  per_queue_marking, per_port_marking, mq_marking_rr, latency_marking, pie_marking, max_queue_num,
}

module _ (ns : Simulator) where
  -- `PacketWRR`.
  pub record Slot : Type 0 where
    pub fifo : ns.Queue
    pub quantum : ℕ
    pub counter : ℕ
    pub thresh : ns.Double
    pub start_time : ns.Double
    pub meter : Meter ns
    pub counter_updated : Bool

  pub record Wrr : Type 0 where
    pub slots : List Slot
    pub round_time : ns.Double
    pub last_idle_time : ns.Double
    pub current : ℕ
    pub queue_num : ℕ
    pub qlim : ℕ
    pub mean_pktsize : ℕ
    pub port_thresh : ns.Double
    pub marking_scheme : ℕ
    pub estimate_round_alpha : ns.Double
    pub estimate_round_idle_interval_bytes : ℕ
    pub link_capacity : ns.Double
    pub dq_thresh : ℕ
    pub estimate_rate_alpha : ns.Double
    pub total_qlen_tchan : Option ℕ
    pub qlen_tchan : Option ℕ

  unfoldable pub new_slot : Slot
  new_slot = record {
    fifo = ns.new_queue;
    quantum = 1500;
    counter = 0;
    thresh = zero_double ns;
    start_time = zero_double ns;
    meter = new_meter ns;
    counter_updated = false;
  }

  -- The constructor, at its defaults. `qlim` is the base class's.
  unfoldable pub new_wrr : ℕ → Wrr
  unfolding new_slot
  new_wrr qlim = record {
    slots = replicate max_queue_num new_slot;
    round_time = zero_double ns;
    last_idle_time = zero_double ns;
    current = 0;
    queue_num = 8;
    qlim = qlim;
    mean_pktsize = 1500;
    port_thresh = of_nat ns 65;
    marking_scheme = 0;
    estimate_round_alpha = ns.literal 75 2;
    estimate_round_idle_interval_bytes = 1500;
    link_capacity = of_nat ns 10000000000;
    dq_thresh = 10000;
    estimate_rate_alpha = ns.literal 875 3;
    total_qlen_tchan = none;
    qlen_tchan = none;
  }

  abbrev pub slot_bytes : Slot → ℕ
  slot_bytes x = ns.byte_length x.fifo

  unfoldable pub total_byte_length : Wrr → ℕ
  total_byte_length s = sum_first slot_bytes s.queue_num s.slots

  abbrev pub has_capacity : Wrr → Bool
  has_capacity s = ns.lt (zero_double ns) s.link_capacity

  -- The threshold of a queue under `MQ_MARKING_RR`.
  unfoldable pub rr_thresh : Wrr → Slot → ns.Double
  rr_thresh s x =
      if ns.le (ns.literal 1 9) s.round_time && has_capacity s
      then scaled ns (ns.div (ns.div (of_nat ns (x.quantum * 8)) s.round_time) s.link_capacity)
          s.port_thresh
      else s.port_thresh

  -- The threshold of a queue under `PIE_MARKING`.
  unfoldable pub pie_thresh : Wrr → Slot → ns.Double
  pie_thresh s x =
      if ns.lt (zero_double ns) x.meter.avg_dq_rate && has_capacity s
      then scaled ns (ns.div x.meter.avg_dq_rate s.link_capacity) s.port_thresh
      else s.port_thresh

  -- `MarkingECN` once the queue is found.
  unfoldable pub marks : Wrr → Slot → Bool
  marks s x =
      if s.marking_scheme == per_queue_marking
      then exceeds ns (slot_bytes x) x.thresh s.mean_pktsize
      else if s.marking_scheme == per_port_marking
      then exceeds ns (total_byte_length s) s.port_thresh s.mean_pktsize
      else if s.marking_scheme == mq_marking_rr
      then exceeds ns (slot_bytes x) (rr_thresh s x) s.mean_pktsize
      else if s.marking_scheme == pie_marking
      then exceeds ns (slot_bytes x) (pie_thresh s x) s.mean_pktsize
      else false

  unfoldable pub marking_ecn : Wrr → ℕ → Result Bool
  marking_ecn s q =
      if leb s.queue_num q
      then exited
      else do x ← or_undefined (get_elem? s.slots q); ok (marks s x)

  -- `for (i = 0; i < n; i++) queues[i].start_time = now`.
  unfoldable pub reset_start : ns.Double → ℕ → List Slot → List Slot
  reset_start now zero xs = xs
  reset_start now (suc n) [] = []
  reset_start now (suc n) (x ∷ xs) = record x { start_time = now } ∷ reset_start now n xs

  -- `round_time` after the idle time up to `now`.
  unfoldable pub idle_round_time : Wrr → ns.Double → ns.Double
  idle_round_time s now =
      let idle_time = ns.sub now s.last_idle_time in
      let interval =
        ns.div (of_nat ns (s.estimate_round_idle_interval_bytes * 8)) s.link_capacity in
      let interval_num = ns.truncate (ns.div idle_time interval) in
      if ltb 0 s.estimate_round_idle_interval_bytes && has_capacity s
      then ns.mul s.round_time (ns.pow s.estimate_round_alpha (ns.of_int interval_num))
      else zero_double ns

  -- What `enque` does first when all queues are empty.
  unfoldable pub wake : Wrr → ns.Double → Wrr
  wake s now =
      if total_byte_length s == 0
      then record s {
        round_time = idle_round_time s now;
        slots = reset_start now s.queue_num s.slots;
      }
      else s

  -- `queues[i].enque(p)`.
  abbrev pub put : Slot → Pkt ns → Slot
  put x p = record x { fifo = ns.enque p x.fifo }

  -- `enque` once the buffer has room. `MarkingECN` sees the packet in its queue; the flags that
  -- are then written through the pointer `p` are those of the packet there.
  unfoldable pub admit : Wrr → ns.Double → Pkt ns → Result (Fate × Wrr)
  admit s now p = do
    i ← clamp_prio s.queue_num p.prio
    x ← or_undefined (get_elem? s.slots i)
    must ←
        if not (s.marking_scheme == latency_marking)
        then marking_ecn (record s { slots = set s.slots i (put x p) }) i
        else ok false
    let p' = mark_enque ns s.marking_scheme true now must p
    ok (queued, record s { slots = set s.slots i (put x p') })

  -- The test of the shared buffer, and what follows it.
  unfoldable pub offer : Wrr → ns.Double → Pkt ns → Result (Fate × Wrr)
  offer s now p =
      if ltb (s.qlim * s.mean_pktsize) (total_byte_length s + p.size)
      then ok (dropped, s)
      else admit s now p

  unfoldable pub enque : Wrr → ns.Double → Pkt ns → Result (Fate × Wrr)
  enque s now p = offer (wake (record s { queue_num = min s.queue_num max_queue_num }) now) now p

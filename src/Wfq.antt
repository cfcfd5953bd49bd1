-- ===== src/Wfq.antt =====
-- NS2/diffserv/wfq/wfq.h and wfq.cc: weighted fair queueing with MQ-ECN marking. `now` is
-- `Scheduler::instance().clock()` during the call. A `long double` is held in the type of doubles.
pub mod Deque
pub mod Command
pub mod Refine
pub mod Ecn
pub mod Marking
pub mod Control
pub mod Earliest
pub mod Service
use mq_ecn.Common.{
  ℕ, ◌*◌, ◌+◌, min, ℤ, pos, Bool, true, false, ◌&&◌, Option, none, some, List, ltb, leb, ◌==◌, not,
  if◌then◌else◌, get_elem?, set, replicate, sum_first, Result, ok, exited, ◌>>=◌, add_int,
}
use mq_ecn.Simulator.{Simulator, of_nat}
use mq_ecn.Port.{
  Meter, new_meter, mark_enque, exceeds, scaled, zero_double, average, transmission, Pkt, Fate,
  queued, dropped, clamp_prio, or_undefined, per_queue_marking, per_port_marking, mq_marking_gener,
  mq_marking_rr, latency_marking, pie_marking, max_queue_num,
}

module _ (ns : Simulator) where
  -- `PacketWFQ`.
  pub record Slot : Type 0 where
    pub fifo : ns.Queue
    pub weight : ns.Double
    pub head_finish_time : ns.Double
    pub thresh : ns.Double
    pub meter : Meter ns

  -- `timer` is the delay that `timer_.resched` was last given.
  pub record Wfq : Type 0 where
    pub slots : List Slot
    pub curr_time : ns.Double
    pub timer : Option ns.Double
    pub weight_sum_estimate : ns.Double
    pub weight_sum : ns.Double
    pub last_update_time : ns.Double
    pub last_idle_time : ns.Double
    pub init : Bool
    pub queue_num : ℕ
    pub qlim : ℕ
    pub mean_pktsize : ℕ
    pub port_thresh : ns.Double
    pub marking_scheme : ℕ
    pub estimate_weight_alpha : ns.Double
    pub estimate_weight_interval_bytes : ns.Double
    pub estimate_weight_enable_timer : Bool
    pub dq_thresh : ℕ
    pub estimate_rate_alpha : ns.Double
    pub link_capacity : ns.Double
    pub total_qlen_tchan : Option ℕ
    pub qlen_tchan : Option ℕ

  unfoldable pub new_slot : Slot
  new_slot = record {
    fifo = ns.new_queue;
    weight = of_nat ns 10000;
    head_finish_time = zero_double ns;
    thresh = zero_double ns;
    meter = new_meter ns;
  }

  -- The constructor, at its defaults. `qlim` is the base class's.
  unfoldable pub new_wfq : ℕ → Wfq
  unfolding new_slot
  new_wfq qlim = record {
    slots = replicate max_queue_num new_slot;
    curr_time = zero_double ns;
    timer = none;
    weight_sum_estimate = zero_double ns;
    weight_sum = zero_double ns;
    last_update_time = zero_double ns;
    last_idle_time = zero_double ns;
    init = false;
    queue_num = 8;
    qlim = qlim;
    mean_pktsize = 1500;
    port_thresh = of_nat ns 65;
    marking_scheme = 0;
    estimate_weight_alpha = ns.literal 75 2;
    estimate_weight_interval_bytes = of_nat ns 1500;
    estimate_weight_enable_timer = false;
    dq_thresh = 10000;
    estimate_rate_alpha = ns.literal 875 3;
    link_capacity = of_nat ns 10000000000;
    total_qlen_tchan = none;
    qlen_tchan = none;
  }

  abbrev pub slot_bytes : Slot → ℕ
  slot_bytes x = ns.byte_length x.fifo

  unfoldable pub total_byte_length : Wfq → ℕ
  total_byte_length s = sum_first slot_bytes s.queue_num s.slots

  abbrev pub has_capacity : Wfq → Bool
  has_capacity s = ns.lt (zero_double ns) s.link_capacity

  -- `weight_sum_estimate * alpha + weight_sum * (1 - alpha)`.
  abbrev pub next_estimate : Wfq → ns.Double
  next_estimate s = average ns s.estimate_weight_alpha s.weight_sum_estimate s.weight_sum

  -- `estimate_weight_interval_bytes_ * 8 / link_capacity_`.
  abbrev pub weight_interval : Wfq → ns.Double
  weight_interval s = ns.div (ns.mul s.estimate_weight_interval_bytes (of_nat ns 8)) s.link_capacity

  unfoldable pub timeout : Wfq → Wfq
  timeout s = record s {
    weight_sum_estimate = next_estimate s;
    timer = if has_capacity s then some (weight_interval s) else s.timer;
  }

  -- The threshold of a queue under `MQ_MARKING_GENER`.
  unfoldable pub gener_thresh : Wfq → Slot → ns.Double
  gener_thresh s x =
      if ns.le (ns.literal 1 9) s.weight_sum_estimate
      then scaled ns (ns.div x.weight s.weight_sum_estimate) s.port_thresh
      else s.port_thresh

  -- The threshold of a queue under `PIE_MARKING`.
  unfoldable pub pie_thresh : Wfq → Slot → ns.Double
  pie_thresh s x =
      if ns.lt (zero_double ns) x.meter.avg_dq_rate && has_capacity s
      then scaled ns (ns.div x.meter.avg_dq_rate s.link_capacity) s.port_thresh
      else s.port_thresh

  -- `MarkingECN` once the queue is found.
  unfoldable pub marks : Wfq → Slot → Bool
  marks s x =
      if s.marking_scheme == per_queue_marking
      then exceeds ns (slot_bytes x) x.thresh s.mean_pktsize
      else if s.marking_scheme == per_port_marking
      then exceeds ns (total_byte_length s) s.port_thresh s.mean_pktsize
      else if s.marking_scheme == mq_marking_gener
      then exceeds ns (slot_bytes x) (gener_thresh s x) s.mean_pktsize
      else if s.marking_scheme == pie_marking
      then exceeds ns (slot_bytes x) (pie_thresh s x) s.mean_pktsize
      else false

  unfoldable pub marking_ecn : Wfq → ℕ → Result Bool
  marking_ecn s q =
      if leb s.queue_num q
      then exited
      else do x ← or_undefined (get_elem? s.slots q); ok (marks s x)

  -- The start of the timer at the first packet.
  unfoldable pub start_timer : Wfq → Wfq
  start_timer s = if s.init then s else record s {
    init = true;
    timer =
        if s.marking_scheme == mq_marking_gener
          && s.estimate_weight_enable_timer
          && ns.lt (zero_double ns) s.estimate_weight_interval_bytes
          && has_capacity s
        then some (weight_interval s)
        else s.timer;
  }

  -- `weight_sum_estimate` after the idle time up to `now`.
  unfoldable pub idle_weight_sum : Wfq → ns.Double → ns.Double
  idle_weight_sum s now =
      if ns.lt (zero_double ns) s.estimate_weight_interval_bytes && has_capacity s
      then ns.mul s.weight_sum_estimate (
          ns.pow s.estimate_weight_alpha (ns.div (ns.sub now s.last_idle_time) (weight_interval s)))
      else zero_double ns

  -- What `enque` does when all queues are empty.
  unfoldable pub wake : Wfq → ns.Double → Wfq
  wake s now =
      if total_byte_length s == 0
        && s.marking_scheme == mq_marking_gener
        && not s.estimate_weight_enable_timer
      then record s { weight_sum_estimate = idle_weight_sum s now; last_update_time = now }
      else s

  -- `queues[i].enque(p)`.
  abbrev pub put : Slot → Pkt ns → Slot
  put x p = record x { fifo = ns.enque p x.fifo }

  -- The finish times for a packet of `size` bytes that comes to an empty queue.
  unfoldable pub start_queue : Wfq → ℕ → ℕ → Slot → Result Wfq
  start_queue s i size x =
      let finish = ns.add s.curr_time (ns.div (of_nat ns size) x.weight) in
      if not (ns.packets x.fifo == 0)
      then ok s
      else if ns.lt (zero_double ns) x.weight
      then ok (record s {
        slots = set s.slots i (record x { head_finish_time = finish });
        curr_time = finish;
        weight_sum = ns.add s.weight_sum x.weight;
      })
      else exited

  -- `enque` once the buffer has room. `MarkingECN` sees the packet in its queue; the flags that
  -- are then written through the pointer `p` are those of the packet there.
  unfoldable pub admit : Wfq → ns.Double → Pkt ns → Result (Fate × Wfq)
  admit s now p = do
    i ← clamp_prio s.queue_num p.prio
    x ← or_undefined (get_elem? s.slots i)
    started ← start_queue s i p.size x
    y ← or_undefined (get_elem? started.slots i)
    must ←
        if not (s.marking_scheme == latency_marking)
        then marking_ecn (record started { slots = set started.slots i (put y p) }) i
        else ok false
    let p' = mark_enque ns s.marking_scheme true now must p
    ok (queued, record started { slots = set started.slots i (put y p') })

  -- The test of the shared buffer, and what follows it.
  unfoldable pub offer : Wfq → ns.Double → Pkt ns → Result (Fate × Wfq)
  offer s now p =
      if ltb (s.qlim * s.mean_pktsize) (total_byte_length s + p.size)
      then ok (dropped, s)
      else admit s now p

  unfoldable pub enque : Wfq → ns.Double → Pkt ns → Result (Fate × Wfq)
  enque s now p =
      offer (wake (start_timer (record s { queue_num = min s.queue_num max_queue_num })) now) now p

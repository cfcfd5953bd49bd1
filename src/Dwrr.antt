-- ===== src/Dwrr.antt =====
-- NS2/diffserv/dwrr/dwrr.h and dwrr.cc: deficit weighted round robin with MQ-ECN marking. `now` is
-- `Scheduler::instance().clock()` during the call. The loop of `deque` takes fuel.
pub mod Deque
pub mod Command
pub mod Invariant
pub mod Refine
pub mod Ecn
pub mod Runs
pub mod Marking
pub mod Control
pub mod Turns
pub mod Rounds
use mq_ecn.Common.{
  ℕ, ◌*◌, ◌+◌, min, ℤ, pos, Bool, true, false, ◌&&◌, Option, none, some, List, ltb, leb, ◌==◌, not,
  if◌then◌else◌, get_elem?, set, replicate, sum_first, Result, ok, exited, ◌>>=◌, add_int,
}
use mq_ecn.Simulator.{Simulator, of_nat}
use mq_ecn.Port.{
  Meter, new_meter, mark_enque, exceeds, scaled, zero_double, average, transmission, Pkt, Fate,
  queued, dropped, clamp_prio, or_undefined, per_queue_marking, per_port_marking, mq_marking_gener,
  mq_marking_rr, latency_marking, pie_marking, max_queue_num,
}
use mq_ecn.ActiveList.{Links, no_links, insert_tail}

module _ (ns : Simulator) where
  -- `PacketDWRR`. Its `id` is the index in the array, and its `next` stands in `Links`.
  pub record Slot : Type 0 where
    pub fifo : ns.Queue
    pub quantum : ℕ
    pub deficit : ℕ
    pub thresh : ns.Double
    pub active : Bool
    pub current : Bool
    pub start_time : ns.Double
    pub meter : Meter ns

  -- `timer` is the delay that `timer_.resched` was last given.
  pub record Dwrr : Type 0 where
    pub slots : List Slot
    pub links : Links
    pub timer : Option ns.Double
    pub round_time : ns.Double
    pub quantum_sum_estimate : ns.Double
    pub quantum_sum : ℤ
    pub last_update_time : ns.Double
    pub last_idle_time : ns.Double
    pub init : Bool
    pub queue_num : ℕ
    pub qlim : ℕ
    pub mean_pktsize : ℕ
    pub port_thresh : ns.Double
    pub marking_scheme : ℕ
    pub estimate_round_alpha : ns.Double
    pub estimate_round_idle_interval_bytes : ℕ
    pub estimate_quantum_alpha : ns.Double
    pub estimate_quantum_interval_bytes : ℕ
    pub estimate_quantum_enable_timer : Bool
    pub dq_thresh : ℕ
    pub estimate_rate_alpha : ns.Double
    pub link_capacity : ns.Double
    pub deque_marking : Bool
    pub total_qlen_tchan : Option ℕ
    pub qlen_tchan : Option ℕ

  unfoldable pub new_slot : Slot
  new_slot = record {
    fifo = ns.new_queue;
    quantum = 1500;
    deficit = 0;
    thresh = zero_double ns;
    active = false;
    current = false;
    start_time = zero_double ns;
    meter = new_meter ns;
  }

  -- The constructor, at its defaults. `qlim` is the base class's.
  unfoldable pub new_dwrr : ℕ → Dwrr
  unfolding new_slot no_links
  new_dwrr qlim = record {
    slots = replicate max_queue_num new_slot;
    links = no_links max_queue_num;
    timer = none;
    round_time = zero_double ns;
    quantum_sum_estimate = zero_double ns;
    quantum_sum = pos 0;
    last_update_time = zero_double ns;
    last_idle_time = zero_double ns;
    init = false;
    queue_num = 8;
    qlim = qlim;
    mean_pktsize = 1500;
    port_thresh = of_nat ns 65;
    marking_scheme = 0;
    estimate_round_alpha = ns.literal 75 2;
    estimate_round_idle_interval_bytes = 1500;
    estimate_quantum_alpha = ns.literal 75 2;
    estimate_quantum_interval_bytes = 1500;
    estimate_quantum_enable_timer = false;
    dq_thresh = 10000;
    estimate_rate_alpha = ns.literal 875 3;
    link_capacity = of_nat ns 10000000000;
    deque_marking = false;
    total_qlen_tchan = none;
    qlen_tchan = none;
  }

  abbrev pub slot_bytes : Slot → ℕ
  slot_bytes x = ns.byte_length x.fifo

  unfoldable pub total_byte_length : Dwrr → ℕ
  total_byte_length s = sum_first slot_bytes s.queue_num s.slots

  abbrev pub has_capacity : Dwrr → Bool
  has_capacity s = ns.lt (zero_double ns) s.link_capacity

  -- `quantum_sum_estimate * alpha + quantum_sum * (1 - alpha)`.
  abbrev pub next_estimate : Dwrr → ns.Double
  next_estimate s =
      average ns s.estimate_quantum_alpha s.quantum_sum_estimate (ns.of_int s.quantum_sum)

  -- `estimate_quantum_interval_bytes_ * 8 / link_capacity_`.
  abbrev pub quantum_interval : Dwrr → ns.Double
  quantum_interval s = transmission ns s.link_capacity s.estimate_quantum_interval_bytes

  unfoldable pub timeout : Dwrr → Dwrr
  timeout s = record s {
    quantum_sum_estimate = next_estimate s;
    timer = if has_capacity s then some (quantum_interval s) else s.timer;
  }

  -- The threshold of a queue under `MQ_MARKING_GENER`.
  unfoldable pub gener_thresh : Dwrr → Slot → ns.Double
  gener_thresh s x =
      if ns.le (ns.literal 1 9) s.quantum_sum_estimate
      then scaled ns (ns.div (of_nat ns x.quantum) s.quantum_sum_estimate) s.port_thresh
      else s.port_thresh

  -- The threshold of a queue under `MQ_MARKING_RR`.
  unfoldable pub rr_thresh : Dwrr → Slot → ns.Double
  rr_thresh s x =
      if ns.le (ns.literal 1 9) s.round_time && has_capacity s
      then scaled ns (ns.div (ns.div (of_nat ns (x.quantum * 8)) s.round_time) s.link_capacity)
          s.port_thresh
      else s.port_thresh

  -- The threshold of a queue under `PIE_MARKING`.
  unfoldable pub pie_thresh : Dwrr → Slot → ns.Double
  pie_thresh s x =
      if ns.le (ns.literal 1 9) x.meter.avg_dq_rate && has_capacity s
      then scaled ns (ns.div x.meter.avg_dq_rate s.link_capacity) s.port_thresh
      else s.port_thresh

  -- `MarkingECN` once the queue is found.
  unfoldable pub marks : Dwrr → Slot → Bool
  marks s x =
      if s.marking_scheme == per_queue_marking
      then exceeds ns (slot_bytes x) x.thresh s.mean_pktsize
      else if s.marking_scheme == per_port_marking
      then exceeds ns (total_byte_length s) s.port_thresh s.mean_pktsize
      else if s.marking_scheme == mq_marking_gener
      then exceeds ns (slot_bytes x) (gener_thresh s x) s.mean_pktsize
      else if s.marking_scheme == mq_marking_rr
      then exceeds ns (slot_bytes x) (rr_thresh s x) s.mean_pktsize
      else if s.marking_scheme == pie_marking
      then exceeds ns (slot_bytes x) (pie_thresh s x) s.mean_pktsize
      else false

  unfoldable pub marking_ecn : Dwrr → ℕ → Result Bool
  marking_ecn s q =
      if leb s.queue_num q
      then exited
      else do x ← or_undefined (get_elem? s.slots q); ok (marks s x)

  -- The start of the timer at the first packet.
  unfoldable pub start_timer : Dwrr → Dwrr
  start_timer s = if s.init then s else record s {
    init = true;
    timer =
        if s.marking_scheme == mq_marking_gener
          && s.estimate_quantum_enable_timer
          && ltb 0 s.estimate_quantum_interval_bytes
          && has_capacity s
        then some (quantum_interval s)
        else s.timer;
  }

  -- `quantum_sum_estimate` after the idle time up to `now`.
  unfoldable pub idle_quantum_sum : Dwrr → ns.Double → ns.Double
  idle_quantum_sum s now =
      if ltb 0 s.estimate_quantum_interval_bytes && has_capacity s
      then ns.mul s.quantum_sum_estimate (
          ns.pow s.estimate_quantum_alpha
            (ns.div (ns.sub now s.last_idle_time) (quantum_interval s)))
      else zero_double ns

  -- `round_time` after the idle time up to `now`; its factor is `estimate_quantum_alpha_`.
  unfoldable pub idle_round_time : Dwrr → ns.Double → ns.Double
  idle_round_time s now =
      let interval = transmission ns s.link_capacity s.estimate_round_idle_interval_bytes in
      let interval_num = ns.truncate (ns.div (ns.sub now s.last_idle_time) interval) in
      if ltb 0 s.estimate_round_idle_interval_bytes && has_capacity s
      then ns.mul s.round_time (ns.pow s.estimate_quantum_alpha (ns.of_int interval_num))
      else zero_double ns

  -- What `enque` does when all queues are empty.
  unfoldable pub wake : Dwrr → ns.Double → Dwrr
  wake s now =
      if total_byte_length s == 0
        && s.marking_scheme == mq_marking_gener
        && not s.estimate_quantum_enable_timer
      then record s { quantum_sum_estimate = idle_quantum_sum s now; last_update_time = now }
      else if total_byte_length s == 0 && s.marking_scheme == mq_marking_rr
      then record s { round_time = idle_round_time s now; last_update_time = now }
      else s

  -- `queues[i].enque(p)`.
  abbrev pub put : Slot → Pkt ns → Slot
  put x p = record x { fifo = ns.enque p x.fifo }

  -- The queue `x` at `i` has a packet, and joins the active list if it is not there.
  unfoldable pub activate : Dwrr → ns.Double → ℕ → Slot → Result Dwrr
  activate s now i x = if x.active then ok (record s { slots = set s.slots i x }) else (do
    links ← insert_tail s.links i
    ok (record s {
      slots =
          set s.slots i
            (record x { deficit = 0; active = true; current = false; start_time = now });
      links = links;
      quantum_sum = add_int s.quantum_sum x.quantum;
    }))

  -- `enque` once the buffer has room. `MarkingECN` sees the packet in its queue; the flags that
  -- are then written through the pointer `p` are those of the packet there.
  unfoldable pub admit : Dwrr → ns.Double → Pkt ns → Result (Fate × Dwrr)
  admit s now p = do
    i ← clamp_prio s.queue_num p.prio
    x ← or_undefined (get_elem? s.slots i)
    seen ← activate s now i (put x p)
    must ←
        if not (s.marking_scheme == latency_marking) && not s.deque_marking
        then marking_ecn seen i
        else ok false
    let p' = mark_enque ns s.marking_scheme (not s.deque_marking) now must p
    y ← or_undefined (get_elem? seen.slots i)
    ok (queued, record seen { slots = set seen.slots i (record y { fifo = ns.enque p' x.fifo }) })

  -- The test of the shared buffer, and what follows it.
  unfoldable pub offer : Dwrr → ns.Double → Pkt ns → Result (Fate × Dwrr)
  offer s now p =
      if ltb (s.qlim * s.mean_pktsize) (total_byte_length s + p.size)
      then ok (dropped, s)
      else admit s now p

  unfoldable pub enque : Dwrr → ns.Double → Pkt ns → Result (Fate × Dwrr)
  enque s now p =
      offer (wake (start_timer (record s { queue_num = min s.queue_num max_queue_num })) now) now p

-- ===== src/PrioWfq.antt =====
-- NS2/scheduling/prio_wfq/prio_wfq.h and prio_wfq.cc: strict priority over a group of WFQ queues.
-- `now` is `Scheduler::instance().clock()` during the call. What the file repeats of wfq.cc line by
-- line (the timer, the estimates, the finish times, the choice of a queue and its service) is that
-- code of `Wfq`, on the fields that both classes have.
pub mod Deque
pub mod Invariant
pub mod Refine
pub mod Service
pub mod Command
pub mod Ecn
pub mod Control
use mq_ecn.Common.{
  ℕ, ◌+◌, ◌-◌, ◌*◌, min, max, Bool, true, false, ◌&&◌, Option, none, some, List, ltb, leb, ◌==◌,
  not, if◌then◌else◌, get_elem?, set, replicate, sum_first, Result, ok, exited, ◌>>=◌,
}
use mq_ecn.Simulator.{Simulator, of_nat}
use mq_ecn.Port.{
  mark_enque, exceeds, scaled, zero_double, Pkt, Fate, queued, dropped, clamp_prio, or_undefined,
  per_queue_marking, per_port_marking, mq_marking_gener, latency_marking, pie_marking,
  max_queue_num,
}
use mq_ecn.PrioQueues.{
  PrioSlot, new_prio_slot, prio_slot_bytes, total_prio_bytes, Settings, prio_pie_thresh,
  max_prio_queue_num,
}
use mq_ecn.Wfq.{Slot, Wfq}

module _ (ns : Simulator) where
  -- `timer` is the delay that `timer_.resched` was last given.
  pub record PrioWfq : Type 0 where
    pub prio_queues : List (PrioSlot ns)
    pub wfq_queues : List (Slot ns)
    pub curr_time : ns.Double
    pub timer : Option ns.Double
    pub weight_sum_estimate : ns.Double
    pub weight_sum : ns.Double
    pub last_update_time : ns.Double
    pub last_idle_time : ns.Double
    pub init : Bool
    pub wfq_queue_num : ℕ
    pub prio_queue_num : ℕ
    pub qlim : ℕ
    pub mean_pktsize : ℕ
    pub port_thresh : ns.Double
    pub marking_scheme : ℕ
    pub estimate_weight_alpha : ns.Double
    pub estimate_weight_interval_bytes : ns.Double
    pub estimate_weight_enable_timer : Bool
    pub dq_thresh : ℕ
    pub estimate_rate_alpha : ns.Double
    pub link_capacity : ns.Double
    pub total_qlen_tchan : Option ℕ
    pub qlen_tchan : Option ℕ

  -- The constructor, at its defaults. `qlim` is the base class's.
  unfoldable pub new_prio_wfq : ℕ → PrioWfq
  unfolding mq_ecn.Wfq.new_slot new_prio_slot
  new_prio_wfq qlim = record {
    prio_queues = replicate max_prio_queue_num (new_prio_slot ns);
    wfq_queues = replicate max_queue_num (mq_ecn.Wfq.new_slot ns);
    curr_time = zero_double ns;
    timer = none;
    weight_sum_estimate = zero_double ns;
    weight_sum = zero_double ns;
    last_update_time = zero_double ns;
    last_idle_time = zero_double ns;
    init = false;
    wfq_queue_num = 7;
    prio_queue_num = 1;
    qlim = qlim;
    mean_pktsize = 1500;
    port_thresh = of_nat ns 65;
    marking_scheme = 0;
    estimate_weight_alpha = ns.literal 75 2;
    estimate_weight_interval_bytes = of_nat ns 1500;
    estimate_weight_enable_timer = false;
    dq_thresh = 10000;
    estimate_rate_alpha = ns.literal 875 3;
    link_capacity = of_nat ns 10000000000;
    total_qlen_tchan = none;
    qlen_tchan = none;
  }

  -- The fields that WFQ has too.
  abbrev pub as_wfq : PrioWfq → Wfq ns
  as_wfq s = record {
    slots = s.wfq_queues;
    curr_time = s.curr_time;
    timer = s.timer;
    weight_sum_estimate = s.weight_sum_estimate;
    weight_sum = s.weight_sum;
    last_update_time = s.last_update_time;
    last_idle_time = s.last_idle_time;
    init = s.init;
    queue_num = s.wfq_queue_num;
    qlim = s.qlim;
    mean_pktsize = s.mean_pktsize;
    port_thresh = s.port_thresh;
    marking_scheme = s.marking_scheme;
    estimate_weight_alpha = s.estimate_weight_alpha;
    estimate_weight_interval_bytes = s.estimate_weight_interval_bytes;
    estimate_weight_enable_timer = s.estimate_weight_enable_timer;
    dq_thresh = s.dq_thresh;
    estimate_rate_alpha = s.estimate_rate_alpha;
    link_capacity = s.link_capacity;
    total_qlen_tchan = s.total_qlen_tchan;
    qlen_tchan = s.qlen_tchan;
  }

  -- The state after code of WFQ has written its variables.
  abbrev pub with_wfq : PrioWfq → Wfq ns → PrioWfq
  with_wfq s d = record s {
    wfq_queues = d.slots;
    curr_time = d.curr_time;
    timer = d.timer;
    weight_sum_estimate = d.weight_sum_estimate;
    weight_sum = d.weight_sum;
    last_update_time = d.last_update_time;
    last_idle_time = d.last_idle_time;
    init = d.init;
  }

  abbrev pub settings : PrioWfq → Settings ns
  settings s = record {
    mean_pktsize = s.mean_pktsize;
    port_thresh = s.port_thresh;
    marking_scheme = s.marking_scheme;
    dq_thresh = s.dq_thresh;
    estimate_rate_alpha = s.estimate_rate_alpha;
    link_capacity = s.link_capacity;
  }

  abbrev pub total_wfq_byte_length : PrioWfq → ℕ
  total_wfq_byte_length s = sum_first (mq_ecn.Wfq.slot_bytes ns) max_queue_num s.wfq_queues

  abbrev pub total_prio_byte_length : PrioWfq → ℕ
  total_prio_byte_length s = total_prio_bytes ns s.prio_queues

  unfoldable pub total_byte_length : PrioWfq → ℕ
  total_byte_length s = total_wfq_byte_length s + total_prio_byte_length s

  unfoldable pub timeout : PrioWfq → PrioWfq
  timeout s = with_wfq s (mq_ecn.Wfq.timeout ns (as_wfq s))

  -- `MarkingECN` for a higher priority queue.
  unfoldable pub marks_prio : PrioWfq → PrioSlot ns → Bool
  marks_prio s x =
      if s.marking_scheme == per_queue_marking
      then exceeds ns (prio_slot_bytes ns x) x.thresh s.mean_pktsize
      else if s.marking_scheme == per_port_marking
      then exceeds ns (total_byte_length s) s.port_thresh s.mean_pktsize
      else if s.marking_scheme == mq_marking_gener
      then exceeds ns (prio_slot_bytes ns x) x.thresh s.mean_pktsize
      else if s.marking_scheme == pie_marking
      then exceeds ns (prio_slot_bytes ns x) (prio_pie_thresh ns (settings s) x) s.mean_pktsize
      else false

  -- The threshold of a WFQ queue under `PIE_MARKING`, whose test of the rate is not that of wfq.cc.
  unfoldable pub wfq_pie_thresh : PrioWfq → Slot ns → ns.Double
  wfq_pie_thresh s x =
      if ns.le (ns.literal 1 9) x.meter.avg_dq_rate && ns.lt (zero_double ns) s.link_capacity
      then scaled ns (ns.div x.meter.avg_dq_rate s.link_capacity) s.port_thresh
      else s.port_thresh

  -- `MarkingECN` for a WFQ queue.
  unfoldable pub marks_wfq : PrioWfq → Slot ns → Bool
  marks_wfq s x =
      if s.marking_scheme == per_queue_marking
      then exceeds ns (mq_ecn.Wfq.slot_bytes ns x) x.thresh s.mean_pktsize
      else if s.marking_scheme == per_port_marking
      then exceeds ns (total_byte_length s) s.port_thresh s.mean_pktsize
      else if s.marking_scheme == mq_marking_gener
      then exceeds ns (mq_ecn.Wfq.slot_bytes ns x) (mq_ecn.Wfq.gener_thresh ns (as_wfq s) x)
          s.mean_pktsize
      else if s.marking_scheme == pie_marking
      then exceeds ns (mq_ecn.Wfq.slot_bytes ns x) (wfq_pie_thresh s x) s.mean_pktsize
      else false

  unfoldable pub marking_ecn : PrioWfq → ℕ → Result Bool
  marking_ecn s q =
      if leb (s.prio_queue_num + s.wfq_queue_num) q
      then exited
      else if ltb q s.prio_queue_num
      then (do x ← or_undefined (get_elem? s.prio_queues q); ok (marks_prio s x))
      else (do x ← or_undefined (get_elem? s.wfq_queues (q - s.prio_queue_num)); ok (marks_wfq s x))

  -- The start of the timer at the first packet.
  unfoldable pub start_timer : PrioWfq → PrioWfq
  start_timer s = with_wfq s (mq_ecn.Wfq.start_timer ns (as_wfq s))

  -- What `enque` does when all WFQ queues are empty.
  unfoldable pub wake : PrioWfq → ns.Double → PrioWfq
  wake s now =
      if total_wfq_byte_length s == 0
        && s.marking_scheme == mq_marking_gener
        && not s.estimate_weight_enable_timer
      then record s {
        weight_sum_estimate = mq_ecn.Wfq.idle_weight_sum ns (as_wfq s) now;
        last_update_time = now;
      }
      else s

  -- `p` becomes the newest packet of a higher priority queue.
  unfoldable pub place_prio : PrioWfq → ℕ → Pkt ns → Result PrioWfq
  place_prio s i p = do
    x ← or_undefined (get_elem? s.prio_queues i)
    ok (record s { prio_queues = set s.prio_queues i (record x { fifo = ns.enque p x.fifo }) })

  -- `p` becomes the newest packet of a WFQ queue, which gets a finish time if it was empty.
  unfoldable pub place_wfq : PrioWfq → ℕ → Pkt ns → Result PrioWfq
  place_wfq s i p = do
    x ← or_undefined (get_elem? s.wfq_queues i)
    d ← mq_ecn.Wfq.start_queue ns (as_wfq s) i p.size x
    y ← or_undefined (get_elem? d.slots i)
    ok (with_wfq s (record d { slots = set d.slots i (mq_ecn.Wfq.put ns y p) }))

  unfoldable pub place : PrioWfq → ℕ → Pkt ns → Result PrioWfq
  place s prio p =
      if ltb prio s.prio_queue_num
      then place_prio s prio p
      else place_wfq s (prio - s.prio_queue_num) p

  -- `enque` once the buffer has room. `MarkingECN` sees the packet in its queue. The flags that are
  -- then written through the pointer `p` are those of the packet there, so the result is the state
  -- with the marked packet, of the same size, in its place.
  unfoldable pub admit : PrioWfq → ns.Double → Pkt ns → Result (Fate × PrioWfq)
  admit s now p = do
    i ← clamp_prio (s.prio_queue_num + s.wfq_queue_num) p.prio
    seen ← place s i p
    must ← if not (s.marking_scheme == latency_marking) then marking_ecn seen i else ok false
    stored ← place s i (mark_enque ns s.marking_scheme true now must p)
    ok (queued, stored)

  -- The test of the shared buffer, and what follows it.
  unfoldable pub offer : PrioWfq → ns.Double → Pkt ns → Result (Fate × PrioWfq)
  offer s now p =
      if ltb (s.qlim * s.mean_pktsize) (total_byte_length s + p.size)
      then ok (dropped, s)
      else admit s now p

  unfoldable pub enque : PrioWfq → ns.Double → Pkt ns → Result (Fate × PrioWfq)
  enque s now p =
      let s' = record s {
        wfq_queue_num = max (min s.wfq_queue_num max_queue_num) 1;
        prio_queue_num = max (min s.prio_queue_num max_prio_queue_num) 1;
      } in
      offer (wake (start_timer s') now) now p

-- ===== src/PrioDwrr.antt =====
-- NS2/scheduling/prio_dwrr/prio_dwrr.h and prio_dwrr.cc: strict priority over a group of DWRR
-- queues. `now` is `Scheduler::instance().clock()` during the call. What the file repeats of
-- dwrr.cc line by line (the timer, the estimates, the thresholds, the active list and the loop of
-- `deque`, less the marks at dequeue) is that code of `Dwrr`, on the fields that both classes have.
pub mod Deque
pub mod Command
pub mod Invariant
pub mod Refine
pub mod Service
pub mod Runs
pub mod Ecn
pub mod Control
use mq_ecn.Common.{
  ℕ, ◌+◌, ◌-◌, ◌*◌, min, max, ℤ, pos, Bool, true, false, ◌&&◌, Option, none, some, List, ltb, leb,
  ◌==◌, not, if◌then◌else◌, get_elem?, set, replicate, sum_first, Result, ok, exited, ◌>>=◌,
}
use mq_ecn.Simulator.{Simulator, of_nat}
use mq_ecn.Port.{
  mark_enque, exceeds, zero_double, Pkt, Fate, queued, dropped, clamp_prio, or_undefined,
  per_queue_marking, per_port_marking, mq_marking_gener, mq_marking_rr, latency_marking,
  pie_marking, max_queue_num,
}
use mq_ecn.ActiveList.{Links, no_links}
use mq_ecn.PrioQueues.{
  PrioSlot, new_prio_slot, prio_slot_bytes, total_prio_bytes, Settings, prio_pie_thresh,
  max_prio_queue_num,
}
use mq_ecn.Dwrr.{Slot, Dwrr}

module _ (ns : Simulator) where
  -- `timer` is the delay that `timer_.resched` was last given.
  pub record PrioDwrr : Type 0 where
    pub prio_queues : List (PrioSlot ns)
    pub dwrr_queues : List (Slot ns)
    pub links : Links
    pub timer : Option ns.Double
    pub round_time : ns.Double
    pub quantum_sum_estimate : ns.Double
    pub quantum_sum : ℤ
    pub last_update_time : ns.Double
    pub last_idle_time : ns.Double
    pub init : Bool
    pub dwrr_queue_num : ℕ
    pub prio_queue_num : ℕ
    pub qlim : ℕ
    pub mean_pktsize : ℕ
    pub port_thresh : ns.Double
    pub marking_scheme : ℕ
    pub estimate_round_alpha : ns.Double
    pub estimate_round_idle_interval_bytes : ℕ
    pub estimate_quantum_alpha : ns.Double
    pub estimate_quantum_interval_bytes : ℕ
    pub estimate_quantum_enable_timer : Bool
    pub dq_thresh : ℕ
    pub estimate_rate_alpha : ns.Double
    pub link_capacity : ns.Double
    pub total_qlen_tchan : Option ℕ
    pub qlen_tchan : Option ℕ

  -- The constructor, at its defaults. `qlim` is the base class's.
  unfoldable pub new_prio_dwrr : ℕ → PrioDwrr
  unfolding mq_ecn.Dwrr.new_slot new_prio_slot no_links
  new_prio_dwrr qlim = record {
    prio_queues = replicate max_prio_queue_num (new_prio_slot ns);
    dwrr_queues = replicate max_queue_num (mq_ecn.Dwrr.new_slot ns);
    links = no_links max_queue_num;
    timer = none;
    round_time = zero_double ns;
    quantum_sum_estimate = zero_double ns;
    quantum_sum = pos 0;
    last_update_time = zero_double ns;
    last_idle_time = zero_double ns;
    init = false;
    dwrr_queue_num = 7;
    prio_queue_num = 1;
    qlim = qlim;
    mean_pktsize = 1500;
    port_thresh = of_nat ns 65;
    marking_scheme = 0;
    estimate_round_alpha = ns.literal 75 2;
    estimate_round_idle_interval_bytes = 1500;
    estimate_quantum_alpha = ns.literal 75 2;
    estimate_quantum_interval_bytes = 1500;
    estimate_quantum_enable_timer = false;
    dq_thresh = 10000;
    estimate_rate_alpha = ns.literal 875 3;
    link_capacity = of_nat ns 10000000000;
    total_qlen_tchan = none;
    qlen_tchan = none;
  }

  -- The fields that DWRR has too; there are no marks at dequeue.
  abbrev pub as_dwrr : PrioDwrr → Dwrr ns
  as_dwrr s = record {
    slots = s.dwrr_queues;
    links = s.links;
    timer = s.timer;
    round_time = s.round_time;
    quantum_sum_estimate = s.quantum_sum_estimate;
    quantum_sum = s.quantum_sum;
    last_update_time = s.last_update_time;
    last_idle_time = s.last_idle_time;
    init = s.init;
    queue_num = s.dwrr_queue_num;
    qlim = s.qlim;
    mean_pktsize = s.mean_pktsize;
    port_thresh = s.port_thresh;
    marking_scheme = s.marking_scheme;
    estimate_round_alpha = s.estimate_round_alpha;
    estimate_round_idle_interval_bytes = s.estimate_round_idle_interval_bytes;
    estimate_quantum_alpha = s.estimate_quantum_alpha;
    estimate_quantum_interval_bytes = s.estimate_quantum_interval_bytes;
    estimate_quantum_enable_timer = s.estimate_quantum_enable_timer;
    dq_thresh = s.dq_thresh;
    estimate_rate_alpha = s.estimate_rate_alpha;
    link_capacity = s.link_capacity;
    deque_marking = false;
    total_qlen_tchan = s.total_qlen_tchan;
    qlen_tchan = s.qlen_tchan;
  }

  -- The state after code of DWRR has written its variables.
  abbrev pub with_dwrr : PrioDwrr → Dwrr ns → PrioDwrr
  with_dwrr s d = record s {
    dwrr_queues = d.slots;
    links = d.links;
    timer = d.timer;
    round_time = d.round_time;
    quantum_sum_estimate = d.quantum_sum_estimate;
    quantum_sum = d.quantum_sum;
    last_update_time = d.last_update_time;
    last_idle_time = d.last_idle_time;
    init = d.init;
  }

  abbrev pub settings : PrioDwrr → Settings ns
  settings s = record {
    mean_pktsize = s.mean_pktsize;
    port_thresh = s.port_thresh;
    marking_scheme = s.marking_scheme;
    dq_thresh = s.dq_thresh;
    estimate_rate_alpha = s.estimate_rate_alpha;
    link_capacity = s.link_capacity;
  }

  abbrev pub total_dwrr_byte_length : PrioDwrr → ℕ
  total_dwrr_byte_length s = sum_first (mq_ecn.Dwrr.slot_bytes ns) max_queue_num s.dwrr_queues

  abbrev pub total_prio_byte_length : PrioDwrr → ℕ
  total_prio_byte_length s = total_prio_bytes ns s.prio_queues

  unfoldable pub total_byte_length : PrioDwrr → ℕ
  total_byte_length s = total_dwrr_byte_length s + total_prio_byte_length s

  unfoldable pub timeout : PrioDwrr → PrioDwrr
  timeout s = with_dwrr s (mq_ecn.Dwrr.timeout ns (as_dwrr s))

  -- `MarkingECN` for a higher priority queue.
  unfoldable pub marks_prio : PrioDwrr → PrioSlot ns → Bool
  marks_prio s x =
      if s.marking_scheme == per_queue_marking
      then exceeds ns (prio_slot_bytes ns x) x.thresh s.mean_pktsize
      else if s.marking_scheme == per_port_marking
      then exceeds ns (total_byte_length s) s.port_thresh s.mean_pktsize
      else if s.marking_scheme == mq_marking_gener
      then exceeds ns (prio_slot_bytes ns x) x.thresh s.mean_pktsize
      else if s.marking_scheme == mq_marking_rr
      then exceeds ns (prio_slot_bytes ns x) x.thresh s.mean_pktsize
      else if s.marking_scheme == pie_marking
      then exceeds ns (prio_slot_bytes ns x) (prio_pie_thresh ns (settings s) x) s.mean_pktsize
      else false

  -- `MarkingECN` for a DWRR queue.
  unfoldable pub marks_dwrr : PrioDwrr → Slot ns → Bool
  marks_dwrr s x =
      if s.marking_scheme == per_queue_marking
      then exceeds ns (mq_ecn.Dwrr.slot_bytes ns x) x.thresh s.mean_pktsize
      else if s.marking_scheme == per_port_marking
      then exceeds ns (total_byte_length s) s.port_thresh s.mean_pktsize
      else if s.marking_scheme == mq_marking_gener
      then exceeds ns (mq_ecn.Dwrr.slot_bytes ns x) (mq_ecn.Dwrr.gener_thresh ns (as_dwrr s) x)
          s.mean_pktsize
      else if s.marking_scheme == mq_marking_rr
      then exceeds ns (mq_ecn.Dwrr.slot_bytes ns x) (mq_ecn.Dwrr.rr_thresh ns (as_dwrr s) x)
          s.mean_pktsize
      else if s.marking_scheme == pie_marking
      then exceeds ns (mq_ecn.Dwrr.slot_bytes ns x) (mq_ecn.Dwrr.pie_thresh ns (as_dwrr s) x)
          s.mean_pktsize
      else false

  unfoldable pub marking_ecn : PrioDwrr → ℕ → Result Bool
  marking_ecn s q =
      if leb (s.prio_queue_num + s.dwrr_queue_num) q
      then exited
      else if ltb q s.prio_queue_num
      then (do x ← or_undefined (get_elem? s.prio_queues q); ok (marks_prio s x))
      else (do
        x ← or_undefined (get_elem? s.dwrr_queues (q - s.prio_queue_num))
        ok (marks_dwrr s x))

  -- The start of the timer at the first packet.
  unfoldable pub start_timer : PrioDwrr → PrioDwrr
  start_timer s = with_dwrr s (mq_ecn.Dwrr.start_timer ns (as_dwrr s))

  -- What `enque` does when all DWRR queues are empty.
  unfoldable pub wake : PrioDwrr → ns.Double → PrioDwrr
  wake s now =
      if total_dwrr_byte_length s == 0
        && s.marking_scheme == mq_marking_gener
        && not s.estimate_quantum_enable_timer
      then record s {
        quantum_sum_estimate = mq_ecn.Dwrr.idle_quantum_sum ns (as_dwrr s) now;
        last_update_time = now;
      }
      else if total_dwrr_byte_length s == 0 && s.marking_scheme == mq_marking_rr
      then record s {
        round_time = mq_ecn.Dwrr.idle_round_time ns (as_dwrr s) now;
        last_update_time = now;
      }
      else s

  -- `p` becomes the newest packet of a higher priority queue.
  unfoldable pub place_prio : PrioDwrr → ℕ → Pkt ns → Result PrioDwrr
  place_prio s i p = do
    x ← or_undefined (get_elem? s.prio_queues i)
    ok (record s { prio_queues = set s.prio_queues i (record x { fifo = ns.enque p x.fifo }) })

  -- `p` becomes the newest packet of a DWRR queue, which joins the active list if it is not there.
  unfoldable pub place_dwrr : PrioDwrr → ns.Double → ℕ → Pkt ns → Result PrioDwrr
  place_dwrr s now i p = do
    x ← or_undefined (get_elem? s.dwrr_queues i)
    d ← mq_ecn.Dwrr.activate ns (as_dwrr s) now i (mq_ecn.Dwrr.put ns x p)
    ok (with_dwrr s d)

  unfoldable pub place : PrioDwrr → ns.Double → ℕ → Pkt ns → Result PrioDwrr
  place s now prio p =
      if ltb prio s.prio_queue_num
      then place_prio s prio p
      else place_dwrr s now (prio - s.prio_queue_num) p

  -- `enque` once the buffer has room. `MarkingECN` sees the packet in its queue. The flags that are
  -- then written through the pointer `p` are those of the packet there, so the result is the state
  -- with the marked packet in its place.
  unfoldable pub admit : PrioDwrr → ns.Double → Pkt ns → Result (Fate × PrioDwrr)
  admit s now p = do
    i ← clamp_prio (s.prio_queue_num + s.dwrr_queue_num) p.prio
    seen ← place s now i p
    must ← if not (s.marking_scheme == latency_marking) then marking_ecn seen i else ok false
    stored ← place s now i (mark_enque ns s.marking_scheme true now must p)
    ok (queued, stored)

  -- The test of the shared buffer, and what follows it.
  unfoldable pub offer : PrioDwrr → ns.Double → Pkt ns → Result (Fate × PrioDwrr)
  offer s now p =
      if ltb (s.qlim * s.mean_pktsize) (total_byte_length s + p.size)
      then ok (dropped, s)
      else admit s now p

  unfoldable pub enque : PrioDwrr → ns.Double → Pkt ns → Result (Fate × PrioDwrr)
  enque s now p =
      let s' = record s {
        dwrr_queue_num = max (min s.dwrr_queue_num max_queue_num) 1;
        prio_queue_num = max (min s.prio_queue_num max_prio_queue_num) 1;
      } in
      offer (wake (start_timer s') now) now p

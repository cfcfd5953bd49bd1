-- ===== src/Port.antt =====
-- What all schedulers of NS2/diffserv and NS2/scheduling do alike: the departure-rate meter of a
-- queue, the marks on a packet, the comparison of a queue with a threshold, the moving averages.
-- Each scheduler's module says where its own copy stands.
pub mod Backlog
pub mod Arguments
pub mod Threshold
pub mod Run
pub mod Groups
use mq_ecn.Common.{
  ℕ, ◌+◌, ◌*◌, suc, zero, ℤ, pos, negsuc, Bool, not, ◌&&◌, true, false, Option, none, some, ltb,
  leb, ◌==◌, if◌then◌else◌, Result, ok, undefined,
}
use mq_ecn.Simulator.{Simulator, Packet, of_nat, min_one}

-- The schemes of the header files.
abbrev pub per_queue_marking : ℕ
per_queue_marking = 0

abbrev pub per_port_marking : ℕ
per_port_marking = 1

abbrev pub mq_marking_gener : ℕ
mq_marking_gener = 2

abbrev pub mq_marking_rr : ℕ
mq_marking_rr = 3

abbrev pub latency_marking : ℕ
latency_marking = 4

abbrev pub pie_marking : ℕ
pie_marking = 5

abbrev pub max_queue_num : ℕ
max_queue_num = 64

-- What `enque` does with its packet.
pub data Fate : Type 0 where
  queued dropped : Fate

-- `TCL_OK` and `TCL_ERROR`.
pub data Status : Type 0 where
  tcl_ok tcl_error : Status

abbrev pub is_none {ℓ} : {A : Type ℓ} → Option A → Bool
is_none none = true
is_none (some a) = false

-- `if (prio >= queue_num_ || prio < 0) prio = queue_num_ - 1`, as the index of a queue: with no
-- queue at all the index is -1.
unfoldable pub clamp_prio : ℕ → ℤ → Result ℕ
clamp_prio zero prio = undefined
clamp_prio (suc n) (pos p) = ok (if leb (suc n) p then n else p)
clamp_prio (suc n) (negsuc p) = ok n

-- `queues[i]`.
abbrev pub or_undefined {ℓ} : {A : Type ℓ} → Option A → Result A
or_undefined none = undefined
or_undefined (some a) = ok a

module _ (ns : Simulator) where
  abbrev pub Pkt : Type 0
  Pkt = Packet ns.Double

  abbrev pub zero_double : ns.Double
  zero_double = of_nat ns 0

  -- `dq_count` is -1 (`DQ_COUNT_INVALID`, here `none`) outside a measurement.
  pub record Meter : Type 0 where
    pub dq_tstamp : ns.Double
    pub dq_count : Option ℕ
    pub avg_dq_rate : ns.Double

  pub new_meter : Meter
  new_meter = record {
    dq_tstamp = zero_double;
    dq_count = none;
    avg_dq_rate = ns.of_int (negsuc 0);
  }

  -- `a * alpha + b * (1 - alpha)`.
  abbrev pub average : ns.Double → ns.Double → ns.Double → ns.Double
  average alpha a b = ns.add (ns.mul a alpha) (ns.mul b (ns.sub (of_nat ns 1) alpha))

  -- `size * 8 / link_capacity_`.
  abbrev pub transmission : ns.Double → ℕ → ns.Double
  transmission capacity size = ns.div (of_nat ns (size * 8)) capacity

  -- The start of a measurement.
  unfoldable pub meter_start : ns.Double → ℕ → ℕ → Meter → Meter
  meter_start now dq_thresh bytes m =
      if leb dq_thresh bytes && is_none m.dq_count
      then record m { dq_tstamp = now; dq_count = some 0 }
      else m

  -- The end of a measurement of `count` bytes.
  unfoldable pub meter_sample : ns.Double → ns.Double → ns.Double → ℕ → ℕ → ℕ → ℕ → Meter → Meter
  meter_sample now capacity alpha dq_thresh bytes size count m =
      let interval = ns.add (ns.sub now m.dq_tstamp) (transmission capacity size) in
      let rate = ns.div (of_nat ns (count * 8)) interval in
      record {
        dq_tstamp =
            if ltb bytes dq_thresh then m.dq_tstamp else ns.add now (transmission capacity size);
        dq_count = if ltb bytes dq_thresh then none else some 0;
        avg_dq_rate =
            if ns.lt m.avg_dq_rate zero_double then rate else average alpha m.avg_dq_rate rate;
      }

  -- One more packet of `size` bytes has left.
  unfoldable pub meter_count :
      ns.Double → ns.Double → ns.Double → ℕ → ℕ → ℕ → Option ℕ → Meter → Meter
  meter_count now capacity alpha dq_thresh bytes size none m = m
  meter_count now capacity alpha dq_thresh bytes size (some c) m =
      if leb dq_thresh (c + size)
      then meter_sample now capacity alpha dq_thresh bytes size (c + size) m
      else record m { dq_count = some (c + size) }

  -- The rate measurement after a dequeue that left `bytes` in the queue.
  unfoldable pub measure : ns.Double → ns.Double → ns.Double → ℕ → ℕ → ℕ → Meter → Meter
  unfolding meter_start meter_count meter_sample
  measure now capacity alpha dq_thresh bytes size m =
      let m' = meter_start now dq_thresh bytes m in
      meter_count now capacity alpha dq_thresh bytes size m'.dq_count m'

  -- `hf->ce() = 1`.
  abbrev pub set_ce : Pkt → Pkt
  set_ce p = record p { ce = true }

  -- The mark for a long stay, and the reset of the time stamp.
  unfoldable pub mark_latency : ns.Double → ns.Double → Pkt → Pkt
  mark_latency now latency_thresh p =
      let late = p.ect && ns.lt latency_thresh (ns.sub now p.timestamp) in
      record p { ce = if late then true else p.ce; timestamp = zero_double }

  -- What `enque` does to the packet once it is in its queue: `must` is `MarkingECN(prio) > 0`.
  unfoldable pub mark_enque : ℕ → Bool → ns.Double → Bool → Pkt → Pkt
  mark_enque scheme enabled now must p =
      if not (scheme == latency_marking) && enabled && must && p.ect
      then set_ce p
      else if scheme == latency_marking && p.ect
      then record p { timestamp = now }
      else p

  -- `bytes > thresh * mean_pktsize_`, for a threshold in packets.
  abbrev pub exceeds : ℕ → ns.Double → ℕ → Bool
  exceeds bytes thresh mean = ns.lt (ns.mul thresh (of_nat ns mean)) (of_nat ns bytes)

  -- `min(share, 1) * port_thresh`.
  abbrev pub scaled : ns.Double → ns.Double → ns.Double
  scaled share port_thresh = ns.mul (min_one ns share) port_thresh

-- ===== src/SchDwrr.antt =====
-- The Linux queueing discipline kernel modules/sch_dwrr: params.h and main.c. Deficit weighted round
-- robin within up to 8 strict priorities, a token bucket, MQ-ECN, TCN and CoDel marking. The counters
-- that are only reported (`qdisc_qstats_*`, `qdisc_bstats_update`) and the debug output are left out.
pub mod Rate
pub mod Bounds
pub mod Rounds
pub mod Codel
pub mod Qdisc
pub mod Dequeue
pub mod Accounting
pub mod Acceptance
pub mod Arrivals
pub mod Departures
pub mod Rotation
pub mod Transmission
pub mod Service
use mq_ecn.Common.{ℕ, ◌≡◌, ℤ, Bool, List, [], ◌∷◌, ◌++◌, Option, length, head?, tail}

abbrev pub max_queues : ℕ
max_queues = 8

abbrev pub max_prio : ℕ
max_prio = 8

abbrev pub max_pkt_bytes : ℕ
max_pkt_bytes = 1538

abbrev pub min_pkt_bytes : ℕ
min_pkt_bytes = 64

abbrev pub max_iteration : ℕ
max_iteration = 10

-- 2^`dwrr_round_shift`.
abbrev pub round_unit : ℕ
round_unit = 1024

-- 2^`dwrr_codel_shift`.
abbrev pub codel_unit : ℕ
codel_unit = 1024

-- The parameters that `sysctl` sets; a list has one entry for each queue.
pub record Params : Type 0 where
  pub buffer_mode : ℤ
  pub shared_buffer_bytes : ℤ
  pub bucket_bytes : ℤ
  pub port_thresh_bytes : ℤ
  pub ecn_scheme : ℤ
  pub round_alpha : ℤ
  pub idle_interval_ns : ℤ
  pub enable_wrr : ℤ
  pub enable_dequeue_ecn : ℤ
  pub tcn_thresh : ℤ
  pub codel_target : ℤ
  pub codel_interval : ℤ
  pub queue_thresh_bytes : List ℤ
  pub queue_dscp : List ℤ
  pub queue_quantum : List ℤ
  pub queue_buffer_bytes : List ℤ
  pub queue_prio : List ℕ

-- `dwrr_rate_cfg`.
pub record RateCfg : Type 0 where
  pub rate_bps : ℕ
  pub mult : ℕ
  pub shift : ℕ

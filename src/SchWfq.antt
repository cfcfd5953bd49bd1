-- ===== src/SchWfq.antt =====
-- The Linux queueing discipline kernel modules/sch_wfq: params.h and main.c. Weighted fair queueing
-- within up to 8 strict priorities. What main.c repeats of sch_dwrr (wire sizes, rates, token bucket,
-- classification, TCN, CoDel) is that model, on the parameters that both modules have.
pub mod Qdisc
pub mod Dequeue
pub mod Time
pub mod Earliest
pub mod Transmission
pub mod Service
use mq_ecn.Common.{
  ℕ, ◌-◌, ℤ, pos, Bool, true, false, List, [], ltb, leb, ◌==◌, ◌||◌, ◌&&◌, if◌then◌else◌,
}

-- The parameters that `sysctl` sets; a list has one entry for each queue.
pub record WfqParams : Type 0 where
  pub buffer_mode : ℤ
  pub shared_buffer_bytes : ℤ
  pub bucket_bytes : ℤ
  pub port_thresh_bytes : ℤ
  pub ecn_scheme : ℤ
  pub enable_dequeue_ecn : ℤ
  pub tcn_thresh : ℤ
  pub codel_target : ℤ
  pub codel_interval : ℤ
  pub queue_thresh_bytes : List ℤ
  pub queue_dscp : List ℤ
  pub queue_weight : List ℤ
  pub queue_buffer_bytes : List ℤ
  pub queue_prio : List ℕ

-- The parameters that the code which both modules have reads; the others are never read there.
abbrev pub as_dwrr : WfqParams → mq_ecn.SchDwrr.Params
as_dwrr c = record {
  buffer_mode = c.buffer_mode;
  shared_buffer_bytes = c.shared_buffer_bytes;
  bucket_bytes = c.bucket_bytes;
  port_thresh_bytes = c.port_thresh_bytes;
  ecn_scheme = c.ecn_scheme;
  round_alpha = pos 0;
  idle_interval_ns = pos 0;
  enable_wrr = pos 0;
  enable_dequeue_ecn = c.enable_dequeue_ecn;
  tcn_thresh = c.tcn_thresh;
  codel_target = c.codel_target;
  codel_interval = c.codel_interval;
  queue_thresh_bytes = c.queue_thresh_bytes;
  queue_dscp = c.queue_dscp;
  queue_quantum = [];
  queue_buffer_bytes = c.queue_buffer_bytes;
  queue_prio = c.queue_prio;
}

-- `wfq_time_before`; each difference is taken where it does not wrap.
unfoldable pub time_before : ℕ → ℕ → Bool
time_before time1 time2 =
    if ltb time1 time2 && leb (time2 - time1) 9223372036854775808
    then true
    else ltb time2 time1 && ltb 9223372036854775808 (time1 - time2)

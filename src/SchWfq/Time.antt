-- ===== src/SchWfq/Time.antt =====
-- The order of virtual times of sch_wfq.
use mq_ecn.Common.{ℕ, ◌+◌, ◌%◌, ◌<◌, ◌≡◌, ltb, arith}
use mq_ecn.Words.{u64_mod}
use mq_ecn.SchWfq.{time_before}

-- For two virtual times less than 2^63 apart, `wfq_time_before` on what their `u64` counters
-- show is the order of the times, also where a counter has wrapped.
pub time_before-exact :
    (a b : ℕ)
    → a < b + 9223372036854775808
    → b < a + 9223372036854775808
    → time_before (a % u64_mod) (b % u64_mod) ≡ ltb a b
unfolding time_before
time_before-exact a b h k = ground arith

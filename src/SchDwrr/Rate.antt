-- ===== src/SchDwrr/Rate.antt =====
-- The rate and round time arithmetic of kernel modules/sch_dwrr/main.c.
use mq_ecn.Common.{
  ℕ, zero, suc, ◌*◌, ◌/◌, ◌%◌, ◌^◌, max, min, ltb, ◌==◌, ◌||◌, ◌&&◌, not, if◌then◌else◌, Result, ok,
  undefined, ◌>>=◌,
}
use mq_ecn.Words.{
  u32_mod, u64_mod, add32, add64, sub64, mul64, is_negative, shr_s64, div_s64, lt64, to_u64,
  is_positive,
}
use mq_ecn.SchDwrr.{Params, RateCfg, round_unit, max_iteration, min_pkt_bytes}

-- `skb_size`, for the length of a packet.
unfoldable pub skb_size : ℕ → ℕ
skb_size len = add32 (max (add32 len 4) min_pkt_bytes) 20

-- `precompute_ratedata`, for the rate; `mult` is a `u32`.
unfoldable pub precompute_ratedata : ℕ → RateCfg
precompute_ratedata rate =
    if ltb 0 rate
    then record { rate_bps = rate; mult = (8 * 1000000000 * 32768 / rate) % u32_mod; shift = 15 }
    else record { rate_bps = rate; mult = 1; shift = 0 }

-- The time in ns that `len` bytes take.
unfoldable pub l2t_ns : RateCfg → ℕ → ℕ
l2t_ns r len = mul64 len r.mult / 2 ^ r.shift

-- `s64_ewma` at `dwrr_round_alpha` and `dwrr_round_shift`.
unfoldable pub ewma_round : Params → ℕ → ℕ → ℕ
ewma_round c smooth sample =
    shr_s64
      (add64 (mul64 smooth (to_u64 c.round_alpha))
        (mul64 sample (sub64 round_unit (to_u64 c.round_alpha))))
      round_unit

-- The loop of `reset_round`.
unfoldable pub decay : Params → ℕ → ℕ → ℕ
decay c zero round = round
decay c (suc n) round = decay c n (ewma_round c round 0)

-- `reset_round`: the round time of a priority that holds `bytes` and was last idle at `idle_since`.
unfoldable pub reset_round : Params → ℕ → ℕ → ℕ → ℕ → ℕ
reset_round c now bytes idle_since round =
    let iter =
      if bytes == 0 && is_positive c.idle_interval_ns
      then div_s64 (sub64 now idle_since) (to_u64 c.idle_interval_ns)
      else 0 in
    if lt64 max_iteration iter || is_negative iter then 0 else decay c iter round

-- `estimate_rate_bps` of `mq_ecn_marking`; the divisor of `div_u64` is a `u32`, so a multiple of 2^32 is
-- 0 there, and a division by zero stops the kernel.
unfoldable pub estimate_rate : RateCfg → ℕ → ℕ → Result ℕ
estimate_rate r quantum round =
    if not (lt64 0 round)
    then ok r.rate_bps
    else if round % u32_mod == 0
    then undefined
    else ok (mul64 quantum 8589934592 / (round % u32_mod))

-- The marking threshold of `mq_ecn_marking`; a rate of 0 stops the kernel too.
unfoldable pub mq_ecn_thresh : Params → RateCfg → ℕ → ℕ → Result ℕ
mq_ecn_thresh c r quantum round = do
  estimate ← estimate_rate r quantum round
  if r.rate_bps == 0
      then undefined
      else ok (mul64 (min estimate r.rate_bps) (to_u64 c.port_thresh_bytes) / r.rate_bps)

-- `tbf_schedule`: the tokens, in ns, that are left once `len` bytes are sent.
unfoldable pub tbf_schedule : Params → RateCfg → ℕ → ℕ → ℕ → ℕ → ℕ
unfolding l2t_ns
tbf_schedule c r tokens time_ns len now =
    let elapsed = sub64 now time_ns in
    let full = l2t_ns r (mq_ecn.Words.to_u32 c.bucket_bytes) in
    sub64 (add64 (mq_ecn.Words.min_s64 elapsed full) tokens) (l2t_ns r len)

-- ===== src/SchDwrr/Bounds.antt =====
-- Bounds of the arithmetic of sch_dwrr: within them no intermediate value wraps.
use native.Mathlib.Nat.{
  mul-le-mul_left, mul-le-mul_right, mul-add, div-le_self, div-le_of_le-mul, div-mul-le_self,
  lt-div-mul-add,
}
use mq_ecn.Common.{
  ◌&&◌, ◌==◌, ok, Returns, subst, not, if_true, if_false, ℕ, ◌+◌, ◌-◌, ◌*◌, ◌/◌, ◌%◌, ◌≤◌, ◌<◌, max,
  min, ◌≡◌, refl, sym, ap, ◌∙◌, inl, inr, true, false, Bool-cases, pos, lt→ltb, ltb→lt, ltb→le,
  le→leb, ltb, arith,
}
use mq_ecn.Words.{u32_mod, u64_mod, shr_s64, to_u64, lt64, is_negative}
use mq_ecn.SchDwrr.{Params, RateCfg, round_unit, max_iteration}
use mq_ecn.SchDwrr.Rate.{
  precompute_ratedata, l2t_ns, ewma_round, reset_round, estimate_rate, mq_ecn_thresh,
}

-- The weights of a mean.
split : (m w : ℕ) → w ≤ 1024 → m * w + m * (1024 - w) ≡ m * 1024
split m w l = sym (mul-add m w (1024 - w)) ∙ ap (λ k. m * k) (omega arith)

-- A weighted mean of two numbers is between them.
mean_above : (m a b w : ℕ) → w ≤ 1024 → m ≤ a → m ≤ b → m * 1024 ≤ a * w + b * (1024 - w)
mean_above m a b w l h k =
    omega (arith, split m w l, mul-le-mul_right w h, mul-le-mul_right (1024 - w) k)

pub mean_below : (m a b w : ℕ) → w ≤ 1024 → a ≤ m → b ≤ m → a * w + b * (1024 - w) ≤ m * 1024
mean_below m a b w l h k =
    omega (arith, split m w l, mul-le-mul_right w h, mul-le-mul_right (1024 - w) k)

-- The wrapping operations do nothing to a sum of products below 2^63.
no_wrap :
    (x y : ℕ)
    → x + y < 9223372036854775808
    → shr_s64 ((x % u64_mod + y % u64_mod) % u64_mod) round_unit ≡ (x + y) / 1024
no_wrap x y h = ground arith

pub alpha_rest : (w : ℕ) → w ≤ 1024 → (1024 + u64_mod - w % u64_mod) % u64_mod ≡ 1024 - w
alpha_rest w l = omega arith

pub small_alpha : (w : ℕ) → w ≤ 1024 → w % u64_mod ≡ w
small_alpha w l = omega arith

-- Times below 2^50 ns, which is 13 days.
ewma_exact :
    (c : Params) (a b w : ℕ)
    → c.round_alpha ≡ pos w
    → w ≤ 1024
    → a < 1125899906842624
    → b < 1125899906842624
    → ewma_round c a b ≡ (a * w + b * (1024 - w)) / 1024
unfolding ewma_round
ewma_exact c a b w e l h k =
    let sum : a * w + b * (1024 - w) < 9223372036854775808 =
      omega (arith, mean_below 1125899906842624 a b w l (omega arith) (omega arith)) in
    rw (e, alpha_rest w l, small_alpha w l) (no_wrap (a * w) (b * (1024 - w)) sum)

-- With a weight of at most 1024, and two times below 2^50 ns, `ewma_round` is between the
-- smoothed time and the sample, so its `s64` arithmetic does not overflow.
pub ewma_round-between :
    (c : Params) (smooth sample w : ℕ)
    → c.round_alpha ≡ pos w
    → w ≤ 1024
    → smooth < 1125899906842624
    → sample < 1125899906842624
    → (min smooth sample ≤ ewma_round c smooth sample)
      × (ewma_round c smooth sample ≤ max smooth sample)
ewma_round-between c a b w e l h k = (
  omega
      (arith, ewma_exact c a b w e l h k, mean_above (min a b) a b w l (omega arith) (omega arith)),
  omega
      (arith, ewma_exact c a b w e l h k, mean_below (max a b) a b w l (omega arith) (omega arith)),
)

eleven : (x d : ℕ) → 0 < d → 11 * d ≤ x → 11 ≤ x / d
eleven x d p h = elim (Bool-cases (ltb (x / d) 11)) [
  | inr enough ↦ ltb→le _ _ enough
  | inl less ↦
      let q : x / d ≤ 10 = omega (arith, ltb→lt _ _ less) in
      absurd (omega (arith, lt-div-mul-add {a = x} {b = d} p, mul-le-mul_right d q))
]

-- An idle time of more than `max_iteration` intervals.
long_idle :
    (now since d : ℕ)
    → 0 < d
    → since ≤ now
    → now < 9223372036854775808
    → d < 2147483648
    → since + 11 * d ≤ now
    → lt64 max_iteration (mq_ecn.Words.div_s64 (mq_ecn.Words.sub64 now since) (d % u64_mod)) ≡ true
long_idle now since d p o s k l =
    let q = (now - since) / d in
    let many : 11 ≤ q = eleven (now - since) d p (omega arith) in
    let few : q < 9223372036854775808 = omega (arith, div-le_self (now - since) d) in
    let gone : mq_ecn.Words.sub64 now since ≡ now - since = omega arith in
    let word : d % u64_mod ≡ d = omega arith in
    let sign : is_negative (now - since) ≡ false =
      le→leb 9223372036854775808 (now - since) (omega arith) in
    rw (gone, word, sign) (lt→ltb _ _ (omega arith))

-- If a priority without packets has been idle for at least 11 positive idle intervals, where
-- the clock is below 2^63 ns, `reset_round` sets its round time to 0.
pub reset_round-forgets :
    (c : Params) (now since round d : ℕ)
    → c.idle_interval_ns ≡ pos d
    → 0 < d
    → d < 2147483648
    → since + 11 * d ≤ now
    → now < 9223372036854775808
    → reset_round c now 0 since round ≡ 0
unfolding reset_round
reset_round-forgets c now since round d e p s l o =
    rw (e, lt→ltb 0 d p, long_idle now since d p (omega arith) o s l) refl

-- 8 * 10^9 * 2^15.
abbrev unit : ℕ
unit = 262144000000000

-- `m` is the quotient of `unit` by the rate, and `t` that of `len * m` by 2^15.
charge :
    (rate len m t : ℕ)
    → 0 < rate
    → len ≤ 32768
    → m * rate ≤ unit
    → unit ≤ m * rate + rate
    → t * 32768 ≤ len * m
    → len * m + 1 ≤ t * 32768 + 32768
    → (t * rate ≤ len * 8000000000) × (len * 8000000000 < (t + 2) * rate)
charge rate len m t p l below above low high =
    let a = mul-le-mul_right rate low in
    let b = mul-le-mul_left len below in
    let c = mul-le-mul_right rate high in
    let d = mul-le-mul_left len above in
    let f = mul-le-mul_right rate l in (grind (arith, a, b), grind (arith, c, d, f))

-- For a rate of at least 61036 bits per second and at most 32768 bytes, the fixed-point
-- `l2t_ns` with the rate's precomputed multiplier does not wrap: it is at most the exact time
-- in ns and less than 2 ns below it.
pub l2t_ns-exact :
    (rate len : ℕ)
    → 61036 ≤ rate
    → len ≤ 32768
    → (l2t_ns (precompute_ratedata rate) len * rate ≤ len * 8000000000)
      × (len * 8000000000 < (l2t_ns (precompute_ratedata rate) len + 2) * rate)
unfolding precompute_ratedata l2t_ns
l2t_ns-exact rate len h l =
    let m = unit / rate in
    let bound : m ≤ 4294907923 =
      omega (arith, div-mul-le_self unit rate, mul-le-mul_left (unit / rate) h) in
    let small : m % u32_mod ≡ m = omega (arith, bound) in
    let fits : len * m % u64_mod ≡ len * m =
      omega (arith, bound, mul-le-mul_right m l, mul-le-mul_left 32768 bound) in
    rw (lt→ltb 0 rate (omega arith), small, fits)
      (charge rate len m (len * m / 32768) (omega arith) l (div-mul-le_self unit rate)
        (omega (arith, lt-div-mul-add {a = unit} {b = rate} (omega arith))) (omega arith)
        (omega arith))

capped :
    (c : Params) (r : RateCfg) (e t : ℕ)
    → c.port_thresh_bytes ≡ pos t
    → 0 < r.rate_bps
    → r.rate_bps * t < u64_mod
    → t < u64_mod
    → min e r.rate_bps * (t % u64_mod) % u64_mod / r.rate_bps ≤ t
capped c r e t i p h k =
    let low : min e r.rate_bps * t ≤ r.rate_bps * t = mul-le-mul_right t (omega arith) in
    let here : t % u64_mod ≡ t = omega arith in
    let fits : min e r.rate_bps * t % u64_mod ≡ min e r.rate_bps * t = omega (arith, low) in
    rw (here, fits) (div-le_of_le-mul r.rate_bps low)

estimate_rate-ok :
    (r : RateCfg) (quantum round : ℕ)
    → (lt64 0 round && round % u32_mod == 0) ≡ false
    → (e : ℕ) × (estimate_rate r quantum round ≡ ok e)
unfolding estimate_rate
estimate_rate-ok r quantum round h = elim (Bool-cases (lt64 0 round)) [
  | inr first ↦ (_, if_true _ _ _ (ap not first))
  | inl smooth ↦
      let whole : (round % u32_mod == 0) ≡ false =
        sym (ap (λ b. b && round % u32_mod == 0) smooth) ∙ h in
      (_, if_false _ _ _ (ap not smooth) ∙ if_false _ _ _ whole)
]

-- Where no division is by zero.
pub mq_ecn_thresh-ok :
    (c : Params) (r : RateCfg) (quantum round : ℕ)
    → 0 < r.rate_bps
    → (lt64 0 round && round % u32_mod == 0) ≡ false
    → (e : ℕ) × (mq_ecn_thresh c r quantum round
        ≡ ok (min e r.rate_bps * to_u64 c.port_thresh_bytes % u64_mod / r.rate_bps))
unfolding mq_ecn_thresh
mq_ecn_thresh-ok c r quantum round p h =
    let (e, o) = estimate_rate-ok r quantum round h in
    let positive : (r.rate_bps == 0) ≡ false = ground (arith, p) in
    (e, rw o (if_false _ _ _ positive))

-- If the rate is positive and its product with the port's threshold is below 2^64, and the
-- round time is not positive with its lower 32 bits 0, the MQ-ECN threshold of a class is
-- computed without a division by zero and is at most the port's threshold, whatever its
-- quantum.
pub mq_ecn_thresh-le :
    (c : Params) (r : RateCfg) (quantum round t : ℕ)
    → c.port_thresh_bytes ≡ pos t
    → 0 < r.rate_bps
    → r.rate_bps * t < u64_mod
    → (lt64 0 round && round % u32_mod == 0) ≡ false
    → Returns (λ n. n ≤ t) (mq_ecn_thresh c r quantum round)
mq_ecn_thresh-le c r quantum round t e p h z =
    let (n, o) = mq_ecn_thresh-ok c r quantum round p z in
    let k : t ≤ r.rate_bps * t = omega (arith, mul-le-mul_right t p) in
    (
      _,
      o,
      subst (λ b. min n r.rate_bps * to_u64 b % u64_mod / r.rate_bps ≤ t) (sym e)
          (capped c r n t e p h (omega (arith, k))),
    )

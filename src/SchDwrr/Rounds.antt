-- ===== src/SchDwrr/Rounds.antt =====
-- Round times of sch_dwrr as signed numbers: those below 2^32 ns, also negative ones, stay so.
use native.Mathlib.Nat.{add-mul}
use mq_ecn.Common.{
  ℕ, zero, suc, ◌+◌, ◌-◌, ◌*◌, ◌/◌, ◌%◌, ◌≤◌, ◌<◌, ◌≡◌, refl, ap, inl, inr, Bool, true, false,
  Bool-cases, pos, ltb→lt, ltb→le, ltb, ◌==◌, ◌&&◌, if◌then◌else◌, arith,
}
use mq_ecn.Words.{u32_mod, u64_mod, shr_s64, lt64}
use mq_ecn.SchDwrr.{Params}
use mq_ecn.SchDwrr.Bounds.{mean_below, alpha_rest, small_alpha}
use mq_ecn.SchDwrr.Rate.{ewma_round, decay, reset_round}

-- As an `s64`, `t` is at least -2^50 and below 2^32.
abbrev pub Tame : ℕ → Type 0
Tame t = (t < u64_mod) × ((t + 1125899906842624) % u64_mod < 1125904201809920)

-- A product with a bit pattern, through the number 2^50 above it.
shifted_mul :
    (a w : ℕ)
    → a < u64_mod
    → (a + 1125899906842624) % u64_mod < 1125904201809920
    → w ≤ 1024
    → (n : ℕ) × (n ≡ (a + 1125899906842624) % u64_mod * w)
      × (a * w % u64_mod ≡ (n + 18446744073709551616 * 1024 - 1125899906842624 * w) % u64_mod)
shifted_mul a w l h k =
    let b = (a + 1125899906842624) % u64_mod in
    elim (Bool-cases (ltb b 1125899906842624)) [
      | inr up ↦
          let e : a + 1125899906842624 ≡ b = omega (arith, ltb→le _ _ up) in
          (b * w, refl, omega (arith, add-mul a 1125899906842624 w, ap (λ z. z * w) e))
      | inl down ↦
          let e : a + 1125899906842624 ≡ b + 18446744073709551616 =
            omega (arith, ltb→lt _ _ down) in
          (
            b * w,
            refl,
            omega (
              arith,
              add-mul a 1125899906842624 w,
              add-mul b 18446744073709551616 w,
              ap (λ z. z * w) e,
            ),
          )
    ]

-- The arithmetic shift of a sum that is 2^60 below `n`.
shift_back :
    (n : ℕ)
    → n < 1152925902653358080
    → (shr_s64 ((n + 18446744073709551616 - 1152921504606846976) % u64_mod) 1024 + 1125899906842624)
        % u64_mod
      ≡ n / 1024
shift_back n h = ground arith

shift_in_range : (n : ℕ) → n < u64_mod → shr_s64 n 1024 < u64_mod
shift_in_range n h = ground arith

pub ewma_round-Tame :
    (c : Params) (a b w : ℕ)
    → c.round_alpha ≡ pos w
    → w ≤ 1024
    → Tame a
    → Tame b
    → Tame (ewma_round c a b)
unfolding ewma_round
ewma_round-Tame c a b w e l (ha, h) (hb, k) =
    let (x, ex, mx) = shifted_mul a w ha h l in
    let (y, ey, my) = shifted_mul b (1024 - w) hb k (omega arith) in
    let n = x + y in
    let a' = (a + 1125899906842624) % u64_mod in
    let b' = (b + 1125899906842624) % u64_mod in
    let small : n ≤ 1125904201809919 * 1024 =
      omega (arith, ex, ey, mean_below 1125904201809919 a' b' w l (omega arith) (omega arith)) in
    let sum : (a * w % u64_mod + b * (1024 - w) % u64_mod) % u64_mod
        ≡ (n + 18446744073709551616 - 1152921504606846976) % u64_mod =
      omega (arith, mx, my, l) in
    rw (e, alpha_rest w l, small_alpha w l, sum)
      (shift_in_range _ (omega arith), omega (arith, shift_back n (omega arith)))

zero-Tame : Tame 0
zero-Tame = (omega arith, omega arith)

decay-Tame :
    (c : Params) (n round w : ℕ)
    → c.round_alpha ≡ pos w
    → w ≤ 1024
    → Tame round
    → Tame (decay c n round)
unfolding decay
decay-Tame c zero round w e l t = t
decay-Tame c (suc n) round w e l t =
    decay-Tame c n (ewma_round c round 0) w e l (ewma_round-Tame c round 0 w e l t zero-Tame)

Tame-if : (b : Bool) (x y : ℕ) → Tame x → Tame y → Tame (if b then x else y)
Tame-if true x y t u = t
Tame-if false x y t u = u

pub reset_round-Tame :
    (c : Params) (now bytes since round w : ℕ)
    → c.round_alpha ≡ pos w
    → w ≤ 1024
    → Tame round
    → Tame (reset_round c now bytes since round)
unfolding reset_round
reset_round-Tame c now bytes since round w e l t =
    Tame-if _ 0 _ zero-Tame (decay-Tame c _ round w e l t)

-- `mq_ecn_marking` does not divide by zero at such a round time.
pub Tame-divides : (t : ℕ) → Tame t → (lt64 0 t && t % u32_mod == 0) ≡ false
Tame-divides t (l, h) = ground arith

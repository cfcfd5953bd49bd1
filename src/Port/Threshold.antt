-- ===== src/Port/Threshold.antt =====
-- The thresholds that `MarkingECN` scales down never exceed the threshold of the port.
use mq_ecn.Common.{ℕ, ◌<◌, ◌≡◌, refl, Bool, true, false, if◌then◌else◌}
use mq_ecn.Simulator.{Simulator, of_nat}
use mq_ecn.Port.{zero_double, exceeds, scaled}

module _ (ns : Simulator) where
  -- What the argument uses of IEEE arithmetic: `1 * t` is `t`, a factor below 1 does not enlarge a
  -- positive finite number, a product with a positive whole number is monotone, and the order.
  pub record Arithmetic : Type 0 where
    pub one_mul : (t : ns.Double) → ns.mul (of_nat ns 1) t ≡ t
    pub le_refl : (a b : ns.Double) → ns.lt a b ≡ true → ns.le a a ≡ true
    pub shrinks :
        (x t : ns.Double)
        → ns.lt x (of_nat ns 1) ≡ true
        → ns.lt (zero_double ns) t ≡ true
        → ns.lt t ns.ldbl_max ≡ true
        → ns.le (ns.mul x t) t ≡ true
    pub mul_le :
        (a b : ns.Double) (n : ℕ)
        → 0 < n
        → ns.le a b ≡ true
        → ns.le (ns.mul a (of_nat ns n)) (ns.mul b (of_nat ns n)) ≡ true
    pub le_lt : (a b c : ns.Double) → ns.le a b ≡ true → ns.lt b c ≡ true → ns.lt a c ≡ true

  -- A threshold that is positive and finite.
  abbrev pub IsPositive : ns.Double → Type 0
  IsPositive t = (ns.lt (zero_double ns) t ≡ true) × (ns.lt t ns.ldbl_max ≡ true)

  scaled-le : (share t : ns.Double) → Arithmetic → IsPositive t → ns.le (scaled ns share t) t ≡ true
  scaled-le share t a h = go (ns.lt share (of_nat ns 1)) refl
    where
      go :
          (b : Bool)
          → ns.lt share (of_nat ns 1) ≡ b
          → ns.le (ns.mul (elim b [ true ↦ share | false ↦ of_nat ns 1 ]) t) t ≡ true
      go true less = a.shrinks share t less h.0 h.1
      go false more = rw (a.one_mul t) (a.le_refl t ns.ldbl_max h.1)

  pub exceeds-scaled :
      (bytes mean : ℕ) (share t : ns.Double) (b : Bool)
      → Arithmetic
      → IsPositive t
      → 0 < mean
      → exceeds ns bytes t mean ≡ true
      → exceeds ns bytes (if b then scaled ns share t else t) mean ≡ true
  exceeds-scaled bytes mean share t false a h m e = e
  exceeds-scaled bytes mean share t true a h m e =
      a.le_lt _ _ _ (a.mul_le _ _ mean m (scaled-le share t a h)) e

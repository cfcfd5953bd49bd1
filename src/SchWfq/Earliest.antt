-- ===== src/SchWfq/Earliest.antt =====
-- The choice of the class in `wfq_dequeue` of sch_wfq. Virtual times wrap, so they are compared from a
-- base; from there they are within 2^63.
use mq_ecn.Common.{
  ℕ, zero, suc, ◌+◌, ◌-◌, ◌≤◌, ◌<◌, ◌≡◌, refl, sym, ap, ◌∙◌, ◌⊎◌, inl, inr, Bool, true, false,
  Bool-cases, Option, none, some, List, [], ◌∷◌, get_elem?, ltb, leb, ltb→lt, ltb→le, ◌==◌, ◌&&◌,
  not, if◌then◌else◌, arith, if_true, if_false,
}
use mq_ecn.Kernel.{Kernel}
use mq_ecn.Words.{u64_mod, sub64}
use mq_ecn.SchWfq.{time_before}
use mq_ecn.SchWfq.Qdisc.{WfqClass}
use mq_ecn.SchWfq.Dequeue.{better, earliest}

-- `t` is a `u64` less than 2^63 after `base`.
abbrev pub InWindow : ℕ → ℕ → Type 0
InWindow base t = (t < u64_mod) × (sub64 t base < 9223372036854775808)

pub before_offset :
    (base t m : ℕ)
    → base < u64_mod
    → InWindow base t
    → InWindow base m
    → time_before t m ≡ ltb (sub64 t base) (sub64 m base)
unfolding time_before
before_offset base t m b (l, h) (o, k) = ground arith

module _ (k : Kernel) where
  -- The class has bytes and this priority.
  abbrev pub waits : ℕ → WfqClass k → Bool
  waits prio x = x.prio == prio && not (x.len_bytes == 0)

  -- Each waiting class finishes in the window.
  abbrev pub Window : ℕ → ℕ → List (WfqClass k) → Type 0
  Window base prio xs =
      (j : ℕ) (y : WfqClass k)
      → get_elem? xs j ≡ some y
      → waits prio y ≡ true
      → InWindow base y.head_fin_time

  -- `r` is a class of `xs`, whose first index is `i`, that waits and finishes at most `d` after the
  -- base and no later than any other.
  abbrev pub Least : ℕ → ℕ → List (WfqClass k) → ℕ → ℕ × ℕ → Type 0
  Least base prio xs i (c, m) =
      (j : ℕ) × (x : WfqClass k) × (c ≡ i + j)
      × (get_elem? xs j ≡ some x)
      × (waits prio x ≡ true)
      × (m ≡ x.head_fin_time)

  abbrev pub NoLater : ℕ → ℕ → List (WfqClass k) → ℕ → Type 0
  NoLater base prio xs m =
      (j : ℕ) (y : WfqClass k)
      → get_elem? xs j ≡ some y
      → waits prio y ≡ true
      → sub64 m base ≤ sub64 y.head_fin_time base

  pick_true : (a b c : Bool) → (a && b && c) ≡ true → ((a && b) ≡ true) × (c ≡ true)
  pick_true a b c h = (ground arith, ground arith)

  pick_false : (a b c : Bool) → (a && b && c) ≡ false → (a && b) ≡ true → c ≡ false
  pick_false a b c h e = ground arith

  NoLater-cons :
      (base prio m : ℕ) (x : WfqClass k) (xs : List (WfqClass k))
      → (waits prio x ≡ true → sub64 m base ≤ sub64 x.head_fin_time base)
      → NoLater base prio xs m
      → NoLater base prio (x ∷ xs) m
  NoLater-cons base prio m x xs h l zero y e w =
      let q : x ≡ y = cc in
      mq_ecn.Common.subst
        (λ (z : WfqClass k). waits prio z ≡ true → sub64 m base ≤ sub64 z.head_fin_time base) q h w
  NoLater-cons base prio m x xs h l (suc j) y e w = l j y e w

  shift :
      (base prio i : ℕ) (x : WfqClass k) (xs : List (WfqClass k)) (r : ℕ × ℕ)
      → Least base prio xs (suc i) r
      → Least base prio (x ∷ xs) i r
  shift base prio i x xs r (j, y, q, e, wy, f) = (suc j, y, q ∙ omega arith, e, wy, f)

  found :
      (base prio i : ℕ) (x : WfqClass k) (xs : List (WfqClass k)) (r : ℕ × ℕ)
      → waits prio x ≡ true
      → (r ≡ (i, x.head_fin_time)) ⊎ Least base prio xs (suc i) r
      → Least base prio (x ∷ xs) i r
  found base prio i x xs r wx (inl e) =
      (0, x, ap (λ z. z.0) e ∙ omega arith, refl, wx, ap (λ z. z.1) e)
  found base prio i x xs r wx (inr h) = shift base prio i x xs r h

  kept :
      (base prio i c m : ℕ) (x : WfqClass k) (xs : List (WfqClass k)) (r : ℕ × ℕ)
      → (r ≡ (c, m)) ⊎ Least base prio xs (suc i) r
      → (r ≡ (c, m)) ⊎ Least base prio (x ∷ xs) i r
  kept base prio i c m x xs r (inl e) = inl e
  kept base prio i c m x xs r (inr h) = inr (shift base prio i x xs r h)

  -- The rest of the loop keeps the choice `(c, m)` or finds an earlier class.
  earliest-from :
      (base prio : ℕ) (xs : List (WfqClass k)) (i c m : ℕ)
      → base < u64_mod
      → Window base prio xs
      → InWindow base m
      → (r : ℕ × ℕ) × (earliest k prio xs i (some (c, m)) ≡ some r)
        × ((r ≡ (c, m)) ⊎ Least base prio xs i r)
        × (sub64 (r.1) base ≤ sub64 m base)
        × NoLater base prio xs (r.1)
  unfolding earliest better
  earliest-from base prio [] i c m b w o = ((c, m), refl, inl refl, omega arith, λ j y e _. cc)
  earliest-from base prio (x ∷ xs) i c m b w o =
      let pick = x.prio == prio && not (x.len_bytes == 0) && time_before x.head_fin_time m in
      let later : Window base prio xs = λ j y e. w (suc j) y e in
      elim (Bool-cases pick) [
        | inl picked ↦
            let (wx, earlier) = pick_true (x.prio == prio) (not (x.len_bytes == 0)) _ picked in
            let wo = w 0 x refl wx in
            let less : sub64 x.head_fin_time base < sub64 m base =
              ltb→lt _ _ (sym (before_offset base x.head_fin_time m b wo o) ∙ earlier) in
            let (r, e, where_from, no_more, least) =
              earliest-from base prio xs (suc i) i x.head_fin_time b later wo in
            (
              r,
              ap (λ z. earliest k prio xs (suc i) z) (if_true _ _ _ picked) ∙ e,
              inr (found base prio i x xs r wx where_from),
              omega (arith, less, no_more),
              NoLater-cons base prio (r.1) x xs (λ _. no_more) least,
            )
        | inr passed ↦
            let (r, e, where_from, no_more, least) =
              earliest-from base prio xs (suc i) c m b later o in
            (
              r,
              ap (λ z. earliest k prio xs (suc i) z) (if_false _ _ _ passed) ∙ e,
              kept base prio i c m x xs r where_from,
              no_more,
              NoLater-cons base prio (r.1) x xs
                  (λ wx.
                    let late = pick_false (x.prio == prio) (not (x.len_bytes == 0)) _ passed wx in
                    let more =
                      ltb→le _ _
                        (sym (before_offset base x.head_fin_time m b (w 0 x refl wx) o) ∙ late) in
                    omega (arith, more, no_more))
                  least,
            )
      ]

  and_true : (a b : Bool) → (a && b) ≡ true → (a && b && true) ≡ true
  and_true a b h = ground arith

  and_false : (a b : Bool) → (a && b) ≡ false → (a && b && true) ≡ false
  and_false a b h = ground arith

  -- The loop finds a class where one waits.
  pub earliest-first :
      (base prio : ℕ) (xs : List (WfqClass k)) (i j : ℕ) (y : WfqClass k)
      → base < u64_mod
      → Window base prio xs
      → get_elem? xs j ≡ some y
      → waits prio y ≡ true
      → (r : ℕ × ℕ) × (earliest k prio xs i none ≡ some r)
        × Least base prio xs i r
        × NoLater base prio xs (r.1)
  unfolding earliest better
  earliest-first base prio [] i j y b w g wy = cc
  earliest-first base prio (x ∷ xs) i j y b w g wy =
      let later : Window base prio xs = λ j y e. w (suc j) y e in
      elim (Bool-cases (waits prio x)) [
        | inl wx ↦
            let (r, e, where_from, no_more, least) =
              earliest-from base prio xs (suc i) i x.head_fin_time b later (w 0 x refl wx) in
            (
              r,
              ap (λ z. earliest k prio xs (suc i) z)
                    (if_true _ _ _ (and_true (x.prio == prio) (not (x.len_bytes == 0)) wx))
                  ∙ e,
              found base prio i x xs r wx where_from,
              NoLater-cons base prio (r.1) x xs (λ _. no_more) least,
            )
        | inr idle ↦
            let (n, gn) = elsewhere x xs j y idle g wy in
            let (r, e, where_from, least) = earliest-first base prio xs (suc i) n y b later gn wy in
            (
              r,
              ap (λ z. earliest k prio xs (suc i) z)
                    (if_false _ _ _ (and_false (x.prio == prio) (not (x.len_bytes == 0)) idle))
                  ∙ e,
              shift base prio i x xs r where_from,
              NoLater-cons base prio (r.1) x xs (λ wx. cc) least,
            )
      ]
    where
      elsewhere :
          (x : WfqClass k) (xs : List (WfqClass k)) (j : ℕ) (y : WfqClass k)
          → waits prio x ≡ false
          → get_elem? (x ∷ xs) j ≡ some y
          → waits prio y ≡ true
          → (n : ℕ) × (get_elem? xs n ≡ some y)
      elsewhere x xs zero y idle g wy =
          let q : x ≡ y = cc in
          let h : waits prio y ≡ false =
            mq_ecn.Common.subst (λ (z : WfqClass k). waits prio z ≡ false) q idle in
          cc
      elsewhere x xs (suc n) y idle g wy = (n, g)

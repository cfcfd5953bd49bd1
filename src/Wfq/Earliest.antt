-- ===== src/Wfq/Earliest.antt =====
-- The loop of `WFQ::deque` that looks for the earliest finish time.
use mq_ecn.Common.{
  ℕ, zero, suc, ◌+◌, ◌<◌, ◌≡◌, refl, ap, subst, ◌∙◌, ◌⊎◌, inl, inr, Bool, true, false, Option, some,
  List, [], ◌∷◌, get_elem?, arith, ◌==◌, ◌&&◌, not, Bool-cases,
}
use mq_ecn.Simulator.{Simulator}
use mq_ecn.Wfq.{Slot}
use mq_ecn.Wfq.Deque.{earliest}

not_less : (n : ℕ) (b : Bool) → (not (n == 0) && b) ≡ false → 0 < n → b ≡ false
not_less n b e h = ground arith

is_less : (n : ℕ) (b : Bool) → (not (n == 0) && b) ≡ true → (0 < n) × (b ≡ true)
is_less n b e = ground arith

module _ (ns : Simulator) where
  -- What the choice of a queue needs of the order on times.
  pub record IsOrder : Type 0 where
    pub lt_trans : (a b c : ns.Double) → ns.lt a b ≡ true → ns.lt b c ≡ true → ns.lt a c ≡ true
    pub lt_irrefl : (a : ns.Double) → ns.lt a a ≡ false

  -- Of the first `n` queues those that hold a packet finish no earlier than `t`.
  abbrev pub NoneBefore : ℕ → List (Slot ns) → ns.Double → Type 0
  NoneBefore n xs t =
      (j : ℕ) (y : Slot ns)
      → j < n
      → get_elem? xs j ≡ some y
      → 0 < ns.packets y.fifo
      → ns.lt y.head_finish_time t ≡ false

  -- Queue `k` holds a packet, finishes before `t`, and no other one finishes earlier.
  pub record Earliest (n : ℕ) (xs : List (Slot ns)) (t : ns.Double) (k : ℕ) : Type 0 where
    pub x : Slot ns
    pub bound : k < n
    pub found : get_elem? xs k ≡ some x
    pub busy : 0 < ns.packets x.fifo
    pub before : ns.lt x.head_finish_time t ≡ true
    pub first : NoneBefore n xs x.head_finish_time

  asym : {a b : ns.Double} → IsOrder → ns.lt a b ≡ true → ns.lt b a ≡ false
  asym {a} {b} o h = elim (Bool-cases (ns.lt b a)) [
    | inl less ↦ cc (o.lt_trans a b a h less, o.lt_irrefl a)
    | inr more ↦ more
  ]

  -- What the loop makes of the candidate `queue`.
  abbrev pub Chosen : ℕ → List (Slot ns) → ℕ → Option ℕ → ns.Double → Option ℕ → Type 0
  Chosen n xs i queue t r =
      ((r ≡ queue) × NoneBefore n xs t) ⊎ ((k : ℕ) × (r ≡ some (i + k)) × Earliest n xs t k)

  NoneBefore-cons :
      (n : ℕ) (x : Slot ns) (xs : List (Slot ns)) (t : ns.Double)
      → (0 < ns.packets x.fifo → ns.lt x.head_finish_time t ≡ false)
      → NoneBefore n xs t
      → NoneBefore (suc n) (x ∷ xs) t
  NoneBefore-cons n x xs t h rest zero y l g b =
      let same : x ≡ y = cc in
      subst (λ (z : Slot ns). 0 < ns.packets z.fifo → ns.lt z.head_finish_time t ≡ false) same h b
  NoneBefore-cons n x xs t h rest (suc j) y l g b = rest j y (omega arith) g b

  Chosen-better :
      (n : ℕ) (x : Slot ns) (xs : List (Slot ns)) (i : ℕ) (queue : Option ℕ) (t : ns.Double)
      (r : Option ℕ)
      → IsOrder
      → 0 < ns.packets x.fifo
      → ns.lt x.head_finish_time t ≡ true
      → Chosen n xs (suc i) (some i) x.head_finish_time r
      → Chosen (suc n) (x ∷ xs) i queue t r
  Chosen-better n x xs i queue t r o busy lower (inl (e, h)) = inr (
    0,
    e ∙ ap some (omega arith),
    record {
      x = x;
      bound = omega arith;
      found = refl;
      busy = busy;
      before = lower;
      first = NoneBefore-cons n x xs x.head_finish_time (λ _. o.lt_irrefl x.head_finish_time) h;
    },
  )
  Chosen-better n x xs i queue t r o busy lower (inr (k, e, a)) = inr (
    suc k,
    e ∙ ap some (omega arith),
    record {
      x = a.x;
      bound = omega (arith, a.bound);
      found = a.found;
      busy = a.busy;
      before = o.lt_trans _ _ _ a.before lower;
      first = NoneBefore-cons n x xs a.x.head_finish_time (λ _. asym o a.before) a.first;
    },
  )

  Chosen-other :
      (n : ℕ) (x : Slot ns) (xs : List (Slot ns)) (i : ℕ) (queue : Option ℕ) (t : ns.Double)
      (r : Option ℕ)
      → IsOrder
      → (not (ns.packets x.fifo == 0) && ns.lt x.head_finish_time t) ≡ false
      → Chosen n xs (suc i) queue t r
      → Chosen (suc n) (x ∷ xs) i queue t r
  Chosen-other n x xs i queue t r o worse (inl (e, h)) =
      inl (e, NoneBefore-cons n x xs t (λ b. not_less _ _ worse b) h)
  Chosen-other n x xs i queue t r o worse (inr (k, e, a)) = inr (
    suc k,
    e ∙ ap some (omega arith),
    record {
      x = a.x;
      bound = omega (arith, a.bound);
      found = a.found;
      busy = a.busy;
      before = a.before;
      first =
          NoneBefore-cons n x xs a.x.head_finish_time
            (λ b. elim (Bool-cases (ns.lt x.head_finish_time a.x.head_finish_time)) [
              | inl less ↦ cc (not_less _ _ worse b, o.lt_trans _ _ _ less a.before)
              | inr more ↦ more
            ])
            a.first;
    },
  )

  pub earliest-Chosen :
      (n : ℕ) (xs : List (Slot ns)) (i : ℕ) (queue : Option ℕ) (t : ns.Double)
      → IsOrder
      → Chosen n xs i queue t (earliest ns n xs i queue t)
  unfolding earliest
  earliest-Chosen zero xs i queue t o = inl (refl, λ j y l. absurd (omega arith))
  earliest-Chosen (suc n) [] i queue t o = inl (refl, λ j y l g. cc)
  earliest-Chosen (suc n) (x ∷ xs) i queue t o =
      elim (Bool-cases (not (ns.packets x.fifo == 0) && ns.lt x.head_finish_time t)) [
        | inl better ↦ rw better (
            Chosen-better n x xs i queue t _ o (is_less _ _ better).0 (is_less _ _ better).1
              (earliest-Chosen n xs (suc i) (some i) x.head_finish_time o))
        | inr worse ↦
            rw worse
              (Chosen-other n x xs i queue t _ o worse (earliest-Chosen n xs (suc i) queue t o))
      ]

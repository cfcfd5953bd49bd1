-- ===== src/Common/Lists.antt =====
-- Lists measured and indexed by native numbers, under the library's names. An array is a list.
use Prim.Native.Nat.{ℕ, zero, suc, ◌+◌, ◌≤◌, ◌<◌}
use mathlib.Core.Path.{◌≡◌, refl, ap, subst}
use mathlib.Core.Logic.{◌≢◌}
use mathlib.Core.List.{List, [], ◌∷◌}
use mathlib.Core.Option.{Option, none, some}
use native.Mathlib.Omega.{arith}

module _ {ℓ} {A : Type ℓ} where
  abbrev pub length : List A → ℕ
  length [] = 0
  length (x ∷ xs) = suc (length xs)

  abbrev pub get_elem? : List A → ℕ → Option A
  get_elem? [] i = none
  get_elem? (x ∷ xs) zero = some x
  get_elem? (x ∷ xs) (suc i) = get_elem? xs i

  -- A write out of bounds changes nothing.
  abbrev pub set : List A → ℕ → A → List A
  set [] i v = []
  set (x ∷ xs) zero v = v ∷ xs
  set (x ∷ xs) (suc i) v = x ∷ set xs i v

  abbrev pub replicate : ℕ → A → List A
  replicate zero a = []
  replicate (suc n) a = a ∷ replicate n a

  abbrev pub head? : List A → Option A
  head? [] = none
  head? (x ∷ xs) = some x

  abbrev pub tail : List A → List A
  tail [] = []
  tail (x ∷ xs) = xs

  -- The sum over the first `n` entries: `for (i = 0; i < n; i++) result += f(a[i])`.
  abbrev pub sum_first : (A → ℕ) → ℕ → List A → ℕ
  sum_first f zero xs = 0
  sum_first f (suc n) [] = 0
  sum_first f (suc n) (x ∷ xs) = f x + sum_first f n xs

  pub length-set : (xs : List A) (i : ℕ) (v : A) → length (set xs i v) ≡ length xs
  length-set [] i v = refl
  length-set (x ∷ xs) zero v = refl
  length-set (x ∷ xs) (suc i) v = ap suc (length-set xs i v)

  pub length-replicate : (n : ℕ) (a : A) → length (replicate n a) ≡ n
  length-replicate zero a = refl
  length-replicate (suc n) a = ap suc (length-replicate n a)

  pub get_elem?-replicate :
      (n : ℕ) (a : A) (i : ℕ) (x : A) → get_elem? (replicate n a) i ≡ some x → a ≡ x
  get_elem?-replicate zero a i x e = cc
  get_elem?-replicate (suc n) a zero x e = cc
  get_elem?-replicate (suc n) a (suc i) x e = get_elem?-replicate n a i x e

  pub sum_first-replicate :
      (f : A → ℕ) (n m : ℕ) (a : A) → f a ≡ 0 → sum_first f n (replicate m a) ≡ 0
  sum_first-replicate f zero m a e = refl
  sum_first-replicate f (suc n) zero a e = refl
  sum_first-replicate f (suc n) (suc m) a e = omega (arith, e, sum_first-replicate f n m a e)

  pub get_elem?-total : (xs : List A) (i : ℕ) → i < length xs → (a : A) × (get_elem? xs i ≡ some a)
  get_elem?-total [] i h = elim h [ ]
  get_elem?-total (x ∷ xs) zero h = (x, refl)
  get_elem?-total (x ∷ xs) (suc i) h = get_elem?-total xs i (omega arith)

  pub get_elem?-lt : (xs : List A) (i : ℕ) (a : A) → get_elem? xs i ≡ some a → i < length xs
  get_elem?-lt [] i a e = cc
  get_elem?-lt (x ∷ xs) zero a e = omega arith
  get_elem?-lt (x ∷ xs) (suc i) a e = omega (arith, get_elem?-lt xs i a e)

  pub get_elem?-set_self :
      (xs : List A) (i : ℕ) (v : A) → i < length xs → get_elem? (set xs i v) i ≡ some v
  get_elem?-set_self [] i v h = elim h [ ]
  get_elem?-set_self (x ∷ xs) zero v h = refl
  get_elem?-set_self (x ∷ xs) (suc i) v h = get_elem?-set_self xs i v (omega arith)

  pub get_elem?-set_ne :
      (xs : List A) (i j : ℕ) (v : A) → i ≢ j → get_elem? (set xs i v) j ≡ get_elem? xs j
  get_elem?-set_ne [] i j v h = refl
  get_elem?-set_ne (x ∷ xs) zero zero v h = absurd (h refl)
  get_elem?-set_ne (x ∷ xs) zero (suc j) v h = refl
  get_elem?-set_ne (x ∷ xs) (suc i) zero v h = refl
  get_elem?-set_ne (x ∷ xs) (suc i) (suc j) v h = get_elem?-set_ne xs i j v (λ e. h (ap suc e))

  -- What one write adds to the sum and what it takes away.
  pub sum_first-set :
      (f : A → ℕ) (n : ℕ) (xs : List A) (i : ℕ) (a v : A)
      → get_elem? xs i ≡ some a
      → i < n
      → sum_first f n (set xs i v) + f a ≡ sum_first f n xs + f v
  sum_first-set f zero xs i a v e h = elim h [ ]
  sum_first-set f (suc n) [] i a v e h = ground arith
  sum_first-set f (suc n) (x ∷ xs) zero a v e h = ground arith
  sum_first-set f (suc n) (x ∷ xs) (suc i) a v e h =
      omega (arith, sum_first-set f n xs i a v e (omega arith))

  pub sum_first-set_same :
      (f : A → ℕ) (n : ℕ) (xs : List A) (i : ℕ) (a v : A)
      → get_elem? xs i ≡ some a
      → f v ≡ f a
      → sum_first f n (set xs i v) ≡ sum_first f n xs
  sum_first-set_same f zero xs i a v e h = refl
  sum_first-set_same f (suc n) [] i a v e h = refl
  sum_first-set_same f (suc n) (x ∷ xs) zero a v e h = ground arith
  sum_first-set_same f (suc n) (x ∷ xs) (suc i) a v e h =
      ap (λ k. f x + k) (sum_first-set_same f n xs i a v e h)

  -- An entry of the range is no more than the sum.
  pub le-sum_first :
      (f : A → ℕ) (n : ℕ) (xs : List A) (i : ℕ) (a : A)
      → get_elem? xs i ≡ some a
      → i < n
      → f a ≤ sum_first f n xs
  le-sum_first f zero xs i a e h = elim h [ ]
  le-sum_first f (suc n) [] i a e h = ground arith
  le-sum_first f (suc n) (x ∷ xs) zero a e h = ground arith
  le-sum_first f (suc n) (x ∷ xs) (suc i) a e h =
      omega (arith, le-sum_first f n xs i a e (omega arith))

  -- A positive sum has a positive entry in the range.
  pub sum_first-pos :
      (f : A → ℕ) (n : ℕ) (xs : List A)
      → 0 < sum_first f n xs
      → (i : ℕ) × (a : A) × (get_elem? xs i ≡ some a) × (i < n) × (0 < f a)
  sum_first-pos f zero xs h = elim h [ ]
  sum_first-pos f (suc n) [] h = elim h [ ]
  sum_first-pos f (suc n) (x ∷ xs) h = go (f x) refl (sum_first-pos f n xs)
    where
      go :
          (k : ℕ)
          → f x ≡ k
          → (0 < sum_first f n xs
              → (i : ℕ) × (a : A) × (get_elem? xs i ≡ some a) × (i < n) × (0 < f a))
          → (i : ℕ) × (a : A) × (get_elem? (x ∷ xs) i ≡ some a) × (i < suc n) × (0 < f a)
      go zero e rest = let (i, a, g, l, p) = rest (omega arith) in (suc i, a, g, omega arith, p)
      go (suc k) e rest = (0, x, refl, omega arith, omega arith)

  -- What holds of every other entry and of the new one holds after a write.
  pub set_keeps_ne {κ} :
      (P : ℕ → A → Type κ) (xs : List A) (i : ℕ) (v : A)
      → ((j : ℕ) (x : A) → j ≢ i → get_elem? xs j ≡ some x → P j x)
      → P i v
      → (j : ℕ) (x : A) → get_elem? (set xs i v) j ≡ some x
      → P j x
  set_keeps_ne P [] i v h new j x e = cc
  set_keeps_ne P (y ∷ ys) zero v h new zero x e = let q : v ≡ x = cc in subst (P zero) q new
  set_keeps_ne P (y ∷ ys) zero v h new (suc j) x e = h (suc j) x (λ q. absurd (omega arith)) e
  set_keeps_ne P (y ∷ ys) (suc i) v h new zero x e = h zero x (λ q. absurd (omega arith)) e
  set_keeps_ne P (y ∷ ys) (suc i) v h new (suc j) x e =
      set_keeps_ne (λ k z. P (suc k) z) ys i v (λ k z ne. h (suc k) z (λ q. ne (omega arith))) new j
        x e

  -- The same where the written entry was no exception.
  pub set_keeps {κ} :
      (P : ℕ → A → Type κ) (xs : List A) (i : ℕ) (v : A)
      → ((j : ℕ) (x : A) → get_elem? xs j ≡ some x → P j x)
      → P i v
      → (j : ℕ) (x : A) → get_elem? (set xs i v) j ≡ some x
      → P j x
  set_keeps P xs i v h = set_keeps_ne P xs i v (λ j x _. h j x)

  pub set-set : (xs : List A) (i : ℕ) (v w : A) → set (set xs i v) i w ≡ set xs i w
  set-set [] i v w = refl
  set-set (x ∷ xs) zero v w = refl
  set-set (x ∷ xs) (suc i) v w = ap (λ l. x ∷ l) (set-set xs i v w)

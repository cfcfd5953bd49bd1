-- ===== src/Port/Groups.antt =====
-- A port whose queues stand in two arrays, one after the other: what holds of the queues of one
-- array holds of the queues of the port.
use mq_ecn.Common.{
  ℕ, zero, suc, ◌+◌, ◌≤◌, ◌<◌, ◌≡◌, refl, ap, ◌∙◌, some, List, [], ◌∷◌, ◌++◌, get_elem?, set,
  sum_first, length, arith,
}
use mq_ecn.Simulator.{Simulator, bytes_of}
use mq_ecn.Port.{Pkt}
use mq_ecn.Port.Backlog.{Backlog, JoinsAt, TakesAt, total, view}

zero_plus : (n : ℕ) → 0 + n ≡ n
zero_plus n = omega arith

suc_plus : (n i : ℕ) → suc n + i ≡ suc (n + i)
suc_plus n i = omega arith

module _ {ℓ} {A : Type ℓ} where
  pub get_elem?-lt : (xs : List A) (i : ℕ) (a : A) → get_elem? xs i ≡ some a → i < length xs
  get_elem?-lt [] i a e = cc
  get_elem?-lt (x ∷ xs) zero a e = omega arith
  get_elem?-lt (x ∷ xs) (suc i) a e = omega (arith, get_elem?-lt xs i a e)

  get_elem?-append_left :
      (xs ys : List A) (i : ℕ) (a : A) → get_elem? xs i ≡ some a → get_elem? (xs ++ ys) i ≡ some a
  get_elem?-append_left [] ys i a e = cc
  get_elem?-append_left (x ∷ xs) ys zero a e = e
  get_elem?-append_left (x ∷ xs) ys (suc i) a e = get_elem?-append_left xs ys i a e

  get_elem?-append_right :
      (xs ys : List A) (i : ℕ) → get_elem? (xs ++ ys) (length xs + i) ≡ get_elem? ys i
  get_elem?-append_right [] ys i = ap (λ k. get_elem? ys k) (zero_plus i)
  get_elem?-append_right (x ∷ xs) ys i =
      ap (λ k. get_elem? (x ∷ xs ++ ys) k) (suc_plus (length xs) i) ∙ get_elem?-append_right xs ys i

  set-append_left :
      (xs ys : List A) (i : ℕ) (a v : A)
      → get_elem? xs i ≡ some a
      → set (xs ++ ys) i v ≡ set xs i v ++ ys
  set-append_left [] ys i a v e = cc
  set-append_left (x ∷ xs) ys zero a v e = refl
  set-append_left (x ∷ xs) ys (suc i) a v e = ap (λ l. x ∷ l) (set-append_left xs ys i a v e)

  set-append_right :
      (xs ys : List A) (i : ℕ) (v : A) → set (xs ++ ys) (length xs + i) v ≡ xs ++ set ys i v
  set-append_right [] ys i v = ap (λ k. set ys k v) (zero_plus i)
  set-append_right (x ∷ xs) ys i v =
      ap (λ k. set (x ∷ xs ++ ys) k v) (suc_plus (length xs) i)
      ∙ ap (λ l. x ∷ l) (set-append_right xs ys i v)

  pub sum_first-append :
      (f : A → ℕ) (m : ℕ) (xs ys : List A)
      → sum_first f (length xs + m) (xs ++ ys) ≡ sum_first f (length xs) xs + sum_first f m ys
  sum_first-append f m [] ys = omega (arith, ap (λ k. sum_first f k ys) (zero_plus m))
  sum_first-append f m (x ∷ xs) ys =
      ap (λ k. sum_first f k (x ∷ xs ++ ys)) (suc_plus (length xs) m)
      ∙ omega (arith, sum_first-append f m xs ys)

  -- Entries from the `n`-th on that count nothing change no sum.
  pub sum_first-beyond :
      (f : A → ℕ) (n m : ℕ) (xs : List A)
      → n ≤ m
      → ((i : ℕ) (a : A) → n ≤ i → get_elem? xs i ≡ some a → f a ≡ 0)
      → sum_first f m xs ≡ sum_first f n xs
  sum_first-beyond f zero zero xs l h = refl
  sum_first-beyond f (suc n) zero xs l h = absurd (omega arith)
  sum_first-beyond f zero (suc m) [] l h = refl
  sum_first-beyond f (suc n) (suc m) [] l h = refl
  sum_first-beyond f zero (suc m) (x ∷ xs) l h = omega (
    arith,
    h 0 x (omega arith) refl,
    sum_first-beyond f zero m xs (omega arith) (λ i a b e. h (suc i) a (omega arith) e),
  )
  sum_first-beyond f (suc n) (suc m) (x ∷ xs) l h =
      omega
        (arith, sum_first-beyond f n m xs (omega arith) (λ i a b e. h (suc i) a (omega arith) e))

module _ (ns : Simulator) where
  pub JoinsAt-left :
      (i n m : ℕ) (p : Pkt ns) (v w u : Backlog ns)
      → n ≤ m
      → JoinsAt ns i n p v w
      → JoinsAt ns i m p (v ++ u) (w ++ u)
  JoinsAt-left i n m p v w u l (old, q, b, g, e, k) = (
    old,
    q,
    omega arith,
    get_elem?-append_left v u i old g,
    rw e (rw (set-append_left v u i old (old ++ (q ∷ [])) g) refl),
    k,
  )

  pub JoinsAt-right :
      (i n : ℕ) (p : Pkt ns) (u v w : Backlog ns)
      → JoinsAt ns i n p v w
      → JoinsAt ns (length u + i) (length u + n) p (u ++ v) (u ++ w)
  JoinsAt-right i n p u v w (old, q, b, g, e, k) = (
    old,
    q,
    omega arith,
    get_elem?-append_right u v i ∙ g,
    rw e (rw (set-append_right u v i (old ++ (q ∷ []))) refl),
    k,
  )

  pub TakesAt-left :
      (i n m : ℕ) (p : Pkt ns) (v w u : Backlog ns)
      → n ≤ m
      → TakesAt ns i n v p w
      → TakesAt ns i m (v ++ u) p (w ++ u)
  TakesAt-left i n m p v w u l (q, rest, b, g, e, k) = (
    q,
    rest,
    omega arith,
    get_elem?-append_left v u i (q ∷ rest) g,
    rw e (rw (set-append_left v u i (q ∷ rest) rest g) refl),
    k,
  )

  pub TakesAt-right :
      (i n : ℕ) (p : Pkt ns) (u v w : Backlog ns)
      → TakesAt ns i n v p w
      → TakesAt ns (length u + i) (length u + n) (u ++ v) p (u ++ w)
  TakesAt-right i n p u v w (q, rest, b, g, e, k) = (
    q,
    rest,
    omega arith,
    get_elem?-append_right u v i ∙ g,
    rw e (rw (set-append_right u v i rest) refl),
    k,
  )

  pub TakesAt-wider :
      (i n m : ℕ) (p : Pkt ns) (v w : Backlog ns)
      → n ≤ m
      → TakesAt ns i n v p w
      → TakesAt ns i m v p w
  TakesAt-wider i n m p v w l (q, rest, b, g, e, k) = (q, rest, omega arith, g, e, k)

  pub JoinsAt-wider :
      (i n m : ℕ) (p : Pkt ns) (v w : Backlog ns)
      → n ≤ m
      → JoinsAt ns i n p v w
      → JoinsAt ns i m p v w
  JoinsAt-wider i n m p v w l (old, q, b, g, e, k) = (old, q, omega arith, g, e, k)

  pub total-append :
      (m : ℕ) (v u : Backlog ns)
      → total ns (length v + m) (v ++ u) ≡ total ns (length v) v + total ns m u
  total-append m v u = sum_first-append bytes_of m v u

  pub length-view :
      {A : Type 0} (fifo : A → ns.Queue) (xs : List A) → length (view ns fifo xs) ≡ length xs
  length-view fifo [] = refl
  length-view fifo (x ∷ xs) = ap suc (length-view fifo xs)

-- ===== src/Port/Backlog.antt =====
-- What a multi-queue port promises, whatever its scheduler: each queue is the sequence of packets
-- that it holds, `enque` appends to one of them within the shared buffer, and `deque` takes the
-- oldest packet of one. A packet keeps its size, its priority and its ECN capability.
use mq_ecn.Common.{
  ◌==◌, ◌||◌, ◌&&◌, ℕ, zero, suc, ◌+◌, ◌≤◌, ◌<◌, ◌≡◌, refl, sym, ap, ◌∙◌, ◌⊎◌, inl, inr, Bool, true,
  false, Option, none, some, List, [], ◌∷◌, ◌++◌, map, get_elem?, set, tail, head?, sum_first,
  sum_first-set, length, if◌then◌else◌, Result, ok, Returns, arith,
}
use mq_ecn.Simulator.{Simulator, bytes_of}
use mq_ecn.Port.{latency_marking, Pkt, Fate, queued, dropped, mark_enque, mark_latency, clamp_prio}

pub bytes_of-append :
    {D : Type 0} (ps qs : List (mq_ecn.Simulator.Packet D))
    → bytes_of (ps ++ qs) ≡ bytes_of ps + bytes_of qs
bytes_of-append [] qs = omega arith
bytes_of-append (p ∷ ps) qs = omega (arith, bytes_of-append ps qs)

pub set_get_self {ℓ} :
    {A : Type ℓ} (xs : List A) (i : ℕ) (a : A) → get_elem? xs i ≡ some a → set xs i a ≡ xs
set_get_self [] i a e = refl
set_get_self (x ∷ xs) zero a e = ground arith
set_get_self (x ∷ xs) (suc i) a e = ap (λ l. x ∷ l) (set_get_self xs i a e)

-- A queue number in range is kept, any other is the last queue.
pub clamp_prio-Returns :
    (n : ℕ) (prio : mq_ecn.Common.ℤ) → 0 < n → Returns (λ i. i < n) (clamp_prio n prio)
unfolding clamp_prio
clamp_prio-Returns zero prio h = elim h [ ]
clamp_prio-Returns (suc n) (mq_ecn.Common.ℤ.pos p) h = (_, refl, ground arith)
clamp_prio-Returns (suc n) (mq_ecn.Common.ℤ.negsuc p) h = (n, refl, omega arith)

-- Outside latency marking a packet is marked exactly if `must` holds and it is ECN-capable.
pub mark_exact :
    (ns : Simulator) (scheme : ℕ) (enabled : Bool) (now : ns.Double) (must : Bool) (p : Pkt ns)
    → (scheme == latency_marking) ≡ false
    → enabled ≡ true
    → (mark_enque ns scheme enabled now must p).ce ≡ (p.ce || must && p.ect)
unfolding mark_enque
mark_exact ns scheme enabled now must p e f = ground arith

-- `p` with the congestion mark that it came with, or one if `must` holds and it is ECN-capable.
abbrev pub with_mark : (ns : Simulator) → Bool → Pkt ns → Pkt ns
with_mark ns must p = record p { ce = p.ce || must && p.ect }

-- Outside latency marking `enque` writes nothing but this mark.
pub mark_enque-eq :
    (ns : Simulator) (scheme : ℕ) (now : ns.Double) (must : Bool) (p : Pkt ns)
    → (scheme == latency_marking) ≡ false
    → mark_enque ns scheme true now must p ≡ with_mark ns must p
unfolding mark_enque
mark_enque-eq ns scheme now must p e = ground arith

module _ (ns : Simulator) where
  -- `q` is `p` but for its congestion mark and its time stamp, and only an ECN-capable packet is
  -- ever marked.
  pub record Marked (p q : Pkt ns) : Type 0 where
    pub size_same : q.size ≡ p.size
    pub prio_same : q.prio ≡ p.prio
    pub ect_same : q.ect ≡ p.ect
    pub mark_kept : p.ce ≡ true → q.ce ≡ true
    pub mark_allowed : p.ect ≡ false → q.ce ≡ p.ce

  pub Marked-refl : (p : Pkt ns) → Marked p p
  Marked-refl p = record {
    size_same = refl;
    prio_same = refl;
    ect_same = refl;
    mark_kept = λ h. h;
    mark_allowed = λ h. refl;
  }

  pub mark_enque-Marked :
      (scheme : ℕ) (enabled : Bool) (now : ns.Double) (must : Bool) (p : Pkt ns)
      → Marked p (mark_enque ns scheme enabled now must p)
  unfolding mark_enque
  mark_enque-Marked scheme enabled now must p = ground arith

  pub mark_latency-Marked :
      (now thresh : ns.Double) (p : Pkt ns) → Marked p (mark_latency ns now thresh p)
  unfolding mark_latency
  mark_latency-Marked now thresh p = ground arith

  pub leave-Marked :
      (latency : Bool) (now thresh : ns.Double) (p : Pkt ns)
      → Marked p (if latency then mark_latency ns now thresh p else p)
  leave-Marked true now thresh p = mark_latency-Marked now thresh p
  leave-Marked false now thresh p = Marked-refl p

  abbrev pub Backlog : Type 0
  Backlog = List (List (Pkt ns))

  abbrev pub total : ℕ → Backlog → ℕ
  total n v = sum_first bytes_of n v

  -- `p`, perhaps marked, is the newest packet of queue `i`, one of the first `n`.
  abbrev pub JoinsAt : ℕ → ℕ → Pkt ns → Backlog → Backlog → Type 0
  JoinsAt i n p v w =
      (old : List (Pkt ns)) × (q : Pkt ns) × (i < n)
      × (get_elem? v i ≡ some old)
      × (w ≡ set v i (old ++ (q ∷ [])))
      × Marked p q

  abbrev pub Joins : ℕ → Pkt ns → Backlog → Backlog → Type 0
  Joins n p v w = (i : ℕ) × JoinsAt i n p v w

  -- `p` was, perhaps unmarked, the oldest packet of queue `i`, one of the first `n`.
  abbrev pub TakesAt : ℕ → ℕ → Backlog → Pkt ns → Backlog → Type 0
  TakesAt i n v p w =
      (q : Pkt ns) × (rest : List (Pkt ns)) × (i < n)
      × (get_elem? v i ≡ some (q ∷ rest))
      × (w ≡ set v i rest)
      × Marked q p

  abbrev pub Takes : ℕ → Backlog → Pkt ns → Backlog → Type 0
  Takes n v p w = (i : ℕ) × TakesAt i n v p w

  -- A packet is dropped exactly if the buffer of `limit` bytes would overflow.
  abbrev pub Enqueues : ℕ → ℕ → Pkt ns → Backlog → Fate → Backlog → Type 0
  Enqueues n limit p v fate w =
      ((fate ≡ dropped) × (limit < total n v + p.size) × (w ≡ v))
      ⊎ ((fate ≡ queued) × (total n v + p.size ≤ limit) × Joins n p v w)

  -- With a byte in the buffer a packet leaves.
  abbrev pub Dequeues : ℕ → Backlog → Option (Pkt ns) → Backlog → Type 0
  Dequeues n v out w =
      ((total n v ≡ 0) × (out ≡ none) × (w ≡ v))
      ⊎ ((p : Pkt ns) × (0 < total n v) × (out ≡ some p) × Takes n v p w)

  pub Joins-total :
      (n : ℕ) (p : Pkt ns) (v w : Backlog) → Joins n p v w → total n w ≡ total n v + p.size
  Joins-total n p v w (i, (old, q, l, g, e, m)) = rw e (
      omega (
        arith,
        sum_first-set bytes_of n v i old (old ++ (q ∷ [])) g l,
        bytes_of-append old (q ∷ []),
        m.size_same,
      ))

  pub Takes-total :
      (n : ℕ) (v w : Backlog) (p : Pkt ns) → Takes n v p w → total n w + p.size ≡ total n v
  Takes-total n v w p (i, (q, rest, l, g, e, m)) =
      rw e (omega (arith, sum_first-set bytes_of n v i (q ∷ rest) rest g l, m.size_same))

  pub Enqueues-cong :
      (n n' limit limit' : ℕ) (v v' : Backlog) (p : Pkt ns) (fate : Fate) (w : Backlog)
      → n ≡ n'
      → limit ≡ limit'
      → v ≡ v'
      → Enqueues n limit p v fate w
      → Enqueues n' limit' p v' fate w
  Enqueues-cong n n' limit limit' v v' p fate w a b c h = rw (← a, ← b, ← c) h

  -- The buffer never holds more than `limit` bytes.
  pub Enqueues-bounded :
      (n limit : ℕ) (p : Pkt ns) (v : Backlog) (fate : Fate) (w : Backlog)
      → Enqueues n limit p v fate w
      → total n v ≤ limit
      → total n w ≤ limit
  Enqueues-bounded n limit p v fate w (inl (_, _, e)) h = rw e h
  Enqueues-bounded n limit p v fate w (inr (_, l, j)) h = omega (arith, Joins-total n p v w j)

  pub Dequeues-bounded :
      (n : ℕ) (v : Backlog) (out : Option (Pkt ns)) (w : Backlog)
      → Dequeues n v out w
      → total n w ≤ total n v
  Dequeues-bounded n v out w (inl (_, _, e)) = rw e (omega arith)
  Dequeues-bounded n v out w (inr (p, _, _, t)) = omega (arith, Takes-total n v w p t)

-- An array of queues of any kind, seen as what the queues hold.
module _ (ns : Simulator) {A : Type 0} (fifo : A → ns.Queue) where
  abbrev pub view : List A → Backlog ns
  view xs = map (λ x. ns.contents (fifo x)) xs

  pub get_elem?-view :
      (xs : List A) (i : ℕ) (x : A)
      → get_elem? xs i ≡ some x
      → get_elem? (view xs) i ≡ some (ns.contents (fifo x))
  get_elem?-view [] i x e = cc
  get_elem?-view (y ∷ xs) zero x e = ground arith
  get_elem?-view (y ∷ xs) (suc i) x e = get_elem?-view xs i x e

  pub view-set :
      (xs : List A) (i : ℕ) (y : A) → view (set xs i y) ≡ set (view xs) i (ns.contents (fifo y))
  view-set [] i y = refl
  view-set (x ∷ xs) zero y = refl
  view-set (x ∷ xs) (suc i) y = ap (λ l. ns.contents (fifo x) ∷ l) (view-set xs i y)

  -- A write that leaves the queue alone.
  pub view-set_same :
      (xs : List A) (i : ℕ) (x y : A)
      → get_elem? xs i ≡ some x
      → fifo y ≡ fifo x
      → view (set xs i y) ≡ view xs
  view-set_same xs i x y g e =
      view-set xs i y
      ∙ rw e (set_get_self (view xs) i (ns.contents (fifo x)) (get_elem?-view xs i x g))

  pub bytes-view :
      (n : ℕ) (xs : List A) → sum_first (λ x. ns.byte_length (fifo x)) n xs ≡ total ns n (view xs)
  bytes-view zero xs = refl
  bytes-view (suc n) [] = refl
  bytes-view (suc n) (x ∷ xs) = omega (arith, ns.bytes-eq (fifo x), bytes-view n xs)

  pub put-JoinsAt :
      (n : ℕ) (xs : List A) (i : ℕ) (x y : A) (p q : Pkt ns)
      → i < n
      → get_elem? xs i ≡ some x
      → fifo y ≡ ns.enque q (fifo x)
      → Marked ns p q
      → JoinsAt ns i n p (view xs) (view (set xs i y))
  put-JoinsAt n xs i x y p q l g e m = (
    ns.contents (fifo x),
    q,
    l,
    get_elem?-view xs i x g,
    view-set xs i y ∙ rw (e, ns.contents-enque),
    m,
  )

  pub take-TakesAt :
      (n : ℕ) (xs : List A) (i : ℕ) (x y : A) (q p : Pkt ns)
      → i < n
      → get_elem? xs i ≡ some x
      → ns.deque (fifo x) ≡ some q
      → fifo y ≡ ns.after_deque (fifo x)
      → Marked ns q p
      → TakesAt ns i n (view xs) p (view (set xs i y))
  take-TakesAt n xs i x y q p l g d e m = (
    q,
    tail (ns.contents (fifo x)),
    l,
    get_elem?-view xs i x g
        ∙ ap some (split (ns.contents (fifo x)) (sym (ns.deque-eq (fifo x)) ∙ d)),
    view-set xs i y ∙ rw (e, ns.contents-after),
    m,
  )
    where
      split : (l : List (Pkt ns)) → head? l ≡ some q → l ≡ q ∷ tail l
      split [] h = cc
      split (z ∷ zs) h = ground arith

-- A queue that holds a packet hands one over, and its head is the same one.
pub deque-total :
    (ns : Simulator) (f : ns.Queue)
    → 0 < ns.packets f
    → (p : Pkt ns) × (ns.deque f ≡ some p) × (ns.head f ≡ some p)
deque-total ns f h = go (ns.contents f) refl
  where
    go :
        (l : List (Pkt ns))
        → ns.contents f ≡ l
        → (p : Pkt ns) × (ns.deque f ≡ some p) × (ns.head f ≡ some p)
    go [] e = absurd (omega (arith, ns.packets-eq f, ap length e))
    go (p ∷ ps) e = (p, ns.deque-eq f ∙ ap head? e, ns.head-eq f ∙ ap head? e)

-- A queue that holds a byte holds a packet.
pub packets_of_bytes : (ns : Simulator) (f : ns.Queue) → 0 < ns.byte_length f → 0 < ns.packets f
packets_of_bytes ns f h = go (ns.contents f) refl
  where
    go : (l : List (Pkt ns)) → ns.contents f ≡ l → 0 < ns.packets f
    go [] e = absurd (omega (arith, ns.bytes-eq f, ap bytes_of e))
    go (p ∷ ps) e = omega (arith, ns.packets-eq f, ap length e)

-- A queue without packets holds nothing.
pub contents_of_packets : (ns : Simulator) (f : ns.Queue) → ns.packets f ≤ 0 → ns.contents f ≡ []
contents_of_packets ns f h = go (ns.contents f) refl
  where
    go : (l : List (Pkt ns)) → ns.contents f ≡ l → l ≡ []
    go [] e = refl
    go (p ∷ ps) e = absurd (omega (arith, ns.packets-eq f, ap length e))

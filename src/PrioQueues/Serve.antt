-- ===== src/PrioQueues/Serve.antt =====
-- The strict higher priority queues: the first that holds a byte is served.
use mq_ecn.Common.{
  ℕ, zero, suc, ◌<◌, ◌≡◌, refl, inl, inr, Option, some, List, [], ◌∷◌, get_elem?, set, sum_first,
  Result, ok, Returns, arith, ltb, ◌==◌, Bool-cases, ltb→lt, ltb→le,
}
use mq_ecn.Simulator.{Simulator}
use mq_ecn.Port.{Pkt, latency_marking}
use mq_ecn.Port.Backlog.{
  Backlog, TakesAt, Marked, leave-Marked, view, take-TakesAt, deque-total, packets_of_bytes,
}
use mq_ecn.PrioQueues.{
  PrioSlot, Settings, prio_slot_bytes, first_with_bytes, serve_prio, serve_prio_at,
}

module _ (ns : Simulator) where
  abbrev pub prio_view : List (PrioSlot ns) → Backlog ns
  prio_view xs = view ns (λ (x : PrioSlot ns). x.fifo) xs

  -- Queue `i` is the first that holds a byte.
  abbrev pub FirstWithBytes : ℕ → List (PrioSlot ns) → ℕ → PrioSlot ns → Type 0
  FirstWithBytes n xs i x =
      (i < n)
      × (get_elem? xs i ≡ some x)
      × (0 < ns.byte_length x.fifo)
      × ((j : ℕ) (y : PrioSlot ns) → j < i → get_elem? xs j ≡ some y → ns.byte_length y.fifo ≡ 0)

  before-cons :
      (x : PrioSlot ns) (xs : List (PrioSlot ns)) (i : ℕ)
      → ns.byte_length x.fifo ≡ 0
      → ((j : ℕ) (y : PrioSlot ns) → j < i → get_elem? xs j ≡ some y → ns.byte_length y.fifo ≡ 0)
      → (j : ℕ) (y : PrioSlot ns) → j < suc i
      → get_elem? (x ∷ xs) j ≡ some y
      → ns.byte_length y.fifo ≡ 0
  before-cons x xs i e h zero y b g = let q : x ≡ y = cc in rw (← q) e
  before-cons x xs i e h (suc j) y b g = h j y (omega arith) g

  pub first_with_bytes-First :
      (n : ℕ) (xs : List (PrioSlot ns))
      → 0 < sum_first (prio_slot_bytes ns) n xs
      → (i : ℕ) × (x : PrioSlot ns) × (first_with_bytes ns n xs ≡ some i) × FirstWithBytes n xs i x
  unfolding first_with_bytes
  first_with_bytes-First zero xs h = elim h [ ]
  first_with_bytes-First (suc n) [] h = elim h [ ]
  first_with_bytes-First (suc n) (x ∷ xs) h = elim (Bool-cases (ltb 0 (ns.byte_length x.fifo))) [
    | inl busy ↦
        (0, x, rw busy, (omega arith, refl, ltb→lt _ _ busy, λ j y b. absurd (omega arith)))
    | inr idle ↦
        let z : ns.byte_length x.fifo ≡ 0 = omega (arith, ltb→le _ _ idle) in
        let (i, y, e, (l, g, b, before)) = first_with_bytes-First n xs (omega arith) in
        (suc i, y, rw (idle, e), (omega arith, g, b, before-cons x xs i z before))
  ]

  -- What `serve_prio` makes of a queue that holds a packet.
  record Served (x : PrioSlot ns) (r : Result (Pkt ns × PrioSlot ns)) : Type 0 where
    q : Pkt ns
    p : Pkt ns
    y : PrioSlot ns
    result : r ≡ ok (p, y)
    oldest : ns.deque x.fifo ≡ some q
    rest : y.fifo ≡ ns.after_deque x.fifo
    like : Marked ns q p

  serve_prio-Served :
      (c : Settings ns) (now : ns.Double) (x : PrioSlot ns)
      → 0 < ns.packets x.fifo
      → Served x (serve_prio ns c now x)
  unfolding serve_prio
  serve_prio-Served c now x h =
      let (q, d, _) = deque-total ns x.fifo h in
      rw d (record {
        q = q;
        p = _;
        y = _;
        result = refl;
        oldest = d;
        rest = refl;
        like = leave-Marked ns (c.marking_scheme == latency_marking) now _ q;
      })

  -- The packet is the oldest of queue `i`, whose slot is then `y`, and all queues before hold no byte.
  abbrev pub TakesFirst : ℕ → List (PrioSlot ns) → Option (Pkt ns) × List (PrioSlot ns) → Type 0
  TakesFirst n xs r =
      (i : ℕ) × (x : PrioSlot ns) × (y : PrioSlot ns) × (p : Pkt ns) × (r.0 ≡ some p)
      × (r.1 ≡ set xs i y)
      × FirstWithBytes n xs i x
      × TakesAt ns i n (prio_view xs) p (prio_view (set xs i y))

  pub serve_first-TakesFirst :
      (c : Settings ns) (now : ns.Double) (n : ℕ) (xs : List (PrioSlot ns))
      → 0 < sum_first (prio_slot_bytes ns) n xs
      → Returns (TakesFirst n xs) (serve_prio_at ns c now xs (first_with_bytes ns n xs))
  unfolding serve_prio_at
  serve_first-TakesFirst c now n xs h =
      let (i, x, e, f) = first_with_bytes-First n xs h in
      let a = serve_prio-Served c now x (packets_of_bytes ns x.fifo f.2) in
      rw (e, f.1, a.result)
        (
          (some a.p, set xs i a.y),
          refl,
          (
            i,
            x,
            a.y,
            a.p,
            refl,
            refl,
            f,
            take-TakesAt ns (λ (x : PrioSlot ns). x.fifo) n xs i x a.y a.q a.p f.0 f.1 a.oldest
                a.rest a.like,
          ),
        )

-- ===== src/Priority/Service.antt =====
-- `Priority::deque` serves the first queue that holds a packet.
use mq_ecn.Common.{
  ℕ, zero, suc, ◌<◌, ◌≡◌, refl, ap, ◌∙◌, ◌⊎◌, inl, inr, Option, none, some, List, [], ◌∷◌,
  get_elem?, set, length-set, sum_first, Result, ok, Returns, arith, ltb, ◌==◌, Bool-cases, ltb→lt,
  ltb→le,
}
use mq_ecn.Simulator.{Simulator, bytes_of}
use mq_ecn.Port.{Pkt, max_queue_num, latency_marking}
use mq_ecn.Port.Backlog.{
  Backlog, Takes, TakesAt, Marked, leave-Marked, view, bytes-view, take-TakesAt, Takes-total,
  deque-total, contents_of_packets, total,
}
use mq_ecn.Priority.{
  Slot, Priority, total_byte_length, first_backlogged, serve, serve_at, deque, slot_bytes,
}
use mq_ecn.Priority.Refine.{held, IsValid, SameShape, total_byte_length-eq}

before-cons {ℓ} :
    {A : Type ℓ} {a x : A} (l : List A) (i : ℕ)
    → x ≡ a
    → ((j : ℕ) → j < i → get_elem? l j ≡ some a)
    → (j : ℕ) → j < suc i
    → get_elem? (x ∷ l) j ≡ some a
before-cons l i e h zero b = ap some e
before-cons l i e h (suc j) b = h j (omega arith)

module _ (ns : Simulator) where
  -- The queue that `deque` serves: the first that holds a packet.
  abbrev First : ℕ → List (Slot ns) → ℕ → Slot ns → Type 0
  First n xs i x =
      (i < n)
      × (get_elem? xs i ≡ some x)
      × (0 < ns.packets x.fifo)
      × ((j : ℕ) → j < i → get_elem? (view ns (λ (x : Slot ns). x.fifo) xs) j ≡ some [])

  first_backlogged-First :
      (n : ℕ) (xs : List (Slot ns))
      → 0 < sum_first (slot_bytes ns) n xs
      → (i : ℕ) × (x : Slot ns) × (first_backlogged ns n xs ≡ some i) × First n xs i x
  unfolding first_backlogged
  first_backlogged-First zero xs h = elim h [ ]
  first_backlogged-First (suc n) [] h = elim h [ ]
  first_backlogged-First (suc n) (x ∷ xs) h = elim (Bool-cases (ltb 0 (ns.packets x.fifo))) [
    | inl busy ↦ (0, x, rw busy, (omega arith, refl, ltb→lt _ _ busy, λ j b. absurd (omega arith)))
    | inr idle ↦
        let none_here = contents_of_packets ns x.fifo (ltb→le _ _ idle) in
        let (i, y, e, (l, g, b, before)) =
          first_backlogged-First n xs (omega (arith, ns.bytes-eq x.fifo, ap bytes_of none_here)) in
        (suc i, y, rw (idle, e), (omega arith, g, b, before-cons _ i none_here before))
  ]

  -- What `serve` makes of a queue that holds a packet.
  record Served (x : Slot ns) (r : Result (Pkt ns × Slot ns)) : Type 0 where
    q : Pkt ns
    p : Pkt ns
    y : Slot ns
    result : r ≡ ok (p, y)
    oldest : ns.deque x.fifo ≡ some q
    rest : y.fifo ≡ ns.after_deque x.fifo
    like : Marked ns q p

  serve-Served :
      (s : Priority ns) (now : ns.Double) (x : Slot ns)
      → 0 < ns.packets x.fifo
      → Served x (serve ns s now x)
  unfolding serve
  serve-Served s now x h =
      let (q, d, _) = deque-total ns x.fifo h in
      rw d (record {
        q = q;
        p = _;
        y = _;
        result = refl;
        oldest = d;
        rest = refl;
        like = leave-Marked ns (s.marking_scheme == latency_marking) now _ q;
      })

  -- The packet is the oldest of queue `i`, and all queues before that one are empty.
  abbrev pub TakesFirst : ℕ → Backlog ns → Pkt ns → Backlog ns → Type 0
  TakesFirst n v p w = (i : ℕ) × TakesAt ns i n v p w × ((j : ℕ) → j < i → get_elem? v j ≡ some [])

  -- What `deque` promises of its result.
  abbrev pub ServedFirst : Priority ns → Option (Pkt ns) × Priority ns → Type 0
  ServedFirst s r =
      (((total ns s.queue_num (held ns s) ≡ 0) × (r.0 ≡ none) × (r.1 ≡ s))
        ⊎ ((p : Pkt ns) × (0 < total ns s.queue_num (held ns s))
            × (r.0 ≡ some p)
            × TakesFirst s.queue_num (held ns s) p (held ns r.1)))
      × IsValid ns r.1
      × SameShape ns s r.1

  take-IsValid :
      (s : Priority ns) (i : ℕ) (y : Slot ns) (p : Pkt ns)
      → IsValid ns s
      → Takes ns s.queue_num (held ns s) p (held ns (record s { slots = set s.slots i y }))
      → Takes ns max_queue_num (held ns s) p (held ns (record s { slots = set s.slots i y }))
      → IsValid ns (record s { slots = set s.slots i y })
  take-IsValid s i y p v t t' = record {
    slots_length = length-set s.slots i y ∙ v.slots_length;
    some_queue = v.some_queue;
    queue_num_in = v.queue_num_in;
    none_beyond = omega (
      arith,
      v.none_beyond,
      Takes-total ns s.queue_num _ _ p t,
      Takes-total ns max_queue_num _ _ p t',
    );
  }

  serve_at-ServedFirst :
      (s : Priority ns) (now : ns.Double) (i : ℕ) (x : Slot ns)
      → IsValid ns s
      → 0 < total ns s.queue_num (held ns s)
      → First s.queue_num s.slots i x
      → Returns (ServedFirst s) (serve_at ns s now (some i))
  unfolding serve_at
  serve_at-ServedFirst s now i x v pos (l, g, b, before) =
      let a = serve-Served s now x b in
      let takes = λ (n : ℕ) (h : i < n).
        take-TakesAt ns (λ (x : Slot ns). x.fifo) n s.slots i x a.y a.q a.p h g a.oldest a.rest
          a.like in
      rw (g, a.result)
        (
          (some a.p, record s { slots = set s.slots i a.y }),
          refl,
          (
            inr (a.p, pos, refl, (i, takes s.queue_num l, before)),
            take-IsValid s i a.y a.p v (i, takes s.queue_num l)
                (i, takes max_queue_num (omega (arith, v.queue_num_in))),
            (refl, refl),
          ),
        )

  -- In a valid Priority state `deque` returns. It leaves the state as it is and returns no
  -- packet if the queues hold no byte; else it returns the oldest packet of the first queue
  -- that is not empty, changed in its congestion mark and time stamp at most, and the other
  -- queues keep theirs. The state stays valid. The number of queues and the size of the
  -- buffer are kept.
  pub deque-ServedFirst :
      (s : Priority ns) (now : ns.Double) → IsValid ns s → Returns (ServedFirst s) (deque ns s now)
  unfolding deque
  deque-ServedFirst s now v =
      let t = total_byte_length-eq ns s v in
      elim (Bool-cases (ltb 0 (total_byte_length ns s))) [
        | inr idle ↦ rw idle (
          (none, s),
          refl,
          (inl (omega (arith, t, ltb→le _ _ idle), refl, refl), v, (refl, refl)),
        )
        | inl busy ↦
            let (i, x, e, f) = first_backlogged-First s.queue_num s.slots (
              omega (
                arith,
                ltb→lt _ _ busy,
                t,
                bytes-view ns (λ (x : Slot ns). x.fifo) s.queue_num s.slots,
              )) in
            rw (busy, e) (serve_at-ServedFirst s now i x v (omega (arith, ltb→lt _ _ busy, t)) f)
      ]

-- ===== src/SchDwrr/Service.antt =====
-- `dwrr_dequeue` of sch_dwrr: its loop ends, and what it sends.
use mq_ecn.Common.{
  ℕ, zero, suc, ◌+◌, ◌-◌, ◌*◌, ◌%◌, ◌≤◌, ◌<◌, ◌≡◌, refl, sym, ap, subst, ◌∙◌, ◌⊎◌, inl, inr, Bool,
  true, false, Bool-cases, Option, none, some, ℤ, pos, List, [], ◌∷◌, ◌++◌, map, head?, tail,
  get_elem?, get_elem?-lt, get_elem?-total, get_elem?-set_self, set, set_keeps, length, length-set,
  sum_first, sum_first-set, sum_first-set_same, le-sum_first, Result, ok, Returns, ltb, leb,
  lt_of_leb, ◌==◌, ◌||◌, ◌&&◌, if◌then◌else◌, arith, if_true, if_false,
}
use mq_ecn.Kernel.{Kernel}
use mq_ecn.SchDwrr.{Params, max_queues}
use mq_ecn.SchDwrr.Rate.{skb_size}
use mq_ecn.SchDwrr.Qdisc.{is_int, Sched}
use mq_ecn.SchDwrr.Dequeue.{Turn, turn}
use mq_ecn.SchDwrr.Accounting.{Timely, Shares, Counts}
use mq_ecn.SchDwrr.Departures.{
  Prompt, nonempty, Quanta, fifos, Busy, Serving, need, Leaves, Sends, Throttles, Moves,
}
use mq_ecn.SchDwrr.Rotation.{rotate-Moves}
use mq_ecn.SchDwrr.Transmission.{transmit-cases}
use mq_ecn.SchDwrr.Dequeue.{prio_schedule, loop, dequeue}

-- The list that `prio_schedule` finds.
prio_schedule-finds :
    (ls : List (List ℕ)) (i m : ℕ)
    → prio_schedule ls i ≡ some m
    → (j : ℕ) × (h : ℕ) × (l : List ℕ) × (m ≡ i + j) × (get_elem? ls j ≡ some (h ∷ l))
unfolding prio_schedule
prio_schedule-finds [] i m e = cc
prio_schedule-finds ([] ∷ ls) i m e =
    let (j, h, l, q, g) = prio_schedule-finds ls (suc i) m e in (suc j, h, l, omega (arith, q), g)
prio_schedule-finds ((h ∷ l) ∷ ls) i m e = let q : i ≡ m = cc in (0, h, l, omega (arith, q), refl)

module _ (k : Kernel) where
  turn-cases :
      (c : Params) (limit now later prio i : ℕ) (l : List ℕ) (s : Sched k)
      → Shares c limit
      → Quanta c
      → is_int c.enable_wrr 1 ≡ false
      → Serving k now prio i l s
      → s.sum_len_bytes ≤ limit
      → Returns
          (λ t. (Sends k i s t ⊎ Throttles k s t) ⊎ Moves k now prio i l s t)
          (turn k c now later prio s)
  unfolding turn
  turn-cases c limit now later prio i l s v u wrr a bound =
      let (h, some_left) = a.busy 0 i refl in
      let (x, g) = get_elem?-total s.queues i (omega (arith, h, a.counts.queues_length)) in
      let (p, ps, e) = nonempty (k.contents x.fifo) (some_left x g) in
      let peeked : k.peek x.fifo ≡ some p = k.peek-eq x.fifo ∙ ap head? e in
      elim (Bool-cases (leb (skb_size (k.len p)) x.deficit)) [
        | inl fits ↦
            let (t, o, w) = transmit-cases k c limit now later prio i l x p ps s v a bound h g e in
            rw (a.listed, g, peeked, fits, o) (t, refl, inl w)
        | inr short ↦
            let (t, o, w) =
              rotate-Moves k c limit now prio i l x p ps s v u wrr a bound h g e
                (lt_of_leb _ _ short) in
            rw (a.listed, g, peeked, short, o) (t, refl, inr w)
      ]

  -- A packet leaves a class of the list `l`, or nothing does and the watchdog is set.
  abbrev Served : List ℕ → Sched k → Option k.Skb × Sched k → Type 0
  Served l s (some q, t) =
      (i : ℕ) × (n : ℕ) × (get_elem? l n ≡ some i) × Leaves k i q s t × Counts k t × Timely k t
  Served l s (none, t) =
      (at : ℕ) × (t.watchdog ≡ some at)
      × (fifos k t ≡ fifos k s)
      × (t.sum_len_bytes ≡ s.sum_len_bytes)
      × Counts k t
      × Timely k t

  throttled-Counts :
      (s : Sched k) (at : ℕ) → Counts k s → Counts k (record s { watchdog = some at })
  throttled-Counts s at v = record {
    queues_length = v.queues_length;
    active_length = v.active_length;
    bytes_length = v.bytes_length;
    round_length = v.round_length;
    idle_length = v.idle_length;
    counted = v.counted;
    all_bytes = v.all_bytes;
  }

  Served-after :
      (now prio i : ℕ) (l : List ℕ) (s : Sched k) (t : Turn k) (m : Moves k now prio i l s t)
      (r : Option k.Skb × Sched k)
      → Served (m.head ∷ m.rest) m.s' r
      → Served (i ∷ l) s r
  Served-after now prio i l s t m (none, r) (at, w, f, b, v, u) =
      (at, w, f ∙ m.same_fifos, b ∙ m.same_sum, v, u)
  Served-after now prio i l s t m (some q, r) (j, n, e, (p, ps, g, f, same, b), v, u) =
      let (n', e') = m.from_list n j e in
      (
        j,
        n',
        e',
        (
          p,
          ps,
          ap (λ z. get_elem? z j) (sym m.same_fifos) ∙ g,
          f ∙ ap (λ z. set z j ps) m.same_fifos,
          same,
          b ∙ m.same_sum,
        ),
        v,
        u,
      )

  loop-Served :
      (fuel : ℕ) (c : Params) (limit now later prio i : ℕ) (l : List ℕ) (s : Sched k)
      → Shares c limit
      → Quanta c
      → is_int c.enable_wrr 1 ≡ false
      → Serving k now prio i l s
      → s.sum_len_bytes ≤ limit
      → sum_first (need k) max_queues s.queues < fuel
      → Returns (Served (i ∷ l) s) (loop k fuel c now later prio s)
  unfolding loop
  loop-Served zero c limit now later prio i l s v u wrr a bound h = elim h [ ]
  loop-Served (suc fuel) c limit now later prio i l s v u wrr a bound h =
      let (t, e, w) = turn-cases c limit now later prio i l s v u wrr a bound in
      elim w [
        | inl (inl m) ↦
            rw (e, m.is_sent) ((some m.q, m.s'), refl, (i, 0, refl, m.leaves, m.counts, m.timely))
        | inl (inr m) ↦
            rw (e, m.is_throttled)
              (
                (none, record s { watchdog = some m.at }),
                refl,
                (m.at, refl, refl, refl, throttled-Counts s m.at a.counts, a.timely),
              )
        | inr m ↦
            let (r, o, served) =
              loop-Served fuel c limit now later prio m.head m.rest m.s' v u wrr m.serving
                (omega (arith, m.same_sum, bound)) (omega (arith, m.nearer, h)) in
            rw (e, m.is_moved, o) (r, refl, Served-after now prio i l s t m r served)
      ]

  -- Every class in an active list has a packet.
  abbrev pub Listed : Sched k → Type 0
  Listed s =
      (prio : ℕ) (l : List ℕ)
      → get_elem? s.active prio ≡ some l
      → (j m : ℕ) → get_elem? l j ≡ some m
      → Busy k s m

  -- What `dequeue` promises of its result.
  abbrev pub Dequeued : Sched k → Option k.Skb × Sched k → Type 0
  Dequeued s r =
      ((prio_schedule s.active 0 ≡ none) × (r ≡ (none, s)))
      ⊎ ((prio : ℕ) × (l : List ℕ) × (prio_schedule s.active 0 ≡ some prio)
          × (get_elem? s.active prio ≡ some l)
          × Served l s r)

  -- With the shared buffer of `limit` bytes, a round time weight of at most 1024, positive
  -- quanta below 2^31, WRR disabled, exact counters of at most `limit` bytes, a packet in
  -- every class of an active list, a positive rate, and round times and lengths of rounds (up
  -- to the last packet of a class and up to its next one at this call, and between the two)
  -- that as `s64` are at least -2^50 and below 2^32 ns, `dwrr_dequeue` returns, under every
  -- marking scheme, once the fuel is above the sum over the classes of what their deficits
  -- lack for their oldest packets: its loop ends and divides by no zero. If no list has a
  -- class, it returns no packet and the state as it was. Else it serves the first priority
  -- whose list has one: either the oldest packet of one class of that list leaves, as it was
  -- or with a congestion mark, the other classes hold what they held and the port's byte
  -- counter falls by its bytes on the wire; or no packet leaves and the watchdog is set.
  -- After that the counters are exact and the round times within these bounds.
  pub dequeue-Dequeued :
      (fuel : ℕ) (c : Params) (limit now later : ℕ) (s : Sched k)
      → Shares c limit
      → Quanta c
      → is_int c.enable_wrr 1 ≡ false
      → Counts k s
      → Timely k s
      → Prompt k now s
      → Listed s
      → s.sum_len_bytes ≤ limit
      → sum_first (need k) max_queues s.queues < fuel
      → Returns (Dequeued s) (dequeue k fuel c now later s)
  unfolding dequeue
  dequeue-Dequeued fuel c limit now later s v u wrr counts timely prompt busy bound h =
      elim (mq_ecn.Common.Option-cases (prio_schedule s.active 0)) [
        | inl none_active ↦ ((none, s), rw (dequeue, none_active) refl, inl (none_active, refl))
        | inr (prio, found) ↦
            let (j, i, l, q, g) = prio_schedule-finds s.active 0 prio found in
            let listed : get_elem? s.active prio ≡ some (i ∷ l) =
              ap (λ n. get_elem? s.active n) (q ∙ omega arith) ∙ g in
            let a : Serving k now prio i l s = record {
              counts = counts;
              timely = timely;
              prompt = prompt;
              prio_in =
                  omega (arith, get_elem?-lt s.active prio (i ∷ l) listed, counts.active_length);
              listed = listed;
              busy = busy prio (i ∷ l) listed;
            } in
            let (r, o, served) = loop-Served fuel c limit now later prio i l s v u wrr a bound h in
            (r, rw (dequeue, found, o) refl, inr (prio, i ∷ l, found, listed, served))
      ]

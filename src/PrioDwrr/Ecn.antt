-- ===== src/PrioDwrr/Ecn.antt =====
-- Which packets `PRIO_DWRR::enque` marks.
use mq_ecn.Common.{
  ℕ, ◌+◌, ◌-◌, ◌<◌, ℤ, ◌≤◌, ◌⊎◌, some, get_elem?, get_elem?-total, get_elem?-set_self, get_elem?-lt,
  set, length, Result, ◌>>=◌, if◌then◌else◌, lt→ltb, ltb→lt, ltb→le, le→leb, ◌≡◌, refl, sym, ap,
  subst, ◌∙◌, inl, inr, Bool, true, false, ◌&&◌, not, ok, Returns, arith, ltb, ◌==◌, Bool-cases,
  le→ltb, if_true,
}
use mq_ecn.Simulator.{Simulator}
use mq_ecn.Port.{
  Pkt, Fate, queued, clamp_prio, mark_enque, latency_marking, mq_marking_gener, mq_marking_rr,
}
use mq_ecn.Port.Backlog.{with_mark, mark_enque-eq, clamp_prio-Returns, total}
use mq_ecn.ActiveList.{Links}
use mq_ecn.PrioQueues.{PrioSlot}
use mq_ecn.Dwrr.{Slot}
use mq_ecn.Dwrr.Ecn.{not-false, with_packet, Joined, activate-Activates}
use mq_ecn.PrioDwrr.{
  PrioDwrr, total_byte_length, total_dwrr_byte_length, marking_ecn, start_timer, wake, place,
  place_prio, place_dwrr, marks_prio, marks_dwrr, as_dwrr, admit, offer, enque,
}
use mq_ecn.PrioQueues.Group.{all_queues, find_prio}
use mq_ecn.PrioDwrr.Invariant.{ports, held_by, held, IsValid, Valid, limit, total_byte_length-eq}
use mq_ecn.PrioDwrr.Refine.{woken-ports, clamp-eq}

module _ (ns : Simulator) where
  -- `p` as the newest packet of the higher priority queue `i`, which was `x`.
  abbrev pub in_prio : PrioDwrr ns → ℕ → PrioSlot ns → Pkt ns → PrioDwrr ns
  in_prio s i x p = record s {
    prio_queues = set s.prio_queues i (record x { fifo = ns.enque p x.fifo });
  }

  -- `p` as the newest packet of the DWRR queue `i`, which was `x`, with this active list.
  abbrev pub in_dwrr : PrioDwrr ns → ns.Double → ℕ → Slot ns → Pkt ns → Links → ℤ → PrioDwrr ns
  in_dwrr s now i x p links sum = record s {
    dwrr_queues = set s.dwrr_queues i (with_packet ns now x p);
    links = links;
    quantum_sum = sum;
  }

  -- Queue `i` of both groups is a higher priority queue, and the result has there `p`, marked if
  -- `MarkingECN` says so of that queue with `p` in it.
  pub record MarksHigh (s : PrioDwrr ns) (i : ℕ) (p : Pkt ns) (r : Fate × PrioDwrr ns)
      : Type 0 where
    pub x : PrioSlot ns
    pub high : i < s.prio_queue_num
    pub found : get_elem? s.prio_queues i ≡ some x
    pub must : Bool
    pub must_is : must ≡ marks_prio ns (in_prio s i x p) (record x { fifo = ns.enque p x.fifo })
    pub result : r ≡ (queued, in_prio s i x (with_mark ns must p))

  -- The same of a DWRR queue, which is then in the active list.
  pub record MarksLow (s : PrioDwrr ns) (now : ns.Double) (i : ℕ) (p : Pkt ns)
      (r : Fate × PrioDwrr ns) : Type 0 where
    pub x : Slot ns
    pub links : Links
    pub sum : ℤ
    pub low : s.prio_queue_num ≤ i
    pub found : get_elem? s.dwrr_queues (i - s.prio_queue_num) ≡ some x
    pub lists : Joined ns (as_dwrr ns s) (i - s.prio_queue_num) x links sum
    pub must : Bool
    pub must_is :
        must
        ≡ marks_dwrr ns
            (in_dwrr s now (i - s.prio_queue_num) x p links sum)
            (with_packet ns now x p)
    pub result :
        r ≡ (queued, in_dwrr s now (i - s.prio_queue_num) x (with_mark ns must p) links sum)

  -- The priority of `p` names queue `i` of both groups.
  abbrev pub MarksPrioDwrr : PrioDwrr ns → ns.Double → Pkt ns → Fate × PrioDwrr ns → Type 0
  MarksPrioDwrr s now p r =
      (i : ℕ) × (clamp_prio (s.prio_queue_num + s.dwrr_queue_num) p.prio ≡ ok i)
      × (MarksHigh s i p r ⊎ MarksLow s now i p r)

  -- The rest of `admit`, once the queue is known.
  abbrev rest : PrioDwrr ns → ns.Double → ℕ → Pkt ns → Result (Fate × PrioDwrr ns)
  rest s now i p = do
    seen ← place ns s now i p
    must ← if not (s.marking_scheme == latency_marking) then marking_ecn ns seen i else ok false
    stored ← place ns s now i (mark_enque ns s.marking_scheme true now must p)
    ok (queued, stored)

  -- Where `place` is the write `f` whatever the packet, `rest` stores the packet with its mark.
  rest-eq :
      (s : PrioDwrr ns) (now : ns.Double) (i : ℕ) (p : Pkt ns) (f : Pkt ns → PrioDwrr ns)
      (must : Bool)
      → (s.marking_scheme == latency_marking) ≡ false
      → ((q : Pkt ns) → place ns s now i q ≡ ok (f q))
      → marking_ecn ns (f p) i ≡ ok must
      → rest s now i p ≡ ok (queued, f (with_mark ns must p))
  rest-eq s now i p f must e places m =
      let q = mark_enque ns s.marking_scheme true now must p in
      let looks =
        if_true (not (s.marking_scheme == latency_marking)) (marking_ecn ns (f p) i) (ok false)
          (not-false _ e)
        ∙ m in
      rw (places p, looks, places q)
        (ap (λ z. ok (queued, f z)) (mark_enque-eq ns s.marking_scheme now must p e))

  rest-MarksHigh :
      (s : PrioDwrr ns) (now : ns.Double) (i : ℕ) (p : Pkt ns)
      → Valid ns s
      → (s.marking_scheme == latency_marking) ≡ false
      → i < s.prio_queue_num
      → Returns (MarksHigh s i p) (rest s now i p)
  unfolding place place_prio marking_ecn
  rest-MarksHigh s now i p v e l =
      let (x, g) = find_prio ns s.prio_queue_num s.prio_queues i v.high l in
      let y = record x { fifo = ns.enque p x.fifo } in
      let must = marks_prio ns (in_prio s i x p) y in
      let low = lt→ltb i s.prio_queue_num l in
      let there = get_elem?-set_self s.prio_queues i y (get_elem?-lt s.prio_queues i x g) in
      (
        _,
        rest-eq s now i p (in_prio s i x) must e (λ q. rw (low, g) refl)
            (rw (le→leb (s.prio_queue_num + s.dwrr_queue_num) i (omega arith), low, there) refl),
        record { x = x; high = l; found = g; must = must; must_is = refl; result = refl },
      )

  rest-MarksLow :
      (s : PrioDwrr ns) (now : ns.Double) (i : ℕ) (p : Pkt ns)
      → Valid ns s
      → (s.marking_scheme == latency_marking) ≡ false
      → s.prio_queue_num ≤ i
      → i < s.prio_queue_num + s.dwrr_queue_num
      → Returns (MarksLow s now i p) (rest s now i p)
  unfolding place place_dwrr marking_ecn
  rest-MarksLow s now i p v e b l =
      let k = i - s.prio_queue_num in
      let w = v.group_valid in
      let h : k < length s.dwrr_queues = omega (arith, w.slots_length, w.queue_num_in) in
      let (x, g) = get_elem?-total s.dwrr_queues k h in
      let a =
        activate-Activates ns (as_dwrr ns s) now v.ids k x w (omega (arith, w.queue_num_in)) g in
      let must = marks_dwrr ns (in_dwrr s now k x p a.links a.sum) (with_packet ns now x p) in
      let low = le→ltb i s.prio_queue_num b in
      let there = get_elem?-set_self s.dwrr_queues k (with_packet ns now x p) h in
      (
        _,
        rest-eq s now i p (λ q. in_dwrr s now k x q a.links a.sum) must e
            (λ q. rw (low, g, a.result q) refl)
            (rw (le→leb (s.prio_queue_num + s.dwrr_queue_num) i l, low, there) refl),
        record {
          x = x;
          links = a.links;
          sum = a.sum;
          low = b;
          found = g;
          lists = a.lists;
          must = must;
          must_is = refl;
          result = refl;
        },
      )

  admit-MarksPrioDwrr :
      (s : PrioDwrr ns) (now : ns.Double) (p : Pkt ns)
      → Valid ns s
      → (s.marking_scheme == latency_marking) ≡ false
      → Returns (MarksPrioDwrr s now p) (admit ns s now p)
  unfolding admit
  admit-MarksPrioDwrr s now p v e =
      let (i, c, l) =
        clamp_prio-Returns (s.prio_queue_num + s.dwrr_queue_num) p.prio
          (omega (arith, v.high.some_prio)) in
      elim (Bool-cases (ltb i s.prio_queue_num)) [
        | inl high ↦
            let (r, o, m) = rest-MarksHigh s now i p v e (ltb→lt _ _ high) in
            (r, rw c o, (i, c, inl m))
        | inr low ↦
            let (r, o, m) = rest-MarksLow s now i p v e (ltb→le _ _ low) l in
            (r, rw c o, (i, c, inr m))
      ]

  start_timer-scheme : (s : PrioDwrr ns) → (start_timer ns s).marking_scheme ≡ s.marking_scheme
  unfolding start_timer
  start_timer-scheme s = refl

  wake-scheme :
      (s : PrioDwrr ns) (now : ns.Double) → (wake ns s now).marking_scheme ≡ s.marking_scheme
  unfolding wake
  wake-scheme s now =
      elim (Bool-cases (
        total_dwrr_byte_length ns s == 0
        && s.marking_scheme == mq_marking_gener
        && not s.estimate_quantum_enable_timer)) [
          | inl gener ↦ rw gener refl
          | inr other ↦
              elim (Bool-cases
                (total_dwrr_byte_length ns s == 0 && s.marking_scheme == mq_marking_rr)) [
                  | inl rr ↦ rw (other, rr) refl
                  | inr neither ↦ rw (other, neither) refl
                ]
        ]

  offer-MarksPrioDwrr :
      (s : PrioDwrr ns) (now : ns.Double) (p : Pkt ns)
      → Valid ns s
      → (s.marking_scheme == latency_marking) ≡ false
      → total ns all_queues (held ns s) + p.size ≤ limit ns s
      → Returns (MarksPrioDwrr s now p) (offer ns s now p)
  unfolding offer
  offer-MarksPrioDwrr s now p v e room =
      let fits : ltb (limit ns s) (total_byte_length ns s + p.size) ≡ false =
        le→ltb _ _ (omega (arith, total_byte_length-eq ns s v)) in
      rw fits (admit-MarksPrioDwrr s now p v e)

  -- In a valid PRIO_DWRR state, under any scheme but LATENCY_MARKING and with room in the
  -- buffer for the packet, `enque` works on the state after the timer's start and the idle
  -- reset: the packet becomes the newest of the queue that its priority names, the last queue
  -- if it names none. Below the number of higher priority queues that is the higher priority
  -- queue of this number, else the DWRR queue of the number beyond them. A DWRR queue in the
  -- active list stays there; any other joins it at the tail, with a deficit of 0, the time of
  -- arrival as its start, and its quantum added to `quantum_sum`. The stored packet is the
  -- one that came, with a congestion mark exactly if it came with one, or it is ECN-capable
  -- and `MarkingECN` holds of that queue with the packet in it; nothing else changes.
  pub enque-MarksPrioDwrr :
      (s : PrioDwrr ns) (now : ns.Double) (p : Pkt ns)
      → Valid ns s
      → (s.marking_scheme == latency_marking) ≡ false
      → total ns all_queues (held ns s) + p.size ≤ limit ns s
      → Returns (MarksPrioDwrr (wake ns (start_timer ns s) now) now p) (enque ns s now p)
  unfolding enque
  enque-MarksPrioDwrr s now p v e room =
      let (a, b) = clamp-eq ns s v in
      let t = wake ns (start_timer ns s) now in
      let same : ports ns t ≡ ports ns s = woken-ports ns s now in
      let scheme = wake-scheme (start_timer ns s) now ∙ start_timer-scheme s in
      rw (a, b)
        (offer-MarksPrioDwrr t now p (subst (IsValid ns) (sym same) v)
          (ap (λ k. k == latency_marking) scheme ∙ e)
          (subst (λ c. total ns all_queues (held_by ns c) + p.size ≤ c.limit) (sym same) room))

-- ===== src/PrioWfq/Ecn.antt =====
-- Which packets `PRIO_WFQ::enque` marks.
use mq_ecn.Common.{
  ℕ, ◌+◌, ◌-◌, ◌<◌, ◌≤◌, ◌⊎◌, some, get_elem?, get_elem?-total, get_elem?-set_self, get_elem?-lt,
  set, set-set, length, Result, ◌>>=◌, if◌then◌else◌, lt→ltb, ltb→lt, ltb→le, le→leb, ◌≡◌, refl,
  sym, ap, subst, ◌∙◌, inl, inr, Bool, true, false, ◌&&◌, not, ok, Returns, arith, ltb, ◌==◌,
  Bool-cases, le→ltb, if_true,
}
use mq_ecn.Simulator.{Simulator}
use mq_ecn.Port.{Pkt, Fate, queued, clamp_prio, mark_enque, latency_marking, mq_marking_gener}
use mq_ecn.Port.Backlog.{with_mark, mark_enque-eq, clamp_prio-Returns, total}
use mq_ecn.PrioQueues.{PrioSlot}
use mq_ecn.Wfq.{Slot, put}
use mq_ecn.Wfq.Ecn.{Started, start_queue-Starts}
use mq_ecn.Dwrr.Ecn.{not-false}
use mq_ecn.PrioWfq.{
  PrioWfq, total_byte_length, total_wfq_byte_length, marking_ecn, start_timer, wake, place,
  place_prio, place_wfq, marks_prio, marks_wfq, as_wfq, admit, offer, enque,
}
use mq_ecn.PrioQueues.Group.{all_queues, find_prio}
use mq_ecn.PrioWfq.Invariant.{ports, held_by, held, IsValid, Valid, limit, total_byte_length-eq}
use mq_ecn.PrioWfq.Refine.{woken-ports, clamp-eq}

module _ (ns : Simulator) where
  -- `p` as the newest packet of the higher priority queue `i`, which was `x`.
  abbrev pub in_prio : PrioWfq ns → ℕ → PrioSlot ns → Pkt ns → PrioWfq ns
  in_prio s i x p = record s {
    prio_queues = set s.prio_queues i (record x { fifo = ns.enque p x.fifo });
  }

  -- `p` as the newest packet of the WFQ queue `i`, which is `y` otherwise, with this time and sum of
  -- weights.
  abbrev pub in_wfq : PrioWfq ns → ℕ → Slot ns → Pkt ns → ns.Double → ns.Double → PrioWfq ns
  in_wfq s i y p time sum = record s {
    wfq_queues = set s.wfq_queues i (put ns y p);
    curr_time = time;
    weight_sum = sum;
  }

  -- Queue `i` of both groups is a higher priority queue, and the result has there `p`, marked if
  -- `MarkingECN` says so of that queue with `p` in it.
  pub record MarksHigh (s : PrioWfq ns) (i : ℕ) (p : Pkt ns) (r : Fate × PrioWfq ns) : Type 0 where
    pub x : PrioSlot ns
    pub high : i < s.prio_queue_num
    pub found : get_elem? s.prio_queues i ≡ some x
    pub must : Bool
    pub must_is : must ≡ marks_prio ns (in_prio s i x p) (record x { fifo = ns.enque p x.fifo })
    pub result : r ≡ (queued, in_prio s i x (with_mark ns must p))

  -- The same of a WFQ queue, which gets a finish time if it was empty.
  pub record MarksLow (s : PrioWfq ns) (i : ℕ) (p : Pkt ns) (r : Fate × PrioWfq ns) : Type 0 where
    pub x : Slot ns
    pub y : Slot ns
    pub time : ns.Double
    pub sum : ns.Double
    pub low : s.prio_queue_num ≤ i
    pub found : get_elem? s.wfq_queues (i - s.prio_queue_num) ≡ some x
    pub begins : Started ns (as_wfq ns s) p.size x y time sum
    pub must : Bool
    pub must_is : must ≡ marks_wfq ns (in_wfq s (i - s.prio_queue_num) y p time sum) (put ns y p)
    pub result : r ≡ (queued, in_wfq s (i - s.prio_queue_num) y (with_mark ns must p) time sum)

  -- The priority of `p` names queue `i` of both groups.
  abbrev pub MarksPrioWfq : PrioWfq ns → Pkt ns → Fate × PrioWfq ns → Type 0
  MarksPrioWfq s p r =
      (i : ℕ) × (clamp_prio (s.prio_queue_num + s.wfq_queue_num) p.prio ≡ ok i)
      × (MarksHigh s i p r ⊎ MarksLow s i p r)

  -- The rest of `admit`, once the queue is known.
  abbrev rest : PrioWfq ns → ns.Double → ℕ → Pkt ns → Result (Fate × PrioWfq ns)
  rest s now i p = do
    seen ← place ns s i p
    must ← if not (s.marking_scheme == latency_marking) then marking_ecn ns seen i else ok false
    stored ← place ns s i (mark_enque ns s.marking_scheme true now must p)
    ok (queued, stored)

  -- Where `place` is the write `f` for packets of the size of `p`, `rest` stores `p` with its mark.
  rest-eq :
      (s : PrioWfq ns) (now : ns.Double) (i : ℕ) (p : Pkt ns) (f : Pkt ns → PrioWfq ns)
      (must : Bool)
      → (s.marking_scheme == latency_marking) ≡ false
      → ((q : Pkt ns) → q.size ≡ p.size → place ns s i q ≡ ok (f q))
      → marking_ecn ns (f p) i ≡ ok must
      → rest s now i p ≡ ok (queued, f (with_mark ns must p))
  rest-eq s now i p f must e places m =
      let q = mark_enque ns s.marking_scheme true now must p in
      let exact = mark_enque-eq ns s.marking_scheme now must p e in
      let looks =
        if_true (not (s.marking_scheme == latency_marking)) (marking_ecn ns (f p) i) (ok false)
          (not-false _ e)
        ∙ m in
      rw (places p refl, looks, places q (ap (λ (z : Pkt ns). z.size) exact))
        (ap (λ z. ok (queued, f z)) exact)

  rest-MarksHigh :
      (s : PrioWfq ns) (now : ns.Double) (i : ℕ) (p : Pkt ns)
      → Valid ns s
      → (s.marking_scheme == latency_marking) ≡ false
      → i < s.prio_queue_num
      → Returns (MarksHigh s i p) (rest s now i p)
  unfolding place place_prio marking_ecn
  rest-MarksHigh s now i p v e l =
      let (x, g) = find_prio ns s.prio_queue_num s.prio_queues i v.high l in
      let y = record x { fifo = ns.enque p x.fifo } in
      let must = marks_prio ns (in_prio s i x p) y in
      let low = lt→ltb i s.prio_queue_num l in
      let there = get_elem?-set_self s.prio_queues i y (get_elem?-lt s.prio_queues i x g) in
      (
        _,
        rest-eq s now i p (in_prio s i x) must e (λ q _. rw (low, g) refl)
            (rw (le→leb (s.prio_queue_num + s.wfq_queue_num) i (omega arith), low, there) refl),
        record { x = x; high = l; found = g; must = must; must_is = refl; result = refl },
      )

  rest-MarksLow :
      (s : PrioWfq ns) (now : ns.Double) (i : ℕ) (p : Pkt ns)
      → Valid ns s
      → (s.marking_scheme == latency_marking) ≡ false
      → s.prio_queue_num ≤ i
      → i < s.prio_queue_num + s.wfq_queue_num
      → Returns (MarksLow s i p) (rest s now i p)
  unfolding place place_wfq marking_ecn
  rest-MarksLow s now i p v e b l =
      let k = i - s.prio_queue_num in
      let w = v.low in
      let h : k < length s.wfq_queues = omega (arith, w.slots_length, w.queue_num_in) in
      let (x, g) = get_elem?-total s.wfq_queues k h in
      let a = start_queue-Starts ns (as_wfq ns s) k p.size x g (w.weights k x g) in
      let must = marks_wfq ns (in_wfq s k a.y p a.time a.sum) (put ns a.y p) in
      let low = le→ltb i s.prio_queue_num b in
      let starts = λ (q : Pkt ns) (same : q.size ≡ p.size).
        ap (λ n. mq_ecn.Wfq.start_queue ns (as_wfq ns s) k n x) same ∙ a.result in
      let there = get_elem?-set_self s.wfq_queues k (put ns a.y p) h in
      (
        _,
        rest-eq s now i p (λ q. in_wfq s k a.y q a.time a.sum) must e
            (λ q same.
              rw
                (
                  low,
                  g,
                  starts q same,
                  get_elem?-set_self s.wfq_queues k a.y h,
                  set-set s.wfq_queues k a.y (put ns a.y q),
                )
                refl)
            (rw (le→leb (s.prio_queue_num + s.wfq_queue_num) i l, low, there) refl),
        record {
          x = x;
          y = a.y;
          time = a.time;
          sum = a.sum;
          low = b;
          found = g;
          begins = a.begins;
          must = must;
          must_is = refl;
          result = refl;
        },
      )

  admit-MarksPrioWfq :
      (s : PrioWfq ns) (now : ns.Double) (p : Pkt ns)
      → Valid ns s
      → (s.marking_scheme == latency_marking) ≡ false
      → Returns (MarksPrioWfq s p) (admit ns s now p)
  unfolding admit
  admit-MarksPrioWfq s now p v e =
      let (i, c, l) =
        clamp_prio-Returns (s.prio_queue_num + s.wfq_queue_num) p.prio
          (omega (arith, v.high.some_prio)) in
      elim (Bool-cases (ltb i s.prio_queue_num)) [
        | inl high ↦
            let (r, o, m) = rest-MarksHigh s now i p v e (ltb→lt _ _ high) in
            (r, rw c o, (i, c, inl m))
        | inr low ↦
            let (r, o, m) = rest-MarksLow s now i p v e (ltb→le _ _ low) l in
            (r, rw c o, (i, c, inr m))
      ]

  start_timer-scheme : (s : PrioWfq ns) → (start_timer ns s).marking_scheme ≡ s.marking_scheme
  unfolding start_timer
  start_timer-scheme s = refl

  wake-scheme :
      (s : PrioWfq ns) (now : ns.Double) → (wake ns s now).marking_scheme ≡ s.marking_scheme
  unfolding wake
  wake-scheme s now =
      elim (Bool-cases (
        total_wfq_byte_length ns s == 0
        && s.marking_scheme == mq_marking_gener
        && not s.estimate_weight_enable_timer)) [
          | inl idle ↦ rw idle refl
          | inr busy ↦ rw busy refl
        ]

  offer-MarksPrioWfq :
      (s : PrioWfq ns) (now : ns.Double) (p : Pkt ns)
      → Valid ns s
      → (s.marking_scheme == latency_marking) ≡ false
      → total ns all_queues (held ns s) + p.size ≤ limit ns s
      → Returns (MarksPrioWfq s p) (offer ns s now p)
  unfolding offer
  offer-MarksPrioWfq s now p v e room =
      let fits : ltb (limit ns s) (total_byte_length ns s + p.size) ≡ false =
        le→ltb _ _ (omega (arith, total_byte_length-eq ns s v)) in
      rw fits (admit-MarksPrioWfq s now p v e)

  -- In a valid PRIO_WFQ state, under any scheme but LATENCY_MARKING and with room in the
  -- buffer for the packet, `enque` works on the state after the timer's start and the idle
  -- reset: the packet becomes the newest of the queue that its priority names, the last queue
  -- if it names none. Below the number of higher priority queues that is the higher priority
  -- queue of this number, else the WFQ queue of the number beyond them. If that is an empty
  -- WFQ queue, its head finish time and the virtual time become the virtual time plus the
  -- packet's size divided by the queue's weight, and its weight is added to `weight_sum`. The
  -- stored packet is the one that came, with a congestion mark exactly if it came with one,
  -- or it is ECN-capable and `MarkingECN` holds of that queue with the packet in it; nothing
  -- else changes.
  pub enque-MarksPrioWfq :
      (s : PrioWfq ns) (now : ns.Double) (p : Pkt ns)
      → Valid ns s
      → (s.marking_scheme == latency_marking) ≡ false
      → total ns all_queues (held ns s) + p.size ≤ limit ns s
      → Returns (MarksPrioWfq (wake ns (start_timer ns s) now) p) (enque ns s now p)
  unfolding enque
  enque-MarksPrioWfq s now p v e room =
      let (a, b) = clamp-eq ns s v in
      let t = wake ns (start_timer ns s) now in
      let same : ports ns t ≡ ports ns s = woken-ports ns s now in
      let scheme = wake-scheme (start_timer ns s) now ∙ start_timer-scheme s in
      rw (a, b)
        (offer-MarksPrioWfq t now p (subst (IsValid ns) (sym same) v)
          (ap (λ k. k == latency_marking) scheme ∙ e)
          (subst (λ c. total ns all_queues (held_by ns c) + p.size ≤ c.limit) (sym same) room))

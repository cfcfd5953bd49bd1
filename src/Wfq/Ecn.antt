-- ===== src/Wfq/Ecn.antt =====
-- Which packets `WFQ::enque` marks.
use mq_ecn.Common.{
  Bool-cases, inl, inr, ℕ, ◌+◌, ◌≤◌, ◌<◌, min, ◌≡◌, refl, ap, ap₂, ◌∙◌, Bool, true, false, ◌&&◌,
  not, some, get_elem?, get_elem?-set_self, get_elem?-total, set, length, ok, Returns, arith, ltb,
  ◌==◌, le→leb, le→ltb, if_true, set-set, sym, List, [], ◌⊎◌, pos_of_test, zero_of_test,
}
use mq_ecn.Simulator.{Simulator, of_nat}
use mq_ecn.Port.{
  mark_enque, clamp_prio, zero_double, Pkt, Fate, queued, latency_marking, mq_marking_gener,
  max_queue_num,
}
use mq_ecn.Port.Backlog.{
  with_mark, mark_enque-eq, set_get_self, contents_of_packets, clamp_prio-Returns, total, view,
}
use mq_ecn.Wfq.{
  Slot, Wfq, total_byte_length, marks, marking_ecn, put, start_timer, wake, start_queue, admit,
  offer, enque,
}
use mq_ecn.Wfq.Refine.{
  held, limit, total_byte_length-eq, IsValid, Same, Same-IsValid, start_timer-Same, wake-Same,
}

not_latency : (a : Bool) → a ≡ false → not a ≡ true
not_latency a e = ground arith

module _ (ns : Simulator) where
  -- What a packet of `size` bytes makes of queue `x`, of `curr_time` and of `weight_sum`: a queue with
  -- packets keeps its finish time; an empty one gets the finish time of this packet, which becomes the
  -- time, and adds its weight.
  pub record Started (s : Wfq ns) (size : ℕ) (x y : Slot ns) (time sum : ns.Double) : Type 0 where
    pub cases :
        ((0 < length (ns.contents x.fifo)) × (y ≡ x) × (time ≡ s.curr_time) × (sum ≡ s.weight_sum))
        ⊎ ((ns.contents x.fifo ≡ [])
            × (time ≡ ns.add s.curr_time (ns.div (of_nat ns size) x.weight))
            × (y ≡ record x { head_finish_time = time })
            × (sum ≡ ns.add s.weight_sum x.weight))

  -- The state with queue `i` as `y`, and this time and sum of weights.
  abbrev pub started : Wfq ns → ℕ → Slot ns → ns.Double → ns.Double → Wfq ns
  started s i y time sum = record s { slots = set s.slots i y; curr_time = time; weight_sum = sum }

  -- What `start_queue` does.
  pub record Starts (s : Wfq ns) (i size : ℕ) (x : Slot ns) : Type 0 where
    pub y : Slot ns
    pub time : ns.Double
    pub sum : ns.Double
    pub begins : Started s size x y time sum
    pub result : start_queue ns s i size x ≡ ok (started s i y time sum)

  pub start_queue-Starts :
      (s : Wfq ns) (i size : ℕ) (x : Slot ns)
      → get_elem? s.slots i ≡ some x
      → ns.lt (zero_double ns) x.weight ≡ true
      → Starts s i size x
  unfolding start_queue
  start_queue-Starts s i size x g h = elim (Bool-cases (ns.packets x.fifo == 0)) [
    | inr busy ↦ record {
      y = x;
      time = s.curr_time;
      sum = s.weight_sum;
      begins = record {
        cases = inl (
          omega (arith, pos_of_test (ns.packets x.fifo) busy, ns.packets-eq x.fifo),
          refl,
          refl,
          refl,
        );
      };
      result = rw busy (
          ap (λ (l : List (Slot ns)). ok (record s { slots = l }))
            (sym (set_get_self s.slots i x g)));
    }
    | inl empty ↦ record {
      y = _;
      time = _;
      sum = _;
      begins = record {
        cases = inr (
          contents_of_packets ns x.fifo (zero_of_test (ns.packets x.fifo) empty),
          refl,
          refl,
          refl,
        );
      };
      result = rw empty (if_true _ _ _ h);
    }
  ]

  -- `p` is the newest packet of queue `i`, which its priority names and which was `x`. There it is `p`
  -- with a mark if `MarkingECN` says so of that queue with `p` in it.
  pub record MarksWfq (s : Wfq ns) (p : Pkt ns) (r : Fate × Wfq ns) : Type 0 where
    pub i : ℕ
    pub x : Slot ns
    pub y : Slot ns
    pub time : ns.Double
    pub sum : ns.Double
    pub chosen : clamp_prio s.queue_num p.prio ≡ ok i
    pub found : get_elem? s.slots i ≡ some x
    pub begins : Started s p.size x y time sum
    pub must : Bool
    pub must_is : must ≡ marks ns (started s i (put ns y p) time sum) (put ns y p)
    pub result : r ≡ (queued, started s i (put ns y (with_mark ns must p)) time sum)

  marking_ecn-marks :
      (t : Wfq ns) (i : ℕ) (y : Slot ns)
      → i < t.queue_num
      → get_elem? t.slots i ≡ some y
      → marking_ecn ns t i ≡ ok (marks ns t y)
  unfolding marking_ecn
  marking_ecn-marks t i y l g = rw (le→leb t.queue_num i l, g)

  admit-MarksWfq :
      (s : Wfq ns) (now : ns.Double) (p : Pkt ns)
      → IsValid ns s
      → (s.marking_scheme == latency_marking) ≡ false
      → Returns (MarksWfq s p) (admit ns s now p)
  unfolding admit
  admit-MarksWfq s now p v e =
      let (i, c, l) = clamp_prio-Returns s.queue_num p.prio v.some_queue in
      let h : i < length s.slots = omega (arith, v.slots_length, v.queue_num_in) in
      let (x, g) = get_elem?-total s.slots i h in
      let a = start_queue-Starts s i p.size x g (v.weights i x g) in
      let z = put ns a.y p in
      let t = started s i z a.time a.sum in
      let there = get_elem?-set_self s.slots i a.y h in
      let must =
        if_true (not (s.marking_scheme == latency_marking)) (marking_ecn ns t i) (ok false)
          (not_latency _ e)
        ∙ marking_ecn-marks t i z l (get_elem?-set_self s.slots i z h) in
      let q = mark_enque ns s.marking_scheme true now (marks ns t z) p in
      (
        (queued, started s i (put ns a.y q) a.time a.sum),
        rw
            (
              c,
              g,
              a.result,
              there,
              set-set s.slots i a.y z,
              must,
              set-set s.slots i a.y (put ns a.y q),
            )
            refl,
        record {
          i = i;
          x = x;
          y = a.y;
          time = a.time;
          sum = a.sum;
          chosen = c;
          found = g;
          begins = a.begins;
          must = marks ns t z;
          must_is = refl;
          result =
              ap (λ k. (queued, started s i (put ns a.y k) a.time a.sum))
                (mark_enque-eq ns s.marking_scheme now (marks ns t z) p e);
        },
      )

  start_timer-scheme : (s : Wfq ns) → (start_timer ns s).marking_scheme ≡ s.marking_scheme
  unfolding start_timer
  start_timer-scheme s = elim (Bool-cases s.init) [ inl old ↦ rw old | inr new ↦ rw new ]

  wake-scheme : (s : Wfq ns) (now : ns.Double) → (wake ns s now).marking_scheme ≡ s.marking_scheme
  unfolding wake
  wake-scheme s now =
      elim (Bool-cases (
        total_byte_length ns s == 0
        && s.marking_scheme == mq_marking_gener
        && not s.estimate_weight_enable_timer)) [ inl idle ↦ rw idle | inr busy ↦ rw busy ]

  offer-MarksWfq :
      (s : Wfq ns) (now : ns.Double) (p : Pkt ns)
      → IsValid ns s
      → (s.marking_scheme == latency_marking) ≡ false
      → total ns s.queue_num (held ns s) + p.size ≤ limit ns s
      → Returns (MarksWfq s p) (offer ns s now p)
  unfolding offer
  offer-MarksWfq s now p v e room =
      let fits : ltb (limit ns s) (total_byte_length ns s + p.size) ≡ false =
        le→ltb _ _ (omega (arith, total_byte_length-eq ns s)) in
      rw fits (admit-MarksWfq s now p v e)

  room_kept :
      (s t : Wfq ns) (size : ℕ)
      → Same ns s t
      → total ns s.queue_num (held ns s) + size ≤ limit ns s
      → total ns t.queue_num (held ns t) + size ≤ limit ns t
  room_kept s t size m room = omega (
    arith,
    m.same_limit,
    ap₂ (λ k l. total ns k (view ns (λ (x : Slot ns). x.fifo) l)) m.same_num m.same_slots,
  )

  -- In a valid WFQ state, under any scheme but LATENCY_MARKING and with room in the buffer
  -- for the packet, `enque` works on the state after the timer's start and the idle reset:
  -- the packet becomes the newest of the queue that its priority names, the last queue if it
  -- names none. If that queue was empty, its head finish time and the virtual time become the
  -- virtual time plus the packet's size divided by the queue's weight, and its weight is
  -- added to `weight_sum`; else they are kept. The stored packet is the one that came, with a
  -- congestion mark exactly if it came with one, or it is ECN-capable and `MarkingECN` holds
  -- of that queue with the packet in it; nothing else changes.
  pub enque-MarksWfq :
      (s : Wfq ns) (now : ns.Double) (p : Pkt ns)
      → IsValid ns s
      → (s.marking_scheme == latency_marking) ≡ false
      → total ns s.queue_num (held ns s) + p.size ≤ limit ns s
      → Returns (MarksWfq (wake ns (start_timer ns s) now) p) (enque ns s now p)
  unfolding enque
  enque-MarksWfq s now p v e room =
      let n : min s.queue_num max_queue_num ≡ s.queue_num = omega (arith, v.queue_num_in) in
      let t = start_timer ns s in
      let m = start_timer-Same ns s in
      let m' = wake-Same ns t now in
      rw n (
        offer-MarksWfq (wake ns t now) now p (Same-IsValid ns t _ m' (Same-IsValid ns s t m v))
          (ap (λ k. k == latency_marking) (wake-scheme t now ∙ start_timer-scheme s) ∙ e)
          (room_kept t _ p.size m' (room_kept s t p.size m room)))

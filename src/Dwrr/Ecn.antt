-- ===== src/Dwrr/Ecn.antt =====
-- Which packets `DWRR::enque` marks.
use mq_ecn.Common.{
  Bool-cases, inl, inr, ℕ, ◌+◌, ◌≤◌, ◌<◌, min, ◌≡◌, refl, sym, ap, subst, ◌∙◌, Bool, true, false,
  ◌&&◌, not, some, get_elem?, get_elem?-set_self, get_elem?-total, set, length, ok, Returns, arith,
  ltb, ◌==◌, le→leb, le→ltb, if_true, set-set, List, [], ◌∷◌, ◌++◌, ◌⊎◌, ℤ, add_int, if◌then◌else◌,
}
use mq_ecn.Simulator.{Simulator}
use mq_ecn.ActiveList.{Links}
use mq_ecn.ActiveList.Chain.{IsList, elem, insert_tail-IsList}
use mq_ecn.Port.{
  mark_enque, clamp_prio, Pkt, Fate, queued, latency_marking, mq_marking_gener, mq_marking_rr,
  max_queue_num,
}
use mq_ecn.Port.Backlog.{with_mark, mark_enque-eq, clamp_prio-Returns, total, view}
use mq_ecn.Dwrr.{
  Slot, Dwrr, total_byte_length, marks, marking_ecn, put, start_timer, wake, activate, admit, offer,
  enque,
}
use mq_ecn.Dwrr.Invariant.{held, limit, total_byte_length-eq, core, Core, IsValid, Valid}
use mq_ecn.Dwrr.Refine.{start_timer-same, wake-same}

and_not : (a b : Bool) → a ≡ false → b ≡ false → (not a && not b) ≡ true
and_not a b e f = ground arith

pub not-false : (b : Bool) → b ≡ false → not b ≡ true
not-false b e = ground arith

module _ (ns : Simulator) where
  -- Queue `x` with the packet `p`, as a member of the active list: one that joins it starts anew.
  abbrev pub with_packet : ns.Double → Slot ns → Pkt ns → Slot ns
  with_packet now x p = if x.active then record x { fifo = ns.enque p x.fifo } else record x {
    fifo = ns.enque p x.fifo;
    deficit = 0;
    active = true;
    current = false;
    start_time = now;
  }

  -- `links` and `sum` are the active list and `quantum_sum` once queue `i`, which was `x`, has a packet:
  -- a queue in the list `ids` stays there, any other joins it at the tail with its quantum.
  pub record Joined (s : Dwrr ns) (i : ℕ) (x : Slot ns) (links : Links) (sum : ℤ) : Type 0 where
    pub ids : List ℕ
    pub was_list : IsList s.links ids
    pub cases :
        ((x.active ≡ true) × (elem i ids ≡ true) × (links ≡ s.links) × (sum ≡ s.quantum_sum))
        ⊎ ((x.active ≡ false)
            × (elem i ids ≡ false)
            × IsList links (ids ++ (i ∷ []))
            × (sum ≡ add_int s.quantum_sum x.quantum))

  -- The state with queue `i` as `y`, and this active list.
  abbrev pub joined : Dwrr ns → ℕ → Slot ns → Links → ℤ → Dwrr ns
  joined s i y links sum = record s { slots = set s.slots i y; links = links; quantum_sum = sum }

  -- What `activate` does, for every packet.
  pub record Activates (s : Dwrr ns) (now : ns.Double) (i : ℕ) (x : Slot ns) : Type 0 where
    pub links : Links
    pub sum : ℤ
    pub lists : Joined s i x links sum
    pub result :
        (p : Pkt ns)
        → activate ns s now i (put ns x p) ≡ ok (joined s i (with_packet now x p) links sum)

  pub activate-Activates :
      (s : Dwrr ns) (now : ns.Double) (ids : List ℕ) (i : ℕ) (x : Slot ns)
      → IsValid ns (core ns s) ids
      → i < max_queue_num
      → get_elem? s.slots i ≡ some x
      → Activates s now i x
  unfolding activate
  activate-Activates s now ids i x v l g =
      let told = v.tells i x g in
      elim (Bool-cases x.active) [
        | inl on ↦ record {
          links = s.links;
          sum = s.quantum_sum;
          lists = record {
            ids = ids;
            was_list = v.listed;
            cases = inl (on, sym told.marked ∙ on, refl, refl);
          };
          result = λ p. rw on refl;
        }
        | inr off ↦
            let (links, e, (list, n)) =
              insert_tail-IsList s.links ids i v.listed (sym told.marked ∙ off)
                (omega (arith, v.nexts_length)) in
            record {
              links = links;
              sum = add_int s.quantum_sum x.quantum;
              lists = record {
                ids = ids;
                was_list = v.listed;
                cases = inr (off, sym told.marked ∙ off, list, refl);
              };
              result = λ p. rw (off, e) refl;
            }
      ]

  -- `p` has come to queue `i`, which its priority names and which was `x`. There it is `p` with a
  -- mark if `MarkingECN` says so of that queue with `p` in it.
  pub record MarksDwrr (s : Dwrr ns) (now : ns.Double) (p : Pkt ns) (r : Fate × Dwrr ns)
      : Type 0 where
    pub i : ℕ
    pub x : Slot ns
    pub links : Links
    pub sum : ℤ
    pub chosen : clamp_prio s.queue_num p.prio ≡ ok i
    pub found : get_elem? s.slots i ≡ some x
    pub lists : Joined s i x links sum
    pub must : Bool
    pub must_is : must ≡ marks ns (joined s i (with_packet now x p) links sum) (with_packet now x p)
    pub result : r ≡ (queued, joined s i (with_packet now x (with_mark ns must p)) links sum)

  with_packet-other :
      (now : ns.Double) (x : Slot ns) (p q : Pkt ns)
      → record (with_packet now x p) { fifo = ns.enque q x.fifo } ≡ with_packet now x q
  with_packet-other now x p q = elim (Bool-cases x.active) [
    | inl on ↦ rw on refl
    | inr off ↦ rw off refl
  ]

  marking_ecn-marks :
      (t : Dwrr ns) (i : ℕ) (y : Slot ns)
      → i < t.queue_num
      → get_elem? t.slots i ≡ some y
      → marking_ecn ns t i ≡ ok (marks ns t y)
  unfolding marking_ecn
  marking_ecn-marks t i y l g = rw (le→leb t.queue_num i l, g)

  admit-MarksDwrr :
      (s : Dwrr ns) (now : ns.Double) (p : Pkt ns)
      → Valid ns s
      → (s.marking_scheme == latency_marking) ≡ false
      → s.deque_marking ≡ false
      → Returns (MarksDwrr s now p) (admit ns s now p)
  unfolding admit
  admit-MarksDwrr s now p (ids, v) e d =
      let (i, c, l) = clamp_prio-Returns s.queue_num p.prio v.some_queue in
      let h : i < length s.slots = omega (arith, v.slots_length, v.queue_num_in) in
      let (x, g) = get_elem?-total s.slots i h in
      let a = activate-Activates s now ids i x v (omega (arith, v.queue_num_in)) g in
      let y = with_packet now x p in
      let t = joined s i y a.links a.sum in
      let there = get_elem?-set_self s.slots i y h in
      let must =
        if_true (not (s.marking_scheme == latency_marking) && not s.deque_marking)
          (marking_ecn ns t i) (ok false) (and_not _ _ e d)
        ∙ marking_ecn-marks t i y l there in
      let q = mark_enque ns s.marking_scheme (not s.deque_marking) now (marks ns t y) p in
      let exact : q ≡ with_mark ns (marks ns t y) p =
        ap (λ b. mark_enque ns s.marking_scheme b now (marks ns t y) p) (not-false _ d)
        ∙ mark_enque-eq ns s.marking_scheme now (marks ns t y) p e in
      (
        (queued, joined s i (record y { fifo = ns.enque q x.fifo }) a.links a.sum),
        rw
            (
              c,
              g,
              a.result p,
              must,
              there,
              set-set s.slots i y (record y { fifo = ns.enque q x.fifo }),
            )
            refl,
        record {
          i = i;
          x = x;
          links = a.links;
          sum = a.sum;
          chosen = c;
          found = g;
          lists = a.lists;
          must = marks ns t y;
          must_is = refl;
          result =
              ap (λ z. (queued, joined s i z a.links a.sum))
                (with_packet-other now x p q ∙ ap (with_packet now x) exact);
        },
      )

  -- The settings that `enque` reads.
  abbrev settings : Dwrr ns → ℕ × Bool
  settings s = (s.marking_scheme, s.deque_marking)

  start_timer-settings : (s : Dwrr ns) → settings (start_timer ns s) ≡ settings s
  unfolding start_timer
  start_timer-settings s = elim (Bool-cases s.init) [ inl old ↦ rw old | inr new ↦ rw new ]

  wake-settings : (s : Dwrr ns) (now : ns.Double) → settings (wake ns s now) ≡ settings s
  unfolding wake
  wake-settings s now =
      elim (Bool-cases (
        total_byte_length ns s == 0
        && s.marking_scheme == mq_marking_gener
        && not s.estimate_quantum_enable_timer)) [
          | inl gener ↦ rw gener
          | inr other ↦
              elim (Bool-cases (total_byte_length ns s == 0 && s.marking_scheme == mq_marking_rr)) [
                | inl rr ↦ rw (other, rr)
                | inr neither ↦ rw (other, neither)
              ]
        ]

  offer-MarksDwrr :
      (s : Dwrr ns) (now : ns.Double) (p : Pkt ns)
      → Valid ns s
      → (s.marking_scheme == latency_marking) ≡ false
      → s.deque_marking ≡ false
      → total ns s.queue_num (held ns s) + p.size ≤ limit ns s
      → Returns (MarksDwrr s now p) (offer ns s now p)
  unfolding offer
  offer-MarksDwrr s now p v e d room =
      let fits : ltb (limit ns s) (total_byte_length ns s + p.size) ≡ false =
        le→ltb _ _ (omega (arith, total_byte_length-eq ns s)) in
      rw fits (admit-MarksDwrr s now p v e d)

  room_kept :
      (s t : Dwrr ns) (size : ℕ)
      → core ns t ≡ core ns s
      → limit ns t ≡ limit ns s
      → total ns s.queue_num (held ns s) + size ≤ limit ns s
      → total ns t.queue_num (held ns t) + size ≤ limit ns t
  room_kept s t size e l room = omega (
    arith,
    ap (λ (k : Core ns). total ns k.queue_num (view ns (λ (x : Slot ns). x.fifo) k.slots)) e,
  )

  -- In a valid DWRR state, under any scheme but LATENCY_MARKING, without `deque_marking` and
  -- with room in the buffer for the packet, `enque` works on the state after the timer's
  -- start and the idle reset: the packet becomes the newest of the queue that its priority
  -- names, the last queue if it names none. A queue that is in the active list stays there;
  -- any other joins it at the tail, with a deficit of 0, the time of arrival as its start,
  -- and its quantum added to `quantum_sum`. The stored packet is the one that came, with a
  -- congestion mark exactly if it came with one, or it is ECN-capable and `MarkingECN` holds
  -- of that queue with the packet in it; nothing else changes.
  pub enque-MarksDwrr :
      (s : Dwrr ns) (now : ns.Double) (p : Pkt ns)
      → Valid ns s
      → (s.marking_scheme == latency_marking) ≡ false
      → s.deque_marking ≡ false
      → total ns s.queue_num (held ns s) + p.size ≤ limit ns s
      → Returns (MarksDwrr (wake ns (start_timer ns s) now) now p) (enque ns s now p)
  unfolding enque
  enque-MarksDwrr s now p (ids, v) e d room =
      let n : min s.queue_num max_queue_num ≡ s.queue_num = omega (arith, v.queue_num_in) in
      let t = start_timer ns s in
      let (c, l) = start_timer-same ns s in
      let (c', l') = wake-same ns t now in
      let same : core ns (wake ns t now) ≡ core ns s = c' ∙ c in
      let set_same : settings (wake ns t now) ≡ settings s =
        wake-settings t now ∙ start_timer-settings s in
      rw n (
        offer-MarksDwrr (wake ns t now) now p (ids, subst (λ k. IsValid ns k ids) (sym same) v)
          (ap (λ (k : ℕ × Bool). k.0 == latency_marking) set_same ∙ e)
          (ap (λ (k : ℕ × Bool). k.1) set_same ∙ d)
          (room_kept s (wake ns t now) p.size same (l' ∙ l) room))

-- ===== src/Dwrr/Turns.antt =====
-- One round of the loop of `DWRR::deque`: it sends the oldest packet of the head of the active list,
-- or puts that queue at the tail, nearer to its next packet.
use mq_ecn.Common.{
  ℕ, ◌+◌, ◌-◌, ◌≤◌, ◌<◌, ◌≡◌, refl, sym, ap, subst, ◌∙◌, ◌⊎◌, inl, inr, Bool, true, false, some,
  List, [], ◌∷◌, ◌++◌, get_elem?, set, length, length-set, get_elem?-total, sum_first,
  sum_first-set, Returns, arith, leb, ◌==◌, ◌&&◌, if◌then◌else◌, Bool-cases, lt→ltb, if_true,
  if_false, lt_of_leb, pos_of_test, zero_of_test,
}
use mq_ecn.Simulator.{Simulator}
use mq_ecn.Port.{Pkt, latency_marking, max_queue_num, set_ce}
use mq_ecn.Port.Backlog.{
  Takes, TakesAt, Marked, Marked-refl, mark_latency-Marked, view, view-set_same, take-TakesAt,
  deque-total, contents_of_packets,
}
use mq_ecn.ActiveList.Chain.{elem, elem-cons_self, remove_head-IsList, insert_tail-IsList}
use mq_ecn.Dwrr.{Slot, Dwrr}
use mq_ecn.Dwrr.Deque.{
  Turn, sent, moved, refresh, mark_deque, meter_slot, retire, serve, rotate, visit, turn_at, turn,
  lacks, need,
}
use mq_ecn.Dwrr.Invariant.{
  limit, held, core, Tells, IsValid, Valid, set-IsValid, leave-IsValid, rotate-IsValid,
}
use mq_ecn.Dwrr.Refine.{marking_ecn-ok}

module _ (ns : Simulator) where
  ce-Marked : (b : Bool) (p : Pkt ns) → Marked ns p (if b && p.ect then set_ce ns p else p)
  ce-Marked b p = ground arith

  mark_deque-Marked :
      (s : Dwrr ns) (now : ns.Double) (i : ℕ) (p : Pkt ns)
      → length s.slots ≡ max_queue_num
      → s.queue_num ≤ max_queue_num
      → i < s.queue_num
      → Returns (Marked ns p) (mark_deque ns s now i p)
  unfolding mark_deque
  mark_deque-Marked s now i p l n h = elim (Bool-cases (s.marking_scheme == latency_marking)) [
    | inl late ↦ rw late (_, refl, mark_latency-Marked ns now _ p)
    | inr other ↦ elim (Bool-cases s.deque_marking) [
      | inr never ↦ (p, if_false _ _ _ other ∙ if_false _ _ _ never, Marked-refl ns p)
      | inl at_deque ↦
          let (b, e) = marking_ecn-ok ns s i l n h in
          (_, if_false _ _ _ other ∙ if_true _ _ _ at_deque ∙ rw e, ce-Marked b p)
    ]
  ]

  -- What `retire` makes of the head `i` of the list, whose queue is now that of `z`.
  record Retired (s : Dwrr ns) (i : ℕ) (z : Slot ns) (s' : Dwrr ns) : Type 0 where
    w : Slot ns
    valid : Valid ns s'
    slots_are : s'.slots ≡ set s.slots i w
    fifo_same : w.fifo ≡ z.fifo
    same_num : s'.queue_num ≡ s.queue_num
    same_limit : limit ns s' ≡ limit ns s

  retire-Retired :
      (s : Dwrr ns) (now : ns.Double) (i : ℕ) (is : List ℕ) (size : ℕ) (x z : Slot ns)
      → IsValid ns (core ns s) (i ∷ is)
      → get_elem? s.slots i ≡ some x
      → z.active ≡ true
      → z.quantum ≡ x.quantum
      → Returns (Retired s i z) (retire ns s now i size z)
  unfolding retire
  retire-Retired s now i is size x z v g on q =
      let told = v.tells i x g in
      elim (Bool-cases (ns.packets z.fifo == 0)) [
        | inr more ↦
            let t : Tells ns (elem i (i ∷ is)) z = record {
              marked = on ∙ sym (elem-cons_self i is);
              busy = λ _. pos_of_test (ns.packets z.fifo) more;
              idle = λ e. cc (elem-cons_self i is);
              has_quantum = omega (arith, told.has_quantum);
            } in
            rw more (
              _,
              refl,
              record {
                w = z;
                valid = (i ∷ is, set-IsValid ns (core ns s) (i ∷ is) i x z v g t q);
                slots_are = refl;
                fifo_same = refl;
                same_num = refl;
                same_limit = refl;
              },
            )
        | inl empty ↦
            let (r, e, (_, list, n)) = remove_head-IsList s.links i is v.listed in
            let w = record z { deficit = 0; active = false; current = false } in
            let t : Tells ns false w = record {
              marked = refl;
              busy = λ b. cc;
              idle = λ _. contents_of_packets ns z.fifo (zero_of_test (ns.packets z.fifo) empty);
              has_quantum = omega (arith, told.has_quantum);
            } in
            rw (empty, e)
              (
                _,
                refl,
                record {
                  w = w;
                  valid = (is, leave-IsValid ns (core ns s) r.1 is i x w z.quantum v g list n t q);
                  slots_are = refl;
                  fifo_same = refl;
                  same_num = refl;
                  same_limit = refl;
                },
              )
      ]

  -- The head of the list has sent its oldest packet.
  pub record Sends (s : Dwrr ns) (t : Turn ns) : Type 0 where
    pub p : Pkt ns
    pub s' : Dwrr ns
    pub is_sent : t ≡ sent p s'
    pub takes : Takes ns s.queue_num (held ns s) p (held ns s')
    pub valid : Valid ns s'
    pub same_num : s'.queue_num ≡ s.queue_num
    pub same_limit : limit ns s' ≡ limit ns s

  refresh-same :
      (x : Slot ns)
      → ((refresh ns x).fifo ≡ x.fifo)
        × ((refresh ns x).quantum ≡ x.quantum)
        × ((refresh ns x).active ≡ x.active)
  unfolding refresh
  refresh-same x = ground arith

  serve-Sends :
      (s : Dwrr ns) (now : ns.Double) (i : ℕ) (is : List ℕ) (x y : Slot ns)
      → IsValid ns (core ns s) (i ∷ is)
      → get_elem? s.slots i ≡ some x
      → (y.fifo ≡ x.fifo) × (y.quantum ≡ x.quantum) × (y.active ≡ x.active)
      → Returns (Sends s) (serve ns s now i y)
  unfolding serve meter_slot
  serve-Sends s now i is x y v g (f, q, a) =
      let told = v.tells i x g in
      let (p, d, _) = deque-total ns x.fifo (told.busy (elem-cons_self i is)) in
      let d' : ns.deque y.fifo ≡ some p = subst (λ k. ns.deque k ≡ some p) (sym f) d in
      let x' = record y { fifo = ns.after_deque y.fifo; deficit = y.deficit - p.size } in
      let (p', e, like) =
        mark_deque-Marked (record s { slots = set s.slots i x' }) now i p
          (length-set s.slots i x' ∙ v.slots_length) v.queue_num_in v.in_range.0 in
      let (s', e', r) =
        retire-Retired s now i is p.size x (meter_slot ns s now p.size x') v g
          (a ∙ told.marked ∙ elem-cons_self i is) q in
      rw (d', e, e')
        (
          sent p' s',
          refl,
          record {
            p = p';
            s' = s';
            is_sent = refl;
            takes = (
              i,
              subst
                  (λ k.
                    TakesAt ns i s.queue_num (held ns s) p' (view ns (λ (x : Slot ns). x.fifo) k))
                  (sym r.slots_are)
                  (take-TakesAt ns (λ (x : Slot ns). x.fifo) s.queue_num s.slots i x r.w p p'
                    v.in_range.0 g d (r.fifo_same ∙ ap ns.after_deque f) like),
            );
            valid = r.valid;
            same_num = r.same_num;
            same_limit = r.same_limit;
          },
        )

  -- The head of the list goes to the tail; its need falls, and nothing leaves.
  pub record Moves (s : Dwrr ns) (t : Turn ns) : Type 0 where
    pub s' : Dwrr ns
    pub is_moved : t ≡ moved s'
    pub same_held : held ns s' ≡ held ns s
    pub same_num : s'.queue_num ≡ s.queue_num
    pub same_limit : limit ns s' ≡ limit ns s
    pub valid : Valid ns s'
    pub nearer : sum_first (need ns) s.queue_num s'.slots < sum_first (need ns) s.queue_num s.slots

  need_falls :
      (size d quantum : ℕ) (current : Bool)
      → 0 < quantum
      → (if current then d else d + quantum) < size
      → size - (if current then d else d + quantum) + 0 < size - d + (if current then 1 else 0)
  need_falls size d quantum true h l = omega arith
  need_falls size d quantum false h l = omega arith

  refresh-deficit :
      (x : Slot ns)
      → (refresh ns x).deficit ≡ (if x.current then x.deficit else x.deficit + x.quantum)
  unfolding refresh
  refresh-deficit x = ground arith

  lacks-falls :
      (x : Slot ns) (p : Pkt ns)
      → ns.head x.fifo ≡ some p
      → (refresh ns x).deficit < p.size
      → 0 < x.quantum
      → lacks ns (ns.head (refresh ns x).fifo) (refresh ns x).deficit false
        < lacks ns (ns.head x.fifo) x.deficit x.current
  unfolding lacks
  lacks-falls x p e l h =
      rw (ap ns.head (refresh-same x).0 ∙ e, e, refresh-deficit x)
        (need_falls p.size x.deficit x.quantum x.current h (rw (refresh-deficit x) at l))

  rotate-Moves :
      (s : Dwrr ns) (now : ns.Double) (i : ℕ) (is : List ℕ) (x : Slot ns) (p : Pkt ns)
      → IsValid ns (core ns s) (i ∷ is)
      → get_elem? s.slots i ≡ some x
      → ns.head x.fifo ≡ some p
      → (refresh ns x).deficit < p.size
      → Returns (Moves s) (rotate ns s now i (refresh ns x))
  unfolding rotate
  rotate-Moves s now i is x p v g e l =
      let (f, q, a) = refresh-same x in
      let told = v.tells i x g in
      let y = record (refresh ns x) { current = false; start_time = now } in
      let (r, o, (_, list, n)) = remove_head-IsList s.links i is v.listed in
      let (links, o', (list', n')) = insert_tail-IsList r.1 is i list v.listed.distinct.0 (
        subst (λ k. i < length k) (sym n)
          (omega (arith, v.in_range.0, v.queue_num_in, v.nexts_length))) in
      let t : Tells ns true y = record {
        marked = a ∙ told.marked ∙ elem-cons_self i is;
        busy = λ _. subst (λ k. 0 < ns.packets k) (sym f) (told.busy (elem-cons_self i is));
        idle = λ b. cc;
        has_quantum = omega (arith, told.has_quantum);
      } in
      rw (o, o')
        (
          _,
          refl,
          record {
            s' = _;
            is_moved = refl;
            same_held = view-set_same ns (λ (x : Slot ns). x.fifo) s.slots i x y g f;
            same_num = refl;
            same_limit = refl;
            valid = (
              is ++ (i ∷ []),
              rotate-IsValid ns (core ns s) links is i x y v g list' (n' ∙ ap length n) t q,
            );
            nearer = omega (
              arith,
              sum_first-set (need ns) s.queue_num s.slots i x y g v.in_range.0,
              lacks-falls x p e l told.has_quantum,
            );
          },
        )

  turn_at-cases :
      (s : Dwrr ns) (now : ns.Double) (i : ℕ) (is : List ℕ)
      → IsValid ns (core ns s) (i ∷ is)
      → Returns (λ t. Sends s t ⊎ Moves s t) (turn_at ns s now (some i))
  unfolding turn_at visit
  turn_at-cases s now i is v =
      let (x, g) =
        get_elem?-total s.slots i (omega (arith, v.in_range.0, v.queue_num_in, v.slots_length)) in
      let (f, q, a) = refresh-same x in
      let busy = (v.tells i x g).busy (elem-cons_self i is) in
      let (p, _, e) = deque-total ns x.fifo busy in
      elim (Bool-cases (leb p.size (refresh ns x).deficit)) [
        | inl fits ↦
            let (t, o, sends) = serve-Sends s now i is x (refresh ns x) v g (f, q, a) in
            rw (g, lt→ltb _ _ busy, ap ns.head f ∙ e, fits, o) (t, refl, inl sends)
        | inr short ↦
            let (t, o, moves) = rotate-Moves s now i is x p v g e (lt_of_leb _ _ short) in
            rw (g, lt→ltb _ _ busy, ap ns.head f ∙ e, short, o) (t, refl, inr moves)
      ]

  -- A round of the loop, where the active list is not empty.
  pub turn-cases :
      (s : Dwrr ns) (now : ns.Double) (i : ℕ) (is : List ℕ)
      → IsValid ns (core ns s) (i ∷ is)
      → Returns (λ t. Sends s t ⊎ Moves s t) (turn ns s now)
  unfolding turn
  turn-cases s now i is v =
      subst (λ o. Returns (λ t. Sends s t ⊎ Moves s t) (turn_at ns s now o)) (sym v.listed.chain.0)
        (turn_at-cases s now i is v)

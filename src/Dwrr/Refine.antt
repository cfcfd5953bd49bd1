-- ===== src/Dwrr/Refine.antt =====
-- `DWRR::enque` keeps the promises of `Port.Backlog` and the invariant of the active list.
use mq_ecn.Common.{
  ℕ, ◌+◌, ◌≤◌, ◌<◌, ℤ, ◌≡◌, refl, sym, ap, subst, ◌∙◌, inl, inr, Bool, true, false, min, some, List,
  [], ◌∷◌, ◌++◌, get_elem?, get_elem?-set_self, set, set-set, length, length-set, get_elem?-total,
  Result, ok, Returns, arith, ltb, ◌==◌, ◌&&◌, not, Bool-cases, ltb→lt, ltb→le, le→leb, if_ok,
  if_true, if_false, add_int,
}
use mq_ecn.Simulator.{Simulator}
use mq_ecn.Port.{
  Pkt, Fate, dropped, mark_enque, max_queue_num, latency_marking, mq_marking_gener, mq_marking_rr,
}
use mq_ecn.Port.Backlog.{
  Enqueues, Enqueues-cong, mark_enque-Marked, view, put-JoinsAt, clamp_prio-Returns, total,
}
use mq_ecn.ActiveList.{Links}
use mq_ecn.ActiveList.Chain.{insert_tail-IsList}
use mq_ecn.Dwrr.{
  Slot, Dwrr, total_byte_length, marking_ecn, marks, put, wake, start_timer, activate, admit, offer,
  enque,
}
use mq_ecn.Dwrr.Invariant.{
  held, limit, SameShape, total_byte_length-eq, Core, core, Tells, IsValid, Valid, set-IsValid,
  join-IsValid,
}

module _ (ns : Simulator) where
  packets-enque : (p : Pkt ns) (f : ns.Queue) → 0 < ns.packets (ns.enque p f)
  packets-enque p f = omega (
    arith,
    ns.packets-eq (ns.enque p f),
    ap length (ns.contents-enque p f),
    length_pos (ns.contents f),
  )
    where
      length_pos : (l : List (Pkt ns)) → 0 < length (l ++ (p ∷ []))
      length_pos [] = omega arith
      length_pos (x ∷ xs) = omega arith

  put-Tells :
      (x z : Slot ns) (q : Pkt ns)
      → z.active ≡ true
      → z.fifo ≡ ns.enque q x.fifo
      → 0 < z.quantum
      → Tells ns true z
  put-Tells x z q a f h = record {
    marked = a;
    busy = λ _. subst (λ k. 0 < ns.packets k) (sym f) (packets-enque q x.fifo);
    idle = λ e. cc;
    has_quantum = h;
  }

  -- What `activate` makes of queue `i`, which held `x`: the slot is `z` but for its packets.
  pub record Activated (s : Dwrr ns) (i : ℕ) (x : Slot ns) (f : ns.Queue) (r : Result (Dwrr ns))
      : Type 0 where
    pub z : Slot ns
    pub links : Links
    pub sum : ℤ
    pub result : r ≡ ok (record s { slots = set s.slots i z; links = links; quantum_sum = sum })
    pub fifo_is : z.fifo ≡ f
    pub valid :
        (q : Pkt ns)
        → Valid ns (record s {
          slots = set s.slots i (record z { fifo = ns.enque q x.fifo });
          links = links;
          quantum_sum = sum;
        })

  pub activate-Activated :
      (s : Dwrr ns) (now : ns.Double) (ids : List ℕ) (i : ℕ) (x : Slot ns) (p : Pkt ns)
      → IsValid ns (core ns s) ids
      → i < s.queue_num
      → get_elem? s.slots i ≡ some x
      → Activated s i x (ns.enque p x.fifo) (activate ns s now i (put ns x p))
  unfolding activate
  activate-Activated s now ids i x p v l g =
      let told = v.tells i x g in
      elim (Bool-cases x.active) [
        | inl on ↦ record {
          z = put ns x p;
          links = s.links;
          sum = s.quantum_sum;
          result = if_true _ _ _ on;
          fifo_is = refl;
          valid = λ q. (
            ids,
            set-IsValid ns (core ns s) ids i x (put ns x q) v g
                (subst (λ b. Tells ns b (put ns x q)) (sym on ∙ told.marked)
                  (put-Tells x (put ns x q) q on refl told.has_quantum))
                refl,
          );
        }
        | inr off ↦
            let (links, e, (list, n)) =
              insert_tail-IsList s.links ids i v.listed (sym told.marked ∙ off)
                (omega (arith, v.queue_num_in, v.nexts_length)) in
            record {
              z = record x {
                fifo = ns.enque p x.fifo;
                deficit = 0;
                active = true;
                current = false;
                start_time = now;
              };
              links = links;
              sum = add_int s.quantum_sum x.quantum;
              result = if_false _ _ _ off ∙ rw e;
              fifo_is = refl;
              valid = λ q. (
                ids ++ (i ∷ []),
                join-IsValid ns (core ns s) links ids i x _ v l g off list n
                    (put-Tells x _ q refl refl told.has_quantum) refl,
              );
            }
      ]

  pub marking_ecn-ok :
      (s : Dwrr ns) (i : ℕ)
      → length s.slots ≡ max_queue_num
      → s.queue_num ≤ max_queue_num
      → i < s.queue_num
      → (b : Bool) × (marking_ecn ns s i ≡ ok b)
  unfolding marking_ecn
  marking_ecn-ok s i e k h =
      let (x, g) = get_elem?-total s.slots i (omega arith) in
      (marks ns s x, rw (le→leb s.queue_num i h, g))

  -- What `enque` promises of its result.
  abbrev pub EnqueuedListed : Dwrr ns → Pkt ns → Fate × Dwrr ns → Type 0
  EnqueuedListed s p r =
      Enqueues ns s.queue_num (limit ns s) p (held ns s) r.0 (held ns r.1)
      × Valid ns r.1
      × SameShape ns s r.1

  admit-EnqueuedListed :
      (s : Dwrr ns) (now : ns.Double) (p : Pkt ns)
      → Valid ns s
      → total ns s.queue_num (held ns s) + p.size ≤ limit ns s
      → Returns (EnqueuedListed s p) (admit ns s now p)
  unfolding admit
  admit-EnqueuedListed s now p (ids, v) room =
      let (i, e, l) = clamp_prio-Returns s.queue_num p.prio v.some_queue in
      let h : i < length s.slots = omega (arith, v.slots_length, v.queue_num_in) in
      let (x, g) = get_elem?-total s.slots i h in
      let a = activate-Activated s now ids i x p v l g in
      let (m, em) =
        marking_ecn-ok
          (record s { slots = set s.slots i a.z; links = a.links; quantum_sum = a.sum }) i
          (length-set s.slots i a.z ∙ v.slots_length) v.queue_num_in l in
      let (must, et) =
        if_ok (not (s.marking_scheme == latency_marking) && not s.deque_marking) _ false m em in
      let q = mark_enque ns s.marking_scheme (not s.deque_marking) now must p in
      let like = mark_enque-Marked ns s.marking_scheme (not s.deque_marking) now must p in
      let w = record (a.z) { fifo = ns.enque q x.fifo } in
      rw (e, g, a.result, et, get_elem?-set_self s.slots i a.z h, set-set s.slots i a.z w)
        (
          _,
          refl,
          (
            inr (
              refl,
              room,
              (
                i,
                put-JoinsAt ns (λ (x : Slot ns). x.fifo) s.queue_num s.slots i x w p q l g refl
                    like,
              ),
            ),
            a.valid q,
            (refl, refl),
          ),
        )

  offer-EnqueuedListed :
      (s : Dwrr ns) (now : ns.Double) (p : Pkt ns)
      → Valid ns s
      → Returns (EnqueuedListed s p) (offer ns s now p)
  unfolding offer
  offer-EnqueuedListed s now p v =
      let t = total_byte_length-eq ns s in
      elim (Bool-cases (ltb (limit ns s) (total_byte_length ns s + p.size))) [
        | inl full ↦ rw full (
          (dropped, s),
          refl,
          (inl (refl, omega (arith, t, ltb→lt _ _ full), refl), v, (refl, refl)),
        )
        | inr room ↦ rw room (admit-EnqueuedListed s now p v (omega (arith, t, ltb→le _ _ room)))
      ]

  pub start_timer-same :
      (s : Dwrr ns)
      → (core ns (start_timer ns s) ≡ core ns s) × (limit ns (start_timer ns s) ≡ limit ns s)
  unfolding start_timer
  start_timer-same s = elim (Bool-cases s.init) [
    | inl old ↦ rw old (refl, refl)
    | inr new ↦ rw new (refl, refl)
  ]

  pub wake-same :
      (s : Dwrr ns) (now : ns.Double)
      → (core ns (wake ns s now) ≡ core ns s) × (limit ns (wake ns s now) ≡ limit ns s)
  unfolding wake
  wake-same s now =
      elim (Bool-cases (
        total_byte_length ns s == 0
        && s.marking_scheme == mq_marking_gener
        && not s.estimate_quantum_enable_timer)) [
          | inl gener ↦ rw gener (refl, refl)
          | inr other ↦
              elim (Bool-cases (total_byte_length ns s == 0 && s.marking_scheme == mq_marking_rr)) [
                | inl rr ↦ rw (other, rr) (refl, refl)
                | inr neither ↦ rw (other, neither) (refl, refl)
              ]
        ]

  -- In a valid DWRR state `enque` returns, without an exit and without a walk beyond the
  -- active list. The packet is dropped, and the queues keep what they hold, exactly if the
  -- bytes held and its own exceed `qlim * mean_pktsize`; else it becomes the newest packet of
  -- one of the first `queue_num` queues, changed in its congestion mark and time stamp at
  -- most and marked only if it is ECN-capable. The state stays valid. The number of queues
  -- and the size of the buffer are kept.
  pub enque-EnqueuedListed :
      (s : Dwrr ns) (now : ns.Double) (p : Pkt ns)
      → Valid ns s
      → Returns (EnqueuedListed s p) (enque ns s now p)
  unfolding enque
  enque-EnqueuedListed s now p (ids, v) =
      let e : min s.queue_num max_queue_num ≡ s.queue_num = omega (arith, v.queue_num_in) in
      let t = start_timer ns s in
      let (c, l) = start_timer-same s in
      let (c', l') = wake-same t now in
      let same : core ns (wake ns t now) ≡ core ns s = c' ∙ c in
      let (r, o, (h, v', (n, k))) =
        offer-EnqueuedListed (wake ns t now) now p
          (ids, subst (λ k. IsValid ns k ids) (sym same) v) in
      rw e (
        r,
        o,
        (
          Enqueues-cong ns _ _ _ _ _ _ p r.0 (held ns r.1) (ap (λ (k : Core ns). k.queue_num) same)
              (l' ∙ l) (ap (λ (k : Core ns). view ns (λ (x : Slot ns). x.fifo) k.slots) same) h,
          v',
          (n ∙ ap (λ (k : Core ns). k.queue_num) same, k ∙ l' ∙ l),
        ),
      )

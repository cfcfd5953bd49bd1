-- ===== src/PrioDwrr/Refine.antt =====
-- `PRIO_DWRR::enque` keeps the promises of `Port.Backlog` and the invariant.
use mq_ecn.Common.{
  ℕ, ◌+◌, ◌-◌, ◌*◌, ◌≤◌, ◌<◌, max, min, ◌≡◌, refl, sym, ap, subst, ◌∙◌, inl, inr, Bool, true, false,
  set, get_elem?-total, Result, ok, Returns, arith, ltb, ◌==◌, ◌&&◌, not, Bool-cases, ltb→lt,
  ltb→le, le→leb, if_ok, if_true, if_false,
}
use mq_ecn.Simulator.{Simulator}
use mq_ecn.Port.{
  Pkt, Fate, queued, dropped, clamp_prio, mark_enque, max_queue_num, latency_marking,
  mq_marking_gener, mq_marking_rr,
}
use mq_ecn.Port.Backlog.{
  Marked, JoinsAt, Joins-total, mark_enque-Marked, put-JoinsAt, clamp_prio-Returns, total, Backlog,
}
use mq_ecn.PrioQueues.{max_prio_queue_num}
use mq_ecn.PrioQueues.Group.{
  all_queues, position, find_prio, put-IsGroup, joins_high, joins_low, AcceptsIn,
}
use mq_ecn.Dwrr.{Slot, Dwrr, put}
use mq_ecn.Dwrr.Invariant.{Core, core}
use mq_ecn.Dwrr.Refine.{activate-Activated, start_timer-same}
use mq_ecn.PrioDwrr.{
  PrioDwrr, as_dwrr, with_dwrr, total_byte_length, total_dwrr_byte_length, marking_ecn, marks_prio,
  marks_dwrr, start_timer, wake, place_prio, place_dwrr, place, admit, offer, enque,
}
use mq_ecn.PrioDwrr.Invariant.{
  Ports, ports, dwrr_view, held_by, held, IsValid, Valid, limit, SameShape, total_byte_length-eq,
}

module _ (ns : Simulator) where
  -- What the placing of `q`, which is `p` but for its marks, makes of `s`.
  pub record Placed (s : PrioDwrr ns) (i : ℕ) (p : Pkt ns) (r : Result (PrioDwrr ns)) : Type 0 where
    pub t : PrioDwrr ns
    pub result : r ≡ ok t
    pub joins : JoinsAt ns (position s.prio_queue_num i) all_queues p (held ns s) (held ns t)
    pub valid : Valid ns t
    pub same : SameShape ns s t

  place_prio-Placed :
      (s : PrioDwrr ns) (i : ℕ) (p q : Pkt ns)
      → Valid ns s
      → i < s.prio_queue_num
      → Marked ns p q
      → Placed s i p (place_prio ns s i q)
  unfolding place_prio
  place_prio-Placed s i p q v l m =
      let (x, g) = find_prio ns s.prio_queue_num s.prio_queues i v.high l in
      record {
        t = record s { prio_queues = set s.prio_queues i (record x { fifo = ns.enque q x.fifo }) };
        result = rw g refl;
        joins =
            joins_high ns s.prio_queue_num s.prio_queues i x p q (dwrr_view ns s.dwrr_queues) v.high
              l g m;
        valid = record {
          high = put-IsGroup ns s.prio_queue_num s.prio_queues i x p q v.high l g m;
          ids = v.ids;
          group_valid = v.group_valid;
        };
        same = (refl, refl, refl);
      }

  place_dwrr-Placed :
      (s : PrioDwrr ns) (now : ns.Double) (i : ℕ) (p q : Pkt ns)
      → Valid ns s
      → s.prio_queue_num ≤ i
      → i < s.prio_queue_num + s.dwrr_queue_num
      → Marked ns p q
      → Placed s i p (place_dwrr ns s now (i - s.prio_queue_num) q)
  unfolding place_dwrr
  place_dwrr-Placed s now i p q v b l m =
      let k = i - s.prio_queue_num in
      let w = v.group_valid in
      let (x, g) =
        get_elem?-total s.dwrr_queues k (omega (arith, w.slots_length, w.queue_num_in)) in
      let a = activate-Activated ns (as_dwrr ns s) now v.ids k x q w (omega arith) g in
      let j =
        put-JoinsAt ns (λ (x : Slot ns). x.fifo) max_queue_num s.dwrr_queues k x a.z p q
          (omega (arith, w.queue_num_in)) g a.fifo_is m in
      let u : mq_ecn.Dwrr.Invariant.Valid ns (record (as_dwrr ns s) {
        slots = set s.dwrr_queues k (a.z);
        links = a.links;
        quantum_sum = a.sum;
      }) =
        subst
          (λ f. mq_ecn.Dwrr.Invariant.Valid ns (record (as_dwrr ns s) {
            slots = set s.dwrr_queues k (record (a.z) { fifo = f });
            links = a.links;
            quantum_sum = a.sum;
          }))
          (sym a.fifo_is) (a.valid q) in
      record {
        t = record s {
          dwrr_queues = set s.dwrr_queues k (a.z);
          links = a.links;
          quantum_sum = a.sum;
        };
        result = rw (g, a.result) refl;
        joins = joins_low ns s.prio_queue_num s.prio_queues i p _ _ v.high b j;
        valid = record { high = v.high; ids = u.0; group_valid = u.1 };
        same = (refl, refl, refl);
      }

  pub place-Placed :
      (s : PrioDwrr ns) (now : ns.Double) (i : ℕ) (p q : Pkt ns)
      → Valid ns s
      → i < s.prio_queue_num + s.dwrr_queue_num
      → Marked ns p q
      → Placed s i p (place ns s now i q)
  unfolding place
  place-Placed s now i p q v l m = elim (Bool-cases (ltb i s.prio_queue_num)) [
    | inl high ↦
        subst (Placed s i p) (sym (if_true _ _ _ high))
          (place_prio-Placed s i p q v (ltb→lt _ _ high) m)
    | inr low ↦
        subst (Placed s i p) (sym (if_false _ _ _ low))
          (place_dwrr-Placed s now i p q v (ltb→le _ _ low) l m)
  ]

  pub marking_ecn-ok :
      (s : PrioDwrr ns) (i : ℕ)
      → Valid ns s
      → i < s.prio_queue_num + s.dwrr_queue_num
      → (b : Bool) × (marking_ecn ns s i ≡ ok b)
  unfolding marking_ecn
  marking_ecn-ok s i v l =
      let w = v.group_valid in
      elim (Bool-cases (ltb i s.prio_queue_num)) [
        | inl high ↦
            let (x, g) = find_prio ns s.prio_queue_num s.prio_queues i v.high (ltb→lt _ _ high) in
            (marks_prio ns s x, rw (le→leb _ _ l, high, g) refl)
        | inr low ↦
            let (x, g) =
              get_elem?-total s.dwrr_queues (i - s.prio_queue_num)
                (omega (arith, w.slots_length, w.queue_num_in, ltb→le _ _ low)) in
            (marks_dwrr ns s x, rw (le→leb _ _ l, low, g) refl)
      ]

  abbrev pub Accepts : Ports ns → Pkt ns → Fate → Backlog ns → Type 0
  Accepts c p fate w =
      AcceptsIn ns c.prio_queue_num (c.prio_queue_num + c.group.queue_num) c.limit p (held_by ns c)
        fate w

  -- What `enque` promises of its result.
  abbrev pub EnqueuedInGroup : PrioDwrr ns → Pkt ns → Fate × PrioDwrr ns → Type 0
  EnqueuedInGroup s p r =
      Accepts (ports ns s) p r.0 (held ns r.1) × Valid ns r.1 × SameShape ns s r.1

  admit-EnqueuedInGroup :
      (s : PrioDwrr ns) (now : ns.Double) (p : Pkt ns)
      → Valid ns s
      → total ns all_queues (held ns s) + p.size ≤ limit ns s
      → Returns (EnqueuedInGroup s p) (admit ns s now p)
  unfolding admit
  admit-EnqueuedInGroup s now p v room =
      let (i, e, l) =
        clamp_prio-Returns (s.prio_queue_num + s.dwrr_queue_num) p.prio
          (omega (arith, v.high.some_prio)) in
      let a = place-Placed s now i p p v l (mq_ecn.Port.Backlog.Marked-refl ns p) in
      let (m, em) = marking_ecn-ok (a.t) i a.valid (omega (arith, a.same.0, a.same.1)) in
      let (must, et) = if_ok (not (s.marking_scheme == latency_marking)) _ false m em in
      let q = mark_enque ns s.marking_scheme true now must p in
      let b =
        place-Placed s now i p q v l (mark_enque-Marked ns s.marking_scheme true now must p) in
      (
        (queued, b.t),
        rw (e, a.result, et, b.result) refl,
        (inr (i, refl, room, e, b.joins), b.valid, b.same),
      )

  offer-EnqueuedInGroup :
      (s : PrioDwrr ns) (now : ns.Double) (p : Pkt ns)
      → Valid ns s
      → Returns (EnqueuedInGroup s p) (offer ns s now p)
  unfolding offer
  offer-EnqueuedInGroup s now p v =
      let t = total_byte_length-eq ns s v in
      elim (Bool-cases (ltb (limit ns s) (total_byte_length ns s + p.size))) [
        | inl full ↦ rw full (
          (dropped, s),
          refl,
          (inl (refl, omega (arith, t, ltb→lt _ _ full), refl), v, (refl, refl, refl)),
        )
        | inr room ↦ rw room (admit-EnqueuedInGroup s now p v (omega (arith, t, ltb→le _ _ room)))
      ]

  pub with_dwrr-ports :
      (s : PrioDwrr ns) (d : Dwrr ns)
      → core ns d ≡ core ns (as_dwrr ns s)
      → ports ns (with_dwrr ns s d) ≡ ports ns s
  with_dwrr-ports s d e =
      ap
        (λ (k : Core ns). record {
          prio_queues = s.prio_queues;
          prio_queue_num = s.prio_queue_num;
          group = record {
            slots = k.slots;
            links = k.links;
            quantum_sum = k.quantum_sum;
            queue_num = s.dwrr_queue_num;
          };
          limit = s.qlim * s.mean_pktsize;
        })
        e

  wake-ports : (s : PrioDwrr ns) (now : ns.Double) → ports ns (wake ns s now) ≡ ports ns s
  unfolding wake
  wake-ports s now =
      elim (Bool-cases (
        total_dwrr_byte_length ns s == 0
        && s.marking_scheme == mq_marking_gener
        && not s.estimate_quantum_enable_timer)) [
          | inl gener ↦ rw gener refl
          | inr other ↦
              elim (Bool-cases
                (total_dwrr_byte_length ns s == 0 && s.marking_scheme == mq_marking_rr)) [
                  | inl rr ↦ rw (other, rr) refl
                  | inr neither ↦ rw (other, neither) refl
                ]
        ]

  -- The timer and the idle reset leave the queues alone.
  pub woken-ports :
      (s : PrioDwrr ns) (now : ns.Double) → ports ns (wake ns (start_timer ns s) now) ≡ ports ns s
  unfolding start_timer
  woken-ports s now =
      wake-ports (with_dwrr ns s (mq_ecn.Dwrr.start_timer ns (as_dwrr ns s))) now
      ∙ with_dwrr-ports s (mq_ecn.Dwrr.start_timer ns (as_dwrr ns s))
          (start_timer-same ns (as_dwrr ns s)).0

  pub clamp-eq :
      (s : PrioDwrr ns)
      → Valid ns s
      → (max (min s.dwrr_queue_num max_queue_num) 1 ≡ s.dwrr_queue_num)
        × (max (min s.prio_queue_num max_prio_queue_num) 1 ≡ s.prio_queue_num)
  clamp-eq s v = (
    omega (arith, v.group_valid.some_queue, v.group_valid.queue_num_in),
    omega (arith, v.high.some_prio, v.high.prio_num_in),
  )

  -- In a valid PRIO_DWRR state `enque` returns, without an exit and without a walk beyond the
  -- active list. The packet is dropped, and the queues keep what they hold, exactly if the
  -- bytes held by both groups and its own exceed `qlim * mean_pktsize`; else it becomes the
  -- newest packet of the queue that its priority names, the last queue if it names none,
  -- changed in its congestion mark and time stamp at most and marked only if it is
  -- ECN-capable. The state stays valid, and the numbers of queues and the size of the buffer
  -- are kept.
  pub enque-EnqueuedInGroup :
      (s : PrioDwrr ns) (now : ns.Double) (p : Pkt ns)
      → Valid ns s
      → Returns (EnqueuedInGroup s p) (enque ns s now p)
  unfolding enque
  enque-EnqueuedInGroup s now p v =
      let (a, b) = clamp-eq s v in
      let t = wake ns (start_timer ns s) now in
      let same : ports ns t ≡ ports ns s = woken-ports s now in
      let (r, o, (h, v', (n, k, l))) =
        offer-EnqueuedInGroup t now p (subst (IsValid ns) (sym same) v) in
      rw (a, b)
        (
          r,
          o,
          (
            subst (λ c. Accepts c p r.0 (held ns r.1)) same h,
            v',
            (
              n ∙ ap (λ (c : Ports ns). c.prio_queue_num) same,
              k ∙ ap (λ (c : Ports ns). c.group.queue_num) same,
              l ∙ ap (λ (c : Ports ns). c.limit) same,
            ),
          ),
        )

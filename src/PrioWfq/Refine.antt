-- ===== src/PrioWfq/Refine.antt =====
-- `PRIO_WFQ::enque` keeps the promises of `Port.Backlog` and the invariant.
use mq_ecn.Common.{
  ℕ, ◌+◌, ◌-◌, ◌≤◌, ◌<◌, max, min, ◌≡◌, refl, sym, ap, subst, ◌∙◌, inl, inr, Bool, true, false,
  List, get_elem?-set_self, set, set-set, length, get_elem?-total, Result, ok, Returns, arith, ltb,
  ◌==◌, ◌&&◌, not, Bool-cases, ltb→lt, ltb→le, le→leb, if_ok, if_true, if_false,
}
use mq_ecn.Simulator.{Simulator}
use mq_ecn.Port.{
  Pkt, Fate, queued, dropped, mark_enque, max_queue_num, latency_marking, mq_marking_gener,
  zero_double,
}
use mq_ecn.Port.Backlog.{
  Marked, Marked-refl, JoinsAt, mark_enque-Marked, put-JoinsAt, clamp_prio-Returns, total, Backlog,
}
use mq_ecn.Port.Groups.{JoinsAt-wider}
use mq_ecn.PrioQueues.{max_prio_queue_num}
use mq_ecn.PrioQueues.Group.{
  all_queues, position, find_prio, put-IsGroup, joins_high, joins_low, AcceptsIn,
}
use mq_ecn.Wfq.{Slot, put}
use mq_ecn.Wfq.Refine.{start_queue-Started, start_timer-Same}
use mq_ecn.PrioWfq.{
  PrioWfq, as_wfq, total_byte_length, total_wfq_byte_length, marking_ecn, marks_prio, marks_wfq,
  start_timer, wake, place_prio, place_wfq, place, admit, offer, enque,
}
use mq_ecn.PrioWfq.Invariant.{
  wfq_view, Ports, ports, held_by, held, IsValid, Valid, limit, SameShape, put-IsWeighed,
  total_byte_length-eq,
}

module _ (ns : Simulator) where
  -- What the placing of `q`, which is `p` but for its marks, makes of `s`.
  pub record Placed (s : PrioWfq ns) (i : ℕ) (p : Pkt ns) (r : Result (PrioWfq ns)) : Type 0 where
    pub t : PrioWfq ns
    pub result : r ≡ ok t
    pub joins : JoinsAt ns (position s.prio_queue_num i) all_queues p (held ns s) (held ns t)
    pub valid : Valid ns t
    pub same : SameShape ns s t

  place_prio-Placed :
      (s : PrioWfq ns) (i : ℕ) (p q : Pkt ns)
      → Valid ns s
      → i < s.prio_queue_num
      → Marked ns p q
      → Placed s i p (place_prio ns s i q)
  unfolding place_prio
  place_prio-Placed s i p q v l m =
      let (x, g) = find_prio ns s.prio_queue_num s.prio_queues i v.high l in
      record {
        t = record s { prio_queues = set s.prio_queues i (record x { fifo = ns.enque q x.fifo }) };
        result = rw g refl;
        joins =
            joins_high ns s.prio_queue_num s.prio_queues i x p q (wfq_view ns s.wfq_queues) v.high l
              g m;
        valid = record {
          high = put-IsGroup ns s.prio_queue_num s.prio_queues i x p q v.high l g m;
          low = v.low;
        };
        same = (refl, refl, refl);
      }

  place_wfq-Placed :
      (s : PrioWfq ns) (i : ℕ) (p q : Pkt ns)
      → Valid ns s
      → s.prio_queue_num ≤ i
      → i < s.prio_queue_num + s.wfq_queue_num
      → Marked ns p q
      → Placed s i p (place_wfq ns s (i - s.prio_queue_num) q)
  unfolding place_wfq
  place_wfq-Placed s i p q v b l m =
      let k = i - s.prio_queue_num in
      let w = v.low in
      let h : k < length s.wfq_queues = omega (arith, w.slots_length, w.queue_num_in) in
      let (x, g) = get_elem?-total s.wfq_queues k h in
      let a = start_queue-Started ns (as_wfq ns s) k q.size x g (w.weights k x g) in
      let y = put ns a.y q in
      let j =
        put-JoinsAt ns (λ (x : Slot ns). x.fifo) s.wfq_queue_num s.wfq_queues k x y p q
          (omega arith) g (ap (ns.enque q) a.fifo_same) m in
      record {
        t = record s { wfq_queues = set s.wfq_queues k y; curr_time = a.c; weight_sum = a.w };
        result =
            rw (g, a.result, get_elem?-set_self s.wfq_queues k a.y h, set-set s.wfq_queues k a.y y)
              refl;
        joins =
            joins_low ns s.prio_queue_num s.prio_queues i p _ _ v.high b
              (JoinsAt-wider ns k s.wfq_queue_num max_queue_num p _ _ w.queue_num_in j);
        valid = record {
          high = v.high;
          low =
              put-IsWeighed ns s.wfq_queue_num s.wfq_queues k y p w
                (ap (ns.lt (zero_double ns)) a.weight_same ∙ w.weights k x g) j;
        };
        same = (refl, refl, refl);
      }

  pub place-Placed :
      (s : PrioWfq ns) (i : ℕ) (p q : Pkt ns)
      → Valid ns s
      → i < s.prio_queue_num + s.wfq_queue_num
      → Marked ns p q
      → Placed s i p (place ns s i q)
  unfolding place
  place-Placed s i p q v l m = elim (Bool-cases (ltb i s.prio_queue_num)) [
    | inl high ↦
        subst (Placed s i p) (sym (if_true _ _ _ high))
          (place_prio-Placed s i p q v (ltb→lt _ _ high) m)
    | inr low ↦
        subst (Placed s i p) (sym (if_false _ _ _ low))
          (place_wfq-Placed s i p q v (ltb→le _ _ low) l m)
  ]

  pub marking_ecn-ok :
      (s : PrioWfq ns) (i : ℕ)
      → Valid ns s
      → i < s.prio_queue_num + s.wfq_queue_num
      → (b : Bool) × (marking_ecn ns s i ≡ ok b)
  unfolding marking_ecn
  marking_ecn-ok s i v l = elim (Bool-cases (ltb i s.prio_queue_num)) [
    | inl high ↦
        let (x, g) = find_prio ns s.prio_queue_num s.prio_queues i v.high (ltb→lt _ _ high) in
        (marks_prio ns s x, rw (le→leb _ _ l, high, g) refl)
    | inr low ↦
        let (x, g) =
          get_elem?-total s.wfq_queues (i - s.prio_queue_num)
            (omega (arith, v.low.slots_length, v.low.queue_num_in, ltb→le _ _ low)) in
        (marks_wfq ns s x, rw (le→leb _ _ l, low, g) refl)
  ]

  abbrev pub Accepts : Ports ns → Pkt ns → Fate → Backlog ns → Type 0
  Accepts c p fate w =
      AcceptsIn ns c.prio_queue_num (c.prio_queue_num + c.wfq_queue_num) c.limit p (held_by ns c)
        fate w

  -- What `enque` promises of its result.
  abbrev pub EnqueuedInBoth : PrioWfq ns → Pkt ns → Fate × PrioWfq ns → Type 0
  EnqueuedInBoth s p r =
      Accepts (ports ns s) p r.0 (held ns r.1) × Valid ns r.1 × SameShape ns s r.1

  admit-EnqueuedInBoth :
      (s : PrioWfq ns) (now : ns.Double) (p : Pkt ns)
      → Valid ns s
      → total ns all_queues (held ns s) + p.size ≤ limit ns s
      → Returns (EnqueuedInBoth s p) (admit ns s now p)
  unfolding admit
  admit-EnqueuedInBoth s now p v room =
      let (i, e, l) =
        clamp_prio-Returns (s.prio_queue_num + s.wfq_queue_num) p.prio
          (omega (arith, v.high.some_prio)) in
      let a = place-Placed s i p p v l (Marked-refl ns p) in
      let (m, em) = marking_ecn-ok (a.t) i a.valid (omega (arith, a.same.0, a.same.1)) in
      let (must, et) = if_ok (not (s.marking_scheme == latency_marking)) _ false m em in
      let q = mark_enque ns s.marking_scheme true now must p in
      let b = place-Placed s i p q v l (mark_enque-Marked ns s.marking_scheme true now must p) in
      (
        (queued, b.t),
        rw (e, a.result, et, b.result) refl,
        (inr (i, refl, room, e, b.joins), b.valid, b.same),
      )

  offer-EnqueuedInBoth :
      (s : PrioWfq ns) (now : ns.Double) (p : Pkt ns)
      → Valid ns s
      → Returns (EnqueuedInBoth s p) (offer ns s now p)
  unfolding offer
  offer-EnqueuedInBoth s now p v =
      let t = total_byte_length-eq ns s v in
      elim (Bool-cases (ltb (limit ns s) (total_byte_length ns s + p.size))) [
        | inl full ↦ rw full (
          (dropped, s),
          refl,
          (inl (refl, omega (arith, t, ltb→lt _ _ full), refl), v, (refl, refl, refl)),
        )
        | inr room ↦ rw room (admit-EnqueuedInBoth s now p v (omega (arith, t, ltb→le _ _ room)))
      ]

  wake-ports : (s : PrioWfq ns) (now : ns.Double) → ports ns (wake ns s now) ≡ ports ns s
  unfolding wake
  wake-ports s now =
      elim (Bool-cases (
        total_wfq_byte_length ns s == 0
        && s.marking_scheme == mq_marking_gener
        && not s.estimate_weight_enable_timer)) [
          | inl idle ↦ rw idle refl
          | inr busy ↦ rw busy refl
        ]

  start_timer-ports : (s : PrioWfq ns) → ports ns (start_timer ns s) ≡ ports ns s
  unfolding start_timer
  start_timer-ports s =
      ap
        (λ (k : List (Slot ns)). record {
          prio_queues = s.prio_queues;
          prio_queue_num = s.prio_queue_num;
          wfq_queues = k;
          wfq_queue_num = s.wfq_queue_num;
          limit = limit ns s;
        })
        (start_timer-Same ns (as_wfq ns s)).same_slots

  -- The timer and the idle reset leave the queues alone.
  pub woken-ports :
      (s : PrioWfq ns) (now : ns.Double) → ports ns (wake ns (start_timer ns s) now) ≡ ports ns s
  woken-ports s now = wake-ports (start_timer ns s) now ∙ start_timer-ports s

  pub clamp-eq :
      (s : PrioWfq ns)
      → Valid ns s
      → (max (min s.wfq_queue_num max_queue_num) 1 ≡ s.wfq_queue_num)
        × (max (min s.prio_queue_num max_prio_queue_num) 1 ≡ s.prio_queue_num)
  clamp-eq s v = (
    omega (arith, v.low.some_queue, v.low.queue_num_in),
    omega (arith, v.high.some_prio, v.high.prio_num_in),
  )

  -- In a valid PRIO_WFQ state (positive weights) `enque` returns without an exit. The packet
  -- is dropped, and the queues keep what they hold, exactly if the bytes held by both groups
  -- and its own exceed `qlim * mean_pktsize`; else it becomes the newest packet of the queue
  -- that its priority names, the last queue if it names none, changed in its congestion mark
  -- and time stamp at most and marked only if it is ECN-capable. The state stays valid, and
  -- the numbers of queues and the size of the buffer are kept.
  pub enque-EnqueuedInBoth :
      (s : PrioWfq ns) (now : ns.Double) (p : Pkt ns)
      → Valid ns s
      → Returns (EnqueuedInBoth s p) (enque ns s now p)
  unfolding enque
  enque-EnqueuedInBoth s now p v =
      let (a, b) = clamp-eq s v in
      let t = wake ns (start_timer ns s) now in
      let same : ports ns t ≡ ports ns s = woken-ports s now in
      let (r, o, (h, v', (n, k, l))) =
        offer-EnqueuedInBoth t now p (subst (IsValid ns) (sym same) v) in
      rw (a, b)
        (
          r,
          o,
          (
            subst (λ c. Accepts c p r.0 (held ns r.1)) same h,
            v',
            (
              n ∙ ap (λ (c : Ports ns). c.prio_queue_num) same,
              k ∙ ap (λ (c : Ports ns). c.wfq_queue_num) same,
              l ∙ ap (λ (c : Ports ns). c.limit) same,
            ),
          ),
        )

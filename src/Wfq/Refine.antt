-- ===== src/Wfq/Refine.antt =====
-- `WFQ::enque` keeps the promises of `Port.Backlog`.
use mq_ecn.Common.{
  ℕ, ◌+◌, ◌*◌, ◌≤◌, ◌<◌, ◌≡◌, refl, sym, ap, ◌∙◌, inl, inr, Bool, true, false, min, some, List,
  get_elem?, get_elem?-set_self, set, set-set, set_keeps, length, length-set, get_elem?-total,
  Result, ok, Returns, arith, ltb, ◌==◌, ◌&&◌, not, Bool-cases, ltb→lt, ltb→le, le→leb, if_ok,
  if_true, if_false,
}
use mq_ecn.Simulator.{Simulator}
use mq_ecn.Port.{
  Pkt, Fate, dropped, mark_enque, max_queue_num, latency_marking, mq_marking_gener, zero_double,
}
use mq_ecn.Port.Backlog.{
  Backlog, Enqueues, Enqueues-cong, mark_enque-Marked, view, bytes-view, put-JoinsAt,
  clamp_prio-Returns, total, set_get_self,
}
use mq_ecn.Wfq.{
  Slot, Wfq, total_byte_length, marking_ecn, marks, put, wake, start_timer, start_queue, admit,
  offer, enque,
}

module _ (ns : Simulator) where
  -- What the queues of `s` hold.
  abbrev pub held : Wfq ns → Backlog ns
  held s = view ns (λ (x : Slot ns). x.fifo) s.slots

  abbrev pub limit : Wfq ns → ℕ
  limit s = s.qlim * s.mean_pktsize

  -- The weight passes the test that `enque` and `deque` make of it.
  abbrev pub Weighs : ℕ → Slot ns → Type 0
  Weighs i x = ns.lt (zero_double ns) x.weight ≡ true

  pub record IsValid (s : Wfq ns) : Type 0 where
    pub slots_length : length s.slots ≡ max_queue_num
    pub some_queue : 0 < s.queue_num
    pub queue_num_in : s.queue_num ≤ max_queue_num
    pub weights : (i : ℕ) (x : Slot ns) → get_elem? s.slots i ≡ some x → Weighs i x

  pub total_byte_length-eq : (s : Wfq ns) → total_byte_length ns s ≡ total ns s.queue_num (held s)
  unfolding total_byte_length
  total_byte_length-eq s = bytes-view ns (λ (x : Slot ns). x.fifo) s.queue_num s.slots

  marking_ecn-ok :
      (s : Wfq ns) (i : ℕ)
      → length s.slots ≡ max_queue_num
      → s.queue_num ≤ max_queue_num
      → i < s.queue_num
      → (b : Bool) × (marking_ecn ns s i ≡ ok b)
  unfolding marking_ecn
  marking_ecn-ok s i e k h =
      let (x, g) = get_elem?-total s.slots i (omega arith) in
      (marks ns s x, rw (le→leb s.queue_num i h, g))

  -- A write to one queue that keeps a good weight.
  pub set-IsValid :
      (s : Wfq ns) (i : ℕ) (y : Slot ns) (c w : ns.Double)
      → IsValid s
      → Weighs i y
      → IsValid (record s { slots = set s.slots i y; curr_time = c; weight_sum = w })
  set-IsValid s i y c w v h = record {
    slots_length = length-set s.slots i y ∙ v.slots_length;
    some_queue = v.some_queue;
    queue_num_in = v.queue_num_in;
    weights = set_keeps Weighs s.slots i y v.weights h;
  }

  -- What `start_queue` makes of queue `i`, which held `x`.
  pub record Started (s : Wfq ns) (i : ℕ) (x : Slot ns) (r : Result (Wfq ns)) : Type 0 where
    pub y : Slot ns
    pub c : ns.Double
    pub w : ns.Double
    pub result : r ≡ ok (record s { slots = set s.slots i y; curr_time = c; weight_sum = w })
    pub fifo_same : y.fifo ≡ x.fifo
    pub weight_same : y.weight ≡ x.weight

  pub start_queue-Started :
      (s : Wfq ns) (i size : ℕ) (x : Slot ns)
      → get_elem? s.slots i ≡ some x
      → Weighs i x
      → Started s i x (start_queue ns s i size x)
  unfolding start_queue
  start_queue-Started s i size x g h = elim (Bool-cases (not (ns.packets x.fifo == 0))) [
    | inl busy ↦ record {
      y = x;
      c = s.curr_time;
      w = s.weight_sum;
      result =
          if_true _ _ _ busy
          ∙ ap (λ (l : List (Slot ns)). ok (record s { slots = l }))
              (sym (set_get_self s.slots i x g));
      fifo_same = refl;
      weight_same = refl;
    }
    | inr empty ↦ record {
      y = _;
      c = _;
      w = _;
      result = if_false _ _ _ empty ∙ if_true _ _ _ h;
      fifo_same = refl;
      weight_same = refl;
    }
  ]

  -- What `enque` promises of its result.
  abbrev pub EnqueuedWeighed : Wfq ns → Pkt ns → Fate × Wfq ns → Type 0
  EnqueuedWeighed s p r = Enqueues ns s.queue_num (limit s) p (held s) r.0 (held r.1) × IsValid r.1

  admit-EnqueuedWeighed :
      (s : Wfq ns) (now : ns.Double) (p : Pkt ns)
      → IsValid s
      → total ns s.queue_num (held s) + p.size ≤ limit s
      → Returns (EnqueuedWeighed s p) (admit ns s now p)
  unfolding admit
  admit-EnqueuedWeighed s now p v room =
      let (i, e, l) = clamp_prio-Returns s.queue_num p.prio v.some_queue in
      let h : i < length s.slots = omega (arith, v.slots_length, v.queue_num_in) in
      let (x, g) = get_elem?-total s.slots i h in
      let a = start_queue-Started s i p.size x g (v.weights i x g) in
      let (m, em) =
        marking_ecn-ok
          (record s {
            slots = set (set s.slots i a.y) i (put ns a.y p);
            curr_time = a.c;
            weight_sum = a.w;
          })
          i (length-set _ i (put ns a.y p) ∙ length-set s.slots i a.y ∙ v.slots_length)
          v.queue_num_in l in
      let (must, et) = if_ok (not (s.marking_scheme == latency_marking)) _ false m em in
      let q = mark_enque ns s.marking_scheme true now must p in
      let like = mark_enque-Marked ns s.marking_scheme true now must p in
      rw
        (
          e,
          g,
          a.result,
          get_elem?-set_self s.slots i a.y h,
          et,
          set-set s.slots i a.y (put ns a.y q),
        )
        (
          _,
          refl,
          (
            inr (
              refl,
              room,
              (
                i,
                put-JoinsAt ns (λ (x : Slot ns). x.fifo) s.queue_num s.slots i x (put ns a.y q) p q
                    l g (ap (ns.enque q) a.fifo_same) like,
              ),
            ),
            set-IsValid s i (put ns a.y q) a.c a.w v
                (ap (ns.lt (zero_double ns)) a.weight_same ∙ v.weights i x g),
          ),
        )

  offer-EnqueuedWeighed :
      (s : Wfq ns) (now : ns.Double) (p : Pkt ns)
      → IsValid s
      → Returns (EnqueuedWeighed s p) (offer ns s now p)
  unfolding offer
  offer-EnqueuedWeighed s now p v =
      let t = total_byte_length-eq s in
      elim (Bool-cases (ltb (limit s) (total_byte_length ns s + p.size))) [
        | inl full ↦
            rw full ((dropped, s), refl, (inl (refl, omega (arith, t, ltb→lt _ _ full), refl), v))
        | inr room ↦ rw room (admit-EnqueuedWeighed s now p v (omega (arith, t, ltb→le _ _ room)))
      ]

  -- A state that differs only in times, estimates and the timer.
  pub record Same (s t : Wfq ns) : Type 0 where
    pub same_slots : t.slots ≡ s.slots
    pub same_num : t.queue_num ≡ s.queue_num
    pub same_limit : limit t ≡ limit s

  pub Same-IsValid : (s t : Wfq ns) → Same s t → IsValid s → IsValid t
  Same-IsValid s t m v = record {
    slots_length = ap length m.same_slots ∙ v.slots_length;
    some_queue = rw m.same_num v.some_queue;
    queue_num_in = rw m.same_num v.queue_num_in;
    weights = λ i x g. v.weights i x (ap (λ l. get_elem? l i) (sym m.same_slots) ∙ g);
  }

  pub start_timer-Same : (s : Wfq ns) → Same s (start_timer ns s)
  unfolding start_timer
  start_timer-Same s = elim (Bool-cases s.init) [
    | inl old ↦ rw old (record { same_slots = refl; same_num = refl; same_limit = refl })
    | inr new ↦ rw new (record { same_slots = refl; same_num = refl; same_limit = refl })
  ]

  pub wake-Same : (s : Wfq ns) (now : ns.Double) → Same s (wake ns s now)
  unfolding wake
  wake-Same s now =
      elim (Bool-cases (
        total_byte_length ns s == 0
        && s.marking_scheme == mq_marking_gener
        && not s.estimate_weight_enable_timer)) [
          | inl idle ↦ rw idle (record { same_slots = refl; same_num = refl; same_limit = refl })
          | inr busy ↦ rw busy (record { same_slots = refl; same_num = refl; same_limit = refl })
        ]

  -- In a valid WFQ state (positive weights) `enque` returns without an exit. The packet is
  -- dropped, and the queues keep what they hold, exactly if the bytes held and its own exceed
  -- `qlim * mean_pktsize`; else it becomes the newest packet of one of the first `queue_num`
  -- queues, changed in its congestion mark and time stamp at most and marked only if it is
  -- ECN-capable. The state stays valid.
  pub enque-EnqueuedWeighed :
      (s : Wfq ns) (now : ns.Double) (p : Pkt ns)
      → IsValid s
      → Returns (EnqueuedWeighed s p) (enque ns s now p)
  unfolding enque
  enque-EnqueuedWeighed s now p v =
      let e : min s.queue_num max_queue_num ≡ s.queue_num = omega (arith, v.queue_num_in) in
      let t = start_timer ns s in
      let m = start_timer-Same s in
      let m' = wake-Same t now in
      let (r, o, (h, v')) =
        offer-EnqueuedWeighed (wake ns t now) now p (Same-IsValid t _ m' (Same-IsValid s t m v)) in
      rw e (
        r,
        o,
        (
          Enqueues-cong ns _ _ _ _ _ _ p r.0 (held r.1) (m'.same_num ∙ m.same_num)
              (m'.same_limit ∙ m.same_limit)
              (ap (view ns (λ (x : Slot ns). x.fifo)) (m'.same_slots ∙ m.same_slots)) h,
          v',
        ),
      )

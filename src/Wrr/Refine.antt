-- ===== src/Wrr/Refine.antt =====
-- `WRR::enque` keeps the promises of `Port.Backlog`.
use mq_ecn.Common.{
  ℕ, zero, suc, ◌+◌, ◌*◌, ◌≤◌, ◌<◌, ◌≡◌, refl, ap, subst, ◌∙◌, inl, inr, ◌≢◌, Bool, true, false,
  min, some, List, [], ◌∷◌, get_elem?, set, set_keeps, length, length-set, get_elem?-total, ok,
  Returns, arith, ltb, ◌==◌, not, Bool-cases, ltb→lt, ltb→le, le→leb, if_ok,
}
use mq_ecn.Simulator.{Simulator}
use mq_ecn.Port.{Pkt, Fate, queued, dropped, mark_enque, max_queue_num, latency_marking}
use mq_ecn.Port.Backlog.{
  Backlog, Enqueues, Enqueues-cong, mark_enque-Marked, view, bytes-view, put-JoinsAt,
  clamp_prio-Returns, total,
}
use mq_ecn.Wrr.{
  Slot, Wrr, total_byte_length, marking_ecn, marks, put, wake, reset_start, admit, offer, enque,
}

module _ (ns : Simulator) where
  -- What the queues of `s` hold.
  abbrev pub held : Wrr ns → Backlog ns
  held s = view ns (λ (x : Slot ns). x.fifo) s.slots

  abbrev pub limit : Wrr ns → ℕ
  limit s = s.qlim * s.mean_pktsize

  -- Only the queue that is served keeps a counter of this round.
  abbrev pub Waits : ℕ → ℕ → Slot ns → Type 0
  Waits current i x = i ≢ current → x.counter_updated ≡ false

  pub record IsValid (s : Wrr ns) : Type 0 where
    pub slots_length : length s.slots ≡ max_queue_num
    pub queue_num_in : s.queue_num ≤ max_queue_num
    pub current_in : s.current < s.queue_num
    pub others_wait : (i : ℕ) (x : Slot ns) → get_elem? s.slots i ≡ some x → Waits s.current i x

  pub total_byte_length-eq : (s : Wrr ns) → total_byte_length ns s ≡ total ns s.queue_num (held s)
  unfolding total_byte_length
  total_byte_length-eq s = bytes-view ns (λ (x : Slot ns). x.fifo) s.queue_num s.slots

  view-reset_start :
      (now : ns.Double) (n : ℕ) (xs : List (Slot ns))
      → view ns (λ (x : Slot ns). x.fifo) (reset_start ns now n xs)
        ≡ view ns (λ (x : Slot ns). x.fifo) xs
  unfolding reset_start
  view-reset_start now zero xs = refl
  view-reset_start now (suc n) [] = refl
  view-reset_start now (suc n) (x ∷ xs) = rw (view-reset_start now n xs)

  length-reset_start :
      (now : ns.Double) (n : ℕ) (xs : List (Slot ns)) → length (reset_start ns now n xs) ≡ length xs
  unfolding reset_start
  length-reset_start now zero xs = refl
  length-reset_start now (suc n) [] = refl
  length-reset_start now (suc n) (x ∷ xs) = ap suc (length-reset_start now n xs)

  reset_start-Waits :
      (now : ns.Double) (P : ℕ → Bool → Type 0) (n : ℕ) (xs : List (Slot ns))
      → ((i : ℕ) (x : Slot ns) → get_elem? xs i ≡ some x → P i x.counter_updated)
      → (i : ℕ) (x : Slot ns) → get_elem? (reset_start ns now n xs) i ≡ some x
      → P i x.counter_updated
  unfolding reset_start
  reset_start-Waits now P zero xs h i x e = h i x e
  reset_start-Waits now P (suc n) [] h i x e = h i x e
  reset_start-Waits now P (suc n) (y ∷ ys) h zero x e =
      let q : y.counter_updated ≡ x.counter_updated = ground arith in
      subst (P zero) q (h zero y refl)
  reset_start-Waits now P (suc n) (y ∷ ys) h (suc i) x e =
      reset_start-Waits now (λ j b. P (suc j) b) n ys (λ j z. h (suc j) z) i x e

  marking_ecn-ok :
      (s : Wrr ns) (i : ℕ)
      → length s.slots ≡ max_queue_num
      → s.queue_num ≤ max_queue_num
      → i < s.queue_num
      → (b : Bool) × (marking_ecn ns s i ≡ ok b)
  unfolding marking_ecn
  marking_ecn-ok s i e k h =
      let (x, g) = get_elem?-total s.slots i (omega arith) in
      (marks ns s x, rw (le→leb s.queue_num i h, g))

  put-IsValid :
      (s : Wrr ns) (i : ℕ) (x : Slot ns) (q : Pkt ns)
      → IsValid s
      → get_elem? s.slots i ≡ some x
      → IsValid (record s { slots = set s.slots i (put ns x q) })
  put-IsValid s i x q v g = record {
    slots_length = length-set s.slots i (put ns x q) ∙ v.slots_length;
    queue_num_in = v.queue_num_in;
    current_in = v.current_in;
    others_wait =
        set_keeps (Waits s.current) s.slots i (put ns x q) v.others_wait (v.others_wait i x g);
  }

  -- What `enque` promises of its result.
  abbrev pub EnqueuedInTurn : Wrr ns → Pkt ns → Fate × Wrr ns → Type 0
  EnqueuedInTurn s p r = Enqueues ns s.queue_num (limit s) p (held s) r.0 (held r.1) × IsValid r.1

  admit-EnqueuedInTurn :
      (s : Wrr ns) (now : ns.Double) (p : Pkt ns)
      → IsValid s
      → total ns s.queue_num (held s) + p.size ≤ limit s
      → Returns (EnqueuedInTurn s p) (admit ns s now p)
  unfolding admit
  admit-EnqueuedInTurn s now p v room =
      let (i, e, l) = clamp_prio-Returns s.queue_num p.prio (omega (arith, v.current_in)) in
      let (x, g) = get_elem?-total s.slots i (omega (arith, v.slots_length, v.queue_num_in)) in
      let (m, em) =
        marking_ecn-ok (record s { slots = set s.slots i (put ns x p) }) i
          (length-set s.slots i (put ns x p) ∙ v.slots_length) v.queue_num_in l in
      let (must, et) = if_ok (not (s.marking_scheme == latency_marking)) _ false m em in
      let q = mark_enque ns s.marking_scheme true now must p in
      let like = mark_enque-Marked ns s.marking_scheme true now must p in
      rw (e, g, et)
        (
          (queued, record s { slots = set s.slots i (put ns x q) }),
          refl,
          (
            inr (
              refl,
              room,
              (
                i,
                put-JoinsAt ns (λ (x : Slot ns). x.fifo) s.queue_num s.slots i x (put ns x q) p q l
                    g refl like,
              ),
            ),
            put-IsValid s i x q v g,
          ),
        )

  offer-EnqueuedInTurn :
      (s : Wrr ns) (now : ns.Double) (p : Pkt ns)
      → IsValid s
      → Returns (EnqueuedInTurn s p) (offer ns s now p)
  unfolding offer
  offer-EnqueuedInTurn s now p v =
      let t = total_byte_length-eq s in
      elim (Bool-cases (ltb (limit s) (total_byte_length ns s + p.size))) [
        | inl full ↦
            rw full ((dropped, s), refl, (inl (refl, omega (arith, t, ltb→lt _ _ full), refl), v))
        | inr room ↦ rw room (admit-EnqueuedInTurn s now p v (omega (arith, t, ltb→le _ _ room)))
      ]

  -- `wake` touches only the times.
  pub record Woken (s t : Wrr ns) : Type 0 where
    pub same_held : held t ≡ held s
    pub same_num : t.queue_num ≡ s.queue_num
    pub same_limit : limit t ≡ limit s
    pub valid : IsValid t

  pub wake-Woken : (s : Wrr ns) (now : ns.Double) → IsValid s → Woken s (wake ns s now)
  unfolding wake
  wake-Woken s now v = elim (Bool-cases (total_byte_length ns s == 0)) [
    | inr busy ↦
        rw busy (record { same_held = refl; same_num = refl; same_limit = refl; valid = v })
    | inl idle ↦ rw idle (record {
      same_held = view-reset_start now s.queue_num s.slots;
      same_num = refl;
      same_limit = refl;
      valid = record {
        slots_length = length-reset_start now s.queue_num s.slots ∙ v.slots_length;
        queue_num_in = v.queue_num_in;
        current_in = v.current_in;
        others_wait =
            reset_start-Waits now (λ i b. i ≢ s.current → b ≡ false) s.queue_num s.slots
              v.others_wait;
      };
    })
  ]

  -- In a valid WRR state `enque` returns without an exit. The packet is dropped, and the
  -- queues keep what they hold, exactly if the bytes held and its own exceed `qlim *
  -- mean_pktsize`; else it becomes the newest packet of one of the first `queue_num` queues,
  -- changed in its congestion mark and time stamp at most and marked only if it is
  -- ECN-capable. The state stays valid.
  pub enque-EnqueuedInTurn :
      (s : Wrr ns) (now : ns.Double) (p : Pkt ns)
      → IsValid s
      → Returns (EnqueuedInTurn s p) (enque ns s now p)
  unfolding enque
  enque-EnqueuedInTurn s now p v =
      let e : min s.queue_num max_queue_num ≡ s.queue_num = omega (arith, v.queue_num_in) in
      let w = wake-Woken s now v in
      let (r, o, (h, v')) = offer-EnqueuedInTurn (wake ns s now) now p w.valid in
      rw e (
        r,
        o,
        (Enqueues-cong ns _ _ _ _ _ _ p r.0 (held r.1) w.same_num w.same_limit w.same_held h, v'),
      )

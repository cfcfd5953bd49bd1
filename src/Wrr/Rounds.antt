-- ===== src/Wrr/Rounds.antt =====
-- The loop of `WRR::deque`: when it sends a packet.
use native.Mathlib.Nat.{mod-add-mod, mod-eq_of_lt, add-mod_right}
use native.Mathlib.Decide.{ℕ_discrete}
use mq_ecn.Common.{
  ℕ, zero, suc, ◌+◌, ◌-◌, ◌%◌, ◌≤◌, ◌<◌, ◌≡◌, refl, sym, ap, subst, ◌∙◌, inl, inr, true, Option,
  none, some, get_elem?, ok, Returns, arith, ltb, leb, ◌==◌, Bool-cases, ltb→lt, ltb→le, lt→ltb,
}
use mq_ecn.Simulator.{Simulator}
use mq_ecn.Port.{Pkt}
use mq_ecn.Port.Backlog.{Dequeues, Takes, contents_of_packets}
use mq_ecn.Wrr.{Slot, Wrr, total_byte_length}
use mq_ecn.Wrr.Deque.{moved, refresh, visit, turn, loop, settle, deque}
use mq_ecn.Wrr.Refine.{held, IsValid, total_byte_length-eq}
use mq_ecn.Wrr.Turns.{Sends, Moved, next-lt, IsFresh, serve-Sends, refresh-same, turn-cases}

module _ (ns : Simulator) where
  le→leb_true : (a b : ℕ) → a ≤ b → leb a b ≡ true
  le→leb_true a b h = ground arith

  -- Queue `i` can send in one round of its quantum.
  abbrev pub Ready : Wrr ns → ℕ → Type 0
  Ready s i =
      (x : Slot ns) × (p : Pkt ns) × (get_elem? s.slots i ≡ some x)
      × (ns.head x.fifo ≡ some p)
      × (p.size ≤ x.quantum)

  packets_of_head : (f : ns.Queue) (p : Pkt ns) → ns.head f ≡ some p → 0 < ns.packets f
  packets_of_head f p e = elim (Bool-cases (ltb 0 (ns.packets f))) [
    | inl busy ↦ ltb→lt _ _ busy
    | inr empty ↦ cc (ns.head-eq f, contents_of_packets ns f (ltb→le _ _ empty))
  ]

  turn-Sends :
      (s : Wrr ns) (now : ns.Double)
      → IsValid ns s
      → IsFresh ns s.slots
      → Ready s s.current
      → Returns (Sends ns s) (turn ns s now)
  unfolding turn visit
  turn-Sends s now v fresh (x, p, g, e, l) =
      let (f, _, c) = refresh-same ns x in
      let h = packets_of_head x.fifo p e in
      let h' : 0 < ns.packets (refresh ns x).fifo = subst (λ k. 0 < ns.packets k) (sym f) h in
      let (t, r, a) = serve-Sends ns s now x (refresh ns x) v g f h' in
      let fits : leb p.size (refresh ns x).counter ≡ true =
        le→leb_true _ _ (omega (arith, c (fresh s.current x g))) in
      rw (g, lt→ltb _ _ h, ap ns.head f ∙ e, fits, r) (t, refl, a)

  Ready-Moved : (s s' : Wrr ns) (i : ℕ) → Moved ns s s' → Ready s i → Ready s' i
  Ready-Moved s s' i m (x, p, g, e, l) = elim (ℕ_discrete i s.current) [
    | no ne ↦ (x, p, m.others i ne ∙ g, e, l)
    | yes same ↦
        let (y, h, f, q) = m.quanta x (subst (λ k. get_elem? s.slots k ≡ some x) same g) in
        (
          y,
          p,
          subst (λ k. get_elem? s'.slots k ≡ some y) (sym same) h,
          ap ns.head f ∙ e,
          omega arith,
        )
  ]

  -- What the loop makes of `s`.
  abbrev Took : Wrr ns → Pkt ns × Wrr ns → Type 0
  Took s r =
      Takes ns s.queue_num (held ns s) r.0 (held ns r.1)
      × IsValid ns r.1
      × (r.1.queue_num ≡ s.queue_num)

  Took-Moved : (s s' : Wrr ns) (r : Pkt ns × Wrr ns) → Moved ns s s' → Took s' r → Took s r
  Took-Moved s s' r m (t, v, n) = (rw (← m.same_held, ← m.same_num) t, v, n ∙ m.same_num)

  loop-sent :
      (fuel : ℕ) (s : Wrr ns) (now : ns.Double)
      → Returns (Sends ns s) (turn ns s now)
      → Returns (Took s) (loop ns (suc fuel) s now)
  unfolding loop
  loop-sent fuel s now (t, r, a) =
      rw (r, a.is_sent) ((a.p, a.s'), refl, ((s.current, a.takes), a.valid, a.same_num))

  loop-moved :
      (fuel : ℕ) (s s' : Wrr ns) (now : ns.Double)
      → turn ns s now ≡ ok (moved s')
      → Moved ns s s'
      → Returns (Took s') (loop ns fuel s' now)
      → Returns (Took s) (loop ns (suc fuel) s now)
  unfolding loop
  loop-moved fuel s s' now e m (r, o, t) = rw (e, o) (r, refl, Took-Moved s s' r m t)

  loop-fresh :
      (k fuel : ℕ) (s : Wrr ns) (now : ns.Double) (i : ℕ)
      → IsValid ns s
      → IsFresh ns s.slots
      → Ready s i
      → (s.current + k) % s.queue_num ≡ i
      → k < fuel
      → Returns (Took s) (loop ns fuel s now)
  loop-fresh k zero s now i v fresh ready at h = absurd (omega arith)
  loop-fresh zero (suc fuel) s now i v fresh ready at h =
      let here : i ≡ s.current =
        sym at ∙ mod-eq_of_lt {n = s.current + 0} (omega (arith, v.current_in)) ∙ omega arith in
      loop-sent fuel s now (turn-Sends s now v fresh (subst (Ready s) here ready))
  loop-fresh (suc k) (suc fuel) s now i v fresh ready at h =
      let (t, r, c) = turn-cases ns s now v in
      elim c [
        | inl a ↦ loop-sent fuel s now (t, r, a)
        | inr (s', e, m) ↦ loop-moved fuel s s' now (r ∙ ap ok e) m (
            loop-fresh k fuel s' now i m.valid m.fresh (Ready-Moved s s' i m ready)
              (rw (m.is_next, m.same_num, mod-add-mod)
                (ap (λ j. j % s.queue_num) (omega arith) ∙ at))
              (omega arith))
      ]

  -- The number of queues from `c` on to `i`, going round.
  rounds_to : (n c i : ℕ) → c < n → i < n → (k : ℕ) × (k < n) × ((c + k) % n ≡ i)
  rounds_to n c i hc hi = elim (Bool-cases (ltb i c)) [
    | inr h ↦ (
      i - c,
      omega (arith, ltb→le _ _ h),
      ap (λ j. j % n) (omega (arith, ltb→le _ _ h)) ∙ mod-eq_of_lt hi,
    )
    | inl h ↦ (
      i + n - c,
      omega (arith, ltb→lt _ _ h),
      ap (λ j. j % n) (omega (arith, ltb→lt _ _ h)) ∙ add-mod_right i n ∙ mod-eq_of_lt hi,
    )
  ]

  settle-same :
      (s : Wrr ns) (now : ns.Double)
      → IsValid ns s
      → (held ns (settle ns s now) ≡ held ns s) × IsValid ns (settle ns s now)
  unfolding settle
  settle-same s now v = elim (Bool-cases (total_byte_length ns s == 0)) [
    | inr busy ↦ rw busy (refl, v)
    | inl idle ↦ rw idle (
      refl,
      record {
        slots_length = v.slots_length;
        queue_num_in = v.queue_num_in;
        current_in = v.current_in;
        others_wait = v.others_wait;
      },
    )
  ]

  loop-Took :
      (s : Wrr ns) (now : ns.Double) (i : ℕ)
      → IsValid ns s
      → i < s.queue_num
      → Ready s i
      → Returns (Took s) (loop ns (suc s.queue_num) s now)
  loop-Took s now i v l ready =
      let (t, r, c) = turn-cases ns s now v in
      elim c [
        | inl a ↦ loop-sent s.queue_num s now (t, r, a)
        | inr (s', e, m) ↦
            let (k, hk, at) =
              rounds_to s.queue_num s'.current i (rw m.is_next (next-lt ns s v)) l in
            loop-moved s.queue_num s s' now (r ∙ ap ok e) m (
              loop-fresh k s.queue_num s' now i m.valid m.fresh (Ready-Moved s s' i m ready)
                (rw m.same_num at) hk)
      ]

  -- What `deque` promises of its result.
  abbrev pub DequeuedInTurn : Wrr ns → Option (Pkt ns) × Wrr ns → Type 0
  DequeuedInTurn s r = Dequeues ns s.queue_num (held ns s) r.0 (held ns r.1) × IsValid ns r.1

  -- In a valid WRR state in which one of the first `queue_num` queues has a head packet no
  -- larger than its quantum, `deque` returns within one visit of each queue and one visit
  -- more: it returns the oldest packet of one of these queues exactly if they hold a byte,
  -- changed in its congestion mark and time stamp at most, the other queues keep theirs, and
  -- the state stays valid.
  pub deque-DequeuedInTurn :
      (s : Wrr ns) (now : ns.Double) (i : ℕ)
      → IsValid ns s
      → i < s.queue_num
      → Ready s i
      → Returns (DequeuedInTurn s) (deque ns s now)
  unfolding deque
  deque-DequeuedInTurn s now i v l ready =
      let t = total_byte_length-eq ns s in
      let e : s.queue_num + 1 ≡ suc s.queue_num = omega arith in
      elim (Bool-cases (ltb 0 (total_byte_length ns s))) [
        | inr idle ↦
            let (h, v') = settle-same s now v in
            rw idle (
              (none, settle ns s now),
              refl,
              (inl (omega (arith, t, ltb→le _ _ idle), refl, h), v'),
            )
        | inl busy ↦
            let (r, o, (takes, v', n)) = loop-Took s now i v l ready in
            let (h, v'') = settle-same r.1 now v' in
            rw (busy, e, o)
              (
                (some r.0, settle ns r.1 now),
                refl,
                (inr (r.0, omega (arith, t, ltb→lt _ _ busy), refl, rw h takes), v''),
              )
      ]

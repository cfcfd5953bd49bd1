-- ===== src/Dwrr/Rounds.antt =====
-- The loop of `DWRR::deque` always ends, and what `deque` returns.
use mq_ecn.Common.{
  Bool, true, false, if◌then◌else◌, ℕ, zero, suc, ◌<◌, ◌≡◌, refl, sym, ap, subst, ◌∙◌, ◌⊎◌, inl,
  inr, Option, none, some, List, [], ◌∷◌, sum_first, sum_first-pos, Returns, arith, ltb, ◌==◌,
  Bool-cases, ltb→lt, ltb→le,
}
use mq_ecn.Simulator.{Simulator, bytes_of}
use mq_ecn.Port.{Pkt}
use mq_ecn.Port.Backlog.{Dequeues, Takes, total, view, bytes-view}
use mq_ecn.Dwrr.{Slot, Dwrr, total_byte_length, slot_bytes}
use mq_ecn.Dwrr.Deque.{turn, loop, need, rounds, estimate_due, update_estimate, settle, deque}
use mq_ecn.Dwrr.Invariant.{limit, SameShape, held, core, total_byte_length-eq, Core, IsValid, Valid}
use mq_ecn.Dwrr.Turns.{Sends, Moves, turn-cases}

module _ (ns : Simulator) where
  -- What the loop makes of `s`.
  abbrev pub Took : Dwrr ns → Pkt ns × Dwrr ns → Type 0
  Took s r = Takes ns s.queue_num (held ns s) r.0 (held ns r.1) × Valid ns r.1 × SameShape ns s r.1

  -- A port with a byte has an active queue.
  some_active :
      (s : Dwrr ns) (ids : List ℕ)
      → IsValid ns (core ns s) ids
      → 0 < total ns s.queue_num (held ns s)
      → (i : ℕ) × (is : List ℕ) × (ids ≡ i ∷ is)
  some_active s (i ∷ is) v h = (i, is, refl)
  some_active s [] v h =
      let e = bytes-view ns (λ (x : Slot ns). x.fifo) s.queue_num s.slots in
      let (i, x, g, l, p) = sum_first-pos (slot_bytes ns) s.queue_num s.slots (omega (arith, e)) in
      absurd (omega (arith, ns.bytes-eq x.fifo, ap bytes_of ((v.tells i x g).idle refl)))

  turn-total :
      (s : Dwrr ns) (now : ns.Double) (ids : List ℕ)
      → IsValid ns (core ns s) ids
      → 0 < total ns s.queue_num (held ns s)
      → Returns (λ t. Sends ns s t ⊎ Moves ns s t) (turn ns s now)
  turn-total s now ids v h =
      let (i, is, e) = some_active s ids v h in
      turn-cases ns s now i is (subst (IsValid ns (core ns s)) e v)

  -- More fuel than the needs of all queues together is enough.
  pub loop-Took :
      (fuel : ℕ) (s : Dwrr ns) (now : ns.Double) (ids : List ℕ)
      → IsValid ns (core ns s) ids
      → 0 < total ns s.queue_num (held ns s)
      → sum_first (need ns) s.queue_num s.slots < fuel
      → Returns (Took s) (loop ns fuel s now)
  unfolding loop
  loop-Took zero s now ids v h l = absurd (omega arith)
  loop-Took (suc fuel) s now ids v h l =
      let (t, e, c) = turn-total s now ids v h in
      elim c [
        | inl a ↦
            rw (e, a.is_sent) ((a.p, a.s'), refl, (a.takes, a.valid, (a.same_num, a.same_limit)))
        | inr m ↦
            let (r, o, (takes, v', (n, k))) =
              loop-Took fuel m.s' now m.valid.0 m.valid.1 (rw (m.same_held, m.same_num) h)
                (omega (arith, m.nearer, rounds_same m.s' s m.same_num)) in
            rw (e, m.is_moved, o)
              (
                r,
                refl,
                (rw (← m.same_held, ← m.same_num) takes, v', (n ∙ m.same_num, k ∙ m.same_limit)),
              )
      ]
    where
      rounds_same :
          (a b : Dwrr ns)
          → a.queue_num ≡ b.queue_num
          → sum_first (need ns) a.queue_num a.slots ≡ sum_first (need ns) b.queue_num a.slots
      rounds_same a b e = ap (λ k. sum_first (need ns) k a.slots) e

  pub update_estimate-same :
      (s : Dwrr ns) (now : ns.Double) → core ns (update_estimate ns s now) ≡ core ns s
  unfolding update_estimate
  update_estimate-same s now = elim (Bool-cases (estimate_due ns s now)) [
    | inl due ↦ rw due
    | inr early ↦ rw early
  ]

  settle-same : (s : Dwrr ns) (now : ns.Double) → core ns (settle ns s now) ≡ core ns s
  unfolding settle
  settle-same s now =
      let t = update_estimate ns s now in
      elim (Bool-cases (total_byte_length ns t == 0)) [
        | inl idle ↦ rw idle (update_estimate-same s now)
        | inr busy ↦ rw busy (update_estimate-same s now)
      ]

  limit-if :
      (s t : Dwrr ns) (b : Bool) (now : ns.Double)
      → limit ns t ≡ limit ns s
      → limit ns (if b then record t { last_idle_time = now } else t) ≡ limit ns s
  limit-if s t true now e = e
  limit-if s t false now e = e

  settle-limit : (s : Dwrr ns) (now : ns.Double) → limit ns (settle ns s now) ≡ limit ns s
  unfolding settle update_estimate
  settle-limit s now = elim (Bool-cases (estimate_due ns s now)) [
    | inl due ↦ rw due (limit-if s _ _ now refl)
    | inr early ↦ rw early (limit-if s _ _ now refl)
  ]

  -- What `deque` promises of its result.
  abbrev pub DequeuedListed : Dwrr ns → Option (Pkt ns) × Dwrr ns → Type 0
  DequeuedListed s r =
      Dequeues ns s.queue_num (held ns s) r.0 (held ns r.1) × Valid ns r.1 × SameShape ns s r.1

  settled :
      (s : Dwrr ns) (now : ns.Double)
      → Valid ns s
      → (held ns (settle ns s now) ≡ held ns s)
        × Valid ns (settle ns s now)
        × SameShape ns s (settle ns s now)
  settled s now (ids, v) =
      let e = settle-same s now in
      (
        ap (λ (k : Core ns). view ns (λ (x : Slot ns). x.fifo) k.slots) e,
        (ids, subst (λ k. IsValid ns k ids) (sym e) v),
        (ap (λ (k : Core ns). k.queue_num) e, settle-limit s now),
      )

  -- In a valid DWRR state `deque` returns, within the fuel that it takes and never through a
  -- null pointer or out of an array. Without a byte in the first `queue_num` queues it
  -- returns no packet and the queues keep what they hold; with one it returns the oldest
  -- packet of one of these queues, changed in its congestion mark and time stamp at most, and
  -- the other queues keep theirs. The state it leaves is valid: the active list holds exactly
  -- the queues with packets, each once, and `quantum_sum` is the sum of their quanta. The
  -- number of queues and the size of the buffer are kept.
  pub deque-DequeuedListed :
      (s : Dwrr ns) (now : ns.Double) → Valid ns s → Returns (DequeuedListed s) (deque ns s now)
  unfolding deque rounds
  deque-DequeuedListed s now (ids, v) =
      let t = total_byte_length-eq ns s in
      elim (Bool-cases (ltb 0 (total_byte_length ns s))) [
        | inr idle ↦
            let (h, v', k) = settled s now (ids, v) in
            rw idle (
              (none, settle ns s now),
              refl,
              (inl (omega (arith, t, ltb→le _ _ idle), refl, h), v', k),
            )
        | inl busy ↦
            let pos : 0 < total ns s.queue_num (held ns s) = omega (arith, t, ltb→lt _ _ busy) in
            let (r, o, (takes, v', (n, l))) =
              loop-Took (suc (sum_first (need ns) s.queue_num s.slots)) s now ids v pos
                (omega arith) in
            let (h, v'', (n', l')) = settled r.1 now v' in
            rw (busy, o)
              (
                (some r.0, settle ns r.1 now),
                refl,
                (inr (r.0, pos, refl, rw h takes), v'', (n' ∙ n, l' ∙ l)),
              )
      ]

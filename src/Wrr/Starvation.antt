-- ===== src/Wrr/Starvation.antt =====
-- The loop of `WRR::deque`: when it never ends.
use native.Mathlib.Decide.{ℕ_discrete}
use mq_ecn.Common.{
  ℕ, zero, suc, ◌<◌, ◌≡◌, refl, sym, ap, subst, ◌∙◌, inl, inr, false, some, get_elem?,
  get_elem?-total, stuck, Returns, arith, ltb, leb, Bool-cases, ltb→lt, le→leb,
}
use mq_ecn.Simulator.{Simulator}
use mq_ecn.Port.{Pkt}
use mq_ecn.Port.Backlog.{deque-total}
use mq_ecn.Wrr.{Slot, Wrr}
use mq_ecn.Wrr.Deque.{refresh, visit, turn, loop}
use mq_ecn.Wrr.Refine.{IsValid}
use mq_ecn.Wrr.Turns.{Moved, IsFresh, Moves, pass-Moves, skip-Moves, refresh-same}

module _ (ns : Simulator) where
  -- Every head packet is larger than the quantum of its queue.
  abbrev pub Starved : Wrr ns → Type 0
  Starved s =
      (i : ℕ) (x : Slot ns) (p : Pkt ns)
      → get_elem? s.slots i ≡ some x
      → ns.head x.fifo ≡ some p
      → x.quantum < p.size

  turn-Starved :
      (s : Wrr ns) (now : ns.Double)
      → IsValid ns s
      → IsFresh ns s.slots
      → Starved s
      → Returns (Moves ns s) (turn ns s now)
  unfolding turn visit
  turn-Starved s now v fresh starved =
      let (x, g) =
        get_elem?-total s.slots s.current
          (omega (arith, v.current_in, v.queue_num_in, v.slots_length)) in
      let (f, q, c) = refresh-same ns x in
      elim (Bool-cases (ltb 0 (ns.packets x.fifo))) [
        | inr empty ↦ rw (g, empty) (_, refl, skip-Moves ns s now x v g)
        | inl busy ↦
            let (p, _, e) = deque-total ns x.fifo (ltb→lt _ _ busy) in
            let short : leb p.size (refresh ns x).counter ≡ false =
              le→leb _ _ (omega (arith, c (fresh s.current x g), starved s.current x p g e)) in
            rw (g, busy, ap ns.head f ∙ e, short)
              (_, refl, pass-Moves ns s now x (refresh ns x) v g f q)
      ]

  Starved-Moved : (s s' : Wrr ns) → IsValid ns s → Moved ns s s' → Starved s → Starved s'
  Starved-Moved s s' v m starved i y p g e = elim (ℕ_discrete i s.current) [
    | no ne ↦ starved i y p (sym (m.others i ne) ∙ g) e
    | yes same ↦
        let (x, gx) =
          get_elem?-total s.slots s.current
            (omega (arith, v.current_in, v.queue_num_in, v.slots_length)) in
        let (z, h, f, q) = m.quanta x gx in
        let g' : get_elem? s'.slots s.current ≡ some y =
          subst (λ k. get_elem? s'.slots k ≡ some y) same g in
        let z_is : z ≡ y = cc in
        let e' : ns.head x.fifo ≡ some p =
          ap ns.head (sym f ∙ ap (λ (w : Slot ns). w.fifo) z_is) ∙ e in
        omega (arith, starved s.current x p gx e', q, ap (λ (w : Slot ns). w.quantum) z_is)
  ]

  -- In a valid WRR state in which no queue has begun its round and every head packet is
  -- larger than the quantum of its queue, the loop of `deque` has not ended after any number
  -- of visits: it sends nothing and never ends.
  pub loop-stuck :
      (fuel : ℕ) (s : Wrr ns) (now : ns.Double)
      → IsValid ns s
      → IsFresh ns s.slots
      → Starved s
      → loop ns fuel s now ≡ stuck
  unfolding loop
  loop-stuck zero s now v fresh starved = refl
  loop-stuck (suc fuel) s now v fresh starved =
      let (t, r, (s', e, m)) = turn-Starved s now v fresh starved in
      rw (r, e) (loop-stuck fuel s' now m.valid m.fresh (Starved-Moved s s' v m starved))

-- ===== src/Wrr/Ecn.antt =====
-- Which packets `WRR::enque` marks.
use mq_ecn.Common.{
  true, Bool-cases, inl, inr, ℕ, ◌+◌, ◌≤◌, ◌<◌, min, ◌≡◌, refl, ap, ◌∙◌, false, ◌&&◌, ◌||◌, some,
  get_elem?, get_elem?-set_self, get_elem?-total, set, length, ok, Returns, arith, ltb, ◌==◌,
  le→leb, le→ltb,
}
use mq_ecn.Simulator.{Simulator}
use mq_ecn.Port.{Pkt, Fate, queued, latency_marking, max_queue_num}
use mq_ecn.Port.Backlog.{mark_exact, clamp_prio-Returns, total}
use mq_ecn.Wrr.{Slot, Wrr, total_byte_length, marks, marking_ecn, put, wake, admit, offer, enque}
use mq_ecn.Wrr.Refine.{held, limit, IsValid, total_byte_length-eq, wake-Woken}

module _ (ns : Simulator) where
  -- The packet `q` is the newest of queue `i`, which held `x`, and is marked exactly if `p` was, or if
  -- `p` is ECN-capable and `MarkingECN` says so of the queue with the packet in it.
  pub record MarksWrr (s : Wrr ns) (p : Pkt ns) (r : Fate × Wrr ns) : Type 0 where
    pub i : ℕ
    pub x : Slot ns
    pub q : Pkt ns
    pub found : get_elem? s.slots i ≡ some x
    pub result : r ≡ (queued, record s { slots = set s.slots i (put ns x q) })
    pub marked :
        q.ce
        ≡ (p.ce || marks ns (record s { slots = set s.slots i (put ns x p) }) (put ns x p) && p.ect)

  marking_ecn-marks :
      (s : Wrr ns) (i : ℕ) (y : Slot ns)
      → i < s.queue_num
      → i < length s.slots
      → marking_ecn ns (record s { slots = set s.slots i y }) i
        ≡ ok (marks ns (record s { slots = set s.slots i y }) y)
  unfolding marking_ecn
  marking_ecn-marks s i y l h = rw (le→leb s.queue_num i l, get_elem?-set_self s.slots i y h)

  admit-MarksWrr :
      (s : Wrr ns) (now : ns.Double) (p : Pkt ns)
      → length s.slots ≡ max_queue_num
      → s.queue_num ≤ max_queue_num
      → 0 < s.queue_num
      → (s.marking_scheme == latency_marking) ≡ false
      → Returns (MarksWrr s p) (admit ns s now p)
  unfolding admit
  admit-MarksWrr s now p n k o e =
      let (i, c, l) = clamp_prio-Returns s.queue_num p.prio o in
      let h : i < length s.slots = omega arith in
      let (x, g) = get_elem?-total s.slots i h in
      rw (c, g, e, marking_ecn-marks s i (put ns x p) l h)
        (
          _,
          refl,
          record {
            i = i;
            x = x;
            q = _;
            found = g;
            result = refl;
            marked = mark_exact ns s.marking_scheme true now _ p e refl;
          },
        )

  wake-scheme : (s : Wrr ns) (now : ns.Double) → (wake ns s now).marking_scheme ≡ s.marking_scheme
  unfolding wake
  wake-scheme s now = elim (Bool-cases (total_byte_length ns s == 0)) [
    | inl idle ↦ rw idle
    | inr busy ↦ rw busy
  ]

  offer-MarksWrr :
      (s : Wrr ns) (now : ns.Double) (p : Pkt ns)
      → IsValid ns s
      → (s.marking_scheme == latency_marking) ≡ false
      → total ns s.queue_num (held ns s) + p.size ≤ limit ns s
      → Returns (MarksWrr s p) (offer ns s now p)
  unfolding offer
  offer-MarksWrr s now p v e room =
      let fits : ltb (limit ns s) (total_byte_length ns s + p.size) ≡ false =
        le→ltb _ _ (omega (arith, total_byte_length-eq ns s)) in
      rw fits (admit-MarksWrr s now p v.slots_length v.queue_num_in (omega (arith, v.current_in)) e)

  -- In a valid WRR state, under any scheme but LATENCY_MARKING and with room in the buffer
  -- for the packet, `enque` returns the state after the idle reset with one write: the packet
  -- is the newest of one queue, and it carries a congestion mark exactly if it came with one,
  -- or it is ECN-capable and `MarkingECN` holds of that queue with the packet in it.
  pub enque-MarksWrr :
      (s : Wrr ns) (now : ns.Double) (p : Pkt ns)
      → IsValid ns s
      → (s.marking_scheme == latency_marking) ≡ false
      → total ns s.queue_num (held ns s) + p.size ≤ limit ns s
      → Returns (MarksWrr (wake ns s now) p) (enque ns s now p)
  unfolding enque
  enque-MarksWrr s now p v e room =
      let n : min s.queue_num max_queue_num ≡ s.queue_num = omega (arith, v.queue_num_in) in
      let w = wake-Woken ns s now v in
      rw n (
        offer-MarksWrr (wake ns s now) now p w.valid
          (ap (λ k. k == latency_marking) (wake-scheme s now) ∙ e)
          (rw (w.same_held, w.same_num, w.same_limit) room))

-- ===== src/Priority/Ecn.antt =====
-- Which packets `Priority::enque` marks.
use mq_ecn.Common.{
  true, ℕ, ◌+◌, ◌≤◌, ◌<◌, ◌≡◌, refl, false, ◌&&◌, ◌||◌, some, get_elem?, get_elem?-set_self,
  get_elem?-total, set, length, ok, Returns, arith, ltb, ◌==◌, le→leb, le→ltb,
}
use mq_ecn.Simulator.{Simulator}
use mq_ecn.Port.{Pkt, Fate, queued, latency_marking, max_queue_num}
use mq_ecn.Port.Backlog.{mark_exact, clamp_prio-Returns, total}
use mq_ecn.Priority.{Slot, Priority, total_byte_length, marks, marking_ecn, put, admit, enque}
use mq_ecn.Priority.Refine.{held, limit, IsValid, total_byte_length-eq, clamp-eq}

module _ (ns : Simulator) where
  -- The packet `q` is the newest of queue `i`, which held `x`, and is marked exactly if `p` was, or if
  -- `p` is ECN-capable and `MarkingECN` says so of the queue with the packet in it.
  pub record MarksPriority (s : Priority ns) (p : Pkt ns) (r : Fate × Priority ns) : Type 0 where
    pub i : ℕ
    pub x : Slot ns
    pub q : Pkt ns
    pub found : get_elem? s.slots i ≡ some x
    pub result : r ≡ (queued, record s { slots = set s.slots i (put ns x q) })
    pub marked :
        q.ce
        ≡ (p.ce || marks ns (record s { slots = set s.slots i (put ns x p) }) (put ns x p) && p.ect)

  marking_ecn-marks :
      (s : Priority ns) (i : ℕ) (y : Slot ns)
      → i < s.queue_num
      → i < length s.slots
      → marking_ecn ns (record s { slots = set s.slots i y }) i
        ≡ ok (marks ns (record s { slots = set s.slots i y }) y)
  unfolding marking_ecn
  marking_ecn-marks s i y l h = rw (le→leb s.queue_num i l, get_elem?-set_self s.slots i y h)

  admit-MarksPriority :
      (s : Priority ns) (now : ns.Double) (p : Pkt ns)
      → length s.slots ≡ max_queue_num
      → s.queue_num ≤ max_queue_num
      → 0 < s.queue_num
      → (s.marking_scheme == latency_marking) ≡ false
      → Returns (MarksPriority s p) (admit ns s now p)
  unfolding admit
  admit-MarksPriority s now p n k o e =
      let (i, c, l) = clamp_prio-Returns s.queue_num p.prio o in
      let h : i < length s.slots = omega arith in
      let (x, g) = get_elem?-total s.slots i h in
      rw (c, g, e, marking_ecn-marks s i (put ns x p) l h)
        (
          _,
          refl,
          record {
            i = i;
            x = x;
            q = _;
            found = g;
            result = refl;
            marked = mark_exact ns s.marking_scheme true now _ p e refl;
          },
        )

  -- In a valid Priority state, under any scheme but LATENCY_MARKING and with room in the
  -- buffer for the packet, `enque` returns the state with one write: the packet is the newest
  -- of one queue, and it carries a congestion mark exactly if it came with one, or it is
  -- ECN-capable and `MarkingECN` holds of that queue with the packet in it.
  pub enque-MarksPriority :
      (s : Priority ns) (now : ns.Double) (p : Pkt ns)
      → IsValid ns s
      → (s.marking_scheme == latency_marking) ≡ false
      → total ns s.queue_num (held ns s) + p.size ≤ limit ns s
      → Returns (MarksPriority s p) (enque ns s now p)
  unfolding enque
  enque-MarksPriority s now p v e room =
      let fits : ltb (limit ns s) (total_byte_length ns s + p.size) ≡ false =
        le→ltb _ _ (omega (arith, total_byte_length-eq ns s v)) in
      rw (clamp-eq ns s v, fits)
        (admit-MarksPriority s now p v.slots_length v.queue_num_in v.some_queue e)

-- ===== src/Priority/Refine.antt =====
-- `Priority::enque` keeps the promises of `Port.Backlog`.
use mq_ecn.Common.{
  ℕ, ◌+◌, ◌*◌, ◌≤◌, ◌<◌, min, max, ◌≡◌, refl, ◌∙◌, inl, inr, Bool, true, false, some, get_elem?,
  set, length, length-set, length-replicate, get_elem?-total, Result, ok, Returns, arith, ltb, ◌==◌,
  not, Bool-cases, ltb→lt, ltb→le, if_ok, le→leb,
}
use mq_ecn.Simulator.{Simulator}
use mq_ecn.Port.{Pkt, Fate, queued, dropped, mark_enque, max_queue_num, latency_marking}
use mq_ecn.Port.Backlog.{
  Backlog, Enqueues, Marked, mark_enque-Marked, view, bytes-view, put-JoinsAt, Joins-total,
  clamp_prio-Returns, total,
}
use mq_ecn.Priority.{
  Slot, Priority, new_slot, new_priority, total_byte_length, marking_ecn, marks, put, admit, enque,
}

module _ (ns : Simulator) where
  -- What the queues of `s` hold.
  abbrev pub held : Priority ns → Backlog ns
  held s = view ns (λ (x : Slot ns). x.fifo) s.slots

  abbrev pub limit : Priority ns → ℕ
  limit s = s.qlim * s.mean_pktsize

  -- The number of queues and the buffer are those of `s`.
  abbrev pub SameShape : Priority ns → Priority ns → Type 0
  SameShape s t = (t.queue_num ≡ s.queue_num) × (limit t ≡ limit s)

  -- The array has its size, the number of queues is in range, and no byte waits beyond them.
  pub record IsValid (s : Priority ns) : Type 0 where
    pub slots_length : length s.slots ≡ max_queue_num
    pub some_queue : 0 < s.queue_num
    pub queue_num_in : s.queue_num ≤ max_queue_num
    pub none_beyond : total ns max_queue_num (held s) ≡ total ns s.queue_num (held s)

  pub new_priority-IsValid : (qlim : ℕ) → IsValid (new_priority ns qlim)
  unfolding new_priority
  new_priority-IsValid qlim = record {
    slots_length = length-replicate max_queue_num (new_slot ns);
    some_queue = omega arith;
    queue_num_in = omega arith;
    none_beyond = refl;
  }

  pub total_byte_length-eq :
      (s : Priority ns) → IsValid s → total_byte_length ns s ≡ total ns s.queue_num (held s)
  unfolding total_byte_length
  total_byte_length-eq s v =
      bytes-view ns (λ (x : Slot ns). x.fifo) max_queue_num s.slots ∙ v.none_beyond

  marking_ecn-ok :
      (s : Priority ns) (i : ℕ)
      → length s.slots ≡ max_queue_num
      → s.queue_num ≤ max_queue_num
      → i < s.queue_num
      → (b : Bool) × (marking_ecn ns s i ≡ ok b)
  unfolding marking_ecn
  marking_ecn-ok s i e k h =
      let (x, g) = get_elem?-total s.slots i (omega arith) in
      (marks ns s x, rw (le→leb s.queue_num i h, g))

  -- What `admit` does when it finds its queue.
  record Admitted (s : Priority ns) (p : Pkt ns) (r : Result (Fate × Priority ns)) : Type 0 where
    i : ℕ
    x : Slot ns
    q : Pkt ns
    bound : i < s.queue_num
    found : get_elem? s.slots i ≡ some x
    like : Marked ns p q
    result : r ≡ ok (queued, record s { slots = set s.slots i (put ns x q) })

  admit-Admitted :
      (s : Priority ns) (now : ns.Double) (p : Pkt ns) → IsValid s → Admitted s p (admit ns s now p)
  unfolding admit
  admit-Admitted s now p v =
      let (i, e, l) = clamp_prio-Returns s.queue_num p.prio v.some_queue in
      let (x, g) = get_elem?-total s.slots i (omega (arith, v.slots_length, v.queue_num_in)) in
      let (m, em) =
        marking_ecn-ok (record s { slots = set s.slots i (put ns x p) }) i
          (length-set s.slots i (put ns x p) ∙ v.slots_length) v.queue_num_in l in
      let (must, et) = if_ok (not (s.marking_scheme == latency_marking)) _ false m em in
      record {
        i = i;
        x = x;
        q = mark_enque ns s.marking_scheme true now must p;
        bound = l;
        found = g;
        like = mark_enque-Marked ns s.marking_scheme true now must p;
        result = rw (e, g, et);
      }

  pub clamp-eq : (s : Priority ns) → IsValid s → max (min s.queue_num max_queue_num) 1 ≡ s.queue_num
  clamp-eq s v = omega (arith, v.some_queue, v.queue_num_in)

  put-IsValid :
      (s : Priority ns) (p q : Pkt ns) (i : ℕ) (x : Slot ns)
      → IsValid s
      → i < s.queue_num
      → get_elem? s.slots i ≡ some x
      → Marked ns p q
      → IsValid (record s { slots = set s.slots i (put ns x q) })
  put-IsValid s p q i x v l g m = record {
    slots_length = length-set s.slots i (put ns x q) ∙ v.slots_length;
    some_queue = v.some_queue;
    queue_num_in = v.queue_num_in;
    none_beyond = omega (
      arith,
      v.none_beyond,
      Joins-total ns s.queue_num p _ _ (
        i,
        put-JoinsAt ns (λ (x : Slot ns). x.fifo) s.queue_num s.slots i x (put ns x q) p q l g refl
            m,
      ),
      Joins-total ns max_queue_num p _ _ (
        i,
        put-JoinsAt ns (λ (x : Slot ns). x.fifo) max_queue_num s.slots i x (put ns x q) p q
            (omega (arith, v.queue_num_in)) g refl m,
      ),
    );
  }

  -- What `enque` promises of its result.
  abbrev pub Enqueued : Priority ns → Pkt ns → Fate × Priority ns → Type 0
  Enqueued s p r =
      Enqueues ns s.queue_num (limit s) p (held s) r.0 (held r.1) × IsValid r.1 × SameShape s r.1

  -- In a valid Priority state `enque` returns without an exit. The packet is dropped, and the
  -- queues keep what they hold, exactly if the bytes held and its own exceed `qlim *
  -- mean_pktsize`; else it becomes the newest packet of one of the first `queue_num` queues,
  -- changed in its congestion mark and time stamp at most and marked only if it is
  -- ECN-capable. The state stays valid. The number of queues and the size of the buffer are
  -- kept.
  pub enque-Enqueues :
      (s : Priority ns) (now : ns.Double) (p : Pkt ns)
      → IsValid s
      → Returns (Enqueued s p) (enque ns s now p)
  unfolding enque
  enque-Enqueues s now p v =
      let t = total_byte_length-eq s v in
      let a = admit-Admitted s now p v in
      elim (Bool-cases (ltb (limit s) (total_byte_length ns s + p.size))) [
        | inl full ↦
            rw (clamp-eq s v, full)
              (
                (dropped, s),
                refl,
                (inl (refl, omega (arith, t, ltb→lt _ _ full), refl), v, (refl, refl)),
              )
        | inr room ↦
            rw (clamp-eq s v, room, a.result)
              (
                _,
                refl,
                (
                  inr (
                    refl,
                    omega (arith, t, ltb→le _ _ room),
                    (
                      a.i,
                      put-JoinsAt ns (λ (x : Slot ns). x.fifo) s.queue_num s.slots a.i a.x
                          (put ns a.x a.q) p a.q a.bound a.found refl a.like,
                    ),
                  ),
                  put-IsValid s p a.q a.i a.x v a.bound a.found a.like,
                  (refl, refl),
                ),
              )
      ]

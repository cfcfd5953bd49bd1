-- ===== src/PrioWfq/Invariant.antt =====
-- The invariant of `PRIO_WFQ`, and the queues of both groups as one port.
use mq_ecn.Common.{
  ℕ, ◌+◌, ◌*◌, ◌≤◌, ◌<◌, ◌≡◌, sym, ap, subst, ◌∙◌, true, some, List, ◌++◌, get_elem?,
  get_elem?-replicate, set, set_keeps, length, length-set, length-replicate, replicate, sum_first,
  sum_first-replicate, arith,
}
use mq_ecn.Simulator.{Simulator, bytes_of, of_nat}
use mq_ecn.Port.{Pkt, max_queue_num, zero_double}
use mq_ecn.Port.Backlog.{
  Backlog, JoinsAt, Joins-total, TakesAt, Takes-total, total, view, bytes-view,
}
use mq_ecn.Port.Groups.{JoinsAt-wider, TakesAt-wider}
use mq_ecn.PrioQueues.{PrioSlot}
use mq_ecn.PrioQueues.Serve.{prio_view}
use mq_ecn.PrioQueues.Group.{all_queues, IsGroup, prio_total, total-both, new-IsGroup}
use mq_ecn.Wfq.{Slot, Wfq, new_slot}
use mq_ecn.Wfq.Refine.{Weighs}
use mq_ecn.PrioWfq.{PrioWfq, new_prio_wfq, total_byte_length}

module _ (ns : Simulator) where
  abbrev pub wfq_view : List (Slot ns) → Backlog ns
  wfq_view xs = view ns (λ (x : Slot ns). x.fifo) xs

  -- The array has its size, the number `n` of queues is in range, weights are positive, and no byte
  -- waits beyond the queues in use.
  pub record IsWeighed (n : ℕ) (xs : List (Slot ns)) : Type 0 where
    pub slots_length : length xs ≡ max_queue_num
    pub some_queue : 0 < n
    pub queue_num_in : n ≤ max_queue_num
    pub weights : (i : ℕ) (x : Slot ns) → get_elem? xs i ≡ some x → Weighs ns i x
    pub none_beyond : total ns max_queue_num (wfq_view xs) ≡ total ns n (wfq_view xs)

  -- The part of the state that the invariant is about.
  pub record Ports : Type 0 where
    pub prio_queues : List (PrioSlot ns)
    pub prio_queue_num : ℕ
    pub wfq_queues : List (Slot ns)
    pub wfq_queue_num : ℕ
    pub limit : ℕ

  abbrev pub ports : PrioWfq ns → Ports
  ports s = record {
    prio_queues = s.prio_queues;
    prio_queue_num = s.prio_queue_num;
    wfq_queues = s.wfq_queues;
    wfq_queue_num = s.wfq_queue_num;
    limit = s.qlim * s.mean_pktsize;
  }

  -- The higher priority queues, then the WFQ queues.
  abbrev pub held_by : Ports → Backlog ns
  held_by c = prio_view ns c.prio_queues ++ wfq_view c.wfq_queues

  abbrev pub held : PrioWfq ns → Backlog ns
  held s = held_by (ports s)

  pub record IsValid (c : Ports) : Type 0 where
    pub high : IsGroup ns c.prio_queue_num c.prio_queues
    pub low : IsWeighed c.wfq_queue_num c.wfq_queues

  abbrev pub Valid : PrioWfq ns → Type 0
  Valid s = IsValid (ports s)

  abbrev pub limit : PrioWfq ns → ℕ
  limit s = s.qlim * s.mean_pktsize

  -- The numbers of queues and the buffer are those of `s`.
  abbrev pub SameShape : PrioWfq ns → PrioWfq ns → Type 0
  SameShape s t =
      (t.prio_queue_num ≡ s.prio_queue_num)
      × (t.wfq_queue_num ≡ s.wfq_queue_num)
      × (limit t ≡ limit s)

  pub put-IsWeighed :
      (n : ℕ) (xs : List (Slot ns)) (i : ℕ) (y : Slot ns) (p : Pkt ns)
      → IsWeighed n xs
      → Weighs ns i y
      → JoinsAt ns i n p (wfq_view xs) (wfq_view (set xs i y))
      → IsWeighed n (set xs i y)
  put-IsWeighed n xs i y p v w j = record {
    slots_length = length-set xs i y ∙ v.slots_length;
    some_queue = v.some_queue;
    queue_num_in = v.queue_num_in;
    weights = set_keeps (Weighs ns) xs i y v.weights w;
    none_beyond = omega (
      arith,
      v.none_beyond,
      Joins-total ns n p _ _ (i, j),
      Joins-total ns max_queue_num p _ _ (i, JoinsAt-wider ns i _ _ p _ _ v.queue_num_in j),
    );
  }

  -- A write that leaves the queues alone.
  pub same-IsWeighed :
      (n : ℕ) (xs : List (Slot ns)) (i : ℕ) (y : Slot ns)
      → IsWeighed n xs
      → Weighs ns i y
      → wfq_view (set xs i y) ≡ wfq_view xs
      → IsWeighed n (set xs i y)
  same-IsWeighed n xs i y v w e = record {
    slots_length = length-set xs i y ∙ v.slots_length;
    some_queue = v.some_queue;
    queue_num_in = v.queue_num_in;
    weights = set_keeps (Weighs ns) xs i y v.weights w;
    none_beyond = rw e v.none_beyond;
  }

  pub take-none_beyond :
      (n : ℕ) (u w : Backlog ns) (i : ℕ) (p : Pkt ns)
      → n ≤ max_queue_num
      → total ns max_queue_num u ≡ total ns n u
      → TakesAt ns i n u p w
      → total ns max_queue_num w ≡ total ns n w
  take-none_beyond n u w i p l e t = omega (
    arith,
    Takes-total ns n _ _ p (i, t),
    Takes-total ns max_queue_num _ _ p (i, TakesAt-wider ns i _ _ p _ _ l t),
  )

  pub wfq_total :
      (n : ℕ) (xs : List (Slot ns))
      → IsWeighed n xs
      → sum_first (mq_ecn.Wfq.slot_bytes ns) max_queue_num xs ≡ total ns n (wfq_view xs)
  wfq_total n xs v = bytes-view ns (λ (x : Slot ns). x.fifo) max_queue_num xs ∙ v.none_beyond

  -- The bytes of the port are those of the queues in use.
  pub total-groups :
      (c : Ports)
      → IsValid c
      → total ns all_queues (held_by c)
        ≡ total ns c.prio_queue_num (prio_view ns c.prio_queues)
          + total ns c.wfq_queue_num (wfq_view c.wfq_queues)
  total-groups c v = omega (
    arith,
    total-both ns c.prio_queue_num c.prio_queues (wfq_view c.wfq_queues) v.high,
    v.low.none_beyond,
  )

  -- The byte count of the port is that of all queues.
  pub total_byte_length-eq :
      (s : PrioWfq ns) → Valid s → total_byte_length ns s ≡ total ns all_queues (held s)
  unfolding total_byte_length
  total_byte_length-eq s v = omega (
    arith,
    prio_total ns s.prio_queue_num s.prio_queues v.high,
    wfq_total s.wfq_queue_num s.wfq_queues v.low,
    total-groups (ports s) v,
  )

  no_bytes : (n : ℕ) → total ns n (wfq_view (replicate max_queue_num (new_slot ns))) ≡ 0
  unfolding new_slot
  no_bytes n =
      let xs = replicate max_queue_num (new_slot ns) in
      sym (bytes-view ns (λ (x : Slot ns). x.fifo) n xs)
      ∙ sum_first-replicate (λ (x : Slot ns). ns.byte_length x.fifo) n max_queue_num (new_slot ns)
          (ns.bytes-eq ns.new_queue ∙ ap bytes_of ns.contents-new)

  -- The default weight passes the test that the code makes of it if 10000 is above 0 as a double.
  pub new_prio_wfq-IsValid :
      (qlim : ℕ) → ns.lt (zero_double ns) (of_nat ns 10000) ≡ true → Valid (new_prio_wfq ns qlim)
  unfolding new_prio_wfq new_slot
  new_prio_wfq-IsValid qlim positive = record {
    high = new-IsGroup ns;
    low = record {
      slots_length = length-replicate max_queue_num (new_slot ns);
      some_queue = omega arith;
      queue_num_in = omega arith;
      weights = λ i x g.
          subst (Weighs ns i) (get_elem?-replicate max_queue_num (new_slot ns) i x g) positive;
      none_beyond = no_bytes max_queue_num ∙ sym (no_bytes 7);
    };
  }

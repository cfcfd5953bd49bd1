-- ===== src/PrioQueues/Group.antt =====
-- The invariant of the strict higher priority queues, and the queues of a port that has them first
-- and the queues of another group after them.
use mq_ecn.Common.{
  ℕ, ◌+◌, ◌-◌, ◌≤◌, ◌<◌, ◌≡◌, refl, sym, ap, ◌∙◌, ◌⊎◌, some, List, ◌++◌, get_elem?, set, length,
  length-set, length-replicate, get_elem?-total, replicate, sum_first-replicate, ok, ltb, lt→ltb,
  le→ltb, if◌then◌else◌, arith,
}
use mq_ecn.Simulator.{Simulator, bytes_of}
use mq_ecn.Port.{Pkt, Fate, queued, dropped, clamp_prio, max_queue_num}
use mq_ecn.Port.Backlog.{
  Backlog, Marked, JoinsAt, Joins-total, TakesAt, Takes-total, put-JoinsAt, total, bytes-view,
}
use mq_ecn.Port.Groups.{
  JoinsAt-left, JoinsAt-right, JoinsAt-wider, TakesAt-left, TakesAt-right, TakesAt-wider,
  total-append, length-view,
}
use mq_ecn.PrioQueues.{PrioSlot, new_prio_slot, max_prio_queue_num, total_prio_bytes}
use mq_ecn.PrioQueues.Serve.{prio_view}

-- The queues of both arrays.
abbrev pub all_queues : ℕ
all_queues = max_prio_queue_num + max_queue_num

-- Where the queue stands that `prio` names, with `n` higher priority queues.
abbrev pub position : ℕ → ℕ → ℕ
position n i = if ltb i n then i else max_prio_queue_num + (i - n)

module _ (ns : Simulator) where
  -- The array has its size, the number `n` of queues is in range, and no byte waits beyond them.
  pub record IsGroup (n : ℕ) (xs : List (PrioSlot ns)) : Type 0 where
    pub prio_length : length xs ≡ max_prio_queue_num
    pub some_prio : 0 < n
    pub prio_num_in : n ≤ max_prio_queue_num
    pub none_beyond : total ns max_prio_queue_num (prio_view ns xs) ≡ total ns n (prio_view ns xs)

  pub prio_total :
      (n : ℕ) (xs : List (PrioSlot ns))
      → IsGroup n xs
      → total_prio_bytes ns xs ≡ total ns n (prio_view ns xs)
  prio_total n xs v =
      bytes-view ns (λ (x : PrioSlot ns). x.fifo) max_prio_queue_num xs ∙ v.none_beyond

  pub find_prio :
      (n : ℕ) (xs : List (PrioSlot ns)) (i : ℕ)
      → IsGroup n xs
      → i < n
      → (x : PrioSlot ns) × (get_elem? xs i ≡ some x)
  find_prio n xs i v l = get_elem?-total xs i (omega (arith, v.prio_length, v.prio_num_in))

  view_length :
      (n : ℕ) (xs : List (PrioSlot ns))
      → IsGroup n xs
      → length (prio_view ns xs) ≡ max_prio_queue_num
  view_length n xs v = length-view ns (λ (x : PrioSlot ns). x.fifo) xs ∙ v.prio_length

  -- The bytes of the port.
  pub total-both :
      (n : ℕ) (xs : List (PrioSlot ns)) (u : Backlog ns)
      → IsGroup n xs
      → total ns all_queues (prio_view ns xs ++ u)
        ≡ total ns n (prio_view ns xs) + total ns max_queue_num u
  total-both n xs u v =
      let pv = prio_view ns xs in
      let a : total ns (length pv + max_queue_num) (pv ++ u)
          ≡ total ns (length pv) pv + total ns max_queue_num u =
        total-append ns max_queue_num pv u in
      omega (arith, v.none_beyond, rw (view_length n xs v) at a)

  no_bytes :
      (n : ℕ) → total ns n (prio_view ns (replicate max_prio_queue_num (new_prio_slot ns))) ≡ 0
  unfolding new_prio_slot
  no_bytes n =
      let xs = replicate max_prio_queue_num (new_prio_slot ns) in
      sym (bytes-view ns (λ (x : PrioSlot ns). x.fifo) n xs)
      ∙ sum_first-replicate (λ (x : PrioSlot ns). ns.byte_length x.fifo) n max_prio_queue_num
          (new_prio_slot ns) (ns.bytes-eq ns.new_queue ∙ ap bytes_of ns.contents-new)

  -- What the constructors leave: one queue, and no byte.
  pub new-IsGroup : IsGroup 1 (replicate max_prio_queue_num (new_prio_slot ns))
  new-IsGroup = record {
    prio_length = length-replicate max_prio_queue_num (new_prio_slot ns);
    some_prio = omega arith;
    prio_num_in = omega arith;
    none_beyond = no_bytes max_prio_queue_num ∙ sym (no_bytes 1);
  }

  pub new-total : total ns 1 (prio_view ns (replicate max_prio_queue_num (new_prio_slot ns))) ≡ 0
  new-total = no_bytes 1

  put_joins :
      (n : ℕ) (xs : List (PrioSlot ns)) (i : ℕ) (x : PrioSlot ns) (p q : Pkt ns)
      → i < n
      → get_elem? xs i ≡ some x
      → Marked ns p q
      → JoinsAt ns i n p
          (prio_view ns xs)
          (prio_view ns (set xs i (record x { fifo = ns.enque q x.fifo })))
  put_joins n xs i x p q l g m =
      put-JoinsAt ns (λ (x : PrioSlot ns). x.fifo) n xs i x (record x { fifo = ns.enque q x.fifo })
        p q l g refl m

  pub put-IsGroup :
      (n : ℕ) (xs : List (PrioSlot ns)) (i : ℕ) (x : PrioSlot ns) (p q : Pkt ns)
      → IsGroup n xs
      → i < n
      → get_elem? xs i ≡ some x
      → Marked ns p q
      → IsGroup n (set xs i (record x { fifo = ns.enque q x.fifo }))
  put-IsGroup n xs i x p q v l g m =
      let j = put_joins n xs i x p q l g m in
      record {
        prio_length = length-set xs i (record x { fifo = ns.enque q x.fifo }) ∙ v.prio_length;
        some_prio = v.some_prio;
        prio_num_in = v.prio_num_in;
        none_beyond = omega (
          arith,
          v.none_beyond,
          Joins-total ns n p _ _ (i, j),
          Joins-total ns max_prio_queue_num p _ _ (i, JoinsAt-wider ns i _ _ p _ _ v.prio_num_in j),
        );
      }

  -- A write that leaves the queues alone.
  pub same-IsGroup :
      (n : ℕ) (xs : List (PrioSlot ns)) (i : ℕ) (y : PrioSlot ns)
      → IsGroup n xs
      → prio_view ns (set xs i y) ≡ prio_view ns xs
      → IsGroup n (set xs i y)
  same-IsGroup n xs i y v e = record {
    prio_length = length-set xs i y ∙ v.prio_length;
    some_prio = v.some_prio;
    prio_num_in = v.prio_num_in;
    none_beyond = rw e v.none_beyond;
  }

  pub take-IsGroup :
      (n : ℕ) (xs : List (PrioSlot ns)) (i : ℕ) (y : PrioSlot ns) (p : Pkt ns)
      → IsGroup n xs
      → TakesAt ns i n (prio_view ns xs) p (prio_view ns (set xs i y))
      → IsGroup n (set xs i y)
  take-IsGroup n xs i y p v t = record {
    prio_length = length-set xs i y ∙ v.prio_length;
    some_prio = v.some_prio;
    prio_num_in = v.prio_num_in;
    none_beyond = omega (
      arith,
      v.none_beyond,
      Takes-total ns n _ _ p (i, t),
      Takes-total ns max_prio_queue_num _ _ p (i, TakesAt-wider ns i _ _ p _ _ v.prio_num_in t),
    );
  }

  -- A packet that joins a queue of either group joins that queue of the port.
  pub joins_high :
      (n : ℕ) (xs : List (PrioSlot ns)) (i : ℕ) (x : PrioSlot ns) (p q : Pkt ns) (u : Backlog ns)
      → IsGroup n xs
      → i < n
      → get_elem? xs i ≡ some x
      → Marked ns p q
      → JoinsAt ns
          (position n i)
          all_queues
          p
          (prio_view ns xs ++ u)
          (prio_view ns (set xs i (record x { fifo = ns.enque q x.fifo })) ++ u)
  joins_high n xs i x p q u v l g m = rw (lt→ltb i n l) (
      JoinsAt-left ns i n all_queues p _ _ u (omega (arith, v.prio_num_in))
        (put_joins n xs i x p q l g m))

  pub joins_low :
      (n : ℕ) (xs : List (PrioSlot ns)) (i : ℕ) (p : Pkt ns) (u w : Backlog ns)
      → IsGroup n xs
      → n ≤ i
      → JoinsAt ns (i - n) max_queue_num p u w
      → JoinsAt ns (position n i) all_queues p (prio_view ns xs ++ u) (prio_view ns xs ++ w)
  joins_low n xs i p u w v b j =
      let j' = JoinsAt-right ns (i - n) max_queue_num p (prio_view ns xs) u w j in
      rw (le→ltb i n b) (rw (view_length n xs v) at j')

  pub takes_high :
      (n : ℕ) (xs ys : List (PrioSlot ns)) (i : ℕ) (p : Pkt ns) (u : Backlog ns)
      → IsGroup n xs
      → TakesAt ns i n (prio_view ns xs) p (prio_view ns ys)
      → TakesAt ns i all_queues (prio_view ns xs ++ u) p (prio_view ns ys ++ u)
  takes_high n xs ys i p u v t =
      TakesAt-left ns i n all_queues p _ _ u (omega (arith, v.prio_num_in)) t

  pub takes_low :
      (n : ℕ) (xs : List (PrioSlot ns)) (i m : ℕ) (p : Pkt ns) (u w : Backlog ns)
      → IsGroup n xs
      → m ≤ max_queue_num
      → TakesAt ns i m u p w
      → TakesAt ns
          (max_prio_queue_num + i)
          all_queues
          (prio_view ns xs ++ u)
          p
          (prio_view ns xs ++ w)
  takes_low n xs i m p u w v l t =
      let t' =
        TakesAt-right ns i max_queue_num p (prio_view ns xs) u w
          (TakesAt-wider ns i m max_queue_num p u w l t) in
      rw (view_length n xs v) at t'

  -- With `n` higher priority queues and `m` queues in all: the packet is dropped exactly if the
  -- buffer would overflow, and else joins the queue that its priority names.
  abbrev pub AcceptsIn : ℕ → ℕ → ℕ → Pkt ns → Backlog ns → Fate → Backlog ns → Type 0
  AcceptsIn n m limit p v fate w =
      ((fate ≡ dropped) × (limit < total ns all_queues v + p.size) × (w ≡ v))
      ⊎ ((i : ℕ) × (fate ≡ queued)
          × (total ns all_queues v + p.size ≤ limit)
          × (clamp_prio m p.prio ≡ ok i)
          × JoinsAt ns (position n i) all_queues p v w)

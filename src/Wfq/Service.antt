-- ===== src/Wfq/Service.antt =====
-- `WFQ::deque` serves a queue with the earliest finish time.
use mq_ecn.Common.{
  ℕ, ◌<◌, ◌≡◌, refl, sym, ap, ◌∙◌, ◌⊎◌, inl, inr, Bool, true, false, Option, none, some, get_elem?,
  set, sum_first-pos, Result, ok, Returns, arith, ltb, ◌==◌, ◌&&◌, not, if◌then◌else◌, Bool-cases,
  ltb→lt, ltb→le, if_true,
}
use mathlib.Core.Bool.{false≢true}
use mq_ecn.Simulator.{Simulator, of_nat}
use mq_ecn.Port.{Pkt, measure, mq_marking_gener, latency_marking, zero_double}
use mq_ecn.Port.Backlog.{
  Backlog, TakesAt, leave-Marked, take-TakesAt, deque-total, packets_of_bytes, total,
}
use mq_ecn.Wfq.{Slot, Wfq, slot_bytes, total_byte_length, has_capacity}
use mq_ecn.Wfq.Deque.{earliest, next_head, serve, settle, deque}
use mq_ecn.Wfq.Refine.{held, Weighs, IsValid, set-IsValid, total_byte_length-eq}
use mq_ecn.Wfq.Earliest.{IsOrder, NoneBefore, Earliest, earliest-Chosen}

module _ (ns : Simulator) where
  -- What `next_head` writes at queue `i`.
  record Headed (s : Wfq ns) (i : ℕ) (x : Slot ns) (r : Result (Wfq ns)) : Type 0 where
    y : Slot ns
    c : ns.Double
    w : ns.Double
    result : r ≡ ok (record s { slots = set s.slots i y; curr_time = c; weight_sum = w })
    fifo_same : y.fifo ≡ x.fifo
    weight_same : y.weight ≡ x.weight

  next_head-Headed :
      (s : Wfq ns) (i : ℕ) (x : Slot ns) (h : Option (Pkt ns))
      → Weighs ns i x
      → Headed s i x (next_head ns s i x h)
  unfolding next_head
  next_head-Headed s i x none w = record {
    y = _;
    c = _;
    w = _;
    result = refl;
    fifo_same = refl;
    weight_same = refl;
  }
  next_head-Headed s i x (some p) w = record {
    y = _;
    c = _;
    w = _;
    result = if_true _ _ _ w;
    fifo_same = refl;
    weight_same = refl;
  }

  -- The queue after `q` has left it.
  abbrev left : Wfq ns → ns.Double → Slot ns → Pkt ns → Slot ns
  left s now x q = record x {
    fifo = ns.after_deque x.fifo;
    meter =
        measure ns now s.link_capacity s.estimate_rate_alpha s.dq_thresh
          (ns.byte_length (ns.after_deque x.fifo)) q.size x.meter;
  }

  -- The packet is the oldest of queue `i`, which finishes no later than any queue with a packet.
  abbrev pub TakesEarliest : Wfq ns → Pkt ns → Backlog ns → Type 0
  TakesEarliest s p w =
      (i : ℕ) × (x : Slot ns) × (get_elem? s.slots i ≡ some x)
      × NoneBefore ns s.queue_num s.slots x.head_finish_time
      × TakesAt ns i s.queue_num (held ns s) p w

  pub serve-TakesEarliest :
      (s : Wfq ns) (now t : ns.Double) (i : ℕ)
      → IsValid ns s
      → Earliest ns s.queue_num s.slots t i
      → Returns (λ r. TakesEarliest s r.0 (held ns r.1) × IsValid ns r.1) (serve ns s now (some i))
  unfolding serve
  serve-TakesEarliest s now t i v a =
      let (q, d, _) = deque-total ns a.x.fifo a.busy in
      let w = v.weights i a.x a.found in
      let n = next_head-Headed s i (left s now a.x q) (ns.head (ns.after_deque a.x.fifo)) w in
      let like = leave-Marked ns (s.marking_scheme == latency_marking) now _ q in
      rw (a.found, d, n.result)
        (
          _,
          refl,
          (
            (
              i,
              a.x,
              a.found,
              a.first,
              take-TakesAt ns (λ (x : Slot ns). x.fifo) s.queue_num s.slots i a.x n.y q _ a.bound
                  a.found d n.fifo_same like,
            ),
            set-IsValid ns s i n.y n.c n.w v (ap (ns.lt (zero_double ns)) n.weight_same ∙ w),
          ),
        )

  -- `settle` changes only estimates and times.
  record Settled (s t : Wfq ns) : Type 0 where
    same_held : held ns t ≡ held ns s
    valid : IsValid ns t

  core : Wfq ns → ns.Double → ns.Double → ns.Double → Wfq ns
  core s e u l = record s { weight_sum_estimate = e; last_update_time = u; last_idle_time = l }

  core-Settled : (s : Wfq ns) (e u l : ns.Double) → IsValid ns s → Settled s (core s e u l)
  unfolding core
  core-Settled s e u l v = record {
    same_held = refl;
    valid = record {
      slots_length = v.slots_length;
      some_queue = v.some_queue;
      queue_num_in = v.queue_num_in;
      weights = v.weights;
    };
  }

  idle-Settled :
      (s : Wfq ns) (b : Bool) (e u l : ns.Double)
      → IsValid ns s
      → Settled s (
          if b
          then record s { weight_sum_estimate = e; last_update_time = u; last_idle_time = l }
          else record s { weight_sum_estimate = e; last_update_time = u })
  unfolding core
  idle-Settled s true e u l v = core-Settled s e u l v
  idle-Settled s false e u l v = core-Settled s e u s.last_idle_time v

  -- An update of the estimate is due.
  abbrev due : Wfq ns → ns.Double → Bool
  due s now =
      ns.lt (zero_double ns) s.estimate_weight_interval_bytes
      && has_capacity ns s
      && ns.le
          (ns.div
            (ns.mul (ns.mul (ns.literal 995 3) s.estimate_weight_interval_bytes) (of_nat ns 8))
            s.link_capacity)
          (ns.sub now s.last_update_time)

  settle-Settled : (s : Wfq ns) (now : ns.Double) → IsValid ns s → Settled s (settle ns s now)
  unfolding settle core
  settle-Settled s now v =
      elim (Bool-cases
        (s.marking_scheme == mq_marking_gener && not s.estimate_weight_enable_timer)) [
          | inr other ↦
              rw other (core-Settled s s.weight_sum_estimate s.last_update_time s.last_idle_time v)
          | inl mine ↦ elim (Bool-cases (due s now)) [
            | inl old ↦ rw (mine, old) (idle-Settled s _ _ _ now v)
            | inr young ↦
                rw (mine, young) (idle-Settled s _ s.weight_sum_estimate s.last_update_time now v)
          ]
        ]

  -- What `deque` promises of its result.
  abbrev pub ServedEarliest : Wfq ns → Option (Pkt ns) × Wfq ns → Type 0
  ServedEarliest s r =
      (((total ns s.queue_num (held ns s) ≡ 0) × (r.0 ≡ none) × (held ns r.1 ≡ held ns s))
        ⊎ ((p : Pkt ns) × (0 < total ns s.queue_num (held ns s))
            × (r.0 ≡ some p)
            × TakesEarliest s p (held ns r.1)))
      × IsValid ns r.1

  -- Every queue with a packet finishes before the largest time.
  abbrev pub InTime : Wfq ns → Type 0
  InTime s =
      (i : ℕ) (x : Slot ns)
      → get_elem? s.slots i ≡ some x
      → 0 < ns.packets x.fifo
      → ns.lt x.head_finish_time ns.ldbl_max ≡ true

  pub some-earliest :
      (s : Wfq ns)
      → IsOrder ns
      → IsValid ns s
      → InTime s
      → 0 < total_byte_length ns s
      → (k : ℕ) × (earliest ns s.queue_num s.slots 0 none ns.ldbl_max ≡ some k)
        × Earliest ns s.queue_num s.slots ns.ldbl_max k
  unfolding total_byte_length
  some-earliest s o v times pos =
      elim (earliest-Chosen ns s.queue_num s.slots 0 none ns.ldbl_max o) [
        | inr (k, e, a) ↦ (k, e ∙ ap some (omega arith), a)
        | inl (e, h) ↦
            let (i, x, g, l, b) = sum_first-pos (slot_bytes ns) s.queue_num s.slots pos in
            let busy = packets_of_bytes ns x.fifo b in
            absurd (false≢true (sym (h i x l g busy) ∙ times i x g busy))
      ]

  -- If `lt` is a strict order on times, the WFQ state is valid (64 queues, a number of queues
  -- between 1 and 64, positive weights) and every queue with a packet has a finish time below
  -- LDBL_MAX, then `deque` returns. Without a byte in the port it returns no packet and the
  -- queues keep what they hold; with one it returns the oldest packet of a queue whose finish
  -- time no backlogged queue undercuts, changed in its congestion mark and time stamp at
  -- most, and the other queues keep theirs. The state stays valid.
  pub deque-ServedEarliest :
      (s : Wfq ns) (now : ns.Double)
      → IsOrder ns
      → IsValid ns s
      → InTime s
      → Returns (ServedEarliest s) (deque ns s now)
  unfolding deque
  deque-ServedEarliest s now o v times =
      let t = total_byte_length-eq ns s in
      elim (Bool-cases (ltb 0 (total_byte_length ns s))) [
        | inr idle ↦
            let m = settle-Settled s now v in
            rw idle (
              (none, settle ns s now),
              refl,
              (inl (omega (arith, t, ltb→le _ _ idle), refl, m.same_held), m.valid),
            )
        | inl busy ↦
            let (k, e, a) = some-earliest s o v times (ltb→lt _ _ busy) in
            let (r, f, (takes, v')) = serve-TakesEarliest s now ns.ldbl_max k v a in
            let m = settle-Settled r.1 now v' in
            rw (busy, e, f)
              (
                (some r.0, settle ns r.1 now),
                refl,
                (inr (r.0, omega (arith, t, ltb→lt _ _ busy), refl, rw m.same_held takes), m.valid),
              )
      ]

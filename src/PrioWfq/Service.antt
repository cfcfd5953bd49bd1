-- ===== src/PrioWfq/Service.antt =====
-- `PRIO_WFQ::deque`: strict priority, then the earliest finish time.
use mq_ecn.Common.{
  ◌<◌, ◌≡◌, refl, sym, ap, subst, ◌⊎◌, inl, inr, Option, none, some, Returns, arith, ltb, ◌==◌,
  ◌&&◌, not, Bool-cases, ltb→lt, ltb→le,
}
use mq_ecn.Simulator.{Simulator}
use mq_ecn.Port.{Pkt, mq_marking_gener}
use mq_ecn.Port.Backlog.{total, bytes-view}
use mq_ecn.PrioQueues.{PrioSlot}
use mq_ecn.PrioQueues.Serve.{prio_view, TakesFirst, serve_first-TakesFirst}
use mq_ecn.PrioQueues.Group.{prio_total, take-IsGroup}
use mq_ecn.Wfq.{Slot, Wfq, total_byte_length}
use mq_ecn.Wfq.Earliest.{IsOrder}
use mq_ecn.Wfq.Service.{TakesEarliest, InTime, serve-TakesEarliest, some-earliest}
use mq_ecn.PrioWfq.{
  PrioWfq, as_wfq, with_wfq, settings, total_wfq_byte_length, total_prio_byte_length,
}
use mq_ecn.PrioWfq.Deque.{serve_high, estimate_due, settle, serve_low, deque}
use mq_ecn.PrioWfq.Invariant.{
  wfq_view, Ports, ports, IsValid, Valid, SameShape, wfq_total, take-none_beyond,
}

module _ (ns : Simulator) where
  -- The higher priority queues hold a byte: the first that does hands over its oldest packet.
  abbrev pub TakesHigh : PrioWfq ns → Option (Pkt ns) → Ports ns → Type 0
  TakesHigh s out d =
      (0 < total ns s.prio_queue_num (prio_view ns s.prio_queues))
      × TakesFirst ns s.prio_queue_num s.prio_queues (out, d.prio_queues)
      × (d.wfq_queues ≡ s.wfq_queues)

  -- Only the WFQ queues hold a byte: one that finishes no later than any hands over its oldest packet.
  abbrev pub TakesLow : PrioWfq ns → Option (Pkt ns) → Ports ns → Type 0
  TakesLow s out d =
      (p : Pkt ns) × (total ns s.prio_queue_num (prio_view ns s.prio_queues) ≡ 0)
      × (0 < total ns s.wfq_queue_num (wfq_view ns s.wfq_queues))
      × (out ≡ some p)
      × (d.prio_queues ≡ s.prio_queues)
      × TakesEarliest ns (as_wfq ns s) p (wfq_view ns d.wfq_queues)

  abbrev pub TakesNone : PrioWfq ns → Option (Pkt ns) → Ports ns → Type 0
  TakesNone s out d =
      (total ns s.prio_queue_num (prio_view ns s.prio_queues) ≡ 0)
      × (total ns s.wfq_queue_num (wfq_view ns s.wfq_queues) ≡ 0)
      × (out ≡ none)
      × (d ≡ ports ns s)

  -- What `deque` promises of its result.
  abbrev pub DequeuedInOrder : PrioWfq ns → Option (Pkt ns) × PrioWfq ns → Type 0
  DequeuedInOrder s r =
      (TakesHigh s r.0 (ports ns r.1)
        ⊎ TakesLow s r.0 (ports ns r.1)
        ⊎ TakesNone s r.0 (ports ns r.1))
      × Valid ns r.1
      × SameShape ns s r.1

  serve_high-DequeuedInOrder :
      (s : PrioWfq ns) (now : ns.Double)
      → Valid ns s
      → 0 < total ns s.prio_queue_num (prio_view ns s.prio_queues)
      → Returns (DequeuedInOrder s) (serve_high ns s now)
  unfolding serve_high
  serve_high-DequeuedInOrder s now v h =
      let (r, e, t) = serve_first-TakesFirst ns (settings ns s) now s.prio_queue_num s.prio_queues (
        omega
          (arith, bytes-view ns (λ (x : PrioSlot ns). x.fifo) s.prio_queue_num s.prio_queues)) in
      let (i, x, y, p, f, g, b, a) = t in
      (
        (r.0, record s { prio_queues = r.1 }),
        rw e refl,
        (
          inl (h, t, refl),
          subst (λ l. Valid ns (record s { prio_queues = l })) (sym g)
              (record {
                high = take-IsGroup ns s.prio_queue_num s.prio_queues i y p v.high a;
                low = v.low;
              }),
          (refl, refl, refl),
        ),
      )

  settle-ports : (s : PrioWfq ns) (now : ns.Double) → ports ns (settle ns s now) ≡ ports ns s
  unfolding settle
  settle-ports s now =
      elim (Bool-cases
        (s.marking_scheme == mq_marking_gener && not s.estimate_weight_enable_timer)) [
          | inr other ↦ elim (Bool-cases (estimate_due ns s now)) [
            | inl due ↦ rw (due, other) refl
            | inr early ↦ rw (early, other) refl
          ]
          | inl gener ↦ elim (Bool-cases (estimate_due ns s now)) [
            | inl due ↦ elim (Bool-cases (total_wfq_byte_length ns s == 0)) [
              | inl idle ↦ rw (due, gener, idle) refl
              | inr busy ↦ rw (due, gener, busy) refl
            ]
            | inr early ↦ elim (Bool-cases (total_wfq_byte_length ns s == 0)) [
              | inl idle ↦ rw (early, gener, idle) refl
              | inr busy ↦ rw (early, gener, busy) refl
            ]
          ]
        ]

  ports-SameShape : (s t : PrioWfq ns) → ports ns t ≡ ports ns s → SameShape ns s t
  ports-SameShape s t e = (
    ap (λ (c : Ports ns). c.prio_queue_num) e,
    ap (λ (c : Ports ns). c.wfq_queue_num) e,
    ap (λ (c : Ports ns). c.limit) e,
  )

  pub as_wfq-IsValid : (s : PrioWfq ns) → Valid ns s → mq_ecn.Wfq.Refine.IsValid ns (as_wfq ns s)
  as_wfq-IsValid s v = record {
    slots_length = v.low.slots_length;
    some_queue = v.low.some_queue;
    queue_num_in = v.low.queue_num_in;
    weights = v.low.weights;
  }

  -- What the service of WFQ makes of the group.
  low-DequeuedInOrder :
      (s : PrioWfq ns) (now : ns.Double) (r : Pkt ns × Wfq ns)
      → Valid ns s
      → total ns s.prio_queue_num (prio_view ns s.prio_queues) ≡ 0
      → 0 < total ns s.wfq_queue_num (wfq_view ns s.wfq_queues)
      → TakesEarliest ns (as_wfq ns s) r.0 (wfq_view ns r.1.slots)
      → mq_ecn.Wfq.Refine.IsValid ns r.1
      → DequeuedInOrder s (some r.0, settle ns (with_wfq ns s r.1) now)
  low-DequeuedInOrder s now (p, d) v z b takes w =
      let t = with_wfq ns s d in
      let e : ports ns (settle ns t now) ≡ ports ns t = settle-ports t now in
      let (i, x, _, _, at) = takes in
      let valid : Valid ns t = record {
        high = v.high;
        low = record {
          slots_length = w.slots_length;
          some_queue = v.low.some_queue;
          queue_num_in = v.low.queue_num_in;
          weights = w.weights;
          none_beyond =
              take-none_beyond ns s.wfq_queue_num _ _ i p v.low.queue_num_in v.low.none_beyond at;
        };
      } in
      (
        inr (inl (subst (TakesLow s (some p)) (sym e) (p, z, b, refl, refl, takes))),
        subst (IsValid ns) (sym e) valid,
        ports-SameShape t (settle ns t now) e,
      )

  serve_low-DequeuedInOrder :
      (s : PrioWfq ns) (now : ns.Double)
      → IsOrder ns
      → Valid ns s
      → InTime ns (as_wfq ns s)
      → total ns s.prio_queue_num (prio_view ns s.prio_queues) ≡ 0
      → 0 < total ns s.wfq_queue_num (wfq_view ns s.wfq_queues)
      → Returns (DequeuedInOrder s) (serve_low ns s now)
  unfolding serve_low
  serve_low-DequeuedInOrder s now o v times z b =
      let w = as_wfq-IsValid s v in
      let busy : 0 < total_byte_length ns (as_wfq ns s) =
        omega (arith, mq_ecn.Wfq.Refine.total_byte_length-eq ns (as_wfq ns s)) in
      let (k, e, a) = some-earliest ns (as_wfq ns s) o w times busy in
      let (r, f, (takes, w')) = serve-TakesEarliest ns (as_wfq ns s) now ns.ldbl_max k w a in
      rw (e, f) (_, refl, low-DequeuedInOrder s now r v z b takes w')

  -- If `lt` is a strict order on times, the PRIO_WFQ state is valid and every WFQ queue with
  -- a packet has a finish time below LDBL_MAX, then `deque` returns, never by an exit and
  -- never out of an array. If the higher priority queues hold a byte, it returns the oldest
  -- packet of the first of them that does, and the WFQ queues are as before; else, if the WFQ
  -- queues hold a byte, it returns the oldest packet of one whose finish time no backlogged
  -- WFQ queue undercuts, and the higher priority queues are as before; else it returns no
  -- packet and no queue changes. The packet is changed in its congestion mark and time stamp
  -- at most, the other queues keep theirs, the state stays valid, and the numbers of queues
  -- and the size of the buffer are kept.
  pub deque-DequeuedInOrder :
      (s : PrioWfq ns) (now : ns.Double)
      → IsOrder ns
      → Valid ns s
      → InTime ns (as_wfq ns s)
      → Returns (DequeuedInOrder s) (deque ns s now)
  unfolding deque
  deque-DequeuedInOrder s now o v times =
      let a = prio_total ns s.prio_queue_num s.prio_queues v.high in
      let b = wfq_total ns s.wfq_queue_num s.wfq_queues v.low in
      elim (Bool-cases (ltb 0 (total_prio_byte_length ns s))) [
        | inl high ↦
            rw high (serve_high-DequeuedInOrder s now v (omega (arith, a, ltb→lt _ _ high)))
        | inr none_high ↦
            let z : total ns s.prio_queue_num (prio_view ns s.prio_queues) ≡ 0 =
              omega (arith, a, ltb→le _ _ none_high) in
            elim (Bool-cases (ltb 0 (total_wfq_byte_length ns s))) [
              | inl low ↦
                  rw (none_high, low)
                    (serve_low-DequeuedInOrder s now o v times z (omega (arith, b, ltb→lt _ _ low)))
              | inr idle ↦
                  let e = settle-ports s now in
                  rw (none_high, idle)
                    (
                      (none, settle ns s now),
                      refl,
                      (
                        inr (inr (z, omega (arith, b, ltb→le _ _ idle), refl, e)),
                        subst (IsValid ns) (sym e) v,
                        ports-SameShape s (settle ns s now) e,
                      ),
                    )
            ]
      ]

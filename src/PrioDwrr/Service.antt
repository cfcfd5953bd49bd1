-- ===== src/PrioDwrr/Service.antt =====
-- `PRIO_DWRR::deque`: strict priority, then DWRR.
use mq_ecn.Common.{
  ◌<◌, ◌≡◌, refl, sym, ap, subst, ◌⊎◌, inl, inr, Option, none, some, Returns, arith, ltb, ◌==◌,
  Bool-cases, ltb→lt, ltb→le,
}
use mq_ecn.Simulator.{Simulator}
use mq_ecn.Port.{Pkt}
use mq_ecn.Port.Backlog.{Takes, total, bytes-view}
use mq_ecn.PrioQueues.{PrioSlot}
use mq_ecn.PrioQueues.Serve.{prio_view, TakesFirst, serve_first-TakesFirst}
use mq_ecn.PrioQueues.Group.{prio_total, take-IsGroup}
use mq_ecn.Dwrr.{Slot, Dwrr}
use mq_ecn.Dwrr.Deque.{rounds, update_estimate}
use mq_ecn.Dwrr.Invariant.{Core, core}
use mq_ecn.Dwrr.Rounds.{Took, loop-Took, update_estimate-same}
use mq_ecn.PrioDwrr.{
  PrioDwrr, as_dwrr, with_dwrr, settings, total_dwrr_byte_length, total_prio_byte_length,
}
use mq_ecn.PrioDwrr.Deque.{serve_high, settle, serve_low, deque}
use mq_ecn.PrioDwrr.Invariant.{Ports, ports, dwrr_view, IsValid, Valid, SameShape, group_total}
use mq_ecn.PrioDwrr.Refine.{with_dwrr-ports}

module _ (ns : Simulator) where
  -- The higher priority queues hold a byte: the first that does hands over its oldest packet.
  abbrev pub TakesHigh : Ports ns → Option (Pkt ns) → Ports ns → Type 0
  TakesHigh c out d =
      (0 < total ns c.prio_queue_num (prio_view ns c.prio_queues))
      × TakesFirst ns c.prio_queue_num c.prio_queues (out, d.prio_queues)
      × (d.group ≡ c.group)

  -- Only the DWRR queues hold a byte: one of them hands over its oldest packet.
  abbrev pub TakesLow : Ports ns → Option (Pkt ns) → Ports ns → Type 0
  TakesLow c out d =
      (p : Pkt ns) × (total ns c.prio_queue_num (prio_view ns c.prio_queues) ≡ 0)
      × (0 < total ns c.group.queue_num (dwrr_view ns c.group.slots))
      × (out ≡ some p)
      × (d.prio_queues ≡ c.prio_queues)
      × Takes ns c.group.queue_num (dwrr_view ns c.group.slots) p (dwrr_view ns d.group.slots)

  abbrev pub TakesNone : Ports ns → Option (Pkt ns) → Ports ns → Type 0
  TakesNone c out d =
      (total ns c.prio_queue_num (prio_view ns c.prio_queues) ≡ 0)
      × (total ns c.group.queue_num (dwrr_view ns c.group.slots) ≡ 0)
      × (out ≡ none)
      × (d ≡ c)

  abbrev pub Serves : Ports ns → Option (Pkt ns) → Ports ns → Type 0
  Serves c out d = TakesHigh c out d ⊎ TakesLow c out d ⊎ TakesNone c out d

  -- What `deque` promises of its result.
  abbrev pub DequeuedByPriority : PrioDwrr ns → Option (Pkt ns) × PrioDwrr ns → Type 0
  DequeuedByPriority s r =
      Serves (ports ns s) r.0 (ports ns r.1) × Valid ns r.1 × SameShape ns s r.1

  serve_high-DequeuedByPriority :
      (s : PrioDwrr ns) (now : ns.Double)
      → Valid ns s
      → 0 < total ns s.prio_queue_num (prio_view ns s.prio_queues)
      → Returns (DequeuedByPriority s) (serve_high ns s now)
  unfolding serve_high
  serve_high-DequeuedByPriority s now v h =
      let (r, e, t) = serve_first-TakesFirst ns (settings ns s) now s.prio_queue_num s.prio_queues (
        omega
          (arith, bytes-view ns (λ (x : PrioSlot ns). x.fifo) s.prio_queue_num s.prio_queues)) in
      let (i, x, y, p, f, g, b, a) = t in
      (
        (r.0, record s { prio_queues = r.1 }),
        rw e refl,
        (
          inl (h, t, refl),
          subst (λ l. Valid ns (record s { prio_queues = l })) (sym g)
              (record {
                high = take-IsGroup ns s.prio_queue_num s.prio_queues i y p v.high a;
                ids = v.ids;
                group_valid = v.group_valid;
              }),
          (refl, refl, refl),
        ),
      )

  settle-ports : (s : PrioDwrr ns) (now : ns.Double) → ports ns (settle ns s now) ≡ ports ns s
  unfolding settle
  settle-ports s now =
      let t = with_dwrr ns s (update_estimate ns (as_dwrr ns s) now) in
      let e : ports ns t ≡ ports ns s =
        with_dwrr-ports ns s (update_estimate ns (as_dwrr ns s) now)
          (update_estimate-same ns (as_dwrr ns s) now) in
      elim (Bool-cases (total_dwrr_byte_length ns t == 0)) [
        | inl idle ↦ rw idle e
        | inr busy ↦ rw busy e
      ]

  ports-SameShape : (s t : PrioDwrr ns) → ports ns t ≡ ports ns s → SameShape ns s t
  ports-SameShape s t e = (
    ap (λ (c : Ports ns). c.prio_queue_num) e,
    ap (λ (c : Ports ns). c.group.queue_num) e,
    ap (λ (c : Ports ns). c.limit) e,
  )

  -- What the loop of DWRR makes of the group.
  low-DequeuedByPriority :
      (s : PrioDwrr ns) (now : ns.Double) (r : Pkt ns × Dwrr ns)
      → Valid ns s
      → total ns s.prio_queue_num (prio_view ns s.prio_queues) ≡ 0
      → 0 < total ns s.dwrr_queue_num (dwrr_view ns s.dwrr_queues)
      → Took ns (as_dwrr ns s) r
      → DequeuedByPriority s (some r.0, settle ns (with_dwrr ns s r.1) now)
  low-DequeuedByPriority s now (p, d) v z b (takes, (ids, w), (n, _)) =
      let t = with_dwrr ns s d in
      let e : ports ns (settle ns t now) ≡ ports ns t = settle-ports t now in
      let valid : Valid ns t = record {
        high = v.high;
        ids = ids;
        group_valid =
            subst
              (λ k.
                mq_ecn.Dwrr.Invariant.IsValid ns
                  (record {
                    slots = d.slots;
                    links = d.links;
                    quantum_sum = d.quantum_sum;
                    queue_num = k;
                  })
                  ids)
              n w;
      } in
      (
        subst (λ c. Serves (ports ns s) (some p) c) (sym e)
            (inr (inl (p, z, b, refl, refl, takes))),
        subst (IsValid ns) (sym e) valid,
        ports-SameShape t (settle ns t now) e,
      )

  -- In a valid PRIO_DWRR state `deque` returns, within the fuel that it takes and never
  -- through a null pointer or out of an array. If the higher priority queues hold a byte, it
  -- returns the oldest packet of the first of them that does, and the DWRR group is as
  -- before; else, if the DWRR queues hold a byte, it returns the oldest packet of one of
  -- them, and the higher priority queues are as before; else it returns no packet and no
  -- queue changes. The packet is changed in its congestion mark and time stamp at most, the
  -- other queues keep theirs, the state stays valid, and the numbers of queues and the size
  -- of the buffer are kept.
  pub deque-DequeuedByPriority :
      (s : PrioDwrr ns) (now : ns.Double)
      → Valid ns s
      → Returns (DequeuedByPriority s) (deque ns s now)
  unfolding deque serve_low rounds
  deque-DequeuedByPriority s now v =
      let a = prio_total ns s.prio_queue_num s.prio_queues v.high in
      let b = group_total ns (core ns (as_dwrr ns s)) v.ids v.group_valid in
      elim (Bool-cases (ltb 0 (total_prio_byte_length ns s))) [
        | inl high ↦
            rw high (serve_high-DequeuedByPriority s now v (omega (arith, a, ltb→lt _ _ high)))
        | inr none_high ↦
            let z : total ns s.prio_queue_num (prio_view ns s.prio_queues) ≡ 0 =
              omega (arith, a, ltb→le _ _ none_high) in
            elim (Bool-cases (ltb 0 (total_dwrr_byte_length ns s))) [
              | inl low ↦
                  let h : 0 < total ns s.dwrr_queue_num (dwrr_view ns s.dwrr_queues) =
                    omega (arith, b, ltb→lt _ _ low) in
                  let (r, e, t) =
                    loop-Took ns (rounds ns (as_dwrr ns s)) (as_dwrr ns s) now v.ids v.group_valid h
                      (omega arith) in
                  rw (none_high, low, e) (_, refl, low-DequeuedByPriority s now r v z h t)
              | inr idle ↦
                  let e = settle-ports s now in
                  rw (none_high, idle)
                    (
                      (none, settle ns s now),
                      refl,
                      (
                        inr (inr (z, omega (arith, b, ltb→le _ _ idle), refl, e)),
                        subst (IsValid ns) (sym e) v,
                        ports-SameShape s (settle ns s now) e,
                      ),
                    )
            ]
      ]

-- ===== src/PrioDwrr/Runs.antt =====
-- Runs of `PRIO_DWRR` from the state that its constructor leaves.
use mq_ecn.Common.{◌+◌, ℕ, ◌*◌, ◌≡◌, refl, ap, inl, inr, Option, List, Returns, arith}
use mq_ecn.Simulator.{Simulator}
use mq_ecn.Port.{Pkt, Fate}
use mq_ecn.Port.Backlog.{Enqueues, Dequeues}
use mq_ecn.Port.Run.{Scheduler, Event, offered, run, Conserves, run-Conserves}
use mq_ecn.PrioQueues.{max_prio_queue_num}
use mq_ecn.PrioQueues.Group.{all_queues, takes_high, takes_low}
use mq_ecn.PrioDwrr.{PrioDwrr, new_prio_dwrr, enque}
use mq_ecn.PrioDwrr.Deque.{deque}
use mq_ecn.PrioDwrr.Invariant.{
  Ports, ports, dwrr_view, held_by, held, IsValid, Valid, limit, total-groups,
  new_prio_dwrr-IsValid, new_held,
}
use mq_ecn.PrioDwrr.Refine.{Accepts, enque-EnqueuedInGroup}
use mq_ecn.PrioDwrr.Service.{Serves, deque-DequeuedByPriority}

module _ (ns : Simulator) where
  Accepts-Enqueues :
      (c : Ports ns) (p : Pkt ns) (r : Fate × PrioDwrr ns)
      → Accepts ns c p r.0 (held ns r.1)
      → Enqueues ns all_queues c.limit p (held_by ns c) r.0 (held ns r.1)
  Accepts-Enqueues c p r (inl (f, l, e)) = inl (f, l, e)
  Accepts-Enqueues c p r (inr (i, f, l, _, j)) = inr (f, l, (_, j))

  Serves-Dequeues :
      (c d : Ports ns) (out : Option (Pkt ns))
      → IsValid ns c
      → Serves ns c out d
      → Dequeues ns all_queues (held_by ns c) out (held_by ns d)
  Serves-Dequeues c d out v (inl (h, (i, x, y, p, f, w, b, t), g)) =
      let m =
        takes_high ns c.prio_queue_num c.prio_queues _ i p (dwrr_view ns c.group.slots) v.high t in
      inr (p, omega (arith, h, total-groups ns c v), f, (i, rw (w, g) m))
  Serves-Dequeues c d out v (inr (inl (p, z, h, f, e, (i, t)))) =
      let m =
        takes_low ns c.prio_queue_num c.prio_queues i _ p _ _ v.high v.group_valid.queue_num_in t in
      inr (p, omega (arith, h, total-groups ns c v), f, (max_prio_queue_num + i, rw e m))
  Serves-Dequeues c d out v (inr (inr (z, h, f, e))) =
      inl (omega (arith, z, h, total-groups ns c v), f, ap (held_by ns) e)

  pub enque_law :
      (s : PrioDwrr ns) (now : ns.Double) (p : Pkt ns)
      → Valid ns s
      → Returns
          (λ r.
            Enqueues ns all_queues (limit ns s) p (held ns s) r.0 (held ns r.1)
            × Valid ns r.1
            × ((all_queues ≡ all_queues) × (limit ns r.1 ≡ limit ns s)))
          (enque ns s now p)
  enque_law s now p v =
      let (r, e, (a, w, (_, _, l))) = enque-EnqueuedInGroup ns s now p v in
      (r, e, (Accepts-Enqueues (ports ns s) p r a, w, (refl, l)))

  pub deque_law :
      (s : PrioDwrr ns) (now : ns.Double)
      → Valid ns s
      → Returns
          (λ r.
            Dequeues ns all_queues (held ns s) r.0 (held ns r.1)
            × Valid ns r.1
            × ((all_queues ≡ all_queues) × (limit ns r.1 ≡ limit ns s)))
          (deque ns s now)
  deque_law s now v =
      let (r, e, (a, w, (_, _, l))) = deque-DequeuedByPriority ns s now v in
      (r, e, (Serves-Dequeues (ports ns s) (ports ns r.1) r.0 v a, w, (refl, l)))

  abbrev pub prio_dwrr_port : Scheduler ns
  prio_dwrr_port = record {
    State = PrioDwrr ns;
    IsValid = Valid ns;
    held = held ns;
    queue_num = λ s. all_queues;
    limit = limit ns;
    enque = enque ns;
    deque = deque ns;
    enque_law = enque_law;
    deque_law = deque_law;
  }

  -- From the state that the constructor of PRIO_DWRR leaves, with any `qlim`, every sequence
  -- of calls of `enque` and `deque` runs to its end: no call exits, leaves an array, meets a
  -- null pointer or runs out of fuel. The bytes that arrived are those in the queues of both
  -- groups, those sent and those dropped together, the queues hold at most `qlim * 1500`
  -- bytes, and the state is valid.
  pub run-PrioDwrr :
      (qlim : ℕ) (es : List (Event ns))
      → Returns
          (Conserves ns prio_dwrr_port (offered ns es) (qlim * 1500))
          (run ns prio_dwrr_port es (record { sent = 0; lost = 0 }) (new_prio_dwrr ns qlim))
  unfolding new_prio_dwrr
  run-PrioDwrr qlim es =
      run-Conserves ns prio_dwrr_port es (new_prio_dwrr ns qlim) (new_prio_dwrr-IsValid ns qlim)
        (new_held ns qlim)

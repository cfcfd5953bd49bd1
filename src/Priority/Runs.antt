-- ===== src/Priority/Runs.antt =====
-- Runs of `Priority` from the state that its constructor leaves.
use mq_ecn.Common.{ap, sym, ◌∙◌, replicate, ℕ, ◌*◌, ◌≡◌, List, sum_first-replicate, Returns}
use mq_ecn.Simulator.{Simulator, bytes_of}
use mq_ecn.Port.Backlog.{total, view, bytes-view}
use mq_ecn.Port.{max_queue_num}
use mq_ecn.Port.Run.{Scheduler, Event, offered, run, Conserves, run-Conserves}
use mq_ecn.Priority.{Slot, Priority, new_slot, new_priority, enque}
use mq_ecn.Common.{inl, inr, Option}
use mq_ecn.Port.{Pkt}
use mq_ecn.Port.Backlog.{Dequeues}
use mq_ecn.Priority.{deque}
use mq_ecn.Priority.Refine.{held, limit, IsValid, SameShape, new_priority-IsValid, enque-Enqueues}
use mq_ecn.Priority.Service.{ServedFirst, deque-ServedFirst}

module _ (ns : Simulator) where
  ServedFirst-Dequeues :
      (s : Priority ns) (r : Option (Pkt ns) × Priority ns)
      → ServedFirst ns s r
      → Dequeues ns s.queue_num (held ns s) r.0 (held ns r.1) × IsValid ns r.1 × SameShape ns s r.1
  ServedFirst-Dequeues s r (inl (z, f, w), v, l) = (inl (z, f, ap (held ns) w), v, l)
  ServedFirst-Dequeues s r (inr (p, z, f, (i, t, _)), v, l) = (inr (p, z, f, (i, t)), v, l)

  pub deque_law :
      (s : Priority ns) (now : ns.Double)
      → IsValid ns s
      → Returns
          (λ r.
            Dequeues ns s.queue_num (held ns s) r.0 (held ns r.1)
            × IsValid ns r.1
            × SameShape ns s r.1)
          (deque ns s now)
  deque_law s now v =
      let (r, e, h) = deque-ServedFirst ns s now v in (r, e, ServedFirst-Dequeues s r h)

  abbrev pub priority_port : Scheduler ns
  priority_port = record {
    State = Priority ns;
    IsValid = IsValid ns;
    held = held ns;
    queue_num = λ s. s.queue_num;
    limit = limit ns;
    enque = enque ns;
    deque = deque ns;
    enque_law = enque-Enqueues ns;
    deque_law = deque_law;
  }

  empty :
      total ns max_queue_num
        (view ns (λ (x : Slot ns). x.fifo) (replicate max_queue_num (new_slot ns)))
      ≡ 0
  empty =
      sym (
        bytes-view ns (λ (x : Slot ns). x.fifo) max_queue_num
          (replicate max_queue_num (new_slot ns)))
      ∙ sum_first-replicate (λ (x : Slot ns). ns.byte_length x.fifo) max_queue_num max_queue_num
          (new_slot ns) (ns.bytes-eq ns.new_queue ∙ ap bytes_of ns.contents-new)

  -- From the state that the constructor of Priority leaves, with any `qlim`, every sequence
  -- of calls of `enque` and `deque` runs to its end: no call exits, leaves an array or runs
  -- out of fuel. The bytes that arrived are those in the queues, those sent and those dropped
  -- together, the queues hold at most `qlim * 1500` bytes, and the state is valid.
  pub run-Priority :
      (qlim : ℕ) (es : List (Event ns))
      → Returns
          (Conserves ns priority_port (offered ns es) (qlim * 1500))
          (run ns priority_port es (record { sent = 0; lost = 0 }) (new_priority ns qlim))
  unfolding new_priority
  run-Priority qlim es =
      run-Conserves ns priority_port es (new_priority ns qlim) (new_priority-IsValid ns qlim) empty

-- ===== src/Dwrr/Runs.antt =====
-- Runs of `DWRR` from the state that its constructor leaves.
use mq_ecn.Common.{ap, sym, ◌∙◌, replicate, ℕ, ◌*◌, ◌≡◌, List, sum_first-replicate, Returns}
use mq_ecn.Simulator.{Simulator, bytes_of}
use mq_ecn.Port.Backlog.{total, view, bytes-view}
use mq_ecn.Port.{max_queue_num}
use mq_ecn.Port.Run.{Scheduler, Event, offered, run, Conserves, run-Conserves}
use mq_ecn.Dwrr.{Slot, Dwrr, new_slot, new_dwrr, enque}
use mq_ecn.Common.{[]}
use mq_ecn.Dwrr.Deque.{deque}
use mq_ecn.Dwrr.Invariant.{held, limit, Valid}
use mq_ecn.Dwrr.Refine.{enque-EnqueuedListed}
use mq_ecn.Dwrr.Rounds.{deque-DequeuedListed}
use mq_ecn.Dwrr.Control.{new_dwrr-IsValid}

module _ (ns : Simulator) where
  abbrev pub dwrr_port : Scheduler ns
  dwrr_port = record {
    State = Dwrr ns;
    IsValid = Valid ns;
    held = held ns;
    queue_num = λ s. s.queue_num;
    limit = limit ns;
    enque = enque ns;
    deque = deque ns;
    enque_law = enque-EnqueuedListed ns;
    deque_law = deque-DequeuedListed ns;
  }

  empty : total ns 8 (view ns (λ (x : Slot ns). x.fifo) (replicate max_queue_num (new_slot ns))) ≡ 0
  unfolding new_slot
  empty =
      sym (bytes-view ns (λ (x : Slot ns). x.fifo) 8 (replicate max_queue_num (new_slot ns)))
      ∙ sum_first-replicate (λ (x : Slot ns). ns.byte_length x.fifo) 8 max_queue_num (new_slot ns)
          (ns.bytes-eq ns.new_queue ∙ ap bytes_of ns.contents-new)

  -- From the state that the constructor of DWRR leaves, with any `qlim`, every sequence of
  -- calls of `enque` and `deque` runs to its end: no call exits, leaves an array, meets a
  -- null pointer or runs out of fuel. The bytes that arrived are those in the queues, those
  -- sent and those dropped together, the queues hold at most `qlim * 1500` bytes, and the
  -- state is valid.
  pub run-Dwrr :
      (qlim : ℕ) (es : List (Event ns))
      → Returns
          (Conserves ns dwrr_port (offered ns es) (qlim * 1500))
          (run ns dwrr_port es (record { sent = 0; lost = 0 }) (new_dwrr ns qlim))
  unfolding new_dwrr
  run-Dwrr qlim es =
      run-Conserves ns dwrr_port es (new_dwrr ns qlim) ([], new_dwrr-IsValid ns qlim) empty

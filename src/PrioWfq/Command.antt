-- ===== src/PrioWfq/Command.antt =====
-- `PRIO_WFQ::command` of NS2/scheduling/prio_wfq/prio_wfq.cc.
use Prim.Native.String.{String}
use text.Mathlib.Text.{◌==◌ as str_eq}
use mq_ecn.Common.{
  ℕ, ◌+◌, ◌-◌, ℤ, pos, negsuc, Option, none, some, List, [], ◌∷◌, ltb, leb, ◌&&◌, if◌then◌else◌,
  get_elem?, set, Result, ok, exited, ◌>>=◌,
}
use mq_ecn.Simulator.{Simulator, of_nat}
use mq_ecn.Port.{zero_double, Status, tcl_ok, tcl_error, or_undefined}
use mq_ecn.PrioWfq.{PrioWfq}

module _ (ns : Simulator) where
  unfoldable pub attach_total : PrioWfq ns → Option ℕ → Result (Status × PrioWfq ns)
  attach_total s none = ok (tcl_error, record s { total_qlen_tchan = none })
  attach_total s (some c) = ok (tcl_ok, record s { total_qlen_tchan = some c })

  unfoldable pub attach_queue : PrioWfq ns → Option ℕ → Result (Status × PrioWfq ns)
  attach_queue s none = ok (tcl_error, record s { qlen_tchan = none })
  attach_queue s (some c) = ok (tcl_ok, record s { qlen_tchan = some c })

  -- `atoi(argv[2]) - prio_queue_num_`, if it is the index of a WFQ queue.
  unfoldable pub wfq_index : PrioWfq ns → ℤ → Result ℕ
  wfq_index s (negsuc n) = exited
  wfq_index s (pos q) =
      if leb s.prio_queue_num q && ltb (q - s.prio_queue_num) s.wfq_queue_num
      then ok (q - s.prio_queue_num)
      else exited

  -- The weight is an `int` here.
  unfoldable pub set_weight : PrioWfq ns → ℤ → ℤ → Result (Status × PrioWfq ns)
  set_weight s id (negsuc n) = wfq_index s id >>= λ _. exited
  set_weight s id (pos q) = do
    i ← wfq_index s id
    if ltb 0 q
        then (do
          x ← or_undefined (get_elem? s.wfq_queues i)
          ok (
            tcl_ok,
            record s { wfq_queues = set s.wfq_queues i (record x { weight = of_nat ns q }) },
          ))
        else exited

  -- The write of a threshold to queue `q` of all.
  unfoldable pub write_thresh : PrioWfq ns → ℕ → ns.Double → Result (Status × PrioWfq ns)
  write_thresh s q t =
      if ltb q s.prio_queue_num
      then (do
        x ← or_undefined (get_elem? s.prio_queues q)
        ok (tcl_ok, record s { prio_queues = set s.prio_queues q (record x { thresh = t }) }))
      else (do
        x ← or_undefined (get_elem? s.wfq_queues (q - s.prio_queue_num))
        ok (
          tcl_ok,
          record s {
            wfq_queues = set s.wfq_queues (q - s.prio_queue_num) (record x { thresh = t });
          },
        ))

  unfoldable pub set_thresh : PrioWfq ns → ℤ → ns.Double → Result (Status × PrioWfq ns)
  set_thresh s (negsuc n) t = exited
  set_thresh s (pos q) t =
      if ltb q (s.prio_queue_num + s.wfq_queue_num)
      then (if ns.le (zero_double ns) t then write_thresh s q t else exited)
      else exited

  -- The list is `argv`, and `argc` its length. `inherited` is `Queue::command` of ns-2.
  unfoldable pub command :
      (PrioWfq ns → List String → Result (Status × PrioWfq ns))
      → PrioWfq ns
      → List String
      → Result (Status × PrioWfq ns)
  command inherited s (self ∷ name ∷ id ∷ []) =
      if str_eq name "attach-total"
      then attach_total s (ns.get_channel id)
      else if str_eq name "attach-queue"
      then attach_queue s (ns.get_channel id)
      else inherited s (self ∷ name ∷ id ∷ [])
  command inherited s (self ∷ name ∷ id ∷ value ∷ []) =
      if str_eq name "set-weight"
      then set_weight s (ns.atoi id) (ns.atoi value)
      else if str_eq name "set-thresh"
      then set_thresh s (ns.atoi id) (ns.atof value)
      else inherited s (self ∷ name ∷ id ∷ value ∷ [])
  command inherited s args = inherited s args

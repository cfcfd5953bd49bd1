-- ===== src/Wfq/Command.antt =====
-- `WFQ::command` of NS2/diffserv/wfq/wfq.cc.
use Prim.Native.String.{String}
use text.Mathlib.Text.{◌==◌ as str_eq}
use mq_ecn.Common.{
  ℕ, min, ℤ, pos, negsuc, Option, none, some, List, [], ◌∷◌, ltb, if◌then◌else◌, get_elem?, set,
  Result, ok, exited, ◌>>=◌,
}
use mq_ecn.Simulator.{Simulator}
use mq_ecn.Port.{zero_double, Status, tcl_ok, tcl_error, or_undefined, max_queue_num}
use mq_ecn.Wfq.{Slot, Wfq}

module _ (ns : Simulator) where
  unfoldable pub attach_total : Wfq ns → Option ℕ → Result (Status × Wfq ns)
  attach_total s none = ok (tcl_error, record s { total_qlen_tchan = none })
  attach_total s (some c) = ok (tcl_ok, record s { total_qlen_tchan = some c })

  unfoldable pub attach_queue : Wfq ns → Option ℕ → Result (Status × Wfq ns)
  attach_queue s none = ok (tcl_error, record s { qlen_tchan = none })
  attach_queue s (some c) = ok (tcl_ok, record s { qlen_tchan = some c })

  -- The queue that a command names; any other number ends the program.
  unfoldable pub find_slot : Wfq ns → ℤ → Result (ℕ × Slot ns)
  find_slot s (negsuc n) = exited
  find_slot s (pos i) =
      if ltb i s.queue_num then (do x ← or_undefined (get_elem? s.slots i); ok (i, x)) else exited

  -- Its test of the queue number bounds it by the size of the array too.
  unfoldable pub set_weight : Wfq ns → ℤ → ns.Double → Result (Status × Wfq ns)
  set_weight s (negsuc n) w = exited
  set_weight s (pos i) w =
      if ltb i (min s.queue_num max_queue_num)
      then (do
        x ← or_undefined (get_elem? s.slots i)
        if ns.lt (zero_double ns) w
            then ok (tcl_ok, record s { slots = set s.slots i (record x { weight = w }) })
            else exited)
      else exited

  unfoldable pub set_thresh : Wfq ns → ℤ → ns.Double → Result (Status × Wfq ns)
  set_thresh s id t = do
    (i, x) ← find_slot s id
    if ns.le (zero_double ns) t
        then ok (tcl_ok, record s { slots = set s.slots i (record x { thresh = t }) })
        else exited

  -- The list is `argv`, and `argc` its length. `inherited` is `Queue::command` of ns-2.
  unfoldable pub command :
      (Wfq ns → List String → Result (Status × Wfq ns))
      → Wfq ns
      → List String
      → Result (Status × Wfq ns)
  command inherited s (self ∷ name ∷ id ∷ []) =
      if str_eq name "attach-total"
      then attach_total s (ns.get_channel id)
      else if str_eq name "attach-queue"
      then attach_queue s (ns.get_channel id)
      else inherited s (self ∷ name ∷ id ∷ [])
  command inherited s (self ∷ name ∷ id ∷ value ∷ []) =
      if str_eq name "set-weight"
      then set_weight s (ns.atoi id) (ns.atof value)
      else if str_eq name "set-thresh"
      then set_thresh s (ns.atoi id) (ns.atof value)
      else inherited s (self ∷ name ∷ id ∷ value ∷ [])
  command inherited s args = inherited s args

-- ===== src/Wrr/Command.antt =====
-- `WRR::command` of NS2/diffserv/wrr/wrr.cc.
use Prim.Native.String.{String}
use text.Mathlib.Text.{◌==◌ as str_eq}
use mq_ecn.Common.{
  ℕ, ℤ, pos, negsuc, Option, none, some, List, [], ◌∷◌, ltb, if◌then◌else◌, get_elem?, set, Result,
  ok, exited, ◌>>=◌,
}
use mq_ecn.Simulator.{Simulator}
use mq_ecn.Port.{zero_double, Status, tcl_ok, tcl_error, or_undefined}
use mq_ecn.Wrr.{Slot, Wrr}

module _ (ns : Simulator) where
  unfoldable pub attach_total : Wrr ns → Option ℕ → Result (Status × Wrr ns)
  attach_total s none = ok (tcl_error, record s { total_qlen_tchan = none })
  attach_total s (some c) = ok (tcl_ok, record s { total_qlen_tchan = some c })

  unfoldable pub attach_queue : Wrr ns → Option ℕ → Result (Status × Wrr ns)
  attach_queue s none = ok (tcl_error, record s { qlen_tchan = none })
  attach_queue s (some c) = ok (tcl_ok, record s { qlen_tchan = some c })

  -- The queue that a command names; any other number ends the program.
  unfoldable pub find_slot : Wrr ns → ℤ → Result (ℕ × Slot ns)
  find_slot s (negsuc n) = exited
  find_slot s (pos i) =
      if ltb i s.queue_num then (do x ← or_undefined (get_elem? s.slots i); ok (i, x)) else exited

  unfoldable pub set_quantum : Wrr ns → ℤ → ℤ → Result (Status × Wrr ns)
  set_quantum s id (negsuc n) = find_slot s id >>= λ _. exited
  set_quantum s id (pos q) = do
    (i, x) ← find_slot s id
    if ltb 0 q
        then ok (tcl_ok, record s { slots = set s.slots i (record x { quantum = q }) })
        else exited

  unfoldable pub set_thresh : Wrr ns → ℤ → ns.Double → Result (Status × Wrr ns)
  set_thresh s id t = do
    (i, x) ← find_slot s id
    if ns.le (zero_double ns) t
        then ok (tcl_ok, record s { slots = set s.slots i (record x { thresh = t }) })
        else exited

  -- The list is `argv`, and `argc` its length. `inherited` is `Queue::command` of ns-2.
  unfoldable pub command :
      (Wrr ns → List String → Result (Status × Wrr ns))
      → Wrr ns
      → List String
      → Result (Status × Wrr ns)
  command inherited s (self ∷ name ∷ id ∷ []) =
      if str_eq name "attach-total"
      then attach_total s (ns.get_channel id)
      else if str_eq name "attach-queue"
      then attach_queue s (ns.get_channel id)
      else inherited s (self ∷ name ∷ id ∷ [])
  command inherited s (self ∷ name ∷ id ∷ value ∷ []) =
      if str_eq name "set-quantum"
      then set_quantum s (ns.atoi id) (ns.atoi value)
      else if str_eq name "set-thresh"
      then set_thresh s (ns.atoi id) (ns.atof value)
      else inherited s (self ∷ name ∷ id ∷ value ∷ [])
  command inherited s args = inherited s args

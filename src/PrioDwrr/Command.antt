-- ===== src/PrioDwrr/Command.antt =====
-- `PRIO_DWRR::command` of NS2/scheduling/prio_dwrr/prio_dwrr.cc.
use Prim.Native.String.{String}
use text.Mathlib.Text.{◌==◌ as str_eq}
use mq_ecn.Common.{
  ℕ, ◌+◌, ◌-◌, ℤ, pos, negsuc, Option, none, some, List, [], ◌∷◌, ltb, leb, ◌&&◌, if◌then◌else◌,
  get_elem?, set, Result, ok, exited, ◌>>=◌,
}
use mq_ecn.Simulator.{Simulator}
use mq_ecn.Port.{zero_double, Status, tcl_ok, tcl_error, or_undefined}
use mq_ecn.PrioDwrr.{PrioDwrr}

module _ (ns : Simulator) where
  unfoldable pub attach_total : PrioDwrr ns → Option ℕ → Result (Status × PrioDwrr ns)
  attach_total s none = ok (tcl_error, record s { total_qlen_tchan = none })
  attach_total s (some c) = ok (tcl_ok, record s { total_qlen_tchan = some c })

  unfoldable pub attach_queue : PrioDwrr ns → Option ℕ → Result (Status × PrioDwrr ns)
  attach_queue s none = ok (tcl_error, record s { qlen_tchan = none })
  attach_queue s (some c) = ok (tcl_ok, record s { qlen_tchan = some c })

  -- `atoi(argv[2]) - prio_queue_num_`, if it is the index of a DWRR queue.
  unfoldable pub dwrr_index : PrioDwrr ns → ℤ → Result ℕ
  dwrr_index s (negsuc n) = exited
  dwrr_index s (pos q) =
      if leb s.prio_queue_num q && ltb (q - s.prio_queue_num) s.dwrr_queue_num
      then ok (q - s.prio_queue_num)
      else exited

  unfoldable pub set_quantum : PrioDwrr ns → ℤ → ℤ → Result (Status × PrioDwrr ns)
  set_quantum s id (negsuc n) = dwrr_index s id >>= λ _. exited
  set_quantum s id (pos q) = do
    i ← dwrr_index s id
    if ltb 0 q
        then (do
          x ← or_undefined (get_elem? s.dwrr_queues i)
          ok (tcl_ok, record s { dwrr_queues = set s.dwrr_queues i (record x { quantum = q }) }))
        else exited

  -- The write of a threshold to queue `q` of all.
  unfoldable pub write_thresh : PrioDwrr ns → ℕ → ns.Double → Result (Status × PrioDwrr ns)
  write_thresh s q t =
      if ltb q s.prio_queue_num
      then (do
        x ← or_undefined (get_elem? s.prio_queues q)
        ok (tcl_ok, record s { prio_queues = set s.prio_queues q (record x { thresh = t }) }))
      else (do
        x ← or_undefined (get_elem? s.dwrr_queues (q - s.prio_queue_num))
        ok (
          tcl_ok,
          record s {
            dwrr_queues = set s.dwrr_queues (q - s.prio_queue_num) (record x { thresh = t });
          },
        ))

  unfoldable pub set_thresh : PrioDwrr ns → ℤ → ns.Double → Result (Status × PrioDwrr ns)
  set_thresh s (negsuc n) t = exited
  set_thresh s (pos q) t =
      if ltb q (s.prio_queue_num + s.dwrr_queue_num)
      then (if ns.le (zero_double ns) t then write_thresh s q t else exited)
      else exited

  -- The list is `argv`, and `argc` its length. `inherited` is `Queue::command` of ns-2.
  unfoldable pub command :
      (PrioDwrr ns → List String → Result (Status × PrioDwrr ns))
      → PrioDwrr ns
      → List String
      → Result (Status × PrioDwrr ns)
  command inherited s (self ∷ name ∷ id ∷ []) =
      if str_eq name "attach-total"
      then attach_total s (ns.get_channel id)
      else if str_eq name "attach-queue"
      then attach_queue s (ns.get_channel id)
      else inherited s (self ∷ name ∷ id ∷ [])
  command inherited s (self ∷ name ∷ id ∷ value ∷ []) =
      if str_eq name "set-quantum"
      then set_quantum s (ns.atoi id) (ns.atoi value)
      else if str_eq name "set-thresh"
      then set_thresh s (ns.atoi id) (ns.atof value)
      else inherited s (self ∷ name ∷ id ∷ value ∷ [])
  command inherited s args = inherited s args

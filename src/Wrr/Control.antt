-- ===== src/Wrr/Control.antt =====
-- What the constructor and `command` of `WRR` leave.
use Prim.Native.String.{String}
use text.Mathlib.Text.{◌==◌ as str_eq}
use mq_ecn.Common.{
  ℕ, ◌≡◌, refl, sym, ap, ◌∙◌, inl, inr, ℤ, pos, negsuc, Option, none, some, List, [], ◌∷◌,
  get_elem?, set, set_keeps, length-set, length-replicate, get_elem?-replicate, get_elem?-total, ok,
  Settles, Settles-bind, Settles-guard, ltb, ltb→lt, arith,
}
use mq_ecn.Simulator.{Simulator}
use mq_ecn.Port.{Status, tcl_ok, tcl_error, max_queue_num, zero_double}
use mq_ecn.Port.Arguments.{is_own, Handles, Handles-if}
use mq_ecn.Common.{Result}
use mq_ecn.Port.Backlog.{view-set_same}
use mq_ecn.Wrr.{Slot, Wrr, new_slot, new_wrr}
use mq_ecn.Wrr.Command.{attach_total, attach_queue, find_slot, set_quantum, set_thresh, command}
use mq_ecn.Wrr.Refine.{held, IsValid, Waits}

module _ (ns : Simulator) where
  pub new_wrr-IsValid : (qlim : ℕ) → IsValid ns (new_wrr ns qlim)
  unfolding new_wrr new_slot
  new_wrr-IsValid qlim = record {
    slots_length = length-replicate max_queue_num (new_slot ns);
    queue_num_in = omega arith;
    current_in = omega arith;
    others_wait = λ i x g _.
        ap (λ (z : Slot ns). z.counter_updated)
          (sym (get_elem?-replicate max_queue_num (new_slot ns) i x g));
  }

  -- The state is valid, and its queues hold what those of `s` do.
  abbrev pub KeepsTurn : Wrr ns → Status × Wrr ns → Type 0
  KeepsTurn s r = IsValid ns r.1 × (held ns r.1 ≡ held ns s)

  set-KeepsTurn :
      (s : Wrr ns) (i : ℕ) (x y : Slot ns)
      → IsValid ns s
      → get_elem? s.slots i ≡ some x
      → y.fifo ≡ x.fifo
      → y.counter_updated ≡ x.counter_updated
      → Settles (KeepsTurn s) (ok (tcl_ok, record s { slots = set s.slots i y }))
  set-KeepsTurn s i x y v g f c = inr (
    _,
    refl,
    (
      record {
        slots_length = length-set s.slots i y ∙ v.slots_length;
        queue_num_in = v.queue_num_in;
        current_in = v.current_in;
        others_wait =
            set_keeps (Waits ns s.current) s.slots i y v.others_wait
              (λ ne. c ∙ v.others_wait i x g ne);
      },
      view-set_same ns (λ (x : Slot ns). x.fifo) s.slots i x y g f,
    ),
  )

  find_slot-Settles :
      (s : Wrr ns) (id : ℤ)
      → IsValid ns s
      → Settles (λ r. get_elem? s.slots r.0 ≡ some r.1) (find_slot ns s id)
  unfolding find_slot
  find_slot-Settles s (negsuc n) v = inl refl
  find_slot-Settles s (pos i) v = Settles-guard _ (ltb i s.queue_num) _ (λ l.
      let (x, g) =
        get_elem?-total s.slots i (omega (arith, ltb→lt _ _ l, v.queue_num_in, v.slots_length)) in
      rw g (inr ((i, x), refl, g)))

  set_quantum-KeepsTurn :
      (s : Wrr ns) (id q : ℤ) → IsValid ns s → Settles (KeepsTurn s) (set_quantum ns s id q)
  unfolding set_quantum
  set_quantum-KeepsTurn s id (negsuc n) v =
      Settles-bind _ _ (find_slot ns s id) _ (find_slot-Settles s id v) (λ r g. inl refl)
  set_quantum-KeepsTurn s id (pos q) v =
      Settles-bind _ _ (find_slot ns s id) _ (find_slot-Settles s id v)
        (λ r g. Settles-guard _ (ltb 0 q) _ (λ _. set-KeepsTurn s r.0 r.1 _ v g refl refl))

  set_thresh-KeepsTurn :
      (s : Wrr ns) (id : ℤ) (t : ns.Double)
      → IsValid ns s
      → Settles (KeepsTurn s) (set_thresh ns s id t)
  unfolding set_thresh
  set_thresh-KeepsTurn s id t v =
      Settles-bind _ _ (find_slot ns s id) _ (find_slot-Settles s id v) (λ r g.
        Settles-guard _ (ns.le (zero_double ns) t) _ (λ _. set-KeepsTurn s r.0 r.1 _ v g refl refl))

  abbrev same_queues : Wrr ns → Option ℕ → Option ℕ → Wrr ns
  same_queues s a b = record s { total_qlen_tchan = a; qlen_tchan = b }

  attach-KeepsTurn :
      (s : Wrr ns) (status : Status) (a b : Option ℕ)
      → IsValid ns s
      → Settles (KeepsTurn s) (ok (status, same_queues s a b))
  attach-KeepsTurn s status a b v = inr (
    _,
    refl,
    (
      record {
        slots_length = v.slots_length;
        queue_num_in = v.queue_num_in;
        current_in = v.current_in;
        others_wait = v.others_wait;
      },
      refl,
    ),
  )

  attach_total-KeepsTurn :
      (s : Wrr ns) (c : Option ℕ) → IsValid ns s → Settles (KeepsTurn s) (attach_total ns s c)
  unfolding attach_total
  attach_total-KeepsTurn s none v = attach-KeepsTurn s tcl_error none s.qlen_tchan v
  attach_total-KeepsTurn s (some c) v = attach-KeepsTurn s tcl_ok (some c) s.qlen_tchan v

  attach_queue-KeepsTurn :
      (s : Wrr ns) (c : Option ℕ) → IsValid ns s → Settles (KeepsTurn s) (attach_queue ns s c)
  unfolding attach_queue
  attach_queue-KeepsTurn s none v = attach-KeepsTurn s tcl_error s.total_qlen_tchan none v
  attach_queue-KeepsTurn s (some c) v = attach-KeepsTurn s tcl_ok s.total_qlen_tchan (some c) v

  -- In a valid WRR state `command`, on `attach-total` or `attach-queue` with one value, or
  -- `set-quantum` or `set-thresh` with two, whatever the values, ends the program by `exit`
  -- or returns; it never leaves the array. A state that it returns is valid, and the queues
  -- hold what they held. On any other arguments it does what `Queue::command` does.
  pub command-KeepsTurn :
      (inherited : Wrr ns → List String → Result (Status × Wrr ns)) (s : Wrr ns)
      (args : List String)
      → IsValid ns s
      → Handles
          (KeepsTurn s)
          (is_own "set-quantum" args)
          (command ns inherited s args)
          (inherited s args)
  unfolding command
  command-KeepsTurn inherited s [] v = inr (refl, refl)
  command-KeepsTurn inherited s (self ∷ []) v = inr (refl, refl)
  command-KeepsTurn inherited s (self ∷ name ∷ []) v = inr (refl, refl)
  command-KeepsTurn inherited s (self ∷ name ∷ id ∷ []) v =
      Handles-if _ (str_eq name "attach-total") (str_eq name "attach-queue") _ _ _
        (attach_total-KeepsTurn s (ns.get_channel id) v)
        (attach_queue-KeepsTurn s (ns.get_channel id) v)
  command-KeepsTurn inherited s (self ∷ name ∷ id ∷ value ∷ []) v =
      Handles-if _ (str_eq name "set-quantum") (str_eq name "set-thresh") _ _ _
        (set_quantum-KeepsTurn s (ns.atoi id) (ns.atoi value) v)
        (set_thresh-KeepsTurn s (ns.atoi id) (ns.atof value) v)
  command-KeepsTurn inherited s (self ∷ name ∷ id ∷ value ∷ more ∷ rest) v = inr (refl, refl)

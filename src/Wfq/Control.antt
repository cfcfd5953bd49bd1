-- ===== src/Wfq/Control.antt =====
-- What the constructor and `command` of `WFQ` leave.
use Prim.Native.String.{String}
use text.Mathlib.Text.{◌==◌ as str_eq}
use mq_ecn.Common.{
  ℕ, min, ◌≡◌, refl, subst, ◌∙◌, inl, inr, true, ℤ, pos, negsuc, Option, none, some, List, [], ◌∷◌,
  get_elem?, set, set_keeps, length-set, length-replicate, get_elem?-replicate, get_elem?-total, ok,
  Settles, Settles-bind, Settles-guard, ltb, ltb→lt, arith,
}
use mq_ecn.Simulator.{Simulator, of_nat}
use mq_ecn.Port.{Status, tcl_ok, tcl_error, max_queue_num, zero_double}
use mq_ecn.Port.Arguments.{is_own, Handles, Handles-if}
use mq_ecn.Common.{Result}
use mq_ecn.Port.Backlog.{view-set_same}
use mq_ecn.Wfq.{Slot, Wfq, new_slot, new_wfq}
use mq_ecn.Wfq.Command.{attach_total, attach_queue, find_slot, set_weight, set_thresh, command}
use mq_ecn.Wfq.Refine.{held, IsValid, Weighs}

module _ (ns : Simulator) where
  pub new_wfq-IsValid :
      (qlim : ℕ) → ns.lt (zero_double ns) (of_nat ns 10000) ≡ true → IsValid ns (new_wfq ns qlim)
  unfolding new_wfq new_slot
  new_wfq-IsValid qlim positive = record {
    slots_length = length-replicate max_queue_num (new_slot ns);
    some_queue = omega arith;
    queue_num_in = omega arith;
    weights = λ i x g.
        subst (Weighs ns i) (get_elem?-replicate max_queue_num (new_slot ns) i x g) positive;
  }

  -- The state is valid, and its queues hold what those of `s` do.
  abbrev pub KeepsWeights : Wfq ns → Status × Wfq ns → Type 0
  KeepsWeights s r = IsValid ns r.1 × (held ns r.1 ≡ held ns s)

  set-KeepsWeights :
      (s : Wfq ns) (i : ℕ) (x y : Slot ns)
      → IsValid ns s
      → get_elem? s.slots i ≡ some x
      → y.fifo ≡ x.fifo
      → Weighs ns i y
      → Settles (KeepsWeights s) (ok (tcl_ok, record s { slots = set s.slots i y }))
  set-KeepsWeights s i x y v g f c = inr (
    _,
    refl,
    (
      record {
        slots_length = length-set s.slots i y ∙ v.slots_length;
        queue_num_in = v.queue_num_in;
        some_queue = v.some_queue;
        weights = set_keeps (Weighs ns) s.slots i y v.weights c;
      },
      view-set_same ns (λ (x : Slot ns). x.fifo) s.slots i x y g f,
    ),
  )

  find_slot-Settles :
      (s : Wfq ns) (id : ℤ)
      → IsValid ns s
      → Settles (λ r. get_elem? s.slots r.0 ≡ some r.1) (find_slot ns s id)
  unfolding find_slot
  find_slot-Settles s (negsuc n) v = inl refl
  find_slot-Settles s (pos i) v = Settles-guard _ (ltb i s.queue_num) _ (λ l.
      let (x, g) =
        get_elem?-total s.slots i (omega (arith, ltb→lt _ _ l, v.queue_num_in, v.slots_length)) in
      rw g (inr ((i, x), refl, g)))

  set_weight-KeepsWeights :
      (s : Wfq ns) (id : ℤ) (w : ns.Double)
      → IsValid ns s
      → Settles (KeepsWeights s) (set_weight ns s id w)
  unfolding set_weight
  set_weight-KeepsWeights s (negsuc n) w v = inl refl
  set_weight-KeepsWeights s (pos i) w v =
      Settles-guard _ (ltb i (min s.queue_num max_queue_num)) _ (λ l.
        let (x, g) = get_elem?-total s.slots i (omega (arith, ltb→lt _ _ l, v.slots_length)) in
        rw g
          (Settles-guard _ (ns.lt (zero_double ns) w) _ (λ h. set-KeepsWeights s i x _ v g refl h)))

  set_thresh-KeepsWeights :
      (s : Wfq ns) (id : ℤ) (t : ns.Double)
      → IsValid ns s
      → Settles (KeepsWeights s) (set_thresh ns s id t)
  unfolding set_thresh
  set_thresh-KeepsWeights s id t v =
      Settles-bind _ _ (find_slot ns s id) _ (find_slot-Settles s id v) (λ r g.
        Settles-guard _ (ns.le (zero_double ns) t) _
          (λ _. set-KeepsWeights s r.0 r.1 _ v g refl (v.weights r.0 r.1 g)))

  abbrev same_queues : Wfq ns → Option ℕ → Option ℕ → Wfq ns
  same_queues s a b = record s { total_qlen_tchan = a; qlen_tchan = b }

  attach-KeepsWeights :
      (s : Wfq ns) (status : Status) (a b : Option ℕ)
      → IsValid ns s
      → Settles (KeepsWeights s) (ok (status, same_queues s a b))
  attach-KeepsWeights s status a b v = inr (
    _,
    refl,
    (
      record {
        slots_length = v.slots_length;
        queue_num_in = v.queue_num_in;
        some_queue = v.some_queue;
        weights = v.weights;
      },
      refl,
    ),
  )

  attach_total-KeepsWeights :
      (s : Wfq ns) (c : Option ℕ) → IsValid ns s → Settles (KeepsWeights s) (attach_total ns s c)
  unfolding attach_total
  attach_total-KeepsWeights s none v = attach-KeepsWeights s tcl_error none s.qlen_tchan v
  attach_total-KeepsWeights s (some c) v = attach-KeepsWeights s tcl_ok (some c) s.qlen_tchan v

  attach_queue-KeepsWeights :
      (s : Wfq ns) (c : Option ℕ) → IsValid ns s → Settles (KeepsWeights s) (attach_queue ns s c)
  unfolding attach_queue
  attach_queue-KeepsWeights s none v = attach-KeepsWeights s tcl_error s.total_qlen_tchan none v
  attach_queue-KeepsWeights s (some c) v =
      attach-KeepsWeights s tcl_ok s.total_qlen_tchan (some c) v

  -- In a valid WFQ state `command`, on `attach-total` or `attach-queue` with one value, or
  -- `set-weight` or `set-thresh` with two, whatever the values, ends the program by `exit` or
  -- returns; it never leaves the array. A state that it returns is valid, in particular every
  -- weight is positive, and the queues hold what they held. On any other arguments it does
  -- what `Queue::command` does.
  pub command-KeepsWeights :
      (inherited : Wfq ns → List String → Result (Status × Wfq ns)) (s : Wfq ns)
      (args : List String)
      → IsValid ns s
      → Handles
          (KeepsWeights s)
          (is_own "set-weight" args)
          (command ns inherited s args)
          (inherited s args)
  unfolding command
  command-KeepsWeights inherited s [] v = inr (refl, refl)
  command-KeepsWeights inherited s (self ∷ []) v = inr (refl, refl)
  command-KeepsWeights inherited s (self ∷ name ∷ []) v = inr (refl, refl)
  command-KeepsWeights inherited s (self ∷ name ∷ id ∷ []) v =
      Handles-if _ (str_eq name "attach-total") (str_eq name "attach-queue") _ _ _
        (attach_total-KeepsWeights s (ns.get_channel id) v)
        (attach_queue-KeepsWeights s (ns.get_channel id) v)
  command-KeepsWeights inherited s (self ∷ name ∷ id ∷ value ∷ []) v =
      Handles-if _ (str_eq name "set-weight") (str_eq name "set-thresh") _ _ _
        (set_weight-KeepsWeights s (ns.atoi id) (ns.atof value) v)
        (set_thresh-KeepsWeights s (ns.atoi id) (ns.atof value) v)
  command-KeepsWeights inherited s (self ∷ name ∷ id ∷ value ∷ more ∷ rest) v = inr (refl, refl)

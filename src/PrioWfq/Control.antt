-- ===== src/PrioWfq/Control.antt =====
-- What `command` of `PRIO_WFQ` does.
use Prim.Native.String.{String}
use text.Mathlib.Text.{◌==◌ as str_eq}
use mq_ecn.Common.{
  ℕ, ◌+◌, ◌-◌, ◌<◌, ◌≡◌, refl, ap, inl, inr, true, Bool-cases, ℤ, pos, negsuc, Option, none, some,
  List, [], ◌∷◌, ◌++◌, get_elem?, set, get_elem?-total, ok, Settles, Settles-bind, Settles-guard,
  ltb, leb, ◌&&◌, ltb→lt, ltb→le, arith,
}
use mq_ecn.Simulator.{Simulator, of_nat}
use mq_ecn.Port.{Status, tcl_ok, zero_double}
use mq_ecn.Port.Arguments.{is_own, Handles, Handles-if}
use mq_ecn.Common.{Result}
use mq_ecn.Port.Backlog.{view-set_same}
use mq_ecn.PrioQueues.{PrioSlot}
use mq_ecn.PrioQueues.Serve.{prio_view}
use mq_ecn.PrioQueues.Group.{find_prio, same-IsGroup}
use mq_ecn.Wfq.{Slot}
use mq_ecn.Wfq.Refine.{Weighs}
use mq_ecn.PrioWfq.{PrioWfq}
use mq_ecn.PrioWfq.Command.{
  attach_total, attach_queue, wfq_index, set_weight, write_thresh, set_thresh, command,
}
use mq_ecn.PrioWfq.Invariant.{ports, wfq_view, held, Valid, SameShape, same-IsWeighed}

index_in : (a q n : ℕ) → (leb a q && ltb (q - a) n) ≡ true → q - a < n
index_in a q n h = ground arith

module _ (ns : Simulator) where
  -- A positive `int` is a positive double.
  abbrev pub KeepsSign : Type 0
  KeepsSign = (n : ℕ) → 0 < n → ns.lt (zero_double ns) (of_nat ns n) ≡ true

  -- The state is valid, its queues hold what those of `s` do, and the numbers of queues and the
  -- buffer are those of `s`.
  abbrev pub KeepsGroups : PrioWfq ns → Status × PrioWfq ns → Type 0
  KeepsGroups s r = Valid ns r.1 × (held ns r.1 ≡ held ns s) × SameShape ns s r.1

  set_prio-KeepsGroups :
      (s : PrioWfq ns) (i : ℕ) (x y : PrioSlot ns)
      → Valid ns s
      → get_elem? s.prio_queues i ≡ some x
      → y.fifo ≡ x.fifo
      → Settles (KeepsGroups s) (ok (tcl_ok, record s { prio_queues = set s.prio_queues i y }))
  set_prio-KeepsGroups s i x y v g f =
      let e = view-set_same ns (λ (x : PrioSlot ns). x.fifo) s.prio_queues i x y g f in
      inr (
        _,
        refl,
        (
          record {
            high = same-IsGroup ns s.prio_queue_num s.prio_queues i y v.high e;
            low = v.low;
          },
          ap (λ v. v ++ wfq_view ns s.wfq_queues) e,
          (refl, refl, refl),
        ),
      )

  set_wfq-KeepsGroups :
      (s : PrioWfq ns) (i : ℕ) (x y : Slot ns)
      → Valid ns s
      → get_elem? s.wfq_queues i ≡ some x
      → y.fifo ≡ x.fifo
      → Weighs ns i y
      → Settles (KeepsGroups s) (ok (tcl_ok, record s { wfq_queues = set s.wfq_queues i y }))
  set_wfq-KeepsGroups s i x y v g f w =
      let e = view-set_same ns (λ (x : Slot ns). x.fifo) s.wfq_queues i x y g f in
      inr (
        _,
        refl,
        (
          record {
            high = v.high;
            low = same-IsWeighed ns s.wfq_queue_num s.wfq_queues i y v.low w e;
          },
          ap (λ v. prio_view ns s.prio_queues ++ v) e,
          (refl, refl, refl),
        ),
      )

  wfq_index-Settles :
      (s : PrioWfq ns) (id : ℤ) → Settles (λ i. i < s.wfq_queue_num) (wfq_index ns s id)
  unfolding wfq_index
  wfq_index-Settles s (negsuc n) = inl refl
  wfq_index-Settles s (pos q) =
      Settles-guard _ (leb s.prio_queue_num q && ltb (q - s.prio_queue_num) s.wfq_queue_num) _
        (λ h. inr (_, refl, index_in s.prio_queue_num q s.wfq_queue_num h))

  find_wfq :
      (s : PrioWfq ns) (i : ℕ)
      → Valid ns s
      → i < s.wfq_queue_num
      → (x : Slot ns) × (get_elem? s.wfq_queues i ≡ some x)
  find_wfq s i v l =
      get_elem?-total s.wfq_queues i (omega (arith, v.low.slots_length, v.low.queue_num_in))

  set_weight-KeepsGroups :
      (s : PrioWfq ns) (id q : ℤ)
      → KeepsSign
      → Valid ns s
      → Settles (KeepsGroups s) (set_weight ns s id q)
  unfolding set_weight
  set_weight-KeepsGroups s id (negsuc n) sign v =
      Settles-bind _ _ (wfq_index ns s id) _ (wfq_index-Settles s id) (λ i l. inl refl)
  set_weight-KeepsGroups s id (pos q) sign v =
      Settles-bind _ _ (wfq_index ns s id) _ (wfq_index-Settles s id) (λ i l.
        let (x, g) = find_wfq s i v l in
        Settles-guard _ (ltb 0 q) _
          (λ h. rw g (set_wfq-KeepsGroups s i x _ v g refl (sign q (ltb→lt _ _ h)))))

  write_thresh-KeepsGroups :
      (s : PrioWfq ns) (q : ℕ) (t : ns.Double)
      → Valid ns s
      → q < s.prio_queue_num + s.wfq_queue_num
      → Settles (KeepsGroups s) (write_thresh ns s q t)
  unfolding write_thresh
  write_thresh-KeepsGroups s q t v l = elim (Bool-cases (ltb q s.prio_queue_num)) [
    | inl high ↦
        let (x, g) = find_prio ns s.prio_queue_num s.prio_queues q v.high (ltb→lt _ _ high) in
        rw (high, g) (set_prio-KeepsGroups s q x _ v g refl)
    | inr low ↦
        let (x, g) = find_wfq s (q - s.prio_queue_num) v (omega (arith, ltb→le _ _ low)) in
        rw (low, g)
          (set_wfq-KeepsGroups s (q - s.prio_queue_num) x _ v g refl (v.low.weights _ x g))
  ]

  set_thresh-KeepsGroups :
      (s : PrioWfq ns) (id : ℤ) (t : ns.Double)
      → Valid ns s
      → Settles (KeepsGroups s) (set_thresh ns s id t)
  unfolding set_thresh
  set_thresh-KeepsGroups s (negsuc n) t v = inl refl
  set_thresh-KeepsGroups s (pos q) t v =
      Settles-guard _ (ltb q (s.prio_queue_num + s.wfq_queue_num)) _ (λ l.
        Settles-guard _ (ns.le (zero_double ns) t) _
          (λ _. write_thresh-KeepsGroups s q t v (ltb→lt _ _ l)))

  unchanged :
      (s t : PrioWfq ns) (status : Status)
      → Valid ns s
      → ports ns t ≡ ports ns s
      → held ns t ≡ held ns s
      → SameShape ns s t
      → Settles (KeepsGroups s) (ok (status, t))
  unchanged s t status v e h k = inr (_, refl, (rw e v, h, k))

  attach_total-KeepsGroups :
      (s : PrioWfq ns) (c : Option ℕ) → Valid ns s → Settles (KeepsGroups s) (attach_total ns s c)
  unfolding attach_total
  attach_total-KeepsGroups s none v = unchanged s _ _ v refl refl (refl, refl, refl)
  attach_total-KeepsGroups s (some c) v = unchanged s _ _ v refl refl (refl, refl, refl)

  attach_queue-KeepsGroups :
      (s : PrioWfq ns) (c : Option ℕ) → Valid ns s → Settles (KeepsGroups s) (attach_queue ns s c)
  unfolding attach_queue
  attach_queue-KeepsGroups s none v = unchanged s _ _ v refl refl (refl, refl, refl)
  attach_queue-KeepsGroups s (some c) v = unchanged s _ _ v refl refl (refl, refl, refl)

  -- If a positive `int` is a positive double, then in a valid PRIO_WFQ state `command`, on
  -- `attach-total` or `attach-queue` with one value, or `set-weight` or `set-thresh` with
  -- two, whatever the values, ends the program by `exit` or returns: it never leaves the
  -- array of either group. A state that it returns is valid, in particular every weight is
  -- positive, the queues hold what they held, and the numbers of queues and the size of the
  -- buffer are kept. On any other arguments it does what `Queue::command` does.
  pub command-KeepsGroups :
      (inherited : PrioWfq ns → List String → Result (Status × PrioWfq ns)) (s : PrioWfq ns)
      (args : List String)
      → KeepsSign
      → Valid ns s
      → Handles
          (KeepsGroups s)
          (is_own "set-weight" args)
          (command ns inherited s args)
          (inherited s args)
  unfolding command
  command-KeepsGroups inherited s [] sign v = inr (refl, refl)
  command-KeepsGroups inherited s (self ∷ []) sign v = inr (refl, refl)
  command-KeepsGroups inherited s (self ∷ name ∷ []) sign v = inr (refl, refl)
  command-KeepsGroups inherited s (self ∷ name ∷ id ∷ []) sign v =
      Handles-if _ (str_eq name "attach-total") (str_eq name "attach-queue") _ _ _
        (attach_total-KeepsGroups s (ns.get_channel id) v)
        (attach_queue-KeepsGroups s (ns.get_channel id) v)
  command-KeepsGroups inherited s (self ∷ name ∷ id ∷ value ∷ []) sign v =
      Handles-if _ (str_eq name "set-weight") (str_eq name "set-thresh") _ _ _
        (set_weight-KeepsGroups s (ns.atoi id) (ns.atoi value) sign v)
        (set_thresh-KeepsGroups s (ns.atoi id) (ns.atof value) v)
  command-KeepsGroups inherited s (self ∷ name ∷ id ∷ value ∷ more ∷ rest) sign v = inr (refl, refl)

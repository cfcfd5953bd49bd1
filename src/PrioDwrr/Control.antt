-- ===== src/PrioDwrr/Control.antt =====
-- What `command` of `PRIO_DWRR` does.
use Prim.Native.String.{String}
use text.Mathlib.Text.{◌==◌ as str_eq}
use mq_ecn.Common.{
  ℕ, ◌+◌, ◌-◌, ◌<◌, ◌≡◌, refl, ap, inl, inr, true, Bool-cases, ℤ, pos, negsuc, Option, none, some,
  List, [], ◌∷◌, ◌++◌, get_elem?, set, get_elem?-total, ok, Settles, Settles-bind, Settles-guard,
  ltb, leb, ◌&&◌, ltb→lt, ltb→le, arith,
}
use mq_ecn.Simulator.{Simulator}
use mq_ecn.Port.{Status, tcl_ok, zero_double}
use mq_ecn.Port.Arguments.{is_own, Handles, Handles-if}
use mq_ecn.Common.{Result}
use mq_ecn.Port.Backlog.{view-set_same}
use mq_ecn.PrioQueues.{PrioSlot}
use mq_ecn.PrioQueues.Serve.{prio_view}
use mq_ecn.Dwrr.{Slot}
use mq_ecn.PrioQueues.Group.{find_prio}
use mq_ecn.PrioDwrr.{PrioDwrr}
use mq_ecn.PrioDwrr.Command.{
  attach_total, attach_queue, dwrr_index, set_quantum, write_thresh, set_thresh, command,
}
use mq_ecn.PrioDwrr.Invariant.{dwrr_view, held, Valid, SameShape}

index_in : (a q n : ℕ) → (leb a q && ltb (q - a) n) ≡ true → q - a < n
index_in a q n h = ground arith

module _ (ns : Simulator) where
  -- The queues hold what those of `s` do, and the numbers of queues and the buffer are those of `s`.
  abbrev pub KeepsPackets : PrioDwrr ns → Status × PrioDwrr ns → Type 0
  KeepsPackets s r = (held ns r.1 ≡ held ns s) × SameShape ns s r.1

  set_prio-KeepsPackets :
      (s : PrioDwrr ns) (i : ℕ) (x y : PrioSlot ns)
      → get_elem? s.prio_queues i ≡ some x
      → y.fifo ≡ x.fifo
      → Settles (KeepsPackets s) (ok (tcl_ok, record s { prio_queues = set s.prio_queues i y }))
  set_prio-KeepsPackets s i x y g f = inr (
    _,
    refl,
    (
      ap (λ v. v ++ dwrr_view ns s.dwrr_queues)
          (view-set_same ns (λ (x : PrioSlot ns). x.fifo) s.prio_queues i x y g f),
      (refl, refl, refl),
    ),
  )

  set_dwrr-KeepsPackets :
      (s : PrioDwrr ns) (i : ℕ) (x y : Slot ns)
      → get_elem? s.dwrr_queues i ≡ some x
      → y.fifo ≡ x.fifo
      → Settles (KeepsPackets s) (ok (tcl_ok, record s { dwrr_queues = set s.dwrr_queues i y }))
  set_dwrr-KeepsPackets s i x y g f = inr (
    _,
    refl,
    (
      ap (λ v. prio_view ns s.prio_queues ++ v)
          (view-set_same ns (λ (x : Slot ns). x.fifo) s.dwrr_queues i x y g f),
      (refl, refl, refl),
    ),
  )

  dwrr_index-Settles :
      (s : PrioDwrr ns) (id : ℤ) → Settles (λ i. i < s.dwrr_queue_num) (dwrr_index ns s id)
  unfolding dwrr_index
  dwrr_index-Settles s (negsuc n) = inl refl
  dwrr_index-Settles s (pos q) =
      Settles-guard _ (leb s.prio_queue_num q && ltb (q - s.prio_queue_num) s.dwrr_queue_num) _
        (λ h. inr (_, refl, index_in s.prio_queue_num q s.dwrr_queue_num h))

  find_dwrr :
      (s : PrioDwrr ns) (i : ℕ)
      → Valid ns s
      → i < s.dwrr_queue_num
      → (x : Slot ns) × (get_elem? s.dwrr_queues i ≡ some x)
  find_dwrr s i v l =
      get_elem?-total s.dwrr_queues i
        (omega (arith, v.group_valid.slots_length, v.group_valid.queue_num_in))

  set_quantum-KeepsPackets :
      (s : PrioDwrr ns) (id q : ℤ) → Valid ns s → Settles (KeepsPackets s) (set_quantum ns s id q)
  unfolding set_quantum
  set_quantum-KeepsPackets s id (negsuc n) v =
      Settles-bind _ _ (dwrr_index ns s id) _ (dwrr_index-Settles s id) (λ i l. inl refl)
  set_quantum-KeepsPackets s id (pos q) v =
      Settles-bind _ _ (dwrr_index ns s id) _ (dwrr_index-Settles s id) (λ i l.
        let (x, g) = find_dwrr s i v l in
        Settles-guard _ (ltb 0 q) _ (λ _. rw g (set_dwrr-KeepsPackets s i x _ g refl)))

  write_thresh-KeepsPackets :
      (s : PrioDwrr ns) (q : ℕ) (t : ns.Double)
      → Valid ns s
      → q < s.prio_queue_num + s.dwrr_queue_num
      → Settles (KeepsPackets s) (write_thresh ns s q t)
  unfolding write_thresh
  write_thresh-KeepsPackets s q t v l = elim (Bool-cases (ltb q s.prio_queue_num)) [
    | inl high ↦
        let (x, g) = find_prio ns s.prio_queue_num s.prio_queues q v.high (ltb→lt _ _ high) in
        rw (high, g) (set_prio-KeepsPackets s q x _ g refl)
    | inr low ↦
        let (x, g) = find_dwrr s (q - s.prio_queue_num) v (omega (arith, ltb→le _ _ low)) in
        rw (low, g) (set_dwrr-KeepsPackets s (q - s.prio_queue_num) x _ g refl)
  ]

  set_thresh-KeepsPackets :
      (s : PrioDwrr ns) (id : ℤ) (t : ns.Double)
      → Valid ns s
      → Settles (KeepsPackets s) (set_thresh ns s id t)
  unfolding set_thresh
  set_thresh-KeepsPackets s (negsuc n) t v = inl refl
  set_thresh-KeepsPackets s (pos q) t v =
      Settles-guard _ (ltb q (s.prio_queue_num + s.dwrr_queue_num)) _ (λ l.
        Settles-guard _ (ns.le (zero_double ns) t) _
          (λ _. write_thresh-KeepsPackets s q t v (ltb→lt _ _ l)))

  attach_total-KeepsPackets :
      (s : PrioDwrr ns) (c : Option ℕ) → Settles (KeepsPackets s) (attach_total ns s c)
  unfolding attach_total
  attach_total-KeepsPackets s none = inr (_, refl, (refl, (refl, refl, refl)))
  attach_total-KeepsPackets s (some c) = inr (_, refl, (refl, (refl, refl, refl)))

  attach_queue-KeepsPackets :
      (s : PrioDwrr ns) (c : Option ℕ) → Settles (KeepsPackets s) (attach_queue ns s c)
  unfolding attach_queue
  attach_queue-KeepsPackets s none = inr (_, refl, (refl, (refl, refl, refl)))
  attach_queue-KeepsPackets s (some c) = inr (_, refl, (refl, (refl, refl, refl)))

  -- In a valid PRIO_DWRR state `command`, on `attach-total` or `attach-queue` with one value,
  -- or `set-quantum` or `set-thresh` with two, whatever the values, ends the program by
  -- `exit` or returns: it never leaves the array of either group. In a state that it returns
  -- the queues hold what they held, and the numbers of queues and the size of the buffer are
  -- kept. On any other arguments it does what `Queue::command` does.
  pub command-KeepsPackets :
      (inherited : PrioDwrr ns → List String → Result (Status × PrioDwrr ns)) (s : PrioDwrr ns)
      (args : List String)
      → Valid ns s
      → Handles
          (KeepsPackets s)
          (is_own "set-quantum" args)
          (command ns inherited s args)
          (inherited s args)
  unfolding command
  command-KeepsPackets inherited s [] v = inr (refl, refl)
  command-KeepsPackets inherited s (self ∷ []) v = inr (refl, refl)
  command-KeepsPackets inherited s (self ∷ name ∷ []) v = inr (refl, refl)
  command-KeepsPackets inherited s (self ∷ name ∷ id ∷ []) v =
      Handles-if _ (str_eq name "attach-total") (str_eq name "attach-queue") _ _ _
        (attach_total-KeepsPackets s (ns.get_channel id))
        (attach_queue-KeepsPackets s (ns.get_channel id))
  command-KeepsPackets inherited s (self ∷ name ∷ id ∷ value ∷ []) v =
      Handles-if _ (str_eq name "set-quantum") (str_eq name "set-thresh") _ _ _
        (set_quantum-KeepsPackets s (ns.atoi id) (ns.atoi value) v)
        (set_thresh-KeepsPackets s (ns.atoi id) (ns.atof value) v)
  command-KeepsPackets inherited s (self ∷ name ∷ id ∷ value ∷ more ∷ rest) v = inr (refl, refl)

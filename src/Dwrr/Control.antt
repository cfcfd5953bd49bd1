-- ===== src/Dwrr/Control.antt =====
-- What the constructor of `DWRR` leaves, and what `set-quantum` does to the invariant.
use mq_ecn.Common.{
  ℕ, ◌<◌, ◌≡◌, ◌≢◌, refl, sym, ap, subst, ◌∙◌, Bool, true, false, pos, Option, none, some, [],
  get_elem?, set, set_keeps, sum_first-set_same, length-set, length-replicate, get_elem?-replicate,
  sum_first, sum_first-set, sum_first-replicate, ok, Returns, lt→ltb, arith,
}
use mq_ecn.Simulator.{Simulator}
use mq_ecn.Port.{tcl_ok, max_queue_num}
use mq_ecn.Port.Backlog.{view-set_same}
use mq_ecn.ActiveList.{no_links}
use mq_ecn.ActiveList.Chain.{no_links-IsList, elem}
use mq_ecn.Dwrr.{Slot, Dwrr, new_slot, new_dwrr}
use mq_ecn.Dwrr.Command.{find_slot, set_quantum}
use mq_ecn.Dwrr.Invariant.{held, share, IsValid, Valid, Tells, core}

pos-injective : {a b : ℕ} → pos a ≡ pos b → a ≡ b
pos-injective {a} {b} e = cc

module _ (ns : Simulator) where
  new_slot-Tells : Tells ns false (new_slot ns)
  unfolding new_slot
  new_slot-Tells = record {
    marked = refl;
    busy = λ e. cc;
    idle = λ _. ns.contents-new;
    has_quantum = omega arith;
  }

  no_share : share ns (new_slot ns) ≡ 0
  unfolding new_slot
  no_share = refl

  pub new_dwrr-IsValid : (qlim : ℕ) → IsValid ns (core ns (new_dwrr ns qlim)) []
  unfolding new_dwrr no_links
  new_dwrr-IsValid qlim = record {
    slots_length = length-replicate max_queue_num (new_slot ns);
    nexts_length = length-replicate {A = Option ℕ} max_queue_num none;
    some_queue = omega arith;
    queue_num_in = omega arith;
    listed = no_links-IsList max_queue_num;
    in_range = tt;
    tells = λ i x g.
        subst (Tells ns false) (get_elem?-replicate max_queue_num (new_slot ns) i x g)
          new_slot-Tells;
    sums =
        ap pos
          (sym (sum_first-replicate (share ns) max_queue_num max_queue_num (new_slot ns) no_share));
  }

  set_quantum-ok :
      (s : Dwrr ns) (i q : ℕ) (x : Slot ns)
      → i < s.queue_num
      → 0 < q
      → get_elem? s.slots i ≡ some x
      → set_quantum ns s (pos i) (pos q)
        ≡ ok (tcl_ok, record s { slots = set s.slots i (record x { quantum = q }) })
  unfolding set_quantum find_slot
  set_quantum-ok s i q x l h g = rw (lt→ltb _ _ l, g, lt→ltb _ _ h)

  share-inactive : (x : Slot ns) → x.active ≡ false → share ns x ≡ 0
  share-inactive x e = rw e

  share-active : (x : Slot ns) → x.active ≡ true → share ns x ≡ x.quantum
  share-active x e = rw e

  requantum :
      {b : Bool} (x : Slot ns) (q : ℕ)
      → 0 < q
      → Tells ns b x
      → Tells ns b (record x { quantum = q })
  requantum x q h t = record { marked = t.marked; busy = t.busy; idle = t.idle; has_quantum = h }

  -- A queue outside the active list may get another quantum.
  pub set_quantum-idle :
      (s : Dwrr ns) (i q : ℕ) (x : Slot ns)
      → Valid ns s
      → i < s.queue_num
      → 0 < q
      → get_elem? s.slots i ≡ some x
      → x.active ≡ false
      → Returns (λ r. Valid ns r.1 × (held ns r.1 ≡ held ns s)) (set_quantum ns s (pos i) (pos q))
  set_quantum-idle s i q x (ids, v) l h g off = (
    _,
    set_quantum-ok s i q x l h g,
    (
      (
        ids,
        record {
          slots_length = length-set s.slots i (record x { quantum = q }) ∙ v.slots_length;
          nexts_length = v.nexts_length;
          some_queue = v.some_queue;
          queue_num_in = v.queue_num_in;
          listed = v.listed;
          in_range = v.in_range;
          tells =
              set_keeps (λ j z. Tells ns (elem j ids) z) s.slots i (record x { quantum = q })
                v.tells (requantum x q h (v.tells i x g));
          sums =
              v.sums
              ∙ ap pos (
                  sym (
                    sum_first-set_same (share ns) max_queue_num s.slots i x
                      (record x { quantum = q }) g
                      (share-inactive (record x { quantum = q }) off
                        ∙ sym (share-inactive x off))));
        },
      ),
      view-set_same ns (λ (x : Slot ns). x.fifo) s.slots i x _ g refl,
    ),
  )

  -- In a valid DWRR state, where `x` is one of the first `queue_num` queues, is in the active
  -- list and has another quantum than the positive `q`, the command `set-quantum` with `q`
  -- returns a state that is valid with no active list: `quantum_sum` is no longer the sum of
  -- the quanta of the active queues.
  pub set_quantum-active :
      (s : Dwrr ns) (i q : ℕ) (x : Slot ns)
      → Valid ns s
      → i < s.queue_num
      → 0 < q
      → get_elem? s.slots i ≡ some x
      → x.active ≡ true
      → q ≢ x.quantum
      → Returns (λ r. ¬ Valid ns r.1) (set_quantum ns s (pos i) (pos q))
  set_quantum-active s i q x (ids, v) l h g on ne = (
    _,
    set_quantum-ok s i q x l h g,
    λ w.
        let e : pos (sum_first (share ns) max_queue_num s.slots)
            ≡ pos (sum_first (share ns) max_queue_num (set s.slots i (record x { quantum = q }))) =
          sym v.sums ∙ w.1.sums in
        ne (
          omega (
            arith,
            pos-injective e,
            share-active x on,
            share-active (record x { quantum = q }) on,
            sum_first-set (share ns) max_queue_num s.slots i x (record x { quantum = q }) g
                (omega (arith, v.queue_num_in)),
          )),
  )

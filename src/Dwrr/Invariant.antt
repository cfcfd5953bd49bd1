-- ===== src/Dwrr/Invariant.antt =====
-- The invariant of `DWRR`: the active list holds exactly the queues with packets, each once, and
-- `quantum_sum` is the sum of their quanta.
use mq_ecn.Common.{
  ℕ, ◌+◌, ◌*◌, ◌≤◌, ◌<◌, ℤ, pos, ◌≡◌, sym, ap, subst, ◌∙◌, Bool, true, false, some, List, [], ◌∷◌,
  ◌++◌, get_elem?, set, set_keeps_ne, length, length-set, sum_first, sum_first-set,
  sum_first-set_same, arith, if◌then◌else◌, add_int, sub_int,
}
use mq_ecn.Simulator.{Simulator}
use mq_ecn.Port.{max_queue_num}
use mq_ecn.Port.Backlog.{Backlog, view, bytes-view, total}
use mq_ecn.ActiveList.{Links}
use mq_ecn.ActiveList.Chain.{
  elem, AllBelow, IsList, elem-append_ne, elem-append_self, elem-cons_ne, elem-cons_self,
  elem-rotate, append-AllBelow,
}
use mq_ecn.Dwrr.{Slot, Dwrr, total_byte_length}

module _ (ns : Simulator) where
  -- What the queues of `s` hold.
  abbrev pub held : Dwrr ns → Backlog ns
  held s = view ns (λ (x : Slot ns). x.fifo) s.slots

  abbrev pub limit : Dwrr ns → ℕ
  limit s = s.qlim * s.mean_pktsize

  -- The number of queues and the buffer are those of `s`.
  abbrev pub SameShape : Dwrr ns → Dwrr ns → Type 0
  SameShape s t = (t.queue_num ≡ s.queue_num) × (limit t ≡ limit s)

  pub total_byte_length-eq : (s : Dwrr ns) → total_byte_length ns s ≡ total ns s.queue_num (held s)
  unfolding total_byte_length
  total_byte_length-eq s = bytes-view ns (λ (x : Slot ns). x.fifo) s.queue_num s.slots

  -- The part of the state that the invariant is about.
  pub record Core : Type 0 where
    pub slots : List (Slot ns)
    pub links : Links
    pub quantum_sum : ℤ
    pub queue_num : ℕ

  abbrev pub core : Dwrr ns → Core
  core s = record {
    slots = s.slots;
    links = s.links;
    quantum_sum = s.quantum_sum;
    queue_num = s.queue_num;
  }

  -- A queue is marked active exactly if it is in the list, and then it has a packet, else none.
  pub record Tells (listed : Bool) (x : Slot ns) : Type 0 where
    pub marked : x.active ≡ listed
    pub busy : listed ≡ true → 0 < ns.packets x.fifo
    pub idle : listed ≡ false → ns.contents x.fifo ≡ []
    pub has_quantum : 0 < x.quantum

  -- What a queue adds to `quantum_sum`.
  abbrev pub share : Slot ns → ℕ
  share x = if x.active then x.quantum else 0

  pub record IsValid (c : Core) (ids : List ℕ) : Type 0 where
    pub slots_length : length c.slots ≡ max_queue_num
    pub nexts_length : length c.links.nexts ≡ max_queue_num
    pub some_queue : 0 < c.queue_num
    pub queue_num_in : c.queue_num ≤ max_queue_num
    pub listed : IsList c.links ids
    pub in_range : AllBelow c.queue_num ids
    pub tells : (i : ℕ) (x : Slot ns) → get_elem? c.slots i ≡ some x → Tells (elem i ids) x
    pub sums : c.quantum_sum ≡ pos (sum_first share max_queue_num c.slots)

  -- The state is valid with some active list.
  abbrev pub Valid : Dwrr ns → Type 0
  Valid s = (ids : List ℕ) × IsValid (core s) ids

  -- A write to queue `i` that keeps it in the list, or out of it.
  pub set-IsValid :
      (c : Core) (ids : List ℕ) (i : ℕ) (x y : Slot ns)
      → IsValid c ids
      → get_elem? c.slots i ≡ some x
      → Tells (elem i ids) y
      → y.quantum ≡ x.quantum
      → IsValid (record c { slots = set c.slots i y }) ids
  set-IsValid c ids i x y v g t q = record {
    slots_length = length-set c.slots i y ∙ v.slots_length;
    nexts_length = v.nexts_length;
    some_queue = v.some_queue;
    queue_num_in = v.queue_num_in;
    listed = v.listed;
    in_range = v.in_range;
    tells = set_keeps_ne (λ j z. Tells (elem j ids) z) c.slots i y (λ j z _ h. v.tells j z h) t;
    sums =
        v.sums
        ∙ ap pos (
            sym (
              sum_first-set_same share max_queue_num c.slots i x y g
                (ground (arith, t.marked, (v.tells i x g).marked))));
  }

  pub elem-below : (n i : ℕ) (ids : List ℕ) → AllBelow n ids → elem i ids ≡ true → i < n
  elem-below n i [] b h = cc
  elem-below n i (j ∷ js) b h = ground (arith, elem-below n i js b.1)

  share-on : (y : Slot ns) → y.active ≡ true → share y ≡ y.quantum
  share-on y e = rw e

  share-off : (y : Slot ns) → y.active ≡ false → share y ≡ 0
  share-off y e = rw e

  joined_sum :
      (c : Core) {ids : List ℕ} (i : ℕ) (x y : Slot ns)
      → IsValid c ids
      → i < c.queue_num
      → get_elem? c.slots i ≡ some x
      → x.active ≡ false
      → y.active ≡ true
      → y.quantum ≡ x.quantum
      → sum_first share max_queue_num (set c.slots i y)
        ≡ sum_first share max_queue_num c.slots + x.quantum
  joined_sum c i x y v l g off on q = omega (
    arith,
    v.queue_num_in,
    sum_first-set share max_queue_num c.slots i x y g (omega (arith, v.queue_num_in)),
    share-off x off,
    share-on y on,
  )

  -- Queue `i` joins the list with its first packet.
  pub join-IsValid :
      (c : Core) (links : Links) (ids : List ℕ) (i : ℕ) (x y : Slot ns)
      → IsValid c ids
      → i < c.queue_num
      → get_elem? c.slots i ≡ some x
      → x.active ≡ false
      → IsList links (ids ++ (i ∷ []))
      → length links.nexts ≡ length c.links.nexts
      → Tells true y
      → y.quantum ≡ x.quantum
      → IsValid
          (record c {
            slots = set c.slots i y;
            links = links;
            quantum_sum = add_int c.quantum_sum x.quantum;
          })
          (ids ++ (i ∷ []))
  unfolding add_int
  join-IsValid c links ids i x y v l g off list n t q = record {
    slots_length = length-set c.slots i y ∙ v.slots_length;
    nexts_length = n ∙ v.nexts_length;
    some_queue = v.some_queue;
    queue_num_in = v.queue_num_in;
    listed = list;
    in_range = append-AllBelow c.queue_num i ids v.in_range l;
    tells =
        set_keeps_ne (λ j z. Tells (elem j (ids ++ (i ∷ []))) z) c.slots i y
          (λ j z ne h. subst (λ b. Tells b z) (sym (elem-append_ne j i ids ne)) (v.tells j z h))
          (subst (λ b. Tells b y) (sym (elem-append_self i ids)) t);
    sums = rw v.sums (ap pos (sym (joined_sum c i x y v l g off t.marked q)));
  }

  left_sum :
      (c : Core) {ids : List ℕ} (i : ℕ) (x y : Slot ns)
      → IsValid c ids
      → i < c.queue_num
      → get_elem? c.slots i ≡ some x
      → x.active ≡ true
      → y.active ≡ false
      → sum_first share max_queue_num (set c.slots i y) + x.quantum
        ≡ sum_first share max_queue_num c.slots
  left_sum c i x y v l g on off = omega (
    arith,
    v.queue_num_in,
    sum_first-set share max_queue_num c.slots i x y g (omega (arith, v.queue_num_in)),
    share-off y off,
    share-on x on,
  )

  sub_int-sum : (a b k : ℕ) → a + k ≡ b → sub_int (pos b) k ≡ pos a
  unfolding sub_int
  sub_int-sum a b k h = ground arith

  -- The head of the list leaves it with its last packet.
  pub leave-IsValid :
      (c : Core) (links : Links) (ids : List ℕ) (i : ℕ) (x y : Slot ns) (k : ℕ)
      → IsValid c (i ∷ ids)
      → get_elem? c.slots i ≡ some x
      → IsList links ids
      → links.nexts ≡ c.links.nexts
      → Tells false y
      → k ≡ x.quantum
      → IsValid
          (record c {
            slots = set c.slots i y;
            links = links;
            quantum_sum = sub_int c.quantum_sum k;
          })
          ids
  leave-IsValid c links ids i x y k v g list n t q = record {
    slots_length = length-set c.slots i y ∙ v.slots_length;
    nexts_length = ap length n ∙ v.nexts_length;
    some_queue = v.some_queue;
    queue_num_in = v.queue_num_in;
    listed = list;
    in_range = v.in_range.1;
    tells =
        set_keeps_ne (λ j z. Tells (elem j ids) z) c.slots i y
          (λ j z ne h. subst (λ b. Tells b z) (elem-cons_ne j i ids ne) (v.tells j z h))
          (subst (λ b. Tells b y) (sym v.listed.distinct.0) t);
    sums = rw (v.sums, q) (sub_int-sum _ _ _ (left_sum c i x y v v.in_range.0 g on t.marked));
  }
    where
      on : x.active ≡ true
      on = (v.tells i x g).marked ∙ elem-cons_self i ids

  -- The head of the list goes to its tail.
  pub rotate-IsValid :
      (c : Core) (links : Links) (ids : List ℕ) (i : ℕ) (x y : Slot ns)
      → IsValid c (i ∷ ids)
      → get_elem? c.slots i ≡ some x
      → IsList links (ids ++ (i ∷ []))
      → length links.nexts ≡ length c.links.nexts
      → Tells true y
      → y.quantum ≡ x.quantum
      → IsValid (record c { slots = set c.slots i y; links = links }) (ids ++ (i ∷ []))
  rotate-IsValid c links ids i x y v g list n t q =
      let w = set-IsValid c (i ∷ ids) i x y v g (subst (λ b. Tells b y) (sym here) t) q in
      record {
        slots_length = w.slots_length;
        nexts_length = n ∙ v.nexts_length;
        some_queue = v.some_queue;
        queue_num_in = v.queue_num_in;
        listed = list;
        in_range = append-AllBelow c.queue_num i ids v.in_range.1 v.in_range.0;
        tells = λ j z h. subst (λ b. Tells b z) (sym (elem-rotate j i ids)) (w.tells j z h);
        sums = w.sums;
      }
    where
      here : elem i (i ∷ ids) ≡ true
      here = elem-cons_self i ids

-- ===== src/PrioDwrr/Invariant.antt =====
-- The invariant of `PRIO_DWRR`, and the queues of both groups as one port.
use mq_ecn.Common.{
  ℕ, ◌+◌, ◌*◌, ◌≤◌, ◌≡◌, ap, ◌∙◌, Bool-cases, inl, inr, some, List, [], ◌++◌, get_elem?, sum_first,
  sum_first-replicate, replicate, arith,
}
use mq_ecn.Simulator.{Simulator, bytes_of}
use mq_ecn.Port.{max_queue_num}
use mq_ecn.Port.Backlog.{Backlog, total, view, bytes-view}
use mq_ecn.Port.Groups.{sum_first-beyond}
use mq_ecn.ActiveList.Chain.{elem}
use mq_ecn.PrioQueues.{PrioSlot}
use mq_ecn.PrioQueues.Serve.{prio_view}
use mq_ecn.PrioQueues.Group.{all_queues, IsGroup, prio_total, total-both, new-IsGroup, new-total}
use mq_ecn.Dwrr.{Slot, Dwrr, slot_bytes}
use mq_ecn.Dwrr.Invariant.{Core, core, elem-below}
use mq_ecn.Dwrr.Control.{new_dwrr-IsValid}
use mq_ecn.PrioDwrr.{PrioDwrr, new_prio_dwrr, as_dwrr, total_byte_length}

module _ (ns : Simulator) where
  -- The part of the state that the invariant is about.
  pub record Ports : Type 0 where
    pub prio_queues : List (PrioSlot ns)
    pub prio_queue_num : ℕ
    pub group : Core ns
    pub limit : ℕ

  abbrev pub ports : PrioDwrr ns → Ports
  ports s = record {
    prio_queues = s.prio_queues;
    prio_queue_num = s.prio_queue_num;
    group = core ns (as_dwrr ns s);
    limit = s.qlim * s.mean_pktsize;
  }

  abbrev pub dwrr_view : List (Slot ns) → Backlog ns
  dwrr_view xs = view ns (λ (x : Slot ns). x.fifo) xs

  -- The higher priority queues, then the DWRR queues.
  abbrev pub held_by : Ports → Backlog ns
  held_by c = prio_view ns c.prio_queues ++ dwrr_view c.group.slots

  abbrev pub held : PrioDwrr ns → Backlog ns
  held s = held_by (ports s)

  -- The higher priority queues are valid, and the DWRR group has the invariant of `DWRR`.
  pub record IsValid (c : Ports) : Type 0 where
    pub high : IsGroup ns c.prio_queue_num c.prio_queues
    pub ids : List ℕ
    pub group_valid : mq_ecn.Dwrr.Invariant.IsValid ns c.group ids

  abbrev pub Valid : PrioDwrr ns → Type 0
  Valid s = IsValid (ports s)

  abbrev pub limit : PrioDwrr ns → ℕ
  limit s = s.qlim * s.mean_pktsize

  -- The numbers of queues and the buffer are those of `s`.
  abbrev pub SameShape : PrioDwrr ns → PrioDwrr ns → Type 0
  SameShape s t =
      (t.prio_queue_num ≡ s.prio_queue_num)
      × (t.dwrr_queue_num ≡ s.dwrr_queue_num)
      × (limit t ≡ limit s)

  -- No byte waits in a DWRR queue beyond the number of queues.
  pub group_total :
      (c : Core ns) (ids : List ℕ)
      → mq_ecn.Dwrr.Invariant.IsValid ns c ids
      → sum_first (slot_bytes ns) max_queue_num c.slots ≡ total ns c.queue_num (dwrr_view c.slots)
  group_total c ids v =
      sum_first-beyond (slot_bytes ns) c.queue_num max_queue_num c.slots v.queue_num_in idle
      ∙ bytes-view ns (λ (x : Slot ns). x.fifo) c.queue_num c.slots
    where
      idle :
          (i : ℕ) (x : Slot ns)
          → c.queue_num ≤ i
          → get_elem? c.slots i ≡ some x
          → slot_bytes ns x ≡ 0
      idle i x l g = elim (Bool-cases (elem i ids)) [
        | inl on ↦ absurd (omega (arith, elem-below ns c.queue_num i ids v.in_range on))
        | inr off ↦ ns.bytes-eq x.fifo ∙ ap bytes_of ((v.tells i x g).idle off)
      ]

  -- The bytes of the port are those of the queues in use.
  pub total-groups :
      (c : Ports)
      → IsValid c
      → total ns all_queues (held_by c)
        ≡ total ns c.prio_queue_num (prio_view ns c.prio_queues)
          + total ns c.group.queue_num (dwrr_view c.group.slots)
  total-groups c v = omega (
    arith,
    total-both ns c.prio_queue_num c.prio_queues (dwrr_view c.group.slots) v.high,
    group_total c.group v.ids v.group_valid,
    bytes-view ns (λ (x : Slot ns). x.fifo) max_queue_num c.group.slots,
  )

  -- The byte count of the port is that of all queues.
  pub total_byte_length-eq :
      (s : PrioDwrr ns) → Valid s → total_byte_length ns s ≡ total ns all_queues (held s)
  unfolding total_byte_length
  total_byte_length-eq s v = omega (
    arith,
    prio_total ns s.prio_queue_num s.prio_queues v.high,
    group_total (core ns (as_dwrr ns s)) v.ids v.group_valid,
    total-groups (ports s) v,
  )

  pub new_prio_dwrr-IsValid : (qlim : ℕ) → Valid (new_prio_dwrr ns qlim)
  unfolding new_prio_dwrr mq_ecn.Dwrr.new_dwrr
  new_prio_dwrr-IsValid qlim =
      let g = new_dwrr-IsValid ns qlim in
      record {
        high = new-IsGroup ns;
        ids = [];
        group_valid = record {
          slots_length = g.slots_length;
          nexts_length = g.nexts_length;
          some_queue = omega arith;
          queue_num_in = omega arith;
          listed = g.listed;
          in_range = g.in_range;
          tells = g.tells;
          sums = g.sums;
        };
      }

  pub new_held : (qlim : ℕ) → total ns all_queues (held (new_prio_dwrr ns qlim)) ≡ 0
  unfolding new_prio_dwrr mq_ecn.Dwrr.new_slot
  new_held qlim =
      let xs = replicate max_queue_num (mq_ecn.Dwrr.new_slot ns) in
      omega (
        arith,
        total-groups (ports (new_prio_dwrr ns qlim)) (new_prio_dwrr-IsValid qlim),
        new-total ns,
        bytes-view ns (λ (x : Slot ns). x.fifo) 7 xs,
        sum_first-replicate (λ (x : Slot ns). ns.byte_length x.fifo) 7 max_queue_num
            (mq_ecn.Dwrr.new_slot ns) (ns.bytes-eq ns.new_queue ∙ ap bytes_of ns.contents-new),
      )

-- ===== src/SchDwrr/Qdisc.antt =====
-- `dwrr_enqueue` of kernel modules/sch_dwrr/main.c, with the state of the discipline.
use mq_ecn.Common.{
  ℕ, suc, ◌/◌, ℤ, pos, negsuc, Bool, true, false, Option, none, some, List, [], ◌∷◌, ◌++◌, ltb,
  ◌==◌, ◌||◌, ◌&&◌, not, if◌then◌else◌, get_elem?, set, Result, ok, ◌>>=◌,
}
use mq_ecn.Port.{or_undefined}
use mq_ecn.Kernel.{Kernel}
use mq_ecn.Words.{add32, to_u32}
use mq_ecn.SchDwrr.{Params, RateCfg}
use mq_ecn.SchDwrr.Rate.{skb_size, reset_round, mq_ecn_thresh}
use mq_ecn.SchDwrr.Codel.{Codel}

-- `c == n` for an `int` and a constant.
abbrev pub is_int : ℤ → ℕ → Bool
is_int (pos m) n = m == n
is_int (negsuc m) n = false

-- What `dwrr_enqueue` returns: success, `NET_XMIT_DROP`, or the refusal of the class's FIFO.
pub data Verdict : Type 0 where
  accepted overfilled refused : Verdict

module _ (k : Kernel) where
  -- `dwrr_class`. Its `id` is the index in the array, and its place in a list stands in `active`.
  pub record Class : Type 0 where
    pub fifo : k.Fifo
    pub len_bytes : ℕ
    pub prio : ℕ
    pub deficit : ℕ
    pub start_time : ℕ
    pub last_pkt_time : ℕ
    pub quantum : ℕ
    pub codel : Codel

  -- `dwrr_sched_data` and the `qlen` of the discipline. `active` has the list of each priority, and
  -- `watchdog` the time that the watchdog was last set to.
  pub record Sched : Type 0 where
    pub queues : List Class
    pub rate : RateCfg
    pub watchdog : Option ℕ
    pub active : List (List ℕ)
    pub tokens : ℕ
    pub time_ns : ℕ
    pub sum_len_bytes : ℕ
    pub prio_len_bytes : List ℕ
    pub round_time : List ℕ
    pub last_idle_time : List ℕ
    pub qlen : ℕ

  -- The first class with this DSCP; the list is `dwrr_queue_dscp` from class `i` on.
  unfoldable pub find_dscp : List ℤ → ℕ → ℕ → ℕ
  find_dscp [] i dscp = 0
  find_dscp (d ∷ ds) i dscp = if is_int d dscp then i else find_dscp ds (suc i) dscp

  unfoldable pub classify : Params → k.Skb → ℕ
  classify c p = elim (k.tos p) [ none ↦ 0 | some tos ↦ find_dscp c.queue_dscp 0 (tos / 4) ]

  -- `dwrr_buffer_overfill`, for class `i`.
  unfoldable pub buffer_overfill : Params → ℕ → ℕ → Class → Sched → Result Bool
  buffer_overfill c len i x s = do
    own ← or_undefined (get_elem? c.queue_buffer_bytes i)
    ok (
        if is_int c.buffer_mode 0 && ltb (to_u32 c.shared_buffer_bytes) (add32 s.sum_len_bytes len)
        then true
        else is_int c.buffer_mode 1 && ltb (to_u32 own) (add32 x.len_bytes len))

  -- `dwrr_qlen_marking`, for class `i`: whether the packet is marked.
  unfoldable pub qlen_marks : Params → ℕ → Class → Sched → Result Bool
  qlen_marks c i x s =
      if is_int c.ecn_scheme 1
      then (do t ← or_undefined (get_elem? c.queue_thresh_bytes i); ok (ltb (to_u32 t) x.len_bytes))
      else if is_int c.ecn_scheme 2
      then ok (ltb (to_u32 c.port_thresh_bytes) s.sum_len_bytes)
      else if is_int c.ecn_scheme 3
      then (do
        round ← or_undefined (get_elem? s.round_time x.prio)
        t ← mq_ecn_thresh c s.rate x.quantum round
        ok (ltb t x.len_bytes))
      else ok false

  -- The reset of the round time for a packet of priority `prio`, at the time `now`.
  unfoldable pub wake : Params → ℕ → ℕ → Sched → Result Sched
  wake c now prio s = do
    bytes ← or_undefined (get_elem? s.prio_len_bytes prio)
    since ← or_undefined (get_elem? s.last_idle_time prio)
    round ← or_undefined (get_elem? s.round_time prio)
    ok (
        if bytes == 0
        then record s { round_time = set s.round_time prio (reset_round c now bytes since round) }
        else s)

  -- The first packet of class `i` puts it into the active list of its priority.
  unfoldable pub activate : Params → ℕ → ℕ → ℕ → Class → Sched → Result (Class × Sched)
  activate c now i prio x s =
      if k.qlen x.fifo == 1
      then (do
        q ← or_undefined (get_elem? c.queue_quantum i)
        l ← or_undefined (get_elem? s.active prio)
        ok (
          record x { start_time = now; quantum = to_u32 q; prio = prio; deficit = to_u32 q },
          record s { active = set s.active prio (l ++ (i ∷ [])) },
        ))
      else ok (x, s)

  -- The counters for a packet of `len` bytes that has come to the class `x` at `i`.
  unfoldable pub count_in : ℕ → ℕ → Class → Sched → Result (Class × Sched)
  count_in i len x s = do
    bytes ← or_undefined (get_elem? s.prio_len_bytes x.prio)
    ok (
      record x { len_bytes = add32 x.len_bytes len },
      record s {
        qlen = add32 s.qlen 1;
        sum_len_bytes = add32 s.sum_len_bytes len;
        prio_len_bytes = set s.prio_len_bytes x.prio (add32 bytes len);
      },
    )

  -- What is written through the pointer to a packet that has come to class `i`: a time stamp or a mark.
  unfoldable pub mark_in : Params → ℕ → ℕ → k.Skb → Class → Sched → Result k.Skb
  mark_in c now i p x s =
      if is_int c.ecn_scheme 4 || is_int c.ecn_scheme 5
      then ok (k.stamp now p)
      else if is_int c.enable_dequeue_ecn 0
      then (do must ← qlen_marks c i x s; ok (if must then k.set_ce p else p))
      else ok p

  -- The rest of `dwrr_enqueue`, once the FIFO of class `i`, which was `x`, has taken `p`. The packet in
  -- the FIFO is the one that `mark_in` writes to.
  unfoldable pub accept : Params → (ℕ → ℕ) → ℕ → ℕ → k.Skb → Class → Sched → Result Sched
  accept c t i prio p x s = do
    (y, s1) ← activate c (t 1) i prio (record x { fifo = k.append p x.fifo }) s
    (z, s2) ← count_in i (skb_size (k.len p)) y s1
    q ← mark_in c (t 2) i p z s2
    ok (record s2 { queues = set s2.queues i (record z { fifo = k.append q x.fifo }) })

  -- `dwrr_enqueue` once the class is found. `t 0`, `t 1` and `t 2` are what the clock shows at the reset
  -- of the round time, at the activation and at the time stamp.
  unfoldable pub enqueue_at : Params → (ℕ → ℕ) → ℕ → k.Skb → Sched → Result (Verdict × Sched)
  enqueue_at c t i p s = do
    prio ← or_undefined (get_elem? c.queue_prio i)
    woken ← wake c (t 0) prio s
    x ← or_undefined (get_elem? woken.queues i)
    full ← buffer_overfill c (skb_size (k.len p)) i x woken
    if full
        then ok (overfilled, woken)
        else if not (k.admits x.fifo p)
        then ok (refused, woken)
        else (accept c t i prio p x woken >>= λ s'. ok (accepted, s'))

  unfoldable pub enqueue : Params → (ℕ → ℕ) → k.Skb → Sched → Result (Verdict × Sched)
  enqueue c t p s = enqueue_at c t (classify c p) p s

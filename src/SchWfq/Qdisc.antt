-- ===== src/SchWfq/Qdisc.antt =====
-- `wfq_enqueue` of kernel modules/sch_wfq/main.c, with the state of the discipline.
use mq_ecn.Common.{
  ℕ, ◌/◌, ◌%◌, ℤ, Bool, true, false, Option, List, ltb, ◌==◌, ◌||◌, ◌&&◌, not, if◌then◌else◌,
  get_elem?, set, Result, ok, ◌>>=◌,
}
use mq_ecn.Port.{or_undefined}
use mq_ecn.Kernel.{Kernel}
use mq_ecn.Words.{add32, add64, to_u32, is_positive}
use mq_ecn.SchDwrr.{RateCfg}
use mq_ecn.SchDwrr.Rate.{skb_size}
use mq_ecn.SchDwrr.Codel.{Codel}
use mq_ecn.SchDwrr.Qdisc.{is_int, Verdict, accepted, overfilled, refused, classify}
use mq_ecn.SchWfq.{WfqParams, as_dwrr}

module _ (k : Kernel) where
  -- `wfq_class`; its `id` is the index in the array.
  pub record WfqClass : Type 0 where
    pub fifo : k.Fifo
    pub prio : ℕ
    pub len_bytes : ℕ
    pub head_fin_time : ℕ
    pub codel : Codel

  -- `wfq_sched_data` and the `qlen` of the discipline; `watchdog` is the time that it was last set to.
  pub record WfqSched : Type 0 where
    pub queues : List WfqClass
    pub rate : RateCfg
    pub watchdog : Option ℕ
    pub tokens : ℕ
    pub time_ns : ℕ
    pub sum_len_bytes : ℕ
    pub prio_len_bytes : List ℕ
    pub virtual_time : List ℕ
    pub qlen : ℕ

  -- `wfq_buffer_overfill`, for class `i`.
  unfoldable pub buffer_overfill : WfqParams → ℕ → ℕ → WfqClass → WfqSched → Result Bool
  buffer_overfill c len i x s = do
    own ← or_undefined (get_elem? c.queue_buffer_bytes i)
    ok (
        if is_int c.buffer_mode 0 && ltb (to_u32 c.shared_buffer_bytes) (add32 s.sum_len_bytes len)
        then true
        else is_int c.buffer_mode 1 && ltb (to_u32 own) (add32 x.len_bytes len))

  -- `wfq_qlen_marking`, for class `i`: whether the packet is marked.
  unfoldable pub qlen_marks : WfqParams → ℕ → WfqClass → WfqSched → Result Bool
  qlen_marks c i x s =
      if is_int c.ecn_scheme 1
      then (do t ← or_undefined (get_elem? c.queue_thresh_bytes i); ok (ltb (to_u32 t) x.len_bytes))
      else if is_int c.ecn_scheme 2
      then ok (ltb (to_u32 c.port_thresh_bytes) s.sum_len_bytes)
      else ok false

  -- The finish time of a packet of `len` bytes that comes to the empty class `i`; `weight` is positive.
  unfoldable pub start_class : ℕ → ℤ → WfqClass → WfqSched → Result (WfqClass × WfqSched)
  start_class len weight x s = do
    now ← or_undefined (get_elem? s.virtual_time x.prio)
    let finish = add64 (len / to_u32 weight) now
    ok (
      record x { head_fin_time = finish },
      record s { virtual_time = set s.virtual_time x.prio finish },
    )

  -- The first packet of class `i` sets its priority, a `u8`, and its finish time.
  unfoldable pub begin_class :
      WfqParams → ℕ → ℕ → WfqClass → WfqSched → Result (WfqClass × WfqSched)
  begin_class c i len x s =
      if k.qlen x.fifo == 1
      then (do
        weight ← or_undefined (get_elem? c.queue_weight i)
        prio ← or_undefined (get_elem? c.queue_prio i)
        let y = record x { prio = prio % 256 }
        if is_positive weight then start_class len weight y s else ok (y, s))
      else ok (x, s)

  -- The counters for a packet of `len` bytes that has come to the class `x`.
  unfoldable pub count_in : ℕ → WfqClass → WfqSched → Result (WfqClass × WfqSched)
  count_in len x s = do
    bytes ← or_undefined (get_elem? s.prio_len_bytes x.prio)
    ok (
      record x { len_bytes = add32 x.len_bytes len },
      record s {
        qlen = add32 s.qlen 1;
        sum_len_bytes = add32 s.sum_len_bytes len;
        prio_len_bytes = set s.prio_len_bytes x.prio (add32 bytes len);
      },
    )

  -- What is written through the pointer to a packet that has come to class `i`: a time stamp or a mark.
  unfoldable pub mark_in : WfqParams → ℕ → ℕ → k.Skb → WfqClass → WfqSched → Result k.Skb
  mark_in c now i p x s =
      if is_int c.ecn_scheme 4 || is_int c.ecn_scheme 5
      then ok (k.stamp now p)
      else if is_int c.enable_dequeue_ecn 0
      then (do must ← qlen_marks c i x s; ok (if must then k.set_ce p else p))
      else ok p

  -- The rest of `wfq_enqueue`, once the FIFO of class `i`, which was `x`, has taken `p`. The packet in the
  -- FIFO is the one that `mark_in` writes to.
  unfoldable pub accept : WfqParams → ℕ → ℕ → k.Skb → WfqClass → WfqSched → Result WfqSched
  accept c now i p x s = do
    (y, s1) ← begin_class c i (skb_size (k.len p)) (record x { fifo = k.append p x.fifo }) s
    (z, s2) ← count_in (skb_size (k.len p)) y s1
    q ← mark_in c now i p z s2
    ok (record s2 { queues = set s2.queues i (record z { fifo = k.append q x.fifo }) })

  -- `wfq_enqueue` once the class is found; `now` is what the clock shows at the time stamp.
  unfoldable pub enqueue_at : WfqParams → ℕ → ℕ → k.Skb → WfqSched → Result (Verdict × WfqSched)
  enqueue_at c now i p s = do
    x ← or_undefined (get_elem? s.queues i)
    full ← buffer_overfill c (skb_size (k.len p)) i x s
    if full
        then ok (overfilled, s)
        else if not (k.admits x.fifo p)
        then ok (refused, s)
        else (accept c now i p x s >>= λ s'. ok (accepted, s'))

  unfoldable pub enqueue : WfqParams → ℕ → k.Skb → WfqSched → Result (Verdict × WfqSched)
  enqueue c now p s = enqueue_at c now (classify k (as_dwrr c) p) p s

-- ===== src/SchWfq/Dequeue.antt =====
-- `wfq_dequeue` of kernel modules/sch_wfq/main.c.
use mq_ecn.Common.{
  ℕ, suc, ◌/◌, Bool, true, Option, none, some, List, [], ◌∷◌, ltb, ◌==◌, ◌&&◌, not, if◌then◌else◌,
  get_elem?, set, Result, ok, undefined, ◌>>=◌,
}
use mq_ecn.Port.{or_undefined}
use mq_ecn.Kernel.{Kernel}
use mq_ecn.Words.{sub32, add64, sub64, is_negative, min_s64, to_u32}
use mq_ecn.SchDwrr.Rate.{skb_size, l2t_ns, tbf_schedule}
use mq_ecn.SchDwrr.Codel.{tcn_marks, codel_marking}
use mq_ecn.SchDwrr.Qdisc.{is_int}
use mq_ecn.SchWfq.{WfqParams, as_dwrr, time_before}
use mq_ecn.SchWfq.Qdisc.{WfqClass, WfqSched, qlen_marks}

-- `prio_schedule`: the first priority from `i` on that holds bytes.
unfoldable pub prio_schedule : List ℕ → ℕ → Option ℕ
prio_schedule [] i = none
prio_schedule (bytes ∷ bs) i = if ltb 0 bytes then some i else prio_schedule bs (suc i)

-- `!cl || wfq_time_before(finish, min_time)`, for `cl` and `min_time` as `best`.
unfoldable pub better : Option (ℕ × ℕ) → ℕ → Bool
better none finish = true
better (some (cl, min_time)) finish = time_before finish min_time

module _ (k : Kernel) where
  -- The loop over the classes from `i` on: the class of `prio` that finishes first, and its time.
  unfoldable pub earliest : ℕ → List (WfqClass k) → ℕ → Option (ℕ × ℕ) → Option (ℕ × ℕ)
  earliest prio [] i best = best
  earliest prio (x ∷ xs) i best = earliest prio xs (suc i) (
      if x.prio == prio && not (x.len_bytes == 0) && better best x.head_fin_time
      then some (i, x.head_fin_time)
      else best)

  -- The counters for a packet of `len` bytes that leaves the class `x` of `prio`.
  unfoldable pub count_out : ℕ → ℕ → WfqClass k → WfqSched k → Result (WfqClass k × WfqSched k)
  count_out prio len x s = do
    bytes ← or_undefined (get_elem? s.prio_len_bytes prio)
    ok (
      record x { len_bytes = sub32 x.len_bytes len },
      record s {
        sum_len_bytes = sub32 s.sum_len_bytes len;
        qlen = sub32 s.qlen 1;
        prio_len_bytes = set s.prio_len_bytes prio (sub32 bytes len);
      },
    )

  -- The finish time of the packet that is now the head of class `i`, and the virtual time that it moves.
  unfoldable pub next_head :
      WfqParams → ℕ → ℕ → WfqClass k → WfqSched k → Result (WfqClass k × WfqSched k)
  next_head c prio i x s = if x.len_bytes == 0 then ok (x, s) else (do
    weight ← or_undefined (get_elem? c.queue_weight i)
    elim (k.peek x.fifo) [
      | none ↦ ok (x, s)
      | some p ↦ if is_int weight 0 then ok (x, s) else (do
        now ← or_undefined (get_elem? s.virtual_time prio)
        let finish = add64 x.head_fin_time (skb_size (k.len p) / to_u32 weight)
        ok (
          record x { head_fin_time = finish },
          (if time_before now finish
              then record s { virtual_time = set s.virtual_time prio finish }
              else s),
        ))
    ])

  -- The marks on a packet that leaves class `i`; `later` is what the clock then shows.
  unfoldable pub mark_out :
      WfqParams → ℕ → ℕ → k.Skb → WfqClass k → WfqSched k → Result (k.Skb × WfqClass k)
  mark_out c later i p x s =
      if is_int c.ecn_scheme 4
      then ok (if tcn_marks (as_dwrr c) later (k.tstamp p) then k.set_ce p else p, x)
      else if is_int c.ecn_scheme 5
      then (let (must, v) = codel_marking (as_dwrr c) x.len_bytes (k.tstamp p) later x.codel in
          ok (if must then k.set_ce p else p, record x { codel = v }))
      else if is_int c.enable_dequeue_ecn 1
      then (do must ← qlen_marks k c i x s; ok (if must then k.set_ce p else p, x))
      else ok (p, x)

  -- The head packet `p` of class `i` of `prio`, which is `x`.
  unfoldable pub transmit :
      WfqParams
      → ℕ
      → ℕ
      → ℕ
      → ℕ
      → k.Skb
      → WfqClass k
      → WfqSched k
      → Result (Option k.Skb × WfqSched k)
  transmit c now later prio i p x s =
      let len = skb_size (k.len p) in
      let left = tbf_schedule (as_dwrr c) s.rate s.tokens s.time_ns len now in
      if is_negative left then ok (none, record s { watchdog = some (sub64 now left) }) else (do
        (y, s1) ← count_out prio len (record x { fifo = k.after_dequeue x.fifo }) s
        (z, s2) ← next_head c prio i y s1
        let s3 = record s2 {
          time_ns = now;
          tokens = min_s64 left (l2t_ns s.rate (to_u32 c.bucket_bytes));
        }
        (q, w) ← mark_out c later i p z s3
        ok (some q, record s3 { queues = set s3.queues i w }))

  -- Class `i` is the choice for `prio`.
  unfoldable pub serve : WfqParams → ℕ → ℕ → ℕ → ℕ → WfqSched k → Result (Option k.Skb × WfqSched k)
  serve c now later prio i s = do
    x ← or_undefined (get_elem? s.queues i)
    elim (k.peek x.fifo) [ none ↦ ok (none, s) | some p ↦ transmit c now later prio i p x s ]

  -- The choice that the loop has left; without one the code dereferences a null pointer.
  unfoldable pub serve_best :
      WfqParams → ℕ → ℕ → ℕ → Option (ℕ × ℕ) → WfqSched k → Result (Option k.Skb × WfqSched k)
  serve_best c now later prio none s = undefined
  serve_best c now later prio (some (i, min_time)) s = serve c now later prio i s

  -- `wfq_dequeue`; `now` and `later` are what the clock shows at the token bucket and at TCN's or
  -- CoDel's marks.
  unfoldable pub dequeue : WfqParams → ℕ → ℕ → WfqSched k → Result (Option k.Skb × WfqSched k)
  dequeue c now later s = elim (prio_schedule s.prio_len_bytes 0) [
    | none ↦ ok (none, s)
    | some prio ↦ serve_best c now later prio (earliest prio s.queues 0 none) s
  ]

-- ===== src/SchDwrr/Dequeue.antt =====
-- `dwrr_dequeue` of kernel modules/sch_dwrr/main.c. Its loop takes fuel.
use mq_ecn.Common.{
  ℕ, zero, suc, Option, none, some, List, [], ◌∷◌, ◌++◌, leb, ◌==◌, if◌then◌else◌, get_elem?, set,
  Result, ok, undefined, stuck, ◌>>=◌,
}
use mq_ecn.Port.{or_undefined}
use mq_ecn.Kernel.{Kernel}
use mq_ecn.Words.{add32, sub32, add64, sub64, is_negative, min_s64, to_u32}
use mq_ecn.SchDwrr.{Params}
use mq_ecn.SchDwrr.Rate.{skb_size, l2t_ns, ewma_round, tbf_schedule}
use mq_ecn.SchDwrr.Codel.{tcn_marks, codel_marking}
use mq_ecn.SchDwrr.Qdisc.{is_int, Class, Sched, qlen_marks}

-- `prio_schedule`: the first priority from `i` on with an active class.
unfoldable pub prio_schedule : List (List ℕ) → ℕ → Option ℕ
prio_schedule [] i = none
prio_schedule ([] ∷ ls) i = prio_schedule ls (suc i)
prio_schedule ((j ∷ l) ∷ ls) i = some i

module _ (k : Kernel) where
  -- What one round of the loop does: a packet leaves, the tokens do not suffice, or it goes on.
  pub data Turn : Type 0 where
    sent : k.Skb → Sched k → Turn
    throttled : Sched k → Turn
    moved : Sched k → Turn

  -- The counters for a packet of `len` bytes that leaves class `i`, of priority `prio`; `x` is the
  -- class without it.
  unfoldable pub count_out : ℕ → ℕ → ℕ → Class k → Sched k → Result (Class k × Sched k)
  count_out now prio len x s = do
    bytes ← or_undefined (get_elem? s.prio_len_bytes prio)
    ok (
      record x {
        len_bytes = sub32 x.len_bytes len;
        deficit = sub32 x.deficit len;
        last_pkt_time = add64 now (l2t_ns s.rate len);
      },
      record s {
        prio_len_bytes = set s.prio_len_bytes prio (sub32 bytes len);
        last_idle_time =
            if sub32 bytes len == 0 then set s.last_idle_time prio now else s.last_idle_time;
        sum_len_bytes = sub32 s.sum_len_bytes len;
        qlen = sub32 s.qlen 1;
      },
    )

  -- A class `x` without packets leaves the list `l` of its priority, which it heads.
  unfoldable pub deactivate : Params → ℕ → List ℕ → Class k → Sched k → Result (Sched k)
  deactivate c prio l x s =
      if k.qlen x.fifo == 0
      then (do
        round ← or_undefined (get_elem? s.round_time prio)
        ok (record s {
          active = set s.active prio l;
          round_time =
              set s.round_time prio (ewma_round c round (sub64 x.last_pkt_time x.start_time));
        }))
      else ok s

  -- The marks on a packet that leaves class `i`; `later` is what the clock then shows.
  unfoldable pub mark_out : Params → ℕ → ℕ → k.Skb → Class k → Sched k → Result (k.Skb × Class k)
  mark_out c later i p x s =
      if is_int c.ecn_scheme 4
      then ok (if tcn_marks c later (k.tstamp p) then k.set_ce p else p, x)
      else if is_int c.ecn_scheme 5
      then (let (must, v) = codel_marking c x.len_bytes (k.tstamp p) later x.codel in
          ok (if must then k.set_ce p else p, record x { codel = v }))
      else if is_int c.enable_dequeue_ecn 1
      then (do must ← qlen_marks k c i x s; ok (if must then k.set_ce p else p, x))
      else ok (p, x)

  -- The head packet `p` of class `i`, the head of the list `i ∷ l` of `prio`, fits the deficit.
  unfoldable pub transmit :
      Params → ℕ → ℕ → ℕ → ℕ → List ℕ → k.Skb → Class k → Sched k → Result Turn
  transmit c now later prio i l p x s =
      let len = skb_size (k.len p) in
      let left = tbf_schedule c s.rate s.tokens s.time_ns len now in
      if is_negative left
      then ok (throttled (record s { watchdog = some (sub64 now left) }))
      else (do
        (y, s1) ← count_out now prio len (record x { fifo = k.after_dequeue x.fifo }) s
        s2 ← deactivate c prio l y s1
        let s3 = record s2 {
          time_ns = now;
          tokens = min_s64 left (l2t_ns s.rate (to_u32 c.bucket_bytes));
        }
        (q, z) ← mark_out c later i p y s3
        ok (sent q (record s3 { queues = set s3.queues i z })))

  -- It does not: a new round of class `i` begins, at the tail of the list.
  unfoldable pub rotate : Params → ℕ → ℕ → List ℕ → Class k → Sched k → Result Turn
  rotate c prio i l x s = do
    round ← or_undefined (get_elem? s.round_time prio)
    q ← or_undefined (get_elem? c.queue_quantum i)
    ok (
        moved (record s {
          queues = set s.queues i (record x {
            start_time = x.last_pkt_time;
            quantum = to_u32 q;
            deficit = if is_int c.enable_wrr 1 then to_u32 q else add32 x.deficit (to_u32 q);
          });
          active = set s.active prio (l ++ (i ∷ []));
          round_time =
              set s.round_time prio (ewma_round c round (sub64 x.last_pkt_time x.start_time));
        }))

  -- One round at the head of the list of `prio`. A FIFO without a packet ends the call with no packet.
  unfoldable pub turn : Params → ℕ → ℕ → ℕ → Sched k → Result Turn
  turn c now later prio s = or_undefined (get_elem? s.active prio) >>= elim [
    | [] ↦ undefined
    | i ∷ l ↦ (do
      x ← or_undefined (get_elem? s.queues i)
      elim (k.peek x.fifo) [
        | none ↦ ok (throttled s)
        | some p ↦
            if leb (skb_size (k.len p)) x.deficit
            then transmit c now later prio i l p x s
            else rotate c prio i l x s
      ])
  ]

  unfoldable pub loop : ℕ → Params → ℕ → ℕ → ℕ → Sched k → Result (Option k.Skb × Sched k)
  loop zero c now later prio s = stuck
  loop (suc fuel) c now later prio s = turn c now later prio s >>= elim [
    | sent p t ↦ ok (some p, t)
    | throttled t ↦ ok (none, t)
    | moved t ↦ loop fuel c now later prio t
  ]

  -- `dwrr_dequeue` with `fuel`; `now` and `later` are what the clock shows at its start and at TCN's or
  -- CoDel's marks.
  unfoldable pub dequeue : ℕ → Params → ℕ → ℕ → Sched k → Result (Option k.Skb × Sched k)
  dequeue fuel c now later s = elim (prio_schedule s.active 0) [
    | none ↦ ok (none, s)
    | some prio ↦ loop fuel c now later prio s
  ]

-- ===== src/SchWfq/Transmission.antt =====
-- `transmit` of sch_wfq: a packet leaves, or the tokens do not suffice.
use mq_ecn.Common.{
  ℕ, ◌+◌, ◌/◌, ◌<◌, ◌≡◌, refl, ap, ◌∙◌, inl, inr, Bool, true, false, Bool-cases, Option-cases,
  Option, none, some, List, [], ◌∷◌, tail, get_elem?, get_elem?-total, set, length, sum_first,
  le-sum_first, ok, Returns, ltb, ◌==◌, if◌then◌else◌, arith, if_true, if_false,
}
use mq_ecn.Kernel.{Kernel}
use mq_ecn.Words.{u32_mod, sub32, sub64, add64, to_u32, is_negative, min_s64}
use mq_ecn.SchDwrr.{max_queues, max_prio}
use mq_ecn.SchDwrr.Rate.{skb_size, l2t_ns, tbf_schedule}
use mq_ecn.SchDwrr.Qdisc.{is_int}
use mq_ecn.SchDwrr.Accounting.{wire_of, ok-if}
use mq_ecn.SchWfq.{WfqParams, as_dwrr, time_before}
use mq_ecn.SchWfq.Qdisc.{WfqClass, WfqSched, qlen_marks}
use mq_ecn.SchWfq.Dequeue.{count_out, next_head, mark_out, transmit}

-- Each list of thresholds and weights has an entry for every class.
pub record Sized (c : WfqParams) : Type 0 where
  pub thresh_length : length c.queue_thresh_bytes ≡ max_queues
  pub weight_length : length c.queue_weight ≡ max_queues

module _ (k : Kernel) where
  abbrev pub wire : WfqClass k → ℕ
  wire x = wire_of k (k.contents x.fifo)

  -- The bytes of a class that count for `prio`.
  abbrev pub share : ℕ → WfqClass k → ℕ
  share prio x = if x.prio == prio then x.len_bytes else 0

  -- The arrays have their sizes, and the byte counters count what the FIFOs hold.
  pub record Holds (s : WfqSched k) : Type 0 where
    pub queues_length : length s.queues ≡ max_queues
    pub bytes_length : length s.prio_len_bytes ≡ max_prio
    pub virtual_length : length s.virtual_time ≡ max_prio
    pub counted : (i : ℕ) (x : WfqClass k) → get_elem? s.queues i ≡ some x → x.len_bytes ≡ wire x
    pub prio_bytes :
        (prio bytes : ℕ)
        → get_elem? s.prio_len_bytes prio ≡ some bytes
        → bytes ≡ sum_first (share prio) max_queues s.queues
    pub all_bytes : s.sum_len_bytes ≡ sum_first wire max_queues s.queues

  pub nonempty :
      (ps : List k.Skb) → 0 < wire_of k ps → (p : k.Skb) × (r : List k.Skb) × (ps ≡ p ∷ r)
  nonempty [] h = elim h [ ]
  nonempty (p ∷ r) h = (p, r, refl)

  -- What `next_head` leaves of a class and of the state.
  abbrev Kept : WfqClass k → WfqSched k → WfqClass k × WfqSched k → Type 0
  Kept x s r = (r.0.fifo ≡ x.fifo) × (r.1.queues ≡ s.queues) × (r.1.sum_len_bytes ≡ s.sum_len_bytes)

  moved_time :
      (b : Bool) (s : WfqSched k) (v : List ℕ)
      → ((if b then record s { virtual_time = v } else s).queues ≡ s.queues)
        × ((if b then record s { virtual_time = v } else s).sum_len_bytes ≡ s.sum_len_bytes)
  moved_time true s v = (refl, refl)
  moved_time false s v = (refl, refl)

  next_head-Kept :
      (c : WfqParams) (prio i : ℕ) (x : WfqClass k) (s : WfqSched k)
      → Sized c
      → i < max_queues
      → prio < length s.virtual_time
      → Returns (Kept x s) (next_head k c prio i x s)
  unfolding next_head
  next_head-Kept c prio i x s v h l =
      let (weight, gw) = get_elem?-total c.queue_weight i (omega (arith, v.weight_length)) in
      let (now, gn) = get_elem?-total s.virtual_time prio l in
      elim (Bool-cases (x.len_bytes == 0)) [
        | inl empty ↦ ((x, s), if_true _ _ _ empty, (refl, refl, refl))
        | inr more ↦ elim (Option-cases (k.peek x.fifo)) [
          | inl gone ↦ ((x, s), if_false _ _ _ more ∙ rw (gw, gone) refl, (refl, refl, refl))
          | inr (p, here) ↦ elim (Bool-cases (is_int weight 0)) [
            | inl weightless ↦
                ((x, s), if_false _ _ _ more ∙ rw (gw, here, weightless) refl, (refl, refl, refl))
            | inr weighs ↦
                let finish = add64 x.head_fin_time (skb_size (k.len p) / to_u32 weight) in
                let b = time_before now finish in
                let v = set s.virtual_time prio finish in
                (
                  (
                    record x { head_fin_time = finish },
                    (if b then record s { virtual_time = v } else s),
                  ),
                  if_false _ _ _ more ∙ rw (gw, here, weighs, gn) refl,
                  (refl, (moved_time b s v).0, (moved_time b s v).1),
                )
          ]
        ]
      ]

  qlen_marks-ok :
      (c : WfqParams) (i : ℕ) (x : WfqClass k) (s : WfqSched k)
      → Sized c
      → i < max_queues
      → (b : Bool) × (qlen_marks k c i x s ≡ ok b)
  unfolding qlen_marks
  qlen_marks-ok c i x s v h =
      let (t, g) = get_elem?-total c.queue_thresh_bytes i (omega (arith, v.thresh_length)) in
      ok-if (is_int c.ecn_scheme 1) _ _ (ltb (to_u32 t) x.len_bytes, rw g refl)
        (ok-if (is_int c.ecn_scheme 2) _ _ (_, refl) (false, refl))

  len-mark : (b : Bool) (p : k.Skb) → k.len (if b then k.set_ce p else p) ≡ k.len p
  len-mark true p = k.len-set_ce p
  len-mark false p = refl

  mark_out-Marked :
      (c : WfqParams) (later i : ℕ) (p : k.Skb) (x : WfqClass k) (s : WfqSched k)
      → Sized c
      → i < max_queues
      → Returns (λ r. (k.len r.0 ≡ k.len p) × (r.1.fifo ≡ x.fifo)) (mark_out k c later i p x s)
  unfolding mark_out
  mark_out-Marked c later i p x s v h =
      let (must, e) = qlen_marks-ok c i x s v h in
      elim (Bool-cases (is_int c.ecn_scheme 4)) [
        | inl tcn ↦ (_, if_true _ _ _ tcn, (len-mark _ p, refl))
        | inr other ↦ elim (Bool-cases (is_int c.ecn_scheme 5)) [
          | inl codel ↦ (_, if_false _ _ _ other ∙ if_true _ _ _ codel, (len-mark _ p, refl))
          | inr neither ↦ elim (Bool-cases (is_int c.enable_dequeue_ecn 1)) [
            | inl here ↦ (
              (if must then k.set_ce p else p, x),
              if_false _ _ _ other ∙ if_false _ _ _ neither ∙ if_true _ _ _ here ∙ rw e refl,
              (len-mark must p, refl),
            )
            | inr never ↦ (
              _,
              if_false _ _ _ other ∙ if_false _ _ _ neither ∙ if_false _ _ _ never,
              (refl, refl),
            )
          ]
        ]
      ]

  -- The oldest packet of class `i`, which is `x`, has left as `q`.
  abbrev pub Departs : ℕ → WfqClass k → k.Skb → WfqSched k → WfqSched k → Type 0
  Departs i x q s t =
      (w : WfqClass k) × (p : k.Skb) × (ps : List k.Skb) × (k.contents x.fifo ≡ p ∷ ps)
      × (t.queues ≡ set s.queues i w)
      × (k.contents w.fifo ≡ ps)
      × (k.len q ≡ k.len p)
      × (t.sum_len_bytes + skb_size (k.len p) ≡ s.sum_len_bytes)

  -- It has, or nothing does and the watchdog is set.
  abbrev pub Outcome : ℕ → WfqClass k → WfqSched k → Option k.Skb × WfqSched k → Type 0
  Outcome i x s (some q, t) = Departs i x q s t
  Outcome i x s (none, t) = (at : ℕ) × (t ≡ record s { watchdog = some at })

  pub transmit-Outcome :
      (c : WfqParams) (now later prio i : ℕ) (p : k.Skb) (ps : List k.Skb) (x : WfqClass k)
      (s : WfqSched k)
      → Sized c
      → Holds s
      → s.sum_len_bytes < u32_mod
      → i < max_queues
      → prio < max_prio
      → get_elem? s.queues i ≡ some x
      → k.contents x.fifo ≡ p ∷ ps
      → Returns (Outcome i x s) (transmit k c now later prio i p x s)
  unfolding transmit count_out
  transmit-Outcome c now later prio i p ps x s v a small h l g e =
      let n = skb_size (k.len p) in
      let left = tbf_schedule (as_dwrr c) s.rate s.tokens s.time_ns n now in
      let (bytes, f) = get_elem?-total s.prio_len_bytes prio (omega (arith, l, a.bytes_length)) in
      let y = record x { fifo = k.after_dequeue x.fifo; len_bytes = sub32 x.len_bytes n } in
      let s1 = record s {
        sum_len_bytes = sub32 s.sum_len_bytes n;
        qlen = sub32 s.qlen 1;
        prio_len_bytes = set s.prio_len_bytes prio (sub32 bytes n);
      } in
      let ((z, s2), o, (same_fifo, same_queues, same_sum)) =
        next_head-Kept c prio i y s1 v h (omega (arith, l, a.virtual_length)) in
      let s3 = record s2 {
        time_ns = now;
        tokens = min_s64 left (l2t_ns s.rate (to_u32 c.bucket_bytes));
      } in
      let ((q, w), m, (len_same, fifo)) = mark_out-Marked c later i p z s3 v h in
      let part = le-sum_first wire max_queues s.queues i x g h in
      let whole : wire x ≡ n + wire_of k ps = ap (wire_of k) e in
      elim (Bool-cases (is_negative left)) [
        | inl short ↦
            ((none, record s { watchdog = some (sub64 now left) }), rw short refl, (_, refl))
        | inr enough ↦ (
          (some q, record s3 { queues = set s3.queues i w }),
          rw (enough, f, o, m) refl,
          (
            w,
            p,
            ps,
            e,
            ap (λ r. set r i w) same_queues,
            ap k.contents (fifo ∙ same_fifo) ∙ k.contents-after x.fifo ∙ ap tail e,
            len_same,
            omega (arith, same_sum, whole, part, a.all_bytes, small),
          ),
        )
      ]

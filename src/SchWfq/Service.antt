-- ===== src/SchWfq/Service.antt =====
-- `wfq_dequeue` of sch_wfq: which class it serves, and what leaves.
use mq_ecn.Common.{
  ℕ, suc, ◌+◌, ◌≤◌, ◌<◌, ◌≡◌, refl, sym, ap, subst, ◌∙◌, ◌⊎◌, inl, inr, Bool, true, false,
  Bool-cases, Option-cases, Option, none, some, List, [], ◌∷◌, head?, get_elem?, get_elem?-lt,
  length, sum_first, sum_first-pos, Returns, ltb, ltb→lt, le→ltb, ◌==◌, ◌&&◌, not, if◌then◌else◌,
  arith, if_true, if_false,
}
use mq_ecn.Kernel.{Kernel}
use mq_ecn.Words.{u32_mod, u64_mod, sub64}
use mq_ecn.SchDwrr.{max_queues, max_prio}
use mq_ecn.SchWfq.{WfqParams, time_before}
use mq_ecn.SchWfq.Qdisc.{WfqClass, WfqSched}
use mq_ecn.SchWfq.Dequeue.{prio_schedule, serve, serve_best, dequeue, earliest}
use mq_ecn.SchWfq.Earliest.{before_offset, waits, Window, earliest-first}
use mq_ecn.SchWfq.Transmission.{Sized, share, Holds, nonempty, Outcome, transmit-Outcome}

prio_schedule-finds :
    (bs : List ℕ) (i m : ℕ)
    → prio_schedule bs i ≡ some m
    → (j : ℕ) × (bytes : ℕ) × (m ≡ i + j)
      × (get_elem? bs j ≡ some bytes)
      × (0 < bytes)
      × (j < length bs)
unfolding prio_schedule
prio_schedule-finds [] i m e = cc
prio_schedule-finds (b ∷ bs) i m e = elim (Bool-cases (ltb 0 b)) [
  | inl here ↦
      let q : i ≡ m = let f : some i ≡ some m = sym (if_true _ _ _ here) ∙ e in cc in
      (0, b, omega (arith, q), refl, ltb→lt _ _ here, omega arith)
  | inr empty ↦
      let (j, bytes, q, g, p, l) =
        prio_schedule-finds bs (suc i) m (sym (if_false _ _ _ empty) ∙ e) in
      (suc j, bytes, omega (arith, q), g, p, omega (arith, l))
]

waits_of_share : (b : Bool) (n : ℕ) → 0 < (if b then n else 0) → (b && not (n == 0)) ≡ true
waits_of_share true n h = ground arith
waits_of_share false n h = elim h [ ]

bytes_of_waits : (b : Bool) (n : ℕ) → (b && not (n == 0)) ≡ true → 0 < n
bytes_of_waits b n h = ground arith

module _ (k : Kernel) where
  abbrev pub NoneEarlier : ℕ → WfqClass k → WfqSched k → Type 0
  NoneEarlier prio x s =
      (j : ℕ) (y : WfqClass k)
      → get_elem? s.queues j ≡ some y
      → waits k prio y ≡ true
      → time_before y.head_fin_time x.head_fin_time ≡ false

  -- What `dequeue` promises of its result.
  abbrev pub DequeuedEarliest : WfqSched k → Option k.Skb × WfqSched k → Type 0
  DequeuedEarliest s r =
      ((prio_schedule s.prio_len_bytes 0 ≡ none) × (r ≡ (none, s)))
      ⊎ ((prio : ℕ) × (i : ℕ) × (x : WfqClass k) × (prio_schedule s.prio_len_bytes 0 ≡ some prio)
          × (get_elem? s.queues i ≡ some x)
          × (waits k prio x ≡ true)
          × NoneEarlier prio x s
          × Outcome k i x s r)

  -- A class waits where the priority holds bytes.
  one_waits :
      (s : WfqSched k) (prio : ℕ)
      → Holds k s
      → prio_schedule s.prio_len_bytes 0 ≡ some prio
      → (prio < max_prio)
        × (n : ℕ) × (y : WfqClass k) × (get_elem? s.queues n ≡ some y)
        × (waits k prio y ≡ true)
  one_waits s prio a found =
      let (j, bytes, q, gb, positive, l) = prio_schedule-finds s.prio_len_bytes 0 prio found in
      let total = a.prio_bytes j bytes gb in
      let is_prio : j ≡ prio = omega (arith, q) in
      let (n, y, gy, _, some_share) = sum_first-pos (share k prio) max_queues s.queues (
        subst (λ m. 0 < sum_first (share k m) max_queues s.queues) is_prio
          (omega (arith, positive, total))) in
      (
        omega (arith, l, is_prio, a.bytes_length),
        n,
        y,
        gy,
        waits_of_share (y.prio == prio) y.len_bytes some_share,
      )

  choice :
      (base prio n : ℕ) (y : WfqClass k) (s : WfqSched k)
      → base < u64_mod
      → Window k base prio s.queues
      → get_elem? s.queues n ≡ some y
      → waits k prio y ≡ true
      → (i : ℕ) × (m : ℕ) × (x : WfqClass k) × (earliest k prio s.queues 0 none ≡ some (i, m))
        × (get_elem? s.queues i ≡ some x)
        × (waits k prio x ≡ true)
        × NoneEarlier prio x s
  choice base prio n y s b window gy wy =
      let ((i, m), chosen, (j, x, at, g, wx, time), least) =
        earliest-first k base prio s.queues 0 n y b window gy wy in
      let same : j ≡ i = omega (arith, at) in
      (
        i,
        m,
        x,
        chosen,
        subst (λ d. get_elem? s.queues d ≡ some x) same g,
        wx,
        λ l z gz wz.
            before_offset base z.head_fin_time x.head_fin_time b (window l z gz wz)
              (window j x g wx)
            ∙ le→ltb _ _
                (subst (λ d. sub64 d base ≤ sub64 z.head_fin_time base) time (least l z gz wz)),
      )

  -- With a threshold and a weight for every class, exact byte counters of the port, of each
  -- priority and of each class, the port's below 2^32, and the finish times of the classes
  -- with bytes less than 2^63 after a common base, `wfq_dequeue` returns and never follows a
  -- null pointer. If no priority holds bytes, it returns no packet and the state as it was.
  -- Else, for the first priority that does, it takes a class with bytes of that priority that
  -- no other such class finishes before, by `wfq_time_before`: either its oldest packet
  -- leaves, with its length as before, the other classes are as before and the port's byte
  -- counter falls by its bytes on the wire; or no packet leaves and only the watchdog is set.
  pub dequeue-DequeuedEarliest :
      (c : WfqParams) (base now later : ℕ) (s : WfqSched k)
      → Sized c
      → Holds k s
      → s.sum_len_bytes < u32_mod
      → base < u64_mod
      → ((prio : ℕ) → Window k base prio s.queues)
      → Returns (DequeuedEarliest s) (dequeue k c now later s)
  unfolding dequeue serve serve_best
  dequeue-DequeuedEarliest c base now later s v a small b window =
      elim (Option-cases (prio_schedule s.prio_len_bytes 0)) [
        | inl idle ↦ ((none, s), rw (dequeue, idle) refl, inl (idle, refl))
        | inr (prio, found) ↦
            let (l, n, y, gy, wy) = one_waits s prio a found in
            let (i, m, x, chosen, g, wx, first) = choice base prio n y s b (window prio) gy wy in
            let in_range : i < max_queues =
              omega (arith, get_elem?-lt s.queues i x g, a.queues_length) in
            let (p, ps, e) =
              nonempty k (k.contents x.fifo)
                (omega (arith, a.counted i x g, bytes_of_waits (x.prio == prio) x.len_bytes wx)) in
            let peeked : k.peek x.fifo ≡ some p = k.peek-eq x.fifo ∙ ap head? e in
            let (t, o, outcome) =
              transmit-Outcome k c now later prio i p ps x s v a small in_range l g e in
            (
              t,
              rw (dequeue, found, chosen, g, peeked, o) refl,
              inr (prio, i, x, found, g, wx, first, outcome),
            )
      ]

-- ===== src/SchDwrr/Arrivals.antt =====
-- What `dwrr_enqueue` of sch_dwrr does to the FIFOs and their counters.
use mq_ecn.Common.{
  ℕ, ◌+◌, ◌%◌, ◌≤◌, ◌<◌, ◌≡◌, refl, ap, ◌∙◌, ◌⊎◌, inl, inr, Bool, true, false, Bool-cases, List,
  get_elem?-total, length, ok, Returns, ltb, ltb→lt, ltb→le, if◌then◌else◌, arith,
}
use mq_ecn.Kernel.{Kernel}
use mq_ecn.Words.{u32_mod}
use mq_ecn.SchDwrr.{Params, max_queues}
use mq_ecn.SchDwrr.Rate.{skb_size}
use mq_ecn.SchDwrr.Qdisc.{
  Verdict, accepted, overfilled, refused, Class, Sched, classify, buffer_overfill, enqueue_at,
  enqueue,
}
use mq_ecn.SchDwrr.Accounting.{Timely, Shares, Counts, classify-lt}
use mq_ecn.SchDwrr.Acceptance.{wake-Woken, Arrives, accept-Arrives}

skb_size-lt : (n : ℕ) → n < 1073741824 → skb_size n < 2147483648
unfolding skb_size
skb_size-lt n h = omega arith

if_self : (b : Bool) → (if b then true else false) ≡ b
if_self true = refl
if_self false = refl

module _ (k : Kernel) where
  -- What `enqueue` promises of its result.
  abbrev pub EnqueuedCounted : Params → ℕ → ℕ → Sched k → k.Skb → Verdict × Sched k → Type 0
  EnqueuedCounted c limit now s p r =
      (((r.0 ≡ accepted)
          × (s.sum_len_bytes + skb_size (k.len p) ≤ limit)
          × Arrives k c now (classify k c p) p s r.1)
        ⊎ ((r.0 ≡ overfilled)
            × (limit < s.sum_len_bytes + skb_size (k.len p))
            × (r.1.queues ≡ s.queues))
        ⊎ ((r.0 ≡ refused)
            × (s.sum_len_bytes + skb_size (k.len p) ≤ limit)
            × (r.1.queues ≡ s.queues)))
      × Counts k r.1
      × (r.1.sum_len_bytes ≤ limit)
      × Timely k r.1

  woken-Counts :
      (s : Sched k) (rt : List ℕ)
      → Counts k s
      → length rt ≡ length s.round_time
      → Counts k (record s { round_time = rt })
  woken-Counts s rt v e = record {
    queues_length = v.queues_length;
    active_length = v.active_length;
    bytes_length = v.bytes_length;
    round_length = e ∙ v.round_length;
    idle_length = v.idle_length;
    counted = v.counted;
    all_bytes = v.all_bytes;
  }

  shared_overfill :
      (c : Params) (limit len i : ℕ) (x : Class k) (s : Sched k)
      → Shares c limit
      → i < max_queues
      → s.sum_len_bytes ≤ limit
      → len < 2147483648
      → buffer_overfill k c len i x s ≡ ok (ltb limit (s.sum_len_bytes + len))
  unfolding buffer_overfill
  shared_overfill c limit len i x s v l h b =
      let (own, g) = get_elem?-total c.queue_buffer_bytes i (omega (arith, v.buffer_length)) in
      let word : limit % u32_mod ≡ limit = omega (arith, v.limit_small) in
      let sum : (s.sum_len_bytes + len) % u32_mod ≡ s.sum_len_bytes + len =
        omega (arith, v.limit_small) in
      rw (g, v.mode, v.limit_is, word, sum) (ap ok (if_self (ltb limit (s.sum_len_bytes + len))))

  -- With the shared buffer of `limit` bytes, a round time weight of at most 1024, counters
  -- that are exact and at most `limit`, a positive rate, round times that as `s64` are at
  -- least -2^50 and below 2^32 ns, and a packet below 2^30 bytes, `dwrr_enqueue` returns one
  -- of three verdicts, under every marking scheme. Accepted: the packet's bytes on the wire
  -- fit, and it is the newest of the class with its DSCP, with the time stamp that TCN and
  -- CoDel write, or under another scheme as it was or with a congestion mark; the other
  -- classes are as before. `NET_XMIT_DROP`: they do not fit, and the classes are as before.
  -- Refused by the class's FIFO: they fit, and the classes are as before. Always the byte
  -- counters of the port and of each class are exact afterwards, the port holds at most
  -- `limit` bytes, and the round times are within these bounds.
  pub enqueue-EnqueuedCounted :
      (c : Params) (limit : ℕ) (t : ℕ → ℕ) (p : k.Skb) (s : Sched k)
      → Shares c limit
      → Counts k s
      → Timely k s
      → s.sum_len_bytes ≤ limit
      → k.len p < 1073741824
      → Returns (EnqueuedCounted c limit (t 2) s p) (enqueue k c t p s)
  unfolding enqueue enqueue_at
  enqueue-EnqueuedCounted c limit t p s v w timely bound short =
      let i = classify k c p in
      let l : i < max_queues = classify-lt k c p v.dscp_length in
      let (prio, gp) = get_elem?-total c.queue_prio i (omega (arith, v.prio_length)) in
      let a = wake-Woken k c limit (t 0) prio s v w (v.prio_in i prio gp) in
      let s0 = record s { round_time = a.rt } in
      let now_timely = a.timely timely in
      let w0 = woken-Counts s a.rt w a.same_length in
      let (x, g) = get_elem?-total s.queues i (omega (arith, w.queues_length)) in
      let full =
        shared_overfill c limit (skb_size (k.len p)) i x s0 v l bound
          (skb_size-lt (k.len p) short) in
      elim (Bool-cases (ltb limit (s.sum_len_bytes + skb_size (k.len p)))) [
        | inl over ↦ (
          (overfilled, s0),
          rw (gp, a.result, g, full, over) refl,
          (inr (inl (refl, ltb→lt _ _ over, refl)), w0, bound, now_timely),
        )
        | inr room ↦ elim (Bool-cases (k.admits x.fifo p)) [
          | inr no_room ↦ (
            (refused, s0),
            rw (gp, a.result, g, full, room, no_room) refl,
            (inr (inr (refl, ltb→le _ _ room, refl)), w0, bound, now_timely),
          )
          | inl admitted ↦
              let (r, e, (arrives, kept, in_limit, still)) =
                accept-Arrives k c limit t i prio p x s0 v w0 now_timely l (v.prio_in i prio gp) g
                  (ltb→le _ _ room) in
              (
                (accepted, r),
                rw (gp, a.result, g, full, room, admitted, e) refl,
                (inl (refl, ltb→le _ _ room, arrives), kept, in_limit, still),
              )
        ]
      ]

-- ===== src/SchDwrr/Transmission.antt =====
-- `transmit` of sch_dwrr: a packet leaves, or the tokens do not suffice.
use mq_ecn.Common.{
  head?, ℕ, ◌+◌, ◌≤◌, ◌<◌, ◌≡◌, refl, sym, ap, ◌∙◌, ◌⊎◌, inl, inr, Bool, true, false, Bool-cases,
  some, List, ◌∷◌, tail, get_elem?, get_elem?-total, set, set_keeps, length, length-set,
  sum_first-set, le-sum_first, Returns, ◌==◌, if◌then◌else◌, arith,
}
use mq_ecn.Kernel.{Kernel}
use mq_ecn.Words.{u32_mod, sub32, sub64, add64, to_u32, is_negative, min_s64}
use mq_ecn.SchDwrr.{Params, max_queues}
use mq_ecn.SchDwrr.Rate.{skb_size, l2t_ns, tbf_schedule}
use mq_ecn.SchDwrr.Qdisc.{Class, Sched}
use mq_ecn.SchDwrr.Dequeue.{sent, count_out, transmit}
use mq_ecn.SchDwrr.Accounting.{Shares, wire, wire_of, Counted, Counts}
use mq_ecn.SchDwrr.Departures.{
  map-set, get_elem?-map, fifos, Serving, Sends, Throttles, deactivate-Deactivated, mark_out-Marked,
}
use mq_ecn.SchDwrr.Rotation.{head-le}

module _ (k : Kernel) where
  -- What the departure of `n` bytes from class `i` does to the counters.
  leave-Counts :
      (s : Sched k) (i n : ℕ) (x w : Class k) (a : List (List ℕ)) (rt pl idle : List ℕ)
      (q tokens time_ns : ℕ)
      → Counts k s
      → i < max_queues
      → get_elem? s.queues i ≡ some x
      → w.len_bytes ≡ sub32 x.len_bytes n
      → wire k x ≡ n + wire k w
      → w.prio ≡ x.prio
      → length a ≡ length s.active
      → length rt ≡ length s.round_time
      → length pl ≡ length s.prio_len_bytes
      → length idle ≡ length s.last_idle_time
      → s.sum_len_bytes < u32_mod
      → Counts k (record s {
        queues = set s.queues i w;
        active = a;
        round_time = rt;
        prio_len_bytes = pl;
        last_idle_time = idle;
        qlen = q;
        tokens = tokens;
        time_ns = time_ns;
        sum_len_bytes = sub32 s.sum_len_bytes n;
      })
  leave-Counts s i n x w a rt pl idle q tokens time_ns v h g b c o e r p d small =
      let own = (v.counted i x g).own_bytes in
      let part = le-sum_first (wire k) max_queues s.queues i x g h in
      record {
        queues_length = length-set s.queues i w ∙ v.queues_length;
        active_length = e ∙ v.active_length;
        bytes_length = p ∙ v.bytes_length;
        round_length = r ∙ v.round_length;
        idle_length = d ∙ v.idle_length;
        counted = set_keeps (Counted k) s.queues i w v.counted (record {
          own_bytes = omega (arith, own, part, v.all_bytes, b, c, small);
          own_prio = omega (arith, o, (v.counted i x g).own_prio);
        });
        all_bytes = omega (
          arith,
          v.all_bytes,
          c,
          part,
          small,
          sum_first-set (wire k) max_queues s.queues i x w g h,
        );
      }

  idle-length :
      (b : Bool) (xs : List ℕ) (i n : ℕ) → length (if b then set xs i n else xs) ≡ length xs
  idle-length true xs i n = length-set xs i n
  idle-length false xs i n = refl

  pub transmit-cases :
      (c : Params) (limit now later prio i : ℕ) (l : List ℕ) (x : Class k) (p : k.Skb)
      (ps : List k.Skb) (s : Sched k)
      → Shares c limit
      → Serving k now prio i l s
      → s.sum_len_bytes ≤ limit
      → i < max_queues
      → get_elem? s.queues i ≡ some x
      → k.contents x.fifo ≡ p ∷ ps
      → Returns (λ t. Sends k i s t ⊎ Throttles k s t) (transmit k c now later prio i l p x s)
  unfolding transmit count_out
  transmit-cases c limit now later prio i l x p ps s v a bound h g e =
      let counts = a.counts in
      let n = skb_size (k.len p) in
      let left = tbf_schedule c s.rate s.tokens s.time_ns n now in
      let (bytes, f) =
        get_elem?-total s.prio_len_bytes prio (omega (arith, a.prio_in, counts.bytes_length)) in
      let y = record x {
        fifo = k.after_dequeue x.fifo;
        len_bytes = sub32 x.len_bytes n;
        deficit = sub32 x.deficit n;
        last_pkt_time = add64 now (l2t_ns s.rate n);
      } in
      let pl = set s.prio_len_bytes prio (sub32 bytes n) in
      let idle = if sub32 bytes n == 0 then set s.last_idle_time prio now else s.last_idle_time in
      let s1 = record s {
        prio_len_bytes = pl;
        last_idle_time = idle;
        sum_len_bytes = sub32 s.sum_len_bytes n;
        qlen = sub32 s.qlen 1;
      } in
      let d =
        deactivate-Deactivated k c limit prio l y s1 v a.timely
          (((a.prompt i x g).1 p (k.peek-eq x.fifo ∙ ap head? e)).0)
          (omega (arith, a.prio_in, counts.round_length)) in
      let s3 = record s1 {
        active = d.a;
        round_time = d.rt;
        time_ns = now;
        tokens = min_s64 left (l2t_ns s.rate (to_u32 c.bucket_bytes));
      } in
      let ((q, z), m, (same, fifo, own, prio_same)) =
        mark_out-Marked k c limit later i p y s3 v h (counts.counted i x g).own_prio
          (d.same_round ∙ counts.round_length) d.timely in
      let rest : k.contents z.fifo ≡ ps =
        ap k.contents fifo ∙ k.contents-after x.fifo ∙ ap tail e in
      let less : wire k x ≡ n + wire k z =
        head-le k x p ps e ∙ ap (λ r. n + wire_of k r) (sym rest) in
      let part = le-sum_first (wire k) max_queues s.queues i x g h in
      let s4 = record s3 { queues = set s.queues i z } in
      elim (Bool-cases (is_negative left)) [
        | inl short ↦ rw short (_, refl, inr (record { at = sub64 now left; is_throttled = refl }))
        | inr enough ↦ (
          sent q s4,
          rw (enough, f, d.result, m) refl,
          inl (record {
            q = q;
            s' = s4;
            is_sent = refl;
            leaves = (
              p,
              ps,
              get_elem?-map (λ (x : Class k). k.contents x.fifo) s.queues i x g ∙ ap some e,
              map-set (λ (x : Class k). k.contents x.fifo) s.queues i z
                  ∙ ap (λ r. set (fifos k s) i r) rest,
              same,
              omega (arith, less, part, counts.all_bytes, bound, v.limit_small),
            );
            counts =
                leave-Counts s i n x z d.a d.rt pl idle _ _ _ counts h g own less prio_same
                  d.same_active d.same_round (length-set s.prio_len_bytes prio _)
                  (idle-length _ s.last_idle_time prio now) (omega (arith, bound, v.limit_small));
            timely = d.timely;
          }),
        )
      ]

-- ===== src/SchDwrr/Rotation.antt =====
-- `rotate` of sch_dwrr: the class at the head of the list goes to the tail.
use mq_ecn.Common.{
  ℕ, ◌+◌, ◌-◌, ◌≤◌, ◌<◌, ◌≡◌, refl, sym, ap, subst, ◌∙◌, false, some, List, [], ◌∷◌, ◌++◌, map,
  head?, get_elem?, get_elem?-total, get_elem?-set_self, set, set_keeps, length, length-set,
  sum_first-set, sum_first-set_same, le-sum_first, Returns, arith,
}
use mq_ecn.Port.Backlog.{set_get_self}
use mq_ecn.Kernel.{Kernel}
use mq_ecn.Words.{add64, add32, sub64, to_u32}
use mq_ecn.SchDwrr.{RateCfg, Params, max_queues}
use mq_ecn.SchDwrr.Rate.{l2t_ns, skb_size, ewma_round}
use mq_ecn.SchDwrr.Qdisc.{is_int, Class, Sched}
use mq_ecn.SchDwrr.Dequeue.{moved, rotate}
use mq_ecn.SchDwrr.Accounting.{Shares, wire, wire_of, Counted, Counts}
use mq_ecn.SchDwrr.Rounds.{Tame}
use mq_ecn.SchDwrr.Departures.{
  PromptClass, smooth-Timely, map-set, get_elem?-map, from_tail, nonempty, Quanta, Busy, Serving,
  need, Moves,
}

tail-length : (l : List ℕ) (i : ℕ) → 0 < length (l ++ (i ∷ []))
tail-length [] i = omega arith
tail-length (m ∷ l) i = omega arith

module _ (k : Kernel) where
  -- A write of a class with the same packets.
  same-fifos :
      (xs : List (Class k)) (i : ℕ) (x w : Class k)
      → get_elem? xs i ≡ some x
      → w.fifo ≡ x.fifo
      → map (λ (x : Class k). k.contents x.fifo) (set xs i w)
        ≡ map (λ (x : Class k). k.contents x.fifo) xs
  same-fifos xs i x w g e =
      let f : Class k → List k.Skb = λ x. k.contents x.fifo in
      map-set f xs i w
      ∙ ap (λ l. set (map f xs) i l) (ap k.contents e)
      ∙ set_get_self (map f xs) i (f x) (get_elem?-map f xs i x g)

  need-head :
      (x : Class k) (p : k.Skb) → k.peek x.fifo ≡ some p → need k x ≡ skb_size (k.len p) - x.deficit
  need-head x p e = rw e refl

  -- The oldest packet is counted in the bytes of its class.
  pub head-le :
      (x : Class k) (p : k.Skb) (ps : List k.Skb)
      → k.contents x.fifo ≡ p ∷ ps
      → wire k x ≡ skb_size (k.len p) + wire_of k ps
  head-le x p ps e = ap (wire_of k) e

  -- The write of a class with the same packets, for the counters and for the lists.
  rotate-Counts :
      (s : Sched k) (i : ℕ) (x w : Class k) (a : List (List ℕ)) (rt : List ℕ)
      → Counts k s
      → get_elem? s.queues i ≡ some x
      → w.fifo ≡ x.fifo
      → w.len_bytes ≡ x.len_bytes
      → w.prio ≡ x.prio
      → length a ≡ length s.active
      → length rt ≡ length s.round_time
      → Counts k (record s { queues = set s.queues i w; active = a; round_time = rt })
  rotate-Counts s i x w a rt v g f b o e r =
      let own = v.counted i x g in
      record {
        queues_length = length-set s.queues i w ∙ v.queues_length;
        active_length = e ∙ v.active_length;
        bytes_length = v.bytes_length;
        round_length = r ∙ v.round_length;
        idle_length = v.idle_length;
        counted = set_keeps (Counted k) s.queues i w v.counted (record {
          own_bytes = b ∙ own.own_bytes ∙ sym (ap (λ j. wire_of k (k.contents j)) f);
          own_prio = omega (arith, o, own.own_prio);
        });
        all_bytes =
            v.all_bytes
            ∙ sym (
                sum_first-set_same (wire k) max_queues s.queues i x w g
                  (ap (λ j. wire_of k (k.contents j)) f));
      }

  set-Busy :
      (s : Sched k) (i : ℕ) (x w : Class k)
      → get_elem? s.queues i ≡ some x
      → w.fifo ≡ x.fifo
      → (m : ℕ) → Busy k s m
      → (m < max_queues)
        × ((y : Class k) → get_elem? (set s.queues i w) m ≡ some y → 0 < length (k.contents y.fifo))
  set-Busy s i x w g f m (l, some_left) = (
    l,
    λ y gy.
        set_keeps (λ b z. b ≡ m → 0 < length (k.contents z.fifo)) s.queues i w
          (λ b z gb eb. some_left z (subst (λ r. get_elem? s.queues r ≡ some z) eb gb))
          (λ eb.
            subst (λ r. 0 < length (k.contents r)) (sym f)
              (some_left x (subst (λ r. get_elem? s.queues r ≡ some x) eb g)))
          m y gy refl,
  )

  -- The new round of a class begins with its last packet.
  rotate-Prompt :
      (now : ℕ) (r : RateCfg) (x w : Class k)
      → PromptClass k now r x
      → w.fifo ≡ x.fifo
      → w.start_time ≡ x.last_pkt_time
      → w.last_pkt_time ≡ x.last_pkt_time
      → PromptClass k now r w
  rotate-Prompt now r x w (_, next) f b e = (
    (omega (arith, b, e), omega (arith, b, e)),
    λ p h.
        let (_, late) = next p (ap k.peek (sym f) ∙ h) in
        let t = add64 now (l2t_ns r (skb_size (k.len p))) in
        (subst (λ z. Tame (sub64 t z)) (sym b) late, subst (λ z. Tame (sub64 t z)) (sym e) late),
  )

  pub rotate-Moves :
      (c : Params) (limit now prio i : ℕ) (l : List ℕ) (x : Class k) (p : k.Skb) (ps : List k.Skb)
      (s : Sched k)
      → Shares c limit
      → Quanta c
      → is_int c.enable_wrr 1 ≡ false
      → Serving k now prio i l s
      → s.sum_len_bytes ≤ limit
      → i < max_queues
      → get_elem? s.queues i ≡ some x
      → k.contents x.fifo ≡ p ∷ ps
      → x.deficit < skb_size (k.len p)
      → Returns (Moves k now prio i l s) (rotate k c prio i l x s)
  unfolding rotate
  rotate-Moves c limit now prio i l x p ps s v u wrr a bound h g e less =
      let counts = a.counts in
      let (round, f) =
        get_elem?-total s.round_time prio (omega (arith, a.prio_in, counts.round_length)) in
      let (q, gq) = get_elem?-total c.queue_quantum i (omega (arith, v.quantum_length)) in
      let (n, is_pos, positive, small) = u i q gq in
      let w = record x {
        start_time = x.last_pkt_time;
        quantum = to_u32 q;
        deficit = add32 x.deficit (to_u32 q);
      } in
      let word : to_u32 q ≡ n = ap to_u32 is_pos ∙ omega arith in
      let peeked : k.peek x.fifo ≡ some p = k.peek-eq x.fifo ∙ ap head? e in
      let fits : skb_size (k.len p) ≤ limit = omega (
        arith,
        head-le x p ps e,
        le-sum_first (wire k) max_queues s.queues i x g h,
        counts.all_bytes,
        bound,
      ) in
      let raised : w.deficit ≡ x.deficit + n =
        ap (λ m. add32 x.deficit m) word ∙ omega (arith, fits, v.limit_small) in
      let (h2, r2, e2) = nonempty (l ++ (i ∷ [])) (tail-length l i) in
      (
        moved (record s {
          queues = set s.queues i w;
          active = set s.active prio (l ++ (i ∷ []));
          round_time =
              set s.round_time prio (ewma_round c round (sub64 x.last_pkt_time x.start_time));
        }),
        rw (f, gq, wrr) refl,
        record {
          s' = _;
          is_moved = refl;
          same_fifos = same-fifos s.queues i x w g refl;
          same_sum = refl;
          head = h2;
          rest = r2;
          serving = record {
            counts =
                rotate-Counts s i x w _ _ counts g refl refl refl (length-set s.active prio _)
                  (length-set s.round_time prio _);
            prio_in = a.prio_in;
            timely =
                smooth-Timely k c limit prio round (sub64 x.last_pkt_time x.start_time) s v a.timely
                  ((a.prompt i x g).0) f;
            prompt =
                set_keeps (λ _ z. PromptClass k now s.rate z) s.queues i w a.prompt
                  (rotate-Prompt now s.rate x w (a.prompt i x g) refl refl refl);
            listed =
                get_elem?-set_self s.active prio _ (omega (arith, a.prio_in, counts.active_length))
                ∙ ap some e2;
            busy = λ j m gm.
                let (j', gm') = from_tail l i m j (ap (λ z. get_elem? z j) e2 ∙ gm) in
                set-Busy s i x w g refl m (a.busy j' m gm');
          };
          from_list = λ j m gm. from_tail l i m j (ap (λ z. get_elem? z j) e2 ∙ gm);
          nearer = omega (
            arith,
            sum_first-set (need k) max_queues s.queues i x w g h,
            need-head x p peeked,
            need-head w p peeked,
            raised,
            positive,
            less,
          );
        },
      )

-- ===== src/SchDwrr/Acceptance.antt =====
-- A packet with room in the buffer: what `wake` and `accept` of sch_dwrr do.
use mq_ecn.Common.{
  ◌⊎◌, ℕ, ◌+◌, ◌≤◌, ◌<◌, ◌≡◌, refl, ap, ◌∙◌, inl, inr, true, false, Bool-cases, some, List, [], ◌∷◌,
  ◌++◌, get_elem?, get_elem?-total, set, set_keeps, length, length-set, sum_first-set, le-sum_first,
  Result, ok, Returns, ◌==◌, ◌||◌, if◌then◌else◌, arith, if_true, if_false,
}
use mq_ecn.Kernel.{Kernel}
use mq_ecn.Words.{u32_mod, add32, to_u32}
use mq_ecn.SchDwrr.{Params, max_queues, max_prio}
use mq_ecn.SchDwrr.Rate.{skb_size, reset_round}
use mq_ecn.SchDwrr.Qdisc.{is_int, Class, Sched, wake, activate, count_in, mark_in, accept}
use mq_ecn.SchDwrr.Rounds.{Tame, reset_round-Tame}
use mq_ecn.SchDwrr.Accounting.{
  Timely, Remarked, Remarked-len, if-Remarked, Shares, wire, wire_of, wire_of-append, Counted,
  Counts, qlen_marks-ok,
}

module _ (k : Kernel) where
  pub record Woken (s : Sched k) (r : Result (Sched k)) : Type 0 where
    pub rt : List ℕ
    pub result : r ≡ ok (record s { round_time = rt })
    pub same_length : length rt ≡ length s.round_time
    pub timely : Timely k s → Timely k (record s { round_time = rt })

  pub wake-Woken :
      (c : Params) (limit now prio : ℕ) (s : Sched k)
      → Shares c limit
      → Counts k s
      → prio < max_prio
      → Woken s (wake k c now prio s)
  unfolding wake
  wake-Woken c limit now prio s shares v l =
      let (bytes, e) = get_elem?-total s.prio_len_bytes prio (omega (arith, v.bytes_length)) in
      let (since, f) = get_elem?-total s.last_idle_time prio (omega (arith, v.idle_length)) in
      let (round, g) = get_elem?-total s.round_time prio (omega (arith, v.round_length)) in
      elim (Bool-cases (bytes == 0)) [
        | inl idle ↦ record {
          rt = set s.round_time prio (reset_round c now bytes since round);
          result = rw (e, f, g, idle) refl;
          same_length = length-set s.round_time prio _;
          timely = λ t. (
            t.0,
            set_keeps (λ _ n. Tame n) s.round_time prio (reset_round c now bytes since round) (t.1)
                (reset_round-Tame c now bytes since round shares.weight shares.alpha shares.alpha_in
                  (t.1 prio round g)),
          );
        }
        | inr busy ↦ record {
          rt = s.round_time;
          result = rw (e, f, g, busy) refl;
          same_length = refl;
          timely = λ t. t;
        }
      ]

  record Activated (s : Sched k) (x : Class k) (r : Result (Class k × Sched k)) : Type 0 where
    y : Class k
    a : List (List ℕ)
    result : r ≡ ok (y, record s { active = a })
    same_length : length a ≡ length s.active
    bytes_same : y.len_bytes ≡ x.len_bytes
    prio_in : y.prio < max_prio

  activate-Activated :
      (c : Params) (limit now i prio : ℕ) (x : Class k) (s : Sched k)
      → Shares c limit
      → length s.active ≡ max_prio
      → i < max_queues
      → prio < max_prio
      → x.prio < max_prio
      → Activated s x (activate k c now i prio x s)
  unfolding activate
  activate-Activated c limit now i prio x s v n l h own =
      let (q, f) = get_elem?-total c.queue_quantum i (omega (arith, v.quantum_length)) in
      let (list, g) = get_elem?-total s.active prio (omega arith) in
      elim (Bool-cases (k.qlen x.fifo == 1)) [
        | inl first ↦ record {
          y = record x { start_time = now; quantum = to_u32 q; prio = prio; deficit = to_u32 q };
          a = set s.active prio (list ++ (i ∷ []));
          result = rw (first, f, g) refl;
          same_length = length-set s.active prio _;
          bytes_same = refl;
          prio_in = h;
        }
        | inr later ↦ record {
          y = x;
          a = s.active;
          result = rw later refl;
          same_length = refl;
          bytes_same = refl;
          prio_in = own;
        }
      ]

  -- What `enqueue` writes to a packet that comes at the time `now`: TCN and CoDel stamp it, the other
  -- schemes mark it or leave it.
  abbrev pub Written : Params → ℕ → k.Skb → k.Skb → Type 0
  Written c now p q =
      (((is_int c.ecn_scheme 4 || is_int c.ecn_scheme 5) ≡ true) × (q ≡ k.stamp now p))
      ⊎ (((is_int c.ecn_scheme 4 || is_int c.ecn_scheme 5) ≡ false) × Remarked k p q)

  Written-len : (c : Params) (now : ℕ) (p q : k.Skb) → Written c now p q → k.len q ≡ k.len p
  Written-len c now p q (inl (h, e)) = ap k.len e ∙ k.len-stamp now p
  Written-len c now p q (inr (h, r)) = Remarked-len k p q r

  mark_in-ok :
      (c : Params) (limit now i : ℕ) (p : k.Skb) (x : Class k) (s : Sched k)
      → Shares c limit
      → i < max_queues
      → x.prio < max_prio
      → length s.round_time ≡ max_prio
      → Timely k s
      → Returns (Written c now p) (mark_in k c now i p x s)
  unfolding mark_in
  mark_in-ok c limit now i p x s v l h n timely =
      let (must, e) = qlen_marks-ok k c limit i x s v l h n timely in
      elim (Bool-cases (is_int c.ecn_scheme 4 || is_int c.ecn_scheme 5)) [
        | inl sojourn ↦ (k.stamp now p, if_true _ _ _ sojourn, inl (sojourn, refl))
        | inr other ↦ elim (Bool-cases (is_int c.enable_dequeue_ecn 0)) [
          | inl here ↦ (
            if must then k.set_ce p else p,
            if_false _ _ _ other ∙ if_true _ _ _ here ∙ rw e refl,
            inr (other, if-Remarked k must p),
          )
          | inr later ↦ (p, if_false _ _ _ other ∙ if_false _ _ _ later, inr (other, inl refl))
        ]
      ]

  -- The state after `n` bytes have come to class `i`, which then is `w`.
  abbrev stored : Sched k → List ℕ → List (List ℕ) → List ℕ → ℕ → ℕ → Class k → ℕ → Sched k
  stored s rt a pl q i w n = record s {
    round_time = rt;
    active = a;
    prio_len_bytes = pl;
    qlen = q;
    sum_len_bytes = add32 s.sum_len_bytes n;
    queues = set s.queues i w;
  }

  store-Counts :
      (s : Sched k) (rt : List ℕ) (a : List (List ℕ)) (pl : List ℕ) (q i n : ℕ) (x w : Class k)
      → Counts k s
      → length rt ≡ length s.round_time
      → length a ≡ length s.active
      → length pl ≡ length s.prio_len_bytes
      → i < max_queues
      → get_elem? s.queues i ≡ some x
      → w.len_bytes ≡ add32 x.len_bytes n
      → wire k w ≡ wire k x + n
      → w.prio < max_prio
      → s.sum_len_bytes + n < u32_mod
      → Counts k (stored s rt a pl q i w n)
  store-Counts s rt a pl q i n x w v e f h l g b c o room =
      let own = (v.counted i x g).own_bytes in
      let part = le-sum_first (wire k) max_queues s.queues i x g l in
      record {
        queues_length = length-set s.queues i w ∙ v.queues_length;
        active_length = f ∙ v.active_length;
        bytes_length = h ∙ v.bytes_length;
        round_length = e ∙ v.round_length;
        idle_length = v.idle_length;
        counted =
            set_keeps (Counted k) s.queues i w v.counted
              (record { own_bytes = omega (arith, own, part, v.all_bytes, b, c); own_prio = o });
        all_bytes =
            omega (arith, v.all_bytes, c, sum_first-set (wire k) max_queues s.queues i x w g l);
      }

  -- `p`, which comes at the time `now`, is the newest packet of class `i`, but for what is written to it.
  abbrev pub Arrives : Params → ℕ → ℕ → k.Skb → Sched k → Sched k → Type 0
  Arrives c now i p s t =
      (x : Class k) × (w : Class k) × (q : k.Skb) × (get_elem? s.queues i ≡ some x)
      × (t.queues ≡ set s.queues i w)
      × (k.contents w.fifo ≡ k.contents x.fifo ++ (q ∷ []))
      × Written c now p q
      × (t.sum_len_bytes ≡ s.sum_len_bytes + skb_size (k.len p))

  -- What `accept` does to a state with room for the packet.
  pub accept-Arrives :
      (c : Params) (limit : ℕ) (t : ℕ → ℕ) (i prio : ℕ) (p : k.Skb) (x : Class k) (s : Sched k)
      → Shares c limit
      → Counts k s
      → Timely k s
      → i < max_queues
      → prio < max_prio
      → get_elem? s.queues i ≡ some x
      → s.sum_len_bytes + skb_size (k.len p) ≤ limit
      → Returns
          (λ r. Arrives c (t 2) i p s r × Counts k r × (r.sum_len_bytes ≤ limit) × Timely k r)
          (accept k c t i prio p x s)
  unfolding accept count_in
  accept-Arrives c limit t i prio p x s v w timely l h g fits =
      let n = skb_size (k.len p) in
      let b =
        activate-Activated c limit (t 1) i prio (record x { fifo = k.append p x.fifo }) s v
          w.active_length l h (w.counted i x g).own_prio in
      let (bytes, e) =
        get_elem?-total s.prio_len_bytes b.y.prio (omega (arith, w.bytes_length, b.prio_in)) in
      let pl = set s.prio_len_bytes b.y.prio (add32 bytes n) in
      let z = record (b.y) { len_bytes = add32 b.y.len_bytes n } in
      let s2 = record s {
        active = b.a;
        prio_len_bytes = pl;
        qlen = add32 s.qlen 1;
        sum_len_bytes = add32 s.sum_len_bytes n;
      } in
      let (q, m, written) = mark_in-ok c limit (t 2) i p z s2 v l b.prio_in w.round_length timely in
      let same = Written-len c (t 2) p q written in
      let y = record z { fifo = k.append q x.fifo } in
      let more : wire k y ≡ wire k x + n =
        ap (wire_of k) (k.contents-append q x.fifo)
        ∙ wire_of-append k (k.contents x.fifo) q
        ∙ ap (λ j. wire k x + skb_size j) same in
      let kept =
        store-Counts s s.round_time b.a pl (add32 s.qlen 1) i n x y w refl b.same_length
          (length-set s.prio_len_bytes b.y.prio (add32 bytes n)) l g
          (ap (λ j. add32 j n) b.bytes_same) more b.prio_in (omega (arith, fits, v.limit_small)) in
      let sum : add32 s.sum_len_bytes n ≡ s.sum_len_bytes + n =
        omega (arith, fits, v.limit_small) in
      (
        stored s s.round_time b.a pl (add32 s.qlen 1) i y n,
        rw (b.result, e, m) refl,
        (
          (x, y, q, g, refl, k.contents-append q x.fifo, written, sum),
          kept,
          omega (arith, sum, fits),
          timely,
        ),
      )

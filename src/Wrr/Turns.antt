-- ===== src/Wrr/Turns.antt =====
-- One iteration of the loop of `WRR::deque`: it sends a packet or hands the turn on.
use native.Mathlib.Decide.{ℕ_discrete}
use mq_ecn.Common.{
  ℕ, ◌<◌, ◌≡◌, refl, sym, ap, subst, ◌∙◌, ◌⊎◌, inl, inr, ◌≢◌, false, some, List, get_elem?,
  get_elem?-set_ne, get_elem?-set_self, set, set_keeps, length, length-set, get_elem?-total,
  Returns, arith, ltb, leb, ◌==◌, Bool-cases, ltb→lt,
}
use mq_ecn.Simulator.{Simulator}
use mq_ecn.Port.{Pkt, latency_marking}
use mq_ecn.Port.Backlog.{TakesAt, leave-Marked, view-set_same, take-TakesAt, deque-total}
use mq_ecn.Wrr.{Slot, Wrr}
use mq_ecn.Wrr.Deque.{Turn, sent, moved, next, take_packet, serve, pass, skip, refresh, visit, turn}
use mq_ecn.Wrr.Refine.{held, IsValid, Waits}

module _ (ns : Simulator) where
  -- No queue has begun its round.
  abbrev pub IsFresh : List (Slot ns) → Type 0
  IsFresh xs = (i : ℕ) (x : Slot ns) → get_elem? xs i ≡ some x → x.counter_updated ≡ false

  -- Queue `current` has sent its oldest packet.
  pub record Sends (s : Wrr ns) (t : Turn ns) : Type 0 where
    pub p : Pkt ns
    pub s' : Wrr ns
    pub is_sent : t ≡ sent p s'
    pub takes : TakesAt ns s.current s.queue_num (held ns s) p (held ns s')
    pub valid : IsValid ns s'
    pub same_num : s'.queue_num ≡ s.queue_num

  -- The turn goes to the next queue, and nothing leaves.
  pub record Moved (s s' : Wrr ns) : Type 0 where
    pub same_held : held ns s' ≡ held ns s
    pub same_num : s'.queue_num ≡ s.queue_num
    pub valid : IsValid ns s'
    pub is_next : s'.current ≡ next ns s
    pub fresh : IsFresh s'.slots
    pub others : (i : ℕ) → i ≢ s.current → get_elem? s'.slots i ≡ get_elem? s.slots i
    pub quanta :
        (x : Slot ns)
        → get_elem? s.slots s.current ≡ some x
        → (y : Slot ns) × (get_elem? s'.slots s.current ≡ some y)
          × (y.fifo ≡ x.fifo)
          × (y.quantum ≡ x.quantum)

  pub next-lt : (s : Wrr ns) → IsValid ns s → next ns s < s.queue_num
  next-lt s v = omega (arith, v.current_in)

  -- A round that ends leaves every queue fresh.
  set-IsFresh :
      (s : Wrr ns) (y : Slot ns)
      → IsValid ns s
      → y.counter_updated ≡ false
      → IsFresh (set s.slots s.current y)
  set-IsFresh s y v e i x g = elim (ℕ_discrete i s.current) [
    | no ne ↦
        v.others_wait i x (sym (get_elem?-set_ne s.slots s.current i y (λ q. ne (sym q))) ∙ g) ne
    | yes q ↦
        let here : get_elem? (set s.slots s.current y) s.current ≡ some x =
          subst (λ k. get_elem? (set s.slots s.current y) k ≡ some x) q g in
        let l : s.current < length s.slots =
          omega (arith, v.current_in, v.queue_num_in, v.slots_length) in
        let same : y ≡ x = cc (get_elem?-set_self s.slots s.current y l) in
        subst (λ (z : Slot ns). z.counter_updated ≡ false) same e
  ]

  -- Every step of the loop that sends nothing writes such a state.
  go_on : Wrr ns → ns.Double → Slot ns → Wrr ns
  go_on s round_time y = record s {
    slots = set s.slots s.current y;
    round_time = round_time;
    current = next ns s;
  }

  go_on-IsValid :
      (s : Wrr ns) (round_time : ns.Double) (y : Slot ns)
      → IsValid ns s
      → y.counter_updated ≡ false
      → IsValid ns (go_on s round_time y)
  unfolding go_on
  go_on-IsValid s round_time y v e = record {
    slots_length = length-set s.slots s.current y ∙ v.slots_length;
    queue_num_in = v.queue_num_in;
    current_in = next-lt s v;
    others_wait = λ i z h _. set-IsFresh s y v e i z h;
  }

  go_on-Moved :
      (s : Wrr ns) (round_time : ns.Double) (x y : Slot ns)
      → IsValid ns s
      → get_elem? s.slots s.current ≡ some x
      → y.fifo ≡ x.fifo
      → y.quantum ≡ x.quantum
      → y.counter_updated ≡ false
      → Moved s (go_on s round_time y)
  unfolding go_on
  go_on-Moved s round_time x y v g f q e = record {
    same_held = view-set_same ns (λ (x : Slot ns). x.fifo) s.slots s.current x y g f;
    same_num = refl;
    valid = go_on-IsValid s round_time y v e;
    is_next = refl;
    fresh = set-IsFresh s y v e;
    others = λ i ne. get_elem?-set_ne s.slots s.current i y (λ h. ne (sym h));
    quanta = λ z h.
        let same : x ≡ z = cc in
        (
          y,
          get_elem?-set_self s.slots s.current y
              (omega (arith, v.current_in, v.queue_num_in, v.slots_length)),
          f ∙ ap (λ (z : Slot ns). z.fifo) same,
          q ∙ ap (λ (z : Slot ns). z.quantum) same,
        );
  }

  abbrev pub Moves : Wrr ns → Turn ns → Type 0
  Moves s t = (s' : Wrr ns) × (t ≡ moved s') × Moved s s'

  pub pass-Moves :
      (s : Wrr ns) (now : ns.Double) (x y : Slot ns)
      → IsValid ns s
      → get_elem? s.slots s.current ≡ some x
      → y.fifo ≡ x.fifo
      → y.quantum ≡ x.quantum
      → Moves s (pass ns s now y)
  unfolding pass go_on
  pass-Moves s now x y v g f q = (_, refl, go_on-Moved s _ x _ v g f q refl)

  pub skip-Moves :
      (s : Wrr ns) (now : ns.Double) (x : Slot ns)
      → IsValid ns s
      → get_elem? s.slots s.current ≡ some x
      → Moves s (skip ns s now x)
  unfolding skip go_on
  skip-Moves s now x v g = (_, refl, go_on-Moved s _ x _ v g refl refl refl)

  sent-IsValid :
      (s : Wrr ns) (now : ns.Double) (y : Slot ns) (q : Pkt ns)
      → IsValid ns s
      → IsValid ns (record s { slots = set s.slots s.current (take_packet ns s now y q) })
  sent-IsValid s now y q v = record {
    slots_length = length-set s.slots s.current _ ∙ v.slots_length;
    queue_num_in = v.queue_num_in;
    current_in = v.current_in;
    others_wait =
        set_keeps (Waits ns s.current) s.slots s.current _ v.others_wait (λ ne. absurd (ne refl));
  }

  pub serve-Sends :
      (s : Wrr ns) (now : ns.Double) (x y : Slot ns)
      → IsValid ns s
      → get_elem? s.slots s.current ≡ some x
      → y.fifo ≡ x.fifo
      → 0 < ns.packets y.fifo
      → Returns (Sends s) (serve ns s now y)
  unfolding serve take_packet go_on
  serve-Sends s now x y v g f h =
      let (q, d, _) = deque-total ns y.fifo h in
      let like = leave-Marked ns (s.marking_scheme == latency_marking) now _ q in
      let takes = λ (z : Slot ns) (e : z.fifo ≡ ns.after_deque y.fifo).
        take-TakesAt ns (λ (x : Slot ns). x.fifo) s.queue_num s.slots s.current x z q _ v.current_in
          g (subst (λ k. ns.deque k ≡ some q) f d) (e ∙ ap ns.after_deque f) like in
      elim (Bool-cases (ns.packets (ns.after_deque y.fifo) == 0)) [
        | inr more ↦
            rw (d, more)
              (
                _,
                refl,
                record {
                  p = _;
                  s' = _;
                  is_sent = refl;
                  takes = takes (take_packet ns s now y q) refl;
                  valid = sent-IsValid s now y q v;
                  same_num = refl;
                },
              )
        | inl empty ↦
            rw (d, empty)
              (
                _,
                refl,
                record {
                  p = _;
                  s' = _;
                  is_sent = refl;
                  takes = takes _ refl;
                  valid = go_on-IsValid s _ _ v refl;
                  same_num = refl;
                },
              )
      ]

  pub refresh-same :
      (x : Slot ns)
      → ((refresh ns x).fifo ≡ x.fifo)
        × ((refresh ns x).quantum ≡ x.quantum)
        × (x.counter_updated ≡ false → (refresh ns x).counter ≡ x.quantum)
  unfolding refresh
  refresh-same x = ground arith

  -- One round either sends the oldest packet of the current queue or hands the turn on.
  pub turn-cases :
      (s : Wrr ns) (now : ns.Double)
      → IsValid ns s
      → Returns (λ t. Sends s t ⊎ Moves s t) (turn ns s now)
  unfolding turn visit
  turn-cases s now v =
      let (x, g) =
        get_elem?-total s.slots s.current
          (omega (arith, v.current_in, v.queue_num_in, v.slots_length)) in
      let (f, q, _) = refresh-same x in
      elim (Bool-cases (ltb 0 (ns.packets x.fifo))) [
        | inr empty ↦ rw (g, empty) (_, refl, inr (skip-Moves s now x v g))
        | inl busy ↦
            let h : 0 < ns.packets (refresh ns x).fifo =
              subst (λ k. 0 < ns.packets k) (sym f) (ltb→lt _ _ busy) in
            let (p, _, e) = deque-total ns (refresh ns x).fifo h in
            elim (Bool-cases (leb p.size (refresh ns x).counter)) [
              | inl fits ↦
                  let (t, r, a) = serve-Sends s now x (refresh ns x) v g f h in
                  rw (g, busy, e, fits, r) (t, refl, inl a)
              | inr short ↦
                  rw (g, busy, e, short) (_, refl, inr (pass-Moves s now x (refresh ns x) v g f q))
            ]
      ]

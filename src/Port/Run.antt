-- ===== src/Port/Run.antt =====
-- Runs of a port: a scheduler as an interface of operations and laws, and what any sequence of
-- arrivals and departures does to the buffer.
use mq_ecn.Common.{
  ℕ, ◌+◌, ◌≤◌, ◌≡◌, refl, ap, ◌∙◌, inl, inr, Option, none, some, List, [], ◌∷◌, Result, ok, Returns,
  ◌>>=◌, arith,
}
use mq_ecn.Simulator.{Simulator}
use mq_ecn.Port.{Pkt, Fate, queued, dropped}
use mq_ecn.Port.Backlog.{
  Backlog, total, Enqueues, Dequeues, Joins-total, Takes-total, Enqueues-bounded, Dequeues-bounded,
}

-- The laws are the theorems on the `enque` and the `deque` of a scheduler.
pub record Scheduler (ns : Simulator) : Type 1 where
  pub State : Type 0
  pub IsValid : State → Type 0
  pub held : State → Backlog ns
  pub queue_num : State → ℕ
  pub limit : State → ℕ
  pub enque : State → ns.Double → Pkt ns → Result (Fate × State)
  pub deque : State → ns.Double → Result (Option (Pkt ns) × State)
  pub enque_law :
      (s : State) (now : ns.Double) (p : Pkt ns)
      → IsValid s
      → Returns
          (λ r.
            Enqueues ns (queue_num s) (limit s) p (held s) r.0 (held r.1)
            × IsValid r.1
            × ((queue_num r.1 ≡ queue_num s) × (limit r.1 ≡ limit s)))
          (enque s now p)
  pub deque_law :
      (s : State) (now : ns.Double)
      → IsValid s
      → Returns
          (λ r.
            Dequeues ns (queue_num s) (held s) r.0 (held r.1)
            × IsValid r.1
            × ((queue_num r.1 ≡ queue_num s) × (limit r.1 ≡ limit s)))
          (deque s now)

module _ (ns : Simulator) where
  -- A packet arrives, or the link asks for one.
  pub data Event : Type 0 where
    arrives : ns.Double → Pkt ns → Event
    departs : ns.Double → Event

  -- The bytes that arrive.
  abbrev pub offered : List Event → ℕ
  offered [] = 0
  offered (arrives now p ∷ es) = p.size + offered es
  offered (departs now ∷ es) = offered es

  -- The bytes that have left on the link and those that were dropped.
  pub record Tally : Type 0 where
    pub sent : ℕ
    pub lost : ℕ

module _ (ns : Simulator) (m : Scheduler ns) where
  abbrev count_fate : Pkt ns → Fate → Tally ns → Tally ns
  count_fate p queued c = c
  count_fate p dropped c = record c { lost = c.lost + p.size }

  abbrev count_sent : Option (Pkt ns) → Tally ns → Tally ns
  count_sent none c = c
  count_sent (some p) c = record c { sent = c.sent + p.size }

  unfoldable pub step : Event ns → Tally ns → m.State → Result (Tally ns × m.State)
  step (arrives now p) c s = m.enque s now p >>= λ r. ok (count_fate p r.0 c, r.1)
  step (departs now) c s = m.deque s now >>= λ r. ok (count_sent r.0 c, r.1)

  unfoldable pub run : List (Event ns) → Tally ns → m.State → Result (Tally ns × m.State)
  run [] c s = ok (c, s)
  run (e ∷ es) c s = step e c s >>= λ r. run es r.0 r.1

  abbrev pub bytes : m.State → ℕ
  bytes s = total ns (m.queue_num s) (m.held s)

  -- What a run that is offered `n` bytes makes of `s` and the tally `c`: every byte is held, sent or
  -- lost, and a buffer within its limit stays there.
  pub record Balanced (n : ℕ) (c : Tally ns) (s : m.State) (r : Tally ns × m.State) : Type 0 where
    pub balance : bytes s + n + c.sent + c.lost ≡ bytes r.1 + r.0.sent + r.0.lost
    pub bounded : bytes s ≤ m.limit s → bytes r.1 ≤ m.limit r.1
    pub valid : m.IsValid r.1
    pub same_limit : m.limit r.1 ≡ m.limit s

  bytes_of_shape :
      (s t : m.State)
      → m.queue_num t ≡ m.queue_num s
      → bytes t ≡ total ns (m.queue_num s) (m.held t)
  bytes_of_shape s t n = ap (λ k. total ns k (m.held t)) n

  enque-Balanced :
      (s t : m.State) (p : Pkt ns) (fate : Fate) (c : Tally ns)
      → Enqueues ns (m.queue_num s) (m.limit s) p (m.held s) fate (m.held t)
      → m.IsValid t
      → m.queue_num t ≡ m.queue_num s
      → m.limit t ≡ m.limit s
      → Balanced p.size c s (count_fate p fate c, t)
  enque-Balanced s t p fate c h v n l = record {
    balance = elim h [
      | inl (f, _, w) ↦ rw f (omega (arith, bytes_of_shape s t n, ap (total ns (m.queue_num s)) w))
      | inr (f, _, j) ↦
          rw f (omega (arith, bytes_of_shape s t n, Joins-total ns (m.queue_num s) p _ _ j))
    ];
    bounded = λ k. omega (
      arith,
      bytes_of_shape s t n,
      Enqueues-bounded ns (m.queue_num s) (m.limit s) p _ fate _ h k,
      l,
    );
    valid = v;
    same_limit = l;
  }

  deque-Balanced :
      (s t : m.State) (out : Option (Pkt ns)) (c : Tally ns)
      → Dequeues ns (m.queue_num s) (m.held s) out (m.held t)
      → m.IsValid t
      → m.queue_num t ≡ m.queue_num s
      → m.limit t ≡ m.limit s
      → Balanced 0 c s (count_sent out c, t)
  deque-Balanced s t out c h v n l = record {
    balance = elim h [
      | inl (_, f, w) ↦ rw f (omega (arith, bytes_of_shape s t n, ap (total ns (m.queue_num s)) w))
      | inr (p, _, f, j) ↦
          rw f (omega (arith, bytes_of_shape s t n, Takes-total ns (m.queue_num s) _ _ p j))
    ];
    bounded =
        λ k. omega (arith, bytes_of_shape s t n, Dequeues-bounded ns (m.queue_num s) _ out _ h, l);
    valid = v;
    same_limit = l;
  }

  abbrev offered_by : Event ns → ℕ
  offered_by (arrives now p) = p.size
  offered_by (departs now) = 0

  step-Balanced :
      (e : Event ns) (c : Tally ns) (s : m.State)
      → m.IsValid s
      → Returns (Balanced (offered_by e) c s) (step e c s)
  unfolding step
  step-Balanced (arrives now p) c s v =
      let (r, e, (h, v', (n, l))) = m.enque_law s now p v in
      rw e (_, refl, enque-Balanced s r.1 p r.0 c h v' n l)
  step-Balanced (departs now) c s v =
      let (r, e, (h, v', (n, l))) = m.deque_law s now v in
      rw e (_, refl, deque-Balanced s r.1 r.0 c h v' n l)

  Balanced-trans :
      (e : Event ns) (es : List (Event ns)) (c : Tally ns) (s : m.State) (r q : Tally ns × m.State)
      → Balanced (offered_by e) c s r
      → Balanced (offered ns es) r.0 r.1 q
      → Balanced (offered ns (e ∷ es)) c s q
  Balanced-trans (arrives now p) es c s r q a b = record {
    balance = omega (arith, a.balance, b.balance);
    bounded = λ k. b.bounded (a.bounded k);
    valid = b.valid;
    same_limit = b.same_limit ∙ a.same_limit;
  }
  Balanced-trans (departs now) es c s r q a b = record {
    balance = omega (arith, a.balance, b.balance);
    bounded = λ k. b.bounded (a.bounded k);
    valid = b.valid;
    same_limit = b.same_limit ∙ a.same_limit;
  }

  -- A run from a valid state never fails, loses no byte but by a drop, and keeps the buffer bound.
  pub run-Balanced :
      (es : List (Event ns)) (c : Tally ns) (s : m.State)
      → m.IsValid s
      → Returns (Balanced (offered ns es) c s) (run es c s)
  unfolding run
  run-Balanced [] c s v = (
    (c, s),
    refl,
    record { balance = omega arith; bounded = λ k. k; valid = v; same_limit = refl },
  )
  run-Balanced (e ∷ es) c s v =
      let (r, f, a) = step-Balanced e c s v in
      let (q, g, b) = run-Balanced es r.0 r.1 a.valid in
      rw (f, g) (q, refl, Balanced-trans e es c s r q a b)

  -- What a run makes of a state without packets.
  abbrev pub Conserves : ℕ → ℕ → Tally ns × m.State → Type 0
  Conserves n limit r = (n ≡ bytes r.1 + r.0.sent + r.0.lost) × (bytes r.1 ≤ limit) × m.IsValid r.1

  pub run-Conserves :
      (es : List (Event ns)) (s : m.State)
      → m.IsValid s
      → bytes s ≡ 0
      → Returns (Conserves (offered ns es) (m.limit s)) (run es (record { sent = 0; lost = 0 }) s)
  run-Conserves es s v z =
      let (r, e, b) = run-Balanced es (record { sent = 0; lost = 0 }) s v in
      (
        r,
        e,
        (omega (arith, b.balance), omega (arith, b.bounded (omega arith), b.same_limit), b.valid),
      )

-- ===== src/SchDwrr/Departures.antt =====
-- One round of the loop of `dwrr_dequeue` of sch_dwrr: it sends the oldest packet of the class at the
-- head of the list, stops without tokens, or puts that class at the tail, nearer to its next packet.
use mq_ecn.Common.{
  set_keeps, ℕ, zero, suc, ◌+◌, ◌-◌, ◌<◌, ◌≡◌, refl, ap, ◌∙◌, inl, inr, Bool-cases, Option, none,
  some, ℤ, pos, List, [], ◌∷◌, ◌++◌, map, get_elem?, get_elem?-total, set, length, length-set,
  sum_first, Result, ok, Returns, ◌==◌, if◌then◌else◌, if_true, if_false,
}
use mq_ecn.Kernel.{Kernel}
use mq_ecn.Words.{sub64, add64}
use mq_ecn.SchDwrr.{RateCfg, Params, max_queues, max_prio}
use mq_ecn.SchDwrr.Rate.{skb_size, l2t_ns, ewma_round}
use mq_ecn.SchDwrr.Qdisc.{is_int, Class, Sched}
use mq_ecn.SchDwrr.Dequeue.{Turn, sent, throttled, moved, deactivate, mark_out}
use mq_ecn.SchDwrr.Rounds.{Tame, ewma_round-Tame}
use mq_ecn.SchDwrr.Accounting.{Timely, Remarked, if-Remarked, Shares, Counts, qlen_marks-ok}

pub map-set {ℓ κ} :
    {A : Type ℓ} {B : Type κ} (f : A → B) (xs : List A) (i : ℕ) (a : A)
    → map f (set xs i a) ≡ set (map f xs) i (f a)
map-set f [] i a = refl
map-set f (x ∷ xs) zero a = refl
map-set f (x ∷ xs) (suc i) a = ap (λ l. f x ∷ l) (map-set f xs i a)

pub get_elem?-map {ℓ κ} :
    {A : Type ℓ} {B : Type κ} (f : A → B) (xs : List A) (i : ℕ) (a : A)
    → get_elem? xs i ≡ some a
    → get_elem? (map f xs) i ≡ some (f a)
get_elem?-map f [] i a e = cc
get_elem?-map f (x ∷ xs) zero a e = let q : x ≡ a = cc in ap (λ y. some (f y)) q
get_elem?-map f (x ∷ xs) (suc i) a e = get_elem?-map f xs i a e

skip_second {ℓ} :
    {A : Type ℓ} (i a : A) (l : List A) (m : A) (n : ℕ)
    → get_elem? (i ∷ l) n ≡ some m
    → (r : ℕ) × (get_elem? (i ∷ a ∷ l) r ≡ some m)
skip_second i a l m zero e = (0, e)
skip_second i a l m (suc n) e = (suc (suc n), e)

-- Every entry of `l` with `i` at the tail is one of `i ∷ l`.
pub from_tail {ℓ} :
    {A : Type ℓ} (l : List A) (i m : A) (j : ℕ)
    → get_elem? (l ++ (i ∷ [])) j ≡ some m
    → (n : ℕ) × (get_elem? (i ∷ l) n ≡ some m)
from_tail [] i m j e = (j, e)
from_tail (a ∷ l) i m zero e = (1, e)
from_tail (a ∷ l) i m (suc j) e = let (n, f) = from_tail l i m j e in skip_second i a l m n f

pub nonempty {ℓ} : {A : Type ℓ} (l : List A) → 0 < length l → (a : A) × (r : List A) × (l ≡ a ∷ r)
nonempty [] h = elim h [ ]
nonempty (a ∷ r) h = (a, r, refl)

-- Every quantum is positive and below 2^31.
abbrev pub Quanta : Params → Type 0
Quanta c =
    (i : ℕ) (q : ℤ)
    → get_elem? c.queue_quantum i ≡ some q
    → (n : ℕ) × (q ≡ pos n) × (0 < n) × (n < 2147483648)

module _ (k : Kernel) where
  -- The packets of each class.
  abbrev pub fifos : Sched k → List (List k.Skb)
  fifos s = map (λ (x : Class k). k.contents x.fifo) s.queues

  abbrev pub Busy : Sched k → ℕ → Type 0
  Busy s i =
      (i < max_queues)
      × ((x : Class k) → get_elem? s.queues i ≡ some x → 0 < length (k.contents x.fifo))

  -- The round of a class, up to its last packet and up to its next one if that leaves at `now`, takes a
  -- time that, as an `s64`, is at least -2^50 ns and below 2^32 ns; so is the time between the two.
  abbrev pub PromptClass : ℕ → RateCfg → Class k → Type 0
  PromptClass now r x =
      Tame (sub64 x.last_pkt_time x.start_time)
      × ((p : k.Skb)
          → k.peek x.fifo ≡ some p
          → Tame (sub64 (add64 now (l2t_ns r (skb_size (k.len p)))) x.start_time)
            × Tame (sub64 (add64 now (l2t_ns r (skb_size (k.len p)))) x.last_pkt_time))

  abbrev pub Prompt : ℕ → Sched k → Type 0
  Prompt now s = (i : ℕ) (x : Class k) → get_elem? s.queues i ≡ some x → PromptClass now s.rate x

  -- `i ∷ l` is the list of `prio`, and each class in it has a packet.
  pub record Serving (now prio i : ℕ) (l : List ℕ) (s : Sched k) : Type 0 where
    pub counts : Counts k s
    pub prio_in : prio < max_prio
    pub timely : Timely k s
    pub prompt : Prompt now s
    pub listed : get_elem? s.active prio ≡ some (i ∷ l)
    pub busy : (j m : ℕ) → get_elem? (i ∷ l) j ≡ some m → Busy s m

  -- What the deficit of a class lacks for its oldest packet.
  abbrev pub lack : Option k.Skb → ℕ → ℕ
  lack none d = 0
  lack (some p) d = skb_size (k.len p) - d

  abbrev pub need : Class k → ℕ
  need x = lack (k.peek x.fifo) x.deficit

  -- The oldest packet of class `i` has left, as `q`.
  abbrev pub Leaves : ℕ → k.Skb → Sched k → Sched k → Type 0
  Leaves i q s t =
      (p : k.Skb) × (ps : List k.Skb) × (get_elem? (fifos s) i ≡ some (p ∷ ps))
      × (fifos t ≡ set (fifos s) i ps)
      × Remarked k p q
      × (t.sum_len_bytes + skb_size (k.len p) ≡ s.sum_len_bytes)

  pub record Sends (i : ℕ) (s : Sched k) (t : Turn k) : Type 0 where
    pub q : k.Skb
    pub s' : Sched k
    pub is_sent : t ≡ sent q s'
    pub leaves : Leaves i q s s'
    pub counts : Counts k s'
    pub timely : Timely k s'

  pub record Throttles (s : Sched k) (t : Turn k) : Type 0 where
    pub at : ℕ
    pub is_throttled : t ≡ throttled (record s { watchdog = some at })

  pub record Moves (now prio i : ℕ) (l : List ℕ) (s : Sched k) (t : Turn k) : Type 0 where
    pub s' : Sched k
    pub is_moved : t ≡ moved s'
    pub same_fifos : fifos s' ≡ fifos s
    pub same_sum : s'.sum_len_bytes ≡ s.sum_len_bytes
    pub head : ℕ
    pub rest : List ℕ
    pub serving : Serving now prio head rest s'
    pub from_list :
        (j m : ℕ) → get_elem? (head ∷ rest) j ≡ some m → (n : ℕ) × (get_elem? (i ∷ l) n ≡ some m)
    pub nearer : sum_first need max_queues s'.queues < sum_first need max_queues s.queues

  -- What `deactivate` does to a state.
  pub record Deactivated (s : Sched k) (r : Result (Sched k)) : Type 0 where
    pub a : List (List ℕ)
    pub rt : List ℕ
    pub result : r ≡ ok (record s { active = a; round_time = rt })
    pub same_active : length a ≡ length s.active
    pub same_round : length rt ≡ length s.round_time
    pub timely : Timely k (record s { active = a; round_time = rt })

  -- A sample goes into the round time of `prio`.
  pub smooth-Timely :
      (c : Params) (limit prio round sample : ℕ) (s : Sched k)
      → Shares c limit
      → Timely k s
      → Tame sample
      → get_elem? s.round_time prio ≡ some round
      → Timely k (record s { round_time = set s.round_time prio (ewma_round c round sample) })
  smooth-Timely c limit prio round sample s v (rate, tame) t g = (
    rate,
    set_keeps (λ _ n. Tame n) s.round_time prio (ewma_round c round sample) tame
        (ewma_round-Tame c round sample v.weight v.alpha v.alpha_in (tame prio round g) t),
  )

  pub deactivate-Deactivated :
      (c : Params) (limit prio : ℕ) (l : List ℕ) (x : Class k) (s : Sched k)
      → Shares c limit
      → Timely k s
      → Tame (sub64 x.last_pkt_time x.start_time)
      → prio < length s.round_time
      → Deactivated s (deactivate k c prio l x s)
  unfolding deactivate
  deactivate-Deactivated c limit prio l x s v timely sample h =
      let (round, g) = get_elem?-total s.round_time prio h in
      elim (Bool-cases (k.qlen x.fifo == 0)) [
        | inl empty ↦ record {
          a = set s.active prio l;
          rt = set s.round_time prio (ewma_round c round (sub64 x.last_pkt_time x.start_time));
          result = rw (empty, g) refl;
          same_active = length-set s.active prio l;
          same_round = length-set s.round_time prio _;
          timely = smooth-Timely c limit prio round _ s v timely sample g;
        }
        | inr more ↦ record {
          a = s.active;
          rt = s.round_time;
          result = rw more refl;
          same_active = refl;
          same_round = refl;
          timely = timely;
        }
      ]

  -- A class after `mark_out`: all but CoDel's variables is as before.
  abbrev pub Marked : k.Skb → Class k → k.Skb × Class k → Type 0
  Marked p x r =
      Remarked k p r.0 × (r.1.fifo ≡ x.fifo) × (r.1.len_bytes ≡ x.len_bytes) × (r.1.prio ≡ x.prio)

  pub mark_out-Marked :
      (c : Params) (limit later i : ℕ) (p : k.Skb) (x : Class k) (s : Sched k)
      → Shares c limit
      → i < max_queues
      → x.prio < max_prio
      → length s.round_time ≡ max_prio
      → Timely k s
      → Returns (Marked p x) (mark_out k c later i p x s)
  unfolding mark_out
  mark_out-Marked c limit later i p x s v h l n timely =
      let (must, e) = qlen_marks-ok k c limit i x s v h l n timely in
      elim (Bool-cases (is_int c.ecn_scheme 4)) [
        | inl tcn ↦ (_, if_true _ _ _ tcn, (if-Remarked k _ p, refl, refl, refl))
        | inr other ↦ elim (Bool-cases (is_int c.ecn_scheme 5)) [
          | inl codel ↦
              (_, if_false _ _ _ other ∙ if_true _ _ _ codel, (if-Remarked k _ p, refl, refl, refl))
          | inr neither ↦ elim (Bool-cases (is_int c.enable_dequeue_ecn 1)) [
            | inl here ↦ (
              (if must then k.set_ce p else p, x),
              if_false _ _ _ other ∙ if_false _ _ _ neither ∙ if_true _ _ _ here ∙ rw e refl,
              (if-Remarked k must p, refl, refl, refl),
            )
            | inr never ↦ (
              _,
              if_false _ _ _ other ∙ if_false _ _ _ neither ∙ if_false _ _ _ never,
              (inl refl, refl, refl, refl),
            )
          ]
        ]
      ]

-- ===== src/SchDwrr/Accounting.antt =====
-- The byte counters of sch_dwrr: what they count, and that `dwrr_enqueue` keeps them.
use mq_ecn.Common.{
  min, ◌*◌, ◌/◌, ◌%◌, ◌⊎◌, ap, ◌∙◌, ℕ, suc, ◌+◌, ◌≤◌, ◌<◌, ◌≡◌, refl, inl, inr, Bool, true, false,
  Bool-cases, Option-cases, ℤ, pos, some, List, [], ◌∷◌, ◌++◌, get_elem?, get_elem?-total, length,
  sum_first, Result, ok, ltb, if◌then◌else◌, arith,
}
use mq_ecn.Kernel.{Kernel}
use mq_ecn.Words.{u64_mod, to_u64, to_u32}
use mq_ecn.SchDwrr.{Params, max_queues, max_prio}
use mq_ecn.SchDwrr.Rate.{skb_size}
use mq_ecn.SchDwrr.Bounds.{mq_ecn_thresh-ok}
use mq_ecn.SchDwrr.Rounds.{Tame, Tame-divides}
use mq_ecn.SchDwrr.Qdisc.{is_int, Class, Sched, find_dscp, classify, qlen_marks}

-- The parameters of a port with a shared buffer of `limit` bytes: each list has an entry for every
-- queue, and the priorities and the weight of the round time are in range, as `sysctl` makes sure.
pub record Shares (c : Params) (limit : ℕ) : Type 0 where
  pub mode : c.buffer_mode ≡ pos 0
  pub limit_is : c.shared_buffer_bytes ≡ pos limit
  pub limit_small : limit < 2147483648
  pub thresh_length : length c.queue_thresh_bytes ≡ max_queues
  pub dscp_length : length c.queue_dscp ≡ max_queues
  pub quantum_length : length c.queue_quantum ≡ max_queues
  pub buffer_length : length c.queue_buffer_bytes ≡ max_queues
  pub prio_length : length c.queue_prio ≡ max_queues
  pub prio_in : (i q : ℕ) → get_elem? c.queue_prio i ≡ some q → q < max_prio
  pub weight : ℕ
  pub alpha : c.round_alpha ≡ pos weight
  pub alpha_in : weight ≤ 1024

-- A test between two results.
pub ok-if {ℓ} :
    {A : Type ℓ} (b : Bool) (x y : Result A)
    → (a : A) × (x ≡ ok a)
    → (a : A) × (y ≡ ok a)
    → (a : A) × ((if b then x else y) ≡ ok a)
ok-if true x y h k = h
ok-if false x y h k = k

module _ (k : Kernel) where
  -- The bytes that packets take on the wire.
  abbrev pub wire_of : List k.Skb → ℕ
  wire_of [] = 0
  wire_of (p ∷ ps) = skb_size (k.len p) + wire_of ps

  abbrev pub wire : Class k → ℕ
  wire x = wire_of (k.contents x.fifo)

  pub wire_of-append :
      (ps : List k.Skb) (p : k.Skb) → wire_of (ps ++ (p ∷ [])) ≡ wire_of ps + skb_size (k.len p)
  wire_of-append [] p = omega arith
  wire_of-append (q ∷ ps) p = omega (arith, wire_of-append ps p)

  -- The counters of one class.
  pub record Counted (i : ℕ) (x : Class k) : Type 0 where
    pub own_bytes : x.len_bytes ≡ wire x
    pub own_prio : x.prio < max_prio

  -- The arrays have their sizes, and the byte counters count what the FIFOs hold.
  pub record Counts (s : Sched k) : Type 0 where
    pub queues_length : length s.queues ≡ max_queues
    pub active_length : length s.active ≡ max_prio
    pub bytes_length : length s.prio_len_bytes ≡ max_prio
    pub round_length : length s.round_time ≡ max_prio
    pub idle_length : length s.last_idle_time ≡ max_prio
    pub counted : (i : ℕ) (x : Class k) → get_elem? s.queues i ≡ some x → Counted i x
    pub all_bytes : s.sum_len_bytes ≡ sum_first wire max_queues s.queues

  -- `q` is `p` or `p` with a congestion mark.
  abbrev pub Remarked : k.Skb → k.Skb → Type 0
  Remarked p q = (q ≡ p) ⊎ (q ≡ k.set_ce p)

  pub Remarked-len : (p q : k.Skb) → Remarked p q → k.len q ≡ k.len p
  Remarked-len p q (inl e) = ap k.len e
  Remarked-len p q (inr e) = ap k.len e ∙ k.len-set_ce p

  pub if-Remarked : (b : Bool) (p : k.Skb) → Remarked p (if b then k.set_ce p else p)
  if-Remarked true p = inr refl
  if-Remarked false p = inl refl

  -- The rate is positive, and each round time, as an `s64`, is at least -2^50 and below 2^32.
  abbrev pub Timely : Sched k → Type 0
  Timely s = (0 < s.rate.rate_bps) × ((i t : ℕ) → get_elem? s.round_time i ≡ some t → Tame t)

  find_dscp-lt :
      (ds : List ℤ) (i dscp : ℕ) → i + length ds ≤ max_queues → find_dscp k ds i dscp < max_queues
  unfolding find_dscp
  find_dscp-lt [] i dscp h = omega arith
  find_dscp-lt (d ∷ ds) i dscp h = elim (Bool-cases (is_int d dscp)) [
    | inl here ↦ rw here (omega arith)
    | inr there ↦ rw there (find_dscp-lt ds (suc i) dscp (omega arith))
  ]

  pub classify-lt :
      (c : Params) (p : k.Skb) → length c.queue_dscp ≡ max_queues → classify k c p < max_queues
  unfolding classify
  classify-lt c p e = elim (Option-cases (k.tos p)) [
    | inl without ↦ rw (classify, without) (omega arith)
    | inr (tos, with) ↦ rw (classify, with) (find_dscp-lt c.queue_dscp 0 _ (omega (arith, e)))
  ]

  pub qlen_marks-ok :
      (c : Params) (limit i : ℕ) (x : Class k) (s : Sched k)
      → Shares c limit
      → i < max_queues
      → x.prio < max_prio
      → length s.round_time ≡ max_prio
      → Timely s
      → (b : Bool) × (qlen_marks k c i x s ≡ ok b)
  unfolding qlen_marks
  qlen_marks-ok c limit i x s v h l n (rate, tame) =
      let (t, g) = get_elem?-total c.queue_thresh_bytes i (omega (arith, v.thresh_length)) in
      let (round, f) = get_elem?-total s.round_time x.prio (omega arith) in
      let (estimate, o) =
        mq_ecn_thresh-ok c s.rate x.quantum round rate (Tame-divides round (tame x.prio round f)) in
      ok-if (is_int c.ecn_scheme 1) _ _ (ltb (to_u32 t) x.len_bytes, rw g refl)
        (ok-if (is_int c.ecn_scheme 2) _ _ (_, refl)
          (ok-if (is_int c.ecn_scheme 3) _ _
            (
              ltb
                  (min estimate s.rate.rate_bps
                    * to_u64 c.port_thresh_bytes
                    % u64_mod
                    / s.rate.rate_bps)
                  x.len_bytes,
              rw (f, o) refl,
            )
            (false, refl)))

-- ===== src/Examples/KernelStates.antt =====
-- Linux with lists for FIFOs, and a state of sch_dwrr in which a packet waits.
use mathlib.Core.Path.{refl}
use mq_ecn.Common.{
  ℕ, ◌<◌, ◌≡◌, sym, pos, Bool, true, none, some, List, [], ◌∷◌, ◌++◌, length, head?, tail,
  replicate, get_elem?-replicate, get_elem?, zero, suc, ltb, ◌&&◌, subst, arith,
}
use mq_ecn.Kernel.{Kernel}
use mq_ecn.SchDwrr.{Params, max_queues, max_prio}
use mq_ecn.SchDwrr.Rate.{precompute_ratedata}
use mq_ecn.SchDwrr.Codel.{new_codel}
use mq_ecn.SchDwrr.Qdisc.{Class, Sched}
use mq_ecn.Words.{add64, sub64}
use mq_ecn.SchDwrr.Rounds.{Tame}
use mq_ecn.SchDwrr.Departures.{Prompt, PromptClass, Quanta, Busy}
use mq_ecn.SchDwrr.Service.{Listed}
use mq_ecn.SchDwrr.Accounting.{Timely, Shares, Counts, Counted}

pub record Packet : Type 0 where
  pub bytes : ℕ
  pub service : ℕ
  pub stamped : ℕ
  pub ce : Bool

abbrev pub linux : Kernel
linux = record {
  Skb = Packet;
  len = λ p. p.bytes;
  tos = λ p. some p.service;
  tstamp = λ p. p.stamped;
  set_ce = λ p. record p { ce = true };
  stamp = λ t p. record p { stamped = t };
  len-set_ce = λ p. refl;
  len-stamp = λ t p. refl;
  Fifo = List Packet;
  new_fifo = [];
  admits = λ f p. true;
  append = λ p f. f ++ (p ∷ []);
  peek = head?;
  after_dequeue = tail;
  qlen = length;
  contents = λ f. f;
  contents-new = refl;
  contents-append = λ p f. refl;
  peek-eq = λ f. refl;
  contents-after = λ f. refl;
  qlen-eq = λ f. refl;
}

abbrev pub limit : ℕ
limit = 2000000

-- MQ-ECN with a round time weight of 3/4.
abbrev pub params : Params
params = record {
  buffer_mode = pos 0;
  shared_buffer_bytes = pos limit;
  bucket_bytes = pos 25000;
  port_thresh_bytes = pos 32000;
  ecn_scheme = pos 3;
  round_alpha = pos 768;
  idle_interval_ns = pos 12000;
  enable_wrr = pos 0;
  enable_dequeue_ecn = pos 0;
  tcn_thresh = pos 256;
  codel_target = pos 51;
  codel_interval = pos 1024;
  queue_thresh_bytes = replicate max_queues (pos 32000);
  queue_dscp = pos 0 ∷ pos 1 ∷ pos 2 ∷ pos 3 ∷ pos 4 ∷ pos 5 ∷ pos 6 ∷ pos 7 ∷ [];
  queue_quantum = replicate max_queues (pos 1538);
  queue_buffer_bytes = replicate max_queues (pos limit);
  queue_prio = replicate max_queues 0;
}

pub params-Shares : Shares params limit
params-Shares = record {
  mode = refl;
  limit_is = refl;
  limit_small = omega arith;
  thresh_length = refl;
  dscp_length = refl;
  quantum_length = refl;
  buffer_length = refl;
  prio_length = refl;
  weight = 768;
  alpha = refl;
  alpha_in = omega arith;
  prio_in =
      λ i q g. subst (λ n. n < max_prio) (get_elem?-replicate max_queues 0 i q g) (omega arith);
}

-- A full-sized packet of the second class.
abbrev pub packet : Packet
packet = record { bytes = 1514; service = 4; stamped = 0; ce = Bool.false }

-- A class in which one such packet waits.
abbrev waiting : Class linux
waiting = record {
  fifo = packet ∷ [];
  len_bytes = 1538;
  prio = 0;
  deficit = 1538;
  start_time = 5;
  last_pkt_time = 5;
  quantum = 1538;
  codel = new_codel;
}

-- Every class holds a packet, and all are active.
abbrev pub backlogged : Sched linux
backlogged = record {
  queues = replicate max_queues waiting;
  rate = precompute_ratedata 1000000000;
  watchdog = none;
  active = (0 ∷ 1 ∷ 2 ∷ 3 ∷ 4 ∷ 5 ∷ 6 ∷ 7 ∷ []) ∷ replicate 7 [];
  tokens = 0;
  time_ns = 0;
  sum_len_bytes = 12304;
  prio_len_bytes = 12304 ∷ replicate 7 0;
  round_time = replicate max_prio 0;
  last_idle_time = replicate max_prio 0;
  qlen = 8;
}

waiting-Counted : (i : ℕ) → Counted linux i waiting
unfolding mq_ecn.SchDwrr.Rate.skb_size
waiting-Counted i = record { own_bytes = refl; own_prio = omega arith }

pub backlogged-Counts : Counts linux backlogged
unfolding mq_ecn.SchDwrr.Rate.skb_size
backlogged-Counts = record {
  queues_length = refl;
  active_length = refl;
  bytes_length = refl;
  round_length = refl;
  idle_length = refl;
  counted = λ i x g.
      subst (Counted linux i) (get_elem?-replicate max_queues waiting i x g) (waiting-Counted i);
  all_bytes = refl;
}

pub params-Quanta : Quanta params
params-Quanta i q g =
    (1538, sym (get_elem?-replicate max_queues (pos 1538) i q g), omega arith, omega arith)

waits : (m : ℕ) → m < max_queues → Busy linux backlogged m
waits m h = (
  h,
  λ x g.
      subst (λ (z : Class linux). 0 < length z.fifo) (get_elem?-replicate max_queues waiting m x g)
        (omega arith),
)

abbrev all_below : List ℕ → Bool
all_below [] = true
all_below (n ∷ l) = ltb n max_queues && all_below l

all_below-lt : (l : List ℕ) (j m : ℕ) → all_below l ≡ true → get_elem? l j ≡ some m → m < max_queues
all_below-lt [] j m h e = cc
all_below-lt (n ∷ l) zero m h e = let q : n ≡ m = cc in ground (arith, q)
all_below-lt (n ∷ l) (suc j) m h e = all_below-lt l j m (ground arith) e

abbrev every_class : List ℕ
every_class = 0 ∷ 1 ∷ 2 ∷ 3 ∷ 4 ∷ 5 ∷ 6 ∷ 7 ∷ []

lists_below :
    (prio : ℕ) (l : List ℕ)
    → get_elem? (every_class ∷ replicate 7 []) prio ≡ some l
    → all_below l ≡ true
lists_below zero l g = let q : every_class ≡ l = cc in subst (λ z. all_below z ≡ true) q refl
lists_below (suc prio) l g =
    subst (λ z. all_below z ≡ true) (get_elem?-replicate 7 [] prio l g) refl

pub backlogged-Listed : Listed linux backlogged
backlogged-Listed prio l g j m e = waits m (all_below-lt l j m (lists_below prio l g) e)

pub backlogged-Timely : Timely linux backlogged
unfolding precompute_ratedata
backlogged-Timely = (
  omega arith,
  λ i t g. subst Tame (get_elem?-replicate max_prio 0 i t g) (omega arith, omega arith),
)

waiting-Prompt : PromptClass linux 30000 (precompute_ratedata 1000000000) waiting
unfolding mq_ecn.SchDwrr.Rate.skb_size precompute_ratedata mq_ecn.SchDwrr.Rate.l2t_ns
waiting-Prompt = (
  (omega arith, omega arith),
  λ p h.
      let q : packet ≡ p = cc in
      subst
        (λ (z : Packet).
          Tame (
            sub64
              (add64 30000 (
                mq_ecn.SchDwrr.Rate.l2t_ns (precompute_ratedata 1000000000)
                  (mq_ecn.SchDwrr.Rate.skb_size z.bytes)))
              5)
          × Tame (
              sub64
                (add64 30000 (
                  mq_ecn.SchDwrr.Rate.l2t_ns (precompute_ratedata 1000000000)
                    (mq_ecn.SchDwrr.Rate.skb_size z.bytes)))
                5))
        q ((omega arith, omega arith), (omega arith, omega arith)),
)

pub backlogged-Prompt : Prompt linux 30000 backlogged
backlogged-Prompt i x g =
    subst (PromptClass linux 30000 (precompute_ratedata 1000000000))
      (get_elem?-replicate max_queues waiting i x g) waiting-Prompt

-- ===== src/Kernel.antt =====
-- What the queueing disciplines use of Linux: packets, and the FIFO of a class. `contents` is the
-- sequence that a FIFO holds, oldest first; the laws say what the kernel documents of each operation.
use mq_ecn.Common.{ℕ, ◌≡◌, Bool, List, [], ◌∷◌, ◌++◌, Option, length, head?, tail}

-- `tos` is `ip_hdr(skb)->tos`, `none` without an IP header; `set_ce` is `INET_ECN_set_ce`; `stamp`
-- writes `skb->tstamp`. `admits` says whether `qdisc_enqueue` returns `NET_XMIT_SUCCESS`, and then
-- `append` is its effect; else the FIFO is as before.
pub record Kernel : Type 1 where
  pub Skb : Type 0
  pub len : Skb → ℕ
  pub tos : Skb → Option ℕ
  pub tstamp : Skb → ℕ
  pub set_ce : Skb → Skb
  pub stamp : ℕ → Skb → Skb
  pub len-set_ce : (p : Skb) → len (set_ce p) ≡ len p
  pub len-stamp : (t : ℕ) (p : Skb) → len (stamp t p) ≡ len p
  pub Fifo : Type 0
  pub new_fifo : Fifo
  pub admits : Fifo → Skb → Bool
  pub append : Skb → Fifo → Fifo
  pub peek : Fifo → Option Skb
  pub after_dequeue : Fifo → Fifo
  pub qlen : Fifo → ℕ
  pub contents : Fifo → List Skb
  pub contents-new : contents new_fifo ≡ []
  pub contents-append : (p : Skb) (f : Fifo) → contents (append p f) ≡ contents f ++ (p ∷ [])
  pub peek-eq : (f : Fifo) → peek f ≡ head? (contents f)
  pub contents-after : (f : Fifo) → contents (after_dequeue f) ≡ tail (contents f)
  pub qlen-eq : (f : Fifo) → qlen f ≡ length (contents f)

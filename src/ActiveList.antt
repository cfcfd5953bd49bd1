-- ===== src/ActiveList.antt =====
-- The linked list of active queues: `InsertTailList` and `RemoveHeadList` of
-- NS2/diffserv/dwrr/dwrr.cc. The nodes are the entries of an array, a pointer to one is its index,
-- and `activeList` is a sentinel of which only `next` is used.
pub mod Chain
use mq_ecn.Common.{
  ℕ, zero, suc, Option, none, some, List, get_elem?, set, length, replicate, Result, ok, stuck,
  ◌>>=◌,
}
use mq_ecn.Port.{or_undefined}

pub record Links : Type 0 where
  pub first : Option ℕ
  pub nexts : List (Option ℕ)

-- `activeList = new PacketDWRR()` over an array of `n` nodes.
unfoldable pub no_links : ℕ → Links
no_links n = record { first = none; nexts = replicate n none }

-- The walk to the last node, from node `i` on.
unfoldable pub last_node : ℕ → List (Option ℕ) → ℕ → Result ℕ
last_node zero nexts i = stuck
last_node (suc fuel) nexts i =
    or_undefined (get_elem? nexts i) >>= elim [ none ↦ ok i | some j ↦ last_node fuel nexts j ]

-- The walk visits no node twice, so one visit for each node is enough.
unfoldable pub insert_after : Links → ℕ → Option ℕ → Result Links
insert_after l q none = ok (record { first = some q; nexts = set l.nexts q none })
insert_after l q (some i) = do
  last ← last_node (length l.nexts) l.nexts i
  ok (record l { nexts = set (set l.nexts last (some q)) q none })

unfoldable pub insert_tail : Links → ℕ → Result Links
unfolding insert_after
insert_tail l q = insert_after l q l.first

unfoldable pub remove_after : Links → Option ℕ → Result (Option ℕ × Links)
remove_after l none = ok (none, l)
remove_after l (some i) = do
  after ← or_undefined (get_elem? l.nexts i)
  ok (some i, record l { first = after })

unfoldable pub remove_head : Links → Result (Option ℕ × Links)
unfolding remove_after
remove_head l = remove_after l l.first

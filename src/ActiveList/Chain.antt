-- ===== src/ActiveList/Chain.antt =====
-- The linked list holds a sequence of nodes, oldest first: `insert_tail` appends to it and
-- `remove_head` takes its head.
use native.Mathlib.Decide.{ℕ_discrete}
use mq_ecn.Common.{
  ℕ, zero, suc, ◌+◌, ◌≤◌, ◌<◌, ◌≡◌, refl, sym, ap, subst, ◌∙◌, ◌≢◌, Bool, true, false, Option, none,
  some, List, [], ◌∷◌, ◌++◌, get_elem?, get_elem?-set_ne, get_elem?-set_self, set, length,
  length-set, ok, Returns, arith, ◌==◌, if◌then◌else◌,
}
use mq_ecn.ActiveList.{Links, last_node, insert_after, insert_tail, remove_after, remove_head}

abbrev pub elem : ℕ → List ℕ → Bool
elem i [] = false
elem i (j ∷ js) = if i == j then true else elem i js

abbrev pub Distinct : List ℕ → Type 0
Distinct [] = Unit {0}
Distinct (i ∷ is) = (elem i is ≡ false) × Distinct is

abbrev pub AllBelow : ℕ → List ℕ → Type 0
AllBelow n [] = Unit {0}
AllBelow n (i ∷ is) = (i < n) × AllBelow n is

-- The nodes met from `start` on are `ids`.
abbrev pub Chain : List (Option ℕ) → Option ℕ → List ℕ → Type 0
Chain nexts start [] = start ≡ none
Chain nexts start (i ∷ is) =
    (start ≡ some i) × (o : Option ℕ) × (get_elem? nexts i ≡ some o) × Chain nexts o is

pub record IsList (l : Links) (ids : List ℕ) : Type 0 where
  pub chain : Chain l.nexts l.first ids
  pub distinct : Distinct ids
  pub below : AllBelow (length l.nexts) ids

without : ℕ → List ℕ → List ℕ
without n [] = []
without n (i ∷ is) = if i == n then is else i ∷ without n is

length-without : (n : ℕ) (is : List ℕ) → length is ≤ length (without n is) + 1
unfolding without
length-without n [] = omega arith
length-without n (i ∷ is) = ground (arith, length-without n is)

elem-without : (n k : ℕ) (is : List ℕ) → elem k is ≡ false → elem k (without n is) ≡ false
unfolding without
elem-without n k [] h = refl
elem-without n k (i ∷ is) h = ground (arith, elem-without n k is)

without-Distinct : (n : ℕ) (is : List ℕ) → Distinct is → Distinct (without n is)
unfolding without
without-Distinct n [] d = tt
without-Distinct n (i ∷ is) d = ground (arith, elem-without n i is d.0, without-Distinct n is d.1)

AllBelow-not_elem : (n : ℕ) (is : List ℕ) → AllBelow (suc n) is → elem n is ≡ false → AllBelow n is
AllBelow-not_elem n [] b h = tt
AllBelow-not_elem n (i ∷ is) b h = ground (arith, AllBelow-not_elem n is b.1)

without-AllBelow :
    (n : ℕ) (is : List ℕ) → Distinct is → AllBelow (suc n) is → AllBelow n (without n is)
unfolding without
without-AllBelow n [] d b = tt
without-AllBelow n (i ∷ is) d b = elim (ℕ_discrete i n) [
  | yes e ↦ ground (arith, AllBelow-not_elem n is b.1)
  | no ne ↦ ground (arith, without-AllBelow n is d.1 b.1)
]

-- Distinct numbers below `n` are at most `n` many.
pub length-le-bound : (n : ℕ) (is : List ℕ) → Distinct is → AllBelow n is → length is ≤ n
length-le-bound zero [] d b = omega arith
length-le-bound zero (i ∷ is) d b = absurd (omega arith)
length-le-bound (suc n) is d b = omega (
  arith,
  length-without n is,
  length-le-bound n (without n is) (without-Distinct n is d) (without-AllBelow n is d b),
)

last : ℕ → List ℕ → ℕ
last i [] = i
last i (j ∷ js) = last j js

last_node-last :
    (fuel : ℕ) (nexts : List (Option ℕ)) (i : ℕ) (is : List ℕ)
    → Chain nexts (some i) (i ∷ is)
    → length is < fuel
    → last_node fuel nexts i ≡ ok (last i is)
unfolding last_node last
last_node-last zero nexts i is c h = absurd (omega arith)
last_node-last (suc fuel) nexts i [] (s, o, g, e) h = rw (g, e)
last_node-last (suc fuel) nexts i (j ∷ js) (s, o, g, (e, o', g', c)) h =
    rw (g, e) (last_node-last fuel nexts j js (refl, o', g', c) (omega arith))

last-below : (n i : ℕ) (is : List ℕ) → AllBelow n (i ∷ is) → last i is < n
unfolding last
last-below n i [] b = b.0
last-below n i (j ∷ js) b = last-below n j js b.1

last-elem : (i : ℕ) (is : List ℕ) → elem (last i is) (i ∷ is) ≡ true
unfolding last
last-elem i [] = ground arith
last-elem i (j ∷ js) = ground (arith, last-elem j js)

-- A number that is no node of the list is another one than each node.
ne-of_elem : (q i : ℕ) (is : List ℕ) → elem q (i ∷ is) ≡ false → q ≢ i
ne-of_elem q i is h e = ground arith

not_elem-tail : (q i : ℕ) (is : List ℕ) → elem q (i ∷ is) ≡ false → elem q is ≡ false
not_elem-tail q i is h = ground arith

last-ne : (q i : ℕ) (is : List ℕ) → elem q (i ∷ is) ≡ false → last i is ≢ q
last-ne q i is h e = cc (last-elem i is, ap (λ k. elem k (i ∷ is)) e)

-- The two writes of `InsertTailList` add `q` behind the last node.
append-Chain :
    (nexts : List (Option ℕ)) (start : Option ℕ) (q i : ℕ) (is : List ℕ)
    → Chain nexts start (i ∷ is)
    → Distinct (i ∷ is)
    → AllBelow (length nexts) (i ∷ is)
    → elem q (i ∷ is) ≡ false
    → q < length nexts
    → Chain (set (set nexts (last i is) (some q)) q none) start ((i ∷ is) ++ (q ∷ []))
unfolding last
append-Chain nexts start q i [] (s, o, g, c) d b h l = (
  s,
  some q,
  get_elem?-set_ne (set nexts i (some q)) q i none (ne-of_elem q i [] h)
      ∙ get_elem?-set_self nexts i (some q) b.0,
  (refl, none, get_elem?-set_self _ q none (rw (length-set nexts i (some q)) l), refl),
)
append-Chain nexts start q i (j ∷ js) (s, o, g, c) d b h l = (
  s,
  o,
  get_elem?-set_ne _ q i none (ne-of_elem q i (j ∷ js) h)
      ∙ get_elem?-set_ne nexts (last j js) i (some q) (last-ne i j js d.0)
      ∙ g,
  append-Chain nexts o q j js c d.1 b.1 (not_elem-tail q i (j ∷ js) h) l,
)

pub elem-append :
    (k q : ℕ) (is : List ℕ) → elem k (is ++ (q ∷ [])) ≡ (if elem k is then true else k == q)
elem-append k q [] = ground arith
elem-append k q (i ∷ is) = ground (arith, elem-append k q is)

pub elem-append_ne : (j i : ℕ) (is : List ℕ) → j ≢ i → elem j (is ++ (i ∷ [])) ≡ elem j is
elem-append_ne j i is ne = elem-append j i is ∙ ground arith

pub elem-append_self : (i : ℕ) (is : List ℕ) → elem i (is ++ (i ∷ [])) ≡ true
elem-append_self i is = elem-append i i is ∙ ground arith

pub elem-cons_ne : (j i : ℕ) (is : List ℕ) → j ≢ i → elem j (i ∷ is) ≡ elem j is
elem-cons_ne j i is ne = ground arith

pub elem-cons_self : (i : ℕ) (is : List ℕ) → elem i (i ∷ is) ≡ true
elem-cons_self i is = ground arith

pub elem-rotate : (j i : ℕ) (is : List ℕ) → elem j (is ++ (i ∷ [])) ≡ elem j (i ∷ is)
elem-rotate j i is = elem-append j i is ∙ ground arith

append-Distinct :
    (q : ℕ) (is : List ℕ) → Distinct is → elem q is ≡ false → Distinct (is ++ (q ∷ []))
append-Distinct q [] d h = (refl, tt)
append-Distinct q (i ∷ is) d h = (
  ground (arith, elem-append i q is, d.0, ne-of_elem q i is h),
  append-Distinct q is d.1 (not_elem-tail q i is h),
)

pub append-AllBelow : (n q : ℕ) (is : List ℕ) → AllBelow n is → q < n → AllBelow n (is ++ (q ∷ []))
append-AllBelow n q [] b h = (h, tt)
append-AllBelow n q (i ∷ is) b h = (b.0, append-AllBelow n q is b.1 h)

-- If the linked list holds the nodes `ids`, each once, and node `q` of the array is not among
-- them, `InsertTailList` returns: its walk ends at the tail within one visit of each node, and
-- the list then holds `ids` followed by `q`, in an array of the same length.
pub insert_tail-IsList :
    (l : Links) (ids : List ℕ) (q : ℕ)
    → IsList l ids
    → elem q ids ≡ false
    → q < length l.nexts
    → Returns
        (λ l'. IsList l' (ids ++ (q ∷ [])) × (length l'.nexts ≡ length l.nexts))
        (insert_tail l q)
unfolding insert_tail insert_after
insert_tail-IsList l [] q v h b = rw (v.chain) (
  record { first = some q; nexts = set l.nexts q none },
  refl,
  (
    record {
      chain = (refl, none, get_elem?-set_self l.nexts q none b, refl);
      distinct = (refl, tt);
      below = (rw (length-set l.nexts q none) b, tt);
    },
    length-set l.nexts q none,
  ),
)
insert_tail-IsList l (i ∷ is) q v h b =
    let same : length (set (set l.nexts (last i is) (some q)) q none) ≡ length l.nexts =
      length-set _ q none ∙ length-set l.nexts (last i is) (some q) in
    let walk =
      last_node-last (length l.nexts) l.nexts i is (refl, v.chain.1, v.chain.2, v.chain.3)
        (omega (arith, length-le-bound (length l.nexts) (i ∷ is) v.distinct v.below)) in
    rw (v.chain.0, walk)
      (
        record { first = some i; nexts = set (set l.nexts (last i is) (some q)) q none },
        refl,
        (
          record {
            chain =
                append-Chain l.nexts (some i) q i is (refl, v.chain.1, v.chain.2, v.chain.3)
                  v.distinct v.below h b;
            distinct = append-Distinct q (i ∷ is) v.distinct h;
            below =
                subst (λ n. AllBelow n ((i ∷ is) ++ (q ∷ []))) (sym same)
                  (append-AllBelow (length l.nexts) q (i ∷ is) v.below b);
          },
          same,
        ),
      )

-- If the linked list holds the node `i` and then the nodes `is`, each once, `RemoveHeadList`
-- returns `i`, the list then holds `is`, and no node's pointer is written.
pub remove_head-IsList :
    (l : Links) (i : ℕ) (is : List ℕ)
    → IsList l (i ∷ is)
    → Returns (λ r. (r.0 ≡ some i) × IsList r.1 is × (r.1.nexts ≡ l.nexts)) (remove_head l)
unfolding remove_head remove_after
remove_head-IsList l i is v =
    rw (v.chain.0, v.chain.2)
      (
        (some i, record l { first = v.chain.1 }),
        refl,
        (refl, record { chain = v.chain.3; distinct = v.distinct.1; below = v.below.1 }, refl),
      )

-- The list of `DWRR::DWRR` is empty.
pub no_links-IsList : (n : ℕ) → IsList (mq_ecn.ActiveList.no_links n) []
unfolding mq_ecn.ActiveList.no_links
no_links-IsList n = record { chain = refl; distinct = tt; below = tt }

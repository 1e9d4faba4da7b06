-- ===== src/Buddy/Allocate.antt =====
-- How an allocation of mm/mm.c ends.
use risc.Common.{
  ℕ, zero, suc, ◌+◌, ◌-◌, ◌≤◌, ◌<◌, ◌≡◌, refl, sym, ap, ◌∙◌, ◌⊎◌, inl, inr, ◌==◌, pos, arith,
  Bool-cases, ==_iff, List, [], ◌∷◌,
}
use risc.Buddy.{Memory, all_pfn, max_level, update}
use risc.Buddy.Weight.{covers}
use risc.Buddy.Invariant.{IsValid}
use risc.Buddy.{search_level, buddy_alloc, alloc_pages, get_page, Result, panic, got}
use risc.Buddy.Invariant.{pop-Free, pop-Block}
use risc.Buddy.Pages.{Owned, Allocated, popped-Allocated, numbered, cut-Cut}

-- The two ends of an allocation of order `order`: a panic, when every list from that order on is
-- empty, or a block.
pub data Ends (m : Memory) (order : ℕ) (from : ℕ) (r : Result) : Type 0 where
  exhausted : r ≡ panic → ((j : ℕ) → from ≤ j → j < 11 → m.free_lists j ≡ []) → Ends m order from r
  found :
      (p : ℕ) (m' : Memory)
      → r ≡ got p m'
      → Allocated m (get_page m' p) order p
      → Ends m order from r

List-cases : (l : List ℕ) → (l ≡ []) ⊎ ((p : ℕ) × ((l' : List ℕ) × (l ≡ p ∷ l')))
List-cases [] = inl refl
List-cases (p ∷ l) = inr (p, (l, refl))

search_level-Ends :
    (fuel : ℕ) (m : Memory) (order n : ℕ)
    → order + n + fuel ≡ 11
    → IsValid m
    → Ends m order (order + n) (search_level m order n fuel)
unfolding search_level
search_level-Ends zero m order n e v = exhausted refl (λ j h l. absurd (omega (arith, e, h, l)))
search_level-Ends (suc fuel) m order n e v = elim (List-cases (m.free_lists (order + n))) [
  | inl z ↦ elim (search_level-Ends fuel m order (n + 1) (omega (arith, e)) v) [
    | exhausted q h ↦ exhausted (ground (arith, z, q)) (λ j f l.
        elim (Bool-cases (order + n == j)) [
          | inl y ↦
              let e : order + n ≡ j = (==_iff (order + n) j).0 y in ap m.free_lists (sym e) ∙ z
          | inr y ↦ h j (ground (arith, y, f)) l
        ])
    | found p m' q a ↦ found p m' (ground (arith, z, q)) a
  ]
  | inr (p, (l, z)) ↦
      let k : ℕ = order + n in
      let h : k < 11 = omega (arith, e) in
      let (m', (run, c)) =
        cut-Cut (record m { free_lists = update m.free_lists k l }) p order n k refl h
          (pop-Free m k p l h z v) (pop-Block m all_pfn k p l h z v) in
      found p (numbered m' p order) (ground (arith, z, run))
        (popped-Allocated m k p order l m' h (omega arith) z v c)
]

-- how `alloc_pages` ends at a valid order
pub data AllocEnds (m : Memory) (order : ℕ) (r : Result) : Type 0 where
  fails : r ≡ panic → ((j : ℕ) → order ≤ j → j < 11 → m.free_lists j ≡ []) → AllocEnds m order r
  returns : (p : ℕ) (m' : Memory) → r ≡ got p m' → Allocated m m' order p → AllocEnds m order r

buddy_alloc-search_level :
    (m : Memory) (order : ℕ)
    → order < 11
    → buddy_alloc m (pos order) ≡ search_level m order 0 (max_level - order)
unfolding buddy_alloc
buddy_alloc-search_level m order l = ground (arith, l)

-- In a memory that satisfies the invariant, `alloc_pages` at an order up to 10 either panics, when
-- no list of that order or a higher one has a block, or returns a block: the invariant holds again,
-- the block has one reference and is aligned, its pages and no others have left the free lists, no
-- other reference count has changed, and the count of free pages has gone down by its size.
pub alloc_pages-AllocEnds :
    (m : Memory) (order : ℕ)
    → order < 11
    → IsValid m
    → AllocEnds m order (alloc_pages m (pos order))
unfolding alloc_pages
alloc_pages-AllocEnds m order l v =
    let b = buddy_alloc-search_level m order l in
    elim (search_level-Ends (max_level - order) m order 0 (omega (arith, l)) v) [
      | exhausted q h ↦ fails (ground (arith, b, q)) (λ j f g. h j (omega (arith, f)) g)
      | found p m' q a ↦ returns p (get_page m' p) (ground (arith, b, q)) a
    ]

-- A block that someone holds shares no page with one that `alloc_pages` returns.
pub alloc_pages-apart :
    (m m' : Memory) (k q order p : ℕ)
    → Owned m k q
    → Allocated m m' order p
    → (x : ℕ) → covers x k q + covers x order p ≤ 1
alloc_pages-apart m m' k q order p o a x = ground (arith, a.taken x, o.out x)

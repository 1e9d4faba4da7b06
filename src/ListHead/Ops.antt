-- ===== src/ListHead/Ops.antt =====
-- `list_add_head`, `list_add_tail` and `list_empty` of include/lib/list.h against the sequence of nodes that a list holds.
use risc.Common.{◌≡◌, ◌∙◌, sym, refl, ◌↔◌, true, false, List, [], ◌∷◌, ◌++◌, arith, ==_iff}
use mathlib.Core.Path.{subst}
use mathlib.Core.List.{append-nil}
use risc.ListHead.{Ptr, Heap, list_add_between, list_add_tail, list_add_head, list_empty}
use risc.ListHead.Chain.{
  has, Distinct, last, first, Apart, has-append, Chain-frame, last-prev, first-next, has-last,
  has-first,
}
use risc.ListHead.Ring.{IsRing, Chain-add}

-- `g` differs from `h` at most at the nodes `xs`
abbrev pub SameOutside : List Ptr → Heap → Heap → Type 0
SameOutside xs h g = (p : Ptr) → has p xs ≡ false → (g.next p ≡ h.next p) × (g.prev p ≡ h.prev p)

abbrev pub Disjoint : List Ptr → List Ptr → Type 0
Disjoint xs ys = (p : Ptr) → has p xs ≡ true → has p ys ≡ false

-- A list keeps its nodes through any change that touches none of them.
pub IsRing-frame :
    {h g : Heap} {head : Ptr} {xs : List Ptr} (ys : List Ptr)
    → IsRing h head xs
    → SameOutside ys h g
    → Disjoint (head ∷ xs) ys
    → IsRing g head xs
IsRing-frame {h} {g} {head} {xs} ys r same apart = record {
  chain =
      Chain-frame h g head xs head (λ p m. (same p (apart p m)).0) (λ p m. (same p (apart p m)).1)
        r.chain;
  apart = r.apart;
  distinct = r.distinct;
}

pub Distinct-snoc :
    (xs : List Ptr) (e : Ptr) → Distinct xs → has e xs ≡ false → Distinct (xs ++ (e ∷ []))
Distinct-snoc [] e d o = (refl, tt)
Distinct-snoc (x ∷ xs) e d o =
    (ground (arith, has-append x xs (e ∷ [])), Distinct-snoc xs e d.1 (ground arith))

pub ring-Apart : {h : Heap} {head : Ptr} {xs : List Ptr} → IsRing h head xs → Apart head xs head
ring-Apart r = record { start = r.apart; inner = r.distinct; end = r.apart }

module _ {h : Heap} {head : Ptr} (xs : List Ptr) (r : IsRing h head xs) where
  pub ring_prev : h.prev head ≡ last head xs
  ring_prev = last-prev h head xs head r.chain

  pub ring_next : h.next head ≡ first xs head
  ring_next = first-next h head xs head r.chain

  add_SameOutside :
      (new p n : Ptr)
      → has p (head ∷ xs) ≡ true
      → has n (head ∷ xs) ≡ true
      → SameOutside (new ∷ head ∷ xs) h (list_add_between h new p n)
  unfolding list_add_between
  add_SameOutside new p n a b q o = (ground arith, ground arith)

  module _ (new : Ptr) (out : has new (head ∷ xs) ≡ false) where
    -- `list_add_tail` puts an unlinked node behind the nodes of a list, and writes to no other node.
    pub list_add_tail-snoc :
        IsRing (list_add_tail h new head) head (xs ++ (new ∷ []))
        × SameOutside (new ∷ head ∷ xs) h (list_add_tail h new head)
    unfolding list_add_tail
    list_add_tail-snoc = rw ring_prev (
      record {
        chain =
            Chain-add h head xs [] head new (rw append-nil r.chain) (rw append-nil (ring-Apart r))
              (rw append-nil out) (ground arith);
        apart = ground (arith, has-append head xs (new ∷ []));
        distinct = Distinct-snoc xs new r.distinct (ground arith);
      },
      add_SameOutside new (last head xs) head (has-last head xs) (ground arith),
    )

    -- `list_add_head` puts an unlinked node before the nodes of a list, and writes to no other node.
    pub list_add_head-cons :
        IsRing (list_add_head h new head) head (new ∷ xs)
        × SameOutside (new ∷ head ∷ xs) h (list_add_head h new head)
    unfolding list_add_head
    list_add_head-cons = rw ring_next (
      record {
        chain = Chain-add h head [] xs head new r.chain (ring-Apart r) out (ground arith);
        apart = ground arith;
        distinct = (ground arith, r.distinct);
      },
      add_SameOutside new head (first xs head) (ground arith) (has-first head xs),
    )

  -- `list_empty` holds exactly of the list with no nodes.
  pub list_empty-nil : (list_empty h head ≡ true) ↔ (xs ≡ [])
  unfolding list_empty
  list_empty-nil = (
    (λ e. no_first xs r.apart (sym ring_next ∙ (==_iff (h.next head) head).0 e)),
    λ e. ground (arith, ring_next, subst (λ ys. first xs head ≡ first ys head) e refl),
  )
    where
      no_first : (ys : List Ptr) → has head ys ≡ false → first ys head ≡ head → ys ≡ []
      no_first [] o e = refl
      no_first (y ∷ ys) o e = absurd (ground arith)

pub list_empty-cons :
    {h : Heap} {head x : Ptr} {xs : List Ptr} → IsRing h head (x ∷ xs) → list_empty h head ≡ false
unfolding list_empty
list_empty-cons r = ground (arith, r.chain.0, r.apart)

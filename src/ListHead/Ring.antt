-- ===== src/ListHead/Ring.antt =====
-- The rings of include/lib/list.h: linking a node into a segment and out of it, and what a list holds.
use risc.Common.{◌≡◌, false, List, [], ◌∷◌, ◌++◌, arith, ◌==◌}
use risc.ListHead.{Ptr, Heap, list_add_between, list_del_between}
use risc.ListHead.Chain.{
  has, Distinct, Chain, last, first, Apart, Apart-tail, Chain-frame, first-next, has-left,
  has-right, ne_last, ne_first,
}

-- linking `new` in between `xs` and `ys`
pub Chain-add :
    (h : Heap) (a : Ptr) (xs ys : List Ptr) (z new : Ptr)
    → Chain h a (xs ++ ys) z
    → Apart a (xs ++ ys) z
    → has new (a ∷ xs ++ ys) ≡ false
    → (new == z) ≡ false
    → Chain (list_add_between h new (last a xs) (first ys z)) a (xs ++ (new ∷ ys)) z
unfolding list_add_between
Chain-add h a [] [] z new c p out ne = (ground arith, ground arith, (ground arith, ground arith))
Chain-add h a [] (y ∷ ys) z new c p out ne =
    let s : has a (y ∷ ys) ≡ false = p.start in
    let i : has y ys ≡ false = p.inner.0 in
    let e : has z (y ∷ ys) ≡ false = p.end in
    (
      ground arith,
      ground arith,
      (
        ground arith,
        ground arith,
        Chain-frame h (list_add_between h new a y) y ys z (λ q m. ground arith)
            (λ q m. ground arith) c.2,
      ),
    )
Chain-add h a (x ∷ xs) ys z new c p out ne =
    let s : has a (x ∷ xs ++ ys) ≡ false = p.start in
    let i : has x (xs ++ ys) ≡ false = p.inner.0 in
    let e : has z (x ∷ xs ++ ys) ≡ false = p.end in
    (
      ground (arith, ne_last a x xs (has-left a (x ∷ xs) ys s)),
      ground (arith, ne_first x ys z (has-right x xs ys i)),
      Chain-add h x xs ys z new c.2 (Apart-tail a x (xs ++ ys) z p) (ground arith) ne,
    )

-- taking `e` out between `xs` and `ys`
pub Chain-del :
    (h : Heap) (a : Ptr) (xs ys : List Ptr) (z e : Ptr)
    → Chain h a (xs ++ (e ∷ ys)) z
    → Apart a (xs ++ (e ∷ ys)) z
    → Chain (list_del_between h (last a xs) (first ys z)) a (xs ++ ys) z
unfolding list_del_between
Chain-del h a [] [] z e c p = (ground arith, ground arith)
Chain-del h a [] (y ∷ ys) z e c p =
    let s : has a (e ∷ y ∷ ys) ≡ false = p.start in
    let i : has y ys ≡ false = p.inner.1.0 in
    let t : has z (e ∷ y ∷ ys) ≡ false = p.end in
    (
      ground arith,
      ground arith,
      Chain-frame h (list_del_between h a y) y ys z (λ q m. ground arith) (λ q m. ground arith)
          c.2.2,
    )
Chain-del h a (x ∷ xs) ys z e c p =
    let s : has a (x ∷ xs ++ (e ∷ ys)) ≡ false = p.start in
    let i : has x (xs ++ (e ∷ ys)) ≡ false = p.inner.0 in
    let t : has z (x ∷ xs ++ (e ∷ ys)) ≡ false = p.end in
    let r : has x (e ∷ ys) ≡ false = has-right x xs (e ∷ ys) i in
    (
      ground (arith, ne_last a x xs (has-left a (x ∷ xs) (e ∷ ys) s)),
      ground (arith, ne_first x ys z),
      Chain-del h x xs ys z e c.2 (Apart-tail a x (xs ++ (e ∷ ys)) z p),
    )

-- the neighbours of a node of the segment
pub Chain-prev :
    (h : Heap) (a : Ptr) (xs ys : List Ptr) (z e : Ptr)
    → Chain h a (xs ++ (e ∷ ys)) z
    → h.prev e ≡ last a xs
Chain-prev h a [] ys z e c = c.1
Chain-prev h a (x ∷ xs) ys z e c = Chain-prev h x xs ys z e c.2

pub Chain-next :
    (h : Heap) (a : Ptr) (xs ys : List Ptr) (z e : Ptr)
    → Chain h a (xs ++ (e ∷ ys)) z
    → h.next e ≡ first ys z
Chain-next h a [] ys z e c = first-next h e ys z c.2
Chain-next h a (x ∷ xs) ys z e c = Chain-next h x xs ys z e c.2

-- the list at `head` holds the nodes `xs`, in order
pub record IsRing (h : Heap) (head : Ptr) (xs : List Ptr) : Type 0 where
  pub chain : Chain h head xs head
  pub apart : has head xs ≡ false
  pub distinct : Distinct xs

-- ===== src/ListHead/Chain.antt =====
-- Segments of a list of include/lib/list.h: what linking a node in and out does to one.
use risc.Common.{◌≡◌, refl, Bool, true, false, ◌||◌, List, [], ◌∷◌, ◌++◌, arith, ◌==◌}
use risc.ListHead.{Ptr, Heap}

abbrev pub has : Ptr → List Ptr → Bool
has a [] = false
has a (x ∷ xs) = (a == x) || has a xs

abbrev pub Distinct : List Ptr → Type 0
Distinct [] = Unit
Distinct (x ∷ xs) = (has x xs ≡ false) × Distinct xs

-- from `a` the `next` fields lead through `xs` to `z`, and the `prev` fields lead back
abbrev pub Chain : Heap → Ptr → List Ptr → Ptr → Type 0
Chain h a [] z = (h.next a ≡ z) × (h.prev z ≡ a)
Chain h a (x ∷ xs) z = (h.next a ≡ x) × (h.prev x ≡ a) × Chain h x xs z

-- the node before, and the one after, a gap between `xs` and `ys`
abbrev pub last : Ptr → List Ptr → Ptr
last a [] = a
last a (x ∷ xs) = last x xs

abbrev pub first : List Ptr → Ptr → Ptr
first [] z = z
first (y ∷ ys) z = y

-- no node of the segment occurs twice, where `a` and `z` may be the same
pub record Apart (a : Ptr) (xs : List Ptr) (z : Ptr) : Type 0 where
  pub start : has a xs ≡ false
  pub inner : Distinct xs
  pub end : has z xs ≡ false

pub has-append : (a : Ptr) (xs ys : List Ptr) → has a (xs ++ ys) ≡ (has a xs || has a ys)
has-append a [] ys = refl
has-append a (x ∷ xs) ys = ground (arith, has-append a xs ys)

pub Apart-tail : (a x : Ptr) (xs : List Ptr) (z : Ptr) → Apart a (x ∷ xs) z → Apart x xs z
Apart-tail a x xs z p = record { start = p.inner.0; inner = p.inner.1; end = ground (arith, p.end) }

-- A chain survives changes elsewhere.
pub Chain-frame :
    (h g : Heap) (a : Ptr) (xs : List Ptr) (z : Ptr)
    → ((p : Ptr) → has p (a ∷ xs) ≡ true → g.next p ≡ h.next p)
    → ((p : Ptr) → has p (z ∷ xs) ≡ true → g.prev p ≡ h.prev p)
    → Chain h a xs z
    → Chain g a xs z
Chain-frame h g a [] z n p c = (ground (arith, n a), ground (arith, p z))
Chain-frame h g a (x ∷ xs) z n p c = (
  ground (arith, n a),
  ground (arith, p x),
  Chain-frame h g x xs z (λ q e. n q (ground arith)) (λ q e. p q (ground arith)) c.2,
)

pub last-prev :
    (h : Heap) (a : Ptr) (xs : List Ptr) (z : Ptr) → Chain h a xs z → h.prev z ≡ last a xs
last-prev h a [] z c = c.1
last-prev h a (x ∷ xs) z c = last-prev h x xs z c.2

pub first-next :
    (h : Heap) (a : Ptr) (xs : List Ptr) (z : Ptr) → Chain h a xs z → h.next a ≡ first xs z
first-next h a [] z c = c.0
first-next h a (x ∷ xs) z c = c.0

pub has-last : (a : Ptr) (xs : List Ptr) → has (last a xs) (a ∷ xs) ≡ true
has-last a [] = ground arith
has-last a (x ∷ xs) = ground (arith, has-last x xs)

pub has-left : (a : Ptr) (xs ys : List Ptr) → has a (xs ++ ys) ≡ false → has a xs ≡ false
has-left a xs ys h = ground (arith, has-append a xs ys)

pub has-right : (a : Ptr) (xs ys : List Ptr) → has a (xs ++ ys) ≡ false → has a ys ≡ false
has-right a xs ys h = ground (arith, has-append a xs ys)

pub ne_last : (a x : Ptr) (xs : List Ptr) → has a (x ∷ xs) ≡ false → (a == last x xs) ≡ false
ne_last a x [] h = ground arith
ne_last a x (y ∷ xs) h = ne_last a y xs (ground arith)

pub ne_first :
    (a : Ptr) (ys : List Ptr) (z : Ptr)
    → has a ys ≡ false
    → (a == z) ≡ false
    → (a == first ys z) ≡ false
ne_first a [] z h e = e
ne_first a (y ∷ ys) z h e = ground arith

pub has-first : (a : Ptr) (ys : List Ptr) → has (first ys a) (a ∷ ys) ≡ true
has-first a [] = ground arith
has-first a (y ∷ ys) = ground arith

pub Distinct-remove : (xs ys : List Ptr) (e : Ptr) → Distinct (xs ++ (e ∷ ys)) → Distinct (xs ++ ys)
Distinct-remove [] ys e d = d.1
Distinct-remove (x ∷ xs) ys e d =
    (ground (arith, has-append x xs (e ∷ ys), has-append x xs ys), Distinct-remove xs ys e d.1)

pub has-removed :
    (xs ys : List Ptr) (e : Ptr) → Distinct (xs ++ (e ∷ ys)) → has e (xs ++ ys) ≡ false
has-removed [] ys e d = d.0
has-removed (x ∷ xs) ys e d = ground (arith, has-append x xs (e ∷ ys), has-removed xs ys e d.1)

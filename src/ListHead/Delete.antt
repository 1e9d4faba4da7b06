-- ===== src/ListHead/Delete.antt =====
-- `list_del`, `list_del_init` and `list_pop` of include/lib/list.h against the sequence of nodes that
-- a list holds.
use risc.Common.{
  ◌≡◌, ◌∙◌, refl, inl, inr, true, false, Option, none, some, List, [], ◌∷◌, ◌++◌, arith, ◌==◌,
  Bool-cases,
}
use risc.ListHead.{
  Ptr, Heap, init_list_head, list_del_between, list_del, list_del_init, list_empty, list_pop,
}
use risc.ListHead.Chain.{
  has, last, first, has-append, has-last, has-first, Distinct-remove, has-removed,
}
use risc.ListHead.Ring.{IsRing, Chain-del, Chain-prev, Chain-next}
use risc.ListHead.Ops.{SameOutside, IsRing-frame, ring-Apart, list_empty-nil, list_empty-cons}

pub init_SameOutside : (g : Heap) (p : Ptr) → SameOutside (p ∷ []) g (init_list_head g p)
unfolding init_list_head
init_SameOutside g p q o = (ground arith, ground arith)

pub init-IsRing : (g : Heap) (p : Ptr) → IsRing (init_list_head g p) p []
unfolding init_list_head
init-IsRing g p = record { chain = (ground arith, ground arith); apart = refl; distinct = tt }

list_del_init_parts : (h : Heap) (e : Ptr) → list_del_init h e ≡ init_list_head (list_del h e) e
unfolding list_del_init list_del
list_del_init_parts h e = refl

module _ {h : Heap} {head : Ptr} (xs : List Ptr) (e : Ptr) (ys : List Ptr)
    (r : IsRing h head (xs ++ (e ∷ ys))) where
  del_prev : h.prev e ≡ last head xs
  del_prev = Chain-prev h head xs ys head e r.chain

  del_next : h.next e ≡ first ys head
  del_next = Chain-next h head xs ys head e r.chain

  ne_head : (e == head) ≡ false
  ne_head = ground (arith, r.apart, has-append head xs (e ∷ ys))

  apart_left : has head (xs ++ ys) ≡ false
  apart_left = ground (arith, r.apart, has-append head xs (e ∷ ys), has-append head xs ys)

  unlinked : has e (head ∷ xs ++ ys) ≡ false
  unlinked = ground (arith, ne_head, has-removed xs ys e r.distinct)

  last_in : has (last head xs) (head ∷ xs ++ ys) ≡ true
  last_in = ground (arith, has-last head xs, has-append (last head xs) xs ys)

  first_in : has (first ys head) (head ∷ xs ++ ys) ≡ true
  first_in = ground (arith, has-first head ys, has-append (first ys head) xs ys)

  del_SameOutside : SameOutside (head ∷ xs ++ ys) h (list_del h e)
  unfolding list_del list_del_between
  del_SameOutside p o = ground (arith, del_prev, del_next, last_in, first_in)

  -- `list_del` takes a node out of the list that holds it, keeps the others in order, and writes to
  -- none but them.
  pub list_del-append :
      IsRing (list_del h e) head (xs ++ ys) × SameOutside (head ∷ xs ++ ys) h (list_del h e)
  list_del-append = (
    record {
      chain =
          unfold list_del in
          rw (del_prev, del_next) (Chain-del h head xs ys head e r.chain (ring-Apart r));
      apart = apart_left;
      distinct = Distinct-remove xs ys e r.distinct;
    },
    del_SameOutside,
  )

  -- `list_del_init` does the same, and leaves the node as an empty list of its own.
  pub list_del_init-append :
      IsRing (list_del_init h e) head (xs ++ ys)
      × IsRing (list_del_init h e) e []
      × SameOutside (e ∷ head ∷ xs ++ ys) h (list_del_init h e)
  list_del_init-append =
      let d = list_del-append in
      let g = list_del h e in
      rw (list_del_init_parts h e) (
        IsRing-frame (e ∷ []) d.0 (init_SameOutside g e) (λ p m. elim (Bool-cases (p == e)) [
          | inl q ↦ absurd (ground (arith, unlinked))
          | inr q ↦ ground arith
        ]),
        init-IsRing g e,
        λ p o.
            let a : (g.next p ≡ h.next p) × (g.prev p ≡ h.prev p) = d.1 p (ground arith) in
            let b = init_SameOutside g e p (ground arith) in (b.0 ∙ a.0, b.1 ∙ a.1),
      )

-- the outcome of `list_pop` on a list that holds the given nodes
abbrev pub Popped : Heap → Ptr → List Ptr → Option Ptr × Heap → Type 0
Popped h head [] out = out ≡ (none, h)
Popped h head (x ∷ xs) out =
    (out.0 ≡ some x)
    × IsRing out.1 head xs
    × IsRing out.1 x []
    × SameOutside (x ∷ head ∷ xs) h out.1

-- `list_pop` returns the first node, takes it out as an empty list of its own, and keeps the others
-- in order; on an empty list it returns `NULL` and changes nothing.
pub list_pop-Popped :
    {h : Heap} {head : Ptr} (xs : List Ptr) → IsRing h head xs → Popped h head xs (list_pop h head)
unfolding list_pop
list_pop-Popped {h} {head} [] r = rw ((list_empty-nil [] r).1 refl) refl
list_pop-Popped {h} {head} (x ∷ xs) r =
    let test : list_empty h head ≡ false = list_empty-cons r in
    let d = list_del_init-append [] x xs r in rw (test, r.chain.0) (refl, d.0, d.1, d.2)

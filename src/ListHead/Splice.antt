-- ===== src/ListHead/Splice.antt =====
-- `list_splice_head` of include/lib/list.h, which does not join two lists.
use risc.Common.{◌≡◌, false, List, ◌∷◌, arith}
use risc.ListHead.{Ptr, Heap, list_splice_head}
use risc.ListHead.Chain.{has, first, last, ne_last, ne_first}
use risc.ListHead.Ring.{IsRing}
use risc.ListHead.Ops.{ring_prev, ring_next}

module _ {h : Heap} {old new : Ptr} (xs ys : List Ptr) (x : Ptr) (r : IsRing h old (x ∷ xs))
    (s : IsRing h new ys) (apart_old : has old (new ∷ ys) ≡ false)
    (apart_new : has new (old ∷ x ∷ xs) ≡ false) where
  back : h.prev old ≡ last x xs
  back = ring_prev (x ∷ xs) r

  ahead : h.next new ≡ first ys new
  ahead = ring_next ys s

  splice-next_new : (list_splice_head h old new).next new ≡ last x xs
  unfolding list_splice_head
  splice-next_new =
      ground
        (arith, back, ahead, ne_last new x xs, ne_last old x xs, ne_first old ys new, r.chain.0)

  splice-next_last : (list_splice_head h old new).next (last x xs) ≡ new
  unfolding list_splice_head
  splice-next_last = ground (arith, back, ne_last new x xs, ne_last old x xs, r.apart)

  -- After `list_splice_head` of a list with nodes onto another, a walk from the other list's head
  -- meets the last node of the first and is back at the head: all other nodes of both are lost.
  pub list_splice_head_loses :
      let h' = list_splice_head h old new in (h'.next new ≡ last x xs) × (h'.next (last x xs) ≡ new)
  list_splice_head_loses = (splice-next_new, splice-next_last)

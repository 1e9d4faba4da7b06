-- ===== src/ListHead/Walk.antt =====
-- `list_len` of include/lib/list.h: the count of a list's nodes, up to its limit.
use risc.Common.{
  ℕ, zero, suc, ◌+◌, ◌≡◌, List, [], ◌∷◌, arith, none, some, if◌then◌else◌, leb, length, false,
}
use risc.ListHead.{Ptr, Heap, list_len, list_len_from}
use risc.ListHead.Chain.{has, Chain, first, first-next}
use risc.ListHead.Ring.{IsRing}

list_len_from-length :
    (left : ℕ) (h : Heap) (list a : Ptr) (xs : List Ptr) (len : ℕ)
    → Chain h a xs list
    → has list xs ≡ false
    → list_len_from left h list (first xs list) len
      ≡ (if leb (length xs) left then some (len + length xs) else none)
unfolding list_len_from
list_len_from-length zero h list a [] len c o = ground arith
list_len_from-length (suc left) h list a [] len c o = ground arith
list_len_from-length zero h list a (x ∷ xs) len c o = ground arith
list_len_from-length (suc left) h list a (x ∷ xs) len c o =
    ground (arith, first-next h x xs list c.2, list_len_from-length left h list x xs (len + 1) c.2)

list_len_upto :
    (left : ℕ) (h : Heap) (head : Ptr) (xs : List Ptr)
    → IsRing h head xs
    → list_len_from left h head (h.next head) 0
      ≡ (if leb (length xs) left then some (length xs) else none)
list_len_upto left h head xs r =
    rw (first-next h head xs head r.chain)
      (ground (arith, list_len_from-length left h head head xs 0 r.chain r.apart))

-- `list_len` counts the nodes of a list of up to a million, and panics on a longer one.
pub list_len-length :
    {h : Heap} {head : Ptr} (xs : List Ptr)
    → IsRing h head xs
    → list_len h head ≡ (if leb (length xs) 1000000 then some (length xs) else none)
unfolding list_len
list_len-length {h} {head} xs r = list_len_upto 1000000 h head xs r

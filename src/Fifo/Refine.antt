-- ===== src/Fifo/Refine.antt =====
-- The queue of include/lib/fifo.h on its memory behaves as the sequence of nodes that it holds.
use risc.Common.{
  ◌≡◌, refl, true, false, none, some, [], ◌∷◌, arith, ◌==◌, length, length-snoc, pos, inc,
}
use risc.ListHead.{Ptr, null, Heap, list_add_tail, list_empty}
use risc.ListHead.Chain.{has}
use risc.ListHead.Ring.{IsRing}
use risc.ListHead.Ops.{SameOutside, list_add_tail-snoc, list_empty-nil, list_empty-cons}
use risc.ListHead.Delete.{init-IsRing, list_pop-Popped}
use risc.Fifo.{Fifo, fifo_init, fifo_push, fifo_empty, fifo_pop, fifo_size}
use risc.Fifo.Queue
use risc.Fifo.Queue.{Queue}

-- the fifo holds the nodes `q`, and counts them
pub record IsFifo (h : Heap) (fifo : Fifo) (q : Queue) : Type 0 where
  pub ring : IsRing h fifo.f_list q
  pub counted : fifo.f_size ≡ pos (length q)

pub fifo_init-nil : (h : Heap) (fifo : Fifo) → IsFifo (fifo_init h fifo).1 (fifo_init h fifo).0 []
unfolding fifo_init
fifo_init-nil h fifo = record { ring = init-IsRing h fifo.f_list; counted = refl }

module _ {h : Heap} {fifo : Fifo} (q : Queue) (v : IsFifo h fifo q) where
  -- `fifo_push` of an unlinked node appends it to the sequence and panics only on `NULL`.
  pub fifo_push-push :
      (e : Ptr)
      → has e (fifo.f_list ∷ q) ≡ false
      → (fifo_push h fifo null ≡ none)
        × ((e == null) ≡ false
            → (out : Fifo × Heap) × (fifo_push h fifo e ≡ some out)
              × IsFifo out.1 out.0 (Queue.push q e)
              × SameOutside (e ∷ fifo.f_list ∷ q) h out.1)
  unfolding fifo_push
  fifo_push-push e out = (
    refl,
    λ ne.
        let r = list_add_tail-snoc q v.ring e out in
        (
          (record fifo { f_size = inc fifo.f_size }, list_add_tail h e fifo.f_list),
          rw ne,
          record { ring = r.0; counted = ground (arith, v.counted, length-snoc q e) },
          r.1,
        ),
  )

  -- `fifo_empty` and `fifo_size` answer by the sequence.
  pub fifo_empty-is_empty : (fifo_empty fifo ≡ Queue.is_empty q) × (fifo_size fifo ≡ pos (length q))
  unfolding fifo_empty fifo_size
  fifo_empty-is_empty = (by_items q v.counted, v.counted)
    where
      by_items : (xs : Queue) → fifo.f_size ≡ pos (length xs) → fifo_empty fifo ≡ Queue.is_empty xs
      by_items [] e = ground arith
      by_items (x ∷ xs) e = ground arith

-- `fifo_pop` returns what the sequence gives, leaves the fifo holding the rest, and writes to no node
-- outside the fifo.
pub fifo_pop-pop :
    {h : Heap} {fifo : Fifo} (q : Queue)
    → IsFifo h fifo q
    → let (out, fifo', h') = fifo_pop h fifo in
      (out ≡ (Queue.pop q).0) × IsFifo h' fifo' (Queue.pop q).1 × SameOutside (fifo.f_list ∷ q) h h'
unfolding fifo_pop
fifo_pop-pop {h} {fifo} [] v =
    let e : list_empty h fifo.f_list ≡ true = (list_empty-nil [] v.ring).1 refl in
    rw e (refl, v, λ p o. (refl, refl))
fifo_pop-pop {h} {fifo} (x ∷ q) v =
    let e : list_empty h fifo.f_list ≡ false = list_empty-cons v.ring in
    let d = list_pop-Popped (x ∷ q) v.ring in
    rw e
      (d.0, record { ring = d.1; counted = ground (arith, v.counted) }, λ p o. d.3 p (ground arith))

-- ===== src/ListHead/Tests.antt =====
-- The functions of include/lib/list.h on small lists, and the theorems at those lists.
use risc.Common.{◌≡◌, ◌↔◌, refl, true, some, List, [], ◌∷◌}
use risc.ListHead.{
  Ptr, Heap, null, init_list_head, list_add_between, list_del_between, list_add_tail, list_del_init,
  list_empty, list_pop, list_splice_head,
}
use risc.ListHead.Ring.{IsRing}
use risc.ListHead.Ops.{list_add_tail-snoc, list_empty-nil}
use risc.ListHead.Delete.{init-IsRing}
use risc.ListHead.Splice.{list_splice_head_loses}

abbrev blank : Heap
blank = record { prev = λ p. null; next = λ p. null }

-- the lists at 10 and 20: nodes 1, 2, 3 and node 4
abbrev none_yet : Heap
none_yet = init_list_head (init_list_head blank 20) 10

abbrev three : Heap
three = list_add_tail (list_add_tail (list_add_tail none_yet 1 10) 2 10) 3 10

three-IsRing : IsRing three 10 (1 ∷ 2 ∷ 3 ∷ [])
three-IsRing =
    let r0 = init-IsRing (init_list_head blank 20) 10 in
    let r1 = (list_add_tail-snoc [] r0 1 refl).0 in
    let r2 = (list_add_tail-snoc (1 ∷ []) r1 2 refl).0 in
    (list_add_tail-snoc (1 ∷ 2 ∷ []) r2 3 refl).0

pop_order : (list_pop (list_pop three 10).1 10).0 ≡ some 2
unfolding list_pop list_empty list_del_init list_del_between init_list_head list_add_tail
    list_add_between
pop_order = refl

list_empty-nil_example : (list_empty three 10 ≡ true) ↔ (◌≡◌ {A = List Ptr} (1 ∷ 2 ∷ 3 ∷ []) [])
list_empty-nil_example = list_empty-nil (1 ∷ 2 ∷ 3 ∷ []) three-IsRing

-- the list at 20 beside the one at 10
abbrev both : Heap
both = init_list_head three 20

both-IsRing : IsRing both 10 (1 ∷ 2 ∷ 3 ∷ [])
unfolding list_add_tail list_add_between init_list_head
both-IsRing = record {
  chain = (refl, refl, (refl, refl, (refl, refl, (refl, refl))));
  apart = refl;
  distinct = (refl, (refl, (refl, tt)));
}

list_splice_head_loses_example :
    let h' = list_splice_head both 10 20 in (h'.next 20 ≡ 3) × (h'.next 3 ≡ 20)
list_splice_head_loses_example =
    list_splice_head_loses (2 ∷ 3 ∷ []) [] 1 both-IsRing (init-IsRing three 20) refl refl

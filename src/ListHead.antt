-- ===== src/ListHead.antt =====
-- include/lib/list.h: the kernel's intrusive circular doubly linked list, over an explicit memory.
pub mod Chain
pub mod Ring
pub mod Ops
pub mod Delete
pub mod Walk
pub mod Splice
mod Tests
use risc.Common.{ℕ, zero, suc, ◌+◌, Bool, true, Option, none, some, ◌==◌, if◌then◌else◌}

-- the address of a `struct list_head`
abbrev pub Ptr : Type 0
Ptr = ℕ

abbrev pub null : Ptr
null = 0

-- the fields of every `struct list_head` in memory
pub record Heap : Type 0 where
  pub prev : Ptr → Ptr
  pub next : Ptr → Ptr

abbrev pub update : (Ptr → Ptr) → Ptr → Ptr → Ptr → Ptr
update f p q a = if a == p then q else f a

-- `p->next = q` and `p->prev = q`
abbrev pub set_next : Heap → Ptr → Ptr → Heap
set_next h p q = record h { next = update h.next p q }

abbrev pub set_prev : Heap → Ptr → Ptr → Heap
set_prev h p q = record h { prev = update h.prev p q }

-- `INIT_LIST_HEAD`
pub init_list_head : Heap → Ptr → Heap
init_list_head h ptr = let h = set_next h ptr ptr in set_prev h ptr ptr

-- `__list_add`
pub list_add_between : Heap → Ptr → Ptr → Ptr → Heap
list_add_between h new prev next =
    let h1 = set_prev h next new in
    let h2 = set_next h1 prev new in let h3 = set_next h2 new next in set_prev h3 new prev

-- `__list_del`
pub list_del_between : Heap → Ptr → Ptr → Heap
list_del_between h prev next = let h1 = set_next h prev next in set_prev h1 next prev

pub list_del : Heap → Ptr → Heap
list_del h entry = list_del_between h (h.prev entry) (h.next entry)

pub list_del_init : Heap → Ptr → Heap
list_del_init h entry = init_list_head (list_del_between h (h.prev entry) (h.next entry)) entry

pub list_add_tail : Heap → Ptr → Ptr → Heap
list_add_tail h new list = list_add_between h new (h.prev list) list

pub list_add_head : Heap → Ptr → Ptr → Heap
list_add_head h new list = list_add_between h new list (h.next list)

pub list_is_first : Heap → Ptr → Ptr → Bool
list_is_first h list head = h.prev list == head

pub list_is_last : Heap → Ptr → Ptr → Bool
list_is_last h list head = h.next list == head

pub list_empty : Heap → Ptr → Bool
list_empty h list = h.next list == list

pub list_first : Heap → Ptr → Ptr
list_first h list = h.next list

pub list_splice_head : Heap → Ptr → Ptr → Heap
list_splice_head h old_list new_list =
    let h1 = set_next h (h.prev old_list) new_list in
    let h2 = set_prev h1 (h1.next old_list) (h1.next new_list) in
    let h3 = set_prev h2 (h2.next new_list) (h2.next old_list) in
    let h4 = set_next h3 new_list (h3.prev old_list) in
    let h5 = set_prev h4 old_list null in set_next h5 old_list null

-- `none` is the `NULL` of an empty list.
pub list_pop : Heap → Ptr → Option Ptr × Heap
list_pop h list =
    let tmp = h.next list in
    if list_empty h list then (none, h) else (some tmp, list_del_init h (h.next list))

-- The loop of `list_len`: `pos` is the node ahead, and `left` rounds may still be counted before the
-- loop panics (`none`).
pub list_len_from : ℕ → Heap → Ptr → Ptr → ℕ → Option ℕ
list_len_from zero h list pos len = if pos == list then some len else none
list_len_from (suc left) h list pos len =
    let rest = list_len_from left h list (h.next pos) (len + 1) in
    if pos == list then some len else rest

-- `list_len` panics once it has counted more than 1000000 nodes.
pub list_len : Heap → Ptr → Option ℕ
list_len h list = list_len_from 1000000 h list (h.next list) 0

-- ===== src/Fifo.antt =====
-- include/lib/fifo.h: a counted first-in first-out queue of list nodes.
pub mod Queue
pub mod Refine
mod Tests
use risc.Common.{ℕ, Bool, true, Option, none, some, ◌==◌, if◌then◌else◌, ℤ, pos, inc, dec, is_zero}
use risc.ListHead.{Ptr, null, Heap, init_list_head, list_add_tail, list_empty, list_pop}

-- `struct fifo`: the count, and the address of the list's head
pub record Fifo : Type 0 where
  pub f_size : ℤ
  pub f_list : Ptr

pub fifo_init : Heap → Fifo → Fifo × Heap
fifo_init h fifo = (record fifo { f_size = pos 0 }, init_list_head h fifo.f_list)

-- `none` is the panic of the assertion that `entry` is not `NULL`.
pub fifo_push : Heap → Fifo → Ptr → Option (Fifo × Heap)
fifo_push h fifo entry =
    if entry == null
    then none
    else some (record fifo { f_size = inc fifo.f_size }, list_add_tail h entry fifo.f_list)

pub fifo_empty : Fifo → Bool
fifo_empty fifo = is_zero fifo.f_size

-- The option in the result is the popped node or `NULL`.
pub fifo_pop : Heap → Fifo → Option Ptr × Fifo × Heap
fifo_pop h fifo =
    let (list, h') = list_pop h fifo.f_list in
    if list_empty h fifo.f_list
    then (none, fifo, h)
    else (list, record fifo { f_size = dec fifo.f_size }, h')

pub fifo_size : Fifo → ℤ
fifo_size fifo = fifo.f_size

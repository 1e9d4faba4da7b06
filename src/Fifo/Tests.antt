-- ===== src/Fifo/Tests.antt =====
-- The functions of include/lib/fifo.h on a queue at 10, and the theorems at that queue.
use risc.Common.{◌≡◌, refl, false, some, [], ◌∷◌, pos}
use risc.ListHead.{null, Heap}
use risc.ListHead.Ops.{SameOutside}
use risc.Fifo.{Fifo, fifo_init, fifo_push, fifo_empty, fifo_pop, fifo_size}
use risc.Fifo.Refine.{IsFifo, fifo_init-nil, fifo_push-push, fifo_empty-is_empty, fifo_pop-pop}

abbrev blank : Heap
blank = record { prev = λ p. null; next = λ p. null }

abbrev start : Fifo × Heap
start = fifo_init blank (record { f_size = pos 7; f_list = 10 })

abbrev f0 : Fifo
f0 = start.0

abbrev h0 : Heap
h0 = start.1

empty-IsFifo : IsFifo h0 f0 []
empty-IsFifo = fifo_init-nil blank (record { f_size = pos 7; f_list = 10 })

-- the queue after node 3 is pushed
abbrev Pushed : Type 0
Pushed =
    (out : Fifo × Heap) × (fifo_push h0 f0 3 ≡ some out)
    × IsFifo out.1 out.0 (3 ∷ [])
    × SameOutside (3 ∷ f0.f_list ∷ []) h0 out.1

pushed : Pushed
unfolding fifo_init
pushed = (fifo_push-push [] empty-IsFifo 3 refl).1 refl

fifo_empty-is_empty_example : (fifo_empty pushed.0.0 ≡ false) × (fifo_size pushed.0.0 ≡ pos 1)
fifo_empty-is_empty_example = fifo_empty-is_empty (3 ∷ []) pushed.2

fifo_pop-pop_example :
    let (out, fifo, h) = fifo_pop pushed.0.1 pushed.0.0 in
    (out ≡ some 3) × IsFifo h fifo [] × SameOutside (pushed.0.0.f_list ∷ 3 ∷ []) pushed.0.1 h
fifo_pop-pop_example = fifo_pop-pop (3 ∷ []) pushed.2

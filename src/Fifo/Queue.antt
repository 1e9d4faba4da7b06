-- ===== src/Fifo/Queue.antt =====
-- What include/lib/fifo.h promises its users: a sequence of nodes, oldest first.
use risc.Common.{ℕ, ◌≡◌, refl, Bool, true, false, Option, none, some, List, [], ◌∷◌, ◌++◌}

abbrev pub Queue : Type 0
Queue = List ℕ

abbrev pub push : Queue → ℕ → Queue
push q e = q ++ (e ∷ [])

abbrev pub pop : Queue → Option ℕ × Queue
pop [] = (none, [])
pop (x ∷ q) = (some x, q)

abbrev pub is_empty : Queue → Bool
is_empty [] = true
is_empty (x ∷ q) = false

pub is_empty-push : (q : Queue) (e : ℕ) → is_empty (push q e) ≡ false
is_empty-push [] e = refl
is_empty-push (x ∷ q) e = refl

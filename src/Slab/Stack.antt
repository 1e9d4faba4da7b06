-- ===== src/Slab/Stack.antt =====
-- The stack of include/lib/stack.h as a list, the top first.
use risc.Common.{
  ℕ, zero, suc, ◌+◌, ◌-◌, ◌≤◌, ◌<◌, ◌≡◌, refl, ap, false, List, [], ◌∷◌, pos, arith, length,
}
use risc.Slab.{SStack, update, sstack_push, sstack_pop, sstack_is_full}

-- the `n` lowest cells, the topmost first
abbrev pub contents : (ℕ → ℕ) → ℕ → List ℕ
contents cells zero = []
contents cells (suc n) = cells n ∷ contents cells n

abbrev pub items : SStack → List ℕ
items ss = contents ss.cells ss.top

pub length-contents : (cells : ℕ → ℕ) (n : ℕ) → length (contents cells n) ≡ n
length-contents cells zero = refl
length-contents cells (suc n) = ap suc (length-contents cells n)

-- a write above the top changes nothing below
contents-update :
    (cells : ℕ → ℕ) (n i v : ℕ) → n ≤ i → contents (update cells i v) n ≡ contents cells n
contents-update cells zero i v h = refl
contents-update cells (suc n) i v h = ground (arith, h, contents-update cells n i v)

pub sstack_push-items :
    (ss : SStack) (a : ℕ)
    → sstack_is_full ss ≡ false
    → ((sstack_push ss a).0 ≡ pos 0)
      × (items (sstack_push ss a).1 ≡ a ∷ items ss)
      × ((sstack_push ss a).1.max_size ≡ ss.max_size)
unfolding sstack_push
sstack_push-items ss a h =
    let e : ss.top + 1 ≡ suc ss.top = omega arith in
    let c = ap (contents (update ss.cells ss.top a)) e in
    ground (arith, h, c, contents-update ss.cells ss.top ss.top a (omega arith))

top_item :
    (cells : ℕ → ℕ) (n a : ℕ) (l : List ℕ)
    → contents cells n ≡ a ∷ l
    → (0 < n) × (cells (n - 1) ≡ a) × (contents cells (n - 1) ≡ l)
top_item cells zero a l h = absurd (ground (arith, h))
top_item cells (suc n) a l h =
    let e : suc n - 1 ≡ n = omega arith in
    let c = ap (contents cells) e in let d = ap cells e in ground (arith, h, c, d)

pub sstack_pop-items :
    (ss : SStack) (a : ℕ) (l : List ℕ)
    → items ss ≡ a ∷ l
    → ((sstack_pop ss).0 ≡ a)
      × (items (sstack_pop ss).1 ≡ l)
      × ((sstack_pop ss).1.max_size ≡ ss.max_size)
unfolding sstack_pop
sstack_pop-items ss a l h = let t = top_item ss.cells ss.top a l h in ground (arith, t)

-- What is pushed is popped again, and the items below it stay.
pub sstack_pop-sstack_push :
    (ss : SStack) (a : ℕ)
    → sstack_is_full ss ≡ false
    → ((sstack_pop (sstack_push ss a).1).0 ≡ a)
      × (items (sstack_pop (sstack_push ss a).1).1 ≡ items ss)
sstack_pop-sstack_push ss a h =
    let (r, i, m) = sstack_push-items ss a h in
    let (x, j, n) = sstack_pop-items (sstack_push ss a).1 a (items ss) i in (x, j)

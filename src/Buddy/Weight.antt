-- ===== src/Buddy/Weight.antt =====
-- Sums over the blocks of the free lists of mm/mm.c. A weight that adds up over the two halves of
-- a block makes the sum insensitive to how blocks are cut and merged.
use risc.Common.{
  ℕ, zero, suc, ◌+◌, ◌^◌, ◌≤◌, ◌<◌, ◌≡◌, ◌≢◌, refl, ap, Bool, true, false, ◌&&◌, ◌||◌, List, [],
  ◌∷◌, ltb, leb, ◌==◌, if◌then◌else◌, arith, Bool-cases, ==_iff, inl, inr,
}
use risc.Buddy.{remove, update, max_level}

-- the weight of the block of order `k` at page `p`
abbrev pub Weight : Type 0
Weight = ℕ → ℕ → ℕ

abbrev pub weigh_list : Weight → ℕ → List ℕ → ℕ
weigh_list w k [] = 0
weigh_list w k (p ∷ l) = w k p + weigh_list w k l

abbrev pub weigh_below : Weight → (ℕ → List ℕ) → ℕ → ℕ
weigh_below w lists zero = 0
weigh_below w lists (suc n) = weigh_list w n (lists n) + weigh_below w lists n

pub weigh : Weight → (ℕ → List ℕ) → ℕ
weigh w lists = weigh_below w lists max_level

-- the number of pages of a block
abbrev pub size : Weight
size k p = 2 ^ k

-- whether the page `x` is in the block
abbrev pub covers : ℕ → Weight
covers x k p = if leb p x && ltb x (p + 2 ^ k) then 1 else 0

pub weigh_below-same :
    (w : Weight) (f g : ℕ → List ℕ) (n : ℕ)
    → ((k : ℕ) → k < n → f k ≡ g k)
    → weigh_below w f n ≡ weigh_below w g n
weigh_below-same w f g zero h = refl
weigh_below-same w f g (suc n) h =
    ground (arith, h n (omega arith), weigh_below-same w f g n (λ k b. h k (omega (arith, b))))

-- changing one list changes the sum by that list's
pub weigh_below-change :
    (w : Weight) (f g : ℕ → List ℕ) (k n : ℕ)
    → k < n
    → ((j : ℕ) → j ≢ k → f j ≡ g j)
    → weigh_below w f n + weigh_list w k (g k) ≡ weigh_below w g n + weigh_list w k (f k)
weigh_below-change w f g k zero h same = absurd (omega arith)
weigh_below-change w f g k (suc n) h same = elim (Bool-cases (n == k)) [
  | inl e ↦
      let q : n ≡ k = (==_iff n k).0 e in
      let below = weigh_below-same w f g n (λ j b. same j (λ z. absurd (omega (arith, b, z, q)))) in
      omega (arith, below, ap (λ j. weigh_list w j (f j)) q, ap (λ j. weigh_list w j (g j)) q)
  | inr e ↦
      let ih = weigh_below-change w f g k n (ground (arith, e, h)) same in
      ground (arith, ih, e, same n)
]

pub weigh-change :
    (w : Weight) (f g : ℕ → List ℕ) (k : ℕ)
    → k < 11
    → ((j : ℕ) → j ≢ k → f j ≡ g j)
    → weigh w f + weigh_list w k (g k) ≡ weigh w g + weigh_list w k (f k)
unfolding weigh
weigh-change w f g k h same = weigh_below-change w f g k 11 h same

update_self {ℓ} : {A : Type ℓ} (f : ℕ → A) (k : ℕ) (a : A) → update f k a k ≡ a
update_self f k a = ground arith

update_ne {ℓ} : {A : Type ℓ} (f : ℕ → A) (k j : ℕ) (a : A) → j ≢ k → update f k a j ≡ f j
update_ne f k j a h = ground (arith, h)

pub weigh-push :
    (w : Weight) (f : ℕ → List ℕ) (k p : ℕ)
    → k < 11
    → weigh w (update f k (p ∷ f k)) ≡ w k p + weigh w f
weigh-push w f k p h =
    let c = weigh-change w (update f k (p ∷ f k)) f k h (λ j ne. update_ne f k j (p ∷ f k) ne) in
    ground (arith, c, update_self f k (p ∷ f k))

pub weigh-pop :
    (w : Weight) (f : ℕ → List ℕ) (k p : ℕ) (l : List ℕ)
    → k < 11
    → f k ≡ p ∷ l
    → w k p + weigh w (update f k l) ≡ weigh w f
weigh-pop w f k p l h e =
    let c = weigh-change w (update f k l) f k h (λ j ne. update_ne f k j l ne) in
    ground (arith, c, e, update_self f k l)

abbrev pub is_in : ℕ → List ℕ → Bool
is_in p [] = false
is_in p (q ∷ l) = q == p || is_in p l

weigh_list-remove :
    (w : Weight) (k p : ℕ) (l : List ℕ)
    → is_in p l ≡ true
    → w k p + weigh_list w k (remove p l) ≡ weigh_list w k l
weigh_list-remove w k p [] m = absurd (ground (arith, m))
weigh_list-remove w k p (q ∷ l) m = elim (Bool-cases (q == p)) [
  | inl e ↦ let z : q ≡ p = (==_iff q p).0 e in ground (arith, e, z)
  | inr e ↦ ground (arith, e, m, weigh_list-remove w k p l)
]

pub remove-not_in : (p : ℕ) (l : List ℕ) → is_in p l ≡ false → remove p l ≡ l
remove-not_in p [] h = refl
remove-not_in p (q ∷ l) h = ground (arith, h, remove-not_in p l)

pub weigh-remove :
    (w : Weight) (f : ℕ → List ℕ) (k p : ℕ)
    → k < 11
    → is_in p (f k) ≡ true
    → ((j : ℕ) → j ≢ k → is_in p (f j) ≡ false)
    → w k p + weigh w (λ j. remove p (f j)) ≡ weigh w f
weigh-remove w f k p h m out =
    let c = weigh-change w (λ j. remove p (f j)) f k h (λ j ne. remove-not_in p (f j) (out j ne)) in
    omega (arith, c, weigh_list-remove w k p (f k) m)

-- a block of a free list weighs no more than the whole
pub weigh-is_in :
    (w : Weight) (f : ℕ → List ℕ) (k p : ℕ) → k < 11 → is_in p (f k) ≡ true → w k p ≤ weigh w f
weigh-is_in w f k p h m =
    let c =
      weigh-change w (update f k (remove p (f k))) f k h
        (λ j ne. update_ne f k j (remove p (f k)) ne) in
    omega (
      arith,
      c,
      weigh_list-remove w k p (f k) m,
      ap (weigh_list w k) (update_self f k (remove p (f k))),
    )

pub weigh-none : (w : Weight) → weigh w (λ k. []) ≡ 0
unfolding weigh
weigh-none w = refl

-- ===== src/Buddy/Block.antt =====
-- The buddies of mm/mm.c: the two halves of a block of the next order.
use risc.Common.{
  ℕ, zero, suc, ◌+◌, ◌*◌, ◌/◌, ◌%◌, ◌^◌, ◌≤◌, ◌<◌, ◌≡◌, sym, ap, ◌∙◌, ◌⊎◌, inl, inr, leb, ◌==◌,
  arith, Bool-cases, some,
}
use native.Mathlib.Nat.{pow-succ', mul-div_cancel, mul-add, add-mul}
use risc.Buddy.{all_pfn, flip, find_buddy, minimum}
use risc.Buddy.Weight.{Weight, size, covers}

-- blocks of order `k` start at multiples of `2 ^ k`
abbrev pub Aligned : ℕ → ℕ → Type 0
Aligned k p = (m : ℕ) × (p ≡ m * 2 ^ k)

-- a weight of a block is the sum over its halves
abbrev pub IsAdditive : Weight → Type 0
IsAdditive w = (k p : ℕ) → w (k + 1) p ≡ w k p + w k (p + 2 ^ k)

pub pow_pos : (k : ℕ) → 0 < 2 ^ k
pow_pos zero = omega arith
pow_pos (suc k) = omega (arith, pow-succ' 2 k, pow_pos k)

pub pow_step : (k : ℕ) → 2 ^ (k + 1) ≡ 2 ^ k + 2 ^ k
pow_step k =
    let e : k + 1 ≡ suc k = omega arith in
    let p : 2 ^ suc k ≡ 2 ^ k + 2 ^ k = omega (arith, pow-succ' 2 k) in ap (λ n. 2 ^ n) e ∙ p

pub double : (n k : ℕ) → (n + n) * 2 ^ k ≡ n * 2 ^ (k + 1)
double n k =
    add-mul n n (2 ^ k) ∙ (sym (mul-add n (2 ^ k) (2 ^ k)) ∙ ap (λ x. n * x) (sym (pow_step k)))

pub size-IsAdditive : IsAdditive size
size-IsAdditive k p = pow_step k

pub covers-IsAdditive : (x : ℕ) → IsAdditive (covers x)
covers-IsAdditive x k p = ground (arith, pow_step k, pow_pos k)

flip-even : (m k : ℕ) → flip ((m + m) * 2 ^ k) k ≡ (m + m) * 2 ^ k + 2 ^ k
flip-even m k = let d = mul-div_cancel (m + m) (pow_pos k) in ground (arith, d)

flip-odd : (m k : ℕ) → flip ((m + m + 1) * 2 ^ k) k ≡ (m + m) * 2 ^ k
flip-odd m k = let d = mul-div_cancel (m + m + 1) (pow_pos k) in ground (arith, d)

-- What the buddy of a block is to it.
pub record Buddies (k p b : ℕ) : Type 0 where
  pub bound : b < all_pfn
  pub aligned : Aligned k b
  pub apart : (b ≡ p + 2 ^ k) ⊎ (p ≡ b + 2 ^ k)
  pub joined : Aligned (k + 1) (minimum p b)

half : (m : ℕ) → (n : ℕ) × ((m ≡ n + n) ⊎ (m ≡ n + n + 1))
half m = (
  m / 2,
  elim (Bool-cases (m % 2 == 0)) [ inl e ↦ inl (ground arith) | inr e ↦ inr (ground arith) ],
)

pub find_buddy-upper :
    (k p : ℕ) → Aligned (k + 1) p → p + 2 ^ (k + 1) ≤ all_pfn → find_buddy p k ≡ some (p + 2 ^ k)
unfolding find_buddy
find_buddy-upper k p (m, e) h =
    let q : p ≡ (m + m) * 2 ^ k = grind (arith, e, pow_step k) in
    let f : flip p k ≡ p + 2 ^ k =
      ap (λ x. flip x k) q ∙ (flip-even m k ∙ ap (λ x. x + 2 ^ k) (sym q)) in
    rw (f) ground (arith, h, pow_step k, pow_pos k)

find_buddy-flip : (k p b : ℕ) → find_buddy p k ≡ some b → (b < all_pfn) × (b ≡ flip p k)
unfolding find_buddy
find_buddy-flip k p b h = elim (Bool-cases (leb all_pfn (flip p k))) [
  | inl e ↦ absurd (ground (arith, e, h))
  | inr e ↦ ground (arith, e, h)
]

upper_half :
    (k p b n : ℕ)
    → p ≡ (n + n) * 2 ^ k
    → flip p k ≡ p + 2 ^ k
    → find_buddy p k ≡ some b
    → Buddies k p b
unfolding find_buddy
upper_half k p b n q f h =
    let (l, e) = find_buddy-flip k p b h in
    let z : b ≡ p + 2 ^ k = e ∙ f in
    let j : minimum p b ≡ n * 2 ^ (k + 1) =
      (let low : minimum p b ≡ (n + n) * 2 ^ k = grind (arith, q, z, pow_pos k) in
        low ∙ double n k) in
    record { bound = l; aligned = (n + n + 1, grind (arith, q, z)); apart = inl z; joined = (n, j) }

lower_half :
    (k p b n : ℕ)
    → p ≡ (n + n + 1) * 2 ^ k
    → flip p k ≡ (n + n) * 2 ^ k
    → find_buddy p k ≡ some b
    → Buddies k p b
unfolding find_buddy
lower_half k p b n q f h =
    let (l, e) = find_buddy-flip k p b h in
    let z : b ≡ (n + n) * 2 ^ k = e ∙ f in
    let j : minimum p b ≡ n * 2 ^ (k + 1) =
      (let low : minimum p b ≡ (n + n) * 2 ^ k = grind (arith, q, z, pow_pos k) in
        low ∙ double n k) in
    record { bound = l; aligned = (n + n, z); apart = inr (grind (arith, q, z)); joined = (n, j) }

pub find_buddy-Buddies : (k p b : ℕ) → Aligned k p → find_buddy p k ≡ some b → Buddies k p b
unfolding find_buddy
find_buddy-Buddies k p b (m, e) h =
    let (n, z) = half m in
    elim z [
      | inl z ↦
          let q : p ≡ (n + n) * 2 ^ k = e ∙ ap (λ x. x * 2 ^ k) z in
          let f : flip p k ≡ p + 2 ^ k =
            ap (λ x. flip x k) q ∙ (flip-even n k ∙ ap (λ x. x + 2 ^ k) (sym q)) in
          upper_half k p b n q f h
      | inr z ↦
          let q : p ≡ (n + n + 1) * 2 ^ k = e ∙ ap (λ x. x * 2 ^ k) z in
          let f : flip p k ≡ (n + n) * 2 ^ k = ap (λ x. flip x k) q ∙ flip-odd n k in
          lower_half k p b n q f h
    ]

-- ===== src/Slab/Size.antt =====
-- The sizes of the slabs of mm/slab.c.
use risc.Common.{
  ℕ, zero, suc, ◌+◌, ◌*◌, ◌^◌, ◌≤◌, ◌<◌, ◌≡◌, refl, sym, ap, ◌∙◌, ◌⊎◌, inl, inr, ltb, arith,
  Bool-cases,
}
use native.Mathlib.Nat.{pow-succ', mul_assoc, le-div_iff_mul-le, div-lt_iff_lt-mul}
use mathlib.Core.Path.{subst}
use risc.Slab.{calc_from, calc_slab_order, count_of}

-- the order fits four objects, and the next lower order does not
pub record Fits (require_size order : ℕ) : Type 0 where
  pub enough : require_size ≤ 2 ^ order * 4096
  pub least : (order ≡ 0) ⊎ (2 ^ order * 4096 < 2 * require_size)

pow_step : (k : ℕ) → 2 ^ (k + 1) ≡ 2 ^ k + 2 ^ k
pow_step k =
    let e : k + 1 ≡ suc k = omega arith in
    let p : 2 ^ suc k ≡ 2 ^ k + 2 ^ k = omega (arith, pow-succ' 2 k) in ap (λ n. 2 ^ n) e ∙ p

calc_from-Fits :
    (fuel require_size order slab_size : ℕ)
    → slab_size ≡ 2 ^ order * 4096
    → require_size ≤ slab_size * 2 ^ fuel
    → (order ≡ 0) ⊎ (2 ^ order * 4096 < 2 * require_size)
    → Fits require_size (calc_from require_size order slab_size fuel)
unfolding calc_from
calc_from-Fits zero r order s e b l = record { enough = omega (arith, e, b); least = l }
calc_from-Fits (suc fuel) r order s e b l = elim (Bool-cases (ltb s r)) [
  | inl z ↦
      let p : 2 ^ (order + 1) ≡ 2 ^ order + 2 ^ order = pow_step order in
      let e' : s * 2 ≡ 2 ^ (order + 1) * 4096 = omega (arith, e, p) in
      let q : 2 ^ suc fuel ≡ 2 * 2 ^ fuel = pow-succ' 2 fuel in
      let m : s * 2 * 2 ^ fuel ≡ s * 2 ^ suc fuel =
        mul_assoc s 2 (2 ^ fuel) ∙ ap (λ x. s * x) (sym q) in
      let b' : r ≤ s * 2 * 2 ^ fuel = omega (arith, b, m) in
      let less : s < r = ground (arith, z) in
      let g = calc_from-Fits fuel r (order + 1) (s * 2) e' b' (inr (omega (arith, less, e, p))) in
      subst (Fits r) (ground (arith, z)) g
  | inr z ↦
      let enough : r ≤ 2 ^ order * 4096 = ground (arith, z, e) in
      subst (Fits r) (ground (arith, z)) (record { enough = enough; least = l })
]

calc_slab_order-Fits : (size : ℕ) → size < 2 ^ 16 → Fits (size * 4) (calc_slab_order size)
unfolding calc_slab_order
calc_slab_order-Fits size h = calc_from-Fits 7 (size * 4) 0 4096 refl (omega (arith, h)) (inl refl)

order_zero : (order size : ℕ) → order ≡ 0 → 16 ≤ size → 2 ^ order * 4096 < 257 * size
order_zero order size z l = let e : 2 ^ order ≡ 1 = ap (λ k. 2 ^ k) z in omega (arith, e, l)

-- A slab of objects of 16 to 65535 bytes holds at least four of them, and no more than its stack of
-- free objects has room for.
pub count_of-bounds :
    (size : ℕ) → 16 ≤ size → size < 2 ^ 16 → (4 ≤ count_of size) × (count_of size ≤ 256)
unfolding count_of
count_of-bounds size l h =
    let f = calc_slab_order-Fits size h in
    let p : 0 < size = omega (arith, l) in
    let below : 2 ^ calc_slab_order size * 4096 < 257 * size = elim f.least [
      | inl z ↦ order_zero (calc_slab_order size) size z l
      | inr g ↦ omega (arith, g)
    ] in
    (
      (le-div_iff_mul-le p).1 (omega (arith, f.enough)),
      omega (arith, (div-lt_iff_lt-mul p).1 below),
    )

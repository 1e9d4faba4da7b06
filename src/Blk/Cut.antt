-- ===== src/Blk/Cut.antt =====
-- `bio_list_make` of kernel/dev/blk/bio.c cuts a range of bytes into one piece for each block.
use mathlib.Core.Path.{subst, sym, ap}
use risc.Common.{
  ℕ, zero, suc, ◌+◌, ◌-◌, ◌*◌, ◌/◌, ◌%◌, ◌^◌, ◌≤◌, ◌<◌, ◌≡◌, refl, inl, inr, List, [], ◌∷◌, arith,
  ltb, Bool-cases,
}
use risc.Blk.{Bio, blk_size, uint32, less, middles, many, bio_list_make}

-- The pieces lie one after the other from the byte `s` of the device on, each inside its block and
-- none empty, and are `len` bytes together.
pub data Run : List Bio → ℕ → ℕ → Type 0 where
  done : {s : ℕ} → Run [] s 0
  piece :
      {bio : Bio} {bios : List Bio} {s len : ℕ}
      → bio.b_blockno * blk_size + bio.offset ≡ s
      → bio.offset + bio.len ≤ blk_size
      → 0 < bio.len
      → Run bios (s + bio.len) len
      → Run (bio ∷ bios) s (bio.len + len)

Run_at : {bios : List Bio} {s t m n : ℕ} → s ≡ t → m ≡ n → Run bios s m → Run bios t n
Run_at {bios} {s} {t} {m} {n} p q r = subst (λ k. Run bios t k) q (subst (λ k. Run bios k m) p r)

middles-Run :
    (n top : ℕ) (bios : List Bio) (len : ℕ)
    → n ≤ top
    → top < 2 ^ 32
    → Run bios (top * blk_size) len
    → ((middles n top bios).0 ≡ top - n)
      × Run (middles n top bios).1 ((top - n) * blk_size) (n * blk_size + len)
unfolding middles
middles-Run zero top bios len le lt r = (omega arith, Run_at (omega arith) (omega arith) r)
middles-Run (suc n) top bios len le lt r =
    let down : less top ≡ top - 1 = omega (arith, le, lt) in
    let block =
      piece {bio = record { b_blockno = less top; offset = 0; len = blk_size }}
        {s = (less top) * blk_size} (omega arith) (omega arith) (omega arith)
        (Run_at (omega (arith, down, le)) refl r) in
    let (b, m) =
      middles-Run n (less top) _ (blk_size + len) (omega (arith, down, le)) (omega arith) block in
    (omega (arith, b, down, le), Run_at (omega (arith, down, le)) (omega arith) m)

many-Run :
    (first off end count : ℕ)
    → off < blk_size
    → count ≡ end / blk_size + 1
    → 1 < count
    → first + count ≤ 2 ^ 32
    → Run (many first off end count) (first * blk_size + off) (end + 1 - off)
unfolding many
many-Run first off end count lt e two fits =
    let top = less (uint32 (first + count)) in
    let at_top : top ≡ first + count - 1 = omega (arith, two, fits) in
    let last : Bio = record { b_blockno = top; offset = 0; len = end % blk_size + 1 } in
    let l =
      piece {bio = last} {s = top * blk_size} (omega arith) (omega arith) (omega arith) done in
    let (b, m) =
      middles-Run (count - 2) top (last ∷ []) (last.len + 0) (omega (arith, at_top, two))
        (omega (arith, at_top, two, fits)) l in
    let bottom = (middles (count - 2) top (last ∷ [])).0 in
    let at_bottom : less bottom ≡ first = omega (arith, b, at_top, two, fits) in
    Run_at refl (omega (arith, e, lt, two)) (
      piece {bio = record { b_blockno = less bottom; offset = off; len = blk_size - off }}
        (ap (λ n. n * blk_size + off) at_bottom) (omega (arith, lt)) (omega (arith, lt))
        (Run_at (omega (arith, b, at_top, two, lt)) refl m))

-- the three ways of `bio_list_make`, without the wrap-around
make_none : (blockno offset : ℕ) → bio_list_make blockno offset 0 ≡ []
unfolding bio_list_make
make_none blockno offset = refl

make_one :
    (blockno offset len : ℕ)
    → blockno + offset / blk_size < 2 ^ 32
    → offset % blk_size + len < 2 ^ 32
    → 0 < len
    → offset % blk_size + len ≤ blk_size
    → bio_list_make blockno offset len
      ≡ record { b_blockno = blockno + offset / blk_size; offset = offset % blk_size; len = len }
        ∷ []
unfolding bio_list_make
make_one blockno offset len a b lt le = ground arith

make_many :
    (blockno offset len : ℕ)
    → blockno + offset / blk_size < 2 ^ 32
    → offset % blk_size + len < 2 ^ 32
    → blk_size < offset % blk_size + len
    → bio_list_make blockno offset len
      ≡ many
          (blockno + offset / blk_size)
          (offset % blk_size)
          (offset % blk_size + len - 1)
          ((offset % blk_size + len - 1) / blk_size + 1)
unfolding bio_list_make
make_many blockno offset len a b lt = ground arith

-- The pieces that `bio_list_make` makes cover the bytes that are asked for, in order and without a
-- gap, if they end before the block 2 ^ 32 and no 32-bit sum wraps.
pub bio_list_make-Run :
    (blockno offset len : ℕ)
    → blockno * blk_size + offset + len ≤ 2 ^ 32 * blk_size
    → offset % blk_size + len < 2 ^ 32
    → Run (bio_list_make blockno offset len) (blockno * blk_size + offset) len
bio_list_make-Run blockno offset zero a b =
    subst (λ bs. Run bs (blockno * blk_size + offset) 0) (sym (make_none blockno offset)) done
bio_list_make-Run blockno offset (suc n) a b =
    let off = offset % blk_size in
    let first = blockno + offset / blk_size in
    elim (Bool-cases (ltb blk_size (off + suc n))) [
      | inl w ↦
          subst (λ bs. Run bs (blockno * blk_size + offset) (suc n))
            (sym (make_many blockno offset (suc n) (omega (arith, a)) b (ground arith)))
            (Run_at (omega arith) (omega arith) (
              many-Run first off (off + suc n - 1) _ (omega arith) refl (ground arith)
                (omega (arith, a))))
      | inr w ↦
          subst (λ bs. Run bs (blockno * blk_size + offset) (suc n))
            (sym
              (make_one blockno offset (suc n) (omega (arith, a)) b (omega arith) (ground arith)))
            (Run_at (omega arith) (omega arith) (
              piece {bio = record { b_blockno = first; offset = off; len = suc n }} refl
                (ground arith) (omega arith) done))
    ]

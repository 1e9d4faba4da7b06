-- ===== src/Bitmap/Invariant.antt =====
-- The well-formedness of a `struct bitmap` of lib/bitmap.c.
use risc.Common.{ℕ, ◌+◌, ◌/◌, ◌<◌, ◌≤◌, ◌≡◌, true, length}
use risc.Bitmap.{Bitmap, test_bit}
use risc.Bitmap.Bits.{Words, clear_count}

-- The storage holds `size` bits in whole words, `unused` counts the clear ones among them, and none
-- of them lies below `allocation`.
pub record IsValid (bmp : Bitmap) : Type 0 where
  pub words : Words bmp.map
  pub room : (bmp.size + 63) / 64 ≤ length bmp.map
  pub counted : bmp.unused ≡ clear_count bmp.map bmp.size
  pub low : bmp.allocation ≤ bmp.size
  pub below_set : (j : ℕ) → j < bmp.allocation → test_bit bmp.map j ≡ true

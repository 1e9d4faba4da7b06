-- ===== src/Bitmap/Tests.antt =====
-- The functions of lib/bitmap.c on a map of 70 bits, and the theorems at that map.
use risc.Common.{◌≡◌, refl, ◌≢◌, true, if◌then◌else◌, List, [], ◌∷◌, arith, replicate, pos}
use risc.Bitmap.{
  scan, is_ones, clear_bytes, find_zero, first_bit, take_bit, write_bit, free_at, Bitmap, Word,
  test_bit, bitmap_init, bitmap_alloc, bitmap_free, bitmap_is_free,
}
use risc.Bitmap.Bits.{Words}
use risc.Bitmap.Invariant.{IsValid}
use risc.Bitmap.Alloc.{Allocates, bitmap_alloc-Allocates}
use risc.Bitmap.Free.{Freed, bitmap_free-Freed, bitmap_is_free-bitmap_free}
use risc.Bitmap.Start.{bitmap_init-IsValid}

abbrev storage : List Word
storage = replicate 64 true ∷ replicate 64 true ∷ []

abbrev fresh : Bitmap
fresh = bitmap_init storage 70

-- after `bitmap_free`, the next allocation takes the lowest free bit
lowest_first :
    let b2 = (bitmap_alloc (bitmap_alloc (bitmap_alloc fresh).1).1).1 in
    (bitmap_alloc (bitmap_free b2 (pos 1))).0 ≡ pos 1
unfolding bitmap_init bitmap_alloc bitmap_free scan is_ones clear_bytes find_zero first_bit take_bit
    write_bit free_at test_bit
lowest_first = refl

words : Words storage
words = (refl, (refl, tt))

fresh-IsValid : IsValid fresh
fresh-IsValid = (bitmap_init-IsValid storage 70 words (omega arith)).0

fresh_free : fresh.unused ≢ 0
unfolding bitmap_init
fresh_free = omega arith

bitmap_alloc-Allocates_example : Allocates fresh (bitmap_alloc fresh)
bitmap_alloc-Allocates_example = bitmap_alloc-Allocates fresh-IsValid fresh_free

bitmap_free-Freed_example : Freed fresh 69 (bitmap_free fresh (pos 69))
unfolding bitmap_init
bitmap_free-Freed_example = bitmap_free-Freed fresh-IsValid 69 (omega arith)

bitmap_is_free-bitmap_free_example :
    (bitmap_is_free fresh (pos 69) ≡ (if test_bit fresh.map 69 then pos 0 else pos 1))
    × (bitmap_is_free (bitmap_free fresh (pos 69)) (pos 69) ≡ pos 1)
unfolding bitmap_init
bitmap_is_free-bitmap_free_example = bitmap_is_free-bitmap_free fresh-IsValid 69 (omega arith)

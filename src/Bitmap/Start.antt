-- ===== src/Bitmap/Start.antt =====
-- How a map of lib/bitmap.c comes to be well formed: `bitmap_init` and `bitmap_reset_start`.
use risc.Common.{
  ℕ, zero, suc, ◌+◌, ◌-◌, ◌*◌, ◌/◌, ◌%◌, ◌<◌, ◌≤◌, ◌≡◌, ◌∙◌, sym, refl, ◌≢◌, true, false, List, [],
  ◌∷◌, arith, ltb, if◌then◌else◌, get_or, length, pos,
}
use risc.Bitmap.{
  Bitmap, Word, test_bit, clear_word, clear_bytes, bitmap_init, bitmap_alloc, bitmap_free,
  bitmap_reset_start,
}
use risc.Bitmap.Bits.{Words, clear_count-clear}
use risc.Bitmap.Invariant.{IsValid}
use risc.Bitmap.Alloc.{Allocates, bitmap_alloc-Allocates}
use risc.Bitmap.Free.{Freed, bitmap_free-Freed, restored}

get_or-clear_word :
    (k b : ℕ) (w : Word)
    → get_or (clear_word k w) b false ≡ (if ltb b k then false else get_or w b false)
unfolding clear_word
get_or-clear_word k b [] = ground arith
get_or-clear_word zero b (x ∷ w) = ground arith
get_or-clear_word (suc k) zero (x ∷ w) = ground arith
get_or-clear_word (suc k) (suc b) (x ∷ w) = ground (arith, get_or-clear_word k b w)

length-clear_word : (k : ℕ) (w : Word) → length (clear_word k w) ≡ length w
unfolding clear_word
length-clear_word k [] = refl
length-clear_word zero (x ∷ w) = refl
length-clear_word (suc k) (x ∷ w) = omega (arith, length-clear_word k w)

clear_bytes-bit :
    (n i b : ℕ) (ws : List Word)
    → b < 64
    → get_or (get_or (clear_bytes n ws) i []) b false
      ≡ (if ltb (i * 64 + b) (8 * n) then false else get_or (get_or ws i []) b false)
unfolding clear_bytes
clear_bytes-bit n i b [] h = ground arith
clear_bytes-bit n zero b (w ∷ ws) h = ground (arith, get_or-clear_word (8 * n) b w)
clear_bytes-bit n (suc i) b (w ∷ ws) h = ground (arith, clear_bytes-bit (n - 8) i b ws h)

Words-clear_bytes : (n : ℕ) (ws : List Word) → Words ws → Words (clear_bytes n ws)
unfolding clear_bytes
Words-clear_bytes n [] h = h
Words-clear_bytes n (w ∷ ws) h =
    (length-clear_word (8 * n) w ∙ h.0, Words-clear_bytes (n - 8) ws h.1)

length-clear_bytes : (n : ℕ) (ws : List Word) → length (clear_bytes n ws) ≡ length ws
unfolding clear_bytes
length-clear_bytes n [] = refl
length-clear_bytes n (w ∷ ws) = omega (arith, length-clear_bytes (n - 8) ws)

module _ (map : List Word) (size : ℕ) where
  -- which bits `bitmap_init` clears
  test_bit-bitmap_init :
      (j : ℕ)
      → test_bit (bitmap_init map size).map j
        ≡ (if ltb j (8 * ((size + 7) / 8)) then false else test_bit map j)
  unfolding bitmap_init test_bit
  test_bit-bitmap_init j = ground (arith, clear_bytes-bit ((size + 7) / 8) (j / 64) (j % 64) map)

  -- `bitmap_init` over storage that holds `size` bits in whole words, whatever it held before, makes
  -- a well-formed map with all its bits free; bits past the last byte of the map keep their values.
  pub bitmap_init-IsValid :
      Words map
      → (size + 63) / 64 ≤ length map
      → IsValid (bitmap_init map size)
        × ((j : ℕ) → j < size → test_bit (bitmap_init map size).map j ≡ false)
        × ((j : ℕ)
            → 8 * ((size + 7) / 8) ≤ j
            → test_bit (bitmap_init map size).map j ≡ test_bit map j)
        × ((bitmap_init map size).unused ≡ size)
  bitmap_init-IsValid h room = (
    record {
      words = unfold bitmap_init in Words-clear_bytes ((size + 7) / 8) map h;
      room = unfold bitmap_init in omega (arith, length-clear_bytes ((size + 7) / 8) map);
      counted = unfold bitmap_init in sym (clear_count-clear _ size clear);
      low = unfold bitmap_init in omega arith;
      below_set = unfold bitmap_init in λ j lt. absurd (omega arith);
    },
    clear,
    (λ j le. ground (arith, test_bit-bitmap_init j)),
    unfold bitmap_init in refl,
  )
    where
      clear : (j : ℕ) → j < size → test_bit (bitmap_init map size).map j ≡ false
      clear j lt = ground (arith, test_bit-bitmap_init j)

-- `bitmap_reset_start` over a map whose bits below `start` are all in use and whose free ones are
-- counted puts the search start on the lowest free bit and changes no bit and no count.
pub bitmap_reset_start-IsValid :
    (bmp : Bitmap) (start : ℕ)
    → IsValid (record bmp { allocation = start })
    → bmp.unused ≢ 0
    → let bmp' = bitmap_reset_start bmp start in
      IsValid bmp'
      × ((j : ℕ) → test_bit bmp'.map j ≡ test_bit bmp.map j)
      × (bmp'.unused ≡ bmp.unused)
      × (test_bit bmp.map bmp'.allocation ≡ false)
      × ((j : ℕ) → j < bmp'.allocation → test_bit bmp.map j ≡ true)
unfolding bitmap_reset_start
bitmap_reset_start-IsValid bmp start v some_left =
    let b0 : Bitmap = record bmp { allocation = start } in
    let a : Allocates b0 (bitmap_alloc b0) = bitmap_alloc-Allocates v some_left in
    let b1 : Bitmap = (bitmap_alloc b0).1 in
    let f : Freed b1 a.index (bitmap_free b1 (pos a.index)) =
      bitmap_free-Freed a.state.valid a.index (omega (arith, a.state.in_range, a.state.size)) in
    let here : (bitmap_free b1 (pos a.index)).allocation ≡ a.index =
      ground (arith, f.start, a.state.next) in
    rw a.result (
      f.valid,
      restored a.state f,
      ground (arith, f.unused, a.state.now_set, a.state.fewer),
      rw here a.state.was_clear,
      rw here a.state.first,
    )

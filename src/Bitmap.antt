-- ===== src/Bitmap.antt =====
-- lib/bitmap.c and include/lib/bitmap.h: a bit map with a remembered search start.
pub mod Bits
pub mod Scan
pub mod Invariant
pub mod Alloc
pub mod Free
pub mod Start
mod Tests
use risc.Common.{
  ℕ, zero, suc, ◌+◌, ◌-◌, ◌*◌, ◌/◌, ◌%◌, Bool, true, false, ◌&&◌, Option, none, some, List, [], ◌∷◌,
  ltb, leb, ◌==◌, if◌then◌else◌, get_or, set, replicate, ℤ, pos, negsuc, minus_one,
}

-- A 64-bit word is the list of its bits, the lowest first.
abbrev pub Word : Type 0
Word = List Bool

-- `struct bitmap`
pub record Bitmap : Type 0 where
  pub map : List Word
  pub size : ℕ
  pub unused : ℕ
  pub allocation : ℕ

abbrev pub zero_word : Word
zero_word = replicate 64 false

-- `w == ~0ULL`
pub is_ones : Word → Bool
is_ones [] = true
is_ones (b ∷ w) = b && is_ones w

-- `map` is the caller's storage; `memset` clears the bytes that hold `size_bits` bits, which are
-- the first `(size_bits + 7) / 8` of them.
pub clear_word : ℕ → Word → Word
clear_word k [] = []
clear_word zero (b ∷ w) = b ∷ w
clear_word (suc k) (b ∷ w) = false ∷ clear_word k w

pub clear_bytes : ℕ → List Word → List Word
unfolding clear_word
clear_bytes n [] = []
clear_bytes n (w ∷ ws) = clear_word (8 * n) w ∷ clear_bytes (n - 8) ws

unfoldable pub bitmap_init : List Word → ℕ → Bitmap
bitmap_init map size_bits = record {
  map = clear_bytes ((size_bits + 7) / 8) map;
  size = size_bits;
  unused = size_bits;
  allocation = 0;
}

pub bitmap_init_zone : List Word → ℕ → Bitmap
bitmap_init_zone map size_bits = record {
  map = map;
  size = size_bits;
  unused = size_bits;
  allocation = 0;
}

pub bitmap_reset_unused : Bitmap → ℕ → Bitmap
bitmap_reset_unused bmp unused = record bmp { unused = unused }

-- The inner loop: the first clear bit of `w` from `bit` on; `rounds` is `64 - bit`.
pub find_zero : ℕ → ℕ → Word → Option ℕ
find_zero zero bit w = none
find_zero (suc rounds) bit w =
    let rest = find_zero rounds (bit + 1) w in if get_or w bit false then rest else some bit

-- `i == start_block ? start_bit : 0`
pub first_bit : ℕ → ℕ → ℕ → ℕ
first_bit start_block start_bit i = if i == start_block then start_bit else 0

-- The outer loop: block and bit of the first clear bit; `rounds` is `total_blocks - i`.
pub scan : List Word → ℕ → ℕ → ℕ → ℕ → Option (ℕ × ℕ)
scan map start_block start_bit zero i = none
scan map start_block start_bit (suc rounds) i =
    let w = get_or map i [] in
    let s = first_bit start_block start_bit i in
    let rest = scan map start_block start_bit rounds (i + 1) in
    if is_ones w
    then rest
    else elim (find_zero (64 - s) s w) [ some bit ↦ some (i, bit) | none ↦ rest ]

-- `bmp->map[i] |= 1ULL << bit` and `bmp->map[i] &= ~(1ULL << bit)`
pub write_bit : List Word → ℕ → ℕ → Bool → List Word
write_bit map i bit v = set map i (set (get_or map i []) bit v)

-- What the loop does at the bit that it finds.
pub take_bit : Bitmap → ℕ → ℕ → ℤ × Bitmap
take_bit bmp i bit =
    let res = i * 64 + bit in
    if ltb bmp.size res then (minus_one, bmp) else (
      pos res,
      record bmp {
        map = write_bit bmp.map i bit true;
        unused = bmp.unused - 1;
        allocation = res + 1;
      },
    )

pub bitmap_alloc : Bitmap → ℤ × Bitmap
bitmap_alloc bmp =
    let start_block = bmp.allocation / 64 in
    let total_blocks = (bmp.size + 63) / 64 in
    if bmp.unused == 0
    then (minus_one, bmp)
    else elim (scan bmp.map start_block (bmp.allocation % 64) (total_blocks - start_block)
        start_block) [ none ↦ (minus_one, bmp) | some (i, bit) ↦ take_bit bmp i bit ]

-- `bmp->map[index / 64] & (1ULL << (index % 64))`
unfoldable pub test_bit : List Word → ℕ → Bool
test_bit map index = get_or (get_or map (index / 64) []) (index % 64) false

-- `bitmap_free` at an index in range. A double free only prints.
pub free_at : Bitmap → ℕ → Bitmap
free_at bmp index =
    let low = if ltb index bmp.allocation then index else bmp.allocation in
    if test_bit bmp.map index
    then record bmp {
      map = write_bit bmp.map (index / 64) (index % 64) false;
      unused = bmp.unused + 1;
      allocation = low;
    }
    else record bmp { allocation = low }

pub bitmap_free : Bitmap → ℤ → Bitmap
bitmap_free bmp (negsuc n) = bmp
bitmap_free bmp (pos index) = if leb bmp.size index then bmp else free_at bmp index

pub bitmap_is_free : Bitmap → ℤ → ℤ
bitmap_is_free bmp (negsuc n) = minus_one
bitmap_is_free bmp (pos index) =
    if leb bmp.size index then minus_one else if test_bit bmp.map index then pos 0 else pos 1

pub bitmap_reset_start : Bitmap → ℕ → Bitmap
bitmap_reset_start bmp start =
    let (index, bmp') = bitmap_alloc (record bmp { allocation = start }) in bitmap_free bmp' index

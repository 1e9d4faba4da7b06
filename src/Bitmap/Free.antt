-- ===== src/Bitmap/Free.antt =====
-- What `bitmap_free` and `bitmap_is_free` of lib/bitmap.c do, and how they undo `bitmap_alloc`.
use risc.Common.{
  ℕ, suc, ◌+◌, ◌/◌, ◌%◌, ◌<◌, ◌≤◌, ◌≡◌, ◌∙◌, sym, ap, refl, ◌≢◌, inl, inr, true, false, List, arith,
  ◌==◌, ==_iff, ltb, if◌then◌else◌, length, Bool-cases, pos,
}
use risc.Bitmap.{
  Bitmap, Word, write_bit, test_bit, bitmap_alloc, free_at, bitmap_free, bitmap_is_free,
}
use risc.Bitmap.Bits.{
  Words-write_bit, length-write_bit, test_bit-write_bit_self, test_bit-write_bit_ne, clear_count,
  clear_count-set,
}
use risc.Bitmap.Invariant.{IsValid}
use risc.Bitmap.Alloc.{Allocated, Allocates, bitmap_alloc-Allocates}

-- `bmp'` is `bmp` with bit `i` given back
pub record Freed (bmp : Bitmap) (i : ℕ) (bmp' : Bitmap) : Type 0 where
  pub valid : IsValid bmp'
  pub now_clear : test_bit bmp'.map i ≡ false
  pub others : (j : ℕ) → i ≢ j → test_bit bmp'.map j ≡ test_bit bmp.map j
  pub unused : bmp'.unused ≡ (if test_bit bmp.map i then suc bmp.unused else bmp.unused)
  pub size : bmp'.size ≡ bmp.size
  pub start : bmp'.allocation ≡ (if ltb i bmp.allocation then i else bmp.allocation)

module _ {bmp : Bitmap} (v : IsValid bmp) (i : ℕ) (lt : i < bmp.size) where
  room_at : i / 64 < length bmp.map
  room_at = omega (arith, v.room)

  cleared : List Word
  cleared = write_bit bmp.map (i / 64) (i % 64) false

  cleared_self : test_bit cleared i ≡ false
  unfolding cleared
  cleared_self = test_bit-write_bit_self bmp.map i false v.words room_at

  cleared-ne : (j : ℕ) → i ≢ j → test_bit cleared j ≡ test_bit bmp.map j
  unfolding cleared
  cleared-ne j ne = test_bit-write_bit_ne bmp.map i j false v.words room_at ne

  min_start :
      (j : ℕ)
      → j < (if ltb i bmp.allocation then i else bmp.allocation)
      → (j < bmp.allocation) × (i ≢ j)
  min_start j h = (ground arith, ground arith)

  one_more : test_bit bmp.map i ≡ true → bmp.unused + 1 ≡ clear_count cleared bmp.size
  one_more e =
      omega
        (arith, v.counted, clear_count-set cleared bmp.map i bmp.size lt cleared_self e cleared-ne)

  start_low : (if ltb i bmp.allocation then i else bmp.allocation) ≤ bmp.size
  start_low = ground (arith, v.low)

  free_at-Freed : Freed bmp i (free_at bmp i)
  unfolding free_at cleared
  free_at-Freed = elim (Bool-cases (test_bit bmp.map i)) [
    | inl e ↦ rw e (record {
      valid = record {
        words = Words-write_bit bmp.map (i / 64) (i % 64) false v.words room_at;
        room = omega (arith, v.room, length-write_bit bmp.map (i / 64) (i % 64) false);
        counted = one_more e;
        low = start_low;
        below_set = λ j h. cleared-ne j (min_start j h).1 ∙ v.below_set j (min_start j h).0;
      };
      now_clear = cleared_self;
      others = cleared-ne;
      unused = rw e (omega arith);
      size = refl;
      start = refl;
    })
    | inr e ↦ rw e (record {
      valid = record {
        words = v.words;
        room = v.room;
        counted = v.counted;
        low = start_low;
        below_set = λ j h. v.below_set j (min_start j h).0;
      };
      now_clear = e;
      others = λ j ne. refl;
      unused = rw e;
      size = refl;
      start = refl;
    })
  ]

  bitmap_free-in_range : bitmap_free bmp (pos i) ≡ free_at bmp i
  unfolding bitmap_free
  bitmap_free-in_range = ground arith

  -- Freeing a bit in range of a well-formed map clears it and nothing else, moves the search start
  -- down to it, keeps the map well formed, and counts it unless it was free already.
  pub bitmap_free-Freed : Freed bmp i (bitmap_free bmp (pos i))
  bitmap_free-Freed = rw bitmap_free-in_range free_at-Freed

  -- `bitmap_is_free` answers by the bit, and says "free" after `bitmap_free`.
  pub bitmap_is_free-bitmap_free :
      (bitmap_is_free bmp (pos i) ≡ (if test_bit bmp.map i then pos 0 else pos 1))
      × (bitmap_is_free (bitmap_free bmp (pos i)) (pos i) ≡ pos 1)
  bitmap_is_free-bitmap_free =
      let f : Freed bmp i (bitmap_free bmp (pos i)) = bitmap_free-Freed in
      unfold bitmap_is_free in (ground arith, ground (arith, f.now_clear, f.size))

-- two lists of bits that agree have the same first clear bit
same_first :
    (us vs : List Word) (r s : ℕ)
    → ((j : ℕ) → test_bit us j ≡ test_bit vs j)
    → test_bit us r ≡ false
    → ((j : ℕ) → j < r → test_bit us j ≡ true)
    → test_bit vs s ≡ false
    → ((j : ℕ) → j < s → test_bit vs j ≡ true)
    → s ≡ r
same_first us vs r s same a f b g = elim (Bool-cases (ltb r s)) [
  | inl e ↦ absurd (ground (arith, g r, same r))
  | inr e ↦ elim (Bool-cases (ltb s r)) [
    | inl e' ↦ absurd (ground (arith, f s, same s))
    | inr e' ↦ ground arith
  ]
]

pub restored :
    {bmp bmp1 bmp2 : Bitmap} {r : ℕ}
    → Allocated bmp r bmp1
    → Freed bmp1 r bmp2
    → (j : ℕ) → test_bit bmp2.map j ≡ test_bit bmp.map j
restored {bmp} {bmp1} {bmp2} {r} a f j = elim (Bool-cases (r == j)) [
  | inl e ↦ rw (← (==_iff r j).0 e) (f.now_clear ∙ sym a.was_clear)
  | inr e ↦ f.others j (ground arith) ∙ sym (a.others j (ground arith))
]

-- Freeing what `bitmap_alloc` gave restores every bit and the count of free ones, and the next
-- `bitmap_alloc` gives the same bit again.
pub bitmap_free-bitmap_alloc :
    {bmp : Bitmap}
    → IsValid bmp
    → bmp.unused ≢ 0
    → let (index, bmp1) = bitmap_alloc bmp in
      let bmp2 = bitmap_free bmp1 index in
      ((j : ℕ) → test_bit bmp2.map j ≡ test_bit bmp.map j)
      × (bmp2.unused ≡ bmp.unused)
      × IsValid bmp2
      × ((bitmap_alloc bmp2).0 ≡ index)
bitmap_free-bitmap_alloc {bmp} v some_left =
    let a : Allocates bmp (bitmap_alloc bmp) = bitmap_alloc-Allocates v some_left in
    let r : ℕ = a.index in
    let bmp1 : Bitmap = (bitmap_alloc bmp).1 in
    let bmp2 : Bitmap = bitmap_free bmp1 (pos r) in
    let f : Freed bmp1 r bmp2 =
      bitmap_free-Freed a.state.valid r (omega (arith, a.state.in_range, a.state.size)) in
    let same : (j : ℕ) → test_bit bmp2.map j ≡ test_bit bmp.map j = restored a.state f in
    let count : bmp2.unused ≡ bmp.unused =
      ground (arith, f.unused, a.state.now_set, a.state.fewer) in
    let b : Allocates bmp2 (bitmap_alloc bmp2) = bitmap_alloc-Allocates f.valid (omega arith) in
    let again : b.index ≡ r =
      same_first bmp.map bmp2.map r b.index (λ j. sym (same j)) a.state.was_clear a.state.first
        b.state.was_clear b.state.first in
    rw a.result (same, count, f.valid, b.result ∙ ap pos again)

-- ===== src/Bitmap/Alloc.antt =====
-- What `bitmap_alloc` of lib/bitmap.c does to a well-formed map.
use risc.Common.{
  ℕ, suc, ◌+◌, ◌-◌, ◌*◌, ◌/◌, ◌%◌, ◌<◌, ◌≤◌, ◌≡◌, ◌∙◌, sym, refl, ◌≢◌, ◌↔◌, inl, inr, true, false,
  Option, none, some, List, arith, ◌==◌, ==_iff, ltb, length, Bool-cases, ℤ, pos, minus_one,
}
use risc.Bitmap.{Bitmap, Word, scan, first_bit, take_bit, write_bit, test_bit, bitmap_alloc}
use risc.Bitmap.Bits.{
  Words, Words-write_bit, length-write_bit, test_bit-write_bit_self, test_bit-write_bit_ne,
  clear_count, clear_count-set, clear_count-ones,
}
use risc.Bitmap.Scan.{Scanned, nothing, found, scan-Scanned}
use risc.Bitmap.Invariant.{IsValid}

-- `bmp'` is `bmp` with the bit `r`, the first clear one, given away
pub record Allocated (bmp : Bitmap) (r : ℕ) (bmp' : Bitmap) : Type 0 where
  pub valid : IsValid bmp'
  pub in_range : r < bmp.size
  pub was_clear : test_bit bmp.map r ≡ false
  pub first : (j : ℕ) → j < r → test_bit bmp.map j ≡ true
  pub now_set : test_bit bmp'.map r ≡ true
  pub others : (j : ℕ) → r ≢ j → test_bit bmp.map j ≡ test_bit bmp'.map j
  pub fewer : bmp.unused ≡ suc bmp'.unused
  pub size : bmp'.size ≡ bmp.size
  pub next : bmp'.allocation ≡ r + 1

module _ {bmp : Bitmap} (v : IsValid bmp) (k b : ℕ) (hb : b < 64) (lt : k * 64 + b < bmp.size)
    (clear : test_bit bmp.map (k * 64 + b) ≡ false)
    (first : (j : ℕ) → j < k * 64 + b → test_bit bmp.map j ≡ true) where
  block : (k * 64 + b) / 64 ≡ k
  block = omega arith

  offset : (k * 64 + b) % 64 ≡ b
  offset = omega arith

  in_room : (k * 64 + b) / 64 < length bmp.map
  in_room = omega (arith, v.room)

  after : List Word
  after = write_bit bmp.map k b true

  after_self : test_bit after (k * 64 + b) ≡ true
  unfolding after
  after_self =
      rw (block, offset) at (test_bit-write_bit_self bmp.map (k * 64 + b) true v.words in_room)

  after-ne : (j : ℕ) → k * 64 + b ≢ j → test_bit after j ≡ test_bit bmp.map j
  unfolding after
  after-ne j ne =
      rw (block, offset) at (test_bit-write_bit_ne bmp.map (k * 64 + b) j true v.words in_room ne)

  after-Words : Words after
  unfolding after
  after-Words = Words-write_bit bmp.map k b true v.words (omega (arith, in_room))

  length-after : length after ≡ length bmp.map
  unfolding after
  length-after = length-write_bit bmp.map k b true

  counted : clear_count bmp.map bmp.size ≡ suc (clear_count after bmp.size)
  counted =
      clear_count-set bmp.map after (k * 64 + b) bmp.size lt clear after_self
        λ j ne. sym (after-ne j ne)

  below : (j : ℕ) → j < k * 64 + b + 1 → test_bit after j ≡ true
  below j h = elim (Bool-cases (k * 64 + b == j)) [
    | inl e ↦ rw ((==_iff (k * 64 + b) j).0 e) at after_self
    | inr e ↦ after-ne j (ground arith) ∙ first j (ground arith)
  ]

  given : Bitmap
  given = record bmp { map = after; unused = bmp.unused - 1; allocation = k * 64 + b + 1 }

  given-IsValid : IsValid given
  unfolding given
  given-IsValid = record {
    words = after-Words;
    room = omega (arith, v.room, length-after);
    counted = omega (arith, v.counted, counted);
    low = omega arith;
    below_set = below;
  }

  take_bit-given : take_bit bmp k b ≡ (pos (k * 64 + b), given)
  unfolding take_bit after given
  take_bit-given = ground arith

  given-Allocated : Allocated bmp (k * 64 + b) given
  unfolding given
  given-Allocated = record {
    valid = unfold given in given-IsValid;
    in_range = lt;
    was_clear = clear;
    first = first;
    now_set = after_self;
    others = λ j ne. sym (after-ne j ne);
    fewer = omega (arith, v.counted, counted);
    size = refl;
    next = refl;
  }

-- what `bitmap_alloc` answers while something is free
pub record Allocates (bmp : Bitmap) (out : ℤ × Bitmap) : Type 0 where
  pub index : ℕ
  pub result : out.0 ≡ pos index
  pub state : Allocated bmp index out.1

unused_pos : {bmp : Bitmap} → IsValid bmp → bmp.unused ≢ 0 → clear_count bmp.map bmp.size ≢ 0
unused_pos v h e = h (v.counted ∙ e)

module _ {bmp : Bitmap} (v : IsValid bmp) (some_left : bmp.unused ≢ 0) where
  below_all :
      (total : ℕ)
      → (bmp.size + 63) / 64 ≡ total
      → ((j : ℕ) → bmp.allocation ≤ j → j < total * 64 → test_bit bmp.map j ≡ true)
      → (j : ℕ) → j < bmp.size
      → test_bit bmp.map j ≡ true
  below_all total e h j lt = elim (Bool-cases (ltb j bmp.allocation)) [
    | inl q ↦ v.below_set j (ground arith)
    | inr q ↦ h j (ground arith) (omega arith)
  ]

  first_below :
      (r : ℕ)
      → ((j : ℕ) → bmp.allocation ≤ j → j < r → test_bit bmp.map j ≡ true)
      → (j : ℕ) → j < r
      → test_bit bmp.map j ≡ true
  first_below r h j lt = elim (Bool-cases (ltb j bmp.allocation)) [
    | inl q ↦ v.below_set j (ground arith)
    | inr q ↦ h j (ground arith) lt
  ]

  -- were the first clear bit past the end, nothing below the end would be clear
  hit_in_range : (r : ℕ) → ((j : ℕ) → j < r → test_bit bmp.map j ≡ true) → r < bmp.size
  hit_in_range r h = elim (Bool-cases (ltb r bmp.size)) [
    | inl q ↦ ground arith
    | inr q ↦
        absurd
          (unused_pos v some_left (clear_count-ones bmp.map bmp.size λ j lt. h j (ground arith)))
  ]

  finish :
      (total : ℕ) (o : Option (ℕ × ℕ))
      → (bmp.size + 63) / 64 ≡ total
      → Scanned bmp.map bmp.allocation total o
      → Allocates bmp (elim o [ none ↦ (minus_one, bmp) | some (i, bit) ↦ take_bit bmp i bit ])
  finish total o e (nothing h) =
      absurd (unused_pos v some_left (clear_count-ones bmp.map bmp.size (below_all total e h)))
  finish total o e (found k b hb hk lo clear before) =
      let first = first_below (k * 64 + b) before in
      let lt = hit_in_range (k * 64 + b) first in
      rw (take_bit-given v k b hb lt clear first) (record {
        index = k * 64 + b;
        result = refl;
        state = given-Allocated v k b hb lt clear first;
      })

  from :
      bmp.allocation / 64 * 64
        + first_bit (bmp.allocation / 64) (bmp.allocation % 64) (bmp.allocation / 64)
      ≡ bmp.allocation
  unfolding first_bit
  from = ground arith

  -- While something is free, `bitmap_alloc` returns the lowest clear bit, which is in range, sets
  -- it and nothing else, counts it, and leaves the map well formed.
  pub bitmap_alloc-Allocates : Allocates bmp (bitmap_alloc bmp)
  unfolding bitmap_alloc
  bitmap_alloc-Allocates =
      let start : ℕ = bmp.allocation / 64 in
      let total : ℕ = (bmp.size + 63) / 64 in
      let test : (bmp.unused == 0) ≡ false = ground arith in
      rw test (
        finish total (scan bmp.map start (bmp.allocation % 64) (total - start) start) refl (
          rw from at (
            scan-Scanned bmp.map start (bmp.allocation % 64) (total - start) start total v.words
              v.room (omega arith) (omega arith) (omega (arith, v.low)))))

-- `bitmap_alloc` fails, and changes nothing, exactly when nothing is free.
pub bitmap_alloc_fails :
    {bmp : Bitmap}
    → IsValid bmp
    → (bitmap_alloc bmp ≡ (minus_one, bmp)) ↔ (clear_count bmp.map bmp.size ≡ 0)
bitmap_alloc_fails {bmp} v = elim (Bool-cases (bmp.unused == 0)) [
  | inl e ↦
      ((λ q. omega (arith, v.counted, (==_iff bmp.unused 0).0 e)), λ q. unfold bitmap_alloc in rw e)
  | inr e ↦
      let a : Allocates bmp (bitmap_alloc bmp) = bitmap_alloc-Allocates v (ground arith) in
      (
        (λ q. absurd (ground (arith, a.result))),
        λ q. absurd (omega (arith, v.counted, a.state.fewer)),
      )
]

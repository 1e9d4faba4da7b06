-- ===== src/Bitmap/Scan.antt =====
-- The two search loops of `bitmap_alloc`: the first clear bit from a start on.
use risc.Common.{
  ℕ, zero, suc, ◌+◌, ◌-◌, ◌*◌, ◌/◌, ◌%◌, ◌<◌, ◌≤◌, ◌≡◌, ◌∙◌, refl, inl, inr, Bool, true, false,
  Option, none, some, List, [], ◌∷◌, arith, ◌==◌, ==_iff, get_or, length, Bool-cases, Option-cases,
  ltb, ltb→lt,
}
use risc.Bitmap.{Word, is_ones, find_zero, first_bit, scan, test_bit}
use risc.Bitmap.Bits.{Words, length-get_or}

is_ones-get_or : (w : Word) (b : ℕ) → is_ones w ≡ true → b < length w → get_or w b false ≡ true
unfolding is_ones
is_ones-get_or [] b h lt = absurd (omega arith)
is_ones-get_or (x ∷ w) zero h lt = ground arith
is_ones-get_or (x ∷ w) (suc b) h lt = ground (arith, is_ones-get_or w b)

-- `r` is the first clear bit of `w` in the `rounds` bits from `bit` on
record FirstZero (w : Word) (rounds bit r : ℕ) : Type 0 where
  low : bit ≤ r
  high : r < bit + rounds
  clear : get_or w r false ≡ false
  before : (j : ℕ) → bit ≤ j → j < r → get_or w j false ≡ true

find_zero-some :
    (rounds bit : ℕ) (w : Word) (r : ℕ) → find_zero rounds bit w ≡ some r → FirstZero w rounds bit r
unfolding find_zero
find_zero-some zero bit w r h = absurd (cc)
find_zero-some (suc n) bit w r h = elim (Bool-cases (get_or w bit false)) [
  | inl e ↦
      let ih : FirstZero w n (bit + 1) r = find_zero-some n (bit + 1) w r (ground arith) in
      record {
        low = omega (arith, ih.low);
        high = omega (arith, ih.high);
        clear = ih.clear;
        before = λ j a b. elim (Bool-cases (bit == j)) [
          | inl q ↦ let q' : bit ≡ j = (==_iff bit j).0 q in ground arith
          | inr q ↦ ih.before j (ground arith) b
        ];
      }
  | inr e ↦
      let q : bit ≡ r = ground arith in
      record {
        low = omega arith;
        high = omega arith;
        clear = ground arith;
        before = λ j a b. absurd (omega arith);
      }
]

find_zero-none :
    (rounds bit : ℕ) (w : Word)
    → find_zero rounds bit w ≡ none
    → (j : ℕ) → bit ≤ j
    → j < bit + rounds
    → get_or w j false ≡ true
unfolding find_zero
find_zero-none zero bit w h j a b = absurd (omega arith)
find_zero-none (suc n) bit w h j a b = elim (Bool-cases (get_or w bit false)) [
  | inl e ↦ elim (Bool-cases (bit == j)) [
    | inl q ↦ let q' : bit ≡ j = (==_iff bit j).0 q in ground arith
    | inr q ↦ find_zero-none n (bit + 1) w (ground arith) j (ground arith) (ground arith)
  ]
  | inr e ↦ absurd (ground arith)
]

-- The search of one block: all its bits from `s` on are set, or a first clear one is found.
data BlockScan (map : List Word) (i s : ℕ) : Option ℕ → Type 0 where
  full :
      ((j : ℕ) → i * 64 + s ≤ j → j < i * 64 + 64 → test_bit map j ≡ true) → BlockScan map i s none
  hit :
      (b : ℕ)
      → b < 64
      → test_bit map (i * 64 + b) ≡ false
      → i * 64 + s ≤ i * 64 + b
      → ((j : ℕ) → i * 64 + s ≤ j → j < i * 64 + b → test_bit map j ≡ true)
      → BlockScan map i s (some b)

test_bit_in :
    (map : List Word) (i b : ℕ)
    → b < 64
    → test_bit map (i * 64 + b) ≡ get_or (get_or map i []) b false
unfolding test_bit
test_bit_in map i b h =
    let q : (i * 64 + b) / 64 ≡ i = omega arith in
    let r : (i * 64 + b) % 64 ≡ b = omega arith in rw (q, r)

test_bit_of :
    (map : List Word) (i j : ℕ) (v : Bool)
    → i * 64 ≤ j
    → j < i * 64 + 64
    → get_or (get_or map i []) (j - i * 64) false ≡ v
    → test_bit map j ≡ v
test_bit_of map i j v lo hi h =
    let q : i * 64 + (j - i * 64) ≡ j = omega arith in
    rw q at (test_bit_in map i (j - i * 64) (omega arith) ∙ h)

abbrev block_scan : List Word → ℕ → ℕ → Option ℕ
block_scan map i s = elim (is_ones (get_or map i [])) [
  | true ↦ none
  | false ↦ find_zero (64 - s) s (get_or map i [])
]

block_scan-BlockScan :
    (map : List Word) (i s : ℕ)
    → Words map
    → i < length map
    → s < 64
    → BlockScan map i s (block_scan map i s)
block_scan-BlockScan map i s h lt hs = elim (Bool-cases (is_ones w)) [
  | inl e ↦
      rw (e, block_scan)
        (full λ j a b.
          test_bit_of map i j true (omega arith) b
            (is_ones-get_or w (j - i * 64) e (omega (arith, length-get_or map i h lt))))
  | inr e ↦
      rw (e, block_scan)
        (elim (Option-cases (find_zero (64 - s) s w)) [
          | inl q ↦ rw q (
              full λ j a b.
                test_bit_of map i j true (omega arith) b
                  (find_zero-none (64 - s) s w q (j - i * 64) (omega arith) (omega arith)))
          | inr (b, q) ↦
              let z : FirstZero w (64 - s) s b = find_zero-some (64 - s) s w b q in
              rw q (
                hit b (omega (arith, z.high))
                  (test_bit_in map i b (omega (arith, z.high)) ∙ z.clear) (omega (arith, z.low))
                  λ j x y.
                    test_bit_of map i j true (omega arith) (omega (arith, z.high))
                      (z.before (j - i * 64) (omega arith) (omega arith)))
        ])
]
  where
    w : Word
    w = get_or map i []

-- the answer of the whole search from bit `from`, over `total` blocks
pub data Scanned (map : List Word) (from total : ℕ) : Option (ℕ × ℕ) → Type 0 where
  nothing :
      ((j : ℕ) → from ≤ j → j < total * 64 → test_bit map j ≡ true) → Scanned map from total none
  found :
      (k b : ℕ)
      → b < 64
      → k < total
      → from ≤ k * 64 + b
      → test_bit map (k * 64 + b) ≡ false
      → ((j : ℕ) → from ≤ j → j < k * 64 + b → test_bit map j ≡ true)
      → Scanned map from total (some (k, b))

module _ (map : List Word) (start_block start_bit : ℕ) where
  scan-step :
      (n i : ℕ) (o : Option ℕ)
      → block_scan map i (first_bit start_block start_bit i) ≡ o
      → scan map start_block start_bit (suc n) i
        ≡ elim o [ some b ↦ some (i, b) | none ↦ scan map start_block start_bit n (i + 1) ]
  unfolding scan
  scan-step n i o e = ground arith

  scan-join :
      (i total : ℕ) (s : ℕ) (o : Option ℕ) (rest : Option (ℕ × ℕ))
      → i < total
      → s < 64
      → BlockScan map i s o
      → Scanned map ((i + 1) * 64) total rest
      → Scanned map (i * 64 + s) total (elim o [ some b ↦ some (i, b) | none ↦ rest ])
  scan-join i total s none rest lt hs (full f) (nothing g) = nothing λ j a b.
      elim (Bool-cases (ltb j (i * 64 + 64))) [
        | inl q ↦ f j a (ltb→lt j (i * 64 + 64) q)
        | inr q ↦ g j (ground arith) b
      ]
  scan-join i total s none rest lt hs (full f) (found k b hb hk lo clear before) =
      found k b hb hk (omega arith) clear λ j x y. elim (Bool-cases (ltb j (i * 64 + 64))) [
        | inl q ↦ f j x (ltb→lt j (i * 64 + 64) q)
        | inr q ↦ before j (ground arith) y
      ]
  scan-join i total s o rest lt hs (hit b hb clear lo before) r = found i b hb lt lo clear before

  scan-done : (i : ℕ) → scan map start_block start_bit zero i ≡ none
  unfolding scan
  scan-done i = refl

  first_bit-lt : (i : ℕ) → start_bit < 64 → first_bit start_block start_bit i < 64
  unfolding first_bit
  first_bit-lt i h = ground arith

  first_bit-past :
      (i : ℕ)
      → start_block ≤ i
      → (i + 1) * 64 + first_bit start_block start_bit (i + 1) ≡ (i + 1) * 64
  unfolding first_bit
  first_bit-past i h = ground arith

  pub scan-Scanned :
      (n i total : ℕ)
      → Words map
      → total ≤ length map
      → start_bit < 64
      → start_block ≤ i
      → i + n ≡ total
      → Scanned map
          (i * 64 + first_bit start_block start_bit i)
          total
          (scan map start_block start_bit n i)
  scan-Scanned zero i total h len hs le e = rw (scan-done i) (nothing λ j a b. absurd (omega arith))
  scan-Scanned (suc n) i total h len hs le e =
      let s : ℕ = first_bit start_block start_bit i in
      let o : Option ℕ = block_scan map i s in
      rw (scan-step n i o refl) (
        scan-join i total s o (scan map start_block start_bit n (i + 1)) (omega arith)
          (first_bit-lt i hs) (block_scan-BlockScan map i s h (omega arith) (first_bit-lt i hs))
          (rw (first_bit-past i le) at
            (scan-Scanned n (i + 1) total h len hs (omega arith) (omega arith))))

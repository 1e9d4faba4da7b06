-- ===== src/Bitmap/Bits.antt =====
-- The bits of the words of lib/bitmap.c as one sequence, and how many of them are clear.
use risc.Common.{
  ℕ, zero, suc, ◌+◌, ◌/◌, ◌%◌, ◌<◌, ◌≤◌, ◌≡◌, refl, ◌≢◌, inl, inr, Bool, true, false, List, [], ◌∷◌,
  arith, ◌==◌, ==_iff, if◌then◌else◌, get_or, set, length, get_or-set_self, get_or-set_ne,
  length-set, Bool-cases,
}
use risc.Bitmap.{Word, write_bit, test_bit}

-- every word has 64 bits
abbrev pub Words : List Word → Type 0
Words [] = Unit
Words (w ∷ ws) = (length w ≡ 64) × Words ws

pub length-get_or :
    (ws : List Word) (i : ℕ) → Words ws → i < length ws → length (get_or ws i []) ≡ 64
length-get_or [] i h lt = absurd (omega arith)
length-get_or (w ∷ ws) zero h lt = h.0
length-get_or (w ∷ ws) (suc i) h lt = length-get_or ws i h.1 (omega arith)

Words-set : (ws : List Word) (i : ℕ) (w : Word) → Words ws → length w ≡ 64 → Words (set ws i w)
Words-set [] i w h e = h
Words-set (v ∷ ws) zero w h e = (e, h.1)
Words-set (v ∷ ws) (suc i) w h e = (h.0, Words-set ws i w h.1 e)

pub Words-write_bit :
    (ws : List Word) (i bit : ℕ) (v : Bool)
    → Words ws
    → i < length ws
    → Words (write_bit ws i bit v)
unfolding write_bit
Words-write_bit ws i bit v h lt =
    Words-set ws i (set (get_or ws i []) bit v) h
      (omega (arith, length-set (get_or ws i []) bit v, length-get_or ws i h lt))

pub length-write_bit :
    (ws : List Word) (i bit : ℕ) (v : Bool) → length (write_bit ws i bit v) ≡ length ws
unfolding write_bit
length-write_bit ws i bit v = length-set ws i (set (get_or ws i []) bit v)

pub test_bit-write_bit_self :
    (ws : List Word) (j : ℕ) (v : Bool)
    → Words ws
    → j / 64 < length ws
    → test_bit (write_bit ws (j / 64) (j % 64) v) j ≡ v
unfolding test_bit write_bit
test_bit-write_bit_self ws j v h lt =
    let w : Word = get_or ws (j / 64) [] in
    rw (get_or-set_self ws (j / 64) (set w (j % 64) v) [] lt)
      (get_or-set_self w (j % 64) v false (omega (arith, length-get_or ws (j / 64) h lt)))

pub test_bit-write_bit_ne :
    (ws : List Word) (i j : ℕ) (v : Bool)
    → Words ws
    → i / 64 < length ws
    → i ≢ j
    → test_bit (write_bit ws (i / 64) (i % 64) v) j ≡ test_bit ws j
unfolding test_bit write_bit
test_bit-write_bit_ne ws i j v h lt ne = ground (
  arith,
  get_or-set_self ws (i / 64) (set (get_or ws (i / 64) []) (i % 64) v) [],
  get_or-set_ne ws (i / 64) (j / 64) (set (get_or ws (i / 64) []) (i % 64) v) [],
  get_or-set_ne (get_or ws (i / 64) []) (i % 64) (j % 64) v false,
)

-- how many of the bits below `n` are clear
unfoldable pub clear_count : List Word → ℕ → ℕ
clear_count ws zero = 0
clear_count ws (suc n) = clear_count ws n + (if test_bit ws n then 0 else 1)

pub clear_count-same :
    (ws vs : List Word) (n : ℕ)
    → ((j : ℕ) → j < n → test_bit ws j ≡ test_bit vs j)
    → clear_count ws n ≡ clear_count vs n
unfolding clear_count
clear_count-same ws vs zero h = refl
clear_count-same ws vs (suc n) h =
    rw (clear_count-same ws vs n (λ j lt. h j (omega arith)), h n (omega arith))

-- `vs` has bit `r` set and is `ws` elsewhere
pub clear_count-set :
    (ws vs : List Word) (r n : ℕ)
    → r < n
    → test_bit ws r ≡ false
    → test_bit vs r ≡ true
    → ((j : ℕ) → r ≢ j → test_bit ws j ≡ test_bit vs j)
    → clear_count ws n ≡ suc (clear_count vs n)
unfolding clear_count
clear_count-set ws vs r zero lt a b same = absurd (omega arith)
clear_count-set ws vs r (suc n) lt a b same = elim (Bool-cases (r == n)) [
  | inl e ↦
      let q : r ≡ n = (==_iff r n).0 e in
      ground (arith, clear_count-same ws vs n λ j lt. same j (omega arith))
  | inr ne ↦ ground (arith, clear_count-set ws vs r n (ground arith) a b same, same n)
]

pub clear_count-le : (ws : List Word) (n : ℕ) → clear_count ws n ≤ n
unfolding clear_count
clear_count-le ws zero = omega arith
clear_count-le ws (suc n) = ground (arith, clear_count-le ws n)

pub clear_count-ones :
    (ws : List Word) (n : ℕ) → ((j : ℕ) → j < n → test_bit ws j ≡ true) → clear_count ws n ≡ 0
unfolding clear_count
clear_count-ones ws zero h = refl
clear_count-ones ws (suc n) h =
    rw (h n (omega arith)) (omega (arith, clear_count-ones ws n λ j lt. h j (omega arith)))

pub clear_count-clear :
    (ws : List Word) (n : ℕ) → ((j : ℕ) → j < n → test_bit ws j ≡ false) → clear_count ws n ≡ n
unfolding clear_count
clear_count-clear ws zero h = refl
clear_count-clear ws (suc n) h =
    rw (h n (omega arith)) (omega (arith, clear_count-clear ws n λ j lt. h j (omega arith)))

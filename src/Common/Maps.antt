-- ===== src/Common/Maps.antt =====
-- Partial results with `do`, arrays as functions, and prefixes of lists over the native numbers.
use Prim.Native.Nat.{ℕ, zero, suc, ◌+◌, ◌-◌, ◌≤◌, ◌<◌}
use mathlib.Core.Path.{◌≡◌, refl, ap, ◌∙◌}
use mathlib.Core.Logic.{◌⊎◌, inl, inr}
use mathlib.Core.Bool.{Bool, true, false}
use mathlib.Core.Option.{Option, none, some}
use mathlib.Core.List.{List, [], ◌∷◌, ◌++◌}
use native.Mathlib.Omega.{arith}
use risc.Common.Tests.{ltb, ◌==◌, if◌then◌else◌}
use risc.Common.Lists.{length, get_or}

infixl 5 ◌>>=◌ ◌>>◌
abbrev pub ◌>>=◌ {ℓ κ} : {A : Type ℓ} {B : Type κ} → Option A → (A → Option B) → Option B
none >>= f = none
some a >>= f = f a

abbrev pub ◌>>◌ {ℓ} : {B : Type ℓ} → Option (Unit {0}) → Option B → Option B
m >> k = m >>= λ _. k

-- `assert` and `panic`: without `b` the kernel stops
abbrev pub guard : Bool → Option (Unit {0})
guard true = some tt
guard false = none

abbrev pub update {ℓ} : {A : Type ℓ} → (ℕ → A) → ℕ → A → ℕ → A
update f i v j = if j == i then v else f j

module _ {ℓ} {A : Type ℓ} where
  abbrev pub take : ℕ → List A → List A
  take n [] = []
  take zero (x ∷ xs) = []
  take (suc n) (x ∷ xs) = x ∷ take n xs

  abbrev pub drop : ℕ → List A → List A
  drop n [] = []
  drop zero (x ∷ xs) = x ∷ xs
  drop (suc n) (x ∷ xs) = drop n xs

module _ {ℓ} {A : Type ℓ} where
  pub length-drop : (n : ℕ) (xs : List A) → length (drop n xs) ≡ length xs - n
  length-drop n [] = omega arith
  length-drop zero (x ∷ xs) = omega arith
  length-drop (suc n) (x ∷ xs) = omega (arith, length-drop n xs)

  pub take_short : (n : ℕ) (xs : List A) → n ≤ length xs → length (take n xs) ≡ n
  take_short n [] h = omega arith
  take_short zero (x ∷ xs) h = omega arith
  take_short (suc n) (x ∷ xs) h = omega (arith, take_short n xs (omega arith))

  pub take_all : (n : ℕ) (xs : List A) → length xs ≤ n → take n xs ≡ xs
  take_all n [] h = refl
  take_all zero (x ∷ xs) h = absurd (omega arith)
  take_all (suc n) (x ∷ xs) h = ap (λ ys. x ∷ ys) (take_all n xs (omega arith))

  pub drop_all : (n : ℕ) (xs : List A) → length xs ≤ n → drop n xs ≡ []
  drop_all n [] h = refl
  drop_all zero (x ∷ xs) h = absurd (omega arith)
  drop_all (suc n) (x ∷ xs) h = drop_all n xs (omega arith)

  pub drop_zero : (xs : List A) → drop 0 xs ≡ xs
  drop_zero [] = refl
  drop_zero (x ∷ xs) = refl

  pub take_zero : (xs : List A) → take 0 xs ≡ []
  take_zero [] = refl
  take_zero (x ∷ xs) = refl

  pub drop-drop : (m n : ℕ) (xs : List A) → drop n (drop m xs) ≡ drop (m + n) xs
  drop-drop m n [] = refl
  drop-drop zero n (x ∷ xs) = ground arith
  drop-drop (suc m) n (x ∷ xs) = ground (arith, drop-drop m n xs)

  -- A long prefix is a short one and what follows it.
  pub take-append-take : (m n : ℕ) (xs : List A) → take m xs ++ take n (drop m xs) ≡ take (m + n) xs
  take-append-take m n [] = refl
  take-append-take zero n (x ∷ xs) = ground arith
  take-append-take (suc m) n (x ∷ xs) = ground (arith, take-append-take m n xs)

  -- Reading `n` elements is reading a chunk of at most `m`, and then what is missing.
  pub take-take-drop :
      (m n : ℕ) (xs : List A)
      → m ≤ n
      → take m xs ++ take (n - length (take m xs)) (drop (length (take m xs)) xs) ≡ take n xs
  take-take-drop m n [] h = refl
  take-take-drop zero n (x ∷ xs) h = ground arith
  take-take-drop (suc m) zero (x ∷ xs) h = absurd (omega arith)
  take-take-drop (suc m) (suc n) (x ∷ xs) h = ground (arith, take-take-drop m n xs (omega arith))

  pub length-take : (n : ℕ) (xs : List A) → length (take n xs) ≤ length xs
  length-take n [] = omega arith
  length-take zero (x ∷ xs) = omega arith
  length-take (suc n) (x ∷ xs) = omega (arith, length-take n xs)

  pub take_nil : (n : ℕ) (xs : List A) → 0 < n → take n xs ≡ [] → xs ≡ []
  take_nil n [] lt h = refl
  take_nil zero (x ∷ xs) lt h = absurd (omega arith)
  take_nil (suc n) (x ∷ xs) lt h = absurd (cc)

  pub List-cases : (xs : List A) → (xs ≡ []) ⊎ ((y : A) × (ys : List A) × (xs ≡ y ∷ ys))
  List-cases [] = inl refl
  List-cases (x ∷ xs) = inr (x, xs, refl)

module _ {ℓ} {A : Type ℓ} where
  pub get_or-append :
      (xs ys : List A) (i : ℕ) (d : A)
      → get_or (xs ++ ys) i d
        ≡ (if ltb i (length xs) then get_or xs i d else get_or ys (i - length xs) d)
  get_or-append [] ys i d = ground arith
  get_or-append (x ∷ xs) ys zero d = ground arith
  get_or-append (x ∷ xs) ys (suc i) d = ground (arith, get_or-append xs ys i d)

  pub get_or-take :
      (n : ℕ) (xs : List A) (i : ℕ) (d : A)
      → get_or (take n xs) i d ≡ (if ltb i n then get_or xs i d else d)
  get_or-take n [] i d = ground arith
  get_or-take zero (x ∷ xs) i d = ground arith
  get_or-take (suc n) (x ∷ xs) zero d = ground arith
  get_or-take (suc n) (x ∷ xs) (suc i) d = ground (arith, get_or-take n xs i d)

  pub get_or-drop :
      (n : ℕ) (xs : List A) (i : ℕ) (d : A) → get_or (drop n xs) i d ≡ get_or xs (n + i) d
  get_or-drop n [] i d = refl
  get_or-drop zero (x ∷ xs) i d = ground arith
  get_or-drop (suc n) (x ∷ xs) i d = ground (arith, get_or-drop n xs i d)

  pub get_or_ext :
      (xs ys : List A) (d : A)
      → length xs ≡ length ys
      → ((j : ℕ) → j < length xs → get_or xs j d ≡ get_or ys j d)
      → xs ≡ ys
  get_or_ext [] [] d size same = refl
  get_or_ext [] (y ∷ ys) d size same = absurd (omega (arith, size))
  get_or_ext (x ∷ xs) [] d size same = absurd (omega (arith, size))
  get_or_ext (x ∷ xs) (y ∷ ys) d size same =
      let head : x ≡ y = same 0 (omega arith) in
      let tail =
        get_or_ext xs ys d (omega (arith, size))
          (λ j lt. ground (arith, same (suc j) (omega (arith, lt)))) in
      ap (λ z. z ∷ xs) head ∙ ap (λ l. y ∷ l) tail

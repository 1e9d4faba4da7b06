-- ===== src/Hash/Tests.antt =====
-- Runs of the hash tables of include/lib/hash.h.
use risc.Common.{ℕ, ◌+◌, ◌≡◌, ◌≢◌, some, none, [], ◌∷◌, arith, if◌then◌else◌, ◌==◌}
use risc.Hash.{HashTable, hash_find, find_in}
use risc.Hash.Find.{IsValid, Holds, hash_find-Holds}

-- the key of an entry is its address and 3
abbrev key_of : ℕ → ℕ
key_of e = e + 3

-- Entries at 2 and at 43, whose keys 5 and 46 share the chain 5.
abbrev two : HashTable
two = record { size = 41; count = 2; heads = λ b. if b == 5 then 43 ∷ 2 ∷ [] else [] }

two-IsValid : IsValid key_of two
two-IsValid = record { nonempty = omega arith; placed = λ b e lt. ground arith }

hash_find-Holds_example :
    ((e : ℕ) → hash_find two key_of 5 ≡ some e → (key_of e ≡ 5) × Holds key_of two e)
    × (hash_find two key_of 5 ≡ none → (e : ℕ) → Holds key_of two e → key_of e ≢ 5)
hash_find-Holds_example = hash_find-Holds key_of two 5

-- the entry at 2 is found behind that at 43
found : hash_find two key_of 5 ≡ some 2
unfolding hash_find find_in
found = λ i. some 2

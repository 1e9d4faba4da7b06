-- ===== src/Slab/Invariant.antt =====
-- The invariant of a cache of mm/slab.c.
use risc.Common.{ℕ, ◌+◌, ◌≤◌, ◌<◌, ◌≡◌, ◌≢◌, Bool, true, false, List, [], ◌∷◌, pos, length}
use risc.Slab.{Slab, Cache, is_in, is_slab_full, is_listed}
use risc.Slab.Stack.{items}

abbrev pub free_objects : Cache → ℕ → List ℕ
free_objects c s = items (c.slabs s).free_list

-- What holds of a slab of a cache of `count` objects per slab.
pub record IsSlab (count : ℕ) (slab : Slab) : Type 0 where
  pub counted : slab.inuse + length (items slab.free_list) ≡ count
  pub room : slab.free_list.max_size ≡ pos 256
  pub objects : (a : ℕ) → is_in a (items slab.free_list) ≡ true → a ≢ 0

abbrev pub Distinct : List ℕ → Type 0
Distinct [] = Unit
Distinct (s ∷ l) = (is_in s l ≡ false) × Distinct l

-- `own s` says that the slab at `s` is the cache's. A slab of a CPU is in no list; any other is in one,
-- that of the full ones just when it is full.
pub record IsValid (own : ℕ → Bool) (c : Cache) : Type 0 where
  pub count : (1 < c.count_per_slab) × (c.count_per_slab ≤ 256)
  pub slab : (s : ℕ) → own s ≡ true → IsSlab c.count_per_slab (c.slabs s)
  pub of_cpu : (cpu : ℕ) → own (c.cache_cpu cpu) ≡ true
  pub of_part : (s : ℕ) → is_in s c.part_slabs ≡ true → own s ≡ true
  pub of_full : (s : ℕ) → is_in s c.full_slabs ≡ true → own s ≡ true
  pub part : (s : ℕ) → is_in s c.part_slabs ≡ true → is_slab_full c s ≡ false
  pub full : (s : ℕ) → is_in s c.full_slabs ≡ true → is_slab_full c s ≡ true
  pub unlisted : (cpu : ℕ) → is_listed c (c.cache_cpu cpu) ≡ false
  pub listed : (s : ℕ) → own s ≡ true → ((cpu : ℕ) → c.cache_cpu cpu ≢ s) → is_listed c s ≡ true
  pub distinct_part : Distinct c.part_slabs
  pub distinct_full : Distinct c.full_slabs

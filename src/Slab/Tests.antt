-- ===== src/Slab/Tests.antt =====
-- Tests of the model of mm/slab.c.
use mathlib.Core.Path.{subst}
use risc.Common.{
  ℕ, ◌+◌, ◌*◌, ◌≡◌, refl, Bool, true, false, not, ◌&&◌, none, some, [], ◌∷◌, ◌==◌, if◌then◌else◌,
  pos, arith, Bool-cases, inl, inr,
}
use risc.Slab.{
  Slab, Cache, slab_create, push_objects, sstack_init, sstack_push, sstack_is_full,
  kmem_cache_alloc, kmem_cache_free, is_slab_full, calc_slab_order, calc_from,
}
use risc.Slab.Stack.{items}
use risc.Slab.Invariant.{IsSlab, IsValid}
use risc.Slab.Allocate.{Gets, kmem_cache_alloc-Gets}
use risc.Slab.Release.{Given}
use risc.Slab.Free.{kmem_cache_free-Given}
use risc.Slab.Start.{slab_create-IsSlab}

abbrev blank : ℕ → ℕ
blank i = 0

-- one object of four is in use
abbrev used : Slab
used = record {
  inuse = 1;
  free_list = record { cells = λ i. 4096 + i * 1024; top = 3; max_size = pos 256 };
}

used-IsSlab : IsSlab 4 used
used-IsSlab = record { counted = refl; room = refl; objects = λ a i. ground (arith, i) }

abbrev fresh : Slab
fresh = slab_create blank 8192 1024 4

-- the first object handed out is the last one pushed
last_first : items fresh.free_list ≡ 11264 ∷ 10240 ∷ 9216 ∷ 8192 ∷ []
unfolding slab_create push_objects sstack_init sstack_push sstack_is_full
last_first = refl

orders : (calc_slab_order 1024 ≡ 0) × (calc_slab_order 8192 ≡ 3)
unfolding calc_slab_order calc_from
orders = (refl, refl)

-- The slab at 1 serves the CPUs, that at 3 is full and in its list, and that at 5 has objects left.
abbrev spent : Slab
spent = record { inuse = 4; free_list = record { cells = λ i. 0; top = 0; max_size = pos 256 } }

spent-IsSlab : IsSlab 4 spent
spent-IsSlab = record { counted = refl; room = refl; objects = λ a i. absurd (ground (arith, i)) }

abbrev three_own : ℕ → Bool
three_own s = if s == 1 then true else if s == 3 then true else s == 5

abbrev three_slabs : Cache
three_slabs = record {
  slabs = λ s. if s == 3 then spent else used;
  cache_cpu = λ cpu. 1;
  count_per_slab = 4;
  part_slabs = 5 ∷ [];
  full_slabs = 3 ∷ [];
}

three_slabs-IsValid : IsValid three_own three_slabs
unfolding is_slab_full
three_slabs-IsValid = record {
  count = (omega arith, omega arith);
  slab = λ s o. elim (Bool-cases (s == 3)) [
    | inl e ↦ subst (IsSlab 4) (ground (arith, e)) spent-IsSlab
    | inr e ↦ subst (IsSlab 4) (ground (arith, e)) used-IsSlab
  ];
  of_cpu = λ cpu. refl;
  of_part = λ s i. ground (arith, i);
  of_full = λ s i. ground (arith, i);
  part = λ s i. ground (arith, i);
  full = λ s i. ground (arith, i);
  unlisted = λ cpu. refl;
  listed = λ s o d. ground (arith, o, d 0);
  distinct_part = (refl, tt);
  distinct_full = (refl, tt);
}

kmem_cache_alloc-Gets_example :
    let raced = not true && is_slab_full three_slabs 1 in
    (raced ≡ true → kmem_cache_alloc true three_slabs 0 2 fresh ≡ none)
    × (raced ≡ false
        → (obj : ℕ) × ((c' : Cache) × ((kmem_cache_alloc true three_slabs 0 2 fresh
                ≡ some (obj, c'))
              × Gets three_own three_slabs 2 fresh c' obj)))
kmem_cache_alloc-Gets_example =
    kmem_cache_alloc-Gets true three_own three_slabs 0 2 fresh three_slabs-IsValid refl
      (slab_create-IsSlab blank 8192 1024 4 (omega arith) (omega arith)).0
      (slab_create-IsSlab blank 8192 1024 4 (omega arith) (omega arith)).1

kmem_cache_free-Given_example :
    (c' : Cache) × ((kmem_cache_free three_slabs 3 7168 ≡ some c')
      × (IsValid three_own c' × Given 4 three_slabs c' 3 7168))
kmem_cache_free-Given_example =
    kmem_cache_free-Given three_own three_slabs 3 7168 three_slabs-IsValid refl (omega arith)
      (λ e. absurd (omega (arith, e)))

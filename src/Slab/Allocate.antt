-- ===== src/Slab/Allocate.antt =====
-- What `kmem_cache_alloc` of mm/slab.c does.
use risc.Common.{
  ℕ, ◌≡◌, ◌≢◌, sym, ap, ◌∙◌, Bool, true, false, not, ◌&&◌, none, some, inl, inr, List, [], ◌∷◌,
  ◌==◌, if◌then◌else◌, arith, Bool-cases,
}
use risc.Slab.{
  Slab, Cache, update, is_in, is_slab_full, obj_pop, sstack_pop, take_from, retire,
  kmem_cache_alloc,
}
use risc.Slab.Stack.{items, length-contents}
use risc.Slab.Invariant.{IsSlab, IsValid, free_objects}
use risc.Slab.Alloc.{take_from-Taken, List-cases}
use risc.Slab.Lists.{stays-IsValid, moves-IsValid, fresh-IsValid}

-- What `kmem_cache_alloc` has done when it returns `obj`: `own'` tells the cache's slabs.
pub record Gets (own : ℕ → Bool) (c : Cache) (new : ℕ) (fresh : Slab) (c' : Cache) (obj : ℕ)
    : Type 0 where
  pub own' : ℕ → Bool
  pub wider : (t : ℕ) → own t ≡ true → own' t ≡ true
  pub valid : IsValid own' c'
  pub slab : ℕ
  pub owned : own' slab ≡ true
  pub object :
      items (if own slab then c.slabs slab else fresh).free_list ≡ obj ∷ free_objects c' slab
  pub others : (t : ℕ) → own t ≡ true → t ≢ slab → c'.slabs t ≡ c.slabs t

abbrev Returns : (full : Bool) (own : ℕ → Bool) (c : Cache) (cpu new : ℕ) (fresh : Slab) → Type 0
Returns full own c cpu new fresh =
    (obj : ℕ) × ((c' : Cache) × ((kmem_cache_alloc full c cpu new fresh ≡ some (obj, c'))
        × Gets own c new fresh c' obj))

fresh-run :
    (c : Cache) (cpu new : ℕ) (fresh : Slab) (obj : ℕ) (c' : Cache)
    → c.part_slabs ≡ []
    → take_from (record c { slabs = update c.slabs new fresh; part_slabs = new ∷ [] }) new
      ≡ some (obj, c')
    → kmem_cache_alloc true c cpu new fresh ≡ some (obj, c')
unfolding kmem_cache_alloc
fresh-run c cpu new fresh obj c' e run = ground (arith, e, run)

part-run :
    (c : Cache) (cpu new : ℕ) (fresh : Slab) (s : ℕ) (l : List ℕ) (obj : ℕ) (c' c'' : Cache)
    → c.part_slabs ≡ s ∷ l
    → take_from c s ≡ some (obj, c')
    → retire c' s ≡ c''
    → kmem_cache_alloc true c cpu new fresh ≡ some (obj, c'')
unfolding kmem_cache_alloc
part-run c cpu new fresh s l obj c' c'' e run r = ground (arith, e, run, r)

retire-full :
    (c : Cache) (s : ℕ) (l : List ℕ)
    → is_slab_full c s ≡ true
    → c.part_slabs ≡ s ∷ l
    → retire c s ≡ record c { part_slabs = l; full_slabs = s ∷ c.full_slabs }
unfolding retire
retire-full c s l h e = ground (arith, h, e)

retire-not_full : (c : Cache) (s : ℕ) → is_slab_full c s ≡ false → retire c s ≡ c
unfolding retire
retire-not_full c s h = ground (arith, h)

from_cpu :
    (own : ℕ → Bool) (c : Cache) (cpu new : ℕ) (fresh : Slab)
    → IsValid own c
    → is_slab_full c (c.cache_cpu cpu) ≡ false
    → Returns false own c cpu new fresh
unfolding kmem_cache_alloc
from_cpu own c cpu new fresh v h =
    let s : ℕ = c.cache_cpu cpu in
    let (obj, (c', (run, (g, (p, f))))) = take_from-Taken c s (v.slab s (v.of_cpu cpu)) h in
    let out : is_in s c.part_slabs ≡ false = ground (arith, v.unlisted cpu) in
    (
      obj,
      (
        c',
        (
          ground (arith, run, h),
          record {
            own' = own;
            wider = λ t i. i;
            valid = stays-IsValid own c c' s obj v g p f h (λ i. absurd (ground (arith, i, out)));
            slab = s;
            owned = v.of_cpu cpu;
            object =
                ap (λ b. items (if b then c.slabs s else fresh).free_list) (v.of_cpu cpu)
                ∙ g.object;
            others = λ t i d. g.others t d;
          },
        ),
      ),
    )

from_fresh :
    (own : ℕ → Bool) (c : Cache) (cpu new : ℕ) (fresh : Slab)
    → IsValid own c
    → c.part_slabs ≡ []
    → own new ≡ false
    → IsSlab c.count_per_slab fresh
    → fresh.inuse ≡ 0
    → Returns true own c cpu new fresh
unfolding kmem_cache_alloc is_slab_full
from_fresh own c cpu new fresh v e o w z =
    let own1 : (ℕ → Bool) = λ t. if t == new then true else own t in
    let c1 : Cache = record c { slabs = update c.slabs new fresh; part_slabs = new ∷ [] } in
    let v1 : IsValid own1 c1 = fresh-IsValid own c new fresh v o e w z in
    let here : own1 new ≡ true = ground arith in
    let same : c1.slabs new ≡ fresh = ground arith in
    let not_full : is_slab_full c1 new ≡ false = ground (arith, same, z, v.count) in
    let (obj, (c', (run, (g, (p, f))))) = take_from-Taken c1 new (v1.slab new here) not_full in
    let still : is_slab_full c' new ≡ false =
      ground (arith, g.more, same, z, v.count, g.same_count) in
    (
      obj,
      (
        c',
        (
          fresh-run c cpu new fresh obj c' e run,
          record {
            own' = own1;
            wider = λ t i. ground (arith, i);
            valid = stays-IsValid own1 c1 c' new obj v1 g p f not_full (λ i. still);
            slab = new;
            owned = here;
            object =
                ap (λ b. items (if b then c.slabs new else fresh).free_list) o
                ∙ (ap (λ (k : Slab). items k.free_list) (sym same) ∙ g.object);
            others = λ t i d. g.others t d ∙ ground (arith, d);
          },
        ),
      ),
    )

from_part :
    (own : ℕ → Bool) (c : Cache) (cpu new : ℕ) (fresh : Slab) (s : ℕ) (l : List ℕ)
    → IsValid own c
    → c.part_slabs ≡ s ∷ l
    → Returns true own c cpu new fresh
unfolding kmem_cache_alloc retire
from_part own c cpu new fresh s l v e =
    let i : is_in s c.part_slabs ≡ true = ap (is_in s) e ∙ ground arith in
    let o = v.of_part s i in
    let not_full = v.part s i in
    let (obj, (c', (run, (g, (p, f))))) = take_from-Taken c s (v.slab s o) not_full in
    let object = ap (λ b. items (if b then c.slabs s else fresh).free_list) o ∙ g.object in
    elim (Bool-cases (is_slab_full c' s)) [
      | inl q ↦ (
        obj,
        (
          record c' { part_slabs = l; full_slabs = s ∷ c'.full_slabs },
          (
            part-run c cpu new fresh s l obj c'
                (record c' { part_slabs = l; full_slabs = s ∷ c'.full_slabs }) e run
                (retire-full c' s l q (p ∙ e)),
            record {
              own' = own;
              wider = λ t i. i;
              valid = moves-IsValid own c c' s obj l v g p f e q;
              slab = s;
              owned = o;
              object = object;
              others = λ t i d. g.others t d;
            },
          ),
        ),
      )
      | inr q ↦ (
        obj,
        (
          c',
          (
            part-run c cpu new fresh s l obj c' c' e run (retire-not_full c' s q),
            record {
              own' = own;
              wider = λ t i. i;
              valid = stays-IsValid own c c' s obj v g p f not_full (λ i. q);
              slab = s;
              owned = o;
              object = object;
              others = λ t i d. g.others t d;
            },
          ),
        ),
      )
    ]

take_from-full :
    (c : Cache) (s : ℕ)
    → IsSlab c.count_per_slab (c.slabs s)
    → is_slab_full c s ≡ true
    → take_from c s ≡ none
unfolding take_from obj_pop sstack_pop is_slab_full
take_from-full c s v h =
    let free = (c.slabs s).free_list in
    let l = length-contents free.cells free.top in ground (arith, v.counted, h, l)

-- On a cache that satisfies the invariant, with a well-formed unused slab at an address that is not
-- the cache's for the case that it has to add one, `kmem_cache_alloc` returns an object that was free
-- in one slab, takes it and no other from the free ones, changes no other slab, and keeps the
-- invariant, by which a slab that is of no CPU is in the list of the full or of the partial ones, as
-- it is. It stops the kernel just when its test has seen the slab of its CPU not full, and that is
-- full once it is locked.
pub kmem_cache_alloc-Gets :
    (full : Bool) (own : ℕ → Bool) (c : Cache) (cpu new : ℕ) (fresh : Slab)
    → IsValid own c
    → own new ≡ false
    → IsSlab c.count_per_slab fresh
    → fresh.inuse ≡ 0
    → let raced = not full && is_slab_full c (c.cache_cpu cpu) in
      (raced ≡ true → kmem_cache_alloc full c cpu new fresh ≡ none)
      × (raced ≡ false
          → (obj : ℕ) × ((c' : Cache) × ((kmem_cache_alloc full c cpu new fresh ≡ some (obj, c'))
                × Gets own c new fresh c' obj)))
unfolding kmem_cache_alloc
kmem_cache_alloc-Gets true own c cpu new fresh v o w z = (
  (λ r. absurd (ground (arith, r))),
  (λ r. elim (List-cases c.part_slabs) [
    | inl e ↦ from_fresh own c cpu new fresh v e o w z
    | inr (s, (l, e)) ↦ from_part own c cpu new fresh s l v e
  ]),
)
kmem_cache_alloc-Gets false own c cpu new fresh v o w z = (
  (λ r. take_from-full c (c.cache_cpu cpu) (v.slab (c.cache_cpu cpu) (v.of_cpu cpu)) r),
  (λ r. from_cpu own c cpu new fresh v r),
)

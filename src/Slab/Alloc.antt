-- ===== src/Slab/Alloc.antt =====
-- Taking an object from a slab of mm/slab.c.
use risc.Common.{
  ℕ, ◌+◌, ◌≡◌, ◌≢◌, refl, sym, ap, ◌∙◌, true, false, some, ◌⊎◌, inl, inr, List, [], ◌∷◌, arith,
  length,
}
use mathlib.Core.Path.{subst}
use risc.Slab.{Slab, Cache, update, is_in, is_slab_full, obj_pop, sstack_pop, take_from}
use risc.Slab.Stack.{items, sstack_pop-items}
use risc.Slab.Invariant.{IsSlab, free_objects}

-- An object popped from a slab.
record Popped (count : ℕ) (slab slab' : Slab) (obj : ℕ) : Type 0 where
  pub run : obj_pop slab ≡ some (obj, slab')
  pub object : items slab.free_list ≡ obj ∷ items slab'.free_list
  pub more : slab'.inuse ≡ slab.inuse + 1
  pub valid : IsSlab count slab'

pub List-cases : (l : List ℕ) → (l ≡ []) ⊎ ((a : ℕ) × ((l' : List ℕ) × (l ≡ a ∷ l')))
List-cases [] = inl refl
List-cases (a ∷ l) = inr (a, (l, refl))

obj_pop-run :
    (slab : Slab) (a : ℕ)
    → (sstack_pop slab.free_list).0 ≡ a
    → a ≢ 0
    → obj_pop slab
      ≡ some (a, record { inuse = slab.inuse + 1; free_list = (sstack_pop slab.free_list).1 })
unfolding obj_pop
obj_pop-run slab a e h = ground (arith, e, h)

obj_pop-Popped :
    (count : ℕ) (slab : Slab)
    → IsSlab count slab
    → slab.inuse ≢ count
    → (a : ℕ) × ((slab' : Slab) × Popped count slab slab' a)
obj_pop-Popped count slab v h = elim (List-cases (items slab.free_list)) [
  | inl e ↦ absurd (h (ground (arith, v.counted, e)))
  | inr (a, (l, e)) ↦
      let (x, i, m) = sstack_pop-items slab.free_list a l e in
      let d : a ≢ 0 = v.objects a (ground (arith, e)) in
      (
        a,
        (
          record { inuse = slab.inuse + 1; free_list = (sstack_pop slab.free_list).1 },
          record {
            run = obj_pop-run slab a x d;
            object = e ∙ ap (λ l. a ∷ l) (sym i);
            more = refl;
            valid = record {
              counted = omega (arith, v.counted, ap length e, ap length i);
              room = m ∙ v.room;
              objects = λ b j. v.objects b (
                  let k : is_in b l ≡ true = sym (ap (is_in b) i) ∙ j in
                  ap (is_in b) e ∙ ground (arith, k));
            };
          },
        ),
      )
]

-- What taking an object from the slab at `s` has done.
pub record Taken (count : ℕ) (c c' : Cache) (s obj : ℕ) : Type 0 where
  pub object : free_objects c s ≡ obj ∷ free_objects c' s
  pub valid : IsSlab count (c'.slabs s)
  pub more : (c'.slabs s).inuse ≡ (c.slabs s).inuse + 1
  pub others : (t : ℕ) → t ≢ s → c'.slabs t ≡ c.slabs t
  pub same_cpu : c'.cache_cpu ≡ c.cache_cpu
  pub same_count : c'.count_per_slab ≡ c.count_per_slab

pub take_from-Taken :
    (c : Cache) (s : ℕ)
    → IsSlab c.count_per_slab (c.slabs s)
    → is_slab_full c s ≡ false
    → (obj : ℕ) × ((c' : Cache) × ((take_from c s ≡ some (obj, c'))
          × ((Taken c.count_per_slab c c' s obj)
              × ((c'.part_slabs ≡ c.part_slabs) × (c'.full_slabs ≡ c.full_slabs)))))
unfolding take_from is_slab_full
take_from-Taken c s v h =
    let (obj, (slab', p)) = obj_pop-Popped c.count_per_slab (c.slabs s) v (ground (arith, h)) in
    let q : update c.slabs s slab' s ≡ slab' = ground arith in
    (
      obj,
      (
        record c { slabs = update c.slabs s slab' },
        (
          ground (arith, p.run),
          (
            record {
              object = p.object ∙ ap (λ (z : Slab). obj ∷ items z.free_list) (sym q);
              valid = subst (IsSlab c.count_per_slab) (sym q) p.valid;
              more = ap Slab.inuse q ∙ p.more;
              others = λ t d. ground (arith, d);
              same_cpu = refl;
              same_count = refl;
            },
            (refl, refl),
          ),
        ),
      ),
    )

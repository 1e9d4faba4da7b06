-- ===== src/Slab/Release.antt =====
-- Giving an object back to a slab of mm/slab.c.
use risc.Common.{
  ℕ, ◌+◌, ◌-◌, ◌≤◌, ◌<◌, ◌≡◌, ◌≢◌, sym, ap, ◌∙◌, Bool, true, false, some, inl, inr, ◌∷◌, ◌==◌,
  ==_iff, pos, arith, length, Bool-cases,
}
use mathlib.Core.Path.{subst}
use risc.Slab.{Slab, Cache, is_in, is_slab_full, is_listed, obj_push, sstack_push, sstack_is_full}
use risc.Slab.Stack.{items, sstack_push-items, length-contents}
use risc.Slab.Invariant.{IsSlab, IsValid, Distinct, free_objects}
use risc.Slab.Lists.{in_≢, cons_cases, listed_same}

-- What giving an object back to the slab at `s` has done to the slabs.
pub record Given (count : ℕ) (c c' : Cache) (s obj : ℕ) : Type 0 where
  pub object : free_objects c' s ≡ obj ∷ free_objects c s
  pub valid : IsSlab count (c'.slabs s)
  pub less : (c'.slabs s).inuse + 1 ≡ (c.slabs s).inuse
  pub others : (t : ℕ) → t ≢ s → c'.slabs t ≡ c.slabs t
  pub same_cpu : c'.cache_cpu ≡ c.cache_cpu
  pub same_count : c'.count_per_slab ≡ c.count_per_slab

-- the slab with the object back
abbrev pub back : Slab → ℕ → Slab
back slab obj = record { inuse = slab.inuse - 1; free_list = (sstack_push slab.free_list obj).1 }

pub has_room :
    (count : ℕ) (slab : Slab)
    → IsSlab count slab
    → count ≤ 256
    → 0 < slab.inuse
    → sstack_is_full slab.free_list ≡ false
unfolding sstack_is_full
has_room count slab v b h =
    let l = length-contents slab.free_list.cells slab.free_list.top in
    ground (arith, v.counted, v.room, l, b, h)

pub obj_push-run :
    (slab : Slab) (obj : ℕ)
    → (sstack_push slab.free_list obj).0 ≡ pos 0
    → obj_push slab obj ≡ some (back slab obj)
unfolding obj_push
obj_push-run slab obj e = ground (arith, e)

pub back-IsSlab :
    (count : ℕ) (slab : Slab) (obj : ℕ)
    → IsSlab count slab
    → 0 < slab.inuse
    → obj ≢ 0
    → sstack_is_full slab.free_list ≡ false
    → IsSlab count (back slab obj)
back-IsSlab count slab obj v h d f =
    let (r, i, m) = sstack_push-items slab.free_list obj f in
    record {
      counted = omega (arith, v.counted, ap length i, h);
      room = m ∙ v.room;
      objects = λ a j.
          let k : is_in a (obj ∷ items slab.free_list) ≡ true = sym (ap (is_in a) i) ∙ j in
          elim (cons_cases a obj (items slab.free_list) k) [
            | inl q ↦ (λ z. d (sym q ∙ z))
            | inr q ↦ v.objects a q
          ];
    }

pub Given-not_full :
    {count : ℕ} {c c' : Cache} {s obj : ℕ}
    → Given count c c' s obj
    → IsSlab count (c.slabs s)
    → c.count_per_slab ≡ count
    → is_slab_full c' s ≡ false
unfolding is_slab_full
Given-not_full g v e = ground (arith, g.less, g.same_count, v.counted, e)

pub Given-same_full :
    {count : ℕ} {c c' : Cache} {s obj : ℕ}
    → Given count c c' s obj
    → (t : ℕ) → t ≢ s
    → is_slab_full c' t ≡ is_slab_full c t
unfolding is_slab_full
Given-same_full {c = c} {c' = c'} g t d =
    ap (λ n. n == c'.count_per_slab) (ap Slab.inuse (g.others t d))
    ∙ ap (λ n. (c.slabs t).inuse == n) g.same_count

pub Given-IsSlab :
    (own : ℕ → Bool) (c c' : Cache) (s obj : ℕ)
    → IsValid own c
    → Given c.count_per_slab c c' s obj
    → (t : ℕ) → own t ≡ true
    → IsSlab c'.count_per_slab (c'.slabs t)
Given-IsSlab own c c' s obj v g t o =
    let same = sym g.same_count in
    elim (Bool-cases (t == s)) [
      | inl z ↦
          let e : t ≡ s = (==_iff t s).0 z in
          subst (λ n. IsSlab n (c'.slabs t)) same
            (subst (λ i. IsSlab c.count_per_slab (c'.slabs i)) (sym e) g.valid)
      | inr z ↦
          let d : t ≢ s = ground (arith, z) in
          subst (λ n. IsSlab n (c'.slabs t)) same
            (subst (IsSlab c.count_per_slab) (sym (g.others t d)) (v.slab t o))
    ]

-- An object comes back to a slab that is in no list or in the partial ones.
pub returns-IsValid :
    (own : ℕ → Bool) (c c' : Cache) (s obj : ℕ)
    → IsValid own c
    → Given c.count_per_slab c c' s obj
    → c'.part_slabs ≡ c.part_slabs
    → c'.full_slabs ≡ c.full_slabs
    → is_in s c.full_slabs ≡ false
    → is_slab_full c' s ≡ false
    → IsValid own c'
returns-IsValid own c c' s obj v g p f no_full h = record {
  count = (omega (arith, g.same_count, v.count.0), omega (arith, g.same_count, v.count.1));
  slab = Given-IsSlab own c c' s obj v g;
  of_cpu = λ cpu. ap (λ (k : ℕ → ℕ). own (k cpu)) g.same_cpu ∙ v.of_cpu cpu;
  of_part = λ t i. v.of_part t (ap (is_in t) (sym p) ∙ i);
  of_full = λ t i. v.of_full t (ap (is_in t) (sym f) ∙ i);
  part = λ t i. elim (Bool-cases (t == s)) [
    | inl z ↦ let e : t ≡ s = (==_iff t s).0 z in ap (is_slab_full c') e ∙ h
    | inr z ↦ Given-same_full g t (ground (arith, z)) ∙ v.part t (ap (is_in t) (sym p) ∙ i)
  ];
  full = λ t i.
      let j = ap (is_in t) (sym f) ∙ i in
      Given-same_full g t (in_≢ s t c.full_slabs no_full j) ∙ v.full t j;
  unlisted = λ cpu.
      listed_same c c' (c'.cache_cpu cpu) p f
      ∙ (ap (λ (k : ℕ → ℕ). is_listed c (k cpu)) g.same_cpu ∙ v.unlisted cpu);
  listed = λ t o d.
      listed_same c c' t p f
      ∙ v.listed t o (λ cpu e. d cpu (ap (λ (k : ℕ → ℕ). k cpu) g.same_cpu ∙ e));
  distinct_part = subst Distinct (sym p) v.distinct_part;
  distinct_full = subst Distinct (sym f) v.distinct_full;
}

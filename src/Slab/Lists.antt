-- ===== src/Slab/Lists.antt =====
-- How taking an object keeps the invariant of a cache of mm/slab.c.
use risc.Common.{
  ℕ, ◌≡◌, ◌≢◌, refl, sym, ap, ◌∙◌, Bool, true, false, ◌⊎◌, inl, inr, List, [], ◌∷◌, ◌==◌, ==_iff,
  if◌then◌else◌, arith, Bool-cases,
}
use mathlib.Core.Path.{subst}
use risc.Slab.{Slab, Cache, update, is_in, is_slab_full, is_listed}
use risc.Slab.Invariant.{IsSlab, IsValid, Distinct}
use risc.Slab.Alloc.{Taken}

-- the state of the other slabs
same_full :
    {count : ℕ} {c c' : Cache} {s obj : ℕ}
    → Taken count c c' s obj
    → (t : ℕ) → t ≢ s
    → is_slab_full c' t ≡ is_slab_full c t
unfolding is_slab_full
same_full {c = c} {c' = c'} g t d =
    ap (λ n. n == c'.count_per_slab) (ap Slab.inuse (g.others t d))
    ∙ ap (λ n. (c.slabs t).inuse == n) g.same_count

pub in_≢ : (s t : ℕ) (l : List ℕ) → is_in s l ≡ false → is_in t l ≡ true → t ≢ s
in_≢ s t l out i e = let c = sym i ∙ (ap (λ v. is_in v l) e ∙ out) in ground (arith, c)

Taken-IsSlab :
    (own : ℕ → Bool) (c c' : Cache) (s obj : ℕ)
    → IsValid own c
    → Taken c.count_per_slab c c' s obj
    → (t : ℕ) → own t ≡ true
    → IsSlab c'.count_per_slab (c'.slabs t)
Taken-IsSlab own c c' s obj v g t o =
    let same = sym g.same_count in
    elim (Bool-cases (t == s)) [
      | inl z ↦
          let e : t ≡ s = (==_iff t s).0 z in
          subst (λ n. IsSlab n (c'.slabs t)) same
            (subst (λ i. IsSlab c.count_per_slab (c'.slabs i)) (sym e) g.valid)
      | inr z ↦
          let d : t ≢ s = ground (arith, z) in
          subst (λ n. IsSlab n (c'.slabs t)) same
            (subst (IsSlab c.count_per_slab) (sym (g.others t d)) (v.slab t o))
    ]

pub listed_same :
    (c c' : Cache) (x : ℕ)
    → c'.part_slabs ≡ c.part_slabs
    → c'.full_slabs ≡ c.full_slabs
    → is_listed c' x ≡ is_listed c x
listed_same c c' x p f =
    ap (λ l. if is_in x l then true else is_in x c'.full_slabs) p
    ∙ ap (λ l. if is_in x c.part_slabs then true else is_in x l) f

part_tail :
    (s t : ℕ) (l : List ℕ) (c : Cache)
    → c.part_slabs ≡ s ∷ l
    → is_in t l ≡ true
    → is_in t c.part_slabs ≡ true
part_tail s t l c e i = ap (is_in t) e ∙ ground (arith, i)

pub not_in_full :
    (own : ℕ → Bool) (c : Cache) (s : ℕ)
    → IsValid own c
    → is_slab_full c s ≡ false
    → is_in s c.full_slabs ≡ false
not_in_full own c s v h = elim (Bool-cases (is_in s c.full_slabs)) [
  | inl i ↦ let b = sym h ∙ v.full s i in absurd (ground (arith, b))
  | inr i ↦ i
]

-- A slab that is not full before gives an object and stays in the list where it is.
pub stays-IsValid :
    (own : ℕ → Bool) (c c' : Cache) (s obj : ℕ)
    → IsValid own c
    → Taken c.count_per_slab c c' s obj
    → c'.part_slabs ≡ c.part_slabs
    → c'.full_slabs ≡ c.full_slabs
    → is_slab_full c s ≡ false
    → (is_in s c.part_slabs ≡ true → is_slab_full c' s ≡ false)
    → IsValid own c'
stays-IsValid own c c' s obj v g p f h part =
    let no_full = not_in_full own c s v h in
    record {
      count = (omega (arith, g.same_count, v.count.0), omega (arith, g.same_count, v.count.1));
      slab = Taken-IsSlab own c c' s obj v g;
      of_cpu = λ cpu. ap (λ (h : ℕ → ℕ). own (h cpu)) g.same_cpu ∙ v.of_cpu cpu;
      of_part = λ t i. v.of_part t (ap (is_in t) (sym p) ∙ i);
      of_full = λ t i. v.of_full t (ap (is_in t) (sym f) ∙ i);
      part = λ t i.
          let j = ap (is_in t) (sym p) ∙ i in
          elim (Bool-cases (t == s)) [
            | inl z ↦
                let e : t ≡ s = (==_iff t s).0 z in
                subst (λ n. is_slab_full c' n ≡ false) (sym e)
                  (part (sym (ap (λ n. is_in n c.part_slabs) e) ∙ j))
            | inr z ↦ same_full g t (ground (arith, z)) ∙ v.part t j
          ];
      full = λ t i.
          let j = ap (is_in t) (sym f) ∙ i in
          same_full g t (in_≢ s t c.full_slabs no_full j) ∙ v.full t j;
      unlisted = λ cpu.
          listed_same c c' (c'.cache_cpu cpu) p f
          ∙ (ap (λ (h : ℕ → ℕ). is_listed c (h cpu)) g.same_cpu ∙ v.unlisted cpu);
      listed = λ t o d.
          listed_same c c' t p f
          ∙ v.listed t o (λ cpu e. d cpu (ap (λ (k : ℕ → ℕ). k cpu) g.same_cpu ∙ e));
      distinct_part = subst Distinct (sym p) v.distinct_part;
      distinct_full = subst Distinct (sym f) v.distinct_full;
    }

pub cons_cases : (t s : ℕ) (l : List ℕ) → is_in t (s ∷ l) ≡ true → (t ≡ s) ⊎ (is_in t l ≡ true)
cons_cases t s l h = elim (Bool-cases (s == t)) [
  | inl e ↦ inl (sym ((==_iff s t).0 e))
  | inr e ↦ inr (ground (arith, e, h))
]

moved_unlisted :
    (x s : ℕ) (l : List ℕ) (c : Cache)
    → c.part_slabs ≡ s ∷ l
    → is_listed c x ≡ false
    → (if is_in x l then true else is_in x (s ∷ c.full_slabs)) ≡ false
moved_unlisted x s l c e u =
    let q = ap (λ m. if is_in x m then true else is_in x c.full_slabs) (sym e) ∙ u in
    ground (arith, q)

moved_listed :
    (x s : ℕ) (l : List ℕ) (c c' : Cache)
    → c.part_slabs ≡ s ∷ l
    → c'.full_slabs ≡ c.full_slabs
    → is_listed c x ≡ true
    → (if is_in x l then true else is_in x (s ∷ c'.full_slabs)) ≡ true
moved_listed x s l c c' e f u =
    let q = ap (λ m. if is_in x m then true else is_in x c.full_slabs) (sym e) ∙ u in
    ap (λ m. if is_in x l then true else is_in x (s ∷ m)) f ∙ ground (arith, q)

-- The slab at the head of the partial ones gives its last object and moves to the full ones.
pub moves-IsValid :
    (own : ℕ → Bool) (c c' : Cache) (s obj : ℕ) (l : List ℕ)
    → IsValid own c
    → Taken c.count_per_slab c c' s obj
    → c'.part_slabs ≡ c.part_slabs
    → c'.full_slabs ≡ c.full_slabs
    → c.part_slabs ≡ s ∷ l
    → is_slab_full c' s ≡ true
    → IsValid own (record c' { part_slabs = l; full_slabs = s ∷ c'.full_slabs })
unfolding is_slab_full
moves-IsValid own c c' s obj l v g p f e h =
    let in_part : is_in s c.part_slabs ≡ true = ap (is_in s) e ∙ ground arith in
    let not_full = v.part s in_part in
    let no_full = not_in_full own c s v not_full in
    let dis : Distinct (s ∷ l) = subst Distinct e v.distinct_part in
    let old = λ (t : ℕ) (i : is_in t l ≡ true). part_tail s t l c e i in
    record {
      count = (omega (arith, g.same_count, v.count.0), omega (arith, g.same_count, v.count.1));
      slab = Taken-IsSlab own c c' s obj v g;
      of_cpu = λ cpu. ap (λ (h : ℕ → ℕ). own (h cpu)) g.same_cpu ∙ v.of_cpu cpu;
      of_part = λ t i. v.of_part t (old t i);
      of_full = λ t i. elim (cons_cases t s c'.full_slabs i) [
        | inl q ↦ ap own q ∙ v.of_part s in_part
        | inr j ↦ v.of_full t (ap (is_in t) (sym f) ∙ j)
      ];
      part = λ t i. same_full g t (in_≢ s t l dis.0 i) ∙ v.part t (old t i);
      full = λ t i. elim (cons_cases t s c'.full_slabs i) [
        | inl q ↦ ap (is_slab_full c') q ∙ h
        | inr j ↦
            let j' = ap (is_in t) (sym f) ∙ j in
            same_full g t (in_≢ s t c.full_slabs no_full j') ∙ v.full t j'
      ];
      unlisted = λ cpu.
          ap (λ m. if is_in (c'.cache_cpu cpu) l then true else is_in (c'.cache_cpu cpu) (s ∷ m)) f
          ∙ (ap (λ (h : ℕ → ℕ). if is_in (h cpu) l then true else is_in (h cpu) (s ∷ c.full_slabs))
                g.same_cpu
              ∙ moved_unlisted (c.cache_cpu cpu) s l c e (v.unlisted cpu));
      listed = λ t o d.
          moved_listed t s l c c' e f
            (v.listed t o (λ cpu x. d cpu (ap (λ (k : ℕ → ℕ). k cpu) g.same_cpu ∙ x)));
      distinct_part = dis.1;
      distinct_full = (ap (is_in s) f ∙ no_full, subst Distinct (sym f) v.distinct_full);
    }

apart : (own : ℕ → Bool) (t new : ℕ) → own t ≡ true → own new ≡ false → t ≢ new
apart own t new i o e = let q = sym i ∙ (ap own e ∙ o) in ground (arith, q)

-- A new slab makes the cache larger.
pub fresh-IsValid :
    (own : ℕ → Bool) (c : Cache) (new : ℕ) (fresh : Slab)
    → IsValid own c
    → own new ≡ false
    → c.part_slabs ≡ []
    → IsSlab c.count_per_slab fresh
    → fresh.inuse ≡ 0
    → IsValid
        (λ t. if t == new then true else own t)
        (record c { slabs = update c.slabs new fresh; part_slabs = new ∷ [] })
unfolding is_slab_full
fresh-IsValid own c new fresh v o e f z =
    let differs = λ (t : ℕ) (i : own t ≡ true). apart own t new i o in
    record {
      count = v.count;
      slab = λ t i. elim (Bool-cases (t == new)) [
        | inl q ↦ subst (IsSlab c.count_per_slab) (ground (arith, q)) f
        | inr q ↦
            subst (IsSlab c.count_per_slab) (ground (arith, q)) (v.slab t (ground (arith, q, i)))
      ];
      of_cpu = λ cpu. ground (arith, v.of_cpu cpu);
      of_part = λ t i. ground (arith, i);
      of_full = λ t i. ground (arith, v.of_full t i);
      part = λ t i. ground (arith, i, z, v.count);
      full = λ t i. (let d = differs t (v.of_full t i) in ground (arith, d, v.full t i));
      unlisted = λ cpu.
          (let d = differs (c.cache_cpu cpu) (v.of_cpu cpu) in ground (arith, d, v.unlisted cpu));
      listed = λ t i d. elim (Bool-cases (t == new)) [
        | inl q ↦ ground (arith, q)
        | inr q ↦ (let u = v.listed t (ground (arith, q, i)) d in ground (arith, u, e, q))
      ];
      distinct_part = (refl, tt);
      distinct_full = v.distinct_full;
    }

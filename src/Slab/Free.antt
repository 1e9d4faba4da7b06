-- ===== src/Slab/Free.antt =====
-- What `kmem_cache_free` of mm/slab.c does.
use risc.Common.{
  ℕ, ◌≤◌, ◌<◌, ◌≡◌, ◌≢◌, refl, sym, ap, ◌∙◌, Bool, true, false, none, some, inl, inr, List, [], ◌∷◌,
  ◌==◌, ==_iff, if◌then◌else◌, arith, Bool-cases,
}
use mathlib.Core.Path.{subst}
use risc.Slab.{
  Slab, Cache, update, is_in, remove, is_slab_full, is_listed, obj_push, sstack_is_full, revive,
  kmem_cache_free,
}
use risc.Slab.Stack.{items, sstack_push-items}
use risc.Slab.Invariant.{IsSlab, IsValid, Distinct}
use risc.Slab.Lists.{in_≢, cons_cases, not_in_full}
use risc.Slab.Release.{
  Given, back, has_room, obj_push-run, back-IsSlab, Given-not_full, Given-same_full, Given-IsSlab,
  returns-IsValid,
}

in_remove :
    (t s : ℕ) (l : List ℕ) → Distinct l → is_in t (remove s l) ≡ true → (t ≢ s) × (is_in t l ≡ true)
in_remove t s [] d h = absurd (ground (arith, h))
in_remove t s (x ∷ l) d h = elim (Bool-cases (x == s)) [
  | inl z ↦
      let e : x ≡ s = (==_iff x s).0 z in
      let i : is_in t l ≡ true = ground (arith, z, h) in
      let out : is_in s l ≡ false = ap (λ v. is_in v l) (sym e) ∙ d.0 in
      (in_≢ s t l out i, ground (arith, i))
  | inr z ↦ elim (Bool-cases (x == t)) [
    | inl y ↦
        let e : x ≡ t = (==_iff x t).0 y in
        ((λ q. absurd (ground (arith, z, e, q))), ground (arith, y))
    | inr y ↦ let (a, b) = in_remove t s l d.1 (ground (arith, z, y, h)) in (a, ground (arith, b))
  ]
]

not_in_remove : (t s : ℕ) (l : List ℕ) → is_in t l ≡ false → is_in t (remove s l) ≡ false
not_in_remove t s [] h = refl
not_in_remove t s (x ∷ l) h = ground (arith, h, not_in_remove t s l)

remove-Distinct : (s : ℕ) (l : List ℕ) → Distinct l → Distinct (remove s l)
remove-Distinct s [] d = d
remove-Distinct s (x ∷ l) d = elim (Bool-cases (x == s)) [
  | inl z ↦ let q : l ≡ remove s (x ∷ l) = ground (arith, z) in subst Distinct q d.1
  | inr z ↦
      let r : Distinct (x ∷ remove s l) = (not_in_remove x s l d.0, remove-Distinct s l d.1) in
      let q : x ∷ remove s l ≡ remove s (x ∷ l) = ground (arith, z) in subst Distinct q r
]

revived_unlisted :
    (x s : ℕ) (c : Cache)
    → is_in s c.full_slabs ≡ true
    → is_listed c x ≡ false
    → (if is_in x (s ∷ c.part_slabs) then true else is_in x (remove s c.full_slabs)) ≡ false
revived_unlisted x s c i u =
    let out : is_in x c.full_slabs ≡ false = ground (arith, u) in
    let d : s ≢ x = in_≢ x s c.full_slabs out i in
    let r = not_in_remove x s c.full_slabs out in ground (arith, u, d, r)

kept_in_remove : (t s : ℕ) (l : List ℕ) → t ≢ s → is_in t l ≡ true → is_in t (remove s l) ≡ true
kept_in_remove t s [] d h = absurd (ground (arith, h))
kept_in_remove t s (x ∷ l) d h = ground (arith, d, h, kept_in_remove t s l d)

revived_listed :
    (x s : ℕ) (c c' : Cache)
    → c'.part_slabs ≡ s ∷ c.part_slabs
    → c'.full_slabs ≡ remove s c.full_slabs
    → is_listed c x ≡ true
    → is_listed c' x ≡ true
revived_listed x s c c' p f u =
    let k : (if is_in x (s ∷ c.part_slabs) then true else is_in x (remove s c.full_slabs)) ≡ true =
      elim (Bool-cases (s == x)) [
        | inl q ↦ ground (arith, q)
        | inr q ↦
            (let r = kept_in_remove x s c.full_slabs (ground (arith, q)) in ground (arith, q, u, r))
      ] in
    ap (λ m. if is_in x m then true else is_in x c'.full_slabs) p
    ∙ ap (λ m. if is_in x (s ∷ c.part_slabs) then true else is_in x m) f
    ∙ k

not_in_part :
    (own : ℕ → Bool) (c : Cache) (s : ℕ)
    → IsValid own c
    → is_slab_full c s ≡ true
    → is_in s c.part_slabs ≡ false
not_in_part own c s v h = elim (Bool-cases (is_in s c.part_slabs)) [
  | inl i ↦ let b = sym h ∙ v.part s i in absurd (ground (arith, b))
  | inr i ↦ i
]

-- An object comes back to a full slab, which moves to the partial ones.
revived-IsValid :
    (own : ℕ → Bool) (c c' : Cache) (s obj : ℕ)
    → IsValid own c
    → Given c.count_per_slab c c' s obj
    → c'.part_slabs ≡ s ∷ c.part_slabs
    → c'.full_slabs ≡ remove s c.full_slabs
    → is_in s c.full_slabs ≡ true
    → is_slab_full c' s ≡ false
    → IsValid own c'
revived-IsValid own c c' s obj v g p f i h =
    let no_part = not_in_part own c s v (v.full s i) in
    let full' = λ (t : ℕ) (j : is_in t c'.full_slabs ≡ true).
      in_remove t s c.full_slabs v.distinct_full (ap (is_in t) (sym f) ∙ j) in
    let part' = λ (t : ℕ) (j : is_in t c'.part_slabs ≡ true).
      cons_cases t s c.part_slabs (ap (is_in t) (sym p) ∙ j) in
    record {
      count = (omega (arith, g.same_count, v.count.0), omega (arith, g.same_count, v.count.1));
      slab = Given-IsSlab own c c' s obj v g;
      of_cpu = λ cpu. ap (λ (k : ℕ → ℕ). own (k cpu)) g.same_cpu ∙ v.of_cpu cpu;
      of_part =
          λ t j. elim (part' t j) [ inl q ↦ ap own q ∙ v.of_full s i | inr k ↦ v.of_part t k ];
      of_full = λ t j. v.of_full t (full' t j).1;
      part = λ t j. elim (part' t j) [
        | inl q ↦ ap (is_slab_full c') q ∙ h
        | inr k ↦ Given-same_full g t (in_≢ s t c.part_slabs no_part k) ∙ v.part t k
      ];
      full = λ t j. Given-same_full g t (full' t j).0 ∙ v.full t (full' t j).1;
      unlisted = λ cpu.
          ap
            (λ m.
              if is_in (c'.cache_cpu cpu) m then true else is_in (c'.cache_cpu cpu) c'.full_slabs)
            p
          ∙ (ap
                (λ m.
                  if is_in (c'.cache_cpu cpu) (s ∷ c.part_slabs)
                  then true
                  else is_in (c'.cache_cpu cpu) m)
                f
              ∙ (ap
                    (λ (k : ℕ → ℕ).
                      if is_in (k cpu) (s ∷ c.part_slabs)
                      then true
                      else is_in (k cpu) (remove s c.full_slabs))
                    g.same_cpu
                  ∙ revived_unlisted (c.cache_cpu cpu) s c i (v.unlisted cpu)));
      listed = λ t o d.
          revived_listed t s c c' p f
            (v.listed t o (λ cpu e. d cpu (ap (λ (k : ℕ → ℕ). k cpu) g.same_cpu ∙ e)));
      distinct_part = subst Distinct (sym p) (no_part, v.distinct_part);
      distinct_full = subst Distinct (sym f) (remove-Distinct s c.full_slabs v.distinct_full);
    }

-- the cache `c` with the object back in its slab
abbrev with_back : Cache → ℕ → ℕ → Cache
with_back c s obj = record c { slabs = update c.slabs s (back (c.slabs s) obj) }

with_back-Given :
    (c k : Cache) (s obj : ℕ)
    → k.slabs ≡ c.slabs
    → k.cache_cpu ≡ c.cache_cpu
    → k.count_per_slab ≡ c.count_per_slab
    → IsSlab c.count_per_slab (c.slabs s)
    → c.count_per_slab ≤ 256
    → 0 < (c.slabs s).inuse
    → obj ≢ 0
    → Given c.count_per_slab c (with_back k s obj) s obj
with_back-Given c k s obj e e' e'' v b h d =
    let f = has_room c.count_per_slab (c.slabs s) v b h in
    let here : (with_back k s obj).slabs s ≡ back (c.slabs s) obj = ground (arith, e) in
    let (r, i, m) = sstack_push-items (c.slabs s).free_list obj f in
    record {
      object = ap (λ (z : Slab). items z.free_list) here ∙ i;
      valid =
          subst (IsSlab c.count_per_slab) (sym here)
            (back-IsSlab c.count_per_slab (c.slabs s) obj v h d f);
      less = omega (arith, ap Slab.inuse here, h);
      others = λ t n. ground (arith, e, n);
      same_cpu = e';
      same_count = e'';
    }

free-run :
    (c k : Cache) (s obj : ℕ)
    → (if is_listed c s then revive c s else c) ≡ k
    → sstack_is_full (k.slabs s).free_list ≡ false
    → kmem_cache_free c s obj ≡ some (with_back k s obj)
unfolding kmem_cache_free
free-run c k s obj e f =
    let (r, i, m) = sstack_push-items (k.slabs s).free_list obj f in
    let q = obj_push-run (k.slabs s) obj r in
    let t : elim (obj_push (k.slabs s) obj) [
      | none ↦ none
      | some z ↦ some (record k { slabs = update k.slabs s z })
    ]
        ≡ some (with_back k s obj) =
      ground (arith, q) in
    ap
      (λ j. elim (obj_push (Cache.slabs j s) obj) [
        | none ↦ none
        | some z ↦ some (record j { slabs = update j.slabs s z })
      ])
      e
    ∙ t

revive-full :
    (c : Cache) (s : ℕ)
    → is_listed c s ≡ true
    → is_slab_full c s ≡ true
    → (if is_listed c s then revive c s else c)
      ≡ record c { part_slabs = s ∷ c.part_slabs; full_slabs = remove s c.full_slabs }
unfolding revive
revive-full c s l h = ground (arith, l, h)

revive-not_full :
    (c : Cache) (s : ℕ) → is_slab_full c s ≡ false → (if is_listed c s then revive c s else c) ≡ c
unfolding revive
revive-not_full c s h = ground (arith, h)

revive-unlisted :
    (c : Cache) (s : ℕ) → is_listed c s ≡ false → (if is_listed c s then revive c s else c) ≡ c
revive-unlisted c s l = ground (arith, l)

-- On a cache that satisfies the invariant, `kmem_cache_free` of a non-null object of one of its slabs that
-- has some in use never panics: the object is the first free one of that slab again, no other slab
-- changes, and the invariant holds, by which a slab that was full and is of no CPU is in the list of
-- the partial ones then.
pub kmem_cache_free-Given :
    (own : ℕ → Bool) (c : Cache) (s obj : ℕ)
    → IsValid own c
    → own s ≡ true
    → 0 < (c.slabs s).inuse
    → obj ≢ 0
    → (c' : Cache) × ((kmem_cache_free c s obj ≡ some c')
        × (IsValid own c' × Given c.count_per_slab c c' s obj))
kmem_cache_free-Given own c s obj v o h d =
    let w = v.slab s o in
    let f = has_room c.count_per_slab (c.slabs s) w v.count.1 h in
    let g = with_back-Given c c s obj refl refl refl w v.count.1 h d in
    let n = Given-not_full g w refl in
    elim (Bool-cases (is_slab_full c s)) [
      | inr q ↦
          let out = not_in_full own c s v q in
          (
            with_back c s obj,
            (
              free-run c c s obj (revive-not_full c s q) f,
              (returns-IsValid own c (with_back c s obj) s obj v g refl refl out n, g),
            ),
          )
      | inl q ↦ elim (Bool-cases (is_listed c s)) [
        | inr l ↦
            let out : is_in s c.full_slabs ≡ false = ground (arith, l) in
            (
              with_back c s obj,
              (
                free-run c c s obj (revive-unlisted c s l) f,
                (returns-IsValid own c (with_back c s obj) s obj v g refl refl out n, g),
              ),
            )
        | inl l ↦
            let no_part = not_in_part own c s v q in
            let i : is_in s c.full_slabs ≡ true = ground (arith, l, no_part) in
            let k : Cache = record c {
              part_slabs = s ∷ c.part_slabs;
              full_slabs = remove s c.full_slabs;
            } in
            let g' = with_back-Given c k s obj refl refl refl w v.count.1 h d in
            (
              with_back k s obj,
              (
                free-run c k s obj (revive-full c s l q) f,
                (
                  revived-IsValid own c (with_back k s obj) s obj v g' refl refl i
                      (Given-not_full g' w refl),
                  g',
                ),
              ),
            )
      ]
    ]

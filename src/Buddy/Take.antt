-- ===== src/Buddy/Take.antt =====
-- Taking the buddy of a block out of its free list in mm/mm.c keeps the invariant.
use risc.Common.{
  ℕ, ◌+◌, ◌^◌, ◌<◌, ◌≡◌, ◌≢◌, refl, sym, ap, ◌∙◌, Bool, true, false, ◌&&◌, ◌⊎◌, inl, inr, ltb, leb,
  ◌==◌, arith, Bool-cases, ==_iff, List, [], ◌∷◌,
}
use mathlib.Core.Path.{subst}
use risc.Buddy.{Memory, all_pfn, max_level, remove, set_order, del_free, minimum}
use risc.Buddy.Weight.{Weight, weigh, covers, is_in, weigh-remove, weigh-is_in}
use risc.Buddy.Block.{pow_pos, pow_step, Buddies}
use risc.Buddy.Invariant.{Free, Block, Inside, refcnt, order_of, Block-not_in}

-- the page `p` and its buddy `b` marked as merged, and `b` taken from the list it is in
abbrev pub take : Memory → ℕ → ℕ → Memory
take m p b = del_free (set_order (set_order m p max_level) b max_level) b

is_in-remove : (q b : ℕ) (l : List ℕ) → q ≢ b → is_in q (remove b l) ≡ is_in q l
is_in-remove q b [] ne = refl
is_in-remove q b (x ∷ l) ne = ground (arith, ne, is_in-remove q b l ne)

is_in-remove_old : (q b : ℕ) (l : List ℕ) → is_in q (remove b l) ≡ true → is_in q l ≡ true
is_in-remove_old q b [] h = h
is_in-remove_old q b (x ∷ l) h = ground (arith, h, is_in-remove_old q b l)

pub refcnt-take : (m : Memory) (p b q : ℕ) → refcnt (take m p b) q ≡ refcnt m q
unfolding set_order del_free
refcnt-take m p b q = ground arith

pub free_lists-take :
    (m : Memory) (p b j : ℕ) → (take m p b).free_lists j ≡ remove b (m.free_lists j)
unfolding set_order del_free
free_lists-take m p b j = refl

order_of-take_ne : (m : Memory) (p b q : ℕ) → q ≢ p → q ≢ b → order_of (take m p b) q ≡ order_of m q
unfolding set_order del_free
order_of-take_ne m p b q h h' = ground (arith, h, h')

order_of-take_p : (m : Memory) (p b : ℕ) → order_of (take m p b) p ≡ 11
unfolding set_order del_free
order_of-take_p m p b = ground arith

order_of-take_b : (m : Memory) (p b : ℕ) → order_of (take m p b) b ≡ 11
unfolding set_order del_free
order_of-take_b m p b = ground arith

-- The buddy `b` of order `k` is in its list, and the block at `p` in none.
pub record Taking (m : Memory) (k p b : ℕ) : Type 0 where
  pub less : k < 11
  pub free : Free m p
  pub block : Block m k p
  pub listed : is_in b (m.free_lists k) ≡ true
  pub differ : b ≢ p

only_there :
    (m : Memory) (k p b : ℕ) → Taking m k p b → (j : ℕ) → j ≢ k → is_in b (m.free_lists j) ≡ false
only_there m k p b t j ne = elim (Bool-cases (is_in b (m.free_lists j))) [
  | inl e ↦ absurd (ne (sym (t.free.order j b e).1 ∙ (t.free.order k b t.listed).1))
  | inr e ↦ e
]

pub weigh-take :
    (w : Weight) (m : Memory) (k p b : ℕ)
    → Taking m k p b
    → w k b + weigh w (take m p b).free_lists ≡ weigh w m.free_lists
unfolding set_order del_free
weigh-take w m k p b t = weigh-remove w m.free_lists k b t.less t.listed (only_there m k p b t)

gone :
    (m : Memory) (k p b : ℕ)
    → Taking m k p b
    → (j : ℕ) → is_in b ((take m p b).free_lists j) ≡ false
gone m k p b t j = elim (Bool-cases (is_in b ((take m p b).free_lists j))) [
  | inl e ↦
      let old =
        is_in-remove_old b b (m.free_lists j) (ap (is_in b) (sym (free_lists-take m p b j)) ∙ e) in
      let i = weigh-is_in (covers b) (take m p b).free_lists j b (t.free.order j b old).0 e in
      let c = weigh-take (covers b) m k p b t in
      let o = t.free.once b in absurd (ground (arith, i, c, o, pow_pos j, pow_pos k))
  | inr e ↦ e
]

differ_by : (f : ℕ → Bool) (q p : ℕ) → f q ≡ true → f p ≡ false → q ≢ p
differ_by f q p h h' e = let c = sym h ∙ (ap f e ∙ h') in ground (arith, c)

take-is_in :
    (m : Memory) (k p b : ℕ)
    → Taking m k p b
    → (j q : ℕ) → is_in q ((take m p b).free_lists j) ≡ true
    → (q ≢ p) × ((q ≢ b) × (is_in q (m.free_lists j) ≡ true))
take-is_in m k p b t j q h =
    let old =
      is_in-remove_old q b (m.free_lists j) (ap (is_in q) (sym (free_lists-take m p b j)) ∙ h) in
    let n = Block-not_in t.block p t.free j in
    let g = gone m k p b t j in
    (
      λ e. differ_by (λ v. is_in v (m.free_lists j)) q p old n e,
      (λ e. differ_by (λ v. is_in v ((take m p b).free_lists j)) q b h g e, old),
    )

take_complete :
    (m : Memory) (k p b : ℕ)
    → Taking m k p b
    → (q : ℕ) → q < all_pfn
    → refcnt (take m p b) q ≡ 0
    → order_of (take m p b) q < 11
    → is_in q ((take m p b).free_lists (order_of (take m p b) q)) ≡ true
take_complete m k p b t q l r o = elim (Bool-cases (q == p)) [
  | inl z ↦
      let e : q ≡ p = (==_iff q p).0 z in
      absurd (omega (arith, o, order_of-take_p m p b, ap (order_of (take m p b)) e))
  | inr z ↦ elim (Bool-cases (q == b)) [
    | inl y ↦
        let e : q ≡ b = (==_iff q b).0 y in
        absurd (omega (arith, o, order_of-take_b m p b, ap (order_of (take m p b)) e))
    | inr y ↦
        let a : q ≢ p = ground (arith, z) in
        let c : q ≢ b = ground (arith, y) in
        let e : order_of (take m p b) q ≡ order_of m q = order_of-take_ne m p b q a c in
        let i = t.free.complete q l a (sym (refcnt-take m p b q) ∙ r) (omega (arith, o, e)) in
        subst (λ j. is_in q ((take m p b).free_lists j) ≡ true) (sym e)
          (ap (is_in q) (free_lists-take m p b (order_of m q))
            ∙ (is_in-remove q b (m.free_lists (order_of m q)) c ∙ i))
  ]
]

pub take-Free : (m : Memory) (k p b hole : ℕ) → Taking m k p b → Free (take m p b) hole
take-Free m k p b hole t =
    let f : Free m p = t.free in
    let old = take-is_in m k p b t in
    record {
      order = λ j q i.
          let (a, (c, o)) = old j q i in
          ((f.order j q o).0, order_of-take_ne m p b q a c ∙ (f.order j q o).1);
      aligned = λ j q i. f.aligned j q (old j q i).1.1;
      bound = λ j q i. f.bound j q (old j q i).1.1;
      quiet = λ j q x i r. refcnt-take m p b x ∙ f.quiet j q x (old j q i).1.1 r;
      complete = λ q l ne r o. take_complete m k p b t q l r o;
      once = λ x. omega (arith, weigh-take (covers x) m k p b t, f.once x);
    }

in_halves :
    (k p b x : ℕ) → Buddies k p b → Inside (k + 1) (minimum p b) x → Inside k p x ⊎ Inside k b x
in_halves k p b x y r =
    let s = pow_step k in
    let a = y.apart in
    elim (Bool-cases (leb p x && ltb x (p + 2 ^ k))) [
      | inl e ↦ inl (ground (arith, e))
      | inr e ↦ inr (ground (arith, e, a, s, r))
    ]

quiet_halves :
    (m : Memory) (k p b : ℕ)
    → Taking m k p b
    → Buddies k p b
    → (x : ℕ) → Inside (k + 1) (minimum p b) x
    → refcnt m x ≡ 0
quiet_halves m k p b t y x r = elim (in_halves k p b x y r) [
  | inl i ↦ t.block.quiet x i
  | inr i ↦ t.free.quiet k b x t.listed i
]

out_halves :
    (m : Memory) (k p b : ℕ)
    → Taking m k p b
    → Buddies k p b
    → (x : ℕ) → Inside (k + 1) (minimum p b) x
    → weigh (covers x) (take m p b).free_lists ≡ 0
out_halves m k p b t y x r =
    let c = weigh-take (covers x) m k p b t in
    elim (in_halves k p b x y r) [
      | inl i ↦ omega (arith, c, t.block.out x i)
      | inr i ↦ ground (arith, c, t.free.once x, i)
    ]

-- The two buddies are a block of the next order that is in no list.
pub take-Block :
    (m : Memory) (k p b : ℕ)
    → Taking m k p b
    → Buddies k p b
    → Block (take m p b) (k + 1) (minimum p b)
take-Block m k p b t y =
    let s = pow_step k in
    let i = t.free.bound k b t.listed in
    let o = t.block.bound in
    record {
      aligned = y.joined;
      bound = ground (arith, s, i, o, y.apart);
      quiet = λ x r. refcnt-take m p b x ∙ quiet_halves m k p b t y x r;
      out = λ x r. out_halves m k p b t y x r;
    }

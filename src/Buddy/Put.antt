-- ===== src/Buddy/Put.antt =====
-- Putting a block into a free list of mm/mm.c keeps the invariant.
use risc.Common.{
  ℕ, ◌+◌, ◌^◌, ◌<◌, ◌≡◌, ◌≢◌, sym, ap, ◌∙◌, true, false, ◌⊎◌, inl, inr, ◌==◌, arith, Bool-cases,
  ==_iff, List,
}
use mathlib.Core.Path.{subst}
use risc.Buddy.{Memory, all_pfn, set_order, add_free}
use risc.Buddy.Weight.{Weight, weigh, covers, is_in, weigh-push}
use risc.Buddy.Block.{Aligned}
use risc.Buddy.Invariant.{Free, Block, Inside, refcnt, order_of, Block-not_in}

-- the block at `p` set to order `k` and added to that list
abbrev pub put : Memory → ℕ → ℕ → Memory
put m p k = add_free (set_order m p k) p k

put-is_in :
    (m : Memory) (p k j q : ℕ)
    → is_in q ((put m p k).free_lists j) ≡ true
    → ((q ≡ p) × (j ≡ k)) ⊎ (is_in q (m.free_lists j) ≡ true)
unfolding add_free set_order
put-is_in m p k j q h = elim (Bool-cases (j == k)) [
  | inr z ↦ inr (ground (arith, z, h))
  | inl z ↦
      let y : j ≡ k = (==_iff j k).0 z in
      elim (Bool-cases (p == q)) [
        | inl e ↦ let e' : p ≡ q = (==_iff p q).0 e in inl (sym e', y)
        | inr e ↦ inr (ap (λ i. is_in q (m.free_lists i)) y ∙ ground (arith, z, e, h))
      ]
]

is_in-put :
    (m : Memory) (p k j q : ℕ)
    → is_in q (m.free_lists j) ≡ true
    → is_in q ((put m p k).free_lists j) ≡ true
unfolding add_free set_order
is_in-put m p k j q h = elim (Bool-cases (j == k)) [
  | inr z ↦ ground (arith, z, h)
  | inl z ↦
      let y : j ≡ k = (==_iff j k).0 z in
      let h' : is_in q (m.free_lists k) ≡ true = ap (λ i. is_in q (m.free_lists i)) (sym y) ∙ h in
      ground (arith, z, h')
]

put_self : (m : Memory) (p k : ℕ) → is_in p ((put m p k).free_lists k) ≡ true
unfolding add_free set_order
put_self m p k = ground arith

order_of-put_self : (m : Memory) (p k : ℕ) → order_of (put m p k) p ≡ k
unfolding add_free set_order
order_of-put_self m p k = ground arith

order_of-put_ne : (m : Memory) (p k q : ℕ) → q ≢ p → order_of (put m p k) q ≡ order_of m q
unfolding add_free set_order
order_of-put_ne m p k q h = ground (arith, h)

pub refcnt-put : (m : Memory) (p k q : ℕ) → refcnt (put m p k) q ≡ refcnt m q
unfolding add_free set_order
refcnt-put m p k q = ground arith

pub weigh-put :
    (w : Weight) (m : Memory) (p k : ℕ)
    → k < 11
    → weigh w (put m p k).free_lists ≡ w k p + weigh w m.free_lists
unfolding add_free set_order
weigh-put w m p k h = weigh-push w m.free_lists k p h

put_complete :
    (m : Memory) (hole hole' p k : ℕ)
    → Free m hole
    → ((q : ℕ) → q < all_pfn → q ≢ hole' → q ≢ p → q ≢ hole)
    → (q : ℕ) → q < all_pfn
    → q ≢ hole'
    → refcnt (put m p k) q ≡ 0
    → order_of (put m p k) q < 11
    → is_in q ((put m p k).free_lists (order_of (put m p k) q)) ≡ true
put_complete m hole hole' p k f ne q b h r o = elim (Bool-cases (q == p)) [
  | inl z ↦
      let y : q ≡ p = (==_iff q p).0 z in
      let i =
        subst (λ j. is_in p ((put m p k).free_lists j) ≡ true) (sym (order_of-put_self m p k))
          (put_self m p k) in
      subst (λ v. is_in v ((put m p k).free_lists (order_of (put m p k) v)) ≡ true) (sym y) i
  | inr z ↦
      let d : q ≢ p = ground (arith, z) in
      let e : order_of (put m p k) q ≡ order_of m q = order_of-put_ne m p k q d in
      let c = f.complete q b (ne q b h d) (sym (refcnt-put m p k q) ∙ r) (omega (arith, e, o)) in
      subst (λ j. is_in q ((put m p k).free_lists j) ≡ true) (sym e)
        (is_in-put m p k (order_of m q) q c)
]

not_in-≢ : (p q : ℕ) (l : List ℕ) → is_in p l ≡ false → is_in q l ≡ true → q ≢ p
not_in-≢ p q l out i e =
    let c : is_in p l ≡ true = ap (λ v. is_in v l) (sym e) ∙ i in ground (arith, c, out)

pub put-Free :
    (m : Memory) (hole p k hole' : ℕ)
    → k < 11
    → Free m hole
    → Block m k p
    → ((q : ℕ) → q < all_pfn → q ≢ hole' → q ≢ p → q ≢ hole)
    → Free (put m p k) hole'
put-Free m hole p k hole' l f b ne =
    let old = λ (j q : ℕ). put-is_in m p k j q in
    record {
      order = λ j q i. elim (old j q i) [
        | inl (e, y) ↦
            (omega (arith, y, l), ap (order_of (put m p k)) e ∙ (order_of-put_self m p k ∙ sym y))
        | inr i' ↦
            let d : q ≢ p = not_in-≢ p q (m.free_lists j) (Block-not_in b hole f j) i' in
            ((f.order j q i').0, order_of-put_ne m p k q d ∙ (f.order j q i').1)
      ];
      aligned = λ j q i. elim (old j q i) [
        | inl (e, y) ↦ subst (λ v. Aligned j v) (sym e) (subst (λ i. Aligned i p) (sym y) b.aligned)
        | inr i' ↦ f.aligned j q i'
      ];
      bound = λ j q i. elim (old j q i) [
        | inl (e, y) ↦ omega (arith, b.bound, e, ap (λ i. 2 ^ i) y)
        | inr i' ↦ f.bound j q i'
      ];
      quiet = λ j q x i r. refcnt-put m p k x ∙ elim (old j q i) [
        | inl (e, y) ↦ b.quiet x (omega (arith, e, r.0), omega (arith, e, ap (λ i. 2 ^ i) y, r.1))
        | inr i' ↦ f.quiet j q x i' r
      ];
      complete = put_complete m hole hole' p k f ne;
      once = λ x. let c = weigh-put (covers x) m p k l in ground (arith, c, f.once x, b.out x);
    }

pub put-Block :
    (m : Memory) (p k : ℕ) {j q : ℕ}
    → k < 11
    → Block m j q
    → ((x : ℕ) → Inside j q x → covers x k p ≡ 0)
    → Block (put m p k) j q
put-Block m p k l b apart = record {
  aligned = b.aligned;
  bound = b.bound;
  quiet = λ x r. refcnt-put m p k x ∙ b.quiet x r;
  out = λ x r. omega (arith, weigh-put (covers x) m p k l, b.out x r, apart x r);
}

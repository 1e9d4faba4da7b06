-- ===== src/Buddy/Invariant.antt =====
-- The invariant of the free lists of mm/mm.c, and how putting a block in and taking one out keep it.
use risc.Common.{
  ℕ, ◌+◌, ◌^◌, ◌≤◌, ◌<◌, ◌≡◌, ◌≢◌, sym, ap, ◌∙◌, true, false, inl, inr, ◌==◌, arith, Bool-cases,
  ==_iff, List, ◌∷◌,
}
use risc.Buddy.{Memory, all_pfn, update}
use risc.Buddy.Weight.{weigh, covers, is_in, weigh-pop, weigh-is_in}
use risc.Buddy.Block.{Aligned, pow_pos}

abbrev pub refcnt : Memory → ℕ → ℕ
refcnt m p = (m.pages p).refcnt

abbrev pub order_of : Memory → ℕ → ℕ
order_of m p = (m.pages p).order

abbrev pub Inside : ℕ → ℕ → ℕ → Type 0
Inside k p x = (p ≤ x) × (x < p + 2 ^ k)

-- What holds of every block of the free lists while the block at `hole` is in nobody's list.
pub record Free (m : Memory) (hole : ℕ) : Type 0 where
  pub order : (k p : ℕ) → is_in p (m.free_lists k) ≡ true → (k < 11) × (order_of m p ≡ k)
  pub aligned : (k p : ℕ) → is_in p (m.free_lists k) ≡ true → Aligned k p
  pub bound : (k p : ℕ) → is_in p (m.free_lists k) ≡ true → p + 2 ^ k ≤ all_pfn
  pub quiet : (k p x : ℕ) → is_in p (m.free_lists k) ≡ true → Inside k p x → refcnt m x ≡ 0
  pub complete :
      (p : ℕ)
      → p < all_pfn
      → p ≢ hole
      → refcnt m p ≡ 0
      → order_of m p < 11
      → is_in p (m.free_lists (order_of m p)) ≡ true
  pub once : (x : ℕ) → weigh (covers x) m.free_lists ≤ 1

-- the invariant between two calls
abbrev pub IsValid : Memory → Type 0
IsValid m = Free m all_pfn

-- A block that is in no free list, and that nobody refers to.
pub record Block (m : Memory) (k p : ℕ) : Type 0 where
  pub aligned : Aligned k p
  pub bound : p + 2 ^ k ≤ all_pfn
  pub quiet : (x : ℕ) → Inside k p x → refcnt m x ≡ 0
  pub out : (x : ℕ) → Inside k p x → weigh (covers x) m.free_lists ≡ 0

-- no free list has a page of the block
pub Block-not_in :
    {m : Memory} {k p : ℕ} (b : Block m k p) (hole : ℕ)
    → Free m hole
    → (j : ℕ) → is_in p (m.free_lists j) ≡ false
Block-not_in {m} {k} {p} b hole f j = elim (Bool-cases (is_in p (m.free_lists j))) [
  | inl e ↦
      let c = weigh-is_in (covers p) m.free_lists j p (f.order j p e).0 e in
      absurd (ground (arith, c, b.out p (omega arith, omega (arith, pow_pos k)), pow_pos j))
  | inr e ↦ e
]

-- `list_pop` of the list of order `k`
pub pop-Block :
    (m : Memory) (hole k p : ℕ) (l : List ℕ)
    → k < 11
    → m.free_lists k ≡ p ∷ l
    → Free m hole
    → Block (record m { free_lists = update m.free_lists k l }) k p
pop-Block m hole k p l h e f =
    let i : is_in p (m.free_lists k) ≡ true = ground (arith, e) in
    record {
      aligned = f.aligned k p i;
      bound = f.bound k p i;
      quiet = λ x r. f.quiet k p x i r;
      out = λ x (r : Inside k p x).
          let c = weigh-pop (covers x) m.free_lists k p l h e in ground (arith, c, f.once x, r);
    }

is_in-pop :
    (f : ℕ → List ℕ) (k p j q : ℕ) (l : List ℕ)
    → f k ≡ p ∷ l
    → q ≢ p
    → is_in q (f j) ≡ true
    → is_in q (update f k l j) ≡ true
is_in-pop f k p j q l e ne m = elim (Bool-cases (j == k)) [
  | inl z ↦
      let y : j ≡ k = (==_iff j k).0 z in
      let y' : f j ≡ p ∷ l = ap f y ∙ e in
      let i : is_in q (p ∷ l) ≡ true = sym (ap (is_in q) y') ∙ m in ground (arith, z, i, ne)
  | inr z ↦ ground (arith, z, m)
]

pop-is_in :
    (f : ℕ → List ℕ) (k p j q : ℕ) (l : List ℕ)
    → f k ≡ p ∷ l
    → is_in q (update f k l j) ≡ true
    → is_in q (f j) ≡ true
pop-is_in f k p j q l e m = elim (Bool-cases (j == k)) [
  | inl z ↦
      let y : j ≡ k = (==_iff j k).0 z in
      let i : is_in q l ≡ true = ground (arith, z, m) in
      ap (is_in q) (ap f y ∙ e) ∙ ground (arith, i)
  | inr z ↦ ground (arith, z, m)
]

pub pop-Free :
    (m : Memory) (k p : ℕ) (l : List ℕ)
    → k < 11
    → m.free_lists k ≡ p ∷ l
    → IsValid m
    → Free (record m { free_lists = update m.free_lists k l }) p
pop-Free m k p l h e f =
    let old : ((j q : ℕ)
        → is_in q (update m.free_lists k l j) ≡ true
        → is_in q (m.free_lists j) ≡ true) =
      λ j q. pop-is_in m.free_lists k p j q l e in
    record {
      order = λ j q i. f.order j q (old j q i);
      aligned = λ j q i. f.aligned j q (old j q i);
      bound = λ j q i. f.bound j q (old j q i);
      quiet = λ j q x i. f.quiet j q x (old j q i);
      complete = λ q b ne r o.
          is_in-pop m.free_lists k p (order_of m q) q l e ne
            (f.complete q b (λ z. absurd (omega (arith, b, z))) r o);
      once = λ x. omega (arith, weigh-pop (covers x) m.free_lists k p l h e, f.once x);
    }

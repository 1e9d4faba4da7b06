-- ===== src/Buddy/Merge.antt =====
-- Merging a freed block of mm/mm.c with its buddies.
use risc.Common.{
  ℕ, zero, suc, ◌+◌, ◌-◌, ◌<◌, ◌≡◌, ◌≢◌, refl, sym, ap, ◌∙◌, Bool, true, false, ◌&&◌, inl, inr,
  ◌==◌, arith, Bool-cases, some, none, Option-cases,
}
use mathlib.Core.Path.{subst}
use risc.Buddy.{Memory, set_order, del_free, page_is_free, minimum}
use risc.Buddy.Weight.{Weight, weigh, is_in}
use risc.Buddy.Block.{IsAdditive, pow_pos, Buddies}
use risc.Buddy.Invariant.{Free, Block, refcnt, order_of}
use mathlib.Core.Option.{some-injective}
use risc.Buddy.{merge, find_buddy}
use risc.Buddy.Block.{find_buddy-Buddies}
use risc.Buddy.Take.{take, Taking, take-Free, take-Block, refcnt-take, weigh-take}

-- What merging the block of order `k` at `p` into the block of order `k'` at `p'` has done.
pub record Merged (m m' : Memory) (k p k' p' : ℕ) : Type 0 where
  pub less : k' < 11
  pub rest : Free m' p'
  pub block : Block m' k' p'
  pub weight :
      (w : Weight) → IsAdditive w → w k' p' + weigh w m'.free_lists ≡ w k p + weigh w m.free_lists
  pub same_free : m'.free ≡ m.free
  pub same_refcnt : (x : ℕ) → refcnt m' x ≡ refcnt m x
  pub whole : k' < 10 → (b : ℕ) → find_buddy p' k' ≡ some b → is_in b (m'.free_lists k') ≡ false

stop-Merged :
    (m : Memory) (k p : ℕ)
    → k < 11
    → Free m p
    → Block m k p
    → (k < 10 → (b : ℕ) → find_buddy p k ≡ some b → is_in b (m.free_lists k) ≡ false)
    → Merged m m k p k p
stop-Merged m k p l f b h = record {
  less = l;
  rest = f;
  block = b;
  weight = λ w a. refl;
  same_free = refl;
  same_refcnt = λ x. refl;
  whole = h;
}

-- the test of the loop of `buddy_free`
abbrev pub can_merge : Memory → ℕ → ℕ → Bool
can_merge m b level = page_is_free m b && (m.pages b).order == level

can_merge-Taking :
    (m : Memory) (k p b : ℕ)
    → k < 11
    → Free m p
    → Block m k p
    → Buddies k p b
    → can_merge m b k ≡ true
    → Taking m k p b
unfolding page_is_free
can_merge-Taking m k p b l f c y h =
    let r : refcnt m b ≡ 0 = ground (arith, h) in
    let o : order_of m b ≡ k = ground (arith, h) in
    let d : b ≢ p = (λ e. absurd (ground (arith, e, y.apart, pow_pos k))) in
    let i = f.complete b y.bound d r (omega (arith, o, l)) in
    record {
      less = l;
      free = f;
      block = c;
      listed = subst (λ j. is_in b (m.free_lists j) ≡ true) o i;
      differ = d;
    }

not_merged :
    (m : Memory) (k p b : ℕ) → Free m p → can_merge m b k ≡ false → is_in b (m.free_lists k) ≡ false
unfolding page_is_free
not_merged m k p b f h = elim (Bool-cases (is_in b (m.free_lists k))) [
  | inl e ↦
      let o = (f.order k b e).1 in
      let r = f.quiet k b b e (omega arith, omega (arith, pow_pos k)) in
      absurd (ground (arith, h, o, r))
  | inr e ↦ e
]

minimum-weight :
    (w : Weight) (k p b : ℕ)
    → IsAdditive w
    → Buddies k p b
    → w (k + 1) (minimum p b) ≡ w k p + w k b
minimum-weight w k p b a y = elim y.apart [
  | inl e ↦
      let q : minimum p b ≡ p = ground (arith, e) in
      omega (arith, ap (w (k + 1)) q, a k p, ap (w k) e)
  | inr e ↦
      let q : minimum p b ≡ b = ground (arith, e, pow_pos k) in
      omega (arith, ap (w (k + 1)) q, a k b, ap (w k) e)
]

step-Merged :
    (m m' : Memory) (k p b k' p' : ℕ)
    → Taking m k p b
    → Buddies k p b
    → Merged (take m p b) m' (k + 1) (minimum p b) k' p'
    → Merged m m' k p k' p'
unfolding set_order del_free
step-Merged m m' k p b k' p' t y g = record {
  less = g.less;
  rest = g.rest;
  block = g.block;
  weight = λ w a. omega (arith, g.weight w a, weigh-take w m k p b t, minimum-weight w k p b a y);
  same_free = g.same_free;
  same_refcnt = λ x. g.same_refcnt x ∙ refcnt-take m p b x;
  whole = g.whole;
}

-- the equations of the loop at level `k`
merge-none :
    (m : Memory) (p n k : ℕ)
    → k ≡ 10 - suc n
    → find_buddy p k ≡ none
    → merge m p (suc n) ≡ (m, p, k)
unfolding merge
merge-none m p n k e z =
    let f : find_buddy p (10 - suc n) ≡ none = ap (find_buddy p) (sym e) ∙ z in ground (arith, f, e)

merge-stops :
    (m : Memory) (p n k b : ℕ)
    → k ≡ 10 - suc n
    → find_buddy p k ≡ some b
    → can_merge m b k ≡ false
    → merge m p (suc n) ≡ (m, p, k)
unfolding merge
merge-stops m p n k b e z c =
    let f : find_buddy p (10 - suc n) ≡ some b = ap (find_buddy p) (sym e) ∙ z in
    let c' : can_merge m b (10 - suc n) ≡ false = ap (can_merge m b) (sym e) ∙ c in
    ground (arith, f, e, c')

merge-goes_on :
    (m : Memory) (p n k b : ℕ)
    → k ≡ 10 - suc n
    → find_buddy p k ≡ some b
    → can_merge m b k ≡ true
    → merge m p (suc n) ≡ merge (take m p b) (minimum p b) n
unfolding merge
merge-goes_on m p n k b e z c =
    let f : find_buddy p (10 - suc n) ≡ some b = ap (find_buddy p) (sym e) ∙ z in
    let c' : can_merge m b (10 - suc n) ≡ true = ap (can_merge m b) (sym e) ∙ c in
    ground (arith, f, e, c')

abbrev MergedTo : Memory → ℕ → ℕ → Memory × ℕ × ℕ → Type 0
MergedTo m k p r = Merged m r.0 k p r.2 r.1

pub merge-Merged :
    (n : ℕ) (m : Memory) (p k : ℕ)
    → k + n ≡ 10
    → Free m p
    → Block m k p
    → MergedTo m k p (merge m p n)
unfolding merge
merge-Merged zero m p k e f b =
    let e' : k ≡ 10 = omega (arith, e) in
    let s = stop-Merged m k p (omega (arith, e')) f b (λ l. absurd (omega (arith, l, e'))) in
    subst (λ j. Merged m m k p j p) e' s
merge-Merged (suc n) m p k e f b =
    let e' : k ≡ 10 - suc n = omega (arith, e) in
    let l : k < 11 = omega (arith, e) in
    elim (Option-cases (find_buddy p k)) [
      | inl z ↦
          let s = stop-Merged m k p l f b (λ h y q. absurd (ground (arith, z, q))) in
          subst (MergedTo m k p) (sym (merge-none m p n k e' z)) s
      | inr (y, z) ↦
          let u = find_buddy-Buddies k p y b.aligned z in
          elim (Bool-cases (can_merge m y k)) [
            | inl c ↦
                let t = can_merge-Taking m k p y l f b u c in
                let r =
                  merge-Merged n (take m p y) (minimum p y) (k + 1) (omega (arith, e))
                    (take-Free m k p y (minimum p y) t) (take-Block m k p y t u) in
                let (m', p', k') = merge (take m p y) (minimum p y) n in
                subst (MergedTo m k p) (sym (merge-goes_on m p n k y e' z c))
                  (step-Merged m m' k p y k' p' t u r)
            | inr c ↦
                let s = stop-Merged m k p l f b (λ h y' q.
                  let same = some-injective y y' (sym z ∙ q) in
                  subst (λ v. is_in v (m.free_lists k) ≡ false) same (not_merged m k p y f c)) in
                subst (MergedTo m k p) (sym (merge-stops m p n k y e' z c)) s
          ]
    ]

-- ===== src/Easyfs/Inodes/Given.antt =====
-- The loops of `efs_i_data_free` of fs/easyfs/inode.c.
use mathlib.Core.Path.{subst, ap, sym, ◌∙◌}
use risc.Common.{
  ℕ, zero, suc, ◌+◌, ◌≤◌, ◌<◌, ◌≡◌, ◌≢◌, refl, inl, inr, true, false, none, some, arith, ◌==◌,
  Bool-cases,
}
use risc.Bitmap.{test_bit}
use risc.Bitmap.Free.{Freed}
use risc.Easyfs.{Efs, efs_bmap_free}
use risc.Easyfs.Inodes.{free_blocks}
use risc.Easyfs.Space.{Counted, efs_bmap_free-Freed}

-- The blocks at the indices from `j` below `k` are in use in the map, and all different.
pub record InUse (e : Efs) (blocks : ℕ → ℕ) (j k : ℕ) : Type 0 where
  pub used : (q : ℕ) → j ≤ q → q < k → test_bit e.bmap.map (blocks q) ≡ true
  pub ranged : (q : ℕ) → j ≤ q → q < k → blocks q < e.bmap.size
  pub some_block : (q : ℕ) → j ≤ q → q < k → 0 < blocks q
  pub distinct : (q r : ℕ) → j ≤ q → q < r → r < k → blocks q ≢ blocks r

-- They have been given back, and nothing else has changed.
pub record GivenBack (e : Efs) (blocks : ℕ → ℕ) (j k : ℕ) (e1 : Efs) : Type 0 where
  pub counted : Counted e1
  pub cleared : (q : ℕ) → j ≤ q → q < k → test_bit e1.bmap.map (blocks q) ≡ false
  pub others :
      (b : ℕ)
      → ((q : ℕ) → j ≤ q → q < k → blocks q ≢ b)
      → test_bit e1.bmap.map b ≡ test_bit e.bmap.map b
  pub more : e1.block_free + j ≡ e.block_free + k
  pub size : e1.bmap.size ≡ e.bmap.size
  pub same : e1 ≡ record e { bmap = e1.bmap; block_free = e1.block_free; s_dirty = e1.s_dirty }

none_given : (e : Efs) (blocks : ℕ → ℕ) (j : ℕ) → Counted e → GivenBack e blocks j j e
none_given e blocks j v = record {
  counted = v;
  cleared = λ q a b. absurd (omega (arith, a, b));
  others = λ b h. refl;
  more = refl;
  size = refl;
  same = refl;
}

free_blocks_end :
    (n : ℕ) (e : Efs) (blocks : ℕ → ℕ) (j : ℕ)
    → (0 < n → blocks j ≡ 0)
    → free_blocks n e blocks j ≡ some e
unfolding free_blocks
free_blocks_end zero e blocks j h = refl
free_blocks_end (suc n) e blocks j h = rw (h (omega arith)) refl

free_blocks_round :
    (n : ℕ) (e : Efs) (blocks : ℕ → ℕ) (j : ℕ) {e1 : Efs}
    → 0 < blocks j
    → efs_bmap_free e (blocks j) ≡ some e1
    → free_blocks (suc n) e blocks j ≡ free_blocks n e1 blocks (j + 1)
unfolding free_blocks
free_blocks_round n e blocks j {e1} lt p = ground (arith, p)

InUse-rest :
    (e : Efs) (blocks : ℕ → ℕ) (j k : ℕ) {e1 : Efs}
    → j < k
    → Freed e.bmap (blocks j) e1.bmap
    → InUse e blocks j k
    → InUse e1 blocks (j + 1) k
InUse-rest e blocks j k {e1} lt f v = record {
  used = λ q a b.
      f.others (blocks q) (v.distinct j q (omega arith) (omega (arith, a)) b)
      ∙ v.used q (omega (arith, a)) b;
  ranged = λ q a b. rw f.size (v.ranged q (omega (arith, a)) b);
  some_block = λ q a b. v.some_block q (omega (arith, a)) b;
  distinct = λ q r a b c. v.distinct q r (omega (arith, a)) b c;
}

GivenBack-round :
    (e : Efs) (blocks : ℕ → ℕ) (j k : ℕ) {e1 e2 : Efs}
    → j < k
    → InUse e blocks j k
    → Freed e.bmap (blocks j) e1.bmap
    → e1 ≡ record e { bmap = e1.bmap; block_free = e.block_free + 1; s_dirty = true }
    → GivenBack e1 blocks (j + 1) k e2
    → GivenBack e blocks j k e2
GivenBack-round e blocks j k {e1} {e2} lt u f same g = record {
  counted = g.counted;
  cleared = λ q a b. elim (Bool-cases (j == q)) [
    | inl s ↦
        let here : j ≡ q = ground arith in
        let away : (r : ℕ) → j + 1 ≤ r → r < k → blocks r ≢ blocks q =
          λ r c d h. u.distinct j r (omega arith) (omega (arith, c)) d (ap blocks here ∙ sym h) in
        g.others (blocks q) away
        ∙ ap (λ t. test_bit e1.bmap.map (blocks t)) (sym here)
        ∙ f.now_clear
    | inr s ↦ g.cleared q (ground arith) b
  ];
  others =
      λ b h. g.others b (λ q c d. h q (omega (arith, c)) d) ∙ f.others b (h j (omega arith) lt);
  more = omega (arith, g.more, ap (λ x. x.block_free) same);
  size = g.size ∙ f.size;
  same =
      g.same
      ∙ ap {A = Efs}
          (λ x. record x { bmap = e2.bmap; block_free = e2.block_free; s_dirty = e2.s_dirty }) same;
}

pub free_blocks-GivenBack :
    (n : ℕ) (e : Efs) (blocks : ℕ → ℕ) (j k : ℕ)
    → j ≤ k
    → k ≤ j + n
    → (k < j + n → blocks k ≡ 0)
    → Counted e
    → InUse e blocks j k
    → (e1 : Efs) × (free_blocks n e blocks j ≡ some e1) × GivenBack e blocks j k e1
free_blocks-GivenBack zero e blocks j k le ge stop v u =
    let same : j ≡ k = omega (arith, le, ge) in
    (
      e,
      free_blocks_end zero e blocks j (λ h. absurd (omega (arith, h))),
      subst (λ t. GivenBack e blocks j t e) same (none_given e blocks j v),
    )
free_blocks-GivenBack (suc n) e blocks j k le ge stop v u = elim (Bool-cases (j == k)) [
  | inl s ↦
      let same : j ≡ k = ground arith in
      (
        e,
        free_blocks_end (suc n) e blocks j (λ h. ap blocks same ∙ stop (omega (arith, same))),
        subst (λ t. GivenBack e blocks j t e) same (none_given e blocks j v),
      )
  | inr s ↦
      let lt : j < k = ground arith in
      let here = u.some_block j (omega arith) lt in
      let (e1, p, f, same, v1) =
        (efs_bmap_free-Freed e (blocks j) v (u.ranged j (omega arith) lt)).1
          (u.used j (omega arith) lt) in
      let (e2, q, g) =
        free_blocks-GivenBack n e1 blocks (j + 1) k (omega (arith, lt)) (omega (arith, ge))
          (λ h. stop (omega (arith, h))) v1 (InUse-rest e blocks j k lt f u) in
      (e2, free_blocks_round n e blocks j here p ∙ q, GivenBack-round e blocks j k lt u f same g)
]

-- the blocks of the indirect block are in use still when the others have been given back
pub InUse-kept :
    (e : Efs) (f g : ℕ → ℕ) (k m : ℕ) {e1 : Efs}
    → GivenBack e f 0 k e1
    → ((q r : ℕ) → q < k → r < m → f q ≢ g r)
    → InUse e g 0 m
    → InUse e1 g 0 m
InUse-kept e f g k m {e1} b apart u = record {
  used = λ q x y. b.others (g q) (λ t z w. apart t q w y) ∙ u.used q x y;
  ranged = λ q x y. rw b.size (u.ranged q x y);
  some_block = u.some_block;
  distinct = u.distinct;
}

pub free_blocks_clear :
    (n : ℕ) (e : Efs) (blocks : ℕ → ℕ) (j : ℕ)
    → 0 < blocks j
    → efs_bmap_free e (blocks j) ≡ none
    → free_blocks (suc n) e blocks j ≡ none
unfolding free_blocks
free_blocks_clear n e blocks j lt p = ground (arith, p)

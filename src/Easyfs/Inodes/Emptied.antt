-- ===== src/Easyfs/Inodes/Emptied.antt =====
-- `efs_i_trunc` of fs/easyfs/inode.c on a file without holes whose indirect block has been read.
use mathlib.Core.Path.{ap, sym, ◌∙◌}
use risc.Common.{
  ℕ, ◌+◌, ◌-◌, ◌≤◌, ◌<◌, ◌≡◌, ◌≢◌, inl, inr, false, none, some, arith, ltb, ◌==◌, Bool-cases,
  Option-cases,
}
use risc.Bitmap.{test_bit}
use risc.Easyfs.{Efs, ndirect, nindirect}
use risc.Easyfs.Blocks.{block_of, indirect_of}
use risc.Easyfs.Inodes.{efs_i_trunc}
use risc.Easyfs.Inodes.Trunc.{Holds, Truncated, efs_i_trunc-Truncated}
use risc.Easyfs.Space.{Counted}

-- All blocks of a file are those that it holds: the `k` at its own addresses and the `m` in its indirect
-- block come before the first 0, and the indirect block, if there is one, has been read.
pub record Complete (e : Efs) (i k m : ℕ) : Type 0 where
  pub holds : Holds e i k m
  pub rest : (q : ℕ) → k ≤ q → q < ndirect + 1 → (e.inode i).i_addrs q ≡ 0
  pub read : (e.inode i).i_indir ≡ none → (e.inode i).i_addrs ndirect ≡ 0
  pub kept : (blk : ℕ → ℕ) → (e.inode i).i_indir ≡ some blk → 0 < (e.inode i).i_addrs ndirect
  pub indirect_rest :
      (blk : ℕ → ℕ) → (e.inode i).i_indir ≡ some blk → (r : ℕ) → m ≤ r → r < nindirect → blk r ≡ 0

-- The file is empty, each block of it and its indirect block are free and counted, and no other block
-- is touched.
pub record Emptied (e : Efs) (i k m : ℕ) (e1 : Efs) : Type 0 where
  pub counted : Counted e1
  pub empty : (e1.inode i).i_size ≡ 0
  pub more : e1.block_free ≡ e.block_free + k + m
  pub freed : (l : ℕ) → 0 < block_of e i l → test_bit e1.bmap.map (block_of e i l) ≡ false
  pub indirect_freed :
      0 < (e.inode i).i_addrs ndirect → test_bit e1.bmap.map ((e.inode i).i_addrs ndirect) ≡ false
  pub others :
      (b : ℕ)
      → ((l : ℕ) → block_of e i l ≢ b)
      → (e.inode i).i_addrs ndirect ≢ b
      → test_bit e1.bmap.map b ≡ test_bit e.bmap.map b

indirect_of-blk :
    (e : Efs) (i : ℕ) {blk : ℕ → ℕ} → (e.inode i).i_indir ≡ some blk → indirect_of e i ≡ blk
unfolding indirect_of
indirect_of-blk e i s = ground (arith, s)

block_of-direct : (e : Efs) (i l : ℕ) → l < ndirect → block_of e i l ≡ (e.inode i).i_addrs l
unfolding block_of
block_of-direct e i l lt = ground (arith, lt)

block_of-indirect :
    (e : Efs) (i r : ℕ) {blk : ℕ → ℕ}
    → (e.inode i).i_indir ≡ some blk
    → 0 < (e.inode i).i_addrs ndirect
    → r < nindirect
    → block_of e i (ndirect + r) ≡ blk r
unfolding block_of
block_of-indirect e i r {blk} s there lt =
    let q : block_of e i (ndirect + r) ≡ indirect_of e i r = ground (arith, there, lt) in
    q ∙ ap (λ f. f r) (indirect_of-blk e i s)

-- a block past the direct ones that is not 0
block_of-far :
    (e : Efs) (i l : ℕ)
    → ndirect ≤ l
    → 0 < block_of e i l
    → (0 < (e.inode i).i_addrs ndirect) × (l < ndirect + nindirect)
unfolding block_of
block_of-far e i l le there = (ground (arith, le, there), ground (arith, le, there))

freed-block_of :
    (e e1 : Efs) (i k m : ℕ)
    → Complete e i k m
    → Truncated e i k m e1
    → (l : ℕ) → 0 < block_of e i l
    → test_bit e1.bmap.map (block_of e i l) ≡ false
freed-block_of e e1 i k m c t l there = elim (Bool-cases (ltb l ndirect)) [
  | inl d ↦
      let same = block_of-direct e i l (ground (arith, d)) in
      let below : l < k = (elim (Bool-cases (ltb l k)) [
        | inl y ↦ ground (arith, y)
        | inr n ↦ absurd (ground (arith, c.rest l, n, d, same, there))
      ]) in
      ap (test_bit e1.bmap.map) same ∙ t.cleared l below
  | inr d ↦
      let (addr, bound) = block_of-far e i l (ground (arith, d)) there in
      elim (Option-cases (e.inode i).i_indir) [
        | inl n ↦ absurd (ground (arith, c.read n, addr))
        | inr (blk, s) ↦
            let r = l - ndirect in
            let at : ndirect + r ≡ l = ground (arith, d) in
            let same : block_of e i l ≡ blk r =
              ap (block_of e i) (sym at)
              ∙ block_of-indirect e i r s addr (omega (arith, at, bound)) in
            let below : r < m = (elim (Bool-cases (ltb r m)) [
              | inl y ↦ ground (arith, y)
              | inr y ↦ absurd (ground (arith, c.indirect_rest blk s r, y, at, bound, same, there))
            ]) in
            ap (test_bit e1.bmap.map) same ∙ t.indirect_cleared blk s r below
      ]
]

freed_indirect :
    (e e1 : Efs) (i k m : ℕ)
    → Complete e i k m
    → Truncated e i k m e1
    → 0 < (e.inode i).i_addrs ndirect
    → test_bit e1.bmap.map ((e.inode i).i_addrs ndirect) ≡ false
freed_indirect e e1 i k m c t there = elim (Bool-cases (ltb ndirect k)) [
  | inl y ↦ t.cleared ndirect (ground (arith, y))
  | inr n ↦ absurd (ground (arith, c.rest ndirect, n, there))
]

kept-others :
    (e e1 : Efs) (i k m : ℕ)
    → Complete e i k m
    → Truncated e i k m e1
    → (b : ℕ) → ((l : ℕ) → block_of e i l ≢ b)
    → (e.inode i).i_addrs ndirect ≢ b
    → test_bit e1.bmap.map b ≡ test_bit e.bmap.map b
kept-others e e1 i k m c t b none_of far =
    t.others b
      (λ q lt same. elim (Bool-cases (q == ndirect)) [
        | inl y ↦ far (ap (e.inode i).i_addrs (ground (arith, y)) ∙ same)
        | inr n ↦ none_of q (block_of-direct e i q (ground (arith, n, lt, c.holds.short)) ∙ same)
      ])
      (λ blk s r lt same. none_of (ndirect + r) (
        block_of-indirect e i r s (c.kept blk s) (omega (arith, lt, c.holds.indirect_short))
        ∙ same))

pub Truncated-Emptied :
    (e e1 : Efs) (i k m : ℕ) → Complete e i k m → Truncated e i k m e1 → Emptied e i k m e1
Truncated-Emptied e e1 i k m c t = record {
  counted = t.counted;
  empty = t.empty;
  more = t.more;
  freed = freed-block_of e e1 i k m c t;
  indirect_freed = freed_indirect e e1 i k m c t;
  others = kept-others e e1 i k m c t;
}

-- `efs_i_trunc` of a file with different blocks, all in use and none behind a 0, whose indirect block
-- has been read or is not there, gives back every block of the file and its indirect block, and no
-- other.
pub efs_i_trunc-Emptied :
    (e : Efs) (i k m : ℕ)
    → Counted e
    → Complete e i k m
    → (e1 : Efs) × (efs_i_trunc e i ≡ some e1) × Emptied e i k m e1
efs_i_trunc-Emptied e i k m v c =
    let (e1, p, t) = efs_i_trunc-Truncated e i k m v c.holds in
    (e1, p, Truncated-Emptied e e1 i k m c t)

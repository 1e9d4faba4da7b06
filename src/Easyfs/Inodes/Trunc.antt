-- ===== src/Easyfs/Inodes/Trunc.antt =====
-- What `efs_i_trunc` of fs/easyfs/inode.c gives back, and what it leaves.
use mathlib.Core.Path.{ap, sym, ◌∙◌}
use mathlib.Core.Option.{some-injective}
use risc.Common.{ℕ, ◌+◌, ◌≤◌, ◌<◌, ◌≡◌, ◌≢◌, inl, inr, true, false, none, some, arith, Option-cases}
use risc.Bitmap.{test_bit}
use risc.Easyfs.{Efs, put_inode, ndirect, nindirect, efs_bmap_free}
use risc.Easyfs.Inodes.{free_blocks, efs_i_data_free, efs_i_trunc}
use risc.Easyfs.Inodes.Given.{InUse, InUse-kept, free_blocks-GivenBack, free_blocks_clear}
use risc.Easyfs.Space.{Counted, efs_bmap_free-Freed}

-- The blocks of a file with `k` blocks at its own addresses, the indirect one among them, and `m` in its
-- indirect block, which has been read or is not there.
pub record Holds (e : Efs) (i k m : ℕ) : Type 0 where
  pub short : k ≤ ndirect + 1
  pub stop : k < ndirect + 1 → (e.inode i).i_addrs k ≡ 0
  pub direct_InUse : InUse e (e.inode i).i_addrs 0 k
  pub unread : (e.inode i).i_indir ≡ none → m ≡ 0
  pub indirect_short : m ≤ nindirect
  pub indirect_stop : (blk : ℕ → ℕ) → (e.inode i).i_indir ≡ some blk → m < nindirect → blk m ≡ 0
  pub indirect_InUse : (blk : ℕ → ℕ) → (e.inode i).i_indir ≡ some blk → InUse e blk 0 m
  pub apart :
      (blk : ℕ → ℕ)
      → (e.inode i).i_indir ≡ some blk
      → (q r : ℕ) → q < k
      → r < m
      → (e.inode i).i_addrs q ≢ blk r

-- What a truncation does: the file is empty, each of its blocks is free and counted, and no other block
-- is touched. Its inode still names all of them.
pub record Truncated (e : Efs) (i k m : ℕ) (e1 : Efs) : Type 0 where
  pub counted : Counted e1
  pub map_size : e1.bmap.size ≡ e.bmap.size
  pub same_imap : e1.imap ≡ e.imap
  pub same_free : e1.inode_free ≡ e.inode_free
  pub empty : (e1.inode i).i_size ≡ 0
  pub more : e1.block_free ≡ e.block_free + k + m
  pub cleared : (q : ℕ) → q < k → test_bit e1.bmap.map ((e.inode i).i_addrs q) ≡ false
  pub indirect_cleared :
      (blk : ℕ → ℕ)
      → (e.inode i).i_indir ≡ some blk
      → (r : ℕ) → r < m
      → test_bit e1.bmap.map (blk r) ≡ false
  pub others :
      (b : ℕ)
      → ((q : ℕ) → q < k → (e.inode i).i_addrs q ≢ b)
      → ((blk : ℕ → ℕ) → (e.inode i).i_indir ≡ some blk → (r : ℕ) → r < m → blk r ≢ b)
      → test_bit e1.bmap.map b ≡ test_bit e.bmap.map b
  pub addrs : (index : ℕ) → (e1.inode i).i_addrs index ≡ (e.inode i).i_addrs index
  pub indir : (e1.inode i).i_indir ≡ (e.inode i).i_indir

abbrev emptied : Efs → ℕ → Efs
emptied e i = put_inode e i (record (e.inode i) { i_size = 0; i_dirty = true })

data_free_none :
    (e : Efs) (i : ℕ) {e1 : Efs}
    → (e.inode i).i_indir ≡ none
    → free_blocks (ndirect + 1) e (e.inode i).i_addrs 0 ≡ some e1
    → efs_i_trunc e i ≡ some (emptied e1 i)
unfolding efs_i_trunc efs_i_data_free
data_free_none e i {e1} n p = ground (arith, n, p)

data_free_some :
    (e : Efs) (i : ℕ) {blk : ℕ → ℕ} {e1 e2 : Efs}
    → (e.inode i).i_indir ≡ some blk
    → free_blocks (ndirect + 1) e (e.inode i).i_addrs 0 ≡ some e1
    → free_blocks nindirect e1 blk 0 ≡ some e2
    → efs_i_trunc e i ≡ some (emptied e2 i)
unfolding efs_i_trunc efs_i_data_free
data_free_some e i {blk} {e1} {e2} n p q = ground (arith, n, p, q)

emptied_addrs : (e : Efs) (i j : ℕ) → ((emptied e i).inode i).i_addrs j ≡ (e.inode i).i_addrs j
emptied_addrs e i j = ground arith

emptied_indir : (e : Efs) (i : ℕ) → ((emptied e i).inode i).i_indir ≡ (e.inode i).i_indir
emptied_indir e i = ground arith

emptied_size : (e : Efs) (i : ℕ) → ((emptied e i).inode i).i_size ≡ 0
emptied_size e i = ground arith

emptied-Counted : (e : Efs) (i : ℕ) → Counted e → Counted (emptied e i)
emptied-Counted e i v = record {
  imap_IsValid = v.imap_IsValid;
  bmap_IsValid = v.bmap_IsValid;
  inodes = v.inodes;
  blocks = v.blocks;
}

-- `efs_i_trunc` of a file that holds different blocks, all in use, gives these back.
pub efs_i_trunc-Truncated :
    (e : Efs) (i k m : ℕ)
    → Counted e
    → Holds e i k m
    → (e1 : Efs) × (efs_i_trunc e i ≡ some e1) × Truncated e i k m e1
efs_i_trunc-Truncated e i k m v h =
    let addrs = (e.inode i).i_addrs in
    let (e1, p, g) =
      free_blocks-GivenBack (ndirect + 1) e addrs 0 k (omega arith) (omega (arith, h.short))
        (λ lt. h.stop (omega (arith, lt))) v h.direct_InUse in
    elim (Option-cases (e.inode i).i_indir) [
      | inl n ↦ (
        emptied e1 i,
        data_free_none e i n p,
        record {
          counted = emptied-Counted e1 i g.counted;
          map_size = g.size;
          same_imap = ap (λ x. x.imap) g.same;
          same_free = ap (λ x. x.inode_free) g.same;
          empty = emptied_size e1 i;
          more = omega (arith, g.more, h.unread n);
          cleared = λ q lt. g.cleared q (omega arith) lt;
          indirect_cleared = λ blk s r lt. absurd (omega (arith, h.unread n, lt));
          others = λ b x y. g.others b (λ q z lt. x q lt);
          addrs = λ j. emptied_addrs e1 i j ∙ ap (λ x. (x.inode i).i_addrs j) g.same;
          indir = emptied_indir e1 i ∙ ap (λ x. (x.inode i).i_indir) g.same;
        },
      )
      | inr (blk, s) ↦
          let (e2, q, g2) =
            free_blocks-GivenBack nindirect e1 blk 0 m (omega arith)
              (omega (arith, h.indirect_short)) (λ lt. h.indirect_stop blk s (omega (arith, lt)))
              g.counted (InUse-kept e addrs blk k m g (h.apart blk s) (h.indirect_InUse blk s)) in
          (
            emptied e2 i,
            data_free_some e i s p q,
            record {
              counted = emptied-Counted e2 i g2.counted;
              map_size = g2.size ∙ g.size;
              same_imap = ap (λ x. x.imap) g2.same ∙ ap (λ x. x.imap) g.same;
              same_free = ap (λ x. x.inode_free) g2.same ∙ ap (λ x. x.inode_free) g.same;
              empty = emptied_size e2 i;
              more = omega (arith, g.more, g2.more);
              cleared = λ t lt.
                  g2.others (addrs t) (λ r x y z. h.apart blk s t r lt y (sym z))
                  ∙ g.cleared t (omega arith) lt;
              indirect_cleared = λ blk' s' r lt.
                  ap (λ f. test_bit e2.bmap.map (f r)) (some-injective blk' blk (sym s' ∙ s))
                  ∙ g2.cleared r (omega arith) lt;
              others =
                  λ b x y. g2.others b (λ r z lt w. y blk s r lt w) ∙ g.others b (λ r z lt. x r lt);
              addrs = λ j.
                  emptied_addrs e2 i j
                  ∙ ap (λ x. (x.inode i).i_addrs j) g2.same
                  ∙ ap (λ x. (x.inode i).i_addrs j) g.same;
              indir =
                  emptied_indir e2 i
                  ∙ ap (λ x. (x.inode i).i_indir) g2.same
                  ∙ ap (λ x. (x.inode i).i_indir) g.same;
            },
          )
    ]

trunc_none :
    (e : Efs) (i : ℕ)
    → free_blocks (ndirect + 1) e (e.inode i).i_addrs 0 ≡ none
    → efs_i_trunc e i ≡ none
unfolding efs_i_trunc efs_i_data_free
trunc_none e i p = ground (arith, p)

-- A second `efs_i_trunc` of a file that held a block stops the kernel: the inode still names the
-- blocks, which are free.
pub efs_i_trunc_again :
    (e : Efs) (i k m : ℕ)
    → Counted e
    → Holds e i k m
    → 0 < k
    → (e1 : Efs) × (efs_i_trunc e i ≡ some e1) × (efs_i_trunc e1 i ≡ none)
efs_i_trunc_again e i k m v h lt =
    let (e1, p, t) = efs_i_trunc-Truncated e i k m v h in
    let b = (e.inode i).i_addrs 0 in
    let same = t.addrs 0 in
    let inside : b < e1.bmap.size = rw t.map_size (h.direct_InUse.ranged 0 (omega arith) lt) in
    let stops : efs_bmap_free e1 ((e1.inode i).i_addrs 0) ≡ none =
      rw same ((efs_bmap_free-Freed e1 b t.counted inside).0 (t.cleared 0 lt)) in
    (
      e1,
      p,
      trunc_none e1 i (
          free_blocks_clear ndirect e1 (e1.inode i).i_addrs 0
            (rw same (h.direct_InUse.some_block 0 (omega arith) lt)) stops),
    )

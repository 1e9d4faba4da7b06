-- ===== src/Easyfs/Inodes.antt =====
-- Inodes of fs/easyfs/inode.c: made, counted, truncated and unlinked.
pub mod Given
pub mod Trunc
pub mod Emptied
pub mod Unlink
use mathlib.Core.Path.{subst, ap, sym, ◌∙◌}
use risc.Common.{
  ℕ, zero, suc, ◌+◌, ◌-◌, ◌*◌, ◌%◌, ◌^◌, ◌≤◌, ◌<◌, ◌≡◌, ◌≢◌, refl, inl, inr, Bool, true, false,
  ◌&&◌, not, Option, none, some, List, [], ◌∷◌, arith, ltb, leb, ◌==◌, if◌then◌else◌, Bool-cases,
  Option-cases, update, guard, ◌>>=◌, ◌>>◌, ℤ, pos, negsuc, minus_one,
}
use risc.Bitmap.{Bitmap, test_bit}
use risc.Bitmap.Alloc.{Allocated}
use risc.Easyfs.{
  FileType, f_none, Inode, Efs, put_inode, block_size, ndirect, nindirect, efs_imap_alloc,
  efs_imap_free, efs_bmap_free, efs_i_read,
}
use risc.Easyfs.Blocks.{block_of, indirect_of}
use risc.Easyfs.Space.{Counted, efs_imap_alloc-Allocated}

pub efs_i_dup : Efs → ℕ → Efs
efs_i_dup e i = put_inode e i (record (e.inode i) { i_refcnt = (e.inode i).i_refcnt + 1 })

pub efs_i_put : Efs → ℕ → Option Efs
efs_i_put e i = do
  guard (ltb 0 (e.inode i).i_refcnt)
  some (put_inode e i (record (e.inode i) { i_refcnt = (e.inode i).i_refcnt - 1 }))

unfoldable pub efs_i_size : Efs → ℕ → ℕ
efs_i_size e i = (e.inode i).i_size

pub efs_i_type : Efs → ℕ → FileType → Efs
efs_i_type e i ftype = put_inode e i (record (e.inode i) { i_type = ftype; i_dirty = true })

-- `efs_i_new`: the inode is made at the address `i`, which the slab gives.
pub efs_i_new : Efs → ℕ → Option Efs
efs_i_new e i = do
  (ino, e1) ← efs_imap_alloc e
  let inode : Inode = record {
    i_no = ino;
    i_type = f_none;
    i_size = 0;
    i_addrs = λ index. 0;
    i_nlink = 1;
    i_refcnt = 0;
    i_dirty = true;
    i_indir = none;
  }
  some (record (put_inode e1 i inode) { s_ilist = i ∷ e1.s_ilist })

-- A loop of `efs_i_data_free` from the index `j` on: it ends at the first index without a block.
pub free_blocks : ℕ → Efs → (ℕ → ℕ) → ℕ → Option Efs
free_blocks zero e blocks j = some e
free_blocks (suc n) e blocks j =
    if blocks j == 0
    then some e
    else do e1 ← efs_bmap_free e (blocks j); free_blocks n e1 blocks (j + 1)

pub efs_i_data_free : Efs → ℕ → Option Efs
efs_i_data_free e i = do
  e1 ← free_blocks (ndirect + 1) e (e.inode i).i_addrs 0
  elim (e.inode i).i_indir [ some blk ↦ free_blocks nindirect e1 blk 0 | none ↦ some e1 ]

pub efs_i_trunc : Efs → ℕ → Option Efs
efs_i_trunc e i = do
  e1 ← efs_i_data_free e i
  some (put_inode e1 i (record (e1.inode i) { i_size = 0; i_dirty = true }))

-- `efs_i_unlink` of an inode that is not `NULL`. `i_nlink` is a 32-bit word.
pub efs_i_unlink : Efs → ℕ → Option (ℤ × Efs)
efs_i_unlink e i =
    let n = e.inode i in
    let less = put_inode e i (record n { i_nlink = (n.i_nlink + (2 ^ 32 - 1)) % 2 ^ 32 }) in
    if leb n.i_no 1
    then some (minus_one, e)
    else if not (n.i_nlink == 1)
    then some (pos 0, less)
    else if ltb 0 n.i_refcnt
    then some (minus_one, e)
    else do e1 ← efs_i_trunc less i; e2 ← efs_imap_free e1 n.i_no; some (pos 0, e2)

-- what a new inode is
pub record Fresh (e : Efs) (i : ℕ) (e1 : Efs) : Type 0 where
  pub number : Allocated e.imap (e1.inode i).i_no e1.imap
  pub listed : e1.s_ilist ≡ i ∷ e.s_ilist
  pub blocks : (l : ℕ) → block_of e1 i l ≡ 0
  pub nothing : (offset len : ℕ) → efs_i_read e1 i offset len ≡ some ([], e1)
  pub linked : (e1.inode i).i_nlink ≡ 1
  pub others : (j : ℕ) → j ≢ i → e1.inode j ≡ e.inode j
  pub counted : Counted e1

made : Efs → ℕ → ℕ → Efs
made e i ino =
    let inode : Inode = record {
      i_no = ino;
      i_type = f_none;
      i_size = 0;
      i_addrs = λ index. 0;
      i_nlink = 1;
      i_refcnt = 0;
      i_dirty = true;
      i_indir = none;
    } in
    record (put_inode e i inode) { s_ilist = i ∷ e.s_ilist }

efs_i_new-made :
    (e : Efs) (i : ℕ) {ino : ℕ} {e0 : Efs}
    → efs_imap_alloc e ≡ some (ino, e0)
    → efs_i_new e i ≡ some (made e0 i ino)
unfolding efs_i_new made
efs_i_new-made e i p = rw p refl

block_of-made : (e : Efs) (i ino l : ℕ) → block_of (made e i ino) i l ≡ 0
unfolding made block_of
block_of-made e i ino l = ground arith

efs_i_read-made :
    (e : Efs) (i ino offset len : ℕ)
    → efs_i_read (made e i ino) i offset len ≡ some ([], made e i ino)
unfolding efs_i_read made
efs_i_read-made e i ino offset len = ground arith

made_no : (e : Efs) (i ino : ℕ) → ((made e i ino).inode i).i_no ≡ ino
unfolding made
made_no e i ino = ground arith

made_linked : (e : Efs) (i ino : ℕ) → ((made e i ino).inode i).i_nlink ≡ 1
unfolding made
made_linked e i ino = ground arith

made_others : (e : Efs) (i ino j : ℕ) → j ≢ i → (made e i ino).inode j ≡ e.inode j
unfolding made
made_others e i ino j ne = ground (arith, ne)

-- While an inode is free `efs_i_new` gives one with the first free number, without a block, of which
-- nothing can be read, and changes no other inode.
pub efs_i_new-Fresh :
    (e : Efs) (i : ℕ)
    → Counted e
    → e.inode_free ≢ 0
    → (e1 : Efs) × (efs_i_new e i ≡ some e1) × Fresh e i e1
unfolding made
efs_i_new-Fresh e i v left =
    let (ino, e0, p, a, less, same, v0) = efs_imap_alloc-Allocated e v left in
    (
      made e0 i ino,
      efs_i_new-made e i p,
      record {
        number = subst (λ n. Allocated e.imap n e0.imap) (sym (made_no e0 i ino)) a;
        listed = ap (λ x. i ∷ x.s_ilist) same;
        blocks = block_of-made e0 i ino;
        nothing = efs_i_read-made e0 i ino;
        linked = made_linked e0 i ino;
        others = λ j ne. made_others e0 i ino j ne ∙ ap (λ x. x.inode j) same;
        counted = record {
          imap_IsValid = v0.imap_IsValid;
          bmap_IsValid = v0.bmap_IsValid;
          inodes = v0.inodes;
          blocks = v0.blocks;
        };
      },
    )

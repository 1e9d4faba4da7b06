-- ===== src/Easyfs/Inodes/Unlink.antt =====
-- `efs_i_unlink` of fs/easyfs/inode.c, when it removes the last link.
use mathlib.Core.Path.{ap, sym, ◌∙◌}
use risc.Common.{ℕ, ◌+◌, ◌<◌, ◌≡◌, true, false, some, arith, pos}
use risc.Bitmap.{test_bit}
use risc.Easyfs.{ndirect, Efs, put_inode, efs_imap_free}
use risc.Easyfs.Inodes.{efs_i_trunc, efs_i_unlink}
use risc.Easyfs.Blocks.{block_of, indirect_of}
use risc.Easyfs.Inodes.Emptied.{Complete, Truncated-Emptied}
use risc.Easyfs.Inodes.Trunc.{Holds, efs_i_trunc-Truncated}
use risc.Easyfs.Space.{Counted, efs_imap_free-Freed}

-- the file system without the last link of an inode
abbrev unlinked : Efs → ℕ → Efs
unlinked e i = put_inode e i (record (e.inode i) { i_nlink = 0 })

-- What is left of a file: its number, its blocks and its indirect block are free and counted, and it is
-- empty.
pub record Removed (e : Efs) (i k m : ℕ) (e1 : Efs) : Type 0 where
  pub counted : Counted e1
  pub number : test_bit e1.imap.map (e.inode i).i_no ≡ false
  pub inodes : e1.inode_free ≡ e.inode_free + 1
  pub blocks : e1.block_free ≡ e.block_free + k + m
  pub freed : (l : ℕ) → 0 < block_of e i l → test_bit e1.bmap.map (block_of e i l) ≡ false
  pub indirect_freed :
      0 < (e.inode i).i_addrs ndirect → test_bit e1.bmap.map ((e.inode i).i_addrs ndirect) ≡ false
  pub empty : (e1.inode i).i_size ≡ 0

unlinked_inode :
    (e : Efs) (i : ℕ)
    → (((unlinked e i).inode i).i_addrs ≡ (e.inode i).i_addrs)
      × (((unlinked e i).inode i).i_indir ≡ (e.inode i).i_indir)
unlinked_inode e i = (ground arith, ground arith)

unlinked-Holds : (e : Efs) (i k m : ℕ) → Holds e i k m → Holds (unlinked e i) i k m
unlinked-Holds e i k m h =
    let (a, d) = unlinked_inode e i in
    record {
      short = h.short;
      stop = λ lt. ap (λ f. f k) a ∙ h.stop lt;
      direct_InUse = rw a (record {
        used = h.direct_InUse.used;
        ranged = h.direct_InUse.ranged;
        some_block = h.direct_InUse.some_block;
        distinct = h.direct_InUse.distinct;
      });
      unread = λ n. h.unread (sym d ∙ n);
      indirect_short = h.indirect_short;
      indirect_stop = λ blk s. h.indirect_stop blk (sym d ∙ s);
      indirect_InUse = λ blk s.
          let u = h.indirect_InUse blk (sym d ∙ s) in
          record {
            used = u.used;
            ranged = u.ranged;
            some_block = u.some_block;
            distinct = u.distinct;
          };
      apart = λ blk s q r x y. rw a (h.apart blk (sym d ∙ s) q r x y);
    }

unlinked-Complete : (e : Efs) (i k m : ℕ) → Complete e i k m → Complete (unlinked e i) i k m
unlinked-Complete e i k m c =
    let (a, d) = unlinked_inode e i in
    record {
      holds = unlinked-Holds e i k m c.holds;
      rest = λ q x y. ap (λ f. f q) a ∙ c.rest q x y;
      read = λ n. ap (λ f. f ndirect) a ∙ c.read (sym d ∙ n);
      kept = λ blk s. rw a (c.kept blk (sym d ∙ s));
      indirect_rest = λ blk s. c.indirect_rest blk (sym d ∙ s);
    }

block_of-unlinked : (e : Efs) (i l : ℕ) → block_of (unlinked e i) i l ≡ block_of e i l
unfolding block_of indirect_of
block_of-unlinked e i l = ground arith

efs_i_unlink-efs_i_trunc :
    (e : Efs) (i : ℕ) {e1 e2 : Efs}
    → 1 < (e.inode i).i_no
    → (e.inode i).i_nlink ≡ 1
    → (e.inode i).i_refcnt ≡ 0
    → efs_i_trunc (unlinked e i) i ≡ some e1
    → efs_imap_free e1 (e.inode i).i_no ≡ some e2
    → efs_i_unlink e i ≡ some (pos 0, e2)
unfolding efs_i_unlink
efs_i_unlink-efs_i_trunc e i {e1} {e2} no_root link unused p q =
    ground (arith, no_root, link, unused, p, q)

-- `efs_i_unlink` of the last link of a file that nobody uses, and not that of the root, removes the
-- file: it gives back its inode, every block of the file and its indirect block. The blocks are different
-- and in use, none is behind a 0, and the indirect one has been read or is not there.
pub efs_i_unlink-Removed :
    (e : Efs) (i k m : ℕ)
    → Counted e
    → Complete e i k m
    → 1 < (e.inode i).i_no
    → (e.inode i).i_no < e.imap.size
    → test_bit e.imap.map (e.inode i).i_no ≡ true
    → (e.inode i).i_nlink ≡ 1
    → (e.inode i).i_refcnt ≡ 0
    → (e1 : Efs) × (efs_i_unlink e i ≡ some (pos 0, e1)) × Removed e i k m e1
efs_i_unlink-Removed e i k m v h no_root small used link unused =
    let v0 : Counted (unlinked e i) = record {
      imap_IsValid = v.imap_IsValid;
      bmap_IsValid = v.bmap_IsValid;
      inodes = v.inodes;
      blocks = v.blocks;
    } in
    let (e1, p, t) =
      efs_i_trunc-Truncated (unlinked e i) i k m v0 (unlinked-Holds e i k m h.holds) in
    let f0 = Truncated-Emptied (unlinked e i) e1 i k m (unlinked-Complete e i k m h) t in
    let a = (unlinked_inode e i).0 in
    let ino = (e.inode i).i_no in
    let (e2, q, f, same, v2) =
      efs_imap_free-Freed e1 ino t.counted (rw t.same_imap small) (rw t.same_imap used) in
    (
      e2,
      efs_i_unlink-efs_i_trunc e i no_root link unused p q,
      record {
        counted = v2;
        number = f.now_clear;
        inodes = ap (λ x. x.inode_free) same ∙ ap (λ n. n + 1) t.same_free;
        blocks = ap (λ x. x.block_free) same ∙ t.more;
        freed = λ l there.
            ap (λ x. test_bit x.bmap.map (block_of e i l)) same
            ∙ ap (test_bit e1.bmap.map) (sym (block_of-unlinked e i l))
            ∙ f0.freed l (rw (block_of-unlinked e i l) there);
        indirect_freed = λ there.
            ap (λ x. test_bit x.bmap.map ((e.inode i).i_addrs ndirect)) same
            ∙ ap (λ g. test_bit e1.bmap.map (g ndirect)) (sym a)
            ∙ f0.indirect_freed (rw a there);
        empty = ap (λ x. (x.inode i).i_size) same ∙ t.empty;
      },
    )

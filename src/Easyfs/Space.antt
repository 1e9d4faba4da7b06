-- ===== src/Easyfs/Space.antt =====
-- The counts of fs/easyfs/super.c agree with the two bit maps.
use mathlib.Core.Path.{ap, ◌∙◌}
use risc.Common.{ℕ, ◌+◌, ◌-◌, ◌<◌, ◌≡◌, ◌≢◌, refl, true, false, none, some, arith, pos}
use risc.Bitmap.{Bitmap, bitmap_alloc, bitmap_free, test_bit}
use risc.Bitmap.Invariant.{IsValid}
use risc.Bitmap.Alloc.{Allocated, bitmap_alloc-Allocates}
use risc.Bitmap.Free.{Freed, bitmap_free-Freed, bitmap_is_free-bitmap_free}
use risc.Easyfs.{Efs, is_used, efs_imap_alloc, efs_imap_free, efs_bmap_alloc, efs_bmap_free}

-- The maps are in order, and the super block counts what is free in them.
pub record Counted (e : Efs) : Type 0 where
  pub imap_IsValid : IsValid e.imap
  pub bmap_IsValid : IsValid e.bmap
  pub inodes : e.inode_free ≡ e.imap.unused
  pub blocks : e.block_free ≡ e.bmap.unused

efs_bmap_alloc-some :
    (e : Efs) (n : ℕ) {bmap : Bitmap}
    → bitmap_alloc e.bmap ≡ (pos n, bmap)
    → efs_bmap_alloc e
      ≡ some (n, record e { bmap = bmap; block_free = e.block_free - 1; s_dirty = true })
unfolding efs_bmap_alloc
efs_bmap_alloc-some e n p = ground (arith, p)

efs_imap_alloc-some :
    (e : Efs) (n : ℕ) {imap : Bitmap}
    → bitmap_alloc e.imap ≡ (pos n, imap)
    → efs_imap_alloc e
      ≡ some (n, record e { imap = imap; inode_free = e.inode_free - 1; s_dirty = true })
unfolding efs_imap_alloc
efs_imap_alloc-some e n p = ground (arith, p)

pair_at : {A B : Type 0} (out : A × B) {a : A} → out.0 ≡ a → out ≡ (a, out.1)
pair_at out {a} p = ap (λ x. (x, out.1)) p

-- While a block is free `efs_bmap_alloc` gives the first free one, which is in use from then on, and
-- the super block counts one less; nothing else changes but the mark of the super block.
pub efs_bmap_alloc-Allocated :
    (e : Efs)
    → Counted e
    → e.block_free ≢ 0
    → (n : ℕ) × (e1 : Efs) × (efs_bmap_alloc e ≡ some (n, e1))
      × Allocated e.bmap n e1.bmap
      × (e1.block_free + 1 ≡ e.block_free)
      × (e1 ≡ record e { bmap = e1.bmap; block_free = e1.block_free; s_dirty = true })
      × Counted e1
efs_bmap_alloc-Allocated e v left =
    let a = bitmap_alloc-Allocates v.bmap_IsValid (λ z. left (v.blocks ∙ z)) in
    let e1 : Efs = record e {
      bmap = (bitmap_alloc e.bmap).1;
      block_free = e.block_free - 1;
      s_dirty = true;
    } in
    (
      a.index,
      e1,
      efs_bmap_alloc-some e a.index (pair_at (bitmap_alloc e.bmap) a.result),
      a.state,
      ground arith,
      refl,
      record {
        imap_IsValid = v.imap_IsValid;
        bmap_IsValid = a.state.valid;
        inodes = v.inodes;
        blocks = omega (arith, v.blocks, a.state.fewer);
      },
    )

-- The same of `efs_imap_alloc` and the inodes.
pub efs_imap_alloc-Allocated :
    (e : Efs)
    → Counted e
    → e.inode_free ≢ 0
    → (n : ℕ) × (e1 : Efs) × (efs_imap_alloc e ≡ some (n, e1))
      × Allocated e.imap n e1.imap
      × (e1.inode_free + 1 ≡ e.inode_free)
      × (e1 ≡ record e { imap = e1.imap; inode_free = e1.inode_free; s_dirty = true })
      × Counted e1
efs_imap_alloc-Allocated e v left =
    let a = bitmap_alloc-Allocates v.imap_IsValid (λ z. left (v.inodes ∙ z)) in
    let e1 : Efs = record e {
      imap = (bitmap_alloc e.imap).1;
      inode_free = e.inode_free - 1;
      s_dirty = true;
    } in
    (
      a.index,
      e1,
      efs_imap_alloc-some e a.index (pair_at (bitmap_alloc e.imap) a.result),
      a.state,
      ground arith,
      refl,
      record {
        imap_IsValid = a.state.valid;
        bmap_IsValid = v.bmap_IsValid;
        inodes = omega (arith, v.inodes, a.state.fewer);
        blocks = v.blocks;
      },
    )

is_used-test_bit :
    {bmp : Bitmap} → IsValid bmp → (i : ℕ) → i < bmp.size → is_used bmp i ≡ test_bit bmp.map i
unfolding is_used
is_used-test_bit {bmp} v i lt = ground (arith, (bitmap_is_free-bitmap_free v i lt).0)

-- Of a block inside the map, `efs_bmap_free` gives back one that is in use, which is free from then on
-- and counted, and stops the kernel for one that is free.
pub efs_bmap_free-Freed :
    (e : Efs) (bno : ℕ)
    → Counted e
    → bno < e.bmap.size
    → (test_bit e.bmap.map bno ≡ false → efs_bmap_free e bno ≡ none)
      × (test_bit e.bmap.map bno ≡ true
          → (e1 : Efs) × (efs_bmap_free e bno ≡ some e1)
            × Freed e.bmap bno e1.bmap
            × (e1 ≡ record e { bmap = e1.bmap; block_free = e.block_free + 1; s_dirty = true })
            × Counted e1)
unfolding efs_bmap_free
efs_bmap_free-Freed e bno v lt =
    let u = is_used-test_bit v.bmap_IsValid bno lt in
    let f = bitmap_free-Freed v.bmap_IsValid bno lt in
    let e1 : Efs = record e {
      bmap = bitmap_free e.bmap (pos bno);
      block_free = e.block_free + 1;
      s_dirty = true;
    } in
    (
      λ clear. rw (u, clear) refl,
      λ used. (
        e1,
        rw (u, used) refl,
        f,
        refl,
        record {
          imap_IsValid = v.imap_IsValid;
          bmap_IsValid = f.valid;
          inodes = v.inodes;
          blocks = ground (arith, v.blocks, f.unused);
        },
      ),
    )

-- an inode that is in use is given back by `efs_imap_free`
pub efs_imap_free-Freed :
    (e : Efs) (ino : ℕ)
    → Counted e
    → ino < e.imap.size
    → test_bit e.imap.map ino ≡ true
    → (e1 : Efs) × (efs_imap_free e ino ≡ some e1)
      × Freed e.imap ino e1.imap
      × (e1 ≡ record e { imap = e1.imap; inode_free = e.inode_free + 1; s_dirty = true })
      × Counted e1
unfolding efs_imap_free
efs_imap_free-Freed e ino v lt used =
    let f = bitmap_free-Freed v.imap_IsValid ino lt in
    (
      record e {
        imap = bitmap_free e.imap (pos ino);
        inode_free = e.inode_free + 1;
        s_dirty = true;
      },
      rw (is_used-test_bit v.imap_IsValid ino lt, used) refl,
      f,
      refl,
      record {
        imap_IsValid = f.valid;
        bmap_IsValid = v.bmap_IsValid;
        inodes = ground (arith, v.inodes, f.unused);
        blocks = v.blocks;
      },
    )

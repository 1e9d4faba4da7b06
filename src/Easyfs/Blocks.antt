-- ===== src/Easyfs/Blocks.antt =====
-- The search of `efs_i_bmap` of fs/easyfs/inode.c for a block that a file has.
use mathlib.Core.Path.{◌∙◌}
use risc.Common.{
  ℕ, ◌-◌, ◌^◌, ◌<◌, ◌≡◌, refl, inl, inr, true, false, not, none, some, arith, ltb, ◌==◌,
  if◌then◌else◌, Bool-cases, Option-cases,
}
use risc.Blk.{gen_read}
use risc.Blk.View.{byte_at, gen_read-byte_at}
use risc.Easyfs.{
  Efs, put_inode, block_size, ndirect, nindirect, word, direct, load_indir, indirect, efs_i_bmap,
}

-- the numbers in the indirect block of a file, read or to be read
unfoldable pub indirect_of : Efs → ℕ → ℕ → ℕ
indirect_of e i = elim (e.inode i).i_indir [
  | some blk ↦ blk
  | none ↦ word (gen_read e.cache ((e.inode i).i_addrs ndirect) 0 block_size).0
]

-- the block of the device that has the block `lbno` of a file, or 0
unfoldable pub block_of : Efs → ℕ → ℕ → ℕ
block_of e i lbno =
    if ltb lbno ndirect
    then (e.inode i).i_addrs lbno
    else if not (ltb (lbno - ndirect) nindirect)
    then 0
    else if (e.inode i).i_addrs ndirect == 0
    then 0
    else indirect_of e i (lbno - ndirect)

-- nothing of the file `i` has changed, nor any byte of the device
pub record Keeps (e : Efs) (i : ℕ) (e1 : Efs) : Type 0 where
  pub blocks : (lbno : ℕ) → block_of e1 i lbno ≡ block_of e i lbno
  pub addrs : (index : ℕ) → (e1.inode i).i_addrs index ≡ (e.inode i).i_addrs index
  pub size : (e1.inode i).i_size ≡ (e.inode i).i_size
  pub bytes : (n : ℕ) → byte_at e1.cache n ≡ byte_at e.cache n

pub Keeps-trans : (e : Efs) (i : ℕ) (e1 e2 : Efs) → Keeps e i e1 → Keeps e1 i e2 → Keeps e i e2
Keeps-trans e i e1 e2 a b = record {
  blocks = λ l. b.blocks l ∙ a.blocks l;
  addrs = λ j. b.addrs j ∙ a.addrs j;
  size = b.size ∙ a.size;
  bytes = λ n. b.bytes n ∙ a.bytes n;
}

pub Keeps-refl : (e : Efs) (i : ℕ) → Keeps e i e
Keeps-refl e i = record { blocks = λ l. refl; addrs = λ j. refl; size = refl; bytes = λ n. refl }

-- the inode with its indirect block read
loaded : Efs → ℕ → Efs
loaded e i =
    let out = gen_read e.cache ((e.inode i).i_addrs ndirect) 0 block_size in
    put_inode (record e { cache = out.1 }) i (record (e.inode i) { i_indir = some (word out.0) })

load_indir-none :
    (e : Efs) (i : ℕ)
    → (e.inode i).i_indir ≡ none
    → load_indir e i ((e.inode i).i_addrs ndirect) ≡ (indirect_of e i, loaded e i)
unfolding load_indir indirect_of loaded
load_indir-none e i n = ground (arith, n)

load_indir-some :
    (e : Efs) (i : ℕ) {blk : ℕ → ℕ}
    → (e.inode i).i_indir ≡ some blk
    → load_indir e i ((e.inode i).i_addrs ndirect) ≡ (indirect_of e i, e)
unfolding load_indir indirect_of
load_indir-some e i s = ground (arith, s)

loaded-Keeps :
    (e : Efs) (i : ℕ)
    → (e.inode i).i_addrs ndirect < 2 ^ 32
    → (e.inode i).i_indir ≡ none
    → Keeps e i (loaded e i)
unfolding loaded indirect_of block_of
loaded-Keeps e i small n = record {
  blocks = λ l. rw n (ground arith);
  addrs = λ j. ground arith;
  size = ground arith;
  bytes = λ k.
      (gen_read-byte_at e.cache ((e.inode i).i_addrs ndirect) 0 block_size (omega arith)
          (omega arith)).2
        k;
}

load_indir-Keeps :
    (e : Efs) (i : ℕ)
    → (e.inode i).i_addrs ndirect < 2 ^ 32
    → (e1 : Efs) × (load_indir e i ((e.inode i).i_addrs ndirect) ≡ (indirect_of e i, e1))
      × Keeps e i e1
load_indir-Keeps e i small = elim (Option-cases (e.inode i).i_indir) [
  | inl n ↦ (loaded e i, load_indir-none e i n, loaded-Keeps e i small n)
  | inr (blk, s) ↦ (e, load_indir-some e i s, Keeps-refl e i)
]

direct-false :
    (e : Efs) (i index : ℕ) → direct e i index false ≡ some ((e.inode i).i_addrs index, e)
unfolding direct
direct-false e i index = ground arith

indirect-false :
    (e : Efs) (i lbno : ℕ) {e1 : Efs}
    → load_indir e i ((e.inode i).i_addrs ndirect) ≡ (indirect_of e i, e1)
    → indirect e i lbno false
      ≡ (if (e.inode i).i_addrs ndirect == 0 then some (0, e) else some (indirect_of e i lbno, e1))
unfolding indirect
indirect-false e i lbno {e1} p = rw (direct-false e i ndirect, p) (ground arith)

-- Without allocation `efs_i_bmap` gives the block of the file at `lbno`, or 0, and changes neither
-- the file nor a byte of the device.
pub efs_i_bmap-block_of :
    (e : Efs) (i lbno : ℕ)
    → (e.inode i).i_addrs ndirect < 2 ^ 32
    → (e1 : Efs) × (efs_i_bmap e i lbno false ≡ some (block_of e i lbno, e1)) × Keeps e i e1
unfolding efs_i_bmap block_of
efs_i_bmap-block_of e i lbno small =
    let (e1, p, k) = load_indir-Keeps e i small in
    elim (Bool-cases (ltb lbno ndirect)) [
      | inl d ↦ (e, rw d (direct-false e i lbno), Keeps-refl e i)
      | inr d ↦ elim (Bool-cases (ltb (lbno - ndirect) nindirect)) [
        | inr far ↦ (e, rw (d, far) refl, Keeps-refl e i)
        | inl near ↦ elim (Bool-cases ((e.inode i).i_addrs ndirect == 0)) [
          | inl z ↦ (
            e,
            rw (d, near, z) (ground (arith, indirect-false e i (lbno - ndirect) p)),
            Keeps-refl e i,
          )
          | inr z ↦ (e1, rw (d, near, z) (ground (arith, indirect-false e i (lbno - ndirect) p)), k)
        ]
      ]
    ]

direct-true :
    (e : Efs) (i index : ℕ)
    → 0 < (e.inode i).i_addrs index
    → direct e i index true ≡ some ((e.inode i).i_addrs index, e)
unfolding direct
direct-true e i index lt = ground arith

indirect-true :
    (e : Efs) (i lbno : ℕ) {e1 : Efs}
    → load_indir e i ((e.inode i).i_addrs ndirect) ≡ (indirect_of e i, e1)
    → 0 < (e.inode i).i_addrs ndirect
    → 0 < indirect_of e i lbno
    → indirect e i lbno true ≡ some (indirect_of e i lbno, e1)
unfolding indirect
indirect-true e i lbno {e1} p a b = rw (direct-true e i ndirect a, p) (ground arith)

-- With allocation it does the same for a block that is there.
pub efs_i_bmap_there :
    (e : Efs) (i lbno : ℕ)
    → (e.inode i).i_addrs ndirect < 2 ^ 32
    → 0 < block_of e i lbno
    → (e1 : Efs) × (efs_i_bmap e i lbno true ≡ some (block_of e i lbno, e1)) × Keeps e i e1
unfolding efs_i_bmap block_of
efs_i_bmap_there e i lbno small there =
    let (e1, p, k) = load_indir-Keeps e i small in
    elim (Bool-cases (ltb lbno ndirect)) [
      | inl d ↦ (e, rw d (direct-true e i lbno (ground arith)), Keeps-refl e i)
      | inr d ↦ elim (Bool-cases (ltb (lbno - ndirect) nindirect)) [
        | inr far ↦ absurd (ground arith)
        | inl near ↦ elim (Bool-cases ((e.inode i).i_addrs ndirect == 0)) [
          | inl z ↦ absurd (ground arith)
          | inr z ↦ (
            e1,
            rw (d, near, z) (indirect-true e i (lbno - ndirect) p (ground arith) (ground arith)),
            k,
          )
        ]
      ]
    ]

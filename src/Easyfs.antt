-- ===== src/Easyfs.antt =====
-- fs/easyfs/super.c and fs/easyfs/inode.c: blocks and inodes, and the bytes of files.
pub mod Space
pub mod Blocks
pub mod Content
pub mod Overwrite
pub mod Write
pub mod Inodes
pub mod Opened
mod Tests
use risc.Common.{
  ℕ, zero, suc, ◌+◌, ◌-◌, ◌*◌, ◌/◌, ◌%◌, ◌^◌, Bool, true, false, ◌&&◌, not, Option, none, some,
  List, [], ◌∷◌, ◌++◌, ltb, leb, ◌==◌, if◌then◌else◌, get_or, length, take, drop, update, guard,
  ◌>>=◌, ◌>>◌, ℤ, pos, negsuc, minus_one,
}
use risc.Bitmap.{Bitmap, bitmap_alloc, bitmap_free, bitmap_is_free}
use risc.Blk.{Cache, gen_read, gen_write}

abbrev pub block_size : ℕ
block_size = 4096

abbrev pub ndirect : ℕ
ndirect = 12

abbrev pub nindirect : ℕ
nindirect = 1024

abbrev pub maxfile : ℕ
maxfile = ndirect + nindirect

abbrev pub uint32 : ℕ → ℕ
uint32 n = n % (2 ^ 32)

-- `enum easy_file_type`
pub data FileType : Type 0 where
  f_none f_reg f_dir f_dev : FileType

-- `struct easy_m_inode` with its `struct easy_d_inode`. `i_dirty` tells whether it is marked and in
-- the list of dirty inodes; `i_indir` is the page with the numbers of the indirect blocks, if it has
-- been read.
pub record Inode : Type 0 where
  pub i_no : ℕ
  pub i_type : FileType
  pub i_size : ℕ
  pub i_addrs : ℕ → ℕ
  pub i_nlink : ℕ
  pub i_refcnt : ℕ
  pub i_dirty : Bool
  pub i_indir : Option (ℕ → ℕ)

-- The inodes by address, the addresses of those in the super block's hash table and list with the
-- newest first, the counts of the super block with its mark of being dirty, the two bit
-- maps, and the device.
pub record Efs : Type 0 where
  pub inode : ℕ → Inode
  pub s_ilist : List ℕ
  pub inode_free : ℕ
  pub block_free : ℕ
  pub s_dirty : Bool
  pub imap : Bitmap
  pub bmap : Bitmap
  pub cache : Cache

abbrev pub put_inode : Efs → ℕ → Inode → Efs
put_inode e i n = record e { inode = update e.inode i n }

-- `efs_imap_alloc`, `efs_bmap_alloc`: a full map stops the kernel.
pub efs_imap_alloc : Efs → Option (ℕ × Efs)
efs_imap_alloc e =
    let (number, imap) = bitmap_alloc e.imap in
    elim number [
      | pos n ↦ some (n, record e { imap = imap; inode_free = e.inode_free - 1; s_dirty = true })
      | negsuc n ↦ none
    ]

pub efs_bmap_alloc : Efs → Option (ℕ × Efs)
efs_bmap_alloc e =
    let (number, bmap) = bitmap_alloc e.bmap in
    elim number [
      | pos n ↦ some (n, record e { bmap = bmap; block_free = e.block_free - 1; s_dirty = true })
      | negsuc n ↦ none
    ]

-- `if (bitmap_is_free(…)) panic`: -1 for a number out of range is true as well.
pub is_used : Bitmap → ℕ → Bool
is_used bmp n = elim (bitmap_is_free bmp (pos n)) [
  | pos zero ↦ true
  | pos (suc m) ↦ false
  | negsuc m ↦ false
]

pub efs_imap_free : Efs → ℕ → Option Efs
efs_imap_free e ino = do
  guard (is_used e.imap ino)
  some (record e {
    imap = bitmap_free e.imap (pos ino);
    inode_free = e.inode_free + 1;
    s_dirty = true;
  })

pub efs_bmap_free : Efs → ℕ → Option Efs
efs_bmap_free e bno = do
  guard (is_used e.bmap bno)
  some (record e {
    bmap = bitmap_free e.bmap (pos bno);
    block_free = e.block_free + 1;
    s_dirty = true;
  })

-- the `uint32_t` at the index `i` of a page, the lowest byte first
pub word : List ℕ → ℕ → ℕ
word page i =
    get_or page (4 * i) 0
    + get_or page (4 * i + 1) 0 * 2 ^ 8
    + get_or page (4 * i + 2) 0 * 2 ^ 16
    + get_or page (4 * i + 3) 0 * 2 ^ 24

-- A direct block of `efs_i_bmap`, also the indirect one at the index `ndirect`; 0 is no block.
pub direct : Efs → ℕ → ℕ → Bool → Option (ℕ × Efs)
direct e i index alloc =
    let bno = (e.inode i).i_addrs index in
    if not (bno == 0) then some (bno, e) else if not alloc then some (0, e) else do
      (number, e1) ← efs_bmap_alloc e
      some (
        number,
        put_inode e1 i (record (e1.inode i) { i_addrs = update (e1.inode i).i_addrs index number }),
      )

-- `__alloc_page` and `blk_read_count` of the page of indirect block numbers, once
pub load_indir : Efs → ℕ → ℕ → (ℕ → ℕ) × Efs
load_indir e i bno = elim (e.inode i).i_indir [
  | some blk ↦ (blk, e)
  | none ↦
      let (page, c) = gen_read e.cache bno 0 block_size in
      let blk = word page in
      (blk, put_inode (record e { cache = c }) i (record (e.inode i) { i_indir = some blk }))
]

pub indirect : Efs → ℕ → ℕ → Bool → Option (ℕ × Efs)
indirect e i lbno alloc = do
  (bno, e1) ← direct e i ndirect alloc
  let (blk, e2) = load_indir e1 i bno
  if bno == 0
      then some (0, e)
      else if not (blk lbno == 0)
      then some (blk lbno, e2)
      else if not alloc
      then some (0, e2)
      else do
        (number, e3) ← efs_bmap_alloc e2
        some (
          number,
          put_inode e3 i (record (e3.inode i) { i_indir = some (update blk lbno number) }),
        )

-- A number past the indirect blocks gives 0.
pub efs_i_bmap : Efs → ℕ → ℕ → Bool → Option (ℕ × Efs)
efs_i_bmap e i lbno alloc =
    if ltb lbno ndirect
    then direct e i lbno alloc
    else if ltb (lbno - ndirect) nindirect
    then indirect e i (lbno - ndirect) alloc
    else some (0, e)

abbrev pub min : ℕ → ℕ → ℕ
min a b = if ltb a b then a else b

-- The loop of `efs_i_read` for the `len` bytes that are left: what it has read.
pub read_blocks : ℕ → Efs → ℕ → ℕ → ℕ → Option (List ℕ × Efs)
read_blocks zero e i offset len = none
read_blocks (suc fuel) e i offset zero = some ([], e)
read_blocks (suc fuel) e i offset (suc n) = do
  (bno, e1) ← efs_i_bmap e i (offset / block_size) false
  let m = min (suc n) (block_size - offset % block_size)
  let (xs, c) = gen_read e1.cache bno (offset % block_size) m
  if bno == 0 then some ([], e1) else do
    (ys, e2) ← read_blocks fuel (record e1 { cache = c }) i (offset + m) (suc n - m)
    some (xs ++ ys, e2)

pub efs_i_read : Efs → ℕ → ℕ → ℕ → Option (List ℕ × Efs)
efs_i_read e i offset len =
    let size = (e.inode i).i_size in
    let left = if ltb size (uint32 (offset + len)) then size - offset else len in
    if leb size offset
    then some ([], e)
    else if ltb (uint32 (offset + len)) offset
    then some ([], e)
    else read_blocks (suc left) e i offset left

-- The loop of `efs_i_write`: how many bytes it has written, and the offset after them.
pub write_blocks : ℕ → Efs → ℕ → ℕ → List ℕ → Option (ℕ × Efs)
write_blocks zero e i offset bytes = none
write_blocks (suc fuel) e i offset [] = some (0, e)
write_blocks (suc fuel) e i offset (x ∷ bytes) = do
  (bno, e1) ← efs_i_bmap e i (offset / block_size) true
  let m = min (length (x ∷ bytes)) (block_size - offset % block_size)
  let c = gen_write e1.cache bno (offset % block_size) (take m (x ∷ bytes))
  if bno == 0 then some (0, e1) else do
    (tot, e2) ← write_blocks fuel (record e1 { cache = c }) i (offset + m) (drop m (x ∷ bytes))
    some (m + tot, e2)

-- The result is -1 for a file that would be too long.
pub efs_i_write : Efs → ℕ → ℕ → List ℕ → Option (ℤ × Efs)
efs_i_write e i offset bytes =
    let last = uint32 (offset + length bytes) in
    if ltb (e.inode i).i_size offset
    then some (pos 0, e)
    else if ltb last offset
    then some (pos 0, e)
    else if leb (maxfile * block_size) last
    then some (minus_one, e)
    else do
      (tot, e1) ← write_blocks (suc (length bytes)) e i offset bytes
      let n = e1.inode i
      let size = if ltb n.i_size (offset + tot) then offset + tot else n.i_size
      some (pos tot, put_inode e1 i (record n { i_size = size; i_dirty = true }))

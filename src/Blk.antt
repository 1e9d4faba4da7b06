-- ===== src/Blk.antt =====
-- kernel/dev/blk: reads and writes of a block device cut into blocks, through a write-back cache.
pub mod Cut
pub mod View
pub mod Flush
mod Tests
use risc.Common.{
  ℕ, zero, suc, ◌+◌, ◌-◌, ◌*◌, ◌/◌, ◌%◌, ◌^◌, Bool, true, false, ◌&&◌, not, Option, none, some,
  List, [], ◌∷◌, ◌++◌, ltb, leb, ◌==◌, if◌then◌else◌, get_or, length, take, drop, update,
}

abbrev pub blk_size : ℕ
blk_size = 4096

abbrev pub uint32 : ℕ → ℕ
uint32 n = n % (2 ^ 32)

-- `struct bio` without its page, which is that of the buffer of its block
pub record Bio : Type 0 where
  pub b_blockno : ℕ
  pub offset : ℕ
  pub len : ℕ

-- `--blockno`
abbrev pub less : ℕ → ℕ
less blockno = uint32 (blockno + (2 ^ 32 - 1))

-- The loop over the blocks in the middle, with `blockno` and the head of the list.
pub middles : ℕ → ℕ → List Bio → ℕ × List Bio
middles zero blockno bios = (blockno, bios)
middles (suc n) blockno bios =
    middles n (less blockno)
      (record { b_blockno = less blockno; offset = 0; len = blk_size } ∷ bios)

-- The list for more than one block, made from its end: `end` is the offset of the last byte.
pub many : ℕ → ℕ → ℕ → ℕ → List Bio
many blockno offset end count =
    let top = less (uint32 (blockno + count)) in
    let last : Bio = record { b_blockno = top; offset = 0; len = end % blk_size + 1 } in
    let (bottom, bios) = middles (count - 2) top (last ∷ []) in
    record { b_blockno = less bottom; offset = offset; len = blk_size - offset } ∷ bios

pub bio_list_make : ℕ → ℕ → ℕ → List Bio
bio_list_make blockno offset len =
    let first = uint32 (blockno + offset / blk_size) in
    let off = offset % blk_size in
    let end = uint32 (off + len) - 1 in
    let count = end / blk_size + 1 in
    if len == 0
    then []
    else if count == 1
    then record { b_blockno = first; offset = off; len = len } ∷ []
    else many first off end count

-- The page of a `struct buf_head`, and whether `BH_New` is set: nothing is in it yet.
pub record Buf : Type 0 where
  pub page : ℕ → ℕ
  pub is_new : Bool

-- The disk, the buffers by block number and the list of dirty ones. No two buffers are of one
-- block. `spare` is what the next page that `__alloc_page` gives holds.
pub record Cache : Type 0 where
  pub disk : ℕ → ℕ → ℕ
  pub buf : ℕ → Option Buf
  pub dirty_list : List ℕ
  pub spare : ℕ → ℕ

-- `buf_get`: the buffer of a block, which it makes if there is none
pub buf_get : Cache → ℕ → Buf
buf_get c b = elim (c.buf b) [ some x ↦ x | none ↦ record { page = c.spare; is_new = true } ]

-- what `ll_rw` reads into the page of a buffer
pub fill : Cache → ℕ → Buf → Buf
fill c b x = record x { page = c.disk b }

-- `buf_release` clears `BH_New`, and puts a dirty buffer at the head of its list.
pub drop_dirty : ℕ → List ℕ → List ℕ
drop_dirty b [] = []
drop_dirty b (d ∷ ds) = if d == b then ds else d ∷ drop_dirty b ds

pub buf_release : Cache → ℕ → Buf → Bool → Cache
buf_release c b x is_dirty = record c {
  buf = update c.buf b (some (record x { is_new = false }));
  dirty_list = if is_dirty then b ∷ drop_dirty b c.dirty_list else c.dirty_list;
}

-- `memcpy` out of and into a page
unfoldable pub copy_out : (ℕ → ℕ) → ℕ → ℕ → List ℕ
copy_out page offset zero = []
copy_out page offset (suc n) = page offset ∷ copy_out page (offset + 1) n

pub copy_in : (ℕ → ℕ) → ℕ → List ℕ → ℕ → ℕ
copy_in page offset [] = page
copy_in page offset (x ∷ xs) = copy_in (update page offset x) (offset + 1) xs

-- One round of `gen_start_io` for a read: the bytes for the caller.
pub read_bio : Cache → Bio → List ℕ × Cache
read_bio c bio =
    let x = buf_get c bio.b_blockno in
    let y = if x.is_new then fill c bio.b_blockno x else x in
    (copy_out y.page bio.offset bio.len, buf_release c bio.b_blockno y false)

-- For a write of the caller's bytes. A block that is written in part is read before, if it is new.
pub write_bio : Cache → Bio → List ℕ → Cache
write_bio c bio bytes =
    let x = buf_get c bio.b_blockno in
    let whole = bio.offset == 0 && bio.len == blk_size in
    let y = if not whole && x.is_new then fill c bio.b_blockno x else x in
    buf_release c bio.b_blockno (record y { page = copy_in y.page bio.offset bytes }) true

pub read_bios : Cache → List Bio → List ℕ × Cache
read_bios c [] = ([], c)
read_bios c (bio ∷ bios) =
    let (xs, c1) = read_bio c bio in let (ys, c2) = read_bios c1 bios in (xs ++ ys, c2)

pub write_bios : Cache → List Bio → List ℕ → Cache
write_bios c [] bytes = c
write_bios c (bio ∷ bios) bytes =
    write_bios (write_bio c bio (take bio.len bytes)) bios (drop bio.len bytes)

-- `gen_disk_read` and `gen_disk_write` of a buffer that is not `NULL`, once their request is done;
-- `blk_read` and `blk_write` call them.
pub gen_read : Cache → ℕ → ℕ → ℕ → List ℕ × Cache
gen_read c blockno offset len = read_bios c (bio_list_make blockno offset len)

pub gen_write : Cache → ℕ → ℕ → List ℕ → Cache
gen_write c blockno offset bytes = write_bios c (bio_list_make blockno offset (length bytes)) bytes

-- A round of `flush_bhash` up to the write: the block that it popped, on the disk now.
pub flush_begin : Cache → Option (ℕ × Cache)
flush_begin c = elim c.dirty_list [
  | [] ↦ none
  | b ∷ ds ↦ some (b, record c { dirty_list = ds; disk = update c.disk b (buf_get c b).page })
]

-- the rest of the round, under the lock: `list_del`
pub flush_end : Cache → ℕ → Cache
flush_end c b = record c { dirty_list = drop_dirty b c.dirty_list }

-- The inner loop of `flush_bhash`, which ends when the list is empty; `fuel` bounds the rounds.
pub flush_all : ℕ → Cache → Option Cache
flush_all zero c = none
flush_all (suc fuel) c = elim (flush_begin c) [
  | none ↦ some c
  | some (b, c1) ↦ flush_all fuel (flush_end c1 b)
]

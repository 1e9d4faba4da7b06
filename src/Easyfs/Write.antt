-- ===== src/Easyfs/Write.antt =====
-- `efs_i_write` and then `efs_i_read` of fs/easyfs/inode.c.
use mathlib.Core.Path.{subst, ap, sym, ◌∙◌}
use risc.Common.{
  ℕ, suc, ◌+◌, ◌*◌, ◌/◌, ◌≤◌, ◌<◌, ◌≡◌, refl, true, some, List, arith, ltb, if◌then◌else◌, get_or,
  length, pos, get_or_ext,
}
use risc.Easyfs.{
  Efs, put_inode, block_size, ndirect, maxfile, write_blocks, efs_i_write, efs_i_read,
}
use risc.Easyfs.Blocks.{block_of, indirect_of}
use risc.Easyfs.Content.{file_byte, Mapped, inside, inside_all, efs_i_read-Reads}
use risc.Easyfs.Overwrite.{Own, overwritten, overwritten_in, write_blocks-Writes}

-- the end of `efs_i_write`
resized : Efs → ℕ → ℕ → Efs
resized e i last =
    let n = e.inode i in
    put_inode e i
      (record n { i_size = if ltb n.i_size last then last else n.i_size; i_dirty = true })

efs_i_write_some :
    (e : Efs) (i offset : ℕ) (bytes : List ℕ) {tot : ℕ} {e1 : Efs}
    → offset ≤ (e.inode i).i_size
    → offset + length bytes < maxfile * block_size
    → write_blocks (suc (length bytes)) e i offset bytes ≡ some (tot, e1)
    → efs_i_write e i offset bytes ≡ some (pos tot, resized e1 i (offset + tot))
unfolding efs_i_write resized
efs_i_write_some e i offset bytes a b p = ground (arith, p)

block_of-resized : (e : Efs) (i last l : ℕ) → block_of (resized e i last) i l ≡ block_of e i l
unfolding block_of indirect_of resized
block_of-resized e i last l = ground arith

resized_addrs :
    (e : Efs) (i last j : ℕ) → ((resized e i last).inode i).i_addrs j ≡ (e.inode i).i_addrs j
unfolding resized
resized_addrs e i last j = ground arith

resized_size :
    (e : Efs) (i last : ℕ)
    → ((resized e i last).inode i).i_size
      ≡ (if ltb (e.inode i).i_size last then last else (e.inode i).i_size)
unfolding resized
resized_size e i last = ground arith

resized_dirty : (e : Efs) (i last : ℕ) → ((resized e i last).inode i).i_dirty ≡ true
unfolding resized
resized_dirty e i last = ground arith

file_byte-resized : (e : Efs) (i last k : ℕ) → file_byte (resized e i last) i k ≡ file_byte e i k
unfolding file_byte
file_byte-resized e i last k =
    rw (block_of-resized e i last (k / block_size)) (unfold resized in refl)

-- What a write leaves: its bytes in the file and all others as before, the same blocks, and a file
-- that reaches at least to the end of the write and is marked as dirty.
pub record Written (e : Efs) (i offset : ℕ) (bytes : List ℕ) (e1 : Efs) : Type 0 where
  pub blocks : (l : ℕ) → block_of e1 i l ≡ block_of e i l
  pub addrs : (index : ℕ) → (e1.inode i).i_addrs index ≡ (e.inode i).i_addrs index
  pub content : (k : ℕ) → file_byte e1 i k ≡ overwritten (file_byte e i) offset bytes k
  pub size : (e1.inode i).i_size ≡ (
      if ltb (e.inode i).i_size (offset + length bytes)
      then offset + length bytes
      else (e.inode i).i_size)
  pub dirty : (e1.inode i).i_dirty ≡ true

-- `efs_i_write` over blocks that the file has writes all the bytes, if it starts inside the file or at
-- its end and ends below the limit of a file.
pub efs_i_write-Written :
    (e : Efs) (i offset : ℕ) (bytes : List ℕ)
    → offset ≤ (e.inode i).i_size
    → offset + length bytes < maxfile * block_size
    → Own e i
    → Mapped e i offset (length bytes)
    → (e1 : Efs) × (efs_i_write e i offset bytes ≡ some (pos (length bytes), e1))
      × Written e i offset bytes e1
efs_i_write-Written e i offset bytes a b own mapped =
    let (e1, p, w) =
      write_blocks-Writes (suc (length bytes)) e i offset bytes (omega arith) own mapped in
    let last = offset + length bytes in
    (
      resized e1 i last,
      efs_i_write_some e i offset bytes a b p,
      record {
        blocks = λ l. block_of-resized e1 i last l ∙ w.blocks l;
        addrs = λ j. resized_addrs e1 i last j ∙ w.addrs j;
        content = λ k. file_byte-resized e1 i last k ∙ w.content k;
        size = resized_size e1 i last ∙ ap (λ n. if ltb n last then last else n) w.size;
        dirty = resized_dirty e1 i last;
      },
    )

-- What has been written to blocks that the file has is read back as it was.
pub efs_i_read-efs_i_write :
    (e : Efs) (i offset : ℕ) (bytes : List ℕ)
    → offset ≤ (e.inode i).i_size
    → offset + length bytes < maxfile * block_size
    → Own e i
    → Mapped e i offset (length bytes)
    → (e1 e2 : Efs) × (efs_i_write e i offset bytes ≡ some (pos (length bytes), e1))
      × (efs_i_read e1 i offset (length bytes) ≡ some (bytes, e2))
efs_i_read-efs_i_write e i offset bytes a b own mapped =
    let (e1, p, w) = efs_i_write-Written e i offset bytes a b own mapped in
    let n = length bytes in
    let all : n ≡ inside (e1.inode i).i_size offset n =
      sym (inside_all _ offset n (ground (arith, w.size))) in
    let m1 : Mapped e1 i offset n = record {
      indir = rw (w.addrs ndirect) mapped.indir;
      some_block = λ k l h. rw (w.blocks (k / block_size)) (mapped.some_block k l h);
      in_range = λ k l h. rw (w.blocks (k / block_size)) (mapped.in_range k l h);
    } in
    let (xs, e2, q, r) =
      efs_i_read-Reads e1 i offset n (omega (arith, b))
        (subst (λ m. Mapped e1 i offset m) all m1) in
    let same : xs ≡ bytes = get_or_ext xs bytes 0 (r.sized ∙ sym all) (λ j lt.
      r.bytes j (omega (arith, lt, r.sized))
      ∙ w.content (offset + j)
      ∙ overwritten_in _ offset bytes (offset + j) (omega arith) (omega (arith, lt, r.sized, all))
      ∙ ap (λ k. get_or bytes k 0) (omega arith)) in
    (e1, e2, p, q ∙ ap (λ l. some (l, e2)) same)

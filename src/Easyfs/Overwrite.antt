-- ===== src/Easyfs/Overwrite.antt =====
-- `efs_i_write` of fs/easyfs/inode.c over bytes that a file has.
use mathlib.Core.Path.{subst, ap, sym, ◌∙◌}
use risc.Common.{
  ℕ, zero, suc, ◌+◌, ◌-◌, ◌*◌, ◌/◌, ◌%◌, ◌^◌, ◌≤◌, ◌<◌, ◌≡◌, ◌≢◌, refl, inl, inr, true, ◌&&◌, some,
  List, [], ◌∷◌, arith, ltb, leb, if◌then◌else◌, Bool-cases, get_or, length, take, drop, take_short,
  length-drop, get_or-take, get_or-drop,
}
use risc.Blk.{Cache, gen_write}
use risc.Blk.View.{byte_at, gen_write-byte_at}
use risc.Easyfs.{Efs, block_size, ndirect, min, efs_i_bmap, write_blocks}
use risc.Easyfs.Blocks.{block_of, Keeps, efs_i_bmap_there}
use risc.Easyfs.Content.{Mapped-rest, block_of_same, file_byte, file_byte_kept, Mapped}

-- No block of the device is two blocks of the file, and none is the indirect one.
pub record Own (e : Efs) (i : ℕ) : Type 0 where
  pub distinct : (l k : ℕ) → 0 < block_of e i l → block_of e i l ≡ block_of e i k → l ≡ k
  pub apart : (l : ℕ) → 0 < block_of e i l → block_of e i l ≢ (e.inode i).i_addrs ndirect

-- the bytes of a file with `bytes` from `offset` on
pub overwritten : (ℕ → ℕ) → ℕ → List ℕ → ℕ → ℕ
overwritten old offset bytes k =
    if leb offset k && ltb k (offset + length bytes) then get_or bytes (k - offset) 0 else old k

-- The bytes of a write are in the file, and all its others and its blocks are as before.
pub record Writes (e : Efs) (i offset : ℕ) (bytes : List ℕ) (e1 : Efs) : Type 0 where
  pub blocks : (l : ℕ) → block_of e1 i l ≡ block_of e i l
  pub addrs : (index : ℕ) → (e1.inode i).i_addrs index ≡ (e.inode i).i_addrs index
  pub size : (e1.inode i).i_size ≡ (e.inode i).i_size
  pub content : (k : ℕ) → file_byte e1 i k ≡ overwritten (file_byte e i) offset bytes k

overwritten_out :
    (old : ℕ → ℕ) (offset : ℕ) (bytes : List ℕ) (k : ℕ)
    → ¬ ((offset ≤ k) × (k < offset + length bytes))
    → overwritten old offset bytes k ≡ old k
unfolding overwritten
overwritten_out old offset bytes k out =
    elim (Bool-cases (leb offset k && ltb k (offset + length bytes))) [
      | inl h ↦ absurd (out (ground arith, ground arith))
      | inr h ↦ rw h refl
    ]

pub overwritten_in :
    (old : ℕ → ℕ) (offset : ℕ) (bytes : List ℕ) (k : ℕ)
    → offset ≤ k
    → k < offset + length bytes
    → overwritten old offset bytes k ≡ get_or bytes (k - offset) 0
unfolding overwritten
overwritten_in old offset bytes k a b = ground (arith, a, b)

file_byte_at :
    (e : Efs) (i k : ℕ)
    → byte_at e.cache (block_of e i (k / block_size) * block_size + k % block_size)
      ≡ file_byte e i k
unfolding file_byte
file_byte_at e i k = refl

-- a write to the block of a byte of the file is a write to the file
overwritten-file_byte :
    (e : Efs) (i offset : ℕ) (bytes : List ℕ) (k : ℕ)
    → let bno = block_of e i (offset / block_size) in
      Own e i
      → 0 < bno
      → offset % block_size + length bytes ≤ block_size
      → overwritten
          (byte_at e.cache)
          (bno * block_size + offset % block_size)
          bytes
          (block_of e i (k / block_size) * block_size + k % block_size)
        ≡ overwritten (file_byte e i) offset bytes k
overwritten-file_byte e i offset bytes k own there short =
    let bno = block_of e i (offset / block_size) in
    let b = block_of e i (k / block_size) in
    elim (Bool-cases (leb offset k && ltb k (offset + length bytes))) [
      | inl h ↦
          let lo : offset ≤ k = ground arith in
          let hi : k < offset + length bytes = ground arith in
          let near : k / block_size ≡ offset / block_size = omega (arith, lo, hi, short) in
          let same : b ≡ bno = ap (block_of e i) near in
          overwritten_in _ _ bytes _ (omega (arith, same, near, lo))
            (omega (arith, same, near, lo, hi))
          ∙ ap (λ j. get_or bytes j 0) (omega (arith, same, near, lo))
          ∙ sym (overwritten_in (file_byte e i) offset bytes k lo hi)
      | inr h ↦
          let far : ¬ ((offset ≤ k) × (k < offset + length bytes)) =
            λ q. ground (arith, q.0, q.1) in
          overwritten_out _ _ bytes _ (λ q.
            let same : bno ≡ b = omega (arith, q.0, q.1, short) in
            let near : offset / block_size ≡ k / block_size = own.distinct _ _ there same in
            far (omega (arith, same, near, q.0), omega (arith, same, near, q.0, q.1)))
          ∙ file_byte_at e i k
          ∙ sym (overwritten_out (file_byte e i) offset bytes k far)
    ]

file_byte_cache :
    (e : Efs) (i : ℕ) (c : Cache) (k : ℕ)
    → block_of (record e { cache = c }) i (k / block_size) ≡ block_of e i (k / block_size)
    → file_byte (record e { cache = c }) i k
      ≡ byte_at c (block_of e i (k / block_size) * block_size + k % block_size)
unfolding file_byte
file_byte_cache e i c k same = ap (λ b. byte_at c (b * block_size + k % block_size)) same

-- one block
write_one :
    (e : Efs) (i offset : ℕ) (bytes : List ℕ)
    → let bno = block_of e i (offset / block_size) in
      (e.inode i).i_addrs ndirect < 2 ^ 32
      → Own e i
      → 0 < bno
      → bno < 2 ^ 32
      → offset % block_size + length bytes ≤ block_size
      → Writes e i offset bytes
          (record e { cache = gen_write e.cache bno (offset % block_size) bytes })
write_one e i offset bytes small own there bound short =
    let bno = block_of e i (offset / block_size) in
    let c = gen_write e.cache bno (offset % block_size) bytes in
    let w : (n : ℕ)
        → byte_at c n
          ≡ overwritten (byte_at e.cache) (bno * block_size + offset % block_size) bytes n =
      λ n.
        unfold overwritten in
        gen_write-byte_at e.cache bno (offset % block_size) bytes n (omega (arith, bound))
          (omega (arith, short)) in
    let ne : bno ≢ (e.inode i).i_addrs ndirect = own.apart (offset / block_size) there in
    let same : (l : ℕ) → block_of (record e { cache = c }) i l ≡ block_of e i l = λ l.
      block_of_same e i c l small (λ j lt.
        w _ ∙ overwritten_out _ _ bytes _ (λ q. ne (omega (arith, q.0, q.1, short, lt)))) in
    record {
      blocks = same;
      addrs = λ j. refl;
      size = refl;
      content = λ k.
          file_byte_cache e i c k (same (k / block_size))
          ∙ w _
          ∙ overwritten-file_byte e i offset bytes k own there short;
    }

Own-kept :
    (e : Efs) (i : ℕ) {e1 : Efs}
    → ((l : ℕ) → block_of e1 i l ≡ block_of e i l)
    → ((j : ℕ) → (e1.inode i).i_addrs j ≡ (e.inode i).i_addrs j)
    → Own e i
    → Own e1 i
Own-kept e i {e1} blocks addrs v = record {
  distinct = λ l k. rw (blocks l, blocks k) (v.distinct l k);
  apart = λ l. rw (blocks l, addrs ndirect) (v.apart l);
}

overwritten_ext :
    (f g : ℕ → ℕ) (offset : ℕ) (bytes : List ℕ) (k : ℕ)
    → f k ≡ g k
    → overwritten f offset bytes k ≡ overwritten g offset bytes k
unfolding overwritten
overwritten_ext f g offset bytes k same = rw same refl

-- a write of the first `m` bytes and then of the others
overwritten-take :
    (old : ℕ → ℕ) (offset m : ℕ) (bytes : List ℕ) (k : ℕ)
    → m ≤ length bytes
    → overwritten (overwritten old offset (take m bytes)) (offset + m) (drop m bytes) k
      ≡ overwritten old offset bytes k
unfolding overwritten
overwritten-take old offset m bytes k le =
    let size : length (drop m bytes) ≡ length bytes - m = length-drop m bytes in
    let short : length (take m bytes) ≡ m = take_short m bytes le in
    let late : offset + m ≤ k
        → get_or (drop m bytes) (k - (offset + m)) 0 ≡ get_or bytes (k - offset) 0 =
      λ h.
        get_or-drop m bytes (k - (offset + m)) 0 ∙ ap (λ j. get_or bytes j 0) (omega (arith, h)) in
    let early = get_or-take m bytes (k - offset) 0 in ground (arith, size, short, late, early)

write_blocks_round :
    (fuel : ℕ) (e : Efs) (i offset x : ℕ) (xs : List ℕ) (bno tot : ℕ) {e1 e2 : Efs}
    → let bytes = x ∷ xs in
      let m = min (length bytes) (block_size - offset % block_size) in
      efs_i_bmap e i (offset / block_size) true ≡ some (bno, e1)
      → 0 < bno
      → write_blocks fuel
          (record e1 { cache = gen_write e1.cache bno (offset % block_size) (take m bytes) })
          i
          (offset + m)
          (drop m bytes)
        ≡ some (tot, e2)
      → write_blocks (suc fuel) e i offset bytes ≡ some (m + tot, e2)
unfolding write_blocks
write_blocks_round fuel e i offset x xs bno tot {e1} {e2} p lt rest = rw p (ground arith)

-- the write of a round, after the search for its block
first_block :
    (e : Efs) (i offset : ℕ) (bytes : List ℕ) {e1 : Efs}
    → let bno = block_of e i (offset / block_size) in
      Keeps e i e1
      → Own e i
      → (e.inode i).i_addrs ndirect < 2 ^ 32
      → 0 < bno
      → bno < 2 ^ 32
      → offset % block_size + length bytes ≤ block_size
      → Writes e i offset bytes
          (record e1 { cache = gen_write e1.cache bno (offset % block_size) bytes })
first_block e i offset bytes {e1} k own small there bound short =
    let b = k.blocks (offset / block_size) in
    let w =
      write_one e1 i offset bytes (rw (k.addrs ndirect) small) (Own-kept e i k.blocks k.addrs own)
        (rw b there) (rw b bound) short in
    let w1 : Writes e1 i offset bytes (record e1 {
      cache = gen_write e1.cache (block_of e i (offset / block_size)) (offset % block_size) bytes;
    }) =
      subst
        (λ n.
          Writes e1 i offset bytes
            (record e1 { cache = gen_write e1.cache n (offset % block_size) bytes }))
        b w in
    record {
      blocks = λ l. w1.blocks l ∙ k.blocks l;
      addrs = λ j. w1.addrs j ∙ k.addrs j;
      size = w1.size ∙ k.size;
      content = λ j. w1.content j ∙ overwritten_ext _ _ offset bytes j (file_byte_kept e i j k);
    }

-- The loop with more fuel than bytes writes all of them, if the file has blocks for them.
pub write_blocks-Writes :
    (fuel : ℕ) (e : Efs) (i offset : ℕ) (bytes : List ℕ)
    → length bytes < fuel
    → Own e i
    → Mapped e i offset (length bytes)
    → (e1 : Efs) × (write_blocks fuel e i offset bytes ≡ some (length bytes, e1))
      × Writes e i offset bytes e1
write_blocks-Writes zero e i offset bytes lt own mapped = absurd (omega arith)
write_blocks-Writes (suc fuel) e i offset [] lt own mapped = (
  e,
  unfold write_blocks in refl,
  record {
    blocks = λ l. refl;
    addrs = λ j. refl;
    size = refl;
    content = λ k. sym (overwritten_out _ offset [] k (λ q. omega (arith, q.0, q.1)));
  },
)
write_blocks-Writes (suc fuel) e i offset (x ∷ xs) lt own mapped =
    let bytes = x ∷ xs in
    let bno = block_of e i (offset / block_size) in
    let there = mapped.some_block offset (omega arith) (omega arith) in
    let bound = mapped.in_range offset (omega arith) (omega arith) in
    let (e1, p, k) = efs_i_bmap_there e i (offset / block_size) mapped.indir there in
    let m = min (length bytes) (block_size - offset % block_size) in
    let le : m ≤ length bytes = ground arith in
    let e2 : Efs = record e1 {
      cache = gen_write e1.cache bno (offset % block_size) (take m bytes);
    } in
    let w : Writes e i offset (take m bytes) e2 =
      first_block e i offset (take m bytes) k own mapped.indir there bound
        (ground (arith, take_short m bytes le)) in
    let (e3, q, r) =
      write_blocks-Writes fuel e2 i (offset + m) (drop m bytes)
        (ground (arith, length-drop m bytes)) (Own-kept e i w.blocks w.addrs own)
        (subst (λ n. Mapped e2 i (offset + m) n) (sym (length-drop m bytes))
          (Mapped-rest e i offset (length bytes) m w.blocks w.addrs mapped)) in
    (
      e3,
      write_blocks_round fuel e i offset x xs bno (length (drop m bytes)) p there q
          ∙ ap (λ n. some (n, e3)) (omega (arith, length-drop m bytes, le)),
      record {
        blocks = λ l. r.blocks l ∙ w.blocks l;
        addrs = λ j. r.addrs j ∙ w.addrs j;
        size = r.size ∙ w.size;
        content = λ j.
            r.content j
            ∙ overwritten_ext _ _ (offset + m) (drop m bytes) j (w.content j)
            ∙ overwritten-take (file_byte e i) offset m bytes j le;
      },
    )

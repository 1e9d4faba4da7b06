-- ===== src/Easyfs/Content.antt =====
-- `efs_i_read` of fs/easyfs/inode.c reads the bytes of a file.
use mathlib.Core.Path.{ap, sym, ◌∙◌}
use risc.Common.{
  ℕ, zero, suc, ◌+◌, ◌-◌, ◌*◌, ◌/◌, ◌%◌, ◌^◌, ◌≤◌, ◌<◌, ◌≡◌, refl, inl, inr, false, none, some,
  List, [], ◌++◌, arith, ltb, leb, if◌then◌else◌, Bool-cases, Option-cases, get_or, length,
  length-append, get_or-append,
}
use risc.Blk.{Cache, gen_read}
use risc.Blk.View.{byte_at, gen_read-byte_at}
use risc.Easyfs.{
  Efs, block_size, ndirect, nindirect, min, word, efs_i_bmap, read_blocks, efs_i_read,
}
use risc.Easyfs.Blocks.{block_of, indirect_of, Keeps, Keeps-trans, Keeps-refl, efs_i_bmap-block_of}

-- the number at the index `l` of a block
word_at : Cache → ℕ → ℕ → ℕ
word_at c b l =
    byte_at c (b * block_size + 4 * l)
    + byte_at c (b * block_size + (4 * l + 1)) * 2 ^ 8
    + byte_at c (b * block_size + (4 * l + 2)) * 2 ^ 16
    + byte_at c (b * block_size + (4 * l + 3)) * 2 ^ 24

gen_read-get_or :
    (c : Cache) (b j : ℕ)
    → b < 2 ^ 32
    → j < block_size
    → get_or (gen_read c b 0 block_size).0 j 0 ≡ byte_at c (b * block_size + j)
gen_read-get_or c b j small lt =
    (gen_read-byte_at c b 0 block_size (omega arith) (omega arith)).1 j lt
    ∙ ap (byte_at c) (omega arith)

word-gen_read :
    (c : Cache) (b l : ℕ)
    → b < 2 ^ 32
    → l < nindirect
    → word (gen_read c b 0 block_size).0 l ≡ word_at c b l
unfolding word word_at
word-gen_read c b l small lt =
    rw
      (
        gen_read-get_or c b (4 * l) small (omega arith),
        gen_read-get_or c b (4 * l + 1) small (omega arith),
        gen_read-get_or c b (4 * l + 2) small (omega arith),
        gen_read-get_or c b (4 * l + 3) small (omega arith),
      )
      refl

word_at_same :
    (c d : Cache) (b l : ℕ)
    → ((j : ℕ) → j < block_size → byte_at d (b * block_size + j) ≡ byte_at c (b * block_size + j))
    → l < nindirect
    → word_at d b l ≡ word_at c b l
unfolding word_at
word_at_same c d b l same lt =
    rw
      (
        same (4 * l) (omega arith),
        same (4 * l + 1) (omega arith),
        same (4 * l + 2) (omega arith),
        same (4 * l + 3) (omega arith),
      )
      refl

indirect_of-none :
    (e : Efs) (i : ℕ)
    → (e.inode i).i_indir ≡ none
    → indirect_of e i ≡ word (gen_read e.cache ((e.inode i).i_addrs ndirect) 0 block_size).0
unfolding indirect_of
indirect_of-none e i n = ground (arith, n)

indirect_of-some :
    (e : Efs) (i : ℕ) {blk : ℕ → ℕ} → (e.inode i).i_indir ≡ some blk → indirect_of e i ≡ blk
unfolding indirect_of
indirect_of-some e i s = ground (arith, s)

indirect_of_same :
    (e : Efs) (i : ℕ) (c : Cache) (l : ℕ)
    → let b = (e.inode i).i_addrs ndirect in
      b < 2 ^ 32
      → ((j : ℕ)
          → j < block_size
          → byte_at c (b * block_size + j) ≡ byte_at e.cache (b * block_size + j))
      → l < nindirect
      → indirect_of (record e { cache = c }) i l ≡ indirect_of e i l
indirect_of_same e i c l small same lt =
    let b = (e.inode i).i_addrs ndirect in
    elim (Option-cases (e.inode i).i_indir) [
      | inl n ↦
          ap (λ f. f l) (indirect_of-none (record e { cache = c }) i n)
          ∙ word-gen_read c b l small lt
          ∙ word_at_same e.cache c b l same lt
          ∙ sym (ap (λ f. f l) (indirect_of-none e i n) ∙ word-gen_read e.cache b l small lt)
      | inr (blk, s) ↦
          ap (λ f. f l)
            (indirect_of-some (record e { cache = c }) i s ∙ sym (indirect_of-some e i s))
    ]

-- Another cache with the same bytes in the indirect block has the same blocks of the file.
pub block_of_same :
    (e : Efs) (i : ℕ) (c : Cache) (l : ℕ)
    → let b = (e.inode i).i_addrs ndirect in
      b < 2 ^ 32
      → ((j : ℕ)
          → j < block_size
          → byte_at c (b * block_size + j) ≡ byte_at e.cache (b * block_size + j))
      → block_of (record e { cache = c }) i l ≡ block_of e i l
unfolding block_of
block_of_same e i c l small same = ground (arith, indirect_of_same e i c (l - ndirect) small same)

cache-Keeps :
    (e : Efs) (i : ℕ) (c : Cache)
    → (e.inode i).i_addrs ndirect < 2 ^ 32
    → ((n : ℕ) → byte_at c n ≡ byte_at e.cache n)
    → Keeps e i (record e { cache = c })
cache-Keeps e i c small same = record {
  blocks = λ l. block_of_same e i c l small (λ j lt. same _);
  addrs = λ j. refl;
  size = refl;
  bytes = same;
}

-- the byte `k` of a file
unfoldable pub file_byte : Efs → ℕ → ℕ → ℕ
file_byte e i k = byte_at e.cache (block_of e i (k / block_size) * block_size + k % block_size)

pub file_byte_kept :
    (e : Efs) (i : ℕ) {e1 : Efs} (k : ℕ) → Keeps e i e1 → file_byte e1 i k ≡ file_byte e i k
unfolding file_byte
file_byte_kept e i {e1} k s = rw (s.blocks (k / block_size)) (s.bytes _)

-- Every byte from `offset` on, `len` of them, is in a block of the device.
pub record Mapped (e : Efs) (i offset len : ℕ) : Type 0 where
  pub indir : (e.inode i).i_addrs ndirect < 2 ^ 32
  pub some_block : (k : ℕ) → offset ≤ k → k < offset + len → 0 < block_of e i (k / block_size)
  pub in_range : (k : ℕ) → offset ≤ k → k < offset + len → block_of e i (k / block_size) < 2 ^ 32

-- The bytes that a read gives are those of the file, and it changes neither the file nor the device.
pub record Reads (e : Efs) (i offset len : ℕ) (xs : List ℕ) (e1 : Efs) : Type 0 where
  pub sized : length xs ≡ len
  pub bytes : (j : ℕ) → j < len → get_or xs j 0 ≡ file_byte e i (offset + j)
  pub keeps : Keeps e i e1

pub Mapped-rest :
    (e : Efs) (i offset len m : ℕ) {e1 : Efs}
    → ((l : ℕ) → block_of e1 i l ≡ block_of e i l)
    → ((j : ℕ) → (e1.inode i).i_addrs j ≡ (e.inode i).i_addrs j)
    → Mapped e i offset len
    → Mapped e1 i (offset + m) (len - m)
Mapped-rest e i offset len m {e1} blocks addrs v = record {
  indir = rw (addrs ndirect) v.indir;
  some_block = λ j a b. rw (blocks (j / block_size)) (v.some_block j (omega arith) (omega arith));
  in_range = λ j a b. rw (blocks (j / block_size)) (v.in_range j (omega arith) (omega arith));
}

-- the byte `offset + j` lies in the block of the byte `offset`
near_byte :
    (e : Efs) (i offset j : ℕ)
    → j < block_size - offset % block_size
    → byte_at e.cache (block_of e i (offset / block_size) * block_size + offset % block_size + j)
      ≡ file_byte e i (offset + j)
unfolding file_byte
near_byte e i offset j lt =
    let a : (offset + j) / block_size ≡ offset / block_size = omega arith in
    let b : (offset + j) % block_size ≡ offset % block_size + j = omega arith in
    rw (a, b) (ap (byte_at e.cache) (omega arith))

-- one round of the loop
read_blocks_round :
    (fuel : ℕ) (e : Efs) (i offset n bno : ℕ) {e1 e2 : Efs} {ys : List ℕ}
    → efs_i_bmap e i (offset / block_size) false ≡ some (bno, e1)
    → 0 < bno
    → let m = min (suc n) (block_size - offset % block_size) in
      let out = gen_read e1.cache bno (offset % block_size) m in
      read_blocks fuel (record e1 { cache = out.1 }) i (offset + m) (suc n - m) ≡ some (ys, e2)
      → read_blocks (suc fuel) e i offset (suc n) ≡ some (out.0 ++ ys, e2)
unfolding read_blocks
read_blocks_round fuel e i offset n bno {e1} {e2} {ys} p lt rest = rw p (ground arith)

-- The loop with more fuel than bytes reads all of them.
read_blocks-Reads :
    (fuel : ℕ) (e : Efs) (i offset len : ℕ)
    → len < fuel
    → Mapped e i offset len
    → (xs : List ℕ) × (e1 : Efs) × (read_blocks fuel e i offset len ≡ some (xs, e1))
      × Reads e i offset len xs e1
read_blocks-Reads zero e i offset len lt m = absurd (omega arith)
read_blocks-Reads (suc fuel) e i offset zero lt m = (
  [],
  e,
  unfold read_blocks in refl,
  record { sized = refl; bytes = λ j h. absurd (omega arith); keeps = Keeps-refl e i },
)
read_blocks-Reads (suc fuel) e i offset (suc n) lt mapped =
    let bno = block_of e i (offset / block_size) in
    let (e1, p, k) = efs_i_bmap-block_of e i (offset / block_size) mapped.indir in
    let m = min (suc n) (block_size - offset % block_size) in
    let out = gen_read e1.cache bno (offset % block_size) m in
    let small : bno < 2 ^ 32 = mapped.in_range offset (omega arith) (omega arith) in
    let fit : offset % block_size + m ≤ block_size = ground arith in
    let (sized, bytes, same) =
      gen_read-byte_at e1.cache bno (offset % block_size) m (omega (arith, small, fit))
        (omega (arith, fit)) in
    let le : m ≤ suc n = ground arith in
    let e1' : Efs = record e1 { cache = out.1 } in
    let k1 : Keeps e i e1' =
      Keeps-trans e i e1 e1' k (cache-Keeps e1 i out.1 (rw (k.addrs ndirect) mapped.indir) same) in
    let (ys, e2, q, r) =
      read_blocks-Reads fuel e1' i (offset + m) (suc n - m) (ground arith)
        (Mapped-rest e i offset (suc n) m k1.blocks k1.addrs mapped) in
    (
      out.0 ++ ys,
      e2,
      read_blocks_round fuel e i offset n bno p
          (mapped.some_block offset (omega arith) (omega arith)) q,
      record {
        sized = omega (arith, length-append out.0 ys, sized, r.sized, le);
        bytes = λ j h. elim (Bool-cases (ltb j m)) [
          | inl w ↦
              let q1 : get_or (out.0 ++ ys) j 0 ≡ get_or out.0 j 0 =
                ground (arith, get_or-append out.0 ys j 0, sized) in
              q1 ∙ bytes j (ground arith) ∙ k.bytes _ ∙ near_byte e i offset j (ground arith)
          | inr w ↦
              let q1 : get_or (out.0 ++ ys) j 0 ≡ get_or ys (j - m) 0 =
                ground (arith, get_or-append out.0 ys j 0, sized) in
              q1
              ∙ r.bytes (j - m) (ground arith)
              ∙ file_byte_kept e i (offset + m + (j - m)) k1
              ∙ ap (file_byte e i) (ground arith)
        ];
        keeps = Keeps-trans e i e1' e2 k1 r.keeps;
      },
    )

-- how many of `len` bytes from `offset` on a file of `size` bytes has
unfoldable pub inside : ℕ → ℕ → ℕ → ℕ
inside size offset len = if ltb size (offset + len) then size - offset else len

pub inside_all : (size offset len : ℕ) → offset + len ≤ size → inside size offset len ≡ len
unfolding inside
inside_all size offset len le = ground (arith, le)

-- `efs_i_read` of a file whose bytes all have a block gives the bytes that are asked for, cut off at
-- the end of the file, and changes nothing of the file or the device, if `offset + len` does not wrap.
pub efs_i_read-Reads :
    (e : Efs) (i offset len : ℕ)
    → offset + len < 2 ^ 32
    → let m = inside (e.inode i).i_size offset len in
      Mapped e i offset m
      → (xs : List ℕ) × (e1 : Efs) × (efs_i_read e i offset len ≡ some (xs, e1))
        × Reads e i offset m xs e1
unfolding efs_i_read inside
efs_i_read-Reads e i offset len small mapped =
    let size = (e.inode i).i_size in
    elim (Bool-cases (leb size offset)) [
      | inl over ↦ (
        [],
        e,
        ground arith,
        record {
          sized = ground arith;
          bytes = λ j h. absurd (ground arith);
          keeps = Keeps-refl e i;
        },
      )
      | inr under ↦
          let m = inside size offset len in
          let (xs, e1, p, r) = read_blocks-Reads (suc m) e i offset m (omega arith) mapped in
          (xs, e1, ground (arith, p), r)
    ]

-- ===== src/Blk/View.antt =====
-- The cache of kernel/dev/blk is transparent: reads and writes are those of an array of bytes.
use mathlib.Core.Path.{ap, ◌∙◌}
use risc.Common.{
  ℕ, zero, suc, ◌+◌, ◌-◌, ◌*◌, ◌/◌, ◌%◌, ◌^◌, ◌≤◌, ◌<◌, ◌≡◌, refl, inl, inr, true, false, ◌&&◌, not,
  List, [], ◌∷◌, arith, ltb, leb, ◌==◌, if◌then◌else◌, Bool-cases, get_or, length, length-append,
  take, drop, take_short, length-drop, get_or-append, get_or-take, get_or-drop, update,
}
use risc.Blk.{
  Bio, Buf, Cache, blk_size, buf_get, fill, buf_release, copy_out, copy_in, read_bio, write_bio,
  read_bios, write_bios, gen_read, gen_write,
}
use risc.Blk.Cut.{Run, done, piece, bio_list_make-Run}

-- what a block holds: its page, or the disk where no page has been read or written
unfoldable pub page_of : Cache → ℕ → ℕ → ℕ
page_of c b = if (buf_get c b).is_new then c.disk b else (buf_get c b).page

-- the byte `n` of the device
abbrev pub byte_at : Cache → ℕ → ℕ
byte_at c n = page_of c (n / blk_size) (n % blk_size)

copy_in-get_or :
    (page : ℕ → ℕ) (offset : ℕ) (xs : List ℕ) (j : ℕ)
    → copy_in page offset xs j
      ≡ (if leb offset j && ltb j (offset + length xs) then get_or xs (j - offset) 0 else page j)
unfolding copy_in
copy_in-get_or page offset [] j = ground arith
copy_in-get_or page offset (x ∷ xs) j =
    ground (arith, copy_in-get_or (update page offset x) (offset + 1) xs j)

pub length-copy_out : (page : ℕ → ℕ) (offset n : ℕ) → length (copy_out page offset n) ≡ n
unfolding copy_out
length-copy_out page offset zero = refl
length-copy_out page offset (suc n) = ap suc (length-copy_out page (offset + 1) n)

pub get_or-copy_out :
    (page : ℕ → ℕ) (offset n i : ℕ)
    → i < n
    → get_or (copy_out page offset n) i 0 ≡ page (offset + i)
unfolding copy_out
get_or-copy_out page offset zero i lt = absurd (omega arith)
get_or-copy_out page offset (suc n) zero lt = ground arith
get_or-copy_out page offset (suc n) (suc i) lt =
    ground (arith, get_or-copy_out page (offset + 1) n i (omega arith))

read_bio-page_of :
    (c : Cache) (bio : Bio)
    → ((read_bio c bio).0 ≡ copy_out (page_of c bio.b_blockno) bio.offset bio.len)
      × ((b : ℕ) → page_of (read_bio c bio).1 b ≡ page_of c b)
unfolding read_bio page_of buf_get fill buf_release
read_bio-page_of c bio = (ground arith, λ b. ground arith)

-- the buffer that a write changes
target : Cache → Bio → Buf
target c bio =
    let x = buf_get c bio.b_blockno in
    if not (bio.offset == 0 && bio.len == blk_size) && x.is_new then fill c bio.b_blockno x else x

write_bio-target :
    (c : Cache) (bio : Bio) (bytes : List ℕ) (b : ℕ)
    → page_of (write_bio c bio bytes) b
      ≡ (if b == bio.b_blockno then copy_in (target c bio).page bio.offset bytes else page_of c b)
unfolding write_bio page_of target buf_get fill buf_release
write_bio-target c bio bytes b = ground arith

target_part :
    (c : Cache) (bio : Bio)
    → (bio.offset == 0 && bio.len == blk_size) ≡ false
    → (target c bio).page ≡ page_of c bio.b_blockno
unfolding page_of target fill
target_part c bio h = ground arith

write_bio-page_of :
    (c : Cache) (bio : Bio) (bytes : List ℕ) (b j : ℕ)
    → length bytes ≡ bio.len
    → j < blk_size
    → page_of (write_bio c bio bytes) b j ≡ (
        if b == bio.b_blockno && leb bio.offset j && ltb j (bio.offset + bio.len)
        then get_or bytes (j - bio.offset) 0
        else page_of c b j)
write_bio-page_of c bio bytes b j e lt =
    let w = ap (λ f. f j) (write_bio-target c bio bytes b) in
    let g = copy_in-get_or (target c bio).page bio.offset bytes j in
    elim (Bool-cases (b == bio.b_blockno)) [
      | inl q ↦ elim (Bool-cases (bio.offset == 0 && bio.len == blk_size)) [
        | inl whole ↦ ground (arith, w, g)
        | inr part ↦ ground (arith, w, g, target_part c bio part)
      ]
      | inr q ↦ ground (arith, w)
    ]

-- a byte of a piece, read out of its page
in_piece :
    (c : Cache) (b offset len s i : ℕ)
    → b * blk_size + offset ≡ s
    → offset + len ≤ blk_size
    → i < len
    → get_or (copy_out (page_of c b) offset len) i 0 ≡ byte_at c (s + i)
in_piece c b offset len s i at le lt =
    let block : b ≡ (s + i) / blk_size = omega arith in
    let rest : offset + i ≡ (s + i) % blk_size = omega arith in
    get_or-copy_out (page_of c b) offset len i lt
    ∙ ap (λ x. page_of c x (offset + i)) block
    ∙ ap (λ y. page_of c ((s + i) / blk_size) y) rest

-- a write of one piece, seen at a byte of the device
write_bio-byte_at :
    (c : Cache) (bio : Bio) (bytes : List ℕ) (s n : ℕ)
    → bio.b_blockno * blk_size + bio.offset ≡ s
    → bio.offset + bio.len ≤ blk_size
    → length bytes ≡ bio.len
    → byte_at (write_bio c bio bytes) n
      ≡ (if leb s n && ltb n (s + bio.len) then get_or bytes (n - s) 0 else byte_at c n)
write_bio-byte_at c bio bytes s n at le e =
    let w = write_bio-page_of c bio bytes (n / blk_size) (n % blk_size) e (omega arith) in
    elim (Bool-cases (leb s n && ltb n (s + bio.len))) [
      | inl q ↦
          let block : n / blk_size ≡ bio.b_blockno = ground arith in
          let index : n % blk_size - bio.offset ≡ n - s = ground arith in
          let hit : (n / blk_size == bio.b_blockno
                && leb bio.offset (n % blk_size)
                && ltb (n % blk_size) (bio.offset + bio.len))
              ≡ true =
            ground arith in
          w
          ∙ ap (λ b. if b then get_or bytes (n % blk_size - bio.offset) 0 else byte_at c n) hit
          ∙ ap (λ i. get_or bytes i 0) index
          ∙ ground (arith, q)
      | inr q ↦
          let miss : (n / blk_size == bio.b_blockno
                && leb bio.offset (n % blk_size)
                && ltb (n % blk_size) (bio.offset + bio.len))
              ≡ false =
            ground arith in
          w ∙ ground (arith, q, miss)
    ]

-- the bytes that the reads of `bios` give, and that the writes leave
read_bios-byte_at :
    {bios : List Bio} {s len : ℕ} (c : Cache)
    → Run bios s len
    → let (bytes, c1) = read_bios c bios in
      (length bytes ≡ len)
      × ((i : ℕ) → i < len → get_or bytes i 0 ≡ byte_at c (s + i))
      × ((b : ℕ) → page_of c1 b ≡ page_of c b)
unfolding read_bios
read_bios-byte_at c done = (refl, λ i lt. absurd (omega arith), λ b. refl)
read_bios-byte_at c (piece {bio} {bios} {s} {len} at le lt r) =
    let (xs, same) = read_bio-page_of c bio in
    let c1 = (read_bio c bio).1 in
    let (size, bytes, rest) = read_bios-byte_at c1 r in
    let first_size : length (read_bio c bio).0 ≡ bio.len =
      ap length xs ∙ length-copy_out (page_of c bio.b_blockno) bio.offset bio.len in
    let joined = get_or-append (read_bio c bio).0 (read_bios c1 bios).0 in
    (
      omega (arith, length-append (read_bio c bio).0 (read_bios c1 bios).0, first_size, size),
      λ i within. elim (Bool-cases (ltb i bio.len)) [
        | inl near ↦
            let f : get_or (read_bio c bio).0 i 0 ≡ byte_at c (s + i) =
              ap (λ l. get_or l i 0) xs
              ∙ in_piece c bio.b_blockno bio.offset bio.len s i at le (ground arith) in
            joined i 0 ∙ ground (arith, first_size, f)
        | inr far ↦
            let there : s + bio.len + (i - bio.len) ≡ s + i = ground arith in
            let g : get_or (read_bios c1 bios).0 (i - bio.len) 0 ≡ byte_at c (s + i) =
              bytes (i - bio.len) (ground arith)
              ∙ ap (byte_at c1) there
              ∙ ap (λ f. f ((s + i) % blk_size)) (same ((s + i) / blk_size)) in
            joined i 0 ∙ ground (arith, first_size, g)
      ],
      λ b. rest b ∙ same b,
    )

write_bios-byte_at :
    {bios : List Bio} {s len : ℕ} (c : Cache) (bytes : List ℕ) (n : ℕ)
    → Run bios s len
    → length bytes ≡ len
    → byte_at (write_bios c bios bytes) n
      ≡ (if leb s n && ltb n (s + len) then get_or bytes (n - s) 0 else byte_at c n)
unfolding write_bios
write_bios-byte_at {bios} {s} c bytes n done e = ground arith
write_bios-byte_at c bytes n (piece {bio} {bios} {s} {len} at le lt r) e =
    let c1 = write_bio c bio (take bio.len bytes) in
    let size : length (drop bio.len bytes) ≡ len = omega (arith, e, length-drop bio.len bytes) in
    let short : length (take bio.len bytes) ≡ bio.len =
      take_short bio.len bytes (omega (arith, e)) in
    let w = write_bio-byte_at c bio (take bio.len bytes) s n at le short in
    let t = get_or-take bio.len bytes (n - s) 0 in
    let d = get_or-drop bio.len bytes (n - (s + bio.len)) 0 in
    write_bios-byte_at c1 (drop bio.len bytes) n r size ∙ elim (Bool-cases (leb (s + bio.len) n)) [
      | inl past ↦
          let index : bio.len + (n - (s + bio.len)) ≡ n - s = ground arith in
          let i = ap (λ j. get_or bytes j 0) index in ground (arith, w, d, i)
      | inr before ↦ ground (arith, w, t)
    ]

-- A read returns the `len` bytes of the device from the byte `offset` of block `blockno` on, and
-- changes no byte, if these end before the block 2 ^ 32 and the length from the start of their first
-- block on is below 2 ^ 32.
pub gen_read-byte_at :
    (c : Cache) (blockno offset len : ℕ)
    → blockno * blk_size + offset + len ≤ 2 ^ 32 * blk_size
    → offset % blk_size + len < 2 ^ 32
    → let (bytes, c1) = gen_read c blockno offset len in
      (length bytes ≡ len)
      × ((i : ℕ) → i < len → get_or bytes i 0 ≡ byte_at c (blockno * blk_size + offset + i))
      × ((n : ℕ) → byte_at c1 n ≡ byte_at c n)
unfolding gen_read
gen_read-byte_at c blockno offset len small short =
    let (size, bytes, same) =
      read_bios-byte_at c (bio_list_make-Run blockno offset len small short) in
    (size, bytes, λ n. ap (λ f. f (n % blk_size)) (same (n / blk_size)))

-- A write puts its bytes at the byte `offset` of block `blockno` and on, and changes no other byte
-- of the device, if these end before the block 2 ^ 32 and their length from the start of their first
-- block on is below 2 ^ 32.
pub gen_write-byte_at :
    (c : Cache) (blockno offset : ℕ) (bytes : List ℕ) (n : ℕ)
    → blockno * blk_size + offset + length bytes ≤ 2 ^ 32 * blk_size
    → offset % blk_size + length bytes < 2 ^ 32
    → let s = blockno * blk_size + offset in
      byte_at (gen_write c blockno offset bytes) n
      ≡ (if leb s n && ltb n (s + length bytes) then get_or bytes (n - s) 0 else byte_at c n)
unfolding gen_write
gen_write-byte_at c blockno offset bytes n small short =
    write_bios-byte_at c bytes n (bio_list_make-Run blockno offset (length bytes) small short) refl

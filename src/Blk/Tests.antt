-- ===== src/Blk/Tests.antt =====
-- Runs of kernel/dev/blk over a disk whose bytes are their block numbers.
use risc.Common.{
  ℕ, ◌+◌, ◌-◌, ◌*◌, ◌<◌, ◌≡◌, refl, false, ◌&&◌, none, some, [], ◌∷◌, arith, leb, ltb,
  if◌then◌else◌, ◌==◌, get_or, length,
}
use risc.Sched.Count.{count}
use risc.Blk.{
  Bio, Cache, gen_read, gen_write, read_bio, write_bio, flush_begin, flush_end, flush_all, buf_get,
}
use risc.Blk.View.{page_of, byte_at, gen_read-byte_at, gen_write-byte_at}
use risc.Blk.Flush.{IsValid, bio-IsValid, flush_all-disk, flush_end_loses}

abbrev plain : Cache
plain = record { disk = λ b j. b; buf = λ b. none; dirty_list = []; spare = λ j. 99 }

plain-IsValid : IsValid plain
unfolding page_of buf_get
plain-IsValid = record {
  synced = λ b h. refl;
  loaded = λ b h. absurd (omega arith);
  once = λ b. omega arith;
}

-- block 2 is dirty
abbrev dirty : Cache
dirty = record {
  disk = λ b j. b;
  buf = λ b. if b == 2 then some (record { page = λ j. 50; is_new = false }) else none;
  dirty_list = 2 ∷ [];
  spare = λ j. 99;
}

dirty-IsValid : IsValid dirty
unfolding page_of buf_get
dirty-IsValid = record {
  synced = λ b h. ground arith;
  loaded = λ b h. ground arith;
  once = λ b. ground arith;
}

gen_read-byte_at_example :
    let (bytes, c1) = gen_read plain 3 4000 200 in
    (length bytes ≡ 200)
    × ((i : ℕ) → i < 200 → get_or bytes i 0 ≡ byte_at plain (3 * 4096 + 4000 + i))
    × ((n : ℕ) → byte_at c1 n ≡ byte_at plain n)
gen_read-byte_at_example = gen_read-byte_at plain 3 4000 200 (omega arith) (omega arith)

gen_write-byte_at_example : byte_at (gen_write plain 3 4095 (7 ∷ 8 ∷ [])) (4 * 4096) ≡ (
    if leb (3 * 4096 + 4095) (4 * 4096) && ltb (4 * 4096) (3 * 4096 + 4095 + 2)
    then get_or (7 ∷ 8 ∷ []) (4 * 4096 - (3 * 4096 + 4095)) 0
    else byte_at plain (4 * 4096))
gen_write-byte_at_example =
    gen_write-byte_at plain 3 4095 (7 ∷ 8 ∷ []) (4 * 4096) (omega arith) (omega arith)

abbrev first_bytes : Bio
first_bytes = record { b_blockno = 2; offset = 0; len = 2 }

bio-IsValid_example :
    IsValid (read_bio plain first_bytes).1 × IsValid (write_bio plain first_bytes (7 ∷ 8 ∷ []))
bio-IsValid_example = bio-IsValid plain first_bytes (7 ∷ 8 ∷ []) plain-IsValid

flush_all-disk_example :
    (c1 : Cache) × (flush_all 2 dirty ≡ some c1)
    × (c1.dirty_list ≡ [])
    × ((b : ℕ) → c1.disk b ≡ page_of dirty b)
    × ((b : ℕ) → page_of c1 b ≡ page_of dirty b)
flush_all-disk_example = flush_all-disk 2 dirty dirty-IsValid (omega arith)

flush_end_loses_example :
    (c1 : Cache) × (flush_begin dirty ≡ some (2, c1))
    × (let c2 = write_bio c1 first_bytes (7 ∷ 8 ∷ []) in
        let c3 = flush_end c2 2 in
        (count 2 c3.dirty_list ≡ 0) × (c3.disk 2 ≡ page_of dirty 2) × (page_of c3 2 ≡ page_of c2 2))
flush_end_loses_example =
    flush_end_loses dirty 2 [] first_bytes (7 ∷ 8 ∷ []) dirty-IsValid refl refl

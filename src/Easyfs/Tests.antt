-- ===== src/Easyfs/Tests.antt =====
-- A file of ten bytes in one block, and the theorems at it.
use risc.Common.{
  Option, take, drop, length, ltb, ℕ, ◌+◌, ◌≤◌, ◌≡◌, ◌≢◌, refl, true, false, none, some, List, [],
  ◌∷◌, arith, ◌==◌, if◌then◌else◌, replicate, pos,
}
use risc.Bitmap.{Bitmap, Word, bitmap_init, test_bit}
use risc.Bitmap.Bits.{clear_count}
use risc.Bitmap.Invariant.{IsValid}
use risc.Bitmap.Start.{bitmap_init-IsValid}
use risc.Blk.{copy_out}
use risc.Files.{Files, is_readable}
use risc.Files.Io.{do_read, file_read_no_off}
use risc.Files.Read.{CanRead, ahead}
use risc.Files.Read
use risc.Files.Whole.{do_read_whole}
use risc.Files.Seek.{file_read_no_off-Reads}
use risc.Easyfs.Opened.{inodes, bytes_of, IsSound, efs_contents}
use risc.Easyfs.{f_reg, Inode, Efs, efs_i_read, efs_i_write}
use risc.Easyfs.Blocks.{block_of}
use risc.Easyfs.Content.{Mapped, Reads, inside, efs_i_read-Reads}
use risc.Easyfs.Overwrite.{Own}
use risc.Easyfs.Write.{Written, efs_i_write-Written, efs_i_read-efs_i_write}
use risc.Easyfs.Space.{Counted}
use risc.Easyfs.Inodes.{efs_i_new, efs_i_trunc, efs_i_unlink, Fresh, efs_i_new-Fresh}
use risc.Easyfs.Inodes.Unlink.{Removed, efs_i_unlink-Removed}
use risc.Easyfs.Inodes.Emptied.{Complete, Emptied, efs_i_trunc-Emptied}
use risc.Easyfs.Inodes.Trunc.{Holds, efs_i_trunc_again}

abbrev ones : List Word
ones = replicate 64 true ∷ []

-- all blocks are in use
abbrev full : Bitmap
full = record { map = ones; size = 64; unused = 0; allocation = 0 }

full-IsValid : IsValid full
unfolding clear_count test_bit
full-IsValid = record {
  words = (refl, tt);
  room = omega arith;
  counted = refl;
  low = omega arith;
  below_set = λ j lt. absurd (omega (arith, lt));
}

abbrev fresh : Bitmap
fresh = bitmap_init ones 60

fresh-IsValid : IsValid fresh
fresh-IsValid = (bitmap_init-IsValid ones 60 (refl, tt) (omega arith)).0

abbrev ten_bytes : Inode
ten_bytes = record {
  i_no = 2;
  i_type = f_reg;
  i_size = 10;
  i_addrs = λ index. if index == 0 then 5 else 0;
  i_nlink = 1;
  i_refcnt = 0;
  i_dirty = false;
  i_indir = none;
}

abbrev one_file : Efs
one_file = record {
  inode = λ i. ten_bytes;
  s_ilist = [];
  inode_free = 0;
  block_free = 0;
  s_dirty = false;
  imap = full;
  bmap = full;
  cache = record { disk = λ b j. b; buf = λ b. none; dirty_list = []; spare = λ j. 99 };
}

one_file-Counted : Counted one_file
one_file-Counted = record {
  imap_IsValid = full-IsValid;
  bmap_IsValid = full-IsValid;
  inodes = refl;
  blocks = refl;
}

-- with inodes that are free
abbrev roomy : Efs
roomy = record one_file { imap = fresh; inode_free = fresh.unused }

roomy-Counted : Counted roomy
roomy-Counted = record {
  imap_IsValid = fresh-IsValid;
  bmap_IsValid = full-IsValid;
  inodes = refl;
  blocks = refl;
}

one_file-Own : Own one_file 7
unfolding block_of
one_file-Own = record { distinct = λ l k. ground arith; apart = λ l. ground arith }

one_file-Mapped : (offset len : ℕ) → offset + len ≤ 10 → Mapped one_file 7 offset len
unfolding block_of
one_file-Mapped offset len le = record {
  indir = omega arith;
  some_block = λ k a b. ground (arith, le, a, b);
  in_range = λ k a b. ground (arith, le, a, b);
}

efs_i_read-Reads_example :
    (xs : List ℕ) × (e1 : Efs) × (efs_i_read one_file 7 4 20 ≡ some (xs, e1))
    × Reads one_file 7 4 6 xs e1
unfolding inside
efs_i_read-Reads_example =
    efs_i_read-Reads one_file 7 4 20 (omega arith) (one_file-Mapped 4 6 (omega arith))

efs_i_write-Written_example :
    (e1 : Efs) × (efs_i_write one_file 7 4 (1 ∷ 2 ∷ []) ≡ some (pos 2, e1))
    × Written one_file 7 4 (1 ∷ 2 ∷ []) e1
efs_i_write-Written_example =
    efs_i_write-Written one_file 7 4 (1 ∷ 2 ∷ []) (omega arith) (omega arith) one_file-Own
      (one_file-Mapped 4 2 (omega arith))

efs_i_read-efs_i_write_example :
    (e1 e2 : Efs) × (efs_i_write one_file 7 4 (1 ∷ 2 ∷ []) ≡ some (pos 2, e1))
    × (efs_i_read e1 7 4 2 ≡ some (1 ∷ 2 ∷ [], e2))
efs_i_read-efs_i_write_example =
    efs_i_read-efs_i_write one_file 7 4 (1 ∷ 2 ∷ []) (omega arith) (omega arith) one_file-Own
      (one_file-Mapped 4 2 (omega arith))

fresh_left : fresh.unused ≢ 0
unfolding bitmap_init
fresh_left = omega arith

efs_i_new-Fresh_example : (e1 : Efs) × (efs_i_new roomy 9 ≡ some e1) × Fresh roomy 9 e1
efs_i_new-Fresh_example = efs_i_new-Fresh roomy 9 roomy-Counted fresh_left

one_file-Holds : Holds one_file 7 1 0
unfolding test_bit
one_file-Holds = record {
  short = omega arith;
  stop = λ h. refl;
  direct_InUse = record {
    used = λ q a b. ground (arith, b);
    ranged = λ q a b. ground (arith, b);
    some_block = λ q a b. ground (arith, b);
    distinct = λ q r a b c. absurd (omega (arith, b, c));
  };
  unread = λ h. refl;
  indirect_short = omega arith;
  indirect_stop = λ blk s. absurd (ground (arith, s));
  indirect_InUse = λ blk s. absurd (ground (arith, s));
  apart = λ blk s. absurd (ground (arith, s));
}

one_file-Complete : Complete one_file 7 1 0
one_file-Complete = record {
  holds = one_file-Holds;
  rest = λ q a b. ground (arith, a);
  read = λ n. refl;
  kept = λ blk s. absurd (ground (arith, s));
  indirect_rest = λ blk s. absurd (ground (arith, s));
}

efs_i_trunc-Emptied_example :
    (e1 : Efs) × (efs_i_trunc one_file 7 ≡ some e1) × Emptied one_file 7 1 0 e1
efs_i_trunc-Emptied_example = efs_i_trunc-Emptied one_file 7 1 0 one_file-Counted one_file-Complete

efs_i_trunc_again_example :
    (e1 : Efs) × (efs_i_trunc one_file 7 ≡ some e1) × (efs_i_trunc e1 7 ≡ none)
efs_i_trunc_again_example =
    efs_i_trunc_again one_file 7 1 0 one_file-Counted one_file-Holds (omega arith)

efs_i_unlink-Removed_example :
    (e1 : Efs) × (efs_i_unlink one_file 7 ≡ some (pos 0, e1)) × Removed one_file 7 1 0 e1
unfolding test_bit
efs_i_unlink-Removed_example =
    efs_i_unlink-Removed one_file 7 1 0 one_file-Counted one_file-Complete (omega arith)
      (omega arith) refl refl refl

-- The file is open for reading at the address 100, with its offset at 3.
abbrev no_names : Efs → List ℕ → Option ℕ × Efs
no_names e path = (none, e)

abbrev opened : Files Efs
opened = record {
  file = λ b. record { f_ref = 1; f_flags = 1; f_ip = some 7; f_off = 3 };
  fs = one_file;
}

one_file-IsSound : IsSound one_file 7
one_file-IsSound = record { mapped = one_file-Mapped 0 10 (omega arith); short = omega arith }

opened-CanRead : CanRead (inodes no_names) (efs_contents no_names) opened 100 7
unfolding efs_contents is_readable bytes_of copy_out
opened-CanRead = record {
  readable = refl;
  ip = refl;
  inside = omega arith;
  good = one_file-IsSound;
}

do_read_whole_example :
    let bytes = take 20 (ahead (inodes no_names) (efs_contents no_names) opened 100 7) in
    (k1 : Files Efs) × (do_read (inodes no_names) opened (some 100 ∷ []) true (pos 0) 20
      ≡ some ((pos (length bytes), bytes), k1))
    × Read.Reads (inodes no_names) (efs_contents no_names) opened 100 7 bytes k1
do_read_whole_example =
    do_read_whole (inodes no_names) (efs_contents no_names) opened (some 100 ∷ []) 0 100 7 20
      (omega arith) refl (omega arith) opened-CanRead

file_read_no_off-Reads_example :
    let c = efs_contents no_names in
    (k1 : Files Efs) × (file_read_no_off (inodes no_names) opened 100 5 2
      ≡ some (
        some (
            take 2 (
              if ltb (length (c.content one_file 7)) 5
              then ahead (inodes no_names) c opened 100 7
              else drop 5 (c.content one_file 7))),
        k1,
      ))
    × Read.Reads (inodes no_names) c opened 100 7 [] k1
unfolding efs_contents bytes_of copy_out
file_read_no_off-Reads_example =
    file_read_no_off-Reads (inodes no_names) (efs_contents no_names) opened 100 7 5 2 opened-CanRead
      (omega arith)

-- ===== src/Files/Io.antt =====
-- kernel/file.c: reading, writing and seeking through an open file and its descriptor.
use risc.Common.{
  ℕ, zero, suc, ◌+◌, ◌-◌, Bool, true, false, not, Option, none, some, List, [], ◌∷◌, ◌++◌, ltb,
  if◌then◌else◌, length, take, drop, ◌>>=◌, ℤ, pos, negsuc, minus_one,
}
use risc.Files.{
  Inodes, Files, Table, page_size, uint32, Whence, seek_set, seek_cur, seek_end, seek_other,
  is_readable, is_writable, set_off, fget, fput,
}

module _ {S : Type 0} (i : Inodes S) where
  -- The bytes that were read, none for the result -1.
  unfoldable pub file_read : Files S → ℕ → ℕ → Option (Option (List ℕ) × Files S)
  unfolding is_readable
  file_read k a len =
      let f = k.file a in
      if not (is_readable f) then some (none, k) else do
        node ← f.f_ip
        let (r, fs1) = i.efs_i_read k.fs node f.f_off len
        bytes ← r
        let k1 = record k { fs = fs1 }
        some (some bytes, set_off k1 a (uint32 (f.f_off + length bytes)))

  unfoldable pub file_write : Files S → ℕ → List ℕ → Option (Option ℕ × Files S)
  unfolding is_writable
  file_write k a bytes =
      let f = k.file a in
      if not (is_writable f) then some (none, k) else do
        node ← f.f_ip
        let (r, fs1) = i.efs_i_write k.fs node f.f_off bytes
        w ← r
        let k1 = record k { fs = fs1 }
        some (some w, set_off k1 a (uint32 (f.f_off + w)))

  -- The offset that `whence` and `offset` ask for; `size` is that of the file.
  unfoldable pub seek_target : ℕ → ℕ → ℕ → Whence → Option ℕ
  seek_target size off offset seek_set = if ltb size offset then none else some offset
  seek_target size off offset seek_cur =
      let new_offset = uint32 (off + offset) in
      if ltb size new_offset then none else some new_offset
  seek_target size off offset seek_end =
      let new_offset = uint32 (size + offset) in
      if ltb size new_offset then none else some new_offset
  seek_target size off offset (seek_other n) = none

  unfoldable pub file_llseek : Files S → ℕ → ℕ → Whence → Option (ℤ × Files S)
  unfolding seek_target
  file_llseek k a offset whence = do
    node ← (k.file a).f_ip
    let size = i.efs_i_size k.fs node
    elim (seek_target size (k.file a).f_off offset whence) [
      | none ↦ some (minus_one, k)
      | some off ↦ some (pos 0, set_off k a off)
    ]

  unfoldable pub file_read_no_off : Files S → ℕ → ℕ → ℕ → Option (Option (List ℕ) × Files S)
  unfolding is_readable file_llseek
  file_read_no_off k a off len =
      let tmp = (k.file a).f_off in
      if not (is_readable (k.file a)) then some (none, k) else do
        node ← (k.file a).f_ip
        (r1, k1) ← file_llseek k a off seek_set
        let (r, fs1) = i.efs_i_read k1.fs node (k1.file a).f_off len
        bytes ← r
        (r2, k2) ← file_llseek (record k1 { fs = fs1 }) a tmp seek_set
        some (some bytes, k2)

  -- The loop of `do_read` over chunks of a page: what was copied to the user before and the
  -- count that is left. An error gives no bytes. `fuel` bounds the rounds.
  unfoldable pub read_loop : ℕ → Files S → ℕ → List ℕ → ℕ → Option (Option (List ℕ) × Files S)
  unfolding file_read
  read_loop zero k a total count = none
  read_loop (suc fuel) k a total zero = some (some total, k)
  read_loop (suc fuel) k a total (suc c) = do
    (r, k1) ← file_read k a (if ltb (suc c) page_size then suc c else page_size)
    elim r [
      | none ↦ some (none, k1)
      | some [] ↦ some (some total, k1)
      | some (x ∷ xs) ↦ read_loop fuel k1 a (total ++ (x ∷ xs)) (c - length xs)
    ]

  -- `page` tells whether `__alloc_page` gave the kernel buffer. The result is a count of bytes,
  -- and -1 or -`ENOMEM`, with the bytes that were copied to the user.
  unfoldable pub do_read : Files S → Table → Bool → ℤ → ℕ → Option ((ℤ × List ℕ) × Files S)
  unfolding fget fput read_loop
  do_read k t page fd zero = some ((pos 0, []), k)
  do_read k t false fd (suc c) = do
    (a, k1) ← fget k t fd
    k2 ← fput i k1 a
    some ((negsuc 11, []), k2)
  do_read k t true fd (suc c) = do
    (a, k1) ← fget k t fd
    (r, k2) ← read_loop (suc (suc c)) k1 a [] (suc c)
    k3 ← fput i k2 a
    elim r [
      | none ↦ some ((minus_one, []), k3)
      | some bytes ↦ some ((pos (length bytes), bytes), k3)
    ]

  unfoldable pub write_loop : ℕ → Files S → ℕ → ℕ → List ℕ → Option (Option ℕ × Files S)
  unfolding file_write
  write_loop zero k a total buff = none
  write_loop (suc fuel) k a total [] = some (some total, k)
  write_loop (suc fuel) k a total (b ∷ buff) = do
    (r, k1) ← file_write k a (take page_size (b ∷ buff))
    elim r [
      | none ↦ some (none, k1)
      | some zero ↦ some (some total, k1)
      | some (suc w) ↦ write_loop fuel k1 a (total + suc w) (drop w buff)
    ]

  unfoldable pub do_write : Files S → Table → Bool → ℤ → List ℕ → Option (ℤ × Files S)
  unfolding fget fput write_loop
  do_write k t page fd [] = some (pos 0, k)
  do_write k t false fd (b ∷ buff) = do
    (a, k1) ← fget k t fd
    k2 ← fput i k1 a
    some (negsuc 11, k2)
  do_write k t true fd (b ∷ buff) = do
    (a, k1) ← fget k t fd
    (r, k2) ← write_loop (suc (suc (length buff))) k1 a 0 (b ∷ buff)
    k3 ← fput i k2 a
    elim r [ none ↦ some (minus_one, k3) | some w ↦ some (pos w, k3) ]

-- ===== src/Files.antt =====
-- kernel/file.c, include/fs/file.h and the descriptor tables of kernel/proc/proc.c.
pub mod Io
pub mod Counts
pub mod Effects
pub mod Refs
pub mod Read
pub mod Whole
pub mod Seek
mod Tests
use risc.Common.{
  ℕ, zero, suc, ◌+◌, ◌-◌, ◌*◌, ◌/◌, ◌%◌, ◌^◌, Bool, true, false, not, Option, none, some, List, [],
  ◌∷◌, ◌++◌, ltb, ◌==◌, if◌then◌else◌, get_or, set, replicate, length, take, drop, update, guard,
  is_some, is_neg, ◌>>=◌, ◌>>◌, ℤ, pos, negsuc, minus_one,
}

abbrev pub nofile : ℕ
nofile = 16

abbrev pub page_size : ℕ
page_size = 4096

abbrev pub uint32 : ℕ → ℕ
uint32 n = n % (2 ^ 32)

-- What these functions call in the file system, whose state is `S`. Inodes are pointers, and a
-- transfer that fails is `none`. It may load a block map, so a read returns a state as well.
pub record Inodes (S : Type 0) : Type 0 where
  pub efs_d_namei : S → List ℕ → Option ℕ × S
  pub efs_i_put : S → ℕ → Option S
  pub efs_i_size : S → ℕ → ℕ
  pub efs_i_read : S → ℕ → ℕ → ℕ → Option (List ℕ) × S
  pub efs_i_write : S → ℕ → ℕ → List ℕ → Option ℕ × S

-- `struct file`
pub record File : Type 0 where
  pub f_ref : ℕ
  pub f_flags : ℕ
  pub f_ip : Option ℕ
  pub f_off : ℕ

-- `struct files_struct`
abbrev pub Table : Type 0
Table = List (Option ℕ)

-- The files by address, and the file system below.
pub record Files (S : Type 0) : Type 0 where
  pub file : ℕ → File
  pub fs : S

-- `TEST_FLAG(&f->f_flags, FILE_READ)` and `TEST_FLAG(&f->f_flags, FILE_WRITE)`
unfoldable pub is_readable : File → Bool
is_readable f = f.f_flags % 2 == 1

pub is_writable : File → Bool
is_writable f = (f.f_flags / 2) % 2 == 1

pub file_alloc : ℕ → File
file_alloc flags = record { f_ref = 0; f_flags = flags; f_ip = none; f_off = 0 }

pub get_unused_fd_from : ℕ → Table → ℤ
get_unused_fd_from i [] = negsuc 23
get_unused_fd_from i (none ∷ t) = pos i
get_unused_fd_from i (some f ∷ t) = get_unused_fd_from (i + 1) t

-- `EMFILE` is 24.
pub get_unused_fd : Table → ℤ
unfolding get_unused_fd_from
get_unused_fd t = get_unused_fd_from 0 t

-- `assert(fd > -1 && fd < NOFILE)`
abbrev pub is_fd : ℤ → Bool
is_fd (pos fd) = ltb fd nofile
is_fd (negsuc n) = false

abbrev pub index : ℤ → ℕ
index (pos fd) = fd
index (negsuc n) = 0

pub fd_install : Table → ℤ → ℕ → Option Table
fd_install t fd f = do guard (is_fd fd); some (set t (index fd) (some f))

unfoldable pub files_init : Table
files_init = replicate nofile none

pub data Whence : Type 0 where
  seek_set seek_cur seek_end : Whence
  seek_other : ℕ → Whence

module _ {S : Type 0} where
  abbrev pub put_file : Files S → ℕ → File → Files S
  put_file k a f = record k { file = update k.file a f }

  abbrev pub set_off : Files S → ℕ → ℕ → Files S
  set_off k a off = put_file k a (record (k.file a) { f_off = off })

  unfoldable pub file_dup : Files S → ℕ → Option (Files S)
  file_dup k a = do
    guard (ltb 0 (k.file a).f_ref)
    some (put_file k a (record (k.file a) { f_ref = (k.file a).f_ref + 1 }))

  -- `copy_files`, whose names for the two tables are exchanged: `t` is what it calls `pa_files`
  -- and is the child's, and what it returns becomes the table of the parent.
  unfoldable pub copy_table : Files S → Table → Option (Table × Files S)
  unfolding file_dup
  copy_table k [] = some ([], k)
  copy_table k (none ∷ t) = do (u, k1) ← copy_table k t; some (none ∷ u, k1)
  copy_table k (some a ∷ t) = do k1 ← file_dup k a; (u, k2) ← copy_table k1 t; some (some a ∷ u, k2)

  -- the tables of the child and of the parent, in this order
  unfoldable pub copy_files : Files S → Table → Table → Option ((Table × Table) × Files S)
  unfolding copy_table
  copy_files k ch pa = do (u, k1) ← copy_table k ch; some ((ch, u), k1)

  -- The reference it takes keeps the file while it is in use.
  pub fget : Files S → Table → ℤ → Option (ℕ × Files S)
  unfolding file_dup
  fget k t fd = do guard (is_fd fd); a ← get_or t (index fd) none; k1 ← file_dup k a; some (a, k1)

module _ {S : Type 0} (i : Inodes S) where
  -- `a` is the address of the `struct file` that `kmem_cache_alloc` returns.
  pub file_open : Files S → ℕ → List ℕ → ℕ → Option ℕ × Files S
  unfolding file_alloc
  file_open k a path flags =
      let (node, fs1) = i.efs_d_namei k.fs path in
      let f = record (file_alloc flags) { f_ref = 1; f_ip = node; f_off = 0 } in
      if is_some node
      then (some a, put_file (record k { fs = fs1 }) a f)
      else (none, record k { fs = fs1 })

  -- A file whose last reference goes gives its inode back; its storage is free then.
  unfoldable pub file_close : Files S → ℕ → Option (Files S)
  file_close k a = do
    let f = k.file a
    guard (ltb 0 f.f_ref)
    let k1 = put_file k a (record f { f_ref = f.f_ref - 1 })
    if not (f.f_ref == 1)
        then some k1
        else do node ← f.f_ip; fs1 ← i.efs_i_put k1.fs node; some (record k1 { fs = fs1 })

  pub fd_close : Files S → Table → ℤ → Option (Table × Files S)
  unfolding file_close
  fd_close k t fd = do
    guard (is_fd fd)
    elim (get_or t (index fd) none) [
      | none ↦ some (t, k)
      | some a ↦ file_close k a >>= λ k1. some (set t (index fd) none, k1)
    ]

  unfoldable pub fd_close_all : Files S → Table → Option (Table × Files S)
  unfolding file_close
  fd_close_all k [] = some ([], k)
  fd_close_all k (none ∷ t) = do (u, k1) ← fd_close_all k t; some (none ∷ u, k1)
  fd_close_all k (some a ∷ t) = do
    k1 ← file_close k a
    (u, k2) ← fd_close_all k1 t
    some (none ∷ u, k2)

  -- `ENOENT` is 2, also when the table is full.
  pub do_open : Files S → Table → ℕ → List ℕ → ℕ → Option (ℤ × (Table × Files S))
  unfolding file_open get_unused_fd fd_install file_close
  do_open k t a path flags =
      let (f, k1) = file_open k a path flags in
      let fd = get_unused_fd t in
      elim f [
        | none ↦ some (negsuc 1, (t, k1))
        | some b ↦
            if not (is_neg fd)
            then (fd_install t fd b >>= λ t1. some (fd, (t1, k1)))
            else (file_close k1 b >>= λ k2. some (negsuc 1, (t, k2)))
      ]

  pub do_close : Files S → Table → ℤ → Option (ℤ × (Table × Files S))
  unfolding fd_close
  do_close k t fd = do guard (is_fd fd); r ← fd_close k t fd; some (pos 0, r)

  pub fput : Files S → ℕ → Option (Files S)
  unfolding file_close
  fput k a = file_close k a

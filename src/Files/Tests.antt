-- ===== src/Files/Tests.antt =====
-- Runs of kernel/file.c over a file system with one file of five bytes.
use risc.Common.{
  ℕ, ◌≤◌, ◌≡◌, refl, ◌⊎◌, false, none, some, List, [], ◌∷◌, arith, ◌==◌, take, drop, replicate,
  update, ℤ, pos, minus_one,
}
use risc.Files.{
  Inodes, Files, File, Table, file_dup, files_init, file_alloc, file_open, fd_install,
  get_unused_fd_from, do_open, get_unused_fd, copy_files, seek_cur,
}
use risc.Files.Io.{file_llseek}
use risc.Files.Refs.{
  System, Reach, start, then_, opens, dups, IsValid, files_run-IsValid, copy_files_loses,
}
use risc.Files.Seek.{file_llseek-inside}

abbrev text : List ℕ
text = 10 ∷ 20 ∷ 30 ∷ 40 ∷ 50 ∷ []

abbrev disk : Inodes (Unit {0})
disk = record {
  efs_d_namei = λ fs path. elim path [ [] ↦ (none, fs) | c ∷ cs ↦ (some 7, fs) ];
  efs_i_put = λ fs node. some fs;
  efs_i_size = λ fs node. 5;
  efs_i_read = λ fs node off len. (some (take len (drop off text)), fs);
  efs_i_write = λ fs node off bytes. (some 0, fs);
}

abbrev closed : File
closed = record { f_ref = 0; f_flags = 0; f_ip = none; f_off = 0 }

abbrev none_open : Files (Unit {0})
none_open = record { file = λ b. closed; fs = tt }

-- The file at the address 100 is open, with its offset at 2.
abbrev opened : File
opened = record { f_ref = 1; f_flags = 3; f_ip = some 7; f_off = 2 }

abbrev one_open : Files (Unit {0})
one_open = record { file = update (λ b. closed) 100 opened; fs = tt }

abbrev descriptors : Table
descriptors = some 100 ∷ []

file_llseek-inside_example :
    (r : ℤ) × (k1 : Files (Unit {0})) × (file_llseek disk one_open 100 9 seek_cur ≡ some (r, k1))
    × ((k1.file 100).f_off ≤ 5)
    × ((b : ℕ) → (b == 100) ≡ false → k1.file b ≡ one_open.file b)
    × ((r ≡ pos 0) ⊎ ((r ≡ minus_one) × (k1 ≡ one_open)))
file_llseek-inside_example = file_llseek-inside disk one_open 100 7 9 seek_cur refl (omega arith)

copy_files_loses_example :
    copy_files one_open files_init descriptors ≡ some ((files_init, files_init), one_open)
copy_files_loses_example = copy_files_loses one_open descriptors

abbrev first : Table
first = some 100 ∷ replicate 15 none

abbrev once : Files (Unit {0})
once = record {
  file = update (λ b. closed) 100 (record { f_ref = 1; f_flags = 1; f_ip = some 7; f_off = 0 });
  fs = tt;
}

-- a process has the file open
abbrev running : System (Unit {0})
running = record { k = once; tables = first ∷ []; users = λ b. 0 }

running-Reach : Reach disk running
unfolding files_init do_open file_open get_unused_fd get_unused_fd_from fd_install file_alloc
running-Reach =
    then_ (start none_open (λ b. refl))
      (opens 0 100 (97 ∷ []) 1 (pos 0) first once (omega arith) refl refl)

-- and a fork copies an area of memory that maps it
abbrev mapped : System (Unit {0})
mapped = record running {
  k = record once {
    file = update once.file 100 (record { f_ref = 2; f_flags = 1; f_ip = some 7; f_off = 0 });
  };
  users = update (λ b. 0) 100 1;
}

mapped-Reach : Reach disk mapped
unfolding file_dup
mapped-Reach = then_ running-Reach (dups 100 mapped.k refl)

files_run-IsValid_example : IsValid mapped
files_run-IsValid_example = files_run-IsValid disk mapped-Reach

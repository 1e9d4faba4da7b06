-- ===== src/Files/Refs.antt =====
-- The open files of kernel/file.c while processes open, close, fork, map, run, exit and use them.
pub mod Close
use mathlib.Core.Path.{subst, ap, sym, ◌∙◌}
use risc.Common.{
  ℕ, zero, suc, ◌+◌, ◌-◌, ◌≤◌, ◌<◌, ◌≡◌, refl, inl, inr, true, Option, none, some, List, [], ◌∷◌,
  arith, get_or, set, length, is_some, Option-cases, update, ℤ, pos,
}
use risc.Files.{
  Inodes, Files, Table, nofile, files_init, file_dup, file_close, copy_table, copy_files, fget,
  fput, fd_close, fd_close_all, file_open, do_open, Whence,
}
use risc.Files.Io.{file_read, file_write, file_llseek}
use risc.Files.Counts.{
  one, slots, HasNodes, Moves, file_dup-refs, file_dup_used, file_close-refs, fd_close-Moves,
  fd_close-empty, fd_close-run, fd_close_all-Moves,
}
use risc.Files.Effects.{
  Keeps, do_open-Moves, file_open-opens, file_read-Keeps, file_write-Keeps, file_llseek-Keeps,
}

-- The tables of the processes, and how many others hold a reference of their own to a file: callers
-- of `fget`, and areas of memory that `do_mmap`, a fork or an `exec` made.
pub record System (S : Type 0) : Type 0 where
  pub k : Files S
  pub tables : List Table
  pub users : ℕ → ℕ

abbrev pub table : {S : Type 0} → System S → ℕ → Table
table s p = get_or s.tables p files_init

-- the descriptors of all processes that refer to the file `b`
abbrev pub total : ℕ → List Table → ℕ
total b [] = 0
total b (t ∷ ts) = slots b t + total b ts

module _ {S : Type 0} (i : Inodes S) where
  abbrev pub with_table : System S → ℕ → Table → Files S → System S
  with_table s p t k = record s { k = k; tables = set s.tables p t }

  pub data Step (s : System S) : System S → Type 0 where
    opens :
        (p a : ℕ) (path : List ℕ) (flags : ℕ) (r : ℤ) (t : Table) (k : Files S)
        → p < length s.tables
        → (s.k.file a).f_ref ≡ 0
        → do_open i s.k (table s p) a path flags ≡ some (r, (t, k))
        → Step s (with_table s p t k)
    closes :
        (p : ℕ) (fd : ℤ) (t : Table) (k : Files S)
        → p < length s.tables
        → fd_close i s.k (table s p) fd ≡ some (t, k)
        → Step s (with_table s p t k)
    exits :
        (p : ℕ) (t : Table) (k : Files S)
        → p < length s.tables
        → fd_close_all i s.k (table s p) ≡ some (t, k)
        → Step s (with_table s p t k)
    forks :
        (p : ℕ) (ch pa : Table) (k : Files S)
        → p < length s.tables
        → copy_files s.k files_init (table s p) ≡ some ((ch, pa), k)
        → Step s (record s { k = k; tables = ch ∷ set s.tables p pa })
    -- `do_mmap` and the calls that use a descriptor
    gets :
        (p : ℕ) (fd : ℤ) (a : ℕ) (k : Files S)
        → fget s.k (table s p) fd ≡ some (a, k)
        → Step s (record s { k = k; users = update s.users a (s.users a + 1) })
    -- `vma_gen_file_dup` for an area that a fork copies
    dups :
        (a : ℕ) (k : Files S)
        → file_dup s.k a ≡ some k
        → Step s (record s { k = k; users = update s.users a (s.users a + 1) })
    -- An `exec` opens the program for the area that maps it, without a descriptor.
    execs :
        (a b : ℕ) (path : List ℕ) (flags : ℕ) (k : Files S)
        → (s.k.file a).f_ref ≡ 0
        → file_open i s.k a path flags ≡ (some b, k)
        → Step s (record s { k = k; users = update s.users b (s.users b + 1) })
    -- the end of such a use, or `vma_gen_file_close` of an area
    puts :
        (a : ℕ) (k : Files S)
        → 0 < s.users a
        → fput i s.k a ≡ some k
        → Step s (record s { k = k; users = update s.users a (s.users a - 1) })
    reads :
        (a len : ℕ) (r : Option (List ℕ)) (k : Files S)
        → file_read i s.k a len ≡ some (r, k)
        → Step s (record s { k = k })
    writes :
        (a : ℕ) (bytes : List ℕ) (r : Option ℕ) (k : Files S)
        → file_write i s.k a bytes ≡ some (r, k)
        → Step s (record s { k = k })
    seeks :
        (a offset : ℕ) (whence : Whence) (r : ℤ) (k : Files S)
        → file_llseek i s.k a offset whence ≡ some (r, k)
        → Step s (record s { k = k })

  pub data Reach : System S → Type 0 where
    start :
        (k : Files S)
        → ((b : ℕ) → (k.file b).f_ref ≡ 0)
        → Reach (record { k = k; tables = files_init ∷ []; users = λ b. 0 })
    then_ : {s s1 : System S} → Reach s → Step s s1 → Reach s1

pub record IsValid {S : Type 0} (s : System S) : Type 0 where
  pub counted : (b : ℕ) → total b s.tables + s.users b ≤ (s.k.file b).f_ref
  pub nodes : HasNodes s.k
  pub size : (p : ℕ) → length (table s p) ≡ nofile

pub total-set :
    (b : ℕ) (ts : List Table) (p : ℕ) (t : Table)
    → p < length ts
    → total b (set ts p t) + slots b (get_or ts p files_init) ≡ total b ts + slots b t
total-set b [] p t h = absurd (omega arith)
total-set b (u ∷ ts) zero t h = omega arith
total-set b (u ∷ ts) (suc p) t h = omega (arith, total-set b ts p t (omega arith))

pub slots-files_init : (b : ℕ) → slots b files_init ≡ 0
unfolding files_init
slots-files_init b = refl

length-files_init : length files_init ≡ nofile
unfolding files_init
length-files_init = refl

size_start : (p : ℕ) → length (get_or (files_init ∷ []) p files_init) ≡ nofile
size_start zero = length-files_init
size_start (suc p) = length-files_init

size-set :
    (ts : List Table) (p q : ℕ) (t : Table)
    → length t ≡ nofile
    → length (get_or ts q files_init) ≡ nofile
    → length (get_or (set ts p t) q files_init) ≡ nofile
size-set [] p q t h v = v
size-set (u ∷ ts) zero zero t h v = h
size-set (u ∷ ts) zero (suc q) t h v = v
size-set (u ∷ ts) (suc p) zero t h v = v
size-set (u ∷ ts) (suc p) (suc q) t h v = size-set ts p q t h v

module _ {S : Type 0} where
  -- After a fork both tables are empty, whatever files the parent `pa` had open, and their counts
  -- are as before.
  pub copy_files_loses :
      (k : Files S) (pa : Table) → copy_files k files_init pa ≡ some ((files_init, files_init), k)
  unfolding copy_files copy_table files_init
  copy_files_loses k pa = refl

  fget-file_dup :
      (k : Files S) (t : Table) (fd : ℤ) (a : ℕ) {k1 : Files S}
      → fget k t fd ≡ some (a, k1)
      → file_dup k a ≡ some k1
  unfolding fget
  fget-file_dup k t fd a {k1} e = ground arith

module _ {S : Type 0} (i : Inodes S) (s : System S) (v : IsValid s) where
  fork-IsValid :
      (p : ℕ)
      → p < length s.tables
      → IsValid (record s { tables = files_init ∷ set s.tables p files_init })
  fork-IsValid p lt = record {
    counted =
        λ b. ground (arith, total-set b s.tables p files_init lt, slots-files_init b, v.counted b);
    nodes = v.nodes;
    size = λ q.
        elim q
          as (λ q. length (get_or (files_init ∷ set s.tables p files_init) q files_init) ≡ nofile) [
            | zero ↦ length-files_init
            | suc q ↦ size-set s.tables p q files_init length-files_init (v.size q)
          ];
  }

  Moves-IsValid :
      (p : ℕ) (t : Table) (k : Files S)
      → p < length s.tables
      → Moves s.k (table s p) k t
      → IsValid (with_table i s p t k)
  Moves-IsValid p t k lt m = record {
    counted = λ b. ground (arith, m.refs b, total-set b s.tables p t lt, v.counted b);
    nodes = m.nodes v.nodes;
    size = λ q. size-set s.tables p q t (omega (arith, m.size, v.size p)) (v.size q);
  }

  Keeps-IsValid : (k : Files S) → Keeps s.k k → IsValid (record s { k = k })
  Keeps-IsValid k m = record {
    counted = λ b. omega (arith, m.refs b, v.counted b);
    nodes = λ b lt. ground (arith, m.refs b, m.nodes b, v.nodes b);
    size = v.size;
  }

  pub Step-IsValid : {s1 : System S} → Step i s s1 → IsValid s1
  unfolding fput
  Step-IsValid (opens p a path flags r t k lt free e) =
      Moves-IsValid p t k lt (do_open-Moves i s.k (table s p) a path flags free e)
  Step-IsValid (closes p fd t k lt e) =
      Moves-IsValid p t k lt (fd_close-Moves i s.k (table s p) fd e)
  Step-IsValid (exits p t k lt e) = Moves-IsValid p t k lt (fd_close_all-Moves i s.k (table s p) e)
  Step-IsValid (forks p ch pa k lt e) =
      let c : (Table × Table) × Files S = ((files_init, files_init), s.k) in
      let q : c ≡ ((ch, pa), k) = ground (arith, e, copy_files_loses s.k (table s p)) in
      subst (λ w. IsValid (record s { k = w.1; tables = w.0.0 ∷ set s.tables p w.0.1 })) q
        (fork-IsValid p lt)
  Step-IsValid (gets p fd a k e) =
      let d = file_dup-refs s.k a (fget-file_dup s.k (table s p) fd a e) in
      record {
        counted = λ b. ground (arith, v.counted b, d b);
        nodes = λ b lt.
            ground
              (arith, v.nodes b, d b, file_dup_used s.k a (fget-file_dup s.k (table s p) fd a e));
        size = v.size;
      }
  Step-IsValid (dups a k e) =
      let d = file_dup-refs s.k a e in
      record {
        counted = λ b. ground (arith, v.counted b, d b);
        nodes = λ b lt. ground (arith, v.nodes b, d b, file_dup_used s.k a e);
        size = v.size;
      }
  Step-IsValid (execs a b path flags k free e) =
      let o = file_open-opens i s.k a path flags e in
      record {
        counted = λ c. ground (arith, v.counted c, o.0, o.1 c);
        nodes = o.2 v.nodes;
        size = v.size;
      }
  Step-IsValid (puts a k lt e) = record {
    counted = λ b. ground (arith, v.counted b, file_close-refs i s.k a e b);
    nodes = λ b lt. ground (arith, v.nodes b, file_close-refs i s.k a e b);
    size = v.size;
  }
  Step-IsValid (reads a len r k e) = Keeps-IsValid k (file_read-Keeps i s.k a len e)
  Step-IsValid (writes a bytes r k e) = Keeps-IsValid k (file_write-Keeps i s.k a bytes e)
  Step-IsValid (seeks a offset whence r k e) =
      Keeps-IsValid k (file_llseek-Keeps i s.k a offset whence e)

-- In every run from a start without open files in which each area of memory that maps a file took a
-- reference of its own (by `do_mmap`, by a fork, or by an `exec` with one such area), a file in use
-- is never freed: for each file, `f_ref` is at least the number of descriptors, callers of `fget`
-- and areas that refer to it, a file whose `f_ref` is not 0 has an inode, and each table has 16
-- descriptors. An `exec` that maps several segments on one reference is not a step.
pub files_run-IsValid : {S : Type 0} (i : Inodes S) {s : System S} → Reach i s → IsValid s
unfolding files_init
files_run-IsValid i (start k zeros) = record {
  counted = λ b. omega arith;
  nodes = λ b lt. absurd (omega (arith, zeros b));
  size = size_start;
}
files_run-IsValid i (then_ {s} r st) = Step-IsValid i s (files_run-IsValid i r) st

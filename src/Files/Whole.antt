-- ===== src/Files/Whole.antt =====
-- `do_read` of kernel/file.c as a whole: descriptor, reference, loop, and reference again.
use mathlib.Core.Path.{subst, ap, sym}
use risc.Common.{
  ℕ, zero, suc, ◌+◌, ◌-◌, ◌<◌, ◌≡◌, refl, true, none, some, List, [], arith, get_or, length, take,
  take_zero, pos,
}
use risc.Files.{
  Inodes, Files, Table, nofile, put_file, is_readable, file_dup, file_close, fget, fput,
}
use risc.Files.Io.{read_loop, do_read}
use risc.Files.Read.{Contents, ahead, Reads, CanRead, read_loop-FullRead}

module _ {S : Type 0} where
  abbrev with_ref : Files S → ℕ → ℕ → Files S
  with_ref k a n = put_file k a (record (k.file a) { f_ref = n })

  fget-with_ref :
      (k : Files S) (t : Table) (fd a : ℕ)
      → fd < nofile
      → get_or t fd none ≡ some a
      → 0 < (k.file a).f_ref
      → fget k t (pos fd) ≡ some (a, with_ref k a ((k.file a).f_ref + 1))
  unfolding fget file_dup
  fget-with_ref k t fd a lt e used = ground arith

module _ {S : Type 0} (i : Inodes S) where
  fput-with_ref :
      (k : Files S) (a : ℕ)
      → 1 < (k.file a).f_ref
      → fput i k a ≡ some (with_ref k a ((k.file a).f_ref - 1))
  unfolding fput file_close
  fput-with_ref k a more = ground arith

module _ {S : Type 0} (i : Inodes S) (c : Contents i) where
  CanRead-with_ref :
      (k : Files S) (a node n : ℕ) → CanRead i c k a node → CanRead i c (with_ref k a n) a node
  unfolding is_readable
  CanRead-with_ref k a node n v = record {
    readable = ground (arith, v.readable);
    ip = ground (arith, v.ip);
    inside = ground (arith, v.inside);
    good = v.good;
  }

  Reads-with_ref :
      (k k1 : Files S) (a node : ℕ) (bytes : List ℕ)
      → Reads i c (with_ref k a ((k.file a).f_ref + 1)) a node bytes k1
      → Reads i c k a node bytes (with_ref k1 a ((k1.file a).f_ref - 1))
  Reads-with_ref k k1 a node bytes r = record {
    off = ground (arith, r.off);
    node_same = ground (arith, r.node_same);
    flags_same = ground (arith, r.flags_same);
    ref_same = ground (arith, r.ref_same);
    others = λ b ne. ground (arith, r.others b ne);
    contents = r.contents;
    good = r.good;
  }

  ahead-with_ref :
      (k : Files S) (a node n : ℕ) → ahead i c (with_ref k a n) a node ≡ ahead i c k a node
  ahead-with_ref k a node n = ground arith

  do_read-run :
      (k : Files S) (t : Table) (fd a n : ℕ) {bytes : List ℕ} {k0 k2 k3 : Files S}
      → fget k t (pos fd) ≡ some (a, k0)
      → read_loop i (suc (suc n)) k0 a [] (suc n) ≡ some (some bytes, k2)
      → fput i k2 a ≡ some k3
      → do_read i k t true (pos fd) (suc n) ≡ some ((pos (length bytes), bytes), k3)
  unfolding do_read
  do_read-run k t fd a n e f g = rw (e, f, g)

  -- At an open descriptor whose file is in order, may be read and has its offset inside it, `do_read` with a
  -- page for its buffer returns for every `count` the first `count` bytes from the offset on, and
  -- their number: all that there are, when the file ends before. The offset moves by that
  -- number, and the references, the other open files and the contents of this one are as before.
  pub do_read_whole :
      (k : Files S) (t : Table) (fd a node count : ℕ)
      → fd < nofile
      → get_or t fd none ≡ some a
      → 0 < (k.file a).f_ref
      → CanRead i c k a node
      → let bytes = take count (ahead i c k a node) in
        (k1 : Files S) × (do_read i k t true (pos fd) count
          ≡ some ((pos (length bytes), bytes), k1))
        × Reads i c k a node bytes k1
  unfolding do_read
  do_read_whole k t fd a node zero lt e used v =
      let z = sym (take_zero (ahead i c k a node)) in
      (
        k,
        ap (λ ys. some ((pos (length ys), ys), k)) z,
        subst (λ ys. Reads i c k a node ys k) z
            (record {
              off = omega arith;
              node_same = v.ip;
              flags_same = refl;
              ref_same = refl;
              others = λ b ne. refl;
              contents = refl;
              good = v.good;
            }),
      )
  do_read_whole k t fd a node (suc n) lt e used v =
      let k0 = with_ref k a ((k.file a).f_ref + 1) in
      let l =
        read_loop-FullRead i c (suc (suc n)) k0 a node [] (suc n) (CanRead-with_ref k a node _ v)
          (omega arith) in
      let d = ahead-with_ref k a node ((k.file a).f_ref + 1) in
      let more : 1 < (l.last.file a).f_ref = ground (arith, l.reads.ref_same) in
      let k3 = with_ref l.last a ((l.last.file a).f_ref - 1) in
      subst
        (λ ys.
          (k1 : Files S) × (do_read i k t true (pos fd) (suc n)
            ≡ some ((pos (length (take (suc n) ys)), take (suc n) ys), k1))
          × Reads i c k a node (take (suc n) ys) k1)
        d
        (
          k3,
          do_read-run k t fd a n (fget-with_ref k t fd a lt e used) l.run
              (fput-with_ref i l.last a more),
          Reads-with_ref k l.last a node _ l.reads,
        )

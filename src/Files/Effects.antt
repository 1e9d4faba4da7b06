-- ===== src/Files/Effects.antt =====
-- How opening, reading, writing and seeking in kernel/file.c change the counts of references.
use mathlib.Core.Path.{subst}
use risc.Common.{
  ℕ, zero, suc, ◌+◌, ◌-◌, ◌≡◌, refl, inl, inr, false, Option, none, some, List, [], ◌∷◌, ◌++◌,
  arith, ltb, ◌==◌, if◌then◌else◌, set, length, length-set, take, drop, is_neg, Option-cases,
  Bool-cases, ℤ, pos, negsuc,
}
use risc.Files.{
  Inodes, Files, Table, page_size, file_open, file_alloc, file_close, fd_install, get_unused_fd,
  do_open, Whence, put_file,
}
use risc.Files.Io.{file_read, file_write, read_loop, write_loop, file_llseek}
use risc.Files.Counts.{
  slots-set, HasNodes, Lowest, get_unused_fd_from-Lowest, Moves, file_close-refs,
}

-- The descriptor that `get_unused_fd` finds is free, and all below it are in use.
pub get_unused_fd-Lowest : (t : Table) (fd : ℕ) → get_unused_fd t ≡ pos fd → Lowest t fd
unfolding get_unused_fd
get_unused_fd-Lowest t fd h =
    let (r, e, l) = get_unused_fd_from-Lowest 0 t fd h in
    let q : r ≡ fd = ground arith in subst (λ n. Lowest t n) q l

not_negative : (z : ℤ) → is_neg z ≡ false → (n : ℕ) × (z ≡ pos n)
not_negative (pos n) h = (n, refl)
not_negative (negsuc n) h = absurd (ground arith)

module _ {S : Type 0} where
  -- the same files with the same counts
  pub record Keeps (k k1 : Files S) : Type 0 where
    pub refs : (b : ℕ) → (k1.file b).f_ref ≡ (k.file b).f_ref
    pub nodes : (b : ℕ) → (k1.file b).f_ip ≡ (k.file b).f_ip

  Keeps-trans : (k k1 k2 : Files S) → Keeps k k1 → Keeps k1 k2 → Keeps k k2
  Keeps-trans k k1 k2 a b = record {
    refs = λ c. omega (arith, a.refs c, b.refs c);
    nodes = λ c. ground (arith, a.nodes c, b.nodes c);
  }

module _ {S : Type 0} (i : Inodes S) where
  pub file_read-Keeps :
      (k : Files S) (a len : ℕ) {out : Option (List ℕ) × Files S}
      → file_read i k a len ≡ some out
      → Keeps k out.1
  unfolding file_read
  file_read-Keeps k a len {out} h = record { refs = λ b. ground arith; nodes = λ b. ground arith }

  pub file_write-Keeps :
      (k : Files S) (a : ℕ) (bytes : List ℕ) {out : Option ℕ × Files S}
      → file_write i k a bytes ≡ some out
      → Keeps k out.1
  unfolding file_write
  file_write-Keeps k a bytes {out} h = record {
    refs = λ b. ground arith;
    nodes = λ b. ground arith;
  }

  pub file_llseek-Keeps :
      (k : Files S) (a offset : ℕ) (whence : Whence) {out : ℤ × Files S}
      → file_llseek i k a offset whence ≡ some out
      → Keeps k out.1
  unfolding file_llseek
  file_llseek-Keeps k a offset whence {out} h = record {
    refs = λ b. ground arith;
    nodes = λ b. ground arith;
  }

  -- the state once `file_open` has found the inode `node`
  opened : Files S → ℕ → List ℕ → ℕ → ℕ → Files S
  opened k a path flags node =
      put_file (record k { fs = (i.efs_d_namei k.fs path).1 }) a
        (record { f_ref = 1; f_flags = flags; f_ip = some node; f_off = 0 })

  file_open-opened :
      (k : Files S) (a : ℕ) (path : List ℕ) (flags node : ℕ)
      → (i.efs_d_namei k.fs path).0 ≡ some node
      → file_open i k a path flags ≡ (some a, opened k a path flags node)
  unfolding file_open opened file_alloc
  file_open-opened k a path flags node e = ground arith

  -- A file that is opened is at the storage it was given, with one reference.
  pub file_open-opens :
      (k : Files S) (a : ℕ) (path : List ℕ) (flags : ℕ) {b : ℕ} {k1 : Files S}
      → file_open i k a path flags ≡ (some b, k1)
      → (b ≡ a)
        × ((c : ℕ) → (k1.file c).f_ref ≡ (if c == a then 1 else (k.file c).f_ref))
        × (HasNodes k → HasNodes k1)
  unfolding file_open file_alloc
  file_open-opens k a path flags {b} {k1} h =
      (ground arith, λ c. ground arith, λ v c lt. ground (arith, v c))

  opened_full :
      (k : Files S) (t : Table) (a : ℕ) (path : List ℕ) (flags node : ℕ) {k2 : Files S}
      → (k.file a).f_ref ≡ 0
      → file_close i (opened k a path flags node) a ≡ some k2
      → Moves k t k2 t
  unfolding opened
  opened_full k t a path flags node {k2} free h = record {
    refs = λ b. ground (arith, file_close-refs i _ a h b);
    nodes = λ v b lt. ground (arith, file_close-refs i _ a h b, v b);
    size = refl;
  }

  opened_at :
      (k : Files S) (t : Table) (a : ℕ) (path : List ℕ) (flags node fd : ℕ)
      → (k.file a).f_ref ≡ 0
      → Lowest t fd
      → Moves k t (opened k a path flags node) (set t fd (some a))
  unfolding opened
  opened_at k t a path flags node fd free l = record {
    refs = λ b. ground (arith, slots-set b t fd (some a) l.inside, l.free);
    nodes = λ v b lt. ground (arith, v b);
    size = length-set t fd (some a);
  }

  pub do_open-Moves :
      (k : Files S) (t : Table) (a : ℕ) (path : List ℕ) (flags : ℕ) {out : ℤ × (Table × Files S)}
      → (k.file a).f_ref ≡ 0
      → do_open i k t a path flags ≡ some out
      → Moves k t out.1.1 out.1.0
  unfolding do_open fd_install
  do_open-Moves k t a path flags {out} free h = elim (Option-cases (i.efs_d_namei k.fs path).0) [
    | inl e ↦
        let q : (negsuc 1, (t, record k { fs = (i.efs_d_namei k.fs path).1 })) ≡ out =
          ground arith in
        subst (λ p. Moves k t p.1.1 p.1.0) q
          (record { refs = λ b. refl; nodes = λ v. v; size = refl })
    | inr (node, e) ↦
        let o = file_open-opened k a path flags node e in
        let k1 = opened k a path flags node in
        elim (Bool-cases (is_neg (get_unused_fd t))) [
          | inl n ↦ elim (Option-cases (file_close i k1 a)) [
            | inl c ↦ absurd (ground (arith, o))
            | inr (k2, c) ↦
                let q : (negsuc 1, (t, k2)) ≡ out = ground (arith, o) in
                subst (λ p. Moves k t p.1.1 p.1.0) q (opened_full k t a path flags node free c)
          ]
          | inr n ↦
              let (fd, z) = not_negative (get_unused_fd t) n in
              let q : (pos fd, (set t fd (some a), k1)) ≡ out = ground (arith, o, z) in
              subst (λ p. Moves k t p.1.1 p.1.0) q
                (opened_at k t a path flags node fd free (get_unused_fd-Lowest t fd z))
        ]
  ]

  pub read_loop-Keeps :
      (fuel : ℕ) (k : Files S) (a : ℕ) (total : List ℕ) (count : ℕ)
      {out : Option (List ℕ) × Files S}
      → read_loop i fuel k a total count ≡ some out
      → Keeps k out.1
  unfolding read_loop
  read_loop-Keeps zero k a total count {out} h = absurd (cc)
  read_loop-Keeps (suc fuel) k a total zero {out} h = record {
    refs = λ b. ground arith;
    nodes = λ b. ground arith;
  }
  read_loop-Keeps (suc fuel) k a total (suc c) {out} h =
      let len = if ltb (suc c) page_size then suc c else page_size in
      elim (Option-cases (file_read i k a len)) [
        | inl e ↦ absurd (ground arith)
        | inr ((none, k1), e) ↦
            let q : (none, k1) ≡ out = ground arith in
            subst (λ p. Keeps k p.1) q (file_read-Keeps k a len e)
        | inr ((some [], k1), e) ↦
            let q : (some total, k1) ≡ out = ground arith in
            subst (λ p. Keeps k p.1) q (file_read-Keeps k a len e)
        | inr ((some (x ∷ xs), k1), e) ↦ Keeps-trans k k1 out.1 (file_read-Keeps k a len e) (
            read_loop-Keeps fuel k1 a (total ++ (x ∷ xs)) (c - length xs) {out = out}
              (ground (arith, h, e)))
      ]

  pub write_loop-Keeps :
      (fuel : ℕ) (k : Files S) (a total : ℕ) (buff : List ℕ) {out : Option ℕ × Files S}
      → write_loop i fuel k a total buff ≡ some out
      → Keeps k out.1
  unfolding write_loop
  write_loop-Keeps zero k a total buff {out} h = absurd (cc)
  write_loop-Keeps (suc fuel) k a total [] {out} h = record {
    refs = λ b. ground arith;
    nodes = λ b. ground arith;
  }
  write_loop-Keeps (suc fuel) k a total (x ∷ buff) {out} h =
      let bytes = take page_size (x ∷ buff) in
      elim (Option-cases (file_write i k a bytes)) [
        | inl e ↦ absurd (ground arith)
        | inr ((none, k1), e) ↦
            let q : (none, k1) ≡ out = ground arith in
            subst (λ p. Keeps k p.1) q (file_write-Keeps k a bytes e)
        | inr ((some zero, k1), e) ↦
            let q : (some total, k1) ≡ out = ground arith in
            subst (λ p. Keeps k p.1) q (file_write-Keeps k a bytes e)
        | inr ((some (suc w), k1), e) ↦ Keeps-trans k k1 out.1 (file_write-Keeps k a bytes e) (
            write_loop-Keeps fuel k1 a (total + suc w) (drop w buff) {out = out}
              (ground (arith, h, e)))
      ]

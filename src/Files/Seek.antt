-- ===== src/Files/Seek.antt =====
-- The offset of an open file: `file_llseek` and `file_read_no_off` of kernel/file.c.
use mathlib.Core.Path.{ap, sym, ◌∙◌}
use risc.Common.{
  ℕ, ◌+◌, ◌-◌, ◌≤◌, ◌<◌, ◌^◌, ◌≡◌, refl, ◌⊎◌, inl, inr, true, false, none, some, List, [], arith,
  ltb, ◌==◌, if◌then◌else◌, length, take, drop, Option-cases, Bool-cases, ℤ, pos, minus_one,
}
use risc.Files.{
  Inodes, Files, Whence, seek_set, seek_cur, seek_end, seek_other, set_off, is_readable,
}
use risc.Files.Io.{seek_target, file_llseek, file_read_no_off}
use risc.Files.Read.{Contents, Reads, CanRead, ahead}

module _ {S : Type 0} (i : Inodes S) where
  seek_target-inside :
      (size off offset : ℕ) (whence : Whence) {n : ℕ}
      → seek_target i size off offset whence ≡ some n
      → n ≤ size
  unfolding seek_target
  seek_target-inside size off offset seek_set {n} h = ground arith
  seek_target-inside size off offset seek_cur {n} h = ground arith
  seek_target-inside size off offset seek_end {n} h = ground arith
  seek_target-inside size off offset (seek_other m) {n} h = absurd (cc)

  -- the offset that `whence` counts from
  abbrev pub base : Whence → ℕ → ℕ → ℕ
  base seek_set size off = 0
  base seek_cur size off = off
  base seek_end size off = size
  base (seek_other n) size off = 0

  seek_back :
      (size off n : ℕ) (whence : Whence)
      → size < 2 ^ 32
      → off ≤ size
      → 0 < n
      → n ≤ base whence size off
      → seek_target i size off (2 ^ 32 - n) whence ≡ some (base whence size off - n)
  unfolding seek_target
  seek_back size off n seek_set short inside lt le = absurd (omega arith)
  seek_back size off n seek_cur short inside lt le = ground arith
  seek_back size off n seek_end short inside lt le = ground arith
  seek_back size off n (seek_other m) short inside lt le = absurd (omega arith)

  pub file_llseek-some :
      (k : Files S) (a node offset : ℕ) (whence : Whence) (off : ℕ)
      → (k.file a).f_ip ≡ some node
      → seek_target i (i.efs_i_size k.fs node) (k.file a).f_off offset whence ≡ some off
      → file_llseek i k a offset whence ≡ some (pos 0, set_off k a off)
  unfolding file_llseek
  file_llseek-some k a node offset whence off ip h = ground arith

  file_llseek-none :
      (k : Files S) (a node offset : ℕ) (whence : Whence)
      → (k.file a).f_ip ≡ some node
      → seek_target i (i.efs_i_size k.fs node) (k.file a).f_off offset whence ≡ none
      → file_llseek i k a offset whence ≡ some (minus_one, k)
  unfolding file_llseek
  file_llseek-none k a node offset whence ip h = ground arith

  -- Whatever `offset` and `whence` are, an offset inside the file stays inside: `file_llseek` returns
  -- 0 with an offset of at most the size, the other files as before, or -1 with nothing changed.
  pub file_llseek-inside :
      (k : Files S) (a node offset : ℕ) (whence : Whence)
      → (k.file a).f_ip ≡ some node
      → (k.file a).f_off ≤ i.efs_i_size k.fs node
      → (r : ℤ) × (k1 : Files S) × (file_llseek i k a offset whence ≡ some (r, k1))
        × ((k1.file a).f_off ≤ i.efs_i_size k.fs node)
        × ((b : ℕ) → (b == a) ≡ false → k1.file b ≡ k.file b)
        × ((r ≡ pos 0) ⊎ ((r ≡ minus_one) × (k1 ≡ k)))
  file_llseek-inside k a node offset whence ip h =
      elim (Option-cases (seek_target i (i.efs_i_size k.fs node) (k.file a).f_off offset whence)) [
        | inl n ↦ (
          minus_one,
          k,
          file_llseek-none k a node offset whence ip n,
          h,
          λ b ne. refl,
          inr (refl, refl),
        )
        | inr (off, e) ↦
            let le = seek_target-inside (i.efs_i_size k.fs node) (k.file a).f_off offset whence e in
            (
              pos 0,
              set_off k a off,
              file_llseek-some k a node offset whence off ip e,
              ground arith,
              λ b ne. ground arith,
              inl refl,
            )
      ]

  -- A step back is an unsigned offset that wraps: from the current offset or from the end of a file
  -- shorter than 4 GiB, `2 ^ 32 - n` moves to `n` bytes before, if so many are there.
  pub file_llseek_back :
      (k : Files S) (a node n : ℕ) (whence : Whence)
      → (k.file a).f_ip ≡ some node
      → i.efs_i_size k.fs node < 2 ^ 32
      → (k.file a).f_off ≤ i.efs_i_size k.fs node
      → 0 < n
      → n ≤ base whence (i.efs_i_size k.fs node) (k.file a).f_off
      → file_llseek i k a (2 ^ 32 - n) whence
        ≡ some (pos 0, set_off k a (base whence (i.efs_i_size k.fs node) (k.file a).f_off - n))
  file_llseek_back k a node n whence ip short inside lt le =
      file_llseek-some k a node (2 ^ 32 - n) whence _ ip
        (seek_back (i.efs_i_size k.fs node) (k.file a).f_off n whence short inside lt le)

module _ {S : Type 0} (i : Inodes S) (c : Contents i) where
  read_no_off-run :
      (k : Files S) (a node off len tmp : ℕ) {bytes : List ℕ} {fs1 : S} {k1 k2 : Files S} {r r2 : ℤ}
      → is_readable (k.file a) ≡ true
      → (k.file a).f_ip ≡ some node
      → (k.file a).f_off ≡ tmp
      → file_llseek i k a off seek_set ≡ some (r, k1)
      → i.efs_i_read k1.fs node (k1.file a).f_off len ≡ (some bytes, fs1)
      → file_llseek i (record k1 { fs = fs1 }) a tmp seek_set ≡ some (r2, k2)
      → file_read_no_off i k a off len ≡ some (some bytes, k2)
  unfolding file_read_no_off
  read_no_off-run k a node off len tmp {bytes} {fs1} {k1} {k2} {r} {r2} h ip t e f g = ground arith

  -- where the first seek of `file_read_no_off` leads
  record Sought (k : Files S) (a node o : ℕ) (k1 : Files S) : Type 0 where
    off : (k1.file a).f_off ≡ o
    ip : (k1.file a).f_ip ≡ some node
    flags_same : (k1.file a).f_flags ≡ (k.file a).f_flags
    ref_same : (k1.file a).f_ref ≡ (k.file a).f_ref
    others : (b : ℕ) → (b == a) ≡ false → k1.file b ≡ k.file b
    fs_same : k1.fs ≡ k.fs

  set-some :
      (size off offset : ℕ)
      → ltb size offset ≡ false
      → seek_target i size off offset seek_set ≡ some offset
  unfolding seek_target
  set-some size off offset h = rw h

  set-none :
      (size off offset : ℕ) → ltb size offset ≡ true → seek_target i size off offset seek_set ≡ none
  unfolding seek_target
  set-none size off offset h = rw h

  from :
      (k k1 : Files S) (a node len off o : ℕ) {r : ℤ}
      → CanRead i c k a node
      → o + len < 2 ^ 32
      → Sought k a node o k1
      → file_llseek i k a off seek_set ≡ some (r, k1)
      → (k2 : Files S) × (file_read_no_off i k a off len
          ≡ some (some (take len (drop o (c.content k.fs node))), k2))
        × Reads i c k a node [] k2
  from k k1 a node len off o {r} v fits s e =
      let tmp = (k.file a).f_off in
      let good : c.IsGood k1.fs node = rw s.fs_same v.good in
      let small : (k1.file a).f_off + len < 2 ^ 32 = rw s.off fits in
      let (kept, good1) = c.kept k1.fs node (k1.file a).f_off len good small in
      let same : c.content (i.efs_i_read k1.fs node (k1.file a).f_off len).1 node
          ≡ c.content k.fs node =
        kept ∙ ap (λ f. c.content f node) s.fs_same in
      let fs1 = (i.efs_i_read k1.fs node (k1.file a).f_off len).1 in
      let got : i.efs_i_read k1.fs node (k1.file a).f_off len
          ≡ (some (take len (drop o (c.content k.fs node))), fs1) =
        ground (arith, c.read k1.fs node (k1.file a).f_off len good small, s.off, s.fs_same) in
      let back =
        file_llseek-some i (record k1 { fs = fs1 }) a node tmp seek_set tmp s.ip
          (set-some _ (k1.file a).f_off tmp
            (ground (arith, c.size fs1 node good1, same, v.inside))) in
      (
        set_off (record k1 { fs = fs1 }) a tmp,
        read_no_off-run k a node off len tmp v.readable v.ip refl e got back,
        record {
          off = ground arith;
          node_same = ground (arith, s.ip);
          flags_same = ground (arith, s.flags_same);
          ref_same = ground (arith, s.ref_same);
          others = λ b ne. ground (arith, s.others b ne);
          contents = same;
          good = good1;
        },
      )

  -- For a file in order that may be read and has its offset inside it, `file_read_no_off` gives the
  -- `len` bytes from `off` on if `off` is inside the file. If not, it does not see that the seek failed,
  -- and gives the bytes from the file's own offset on. The end of the bytes must not wrap. In both
  -- cases the offset is where it was, with the contents of the file and the other open files.
  pub file_read_no_off-Reads :
      (k : Files S) (a node off len : ℕ)
      → CanRead i c k a node
      → (if ltb (length (c.content k.fs node)) off then (k.file a).f_off else off) + len < 2 ^ 32
      → (k1 : Files S) × (file_read_no_off i k a off len
          ≡ some (
            some (
                take len (
                  if ltb (length (c.content k.fs node)) off
                  then ahead i c k a node
                  else drop off (c.content k.fs node))),
            k1,
          ))
        × Reads i c k a node [] k1
  file_read_no_off-Reads k a node off len v fits =
      elim (Bool-cases (ltb (length (c.content k.fs node)) off)) [
        | inl g ↦
            let e = file_llseek-none i k a node off seek_set v.ip (
              set-none (i.efs_i_size k.fs node) (k.file a).f_off off
                (ground (arith, c.size k.fs node v.good))) in
            let (k2, run, r) =
              from k k a node len off (k.file a).f_off v (ground (arith, g, fits))
                (record {
                  off = refl;
                  ip = v.ip;
                  flags_same = refl;
                  ref_same = refl;
                  others = λ b ne. refl;
                  fs_same = refl;
                })
                e in
            (
              k2,
              run
                  ∙ ap
                      (λ x. some (
                        some (
                            take len
                              (if x then ahead i c k a node else drop off (c.content k.fs node))),
                        k2,
                      ))
                      (sym g),
              r,
            )
        | inr g ↦
            let e = file_llseek-some i k a node off seek_set off v.ip (
              set-some (i.efs_i_size k.fs node) (k.file a).f_off off
                (ground (arith, c.size k.fs node v.good))) in
            let (k2, run, r) =
              from k (set_off k a off) a node len off off v (ground (arith, g, fits))
                (record {
                  off = ground arith;
                  ip = ground (arith, v.ip);
                  flags_same = ground arith;
                  ref_same = ground arith;
                  others = λ b ne. ground arith;
                  fs_same = refl;
                })
                e in
            (
              k2,
              run
                  ∙ ap
                      (λ x. some (
                        some (
                            take len
                              (if x then ahead i c k a node else drop off (c.content k.fs node))),
                        k2,
                      ))
                      (sym g),
              r,
            )
      ]

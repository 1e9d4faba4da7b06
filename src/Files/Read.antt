-- ===== src/Files/Read.antt =====
-- `do_read` of kernel/file.c reads in chunks of a page what one read of the file would give.
use mathlib.Core.Path.{subst, ap, sym, ◌∙◌}
use mathlib.Core.List.{append_assoc, append-nil}
use risc.Common.{
  ℕ, zero, suc, ◌+◌, ◌-◌, ◌≤◌, ◌<◌, ◌^◌, ◌≡◌, refl, inl, inr, true, false, some, List, [], ◌∷◌,
  ◌++◌, arith, ltb, ◌==◌, if◌then◌else◌, length, take, drop, length-take, length-drop,
  length-append, take_zero, take_nil, List-cases, take-take-drop, drop-drop,
}
use risc.Files.{Inodes, Files, uint32, page_size, set_off, is_readable}
use risc.Files.Io.{file_read, read_loop}

-- What the file system promises of a file in order, where `IsGood` tells what that is: a read whose end
-- does not wrap gives what the file has in the range, and keeps its contents and the order. A file is
-- so short that a read of a page from its end does not wrap.
pub record Contents {S : Type 0} (i : Inodes S) : Type 1 where
  pub IsGood : S → ℕ → Type 0
  pub content : S → ℕ → List ℕ
  pub size : (fs : S) (node : ℕ) → IsGood fs node → i.efs_i_size fs node ≡ length (content fs node)
  pub short : (fs : S) (node : ℕ) → IsGood fs node → length (content fs node) + page_size < 2 ^ 32
  pub read :
      (fs : S) (node off len : ℕ)
      → IsGood fs node
      → off + len < 2 ^ 32
      → (i.efs_i_read fs node off len).0 ≡ some (take len (drop off (content fs node)))
  pub kept :
      (fs : S) (node off len : ℕ)
      → IsGood fs node
      → off + len < 2 ^ 32
      → (content (i.efs_i_read fs node off len).1 node ≡ content fs node)
        × IsGood (i.efs_i_read fs node off len).1 node

module _ {S : Type 0} (i : Inodes S) (c : Contents i) where
  -- the bytes of the open file `a` from its offset on
  abbrev pub ahead : Files S → ℕ → ℕ → List ℕ
  ahead k a node = drop (k.file a).f_off (c.content k.fs node)

  -- `bytes` were read from `a`: its offset has moved, its file is as it was and in order, and the other
  -- open files are the same.
  pub record Reads (k : Files S) (a node : ℕ) (bytes : List ℕ) (k1 : Files S) : Type 0 where
    pub off : (k1.file a).f_off ≡ (k.file a).f_off + length bytes
    pub node_same : (k1.file a).f_ip ≡ some node
    pub flags_same : (k1.file a).f_flags ≡ (k.file a).f_flags
    pub ref_same : (k1.file a).f_ref ≡ (k.file a).f_ref
    pub others : (b : ℕ) → (b == a) ≡ false → k1.file b ≡ k.file b
    pub contents : c.content k1.fs node ≡ c.content k.fs node
    pub good : c.IsGood k1.fs node

  module _ (k : Files S) (a node : ℕ) (readable : is_readable (k.file a) ≡ true)
      (ip : (k.file a).f_ip ≡ some node) (inside : (k.file a).f_off ≤ length (c.content k.fs node))
      (good : c.IsGood k.fs node) where
    abbrev pub after : ℕ → Files S
    after len =
        set_off (record k { fs = (i.efs_i_read k.fs node (k.file a).f_off len).1 }) a
          (uint32 ((k.file a).f_off + length (take len (ahead k a node))))

    no_wrap : (len : ℕ) → len ≤ page_size → (k.file a).f_off + len < 2 ^ 32
    no_wrap len le = omega (arith, inside, le, c.short k.fs node good)

    pub file_read-after :
        (len : ℕ)
        → len ≤ page_size
        → file_read i k a len ≡ some (some (take len (ahead k a node)), after len)
    unfolding file_read
    file_read-after len le =
        rw (readable, ip, c.read k.fs node (k.file a).f_off len good (no_wrap len le))

    after-Reads :
        (len : ℕ) → len ≤ page_size → Reads k a node (take len (ahead k a node)) (after len)
    after-Reads len le = record {
      off = ground (
        arith,
        c.short k.fs node good,
        length-take len (ahead k a node),
        length-drop (k.file a).f_off (c.content k.fs node),
        inside,
      );
      node_same = ground arith;
      flags_same = ground arith;
      ref_same = ground arith;
      others = λ b ne. ground arith;
      contents = (c.kept k.fs node (k.file a).f_off len good (no_wrap len le)).0;
      good = (c.kept k.fs node (k.file a).f_off len good (no_wrap len le)).1;
    }

  -- the first round of the loop, at the end of the file and before it
  loop_end :
      (fuel : ℕ) (k : Files S) (a : ℕ) (total : List ℕ) (n : ℕ) {k1 : Files S}
      → file_read i k a (if ltb (suc n) page_size then suc n else page_size) ≡ some (some [], k1)
      → read_loop i (suc fuel) k a total (suc n) ≡ some (some total, k1)
  unfolding read_loop
  loop_end fuel k a total n h = rw h

  loop_round :
      (fuel : ℕ) (k : Files S) (a : ℕ) (total : List ℕ) (n x : ℕ) (xs : List ℕ) {k1 : Files S}
      → file_read i k a (if ltb (suc n) page_size then suc n else page_size)
        ≡ some (some (x ∷ xs), k1)
      → read_loop i (suc fuel) k a total (suc n)
        ≡ read_loop i fuel k1 a (total ++ (x ∷ xs)) (n - length xs)
  unfolding read_loop
  loop_round fuel k a total n x xs h = rw h

  Reads-trans :
      (k k1 k2 : Files S) (a node : ℕ) (xs ys : List ℕ)
      → Reads k a node xs k1
      → Reads k1 a node ys k2
      → Reads k a node (xs ++ ys) k2
  Reads-trans k k1 k2 a node xs ys r s = record {
    off = omega (arith, r.off, s.off, length-append xs ys);
    node_same = s.node_same;
    flags_same = ground (arith, r.flags_same, s.flags_same);
    ref_same = ground (arith, r.ref_same, s.ref_same);
    others = λ b ne. ground (arith, r.others b ne, s.others b ne);
    contents = s.contents ∙ r.contents;
    good = s.good;
  }

  -- a state in which the file `a` can be read from its offset
  pub record CanRead (k : Files S) (a node : ℕ) : Type 0 where
    pub readable : is_readable (k.file a) ≡ true
    pub ip : (k.file a).f_ip ≡ some node
    pub inside : (k.file a).f_off ≤ length (c.content k.fs node)
    pub good : c.IsGood k.fs node

  Reads-CanRead :
      (k k1 : Files S) (a node len : ℕ)
      → CanRead k a node
      → Reads k a node (take len (ahead k a node)) k1
      → CanRead k1 a node
  unfolding is_readable
  Reads-CanRead k k1 a node len v r = record {
    readable = ground (arith, v.readable, r.flags_same);
    ip = r.node_same;
    inside = ground (
      arith,
      v.inside,
      r.off,
      r.contents,
      length-take len (ahead k a node),
      length-drop (k.file a).f_off (c.content k.fs node),
    );
    good = r.good;
  }

  -- a chunk and what is read after it
  chunk_joins :
      (k k1 : Files S) (a node len n x : ℕ) (xs : List ℕ)
      → len ≤ suc n
      → take len (ahead k a node) ≡ x ∷ xs
      → Reads k a node (take len (ahead k a node)) k1
      → (x ∷ xs) ++ take (n - length xs) (ahead k1 a node) ≡ take (suc n) (ahead k a node)
  chunk_joins k k1 a node len n x xs le z e =
      let chunk = take len (ahead k a node) in
      let g : ahead k1 a node ≡ drop (length chunk) (ahead k a node) =
        ap (λ m. drop m (c.content k1.fs node)) e.off
        ∙ ap (λ l. drop ((k.file a).f_off + length chunk) l) e.contents
        ∙ sym (drop-drop (k.file a).f_off (length chunk) (c.content k.fs node)) in
      let size : length chunk ≡ suc (length xs) = ap length z in
      let count : n - length xs ≡ suc n - length chunk = omega arith in
      ap (λ ys. ys ++ take (n - length xs) (ahead k1 a node)) (sym z)
      ∙ ap (λ m. chunk ++ take m (ahead k1 a node)) count
      ∙ ap (λ l. chunk ++ take (suc n - length chunk) l) g
      ∙ take-take-drop len (suc n) (ahead k a node) le

  -- `bytes` are what a call with enough fuel reads in addition to `total`
  pub record FullRead (fuel : ℕ) (k : Files S) (a node : ℕ) (total : List ℕ) (count : ℕ)
      : Type 0 where
    pub last : Files S
    pub run :
        read_loop i fuel k a total count ≡ some (some (total ++ take count (ahead k a node)), last)
    pub reads : Reads k a node (take count (ahead k a node)) last

  pub read_loop-FullRead :
      (fuel : ℕ) (k : Files S) (a node : ℕ) (total : List ℕ) (count : ℕ)
      → CanRead k a node
      → count < fuel
      → FullRead fuel k a node total count
  unfolding read_loop
  read_loop-FullRead zero k a node total count v lt = absurd (omega arith)
  read_loop-FullRead (suc fuel) k a node total zero v lt = record {
    last = k;
    run =
        ap (λ ys. some (some ys, k))
          (sym (append-nil total) ∙ ap (λ ys. total ++ ys) (sym (take_zero (ahead k a node))));
    reads = record {
      off = ground (arith, take_zero (ahead k a node));
      node_same = v.ip;
      flags_same = refl;
      ref_same = refl;
      others = λ b ne. refl;
      contents = refl;
      good = v.good;
    };
  }
  read_loop-FullRead (suc fuel) k a node total (suc n) v lt =
      let len = if ltb (suc n) page_size then suc n else page_size in
      let le : len ≤ page_size = ground arith in
      let r = file_read-after k a node v.readable v.ip v.inside v.good len le in
      let k1 = after k a node v.readable v.ip v.inside v.good len in
      let e = after-Reads k a node v.readable v.ip v.inside v.good len le in
      elim (List-cases (take len (ahead k a node))) [
        | inl z ↦
            let s : take (suc n) (ahead k a node) ≡ [] =
              ap (take (suc n)) (take_nil len (ahead k a node) (ground arith) z) in
            record {
              last = k1;
              run =
                  loop_end fuel k a total n (r ∙ ap (λ ys. some (some ys, k1)) z)
                  ∙ ap (λ ys. some (some ys, k1))
                      (sym (append-nil total) ∙ ap (λ ys. total ++ ys) (sym s));
              reads = subst (λ ys. Reads k a node ys k1) (z ∙ sym s) e;
            }
        | inr (x, xs, z) ↦
            let ih =
              read_loop-FullRead fuel k1 a node (total ++ (x ∷ xs)) (n - length xs)
                (Reads-CanRead k k1 a node len v e) (omega arith) in
            let w = chunk_joins k k1 a node len n x xs (ground arith) z e in
            record {
              last = ih.last;
              run =
                  loop_round fuel k a total n x xs (r ∙ ap (λ ys. some (some ys, k1)) z)
                  ∙ ih.run
                  ∙ ap (λ ys. some (some ys, ih.last))
                      (append_assoc total (x ∷ xs) _ ∙ ap (λ ys. total ++ ys) w);
              reads =
                  subst (λ ys. Reads k a node ys ih.last) w
                    (Reads-trans k k1 ih.last a node (x ∷ xs) _
                      (subst (λ ys. Reads k a node ys k1) z e) ih.reads);
            }
      ]

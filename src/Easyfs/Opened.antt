-- ===== src/Easyfs/Opened.antt =====
-- fs/easyfs below kernel/file.c: its inodes meet the interface that open files use.
use mathlib.Core.Path.{subst, ap, sym, ◌∙◌}
use risc.Common.{
  ℕ, ◌+◌, ◌/◌, ◌^◌, ◌<◌, ◌≡◌, inl, inr, Option, none, some, List, arith, leb, Bool-cases, get_or,
  length, take, drop, take_short, take_all, length-drop, get_or-take, get_or-drop, get_or_ext, ℤ,
  pos, negsuc,
}
use risc.Blk.{copy_out}
use risc.Blk.View.{length-copy_out, get_or-copy_out}
use risc.Files.{Inodes}
use risc.Files.Read.{Contents}
use risc.Easyfs.{Efs, block_size, ndirect, efs_i_read, efs_i_write}
use risc.Easyfs.Blocks.{Keeps}
use risc.Easyfs.Content.{file_byte, file_byte_kept, Mapped, Reads, inside, efs_i_read-Reads}
use risc.Easyfs.Inodes.{efs_i_size, efs_i_put}

-- the results of reads and writes as kernel/file.c sees them; `none` is a stop of the kernel
abbrev pub read_result : Efs → Option (List ℕ × Efs) → Option (List ℕ) × Efs
read_result e none = (none, e)
read_result e (some (bytes, e1)) = (some bytes, e1)

abbrev pub write_result : Efs → Option (ℤ × Efs) → Option ℕ × Efs
write_result e none = (none, e)
write_result e (some (pos n, e1)) = (some n, e1)
write_result e (some (negsuc n, e1)) = (none, e1)

-- `namei` is `efs_d_namei`.
abbrev pub inodes : (Efs → List ℕ → Option ℕ × Efs) → Inodes Efs
inodes namei = record {
  efs_d_namei = namei;
  efs_i_put = efs_i_put;
  efs_i_size = efs_i_size;
  efs_i_read = λ e i offset len. read_result e (efs_i_read e i offset len);
  efs_i_write = λ e i offset bytes. write_result e (efs_i_write e i offset bytes);
}

-- all bytes of a file
unfoldable pub bytes_of : Efs → ℕ → List ℕ
bytes_of e i = copy_out (file_byte e i) 0 (e.inode i).i_size

-- a file that has a block for each byte and that is not too long
pub record IsSound (e : Efs) (i : ℕ) : Type 0 where
  pub mapped : Mapped e i 0 (e.inode i).i_size
  pub short : (e.inode i).i_size + block_size < 2 ^ 32

pub length-bytes_of : (e : Efs) (i : ℕ) → length (bytes_of e i) ≡ (e.inode i).i_size
unfolding bytes_of
length-bytes_of e i = length-copy_out (file_byte e i) 0 (e.inode i).i_size

get_or-bytes_of :
    (e : Efs) (i j : ℕ) → j < (e.inode i).i_size → get_or (bytes_of e i) j 0 ≡ file_byte e i j
unfolding bytes_of
get_or-bytes_of e i j lt =
    get_or-copy_out (file_byte e i) 0 (e.inode i).i_size j lt ∙ ap (file_byte e i) (omega arith)

Mapped-inside :
    (e : Efs) (i offset len : ℕ)
    → Mapped e i 0 (e.inode i).i_size
    → Mapped e i offset (inside (e.inode i).i_size offset len)
unfolding inside
Mapped-inside e i offset len v = record {
  indir = v.indir;
  some_block = λ k a b. v.some_block k (omega arith) (ground (arith, a, b));
  in_range = λ k a b. v.in_range k (omega arith) (ground (arith, a, b));
}

length-range :
    (xs : List ℕ) (offset len : ℕ)
    → length (take len (drop offset xs)) ≡ inside (length xs) offset len
unfolding inside
length-range xs offset len = elim (Bool-cases (leb len (length (drop offset xs)))) [
  | inl y ↦
      let a = take_short len (drop offset xs) (ground (arith, y)) in
      let b = length-drop offset xs in ground (arith, a, b, y)
  | inr n ↦
      let a = ap length (take_all len (drop offset xs) (ground (arith, n))) in
      let b = length-drop offset xs in ground (arith, a, b, n)
]

bounded : (size offset len j : ℕ) → j < inside size offset len → (j < len) × (offset + j < size)
unfolding inside
bounded size offset len j lt = (ground (arith, lt), ground (arith, lt))

Reads-bytes_of :
    (e : Efs) (i offset len : ℕ) {xs : List ℕ} {e1 : Efs}
    → Reads e i offset (inside (e.inode i).i_size offset len) xs e1
    → xs ≡ take len (drop offset (bytes_of e i))
Reads-bytes_of e i offset len {xs} {e1} r =
    let size = (e.inode i).i_size in
    let whole = length-bytes_of e i in
    get_or_ext xs _ 0
      (r.sized
        ∙ ap (λ n. inside n offset len) (sym whole)
        ∙ sym (length-range (bytes_of e i) offset len))
      (λ j lt.
        let within : (j < len) × (offset + j < size) =
          bounded size offset len j (omega (arith, lt, r.sized)) in
        r.bytes j (omega (arith, lt, r.sized))
        ∙ sym (get_or-bytes_of e i (offset + j) within.1)
        ∙ sym (
            ground (
              arith,
              get_or-take len (drop offset (bytes_of e i)) j 0,
              get_or-drop offset (bytes_of e i) j 0,
              within.0,
            )))

bytes_of-Keeps : (e : Efs) (i : ℕ) {e1 : Efs} → Keeps e i e1 → bytes_of e1 i ≡ bytes_of e i
bytes_of-Keeps e i {e1} k =
    get_or_ext _ _ 0 (length-bytes_of e1 i ∙ k.size ∙ sym (length-bytes_of e i)) (λ j lt.
      let here : j < (e1.inode i).i_size = omega (arith, lt, length-bytes_of e1 i) in
      get_or-bytes_of e1 i j here
      ∙ file_byte_kept e i j k
      ∙ sym (get_or-bytes_of e i j (omega (arith, here, k.size))))

IsSound-Keeps : (e : Efs) (i : ℕ) {e1 : Efs} → Keeps e i e1 → IsSound e i → IsSound e1 i
IsSound-Keeps e i {e1} k v = record {
  mapped = record {
    indir = rw (k.addrs ndirect) v.mapped.indir;
    some_block = λ j a b.
        rw (k.blocks (j / block_size)) (v.mapped.some_block j a (omega (arith, b, k.size)));
    in_range =
        λ j a b. rw (k.blocks (j / block_size)) (v.mapped.in_range j a (omega (arith, b, k.size)));
  };
  short = rw k.size v.short;
}

module _ (namei : Efs → List ℕ → Option ℕ × Efs) (e : Efs) (i offset len : ℕ) (v : IsSound e i)
    (fits : offset + len < 2 ^ 32) where
  -- what a read is, and that it keeps the file
  pub read-bytes_of :
      (e1 : Efs) × ((inodes namei).efs_i_read e i offset len
        ≡ (some (take len (drop offset (bytes_of e i))), e1))
      × (bytes_of e1 i ≡ bytes_of e i)
      × IsSound e1 i
  read-bytes_of =
      let (xs, e1, p, r) =
        efs_i_read-Reads e i offset len fits (Mapped-inside e i offset len v.mapped) in
      (
        e1,
        ap (read_result e) p ∙ ap (λ ys. (some ys, e1)) (Reads-bytes_of e i offset len r),
        bytes_of-Keeps e i r.keeps,
        IsSound-Keeps e i r.keeps v,
      )

pub size-bytes_of : (e : Efs) (i : ℕ) → efs_i_size e i ≡ length (bytes_of e i)
unfolding efs_i_size
size-bytes_of e i = sym (length-bytes_of e i)

-- The inodes of easyfs meet the laws of the interface.
unfoldable pub efs_contents : (namei : Efs → List ℕ → Option ℕ × Efs) → Contents (inodes namei)
efs_contents namei = record {
  IsGood = IsSound;
  content = bytes_of;
  size = λ e i v. size-bytes_of e i;
  short = λ e i v. omega (arith, v.short, length-bytes_of e i);
  read = λ e i offset len v fits. ap (λ out. out.0) (read-bytes_of namei e i offset len v fits).1;
  kept = λ e i offset len v fits.
      let (e1, p, same, sound) = read-bytes_of namei e i offset len v fits in
      let q : e1 ≡ ((inodes namei).efs_i_read e i offset len).1 = ap (λ out. out.1) (sym p) in
      (ap (λ x. bytes_of x i) (sym q) ∙ same, subst (λ x. IsSound x i) q sound);
}

-- ===== src/Files/Counts.antt =====
-- How the operations of kernel/file.c change the counts of references.
use mathlib.Core.Path.{subst, ap}
use risc.Common.{
  ℕ, zero, suc, ◌+◌, ◌<◌, ◌≡◌, refl, inl, inr, true, Option, none, some, [], ◌∷◌, arith, ◌==◌,
  if◌then◌else◌, get_or, set, length, length-set, is_some, Option-cases, ℤ, pos,
}
use risc.Files.{
  Inodes, Files, Table, is_fd, index, file_dup, file_close, fd_close, fd_close_all, copy_table,
  get_unused_fd_from,
}

abbrev pub one : ℕ → Option ℕ → ℕ
one b none = 0
one b (some a) = if a == b then 1 else 0

-- the descriptors of a table that refer to the file `b`
abbrev pub slots : ℕ → Table → ℕ
slots b [] = 0
slots b (f ∷ t) = one b f + slots b t

pub slots-set :
    (b : ℕ) (t : Table) (fd : ℕ) (v : Option ℕ)
    → fd < length t
    → slots b (set t fd v) + one b (get_or t fd none) ≡ slots b t + one b v
slots-set b [] fd v h = absurd (omega arith)
slots-set b (f ∷ t) zero v h = omega arith
slots-set b (f ∷ t) (suc fd) v h = omega (arith, slots-set b t fd v (omega arith))

pub get_or-lt : (t : Table) (fd a : ℕ) → get_or t fd none ≡ some a → fd < length t
get_or-lt [] fd a h = absurd (cc)
get_or-lt (f ∷ t) zero a h = omega arith
get_or-lt (f ∷ t) (suc fd) a h = omega (arith, get_or-lt t fd a h)

-- the first free descriptor of a table
pub record Lowest (t : Table) (fd : ℕ) : Type 0 where
  pub inside : fd < length t
  pub free : get_or t fd none ≡ none
  pub lower : (j : ℕ) → j < fd → is_some (get_or t j none) ≡ true

lower_step : (f : ℕ) (t : Table) (r : ℕ) → Lowest t r → Lowest (some f ∷ t) (r + 1)
lower_step f t r l = record {
  inside = omega (arith, l.inside);
  free = ground (arith, l.free);
  lower = λ j. elim j as (λ j. j < r + 1 → is_some (get_or (some f ∷ t) j none) ≡ true) [
    | zero ↦ λ lt. refl
    | suc j ↦ λ lt. l.lower j (omega arith)
  ];
}

pub get_unused_fd_from-Lowest :
    (i : ℕ) (t : Table) (fd : ℕ)
    → get_unused_fd_from i t ≡ pos fd
    → (r : ℕ) × (fd ≡ i + r) × Lowest t r
unfolding get_unused_fd_from
get_unused_fd_from-Lowest i [] fd h = absurd (cc)
get_unused_fd_from-Lowest i (none ∷ t) fd h = (
  0,
  ground arith,
  record { inside = omega arith; free = refl; lower = λ j lt. absurd (omega arith) },
)
get_unused_fd_from-Lowest i (some f ∷ t) fd h =
    let (r, e, l) = get_unused_fd_from-Lowest (i + 1) t fd h in
    (r + 1, omega arith, lower_step f t r l)

module _ {S : Type 0} where
  -- a file in use has an inode
  abbrev pub HasNodes : Files S → Type 0
  HasNodes k = (b : ℕ) → 0 < (k.file b).f_ref → is_some (k.file b).f_ip ≡ true

  -- references move between the files and a table
  pub record Moves (k : Files S) (t : Table) (k1 : Files S) (t1 : Table) : Type 0 where
    pub refs : (b : ℕ) → (k1.file b).f_ref + slots b t ≡ (k.file b).f_ref + slots b t1
    pub nodes : HasNodes k → HasNodes k1
    pub size : length t1 ≡ length t

  pub file_dup_used :
      (k : Files S) (a : ℕ) {k1 : Files S} → file_dup k a ≡ some k1 → 0 < (k.file a).f_ref
  unfolding file_dup
  file_dup_used k a {k1} h = ground arith

  pub file_dup-refs :
      (k : Files S) (a : ℕ) {k1 : Files S}
      → file_dup k a ≡ some k1
      → ((b : ℕ)
          → ((k1.file b).f_ref ≡ (k.file b).f_ref + one b (some a))
            × ((k1.file b).f_ip ≡ (k.file b).f_ip))
  unfolding file_dup
  file_dup-refs k a {k1} h b = ground arith

module _ {S : Type 0} (i : Inodes S) where
  pub file_close-refs :
      (k : Files S) (a : ℕ) {k1 : Files S}
      → file_close i k a ≡ some k1
      → ((b : ℕ)
          → ((k1.file b).f_ref + one b (some a) ≡ (k.file b).f_ref)
            × ((k1.file b).f_ip ≡ (k.file b).f_ip))
  unfolding file_close
  file_close-refs k a {k1} h b = ground arith

  -- what `fd_close` does at an empty and at an open descriptor
  pub fd_close-empty :
      (k : Files S) (t : Table) (fd : ℤ)
      → is_fd fd ≡ true
      → get_or t (index fd) none ≡ none
      → fd_close i k t fd ≡ some (t, k)
  unfolding fd_close
  fd_close-empty k t fd h e = rw (h, e)

  pub fd_close-run :
      (k : Files S) (t : Table) (fd : ℤ) (a : ℕ) {k1 : Files S}
      → is_fd fd ≡ true
      → get_or t (index fd) none ≡ some a
      → file_close i k a ≡ some k1
      → fd_close i k t fd ≡ some (set t (index fd) none, k1)
  unfolding fd_close
  fd_close-run k t fd a h e f = rw (h, e, f)

  Moves-set :
      (k : Files S) (t : Table) (fd a : ℕ) {k1 : Files S}
      → get_or t fd none ≡ some a
      → file_close i k a ≡ some k1
      → Moves k t k1 (set t fd none)
  Moves-set k t fd a {k1} e f = record {
    refs = λ b. ground (arith, file_close-refs k a f b, slots-set b t fd none (get_or-lt t fd a e));
    nodes = λ v b lt.
        ground (arith, file_close-refs k a f b, v b (ground (arith, file_close-refs k a f b)));
    size = length-set t fd none;
  }

  pub fd_close-Moves :
      (k : Files S) (t : Table) (fd : ℤ) {out : Table × Files S}
      → fd_close i k t fd ≡ some out
      → Moves k t out.1 out.0
  unfolding fd_close
  fd_close-Moves k t fd {out} h = elim (Option-cases (get_or t (index fd) none)) [
    | inl e ↦
        let q : (t, k) ≡ out = ground arith in
        subst (λ p. Moves k t p.1 p.0) q (record { refs = λ b. refl; nodes = λ v. v; size = refl })
    | inr (a, e) ↦ elim (Option-cases (file_close i k a)) [
      | inl n ↦ absurd (ground arith)
      | inr (k2, f) ↦
          let q : (set t (index fd) none, k2) ≡ out = ground arith in
          subst (λ p. Moves k t p.1 p.0) q (Moves-set k t (index fd) a e f)
    ]
  ]

  Moves-cons :
      (k : Files S) (t t1 : Table) (k1 : Files S)
      → Moves k t k1 t1
      → Moves k (none ∷ t) k1 (none ∷ t1)
  Moves-cons k t t1 k1 m = record {
    refs = λ b. omega (arith, m.refs b);
    nodes = m.nodes;
    size = omega (arith, m.size);
  }

  Moves-close :
      (k : Files S) (a : ℕ) (t t1 : Table) (k1 k2 : Files S)
      → file_close i k a ≡ some k1
      → Moves k1 t k2 t1
      → Moves k (some a ∷ t) k2 (none ∷ t1)
  Moves-close k a t t1 k1 k2 c m = record {
    refs = λ b. ground (arith, m.refs b, file_close-refs k a c b);
    nodes = λ v. m.nodes (λ b lt.
        ground (arith, file_close-refs k a c b, v b (ground (arith, file_close-refs k a c b))));
    size = omega (arith, m.size);
  }

  pub fd_close_all-Moves :
      (k : Files S) (t : Table) {out : Table × Files S}
      → fd_close_all i k t ≡ some out
      → Moves k t out.1 out.0
  unfolding fd_close_all
  fd_close_all-Moves k [] {out} h =
      let q : ([], k) ≡ out = ground arith in
      subst (λ p. Moves k [] p.1 p.0) q (record { refs = λ b. refl; nodes = λ v. v; size = refl })
  fd_close_all-Moves k (none ∷ t) {out} h = elim (Option-cases (fd_close_all i k t)) [
    | inl n ↦ absurd (ground arith)
    | inr ((u, k1), e) ↦
        let q : (none ∷ u, k1) ≡ out = ground arith in
        subst (λ p. Moves k (none ∷ t) p.1 p.0) q (Moves-cons k t u k1 (fd_close_all-Moves k t e))
  ]
  fd_close_all-Moves k (some a ∷ t) {out} h = elim (Option-cases (file_close i k a)) [
    | inl n ↦ absurd (ground arith)
    | inr (k1, c) ↦ elim (Option-cases (fd_close_all i k1 t)) [
      | inl n ↦ absurd (ground arith)
      | inr ((u, k2), e) ↦
          let q : (none ∷ u, k2) ≡ out = ground arith in
          subst (λ p. Moves k (some a ∷ t) p.1 p.0) q
            (Moves-close k a t u k1 k2 c (fd_close_all-Moves k1 t e))
    ]
  ]

module _ {S : Type 0} where
  -- every reference that the copy of a table makes is counted
  pub record Copies (k : Files S) (t : Table) (k1 : Files S) (t1 : Table) : Type 0 where
    pub same : t1 ≡ t
    pub refs : (b : ℕ) → (k1.file b).f_ref ≡ (k.file b).f_ref + slots b t
    pub nodes : (b : ℕ) → (k1.file b).f_ip ≡ (k.file b).f_ip

  pub copy_table-Copies :
      (k : Files S) (t : Table) {out : Table × Files S}
      → copy_table k t ≡ some out
      → Copies k t out.1 out.0
  unfolding copy_table
  copy_table-Copies k [] {out} h =
      let q : ([], k) ≡ out = ground arith in
      subst (λ p. Copies k [] p.1 p.0) q
        (record { same = refl; refs = λ b. omega arith; nodes = λ b. refl })
  copy_table-Copies k (none ∷ t) {out} h = elim (Option-cases (copy_table k t)) [
    | inl n ↦ absurd (ground arith)
    | inr ((u, k1), e) ↦
        let q : (none ∷ u, k1) ≡ out = ground arith in
        let c = copy_table-Copies k t e in
        subst (λ p. Copies k (none ∷ t) p.1 p.0) q
          (record {
            same = ap (λ ys. none ∷ ys) c.same;
            refs = λ b. omega (arith, c.refs b);
            nodes = c.nodes;
          })
  ]
  copy_table-Copies k (some a ∷ t) {out} h = elim (Option-cases (file_dup k a)) [
    | inl n ↦ absurd (ground arith)
    | inr (k1, d) ↦ elim (Option-cases (copy_table k1 t)) [
      | inl n ↦ absurd (ground arith)
      | inr ((u, k2), e) ↦
          let q : (some a ∷ u, k2) ≡ out = ground arith in
          let c = copy_table-Copies k1 t e in
          subst (λ p. Copies k (some a ∷ t) p.1 p.0) q
            (record {
              same = ap (λ ys. some a ∷ ys) c.same;
              refs = λ b. ground (arith, c.refs b, file_dup-refs k a d b);
              nodes = λ b. ground (arith, c.nodes b, file_dup-refs k a d b);
            })
    ]
  ]

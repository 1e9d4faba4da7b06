-- ===== src/Locks/SpinLock/Depth.antt =====
-- The nesting of interrupts of kernel/locks/spinlock.c while CPUs use a spin lock.
use mathlib.Core.Path.{subst}
use risc.Common.{
  sym, ap, ==_iff, ℕ, ◌+◌, ◌≡◌, refl, true, false, some, ◌==◌, arith, Bool-cases, inl, inr,
}
use risc.Locks.SpinLock.{Core, push_off, pop_off, lock_begin, test_and_set}
use risc.Locks.SpinLock.System.{
  Phase, outside, waiting, won, inside, leaving, owns, busy, update, System, swapped, Step, begins,
  swaps, marks, unlocks, releases, pushes, pops, interrupts, Reach, start, then_, IsNested,
}

pub owns-busy : (p : Phase) → owns p ≡ true → busy p ≡ 1
owns-busy outside h = absurd (ground (arith, h))
owns-busy waiting h = absurd (ground (arith, h))
owns-busy won h = refl
owns-busy inside h = refl
owns-busy leaving h = refl

lock_begin-some :
    (l : _) (c : ℕ) (core core1 : Core) → lock_begin l c core ≡ some core1 → core1 ≡ push_off core
unfolding lock_begin
lock_begin-some l c core core1 h = ground (arith, h)

pushed : (core : Core) → ((push_off core).noff ≡ core.noff + 1) × ((push_off core).intr ≡ false)
unfolding push_off
pushed core = (refl, refl)

popped :
    (core core1 : Core)
    → pop_off core ≡ some core1
    → (core1.noff + 1 ≡ core.noff) × (core1.intr ≡ true → core1.noff ≡ 0)
unfolding pop_off
popped core core1 h = (ground (arith, h), λ e. ground (arith, h, e))

-- A step of CPU `c` is seen at that CPU only.
record At (s : System) (c : ℕ) (s1 : System) : Type 0 where
  core_same : (d : ℕ) → (d == c) ≡ false → s1.core d ≡ s.core d
  depth_same : (d : ℕ) → (d == c) ≡ false → s1.depth d ≡ s.depth d
  phase_same : (d : ℕ) → (d == c) ≡ false → s1.phase d ≡ s.phase d

At-IsNested :
    (s s1 : System) (c : ℕ)
    → IsNested s
    → At s c s1
    → (s1.core c).noff ≡ s1.depth c + busy (s1.phase c)
    → ((s1.core c).intr ≡ true → (s1.core c).noff ≡ 0)
    → IsNested s1
At-IsNested s s1 c v a deep off = record {
  deep = λ d. elim (Bool-cases (d == c)) [
    | inl z ↦
        subst (λ x. (s1.core x).noff ≡ s1.depth x + busy (s1.phase x)) (sym ((==_iff d c).0 z)) deep
    | inr z ↦ rw (a.core_same d z, a.depth_same d z, a.phase_same d z) (v.deep d)
  ];
  off = λ d. elim (Bool-cases (d == c)) [
    | inl z ↦
        subst (λ x. (s1.core x).intr ≡ true → (s1.core x).noff ≡ 0) (sym ((==_iff d c).0 z)) off
    | inr z ↦ rw (a.core_same d z) (v.off d)
  ];
}

-- a step to a phase of the same depth, with nothing else
moves-IsNested :
    (s s1 : System) (c : ℕ)
    → IsNested s
    → s1.core ≡ s.core
    → s1.depth ≡ s.depth
    → ((d : ℕ) → busy (s1.phase d) ≡ busy (s.phase d))
    → IsNested s1
moves-IsNested s s1 c v a b e = record {
  deep = λ d. rw (a, b, e d) (v.deep d);
  off = λ d. rw a (v.off d);
}

busy-update :
    (f : ℕ → Phase) (c : ℕ) (p : Phase)
    → busy p ≡ busy (f c)
    → (d : ℕ) → busy (update f c p d) ≡ busy (f d)
busy-update f c p h d = elim (Bool-cases (d == c)) [
  | inl z ↦ let same : d ≡ c = (==_iff d c).0 z in ground (arith, z, h, same)
  | inr z ↦ ground (arith, z)
]

step-IsNested : {s s1 : System} → Step s s1 → IsNested s → IsNested s1
unfolding test_and_set
step-IsNested {s} {s1} (begins c core e b) v =
    let q = lock_begin-some s.l c (s.core c) core b in
    let (more, off) = pushed (s.core c) in
    At-IsNested s s1 c v
      (record {
        core_same = λ d z. ground (arith, z);
        depth_same = λ d z. refl;
        phase_same = λ d z. ground (arith, z);
      })
      (ground (arith, q, more, v.deep c, ap busy e)) (λ h. ground (arith, q, off, h))
step-IsNested {s} {s1} (swaps c e) v = elim (Bool-cases s.l.lock) [
  | inl f ↦
      subst (λ b. IsNested (swapped s c (b, record s.l { lock = true }))) (sym f)
        (record { deep = v.deep; off = v.off })
  | inr f ↦
      subst (λ b. IsNested (swapped s c (b, record s.l { lock = true }))) (sym f)
        (moves-IsNested s (swapped s c (false, record s.l { lock = true })) c v refl refl
          (busy-update s.phase c won (sym (ap busy e))))
]
step-IsNested {s} {s1} (marks c e) v =
    moves-IsNested s s1 c v refl refl (busy-update s.phase c inside (sym (ap busy e)))
step-IsNested {s} {s1} (unlocks c l e u) v =
    moves-IsNested s s1 c v refl refl (busy-update s.phase c leaving (sym (ap busy e)))
step-IsNested {s} {s1} (releases c core e b) v =
    let (less, off) = popped (s.core c) core b in
    At-IsNested s s1 c v
      (record {
        core_same = λ d z. ground (arith, z);
        depth_same = λ d z. refl;
        phase_same = λ d z. ground (arith, z);
      })
      (ground (arith, less, v.deep c, ap busy e)) (λ h. ground (arith, off, h))
step-IsNested {s} {s1} (pushes c) v =
    let (more, off) = pushed (s.core c) in
    At-IsNested s s1 c v
      (record {
        core_same = λ d z. ground (arith, z);
        depth_same = λ d z. ground (arith, z);
        phase_same = λ d z. refl;
      })
      (ground (arith, more, v.deep c)) (λ h. ground (arith, off, h))
step-IsNested {s} {s1} (pops c core lt b) v =
    let (less, off) = popped (s.core c) core b in
    At-IsNested s s1 c v
      (record {
        core_same = λ d z. ground (arith, z);
        depth_same = λ d z. ground (arith, z);
        phase_same = λ d z. refl;
      })
      (ground (arith, less, v.deep c, lt)) (λ h. ground (arith, off, h))
step-IsNested {s} {s1} (interrupts c intr e) v =
    At-IsNested s s1 c v
      (record {
        core_same = λ d z. ground (arith, z);
        depth_same = λ d z. refl;
        phase_same = λ d z. refl;
      })
      (ground (arith, v.deep c)) (λ h. ground (arith, e))

pub run-IsNested : {s : System} → Reach s → IsNested s
run-IsNested (start core none_yet) = record {
  deep = λ c. omega (arith, none_yet c);
  off = λ c h. none_yet c;
}
run-IsNested (then_ r st) = step-IsNested st (run-IsNested r)

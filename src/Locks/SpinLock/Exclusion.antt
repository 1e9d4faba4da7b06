-- ===== src/Locks/SpinLock/Exclusion.antt =====
-- Mutual exclusion by a spin lock of kernel/locks/spinlock.c.
use risc.Common.{
  ℕ, ◌≡◌, refl, is_some, some, sym, ap, ◌∙◌, true, ◌==◌, ==_iff, arith, Bool-cases, inl, inr,
}
use mathlib.Core.Path.{subst}
use risc.Locks.SpinLock.{
  push_off, pop_off, lock_begin, spin_init, holding, test_and_set, lock_mark, lock_release,
}
use risc.Locks.SpinLock.System.{
  outside, waiting, inside, leaving, owns, is_inside, update, System, swapped, Step, begins, swaps,
  marks, unlocks, releases, pushes, pops, interrupts, IsNested, Reach, start, then_, IsValid,
}
use risc.Locks.SpinLock.Depth.{owns-busy, run-IsNested}
use risc.Locks.SpinLock.Steps.{
  update-owns, update-is_inside, sole, swap-free, mark-marked, unlock-marked, release-owning,
  unlock_begin-some,
}

step-IsValid : {s s' : System} → Step s s' → IsValid s → IsValid s'
unfolding test_and_set lock_mark lock_release
step-IsValid {s = s} (begins c core e n) v = record {
  locked = v.locked;
  owning = update-owns s.phase s.owner c waiting v.owning (sym (ap owns e));
  marked = update-is_inside s.phase s.l.cpuid c waiting v.marked (sym (ap is_inside e));
}
step-IsValid {s = s} (swaps c e) v = elim (Bool-cases s.l.lock) [
  | inl f ↦
      subst (λ b. IsValid (swapped s c (b, record s.l { lock = true }))) (sym f)
        (record { locked = sym f ∙ v.locked; owning = v.owning; marked = v.marked })
  | inr f ↦
      subst (λ b. IsValid (swapped s c (b, record s.l { lock = true }))) (sym f)
        (swap-free s c e f v)
]
step-IsValid {s = s} (marks c e) v = record {
  locked = v.locked;
  owning = update-owns s.phase s.owner c inside v.owning (sym (ap owns e));
  marked = mark-marked s c v (ap owns e);
}
step-IsValid {s = s} (unlocks c l e u) v =
    subst (λ k. IsValid (record s { l = k; phase = update s.phase c leaving }))
      (unlock_begin-some s.l l c u)
      (record {
        locked = v.locked;
        owning = update-owns s.phase s.owner c leaving v.owning (sym (ap owns e));
        marked = unlock-marked s c v (ap owns e);
      })
step-IsValid {s = s} (releases c core e n) v = record {
  locked = refl;
  owning = release-owning s c v (ap owns e);
  marked = update-is_inside s.phase s.l.cpuid c outside v.marked (sym (ap is_inside e));
}
step-IsValid (pushes c) v = record { locked = v.locked; owning = v.owning; marked = v.marked }
step-IsValid (pops c core lt e) v = record {
  locked = v.locked;
  owning = v.owning;
  marked = v.marked;
}
step-IsValid (interrupts c intr e) v = record {
  locked = v.locked;
  owning = v.owning;
  marked = v.marked;
}

run-IsValid : {s : System} → Reach s → IsValid s
unfolding spin_init
run-IsValid (start core zero_deep) = record {
  locked = refl;
  owning = λ c. refl;
  marked = λ c. refl;
}
run-IsValid (then_ r st) = step-IsValid st (run-IsValid r)

sole-≡ : (s : System) (c d : ℕ) → IsValid s → s.phase c ≡ inside → s.phase d ≡ inside → c ≡ d
sole-≡ s c d v h k = elim (Bool-cases (d == c)) [
  | inl z ↦ sym ((==_iff d c).0 z)
  | inr z ↦ let q = sym (ap owns k) ∙ sole s c d v (ap owns h) z in absurd (ground (arith, q))
]

-- In every interleaving of the CPUs' accesses to a spin lock, with other matched calls of `push_off`
-- and `pop_off` between, at most one CPU is between `spin_lock` and `spin_unlock`, and the lock knows
-- that CPU and no other as its holder. So neither `spin_lock` of a CPU that is outside nor
-- `spin_unlock` of the one inside panics, its `pop_off` included.
pub one_holder :
    {s : System} (c d : ℕ)
    → Reach s
    → (s.phase c ≡ inside → s.phase d ≡ inside → c ≡ d)
      × (s.phase c ≡ inside → holding s.l c ≡ true)
      × (s.phase c ≡ outside → lock_begin s.l c (s.core c) ≡ some (push_off (s.core c)))
      × (owns (s.phase c) ≡ true → is_some (pop_off (s.core c)) ≡ true)
unfolding holding lock_begin pop_off
one_holder {s} c d r =
    let v : IsValid s = run-IsValid r in
    let n : IsNested s = run-IsNested r in
    (
      (λ h k. sole-≡ s c d v h k),
      (λ h. ground (arith, v.marked c, v.owning c, h, v.locked)),
      (λ h. ground (arith, v.marked c, h)),
      (λ h. ground (arith, n.deep c, n.off c, owns-busy (s.phase c) h)),
    )

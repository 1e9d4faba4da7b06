-- ===== src/Locks/SpinLock/Tests.antt =====
-- Tests of the model of kernel/locks/spinlock.c.
use risc.Common.{is_some, ℕ, ◌≡◌, refl, true, false, some, none}
use risc.Locks.SpinLock.{
  push_off, pop_off, lock_begin, Core, spin_init, holding, test_and_set, lock_mark, unlock_begin,
}
use risc.Locks.SpinLock.System.{
  owns, System, outside, waiting, won, inside, update, Reach, start, then_, begins, swaps, marks,
}
use risc.Locks.SpinLock.Exclusion.{one_holder}

abbrev awake : Core
awake = record { intr = true; noff = 0; intena = false }

-- CPU 2 has taken the lock
abbrev masked : Core
masked = record { intr = false; noff = 1; intena = true }

abbrev taken : System
taken = record {
  core = update (λ c. awake) 2 masked;
  depth = λ c. 0;
  l = record { lock = true; cpuid = some 2 };
  phase = update (update (update (λ c. outside) 2 waiting) 2 won) 2 inside;
  owner = some 2;
}

taken-Reach : Reach taken
unfolding spin_init holding test_and_set lock_mark lock_begin push_off
taken-Reach =
    then_
      (then_ (then_ (start (λ c. awake) (λ c. refl)) (begins 2 masked refl refl)) (swaps 2 refl))
      (marks 2 refl)

unlock_by_another_panics : unlock_begin taken.l 3 ≡ none
unfolding unlock_begin holding
unlock_by_another_panics = refl

one_holder_example :
    (taken.phase 2 ≡ inside → taken.phase 3 ≡ inside → ◌≡◌ {A = ℕ} 2 3)
    × (taken.phase 2 ≡ inside → holding taken.l 2 ≡ true)
    × (taken.phase 2 ≡ outside → lock_begin taken.l 2 masked ≡ some (push_off masked))
    × (owns (taken.phase 2) ≡ true → is_some (pop_off masked) ≡ true)
one_holder_example = one_holder 2 3 taken-Reach

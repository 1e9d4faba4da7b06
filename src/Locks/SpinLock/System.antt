-- ===== src/Locks/SpinLock/System.antt =====
-- One spin lock of kernel/locks/spinlock.c and all CPUs: their accesses as a step relation.
use risc.Common.{
  ℕ, ◌+◌, ◌-◌, ◌<◌, ◌≡◌, Bool, true, false, Option, none, some, ◌==◌, if◌then◌else◌, is_some,
}
use risc.Locks.SpinLock.{
  Core, push_off, pop_off, lock_begin, SpinLock, spin_init, is_cpu, test_and_set, lock_mark,
  unlock_begin, lock_release,
}

-- Where a CPU is: before `spin_lock`, in its loop, behind the swap that won, between `spin_lock` and
-- `spin_unlock`, or behind the fence of `spin_unlock`.
pub data Phase : Type 0 where
  outside waiting won inside leaving : Phase

abbrev pub owns : Phase → Bool
owns won = true
owns inside = true
owns leaving = true
owns p = false

abbrev pub is_inside : Phase → Bool
is_inside inside = true
is_inside p = false

-- how many of the `push_off` of a CPU are those of `spin_lock`
abbrev pub busy : Phase → ℕ
busy outside = 0
busy p = 1

abbrev pub update {ℓ} : {A : Type ℓ} → (ℕ → A) → ℕ → A → ℕ → A
update f c p d = if d == c then p else f d

-- the lock, the phases and the interrupts of the CPUs, and as marks of the proof the CPU whose swap won
-- and how many other `push_off` of each CPU wait for their `pop_off`
pub record System : Type 0 where
  pub core : ℕ → Core
  pub depth : ℕ → ℕ
  pub l : SpinLock
  pub phase : ℕ → Phase
  pub owner : Option ℕ

-- what a swap by CPU `c` does
abbrev pub swapped : System → ℕ → Bool × SpinLock → System
swapped s c (true, l) = record s { l = l }
swapped s c (false, l) = record s { l = l; phase = update s.phase c won; owner = some c }

-- The accesses of the CPUs to the lock, and what else each does to its interrupts: other calls of
-- `push_off` with their `pop_off`, and any change while nothing is nested.
pub data Step : System → System → Type 0 where
  begins :
      {s : System} (c : ℕ) (core : Core)
      → s.phase c ≡ outside
      → lock_begin s.l c (s.core c) ≡ some core
      → Step s (record s { phase = update s.phase c waiting; core = update s.core c core })
  swaps : {s : System} (c : ℕ) → s.phase c ≡ waiting → Step s (swapped s c (test_and_set s.l))
  marks :
      {s : System} (c : ℕ)
      → s.phase c ≡ won
      → Step s (record s { l = lock_mark s.l c; phase = update s.phase c inside })
  unlocks :
      {s : System} (c : ℕ) (l : SpinLock)
      → s.phase c ≡ inside
      → unlock_begin s.l c ≡ some l
      → Step s (record s { l = l; phase = update s.phase c leaving })
  releases :
      {s : System} (c : ℕ) (core : Core)
      → s.phase c ≡ leaving
      → pop_off (s.core c) ≡ some core
      → Step s (record s {
        l = lock_release s.l;
        phase = update s.phase c outside;
        owner = none;
        core = update s.core c core;
      })
  pushes :
      {s : System} (c : ℕ)
      → Step s (record s {
        core = update s.core c (push_off (s.core c));
        depth = update s.depth c (s.depth c + 1);
      })
  pops :
      {s : System} (c : ℕ) (core : Core)
      → 0 < s.depth c
      → pop_off (s.core c) ≡ some core
      → Step s (record s { core = update s.core c core; depth = update s.depth c (s.depth c - 1) })
  interrupts :
      {s : System} (c : ℕ) (intr : Bool)
      → (s.core c).noff ≡ 0
      → Step s (record s { core = update s.core c (record (s.core c) { intr = intr }) })

pub data Reach : System → Type 0 where
  start :
      (core : ℕ → Core)
      → ((c : ℕ) → (core c).noff ≡ 0)
      → Reach (record {
        core = core;
        depth = λ c. 0;
        l = spin_init;
        phase = λ c. outside;
        owner = none;
      })
  then_ : {s s' : System} → Reach s → Step s s' → Reach s'

pub record IsValid (s : System) : Type 0 where
  pub locked : s.l.lock ≡ is_some s.owner
  pub owning : (c : ℕ) → owns (s.phase c) ≡ is_cpu s.owner c
  pub marked : (c : ℕ) → is_cpu s.l.cpuid c ≡ is_inside (s.phase c)

-- The depth of each CPU is that of the calls that wait for their `pop_off`, and while it is not 0 the
-- interrupts are off.
pub record IsNested (s : System) : Type 0 where
  pub deep : (c : ℕ) → (s.core c).noff ≡ s.depth c + busy (s.phase c)
  pub off : (c : ℕ) → (s.core c).intr ≡ true → (s.core c).noff ≡ 0

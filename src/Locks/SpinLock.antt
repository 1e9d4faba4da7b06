-- ===== src/Locks/SpinLock.antt =====
-- kernel/locks/spinlock.c: the nesting of disabled interrupts and the spin lock. Each access to the
-- lock that another CPU can see is one step.
pub mod Nesting
pub mod System
pub mod Steps
pub mod Depth
pub mod Exclusion
mod Tests
use risc.Common.{ℕ, ◌+◌, ◌-◌, Bool, true, false, ◌&&◌, Option, none, some, ◌==◌, if◌then◌else◌}

-- the fields of `struct cpu` and the interrupt bit that `push_off` and `pop_off` use
pub record Core : Type 0 where
  pub intr : Bool
  pub noff : ℕ
  pub intena : Bool

pub push_off : Core → Core
push_off c = record {
  intr = false;
  noff = c.noff + 1;
  intena = if c.noff == 0 then c.intr else c.intena;
}

-- `none` is one of the two panics.
pub pop_off : Core → Option Core
pop_off c =
    let less = c.noff - 1 in
    if c.intr
    then none
    else if c.noff == 0
    then none
    else some (record c { intr = (less == 0) && c.intena; noff = less })

-- `spinlock_t`
pub record SpinLock : Type 0 where
  pub lock : Bool
  pub cpuid : Option ℕ

pub spin_init : SpinLock
spin_init = record { lock = false; cpuid = none }

abbrev pub is_cpu : Option ℕ → ℕ → Bool
is_cpu none c = false
is_cpu (some d) c = d == c

pub holding : SpinLock → ℕ → Bool
holding l c = l.lock && is_cpu l.cpuid c

-- `spin_lock` up to its loop; `none` is the panic of a CPU that has the lock already
pub lock_begin : SpinLock → ℕ → Core → Option Core
unfolding push_off holding
lock_begin l c core = if holding l c then none else some (push_off core)

-- one round of the loop: the old value, and the lock after the swap
pub test_and_set : SpinLock → Bool × SpinLock
test_and_set l = (l.lock, record l { lock = true })

-- the end of `spin_lock`
pub lock_mark : SpinLock → ℕ → SpinLock
lock_mark l c = record l { cpuid = some c }

-- `spin_unlock` up to its fence; `none` is the panic of a CPU that has not got the lock
pub unlock_begin : SpinLock → ℕ → Option SpinLock
unfolding holding
unlock_begin l c = if holding l c then some (record l { cpuid = none }) else none

-- `__sync_lock_release`, before `pop_off`
pub lock_release : SpinLock → SpinLock
lock_release l = record l { lock = false }

-- ===== src/Locks/Mutex.antt =====
-- kernel/locks/mutex.c and kernel/locks/sleeplock.c, which renames it: a mutex over a semaphore.
pub mod Exclusion
mod Tests
use mathlib.Core.Option
use risc.Common.{ℕ, Bool, true, false, ◌&&◌, Option, none, some, ◌==◌, if◌then◌else◌, ℤ, pos}
use risc.Sched.{World}
use risc.Locks.Semaphore.{Semaphore, sem_init, sem_wait, sem_signal, down, up}

-- `mutex_t`
pub record Mutex : Type 0 where
  pub locked : Bool
  pub sem : Semaphore
  pub thread : Option ℕ

-- `MUTEX_LOCK` is 1: the semaphore starts with one permit.
pub mutex_init : Mutex
mutex_init = record { locked = true; sem = sem_init (pos 1); thread = none }

-- `MUTEX_UNLOCK` is 0: the first locker sleeps until an unlock.
pub mutex_init_zero : Mutex
mutex_init_zero = record { locked = false; sem = sem_init (pos 0); thread = none }

-- `mutex_lock` up to the return of `sem_wait`, in its parts that touch the mutex
pub lock_start : Mutex → ℕ → Mutex × Bool
lock_start m t = let (sem, sleeps) = down m.sem t in (record m { sem = sem }, sleeps)

-- and what it does once it goes on, at once or after a wake-up
pub lock_end : Mutex → ℕ → Mutex
lock_end m t = record m { locked = true; thread = some t }

-- `mutex_unlock`, with the thread that it wakes; `none` is the panic of `sem_signal`.
pub mutex_unlock : Mutex → Option (Mutex × Option ℕ)
mutex_unlock m =
    let m1 = record m { locked = false; thread = none } in
    Option.map (λ r. (record m1 { sem = r.0 }, r.1)) (up m1.sem)

-- `mutex_is_hold` as asked by thread `t`
pub mutex_is_hold : Mutex → ℕ → Bool
mutex_is_hold m t = m.locked && elim m.thread [ none ↦ false | some u ↦ u == t ]

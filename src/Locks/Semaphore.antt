-- ===== src/Locks/Semaphore.antt =====
-- kernel/locks/semaphore.c. What a call does under the semaphore's spin lock is one step.
pub mod Waiters
pub mod System
mod Tests
use mathlib.Core.Option
use risc.Common.{
  ℕ, Bool, true, false, Option, none, some, [], if◌then◌else◌, ℤ, inc, dec, is_neg, is_nonpos,
}
use risc.Fifo.Queue
use risc.Fifo.Queue.{Queue}
use risc.Sched.{World, wakeup_process, sleep}

-- `semaphore_t`: the value, and the threads that wait, oldest first. The value is an `atomic_t` of 32
-- bits in the code and an integer here: it is the same below 2^31 waiters and signals.
pub record Semaphore : Type 0 where
  pub value : ℤ
  pub waiters : Queue

unfoldable pub sem_init : ℤ → Semaphore
sem_init value = record { value = value; waiters = [] }

-- The part of `sem_wait` by thread `t` that touches the semaphore; the result says whether the
-- thread has to sleep.
unfoldable pub down : Semaphore → ℕ → Semaphore × Bool
down sem t =
    let less = record sem { value = dec sem.value } in
    if is_neg less.value
    then (record less { waiters = Queue.push less.waiters t }, true)
    else (less, false)

-- `sem_wait` by thread `t` on CPU `c`: it sleeps or goes on. `none` is a panic of the scheduler.
pub sem_wait : Semaphore → World → ℕ → ℕ → Option (Semaphore × World × Bool)
sem_wait sem w c t =
    let (sem', sleeps) = down sem t in
    if sleeps then Option.map (λ w'. (sem', w', true)) (sleep w c t) else some (sem', w, false)

-- The thread that a popped queue hands over; `none` is the panic on an empty one.
abbrev pub hand_over : Semaphore → Option ℕ × Queue → Option (Semaphore × Option ℕ)
hand_over sem (none, q) = none
hand_over sem (some t, q) = some (record sem { waiters = q }, some t)

-- The part of `sem_signal` that touches the semaphore, and the thread that it wakes.
unfoldable pub up : Semaphore → Option (Semaphore × Option ℕ)
up sem =
    let more = record sem { value = inc sem.value } in
    if is_nonpos more.value then hand_over more (Queue.pop more.waiters) else some (more, none)

abbrev pub wake : World → Option ℕ → World
wake w none = w
wake w (some t) = wakeup_process w t

pub sem_signal : Semaphore → World → Option (Semaphore × World)
sem_signal sem w = Option.map (λ r. (r.0, wake w r.1)) (up sem)

-- ===== src/Locks/Semaphore/Tests.antt =====
-- A semaphore of kernel/locks/semaphore.c with no permit, on a CPU that runs thread 5.
use risc.Common.{ℕ, refl, none, some, [], ◌∷◌, arith, pos, negsuc, ◌==◌, if◌then◌else◌}
use risc.Sched.{World, Task, Cpu, idle_cpu, sleeping, running, get_cpu}
use risc.Sched
use risc.Locks.Semaphore.{down}
use risc.Locks.Semaphore.Waiters.{Lowered, down-Lowered, Raised, up-Raised}
use risc.Locks.Semaphore.System.{System, IsValid, Waits, sem_wait-Waits}

-- thread 5 runs on CPU 0, and thread 7 waits already
abbrev state_of : ℕ → Sched.TaskState
state_of t = if t == 5 then running else sleeping

abbrev world : World
world = record {
  task = λ t. record { state = state_of t; ticks = 10; cpu_affinity = none; cpu_id = 0 };
  load_cpu_id = pos 1;
  cpus = record { thread = some 5; run = [] } ∷ idle_cpu ∷ idle_cpu ∷ idle_cpu ∷ [];
}

abbrev system : System
system = record { sem = record { value = negsuc 0; waiters = 7 ∷ [] }; world = world }

system-IsValid : IsValid system
system-IsValid = record {
  counted = refl;
  world = record {
    four = refl;
    affine = λ t c e. ground arith;
    queued_once = λ t. ground arith;
    on_one_cpu = λ t. ground arith;
  };
  asleep = (refl, tt);
  distinct = (refl, tt);
}

down-Lowered_example : Lowered system.sem 5 (down system.sem 5)
down-Lowered_example = down-Lowered system.sem 5 refl

up-Raised_example : Raised system.sem
up-Raised_example = up-Raised system.sem refl

waited : Waits system 0 5
waited = sem_wait-Waits system-IsValid 0 5 (omega arith) refl

-- ===== src/Sched.antt =====
-- kernel/proc/sched.c with the task states of include/core/proc.h: the run queues of the CPUs.
-- A function is a whole call. `add_runnable_task` lets go of the thread's lock before it chooses a
-- CPU and takes it again to put the thread in the run list: in between the thread is runnable and in
-- no run list. `Sched.Overlap` cuts the calls there.
pub mod Count
pub mod Invariant
pub mod Switch
pub mod Order
pub mod Overlap
mod Tests
use risc.Common.{
  ℕ, zero, suc, ◌+◌, ◌%◌, Bool, true, false, Option, none, some, List, [], ◌∷◌, ◌==◌, if◌then◌else◌,
  get_or, set, ℤ, pos, inc, pos_part,
}

-- `enum task_state`
pub data TaskState : Type 0 where
  unused used sleeping runnable running zombie idle : TaskState

-- the fields of `struct thread_info` that the scheduler uses; `none` is `NO_CPU_AFF`
pub record Task : Type 0 where
  pub state : TaskState
  pub ticks : ℕ
  pub cpu_affinity : Option ℕ
  pub cpu_id : ℕ

-- `struct cpu`: the thread that it runs, and its run list from the head on
pub record Cpu : Type 0 where
  pub thread : Option ℕ
  pub run : List ℕ

pub record World : Type 0 where
  pub task : ℕ → Task
  pub load_cpu_id : ℤ
  pub cpus : List Cpu

abbrev pub ncpu : ℕ
ncpu = 4

abbrev pub idle_cpu : Cpu
idle_cpu = record { thread = none; run = [] }

abbrev pub set_task : World → ℕ → Task → World
set_task w t v = record w { task = λ u. if u == t then v else w.task u }

abbrev pub set_state : World → ℕ → TaskState → World
set_state w t s = set_task w t (record (w.task t) { state = s })

abbrev pub set_cpu : World → ℕ → Cpu → World
set_cpu w c v = record w { cpus = set w.cpus c v }

abbrev pub get_cpu : World → ℕ → Cpu
get_cpu w c = get_or w.cpus c idle_cpu

abbrev pub is_runnable : TaskState → Bool
is_runnable runnable = true
is_runnable _ = false

abbrev pub is_running : TaskState → Bool
is_running running = true
is_running _ = false

-- The walk from the tail of a run list to the first thread that can run.
pub pick_next_task : (ℕ → Task) → List ℕ → Option ℕ
pick_next_task task [] = none
pick_next_task task (t ∷ ts) = elim (pick_next_task task ts) [
  | some u ↦ some u
  | none ↦ if is_runnable (task t).state then some t else none
]

-- the CPU that `add_runnable_task` chooses, and the new `load_cpu_id`
pub choose_cpu : Option ℕ → ℤ → ℕ × ℤ
choose_cpu none load = let c = pos_part (inc load) % ncpu in (c, pos c)
choose_cpu (some c) load = (c, load)

-- the `list_add_head` at the end of `add_runnable_task`
abbrev pub enqueue : World → ℕ → ℕ → World
enqueue w c t = let cpu = get_cpu w c in set_cpu w c (record cpu { run = t ∷ cpu.run })

pub add_runnable_task : World → ℕ → World
add_runnable_task w t =
    let (c, load) = choose_cpu (w.task t).cpu_affinity w.load_cpu_id in
    enqueue (record w { load_cpu_id = load }) c t

pub wakeup_process : World → ℕ → World
unfolding add_runnable_task
wakeup_process w t = add_runnable_task (set_state w t runnable) t

-- The way from `sched` to the scheduler of CPU `c`, which clears `cpu->thread`. `none` is the panic
-- of the assertion that the thread is no longer running.
pub sched : World → ℕ → ℕ → Option World
sched w c t =
    let cpu = get_cpu w c in
    if is_running (w.task t).state then none else some (set_cpu w c (record cpu { thread = none }))

-- `yield` of thread `t` on CPU `c`
pub yield : World → ℕ → ℕ → Option World
yield w c t =
    let w1 = set_task w t (record (w.task t) { ticks = 10; state = runnable }) in
    sched (add_runnable_task w1 t) c t

pub do_pause : World → ℕ → ℕ → Option World
do_pause w c t = sched (add_runnable_task (set_state w t runnable) t) c t

-- How a thread goes to sleep, once it is in a queue that will wake it.
pub sleep : World → ℕ → ℕ → Option World
sleep w c t = sched (set_state w t sleeping) c t

-- `list_del_init` of a thread from a run list
pub remove : ℕ → List ℕ → List ℕ
remove t [] = []
remove t (u ∷ us) = if u == t then us else u ∷ remove t us

-- One round of the loop of `scheduler` on CPU `c`, up to the switch to the thread.
pub schedule : World → ℕ → World
schedule w c =
    let cpu = get_cpu w c in
    elim (pick_next_task w.task cpu.run) [
      | none ↦ w
      | some t ↦
          set_cpu (set_task w t (record (w.task t) { cpu_id = c; state = running })) c
            (record { thread = some t; run = remove t cpu.run })
    ]

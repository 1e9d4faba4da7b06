-- ===== src/Sched/Overlap.antt =====
-- The runs of kernel/proc/sched.c in which calls overlap. `wakeup_process`, `yield` and `do_pause` are
-- cut where `add_runnable_task` changes locks: a thread is marked as runnable, then a CPU is chosen
-- for it, then it is put in that CPU's run list, and what yields leaves its CPU with that.
pub mod Queue
pub mod Leave
pub mod Run
use risc.Common.{
  ℕ, ◌+◌, ◌<◌, ◌≡◌, refl, inl, inr, Bool, true, false, ◌&&◌, Option, none, some, ◌∷◌, arith, ◌==◌,
  if◌then◌else◌, update, length, length-set, Option-cases, Bool-cases, is_some, get_or-set_ne, ℤ,
}
use mathlib.Core.Path.{subst}
use risc.Sched.{
  TaskState, sleeping, runnable, running, Task, Cpu, World, idle_cpu, set_task, set_state, set_cpu,
  get_cpu, is_runnable, is_running, pick_next_task, choose_cpu, enqueue, sched, sleep, remove,
  schedule,
}
use risc.Sched.Count.{
  queued, current, queued-set, current-set, thread-set, holds-le-current, count-le-queued,
  count-remove, pick_next_task-some,
}
use risc.Sched.Invariant.{bit, choose_cpu-lt}
use risc.Sched.Switch.{running_not_runnable}

-- How far `add_runnable_task` is with a thread, and the CPU that it leaves in `yield` or `do_pause`.
pub data Phase : Type 0 where
  settled : Phase
  marked : (leaves : Option ℕ) → Phase
  chosen : (leaves : Option ℕ) (c : ℕ) → Phase

abbrev pub is_settled : Phase → Bool
is_settled settled = true
is_settled _ = false

abbrev pub leaving : Phase → Option ℕ
leaving settled = none
leaving (marked l) = l
leaving (chosen l c) = l

abbrev pub target : Phase → Option ℕ
target (chosen l c) = some c
target _ = none

pub record System : Type 0 where
  pub w : World
  pub phase : ℕ → Phase

abbrev pub with_phase : System → World → ℕ → Phase → System
with_phase s w t p = record { w = w; phase = update s.phase t p }

-- the CPU that `add_runnable_task` chooses, and the new `load_cpu_id`
abbrev pub choice : World → ℕ → ℕ × ℤ
choice w t = choose_cpu (w.task t).cpu_affinity w.load_cpu_id

pub data Step (s : System) : System → Type 0 where
  -- `wakeup_process` by whoever wakes a thread that neither waits for a CPU nor has one
  wakes :
      (t : ℕ)
      → is_runnable (s.w.task t).state ≡ false
      → is_running (s.w.task t).state ≡ false
      → Step s (with_phase s (set_state s.w t runnable) t (marked none))
  yields :
      (d t : ℕ)
      → d < 4
      → (get_cpu s.w d).thread ≡ some t
      → s.phase t ≡ settled
      → Step s (
          with_phase s
            (set_task s.w t (record (s.w.task t) { ticks = 10; state = runnable }))
            t
            (marked (some d)))
  pauses :
      (d t : ℕ)
      → d < 4
      → (get_cpu s.w d).thread ≡ some t
      → s.phase t ≡ settled
      → Step s (with_phase s (set_state s.w t runnable) t (marked (some d)))
  chooses :
      (t : ℕ) (l : Option ℕ)
      → s.phase t ≡ marked l
      → Step s (
          with_phase s
            (record s.w { load_cpu_id = (choice s.w t).1 })
            t
            (chosen l (choice s.w t).0))
  queues : (t c : ℕ) → s.phase t ≡ chosen none c → Step s (with_phase s (enqueue s.w c t) t settled)
  leaves :
      (t d c : ℕ) (w' : World)
      → s.phase t ≡ chosen (some d) c
      → sched (enqueue s.w c t) d t ≡ some w'
      → Step s (with_phase s w' t settled)
  sleeps :
      (d t : ℕ) (w' : World)
      → d < 4
      → (get_cpu s.w d).thread ≡ some t
      → s.phase t ≡ settled
      → sleep s.w d t ≡ some w'
      → Step s (record s { w = w' })
  dispatches :
      (d : ℕ) → d < 4 → (get_cpu s.w d).thread ≡ none → Step s (record s { w = schedule s.w d })

pub data Reach (s : System) : System → Type 0 where
  here : Reach s s
  then_ : {s1 s2 : System} → Reach s s1 → Step s1 s2 → Reach s s2

abbrev pub is_cpu : Option ℕ → ℕ
is_cpu none = 0
is_cpu (some d) = 1

pub record IsConsistent (s : System) : Type 0 where
  pub four : length s.w.cpus ≡ 4
  pub affine : (t c : ℕ) → (s.w.task t).cpu_affinity ≡ some c → c < 4
  -- a thread stands in one run list if it can run and its call is through, and in none otherwise
  pub queued_once :
      (t : ℕ) → queued t s.w.cpus ≡ bit (is_runnable (s.w.task t).state && is_settled (s.phase t))
  -- a thread is on one CPU if it runs or is about to leave it, and on none otherwise
  pub on_one_cpu :
      (t : ℕ)
      → current t s.w.cpus ≡ bit (is_running (s.w.task t).state) + is_cpu (leaving (s.phase t))
  pub can_run : (t : ℕ) → is_settled (s.phase t) ≡ false → (s.w.task t).state ≡ runnable
  pub leaves_from :
      (t d : ℕ) → leaving (s.phase t) ≡ some d → (d < 4) × ((get_cpu s.w d).thread ≡ some t)
  pub goes_to : (t c : ℕ) → target (s.phase t) ≡ some c → c < 4

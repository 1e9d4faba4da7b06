-- ===== src/Sched/Switch.antt =====
-- The threads of kernel/proc/sched.c that leave a CPU, and those that get one.
use risc.Common.{
  ℕ, ◌+◌, ◌<◌, ◌≡◌, refl, inl, inr, true, false, Option, none, some, arith, ◌==◌, if◌then◌else◌,
  Option-cases, length, length-set,
}
use risc.Sched.{
  TaskState, sleeping, runnable, running, Task, Cpu, World, set_task, set_state, set_cpu, get_cpu,
  is_runnable, is_running, pick_next_task, add_runnable_task, wakeup_process, sched, yield,
  do_pause, sleep, remove, schedule,
}
use risc.Sched.Count.{
  queued, current, queued-set, current-set, holds-le-current, count-remove, pick_next_task-some,
}
use risc.Sched.Invariant.{
  bit, IsValid, queued-add_runnable_task, current-add_runnable_task, four-add_runnable_task,
  task-add_runnable_task, thread-add_runnable_task,
}

pub running_not_runnable : (s : TaskState) → is_running s ≡ true → is_runnable s ≡ false
running_not_runnable running e = refl
running_not_runnable _ e = ground arith

-- thread `t` has stopped running but is still on CPU `c`
record Leaving (w : World) (c t : ℕ) : Type 0 where
  four : length w.cpus ≡ 4
  affine : (u d : ℕ) → (w.task u).cpu_affinity ≡ some d → d < 4
  queued_once : (u : ℕ) → queued u w.cpus ≡ bit (is_runnable (w.task u).state)
  on_cpu :
      (u : ℕ) → current u w.cpus ≡ bit (is_running (w.task u).state) + (if t == u then 1 else 0)
  here : (get_cpu w c).thread ≡ some t
  stopped : is_running (w.task t).state ≡ false

abbrev pub Left : Option World → Type 0
Left o = (w : World) × (o ≡ some w) × IsValid w

sched-Left : {w : World} {c t : ℕ} → c < 4 → Leaving w c t → Left (sched w c t)
unfolding sched
sched-Left {w} {c} {t} lt v =
    let off : Cpu = record (get_cpu w c) { thread = none } in
    (
      set_cpu w c off,
      rw v.stopped,
      record {
        four = omega (arith, v.four, length-set w.cpus c off);
        affine = v.affine;
        queued_once =
            λ u. omega (arith, queued-set u w.cpus c off (omega (arith, v.four)), v.queued_once u);
        on_one_cpu = λ u.
            ground (arith, current-set u w.cpus c off (omega (arith, v.four)), v.on_cpu u, v.here);
      },
    )

module _ {w : World} {c t : ℕ} (v : IsValid w) (lt : c < 4)
    (here : (get_cpu w c).thread ≡ some t) where
  -- what is on a CPU runs
  pub current_running : is_running (w.task t).state ≡ true
  current_running = ground (arith, v.on_one_cpu t, holds-le-current t w.cpus c)

  not_queued : is_runnable (w.task t).state ≡ false
  not_queued = running_not_runnable (w.task t).state current_running

  sleep-Leaving : Leaving (set_state w t sleeping) c t
  sleep-Leaving = record {
    four = v.four;
    affine = λ u d e. v.affine u d (ground arith);
    queued_once = λ u. ground (arith, v.queued_once u, not_queued);
    on_cpu = λ u. ground (arith, v.on_one_cpu u, current_running);
    here = here;
    stopped = ground arith;
  }

  module _ (now : Task) (can_run : now.state ≡ runnable)
      (same : now.cpu_affinity ≡ (w.task t).cpu_affinity) where
    back : World
    back = set_task w t now

    back-affine : (u d : ℕ) → (back.task u).cpu_affinity ≡ some d → d < 4
    unfolding back
    back-affine u d e = v.affine u d (ground arith)

    requeue-Leaving : Leaving (add_runnable_task back t) c t
    unfolding back
    requeue-Leaving = record {
      four = four-add_runnable_task back t v.four back-affine;
      affine = λ u d e.
          back-affine u d (ground (arith, task-add_runnable_task back t v.four back-affine u));
      queued_once = λ u. ground (
        arith,
        task-add_runnable_task back t v.four back-affine u,
        queued-add_runnable_task back t v.four back-affine u,
        v.queued_once u,
        not_queued,
      );
      on_cpu = λ u. ground (
        arith,
        task-add_runnable_task back t v.four back-affine u,
        current-add_runnable_task back t v.four back-affine u,
        v.on_one_cpu u,
        current_running,
      );
      here = ground (arith, thread-add_runnable_task back t c);
      stopped = ground (arith, task-add_runnable_task back t v.four back-affine t);
    }

  -- A running thread that yields, pauses or goes to sleep leaves its CPU without a panic, and the run
  -- lists and CPUs stay consistent with the states of the threads.
  pub leave-IsValid : Left (yield w c t) × Left (do_pause w c t) × Left (sleep w c t)
  unfolding yield do_pause sleep back
  leave-IsValid = (
    sched-Left lt (requeue-Leaving (record (w.task t) { ticks = 10; state = runnable }) refl refl),
    sched-Left lt (requeue-Leaving (record (w.task t) { state = runnable }) refl refl),
    sched-Left lt sleep-Leaving,
  )

-- `schedule` on a free CPU keeps the run lists and CPUs consistent with the states of the threads.
pub schedule-IsValid :
    {w : World} (c : ℕ) → IsValid w → c < 4 → (get_cpu w c).thread ≡ none → IsValid (schedule w c)
unfolding schedule
schedule-IsValid {w} c v lt free = elim (Option-cases (pick_next_task w.task (get_cpu w c).run)) [
  | inl e ↦ rw (e, schedule) v
  | inr (t, e) ↦
      let p = pick_next_task-some w.task (get_cpu w c).run t e in
      let on : Cpu = record { thread = some t; run = remove t (get_cpu w c).run } in
      let not_running : is_running (w.task t).state ≡ false = ground (arith, p.0) in
      rw (e, schedule)
        (record {
          four = omega (arith, v.four, length-set w.cpus c on);
          affine = λ u d q. v.affine u d (ground arith);
          queued_once = λ u. ground (
            arith,
            queued-set u w.cpus c on (omega (arith, v.four)),
            count-remove t u (get_cpu w c).run p.1,
            v.queued_once u,
            p.0,
          );
          on_one_cpu = λ u. ground (
            arith,
            current-set u w.cpus c on (omega (arith, v.four)),
            v.on_one_cpu u,
            not_running,
          );
        })
]

-- `sleep` and `wakeup_process` change the state of their own thread only.
pub state-sleep :
    (w w' : World) (c t u : ℕ)
    → sleep w c t ≡ some w'
    → (w'.task u).state ≡ (if u == t then sleeping else (w.task u).state)
unfolding sleep sched
state-sleep w w' c t u e = ground arith

pub state-wakeup_process :
    (w : World) (t u : ℕ)
    → ((wakeup_process w t).task u).state ≡ (if u == t then runnable else (w.task u).state)
unfolding wakeup_process add_runnable_task
state-wakeup_process w t u = ground arith

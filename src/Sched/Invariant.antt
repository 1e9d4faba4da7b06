-- ===== src/Sched/Invariant.antt =====
-- No thread of kernel/proc/sched.c is queued twice or on two CPUs, whatever the CPUs do.
use risc.Common.{
  ℕ, ◌+◌, ◌<◌, ◌≡◌, refl, Bool, true, false, Option, none, some, ◌∷◌, arith, ◌==◌, if◌then◌else◌,
  length, length-set, ℤ,
}
use risc.Sched.{
  runnable, World, set_state, get_cpu, is_runnable, is_running, choose_cpu, add_runnable_task,
  wakeup_process,
}
use risc.Sched.Count.{queued, current, queued-set, current-set, thread-set}

abbrev pub bit : Bool → ℕ
bit true = 1
bit false = 0

pub record IsValid (w : World) : Type 0 where
  pub four : length w.cpus ≡ 4
  pub affine : (t c : ℕ) → (w.task t).cpu_affinity ≡ some c → c < 4
  -- a thread stands in one run list if it can run, and in none otherwise
  pub queued_once : (t : ℕ) → queued t w.cpus ≡ bit (is_runnable (w.task t).state)
  -- a thread is on one CPU if it runs, and on none otherwise
  pub on_one_cpu : (t : ℕ) → current t w.cpus ≡ bit (is_running (w.task t).state)

pub choose_cpu-lt :
    (a : Option ℕ) (load : ℤ) → ((c : ℕ) → a ≡ some c → c < 4) → (choose_cpu a load).0 < 4
unfolding choose_cpu
choose_cpu-lt none load h = omega arith
choose_cpu-lt (some c) load h = h c refl

-- the counts after `add_runnable_task`
module _ (w : World) (t : ℕ) (four : length w.cpus ≡ 4)
    (affine : (u c : ℕ) → (w.task u).cpu_affinity ≡ some c → c < 4) where
  target : ℕ
  target = (choose_cpu (w.task t).cpu_affinity w.load_cpu_id).0

  target-lt : target < length w.cpus
  unfolding target
  target-lt = omega (arith, four, choose_cpu-lt (w.task t).cpu_affinity w.load_cpu_id (affine t))

  pub queued-add_runnable_task :
      (u : ℕ) → queued u (add_runnable_task w t).cpus ≡ queued u w.cpus + (if t == u then 1 else 0)
  unfolding add_runnable_task target
  queued-add_runnable_task u = omega (
    arith,
    queued-set u w.cpus target (record (get_cpu w target) { run = t ∷ (get_cpu w target).run })
        target-lt,
  )

  pub current-add_runnable_task :
      (u : ℕ) → current u (add_runnable_task w t).cpus ≡ current u w.cpus
  unfolding add_runnable_task target
  current-add_runnable_task u = omega (
    arith,
    current-set u w.cpus target (record (get_cpu w target) { run = t ∷ (get_cpu w target).run })
        target-lt,
  )

  pub four-add_runnable_task : length (add_runnable_task w t).cpus ≡ 4
  unfolding add_runnable_task target
  four-add_runnable_task = omega (
    arith,
    four,
    length-set w.cpus target (record (get_cpu w target) { run = t ∷ (get_cpu w target).run }),
  )

  pub task-add_runnable_task : (u : ℕ) → (add_runnable_task w t).task u ≡ w.task u
  unfolding add_runnable_task
  task-add_runnable_task u = refl

-- A thread that neither waits for a CPU nor has one may be woken.
pub wakeup_process-IsValid :
    {w : World} (t : ℕ)
    → IsValid w
    → is_runnable (w.task t).state ≡ false
    → is_running (w.task t).state ≡ false
    → IsValid (wakeup_process w t)
unfolding wakeup_process
wakeup_process-IsValid {w} t v a b =
    let w1 : World = set_state w t runnable in
    let aff : (u c : ℕ) → (w1.task u).cpu_affinity ≡ some c → c < 4 =
      λ u c e. v.affine u c (ground arith) in
    record {
      four = four-add_runnable_task w1 t v.four aff;
      affine = λ u c e. aff u c (ground (arith, task-add_runnable_task w1 t v.four aff u));
      queued_once = λ u. ground (
        arith,
        task-add_runnable_task w1 t v.four aff u,
        queued-add_runnable_task w1 t v.four aff u,
        v.queued_once u,
      );
      on_one_cpu = λ u. ground (
        arith,
        task-add_runnable_task w1 t v.four aff u,
        current-add_runnable_task w1 t v.four aff u,
        v.on_one_cpu u,
      );
    }

pub thread-add_runnable_task :
    (w : World) (t c : ℕ) → (get_cpu (add_runnable_task w t) c).thread ≡ (get_cpu w c).thread
unfolding add_runnable_task
thread-add_runnable_task w t c =
    let k : ℕ = (choose_cpu (w.task t).cpu_affinity w.load_cpu_id).0 in
    thread-set w.cpus k c (t ∷ (get_cpu w k).run)

-- ===== src/Sched/Overlap/Queue.antt =====
-- The parts of `add_runnable_task` of kernel/proc/sched.c keep a consistent state.
use risc.Common.{
  ℕ, ◌+◌, ◌<◌, ◌≡◌, inl, inr, true, false, Option, none, some, ◌∷◌, arith, ◌==◌, if◌then◌else◌,
  length, length-set, Bool-cases,
}
use risc.Sched.{runnable, Task, set_task, set_state, get_cpu, is_runnable, is_running, enqueue}
use risc.Sched.Count.{queued, current, queued-set, current-set, thread-set, holds-le-current}
use risc.Sched.Invariant.{choose_cpu-lt}
use risc.Sched.Switch.{running_not_runnable}
use risc.Sched.Overlap.{settled, marked, chosen, System, with_phase, choice, IsConsistent}

module _ {s : System} (v : IsConsistent s) where
  -- the marks of `wakes`, `yields` and `pauses`
  pub wakes-IsConsistent :
      (t : ℕ)
      → is_runnable (s.w.task t).state ≡ false
      → is_running (s.w.task t).state ≡ false
      → IsConsistent (with_phase s (set_state s.w t runnable) t (marked none))
  wakes-IsConsistent t a b = record {
    four = v.four;
    affine = λ u c e. v.affine u c (ground arith);
    queued_once = λ u. ground (arith, v.queued_once u);
    on_one_cpu = λ u. ground (arith, v.on_one_cpu u, v.can_run u);
    can_run = λ u e. ground (arith, v.can_run u);
    leaves_from = λ u d e. v.leaves_from u d (ground arith);
    goes_to = λ u c e. v.goes_to u c (ground arith);
  }

  pub current_running :
      (d t : ℕ)
      → (get_cpu s.w d).thread ≡ some t
      → s.phase t ≡ settled
      → (is_running (s.w.task t).state ≡ true) × (queued t s.w.cpus ≡ 0)
  current_running d t h p =
      let r : is_running (s.w.task t).state ≡ true =
        ground (arith, v.on_one_cpu t, holds-le-current t s.w.cpus d) in
      (r, ground (arith, v.queued_once t, running_not_runnable (s.w.task t).state r))

  pub marked-IsConsistent :
      (d t : ℕ) (now : Task)
      → d < 4
      → (get_cpu s.w d).thread ≡ some t
      → s.phase t ≡ settled
      → now.state ≡ runnable
      → now.cpu_affinity ≡ (s.w.task t).cpu_affinity
      → IsConsistent (with_phase s (set_task s.w t now) t (marked (some d)))
  marked-IsConsistent d t now lt h p can same =
      let r = current_running d t h p in
      record {
        four = v.four;
        affine = λ u c e. v.affine u c (ground arith);
        queued_once = λ u. ground (arith, v.queued_once u, r);
        on_one_cpu = λ u. ground (arith, v.on_one_cpu u, r);
        can_run = λ u e. ground (arith, v.can_run u);
        leaves_from = λ u e q. elim (Bool-cases (u == t)) [
          | inl x ↦ ground arith
          | inr x ↦ v.leaves_from u e (ground arith)
        ];
        goes_to = λ u c e. v.goes_to u c (ground arith);
      }

  pub chooses-IsConsistent :
      (t : ℕ) (l : Option ℕ)
      → s.phase t ≡ marked l
      → IsConsistent (
          with_phase s
            (record s.w { load_cpu_id = (choice s.w t).1 })
            t
            (chosen l (choice s.w t).0))
  chooses-IsConsistent t l p = record {
    four = v.four;
    affine = v.affine;
    queued_once = λ u. ground (arith, v.queued_once u);
    on_one_cpu = λ u. ground (arith, v.on_one_cpu u);
    can_run = λ u e. ground (arith, v.can_run u);
    leaves_from = λ u d e. v.leaves_from u d (ground arith);
    goes_to = λ u c e. elim (Bool-cases (u == t)) [
      | inl x ↦ ground (arith, choose_cpu-lt (s.w.task t).cpu_affinity s.w.load_cpu_id (v.affine t))
      | inr x ↦ v.goes_to u c (ground arith)
    ];
  }

  -- the counts once `t` is in the run list of `c`
  module _ (t c : ℕ) (lt : c < 4) where
    pub queued-enqueue :
        (u : ℕ) → queued u (enqueue s.w c t).cpus ≡ queued u s.w.cpus + (if t == u then 1 else 0)
    queued-enqueue u = omega (
      arith,
      queued-set u s.w.cpus c (record (get_cpu s.w c) { run = t ∷ (get_cpu s.w c).run })
          (omega (arith, v.four)),
    )

    pub current-enqueue : (u : ℕ) → current u (enqueue s.w c t).cpus ≡ current u s.w.cpus
    current-enqueue u = omega (
      arith,
      current-set u s.w.cpus c (record (get_cpu s.w c) { run = t ∷ (get_cpu s.w c).run })
          (omega (arith, v.four)),
    )

    pub length-enqueue : length (enqueue s.w c t).cpus ≡ 4
    length-enqueue = omega (
      arith,
      v.four,
      length-set s.w.cpus c (record (get_cpu s.w c) { run = t ∷ (get_cpu s.w c).run }),
    )

    pub thread-enqueue : (d : ℕ) → (get_cpu (enqueue s.w c t) d).thread ≡ (get_cpu s.w d).thread
    thread-enqueue d = thread-set s.w.cpus c d (t ∷ (get_cpu s.w c).run)

  pub queues-IsConsistent :
      (t c : ℕ)
      → s.phase t ≡ chosen none c
      → IsConsistent (with_phase s (enqueue s.w c t) t settled)
  queues-IsConsistent t c p =
      let lt = v.goes_to t c (ground arith) in
      record {
        four = length-enqueue t c lt;
        affine = v.affine;
        queued_once = λ u. ground (arith, v.queued_once u, v.can_run u, queued-enqueue t c lt u);
        on_one_cpu = λ u. ground (arith, v.on_one_cpu u, current-enqueue t c lt u);
        can_run = λ u e. v.can_run u (ground arith);
        leaves_from =
            λ u d e. ground (arith, v.leaves_from u d (ground arith), thread-enqueue t c lt d);
        goes_to = λ u d e. v.goes_to u d (ground arith);
      }

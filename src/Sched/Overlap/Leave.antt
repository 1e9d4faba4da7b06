-- ===== src/Sched/Overlap/Leave.antt =====
-- Threads that leave a CPU of kernel/proc/sched.c, and those that get one, keep a consistent state.
use risc.Common.{
  ℕ, ◌+◌, ◌<◌, ◌≡◌, inl, inr, true, false, none, some, arith, ◌==◌, if◌then◌else◌, length,
  length-set, Option-cases, Bool-cases, get_or-set_ne,
}
use risc.Sched.{
  sleeping, Cpu, World, idle_cpu, set_state, set_cpu, get_cpu, is_running, pick_next_task, enqueue,
  sched, remove, schedule,
}
use risc.Sched.Count.{
  queued, current, queued-set, current-set, count-le-queued, count-remove, pick_next_task-some,
}
use risc.Sched.Overlap.{settled, chosen, is_settled, System, with_phase, IsConsistent}
use risc.Sched.Overlap.Queue.{
  current_running, queued-enqueue, current-enqueue, length-enqueue, thread-enqueue,
}

-- what `sched` does to a thread that no longer runs
abbrev pub clear : World → ℕ → World
clear w d = set_cpu w d (record (get_cpu w d) { thread = none })

pub sched-clear :
    (w : World) (d t : ℕ) → is_running (w.task t).state ≡ false → sched w d t ≡ some (clear w d)
unfolding sched
sched-clear w d t e = rw e

module _ (w : World) (d : ℕ) (four : length w.cpus ≡ 4) (lt : d < 4) where
  queued-clear : (u : ℕ) → queued u (clear w d).cpus ≡ queued u w.cpus
  queued-clear u =
      omega (
        arith,
        queued-set u w.cpus d (record (get_cpu w d) { thread = none }) (omega (arith, four)),
      )

  current-clear :
      (u t : ℕ)
      → (get_cpu w d).thread ≡ some t
      → current u (clear w d).cpus + (if t == u then 1 else 0) ≡ current u w.cpus
  current-clear u t h = ground (
    arith,
    h,
    current-set u w.cpus d (record (get_cpu w d) { thread = none }) (omega (arith, four)),
  )

  length-clear : length (clear w d).cpus ≡ 4
  length-clear = omega (arith, four, length-set w.cpus d (record (get_cpu w d) { thread = none }))

  cpu-clear : (e : ℕ) → (d == e) ≡ false → get_cpu (clear w d) e ≡ get_cpu w e
  cpu-clear e ne =
      get_or-set_ne w.cpus d e (record (get_cpu w d) { thread = none }) idle_cpu (λ q. ground arith)

module _ {s : System} (v : IsConsistent s) where
  -- `sched` does not panic for a thread in the last part of `yield` or `do_pause`.
  pub sched_leaves :
      (t d c : ℕ)
      → s.phase t ≡ chosen (some d) c
      → sched (enqueue s.w c t) d t ≡ some (clear (enqueue s.w c t) d)
  sched_leaves t d c p = sched-clear (enqueue s.w c t) d t (ground (arith, v.can_run t))

  pub leaves-IsConsistent :
      (t d c : ℕ)
      → s.phase t ≡ chosen (some d) c
      → IsConsistent (with_phase s (clear (enqueue s.w c t) d) t settled)
  leaves-IsConsistent t d c p =
      let lt = v.goes_to t c (ground arith) in
      let from = v.leaves_from t d (ground arith) in
      let w1 : World = enqueue s.w c t in
      let four : length w1.cpus ≡ 4 = length-enqueue v t c lt in
      let on : (get_cpu w1 d).thread ≡ some t = ground (arith, from, thread-enqueue v t c lt d) in
      record {
        four = length-clear w1 d four from.0;
        affine = λ u e q. v.affine u e q;
        queued_once = λ u. ground (
          arith,
          v.queued_once u,
          v.can_run u,
          queued-clear w1 d four from.0 u,
          queued-enqueue v t c lt u,
        );
        on_one_cpu = λ u. ground (
          arith,
          v.on_one_cpu u,
          current-clear w1 d four from.0 u t on,
          current-enqueue v t c lt u,
        );
        can_run = λ u e. v.can_run u (ground arith);
        leaves_from = λ u e q.
            let x = v.leaves_from u e (ground arith) in
            elim (Bool-cases (d == e)) [
              | inl y ↦ absurd (ground (arith, x, from))
              | inr y ↦ ground (arith, x, cpu-clear w1 d four from.0 e y, thread-enqueue v t c lt e)
            ];
        goes_to = λ u e q. v.goes_to u e (ground arith);
      }

  pub sleeps-IsConsistent :
      (d t : ℕ)
      → d < 4
      → (get_cpu s.w d).thread ≡ some t
      → s.phase t ≡ settled
      → IsConsistent (record s { w = clear (set_state s.w t sleeping) d })
  sleeps-IsConsistent d t lt h p =
      let r = current_running v d t h p in
      let w1 : World = set_state s.w t sleeping in
      record {
        four = length-clear w1 d v.four lt;
        affine = λ u e q. v.affine u e (ground arith);
        queued_once = λ u. ground (arith, v.queued_once u, r, queued-clear w1 d v.four lt u);
        on_one_cpu = λ u. ground (arith, v.on_one_cpu u, r, current-clear w1 d v.four lt u t h);
        can_run = λ u e. ground (arith, v.can_run u);
        leaves_from = λ u e q.
            let x = v.leaves_from u e q in
            elim (Bool-cases (d == e)) [
              | inl y ↦ absurd (ground (arith, x, h))
              | inr y ↦ ground (arith, x, cpu-clear w1 d v.four lt e y)
            ];
        goes_to = v.goes_to;
      }

  pub dispatches-IsConsistent :
      (d : ℕ)
      → d < 4
      → (get_cpu s.w d).thread ≡ none
      → IsConsistent (record s { w = schedule s.w d })
  unfolding schedule
  dispatches-IsConsistent d lt free =
      elim (Option-cases (pick_next_task s.w.task (get_cpu s.w d).run)) [
        | inl e ↦ rw (e, schedule) v
        | inr (t, e) ↦
            let p = pick_next_task-some s.w.task (get_cpu s.w d).run t e in
            let on : Cpu = record { thread = some t; run = remove t (get_cpu s.w d).run } in
            let through : is_settled (s.phase t) ≡ true =
              ground (arith, p, v.queued_once t, count-le-queued t s.w.cpus d) in
            rw (e, schedule)
              (record {
                four = omega (arith, v.four, length-set s.w.cpus d on);
                affine = λ u c q. v.affine u c (ground arith);
                queued_once = λ u. ground (
                  arith,
                  queued-set u s.w.cpus d on (omega (arith, v.four)),
                  count-remove t u (get_cpu s.w d).run p.1,
                  v.queued_once u,
                  p.0,
                  through,
                );
                on_one_cpu = λ u. ground (
                  arith,
                  current-set u s.w.cpus d on (omega (arith, v.four)),
                  v.on_one_cpu u,
                  p.0,
                  free,
                );
                can_run = λ u q. ground (arith, v.can_run u, through);
                leaves_from = λ u c q.
                    let x = v.leaves_from u c q in
                    elim (Bool-cases (d == c)) [
                      | inl y ↦ absurd (ground (arith, x, free))
                      | inr y ↦
                          ground
                            (arith, x, get_or-set_ne s.w.cpus d c on idle_cpu (λ q. ground arith))
                    ];
                goes_to = v.goes_to;
              })
      ]

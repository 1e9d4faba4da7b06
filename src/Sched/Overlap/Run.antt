-- ===== src/Sched/Overlap/Run.antt =====
-- The runs of kernel/proc/sched.c in which calls overlap.
use risc.Common.{ℕ, ◌≡◌, refl, true, some, arith, is_some}
use mathlib.Core.Path.{subst}
use risc.Sched.{sleeping, runnable, World, set_state, add_runnable_task, enqueue, sched, sleep}
use risc.Sched.Overlap.{
  settled, chosen, System, with_phase, choice, Step, wakes, yields, pauses, chooses, queues, leaves,
  sleeps, dispatches, Reach, here, then_, IsConsistent,
}
use risc.Sched.Overlap.Queue.{
  wakes-IsConsistent, marked-IsConsistent, chooses-IsConsistent, queues-IsConsistent,
}
use risc.Sched.Overlap.Leave.{
  clear, sched-clear, sched_leaves, leaves-IsConsistent, sleeps-IsConsistent,
  dispatches-IsConsistent,
}

-- The calls of the other modules are these parts one after the other.
add_runnable_task_cut :
    (w : World) (t : ℕ)
    → add_runnable_task w t ≡ enqueue (record w { load_cpu_id = (choice w t).1 }) (choice w t).0 t
unfolding add_runnable_task
add_runnable_task_cut w t = refl

Step-IsConsistent : {s s1 : System} → Step s s1 → IsConsistent s → IsConsistent s1
unfolding sleep
Step-IsConsistent (wakes t a b) v = wakes-IsConsistent v t a b
Step-IsConsistent {s} (yields d t lt h p) v =
    marked-IsConsistent v d t (record (s.w.task t) { ticks = 10; state = runnable }) lt h p refl
      refl
Step-IsConsistent {s} (pauses d t lt h p) v =
    marked-IsConsistent v d t (record (s.w.task t) { state = runnable }) lt h p refl refl
Step-IsConsistent (chooses t l p) v = chooses-IsConsistent v t l p
Step-IsConsistent (queues t c p) v = queues-IsConsistent v t c p
Step-IsConsistent {s} (leaves t d c w' p e) v =
    let q : clear (enqueue s.w c t) d ≡ w' = ground (arith, sched_leaves v t d c p) in
    subst (λ w. IsConsistent (with_phase s w t settled)) q (leaves-IsConsistent v t d c p)
Step-IsConsistent {s} (sleeps d t w' lt h p e) v =
    let w1 : World = set_state s.w t sleeping in
    let q : clear w1 d ≡ w' = ground (arith, sched-clear w1 d t (ground arith)) in
    subst (λ w. IsConsistent (record s { w = w })) q (sleeps-IsConsistent v d t lt h p)
Step-IsConsistent (dispatches d lt free) v = dispatches-IsConsistent v d lt free

stays : {s s1 : System} → Reach s s1 → IsConsistent s → IsConsistent s1
stays here v = v
stays (then_ r st) v = Step-IsConsistent st (stays r v)

-- In every run in which each thread that is woken was neither runnable nor running (the code's own
-- assertion of it is commented out), from a consistent state, with calls of `wakeup_process`, `yield` and
-- `do_pause` overlapping, the state stays consistent: a runnable thread stands in exactly one run
-- list, once, except while its call has not put it there yet, when it stands in none; a thread that
-- runs or is about to leave is on exactly one CPU, and any other on none; and the assertion of `sched`
-- holds for what leaves.
pub Reach-IsConsistent :
    {s s1 : System}
    → Reach s s1
    → IsConsistent s
    → IsConsistent s1
      × ((t d c : ℕ)
          → s1.phase t ≡ chosen (some d) c
          → is_some (sched (enqueue s1.w c t) d t) ≡ true)
Reach-IsConsistent {s1 = s1} r v =
    let x : IsConsistent s1 = stays r v in (x, λ t d c p. ground (arith, sched_leaves x t d c p))

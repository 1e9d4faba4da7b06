-- ===== src/Sched/Tests.antt =====
-- The functions of kernel/proc/sched.c on four CPUs, and the theorems at that state.
use risc.Common.{
  ℕ, zero, suc, ◌<◌, ◌≡◌, refl, true, is_some, Option, some, none, List, [], ◌∷◌, ◌++◌, arith,
  negsuc,
}
use risc.Sched.{
  sleeping, runnable, enqueue, sched, set_state, set_task, Cpu, World, idle_cpu, get_cpu,
  wakeup_process, schedule, pick_next_task, choose_cpu, remove,
}
use risc.Sched.Invariant.{IsValid}
use risc.Sched.Order.{Reach, wake, dispatch, here, next}
use risc.Sched.Overlap
use risc.Sched.Overlap.{
  Phase, settled, marked, chosen, System, with_phase, choice, wakes, yields, chooses, queues,
  dispatches, then_, IsConsistent,
}
use risc.Sched.Overlap.Run.{Reach-IsConsistent}

abbrev cpus : List Cpu
cpus = idle_cpu ∷ idle_cpu ∷ idle_cpu ∷ idle_cpu ∷ []

-- every thread sleeps; thread 3 is bound to CPU 2, the others are dealt out in turn
abbrev bind : ℕ → Option ℕ
bind (suc (suc (suc zero))) = some 2
bind _ = none

abbrev asleep : World
asleep = record {
  task = λ t. record { state = sleeping; ticks = 10; cpu_affinity = bind t; cpu_id = 0 };
  load_cpu_id = negsuc 0;
  cpus = cpus;
}

bind-lt : (t c : ℕ) → bind t ≡ some c → c < 4
bind-lt (suc (suc (suc zero))) c e = ground arith
bind-lt _ c e = ground arith

asleep-IsValid : IsValid asleep
asleep-IsValid = record {
  four = refl;
  affine = λ t c e. bind-lt t c e;
  queued_once = λ t. refl;
  on_one_cpu = λ t. refl;
}

-- threads 3 and 5 are woken, the first on CPU 2 and the second on CPU 0, which takes it
abbrev busy : World
busy = schedule (wakeup_process (wakeup_process asleep 3) 5) 0

busy_cpus :
    busy.cpus
    ≡ record { thread = some 5; run = [] }
      ∷ idle_cpu
      ∷ record { thread = none; run = 3 ∷ [] }
      ∷ idle_cpu
      ∷ []
unfolding wakeup_process choose_cpu schedule pick_next_task remove
busy_cpus = refl

busy-Reach : Reach asleep busy
unfolding wakeup_process choose_cpu
busy-Reach =
    next (next (next here (wake 3 refl refl refl)) (wake 5 refl refl refl))
      (dispatch 0 (omega arith) refl refl)

busy_5 : (get_cpu busy 0).thread ≡ some 5
unfolding wakeup_process choose_cpu schedule pick_next_task remove
busy_5 = refl

busy_3 : (get_cpu busy 2).run ≡ [] ++ (3 ∷ [])
unfolding wakeup_process choose_cpu schedule pick_next_task remove
busy_3 = refl

-- The wake-ups of the threads 3 and 5 overlap, and thread 5 gets CPU 0.
abbrev woken : System
woken =
    let s0 : System = record { w = asleep; phase = λ t. settled } in
    let s1 = with_phase s0 (set_state s0.w 3 runnable) 3 (marked none) in
    let s2 = with_phase s1 (set_state s1.w 5 runnable) 5 (marked none) in
    let s3 =
      with_phase s2 (record s2.w { load_cpu_id = (choice s2.w 5).1 }) 5
        (chosen none (choice s2.w 5).0) in
    let s4 =
      with_phase s3 (record s3.w { load_cpu_id = (choice s3.w 3).1 }) 3
        (chosen none (choice s3.w 3).0) in
    let s5 = with_phase s4 (enqueue s4.w 2 3) 3 settled in
    let s6 = with_phase s5 (enqueue s5.w 0 5) 5 settled in record s6 { w = schedule s6.w 0 }

-- Then it yields, and has chosen CPU 1.
abbrev yielding : System
yielding =
    let s1 =
      with_phase woken
        (set_task woken.w 5 (record (woken.w.task 5) { ticks = 10; state = runnable })) 5
        (marked (some 0)) in
    with_phase s1 (record s1.w { load_cpu_id = (choice s1.w 5).1 }) 5
      (chosen (some 0) (choice s1.w 5).0)

yielding-Reach : Overlap.Reach (record { w = asleep; phase = λ t. settled }) yielding
unfolding choose_cpu schedule pick_next_task remove
yielding-Reach =
    then_
      (then_
        (then_
          (then_
            (then_
              (then_
                (then_ (then_ (then_ Overlap.here (wakes 3 refl refl)) (wakes 5 refl refl))
                  (chooses 5 none refl))
                (chooses 3 none refl))
              (queues 3 2 refl))
            (queues 5 0 refl))
          (dispatches 0 (omega arith) refl))
        (yields 0 5 (omega arith) refl refl))
      (chooses 5 (some 0) refl)

asleep-IsConsistent : IsConsistent (record { w = asleep; phase = λ t. settled })
asleep-IsConsistent = record {
  four = refl;
  affine = λ t c e. bind-lt t c e;
  queued_once = λ t. refl;
  on_one_cpu = λ t. refl;
  can_run = λ t e. absurd (cc);
  leaves_from = λ t d e. absurd (cc);
  goes_to = λ t c e. absurd (cc);
}

Reach-IsConsistent_example :
    IsConsistent yielding
    × ((t d c : ℕ)
        → yielding.phase t ≡ chosen (some d) c
        → is_some (sched (enqueue yielding.w c t) d t) ≡ true)
Reach-IsConsistent_example = Reach-IsConsistent yielding-Reach asleep-IsConsistent

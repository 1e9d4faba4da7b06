-- ===== src/Sched/Order.antt =====
-- The runs of kernel/proc/sched.c in which calls follow each other without overlapping, and the order
-- in which a CPU takes its threads.
use risc.Common.{
  ℕ, ◌+◌, ◌≤◌, ◌<◌, ◌≡◌, inl, inr, true, false, Option, none, some, List, [], ◌∷◌, ◌++◌, arith,
  Bool-cases, ltb, get_or-set_self,
}
use mathlib.Core.Path.{subst}
use risc.Sched.{
  running, Cpu, World, idle_cpu, set_task, set_cpu, get_cpu, is_runnable, is_running,
  pick_next_task, wakeup_process, yield, do_pause, sleep, remove, schedule,
}
use risc.Sched.Count.{
  count, queued, count-le-queued, holds-le-current, holds_two-le-current, count-append, remove-snoc,
  pick_next_task-snoc,
}
use risc.Sched.Invariant.{IsValid, wakeup_process-IsValid}
use risc.Sched.Switch.{running_not_runnable, leave-IsValid, schedule-IsValid}

-- what the CPUs and the wakers of sleeping threads may do
pub data Step (w w' : World) : Type 0 where
  wake :
      (t : ℕ)
      → is_runnable (w.task t).state ≡ false
      → is_running (w.task t).state ≡ false
      → w' ≡ wakeup_process w t
      → Step w w'
  yields : (c t : ℕ) → c < 4 → (get_cpu w c).thread ≡ some t → yield w c t ≡ some w' → Step w w'
  pauses : (c t : ℕ) → c < 4 → (get_cpu w c).thread ≡ some t → do_pause w c t ≡ some w' → Step w w'
  sleeps : (c t : ℕ) → c < 4 → (get_cpu w c).thread ≡ some t → sleep w c t ≡ some w' → Step w w'
  dispatch : (c : ℕ) → c < 4 → (get_cpu w c).thread ≡ none → w' ≡ schedule w c → Step w w'

pub data Reach (s : World) : World → Type 0 where
  here : Reach s s
  next : {t u : World} → Reach s t → Step t u → Reach s u

same_world : {o : Option World} {u w : World} → o ≡ some u → IsValid u → o ≡ some w → IsValid w
same_world {u = u} {w} p v q = let e : u ≡ w = ground arith in subst IsValid e v

pub Step-IsValid : {w w' : World} → Step w w' → IsValid w → IsValid w'
Step-IsValid (wake t a b e) v = rw e (wakeup_process-IsValid t v a b)
Step-IsValid (yields c t lt h e) v = let l = (leave-IsValid v lt h).0 in same_world l.1 l.2 e
Step-IsValid (pauses c t lt h e) v = let l = (leave-IsValid v lt h).1 in same_world l.1 l.2 e
Step-IsValid (sleeps c t lt h e) v = let l = (leave-IsValid v lt h).2 in same_world l.1 l.2 e
Step-IsValid (dispatch c lt h e) v = rw e (schedule-IsValid c v lt h)

-- In every run from a consistent state, the run lists and CPUs stay consistent: a thread that can run
-- stands in exactly one run list, once; one that runs is on exactly one CPU; any other is nowhere.
pub Reach-IsValid : {w w' : World} → Reach w w' → IsValid w → IsValid w'
Reach-IsValid here v = v
Reach-IsValid (next r s) v = Step-IsValid s (Reach-IsValid r v)

-- In every run from a consistent state, no thread is on two CPUs, and none is both on a CPU and in a
-- run list.
pub one_place :
    {w w' : World} (c d t : ℕ)
    → IsValid w
    → Reach w w'
    → (get_cpu w' c).thread ≡ some t
    → ((get_cpu w' d).thread ≡ some t → c ≡ d) × (count t (get_cpu w' d).run ≡ 0)
one_place {w' = w'} c d t v r h =
    let x : IsValid w' = Reach-IsValid r v in
    let runs : is_running (w'.task t).state ≡ true =
      ground (arith, x.on_one_cpu t, holds-le-current t w'.cpus c) in
    (
      (λ k. elim (Bool-cases (ltb c d)) [
        | inl p ↦ absurd (ground (arith, x.on_one_cpu t, holds_two-le-current t w'.cpus c d))
        | inr p ↦ elim (Bool-cases (ltb d c)) [
          | inl q ↦ absurd (ground (arith, x.on_one_cpu t, holds_two-le-current t w'.cpus d c))
          | inr q ↦ ground arith
        ]
      ]),
      ground (
        arith,
        x.queued_once t,
        running_not_runnable (w'.task t).state runs,
        count-le-queued t w'.cpus d,
      ),
    )

module _ {w : World} (c t : ℕ) (us : List ℕ) (v : IsValid w) (lt : c < 4)
    (runs : (get_cpu w c).run ≡ us ++ (t ∷ [])) where
  counts : (count t us ≡ 0) × (is_runnable (w.task t).state ≡ true)
  counts =
      let q : count t us + 1 ≤ queued t w.cpus =
        ground (arith, count-le-queued t w.cpus c, count-append t us (t ∷ [])) in
      (ground (arith, v.queued_once t), ground (arith, v.queued_once t))

  -- The thread at the tail of a run list, the one queued longest, is the next on its CPU, and the
  -- others keep their places.
  pub schedule-oldest :
      (get_cpu (schedule w c) c ≡ record { thread = some t; run = us })
      × (((schedule w c).task t).state ≡ running)
      × (((schedule w c).task t).cpu_id ≡ c)
  unfolding schedule
  schedule-oldest =
      let on : Cpu = record { thread = some t; run = us } in
      let p : pick_next_task w.task (get_cpu w c).run ≡ some t =
        rw runs (pick_next_task-snoc w.task us t counts.1) in
      let q : remove t (get_cpu w c).run ≡ us = rw runs (remove-snoc t us counts.0) in
      let after : World =
        set_cpu (set_task w t (record (w.task t) { cpu_id = c; state = running })) c on in
      let e : schedule w c ≡ after = rw (p, schedule) (rw q) in
      rw e
        (get_or-set_self w.cpus c on idle_cpu (omega (arith, v.four)), ground arith, ground arith)

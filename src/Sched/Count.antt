-- ===== src/Sched/Count.antt =====
-- How often a thread stands in the run lists of kernel/proc/sched.c, and on how many CPUs it is.
use risc.Common.{
  ℕ, zero, suc, ◌+◌, ◌-◌, ◌≤◌, ◌<◌, ◌≡◌, refl, true, Option, none, some, List, [], ◌∷◌, ◌++◌, arith,
  ◌==◌, if◌then◌else◌, get_or, set, length, Option-cases, inl, inr,
}
use risc.Sched.{Task, Cpu, idle_cpu, is_runnable, pick_next_task, remove}

abbrev pub count : ℕ → List ℕ → ℕ
count t [] = 0
count t (u ∷ us) = (if u == t then 1 else 0) + count t us

abbrev pub holds : ℕ → Option ℕ → ℕ
holds t none = 0
holds t (some u) = if u == t then 1 else 0

abbrev pub queued : ℕ → List Cpu → ℕ
queued t [] = 0
queued t (c ∷ cs) = count t c.run + queued t cs

abbrev pub current : ℕ → List Cpu → ℕ
current t [] = 0
current t (c ∷ cs) = holds t c.thread + current t cs

pub queued-set :
    (t : ℕ) (cs : List Cpu) (c : ℕ) (v : Cpu)
    → c < length cs
    → queued t (set cs c v) + count t (get_or cs c idle_cpu).run ≡ queued t cs + count t v.run
queued-set t [] c v h = absurd (omega arith)
queued-set t (x ∷ cs) zero v h = omega arith
queued-set t (x ∷ cs) (suc c) v h = omega (arith, queued-set t cs c v (omega arith))

pub current-set :
    (t : ℕ) (cs : List Cpu) (c : ℕ) (v : Cpu)
    → c < length cs
    → current t (set cs c v) + holds t (get_or cs c idle_cpu).thread
      ≡ current t cs + holds t v.thread
current-set t [] c v h = absurd (omega arith)
current-set t (x ∷ cs) zero v h = omega arith
current-set t (x ∷ cs) (suc c) v h = omega (arith, current-set t cs c v (omega arith))

pub count-le-queued :
    (t : ℕ) (cs : List Cpu) (c : ℕ) → count t (get_or cs c idle_cpu).run ≤ queued t cs
count-le-queued t [] c = omega arith
count-le-queued t (x ∷ cs) zero = omega arith
count-le-queued t (x ∷ cs) (suc c) = omega (arith, count-le-queued t cs c)

pub holds-le-current :
    (t : ℕ) (cs : List Cpu) (c : ℕ) → holds t (get_or cs c idle_cpu).thread ≤ current t cs
holds-le-current t [] c = omega arith
holds-le-current t (x ∷ cs) zero = omega arith
holds-le-current t (x ∷ cs) (suc c) = omega (arith, holds-le-current t cs c)

pub holds_two-le-current :
    (t : ℕ) (cs : List Cpu) (c d : ℕ)
    → c < d
    → holds t (get_or cs c idle_cpu).thread + holds t (get_or cs d idle_cpu).thread ≤ current t cs
holds_two-le-current t [] c d h = omega arith
holds_two-le-current t (x ∷ cs) c zero h = absurd (omega arith)
holds_two-le-current t (x ∷ cs) zero (suc d) h = omega (arith, holds-le-current t cs d)
holds_two-le-current t (x ∷ cs) (suc c) (suc d) h =
    omega (arith, holds_two-le-current t cs c d (omega arith))

pub count-remove :
    (t u : ℕ) (us : List ℕ)
    → 0 < count t us
    → count u (remove t us) + (if t == u then 1 else 0) ≡ count u us
unfolding remove
count-remove t u [] h = absurd (omega arith)
count-remove t u (x ∷ us) h = ground (arith, count-remove t u us)

-- `remove` takes one occurrence away, if there is one.
pub count_without :
    (e d : ℕ) (es : List ℕ) → count d (remove e es) ≡ count d es - (if e == d then 1 else 0)
unfolding remove
count_without e d [] = ground arith
count_without e d (x ∷ es) = ground (arith, count_without e d es, count_without e e es)

-- what `pick_next_task` found
pub pick_next_task-some :
    (task : ℕ → Task) (us : List ℕ) (t : ℕ)
    → pick_next_task task us ≡ some t
    → (is_runnable (task t).state ≡ true) × (0 < count t us)
unfolding pick_next_task
pick_next_task-some task [] t h = absurd (cc)
pick_next_task-some task (x ∷ us) t h = elim (Option-cases (pick_next_task task us)) [
  | inl e ↦ ground arith
  | inr (u, e) ↦ ground (arith, pick_next_task-some task us u e)
]

pub thread-set :
    (cs : List Cpu) (k c : ℕ) (us : List ℕ)
    → (get_or (set cs k (record (get_or cs k idle_cpu) { run = us })) c idle_cpu).thread
      ≡ (get_or cs c idle_cpu).thread
thread-set [] k c us = refl
thread-set (x ∷ cs) zero zero us = refl
thread-set (x ∷ cs) zero (suc c) us = refl
thread-set (x ∷ cs) (suc k) zero us = refl
thread-set (x ∷ cs) (suc k) (suc c) us = thread-set cs k c us

pub count-append : (t : ℕ) (us vs : List ℕ) → count t (us ++ vs) ≡ count t us + count t vs
count-append t [] vs = omega arith
count-append t (u ∷ us) vs = omega (arith, count-append t us vs)

pub remove-snoc : (t : ℕ) (us : List ℕ) → count t us ≡ 0 → remove t (us ++ (t ∷ [])) ≡ us
unfolding remove
remove-snoc t [] h = ground arith
remove-snoc t (u ∷ us) h = ground (arith, remove-snoc t us)

pub pick_next_task-snoc :
    (task : ℕ → Task) (us : List ℕ) (t : ℕ)
    → is_runnable (task t).state ≡ true
    → pick_next_task task (us ++ (t ∷ [])) ≡ some t
unfolding pick_next_task
pick_next_task-snoc task [] t h = ground arith
pick_next_task-snoc task (u ∷ us) t h = rw (pick_next_task-snoc task us t h)

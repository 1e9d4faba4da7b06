-- ===== src/Locks/Semaphore/System.antt =====
-- The threads that use a semaphore of kernel/locks/semaphore.c, on the CPUs of kernel/proc/sched.c.
use mathlib.Core.Path.{subst}
use risc.Common.{
  ℕ, ◌<◌, ◌≡◌, inl, inr, Bool, true, false, Option, some, List, [], ◌∷◌, ◌++◌, arith, ◌==◌, ==_iff,
  Bool-cases, is_nonpos,
}
use risc.ListHead.Chain.{has, Distinct}
use risc.ListHead.Ops.{Distinct-snoc}
use risc.Fifo.Queue
use risc.Sched.{sleeping, World, get_cpu, is_running, wakeup_process, sleep}
use risc.Sched.Invariant
use risc.Sched.Invariant.{wakeup_process-IsValid}
use risc.Sched.Switch.{Left, leave-IsValid, state-sleep, state-wakeup_process, current_running}
use risc.Sched.Order
use risc.Sched.Order.{Step-IsValid}
use risc.Locks.Semaphore.{Semaphore, down, wake, sem_wait, sem_signal}
use risc.Locks.Semaphore.Waiters.{IsCounted, Lowered, down-Lowered, Raised, up-Raised}

pub record System : Type 0 where
  pub sem : Semaphore
  pub world : World

-- every thread of the list sleeps
abbrev pub Asleep : World → List ℕ → Type 0
Asleep w [] = Unit
Asleep w (t ∷ ts) = ((w.task t).state ≡ sleeping) × Asleep w ts

pub record IsValid (s : System) : Type 0 where
  pub counted : IsCounted s.sem
  pub world : Invariant.IsValid s.world
  pub asleep : Asleep s.world s.sem.waiters
  pub distinct : Distinct s.sem.waiters

-- A thread on a CPU waits or signals, or the CPUs do something else that wakes no waiter of this
-- semaphore.
pub data Step (s s' : System) : Type 0 where
  waits :
      (c t : ℕ) (sleeps : Bool)
      → c < 4
      → (get_cpu s.world c).thread ≡ some t
      → sem_wait s.sem s.world c t ≡ some (s'.sem, s'.world, sleeps)
      → Step s s'
  signals : sem_signal s.sem s.world ≡ some (s'.sem, s'.world) → Step s s'
  others : Order.Step s.world s'.world → s'.sem ≡ s.sem → Asleep s'.world s.sem.waiters → Step s s'

Asleep-has :
    (w : World) (t : ℕ) (ts : List ℕ) → Asleep w ts → has t ts ≡ true → (w.task t).state ≡ sleeping
Asleep-has w t [] a h = absurd (cc)
Asleep-has w t (u ∷ ts) a h = elim (Bool-cases (t == u)) [
  | inl e ↦ rw ((==_iff t u).0 e) a.0
  | inr e ↦ Asleep-has w t ts a.1 (ground arith)
]

-- changes of other threads leave sleepers asleep
Asleep-same :
    (w w' : World) (ts : List ℕ)
    → ((t : ℕ) → has t ts ≡ true → (w.task t).state ≡ sleeping → (w'.task t).state ≡ sleeping)
    → Asleep w ts
    → Asleep w' ts
Asleep-same w w' [] h a = tt
Asleep-same w w' (t ∷ ts) h a =
    (h t (ground arith) a.0, Asleep-same w w' ts (λ u m. h u (ground arith)) a.1)

Asleep-snoc :
    (w : World) (ts : List ℕ) (t : ℕ)
    → Asleep w ts
    → (w.task t).state ≡ sleeping
    → Asleep w (ts ++ (t ∷ []))
Asleep-snoc w [] t a e = (e, tt)
Asleep-snoc w (u ∷ ts) t a e = (a.0, Asleep-snoc w ts t a.1 e)

-- `o` returns, and what it returns leaves the system consistent
abbrev pub Waits : System → ℕ → ℕ → Type 0
Waits s c t =
    (s' : System) × (sem_wait s.sem s.world c t ≡ some (s'.sem, s'.world, is_nonpos s.sem.value))
    × IsValid s'

abbrev pub Signals : System → Type 0
Signals s = (s' : System) × (sem_signal s.sem s.world ≡ some (s'.sem, s'.world)) × IsValid s'

module _ {s : System} (v : IsValid s) where
  not_waiting : (t : ℕ) → is_running (s.world.task t).state ≡ true → has t s.sem.waiters ≡ false
  not_waiting t runs = elim (Bool-cases (has t s.sem.waiters)) [
    | inl e ↦ absurd (ground (arith, Asleep-has s.world t s.sem.waiters v.asleep e))
    | inr e ↦ e
  ]

  module _ (c t : ℕ) (lt : c < 4) (on : (get_cpu s.world c).thread ≡ some t) where
    d : Lowered s.sem t (down s.sem t)
    d = down-Lowered s.sem t v.counted

    out : has t s.sem.waiters ≡ false
    out = not_waiting t (current_running v.world lt on)

    -- `sem_wait` by a running thread never panics; the thread sleeps exactly if no permit was left.
    pub sem_wait-Waits : Waits s c t
    unfolding sem_wait
    sem_wait-Waits = elim (Bool-cases (down s.sem t).1) [
      | inl e ↦
          let l : Left (sleep s.world c t) = (leave-IsValid v.world lt on).2 in
          let q : (down s.sem t).0.waiters ≡ Queue.push s.sem.waiters t = ground (arith, d.queue) in
          let kept : Asleep l.0 s.sem.waiters =
            Asleep-same s.world l.0 s.sem.waiters
              (λ u m a. ground (arith, state-sleep s.world l.0 c t u l.1)) v.asleep in
          (
            record { sem = (down s.sem t).0; world = l.0 },
            ground (arith, d.sleeps, l.1),
            record {
              counted = d.counted;
              world = l.2;
              asleep = rw q (
                  Asleep-snoc l.0 s.sem.waiters t kept
                    (ground (arith, state-sleep s.world l.0 c t t l.1)));
              distinct = rw q (Distinct-snoc s.sem.waiters t v.distinct out);
            },
          )
      | inr e ↦
          let q : (down s.sem t).0.waiters ≡ s.sem.waiters = ground (arith, d.queue) in
          (
            record { sem = (down s.sem t).0; world = s.world },
            ground (arith, d.sleeps),
            record {
              counted = d.counted;
              world = v.world;
              asleep = rw q v.asleep;
              distinct = rw q v.distinct;
            },
          )
    ]

  -- the state after a wake-up
  wake-IsValid :
      (sem : Semaphore) (q : Queue.Queue) (woken : Option ℕ)
      → IsCounted sem
      → woken ≡ (Queue.pop q).0
      → sem.waiters ≡ (Queue.pop q).1
      → Asleep s.world q
      → Distinct q
      → IsValid (record { sem = sem; world = wake s.world woken })
  wake-IsValid sem [] woken k a b z d =
      rw a (record { counted = k; world = v.world; asleep = rw b tt; distinct = rw b tt })
  wake-IsValid sem (t ∷ q) woken k a b z d = rw a (record {
    counted = k;
    world = wakeup_process-IsValid t v.world (rw z.0) (rw z.0);
    asleep = rw b (
        Asleep-same s.world (wakeup_process s.world t) q
          (λ u m e. ground (arith, state-wakeup_process s.world t u, d.0)) z.1);
    distinct = rw b d.1;
  })

  -- `sem_signal` never panics, and leaves the system consistent.
  pub sem_signal-Signals : Signals s
  unfolding sem_signal
  sem_signal-Signals =
      let r : Raised s.sem = up-Raised s.sem v.counted in
      (
        record { sem = r.after; world = wake s.world r.woken },
        ground (arith, r.returns),
        wake-IsValid r.after s.sem.waiters r.woken r.counted r.first r.rest v.asleep v.distinct,
      )

same_after_wait :
    {o : Option (Semaphore × World × Bool)} {a b : System} {x y : Bool}
    → o ≡ some (a.sem, a.world, x)
    → IsValid a
    → o ≡ some (b.sem, b.world, y)
    → IsValid b
same_after_wait {a = a} {b} p v q = let e : a ≡ b = ground arith in subst IsValid e v

same_after_signal :
    {o : Option (Semaphore × World)} {a b : System}
    → o ≡ some (a.sem, a.world)
    → IsValid a
    → o ≡ some (b.sem, b.world)
    → IsValid b
same_after_signal {a = a} {b} p v q = let e : a ≡ b = ground arith in subst IsValid e v

semaphore_step-IsValid : {s s' : System} → Step s s' → IsValid s → IsValid s'
semaphore_step-IsValid (waits c t b lt on e) v =
    let r = sem_wait-Waits v c t lt on in same_after_wait r.1 r.2 e
semaphore_step-IsValid (signals e) v = let r = sem_signal-Signals v in same_after_signal r.1 r.2 e
semaphore_step-IsValid {s} {s'} (others st e a) v = record {
  counted = rw e v.counted;
  world = Step-IsValid st v.world;
  asleep = rw e a;
  distinct = rw e v.distinct;
}

pub data Run (s : System) : System → Type 0 where
  start : Run s s
  then_ : {t u : System} → Run s t → Step t u → Run s u

-- In every run of threads that wait and signal, a negative value counts the queued threads, all of
-- them asleep and none queued twice, and the scheduler's own state stays consistent.
pub semaphore_run-IsValid : {s s' : System} → Run s s' → IsValid s → IsValid s'
semaphore_run-IsValid start v = v
semaphore_run-IsValid (then_ r st) v = semaphore_step-IsValid st (semaphore_run-IsValid r v)

-- ===== src/Locks/Mutex/Exclusion.antt =====
-- Any number of threads that lock and unlock a mutex of kernel/locks/mutex.c, interleaved.
use risc.Common.{
  ℕ, suc, ◌+◌, ◌≤◌, ◌≡◌, ◌↔◌, ◌∙◌, refl, true, false, Option, none, some, List, [], ◌∷◌, ◌++◌,
  arith, if◌then◌else◌, is_some, length, length-append, ap, pos_part,
}
use risc.Fifo.Queue
use risc.Locks.Semaphore.{down, sem_init}
use risc.Locks.Semaphore.Waiters.{IsCounted, Lowered, down-Lowered, Raised, up-Raised}
use risc.Locks.Mutex.{Mutex, mutex_init, lock_start, lock_end, mutex_unlock, mutex_is_hold}

-- `entering`: the threads that have got the semaphore's permit and have not set the fields yet;
-- `inside`: those that have returned from `mutex_lock`
pub record System : Type 0 where
  pub mutex : Mutex
  pub entering : List ℕ
  pub inside : List ℕ

abbrev pub started : System
started = record { mutex = mutex_init; entering = []; inside = [] }

abbrev granted : Option ℕ → List ℕ
granted none = []
granted (some t) = t ∷ []

-- Threads lock as they like; a thread unlocks only what it has locked.
pub data Step (s s' : System) : Type 0 where
  lock :
      (t : ℕ)
      → s' ≡ record {
        mutex = (lock_start s.mutex t).0;
        entering = (if (lock_start s.mutex t).1 then s.entering else t ∷ s.entering);
        inside = s.inside;
      }
      → Step s s'
  get :
      (t : ℕ) (before after : List ℕ)
      → s.entering ≡ before ++ (t ∷ after)
      → s'
        ≡ record { mutex = lock_end s.mutex t; entering = before ++ after; inside = t ∷ s.inside }
      → Step s s'
  unlock :
      (t : ℕ) (before after : List ℕ) (m : Mutex) (woken : Option ℕ)
      → s.inside ≡ before ++ (t ∷ after)
      → mutex_unlock s.mutex ≡ some (m, woken)
      → s' ≡ record { mutex = m; entering = granted woken ++ s.entering; inside = before ++ after }
      → Step s s'

-- what the fields of the mutex say
abbrev Held : Mutex → List ℕ → Type 0
Held m [] = m.thread ≡ none
Held m (t ∷ ts) = (m.locked ≡ true) × (m.thread ≡ some t)

pub record IsValid (s : System) : Type 0 where
  pub counted : IsCounted s.mutex.sem
  pub one_permit : length s.entering + length s.inside + pos_part s.mutex.sem.value ≡ 1
  pub held : Held s.mutex s.inside

length-insert :
    (xs : List ℕ) (t : ℕ) (ys : List ℕ) → length (xs ++ (t ∷ ys)) ≡ suc (length (xs ++ ys))
length-insert [] t ys = refl
length-insert (x ∷ xs) t ys = omega (arith, length-insert xs t ys)

nil_of_length : (xs : List ℕ) → length xs ≡ 0 → xs ≡ []
nil_of_length [] h = refl
nil_of_length (x ∷ xs) h = absurd (omega arith)

lock-IsValid :
    {s : System} (t : ℕ)
    → IsValid s
    → IsValid (record {
      mutex = (lock_start s.mutex t).0;
      entering = (if (lock_start s.mutex t).1 then s.entering else t ∷ s.entering);
      inside = s.inside;
    })
unfolding lock_start
lock-IsValid {s} t v =
    let d : Lowered s.mutex.sem t (down s.mutex.sem t) = down-Lowered s.mutex.sem t v.counted in
    record {
      counted = d.counted;
      one_permit = ground (arith, d.permits, v.one_permit);
      held = v.held;
    }

get-IsValid :
    {s : System} (t : ℕ) (before after : List ℕ)
    → s.entering ≡ before ++ (t ∷ after)
    → IsValid s
    → IsValid
        (record { mutex = lock_end s.mutex t; entering = before ++ after; inside = t ∷ s.inside })
unfolding lock_end
get-IsValid {s} t before after e v = record {
  counted = v.counted;
  one_permit = omega (arith, v.one_permit, length-insert before t after, ap length e);
  held = (refl, refl);
}

-- `mutex_unlock` never panics while the semaphore's count is right
record Unlocked (m : Mutex) : Type 0 where
  after : Mutex
  woken : Option ℕ
  returns : mutex_unlock m ≡ some (after, woken)
  thread : after.thread ≡ none
  counted : IsCounted after.sem
  first : woken ≡ (Queue.pop m.sem.waiters).0
  rest : after.sem.waiters ≡ (Queue.pop m.sem.waiters).1
  permits : pos_part after.sem.value + length (granted woken) ≡ pos_part m.sem.value + 1

length-granted : (o : Option ℕ) → length (granted o) ≡ (if is_some o then 1 else 0)
length-granted none = refl
length-granted (some t) = refl

mutex_unlock-Unlocked : (m : Mutex) → IsCounted m.sem → Unlocked m
unfolding mutex_unlock
mutex_unlock-Unlocked m v =
    let r : Raised m.sem = up-Raised m.sem v in
    record {
      after = record { locked = false; sem = r.after; thread = none };
      woken = r.woken;
      returns = ground (arith, r.returns);
      thread = refl;
      counted = r.counted;
      first = r.first;
      rest = r.rest;
      permits = omega (arith, r.permits, length-granted r.woken);
    }

unlock-IsValid :
    {s : System} (t : ℕ) (before after : List ℕ) (m : Mutex) (woken : Option ℕ)
    → s.inside ≡ before ++ (t ∷ after)
    → mutex_unlock s.mutex ≡ some (m, woken)
    → IsValid s
    → IsValid
        (record { mutex = m; entering = granted woken ++ s.entering; inside = before ++ after })
unlock-IsValid {s} t before after m woken e u v =
    let x : Unlocked s.mutex = mutex_unlock-Unlocked s.mutex v.counted in
    let same_m : x.after ≡ m = ground (arith, x.returns) in
    let same_w : x.woken ≡ woken = ground (arith, x.returns) in
    let alone : before ++ after ≡ [] =
      nil_of_length (before ++ after)
        (omega (arith, v.one_permit, length-insert before t after, ap length e)) in
    rw (← same_m, ← same_w, alone)
      (record {
        counted = x.counted;
        one_permit = omega (
          arith,
          x.permits,
          v.one_permit,
          length-append (granted x.woken) s.entering,
          length-insert before t after,
          ap length e,
          ap length alone,
        );
        held = x.thread;
      })

mutex_step-IsValid : {s s' : System} → Step s s' → IsValid s → IsValid s'
mutex_step-IsValid (lock t e) v = rw e (lock-IsValid t v)
mutex_step-IsValid (get t before after p e) v = rw e (get-IsValid t before after p v)
mutex_step-IsValid (unlock t before after m woken p u e) v =
    rw e (unlock-IsValid t before after m woken p u v)

pub data Run (s : System) : System → Type 0 where
  start : Run s s
  then_ : {t u : System} → Run s t → Step t u → Run s u

started-IsValid : IsValid started
unfolding mutex_init sem_init
started-IsValid = record { counted = refl; one_permit = refl; held = refl }

mutex_run-IsValid : {s : System} → Run started s → IsValid s
mutex_run-IsValid start = started-IsValid
mutex_run-IsValid (then_ r st) = mutex_step-IsValid st (mutex_run-IsValid r)

hold_iff :
    (m : Mutex) (ts : List ℕ) (t : ℕ)
    → length ts ≤ 1
    → Held m ts
    → (mutex_is_hold m t ≡ true) ↔ (ts ≡ t ∷ [])
unfolding mutex_is_hold
hold_iff m [] t l h = (ground arith, ground arith)
hold_iff m (u ∷ []) t l h = (ground arith, ground arith)
hold_iff m (u ∷ x ∷ ts) t l h = absurd (omega arith)

-- From a fresh mutex, in any interleaving of threads that unlock only what they have locked, at most
-- one thread is between `mutex_lock` and `mutex_unlock`, and `mutex_is_hold` answers true exactly to
-- that thread.
pub mutual_exclusion :
    {s : System}
    → Run started s
    → (length s.entering + length s.inside ≤ 1)
      × ((t : ℕ) → (mutex_is_hold s.mutex t ≡ true) ↔ (s.inside ≡ t ∷ []))
mutual_exclusion {s} r =
    let v : IsValid s = mutex_run-IsValid r in
    (
      omega (arith, v.one_permit),
      λ t. hold_iff s.mutex s.inside t (omega (arith, v.one_permit)) v.held,
    )

-- From a fresh mutex, while a thread waits some thread has the mutex or is about to get it, and an
-- unlock does not panic and hands the mutex to the thread that has waited longest.
pub no_lost_wakeup :
    {s : System} (t : ℕ) (q : List ℕ)
    → Run started s
    → s.mutex.sem.waiters ≡ t ∷ q
    → (length s.entering + length s.inside ≡ 1)
      × ((m : Mutex) × (mutex_unlock s.mutex ≡ some (m, some t)) × (m.sem.waiters ≡ q))
no_lost_wakeup {s} t q r e =
    let v : IsValid s = mutex_run-IsValid r in
    let x : Unlocked s.mutex = mutex_unlock-Unlocked s.mutex v.counted in
    (
      ground (arith, v.counted, v.one_permit, ap length e),
      (
        x.after,
        x.returns ∙ ap (λ w. some (x.after, w)) (x.first ∙ ap (λ q. (Queue.pop q).0) e),
        x.rest ∙ ap (λ q. (Queue.pop q).1) e,
      ),
    )

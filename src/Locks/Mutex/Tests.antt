-- ===== src/Locks/Mutex/Tests.antt =====
-- A mutex of kernel/locks/mutex.c with two threads, and the theorems at that run.
use risc.Common.{ℕ, ◌+◌, ◌≤◌, ◌≡◌, ◌↔◌, refl, true, some, List, [], ◌∷◌, length}
use risc.Locks.Semaphore.{down, sem_init}
use risc.Locks.Mutex.{Mutex, mutex_init, lock_start, lock_end, mutex_unlock, mutex_is_hold}
use risc.Locks.Mutex.Exclusion.{
  System, started, lock, get, Run, start, then_, mutual_exclusion, no_lost_wakeup,
}

-- thread 1 has the mutex, and thread 2 waits for it
abbrev contended : System
contended = record {
  mutex = (lock_start (lock_end (lock_start mutex_init 1).0 1) 2).0;
  entering = [];
  inside = 1 ∷ [];
}

contended-Run : Run started contended
unfolding lock_start lock_end mutex_init sem_init down
contended-Run = then_ (then_ (then_ start (lock 1 refl)) (get 1 [] [] refl refl)) (lock 2 refl)

handed_over : (lock_start (lock_end (lock_start mutex_init 1).0 1) 2).1 ≡ true
unfolding lock_start lock_end mutex_init sem_init down
handed_over = refl

mutual_exclusion_example :
    (1 ≤ 1)
    × ((t : ℕ) → (mutex_is_hold contended.mutex t ≡ true) ↔ (◌≡◌ {A = List ℕ} (1 ∷ []) (t ∷ [])))
mutual_exclusion_example = mutual_exclusion contended-Run

waits_2 : contended.mutex.sem.waiters ≡ 2 ∷ []
unfolding lock_start lock_end mutex_init sem_init down
waits_2 = refl

no_lost_wakeup_example :
    (length {A = ℕ} [] + length {A = ℕ} (1 ∷ []) ≡ 1)
    × ((m : Mutex) × (mutex_unlock contended.mutex ≡ some (m, some 2)) × (m.sem.waiters ≡ []))
no_lost_wakeup_example = no_lost_wakeup 2 [] contended-Run waits_2

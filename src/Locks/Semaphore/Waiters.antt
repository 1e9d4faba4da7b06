-- ===== src/Locks/Semaphore/Waiters.antt =====
-- The value of a semaphore of kernel/locks/semaphore.c against the threads that wait on it.
use risc.Common.{
  ℕ, ◌+◌, ◌≡◌, refl, Bool, Option, none, some, List, [], ◌∷◌, arith, if◌then◌else◌, length,
  length-snoc, is_some, ℤ, pos, negsuc, pos_part, neg_part, inc, is_nonpos,
}
use risc.Fifo.Queue
use risc.Locks.Semaphore.{Semaphore, down, up}

-- a negative value counts the waiters
abbrev pub IsCounted : Semaphore → Type 0
IsCounted sem = length sem.waiters ≡ neg_part sem.value

-- what `sem_wait` by thread `t` does to a counted semaphore
pub record Lowered (sem : Semaphore) (t : ℕ) (out : Semaphore × Bool) : Type 0 where
  pub counted : IsCounted out.0
  pub sleeps : out.1 ≡ is_nonpos sem.value
  pub permits : pos_part out.0.value + (if out.1 then 0 else 1) ≡ pos_part sem.value
  pub queue : out.0.waiters ≡ (if out.1 then Queue.push sem.waiters t else sem.waiters)

-- `sem_wait` takes a permit if one is left, and else queues the thread behind the others.
pub down-Lowered : (sem : Semaphore) (t : ℕ) → IsCounted sem → Lowered sem t (down sem t)
unfolding down
down-Lowered sem t v = ground (arith, length-snoc sem.waiters t)

-- what `sem_signal` does on a counted semaphore
pub record Raised (sem : Semaphore) : Type 0 where
  pub after : Semaphore
  pub woken : Option ℕ
  pub returns : up sem ≡ some (after, woken)
  pub counted : IsCounted after
  pub first : woken ≡ (Queue.pop sem.waiters).0
  pub rest : after.waiters ≡ (Queue.pop sem.waiters).1
  pub permits : pos_part after.value + (if is_some woken then 1 else 0) ≡ pos_part sem.value + 1

up-Raised_parts :
    (n : ℤ) (q : List ℕ) → length q ≡ neg_part n → Raised (record { value = n; waiters = q })
unfolding up
up-Raised_parts (pos n) [] c = record {
  after = record { value = inc (pos n); waiters = [] };
  woken = none;
  returns = ground arith;
  counted = ground arith;
  first = refl;
  rest = refl;
  permits = ground arith;
}
up-Raised_parts (negsuc n) [] c = absurd (omega arith)
up-Raised_parts (pos n) (x ∷ q) c = absurd (omega arith)
up-Raised_parts (negsuc n) (x ∷ q) c = record {
  after = record { value = inc (negsuc n); waiters = q };
  woken = some x;
  returns = ground arith;
  counted = ground arith;
  first = refl;
  rest = refl;
  permits = ground arith;
}

-- `sem_signal` never panics on a counted semaphore: it wakes the thread that has waited longest, if
-- one waits, and else leaves a permit.
pub up-Raised : (sem : Semaphore) → IsCounted sem → Raised sem
up-Raised sem v = up-Raised_parts sem.value sem.waiters v

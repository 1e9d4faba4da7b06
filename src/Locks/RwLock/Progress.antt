-- ===== src/Locks/RwLock/Progress.antt =====
-- No thread waits for a lock of kernel/locks/rwlock.c that nobody has.
use risc.Common.{
  ℕ, suc, ◌+◌, ◌≤◌, ◌≡◌, ◌∙◌, ap, inl, inr, ◌==◌, Bool-cases, Bool, false, ◌&&◌, not, arith,
  if◌then◌else◌, pos, dec, is_zero,
}
use risc.Fifo.Queue.{is_empty, is_empty-push}
use risc.Locks.RwLock.{rwlock_init, set_rw_prior, read_lock, read_unlock, write_lock, write_unlock}
use risc.Locks.RwLock.System.{
  System, Step, reads, retries, ends_read, writes, goes_on, ends_write, Run, start, then_, started,
}
use risc.Locks.RwLock.Safety.{bit, IsValid, rwlock_step-IsValid, started-IsValid}

-- who will wake the threads that sleep in the two queues
record IsLive (s : System) : Type 0 where
  writers_served :
      is_empty s.rw.writers_fifo ≡ false
      → 1 ≤ s.reading + bit s.rw.writing + (if s.rw.rw_prior then 0 else s.retrying)
  readers_served :
      is_empty s.rw.readers_fifo ≡ false
      → 1
        ≤ bit s.rw.writing
          + s.retrying
          + (if s.rw.rw_prior && not (is_empty s.rw.writers_fifo) then s.reading else 0)

is_zero-dec : (n : ℕ) → is_zero (dec (pos (suc n))) ≡ (n == 0)
is_zero-dec n = ground arith

step-IsLive : {s s' : System} → Step s s' → IsValid s → IsLive s → IsLive s'
unfolding read_lock read_unlock write_lock write_unlock
step-IsLive {s} (reads t) v l = record {
  writers_served = λ e. ground (arith, v.counted, v.apart, l.writers_served);
  readers_served = λ e. ground (arith, v.counted, v.apart, l.writers_served, l.readers_served);
}
step-IsLive {s} (retries t n e) v l = record {
  writers_served = λ e. ground (arith, v.counted, v.apart, l.writers_served);
  readers_served = λ e. ground (arith, v.counted, v.apart, l.writers_served, l.readers_served);
}
step-IsLive {s} (ends_read n e) v l =
    let last : is_zero (dec s.rw.r_cnt) ≡ (n == 0) =
      ap (λ c. is_zero (dec c)) (v.counted ∙ ap pos e) ∙ is_zero-dec n in
    elim (Bool-cases (is_empty s.rw.writers_fifo)) [
      | inl q ↦ record {
        writers_served = λ k. ground (arith, last, q);
        readers_served = λ k. ground (arith, last, q, l.readers_served);
      }
      | inr q ↦ record {
        writers_served = λ k. ground (arith, last, q, l.writers_served);
        readers_served = λ k. ground (arith, last, q, l.readers_served);
      }
    ]
step-IsLive {s} (writes t) v l = record {
  writers_served = λ e. ground (arith, v.counted, v.apart, l.writers_served);
  readers_served =
      λ e. ground (arith, v.counted, v.apart, l.readers_served, is_empty-push s.rw.writers_fifo t);
}
step-IsLive {s} (goes_on n e) v l = record {
  writers_served = λ e. ground (arith);
  readers_served = λ e. ground (arith);
}
step-IsLive {s} (ends_write n e) v l = record {
  writers_served = λ e. ground (arith, v.apart, l.writers_served);
  readers_served = λ e. ground (arith, v.apart, l.readers_served);
}

run-IsLive : {s s' : System} → Run s s' → IsValid s → IsLive s → IsValid s' × IsLive s'
run-IsLive start v l = (v, l)
run-IsLive (then_ r st) v l =
    let (v', l') = run-IsLive r v l in (rwlock_step-IsValid st v', step-IsLive st v' l')

started-IsLive : (prior : Bool) → IsLive (started prior)
unfolding rwlock_init set_rw_prior
started-IsLive prior = record { writers_served = λ e. cc; readers_served = λ e. cc }

-- In every run of a lock set up over cleared memory, whichever side it prefers, while a thread sleeps
-- in one of its queues some thread has the lock, was handed it, or was woken to try again.
pub no_one_stuck :
    {s : System} (prior : Bool)
    → Run (started prior) s
    → (is_empty s.rw.readers_fifo && is_empty s.rw.writers_fifo) ≡ false
    → 1 ≤ s.reading + s.retrying + s.handed + s.writing
no_one_stuck {s} prior r e =
    let (v, l) = run-IsLive r (started-IsValid prior) (started-IsLive prior) in
    ground (arith, v.one_writer, l.writers_served, l.readers_served)

-- ===== src/Locks/RwLock/Safety.antt =====
-- Readers and writers of a lock of kernel/locks/rwlock.c exclude one another.
use risc.Common.{ℕ, ◌+◌, ◌≤◌, ◌≡◌, refl, Bool, true, false, arith, pos}
use risc.Locks.RwLock.{rwlock_init, set_rw_prior, read_lock, read_unlock, write_lock, write_unlock}
use risc.Locks.RwLock.System.{
  System, Step, reads, retries, ends_read, writes, goes_on, ends_write, Run, start, then_, started,
}

abbrev pub bit : Bool → ℕ
bit true = 1
bit false = 0

pub record IsValid (s : System) : Type 0 where
  pub counted : s.rw.r_cnt ≡ pos s.reading
  pub one_writer : s.handed + s.writing ≡ bit s.rw.writing
  pub apart : s.rw.writing ≡ true → s.reading ≡ 0

pub rwlock_step-IsValid : {s s' : System} → Step s s' → IsValid s → IsValid s'
unfolding read_lock read_unlock write_lock write_unlock
rwlock_step-IsValid (reads t) v = ground arith
rwlock_step-IsValid (retries t n e) v = ground arith
rwlock_step-IsValid (ends_read n e) v = ground arith
rwlock_step-IsValid (writes t) v = ground arith
rwlock_step-IsValid (goes_on n e) v = ground arith
rwlock_step-IsValid (ends_write n e) v = ground arith

pub started-IsValid : (prior : Bool) → IsValid (started prior)
unfolding rwlock_init set_rw_prior
started-IsValid true = record { counted = refl; one_writer = refl; apart = λ e. refl }
started-IsValid false = record { counted = refl; one_writer = refl; apart = λ e. refl }

pub rwlock_run-IsValid : {s s' : System} → Run s s' → IsValid s → IsValid s'
rwlock_run-IsValid start v = v
rwlock_run-IsValid (then_ r st) v = rwlock_step-IsValid st (rwlock_run-IsValid r v)

-- In every run of a lock set up over cleared memory, whichever side it prefers, at most one thread
-- holds it to write or was handed it, and then none reads; the reader count is the number of readers.
pub readers_exclude_writers :
    {s : System} (prior : Bool)
    → Run (started prior) s
    → (s.handed + s.writing ≤ 1)
      × (1 ≤ s.handed + s.writing → s.reading ≡ 0)
      × (s.rw.r_cnt ≡ pos s.reading)
readers_exclude_writers {s} prior r =
    let v : IsValid s = rwlock_run-IsValid r (started-IsValid prior) in
    (ground (arith, v.one_writer), (λ h. ground (arith, v.one_writer, v.apart)), v.counted)

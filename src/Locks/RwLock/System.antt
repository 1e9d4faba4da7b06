-- ===== src/Locks/RwLock/System.antt =====
-- Any number of threads that use a lock of kernel/locks/rwlock.c, interleaved, with its preference
-- fixed at its initialisation.
use risc.Common.{ℕ, suc, ◌+◌, ◌≡◌, Bool, false, if◌then◌else◌, [], pos}
use risc.Locks.RwLock.{
  RwLock, Woken, nobody, reader, writer, rwlock_init, read_lock, read_unlock, write_go, write_lock,
  write_unlock,
}

-- how many threads hold the lock to read, were woken to try reading again, were handed the lock to
-- write and have not gone on yet, and hold it to write
pub record System : Type 0 where
  pub rw : RwLock
  pub reading : ℕ
  pub retrying : ℕ
  pub handed : ℕ
  pub writing : ℕ

abbrev pub readers_woken : Woken → ℕ
readers_woken nobody = 0
readers_woken (reader t) = 1
readers_woken (writer t) = 0

abbrev pub writers_woken : Woken → ℕ
writers_woken nobody = 0
writers_woken (reader t) = 0
writers_woken (writer t) = 1

-- A thread unlocks only what it has locked.
pub data Step (s : System) : System → Type 0 where
  reads :
      (t : ℕ)
      → Step s (record s {
        rw = (read_lock s.rw t).0;
        reading = (if (read_lock s.rw t).1 then 0 else 1) + s.reading;
        retrying = readers_woken (read_lock s.rw t).2 + s.retrying;
      })
  retries :
      (t n : ℕ)
      → s.retrying ≡ suc n
      → Step s (record s {
        rw = (read_lock s.rw t).0;
        reading = (if (read_lock s.rw t).1 then 0 else 1) + s.reading;
        retrying = readers_woken (read_lock s.rw t).2 + n;
      })
  ends_read :
      (n : ℕ)
      → s.reading ≡ suc n
      → Step s (record s {
        rw = (read_unlock s.rw).0;
        reading = n;
        handed = writers_woken (read_unlock s.rw).1 + s.handed;
      })
  writes :
      (t : ℕ)
      → Step s (record s {
        rw = (write_lock s.rw t).0;
        writing = (if (write_lock s.rw t).1 then 0 else 1) + s.writing;
      })
  goes_on :
      (n : ℕ)
      → s.handed ≡ suc n
      → Step s (record s { rw = write_go s.rw; handed = n; writing = suc s.writing })
  ends_write :
      (n : ℕ)
      → s.writing ≡ suc n
      → Step s (record s {
        rw = (write_unlock s.rw).0;
        writing = n;
        retrying = readers_woken (write_unlock s.rw).1 + s.retrying;
        handed = writers_woken (write_unlock s.rw).1 + s.handed;
      })

pub data Run (s : System) : System → Type 0 where
  start : Run s s
  then_ : {t u : System} → Run s t → Step t u → Run s u

-- a lock initialised over cleared memory
abbrev pub cleared : RwLock
cleared = record {
  rw_prior = false;
  writing = false;
  r_cnt = pos 7;
  readers_fifo = [];
  writers_fifo = [];
}

abbrev pub started : Bool → System
started prior = record {
  rw = rwlock_init cleared (if prior then 1 else 0);
  reading = 0;
  retrying = 0;
  handed = 0;
  writing = 0;
}

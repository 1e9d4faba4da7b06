-- ===== src/Locks/RwLock/Tests.antt =====
-- A lock of kernel/locks/rwlock.c with a writer and a waiting reader, and the theorems at that run.
use risc.Common.{ℕ, ◌+◌, ◌≤◌, ◌≡◌, refl, true, false, ◌&&◌, pos}
use risc.Fifo.Queue.{is_empty}
use risc.Locks.RwLock.{rwlock_init, set_rw_prior, read_lock, write_lock}
use risc.Locks.RwLock.System.{System, reads, writes, Run, start, then_, started}
use risc.Locks.RwLock.Safety.{readers_exclude_writers}
use risc.Locks.RwLock.Progress.{no_one_stuck}

-- thread 1 writes, and thread 2 sleeps in the readers' queue
abbrev held : System
held = record {
  rw = (read_lock (write_lock (started true).rw 1).0 2).0;
  reading = 0;
  retrying = 0;
  handed = 0;
  writing = 1;
}

held-Run : Run (started true) held
unfolding rwlock_init set_rw_prior read_lock write_lock
held-Run = then_ (then_ start (writes 1)) (reads 2)

readers_exclude_writers_example :
    (0 + 1 ≤ 1) × (1 ≤ 0 + 1 → ◌≡◌ {A = ℕ} 0 0) × (held.rw.r_cnt ≡ pos 0)
readers_exclude_writers_example = readers_exclude_writers true held-Run

queued : (is_empty held.rw.readers_fifo && is_empty held.rw.writers_fifo) ≡ false
unfolding rwlock_init set_rw_prior read_lock write_lock
queued = refl

no_one_stuck_example : 1 ≤ 0 + 0 + 0 + 1
no_one_stuck_example = no_one_stuck true held-Run queued

-- ===== src/Locks/RwLock.antt =====
-- kernel/locks/rwlock.c: a reader-writer lock that prefers its readers or its writers. What a call
-- does under the lock's spin lock is one step, and a thread that was woken goes on with a further one.
pub mod System
pub mod Safety
pub mod Progress
mod Tests
use risc.Common.{
  ℕ, ◌/◌, ◌%◌, Bool, true, false, ◌&&◌, ◌||◌, not, Option, none, some, [], ◌==◌, if◌then◌else◌, ℤ,
  pos, inc, dec, is_zero,
}
use risc.Fifo.Queue
use risc.Fifo.Queue.{Queue}

-- the two bits of `flags` that the code reads: RW_PRIOR (1 << 0) and WRITING (1 << 1)
pub record RwLock : Type 0 where
  pub rw_prior : Bool
  pub writing : Bool
  pub r_cnt : ℤ
  pub readers_fifo : Queue
  pub writers_fifo : Queue

-- the thread that a step wakes
pub data Woken : Type 0 where
  nobody : Woken
  reader : ℕ → Woken
  writer : ℕ → Woken

-- `SET_FLAG(&rw->flags, prior)`
pub set_rw_prior : RwLock → ℕ → RwLock
set_rw_prior rw prior = record rw {
  rw_prior = rw.rw_prior || (prior % 2 == 1);
  writing = rw.writing || (prior / 2 % 2 == 1);
}

-- The flags keep the bits that the memory held before.
pub rwlock_init : RwLock → ℕ → RwLock
rwlock_init rw prior = record (set_rw_prior rw prior) {
  r_cnt = pos 0;
  readers_fifo = [];
  writers_fifo = [];
}

abbrev pop_reader : RwLock → Option ℕ × Queue → RwLock × Woken
pop_reader rw (none, q) = (rw, nobody)
pop_reader rw (some t, q) = (record rw { readers_fifo = q }, reader t)

abbrev pop_writer : RwLock → Option ℕ × Queue → RwLock × Woken
pop_writer rw (none, q) = (rw, nobody)
pop_writer rw (some t, q) = (record rw { writing = true; writers_fifo = q }, writer t)

-- On an empty queue both return at once. A popped writer has the lock marked for it.
pub wakeup_reader : RwLock → RwLock × Woken
wakeup_reader rw = pop_reader rw (Queue.pop rw.readers_fifo)

pub wakeup_writer : RwLock → RwLock × Woken
wakeup_writer rw = pop_writer rw (Queue.pop rw.writers_fifo)

-- One round of `read_lock` by thread `t`: it sleeps (`true`), to try again when woken, or gets in and
-- wakes the next reader.
pub read_lock : RwLock → ℕ → RwLock × Bool × Woken
unfolding wakeup_reader
read_lock rw t =
    let asleep = record rw { readers_fifo = Queue.push rw.readers_fifo t } in
    let (woke, w) = wakeup_reader rw in
    if rw.writing
    then (asleep, true, nobody)
    else if rw.rw_prior && not (Queue.is_empty rw.writers_fifo)
    then (asleep, true, nobody)
    else (record woke { r_cnt = inc woke.r_cnt }, false, w)

pub read_unlock : RwLock → RwLock × Woken
unfolding wakeup_writer
read_unlock rw =
    let less = record rw { r_cnt = dec rw.r_cnt } in
    if is_zero less.r_cnt && not (Queue.is_empty less.writers_fifo)
    then wakeup_writer less
    else (less, nobody)

-- `write_lock` after its wait, if it waited
pub write_go : RwLock → RwLock
write_go rw = record rw { writing = true }

-- `write_lock` by thread `t`, up to its sleep (`true`) or to its end
pub write_lock : RwLock → ℕ → RwLock × Bool
unfolding write_go
write_lock rw t =
    if not (is_zero rw.r_cnt) || rw.writing
    then (record rw { writers_fifo = Queue.push rw.writers_fifo t }, true)
    else (write_go rw, false)

pub write_unlock : RwLock → RwLock × Woken
unfolding wakeup_reader wakeup_writer
write_unlock rw =
    let free = record rw { writing = false } in
    let res =
      (not free.rw_prior && not (Queue.is_empty free.readers_fifo))
      || (free.rw_prior && Queue.is_empty free.writers_fifo) in
    if res then wakeup_reader free else wakeup_writer free

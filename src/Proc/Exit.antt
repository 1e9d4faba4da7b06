-- ===== src/Proc/Exit.antt =====
-- The end of a process in kernel/proc/proc.c: `reparent`, `do_exit` and `do_waitpid`.
use risc.Common.{
  ℕ, Bool, ◌&&◌, not, Option, none, some, List, [], ◌∷◌, ltb, ◌==◌, if◌then◌else◌, guard, ◌>>=◌,
  ◌>>◌, ℤ, pos, negsuc, minus_one,
}
use risc.Sched.{zombie, World, set_state, wakeup_process, remove}
use risc.Signal.{sig_release_all, send_sig, is_zombie}
use risc.Locks.Semaphore.{up}
use risc.Files.{Inodes, Files, file_close, fd_close_all}
use risc.Hash.{hash_del_node}
use risc.Proc.{Vm, Procs, put, find_proc}

abbrev pub woken : World → Option ℕ → World
woken w none = w
woken w (some t) = wakeup_process w t

-- `pid == -1`, and `pid > 0 && t->pid == pid`
unfoldable pub asks_for : ℤ → ℕ → Bool
asks_for (pos n) q = ltb 0 n && n == q
asks_for (negsuc n) q = n == 0

module _ {S M : Type 0} where
  -- The walk of `reparent` along the children of the thread that exits.
  unfoldable pub adopt : List ℕ → Procs S M → Procs S M
  adopt [] p = p
  adopt (c ∷ cs) p =
      let q = put p c (record (p.thread c) { parent = some p.init_t }) in
      adopt cs
        (put q p.init_t (record (q.thread p.init_t) { child = c ∷ (q.thread p.init_t).child }))

  unfoldable pub reparent : Procs S M → ℕ → Procs S M
  unfolding adopt
  reparent p t =
      let q = adopt (p.thread t).child (put p t (record (p.thread t) { child = [] })) in
      if t == p.init_t then p else q

  -- `send_sig(sig, pid)`
  unfoldable pub signal_process : Procs S M → ℤ → ℕ → Procs S M
  unfolding find_proc
  signal_process p sig pid = elim (find_proc p pid) [
    | none ↦ p
    | some t ↦ elim (send_sig sig (some ((p.sched.task t).state, (p.thread t).sigs))) [
      | none ↦ p
      | some (state, sigs) ↦ put p t (record (p.thread t) { sigs = sigs })
    ]
  ]

  -- `sem_signal(&t->parent->child_exit_sem)`
  unfoldable pub signal_parent : Procs S M → ℕ → Option (Procs S M)
  signal_parent p pa = do
    (sem, waiter) ← up (p.thread pa).child_exit_sem
    some (record (put p pa (record (p.thread pa) { child_exit_sem = sem })) {
      sched = woken p.sched waiter;
    })

  -- one walk of `__waitpid` along the children: the first zombie that `pid` asks for
  unfoldable pub find_zombie : Procs S M → ℤ → List ℕ → Option ℕ
  unfolding asks_for
  find_zombie p pid [] = none
  find_zombie p pid (c ∷ cs) =
      let rest = find_zombie p pid cs in
      if is_zombie (p.sched.task c).state && asks_for pid (p.thread c).pid then some c else rest

  -- One round of `__waitpid` by `t`; without a zombie it returns `NULL` or waits and comes again.
  unfoldable pub take_zombie : Procs S M → ℕ → ℤ → Option (ℕ × Procs S M)
  unfolding find_zombie
  take_zombie p t pid = do
    c ← find_zombie p pid (p.thread t).child
    some (c, put p t (record (p.thread t) { child = remove c (p.thread t).child }))

  -- `do_waitpid` in the round that finds a zombie, and with `WNOHANG` in one that finds none. The
  -- pid and the exit code come back; the thread's memory is free then.
  unfoldable pub do_waitpid : Procs S M → ℕ → ℤ → (ℤ × ℤ) × Procs S M
  unfolding take_zombie
  do_waitpid p t pid = elim (take_zombie p t pid) [
    | none ↦ ((minus_one, pos 0), p)
    | some (c, q) ↦ (
      (pos (q.thread c).pid, (q.thread c).exit_code),
      record q { global_proc_table = hash_del_node q.global_proc_table c },
    )
  ]

module _ {S M V : Type 0} (i : Inodes S) (vm : Vm M V) where
  -- What `vm_ops->close` does to the open files: `vma_gen_file_close` asserts that the area has a
  -- file.
  unfoldable pub close_file : Files S → V → Option (Files S)
  close_file k v = if vm.has_file v then (vm.vm_file v >>= file_close i k) else some k

  -- the walk of `free_user_memory` along the areas
  unfoldable pub close_all : List V → M → Files S → Option (M × Files S)
  unfolding close_file
  close_all [] mm k = some (mm, k)
  close_all (v ∷ vs) mm k = do k1 ← close_file k v; close_all vs (vm.vma_gen_close v mm) k1

  unfoldable pub free_user_memory : M → Files S → Option (M × Files S)
  unfolding close_all
  free_user_memory mm k = do (mm1, k1) ← close_all (vm.mmap mm) mm k; some (vm.no_areas mm1, k1)

  -- what `do_exit` does between `reparent` and the lock of the thread
  unfoldable pub release : Procs S M → ℕ → Option (Procs S M)
  unfolding free_user_memory
  release p t = do
    (mm1, k1) ← free_user_memory (p.thread t).mm p.k
    some (
        put (record p { k = k1 }) t
          (record (p.thread t) { sigs = sig_release_all (p.thread t).sigs; mm = mm1; tf = none }))

  -- `do_exit` by `t` up to its call of `sched`. `init_t` and a thread that is not the first of its
  -- task stop the kernel. `SIGCHLD` is 17.
  unfoldable pub do_exit : Procs S M → ℕ → ℤ → Option (Procs S M)
  unfolding reparent release signal_process signal_parent
  do_exit p t code = do
    guard (not (t == p.init_t) && (p.thread t).tid == 0)
    (files, k1) ← fd_close_all i p.k (p.thread t).files
    q ← release (reparent (put (record p { k = k1 }) t (record (p.thread t) { files = files })) t) t
    pa ← (q.thread t).parent
    r ← signal_parent (signal_process q (pos 17) (q.thread pa).pid) pa
    some (record (put r t (record (r.thread t) { exit_code = code })) {
      sched = set_state r.sched t zombie;
    })

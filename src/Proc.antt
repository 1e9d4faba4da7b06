-- ===== src/Proc.antt =====
-- kernel/proc/proc.c: the process table, `fork`, `exit` and `waitpid`.
pub mod Exit
pub mod Tree
pub mod Leave
pub mod Family
pub mod Inherit
pub mod Wait
mod Tests
use risc.Common.{
  ℕ, zero, suc, ◌+◌, ◌-◌, ◌*◌, ◌%◌, ◌^◌, Bool, true, false, ◌&&◌, not, Option, none, some, List, [],
  ◌∷◌, ltb, ◌==◌, if◌then◌else◌, replicate, update, guard, ◌>>=◌, ◌>>◌, ℤ, pos, negsuc, minus_one,
}
use risc.Sched.{TaskState, used, World, set_task, wakeup_process}
use risc.Signal.{Signal, sig_init}
use risc.Locks.Semaphore.{Semaphore, sem_init}
use risc.Files.{Inodes, Files, Table, files_init, file_dup, copy_files}
use risc.Hash.{HashTable, hash_find, hash_add_head}

-- `struct trapframe`; `kernel_sp` and `a0` are the registers that a fork changes.
pub record TrapFrame : Type 0 where
  pub kernel_sp : ℕ
  pub a0 : ℕ
  pub others : List ℕ

-- What `struct mm_struct`, here `M`, is used for: its list of areas, each a `V`, and the functions
-- that `fork` and `exit` call on memory. `has_file` says that the area's `vm_ops` are
-- `vma_file_ops`. `vma_gen_dup` takes the new memory and the old one, whose pages it makes copies on
-- write; `no_areas` is the assignment of `mmap` at the end of `free_user_memory`.
pub record Vm (M V : Type 0) : Type 0 where
  pub mm_init : M
  pub mmap : M → List V
  pub alloc_user_pgd : M → M
  pub has_file : V → Bool
  pub vm_file : V → Option ℕ
  pub vma_gen_dup : V → M × M → M × M
  pub vma_gen_close : V → M → M
  pub no_areas : M → M

-- `struct thread_info` with its `struct task_struct`. The state and what else the scheduler uses
-- stand in the scheduler's record of the thread.
pub record Thread (M : Type 0) : Type 0 where
  pub pid : ℕ
  pub tid : ℕ
  pub parent : Option ℕ
  pub child : List ℕ
  pub child_exit_sem : Semaphore
  pub exit_code : ℤ
  pub tf : Option TrapFrame
  pub mm : M
  pub sigs : Signal
  pub files : Table
  pub name : List ℕ

-- The threads by address, with `Proc`, the scheduler and the open files.
pub record Procs (S M : Type 0) : Type 0 where
  pub thread : ℕ → Thread M
  pub pids : ℕ
  pub global_proc_table : HashTable
  pub sched : World
  pub k : Files S
  pub init_t : ℕ

abbrev pub page_size : ℕ
page_size = 4096

-- `KERNEL_STACK_TOP`
abbrev pub kernel_stack_top : ℕ → ℕ
kernel_stack_top t = t + 2 * page_size - 16

module _ {S M : Type 0} where
  abbrev pub put : Procs S M → ℕ → Thread M → Procs S M
  put p t v = record p { thread = update p.thread t v }

  abbrev pub pid_of : Procs S M → ℕ → ℕ
  pid_of p t = (p.thread t).pid

  -- `find_proc`
  pub find_proc : Procs S M → ℕ → Option ℕ
  find_proc p pid = hash_find p.global_proc_table (pid_of p) pid

pub copy_tf : ℕ → TrapFrame → TrapFrame
copy_tf ch frame = record frame { kernel_sp = kernel_stack_top ch; a0 = 0 }

-- The count of pending signals goes to the child with the handlers and the mask, and no signal.
pub copy_sigs : Signal → Signal → Signal
copy_sigs ch pa = record ch {
  sigpend = pa.sigpend;
  siga = pa.siga;
  blocked = pa.blocked;
  signal = replicate 32 false;
}

module _ {M V : Type 0} (vm : Vm M V) where
  -- `task_struct_init` and `thread_info_init` with the pid and the mask of blocked signals that the
  -- memory of the thread held before
  pub blank : Thread M → Thread M
  blank old = record {
    pid = old.pid;
    tid = 0;
    parent = none;
    child = [];
    child_exit_sem = sem_init (pos 0);
    exit_code = old.exit_code;
    tf = none;
    mm = vm.mm_init;
    sigs = sig_init old.sigs.blocked;
    files = files_init;
    name = old.name;
  }

module _ {S M V : Type 0} (vm : Vm M V) where
  -- What `vm_ops->dup` does to the open files: `vma_gen_file_dup` asserts that the area has a file.
  pub dup_file : Files S → V → Option (Files S)
  dup_file k v = if vm.has_file v then (vm.vm_file v >>= file_dup k) else some k

  -- the walk along the areas: the new memory, and the old one
  pub dup_all : List V → M × M → Files S → Option ((M × M) × Files S)
  unfolding dup_file
  dup_all [] mms k = some (mms, k)
  dup_all (v ∷ vs) mms k = do k1 ← dup_file k v; dup_all vs (vm.vma_gen_dup v mms) k1

  pub copy_vm : M → M → Files S → Option ((M × M) × Files S)
  unfolding dup_all
  copy_vm ch pa k = dup_all (vm.mmap pa) (vm.alloc_user_pgd ch, pa) k

  -- `alloc_thread`; `t` is the address that `kmem_cache_alloc` returns. A thread whose memory held
  -- a pid keeps it.
  pub alloc_thread : Procs S M → ℕ → Procs S M
  unfolding blank
  alloc_thread p t =
      let fresh = (p.thread t).pid == 0 in
      let pid = if fresh then p.pids else (p.thread t).pid in
      let task = record (p.sched.task t) { state = used; ticks = 10; cpu_affinity = none } in
      record (put p t (record (blank vm (p.thread t)) { pid = pid })) {
        pids = if fresh then p.pids + 1 else p.pids;
        global_proc_table = hash_add_head p.global_proc_table pid t;
        sched = set_task p.sched t task;
      }

  -- `uthread_struct_init`; `frame` is what the memory of the new trap frame holds.
  pub uthread_struct_init : Procs S M → ℕ → TrapFrame → Procs S M
  unfolding alloc_thread
  uthread_struct_init p t frame =
      let q = alloc_thread p t in put q t (record (q.thread t) { tf = some frame })

  -- `copy_proc`; a parent without a trap frame stops the kernel.
  pub copy_proc : Procs S M → ℕ → ℕ → Option (Procs S M)
  unfolding copy_tf copy_vm copy_sigs
  copy_proc p ch pa = do
    frame ← (p.thread pa).tf
    ((ch_mm, pa_mm), k0) ← copy_vm (p.thread ch).mm (p.thread pa).mm p.k
    ((ch_files, pa_files), k1) ← copy_files k0 (p.thread ch).files (p.thread pa).files
    let child = record (p.thread ch) {
      tf = some (copy_tf ch frame);
      mm = ch_mm;
      files = ch_files;
      sigs = copy_sigs (p.thread ch).sigs (p.thread pa).sigs;
    }
    let parent = record (p.thread pa) { mm = pa_mm; files = pa_files }
    some (put (put (record p { k = k1 }) ch child) pa parent)

  -- `do_fork` by `pa`; `ch` and `frame` are the memory that the new thread gets.
  pub do_fork : Procs S M → ℕ → ℕ → TrapFrame → Option (ℕ × Procs S M)
  unfolding uthread_struct_init copy_proc
  do_fork p pa ch frame = do
    q ← copy_proc (uthread_struct_init p ch frame) ch pa
    let r = put q ch (record (q.thread ch) { parent = some pa; name = (q.thread pa).name })
    let s = put r pa (record (r.thread pa) { child = ch ∷ (r.thread pa).child })
    some ((s.thread ch).pid, record s { sched = wakeup_process s.sched ch })

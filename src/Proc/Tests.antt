-- ===== src/Proc/Tests.antt =====
-- Runs of kernel/proc/proc.c: a fork, the exit of the child and the wait for it.
use risc.Common.{
  ℕ, ◌+◌, ◌≡◌, refl, true, false, Option, none, some, [], ◌∷◌, arith, ◌==◌, if◌then◌else◌, update,
  replicate, pos,
}
use risc.Sched.{runnable, idle_cpu}
use risc.Signal.{Signal}
use risc.Files.{Inodes, file_dup, copy_files, copy_table, files_init, fd_close_all}
use risc.Hash.{hash_find, find_in}
use risc.Locks.Semaphore.{up}
use risc.Proc.{
  Vm, Thread, TrapFrame, Procs, find_proc, do_fork, copy_proc, uthread_struct_init, alloc_thread,
  blank, copy_vm, dup_all, dup_file,
}
use risc.Proc.Exit.{
  do_exit, reparent, adopt, release, free_user_memory, close_all, signal_process, signal_parent,
  do_waitpid,
}
use risc.Proc.Family.{Reach, boots, then_, forks, IsValid, family-IsValid}
use risc.Proc.Inherit.{Inherits, do_fork-Inherits}
use risc.Proc.Wait.{do_waitpid-do_exit}

abbrev no_disk : Inodes (Unit {0})
no_disk = record {
  efs_d_namei = λ fs path. (none, fs);
  efs_i_put = λ fs node. some fs;
  efs_i_size = λ fs node. 0;
  efs_i_read = λ fs node off len. (some [], fs);
  efs_i_write = λ fs node off bytes. (some 0, fs);
}

abbrev no_vm : Vm (Unit {0}) (Unit {0})
no_vm = record {
  mm_init = tt;
  mmap = λ mm. [];
  alloc_user_pgd = λ mm. mm;
  has_file = λ v. false;
  vm_file = λ v. none;
  vma_gen_dup = λ v mms. mms;
  vma_gen_close = λ v mm. mm;
  no_areas = λ mm. mm;
}

abbrev zero_frame : TrapFrame
zero_frame = record { kernel_sp = 0; a0 = 0; others = [] }

abbrev user_frame : TrapFrame
user_frame = record { kernel_sp = 20464; a0 = 5; others = 7 ∷ [] }

abbrev quiet : Signal
quiet = record {
  sigpend = 0;
  queue = [];
  signal = replicate 32 false;
  blocked = replicate 32 false;
  siga = [];
}

abbrev blank_thread : ℕ → Option TrapFrame → Thread (Unit {0})
blank_thread pid tf = record {
  pid = pid;
  tid = 0;
  parent = none;
  child = [];
  child_exit_sem = record { value = pos 0; waiters = [] };
  exit_code = pos 0;
  tf = tf;
  mm = tt;
  sigs = quiet;
  files = replicate 16 none;
  name = [];
}

abbrev booted : Procs (Unit {0}) (Unit {0})
booted = record {
  thread = λ t. if t == 1 then blank_thread 3 (some user_frame) else blank_thread 0 none;
  pids = 4;
  global_proc_table = record { size = 41; count = 1; heads = λ b. if b == 3 then 1 ∷ [] else [] };
  sched = record {
    task = λ t. record { state = runnable; ticks = 10; cpu_affinity = none; cpu_id = 0 };
    load_cpu_id = pos 0;
    cpus = replicate 4 idle_cpu;
  };
  k = record { file = λ a. record { f_ref = 0; f_flags = 0; f_ip = none; f_off = 0 }; fs = tt };
  init_t = 1;
}

-- `init_t` and its child at 2
abbrev parent_and_child : Procs (Unit {0}) (Unit {0})
parent_and_child = elim (do_fork no_vm booted 1 2 zero_frame) [ none ↦ booted | some r ↦ r.1 ]

-- the same memory with one area that maps the file at 100
abbrev one_area : Vm (Unit {0}) (Unit {0})
one_area = record no_vm { mmap = λ mm. tt ∷ []; has_file = λ v. true; vm_file = λ v. some 100 }

abbrev mapping : Procs (Unit {0}) (Unit {0})
mapping = record booted {
  k = record booted.k {
    file = update booted.k.file 100 (record { f_ref = 1; f_flags = 1; f_ip = some 7; f_off = 0 });
  };
}

abbrev mapping_twice : Procs (Unit {0}) (Unit {0})
mapping_twice = elim (do_fork one_area mapping 1 2 zero_frame) [ none ↦ mapping | some r ↦ r.1 ]

mapping_twice_refs : (mapping_twice.k.file 100).f_ref ≡ 2
unfolding do_fork copy_files copy_table files_init copy_proc uthread_struct_init alloc_thread blank
    copy_vm dup_all dup_file file_dup
mapping_twice_refs = refl

do_fork-Inherits_example : Inherits one_area mapping 1 2 4 mapping_twice
unfolding do_fork copy_files copy_table files_init copy_proc uthread_struct_init alloc_thread blank
    copy_vm dup_all dup_file file_dup
do_fork-Inherits_example = do_fork-Inherits one_area mapping 1 2 4 zero_frame refl refl

forked-Reach :
    Reach no_disk no_vm (record { p = parent_and_child; live = update (λ u. u == 1) 2 true })
unfolding do_fork copy_files copy_table files_init copy_proc uthread_struct_init alloc_thread blank
    copy_vm dup_all
forked-Reach =
    then_ (boots booted (λ u. (ground arith, refl)) refl)
      (forks 1 2 zero_frame 4 parent_and_child refl refl refl refl)

family-IsValid_example :
    IsValid (record { p = parent_and_child; live = update (λ u. u == 1) 2 true })
family-IsValid_example = family-IsValid no_disk no_vm forked-Reach

-- The thread at 1 has the children at 2 and at 3. It has no entry in the table of processes, where `send_sig` looks.
abbrev family : Procs (Unit {0}) (Unit {0})
family = record booted {
  global_proc_table = record { size = 41; count = 0; heads = λ b. [] };
  thread = λ t.
      if t == 1
      then record (blank_thread 3 none) { child = 2 ∷ 3 ∷ [] }
      else record (blank_thread (t + 4) none) { parent = some 1 };
}

abbrev orphaned : Procs (Unit {0}) (Unit {0})
orphaned = elim (do_exit no_disk no_vm family 2 (pos 9)) [ none ↦ family | some q ↦ q ]

do_waitpid-do_exit_example : (do_waitpid orphaned 1 (pos 6)).0 ≡ (pos 6, pos 9)
unfolding do_exit fd_close_all reparent adopt release free_user_memory close_all signal_process
    signal_parent find_proc hash_find find_in up
do_waitpid-do_exit_example =
    do_waitpid-do_exit no_disk no_vm family orphaned 1 2 (pos 9) refl (omega arith) refl
      (omega arith) (λ d there same. ground arith)

-- ===== src/Proc/Tree.antt =====
-- How `do_fork`, `do_exit` and `do_waitpid` of kernel/proc/proc.c change the tree of processes.
use mathlib.Core.Path.{subst}
use risc.Common.{
  ℕ, ◌≡◌, inl, inr, true, false, some, [], ◌∷◌, arith, ◌==◌, if◌then◌else◌, Option-cases,
}
use risc.Sched.{wakeup_process}
use risc.Sched.Switch.{state-wakeup_process}
use risc.Signal.{is_zombie}
use risc.Proc.{Vm, TrapFrame, Procs, put, uthread_struct_init, copy_proc, do_fork}

module _ {S M : Type 0} where
  -- the same tree and scheduler
  pub record Same (p q : Procs S M) : Type 0 where
    pub parent : (u : ℕ) → (q.thread u).parent ≡ (p.thread u).parent
    pub child : (u : ℕ) → (q.thread u).child ≡ (p.thread u).child
    pub pids : (u : ℕ) → (q.thread u).pid ≡ (p.thread u).pid
    pub same_sched : q.sched ≡ p.sched
    pub root : q.init_t ≡ p.init_t

  -- the tree once `pa` has the new child `ch`
  pub record Forked (p : Procs S M) (pa ch : ℕ) (q : Procs S M) : Type 0 where
    pub parent : (u : ℕ) → (q.thread u).parent ≡ (if u == ch then some pa else (p.thread u).parent)
    pub children :
        (u : ℕ)
        → (q.thread u).child ≡ (
            if u == pa
            then ch ∷ (p.thread pa).child
            else if u == ch
            then []
            else (p.thread u).child)
    pub state :
        (u : ℕ)
        → is_zombie (q.sched.task u).state ≡ true
        → (is_zombie (p.sched.task u).state ≡ true) × ((u == ch) ≡ false)
    pub root : q.init_t ≡ p.init_t

module _ {S M V : Type 0} (vm : Vm M V) where
  copy_proc-Same :
      (p : Procs S M) (ch pa : ℕ) {q : Procs S M} → copy_proc vm p ch pa ≡ some q → Same p q
  unfolding copy_proc
  copy_proc-Same p ch pa {q} h = record {
    parent = λ u. ground arith;
    pids = λ u. ground arith;
    child = λ u. ground arith;
    same_sched = ground arith;
    root = ground arith;
  }

  -- the tree after `uthread_struct_init`
  record Fresh (p : Procs S M) (ch : ℕ) (q : Procs S M) : Type 0 where
    parent : (u : ℕ) → (u == ch) ≡ false → (q.thread u).parent ≡ (p.thread u).parent
    child : (u : ℕ) → (q.thread u).child ≡ (if u == ch then [] else (p.thread u).child)
    state : (u : ℕ) → (u == ch) ≡ false → (q.sched.task u).state ≡ (p.sched.task u).state
    root : q.init_t ≡ p.init_t

  uthread_struct_init-Fresh :
      (p : Procs S M) (ch : ℕ) (frame : TrapFrame) → Fresh p ch (uthread_struct_init vm p ch frame)
  unfolding uthread_struct_init
  uthread_struct_init-Fresh p ch frame = record {
    parent = λ u ne. ground arith;
    child = λ u. ground arith;
    state = λ u ne. ground arith;
    root = ground arith;
  }

  -- what `do_fork` does after `copy_proc`
  finish : Procs S M → ℕ → ℕ → ℕ × Procs S M
  finish q pa ch =
      let r = put q ch (record (q.thread ch) { parent = some pa; name = (q.thread pa).name }) in
      let s = put r pa (record (r.thread pa) { child = ch ∷ (r.thread pa).child }) in
      ((s.thread ch).pid, record s { sched = wakeup_process s.sched ch })

  do_fork-run :
      (p : Procs S M) (pa ch : ℕ) (frame : TrapFrame) {q : Procs S M}
      → copy_proc vm (uthread_struct_init vm p ch frame) ch pa ≡ some q
      → do_fork vm p pa ch frame ≡ some (finish q pa ch)
  unfolding do_fork finish
  do_fork-run p pa ch frame {q} e = rw e

  finish-Forked :
      (p q0 q : Procs S M) (pa ch : ℕ)
      → (pa == ch) ≡ false
      → Fresh p ch q0
      → Same q0 q
      → Forked p pa ch (finish q pa ch).1
  unfolding finish
  finish-Forked p q0 q pa ch ne f s = record {
    parent = λ u. ground (arith, f.parent u, s.parent u);
    children = λ u. ground (arith, f.child u, s.child u);
    state = λ u z. ground (arith, state-wakeup_process q.sched ch u, f.state u, s.same_sched);
    root = ground (arith, f.root, s.root);
  }

  pub do_fork-Forked :
      (p : Procs S M) (pa ch : ℕ) (frame : TrapFrame) {out : ℕ × Procs S M}
      → (pa == ch) ≡ false
      → do_fork vm p pa ch frame ≡ some out
      → Forked p pa ch out.1
  unfolding do_fork
  do_fork-Forked p pa ch frame {out} ne h =
      let q0 = uthread_struct_init vm p ch frame in
      elim (Option-cases (copy_proc vm q0 ch pa)) [
        | inl e ↦ absurd (ground arith)
        | inr (q, e) ↦
            let same : finish q pa ch ≡ out = ground (arith, do_fork-run p pa ch frame e) in
            subst (λ x. Forked p pa ch x.1) same
              (finish-Forked p q0 q pa ch ne (uthread_struct_init-Fresh p ch frame)
                (copy_proc-Same q0 ch pa e))
      ]

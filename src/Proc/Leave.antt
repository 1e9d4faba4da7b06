-- ===== src/Proc/Leave.antt =====
-- What `do_exit` of kernel/proc/proc.c does to the tree of processes.
use mathlib.Core.Path.{subst, ◌∙◌}
use risc.Common.{
  ℕ, ◌+◌, ◌≡◌, refl, inl, inr, true, false, ◌&&◌, Option, none, some, List, [], ◌∷◌, arith, ltb,
  ◌==◌, if◌then◌else◌, Option-cases, ℤ, pos, not,
}
use risc.Sched.{World, zombie, set_state}
use risc.Sched.Count.{count}
use risc.Sched.Switch.{state-wakeup_process}
use risc.Signal.{is_zombie}
use risc.Locks.Semaphore.{up}
use risc.Files.{Inodes, Files, Table, fd_close_all}
use risc.Proc.{Vm, Procs, put}
use risc.Proc.Tree.{Same}
use risc.Proc.Exit.{adopt, reparent, release, signal_process, signal_parent, do_exit, woken}

state-woken :
    (w : World) (waiter : Option ℕ) (u : ℕ)
    → is_zombie ((woken w waiter).task u).state ≡ true
    → is_zombie (w.task u).state ≡ true
state-woken w none u z = z
state-woken w (some t) u z = ground (arith, state-wakeup_process w t u)

module _ {S M : Type 0} where
  -- `adopt` gives the threads of `cs` to `init_t`.
  pub record Adopted (cs : List ℕ) (p q : Procs S M) : Type 0 where
    parent :
        (u : ℕ)
        → (q.thread u).parent ≡ (if ltb 0 (count u cs) then some p.init_t else (p.thread u).parent)
    children :
        (u c : ℕ)
        → count c (q.thread u).child
          ≡ count c (p.thread u).child + (if u == p.init_t then count c cs else 0)
    pub pids : (u : ℕ) → (q.thread u).pid ≡ (p.thread u).pid
    pub same_sched : q.sched ≡ p.sched
    pub root : q.init_t ≡ p.init_t

  adopt-Adopted : (cs : List ℕ) (p : Procs S M) → Adopted cs p (adopt cs p)
  unfolding adopt
  adopt-Adopted [] p = record {
    pids = λ u. refl;
    parent = λ u. refl;
    children = λ u c. ground arith;
    same_sched = refl;
    root = refl;
  }
  adopt-Adopted (c ∷ cs) p =
      let q = put p c (record (p.thread c) { parent = some p.init_t }) in
      let ih =
        adopt-Adopted cs
          (put q p.init_t (record (q.thread p.init_t) { child = c ∷ (q.thread p.init_t).child })) in
      record {
        parent = λ u. ground (arith, ih.parent u);
        children = λ u d. ground (arith, ih.children u d);
        pids = λ u. ground (arith, ih.pids u);
        same_sched = ih.same_sched;
        root = ih.root;
      }

  release-Same :
      {V : Type 0} (i : Inodes S) (vm : Vm M V) (p : Procs S M) (t : ℕ) {q : Procs S M}
      → release i vm p t ≡ some q
      → Same p q
  unfolding release
  release-Same i vm p t {q} h = record {
    pids = λ u. ground arith;
    parent = λ u. ground arith;
    child = λ u. ground arith;
    same_sched = ground arith;
    root = ground arith;
  }

  Same-trans : {p q r : Procs S M} → Same p q → Same q r → Same p r
  Same-trans a b = record {
    pids = λ u. b.pids u ∙ a.pids u;
    parent = λ u. b.parent u ∙ a.parent u;
    child = λ u. b.child u ∙ a.child u;
    same_sched = b.same_sched ∙ a.same_sched;
    root = b.root ∙ a.root;
  }

  signal_process-Same : (p : Procs S M) (sig : ℤ) (pid : ℕ) → Same p (signal_process p sig pid)
  unfolding signal_process
  signal_process-Same p sig pid = record {
    pids = λ u. ground arith;
    parent = λ u. ground arith;
    child = λ u. ground arith;
    same_sched = ground arith;
    root = ground arith;
  }

  record Told (p q : Procs S M) : Type 0 where
    parent : (u : ℕ) → (q.thread u).parent ≡ (p.thread u).parent
    child : (u : ℕ) → (q.thread u).child ≡ (p.thread u).child
    pids : (u : ℕ) → (q.thread u).pid ≡ (p.thread u).pid
    state :
        (u : ℕ) → is_zombie (q.sched.task u).state ≡ true → is_zombie (p.sched.task u).state ≡ true
    root : q.init_t ≡ p.init_t

  signal_parent-Told :
      (p : Procs S M) (pa : ℕ) {q : Procs S M} → signal_parent p pa ≡ some q → Told p q
  unfolding signal_parent
  signal_parent-Told p pa {q} h = elim (Option-cases (up (p.thread pa).child_exit_sem)) [
    | inl e ↦ absurd (ground arith)
    | inr ((sem, waiter), e) ↦
        let same : record (put p pa (record (p.thread pa) { child_exit_sem = sem })) {
          sched = woken p.sched waiter;
        }
            ≡ q =
          ground arith in
        subst (λ x. Told p x) same
          (record {
            parent = λ u. ground arith;
            child = λ u. ground arith;
            pids = λ u. ground arith;
            state = λ u z. state-woken p.sched waiter u z;
            root = refl;
          })
  ]

  -- The thread `t` is a zombie without children, which `init_t` has now.
  pub record Exited (p : Procs S M) (t : ℕ) (code : ℤ) (q : Procs S M) : Type 0 where
    pub parent :
        (u : ℕ)
        → (q.thread u).parent
          ≡ (if ltb 0 (count u (p.thread t).child) then some p.init_t else (p.thread u).parent)
    pub children :
        (u c : ℕ)
        → count c (q.thread u).child
          ≡ (if u == t then 0 else count c (p.thread u).child)
            + (if u == p.init_t then count c (p.thread t).child else 0)
    pub state :
        (u : ℕ)
        → is_zombie (q.sched.task u).state ≡ true
        → (u == t) ≡ false
        → is_zombie (p.sched.task u).state ≡ true
    pub pids : (u : ℕ) → (q.thread u).pid ≡ (p.thread u).pid
    pub dead : (q.sched.task t).state ≡ zombie
    pub exit_code : (q.thread t).exit_code ≡ code
    pub root : q.init_t ≡ p.init_t
    pub not_root : (t == p.init_t) ≡ false

  -- the tree before `do_exit` tells the parent
  record Before (p : Procs S M) (t : ℕ) (q : Procs S M) : Type 0 where
    parent :
        (u : ℕ)
        → (q.thread u).parent
          ≡ (if ltb 0 (count u (p.thread t).child) then some p.init_t else (p.thread u).parent)
    children :
        (u c : ℕ)
        → count c (q.thread u).child
          ≡ (if u == t then 0 else count c (p.thread u).child)
            + (if u == p.init_t then count c (p.thread t).child else 0)
    pids : (u : ℕ) → (q.thread u).pid ≡ (p.thread u).pid
    same_sched : q.sched ≡ p.sched
    root : q.init_t ≡ p.init_t

module _ {S M : Type 0} where
  -- the state before `do_exit` releases what the thread has
  before : Procs S M → ℕ → Table → Files S → Procs S M
  before p t files k =
      reparent (put (record p { k = k }) t (record (p.thread t) { files = files })) t

  reparent-adopt :
      (p : Procs S M) (t : ℕ)
      → (t == p.init_t) ≡ false
      → reparent p t ≡ adopt (p.thread t).child (put p t (record (p.thread t) { child = [] }))
  unfolding reparent
  reparent-adopt p t ne = rw ne

  before-Before :
      (p : Procs S M) (t : ℕ) (files : Table) (k : Files S)
      → (t == p.init_t) ≡ false
      → Before p t (before p t files k)
  unfolding before
  before-Before p t files k ne =
      let p1 = put (record p { k = k }) t (record (p.thread t) { files = files }) in
      let e = reparent-adopt p1 t ne in
      let a = adopt-Adopted (p1.thread t).child (put p1 t (record (p1.thread t) { child = [] })) in
      record {
        parent = λ u. ground (arith, e, a.parent u);
        children = λ u c. ground (arith, e, a.children u c);
        pids = λ u. ground (arith, e, a.pids u);
        same_sched = ground (arith, e, a.same_sched);
        root = ground (arith, e, a.root);
      }

module _ {S M : Type 0} where
  -- the last assignments of `do_exit`
  last : Procs S M → ℕ → ℤ → Procs S M
  last r t code = record (put r t (record (r.thread t) { exit_code = code })) {
    sched = set_state r.sched t zombie;
  }

  last-Exited :
      (p b s r : Procs S M) (t : ℕ) (code : ℤ)
      → (t == p.init_t) ≡ false
      → Before p t b
      → Same b s
      → Told s r
      → Exited p t code (last r t code)
  unfolding last
  last-Exited p b s r t code ne x y z = record {
    parent = λ u. ground (arith, x.parent u, y.parent u, z.parent u);
    children = λ u c. ground (arith, x.children u c, y.child u, z.child u);
    state = λ u q n. ground (arith, z.state u, y.same_sched, x.same_sched);
    pids = λ u. ground (arith, x.pids u, y.pids u, z.pids u);
    dead = ground arith;
    exit_code = ground arith;
    root = ground (arith, x.root, y.root, z.root);
    not_root = ne;
  }

module _ {S M V : Type 0} (i : Inodes S) (vm : Vm M V) where
  do_exit-run :
      (p : Procs S M) (t : ℕ) (code : ℤ) {files : Table} {k1 : Files S} {pa : ℕ} {b r : Procs S M}
      → (not (t == p.init_t) && (p.thread t).tid == 0) ≡ true
      → fd_close_all i p.k (p.thread t).files ≡ some (files, k1)
      → release i vm (before p t files k1) t ≡ some b
      → (b.thread t).parent ≡ some pa
      → signal_parent (signal_process b (pos 17) (b.thread pa).pid) pa ≡ some r
      → do_exit i vm p t code ≡ some (last r t code)
  unfolding do_exit before last
  do_exit-run p t code g e c f h = rw (g, e, c, f, h)

  pub do_exit-Exited :
      (p : Procs S M) (t : ℕ) (code : ℤ) {q : Procs S M}
      → do_exit i vm p t code ≡ some q
      → Exited p t code q
  unfolding do_exit before
  do_exit-Exited p t code {q} h = elim (Option-cases (fd_close_all i p.k (p.thread t).files)) [
    | inl e ↦ absurd (ground arith)
    | inr ((files, k1), e) ↦
        let b0 = before p t files k1 in
        elim (Option-cases (release i vm b0 t)) [
          | inl n ↦ absurd (ground arith)
          | inr (b, c) ↦ elim (Option-cases (b.thread t).parent) [
            | inl n ↦ absurd (ground arith)
            | inr (pa, f) ↦
                let s = signal_process b (pos 17) (b.thread pa).pid in
                elim (Option-cases (signal_parent s pa)) [
                  | inl n ↦ absurd (ground arith)
                  | inr (r, g) ↦
                      let live : (not (t == p.init_t) && (p.thread t).tid == 0) ≡ true =
                        ground arith in
                      let same : last r t code ≡ q =
                        ground (arith, do_exit-run p t code live e c f g) in
                      let ne : (t == p.init_t) ≡ false = ground arith in
                      subst (λ x. Exited p t code x) same
                        (last-Exited p b0 s r t code ne (before-Before p t files k1 ne)
                          (Same-trans (release-Same i vm b0 t c)
                            (signal_process-Same b (pos 17) (b.thread pa).pid))
                          (signal_parent-Told s pa g))
                ]
          ]
        ]
  ]

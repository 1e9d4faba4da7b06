-- ===== src/Proc/Family.antt =====
-- The tree of processes of kernel/proc/proc.c while they fork, exit and wait.
use risc.Common.{
  ℕ, ◌≡◌, inl, inr, Bool, true, false, none, some, [], arith, ltb, ◌==◌, if◌then◌else◌, Bool-cases,
  update, ℤ,
}
use risc.Sched.Count.{count, holds}
use risc.Signal.{is_zombie}
use risc.Files.{Inodes}
use risc.Proc.{Vm, TrapFrame, Procs, do_fork}
use risc.Proc.Exit.{do_exit, take_zombie}
use risc.Proc.Tree.{Forked, do_fork-Forked}
use risc.Proc.Leave.{Exited, do_exit-Exited}
use risc.Proc.Wait.{Taken, take_zombie-Taken}

-- `live t` tells that the memory at `t` is a thread's, which `fork` takes and `waitpid` frees.
pub record System (S M : Type 0) : Type 0 where
  pub p : Procs S M
  pub live : ℕ → Bool

module _ {S M V : Type 0} (i : Inodes S) (vm : Vm M V) where
  pub data Step (s : System S M) : System S M → Type 0 where
    forks :
        (pa ch : ℕ) (frame : TrapFrame) (pid : ℕ) (q : Procs S M)
        → s.live pa ≡ true
        → is_zombie (s.p.sched.task pa).state ≡ false
        → s.live ch ≡ false
        → do_fork vm s.p pa ch frame ≡ some (pid, q)
        → Step s (record { p = q; live = update s.live ch true })
    exits :
        (t : ℕ) (code : ℤ) (q : Procs S M)
        → s.live t ≡ true
        → do_exit i vm s.p t code ≡ some q
        → Step s (record s { p = q })
    waits :
        (t : ℕ) (pid : ℤ) (c : ℕ) (q : Procs S M)
        → s.live t ≡ true
        → take_zombie s.p t pid ≡ some (c, q)
        → Step s (record { p = q; live = update s.live c false })
    -- anything that leaves the tree and the dead as they are
    runs :
        (q : Procs S M)
        → ((u : ℕ)
            → ((q.thread u).parent ≡ (s.p.thread u).parent)
              × ((q.thread u).child ≡ (s.p.thread u).child)
              × (is_zombie (q.sched.task u).state ≡ is_zombie (s.p.sched.task u).state))
        → q.init_t ≡ s.p.init_t
        → Step s (record s { p = q })

  pub data Reach : System S M → Type 0 where
    boots :
        (p : Procs S M)
        → ((u : ℕ) → ((p.thread u).child ≡ []) × (is_zombie (p.sched.task u).state ≡ false))
        → (p.thread p.init_t).parent ≡ none
        → Reach (record { p = p; live = λ u. u == p.init_t })
    then_ : {s s1 : System S M} → Reach s → Step s s1 → Reach s1

module _ {S M : Type 0} where
  pub record IsValid (s : System S M) : Type 0 where
    -- a thread stands once among the children of its parent and nowhere else
    pub family :
        (t c : ℕ)
        → count c (s.p.thread t).child ≡ (if s.live c then holds t (s.p.thread c).parent else 0)
    -- a live thread is `init_t` or has a live parent
    pub rooted :
        (c : ℕ)
        → s.live c ≡ true
        → (c == s.p.init_t) ≡ false
        → (t : ℕ) × ((s.p.thread c).parent ≡ some t) × (s.live t ≡ true)
    pub root_live : s.live s.p.init_t ≡ true
    pub root_runs : is_zombie (s.p.sched.task s.p.init_t).state ≡ false
    pub root_none : (s.p.thread s.p.init_t).parent ≡ none
    pub childless :
        (t c : ℕ) → is_zombie (s.p.sched.task t).state ≡ true → count c (s.p.thread t).child ≡ 0

  -- no live thread has a parent that is not live
  no_orphan :
      (s : System S M) (t c : ℕ)
      → IsValid s
      → s.live t ≡ false
      → s.live c ≡ true
      → holds t (s.p.thread c).parent ≡ 0
  no_orphan s t c v n l = elim (Bool-cases (c == s.p.init_t)) [
    | inl e ↦ ground (arith, v.root_none)
    | inr e ↦ let (u, f, g) = v.rooted c l e in ground arith
  ]

  fork-IsValid :
      (s : System S M) (pa ch : ℕ) (q : Procs S M)
      → IsValid s
      → s.live pa ≡ true
      → is_zombie (s.p.sched.task pa).state ≡ false
      → s.live ch ≡ false
      → Forked s.p pa ch q
      → IsValid (record { p = q; live = update s.live ch true })
  fork-IsValid s pa ch q v a z n f = record {
    family = λ t c. ground (
      arith,
      f.parent c,
      f.children t,
      v.family t c,
      v.family t ch,
      v.family ch c,
      no_orphan s ch c v n,
    );
    rooted = λ c l r. elim (Bool-cases (c == ch)) [
      | inl e ↦ (pa, ground (arith, f.parent c), ground arith)
      | inr e ↦
          let (t, g, h) = v.rooted c (ground arith) (ground (arith, f.root)) in
          (t, ground (arith, f.parent c), ground arith)
    ];
    root_live = ground (arith, f.root, v.root_live);
    root_runs = ground (arith, f.root, f.state s.p.init_t, v.root_runs);
    root_none = ground (arith, f.root, f.parent s.p.init_t, v.root_none, v.root_live);
    childless = λ t c z1. ground (arith, f.state t z1, f.children t, v.childless t c);
  }

  exit-IsValid :
      (s : System S M) (t : ℕ) (code : ℤ) (q : Procs S M)
      → IsValid s
      → s.live t ≡ true
      → Exited s.p t code q
      → IsValid (record s { p = q })
  exit-IsValid s t code q v l x = record {
    family = λ u c. ground (
      arith,
      x.parent c,
      x.children u c,
      v.family u c,
      v.family t c,
      v.family s.p.init_t c,
      x.not_root,
    );
    rooted = λ c lc r. elim (Bool-cases (ltb 0 (count c (s.p.thread t).child))) [
      | inl e ↦ (s.p.init_t, ground (arith, x.parent c), v.root_live)
      | inr e ↦
          let (u, g, h) = v.rooted c lc (ground (arith, x.root)) in
          (u, ground (arith, x.parent c), h)
    ];
    root_live = ground (arith, x.root, v.root_live);
    root_runs = ground (arith, x.root, x.state s.p.init_t, v.root_runs, x.not_root);
    root_none = ground (arith, x.root, x.parent s.p.init_t, v.root_none, v.family t s.p.init_t);
    childless = λ u c z.
        ground
          (arith, x.state u z, x.children u c, v.childless u c, x.root, v.root_runs, x.not_root);
  }

  wait-IsValid :
      (s : System S M) (t : ℕ) (pid : ℤ) (c : ℕ) (q : Procs S M)
      → IsValid s
      → s.live t ≡ true
      → Taken s.p t pid c q
      → IsValid (record { p = q; live = update s.live c false })
  wait-IsValid s t pid c q v l x = record {
    family = λ u d. ground (
      arith,
      x.parent d,
      x.children u d,
      v.family u d,
      v.family t d,
      x.was_child,
      v.childless c d,
    );
    rooted = λ d ld r.
        let (u, g, h) = v.rooted d (ground arith) (ground (arith, x.root)) in
        (u, ground (arith, x.parent d), ground (arith, v.family c d, v.childless c d x.dead));
    root_live = ground (arith, x.root, v.root_live, v.root_runs, x.dead);
    root_runs = ground (arith, x.root, x.same_sched, v.root_runs);
    root_none = ground (arith, x.root, x.parent s.p.init_t, v.root_none);
    childless = λ u d z. ground (arith, x.same_sched, x.children u d, v.childless u d);
  }

  run-IsValid :
      (s : System S M) (q : Procs S M)
      → IsValid s
      → ((u : ℕ)
          → ((q.thread u).parent ≡ (s.p.thread u).parent)
            × ((q.thread u).child ≡ (s.p.thread u).child)
            × (is_zombie (q.sched.task u).state ≡ is_zombie (s.p.sched.task u).state))
      → q.init_t ≡ s.p.init_t
      → IsValid (record s { p = q })
  run-IsValid s q v same root = record {
    family = λ t c. ground (arith, same t, same c, v.family t c);
    rooted = λ c l r. let (t, g, h) = v.rooted c l (ground arith) in (t, ground (arith, same c), h);
    root_live = ground (arith, v.root_live);
    root_runs = ground (arith, v.root_runs, same s.p.init_t);
    root_none = ground (arith, v.root_none, same s.p.init_t);
    childless = λ t c z. ground (arith, same t, v.childless t c);
  }

module _ {S M V : Type 0} (i : Inodes S) (vm : Vm M V) where
  Step-IsValid : {s s1 : System S M} → IsValid s → Step i vm s s1 → IsValid s1
  Step-IsValid {s} v (forks pa ch frame pid q a z n e) =
      fork-IsValid s pa ch q v a z n (do_fork-Forked vm s.p pa ch frame (ground arith) e)
  Step-IsValid {s} v (exits t code q l e) =
      exit-IsValid s t code q v l (do_exit-Exited i vm s.p t code e)
  Step-IsValid {s} v (waits t pid c q l e) =
      wait-IsValid s t pid c q v l (take_zombie-Taken s.p t pid e)
  Step-IsValid {s} v (runs q same root) = run-IsValid s q v same root

  -- Whatever the processes do, they form a tree: a thread stands once among the children of its
  -- parent and in no other list, each thread that was not waited for but `init_t` has such a parent,
  -- and one that has exited has no children.
  pub family-IsValid : {s : System S M} → Reach i vm s → IsValid s
  family-IsValid (boots p start root) = record {
    family = λ t c. ground (arith, start t, root);
    rooted = λ c l r. absurd (ground arith);
    root_live = ground arith;
    root_runs = ground (arith, start p.init_t);
    root_none = root;
    childless = λ t c z. ground (arith, start t);
  }
  family-IsValid (then_ r st) = Step-IsValid (family-IsValid r) st

-- ===== src/Proc/Wait.antt =====
-- What `__waitpid` of kernel/proc/proc.c finds, and what `do_waitpid` returns.
use mathlib.Core.Path.{subst, ap, sym, ◌∙◌}
use risc.Hash.{HashTable, hash_del_node}
use risc.Common.{
  ℕ, ◌-◌, ◌<◌, ◌≡◌, refl, ◌⊎◌, inl, inr, true, false, ◌&&◌, none, some, List, [], ◌∷◌, arith, ◌==◌,
  if◌then◌else◌, Option-cases, Bool-cases, ℤ, pos, minus_one,
}
use risc.Sched.{remove}
use risc.Sched.Count.{count, count_without}
use risc.Signal.{is_zombie}
use risc.Files.{Inodes}
use risc.Proc.{Vm, Procs, put}
use risc.Proc.Leave.{do_exit-Exited}
use risc.Proc.Exit.{asks_for, do_exit, take_zombie, find_zombie, do_waitpid}

asks_for_self : (n m : ℕ) → 0 < n → m ≡ n → asks_for (pos n) m ≡ true
unfolding asks_for
asks_for_self n m lt e = ground arith

asks_for-eq : (n m : ℕ) → asks_for (pos n) m ≡ true → m ≡ n
unfolding asks_for
asks_for-eq n m h = ground arith

module _ {S M : Type 0} where
  pub find_zombie-some :
      (p : Procs S M) (pid : ℤ) (cs : List ℕ) (c : ℕ)
      → find_zombie p pid cs ≡ some c
      → (is_zombie (p.sched.task c).state ≡ true)
        × (asks_for pid (p.thread c).pid ≡ true)
        × (0 < count c cs)
  unfolding find_zombie
  find_zombie-some p pid [] c h = absurd (cc)
  find_zombie-some p pid (d ∷ cs) c h =
      elim (Bool-cases (is_zombie (p.sched.task d).state && asks_for pid (p.thread d).pid)) [
        | inl b ↦ let e : d ≡ c = ground arith in ground arith
        | inr b ↦ ground (arith, find_zombie-some p pid cs c (ground arith))
      ]

  pub find_zombie-none :
      (p : Procs S M) (pid : ℤ) (cs : List ℕ) (c : ℕ)
      → find_zombie p pid cs ≡ none
      → 0 < count c cs
      → (is_zombie (p.sched.task c).state && asks_for pid (p.thread c).pid) ≡ false
  unfolding find_zombie
  find_zombie-none p pid [] c h lt = absurd (omega arith)
  find_zombie-none p pid (d ∷ cs) c h lt =
      elim (Bool-cases (is_zombie (p.sched.task d).state && asks_for pid (p.thread d).pid)) [
        | inl b ↦ absurd (ground arith)
        | inr b ↦ elim (Bool-cases (d == c)) [
          | inl e ↦ ground arith
          | inr e ↦ find_zombie-none p pid cs c (ground arith) (ground arith)
        ]
      ]

  -- the zombie `c` is no child of `t` any more
  pub record Taken (p : Procs S M) (t : ℕ) (pid : ℤ) (c : ℕ) (q : Procs S M) : Type 0 where
    pub dead : is_zombie (p.sched.task c).state ≡ true
    pub asked : asks_for pid (p.thread c).pid ≡ true
    pub was_child : 0 < count c (p.thread t).child
    pub parent : (u : ℕ) → (q.thread u).parent ≡ (p.thread u).parent
    pub children :
        (u d : ℕ)
        → count d (q.thread u).child
          ≡ count d (p.thread u).child - (if u == t then (if c == d then 1 else 0) else 0)
    pub same_sched : q.sched ≡ p.sched
    pub root : q.init_t ≡ p.init_t

  pub take_zombie-Taken :
      (p : Procs S M) (t : ℕ) (pid : ℤ) {c : ℕ} {q : Procs S M}
      → take_zombie p t pid ≡ some (c, q)
      → Taken p t pid c q
  unfolding take_zombie
  take_zombie-Taken p t pid {c} {q} h = elim (Option-cases (find_zombie p pid (p.thread t).child)) [
    | inl e ↦ absurd (ground arith)
    | inr (d, e) ↦
        let s : d ≡ c = ground arith in
        let f : find_zombie p pid (p.thread t).child ≡ some c = ground arith in
        let g : put p t (record (p.thread t) { child = remove c (p.thread t).child }) ≡ q =
          ground arith in
        let r = find_zombie-some p pid (p.thread t).child c f in
        subst (λ x. Taken p t pid c x) g
          (record {
            dead = r.0;
            asked = r.1;
            was_child = r.2;
            parent = λ u. ground arith;
            children = λ u d. ground (arith, count_without c d (p.thread t).child);
            same_sched = refl;
            root = refl;
          })
  ]

  -- What `do_waitpid` returns. Either no child of `t` that `pid` asks for is a zombie, and it is -1
  -- with nothing changed, or it is the pid and the exit code of such a child, which is gone from
  -- the children of `t`.
  pub record Waited (p : Procs S M) (t : ℕ) (pid : ℤ) (out : (ℤ × ℤ) × Procs S M) : Type 0 where
    pub result :
        ((out ≡ ((minus_one, pos 0), p))
          × ((c : ℕ)
              → 0 < count c (p.thread t).child
              → (is_zombie (p.sched.task c).state && asks_for pid (p.thread c).pid) ≡ false))
        ⊎ ((c : ℕ) × Taken p t pid c out.1
            × (out.0.0 ≡ pos (p.thread c).pid)
            × (out.0.1 ≡ (p.thread c).exit_code))

  kept :
      (p : Procs S M) (t : ℕ) (pid : ℤ) {c : ℕ} {q : Procs S M}
      → take_zombie p t pid ≡ some (c, q)
      → ((q.thread c).pid ≡ (p.thread c).pid) × ((q.thread c).exit_code ≡ (p.thread c).exit_code)
  unfolding take_zombie
  kept p t pid {c} {q} h = ground arith

  waitpid-none :
      (p : Procs S M) (t : ℕ) (pid : ℤ)
      → take_zombie p t pid ≡ none
      → do_waitpid p t pid ≡ ((minus_one, pos 0), p)
  unfolding do_waitpid
  waitpid-none p t pid e = ground (arith, e)

  nothing :
      (p : Procs S M) (t : ℕ) (pid : ℤ)
      → take_zombie p t pid ≡ none
      → find_zombie p pid (p.thread t).child ≡ none
  unfolding take_zombie
  nothing p t pid e = ground arith

  waitpid-some :
      (p : Procs S M) (t : ℕ) (pid : ℤ) {c : ℕ} {q : Procs S M}
      → take_zombie p t pid ≡ some (c, q)
      → do_waitpid p t pid ≡ (
        (pos (q.thread c).pid, (q.thread c).exit_code),
        record q { global_proc_table = hash_del_node q.global_proc_table c },
      )
  unfolding do_waitpid
  waitpid-some p t pid {c} {q} e = ground (arith, e)

  Taken-table :
      (p q : Procs S M) (t : ℕ) (pid : ℤ) (c : ℕ) (h : HashTable)
      → Taken p t pid c q
      → Taken p t pid c (record q { global_proc_table = h })
  Taken-table p q t pid c h x = record {
    dead = x.dead;
    asked = x.asked;
    was_child = x.was_child;
    parent = x.parent;
    children = x.children;
    same_sched = x.same_sched;
    root = x.root;
  }

  -- `Waited` holds in every state, for every `pid`.
  pub do_waitpid-Waited : (p : Procs S M) (t : ℕ) (pid : ℤ) → Waited p t pid (do_waitpid p t pid)
  do_waitpid-Waited p t pid = record {
    result = elim (Option-cases (take_zombie p t pid)) [
      | inl e ↦ inl (
        waitpid-none p t pid e,
        λ c lt. find_zombie-none p pid (p.thread t).child c (nothing p t pid e) lt,
      )
      | inr ((c, q), e) ↦
          let w = waitpid-some p t pid e in
          inr (
            c,
            subst (λ x. Taken p t pid c x.1) (sym w)
                (Taken-table p q t pid c (hash_del_node q.global_proc_table c)
                  (take_zombie-Taken p t pid e)),
            ap (λ x. x.0.0) w ∙ ap pos (kept p t pid e).0,
            ap (λ x. x.0.1) w ∙ (kept p t pid e).1,
          )
    ];
  }

  -- A child that exits is what its parent's `do_waitpid` for its pid finds next, with the code it
  -- gave to `do_exit`, if no other child has that pid.
  pub do_waitpid-do_exit :
      {V : Type 0} (i : Inodes S) (vm : Vm M V) (p q : Procs S M) (t c : ℕ) (code : ℤ)
      → do_exit i vm p c code ≡ some q
      → 0 < count c (p.thread t).child
      → (t == c) ≡ false
      → 0 < (p.thread c).pid
      → ((d : ℕ) → 0 < count d (q.thread t).child → (q.thread d).pid ≡ (p.thread c).pid → d ≡ c)
      → (do_waitpid q t (pos (p.thread c).pid)).0 ≡ (pos (p.thread c).pid, code)
  do_waitpid-do_exit i vm p q t c code h child ne lt only =
      let x = do_exit-Exited i vm p c code h in
      let pid = pos (p.thread c).pid in
      let still : 0 < count c (q.thread t).child = ground (arith, x.children t c) in
      let asked : asks_for pid (q.thread c).pid ≡ true =
        asks_for_self (p.thread c).pid (q.thread c).pid lt (x.pids c) in
      elim (do_waitpid-Waited q t pid).result [
        | inl (e, all) ↦ absurd (ground (arith, all c still, x.dead))
        | inr (d, y, e, f) ↦
            let same : d ≡ c =
              only d y.was_child (asks_for-eq (p.thread c).pid (q.thread d).pid y.asked) in
            ground (arith, e, f, same, x.exit_code, x.pids c)
      ]

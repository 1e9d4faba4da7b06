-- ===== src/Proc/Inherit.antt =====
-- What a child gets from its parent in `do_fork` of kernel/proc/proc.c.
use risc.Common.{
  ℕ, ◌+◌, ◌≡◌, refl, inl, inr, false, none, some, List, [], ◌∷◌, arith, ◌==◌, if◌then◌else◌,
  Option-cases, Bool-cases, replicate,
}
use risc.Files.{Files, files_init}
use risc.Files.Counts.{one, file_dup-refs}
use mathlib.Core.Path.{subst}
use risc.Files.Refs.{copy_files_loses}
use risc.Proc.{
  Vm, TrapFrame, Procs, put, kernel_stack_top, uthread_struct_init, copy_proc, copy_tf, copy_vm,
  dup_all, dup_file, copy_sigs, do_fork, blank,
}

module _ {M V : Type 0} (vm : Vm M V) where
  -- the areas that `vma_gen_file_dup` copies and whose file is `b`
  unfoldable pub mapped : ℕ → List V → ℕ
  mapped b [] = 0
  mapped b (v ∷ vs) = (if vm.has_file v then one b (vm.vm_file v) else 0) + mapped b vs

module _ {S M V : Type 0} (vm : Vm M V) where
  -- the child `ch` of `pa` after the fork that led from `p` to `q`
  pub record Inherits (p : Procs S M) (pa ch pid : ℕ) (q : Procs S M) : Type 0 where
    pub numbered : (q.thread ch).pid ≡ pid
    pub frame : TrapFrame
    pub parent_frame : (p.thread pa).tf ≡ some frame
    pub child_frame :
        (q.thread ch).tf ≡ some (record frame { kernel_sp = kernel_stack_top ch; a0 = 0 })
    pub named : (q.thread ch).name ≡ (p.thread pa).name
    pub handlers : (q.thread ch).sigs.siga ≡ (p.thread pa).sigs.siga
    pub mask : (q.thread ch).sigs.blocked ≡ (p.thread pa).sigs.blocked
    pub pending : (q.thread ch).sigs.signal ≡ replicate 32 false
    pub pending_count : (q.thread ch).sigs.sigpend ≡ (p.thread pa).sigs.sigpend
    pub no_files : (q.thread ch).files ≡ files_init
    pub files_lost : (q.thread pa).files ≡ files_init
    pub refs :
        (b : ℕ) → (q.k.file b).f_ref ≡ (p.k.file b).f_ref + mapped vm b (vm.mmap (p.thread pa).mm)

  -- the state before the child is put into the tree
  copied : Procs S M → ℕ → ℕ → TrapFrame → (M × M) × Files S → Procs S M
  copied p ch pa frame ((ch_mm, pa_mm), k) =
      let child = record (p.thread ch) {
        tf = some (copy_tf ch frame);
        mm = ch_mm;
        files = files_init;
        sigs = copy_sigs (p.thread ch).sigs (p.thread pa).sigs;
      } in
      put (put (record p { k = k }) ch child) pa
        (record (p.thread pa) { mm = pa_mm; files = files_init })

  copy_proc-copied :
      (p : Procs S M) (ch pa : ℕ) (frame : TrapFrame) {c : (M × M) × Files S}
      → (p.thread pa).tf ≡ some frame
      → copy_vm vm (p.thread ch).mm (p.thread pa).mm p.k ≡ some c
      → (p.thread ch).files ≡ files_init
      → copy_proc vm p ch pa ≡ some (copied p ch pa frame c)
  unfolding copy_proc copied
  copy_proc-copied p ch pa frame {c} e m f = rw (e, m, f, copy_files_loses c.1 (p.thread pa).files)

  copy_proc_stops :
      (p : Procs S M) (ch pa : ℕ) → (p.thread pa).tf ≡ none → copy_proc vm p ch pa ≡ none
  unfolding copy_proc
  copy_proc_stops p ch pa e = rw e

  copy_proc_fails :
      (p : Procs S M) (ch pa : ℕ)
      → copy_vm vm (p.thread ch).mm (p.thread pa).mm p.k ≡ none
      → copy_proc vm p ch pa ≡ none
  unfolding copy_proc
  copy_proc_fails p ch pa e = elim (Option-cases (p.thread pa).tf) [
    | inl n ↦ rw n
    | inr (f, n) ↦ rw (n, e)
  ]

  dup_file-refs :
      (k : Files S) (v : V) {k1 : Files S}
      → dup_file vm k v ≡ some k1
      → (b : ℕ)
      → (k1.file b).f_ref ≡ (k.file b).f_ref + (if vm.has_file v then one b (vm.vm_file v) else 0)
  unfolding dup_file
  dup_file-refs k v {k1} h b = elim (Bool-cases (vm.has_file v)) [
    | inr e ↦ ground arith
    | inl e ↦ elim (Option-cases (vm.vm_file v)) [
      | inl n ↦ absurd (ground arith)
      | inr (a, n) ↦ ground (arith, file_dup-refs k a {k1 = k1} (ground arith) b)
    ]
  ]

  dup_all-refs :
      (vs : List V) (mms : M × M) (k : Files S) {out : (M × M) × Files S}
      → dup_all vm vs mms k ≡ some out
      → (b : ℕ) → (out.1.file b).f_ref ≡ (k.file b).f_ref + mapped vm b vs
  unfolding dup_all mapped
  dup_all-refs [] mms k {out} h b =
      let h1 : some (mms, k) ≡ some out = h in
      let q : (mms, k) ≡ out = ground arith in
      subst (λ o. (o.1.file b).f_ref ≡ (k.file b).f_ref + 0) q (omega arith)
  dup_all-refs (v ∷ vs) mms k {out} h b = elim (Option-cases (dup_file vm k v)) [
    | inl e ↦ absurd (ground arith)
    | inr (k1, e) ↦ ground (
      arith,
      dup_file-refs k v e b,
      dup_all-refs vs (vm.vma_gen_dup v mms) k1 {out = out} (ground arith) b,
    )
  ]

  copy_vm-refs :
      (ch pa : M) (k : Files S) {out : (M × M) × Files S}
      → copy_vm vm ch pa k ≡ some out
      → (b : ℕ) → (out.1.file b).f_ref ≡ (k.file b).f_ref + mapped vm b (vm.mmap pa)
  unfolding copy_vm
  copy_vm-refs ch pa k h = dup_all-refs (vm.mmap pa) (vm.alloc_user_pgd ch, pa) k h

  fresh :
      (p : Procs S M) (ch : ℕ) (frame : TrapFrame)
      → ((uthread_struct_init vm p ch frame).thread ch).files ≡ files_init
  unfolding uthread_struct_init blank
  fresh p ch frame = ground arith

  others :
      (p : Procs S M) (ch u : ℕ) (frame : TrapFrame)
      → (u == ch) ≡ false
      → (uthread_struct_init vm p ch frame).thread u ≡ p.thread u
  unfolding uthread_struct_init
  others p ch u frame ne = ground arith

  k_kept :
      (p : Procs S M) (ch : ℕ) (frame : TrapFrame) → (uthread_struct_init vm p ch frame).k ≡ p.k
  unfolding uthread_struct_init
  k_kept p ch frame = refl

  -- A fork gives the child the registers of the parent with 0 in `a0` and its own kernel stack, the
  -- name, the handlers and the mask of blocked signals. The count of pending signals comes without the
  -- signals. The files are lost: both tables are empty then, and the `f_ref` of a file grows by the
  -- number of the parent's areas that map it, whatever the descriptors that were lost.
  pub do_fork-Inherits :
      (p : Procs S M) (pa ch pid : ℕ) (frame : TrapFrame) {q : Procs S M}
      → (pa == ch) ≡ false
      → do_fork vm p pa ch frame ≡ some (pid, q)
      → Inherits p pa ch pid q
  unfolding do_fork copied copy_tf copy_sigs
  do_fork-Inherits p pa ch pid frame {q} ne h =
      let r = uthread_struct_init vm p ch frame in
      let o = others p ch pa frame ne in
      elim (Option-cases (p.thread pa).tf) [
        | inl e ↦ absurd (ground (arith, copy_proc_stops r ch pa (ground (arith, o))))
        | inr (f, e) ↦ elim (Option-cases (copy_vm vm (r.thread ch).mm (r.thread pa).mm r.k)) [
          | inl n ↦ absurd (ground (arith, copy_proc_fails r ch pa n))
          | inr (m, n) ↦
              let c : copy_proc vm r ch pa ≡ some (copied r ch pa f m) =
                copy_proc-copied r ch pa f (ground (arith, o)) n (fresh p ch frame) in
              record {
                numbered = ground (arith, c);
                frame = f;
                parent_frame = e;
                child_frame = ground (arith, c);
                named = ground (arith, c, o);
                handlers = ground (arith, c, o);
                mask = ground (arith, c, o);
                pending = ground (arith, c);
                pending_count = ground (arith, c, o);
                no_files = ground (arith, c);
                files_lost = ground (arith, c);
                refs = λ b. ground (
                  arith,
                  c,
                  k_kept p ch frame,
                  o,
                  copy_vm-refs (r.thread ch).mm (r.thread pa).mm r.k n b,
                );
              }
        ]
      ]

-- ===== src/Signal/Handlers.antt =====
-- Runs of the operations of kernel/proc/signal.c on the signals of one process.
use risc.Common.{
  ℕ, ◌+◌, ◌^◌, ◌≤◌, ◌<◌, ◌≡◌, ◌≢◌, refl, Bool, true, false, none, some, List, ◌⊎◌, inl, inr, arith,
  get_or, get_or-set_ne, get_or-set_self, set, length, length-set, ℤ, pos, negsuc, leb, ◌==◌,
  Option-cases, Bool-cases,
}
use risc.Sched.{TaskState}
use risc.Signal.{
  Signal, SigSet, Handler, default, null, Action, shift, nsig, post, send_sig, signal_handler,
  detect_sig_valid, sig_init, is_zombie, default_table, sig_set_blocked, sig_clear_blocked,
  sig_set_sigaction, sig_refault, sig_refault_all, default_signal_handlers, sigkill, sigstop,
  sig_pop,
}
use risc.Signal.Pending.{
  IsValid, post-IsValid, signal_handler-IsValid, signal_handler-Delivered, pending, sig_pop-Taken,
}

-- One call that changes the signals of a live process.
pub data Step : Signal → Signal → Type 0 where
  sends :
      {s s' : Signal} (sig : ℤ) (state : TaskState)
      → s.sigpend + 1 < 2 ^ 32
      → send_sig sig (some (state, s)) ≡ some (state, s')
      → Step s s'
  handles : {s : Signal} → Step s (signal_handler s).1
  blocks : {s : Signal} (sig : ℤ) → Step s (sig_set_blocked s sig).1
  unblocks : {s : Signal} (sig : ℤ) → Step s (sig_clear_blocked s sig).1
  catches : {s : Signal} (sig : ℤ) (h : Handler) → Step s (sig_set_sigaction s sig h).1
  refaults : {s : Signal} (sig : ℤ) → Step s (sig_refault s sig)
  refaults_all : {s : Signal} → Step s (sig_refault_all s)

pub data Reach (blocked : SigSet) : Signal → Type 0 where
  start : Reach blocked (sig_init blocked)
  then_ : {s s' : Signal} → Reach blocked s → Step s s' → Reach blocked s'

-- the default handlers stand where no handler may be set
pub record Guarded (s : Signal) : Type 0 where
  pub valid : IsValid s
  pub kill : get_or s.siga sigkill null ≡ default sigkill
  pub stop : get_or s.siga sigstop null ≡ default sigstop

pub detect_sig_valid-cases :
    (sig : ℤ)
    → (detect_sig_valid sig ≡ none) ⊎ ((n : ℕ) × ((n < 64) × (detect_sig_valid sig ≡ some n)))
unfolding detect_sig_valid
detect_sig_valid-cases (negsuc n) = inl refl
detect_sig_valid-cases (pos n) = elim (Bool-cases (leb nsig n)) [
  | inl e ↦ inl (ground (arith, e))
  | inr e ↦ inr (n, (ground (arith, e), ground (arith, e)))
]

pub send_sig-cases :
    (sig : ℤ) (state : TaskState) (s : Signal)
    → (send_sig sig (some (state, s)) ≡ some (state, s))
      ⊎ ((n : ℕ) × ((n < 64) × (send_sig sig (some (state, s)) ≡ some (state, post s n))))
unfolding send_sig
send_sig-cases sig state s = elim (detect_sig_valid-cases sig) [
  | inl e ↦ inl (ground (arith, e))
  | inr (n, (l, e)) ↦ elim (Bool-cases (is_zombie state)) [
    | inl z ↦ inl (ground (arith, e, z))
    | inr z ↦ inr (n, (l, ground (arith, e, z)))
  ]
]

post-siga : (s : Signal) (sig : ℕ) → (post s sig).siga ≡ s.siga
unfolding post
post-siga s sig = ground arith

signal_handler-siga : (s : Signal) → (signal_handler s).1.siga ≡ s.siga
unfolding signal_handler
signal_handler-siga s =
    let t = sig_pop-Taken s in
    elim (Option-cases (sig_pop s).0) [
      | inl e ↦ ground (arith, e, t.same_handlers)
      | inr (sig, e) ↦ ground (arith, e, t.same_handlers)
    ]

sig_set_sigaction-Guarded :
    (s : Signal) (sig : ℤ) (h : Handler) → Guarded s → Guarded (sig_set_sigaction s sig h).1
unfolding sig_set_sigaction
sig_set_sigaction-Guarded s sig h g =
    let v : IsValid s = g.valid in
    elim (detect_sig_valid-cases sig) [
      | inl e ↦ ground (arith, e, g)
      | inr (n, (l, e)) ↦ ground (
        arith,
        e,
        g,
        v.width,
        v.blocked_width,
        v.counted,
        v.handlers,
        g.kill,
        g.stop,
        length-set s.siga n h,
        get_or-set_ne s.siga n sigkill h null,
        get_or-set_ne s.siga n sigstop h null,
      )
    ]

default_table-Guarded :
    (length (default_table 0 nsig) ≡ 64)
    × (get_or (default_table 0 nsig) sigkill null ≡ default sigkill)
    × (get_or (default_table 0 nsig) sigstop null ≡ default sigstop)
unfolding default_table default_signal_handlers
default_table-Guarded = (refl, refl, refl)

refaulted :
    (t : List Handler) (n k : ℕ)
    → k < length t
    → default_signal_handlers k ≡ default k
    → get_or t k null ≡ default k
    → get_or (set t n (default_signal_handlers n)) k null ≡ default k
refaulted t n k l d e = elim (Bool-cases (n == k)) [
  | inl q ↦ ground (arith, q, d, get_or-set_self t n (default_signal_handlers n) null)
  | inr q ↦ ground (arith, q, e, get_or-set_ne t n k (default_signal_handlers n) null)
]

default_guards :
    (default_signal_handlers sigkill ≡ default sigkill)
    × (default_signal_handlers sigstop ≡ default sigstop)
unfolding default_signal_handlers
default_guards = (refl, refl)

sig_refault-Guarded : (s : Signal) (sig : ℤ) → Guarded s → Guarded (sig_refault s sig)
unfolding sig_refault
sig_refault-Guarded s sig g =
    let v : IsValid s = g.valid in
    elim (detect_sig_valid-cases sig) [
      | inl e ↦ ground (arith, e, g)
      | inr (n, (l, e)) ↦ ground (
        arith,
        e,
        g,
        v.width,
        v.blocked_width,
        v.counted,
        v.handlers,
        default_guards,
        g.kill,
        g.stop,
        length-set s.siga n (default_signal_handlers n),
        refaulted s.siga n sigkill,
        refaulted s.siga n sigstop,
      )
    ]

set_blocked-Guarded :
    (s : Signal) (i : ℕ) (b : Bool) → Guarded s → Guarded (record s { blocked = set s.blocked i b })
set_blocked-Guarded s i b g =
    let v : IsValid s = g.valid in
    ground (
      arith,
      v.width,
      v.blocked_width,
      v.counted,
      v.handlers,
      g.kill,
      g.stop,
      length-set s.blocked i b,
    )

sig_set_blocked-Guarded : (s : Signal) (sig : ℤ) → Guarded s → Guarded (sig_set_blocked s sig).1
unfolding sig_set_blocked
sig_set_blocked-Guarded s sig g = elim (detect_sig_valid-cases sig) [
  | inl e ↦ ground (arith, e, g)
  | inr (n, (l, e)) ↦ ground (arith, e, g, set_blocked-Guarded s (shift n) true g)
]

sig_clear_blocked-Guarded : (s : Signal) (sig : ℤ) → Guarded s → Guarded (sig_clear_blocked s sig).1
unfolding sig_clear_blocked
sig_clear_blocked-Guarded s sig g = elim (detect_sig_valid-cases sig) [
  | inl e ↦ ground (arith, e, g)
  | inr (n, (l, e)) ↦ ground (arith, e, g, set_blocked-Guarded s (shift n) false g)
]

sig_step-Guarded : {s s' : Signal} → Step s s' → Guarded s → Guarded s'
unfolding sig_refault_all
sig_step-Guarded {s = s} {s' = s'} (sends sig state b e) g = elim (send_sig-cases sig state s) [
  | inl q ↦ ground (arith, q, e, g)
  | inr (n, (l, q)) ↦
      ground (arith, q, e, g.kill, g.stop, post-siga s n, post-IsValid s n b g.valid)
]
sig_step-Guarded {s = s} handles g =
    ground (arith, signal_handler-IsValid s g.valid, signal_handler-siga s, g.kill, g.stop)
sig_step-Guarded {s = s} (blocks sig) g = sig_set_blocked-Guarded s sig g
sig_step-Guarded {s = s} (unblocks sig) g = sig_clear_blocked-Guarded s sig g
sig_step-Guarded {s = s} (catches sig h) g = sig_set_sigaction-Guarded s sig h g
sig_step-Guarded {s = s} (refaults sig) g = sig_refault-Guarded s sig g
sig_step-Guarded {s = s} refaults_all g =
    let v : IsValid s = g.valid in
    let (w, k, p) = default_table-Guarded in
    ground (arith, v.width, v.blocked_width, v.counted, w, k, p)

sig_init-Guarded : (blocked : SigSet) → length blocked ≡ 32 → Guarded (sig_init blocked)
unfolding sig_init
sig_init-Guarded blocked w =
    let (h, k, p) = default_table-Guarded in
    record {
      valid = record { width = refl; blocked_width = w; handlers = h; counted = omega arith };
      kill = k;
      stop = p;
    }

pub sig_run-Guarded :
    {blocked : SigSet} {s : Signal} → length blocked ≡ 32 → Reach blocked s → Guarded s
sig_run-Guarded {blocked} w start = sig_init-Guarded blocked w
sig_run-Guarded w (then_ r st) = sig_step-Guarded st (sig_run-Guarded w r)

-- Whatever is sent, handled, blocked, caught and reset after `sig_init`, SIGKILL and SIGSTOP keep
-- the kernel's own handlers.
pub kill_and_stop_stay :
    {blocked : SigSet} {s : Signal}
    → length blocked ≡ 32
    → Reach blocked s
    → (get_or s.siga sigkill null ≡ default sigkill)
      × (get_or s.siga sigstop null ≡ default sigstop)
kill_and_stop_stay w r = let g = sig_run-Guarded w r in (g.kill, g.stop)

-- In every state that the operations reach from `sig_init` with fewer than 2^32 signals counted,
-- `signal_handler` delivers one signal if any is pending, leaving exactly one less pending, and
-- does nothing if none is.
pub signal_handler_delivers :
    {blocked : SigSet} {s : Signal}
    → length blocked ≡ 32
    → Reach blocked s
    → let (a, s') = signal_handler s in
      (1 ≤ pending s → (a ≢ Action.nothing) × (pending s ≡ pending s' + 1))
      × (pending s ≡ 0 → (a ≡ Action.nothing) × (pending s' ≡ 0))
signal_handler_delivers {s = s} w r =
    let d = signal_handler-Delivered s (sig_run-Guarded w r).valid in (d.one_less, d.idle)

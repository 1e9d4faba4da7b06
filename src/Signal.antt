-- ===== src/Signal.antt =====
-- kernel/proc/signal.c and include/core/signal.h: pending and blocked signals and their handlers.
-- Each function that holds the lock of a `struct signal` is one step.
pub mod Pending
pub mod Delivery
pub mod Handlers
mod Tests
use risc.Common.{
  ℕ, zero, suc, ◌+◌, ◌-◌, ◌%◌, ◌^◌, Bool, true, false, ◌&&◌, ◌||◌, Option, none, some, List, [],
  ◌∷◌, ltb, leb, ◌==◌, if◌then◌else◌, get_or, set, replicate, ℤ, pos, negsuc, minus_one,
}
use risc.Fifo.Queue
use risc.Fifo.Queue.{Queue}
use risc.Sched.{TaskState, zombie}

abbrev pub nsig : ℕ
nsig = 64

abbrev pub n_stdsig : ℕ
n_stdsig = 32

abbrev pub sigkill : ℕ
sigkill = 9

abbrev pub sigstop : ℕ
sigstop = 19

-- a `sigset_t`, its bits from the lowest on
abbrev pub SigSet : Type 0
SigSet = List Bool

-- `1 << sig` is the 32-bit shift of the machine, which reads the low five bits of its count.
abbrev pub shift : ℕ → ℕ
shift sig = sig % 32

-- a `__sighandler_t`: `NULL`, one of the functions of this file, or a user's
pub data Handler : Type 0 where
  null : Handler
  default : ℕ → Handler
  user : ℕ → Handler

-- `struct sigpending` and the other fields of `struct signal`
pub record Signal : Type 0 where
  pub sigpend : ℕ
  pub queue : Queue
  pub signal : SigSet
  pub blocked : SigSet
  pub siga : List Handler

-- `default_signal_handlers`, which names no handler for 0, 1, 4, 7, 13, 16 and from 21 on
pub default_signal_handlers : ℕ → Handler
default_signal_handlers sig =
    if ltb 20 sig
    then null
    else if (sig == 0 || sig == 1 || sig == 4) || (sig == 7 || sig == 13 || sig == 16)
    then null
    else default sig

-- the handlers of the `n` signals from `sig` on
pub default_table : ℕ → ℕ → List Handler
unfolding default_signal_handlers
default_table sig zero = []
default_table sig (suc n) = default_signal_handlers sig ∷ default_table (sig + 1) n

-- `sig_init` with `sigpending_init` and `signal_struct_init`; `blocked` keeps what memory held.
pub sig_init : SigSet → Signal
unfolding default_table
sig_init blocked = record {
  sigpend = 0;
  queue = [];
  signal = replicate 32 false;
  blocked = blocked;
  siga = default_table 0 nsig;
}

-- `detect_sig_valid` as a partial conversion of the number
pub detect_sig_valid : ℤ → Option ℕ
detect_sig_valid (negsuc n) = none
detect_sig_valid (pos sig) = if leb nsig sig then none else some sig

-- `std_sig_pop`: the lowest bit that is set, and the set without it; `i` is the loop's counter.
pub std_sig_pop : ℕ → SigSet → Option ℕ × SigSet
std_sig_pop i [] = (none, [])
std_sig_pop i (true ∷ s) = (some i, false ∷ s)
std_sig_pop i (false ∷ s) = let (found, s') = std_sig_pop (i + 1) s in (found, false ∷ s')

-- `sig_pop`, with `realtime_sig_pop` where no standard signal is pending
pub sig_pop : Signal → Option ℕ × Signal
unfolding std_sig_pop
sig_pop s =
    let (found, rest) = std_sig_pop 0 s.signal in
    elim found [
      | some sig ↦ (some sig, record s { signal = rest })
      | none ↦ let (info, q) = Queue.pop s.queue in (info, record s { queue = q })
    ]

-- what `signal_handler` does after it has let go of the lock
pub data Action : Type 0 where
  nothing : Action
  ignore : ℕ → Action
  run_default : ℕ → Action
  run_user : Handler → Action

-- `do_sig_handler == default_signal_handlers[si]`
abbrev pub same_handler : Handler → Handler → Bool
same_handler null null = true
same_handler (default d) (default e) = d == e
same_handler (user f) (user g) = f == g
same_handler h h' = false

pub act : ℕ → Handler → Action
unfolding default_signal_handlers
act sig null = ignore sig
act sig (default d) =
    if same_handler (default d) (default_signal_handlers sig)
    then run_default sig
    else run_user (default d)
act sig (user f) = run_user (user f)

pub signal_handler : Signal → Action × Signal
unfolding sig_pop act
signal_handler s =
    let (si, s') = sig_pop s in
    if s.sigpend == 0 then (nothing, s) else elim si [
      | none ↦ (nothing, s')
      | some sig ↦ (act sig (get_or s'.siga sig null), record s' { sigpend = s'.sigpend - 1 })
    ]

-- what `send_sig` does to a live target at a valid signal
pub post : Signal → ℕ → Signal
post s sig =
    let counted = (s.sigpend + 1) % 2 ^ 32 in
    if get_or s.blocked (shift sig) false
    then s
    else if ltb sig n_stdsig
    then record s { signal = set s.signal (shift sig) true; sigpend = counted }
    else record s { queue = Queue.push s.queue sig; sigpend = counted }

abbrev pub is_zombie : TaskState → Bool
is_zombie zombie = true
is_zombie state = false

-- `send_sig` to the process that `find_proc` finds, if any, with the state of its thread
pub send_sig : ℤ → Option (TaskState × Signal) → Option (TaskState × Signal)
unfolding detect_sig_valid post
send_sig sig none = none
send_sig sig (some (state, s)) = elim (detect_sig_valid sig) [
  | none ↦ some (state, s)
  | some n ↦ some (state, if is_zombie state then s else post s n)
]

pub sig_clear_blocked : Signal → ℤ → ℤ × Signal
unfolding detect_sig_valid
sig_clear_blocked s sig = elim (detect_sig_valid sig) [
  | none ↦ (minus_one, s)
  | some n ↦ (pos 0, record s { blocked = set s.blocked (shift n) false })
]

-- the `switch` of `sig_set_blocked` and `sig_set_sigaction`
abbrev pub cannot_be_caught : ℕ → Bool
cannot_be_caught sig = sig == sigstop || sig == sigkill

pub sig_set_blocked : Signal → ℤ → ℤ × Signal
unfolding detect_sig_valid
sig_set_blocked s sig = elim (detect_sig_valid sig) [
  | none ↦ (minus_one, s)
  | some n ↦
      if cannot_be_caught n
      then (minus_one, s)
      else (pos 0, record s { blocked = set s.blocked (shift n) true })
]

pub sig_refault_all : Signal → Signal
unfolding default_table
sig_refault_all s = record s { siga = default_table 0 nsig }

pub sig_refault : Signal → ℤ → Signal
unfolding detect_sig_valid default_signal_handlers
sig_refault s sig = elim (detect_sig_valid sig) [
  | none ↦ s
  | some n ↦ record s { siga = set s.siga n (default_signal_handlers n) }
]

pub sig_set_sigaction : Signal → ℤ → Handler → ℤ × Signal
unfolding detect_sig_valid
sig_set_sigaction s sig handler = elim (detect_sig_valid sig) [
  | none ↦ (minus_one, s)
  | some n ↦
      if cannot_be_caught n
      then (minus_one, s)
      else (pos 0, record s { siga = set s.siga n handler })
]

-- the loop of `sig_release_all`: one `realtime_sig_pop` for each entry of the queue
abbrev pub release_queue : Queue → Queue
release_queue [] = []
release_queue (info ∷ q) = release_queue q

pub sig_release_all : Signal → Signal
sig_release_all s = record s { queue = release_queue s.queue }

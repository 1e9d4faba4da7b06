-- ===== src/Signal/Pending.antt =====
-- The count of pending signals of kernel/proc/signal.c covers the signals that are pending.
use risc.Common.{
  ℕ, zero, suc, ◌+◌, ◌^◌, ◌≤◌, ◌<◌, ◌≡◌, ◌≢◌, refl, ap, Bool, true, false, Option, none, [], ◌∷◌,
  ◌⊎◌, inl, inr, arith, get_or, set, length, length-snoc, length-set, is_some, Option-cases,
}
use risc.Fifo.Queue.{Queue}
use risc.Signal.{
  Signal, SigSet, shift, std_sig_pop, sig_pop, post, signal_handler, act, Action, Handler,
  default_signal_handlers,
}

abbrev pub bit : Bool → ℕ
bit true = 1
bit false = 0

abbrev pub ones : SigSet → ℕ
ones [] = 0
ones (b ∷ s) = bit b + ones s

abbrev pub pending : Signal → ℕ
pending s = ones s.signal + length s.queue

ones-set : (s : SigSet) (i : ℕ) (b : Bool) → ones (set s i b) ≤ ones s + 1
ones-set [] i b = omega arith
ones-set (true ∷ s) zero true = omega arith
ones-set (true ∷ s) zero false = omega arith
ones-set (false ∷ s) zero true = omega arith
ones-set (false ∷ s) zero false = omega arith
ones-set (b ∷ s) (suc i) c = omega (arith, ones-set s i c)

-- What a pop takes from the signals that are pending.
pub record Taken (s s' : Signal) (o : Option ℕ) : Type 0 where
  pub less : pending s ≡ pending s' + bit (is_some o)
  pub empty : o ≡ none → pending s ≡ 0
  pub same_width : length s'.signal ≡ length s.signal
  pub same_count : s'.sigpend ≡ s.sigpend
  pub same_handlers : s'.siga ≡ s.siga
  pub same_blocked : s'.blocked ≡ s.blocked

std_sig_pop-less :
    (i : ℕ) (s : SigSet) → let (o, s') = std_sig_pop i s in ones s ≡ ones s' + bit (is_some o)
unfolding std_sig_pop
std_sig_pop-less i [] = refl
std_sig_pop-less i (true ∷ s) = omega arith
std_sig_pop-less i (false ∷ s) = omega (arith, std_sig_pop-less (i + 1) s)

std_sig_pop-none : (i : ℕ) (s : SigSet) → (std_sig_pop i s).0 ≡ none → ones s ≡ 0
unfolding std_sig_pop
std_sig_pop-none i [] h = refl
std_sig_pop-none i (true ∷ s) h = ground arith
std_sig_pop-none i (false ∷ s) h = omega (arith, std_sig_pop-none (i + 1) s h)

std_sig_pop-length : (i : ℕ) (s : SigSet) → length (std_sig_pop i s).1 ≡ length s
unfolding std_sig_pop
std_sig_pop-length i [] = refl
std_sig_pop-length i (true ∷ s) = refl
std_sig_pop-length i (false ∷ s) = ap suc (std_sig_pop-length (i + 1) s)

Queue-cases : (q : Queue) → (q ≡ []) ⊎ ((x : ℕ) × ((q' : Queue) × (q ≡ x ∷ q')))
Queue-cases [] = inl refl
Queue-cases (x ∷ q) = inr (x, (q, refl))

pub sig_pop-Taken : (s : Signal) → Taken s (sig_pop s).1 (sig_pop s).0
unfolding sig_pop
sig_pop-Taken s =
    let less : (ones s.signal
        ≡ ones (std_sig_pop 0 s.signal).1 + bit (is_some (std_sig_pop 0 s.signal).0)) =
      std_sig_pop-less 0 s.signal in
    let width : (length (std_sig_pop 0 s.signal).1 ≡ length s.signal) =
      std_sig_pop-length 0 s.signal in
    let empty : ((std_sig_pop 0 s.signal).0 ≡ none → ones s.signal ≡ 0) =
      std_sig_pop-none 0 s.signal in
    elim (Queue-cases s.queue) [
      | inl e ↦ ground (arith, e, less, empty, width)
      | inr (x, (q, e)) ↦ ground (arith, e, less, empty, width)
    ]

pub record IsValid (s : Signal) : Type 0 where
  pub width : length s.signal ≡ 32
  pub blocked_width : length s.blocked ≡ 32
  pub handlers : length s.siga ≡ 64
  pub counted : pending s ≤ s.sigpend

pub post-IsValid :
    (s : Signal) (sig : ℕ) → s.sigpend + 1 < 2 ^ 32 → IsValid s → IsValid (post s sig)
unfolding post
post-IsValid s sig h v = ground (
  arith,
  h,
  v.width,
  v.blocked_width,
  v.handlers,
  v.counted,
  ones-set s.signal (shift sig) true,
  length-set s.signal (shift sig) true,
  length-snoc s.queue sig,
)

-- What a return to user space does with the signals that are pending.
pub record Delivered (s s' : Signal) (a : Action) : Type 0 where
  pub idle : pending s ≡ 0 → (a ≡ Action.nothing) × (pending s' ≡ 0)
  pub one_less : 1 ≤ pending s → (a ≢ Action.nothing) × (pending s ≡ pending s' + 1)

act-≢ : (sig : ℕ) (h : Handler) → act sig h ≢ Action.nothing
unfolding act default_signal_handlers
act-≢ sig Handler.null = ground arith
act-≢ sig (Handler.default d) = ground arith
act-≢ sig (Handler.user f) = ground arith

pub signal_handler-Delivered :
    (s : Signal) → IsValid s → Delivered s (signal_handler s).1 (signal_handler s).0
unfolding signal_handler
signal_handler-Delivered s v =
    let t = sig_pop-Taken s in
    elim (Option-cases (sig_pop s).0) [
      | inl e ↦ ground (arith, e, v.counted, t.less, t.empty)
      | inr (sig, e) ↦ ground (
        arith,
        e,
        v.counted,
        t.less,
        t.empty,
        act-≢ sig (get_or (sig_pop s).1.siga sig Handler.null),
      )
    ]

pub signal_handler-IsValid : (s : Signal) → IsValid s → IsValid (signal_handler s).1
unfolding signal_handler
signal_handler-IsValid s v =
    let t = sig_pop-Taken s in
    elim (Option-cases (sig_pop s).0) [
      | inl e ↦ ground (
        arith, e, v.width, v.blocked_width, v.handlers, v.counted, t.less, t.same_width,
        t.same_count, t.same_handlers, t.same_blocked,
      )
      | inr (sig, e) ↦ ground (
        arith, e, v.width, v.blocked_width, v.handlers, v.counted, t.less, t.same_width,
        t.same_count, t.same_handlers, t.same_blocked,
      )
    ]

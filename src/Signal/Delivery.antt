-- ===== src/Signal/Delivery.antt =====
-- The order in which kernel/proc/signal.c delivers signals, and what blocking one blocks.
use risc.Common.{
  ℕ, zero, suc, ◌+◌, ◌-◌, ◌<◌, ◌≡◌, refl, ap, true, false, none, some, [], ◌∷◌, arith, get_or,
  get_or-set_self, set, length, pos,
}
use risc.Fifo.Queue.{Queue}
use risc.Sched.{TaskState}
use risc.Signal.{
  Signal, SigSet, null, shift, post, send_sig, signal_handler, detect_sig_valid, sig_set_blocked,
  std_sig_pop, sig_pop, act,
}

pub std_sig_pop-lowest :
    (i k : ℕ) (s : SigSet)
    → get_or s k false ≡ true
    → ((j : ℕ) → j < k → get_or s j false ≡ false)
    → std_sig_pop i s ≡ (some (i + k), set s k false)
unfolding std_sig_pop
std_sig_pop-lowest i k [] p low = absurd (ground (arith, p))
std_sig_pop-lowest i zero (true ∷ s) p low = ap (λ n. (some n, false ∷ s)) (omega arith)
std_sig_pop-lowest i zero (false ∷ s) p low = absurd (ground (arith, p))
std_sig_pop-lowest i (suc k) (true ∷ s) p low = absurd (ground (arith, low 0))
std_sig_pop-lowest i (suc k) (false ∷ s) p low =
    let ih = std_sig_pop-lowest (i + 1) k s p (λ j h. low (suc j) (omega arith)) in
    ground (arith, ih)

std_sig_pop-empty :
    (i : ℕ) (s : SigSet) → ((j : ℕ) → get_or s j false ≡ false) → std_sig_pop i s ≡ (none, s)
unfolding std_sig_pop
std_sig_pop-empty i [] low = refl
std_sig_pop-empty i (true ∷ s) low = absurd (ground (arith, low 0))
std_sig_pop-empty i (false ∷ s) low =
    let ih = std_sig_pop-empty (i + 1) s (λ j. low (suc j)) in ground (arith, ih)

-- `signal_handler` delivers the lowest standard signal that is pending, whatever real-time
-- signals are, and leaves all others as they were.
pub signal_handler-lowest :
    (s : Signal) (sig : ℕ)
    → 0 < s.sigpend
    → get_or s.signal sig false ≡ true
    → ((j : ℕ) → j < sig → get_or s.signal j false ≡ false)
    → signal_handler s ≡ (
      act sig (get_or s.siga sig null),
      record s { signal = set s.signal sig false; sigpend = s.sigpend - 1 },
    )
unfolding signal_handler sig_pop
signal_handler-lowest s sig h p low =
    let e = std_sig_pop-lowest 0 sig s.signal p low in ground (arith, e, h)

-- With no standard signal pending, `signal_handler` delivers the real-time signal that was sent first.
pub signal_handler-oldest :
    (s : Signal) (sig : ℕ) (rest : Queue)
    → 0 < s.sigpend
    → ((j : ℕ) → get_or s.signal j false ≡ false)
    → s.queue ≡ sig ∷ rest
    → signal_handler s
      ≡ (act sig (get_or s.siga sig null), record s { queue = rest; sigpend = s.sigpend - 1 })
unfolding signal_handler sig_pop
signal_handler-oldest s sig rest h low q =
    let e = std_sig_pop-empty 0 s.signal low in ground (arith, e, h, q)

-- After a real-time signal from 32 on is blocked, the standard signal 32 below it is dropped too:
-- blocking 41 blocks SIGKILL.
pub sig_set_blocked_aliases :
    (s : Signal) (state : TaskState) (sig : ℕ)
    → length s.blocked ≡ 32
    → sig < 32
    → let s' = (sig_set_blocked s (pos (sig + 32))).1 in
      send_sig (pos sig) (some (state, s')) ≡ some (state, s')
unfolding sig_set_blocked send_sig detect_sig_valid post
sig_set_blocked_aliases s state sig w h =
    let low : (shift (sig + 32) ≡ sig) = omega arith in
    let same : (shift sig ≡ sig) = omega arith in
    ground (arith, low, same, w, h, get_or-set_self s.blocked sig true false)

-- ===== src/Signal/Tests.antt =====
-- Tests of the model of kernel/proc/signal.c.
use risc.Common.{
  ℕ, zero, suc, ◌+◌, ◌<◌, ◌≤◌, ◌≡◌, ◌≢◌, refl, true, false, some, [], ◌∷◌, arith, get_or, replicate,
  pos, negsuc,
}
use risc.Sched.{running, zombie}
use risc.Signal.{
  Signal, SigSet, sig_init, post, sig_set_blocked, signal_handler, send_sig, detect_sig_valid,
  default_table, default_signal_handlers, std_sig_pop, sig_pop, act, Action, default, user, null,
  sigkill, sigstop, sig_set_sigaction, sig_release_all,
}
use risc.Signal.Pending.{pending}
use risc.Signal.Handlers.{
  Reach, start, then_, sends, catches, kill_and_stop_stay, signal_handler_delivers,
}
use risc.Signal.Delivery.{sig_set_blocked_aliases}

abbrev none_blocked : SigSet
none_blocked = replicate 32 false

-- the user catches SIGUSR1, and then 40, SIGCHLD and SIGUSR1 are sent
abbrev caught : Signal
caught = (sig_set_sigaction (sig_init none_blocked) (pos 10) (user 4096)).1

abbrev pending_three : Signal
pending_three = post (post (post caught 40) 17) 10

delivers_usr1_first : (signal_handler pending_three).0 ≡ Action.run_user (user 4096)
unfolding signal_handler sig_pop std_sig_pop post sig_init default_table act default_signal_handlers
    sig_set_sigaction detect_sig_valid
delivers_usr1_first = refl

kill_cannot_be_caught : (sig_set_sigaction caught (pos 9) (user 1)).0 ≡ negsuc 0
unfolding sig_set_sigaction detect_sig_valid
kill_cannot_be_caught = refl

zombie_gets_nothing : send_sig (pos 9) (some (zombie, caught)) ≡ some (zombie, caught)
unfolding send_sig detect_sig_valid
zombie_gets_nothing = refl

released : (sig_release_all pending_three).queue ≡ []
unfolding sig_release_all post sig_init sig_set_sigaction detect_sig_valid default_table
released = refl

sent_ten : Reach none_blocked (post caught 10)
unfolding post sig_init send_sig detect_sig_valid sig_set_sigaction
sent_ten =
    then_ (then_ start (catches (pos 10) (user 4096))) (sends (pos 10) running (omega arith) refl)

kill_and_stop_stay_example :
    (get_or (post caught 10).siga sigkill null ≡ default sigkill)
    × (get_or (post caught 10).siga sigstop null ≡ default sigstop)
kill_and_stop_stay_example = kill_and_stop_stay refl sent_ten

signal_handler_delivers_example :
    let (a, s') = signal_handler (post caught 10) in
    (1 ≤ pending (post caught 10)
      → (a ≢ Action.nothing) × (pending (post caught 10) ≡ pending s' + 1))
    × (pending (post caught 10) ≡ 0 → (a ≡ Action.nothing) × (pending s' ≡ 0))
signal_handler_delivers_example = signal_handler_delivers refl sent_ten

-- signals 3 and 5 and the real-time signals 33 and 40
abbrev four : Signal
four = record {
  sigpend = 4;
  queue = 33 ∷ 40 ∷ [];
  signal = false ∷ false ∷ false ∷ true ∷ false ∷ true ∷ [];
  blocked = none_blocked;
  siga = [];
}

below_three : (j : ℕ) → j < 3 → get_or four.signal j false ≡ false
below_three zero h = refl
below_three (suc zero) h = refl
below_three (suc (suc zero)) h = refl
below_three (suc (suc (suc j))) h = absurd (omega arith)

abbrev only_real_time : Signal
only_real_time = record four { signal = [] }

sig_set_blocked_aliases_example :
    let s' = (sig_set_blocked four (pos 41)).1 in
    send_sig (pos 9) (some (running, s')) ≡ some (running, s')
sig_set_blocked_aliases_example = sig_set_blocked_aliases four running 9 refl (omega arith)

-- ===== src/Locks/SpinLock/Nesting.antt =====
-- Matched calls of `push_off` and `pop_off` of kernel/locks/spinlock.c.
use risc.Common.{ℕ, zero, suc, ◌-◌, ◌<◌, ◌≡◌, refl, true, Option, none, some, ◌==◌, arith, ◌&&◌}
use risc.Locks.SpinLock.{Core, push_off, pop_off}

-- interrupts are on only while nothing is nested
pub record IsCore (c : Core) : Type 0 where
  pub off : c.intr ≡ true → c.noff ≡ 0

abbrev pub push_all : ℕ → Core → Core
push_all zero c = c
push_all (suc n) c = push_all n (push_off c)

abbrev pub pop_all : ℕ → Core → Option Core
pop_all zero c = some c
pop_all (suc n) c = elim (pop_all n c) [ none ↦ none | some d ↦ pop_off d ]

-- the same state but for `intena`, which counts only while something is nested
pub record Same (c d : Core) : Type 0 where
  pub intr : d.intr ≡ c.intr
  pub noff : d.noff ≡ c.noff
  pub intena : 0 < c.noff → d.intena ≡ c.intena

pub push_off-IsCore : (c : Core) → IsCore (push_off c)
unfolding push_off
push_off-IsCore c = record { off = λ e. ground (arith, e) }

pub pop_off-Same :
    (c d : Core) → IsCore c → Same (push_off c) d → (e : Core) × ((pop_off d ≡ some e) × Same c e)
unfolding push_off pop_off
pop_off-Same c d v s = (
  record d { intr = (d.noff - 1 == 0) && d.intena; noff = d.noff - 1 },
  (
    ground (arith, s.intr, s.noff),
    record {
      intr = ground (arith, v.off, s.intr, s.noff, s.intena);
      noff = omega (arith, s.noff);
      intena = (λ h. ground (arith, h, s.noff, s.intena));
    },
  ),
)

-- However deep calls of `push_off` are nested, as many calls of `pop_off` succeed and bring back the
-- interrupt bit and the nesting depth of the start.
pub pop_all-push_all :
    (n : ℕ) (c : Core) → IsCore c → (d : Core) × ((pop_all n (push_all n c) ≡ some d) × Same c d)
pop_all-push_all zero c v = (c, (refl, record { intr = refl; noff = refl; intena = λ h. refl }))
pop_all-push_all (suc n) c v =
    let (d, (run, s)) = pop_all-push_all n (push_off c) (push_off-IsCore c) in
    let (e, (last, t)) = pop_off-Same c d v s in (e, (ground (arith, run, last), t))

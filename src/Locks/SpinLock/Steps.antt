-- ===== src/Locks/SpinLock/Steps.antt =====
-- What each access to a spin lock of kernel/locks/spinlock.c does to its invariant.
use risc.Common.{
  ℕ, ◌≡◌, refl, sym, ap, ◌∙◌, true, false, Option, none, some, ◌==◌, ==_iff, arith, Bool-cases, inl,
  inr, is_some,
}
use risc.Locks.SpinLock.{SpinLock, holding, is_cpu, unlock_begin}
use risc.Locks.SpinLock.System.{
  Phase, outside, waiting, won, inside, leaving, owns, is_inside, update, System, swapped, IsValid,
}

pub here : (f : ℕ → Phase) (c : ℕ) (p : Phase) (d : ℕ) → (d == c) ≡ true → update f c p d ≡ p
here f c p d z = ground (arith, z)

pub away : (f : ℕ → Phase) (c : ℕ) (p : Phase) (d : ℕ) → (d == c) ≡ false → update f c p d ≡ f d
away f c p d z = ground (arith, z)

-- a step of CPU `c` to the phase `p` of the same ownership
pub update-owns :
    (f : ℕ → Phase) (o : Option ℕ) (c : ℕ) (p : Phase)
    → ((d : ℕ) → owns (f d) ≡ is_cpu o d)
    → owns p ≡ owns (f c)
    → (d : ℕ) → owns (update f c p d) ≡ is_cpu o d
update-owns f o c p h e d = elim (Bool-cases (d == c)) [
  | inl z ↦
      let q : d ≡ c = (==_iff d c).0 z in
      ap owns (here f c p d z) ∙ (e ∙ (h c ∙ ap (is_cpu o) (sym q)))
  | inr z ↦ ap owns (away f c p d z) ∙ h d
]

-- and one that leaves the mark of the lock as it is
pub update-is_inside :
    (f : ℕ → Phase) (o : Option ℕ) (c : ℕ) (p : Phase)
    → ((d : ℕ) → is_cpu o d ≡ is_inside (f d))
    → is_inside p ≡ is_inside (f c)
    → (d : ℕ) → is_cpu o d ≡ is_inside (update f c p d)
update-is_inside f o c p h e d = elim (Bool-cases (d == c)) [
  | inl z ↦
      let q : d ≡ c = (==_iff d c).0 z in
      ap (is_cpu o) q ∙ (h c ∙ (sym e ∙ sym (ap is_inside (here f c p d z))))
  | inr z ↦ h d ∙ sym (ap is_inside (away f c p d z))
]

pub is_cpu-sole :
    (o : Option ℕ) (c d : ℕ) → is_cpu o c ≡ true → (d == c) ≡ false → is_cpu o d ≡ false
is_cpu-sole none c d h z = refl
is_cpu-sole (some x) c d h z = ground (arith, h, z)

pub not_inside : (p : Phase) → owns p ≡ false → is_inside p ≡ false
not_inside outside h = refl
not_inside waiting h = refl
not_inside won h = refl
not_inside inside h = h
not_inside leaving h = refl

-- while CPU `c` owns the lock, no other does
pub sole :
    (s : System) (c d : ℕ)
    → IsValid s
    → owns (s.phase c) ≡ true
    → (d == c) ≡ false
    → owns (s.phase d) ≡ false
sole s c d v h z = v.owning d ∙ is_cpu-sole s.owner c d (sym (v.owning c) ∙ h) z

pub is_cpu-free : (o : Option ℕ) (d : ℕ) → is_some o ≡ false → is_cpu o d ≡ false
is_cpu-free none d h = refl
is_cpu-free (some x) d h = absurd (ground (arith, h))

pub swap-free :
    (s : System) (c : ℕ)
    → s.phase c ≡ waiting
    → s.l.lock ≡ false
    → IsValid s
    → IsValid (swapped s c (false, record s.l { lock = true }))
swap-free s c e f v = record {
  locked = refl;
  owning = λ d. elim (Bool-cases (d == c)) [
    | inl z ↦ ap owns (here s.phase c won d z) ∙ ground (arith, z)
    | inr z ↦
        ap owns (away s.phase c won d z)
        ∙ (v.owning d ∙ (is_cpu-free s.owner d (sym v.locked ∙ f) ∙ ground (arith, z)))
  ];
  marked = update-is_inside s.phase s.l.cpuid c won v.marked (sym (ap is_inside e));
}

pub mark-marked :
    (s : System) (c : ℕ)
    → IsValid s
    → owns (s.phase c) ≡ true
    → (d : ℕ) → is_cpu (some c) d ≡ is_inside (update s.phase c inside d)
mark-marked s c v h d = elim (Bool-cases (d == c)) [
  | inl z ↦ sym (ap is_inside (here s.phase c inside d z) ∙ ground (arith, z))
  | inr z ↦
      let q = not_inside (s.phase d) (sole s c d v h z) in
      sym (ap is_inside (away s.phase c inside d z) ∙ (q ∙ ground (arith, z)))
]

pub unlock-marked :
    (s : System) (c : ℕ)
    → IsValid s
    → owns (s.phase c) ≡ true
    → (d : ℕ) → false ≡ is_inside (update s.phase c leaving d)
unlock-marked s c v h d = elim (Bool-cases (d == c)) [
  | inl z ↦ sym (ap is_inside (here s.phase c leaving d z))
  | inr z ↦
      sym (ap is_inside (away s.phase c leaving d z) ∙ not_inside (s.phase d) (sole s c d v h z))
]

pub release-owning :
    (s : System) (c : ℕ)
    → IsValid s
    → owns (s.phase c) ≡ true
    → (d : ℕ) → owns (update s.phase c outside d) ≡ false
release-owning s c v h d = elim (Bool-cases (d == c)) [
  | inl z ↦ ap owns (here s.phase c outside d z)
  | inr z ↦ ap owns (away s.phase c outside d z) ∙ sole s c d v h z
]

pub unlock_begin-some :
    (l l' : SpinLock) (c : ℕ) → unlock_begin l c ≡ some l' → record l { cpuid = none } ≡ l'
unfolding unlock_begin
unlock_begin-some l l' c u = elim (Bool-cases (holding l c)) [
  | inl z ↦ ground (arith, u, z)
  | inr z ↦ absurd (ground (arith, u, z))
]

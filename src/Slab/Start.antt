-- ===== src/Slab/Start.antt =====
-- The slabs that `slab_create` of mm/slab.c makes.
use risc.Common.{
  ℕ, zero, suc, ◌+◌, ◌*◌, ◌≤◌, ◌<◌, ◌≡◌, ◌≢◌, refl, sym, ap, ◌∙◌, true, false, inl, inr, ◌∷◌, pos,
  arith, length,
}
use risc.Slab.{SStack, is_in, sstack_push, sstack_init, sstack_is_full, push_objects, slab_create}
use risc.Slab.Stack.{items, sstack_push-items, length-contents}
use risc.Slab.Invariant.{IsSlab}
use risc.Slab.Lists.{cons_cases}

-- a stack of objects, none of them at 0
record Objects (ss : SStack) (count : ℕ) : Type 0 where
  pub counted : length (items ss) ≡ count
  pub room : ss.max_size ≡ pos 256
  pub objects : (a : ℕ) → is_in a (items ss) ≡ true → a ≢ 0

not_full : (ss : SStack) (count : ℕ) → Objects ss count → count < 256 → sstack_is_full ss ≡ false
unfolding sstack_is_full
not_full ss count o h =
    let l = length-contents ss.cells ss.top in ground (arith, o.counted, o.room, l, h)

push_objects-Objects :
    (n : ℕ) (ss : SStack) (objs size i : ℕ)
    → 0 < objs
    → i + n ≤ 256
    → Objects ss i
    → Objects (push_objects ss objs size i n) (i + n)
unfolding push_objects
push_objects-Objects zero ss objs size i p h o = record {
  counted = omega (arith, o.counted);
  room = o.room;
  objects = o.objects;
}
push_objects-Objects (suc n) ss objs size i p h o =
    let f = not_full ss i o (omega (arith, h)) in
    let a : ℕ = objs + i * size in
    let (r, e, m) = sstack_push-items ss a f in
    let next : Objects (sstack_push ss a).1 (i + 1) = record {
      counted = omega (arith, ap length e, o.counted);
      room = m ∙ o.room;
      objects = λ b j.
          let k : is_in b (a ∷ items ss) ≡ true = sym (ap (is_in b) e) ∙ j in
          elim (cons_cases b a (items ss) k) [
            | inl q ↦ (λ z. absurd (omega (arith, q, z, p)))
            | inr q ↦ o.objects b q
          ];
    } in
    let ih =
      push_objects-Objects n (sstack_push ss a).1 objs size (i + 1) p (omega (arith, h)) next in
    record { counted = omega (arith, ih.counted); room = ih.room; objects = ih.objects }

-- `slab_create` over pages that do not start at 0 makes a slab with all its objects free, whatever
-- its page held before.
pub slab_create-IsSlab :
    (cells : ℕ → ℕ) (objs size count : ℕ)
    → 0 < objs
    → count ≤ 256
    → IsSlab count (slab_create cells objs size count)
      × ((slab_create cells objs size count).inuse ≡ 0)
unfolding slab_create sstack_init
slab_create-IsSlab cells objs size count p h =
    let none_yet : Objects (sstack_init cells (pos 256)) 0 = record {
      counted = refl;
      room = refl;
      objects = λ a j. absurd (ground (arith, j));
    } in
    let o =
      push_objects-Objects count (sstack_init cells (pos 256)) objs size 0 p (omega (arith, h))
        none_yet in
    (record { counted = omega (arith, o.counted); room = o.room; objects = o.objects }, refl)

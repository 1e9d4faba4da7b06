-- ===== src/Buddy/Split.antt =====
-- Cutting a free block of mm/mm.c down to the order that is asked for.
use risc.Common.{ℕ, zero, suc, ◌+◌, ◌*◌, ◌^◌, ◌≤◌, ◌<◌, ◌≡◌, refl, sym, ap, ◌∙◌, true, arith, some}
use mathlib.Core.Path.{subst}
use risc.Buddy.{Memory, all_pfn, set_order, add_free, page_is_free}
use risc.Buddy.Weight.{Weight, weigh}
use risc.Buddy.Block.{Aligned, IsAdditive, pow_pos, pow_step, double}
use risc.Buddy.Invariant.{Free, Block, Inside, refcnt}
use risc.Buddy.{split}
use risc.Buddy.Block.{find_buddy-upper}
use risc.Buddy.Put.{put, put-Free, put-Block, refcnt-put, weigh-put}

pub lower_half-Block : {m : Memory} {k p : ℕ} (j : ℕ) → k ≡ j + 1 → Block m k p → Block m j p
lower_half-Block {m} {k} {p} j e b =
    let (n, q) : Aligned (j + 1) p = subst (λ i. Aligned i p) e b.aligned in
    let s : 2 ^ k ≡ 2 ^ j + 2 ^ j = ap (λ i. 2 ^ i) e ∙ pow_step j in
    record {
      aligned = (n + n, q ∙ sym (double n j));
      bound = omega (arith, b.bound, s);
      quiet = λ x (r : Inside j p x). b.quiet x (r.0, omega (arith, r.1, s));
      out = λ x (r : Inside j p x). b.out x (r.0, omega (arith, r.1, s));
    }

pub upper_half-Block :
    {m : Memory} {k p : ℕ} (j : ℕ) → k ≡ j + 1 → Block m k p → Block m j (p + 2 ^ j)
upper_half-Block {m} {k} {p} j e b =
    let (n, q) : Aligned (j + 1) p = subst (λ i. Aligned i p) e b.aligned in
    let s : 2 ^ k ≡ 2 ^ j + 2 ^ j = ap (λ i. 2 ^ i) e ∙ pow_step j in
    let q' : p ≡ (n + n) * 2 ^ j = q ∙ sym (double n j) in
    record {
      aligned = (n + n + 1, grind (arith, q'));
      bound = omega (arith, b.bound, s);
      quiet =
          λ x (r : Inside j (p + 2 ^ j) x). b.quiet x (omega (arith, r.0), omega (arith, r.1, s));
      out = λ x (r : Inside j (p + 2 ^ j) x). b.out x (omega (arith, r.0), omega (arith, r.1, s));
    }

-- What cutting the block of order `k` at `p` down to `order` has done.
pub record Cut (m m' : Memory) (p order k : ℕ) : Type 0 where
  pub rest : Free m' p
  pub block : Block m' order p
  pub weight :
      (w : Weight) → IsAdditive w → w order p + weigh w m'.free_lists ≡ w k p + weigh w m.free_lists
  pub same_free : m'.free ≡ m.free
  pub same_refcnt : (x : ℕ) → refcnt m' x ≡ refcnt m x

pub split-Cut :
    (m : Memory) (p order n k : ℕ)
    → k ≡ order + n
    → k < 11
    → Free m p
    → Block m k p
    → (m' : Memory) × ((split m p order n ≡ some m') × Cut m m' p order k)
unfolding split page_is_free set_order add_free
split-Cut m p order zero k e l f b =
    let e' : k ≡ order = omega (arith, e) in
    (
      m,
      (
        refl,
        record {
          rest = f;
          block = subst (λ i. Block m i p) e' b;
          weight = λ w a. ap (λ i. w i p + weigh w m.free_lists) (sym e');
          same_free = refl;
          same_refcnt = λ x. refl;
        },
      ),
    )
split-Cut m p order (suc n) k e l f b =
    let j : ℕ = order + n in
    let e' : k ≡ j + 1 = omega (arith, e) in
    let l' : j < 11 = omega (arith, e', l) in
    let up = upper_half-Block j e' b in
    let low = lower_half-Block j e' b in
    let found =
      find_buddy-upper j p (subst (λ i. Aligned i p) e' b.aligned)
        (subst (λ i. p + 2 ^ i ≤ all_pfn) e' b.bound) in
    let free : page_is_free m (p + 2 ^ j) ≡ true =
      let r = up.quiet (p + 2 ^ j) (omega arith, omega (arith, pow_pos j)) in ground (arith, r) in
    let f' = put-Free m p (p + 2 ^ j) j p l' f up (λ q b ne ne'. ne) in
    let b' = put-Block m (p + 2 ^ j) j l' low (λ x r. ground (arith, r)) in
    let (m', (run, c)) = split-Cut (put m (p + 2 ^ j) j) p order n j refl l' f' b' in
    (
      m',
      (
        ground (arith, found, free, run),
        record {
          rest = c.rest;
          block = c.block;
          weight = λ w a.
              omega
                (arith, c.weight w a, weigh-put w m (p + 2 ^ j) j l', a j p, ap (λ i. w i p) e');
          same_free = c.same_free;
          same_refcnt = λ x. c.same_refcnt x ∙ refcnt-put m (p + 2 ^ j) j x;
        },
      ),
    )

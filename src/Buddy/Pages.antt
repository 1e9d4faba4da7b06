-- ===== src/Buddy/Pages.antt =====
-- What `alloc_pages` and `free_pages` of mm/mm.c do to the free pages.
use risc.Common.{
  ℕ, ◌+◌, ◌-◌, ◌%◌, ◌^◌, ◌≤◌, ◌<◌, ◌≡◌, ◌≢◌, refl, sym, ap, ◌∙◌, true, inl, inr, ◌==◌, arith,
  Bool-cases, ==_iff, List, ◌∷◌,
}
use mathlib.Core.Path.{subst}
use risc.Buddy.{Memory, Page, all_pfn, update, set_order, page_is_free}
use risc.Buddy.Weight.{weigh, size, covers, is_in, weigh-pop, weigh-is_in}
use risc.Buddy.Block.{Aligned, pow_pos, covers-IsAdditive, size-IsAdditive}
use risc.Buddy.Invariant.{Free, Block, IsValid, Inside, refcnt, order_of}
use risc.Buddy.{cut, get_page, got}
use risc.Buddy.Split.{split-Cut, Cut}

-- What the holder of the block of order `k` at `p` may rely on.
pub record Owned (m : Memory) (k p : ℕ) : Type 0 where
  pub less : k < 11
  pub order : order_of m p ≡ k
  pub aligned : Aligned k p
  pub bound : p + 2 ^ k ≤ all_pfn
  pub inner : (x : ℕ) → Inside k p x → x ≢ p → refcnt m x ≡ 0
  pub out : (x : ℕ) → Inside k p x → weigh (covers x) m.free_lists ≡ 0

-- What `alloc_pages` has done when it returns the block of order `k` at `p`.
pub record Allocated (m m' : Memory) (k p : ℕ) : Type 0 where
  pub valid : IsValid m'
  pub owned : Owned m' k p
  pub one_reference : refcnt m' p ≡ 1
  pub same_refcnt : (x : ℕ) → x ≢ p → refcnt m' x ≡ refcnt m x
  pub taken :
      (x : ℕ) → covers x k p + weigh (covers x) m'.free_lists ≡ weigh (covers x) m.free_lists
  pub less_pages : 2 ^ k + weigh size m'.free_lists ≡ weigh size m.free_lists
  pub less_free : m'.free ≡ (m.free + 2 ^ 64 - 2 ^ k) % 2 ^ 64

-- no page of a free block is the page `p` of a block that is in no list
covered_apart :
    (m : Memory) (k p hole : ℕ)
    → Free m hole
    → ((x : ℕ) → Inside k p x → weigh (covers x) m.free_lists ≡ 0)
    → (j q : ℕ) → is_in q (m.free_lists j) ≡ true
    → (x : ℕ) → Inside j q x
    → x ≢ p
covered_apart m k p hole f out j q i x s e =
    let c = weigh-is_in (covers x) m.free_lists j q (f.order j q i).0 i in
    let o = out x (omega (arith, e), omega (arith, e, pow_pos k)) in ground (arith, c, o, s)

-- `m'` is `m` but for the page `p`, which is in the hole of `m'` or has a reference.
pub record Repaged (m m' : Memory) (p hole hole' : ℕ) : Type 0 where
  pub lists : m'.free_lists ≡ m.free_lists
  pub pages : (x : ℕ) → x ≢ p → m'.pages x ≡ m.pages x
  pub referenced : p ≢ hole' → refcnt m' p ≢ 0
  pub holes : (q : ℕ) → q < all_pfn → q ≢ hole' → q ≢ p → q ≢ hole

all_listed :
    (m m' : Memory) (p hole hole' : ℕ)
    → Free m hole
    → Repaged m m' p hole hole'
    → (q : ℕ) → q < all_pfn
    → q ≢ hole'
    → refcnt m' q ≡ 0
    → order_of m' q < 11
    → is_in q (m'.free_lists (order_of m' q)) ≡ true
all_listed m m' p hole hole' f r q l ne z o = elim (Bool-cases (q == p)) [
  | inl y ↦
      let e : q ≡ p = (==_iff q p).0 y in
      absurd (r.referenced (λ h. ne (e ∙ h)) (sym (ap (refcnt m') e) ∙ z))
  | inr y ↦
      let d : q ≢ p = ground (arith, y) in
      let s = r.pages q d in
      let c =
        f.complete q l (r.holes q l ne d) (sym (ap Page.refcnt s) ∙ z)
          (omega (arith, o, ap Page.order s)) in
      ap (λ (g : ℕ → List ℕ). is_in q (g (order_of m' q))) r.lists
      ∙ (ap (λ j. is_in q (m.free_lists j)) (ap Page.order s) ∙ c)
]

pub Repaged-Free :
    (m m' : Memory) (k p hole hole' : ℕ)
    → Free m hole
    → ((x : ℕ) → Inside k p x → weigh (covers x) m.free_lists ≡ 0)
    → Repaged m m' p hole hole'
    → Free m' hole'
Repaged-Free m m' k p hole hole' f out r =
    let back = λ (j q : ℕ) (i : is_in q (m'.free_lists j) ≡ true).
      ap (λ (g : ℕ → List ℕ). is_in q (g j)) (sym r.lists) ∙ i in
    let apart = covered_apart m k p hole f out in
    record {
      order = λ j q i.
          let o = back j q i in
          let d = apart j q o q (omega arith, omega (arith, pow_pos j)) in
          ((f.order j q o).0, ap Page.order (r.pages q d) ∙ (f.order j q o).1);
      aligned = λ j q i. f.aligned j q (back j q i);
      bound = λ j q i. f.bound j q (back j q i);
      quiet = λ j q x i s.
          let o = back j q i in ap Page.refcnt (r.pages x (apart j q o x s)) ∙ f.quiet j q x o s;
      complete = all_listed m m' p hole hole' f r;
      once = λ x. subst (λ g. weigh (covers x) g ≤ 1) (sym r.lists) (f.once x);
    }

-- the memory when `buddy_alloc` returns, `m` when its block has been cut
abbrev pub numbered : Memory → ℕ → ℕ → Memory
numbered m p order = set_order (record m { free = (m.free + 2 ^ 64 - 2 ^ order) % 2 ^ 64 }) p order

pub cut-Cut :
    (m : Memory) (p order n k : ℕ)
    → k ≡ order + n
    → k < 11
    → Free m p
    → Block m k p
    → (m' : Memory) × ((cut m p order n ≡ got p (numbered m' p order)) × Cut m m' p order k)
unfolding cut page_is_free
cut-Cut m p order n k e l f b =
    let (m', (run, c)) = split-Cut m p order n k e l f b in
    let z : refcnt m' p ≡ 0 = c.block.quiet p (omega arith, omega (arith, pow_pos order)) in
    (m', (ground (arith, run, z), c))

refcnt-claimed :
    (m : Memory) (p order : ℕ) → refcnt m p ≡ 0 → refcnt (get_page (numbered m p order) p) p ≡ 1
unfolding get_page set_order
refcnt-claimed m p order z = ground (arith, z)

order_of-claimed : (m : Memory) (p order : ℕ) → order_of (get_page (numbered m p order) p) p ≡ order
unfolding get_page set_order
order_of-claimed m p order = ground arith

pages-claimed :
    (m : Memory) (p order x : ℕ) → x ≢ p → (get_page (numbered m p order) p).pages x ≡ m.pages x
unfolding get_page set_order
pages-claimed m p order x d = ground (arith, d)

claimed-Owned :
    (m : Memory) (p order : ℕ)
    → order < 11
    → Block m order p
    → Owned (get_page (numbered m p order) p) order p
unfolding get_page set_order
claimed-Owned m p order l b = record {
  less = l;
  order = order_of-claimed m p order;
  aligned = b.aligned;
  bound = b.bound;
  inner = λ x i d. ap Page.refcnt (pages-claimed m p order x d) ∙ b.quiet x i;
  out = b.out;
}

pub popped-Allocated :
    (m : Memory) (k p order : ℕ) (l : List ℕ) (m' : Memory)
    → k < 11
    → order ≤ k
    → m.free_lists k ≡ p ∷ l
    → IsValid m
    → Cut (record m { free_lists = update m.free_lists k l }) m' p order k
    → Allocated m (get_page (numbered m' p order) p) order p
unfolding get_page set_order
popped-Allocated m k p order l m' h le e v c =
    let z : refcnt m' p ≡ 0 = c.block.quiet p (omega arith, omega (arith, pow_pos order)) in
    let one = refcnt-claimed m' p order z in
    record {
      valid =
          Repaged-Free m' (get_page (numbered m' p order) p) order p p all_pfn c.rest c.block.out
            (record {
              lists = refl;
              pages = pages-claimed m' p order;
              referenced = λ h q. absurd (omega (arith, one, q));
              holes = λ q l ne d. d;
            });
      owned = claimed-Owned m' p order (omega (arith, h, le)) c.block;
      one_reference = one;
      same_refcnt = λ x d. ap Page.refcnt (pages-claimed m' p order x d) ∙ c.same_refcnt x;
      taken = λ x.
          c.weight (covers x) (covers-IsAdditive x) ∙ weigh-pop (covers x) m.free_lists k p l h e;
      less_pages = c.weight size size-IsAdditive ∙ weigh-pop size m.free_lists k p l h e;
      less_free = ap (λ f. (f + 2 ^ 64 - 2 ^ order) % 2 ^ 64) c.same_free;
    }

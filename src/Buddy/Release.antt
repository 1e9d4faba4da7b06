-- ===== src/Buddy/Release.antt =====
-- What `free_pages` of mm/mm.c does to the free pages.
use risc.Common.{
  ℕ, ◌+◌, ◌-◌, ◌%◌, ◌^◌, ◌<◌, ◌≡◌, ◌≢◌, refl, ap, ◌∙◌, true, inl, inr, ◌==◌, arith, Bool-cases,
  ==_iff, some,
}
use mathlib.Core.Path.{subst}
use risc.Buddy.{Memory, Page, all_pfn, max_level_index, set_order, add_free, page_is_free}
use risc.Buddy.Weight.{Weight, weigh, size, covers}
use risc.Buddy.Block.{IsAdditive, pow_pos, covers-IsAdditive, size-IsAdditive}
use risc.Buddy.Invariant.{Free, Block, IsValid, Inside, refcnt, order_of}
use risc.Buddy.{merge, buddy_free, free_pages, put_page_test, is_positive}
use risc.Buddy.Merge.{Merged, merge-Merged}
use risc.Buddy.Put.{put, put-Free, weigh-put, refcnt-put}
use risc.Buddy.Pages.{Owned, Repaged-Free}

-- What `free_pages` has done when it drops the last reference to the block of order `k` at `p`.
pub record Freed (m m' : Memory) (k p : ℕ) : Type 0 where
  pub valid : IsValid m'
  pub unreferenced : refcnt m' p ≡ 0
  pub same_refcnt : (x : ℕ) → x ≢ p → refcnt m' x ≡ refcnt m x
  pub given :
      (x : ℕ) → weigh (covers x) m'.free_lists ≡ covers x k p + weigh (covers x) m.free_lists
  pub more_pages : weigh size m'.free_lists ≡ 2 ^ k + weigh size m.free_lists
  pub more_free : m'.free ≡ (m.free + 2 ^ k) % 2 ^ 64

abbrev pub dropped : Memory → ℕ → Memory
dropped m p = (put_page_test m p).1

dropped-pages : (m : Memory) (p x : ℕ) → x ≢ p → (dropped m p).pages x ≡ m.pages x
unfolding put_page_test
dropped-pages m p x d = ground (arith, d)

dropped-lists : (m : Memory) (p : ℕ) → (dropped m p).free_lists ≡ m.free_lists
unfolding put_page_test
dropped-lists m p = refl

dropped-refcnt :
    (m : Memory) (p : ℕ) → is_positive (refcnt m p) ≡ true → refcnt (dropped m p) p + 1 ≡ refcnt m p
unfolding put_page_test
dropped-refcnt m p h = ground (arith, h)

dropped-order : (m : Memory) (p : ℕ) → order_of (dropped m p) p ≡ order_of m p
unfolding put_page_test
dropped-order m p = ground arith

dropped-Free : (m : Memory) (k p : ℕ) → IsValid m → Owned m k p → Free (dropped m p) p
dropped-Free m k p v o = Repaged-Free m (dropped m p) k p all_pfn p v o.out (record {
  lists = dropped-lists m p;
  pages = dropped-pages m p;
  referenced = λ h. absurd (h refl);
  holes = λ q l ne d e. absurd (omega (arith, l, e));
})

dropped-out :
    (m : Memory) (k p : ℕ)
    → Owned m k p
    → (x : ℕ) → Inside k p x
    → weigh (covers x) (dropped m p).free_lists ≡ 0
dropped-out m k p o x i = ap (weigh (covers x)) (dropped-lists m p) ∙ o.out x i

dropped-quiet :
    (m : Memory) (k p : ℕ)
    → Owned m k p
    → refcnt m p ≡ 1
    → (x : ℕ) → Inside k p x
    → refcnt (dropped m p) x ≡ 0
dropped-quiet m k p o e x i = elim (Bool-cases (x == p)) [
  | inl z ↦
      let y : x ≡ p = (==_iff x p).0 z in
      ap (refcnt (dropped m p)) y ∙ omega (arith, dropped-refcnt m p (ground (arith, e)), e)
  | inr z ↦
      let d : x ≢ p = ground (arith, z) in ap Page.refcnt (dropped-pages m p x d) ∙ o.inner x i d
]

dropped-Block : (m : Memory) (k p : ℕ) → Owned m k p → refcnt m p ≡ 1 → Block (dropped m p) k p
dropped-Block m k p o e = record {
  aligned = o.aligned;
  bound = o.bound;
  quiet = dropped-quiet m k p o e;
  out = dropped-out m k p o;
}

-- the merged block put into its list and the count of free pages raised
abbrev pub given_back : Memory × ℕ × ℕ → ℕ → Memory
given_back (m, p, k) order = let a = put m p k in record a { free = (a.free + 2 ^ order) % 2 ^ 64 }

buddy_free-given_back :
    (m : Memory) (p k : ℕ)
    → refcnt m p ≡ 0
    → order_of m p ≡ k
    → buddy_free m p ≡ some (given_back (merge m p (max_level_index - k)) k)
unfolding buddy_free page_is_free
buddy_free-given_back m p k z e =
    let q : buddy_free m p
        ≡ some (given_back (merge m p (max_level_index - order_of m p)) (order_of m p)) =
      ground (arith, z) in
    subst (λ j. buddy_free m p ≡ some (given_back (merge m p (max_level_index - j)) j)) e q

given_back-weigh :
    (w : Weight) (m m' : Memory) (k p k' p' order : ℕ)
    → IsAdditive w
    → Merged m m' k p k' p'
    → weigh w (given_back (m', p', k') order).free_lists ≡ w k p + weigh w m.free_lists
given_back-weigh w m m' k p k' p' order a g = weigh-put w m' p' k' g.less ∙ g.weight w a

given_back-IsValid :
    (m : Memory) (p k order : ℕ)
    → k < 11
    → Free m p
    → Block m k p
    → IsValid (given_back (m, p, k) order)
given_back-IsValid m p k order l f b =
    let v : IsValid (put m p k) = put-Free m p p k all_pfn l f b (λ q l' n d. d) in
    record {
      order = v.order;
      aligned = v.aligned;
      bound = v.bound;
      quiet = v.quiet;
      complete = v.complete;
      once = v.once;
    }

given_back-Freed :
    (m m' : Memory) (k p k' p' : ℕ)
    → Merged (dropped m p) m' k p k' p'
    → refcnt m p ≡ 1
    → Freed m (given_back (m', p', k') k) k p
unfolding add_free set_order put_page_test
given_back-Freed m m' k p k' p' g e =
    let same = λ (x : ℕ). refcnt-put m' p' k' x ∙ g.same_refcnt x in
    let a = given_back-IsValid m' p' k' k g.less g.rest g.block in
    record {
      valid = a;
      unreferenced = same p ∙ omega (arith, dropped-refcnt m p (ground (arith, e)), e);
      same_refcnt = λ x d. same x ∙ ap Page.refcnt (dropped-pages m p x d);
      given = λ x. given_back-weigh (covers x) (dropped m p) m' k p k' p' k (covers-IsAdditive x) g;
      more_pages = given_back-weigh size (dropped m p) m' k p k' p' k size-IsAdditive g;
      more_free = ap (λ f. (f + 2 ^ k) % 2 ^ 64) g.same_free;
    }

free_last :
    (m : Memory) (p : ℕ) (m' : Memory)
    → refcnt m p ≡ 1
    → buddy_free (dropped m p) p ≡ some m'
    → free_pages m (some p) ≡ some m'
unfolding free_pages put_page_test
free_last m p m' e r = ground (arith, e, r)

-- In a memory that satisfies the invariant, `free_pages` of a block's last reference succeeds: the
-- invariant holds again, the page has no reference, no other count has changed, the pages of the
-- block and no others have joined the free lists, and the count of free pages has gone up by its size.
pub free_pages-Freed :
    (m : Memory) (k p : ℕ)
    → IsValid m
    → Owned m k p
    → refcnt m p ≡ 1
    → (m' : Memory) × ((free_pages m (some p) ≡ some m') × Freed m m' k p)
unfolding free_pages put_page_test
free_pages-Freed m k p v o e =
    let n : ℕ = max_level_index - k in
    let z = dropped-quiet m k p o e p (omega arith, omega (arith, pow_pos k)) in
    let r = buddy_free-given_back (dropped m p) p k z (dropped-order m p ∙ o.order) in
    let g =
      merge-Merged n (dropped m p) p k (omega (arith, o.less)) (dropped-Free m k p v o)
        (dropped-Block m k p o e) in
    let (m', p', k') = merge (dropped m p) p n in
    (
      given_back (m', p', k') k,
      (
        free_last m p (given_back (merge (dropped m p) p n) k) e r,
        given_back-Freed m m' k p k' p' g e,
      ),
    )

-- ===== src/Buddy/Start.antt =====
-- The pages and the free lists at the start, before mm/mm.c makes its caches.
use risc.Common.{
  ℕ, zero, suc, ◌+◌, ◌*◌, ◌/◌, ◌%◌, ◌^◌, ◌≤◌, ◌<◌, ◌≡◌, refl, sym, ◌∙◌, true, false, inl, inr, ltb,
  leb, if◌then◌else◌, arith, Bool-cases, [],
}
use mathlib.Core.Path.{subst}
use risc.Buddy.{Memory, all_pfn, set_order, add_free}
use risc.Buddy.Weight.{weigh, weigh-none, covers}
use risc.Buddy.Block.{Aligned}
use risc.Buddy.Invariant.{Block, IsValid, refcnt}
use risc.Buddy.{pages_init, buddy_init, first_all_page_init, add_chunks}
use risc.Buddy.Put.{put, put-Free, weigh-put, refcnt-put}

-- From the page `i` on, nothing is free yet and nobody has a reference.
record Fresh (m : Memory) (i : ℕ) : Type 0 where
  pub valid : IsValid m
  pub quiet : (x : ℕ) → i ≤ x → refcnt m x ≡ 0
  pub out : (x : ℕ) → i ≤ x → weigh (covers x) m.free_lists ≡ 0

-- What the chunks from `i` to the end of memory have added.
record Added (m m' : Memory) (i : ℕ) : Type 0 where
  pub valid : IsValid m'
  pub all : (x : ℕ) → i ≤ x → x < all_pfn → weigh (covers x) m'.free_lists ≡ 1
  pub below : (x : ℕ) → x < i → weigh (covers x) m'.free_lists ≡ weigh (covers x) m.free_lists
  pub same_refcnt : (x : ℕ) → refcnt m' x ≡ refcnt m x

Fresh-Block : (m : Memory) (i : ℕ) → Aligned 10 i → i + 1024 ≤ all_pfn → Fresh m i → Block m 10 i
Fresh-Block m i a h f = record {
  aligned = a;
  bound = h;
  quiet = λ x r. f.quiet x r.0;
  out = λ x r. f.out x r.0;
}

-- one turn of the loop
abbrev one_chunk : Memory → ℕ → Memory
one_chunk m i = let a = put m i 10 in record a { free = (a.free + 1024) % 2 ^ 64 }

one_chunk-weigh :
    (m : Memory) (i x : ℕ)
    → weigh (covers x) (one_chunk m i).free_lists ≡ covers x 10 i + weigh (covers x) m.free_lists
one_chunk-weigh m i x = weigh-put (covers x) m i 10 (omega arith)

one_chunk-Fresh :
    (m : Memory) (i : ℕ)
    → Aligned 10 i
    → i + 1024 ≤ all_pfn
    → Fresh m i
    → Fresh (one_chunk m i) (i + 1024)
one_chunk-Fresh m i a h f =
    let b = Fresh-Block m i a h f in
    let v : IsValid (put m i 10) =
      put-Free m all_pfn i 10 all_pfn (omega arith) f.valid b (λ x l n d. n) in
    record {
      valid = record {
        order = v.order;
        aligned = v.aligned;
        bound = v.bound;
        quiet = v.quiet;
        complete = v.complete;
        once = v.once;
      };
      quiet = λ x l. refcnt-put m i 10 x ∙ f.quiet x (omega (arith, l));
      out = λ x l. let c = one_chunk-weigh m i x in ground (arith, c, l, f.out x);
    }

-- the equations of the loop
add_chunks-goes_on :
    (m : Memory) (i n : ℕ)
    → leb (i + 1024) all_pfn ≡ true
    → add_chunks m i (suc n) ≡ add_chunks (one_chunk m i) (i + 1024) n
unfolding add_chunks set_order add_free
add_chunks-goes_on m i n z = ground (arith, z)

add_chunks-stops :
    (m : Memory) (i n : ℕ) → leb (i + 1024) all_pfn ≡ false → add_chunks m i (suc n) ≡ m
unfolding add_chunks
add_chunks-stops m i n z = ground (arith, z)

step-Added :
    (m m' : Memory) (i : ℕ) → Fresh m i → Added (one_chunk m i) m' (i + 1024) → Added m m' i
step-Added m m' i f a = record {
  valid = a.valid;
  all = λ x h h'.
      let c = one_chunk-weigh m i x in ground (arith, c, h, h', f.out x, a.all x, a.below x);
  below = λ x h. let c = one_chunk-weigh m i x in ground (arith, c, h, a.below x);
  same_refcnt = λ x. a.same_refcnt x ∙ refcnt-put m i 10 x;
}

add_chunks-Added :
    (n : ℕ) (m : Memory) (i q : ℕ)
    → i ≡ q * 1024
    → all_pfn ≤ i + n * 1024
    → Fresh m i
    → Added m (add_chunks m i n) i
unfolding add_chunks
add_chunks-Added zero m i q s e f = record {
  valid = f.valid;
  all = λ x h h'. absurd (omega (arith, e, h, h'));
  below = λ x h. refl;
  same_refcnt = λ x. refl;
}
add_chunks-Added (suc n) m i q s e f = elim (Bool-cases (leb (i + 1024) all_pfn)) [
  | inl z ↦
      let h : i + 1024 ≤ all_pfn = ground (arith, z) in
      let g = one_chunk-Fresh m i (q, s) h f in
      let r =
        add_chunks-Added n (one_chunk m i) (i + 1024) (q + 1) (omega (arith, s)) (omega (arith, e))
          g in
      subst (λ m'. Added m m' i) (sym (add_chunks-goes_on m i n z))
        (step-Added m (add_chunks (one_chunk m i) (i + 1024) n) i f r)
  | inr z ↦
      let h : all_pfn ≤ i = ground (arith, z, s) in
      subst (λ m'. Added m m' i) (sym (add_chunks-stops m i n z))
        (record {
          valid = f.valid;
          all = λ x l l'. absurd (omega (arith, h, l, l'));
          below = λ x h. refl;
          same_refcnt = λ x. refl;
        })
]

-- the memory before the first chunk
abbrev cleared : ℕ → Memory
cleared n = record { free = 0; free_lists = λ k. []; pages = first_all_page_init n }

cleared-weigh : (n x : ℕ) → weigh (covers x) (cleared n).free_lists ≡ 0
cleared-weigh n x = weigh-none (covers x)

cleared-Fresh : (n i : ℕ) → n ≤ i → Fresh (cleared n) i
unfolding first_all_page_init
cleared-Fresh n i h = record {
  valid = record {
    order = λ k p e. absurd (ground (arith, e));
    aligned = λ k p e. absurd (ground (arith, e));
    bound = λ k p e. absurd (ground (arith, e));
    quiet = λ k p x e. absurd (ground (arith, e));
    complete = λ p l d r o. absurd (ground (arith, o));
    once = λ x. omega (arith, cleared-weigh n x);
  };
  quiet = λ x l. ground (arith, l, h);
  out = λ x l. cleared-weigh n x;
}

Added-covers :
    (m m' : Memory) (i : ℕ)
    → Added m m' i
    → (x : ℕ) → x < all_pfn
    → weigh (covers x) m.free_lists ≡ 0
    → weigh (covers x) m'.free_lists ≡ (if ltb x i then 0 else 1)
Added-covers m m' i a x h z = elim (Bool-cases (ltb x i)) [
  | inl e ↦ a.below x (ground (arith, e)) ∙ (z ∙ ground (arith, e))
  | inr e ↦ a.all x (ground (arith, e)) h ∙ ground (arith, e)
]

-- After the first two calls of `mm_init`, before those that make the caches, for a kernel of up to
-- `ALL_PFN` pages the invariant holds, exactly the pages from the first multiple of 1024 above the
-- kernel on are in a free block, each in one, and the kernel's own pages have a reference.
pub pages_init-IsValid :
    (kernel_pfn_end : ℕ)
    → kernel_pfn_end ≤ all_pfn
    → let start = (kernel_pfn_end + 1024) / 1024 * 1024 in
      IsValid (pages_init kernel_pfn_end)
      × ((x : ℕ)
          → x < all_pfn
          → weigh (covers x) (pages_init kernel_pfn_end).free_lists
            ≡ (if ltb x start then 0 else 1))
      × ((x : ℕ) → x < kernel_pfn_end → refcnt (pages_init kernel_pfn_end) x ≡ 1)
unfolding pages_init buddy_init first_all_page_init
pages_init-IsValid n l =
    let start : ℕ = (n + 1024) / 1024 * 1024 in
    let f = cleared-Fresh n start (omega arith) in
    let a = add_chunks-Added 32 (cleared n) start ((n + 1024) / 1024) refl (omega arith) f in
    (
      a.valid,
      (λ x h.
          Added-covers (cleared n) (add_chunks (cleared n) start 32) start a x h
            (cleared-weigh n x)),
      (λ x h. a.same_refcnt x ∙ ground (arith, h)),
    )

-- ===== src/Buddy/Tests.antt =====
-- Tests of the model of mm/mm.c.
use risc.Common.{ℕ, ◌<◌, ◌≡◌, refl, ◌==◌, if◌then◌else◌, ltb, arith, some, none, Option, [], pos}
use risc.Buddy.{
  Memory, Result, got, alloc_pages, buddy_alloc, search_level, cut, split, find_buddy, page_is_free,
  set_order, add_free, get_page, free_pages, pages_init, buddy_init, first_all_page_init,
  add_chunks, all_pfn,
}
use risc.Buddy.Weight.{weigh, weigh-none, covers}
use risc.Buddy.Invariant.{IsValid}
use risc.Buddy.Pages.{Owned}
use risc.Buddy.Allocate.{AllocEnds, alloc_pages-AllocEnds}
use risc.Buddy.Release.{Freed, free_pages-Freed}
use risc.Buddy.Start.{pages_init-IsValid}

abbrev first_page : Result → Option ℕ
first_page (got p m) = some p
first_page r = none

-- the first allocation of two pages cuts the last chunk of memory
cuts_the_last_chunk : first_page (alloc_pages (pages_init 100) (pos 1)) ≡ some 31744
unfolding alloc_pages buddy_alloc search_level cut split find_buddy page_is_free set_order add_free
    get_page pages_init buddy_init first_all_page_init add_chunks
cuts_the_last_chunk = refl

buddy_of_odd : find_buddy 5 0 ≡ some 4
unfolding find_buddy
buddy_of_odd = refl

-- one page, 5, is in use, and no other page is free
abbrev one_used : Memory
one_used = record {
  free = 0;
  free_lists = λ k. [];
  pages =
      λ p. if p == 5 then record { refcnt = 1; order = 0 } else record { refcnt = 0; order = 11 };
}

one_used-IsValid : IsValid one_used
one_used-IsValid = record {
  order = λ k p e. absurd (ground (arith, e));
  aligned = λ k p e. absurd (ground (arith, e));
  bound = λ k p e. absurd (ground (arith, e));
  quiet = λ k p x e. absurd (ground (arith, e));
  complete = λ p l d r o. absurd (ground (arith, o, r));
  once = λ x. omega (arith, weigh-none (covers x));
}

five-Owned : Owned one_used 0 5
five-Owned = record {
  less = omega arith;
  order = refl;
  aligned = (5, refl);
  bound = omega arith;
  inner = λ x i d. absurd (d (omega (arith, i.0, i.1)));
  out = λ x i. weigh-none (covers x);
}

free_pages-Freed_example :
    (m' : Memory) × ((free_pages one_used (some 5) ≡ some m') × Freed one_used m' 0 5)
free_pages-Freed_example = free_pages-Freed one_used 0 5 one_used-IsValid five-Owned refl

pages_init_valid : IsValid (pages_init 100)
pages_init_valid = (pages_init-IsValid 100 (omega arith)).0

alloc_pages-AllocEnds_example : AllocEnds (pages_init 100) 1 (alloc_pages (pages_init 100) (pos 1))
alloc_pages-AllocEnds_example =
    alloc_pages-AllocEnds (pages_init 100) 1 (omega arith) pages_init_valid

pages_init-IsValid_example :
    IsValid (pages_init 100)
    × ((x : ℕ)
        → x < all_pfn
        → weigh (covers x) (pages_init 100).free_lists ≡ (if ltb x 1024 then 0 else 1))
    × ((x : ℕ) → x < 100 → ((pages_init 100).pages x).refcnt ≡ 1)
pages_init-IsValid_example = pages_init-IsValid 100 (omega arith)

-- ===== src/Buddy.antt =====
-- mm/mm.c and the page counts of mm/page.c: the buddy allocator of physical pages.
-- A page is its index in `mem_map.pages`. A function that holds the lock of `Buddy` is one step.
pub mod Weight
pub mod Block
pub mod Invariant
pub mod Put
pub mod Take
pub mod Split
pub mod Merge
pub mod Pages
pub mod Allocate
pub mod Release
pub mod Start
mod Tests
use risc.Common.{
  ℕ, zero, suc, ◌+◌, ◌-◌, ◌*◌, ◌/◌, ◌%◌, ◌^◌, Bool, true, false, ◌&&◌, ◌||◌, not, Option, none,
  some, List, [], ◌∷◌, ltb, leb, ◌==◌, if◌then◌else◌, ℤ, pos, negsuc,
}

-- `MAX_LEVEL` and `MAX_LEVEL_INDEX`
abbrev pub max_level : ℕ
max_level = 11

abbrev pub max_level_index : ℕ
max_level_index = 10

-- `ALL_PFN`: 128 MB of pages of 4096 bytes
abbrev pub all_pfn : ℕ
all_pfn = 32768

-- the fields of `struct page` that the allocator uses, the count as the bits of its `int`
pub record Page : Type 0 where
  pub refcnt : ℕ
  pub order : ℕ

-- `Buddy` and `mem_map`; a list of `free_lists` holds its pages from the head on
pub record Memory : Type 0 where
  pub free : ℕ
  pub free_lists : ℕ → List ℕ
  pub pages : ℕ → Page

abbrev pub update {ℓ} : {A : Type ℓ} → (ℕ → A) → ℕ → A → ℕ → A
update f i v j = if j == i then v else f j

-- `init_page`
abbrev pub init_page : Page
init_page = record { refcnt = 0; order = max_level }

-- `page_is_free`
pub page_is_free : Memory → ℕ → Bool
page_is_free m page = (m.pages page).refcnt == 0

pub set_order : Memory → ℕ → ℕ → Memory
set_order m page k = record m { pages = update m.pages page (record (m.pages page) { order = k }) }

-- `get_page`
pub get_page : Memory → ℕ → Memory
get_page m page =
    let p = m.pages page in
    record m { pages = update m.pages page (record p { refcnt = (p.refcnt + 1) % 2 ^ 32 }) }

-- `put_page_test` as the new state and whether the count came to zero
pub put_page_test : Memory → ℕ → Bool × Memory
put_page_test m page =
    let p = m.pages page in
    (
      p.refcnt == 1,
      record m {
        pages = update m.pages page (record p { refcnt = (p.refcnt + 2 ^ 32 - 1) % 2 ^ 32 });
      },
    )

-- `list_add_head(&page->buddy, &Buddy.free_lists[k])`
pub add_free : Memory → ℕ → ℕ → Memory
add_free m page k = record m { free_lists = update m.free_lists k (page ∷ m.free_lists k) }

abbrev pub remove : ℕ → List ℕ → List ℕ
remove page [] = []
remove page (p ∷ l) = if p == page then l else p ∷ remove page l

-- `list_del_init(&page->buddy)`, which takes the page from the list it is in, if any
pub del_free : Memory → ℕ → Memory
del_free m page = record m { free_lists = λ k. remove page (m.free_lists k) }

-- `index ^ (1 << order)`
abbrev pub flip : ℕ → ℕ → ℕ
flip index order = if (index / 2 ^ order) % 2 == 0 then index + 2 ^ order else index - 2 ^ order

pub find_buddy : ℕ → ℕ → Option ℕ
find_buddy page order =
    let buddy_index = flip page order in if leb all_pfn buddy_index then none else some buddy_index

-- the loop of `buddy_alloc` that cuts a block of order `order + n` down to `order`; `none` is `bad`
pub split : Memory → ℕ → ℕ → ℕ → Option Memory
unfolding find_buddy page_is_free set_order add_free
split m page order zero = some m
split m page order (suc n) = elim (find_buddy page (order + n)) [
  | none ↦ none
  | some buddy_page ↦
      let rest =
        split (add_free (set_order m buddy_page (order + n)) buddy_page (order + n)) page order n in
      if page_is_free m buddy_page then rest else none
]

-- how an allocation ends: with `NULL`, in `panic`, or with a page
pub data Result : Type 0 where
  null : Result
  panic : Result
  got : ℕ → Memory → Result

-- what `buddy_alloc` does at level `order + n` with the `page` popped there
pub cut : Memory → ℕ → ℕ → ℕ → Result
unfolding split page_is_free set_order
cut m p order n = elim (split m p order n) [
  | none ↦ panic
  | some m ↦
      if page_is_free m p
      then got p (set_order (record m { free = (m.free + 2 ^ 64 - 2 ^ order) % 2 ^ 64 }) p order)
      else panic
]

-- the outer loop of `buddy_alloc` from level `order + n` on, with `fuel` levels to look at
pub search_level : Memory → ℕ → ℕ → ℕ → Result
unfolding cut
search_level m order n zero = panic
search_level m order n (suc fuel) =
    let rest = search_level m order (n + 1) fuel in
    elim (m.free_lists (order + n)) [
      | [] ↦ rest
      | p ∷ l ↦ cut (record m { free_lists = update m.free_lists (order + n) l }) p order n
    ]

pub buddy_alloc : Memory → ℤ → Result
unfolding search_level
buddy_alloc m (negsuc n) = null
buddy_alloc m (pos order) =
    if ltb max_level_index order then null else search_level m order 0 (max_level - order)

abbrev pub minimum : ℕ → ℕ → ℕ
minimum a b = if ltb a b then a else b

-- the loop of `buddy_free` at level `max_level_index - n`: the memory, the block and its level
pub merge : Memory → ℕ → ℕ → Memory × ℕ × ℕ
unfolding find_buddy page_is_free set_order del_free
merge m page zero = (m, page, max_level_index)
merge m page (suc n) =
    let level = max_level_index - suc n in
    elim (find_buddy page level) [
      | none ↦ (m, page, level)
      | some buddy_page ↦
          let merged = set_order (set_order m page max_level) buddy_page max_level in
          let rest = merge (del_free merged buddy_page) (minimum page buddy_page) n in
          if page_is_free m buddy_page && (m.pages buddy_page).order == level
          then rest
          else (m, page, level)
    ]

-- `none` is the failed assertion that the page has no reference.
pub buddy_free : Memory → ℕ → Option Memory
unfolding merge page_is_free set_order add_free
buddy_free m pg =
    let order = (m.pages pg).order in
    let (m', page, level) = merge m pg (max_level_index - order) in
    let added = add_free (set_order m' page level) page level in
    if page_is_free m pg
    then some (record added { free = (added.free + 2 ^ order) % 2 ^ 64 })
    else none

-- `alloc_pages`, where `get_page` faults on `NULL`; `buddy_alloc` releases the lock before `get_page` runs
pub alloc_pages : Memory → ℤ → Result
unfolding buddy_alloc get_page
alloc_pages m order = elim (buddy_alloc m order) [
  | null ↦ panic
  | panic ↦ panic
  | got p m ↦ got p (get_page m p)
]

-- `page_count(pages) > 0`
abbrev pub is_positive : ℕ → Bool
is_positive count = not (count == 0) && ltb count (2 ^ 31)

pub free_pages : Memory → Option ℕ → Option Memory
unfolding put_page_test buddy_free
free_pages m none = some m
free_pages m (some p) =
    let (last, m') = put_page_test m p in
    if is_positive (m.pages p).refcnt then (if last then buddy_free m' p else some m') else none

-- the loop of `buddy_init` over the chunks of 2^10 pages from `i` on
pub add_chunks : Memory → ℕ → ℕ → Memory
unfolding set_order add_free
add_chunks m i zero = m
add_chunks m i (suc n) =
    let m' = add_free m i max_level_index in
    let m'' = set_order m' i max_level_index in
    let rest = add_chunks (record m'' { free = (m''.free + 1024) % 2 ^ 64 }) (i + 1024) n in
    if leb (i + 1024) all_pfn then rest else m

-- the kernel's own `kernel_pfn_end` pages keep a reference
pub first_all_page_init : ℕ → ℕ → Page
first_all_page_init kernel_pfn_end p =
    if ltb p kernel_pfn_end then record init_page { refcnt = 1 } else init_page

pub buddy_init : (ℕ → Page) → ℕ → Memory
unfolding add_chunks
buddy_init pages kernel_pfn_end =
    let empty : Memory = record { free = 0; free_lists = λ k. []; pages = pages } in
    add_chunks empty ((kernel_pfn_end + 1024) / 1024 * 1024) 32

-- The first two calls of `mm_init`; `kmem_cache_init` and `kmalloc_init`, which take pages, come after.
pub pages_init : ℕ → Memory
unfolding first_all_page_init buddy_init
pages_init kernel_pfn_end = buddy_init (first_all_page_init kernel_pfn_end) kernel_pfn_end

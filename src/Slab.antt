-- ===== src/Slab.antt =====
-- mm/slab.c and include/lib/stack.h: caches of objects of one size. A slab is its address, and what
-- a function does under the lock of a cache or of a slab is one step.
pub mod Stack
pub mod Size
pub mod Invariant
pub mod Alloc
pub mod Lists
pub mod Allocate
pub mod Start
pub mod Release
pub mod Free
mod Tests
use risc.Common.{
  ℕ, zero, suc, ◌+◌, ◌-◌, ◌*◌, ◌/◌, ◌^◌, Bool, true, false, Option, none, some, List, [], ◌∷◌, ltb,
  ◌==◌, if◌then◌else◌, ℤ, pos, negsuc, minus_one,
}

-- `sstack_t`: the cells from `base` on, the number of them below `top`, and `max_size`
pub record SStack : Type 0 where
  pub cells : ℕ → ℕ
  pub top : ℕ
  pub max_size : ℤ

abbrev pub update {ℓ} : {A : Type ℓ} → (ℕ → A) → ℕ → A → ℕ → A
update f i v j = if j == i then v else f j

abbrev pub sstack_is_empty : SStack → Bool
sstack_is_empty ss = ss.top == 0

-- no limit is the negative `STACK_UNLIMIT`
abbrev pub is_limit : ℤ → ℕ → Bool
is_limit (pos n) top = top == n
is_limit (negsuc n) top = false

pub sstack_is_full : SStack → Bool
sstack_is_full ss = is_limit ss.max_size ss.top

pub sstack_init : (ℕ → ℕ) → ℤ → SStack
sstack_init cells max_size = record { cells = cells; top = 0; max_size = max_size }

pub sstack_push : SStack → ℕ → ℤ × SStack
unfolding sstack_is_full
sstack_push ss addr =
    if sstack_is_full ss
    then (minus_one, ss)
    else (pos 0, record ss { cells = update ss.cells ss.top addr; top = ss.top + 1 })

pub sstack_pop : SStack → ℕ × SStack
sstack_pop ss =
    if sstack_is_empty ss then (0, ss) else (ss.cells (ss.top - 1), record ss { top = ss.top - 1 })

-- the fields of `struct slab` that change
pub record Slab : Type 0 where
  pub inuse : ℕ
  pub free_list : SStack

-- `struct kmem_cache` with its slabs; the slab of a CPU is in no list
pub record Cache : Type 0 where
  pub slabs : ℕ → Slab
  pub cache_cpu : ℕ → ℕ
  pub count_per_slab : ℕ
  pub part_slabs : List ℕ
  pub full_slabs : List ℕ

-- the pushes of `slab_create`, of the objects of size `size` from the `i`th on
pub push_objects : SStack → ℕ → ℕ → ℕ → ℕ → SStack
unfolding sstack_push
push_objects ss objs size i zero = ss
push_objects ss objs size i (suc n) =
    push_objects (sstack_push ss (objs + i * size)).1 objs size (i + 1) n

-- `slab_create` over the pages at `objs`; `FREE_LIST_MAX_LEN` is 256
pub slab_create : (ℕ → ℕ) → ℕ → ℕ → ℕ → Slab
unfolding push_objects sstack_init
slab_create cells objs size count = record {
  inuse = 0;
  free_list = push_objects (sstack_init cells (pos 256)) objs size 0 count;
}

-- the loop of `calc_slab_order`
pub calc_from : ℕ → ℕ → ℕ → ℕ → ℕ
calc_from require_size order slab_size zero = order
calc_from require_size order slab_size (suc fuel) =
    let rest = calc_from require_size (order + 1) (slab_size * 2) fuel in
    if ltb slab_size require_size then rest else order

-- `calc_slab_order` of a 16-bit size, whose order is at most 6
pub calc_slab_order : ℕ → ℕ
unfolding calc_from
calc_slab_order obj_size = calc_from (obj_size * 4) 0 4096 7

-- `cache->count_per_slab`
pub count_of : ℕ → ℕ
unfolding calc_slab_order
count_of size = 2 ^ calc_slab_order size * 4096 / size

-- `obj_pop`; `none` is the panic on an empty stack
pub obj_pop : Slab → Option (ℕ × Slab)
unfolding sstack_pop
obj_pop slab =
    let (tmp, rest) = sstack_pop slab.free_list in
    if tmp == 0 then none else some (tmp, record { inuse = slab.inuse + 1; free_list = rest })

-- `obj_push`; `none` is the panic on a full stack
pub obj_push : Slab → ℕ → Option Slab
unfolding sstack_push
obj_push slab obj =
    let (r, more) = sstack_push slab.free_list obj in
    elim r [ pos n ↦ some (record { inuse = slab.inuse - 1; free_list = more }) | negsuc n ↦ none ]

pub is_slab_full : Cache → ℕ → Bool
is_slab_full cache slab = (cache.slabs slab).inuse == cache.count_per_slab

-- an object taken from the slab at `slab`, and the cache after it
pub take_from : Cache → ℕ → Option (ℕ × Cache)
unfolding obj_pop
take_from cache slab = elim (obj_pop (cache.slabs slab)) [
  | none ↦ none
  | some (obj, s) ↦ some (obj, record cache { slabs = update cache.slabs slab s })
]

abbrev pub remove : ℕ → List ℕ → List ℕ
remove s [] = []
remove s (t ∷ l) = if t == s then l else t ∷ remove s l

-- the slab at the head of `part_slabs` moved to `full_slabs` if it is full
pub retire : Cache → ℕ → Cache
unfolding is_slab_full
retire cache slab =
    if is_slab_full cache slab
    then record cache {
      part_slabs = remove slab cache.part_slabs;
      full_slabs = slab ∷ cache.full_slabs;
    }
    else cache

-- `kmem_cache_alloc` for the slab of a CPU. `full` is what its first test has seen: the slab is not
-- locked yet then, so that it may be another one under the lock. `fresh` is the slab that
-- `kmem_cache_add_slab` would make, at the address `new`.
pub kmem_cache_alloc : Bool → Cache → ℕ → ℕ → Slab → Option (ℕ × Cache)
unfolding take_from retire
kmem_cache_alloc full cache cpu new fresh =
    if full
    then elim cache.part_slabs [
      | [] ↦
          take_from (record cache { slabs = update cache.slabs new fresh; part_slabs = new ∷ [] })
            new
      | s ∷ l ↦ elim (take_from cache s) [ none ↦ none | some (obj, c) ↦ some (obj, retire c s) ]
    ]
    else take_from cache (cache.cache_cpu cpu)

abbrev pub is_in : ℕ → List ℕ → Bool
is_in s [] = false
is_in s (t ∷ l) = if t == s then true else is_in s l

-- `!list_empty(&slab->list)`: the slab is in one of the lists
abbrev pub is_listed : Cache → ℕ → Bool
is_listed cache slab = if is_in slab cache.part_slabs then true else is_in slab cache.full_slabs

-- `list_del` and `list_add_head` of a full slab from which an object comes back
pub revive : Cache → ℕ → Cache
unfolding is_slab_full
revive cache slab =
    if is_slab_full cache slab
    then record cache {
      part_slabs = slab ∷ cache.part_slabs;
      full_slabs = remove slab cache.full_slabs;
    }
    else cache

-- `kmem_cache_free` of an object of the slab at `slab`, which `page_slab` finds
pub kmem_cache_free : Cache → ℕ → ℕ → Option Cache
unfolding obj_push revive
kmem_cache_free cache slab obj =
    let c = if is_listed cache slab then revive cache slab else cache in
    elim (obj_push (c.slabs slab) obj) [
      | none ↦ none
      | some s ↦ some (record c { slabs = update c.slabs slab s })
    ]

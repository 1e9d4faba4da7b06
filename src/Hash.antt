-- ===== src/Hash.antt =====
-- lib/hash.c and include/lib/hash.h: chains of entries, each entry in the chain of its key.
pub mod Find
mod Tests
use risc.Common.{
  ℕ, ◌+◌, ◌-◌, ◌*◌, ◌%◌, ◌≤◌, Option, none, some, List, [], ◌∷◌, ◌++◌, ltb, ◌==◌, if◌then◌else◌,
  update,
}
use risc.Sched.{remove}

-- `struct hash_table`: the entries of each chain, from its head on. A chain is a list of lib/list.h.
pub record HashTable : Type 0 where
  pub size : ℕ
  pub count : ℕ
  pub heads : ℕ → List ℕ

-- `hash_init`, for a table whose heads fit in a page of `kmalloc`; a larger one panics. The table
-- of heads takes 16 bytes for each.
pub hash_init : ℕ → ℕ → Option HashTable
hash_init limit size =
    if ltb limit (16 * size)
    then none
    else some (record { size = size; count = 0; heads = λ b. [] })

-- `_hash`
abbrev pub hash : HashTable → ℕ → ℕ
hash h key = key % h.size

unfoldable pub hash_add_head : HashTable → ℕ → ℕ → HashTable
hash_add_head h key e = record h {
  heads = update h.heads (hash h key) (e ∷ h.heads (hash h key));
  count = h.count + 1;
}

pub hash_add_tail : HashTable → ℕ → ℕ → HashTable
hash_add_tail h key e = record h {
  heads = update h.heads (hash h key) (h.heads (hash h key) ++ (e ∷ []));
  count = h.count + 1;
}

-- the walk along a chain; `key_of` reads the key of an entry
unfoldable pub find_in : (ℕ → ℕ) → ℕ → List ℕ → Option ℕ
find_in key_of key [] = none
find_in key_of key (e ∷ es) =
    let rest = find_in key_of key es in if key_of e == key then some e else rest

unfoldable pub hash_find : HashTable → (ℕ → ℕ) → ℕ → Option ℕ
unfolding find_in
hash_find h key_of key = find_in key_of key (h.heads (hash h key))

-- An entry stands in one chain, which is the one that it leaves.
unfoldable pub hash_del_node : HashTable → ℕ → HashTable
hash_del_node h e = record h { heads = λ b. remove e (h.heads b); count = h.count - 1 }

pub hash_del : HashTable → (ℕ → ℕ) → ℕ → Option ℕ × HashTable
unfolding hash_find hash_del_node
hash_del h key_of key = elim (hash_find h key_of key) [
  | none ↦ (none, h)
  | some e ↦ (some e, hash_del_node h e)
]

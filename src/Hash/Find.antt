-- ===== src/Hash/Find.antt =====
-- The hash tables of include/lib/hash.h are finite maps from keys to entries.
use risc.Common.{
  ℕ, ◌%◌, ◌<◌, ◌≡◌, ◌≢◌, ◌↔◌, ◌⊎◌, inl, inr, none, some, List, [], ◌∷◌, arith, ◌==◌, Bool-cases,
}
use risc.Sched.Count.{count, count_without}
use risc.Hash.{HashTable, hash, find_in, hash_find, hash_add_head, hash_del_node}

-- Each entry stands at most once in the table, in the chain of its key.
pub record IsValid (key_of : ℕ → ℕ) (h : HashTable) : Type 0 where
  pub nonempty : 0 < h.size
  pub placed :
      (b e : ℕ) → 0 < count e (h.heads b) → (b ≡ key_of e % h.size) × (count e (h.heads b) ≡ 1)

-- `e` stands in the table
abbrev pub Holds : (ℕ → ℕ) → HashTable → ℕ → Type 0
Holds key_of h e = 0 < count e (h.heads (key_of e % h.size))

pub find_in-some :
    (key_of : ℕ → ℕ) (key : ℕ) (es : List ℕ) (e : ℕ)
    → find_in key_of key es ≡ some e
    → (key_of e ≡ key) × (0 < count e es)
unfolding find_in
find_in-some key_of key [] e h = absurd (cc)
find_in-some key_of key (d ∷ es) e h = elim (Bool-cases (key_of d == key)) [
  | inl t ↦ ground arith
  | inr t ↦ ground (arith, find_in-some key_of key es e (ground arith))
]

pub find_in-none :
    (key_of : ℕ → ℕ) (key : ℕ) (es : List ℕ) (e : ℕ)
    → find_in key_of key es ≡ none
    → 0 < count e es
    → key_of e ≢ key
unfolding find_in
find_in-none key_of key [] e h lt = absurd (omega arith)
find_in-none key_of key (d ∷ es) e h lt = elim (Bool-cases (key_of d == key)) [
  | inl t ↦ absurd (ground arith)
  | inr t ↦ elim (Bool-cases (d == e)) [
    | inl q ↦ λ eq. ground arith
    | inr q ↦ find_in-none key_of key es e (ground arith) (ground arith)
  ]
]

-- What `hash_find` finds is an entry of the table with the key, and it finds nothing only where no entry
-- of the table has the key.
pub hash_find-Holds :
    (key_of : ℕ → ℕ) (h : HashTable) (key : ℕ)
    → ((e : ℕ) → hash_find h key_of key ≡ some e → (key_of e ≡ key) × Holds key_of h e)
      × (hash_find h key_of key ≡ none → (e : ℕ) → Holds key_of h e → key_of e ≢ key)
unfolding hash_find
hash_find-Holds key_of h key = (
  λ e f. let r = find_in-some key_of key (h.heads (hash h key)) e f in (r.0, ground (arith, r)),
  λ n e there q. find_in-none key_of key (h.heads (hash h key)) e n (ground arith) q,
)

-- An insertion at the head of an entry that is not in a valid table gives a valid table with that
-- entry and those before, in which its key finds it.
pub hash_add_head-IsValid :
    (key_of : ℕ → ℕ) (h : HashTable) (e : ℕ)
    → IsValid key_of h
    → count e (h.heads (key_of e % h.size)) ≡ 0
    → IsValid key_of (hash_add_head h (key_of e) e)
      × (hash_find (hash_add_head h (key_of e) e) key_of (key_of e) ≡ some e)
      × ((d : ℕ) → Holds key_of (hash_add_head h (key_of e) e) d ↔ (Holds key_of h d ⊎ (d ≡ e)))
unfolding hash_add_head hash_find find_in
hash_add_head-IsValid key_of h e v new = (
  record { nonempty = v.nonempty; placed = λ b d lt. ground (arith, v.placed b d) },
  ground arith,
  λ d. (
    λ x. elim (Bool-cases (e == d)) [ inl q ↦ inr (ground arith) | inr q ↦ inl (ground arith) ],
    λ y. elim y [ inl x ↦ ground arith | inr q ↦ ground arith ],
  ),
)

-- The removal of an entry of a valid table gives a valid table with the other entries.
pub hash_del_node-IsValid :
    (key_of : ℕ → ℕ) (h : HashTable) (e : ℕ)
    → IsValid key_of h
    → Holds key_of h e
    → IsValid key_of (hash_del_node h e)
      × ((d : ℕ) → Holds key_of (hash_del_node h e) d ↔ (Holds key_of h d × (d ≢ e)))
unfolding hash_del_node
hash_del_node-IsValid key_of h e v there = (
  record {
    nonempty = v.nonempty;
    placed = λ b d lt. ground (arith, v.placed b d, count_without e d (h.heads b));
  },
  λ d. (
    λ x. (
      ground (arith, count_without e d (h.heads (hash h (key_of d)))),
      λ q.
          ground (
            arith,
            count_without e d (h.heads (hash h (key_of d))),
            v.placed (hash h (key_of d)) d,
          ),
    ),
    λ (x, ne). ground (arith, count_without e d (h.heads (hash h (key_of d)))),
  ),
)

-- ===== src/Lru/Order.antt =====
-- Each node of lib/lru.c is in the list that its count tells, once.
use risc.Common.{
  ℕ, ◌+◌, ◌≤◌, ◌<◌, ◌≡◌, inl, inr, none, some, List, [], ◌∷◌, ◌++◌, arith, ◌==◌, if◌then◌else◌,
  Bool-cases, update,
}
use risc.Sched.{remove}
use risc.Sched.Count.{count, count-remove}
use risc.Lru.{Lru2List, lru2_up, lru2_down}

pub record IsValid (l : Lru2List) : Type 0 where
  pub bound : (t : ℕ) → l.access t ≤ 2
  pub active : (t : ℕ) → count t l.act_list ≡ (if l.access t == 2 then 1 else 0)
  pub inactive : (t : ℕ) → count t l.ina_list ≡ (if l.access t == 1 then 1 else 0)

count-snoc :
    (t u : ℕ) (us : List ℕ) → count u (us ++ (t ∷ [])) ≡ count u us + (if t == u then 1 else 0)
count-snoc t u [] = ground arith
count-snoc t u (x ∷ us) = ground (arith, count-snoc t u us)

-- the node at the end of the active list, of the inactive one, and in none
abbrev last_active : Lru2List → ℕ → Lru2List
last_active l node = record l {
  access = update l.access node 2;
  ina_list = remove node l.ina_list;
  act_list = l.act_list ++ (node ∷ []);
}

abbrev last_inactive : Lru2List → ℕ → Lru2List
last_inactive l node = record l {
  access = update l.access node 1;
  act_list = remove node l.act_list;
  ina_list = l.ina_list ++ (node ∷ []);
}

abbrev used_again : Lru2List → ℕ → Lru2List
used_again l node = record l { act_list = remove node l.act_list ++ (node ∷ []) }

abbrev first_use : Lru2List → ℕ → Lru2List
first_use l node = record l {
  access = update l.access node 1;
  ina_list = l.ina_list ++ (node ∷ []);
}

abbrev dropped : Lru2List → ℕ → Lru2List
dropped l node = record l { access = update l.access node 0; ina_list = remove node l.ina_list }

last_active-IsValid :
    (l : Lru2List) (node : ℕ) → IsValid l → l.access node ≡ 1 → IsValid (last_active l node)
last_active-IsValid l node v one = record {
  bound = λ t. ground (arith, v.bound t);
  active = λ t. ground (arith, v.active t, count-snoc node t l.act_list, one);
  inactive =
      λ t. ground (arith, v.inactive t, v.inactive node, count-remove node t l.ina_list, one);
}

last_inactive-IsValid :
    (l : Lru2List) (node : ℕ) → IsValid l → l.access node ≡ 2 → IsValid (last_inactive l node)
last_inactive-IsValid l node v two = record {
  bound = λ t. ground (arith, v.bound t);
  active = λ t. ground (arith, v.active t, v.active node, count-remove node t l.act_list, two);
  inactive = λ t. ground (arith, v.inactive t, count-snoc node t l.ina_list, two);
}

used_again-IsValid :
    (l : Lru2List) (node : ℕ) → IsValid l → l.access node ≡ 2 → IsValid (used_again l node)
used_again-IsValid l node v two = record {
  bound = v.bound;
  active = λ t. ground (
    arith,
    v.active t,
    v.active node,
    count-remove node t l.act_list,
    count-snoc node t (remove node l.act_list),
    two,
  );
  inactive = v.inactive;
}

first_use-IsValid :
    (l : Lru2List) (node : ℕ) → IsValid l → l.access node ≡ 0 → IsValid (first_use l node)
first_use-IsValid l node v z = record {
  bound = λ t. ground (arith, v.bound t);
  active = λ t. ground (arith, v.active t, z);
  inactive = λ t. ground (arith, v.inactive t, count-snoc node t l.ina_list, z);
}

dropped-IsValid :
    (l : Lru2List) (node : ℕ) → IsValid l → l.access node ≡ 1 → IsValid (dropped l node)
dropped-IsValid l node v one = record {
  bound = λ t. ground (arith, v.bound t);
  active = λ t. ground (arith, v.active t, one);
  inactive =
      λ t. ground (arith, v.inactive t, v.inactive node, count-remove node t l.ina_list, one);
}

-- `lru2_up` counts a use up to 2 and moves the node to its list; it never stops the kernel. `lru2_down`
-- takes one use back and moves the node, and stops the kernel for a node that is in no list.
pub lru2-IsValid :
    (l : Lru2List) (node : ℕ)
    → IsValid l
    → ((l1 : Lru2List) × (lru2_up l node ≡ some l1)
        × IsValid l1
        × (l1.access node ≡ (if l.access node == 2 then 2 else l.access node + 1)))
      × (0 < l.access node
          → (l1 : Lru2List) × (lru2_down l node ≡ some l1)
            × IsValid l1
            × (l1.access node + 1 ≡ l.access node))
      × (l.access node ≡ 0 → lru2_down l node ≡ none)
unfolding lru2_up lru2_down
lru2-IsValid l node v = elim (Bool-cases (l.access node == 2)) [
  | inl h ↦
      let two : l.access node ≡ 2 = ground arith in
      (
        (
          used_again l node,
          ground (arith, two),
          used_again-IsValid l node v two,
          ground (arith, two),
        ),
        (λ lt. (
          last_inactive l node,
          ground (arith, two),
          last_inactive-IsValid l node v two,
          ground (arith, two),
        )),
        λ z. absurd (omega (arith, two, z)),
      )
  | inr h ↦ elim (Bool-cases (l.access node == 1)) [
    | inl k ↦
        let one : l.access node ≡ 1 = ground arith in
        (
          (
            last_active l node,
            ground (arith, one),
            last_active-IsValid l node v one,
            ground (arith, one),
          ),
          (λ lt. (
            dropped l node,
            ground (arith, one),
            dropped-IsValid l node v one,
            ground (arith, one),
          )),
          λ z. absurd (omega (arith, one, z)),
        )
    | inr k ↦
        let none_left : l.access node ≡ 0 = ground (arith, v.bound node) in
        (
          (
            first_use l node,
            ground (arith, none_left),
            first_use-IsValid l node v none_left,
            ground (arith, none_left),
          ),
          (λ lt. absurd (omega (arith, lt, none_left))),
          λ z. ground (arith, z),
        )
  ]
]

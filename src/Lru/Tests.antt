-- ===== src/Lru/Tests.antt =====
-- Two nodes of lib/lru.c, one used once and one used again.
use risc.Common.{◌+◌, ◌<◌, ◌≡◌, none, some, [], ◌∷◌, arith, ◌==◌, if◌then◌else◌}
use risc.Lru.{Lru2List, lru2_up, lru2_down}
use risc.Lru.Order.{IsValid, lru2-IsValid}

abbrev two_nodes : Lru2List
two_nodes = record {
  access = λ t. if t == 5 then 2 else if t == 6 then 1 else 0;
  act_list = 5 ∷ [];
  ina_list = 6 ∷ [];
}

two_nodes-IsValid : IsValid two_nodes
two_nodes-IsValid = record {
  bound = λ t. ground arith;
  active = λ t. ground arith;
  inactive = λ t. ground arith;
}

lru2-IsValid_example :
    ((l1 : Lru2List) × (lru2_up two_nodes 6 ≡ some l1)
      × IsValid l1
      × (l1.access 6 ≡ (if two_nodes.access 6 == 2 then 2 else two_nodes.access 6 + 1)))
    × (0 < two_nodes.access 6
        → (l1 : Lru2List) × (lru2_down two_nodes 6 ≡ some l1)
          × IsValid l1
          × (l1.access 6 + 1 ≡ two_nodes.access 6))
    × (two_nodes.access 6 ≡ 0 → lru2_down two_nodes 6 ≡ none)
lru2-IsValid_example = lru2-IsValid two_nodes 6 two_nodes-IsValid

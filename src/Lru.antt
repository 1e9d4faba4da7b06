-- ===== src/Lru.antt =====
-- lib/lru.c: two lists of nodes, of those used once and of those used again.
pub mod Order
mod Tests
use risc.Common.{
  ℕ, zero, suc, ◌+◌, ◌-◌, Bool, true, false, Option, none, some, List, [], ◌∷◌, ◌++◌, ◌==◌,
  if◌then◌else◌, update,
}
use risc.Sched.{remove}

-- `lru2_list_t` with the counts of its nodes; `access` of a node tells the list that it is in.
pub record Lru2List : Type 0 where
  pub access : ℕ → ℕ
  pub act_list : List ℕ
  pub ina_list : List ℕ

pub lru2_init : Lru2List → Lru2List
lru2_init l = record l { act_list = []; ina_list = [] }

pub lru2_node_init : Lru2List → ℕ → Lru2List
lru2_node_init l node = record l { access = update l.access node 0 }

-- Another count than 0, 1 or 2 stops the kernel.
pub lru2_up : Lru2List → ℕ → Option Lru2List
lru2_up l node =
    if l.access node == 2
    then some (record l { act_list = remove node l.act_list ++ (node ∷ []) })
    else if l.access node == 1
    then some (record l {
      access = update l.access node 2;
      ina_list = remove node l.ina_list;
      act_list = l.act_list ++ (node ∷ []);
    })
    else if l.access node == 0
    then some (record l { access = update l.access node 1; ina_list = l.ina_list ++ (node ∷ []) })
    else none

pub lru2_down : Lru2List → ℕ → Option Lru2List
lru2_down l node =
    if l.access node == 2
    then some (record l {
      access = update l.access node 1;
      act_list = remove node l.act_list;
      ina_list = l.ina_list ++ (node ∷ []);
    })
    else if l.access node == 1
    then some (record l { access = update l.access node 0; ina_list = remove node l.ina_list })
    else none

-- ===== src/LinkedList.antt =====
-- list/list.h and list/list.c: `list_t`, a chain of data pointers with its length.
pub mod Mapped
pub mod Search
pub mod Unlike
pub mod Pool
pub mod Owned
use lixy.Base.{
  ℕ, suc, ◌+◌, ◌-◌, ◌%◌, ◌^◌, ◌==◌, if◌then◌else◌, Bool, true, false, Option, none, some, List, [],
  ◌∷◌,
}
use lixy.Platform.{UtList}

-- `u_int32_t` arithmetic of `count`.
abbrev pub u32 : ℕ
u32 = 2 ^ 32

-- The step at which LL_FOREACH meets the pointer.
abbrev pub position : ℕ → List ℕ → Option ℕ
position p [] = none
position p (q ∷ qs) =
    if q == p then some 0 else elim (position p qs) [ none ↦ none | some i ↦ some (suc i) ]

foreach_nodes {ℓ} : {S : Type ℓ} → (ℕ → S → S) → List ℕ → S → S
foreach_nodes func [] s = s
foreach_nodes func (p ∷ ps) s = foreach_nodes func ps (func p s)

module _ (u : UtList) where
  pub record ListT : Type 0 where
    pub head : u.Chain
    pub count : ℕ

  unfoldable pub create_list : ListT
  create_list = record { head = u.null; count = 0 }

  -- The loop of `destroy_list` and `delete_list`: each round deletes the node that is then first.
  delete_each : List ℕ → u.Chain → u.Chain
  delete_each [] c = c
  delete_each (p ∷ ps) c = delete_each ps (u.ll_delete c 0)

  -- `count` is not reset.
  pub delete_list : ListT → ListT
  unfolding delete_each
  delete_list l = record l { head = delete_each (u.nodes l.head) l.head }

  -- The list, whose `count` is not reset, and the data pointers that are freed.
  pub destroy_list : ListT → ListT × List ℕ
  unfolding delete_each
  destroy_list l = (record l { head = delete_each (u.nodes l.head) l.head }, u.nodes l.head)

  -- `func` is a state transformer that is given each data pointer.
  pub foreach_list {ℓ} : {S : Type ℓ} → ListT → (ℕ → S → S) → S → S
  unfolding foreach_nodes
  foreach_list l func = foreach_nodes func (u.nodes l.head)

  unfoldable pub append_listnode : ListT → ℕ → ListT
  append_listnode l p = record { head = u.ll_append l.head p; count = (l.count + 1) % u32 }

  -- The list after the call, and whether the node was there (the result is not NULL).
  unfoldable pub delete_listnode : ListT → ℕ → ListT × Bool
  delete_listnode l p = elim (position p (u.nodes l.head)) [
    | none ↦ (l, false)
    | some i ↦ (record { head = u.ll_delete l.head i; count = (l.count + (u32 - 1)) % u32 }, true)
  ]

-- `cmp` is given as the test `cmp (d1, data) == 0`.
abbrev pub search_nodes : (ℕ → Bool) → List ℕ → Option ℕ
search_nodes cmp [] = none
search_nodes cmp (p ∷ ps) = if cmp p then some p else search_nodes cmp ps

unfoldable pub search_listnode : (u : UtList) → ListT u → (ℕ → Bool) → Option ℕ
search_listnode u l cmp = search_nodes cmp (u.nodes l.head)

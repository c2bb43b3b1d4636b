-- ===== src/Platform/Utlist.antt =====
-- The macros LL_APPEND, LL_DELETE and LL_FOREACH of `utlist.h` (uthash), which list/list.c wraps.
-- A chain is what hangs below a `head` pointer. Each of its nodes holds a `void * data`, which is
-- an address.
use lixy.Base.{ℕ, ◌≡◌, List, [], ◌∷◌, ◌++◌, remove_at}

pub record UtList : Type 1 where
  pub Chain : Type 0
  -- `head == NULL`
  pub null : Chain
  -- The `data` of the nodes in the order of LL_FOREACH.
  pub nodes : Chain → List ℕ
  -- LL_APPEND of a new node with this `data`.
  pub ll_append : Chain → ℕ → Chain
  -- LL_DELETE of the node that LL_FOREACH reaches after so many steps.
  pub ll_delete : Chain → ℕ → Chain

-- The documented behaviour of the macros.
pub record LawfulUtList (u : UtList) : Type 0 where
  pub nodes-null : u.nodes u.null ≡ []
  pub nodes-ll_append : (c : u.Chain) (p : ℕ) → u.nodes (u.ll_append c p) ≡ u.nodes c ++ p ∷ []
  pub nodes-ll_delete : (c : u.Chain) (i : ℕ) → u.nodes (u.ll_delete c i) ≡ remove_at i (u.nodes c)

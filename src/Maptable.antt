-- ===== src/Maptable.antt =====
-- maptable.h and maptable.c: the map table (RIB), a prefix tree whose nodes point to mapnodes.
pub mod Fib
pub mod Routes
use lixy.Base.{
  ℕ, ◌+◌, ◌-◌, ◌%◌, if◌then◌else◌, Bool, true, false, Option, none, some, List, [], ◌∷◌, map,
}
use lixy.Platform.Patricia.{Patricia, key}
use lixy.LinkedList.{u32}
use lixy.LinkedList.Pool.{Pool, malloc}
use lixy.Net.{Sockaddr, Prefix, Locator, zero_locator}

abbrev pub mapttl_default : ℕ
mapttl_default = 60

abbrev pub mapttl_check_interval : ℕ
mapttl_check_interval = 10

-- MAPSTATE_ACTIVE to MAPSTATE_STATIC
pub data MapState : Type 0 where
  active negative drop queried static : MapState

abbrev pub is_static : MapState → Bool
is_static static = true
is_static active = false
is_static negative = false
is_static drop = false
is_static queried = false

-- `ttl` is an `int`, given by its 32 bits.
pub record MapNode : Type 0 where
  pub ttl : ℕ
  pub timer : ℕ
  pub state : MapState
  pub addr : Sockaddr
  pub locator : Locator

-- What the table asks of the kernel: `add_route_to_tun` and `del_route_to_tun`.
pub data RouteEvent : Type 0 where
  add_route_to_tun : Prefix → RouteEvent
  del_route_to_tun : Prefix → RouteEvent

-- A mapnode that was set to zero, with its state and address.
abbrev pub static_mapnode : Sockaddr → MapNode
static_mapnode addr = record {
  ttl = 0;
  timer = 0;
  state = static;
  addr = addr;
  locator = zero_locator;
}

-- The states that `uninstall_mapnode_static` refuses.
abbrev pub is_learned : MapState → Bool
is_learned active = true
is_learned queried = true
is_learned negative = false
is_learned drop = false
is_learned static = false

module _ (t : Patricia) where
  -- `struct maptable`, and the mapnodes that its nodes point to.
  pub record Maptable : Type 0 where
    pub tree : t.Tree
    pub count : ℕ
    pub mapnodes : Pool MapNode

  unfoldable pub create_maptable : Pool MapNode → Maptable
  create_maptable pool = record { tree = t.new_patricia; count = 0; mapnodes = pool }

  -- The calls of the function that is given: with the prefix and the data of each node, in the order
  -- of PATRICIA_WALK. The function leaves the tree as it is.
  pub foreach_maptable : Maptable → List (Prefix × Option ℕ)
  foreach_maptable table =
      map (λ k. (t.node_prefix table.tree k, t.node_data table.tree k)) (t.walk table.tree)

  -- The mapnode is given by its address. The result is `false` for NULL. The node of the prefix is
  -- in the tree afterwards in any case.
  unfoldable pub update_mapnode : Maptable → Prefix → ℕ → Maptable × Bool
  update_mapnode table prefix node =
      let tree' = t.patricia_lookup table.tree prefix in
      let set' = record table { tree = t.set_data tree' (key prefix) (some node) } in
      elim (t.node_data tree' (key prefix)) [
        | none ↦ (set', true)
        | some mn ↦
            if is_static (table.mapnodes.cell mn).state
            then (record table { tree = tree' }, false)
            else (set', true)
      ]

  -- The result is `pn->data`; `none` also stands for a table without a fitting node.
  unfoldable pub delete_mapnode : Maptable → Prefix → Maptable × Option ℕ
  delete_mapnode table prefix = elim (t.patricia_search_best table.tree prefix) [
    | none ↦ (table, none)
    | some pn ↦ (
      record table {
        tree = t.patricia_remove table.tree pn;
        count = (table.count + (u32 - 1)) % u32;
      },
      t.node_data table.tree pn,
    )
  ]

  unfoldable pub search_mapnode : Maptable → Prefix → Option ℕ
  search_mapnode table prefix = elim (t.patricia_search_best table.tree prefix) [
    | none ↦ none
    | some pn ↦ t.node_data table.tree pn
  ]

  -- A new mapnode is put into the table; it is freed again if the table refuses it.
  unfoldable pub install : Maptable → Prefix → MapNode → Maptable × Bool
  install table prefix mn =
      update_mapnode (record table { mapnodes = malloc table.mapnodes mn }) prefix
        table.mapnodes.next

  -- `fresh` is what `malloc` returns: only the state is set.
  unfoldable pub install_mapnode_queried : MapNode → Maptable → Prefix → Maptable
  install_mapnode_queried fresh table prefix =
      (install table prefix (record fresh { state = queried })).0

  unfoldable pub install_mapnode_static : Maptable → Prefix → Sockaddr → Maptable × List RouteEvent
  install_mapnode_static table prefix addr =
      let (table', done) = install table prefix (static_mapnode addr) in
      (table', if done then add_route_to_tun prefix ∷ [] else [])

  unfoldable pub uninstall_mapnode_static : Maptable → Prefix → Maptable × Bool × List RouteEvent
  uninstall_mapnode_static table prefix = elim (search_mapnode table prefix) [
    | none ↦ (table, false, [])
    | some mn ↦
        if is_learned (table.mapnodes.cell mn).state
        then (table, false, [])
        else ((delete_mapnode table prefix).0, true, del_route_to_tun prefix ∷ [])
  ]

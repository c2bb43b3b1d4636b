-- ===== src/Aging.antt =====
-- maptable.c: `lisp_maptable_thread`, which ages the entries of the map table every ten seconds.
pub mod Walk
pub mod Expiry
pub mod Sends
pub mod Outputs
pub mod Rounds
use lixy.Base.{
  ℕ, zero, suc, ◌+◌, ◌-◌, ◌%◌, ◌^◌, ◌==◌, leb, ◌||◌, if◌then◌else◌, Bool, true, false, Option, none,
  some, List, [], ◌∷◌, ◌++◌,
}
use lixy.Platform.Patricia.{Patricia, Key, any_covers}
use lixy.LinkedList.Pool.{store}
use lixy.LinkedList.{u32}
use lixy.Maptable.{
  Maptable, MapNode, MapState, active, negative, queried, drop, static, is_static, delete_mapnode,
  del_route_to_tun, mapttl_check_interval,
}
use lixy.Map.Receive.{Output, route, map_request, ◌>>=◌}

-- `mn->ttl -= MAPTTL_CHECK_INTERVAL`, on the 32 bits of an `int`.
unfoldable pub lower_ttl : MapNode → MapNode
lower_ttl mn = record mn { ttl = (mn.ttl + (u32 - mapttl_check_interval)) % u32 }

-- `mn->ttl <= 0`
unfoldable pub is_expired : MapNode → Bool
is_expired mn = mn.ttl == 0 || leb (2 ^ 31) mn.ttl

abbrev pub is_active : MapState → Bool
is_active active = true
is_active _ = false

-- The states whose entries are asked for again.
abbrev pub is_refreshed : MapState → Bool
is_refreshed active = true
is_refreshed negative = true
is_refreshed queried = true
is_refreshed drop = false
is_refreshed static = false

module _ (t : Patricia) where
  -- The body of the walk, for a node whose mapnode is not a static one.
  unfoldable pub age_node : Maptable t → Key → ℕ → Maptable t × List Output
  age_node rib k mn =
      let old = lower_ttl (rib.mapnodes.cell mn) in
      let lowered = record rib { mapnodes = store rib.mapnodes mn old } in
      let prefix = t.node_prefix rib.tree k in
      if is_expired old
      then (
        (delete_mapnode t lowered prefix).0,
        if is_active old.state then route (del_route_to_tun prefix) ∷ [] else [],
      )
      else (lowered, if is_refreshed old.state then map_request prefix ∷ [] else [])

  -- The walk from a node on, of the tree as it was before the round: the code reads the children of a
  -- node also after `patricia_remove` has freed it. `broken` are the static nodes that it met:
  -- PATRICIA_WALK_BREAK leaves out what is below them. `none` is a NULL dereference.
  unfoldable pub age_nodes : List Key → List Key → Maptable t → Option (Maptable t × List Output)
  age_nodes broken [] rib = some (rib, [])
  age_nodes broken (k ∷ ks) rib =
      let skipped = age_nodes broken ks rib in
      let left_out = age_nodes (k ∷ broken) ks rib in
      let aged = λ (o : Maptable t × List Output). age_nodes broken ks o.0 in
      if any_covers broken k then skipped else elim (t.node_data rib.tree k) [
        | none ↦ none
        | some mn ↦
            if is_static (rib.mapnodes.cell mn).state
            then left_out
            else (let o = age_node rib k mn in aged o >>= λ (rib', out). some (rib', o.1 ++ out))
      ]

  -- One round of the thread.
  unfoldable pub age_maptable : Maptable t → Option (Maptable t × List Output)
  age_maptable rib = age_nodes [] (t.walk rib.tree) rib

  -- The loop of the thread, some rounds long.
  unfoldable pub age_rounds : ℕ → Maptable t → Option (Maptable t × List Output)
  age_rounds zero rib = some (rib, [])
  age_rounds (suc n) rib = age_maptable rib >>= λ (aged, sent).
      age_rounds n aged >>= λ (rib', out). some (rib', sent ++ out)

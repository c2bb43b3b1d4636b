-- ===== src/Tests/Table.antt =====
-- The map table with a static entry for 10.0.0.0/8.
use lixy.Base.{ℕ, ◌≡◌, refl, ◌≤◌, ◌⊎◌, Bool, true, false, none, some, List, [], ◌∷◌}
use lixy.Platform.Patricia.{Key, key, cut, key_eq, longest}
use lixy.Net.{zero_sockaddr}
use lixy.Maptable.{
  Maptable, MapNode, RouteEvent, del_route_to_tun, static_mapnode, create_maptable, update_mapnode,
  install, search_mapnode, uninstall_mapnode_static,
}
use lixy.Maptable.Fib.{
  Fib, holds_static, fib, fetch, RibInv, present, override, best_key, spec_install,
}
use lixy.Maptable.Fib.Laws.{install-refines}
use lixy.Maptable.Fib.Laws.Invariant.{create_maptable-RibInv, install-RibInv}
use lixy.Maptable.Fib.Longest.{IsLongest}
use lixy.Maptable.Routes.{
  search_mapnode-IsLongest, uninstall-refines, spec_uninstall, uninstall_covering,
}
use lixy.Tests.Trees.{list_tree, list_tree_lawful}
use lixy.Tests.World.{net8, net16}

abbrev pub to_host : MapNode
to_host = static_mapnode zero_sockaddr

abbrev pub empty_table : Maptable list_tree
empty_table = create_maptable list_tree (record { next = 1; cell = λ p. to_host })

pub empty_table-RibInv : RibInv list_tree empty_table
empty_table-RibInv = create_maptable-RibInv list_tree list_tree_lawful _

abbrev pub table : Maptable list_tree
table = (install list_tree empty_table net8 to_host).0

pub table-RibInv : RibInv list_tree table
table-RibInv = install-RibInv list_tree list_tree_lawful empty_table empty_table-RibInv net8 to_host

pub here : fib list_tree table (key net8) ≡ some to_host
unfolding install update_mapnode create_maptable key_eq cut
here = refl

pub covering : best_key (fib list_tree table) net16 ≡ some (key net8)
unfolding best_key longest install update_mapnode create_maptable key_eq cut
covering = refl

search_mapnode-IsLongest_example :
    let has = λ (k : Key). present (fib list_tree table k) in
    ((search_mapnode list_tree table net16 ≡ none) × ((l : ℕ) → l ≤ 16 → has (cut net16 l) ≡ false))
    ⊎ ((m : ℕ) × (fetch list_tree table (search_mapnode list_tree table net16)
          ≡ fib list_tree table (cut net16 m))
        × IsLongest has net16 16 m)
search_mapnode-IsLongest_example =
    search_mapnode-IsLongest list_tree list_tree_lawful table table-RibInv net16

install-refines_example :
    let (table', done) = install list_tree table net16 to_host in
    ◌≡◌ {A = Fib × Bool}
      (fib list_tree table', done)
      (spec_install (fib list_tree table) net16 to_host)
install-refines_example =
    install-refines list_tree list_tree_lawful table table-RibInv net16 to_host

uninstall-refines_example :
    let (table', done, events) = uninstall_mapnode_static list_tree table net8 in
    ◌≡◌ {A = Fib × Bool × List RouteEvent}
      (fib list_tree table', done, events)
      (spec_uninstall (fib list_tree table) net8)
uninstall-refines_example = uninstall-refines list_tree list_tree_lawful table table-RibInv net8

held : holds_static (fib list_tree table (key net8)) ≡ true
held = rw here refl

uninstall_covering_example :
    let (table', done, events) = uninstall_mapnode_static list_tree table net16 in
    (fib list_tree table' ≡ override (fib list_tree table) (key net8) none)
    × (done ≡ true)
    × (events ≡ del_route_to_tun net16 ∷ [])
uninstall_covering_example =
    uninstall_covering list_tree list_tree_lawful table table-RibInv net16 (key net8) to_host
      covering here refl

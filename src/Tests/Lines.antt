-- ===== src/Tests/Lines.antt =====
-- `route` commands on a table with a static route.
use lixy.Base.{◌≡◌, List, [], ◌∷◌, codes}
use lixy.LinkedList.Pool.{Pool}
use lixy.Control.{ReturnType, Args}
use lixy.Control.Dispatch.{CmdNode, cmd_node, config_eid}
use lixy.Control.Routes.{config_route}
use lixy.Control.Routes.Laws.{spec_route, parse_route, config_route-refines}
use lixy.Maptable.{RouteEvent}
use lixy.Maptable.Fib.{Fib, fib}
use lixy.Tests.World.{two_names}
use lixy.Tests.Trees.{list_tree, list_tree_lawful}
use lixy.Tests.Table.{table, table-RibInv}

abbrev pub no_nodes : Pool CmdNode
no_nodes = record { next = 1; cell = λ p. cmd_node "" config_eid }

abbrev route_delete : Args
route_delete = codes "route" ∷ codes "ipv4" ∷ codes "10.0.0.0/8" ∷ codes "delete" ∷ []

config_route-refines_example :
    let (table', answer, events) = config_route list_tree two_names table route_delete in
    ◌≡◌ {A = Fib × ReturnType × List RouteEvent}
      (fib list_tree table', answer, events)
      (spec_route (fib list_tree table) (parse_route two_names route_delete))
config_route-refines_example =
    config_route-refines list_tree list_tree_lawful two_names table table-RibInv route_delete

-- ===== src/Daemon/Abstract/Refines.antt =====
-- The state of the daemon (Lisp of main.c and common.h) as the plain data that it stands for.
use lixy.Base.{◌≡◌, sym, ap, ◌∙◌, ◌%◌, Option, none, some, List, [], map, length, length-map}
use lixy.Platform.{UtList}
use lixy.Platform.Patricia.{Patricia, Key}
use lixy.LinkedList.{u32}
use lixy.Net.{Prefix}
use lixy.State.{locators, map_servers}
use lixy.Maptable.Fib.{fib}
use lixy.Map.Receive.{Output, route}
use lixy.Map.Respond.{Packet}
use lixy.Control.{Args}
use lixy.Control.Locators.{config_locator}
use lixy.Control.MapServers.{config_map_server}
use lixy.Control.Eids.{config_eid}
use lixy.Control.Eids.Spec.Sites.{sites}
use lixy.Control.Routes.{config_route}
use lixy.Control.Show.{config_show}
use lixy.Control.Dispatch.{Func}
use lixy.Daemon.{Stack, Lisp, Executed}
use lixy.Daemon.Invariant.{LispInv}
use lixy.Daemon.Abstract.{
  Config, Effects, Event, mapserver_command, locator_command, eid_command, route_command,
  show_command, sends_out,
}
pub mod Commands
pub mod Threads

module _ (u : UtList) (t : Patricia) where
  -- What the state holds.
  abbrev pub config : Lisp u t → Config
  config lisp = record {
    locs = locators u lisp.tuples;
    mapsrvs = map_servers u lisp.tuples;
    eids = sites u lisp.tuples;
    entries = fib t lisp.rib;
  }

  abbrev pub executed : Executed u t → Option (Config × Effects)
  executed none = none
  executed (some (lisp, texts, routes)) =
      some (config lisp, record { texts = texts; outputs = map route routes; packets = [] })

  abbrev pub delivered : Option (Lisp u t × List Output × List Packet) → Option (Config × Effects)
  delivered none = none
  delivered (some (lisp, out, sent)) = some (config lisp, sends_out out sent)

  -- The 32-bit count of the locators.
  pub counted :
      (lisp : Lisp u t)
      → LispInv u t lisp
      → lisp.tuples.loc_tuple.count ≡ length (locators u lisp.tuples) % u32
  counted lisp v =
      let s = lisp.tuples in
      v.locator_inv.owned.counted
      ∙ ap (λ n. n % u32) (sym (length-map s.locs.cell (u.nodes s.loc_tuple.head)))

-- The event of a command that was found.
abbrev pub command_event : Stack → (Key → Prefix) → List Key → Func → Args → Event
command_event stack name ks lixy.Control.Dispatch.config_map_server args =
    mapserver_command stack.storage args
command_event stack name ks lixy.Control.Dispatch.config_locator args =
    locator_command stack.storage args
command_event stack name ks lixy.Control.Dispatch.config_eid args = eid_command args
command_event stack name ks lixy.Control.Dispatch.config_show args =
    show_command (stack.state, stack.addrbuf) name ks args
command_event stack name ks lixy.Control.Dispatch.config_route args = route_command args

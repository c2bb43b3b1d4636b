-- ===== src/Daemon/Steps.antt =====
-- The daemon as a transition system.
use lixy.Base.{ℕ, ◌≡◌, Option, some, List}
use lixy.Platform.{UtList}
use lixy.Platform.Patricia.{Patricia}
use lixy.Platform.Resolver.{Resolver}
use lixy.Platform.Format.{Format}
use lixy.LinkedList.Pool.{Pool}
use lixy.Net.{Sockaddr, Prefix, Locator}
use lixy.State.{Eid}
use lixy.Maptable.{Maptable, MapNode, RouteEvent}
use lixy.Map.Receive.{Output}
use lixy.Map.Respond.{Packet}
use lixy.Netlink.{RouteMessage}
use lixy.DataPlane.{lisp_raw_packet}
use lixy.Aging.{age_maptable}
use lixy.Control.Dispatch.{CmdNode}
use lixy.Daemon.{Stack, Lisp, main_state, lisp_op_round, lisp_map_message_round}

module _ (u : UtList) (t : Patricia) (res : Resolver) (f : Format)
    (kernel : List ℕ → Option (List RouteMessage)) where
  -- A round of a thread that has a result. The bytes that arrive and what uninitialised memory
  -- holds are arbitrary.
  pub data Step : Lisp u t → Lisp u t → Type 0 where
    command :
        {lisp lisp' : Lisp u t} (stack : Stack) (buf : List ℕ) (texts : List (List ℕ))
        (routes : List RouteEvent)
        → lisp_op_round u t res f stack lisp buf ≡ some (lisp', texts, routes)
        → Step lisp lisp'
    message :
        {lisp lisp' : Lisp u t} (buf : List ℕ) (len : ℕ) (out : List Output) (sent : List Packet)
        → lisp_map_message_round u t buf len lisp ≡ some (lisp', out, sent)
        → Step lisp lisp'
    aging :
        {lisp : Lisp u t} {rib' : Maptable t} (out : List Output)
        → age_maptable t lisp.rib ≡ some (rib', out)
        → Step lisp (record lisp { rib = rib' })
    raw_packet :
        {lisp : Lisp u t} {rib' : Maptable t} (stack : List ℕ × List ℕ) (fresh : MapNode)
        (buf : List ℕ) (out : List Output)
        → lisp_raw_packet t kernel stack fresh lisp.rib buf ≡ some (rib', out)
        → Step lisp (record lisp { rib = rib' })

  -- The states that the daemon gets into from its start, on any pools.
  pub data Reachable : Lisp u t → Type 0 where
    started :
        (eids : Pool (Eid u)) (locs : Pool Locator) (mapsrvs : Pool Sockaddr)
        (prefixes : Pool Prefix) (cmds : Pool CmdNode) (mapnodes : Pool MapNode)
        → Reachable (main_state u t eids locs mapsrvs prefixes cmds mapnodes)
    stepped : {lisp lisp' : Lisp u t} → Reachable lisp → Step lisp lisp' → Reachable lisp'

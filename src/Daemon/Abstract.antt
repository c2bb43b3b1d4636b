-- ===== src/Daemon/Abstract.antt =====
-- The daemon on plain data: lists of locators, map servers and EIDs, and a function from prefixes to
-- the entries of the map table. What happens to it is an event, which determines what it becomes
-- and what it lets out.
pub mod History
pub mod Refines
pub mod Rounds
pub mod Statics
use lixy.Base.{
  ℕ, ◌%◌, ◌==◌, ltb, if◌then◌else◌, Option, none, some, List, [], ◌∷◌, ◌++◌, map, length,
}
use lixy.Platform.Patricia.{Key}
use lixy.Platform.Resolver.{Resolver}
use lixy.Platform.Format.{Format}
use lixy.LinkedList.{u32}
use lixy.Net.{Sockaddr, Prefix, Locator}
use lixy.Maptable.{MapNode, queried}
use lixy.Maptable.Fib.{Fib, best_key, spec_install}
use lixy.Map.Receive.{Output, route, map_request, ◌>>=◌}
use lixy.Map.Receive.Spec.{read_reply, spec_apply}
use lixy.Map.Respond.{Packet, process_lisp_map_request}
use lixy.Map.Message.{message_type}
use lixy.Aging.Expiry.{under_static, spec_age}
use lixy.Aging.Sends.{own_sends, outputs_of}
use lixy.Control.{err_invalid_command, Args}
use lixy.Control.Locators.Spec.{spec_config_locator}
use lixy.Control.MapServers.Laws.{spec_config_map_server}
use lixy.Control.Eids.Spec.{Site, spec_config_eid}
use lixy.Control.Routes.Laws.{parse_route, spec_route}
use lixy.Control.Show.Spec.{spec_show}
use lixy.Daemon.{write_result, write_control_msg}

pub record Config : Type 0 where
  pub locs : List Locator
  pub mapsrvs : List Sockaddr
  pub eids : List Site
  pub entries : Fib

-- The texts for the client, what goes to the kernel and to the map servers, and the packets.
pub record Effects : Type 0 where
  pub texts : List (List ℕ)
  pub outputs : List Output
  pub packets : List Packet

-- The first argument of a command is what the stack holds before it. A round of the aging thread and
-- a show command are given the walk and the prefixes of its nodes; a message comes with its buffer
-- and length, and a frame is given by the destination that is watched, if any.
pub data Event : Type 0 where
  mapserver_command locator_command : List ℕ → Args → Event
  eid_command route_command : Args → Event
  show_command : Option ℕ × (ℕ → List ℕ) → (Key → Prefix) → List Key → Args → Event
  invalid_command : Event
  received : List ℕ → ℕ → Event
  tick : (Key → Prefix) → List Key → Event
  watched : MapNode → Option Prefix → Event

abbrev pub says : List (List ℕ) → Effects
says texts = record { texts = texts; outputs = []; packets = [] }

abbrev pub sends_out : List Output → List Packet → Effects
sends_out outputs packets = record { texts = []; outputs = outputs; packets = packets }

-- The handler of control messages: a reply is applied, a request is answered.
unfoldable pub spec_handle : Config → List ℕ → Option ℕ → Option (Config × Effects)
spec_handle c buf none = some (c, sends_out [] [])
spec_handle c buf (some type) =
    if type == 2
    then spec_apply (read_reply buf) c.entries
      >>= (λ (f, out). some (record c { entries = f }, sends_out out []))
    else (if type == 1
        then process_lisp_map_request (length c.locs % u32) c.locs buf
          >>= (λ sent. some (c, sends_out [] sent))
        else some (c, sends_out [] []))

-- The handler for a destination that is watched: it is asked for if no entry covers it.
unfoldable pub spec_watched : Config → MapNode → Option Prefix → Config × Effects
spec_watched c fresh none = (c, sends_out [] [])
spec_watched c fresh (some p) = elim (best_key c.entries p) [
  | some k ↦ (c, sends_out [] [])
  | none ↦ (
    record c { entries = (spec_install c.entries p (record fresh { state = queried })).0 },
    sends_out (map_request p ∷ []) [],
  )
]

unfoldable pub spec_step : Resolver → Format → Event → Config → Option (Config × Effects)
spec_step res f (mapserver_command stack args) c =
    let (l, r) = spec_config_map_server res stack args c.mapsrvs in
    some (record c { mapsrvs = l }, says (write_result r))
spec_step res f (locator_command stack args) c =
    let (l, r) = spec_config_locator res stack c.locs args in
    some (record c { locs = l }, says (write_result r))
spec_step res f (eid_command args) c = spec_config_eid res c.eids args >>= λ (l, r).
    some (record c { eids = l }, says (write_result r))
spec_step res f (route_command args) c =
    let (g, r, events) = spec_route c.entries (parse_route res args) in
    some (
      record c { entries = g },
      record { texts = write_result r; outputs = map route events; packets = [] },
    )
spec_step res f (show_command stack name ks args) c =
    let (texts, r) = spec_show f stack name ks c.locs c.mapsrvs c.eids c.entries args in
    some (c, says (texts ++ write_result r))
spec_step res f invalid_command c = some (c, says (write_control_msg err_invalid_command ∷ []))
spec_step res f (received buf len) c =
    if ltb len 24 then some (c, sends_out [] []) else message_type buf >>= spec_handle c buf
spec_step res f (tick name ks) c = some (
  record c { entries = spec_age c.entries ks },
  sends_out
      (outputs_of (λ k. if under_static c.entries ks k then [] else own_sends name c.entries k) ks)
      [],
)
spec_step res f (watched fresh dst) c = some (spec_watched c fresh dst)

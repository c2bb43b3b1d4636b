-- ===== src/Daemon/Abstract/History.antt =====
-- What the daemon holds and sends is determined by what has happened to it.
use lixy.Base.{
  ℕ, ◌≡◌, refl, sym, ap, ◌∙◌, Option, none, some, List, [], ◌∷◌, map, Option-cases, inl, inr,
}
use lixy.Platform.{UtList, LawfulUtList}
use lixy.Platform.Patricia.{Patricia, LawfulPatricia}
use lixy.Platform.Resolver.{Resolver}
use lixy.Platform.Format.{Format}
use lixy.Maptable.{Maptable}
use lixy.Maptable.Fib.{Fib}
use lixy.Map.Receive.{route, ◌>>=◌}
use lixy.Netlink.{RouteMessage}
use lixy.DataPlane.{watched_prefix}
use lixy.Control.Dispatch.{Func, find_command}
use lixy.Daemon.{Stack, Lisp, lisp_op_round}
use lixy.Daemon.Steps.{Step, command, message, aging, raw_packet, Reachable, started, stepped}
use lixy.Daemon.Invariant.{LispInv}
use lixy.Daemon.Abstract.{
  Config, Effects, Event, invalid_command, received, tick, watched, sends_out, spec_step,
}
use lixy.Daemon.Abstract.Refines.{config, command_event, executed}
use lixy.Daemon.Abstract.Refines.Commands.{execute-refines}
use lixy.Daemon.Abstract.Refines.Threads.{
  lisp_map_message_round-refines, aging-refines, raw_packet-refines,
}

abbrev pub joined : {A : Type 0} → Option (Option A) → Option A
joined none = none
joined (some o) = o

abbrev pub no_config : Config
no_config = record { locs = []; mapsrvs = []; eids = []; entries = λ _. none }

-- What is left of a configuration after events, the first one last in the list.
pub history : Resolver → Format → List Event → Option Config
history res f [] = some no_config
history res f (ev ∷ evs) = history res f evs >>= λ c. spec_step res f ev c >>= λ (c', _). some c'

module _ (u : UtList) (t : Patricia) (res : Resolver) (f : Format)
    (kernel : List ℕ → Option (List RouteMessage)) where
  abbrev pub command_found : Stack → Maptable t → Option (Func × List (List ℕ)) → Event
  command_found stack rib none = invalid_command
  command_found stack rib (some (func, args)) =
      command_event stack (t.node_prefix rib.tree) (t.walk rib.tree) func args

  -- What happens in a round of a thread.
  abbrev pub event_of : {lisp lisp' : Lisp u t} → Step u t res f kernel lisp lisp' → Event
  event_of {lisp} (command stack buf texts routes e) =
      command_found stack lisp.rib (find_command u lisp.cmd_tuple buf)
  event_of (message buf len out sent e) = received buf len
  event_of {lisp} (aging out e) = tick (t.node_prefix lisp.rib.tree) (t.walk lisp.rib.tree)
  event_of (raw_packet stack fresh buf out e) =
      watched fresh (joined (watched_prefix t kernel stack fresh buf))

  -- What a round lets out.
  abbrev pub effects_of : {lisp lisp' : Lisp u t} → Step u t res f kernel lisp lisp' → Effects
  effects_of (command stack buf texts routes e) = record {
    texts = texts;
    outputs = map route routes;
    packets = [];
  }
  effects_of (message buf len out sent e) = sends_out out sent
  effects_of (aging out e) = sends_out out []
  effects_of (raw_packet stack fresh buf out e) = sends_out out []

  -- The events of a way from the start to a state, the last one first.
  pub events_of : {lisp : Lisp u t} → Reachable u t res f kernel lisp → List Event
  events_of (started eids locs mapsrvs prefixes cmds mapnodes) = []
  events_of (stepped r st) = event_of st ∷ events_of r

  module _ (ulaw : LawfulUtList u) (tlaw : LawfulPatricia t) where
    pub lisp_op_round-refines :
        (lisp : Lisp u t) (stack : Stack) (buf : List ℕ)
        → LispInv u t lisp
        → executed u t (lisp_op_round u t res f stack lisp buf)
          ≡ spec_step res f
              (command_found stack lisp.rib (find_command u lisp.cmd_tuple buf))
              (config u t lisp)
    unfolding lisp_op_round spec_step
    lisp_op_round-refines lisp stack buf v =
        elim (Option-cases (find_command u lisp.cmd_tuple buf)) [
          | inl e ↦ rw (e, lisp_op_round) refl
          | inr ((func, args), e) ↦
              rw (e, lisp_op_round)
                (execute-refines u t res f kernel ulaw tlaw lisp v stack func args)
        ]

    pub Step-refines :
        {lisp lisp' : Lisp u t} (st : Step u t res f kernel lisp lisp')
        → LispInv u t lisp
        → spec_step res f (event_of st) (config u t lisp) ≡ some (config u t lisp', effects_of st)
    Step-refines {lisp} {lisp'} (command stack buf texts routes e) v =
        sym (lisp_op_round-refines lisp stack buf v) ∙ rw e refl
    Step-refines {lisp} (message buf len out sent e) v =
        sym (lisp_map_message_round-refines u t res f kernel ulaw tlaw lisp v buf len) ∙ rw e refl
    Step-refines {lisp} (aging out e) v =
        sym (aging-refines u t res f kernel ulaw tlaw lisp v) ∙ rw e refl
    Step-refines {lisp} (raw_packet stack fresh buf out e) v =
        elim (Option-cases (watched_prefix t kernel stack fresh buf)) [
          | inl e' ↦ absurd (
              cc (
                rw e' at
                  (raw_packet-refines u t res f kernel ulaw tlaw lisp v stack fresh buf _ out e)))
          | inr (dst, e') ↦ rw e' (
              ap (λ o. o >>= λ d. spec_step res f (watched fresh d) (config u t lisp)) (sym e')
              ∙ sym (raw_packet-refines u t res f kernel ulaw tlaw lisp v stack fresh buf _ out e))
        ]

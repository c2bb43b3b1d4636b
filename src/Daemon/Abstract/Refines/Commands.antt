-- ===== src/Daemon/Abstract/Refines/Commands.antt =====
-- A command that lisp_op_thread of control.c runs does what the daemon on plain data does.

use lixy.Base.{
  ℕ, ◌≡◌, refl, sym, ap, ◌∙◌, subst, Option, some, List, [], ◌++◌, map, Option-cases, inl, inr,
}
use lixy.Platform.{UtList, LawfulUtList}
use lixy.Platform.Patricia.{Patricia, LawfulPatricia}
use lixy.Platform.Resolver.{Resolver}
use lixy.Platform.Format.{Format}
use lixy.Net.{Sockaddr, Locator}
use lixy.State.{Tuples, locators, map_servers}
use lixy.Maptable.{RouteEvent}
use lixy.Maptable.Fib.{Fib, fib}
use lixy.Map.Receive.{route, ◌>>=◌}
use lixy.Netlink.{RouteMessage}
use lixy.Control.{ReturnType, Args}
use lixy.Control.Locators.{config_locator}
use lixy.Control.Locators.Spec.{config_locator-refines}
use lixy.Control.MapServers.{config_map_server}
use lixy.Control.MapServers.Laws.{config_map_server-refines}
use lixy.Control.Eids.{config_eid}
use lixy.Control.Eids.Spec.Sites.{sites}
use lixy.Control.Eids.Spec.Refines.{config_eid-refines}
use lixy.Control.Routes.{config_route}
use lixy.Control.Show.{config_show}
use lixy.Control.Show.Spec.{config_show-refines}
use lixy.Control.Routes.Laws.{config_route-refines}
use lixy.Control.Frame.{OnlyEids, config_map_server_frame, config_eid_frame}
use lixy.Control.Locators.Effect.{config_locator_frame}
use lixy.Control.Dispatch.{Func}
use lixy.Daemon.{Stack, Lisp, execute, write_result}
use lixy.Daemon.Invariant.{LispInv}
use lixy.Daemon.Abstract.{
  Config, Effects, mapserver_command, locator_command, eid_command, route_command, show_command,
  says, spec_step,
}
use lixy.Daemon.Abstract.Refines.{counted, config, executed, command_event}

module _ (u : UtList) (t : Patricia) (res : Resolver) (f : Format)
    (kernel : List ℕ → Option (List RouteMessage)) (ulaw : LawfulUtList u) (tlaw : LawfulPatricia t)
    (lisp : Lisp u t) (v : LispInv u t lisp) where
  abbrev s : Tuples u
  s = lisp.tuples

  map_server-refines :
      (stack : List ℕ) (args : Args)
      → let (s', r) = config_map_server u res stack s args in
        ◌≡◌ {A = Option (Config × Effects)}
          (some (config u t (record lisp { tuples = s' }), says (write_result r)))
          (spec_step res f (mapserver_command stack args) (config u t lisp))
  unfolding spec_step
  map_server-refines stack args =
      let s' = (config_map_server u res stack s args).0 in
      let r = (config_map_server u res stack s args).1 in
      let frame = config_map_server_frame u res s stack args in
      ap
        (λ (x : Tuples u). some (
          record {
            locs = locators u x;
            mapsrvs = map_servers u s';
            eids = sites u x;
            entries = fib t lisp.rib;
          },
          says (write_result r),
        ))
        frame
      ∙ ap
          (λ (o : List Sockaddr × ReturnType).
            some (record (config u t lisp) { mapsrvs = o.0 }, says (write_result o.1)))
          (config_map_server-refines u ulaw res stack s args v.mapsrv_owned)

  locator-refines :
      (stack : List ℕ) (args : Args)
      → let (s', r) = config_locator u res stack s args in
        ◌≡◌ {A = Option (Config × Effects)}
          (some (config u t (record lisp { tuples = s' }), says (write_result r)))
          (spec_step res f (locator_command stack args) (config u t lisp))
  unfolding spec_step
  locator-refines stack args =
      let s' = (config_locator u res stack s args).0 in
      let r = (config_locator u res stack s args).1 in
      ap
        (λ (x : Tuples u). some (
          record {
            locs = locators u s';
            mapsrvs = map_servers u x;
            eids = sites u x;
            entries = fib t lisp.rib;
          },
          says (write_result r),
        ))
        (config_locator_frame u ulaw res s stack args)
      ∙ ap
          (λ (o : List Locator × ReturnType).
            some (record (config u t lisp) { locs = o.0 }, says (write_result o.1)))
          (config_locator-refines u ulaw res s stack args v.locator_inv.owned)

  eid-refines :
      (args : Args)
      → executed u t (
          config_eid u res s args >>= λ (s', r).
          some (record lisp { tuples = s' }, write_result r, []))
        ≡ spec_step res f (eid_command args) (config u t lisp)
  unfolding spec_step
  eid-refines args = elim (Option-cases (config_eid u res s args)) [
    | inl e ↦ rw e (rw (sym (config_eid-refines u ulaw res s v.eid_inv args), e) refl)
    | inr ((s', r), e) ↦
        let frame = subst (OnlyEids u res s) e (config_eid_frame u res s args) in
        rw e (
          ap
            (λ (x : Tuples u). some (
              record {
                locs = locators u x;
                mapsrvs = map_servers u x;
                eids = sites u s';
                entries = fib t lisp.rib;
              },
              says (write_result r),
            ))
            frame
          ∙ rw (sym (config_eid-refines u ulaw res s v.eid_inv args), e) refl)
  ]

  route-refines :
      (args : Args)
      → let (rib', r, events) = config_route t res lisp.rib args in
        ◌≡◌ {A = Option (Config × Effects)}
          (some (
            config u t (record lisp { rib = rib' }),
            record { texts = write_result r; outputs = map route events; packets = [] },
          ))
          (spec_step res f (route_command args) (config u t lisp))
  unfolding spec_step
  route-refines args =
      ap
        (λ (o : Fib × ReturnType × List RouteEvent). some (
          record (config u t lisp) { entries = o.0 },
          record { texts = write_result o.1; outputs = map route o.2; packets = [] },
        ))
        (config_route-refines t tlaw res lisp.rib v.rib_inv args)

  -- The state at a show command is left as it is.
  shown-executed :
      (o : Option (List (List ℕ) × ReturnType)) (texts : List (List ℕ)) (r : ReturnType)
      → o ≡ some (texts, r)
      → executed u t (o >>= λ (shown, r'). some (lisp, shown ++ write_result r', []))
        ≡ some (config u t lisp, says (texts ++ write_result r))
  shown-executed o texts r e = rw e refl

  show-refines :
      (stack : Stack) (args : Args)
      → executed u t (
          config_show u t f (stack.state, stack.addrbuf) s lisp.rib args >>= λ (shown, r).
          some (lisp, shown ++ write_result r, []))
        ≡ spec_step res f
            (show_command
              (stack.state, stack.addrbuf)
              (t.node_prefix lisp.rib.tree)
              (t.walk lisp.rib.tree)
              args)
            (config u t lisp)
  unfolding spec_step
  show-refines stack args = shown-executed _ _ _ (
      config_show-refines u t f ulaw tlaw (stack.state, stack.addrbuf) s lisp.rib v.eid_inv
        v.rib_inv (counted u t lisp v) args)

  -- A command ends as the specification says, and has no result exactly where that has none.
  pub execute-refines :
      (stack : Stack) (func : Func) (args : Args)
      → executed u t (execute u t res f stack lisp func args)
        ≡ spec_step res f
            (command_event stack (t.node_prefix lisp.rib.tree) (t.walk lisp.rib.tree) func args)
            (config u t lisp)
  unfolding execute
  execute-refines stack lixy.Control.Dispatch.config_map_server args =
      map_server-refines stack.storage args
  execute-refines stack lixy.Control.Dispatch.config_locator args =
      locator-refines stack.storage args
  execute-refines stack lixy.Control.Dispatch.config_eid args = eid-refines args
  execute-refines stack lixy.Control.Dispatch.config_show args = show-refines stack args
  execute-refines stack lixy.Control.Dispatch.config_route args = route-refines args

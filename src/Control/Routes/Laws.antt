-- ===== src/Control/Routes/Laws.antt =====
-- The `route` commands on the function view of the map table.
use lixy.Base.{
  ℕ, ◌≡◌, refl, sym, subst, ap, ◌∙◌, if◌then◌else◌, none, some, List, [], ◌∷◌, arith, Option-cases,
  Bool-cases, inl, inr,
}
use lixy.Platform.Patricia.{Patricia, LawfulPatricia}
use lixy.Platform.Resolver.{Resolver, AddrInfo, memcpy_addr}
use lixy.Net.{Prefix}
use lixy.Maptable.{
  Maptable, RouteEvent, add_route_to_tun, static_mapnode, search_mapnode, is_learned,
  install_mapnode_static, uninstall_mapnode_static,
}
use lixy.Maptable.Fib.{Fib, fib, RibInv, spec_install}
use lixy.Maptable.Fib.Laws.{install-refines}
use lixy.Maptable.Fib.Laws.Invariant.{install-RibInv, delete_mapnode-RibInv}
use lixy.Maptable.Routes.{spec_uninstall, uninstall-refines}
use lixy.Control.{
  ReturnType, success, err_failed, err_invalid_command, err_invalid_address, Args, arg, is,
  lisp_data_port,
}
use lixy.Control.Locators.{zeros_after}
use lixy.Control.Routes.{
  Outcome, route_family, cmd_install_route, cmd_uninstall_route, route_action, config_route,
}

-- A command that was understood.
pub data Request : Type 0 where
  add : Prefix → AddrInfo → Request
  delete : Prefix → Request

-- What a command asks for, or the error that it is answered with.
pub data Parsed : Type 0 where
  request : Request → Parsed
  error : ReturnType → Parsed

module _ (res : Resolver) where
  parse_add : ℕ → List ℕ → List ℕ → Parsed
  parse_add af dst loc = elim (res.getaddrinfo (some loc) lisp_data_port) [
    | none ↦ error err_invalid_address
    | some ai ↦ elim (res.ascii2prefix af dst) [
      | none ↦ error err_invalid_address
      | some p ↦ request (add p ai)
    ]
  ]

  parse_delete : ℕ → List ℕ → Parsed
  parse_delete af dst = elim (res.ascii2prefix af dst) [
    | none ↦ error err_invalid_address
    | some p ↦ request (delete p)
  ]

  pub parse_route : Args → Parsed
  unfolding parse_add parse_delete
  parse_route args = elim (arg args 1) [
    | none ↦ error err_invalid_command
    | some c_af ↦ elim (arg args 2) [
      | none ↦ error err_invalid_command
      | some dst ↦ elim (arg args 3) [
        | none ↦ error err_invalid_command
        | some action ↦ elim (route_family c_af) [
          | none ↦ error err_invalid_command
          | some af ↦ if is action "delete" then parse_delete af dst else parse_add af dst action
        ]
      ]
    ]
  ]

-- An installation is reported as a success also when the table keeps a static entry that it has.
unfoldable pub spec_route : Fib → Parsed → Fib × ReturnType × List RouteEvent
spec_route f (error r) = (f, r, [])
spec_route f (request (add p ai)) =
    let (f', done) = spec_install f p (static_mapnode (memcpy_addr ai (zeros_after ai))) in
    (f', success, if done then add_route_to_tun p ∷ [] else [])
spec_route f (request (delete p)) =
    let (f', done, events) = spec_uninstall f p in
    (f', if done then success else err_failed, events)

module _ (t : Patricia) (res : Resolver) (r : Maptable t) where
  -- What the table does for a command.
  carried_out : Parsed → Outcome t res r
  carried_out (error e) = (r, e, [])
  carried_out (request (add p ai)) =
      let (r', events) = install_mapnode_static t r p (memcpy_addr ai (zeros_after ai)) in
      (r', success, events)
  carried_out (request (delete p)) =
      let (r', done, events) = uninstall_mapnode_static t r p in
      (r', if done then success else err_failed, events)

  route_action-carried_out :
      (c_af dst action : List ℕ)
      → route_action t res r c_af dst action
        ≡ carried_out (elim (route_family c_af) [
          | none ↦ error err_invalid_command
          | some af ↦
              if is action "delete" then parse_delete res af dst else parse_add res af dst action
        ])
  unfolding route_action cmd_install_route cmd_uninstall_route parse_delete parse_add carried_out
  route_action-carried_out c_af dst action = elim (Option-cases (route_family c_af)) [
    | inl e ↦ ground arith
    | inr (af, e) ↦ ground arith
  ]

  config_route-carried_out :
      (args : Args) → config_route t res r args ≡ carried_out (parse_route res args)
  unfolding config_route parse_route carried_out
  config_route-carried_out args = elim (Option-cases (arg args 1)) [
    | inl e ↦ rw (e, config_route, parse_route) refl
    | inr (c_af, e) ↦ elim (Option-cases (arg args 2)) [
      | inl e' ↦ rw (e, e', config_route, parse_route) refl
      | inr (dst, e') ↦ elim (Option-cases (arg args 3)) [
        | inl e'' ↦ rw (e, e', e'', config_route, parse_route) refl
        | inr (action, e'') ↦
            rw (e, e', e'', config_route, parse_route) (route_action-carried_out c_af dst action)
      ]
    ]
  ]

module _ (t : Patricia) (law : LawfulPatricia t) (res : Resolver) (r : Maptable t)
    (v : RibInv t r) where
  abbrev seen : Outcome t res r → Fib × ReturnType × List RouteEvent
  seen (r', answer, events) = (fib t r', answer, events)

  carried_out-refines : (q : Parsed) → seen (carried_out t res r q) ≡ spec_route (fib t r) q
  unfolding carried_out spec_route install_mapnode_static
  carried_out-refines (error e) = refl
  carried_out-refines (request (add p ai)) =
      ap (λ o. (o.0, success, if o.1 then add_route_to_tun p ∷ [] else []))
        (install-refines t law r v p (static_mapnode (memcpy_addr ai (zeros_after ai))))
  carried_out-refines (request (delete p)) =
      ap (λ o. (o.0, if o.1 then success else err_failed, o.2)) (uninstall-refines t law r v p)

  -- In a well-formed table, `config_route` answers, changes the table and routes as the
  -- specification says, whatever the arguments.
  pub config_route-refines :
      (args : Args) → seen (config_route t res r args) ≡ spec_route (fib t r) (parse_route res args)
  config_route-refines args =
      ap seen (config_route-carried_out t res r args) ∙ carried_out-refines (parse_route res args)

  uninstall-RibInv : (p : Prefix) → RibInv t (uninstall_mapnode_static t r p).0
  unfolding uninstall_mapnode_static
  uninstall-RibInv p = elim (Option-cases (search_mapnode t r p)) [
    | inl e ↦ rw (e, uninstall_mapnode_static) v
    | inr (q, e) ↦
        rw (e, uninstall_mapnode_static)
          (elim (Bool-cases (is_learned (r.mapnodes.cell q).state)) [
            | inl l ↦ rw l v
            | inr l ↦ rw l (delete_mapnode-RibInv t law r p v)
          ])
  ]

  carried_out-RibInv : (q : Parsed) → RibInv t (carried_out t res r q).0
  unfolding carried_out install_mapnode_static
  carried_out-RibInv (error e) = v
  carried_out-RibInv (request (add p ai)) = install-RibInv t law r v p _
  carried_out-RibInv (request (delete p)) = uninstall-RibInv p

  -- Any `route` command keeps a well-formed map table well formed.
  pub config_route-RibInv : (args : Args) → RibInv t (config_route t res r args).0
  config_route-RibInv args =
      subst (λ o. RibInv t o.0) (sym (config_route-carried_out t res r args))
        (carried_out-RibInv (parse_route res args))

-- ===== src/Control/Routes.antt =====
-- control.c: the `route` commands, which install and uninstall static routes.
pub mod Laws
use lixy.Base.{ℕ, if◌then◌else◌, Option, none, some, List, []}
use lixy.Platform.Patricia.{Patricia}
use lixy.Platform.Resolver.{Resolver, memcpy_addr}
use lixy.Net.{af_inet, af_inet6}
use lixy.Maptable.{Maptable, RouteEvent, install_mapnode_static, uninstall_mapnode_static}
use lixy.Control.{
  ReturnType, success, err_failed, err_invalid_command, err_invalid_address, Args, arg, is,
  lisp_data_port,
}
use lixy.Control.Locators.{zeros_after}

-- The address family of a command; `none` is an invalid command.
unfoldable pub route_family : List ℕ → Option ℕ
route_family c_af =
    if is c_af "ipv4" then some af_inet else (if is c_af "ipv6" then some af_inet6 else none)

module _ (t : Patricia) (res : Resolver) (rib : Maptable t) where
  abbrev pub Outcome : Type 0
  Outcome = Maptable t × ReturnType × List RouteEvent

  unfoldable pub cmd_install_route : List ℕ → List ℕ → List ℕ → Outcome
  cmd_install_route c_af c_dst_prefix c_loc_addr = elim (route_family c_af) [
    | none ↦ (rib, err_invalid_command, [])
    | some af ↦ elim (res.getaddrinfo (some c_loc_addr) lisp_data_port) [
      | none ↦ (rib, err_invalid_address, [])
      | some ai ↦ elim (res.ascii2prefix af c_dst_prefix) [
        | none ↦ (rib, err_invalid_address, [])
        | some dst_prefix ↦
            let (rib', events) =
              install_mapnode_static t rib dst_prefix (memcpy_addr ai (zeros_after ai)) in
            (rib', success, events)
      ]
    ]
  ]

  unfoldable pub cmd_uninstall_route : List ℕ → List ℕ → Outcome
  cmd_uninstall_route c_af c_dst_prefix = elim (route_family c_af) [
    | none ↦ (rib, err_invalid_command, [])
    | some af ↦ elim (res.ascii2prefix af c_dst_prefix) [
      | none ↦ (rib, err_invalid_address, [])
      | some dst_prefix ↦
          let (rib', done, events) = uninstall_mapnode_static t rib dst_prefix in
          (rib', if done then success else err_failed, events)
    ]
  ]

  unfoldable pub route_action : List ℕ → List ℕ → List ℕ → Outcome
  route_action c_af c_dst_prefix action =
      if is action "delete"
      then cmd_uninstall_route c_af c_dst_prefix
      else cmd_install_route c_af c_dst_prefix action

  unfoldable pub config_route : Args → Outcome
  config_route args = elim (arg args 1) [
    | none ↦ (rib, err_invalid_command, [])
    | some c_af ↦ elim (arg args 2) [
      | none ↦ (rib, err_invalid_command, [])
      | some c_dst_prefix ↦ elim (arg args 3) [
        | none ↦ (rib, err_invalid_command, [])
        | some action ↦ route_action c_af c_dst_prefix action
      ]
    ]
  ]

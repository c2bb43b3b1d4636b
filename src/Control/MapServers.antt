-- ===== src/Control/MapServers.antt =====
-- control.c: the `mapserver` commands.
pub mod Laws
pub mod Owned
use lixy.Base.{ℕ, if◌then◌else◌, Option, none, some, List}
use lixy.Platform.{UtList}
use lixy.Platform.Resolver.{Resolver, memcpy_addr}
use lixy.State.{Tuples}
use lixy.Instance.{set_lisp_mapserver, unset_lisp_mapserver}
use lixy.Control.{
  ReturnType, success, err_invalid_command, err_invalid_address, Args, arg, is, lisp_control_port,
}

-- `stack` is what the uninitialised `mapsrvaddr` holds behind the bytes that are copied into it.
module _ (u : UtList) (res : Resolver) (stack : List ℕ) (s : Tuples u) where
  unfoldable pub cmd_set_map_server : Option (List ℕ) → Tuples u × ReturnType
  cmd_set_map_server mapsrvcaddr = elim (res.getaddrinfo mapsrvcaddr lisp_control_port) [
    | none ↦ (s, err_invalid_address)
    | some ai ↦
        let (s', done) = set_lisp_mapserver u s (memcpy_addr ai stack) in
        (s', if done then success else err_invalid_address)
  ]

  unfoldable pub cmd_delete_map_server : Option (List ℕ) → Tuples u × ReturnType
  cmd_delete_map_server mapsrvcaddr = elim (res.getaddrinfo mapsrvcaddr lisp_control_port) [
    | none ↦ (s, err_invalid_address)
    | some ai ↦
        let (s', done) = unset_lisp_mapserver u s (memcpy_addr ai stack) in
        (s', if done then success else err_invalid_address)
  ]

  unfoldable pub config_map_server : Args → Tuples u × ReturnType
  config_map_server args = elim (arg args 2) [
    | none ↦ cmd_set_map_server (arg args 1)
    | some action ↦
        if is action "delete" then cmd_delete_map_server (arg args 1) else (s, err_invalid_command)
  ]

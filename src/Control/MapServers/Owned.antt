-- ===== src/Control/MapServers/Owned.antt =====
-- The `mapserver` commands of control.c and the form of the list of map servers.
use lixy.Base.{ℕ, ◌==◌, ◌||◌, Option, List, Option-cases, Bool-cases, inl, inr}
use lixy.Platform.{UtList, LawfulUtList}
use lixy.Platform.Resolver.{Resolver, memcpy_addr}
use lixy.LinkedList.{search_listnode}
use lixy.LinkedList.Owned.{
  IsOwned, append_listnode-IsOwned, malloc-IsOwned, delete_listnode-IsOwned,
}
use lixy.Net.{Sockaddr, af_inet, af_inet6, memcmp_sockaddr}
use lixy.State.{Tuples}
use lixy.Instance.{set_lisp_mapserver, unset_lisp_mapserver}
use lixy.Control.{Args, arg, is, lisp_control_port}
use lixy.Control.MapServers.{cmd_set_map_server, cmd_delete_map_server, config_map_server}

module _ (u : UtList) (law : LawfulUtList u) (s : Tuples u)
    (o : IsOwned u s.mapsrvs s.mapsrv_tuple) where
  abbrev Owned : Tuples u → Type 0
  Owned s' = IsOwned u s'.mapsrvs s'.mapsrv_tuple

  set-IsOwned : (mapsrv : Sockaddr) → Owned (set_lisp_mapserver u s mapsrv).0
  unfolding set_lisp_mapserver
  set-IsOwned mapsrv = elim (Bool-cases (mapsrv.family == af_inet || mapsrv.family == af_inet6)) [
    | inl e ↦ rw e (append_listnode-IsOwned u law s.mapsrvs s.mapsrv_tuple mapsrv o)
    | inr e ↦ rw e (malloc-IsOwned u law s.mapsrvs s.mapsrv_tuple mapsrv o)
  ]

  unset-IsOwned : (mapsrv : Sockaddr) → Owned (unset_lisp_mapserver u s mapsrv).0
  unfolding unset_lisp_mapserver
  unset-IsOwned mapsrv =
      let test = memcmp_sockaddr mapsrv in
      let sought = search_listnode u s.mapsrv_tuple (λ p. test (s.mapsrvs.cell p)) in
      elim (Option-cases sought) [
        | inl e ↦ rw (e, unset_lisp_mapserver) o
        | inr (p, e) ↦
            rw (e, unset_lisp_mapserver)
              (delete_listnode-IsOwned u law s.mapsrvs s.mapsrv_tuple test e o)
      ]

  module _ (res : Resolver) (stack : List ℕ) where
    cmd_set-IsOwned : (host : Option (List ℕ)) → Owned (cmd_set_map_server u res stack s host).0
    unfolding cmd_set_map_server
    cmd_set-IsOwned host = elim (Option-cases (res.getaddrinfo host lisp_control_port)) [
      | inl e ↦ rw (e, cmd_set_map_server) o
      | inr (ai, e) ↦ rw (e, cmd_set_map_server) (set-IsOwned (memcpy_addr ai stack))
    ]

    cmd_delete-IsOwned :
        (host : Option (List ℕ)) → Owned (cmd_delete_map_server u res stack s host).0
    unfolding cmd_delete_map_server
    cmd_delete-IsOwned host = elim (Option-cases (res.getaddrinfo host lisp_control_port)) [
      | inl e ↦ rw (e, cmd_delete_map_server) o
      | inr (ai, e) ↦ rw (e, cmd_delete_map_server) (unset-IsOwned (memcpy_addr ai stack))
    ]

    pub config_map_server-IsOwned : (args : Args) → Owned (config_map_server u res stack s args).0
    unfolding config_map_server
    config_map_server-IsOwned args = elim (Option-cases (arg args 2)) [
      | inl e ↦ rw (e, config_map_server) (cmd_set-IsOwned (arg args 1))
      | inr (action, e) ↦
          rw (e, config_map_server)
            (elim (Bool-cases (is action "delete")) [
              | inl d ↦ rw d (cmd_delete-IsOwned (arg args 1))
              | inr d ↦ rw d o
            ])
    ]

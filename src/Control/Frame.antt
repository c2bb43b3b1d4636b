-- ===== src/Control/Frame.antt =====
-- What a command leaves alone: each touches its own list of the configuration.
use lixy.Base.{ℕ, ◌≡◌, Option, none, some, List, arith}
use lixy.Platform.{UtList}
use lixy.Platform.Resolver.{Resolver}
use lixy.State.{Tuples}
use lixy.Instance.{set_lisp_mapserver, unset_lisp_mapserver}
use lixy.Control.{ReturnType, Args}
use lixy.Control.MapServers.{cmd_set_map_server, cmd_delete_map_server, config_map_server}
use lixy.Control.Eids.{
  cmd_create_eid, cmd_delete_eid, cmd_set_eid_authentication_key, cmd_unset_eid_authentication_key,
  cmd_set_eid_prefix, cmd_unset_eid_prefix, config_eid,
}

module _ (u : UtList) (res : Resolver) (s : Tuples u) where
  -- Only the map servers may differ.
  abbrev pub OnlyMapServers : Tuples u → Type 0
  OnlyMapServers t = t ≡ record s { mapsrvs = t.mapsrvs; mapsrv_tuple = t.mapsrv_tuple }

  -- Only the EIDs and their prefixes may differ.
  abbrev pub OnlyEids : Option (Tuples u × ReturnType) → Type 0
  OnlyEids none = Unit
  OnlyEids (some (t, r)) =
      t ≡ record s { eids = t.eids; eid_tuple = t.eid_tuple; prefixes = t.prefixes }

  pub config_map_server_frame :
      (stack : List ℕ) (args : Args) → OnlyMapServers (config_map_server u res stack s args).0
  unfolding config_map_server cmd_set_map_server cmd_delete_map_server set_lisp_mapserver
      unset_lisp_mapserver
  config_map_server_frame stack args = ground arith

  pub config_eid_frame : (args : Args) → OnlyEids (config_eid u res s args)
  unfolding config_eid cmd_create_eid cmd_delete_eid cmd_set_eid_authentication_key
      cmd_unset_eid_authentication_key cmd_set_eid_prefix cmd_unset_eid_prefix
  config_eid_frame args = ground arith

-- ===== src/Tests/Commands.antt =====
-- The `locator`, `mapserver` and `eid` commands on an empty daemon and one with a locator.
use lixy.Base.{ap, ℕ, ◌≡◌, refl, ◌≢◌, some, List, [], ◌∷◌, bytes_eq, codes, replicate}
use lixy.LinkedList.{append_listnode, search_listnode, create_list}
use lixy.LinkedList.Pool.{Pool, malloc}
use lixy.LinkedList.Owned.{IsOwned, create_list-IsOwned}
use lixy.Instance.{create_eid_instance}
use mathlib.Core.List.{append_cancel_left}
use lixy.Platform.Resolver.{memcpy_addr}
use lixy.Net.{Sockaddr, Prefix, Locator, zero_locator, zero_sockaddr}
use lixy.State.{Tuples, Eid, locators, map_servers}
use lixy.Control.{ReturnType, Args, is, success, err_invalid_address}
use lixy.Control.Locators.{config_locator}
use lixy.Control.Locators.Spec.{spec_config_locator, config_locator-refines}
use lixy.Control.MapServers.{config_map_server, cmd_delete_map_server}
use lixy.Control.MapServers.Laws.{
  spec_config_map_server, config_map_server-refines, delete_map_server_unlike,
}
use lixy.Control.Eids.{cmd_create_eid, config_eid}
use lixy.Control.Eids.Laws.{EidInv}
use lixy.Control.Eids.Laws.Effect.{config_eid-EidInv}
use lixy.Tests.World.{list_chain, list_chain_lawful, two_names, address}

abbrev pub no_objects : {A : Type 0} → A → Pool A
no_objects a = record { next = 1; cell = λ p. a }

abbrev pub no_eid : Eid list_chain
no_eid = record { name = []; authkey = []; prefix_tuple = create_list list_chain }

abbrev pub no_prefix : Prefix
no_prefix = record { family = 0; bitlen = 0; add = [] }

-- The daemon when it has started.
abbrev pub started : Tuples list_chain
started = record {
  eid_tuple = create_list list_chain;
  loc_tuple = create_list list_chain;
  mapsrv_tuple = create_list list_chain;
  eids = no_objects no_eid;
  locs = no_objects zero_locator;
  mapsrvs = no_objects zero_sockaddr;
  prefixes = no_objects no_prefix;
}

abbrev locator_create : Args
locator_create = codes "locator" ∷ codes "a" ∷ codes "create" ∷ []

empty : {A : Type 0} (a : A) → IsOwned list_chain (no_objects a) (create_list list_chain)
empty a = create_list-IsOwned list_chain list_chain_lawful (no_objects a)

config_locator-refines_example :
    let (s', r) = config_locator list_chain two_names [] started locator_create in
    ◌≡◌ {A = List Locator × ReturnType}
      (locators list_chain s', r)
      (spec_config_locator two_names [] (locators list_chain started) locator_create)
config_locator-refines_example =
    config_locator-refines list_chain list_chain_lawful two_names started [] locator_create
      (empty zero_locator)

abbrev mapserver : Args
mapserver = codes "mapserver" ∷ codes "b" ∷ []

config_map_server-refines_example :
    let (s', r) = config_map_server list_chain two_names [] started mapserver in
    ◌≡◌ {A = List Sockaddr × ReturnType}
      (map_servers list_chain s', r)
      (spec_config_map_server two_names [] mapserver [])
unfolding create_list
config_map_server-refines_example =
    config_map_server-refines list_chain list_chain_lawful two_names [] started mapserver
      (empty zero_sockaddr)

-- One map server, with zeros behind its address.
abbrev one_server : Tuples list_chain
one_server = record started {
  mapsrv_tuple = record { head = 1 ∷ []; count = 1 };
  mapsrvs = record { next = 2; cell = λ p. memcpy_addr (address 2) (replicate 112 0) };
}

ones_ne : replicate {A = ℕ} 112 0 ≢ replicate 112 1
ones_ne h = cc

other_stack : memcpy_addr (address 2) (replicate 112 0) ≢ memcpy_addr (address 2) (replicate 112 1)
other_stack h =
    ones_ne (append_cancel_left (address 2).ai_tail _ _ (ap (λ (m : Sockaddr). m.rest) h))

b_known : two_names.getaddrinfo (some (codes "b")) 4342 ≡ some (address 2)
unfolding bytes_eq
b_known = refl

-- The map server was set with other bytes on the stack than it is deleted with.
delete_map_server_unlike_example :
    cmd_delete_map_server list_chain two_names (replicate 112 1) one_server (some (codes "b"))
    ≡ (one_server, err_invalid_address)
delete_map_server_unlike_example =
    delete_map_server_unlike list_chain list_chain_lawful two_names (replicate 112 1) one_server
      (some (codes "b")) (address 2) b_known (other_stack, tt)

abbrev pub eid_create : Args
eid_create = codes "eid" ∷ codes "site" ∷ codes "create" ∷ []

pub no_eids : EidInv list_chain started
unfolding create_list
no_eids = record { owned = empty no_eid; names = tt; each = tt }

abbrev with_eid : Tuples list_chain
with_eid = record started {
  eids = malloc started.eids (create_eid_instance list_chain (codes "site"));
  eid_tuple = append_listnode list_chain started.eid_tuple 1;
}

created : config_eid list_chain two_names started eid_create ≡ some (with_eid, success)
unfolding config_eid is bytes_eq cmd_create_eid search_listnode create_list
created = refl

config_eid-EidInv_example : EidInv list_chain with_eid
config_eid-EidInv_example =
    config_eid-EidInv list_chain list_chain_lawful two_names started no_eids eid_create created

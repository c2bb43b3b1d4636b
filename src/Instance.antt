-- ===== src/Instance.antt =====
-- instance.c: the operations on EIDs, map servers and locators. A result of 0 is `true`,
-- and so is the 1 of `unset_lisp_locator`; -1 is `false`.
use lixy.Base.{ℕ, ◌==◌, ◌||◌, if◌then◌else◌, Bool, true, false, none, some, List, [], take}
use lixy.Platform.{UtList}
use lixy.LinkedList.{create_list, append_listnode, delete_listnode, search_listnode}
use lixy.LinkedList.Pool.{malloc}
use lixy.Net.{
  Sockaddr, Prefix, Locator, af_inet, af_inet6, compare_sockaddr, memcmp_sockaddr, prefix_cmp,
}
use lixy.State.{Eid, Tuples, lisp_eid_name_len, lisp_max_keylen}

module _ (u : UtList) where
  unfoldable pub create_eid_instance : List ℕ → Eid u
  create_eid_instance eidname = record {
    name = take lisp_eid_name_len eidname;
    authkey = [];
    prefix_tuple = create_list u;
  }

  unfoldable pub set_eid_authkey : Eid u → List ℕ → Eid u
  set_eid_authkey eid authkey = record eid { authkey = take lisp_max_keylen authkey }

  unfoldable pub unset_eid_authkey : Eid u → Eid u
  unset_eid_authkey eid = record eid { authkey = [] }

  -- The prefix is given by its address.
  unfoldable pub set_eid_prefix : Eid u → ℕ → Eid u
  set_eid_prefix eid p = record eid { prefix_tuple = append_listnode u eid.prefix_tuple p }

  unfoldable pub unset_eid_prefix : (ℕ → Prefix) → Eid u → Prefix → Eid u × Bool
  unset_eid_prefix cell eid prefix =
      elim (search_listnode u eid.prefix_tuple (λ p. prefix_cmp prefix (cell p))) [
        | none ↦ (eid, false)
        | some pp ↦ (record eid { prefix_tuple = (delete_listnode u eid.prefix_tuple pp).0 }, true)
      ]

  -- The object is allocated before the check, and leaks if that fails.
  unfoldable pub set_lisp_mapserver : Tuples u → Sockaddr → Tuples u × Bool
  set_lisp_mapserver s mapsrv =
      if mapsrv.family == af_inet || mapsrv.family == af_inet6
      then (
        record s {
          mapsrvs = malloc s.mapsrvs mapsrv;
          mapsrv_tuple = append_listnode u s.mapsrv_tuple s.mapsrvs.next;
        },
        true,
      )
      else (record s { mapsrvs = malloc s.mapsrvs mapsrv }, false)

  -- The loop that returns at the first equal entry is a search.
  unfoldable pub unset_lisp_mapserver : Tuples u → Sockaddr → Tuples u × Bool
  unset_lisp_mapserver s mapsrv =
      elim (search_listnode u s.mapsrv_tuple (λ p. memcmp_sockaddr mapsrv (s.mapsrvs.cell p))) [
        | none ↦ (s, false)
        | some p ↦ (record s { mapsrv_tuple = (delete_listnode u s.mapsrv_tuple p).0 }, true)
      ]

  unfoldable pub set_lisp_locator : Tuples u → Locator → Tuples u × Bool
  set_lisp_locator s loc = (
    record s { locs = malloc s.locs loc; loc_tuple = append_listnode u s.loc_tuple s.locs.next },
    true,
  )

  unfoldable pub unset_lisp_locator : Tuples u → Sockaddr → Tuples u × Bool
  unset_lisp_locator s loc_addr =
      elim (search_listnode u s.loc_tuple
        (λ p. compare_sockaddr (s.locs.cell p).loc_addr loc_addr)) [
          | none ↦ (s, false)
          | some p ↦ (record s { loc_tuple = (delete_listnode u s.loc_tuple p).0 }, true)
        ]

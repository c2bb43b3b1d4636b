-- ===== src/State.antt =====
-- The lists of `struct lisp` (common.h) with the objects that they point to.
use lixy.Base.{ℕ, List}
use lixy.Platform.{UtList}
use lixy.LinkedList.{ListT}
use lixy.LinkedList.Pool.{Pool}
use lixy.LinkedList.Owned.{contents}
use lixy.Net.{Sockaddr, Prefix, Locator}

abbrev pub lisp_eid_name_len : ℕ
lisp_eid_name_len = 16

abbrev pub lisp_max_keylen : ℕ
lisp_max_keylen = 128

module _ (u : UtList) where
  -- `struct eid`. A string field holds the characters before the NUL, or all of a full array.
  pub record Eid : Type 0 where
    pub name : List ℕ
    pub authkey : List ℕ
    pub prefix_tuple : ListT u

  pub record Tuples : Type 0 where
    pub eid_tuple : ListT u
    pub loc_tuple : ListT u
    pub mapsrv_tuple : ListT u
    pub eids : Pool Eid
    pub locs : Pool Locator
    pub mapsrvs : Pool Sockaddr
    pub prefixes : Pool Prefix

  abbrev pub locators : Tuples → List Locator
  locators s = contents u s.locs s.loc_tuple

  abbrev pub map_servers : Tuples → List Sockaddr
  map_servers s = contents u s.mapsrvs s.mapsrv_tuple

  abbrev pub eid_list : Tuples → List Eid
  eid_list s = contents u s.eids s.eid_tuple

  abbrev pub prefixes_of : Tuples → Eid → List Prefix
  prefixes_of s e = contents u s.prefixes e.prefix_tuple

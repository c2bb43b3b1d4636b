-- ===== src/Control/MapServers/Laws.antt =====
-- The `mapserver` commands on the plain list of map servers.

use lixy.Base.{
  All, ℕ, ◌≡◌, refl, sym, ◌≢◌, ◌==◌, ◌||◌, if◌then◌else◌, Option, none, some, List, [], ◌∷◌, ◌++◌,
  arith, Option-cases, Bool-cases, inl, inr,
}
use lixy.Platform.{UtList, LawfulUtList}
use lixy.Platform.Resolver.{Resolver, AddrInfo, memcpy_addr}
use lixy.LinkedList.Search.{find, remove_first}
use lixy.LinkedList.Owned.{
  IsOwned, search_listnode-cases, contents-append_listnode, contents-malloc,
  contents-delete_listnode,
}
use lixy.Net.{Sockaddr, af_inet, af_inet6, memcmp_sockaddr}
use lixy.Net.Compare.{memcmp_sockaddr_iff}
use lixy.State.{Tuples, map_servers}
use lixy.Instance.{set_lisp_mapserver, unset_lisp_mapserver}
use lixy.Control.{
  ReturnType, success, err_invalid_address, err_invalid_command, lisp_control_port, Args, arg, is,
}
use lixy.Control.MapServers.{cmd_set_map_server, cmd_delete_map_server, config_map_server}

spec_set : Option AddrInfo → List ℕ → List Sockaddr → List Sockaddr × ReturnType
spec_set none stack ms = (ms, err_invalid_address)
spec_set (some ai) stack ms =
    if ai.ai_family == af_inet || ai.ai_family == af_inet6
    then (ms ++ memcpy_addr ai stack ∷ [], success)
    else (ms, err_invalid_address)

spec_delete : Option AddrInfo → List ℕ → List Sockaddr → List Sockaddr × ReturnType
spec_delete none stack ms = (ms, err_invalid_address)
spec_delete (some ai) stack ms =
    let test = memcmp_sockaddr (memcpy_addr ai stack) in
    elim (find test ms) [
      | none ↦ (ms, err_invalid_address)
      | some m ↦ (remove_first test ms, success)
    ]

module _ (res : Resolver) (stack : List ℕ) where
  -- What `lixyctl mapserver` does, on the list of map servers.
  pub spec_config_map_server : Args → List Sockaddr → List Sockaddr × ReturnType
  spec_config_map_server args ms =
      let ai = res.getaddrinfo (arg args 1) lisp_control_port in
      elim (arg args 2) [
        | none ↦ spec_set ai stack ms
        | some action ↦
            if is action "delete" then spec_delete ai stack ms else (ms, err_invalid_command)
      ]

module _ (u : UtList) (law : LawfulUtList u) (res : Resolver) (stack : List ℕ) (s : Tuples u) where
  set-refines :
      (host : Option (List ℕ))
      → IsOwned u s.mapsrvs s.mapsrv_tuple
      → let (s', r) = cmd_set_map_server u res stack s host in
        ◌≡◌ {A = List Sockaddr × ReturnType}
          (map_servers u s', r)
          (spec_set (res.getaddrinfo host lisp_control_port) stack (map_servers u s))
  unfolding cmd_set_map_server set_lisp_mapserver spec_set
  set-refines host o = elim (Option-cases (res.getaddrinfo host lisp_control_port)) [
    | inl e ↦ rw (e, cmd_set_map_server) refl
    | inr (ai, e) ↦ ground (
      arith,
      contents-append_listnode u law s.mapsrvs s.mapsrv_tuple (memcpy_addr ai stack) o,
      contents-malloc u law s.mapsrvs s.mapsrv_tuple (memcpy_addr ai stack) o,
    )
  ]

  delete-refines :
      (host : Option (List ℕ))
      → let (s', r) = cmd_delete_map_server u res stack s host in
        ◌≡◌ {A = List Sockaddr × ReturnType}
          (map_servers u s', r)
          (spec_delete (res.getaddrinfo host lisp_control_port) stack (map_servers u s))
  unfolding cmd_delete_map_server unset_lisp_mapserver spec_delete
  delete-refines host = elim (Option-cases (res.getaddrinfo host lisp_control_port)) [
    | inl e ↦ rw (e, cmd_delete_map_server) refl
    | inr (ai, e) ↦
        let test = memcmp_sockaddr (memcpy_addr ai stack) in
        elim (search_listnode-cases u law s.mapsrvs s.mapsrv_tuple test) [
          | inl (miss, gone) ↦ ground arith
          | inr (p, hit, found) ↦
              ground (arith, contents-delete_listnode u law s.mapsrvs s.mapsrv_tuple test hit)
        ]
  ]

  -- On a well-formed list, `config_map_server` has the result of the specification, and leaves the
  -- map servers that the specification gives, whatever the arguments.
  pub config_map_server-refines :
      (args : Args)
      → IsOwned u s.mapsrvs s.mapsrv_tuple
      → let (s', r) = config_map_server u res stack s args in
        ◌≡◌ {A = List Sockaddr × ReturnType}
          (map_servers u s', r)
          (spec_config_map_server res stack args (map_servers u s))
  unfolding config_map_server spec_config_map_server
  config_map_server-refines args o = elim (Option-cases (arg args 2)) [
    | inl e ↦ rw (e, config_map_server, spec_config_map_server) (set-refines (arg args 1) o)
    | inr (action, e) ↦
        rw (e, config_map_server, spec_config_map_server)
          (elim (Bool-cases (is action "delete")) [
            | inl d ↦ rw d (delete-refines (arg args 1))
            | inr d ↦ rw d refl
          ])
  ]

find-unlike :
    (target : Sockaddr) (ms : List Sockaddr)
    → All (λ m. m ≢ target) ms
    → find (memcmp_sockaddr target) ms ≡ none
find-unlike target [] h = refl
find-unlike target (m ∷ ms) (here, h) = elim (Bool-cases (memcmp_sockaddr target m)) [
  | inl same ↦ absurd (here (sym ((memcmp_sockaddr_iff _ _).0 same)))
  | inr other ↦ rw other (find-unlike target ms h)
]

-- A map server is deleted only if all 128 bytes of its storage are those of the address and of what
-- the stack holds behind it: if no map server of the list has these bytes, the command fails, and
-- nothing is changed.
pub delete_map_server_unlike :
    (u : UtList) (law : LawfulUtList u) (res : Resolver) (stack : List ℕ) (s : Tuples u)
    (host : Option (List ℕ)) (ai : AddrInfo)
    → res.getaddrinfo host lisp_control_port ≡ some ai
    → All (λ m. m ≢ memcpy_addr ai stack) (map_servers u s)
    → cmd_delete_map_server u res stack s host ≡ (s, err_invalid_address)
unfolding cmd_delete_map_server unset_lisp_mapserver
delete_map_server_unlike u law res stack s host ai e unlike =
    let test = memcmp_sockaddr (memcpy_addr ai stack) in
    elim (search_listnode-cases u law s.mapsrvs s.mapsrv_tuple test) [
      | inl (miss, gone) ↦ ground arith
      | inr (p, hit, found) ↦
          absurd (cc (found, find-unlike (memcpy_addr ai stack) (map_servers u s) unlike))
    ]

-- ===== src/Tests/Threads.antt =====
-- The threads: a table with a static and a learned entry ages, and packets go through the tunnel.
use mathlib.Core.Option.{some-injective}
use lixy.Netlink.Last.{IsFull}
use lixy.Base.{
  ◌≤◌, All, subst, ℕ, ◌≡◌, refl, if◌then◌else◌, Option, none, some, List, [], ◌∷◌, ◌++◌, arith,
  length, take, replicate, not, ◌||◌, Bool-cases, inl, inr,
}
use lixy.Platform.Patricia.{Key, key, cut, key_eq, longest}
use lixy.Net.{Prefix, af_inet, af_inet6}
use lixy.Maptable.{
  Maptable, MapNode, active, queried, create_maptable, update_mapnode, install, add_route_to_tun,
  del_route_to_tun,
}
use lixy.Maptable.Fib.{fib, RibInv, override, best_key, spec_search}
use lixy.Maptable.Fib.Laws.Invariant.{install-RibInv}
use lixy.Map.Receive.{Output, map_request, ◌>>=◌}
use lixy.Aging.{age_maptable, age_rounds}
use lixy.Aging.Walk.{aged}
use lixy.Aging.Expiry.{under_static, age_maptable-ages}
use lixy.Aging.Sends.{outputs_of, own_sends}
use lixy.Aging.Outputs.{age_maptable-outputs}
use lixy.Aging.Rounds.{Exposed, age_rounds-remaining}
use lixy.Wire.Bytes.{get_bytes}
use lixy.Base.{bytes_eq}
use lixy.Netlink.{
  see_messages, see_attributes, see_attribute, is_link, RouteMessage, get_route,
  is_route_scope_link, route_to_tun, rtm_newroute, rtm_delroute, nlm_f_new, nlm_f_request,
}
use lixy.Netlink.Request.{expected, read_request, route_to_tun-read}
use lixy.Netlink.Scope.{has_gateway, has_link, gateway_is_dst, is_route_scope_link-flags}
use lixy.DataPlane.{
  write_tun, sendmsg_udp, extract_salen, dst_prefix, lisp_dp_packet, lisp_dp_tun_packet,
  watched_prefix, lisp_raw_packet, host_prefix, field, field16, ip_v, watched, ttl_over,
}
use lixy.DataPlane.Tunnel.{tunnel-delivers}
use lixy.DataPlane.Learn.{raw_packet-uncovered}
use lixy.Tests.Trees.{list_tree, list_tree_lawful}
use lixy.Tests.World.{net8, net16}
use lixy.Tests.Table.{to_host, empty_table, empty_table-RibInv, table, table-RibInv}

abbrev learned : MapNode
learned = record to_host { ttl = 25; state = active }

abbrev mixed : Maptable list_tree
mixed = (install list_tree table net16 learned).0

mixed-RibInv : RibInv list_tree mixed
mixed-RibInv = install-RibInv list_tree list_tree_lawful table table-RibInv net16 learned

age_maptable-ages_example :
    (r' : Maptable list_tree) × (out : List Output) × (age_maptable list_tree mixed
      ≡ some (r', out))
    × RibInv list_tree r'
    × ((k : Key)
        → fib list_tree r' k ≡ (
            if under_static (fib list_tree mixed) (list_tree.walk mixed.tree) k
            then fib list_tree mixed k
            else fib list_tree mixed k >>= aged))
age_maptable-ages_example = age_maptable-ages list_tree list_tree_lawful mixed mixed-RibInv

age_maptable-outputs_example :
    (r' : Maptable list_tree) × (out : List Output) × (age_maptable list_tree mixed
      ≡ some (r', out))
    × (out
        ≡ outputs_of
            (λ k.
              if under_static (fib list_tree mixed) (list_tree.walk mixed.tree) k
              then []
              else own_sends (list_tree.node_prefix mixed.tree) (fib list_tree mixed) k)
            (list_tree.walk mixed.tree))
age_maptable-outputs_example = age_maptable-outputs list_tree list_tree_lawful mixed mixed-RibInv

abbrev learned_table : Maptable list_tree
learned_table = (install list_tree empty_table net16 learned).0

learned_table-RibInv : RibInv list_tree learned_table
learned_table-RibInv =
    install-RibInv list_tree list_tree_lawful empty_table empty_table-RibInv net16 learned

learned-Exposed : Exposed (fib list_tree learned_table) (key net16)
unfolding install update_mapnode create_maptable key_eq cut
learned-Exposed j c = elim (Bool-cases (key_eq j (key net16))) [
  | inl e ↦ rw e refl
  | inr e ↦ rw e refl
]

learned_here : fib list_tree learned_table (key net16) ≡ some learned
unfolding install update_mapnode create_maptable key_eq cut
learned_here = refl

age_rounds-remaining_example :
    (r' : Maptable list_tree) × (out : List Output) × (age_rounds list_tree 3 learned_table
      ≡ some (r', out))
    × RibInv list_tree r'
    × (fib list_tree r' (key net16) ≡ none)
age_rounds-remaining_example =
    age_rounds-remaining list_tree list_tree_lawful 3 learned_table (key net16) learned
      learned_table-RibInv learned-Exposed learned_here (omega arith)

-- An IPv4 packet of 20 bytes to 10.1.0.0, in the buffer.
abbrev pub packet : List ℕ
packet =
    69
    ∷ 0
    ∷ 0
    ∷ 20
    ∷ 0
    ∷ 0
    ∷ 0
    ∷ 0
    ∷ 64
    ∷ 17
    ∷ 0
    ∷ 0
    ∷ 10
    ∷ 9
    ∷ 0
    ∷ 1
    ∷ 10
    ∷ 1
    ∷ 0
    ∷ 0
    ∷ replicate 2028 7

abbrev pub host : Prefix
host = record { family = 2; bitlen = 32; add = 10 ∷ 1 ∷ 0 ∷ 0 ∷ [] }

pub to_host_net : dst_prefix packet ≡ some (some host)
unfolding dst_prefix host_prefix field ip_v get_bytes
to_host_net = refl

matched : spec_search (fib list_tree table) host ≡ some to_host
unfolding best_key longest install update_mapnode create_maptable key_eq cut
matched = refl

tunnel-delivers_example :
    (datagram : List ℕ) × (lisp_dp_tun_packet list_tree table packet 20
      ≡ some (sendmsg_udp to_host.addr (extract_salen to_host.addr) datagram ∷ []))
    × (length datagram ≤ 2048)
    × ((stale : List ℕ)
        → (ip : List ℕ) × (lisp_dp_packet (datagram ++ stale) (length datagram)
            ≡ some (write_tun ip 28 ∷ []))
          × (take 28 ip ≡ take 28 packet))
tunnel-delivers_example =
    tunnel-delivers list_tree list_tree_lawful table table-RibInv packet 20 host to_host to_host_net
      matched refl refl (omega arith)

-- The destination is behind a gateway.
abbrev routed : List ℕ → Option (List RouteMessage)
routed request = some (
    record { rtm_scope = 0; attributes = record { rta_type = 5; rta_data = replicate 16 9 } ∷ [] }
    ∷ [])

abbrev stack : List ℕ × List ℕ
stack = (replicate 16 0, replicate 16 0)

abbrev frame : List ℕ
frame = replicate 12 1 ++ 8 ∷ 0 ∷ packet

frame_watched : watched_prefix list_tree routed stack to_host frame ≡ some (some host)
unfolding watched_prefix watched ttl_over host_prefix field16 field get_bytes is_route_scope_link
    see_messages see_attributes see_attribute is_link bytes_eq
frame_watched = refl

nowhere : best_key (fib list_tree empty_table) host ≡ none
unfolding best_key longest create_maptable key_eq cut
nowhere = refl

raw_packet-uncovered_example :
    (r' : Maptable list_tree) × (lisp_raw_packet list_tree routed stack to_host empty_table frame
      ≡ some (r', map_request host ∷ []))
    × RibInv list_tree r'
    × (fib list_tree r'
        ≡ override
            (fib list_tree empty_table)
            (key host)
            (some (record to_host { state = queried })))
    × (lisp_raw_packet list_tree routed stack to_host r' frame ≡ some (r', []))
raw_packet-uncovered_example =
    raw_packet-uncovered list_tree list_tree_lawful routed stack to_host empty_table
      empty_table-RibInv frame host frame_watched nowhere

route_to_tun-read_example :
    ((m : List ℕ) × (route_to_tun 7 (add_route_to_tun net8) ≡ some m)
      × (length m ≡ 44)
      × (read_request m ≡ some (expected 7 net8 rtm_newroute nlm_f_new)))
    × ((m : List ℕ) × (route_to_tun 7 (del_route_to_tun net8) ≡ some m)
        × (length m ≡ 44)
        × (read_request m ≡ some (expected 7 net8 rtm_delroute nlm_f_request)))
route_to_tun-read_example =
    route_to_tun-read 7 (omega arith) (omega arith) net8 (inl (refl, refl)) (omega arith)

routed-IsFull :
    (ms : List RouteMessage)
    → routed (get_route af_inet6 host.add) ≡ some ms
    → All (λ m. IsFull m.attributes) ms
routed-IsFull ms e =
    subst (λ ms. All (λ m. IsFull m.attributes) ms) (some-injective _ _ e) ((omega arith, tt), tt)

is_route_scope_link-flags_example :
    (is_route_scope_link routed stack af_inet host.add
      ≡ (routed (get_route af_inet host.add) >>= λ ms. some (not (has_gateway ms) || has_link ms)))
    × (is_route_scope_link routed stack af_inet6 host.add ≡ (
        routed (get_route af_inet6 host.add) >>= λ ms.
        some ((not (has_gateway ms) || has_link ms) || gateway_is_dst stack ms)))
is_route_scope_link-flags_example = is_route_scope_link-flags routed stack host.add routed-IsFull

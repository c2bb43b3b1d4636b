-- ===== src/Tests/Abstract.antt =====
-- The daemon on plain data, at a run of two rounds.
use lixy.Base.{
  ℕ, ◌≡◌, refl, Option, none, some, List, [], ◌∷◌, ◌++◌, codes, bytes_eq, replicate, take, arith,
}
use lixy.Platform.Patricia.{key, key_eq, cut, longest}
use lixy.Platform.Resolver.{memcpy_addr}
use lixy.LinkedList.{search_listnode, append_listnode, create_list, search_nodes}
use lixy.Net.{Prefix, Sockaddr, zero_locator, zero_sockaddr}
use lixy.DataPlane.{
  dst_prefix, host_prefix, field, ip_v, sendmsg_udp, extract_salen, lisp_hdr, lisp_dp_tun_packet,
}
use lixy.Maptable.{
  Maptable, RouteEvent, create_maptable, install_mapnode_static, install, update_mapnode,
  static_mapnode, negative, mapttl_default,
}
use lixy.Maptable.Fib.{fib, best_key}
use lixy.Map.Receive.{
  Output, process_lisp_map_reply, process_records, process_record, takes_denied, negative_action,
  addr_to_prefix, new_mapnode,
}
use lixy.Map.Message.{process_lisp_map_message, message_type, high_nibble, handle}
use lixy.Wire.{get_map_reply, get_record, lispafi_to_af, afi_addr_len}
use lixy.Wire.Bytes.{get_bytes}
use lixy.Control.{ReturnType, Args, is}
use lixy.Control.Show.{config_show}
use lixy.Control.Show.Spec.{spec_show, config_show-refines}
use lixy.State.{locators, map_servers}
use lixy.Daemon.Invariant.{LispInv}
use lixy.Control.Locators.{zeros_after}
use lixy.Control.Eids.{config_eid}
use lixy.Control.Eids.Spec.{spec_config_eid}
use lixy.Control.Eids.Spec.Sites.{sites, seen_sites}
use lixy.Control.Eids.Spec.Refines.{config_eid-refines}
use lixy.Control.Routes.{config_route, route_action, route_family, cmd_install_route}
use lixy.Control.Dispatch.{
  strsplit, skip_spaces, split_words, word_of, after_word, skip_blanks, search_cmd_node,
  install_cmd_node, append_cmd_node, find_command,
}
use lixy.Daemon.{Lisp, main_state, lisp_op_round, lisp_map_message_round, execute, write_result}
use lixy.Daemon.Steps.{Step, command, message, Reachable, started, stepped}
use lixy.Daemon.Invariant.Rounds.{Reachable-LispInv}
use lixy.Daemon.Abstract.Refines.{counted}
use lixy.Daemon.Abstract.Statics.{IsStaticTo}
use lixy.Daemon.Abstract.Rounds.{none_yet, round, static_kept, static_kept-forwards}
use lixy.Tests.World.{list_chain, list_chain_lawful, two_names, net8, net16, address}
use lixy.Tests.Trees.{list_tree, list_tree_lawful}
use lixy.Tests.Table.{to_host}
use lixy.Tests.Lines.{no_nodes}
use lixy.Tests.Messages.{negative_reply}
use lixy.Tests.Commands.{no_objects, no_eid, no_prefix, started as no_config, eid_create, no_eids}
use lixy.Tests.Daemon.{strokes, stack, unanswered, start}

config_eid-refines_example :
    seen_sites list_chain (config_eid list_chain two_names no_config eid_create)
    ≡ spec_config_eid two_names (sites list_chain no_config) eid_create
config_eid-refines_example =
    config_eid-refines list_chain list_chain_lawful two_names no_config no_eids eid_create

start-Reachable : Reachable list_chain list_tree two_names strokes unanswered start
start-Reachable =
    started (no_objects no_eid) (no_objects zero_locator) (no_objects zero_sockaddr)
      (no_objects no_prefix) no_nodes (record { next = 1; cell = λ p. to_host })

abbrev routed : Maptable list_tree × ReturnType × List RouteEvent
routed =
    config_route list_tree two_names start.rib
      (codes "route" ∷ codes "ipv4" ∷ codes "n" ∷ codes "a" ∷ [])

-- `lixyctl route ipv4 n a`
abbrev with_route : Lisp list_chain list_tree
with_route = record start { rib = routed.0 }

route_round :
    lisp_op_round list_chain list_tree two_names strokes stack start (codes "route ipv4 n a")
    ≡ some (with_route, write_result routed.1, routed.2)
unfolding lisp_op_round find_command strsplit skip_spaces split_words word_of after_word skip_blanks
    search_cmd_node install_cmd_node append_cmd_node search_listnode search_nodes append_listnode
    create_list main_state bytes_eq execute
route_round = refl

abbrev routing : Step list_chain list_tree two_names strokes unanswered start with_route
routing = command stack (codes "route ipv4 n a") (write_result routed.1) routed.2 route_round

with_route-Reachable : Reachable list_chain list_tree two_names strokes unanswered with_route
with_route-Reachable = stepped start-Reachable routing

abbrev replied : Option (Maptable list_tree × List Output)
replied = process_lisp_map_reply list_tree negative_reply with_route.rib

-- A denial of 10.1.0.0/16 arrives.
abbrev denied : Lisp list_chain list_tree
denied = record with_route {
  rib =
      (install list_tree with_route.rib net16 (new_mapnode negative mapttl_default zero_locator)).0;
}

denied_round :
    lisp_map_message_round list_chain list_tree negative_reply 28 with_route ≡ some (denied, [], [])
unfolding lisp_map_message_round process_lisp_map_message message_type high_nibble handle
    process_lisp_map_reply process_records process_record negative_action get_map_reply get_record
    get_bytes addr_to_prefix lispafi_to_af afi_addr_len main_state takes_denied
denied_round = refl

abbrev denying : Step list_chain list_tree two_names strokes unanswered with_route denied
denying = message negative_reply 28 [] [] denied_round

abbrev denied-Reachable : Reachable list_chain list_tree two_names strokes unanswered denied
denied-Reachable = stepped with_route-Reachable denying

routed_entry :
    IsStaticTo
      (key net8)
      (memcpy_addr (address 1) (zeros_after (address 1)))
      (fib list_tree with_route.rib)
unfolding config_route route_action route_family cmd_install_route is bytes_eq
    install_mapnode_static install update_mapnode create_maptable key_eq cut main_state
routed_entry =
    (static_mapnode (memcpy_addr (address 1) (zeros_after (address 1))), refl, refl, refl)

static_kept_example :
    IsStaticTo
      (key net8)
      (memcpy_addr (address 1) (zeros_after (address 1)))
      (fib list_tree denied.rib)
static_kept_example =
    static_kept list_chain list_tree two_names strokes unanswered list_chain_lawful list_tree_lawful
      (key net8) (memcpy_addr (address 1) (zeros_after (address 1))) with_route-Reachable
      (round none_yet denying) refl routed_entry

denied-LispInv : LispInv list_chain list_tree denied
denied-LispInv =
    Reachable-LispInv list_chain list_tree two_names strokes unanswered list_chain_lawful
      list_tree_lawful denied-Reachable

-- `lixyctl show ipv4-route static`
abbrev show_static : Args
show_static = codes "show" ∷ codes "ipv4-route" ∷ codes "static" ∷ []

config_show-refines_example :
    config_show list_chain list_tree strokes (none, λ _. []) denied.tuples denied.rib show_static
    ≡ some (
        spec_show strokes
          (none, λ _. [])
          (list_tree.node_prefix denied.rib.tree)
          (list_tree.walk denied.rib.tree)
          (locators list_chain denied.tuples)
          (map_servers list_chain denied.tuples)
          (sites list_chain denied.tuples)
          (fib list_tree denied.rib)
          show_static)
config_show-refines_example =
    config_show-refines list_chain list_tree strokes list_chain_lawful list_tree_lawful
      (none, λ _. []) denied.tuples denied.rib denied-LispInv.eid_inv denied-LispInv.rib_inv
      (counted list_chain list_tree denied denied-LispInv) show_static

-- An IPv4 packet of 20 bytes to 10.2.0.0, in the buffer: the denial is not for it.
abbrev packet8 : List ℕ
packet8 =
    69
    ∷ 0
    ∷ 0
    ∷ 20
    ∷ 0
    ∷ 0
    ∷ 0
    ∷ 0
    ∷ 64
    ∷ 17
    ∷ 0
    ∷ 0
    ∷ 10
    ∷ 9
    ∷ 0
    ∷ 1
    ∷ 10
    ∷ 2
    ∷ 0
    ∷ 0
    ∷ replicate 2028 7

abbrev host8 : Prefix
host8 = record { family = 2; bitlen = 32; add = 10 ∷ 2 ∷ 0 ∷ 0 ∷ [] }

to_host8 : dst_prefix packet8 ≡ some (some host8)
unfolding dst_prefix host_prefix field ip_v get_bytes
to_host8 = refl

abbrev routed_to : Sockaddr
routed_to = memcpy_addr (address 1) (zeros_after (address 1))

best8 : best_key (fib list_tree denied.rib) host8 ≡ some (key net8)
unfolding best_key longest config_route route_action route_family cmd_install_route is bytes_eq
    install_mapnode_static install update_mapnode create_maptable key_eq cut main_state
best8 = refl

static_kept-forwards_example :
    lisp_dp_tun_packet list_tree denied.rib packet8 20
    ≡ some (sendmsg_udp routed_to (extract_salen routed_to) (lisp_hdr ++ take 28 packet8) ∷ [])
static_kept-forwards_example =
    static_kept-forwards list_chain list_tree two_names strokes unanswered list_chain_lawful
      list_tree_lawful (key net8) routed_to with_route-Reachable (round none_yet denying) refl
      routed_entry packet8 20 host8 to_host8 best8 refl (omega arith)

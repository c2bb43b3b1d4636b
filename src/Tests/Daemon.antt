-- ===== src/Tests/Daemon.antt =====
-- The daemon from its start, and what it shows.
use lixy.Base.{ℕ, ◌≡◌, refl, Option, none, some, List, [], ◌∷◌, ◌++◌, codes, replicate}
use lixy.Platform.Format.{Format}
use lixy.Net.{zero_locator, zero_sockaddr}
use lixy.State.{Tuples}
use lixy.Platform.Patricia.{cut, key_eq}
use lixy.Maptable.{create_maptable}
use lixy.Tests.Commands.{no_objects, no_eid, no_prefix}
use lixy.Tests.Lines.{no_nodes}
use lixy.Tests.Threads.{packet, host, to_host_net}
use lixy.Netlink.{RouteMessage}
use lixy.Base.{bytes_eq}
use lixy.LinkedList.{search_listnode, append_listnode, create_list, search_nodes}
use lixy.Control.{ReturnType}
use lixy.Control.Locators.{config_locator}
use lixy.Control.Dispatch.{
  strsplit, skip_spaces, split_words, word_of, after_word, skip_blanks, search_cmd_node,
  install_cmd_node, append_cmd_node, find_command,
}
use lixy.DataPlane.{lisp_dp_tun_packet}
use lixy.Tests.World.{net16}
use lixy.Base.{arith, take}
use lixy.Control.{is, err_invalid_command}
use lixy.Control.Dispatch.Words.{IsWord}
use lixy.Control.Dispatch.Table.{command_of}
use lixy.Lixyctl.{lixyctl_main, sends}
use lixy.Daemon.{write_control_msg}
use lixy.Daemon.Session.{lixyctl-executes}
use lixy.DataPlane.{sendmsg_udp, extract_salen, lisp_hdr}
use lixy.DataPlane.Forward.{static_route-forwards}
use lixy.Maptable.{install_mapnode_static}
use lixy.Daemon.{Stack, Lisp, main_state, lisp_op_round, execute, write_result}
use lixy.Daemon.Steps.{command, Reachable, started, stepped}
use lixy.Tests.World.{list_chain, list_chain_lawful, two_names}
use lixy.Tests.Trees.{list_tree, list_tree_lawful}
use lixy.Tests.Table.{to_host, empty_table, empty_table-RibInv}

-- Numbers and addresses in unary.
abbrev pub strokes : Format
strokes = record { inet_ntop = λ af add. some (replicate af 49); decimal = λ n. replicate n 49 }

abbrev pub stack : Stack
stack = record { storage = []; state = none; addrbuf = λ n. [] }

abbrev pub unanswered : List ℕ → Option (List RouteMessage)
unanswered request = none

abbrev pub start : Lisp list_chain list_tree
start =
    main_state list_chain list_tree (no_objects no_eid) (no_objects zero_locator)
      (no_objects zero_sockaddr) (no_objects no_prefix) no_nodes
      (record { next = 1; cell = λ p. to_host })

abbrev pub created : Tuples list_chain × ReturnType
created =
    config_locator list_chain two_names [] start.tuples
      (codes "locator" ∷ codes "a" ∷ codes "create" ∷ [])

-- `lixyctl locator a create`
abbrev pub with_locator : Lisp list_chain list_tree
with_locator = record start { tuples = created.0 }

pub create_round :
    lisp_op_round list_chain list_tree two_names strokes stack start (codes "locator a create")
    ≡ some (with_locator, write_result created.1, [])
unfolding lisp_op_round find_command strsplit skip_spaces split_words word_of after_word skip_blanks
    search_cmd_node install_cmd_node append_cmd_node search_listnode search_nodes append_listnode
    create_list main_state bytes_eq execute
create_round = refl

pub with_locator-Reachable :
    Reachable list_chain list_tree two_names strokes unanswered with_locator
with_locator-Reachable =
    stepped
      (started (no_objects no_eid) (no_objects zero_locator) (no_objects zero_sockaddr)
        (no_objects no_prefix) no_nodes (record { next = 1; cell = λ p. to_host }))
      (command stack (codes "locator a create") (write_result created.1) [] create_round)

static_route-forwards_example :
    lisp_dp_tun_packet list_tree
      (install_mapnode_static list_tree empty_table net16 zero_sockaddr).0
      packet
      20
    ≡ some
        (sendmsg_udp zero_sockaddr (extract_salen zero_sockaddr) (lisp_hdr ++ take 28 packet) ∷ [])
unfolding create_maptable key_eq cut
static_route-forwards_example =
    static_route-forwards list_tree list_tree_lawful empty_table empty_table-RibInv net16 host
      zero_sockaddr packet 20 refl refl (omega arith) (λ l a b. refl) to_host_net refl (omega arith)

eid-IsWord : IsWord (codes "eid")
eid-IsWord = record { nonempty = omega arith; graphic = (refl, (refl, (refl, tt))) }

site-IsWord : IsWord (codes "x1")
site-IsWord = record { nonempty = omega arith; graphic = (refl, (refl, tt)) }

lixyctl-executes_example :
    (line : List ℕ) × (lixyctl_main (codes "eid" ∷ codes "x1" ∷ []) ≡ sends line)
    × (lisp_op_round list_chain list_tree two_names strokes stack with_locator line
        ≡ elim (command_of (codes "eid")) [
          | none ↦ some (with_locator, write_control_msg err_invalid_command ∷ [], [])
          | some func ↦
              execute list_chain list_tree two_names strokes stack with_locator func
                (codes "eid" ∷ codes "x1" ∷ [])
        ])
unfolding is bytes_eq
lixyctl-executes_example =
    lixyctl-executes list_chain list_tree two_names strokes unanswered list_chain_lawful
      with_locator-Reachable stack (codes "eid") (codes "x1" ∷ []) refl refl
      (eid-IsWord, (site-IsWord, tt)) (omega arith) (omega arith)

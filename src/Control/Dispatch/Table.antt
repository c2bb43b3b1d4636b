-- ===== src/Control/Dispatch/Table.antt =====
-- The table of commands that the daemon searches.
use lixy.Base.{
  ℕ, ◌≡◌, sym, ap, Option-cases, ◌∙◌, if◌then◌else◌, Option, none, some, List, [], ◌∷◌, ◌++◌,
  bytes_eq, arith, length, inl, inr, All, ◌<◌,
}
use lixy.Platform.{UtList, LawfulUtList}
use lixy.LinkedList.Pool.{Pool}
use lixy.LinkedList.Search.{find}
use lixy.LinkedList.Owned.{
  IsOwned, contents, create_list-IsOwned, contents-create_list, append_listnode-IsOwned,
  contents-append_listnode, search_listnode-cases,
}
use lixy.Control.{is}
use lixy.Control.Dispatch.{
  Func, config_map_server, config_locator, config_eid, config_show, config_route, CmdNode, cmd_node,
  CmdTuple, append_cmd_node, install_cmd_node, search_cmd_node, find_command, command_string,
  control_args_max, control_msg_buf_len,
}
use lixy.Control.Dispatch.Words.{IsWord, spaced, strsplit-command_string}

-- The command of each name.
pub command_of : List ℕ → Option Func
command_of cmd =
    if is cmd "mapserver"
    then some config_map_server
    else (if is cmd "locator"
        then some config_locator
        else (if is cmd "eid"
            then some config_eid
            else (if is cmd "show"
                then some config_show
                else (if is cmd "route" then some config_route else none))))

abbrev func_of : Option CmdNode → Option Func
func_of none = none
func_of (some node) = some node.func

-- The nodes that `install_cmd_node` makes.
abbrev commands : List CmdNode
commands =
    cmd_node "mapserver" config_map_server
    ∷ cmd_node "locator" config_locator
    ∷ cmd_node "eid" config_eid
    ∷ cmd_node "show" config_show
    ∷ cmd_node "route" config_route
    ∷ []

find-commands :
    (cmd : List ℕ) → func_of (find (λ node. bytes_eq cmd node.init_cmd) commands) ≡ command_of cmd
unfolding command_of is
find-commands cmd = ground arith

module _ (u : UtList) (law : LawfulUtList u) where
  -- The table holds these nodes.
  record Holds (tuple : CmdTuple u) (nodes : List CmdNode) : Type 0 where
    owned : IsOwned u tuple.0 tuple.1
    held : contents u tuple.0 tuple.1 ≡ nodes

  append_cmd_node-Holds :
      (node : CmdNode) (tuple : CmdTuple u) (nodes : List CmdNode)
      → Holds tuple nodes
      → Holds (append_cmd_node u node tuple) (nodes ++ node ∷ [])
  unfolding append_cmd_node
  append_cmd_node-Holds node (pool, l) nodes h = record {
    owned = append_listnode-IsOwned u law pool l node h.owned;
    held = contents-append_listnode u law pool l node h.owned ∙ ap (◌++ node ∷ []) h.held;
  }

  install_cmd_node-Holds : (pool : Pool CmdNode) → Holds (install_cmd_node u pool) commands
  unfolding install_cmd_node
  install_cmd_node-Holds pool = append_cmd_node-Holds _ _ _ (
      append_cmd_node-Holds _ _ _ (
        append_cmd_node-Holds _ _ _ (
          append_cmd_node-Holds _ _ _ (
            append_cmd_node-Holds _ _ [] (record {
              owned = create_list-IsOwned u law pool;
              held = contents-create_list u law pool;
            })))))

  module _ (pool : Pool CmdNode) where
    search_cmd_node-install :
        (cmd : List ℕ)
        → func_of (search_cmd_node u (install_cmd_node u pool) (some cmd)) ≡ command_of cmd
    unfolding search_cmd_node
    search_cmd_node-install cmd =
        let tuple = install_cmd_node u pool in
        let test = λ (node : CmdNode). bytes_eq cmd node.init_cmd in
        let named =
          ap (λ nodes. func_of (find test nodes)) (install_cmd_node-Holds pool).held
          ∙ find-commands cmd in
        elim (search_listnode-cases u law tuple.0 tuple.1 test) [
          | inl (miss, gone) ↦ rw (miss, func_of, search_cmd_node) (ap func_of (sym gone) ∙ named)
          | inr (p, hit, found) ↦
              rw (hit, func_of, search_cmd_node) (ap func_of (sym found) ∙ named)
        ]

    -- What is typed after lixyctl, up to seven words of printable characters that fit the buffer, is
    -- run by the daemon with these words as its arguments and the command that the first word names,
    -- and refused if it names none.
    pub find_command-command_string :
        (cmd : List ℕ) (ws : List (List ℕ))
        → All IsWord (cmd ∷ ws)
        → length (cmd ∷ ws) < control_args_max
        → length (spaced (cmd ∷ ws)) < control_msg_buf_len
        → (line : List ℕ) × (command_string [] (cmd ∷ ws) ≡ some line)
          × (find_command u (install_cmd_node u pool) line
              ≡ elim (command_of cmd) [ none ↦ none | some func ↦ some (func, cmd ∷ ws) ])
    unfolding find_command
    find_command-command_string cmd ws h few short =
        let (line, sent, split) = strsplit-command_string (cmd ∷ ws) h few short in
        let named = search_cmd_node-install cmd in
        (
          line,
          sent,
          rw (split, find_command)
              (elim (Option-cases (search_cmd_node u (install_cmd_node u pool) (some cmd))) [
                | inl e ↦ ground (arith, named)
                | inr (node, e) ↦ ground (arith, named)
              ]),
        )

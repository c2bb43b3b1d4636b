-- ===== src/Daemon/Session.antt =====
-- From a command line to the daemon's answer, in every state that the daemon gets into.

use lixy.Base.{
  ℕ, ◌≡◌, refl, subst, ap, ◌∙◌, ◌<◌, ltb, false, Option, none, some, List, [], ◌∷◌, All, length,
  Option-cases, Bool-cases, inl, inr,
}
use lixy.Platform.{UtList, LawfulUtList}
use lixy.Platform.Patricia.{Patricia}
use lixy.Platform.Resolver.{Resolver}
use lixy.Platform.Format.{Format}
use lixy.LinkedList.Pool.{Pool}
use lixy.State.{locators}
use lixy.Map.Receive.{Output}
use lixy.Map.Respond.{Packet}
use lixy.Map.Message.{process_lisp_map_message}
use lixy.Netlink.{RouteMessage}
use lixy.Control.{err_invalid_command, Args, is}
use lixy.Control.Eids.{config_eid}
use lixy.Control.Show.{config_show}
use lixy.Control.Dispatch.{
  CmdNode, Func, install_cmd_node, find_command, control_args_max, control_msg_buf_len,
}
use lixy.Control.Dispatch.Words.{IsWord, spaced}
use lixy.Control.Dispatch.Table.{command_of, find_command-command_string}
use lixy.Lixyctl.{sends, lixyctl_main}
use lixy.Daemon.{
  Stack, Lisp, Executed, main_state, execute, lisp_op_round, lisp_map_message_round,
  write_control_msg,
}
use lixy.Daemon.Steps.{Step, command, message, aging, raw_packet, Reachable, started, stepped}

module _ (u : UtList) (t : Patricia) (res : Resolver) (f : Format) where
  -- The command words are those that `main` installed.
  abbrev HasCommands : Lisp u t → Type 0
  HasCommands lisp = (pool : Pool CmdNode) × (lisp.cmd_tuple ≡ install_cmd_node u pool)

  abbrev Keeps : Executed u t → Type 0
  Keeps none = Unit
  Keeps (some (lisp', texts, routes)) = HasCommands lisp'

  module _ (lisp : Lisp u t) (h : HasCommands lisp) where
    execute-Keeps :
        (stack : Stack) (func : Func) (args : Args) → Keeps (execute u t res f stack lisp func args)
    unfolding execute
    execute-Keeps stack lixy.Control.Dispatch.config_map_server args = h
    execute-Keeps stack lixy.Control.Dispatch.config_locator args = h
    execute-Keeps stack lixy.Control.Dispatch.config_route args = h
    execute-Keeps stack lixy.Control.Dispatch.config_eid args =
        elim (Option-cases (config_eid u res lisp.tuples args)) [
          | inl e ↦ rw e tt
          | inr (o, e) ↦ rw e h
        ]
    execute-Keeps stack lixy.Control.Dispatch.config_show args =
        elim (Option-cases
          (config_show u t f (stack.state, stack.addrbuf) lisp.tuples lisp.rib args)) [
            | inl e ↦ rw e tt
            | inr (o, e) ↦ rw e h
          ]

    op_round-Keeps : (stack : Stack) (buf : List ℕ) → Keeps (lisp_op_round u t res f stack lisp buf)
    unfolding lisp_op_round
    op_round-Keeps stack buf = elim (Option-cases (find_command u lisp.cmd_tuple buf)) [
      | inl e ↦ rw (e, lisp_op_round) h
      | inr ((func, args), e) ↦ rw (e, lisp_op_round) (execute-Keeps stack func args)
    ]

    abbrev KeepsMessage : Option (Lisp u t × List Output × List Packet) → Type 0
    KeepsMessage none = Unit
    KeepsMessage (some (lisp', out, sent)) = HasCommands lisp'

    message_round-Keeps :
        (buf : List ℕ) (len : ℕ) → KeepsMessage (lisp_map_message_round u t buf len lisp)
    unfolding lisp_map_message_round
    message_round-Keeps buf len = elim (Bool-cases (ltb len 24)) [
      | inl e ↦ rw (e, lisp_map_message_round) h
      | inr e ↦
          rw (e, lisp_map_message_round)
            (elim (Option-cases (
              process_lisp_map_message t lisp.tuples.loc_tuple.count (locators u lisp.tuples) buf
                lisp.rib)) [ inl e' ↦ rw e' tt | inr (o, e') ↦ rw e' h ])
    ]

  module _ (kernel : List ℕ → Option (List RouteMessage)) where
    Step-HasCommands :
        {lisp lisp' : Lisp u t}
        → Step u t res f kernel lisp lisp'
        → HasCommands lisp
        → HasCommands lisp'
    Step-HasCommands {lisp} (command stack buf texts routes e) h =
        subst Keeps e (op_round-Keeps lisp h stack buf)
    Step-HasCommands {lisp} (message buf len out sent e) h =
        subst (KeepsMessage lisp h) e (message_round-Keeps lisp h buf len)
    Step-HasCommands (aging out e) h = h
    Step-HasCommands (raw_packet stack fresh buf out e) h = h

    Reachable-HasCommands : {lisp : Lisp u t} → Reachable u t res f kernel lisp → HasCommands lisp
    unfolding main_state
    Reachable-HasCommands (started eids locs mapsrvs prefixes cmds mapnodes) = (cmds, refl)
    Reachable-HasCommands (stepped r st) = Step-HasCommands st (Reachable-HasCommands r)

    -- In every state that the daemon gets into: up to seven words of printable characters that fit the
    -- buffer, the first of which does not ask for help, are sent by lixyctl, and the daemon runs with
    -- them the command that the first word names, or answers that the command is invalid if it
    -- names none.
    pub lixyctl-executes :
        LawfulUtList u
        → {lisp : Lisp u t} → Reachable u t res f kernel lisp
        → (stack : Stack) (cmd : List ℕ) (ws : List (List ℕ)) → is cmd "-h" ≡ false
        → is cmd "--help" ≡ false
        → All IsWord (cmd ∷ ws)
        → length (cmd ∷ ws) < control_args_max
        → length (spaced (cmd ∷ ws)) < control_msg_buf_len
        → (line : List ℕ) × (lixyctl_main (cmd ∷ ws) ≡ sends line)
          × (lisp_op_round u t res f stack lisp line ≡ elim (command_of cmd) [
            | none ↦ some (lisp, write_control_msg err_invalid_command ∷ [], [])
            | some func ↦ execute u t res f stack lisp func (cmd ∷ ws)
          ])
    unfolding lixyctl_main lisp_op_round
    lixyctl-executes law {lisp} r stack cmd ws no_h no_help h few short =
        let (pool, installed) = Reachable-HasCommands r in
        let (line, sent, found) = find_command-command_string u law pool cmd ws h few short in
        (
          line,
          rw (no_h, no_help, sent) refl,
          elim (Option-cases (command_of cmd)) [
            | inl e ↦
                let none_found : find_command u lisp.cmd_tuple line ≡ none =
                  ap (λ c. find_command u c line) installed ∙ found ∙ rw e refl in
                rw (none_found, e, lisp_op_round) refl
            | inr (func, e) ↦
                let there : find_command u lisp.cmd_tuple line ≡ some (func, cmd ∷ ws) =
                  ap (λ c. find_command u c line) installed ∙ found ∙ rw e refl in
                rw (there, e, lisp_op_round) refl
          ],
        )

-- ===== src/Daemon.antt =====
-- common.h, main.c and the loops of the threads: the whole state of lixy, and one round of each thread
-- that changes it. The threads take no locks; a round is taken as one step here.
pub mod Abstract
pub mod Steps
pub mod Invariant
pub mod Answer
pub mod Session
use lixy.Base.{ℕ, suc, ltb, if◌then◌else◌, Bool, Option, none, some, List, [], ◌∷◌, ◌++◌, codes}
use lixy.Platform.{UtList}
use lixy.Platform.Patricia.{Patricia}
use lixy.Platform.Resolver.{Resolver}
use lixy.Platform.Format.{Format}
use lixy.LinkedList.{create_list}
use lixy.LinkedList.Pool.{Pool}
use lixy.Net.{Sockaddr, Prefix, Locator}
use lixy.State.{Tuples, Eid, locators, map_servers, eid_list, prefixes_of}
use lixy.Maptable.{Maptable, MapNode, create_maptable, RouteEvent}
use lixy.Map.Receive.{Output, ◌>>=◌}
use lixy.Map.Respond.{Packet, send_map_register}
use lixy.Map.Message.{process_lisp_map_message}
use lixy.Control.{
  ReturnType, success, success_no_message, err_failed, err_invalid_command, err_invalid_address,
  err_eid_exists, err_locator_exists, err_interface_exists, err_address_exists,
  err_eid_does_not_exists, err_locator_does_not_exists, err_interface_does_not_exists,
  err_address_does_not_exists, err_authkey_too_long, Args,
}
use lixy.Control.Locators.{config_locator}
use lixy.Control.MapServers.{config_map_server}
use lixy.Control.Eids.{config_eid}
use lixy.Control.Routes.{config_route}
use lixy.Control.Show.{config_show}
use lixy.Control.Dispatch.{CmdNode, CmdTuple, Func, install_cmd_node, find_command}

-- `install_control_message`
unfoldable pub control_message : ReturnType → List ℕ
control_message success = codes "success\n"
control_message success_no_message = codes "\n"
control_message err_failed = codes "failed\n"
control_message err_invalid_command = codes "invalid command\n"
control_message err_invalid_address = codes "invalid address\n"
control_message err_eid_exists = codes "EID exists\n"
control_message err_locator_exists = codes "Locator exists\n"
control_message err_interface_exists = codes "Interface exists\n"
control_message err_address_exists = codes "Address exists\n"
control_message err_eid_does_not_exists = codes "EID does not exists\n"
control_message err_locator_does_not_exists = codes "Locator does not exists\n"
control_message err_interface_does_not_exists = codes "Interface doesnot exists\n"
control_message err_address_does_not_exists = codes "Address does not exists\n"
control_message err_authkey_too_long = codes "authentication key is too long\n"

-- WRITE_CONTROL_MSG writes one byte more than the text and its NUL. `strncpy` has filled the array
-- with NULs.
unfoldable pub write_control_msg : ReturnType → List ℕ
write_control_msg type = control_message type ++ 0 ∷ 0 ∷ []

-- `if (res != SUCCESS_NO_MESSAGE) WRITE_CONTROL_MSG (...)`
unfoldable pub write_result : ReturnType → List (List ℕ)
write_result success_no_message = []
write_result res = write_control_msg res ∷ []

-- What the local variables of the commands hold before they are set: the bytes behind an address in
-- a storage, `state`, and `addrbuf`.
pub record Stack : Type 0 where
  pub storage : List ℕ
  pub state : Option ℕ
  pub addrbuf : ℕ → List ℕ

module _ (u : UtList) (t : Patricia) where
  -- `struct lisp`, without the sockets and the threads' ids.
  pub record Lisp : Type 0 where
    pub tuples : Tuples u
    pub rib : Maptable t
    pub cmd_tuple : CmdTuple u

  -- The state that `main` makes before it starts the threads. The pools are what `malloc` gives.
  unfoldable pub main_state :
      Pool (Eid u) → Pool Locator → Pool Sockaddr → Pool Prefix → Pool CmdNode → Pool MapNode → Lisp
  main_state eids locs mapsrvs prefixes cmds mapnodes = record {
    tuples = record {
      eid_tuple = create_list u;
      loc_tuple = create_list u;
      mapsrv_tuple = create_list u;
      eids = eids;
      locs = locs;
      mapsrvs = mapsrvs;
      prefixes = prefixes;
    };
    rib = create_maptable t mapnodes;
    cmd_tuple = install_cmd_node u cmds;
  }

  -- What a command leads to: the state, the texts that are written to the socket, and the routes
  -- for the kernel. `none` is a crash or a write behind an array.
  abbrev pub Executed : Type 0
  Executed = Option (Lisp × List (List ℕ) × List RouteEvent)

  module _ (res : Resolver) (f : Format) (stack : Stack) (lisp : Lisp) where
    -- `res = cnode->func (accept_socket, args)`, and what is written for the result.
    unfoldable pub execute : Func → Args → Executed
    execute lixy.Control.Dispatch.config_map_server args =
        let (tuples', res') = config_map_server u res stack.storage lisp.tuples args in
        some (record lisp { tuples = tuples' }, write_result res', [])
    execute lixy.Control.Dispatch.config_locator args =
        let (tuples', res') = config_locator u res stack.storage lisp.tuples args in
        some (record lisp { tuples = tuples' }, write_result res', [])
    execute lixy.Control.Dispatch.config_eid args =
        config_eid u res lisp.tuples args >>= λ (tuples', res').
        some (record lisp { tuples = tuples' }, write_result res', [])
    execute lixy.Control.Dispatch.config_show args =
        config_show u t f (stack.state, stack.addrbuf) lisp.tuples lisp.rib args
        >>= λ (texts, res'). some (lisp, texts ++ write_result res', [])
    execute lixy.Control.Dispatch.config_route args =
        let (rib', res', events) = config_route t res lisp.rib args in
        some (record lisp { rib = rib' }, write_result res', events)

    -- A round of `lisp_op_thread`, with the bytes that `read` put into `buf`.
    unfoldable pub lisp_op_round : List ℕ → Executed
    lisp_op_round buf = elim (find_command u lisp.cmd_tuple buf) [
      | none ↦ some (lisp, write_control_msg err_invalid_command ∷ [], [])
      | some (func, args) ↦ execute func args
    ]

  -- A round of `lisp_map_message_thread`, after `recv` returned `len`; a message shorter than its
  -- headers is dropped.
  unfoldable pub lisp_map_message_round :
      List ℕ → ℕ → Lisp → Option (Lisp × List Output × List Packet)
  lisp_map_message_round buf len lisp =
      if ltb len 24
      then some (lisp, [], [])
      else (process_lisp_map_message t lisp.tuples.loc_tuple.count (locators u lisp.tuples) buf
            lisp.rib
          >>= λ (rib', out, sent). some (record lisp { rib = rib' }, out, sent))

  -- A round of `lisp_map_register_thread`: `send_map_register` for each EID, whose result is ignored.
  -- `nonce` is what `set_nonce` makes for each of them.
  unfoldable pub register_each :
      (Packet → Bool)
      → (List ℕ → List ℕ → List ℕ)
      → (ℕ → ℕ → List ℕ)
      → Lisp
      → ℕ
      → List (Eid u)
      → List Packet
  register_each sent hmac nonce lisp round [] = []
  register_each sent hmac nonce lisp round (eid ∷ later) =
      let rest = register_each sent hmac nonce lisp (suc round) later in
      let packets : List Packet =
        (send_map_register sent hmac (nonce round) lisp.tuples.loc_tuple.count
          (locators u lisp.tuples) (map_servers u lisp.tuples) eid.authkey 0
          (prefixes_of u lisp.tuples eid)).1 in
      if ltb 0 lisp.tuples.mapsrv_tuple.count then packets ++ rest else rest

  unfoldable pub lisp_map_register_round :
      (Packet → Bool) → (List ℕ → List ℕ → List ℕ) → (ℕ → ℕ → List ℕ) → Lisp → List Packet
  lisp_map_register_round sent hmac nonce lisp =
      register_each sent hmac nonce lisp 0 (eid_list u lisp.tuples)

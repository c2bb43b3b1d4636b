-- ===== src/Daemon/Invariant/Rounds.antt =====
-- The rounds of the daemon's threads keep its invariant.
use mathlib.Core.Option.{some-injective}
use lixy.Base.{
  ◌∙◌, ℕ, ◌≡◌, sym, subst, ap, Option, none, some, List, Option-cases, Bool-cases, inl, inr, ltb,
}
use lixy.Platform.{UtList, LawfulUtList}
use lixy.Platform.Patricia.{Patricia, LawfulPatricia}
use lixy.Platform.Resolver.{Resolver}
use lixy.Platform.Format.{Format}
use lixy.LinkedList.Owned.{create_list-IsOwned, contents-create_list}
use lixy.LinkedList.Pool.{Pool}
use lixy.Net.{Sockaddr, Prefix, Locator}
use lixy.State.{Eid, locators}
use lixy.Maptable.{Maptable, MapNode}
use lixy.Maptable.Fib.{RibInv}
use lixy.Maptable.Fib.Laws.Invariant.{create_maptable-RibInv}
use lixy.Map.Receive.{Output}
use lixy.Map.Respond.{Packet}
use lixy.Map.Message.{process_lisp_map_message}
use lixy.Map.Message.Table.{process_lisp_map_message-RibInv}
use lixy.Netlink.{RouteMessage}
use lixy.Control.Dispatch.{CmdNode, find_command}
use lixy.Daemon.{Stack, Lisp, main_state, lisp_op_round, lisp_map_message_round}
use lixy.Daemon.Steps.{Step, command, message, aging, raw_packet, Reachable, started, stepped}
use lixy.Aging.Walk.{age_maptable-refines}
use lixy.DataPlane.Learn.{lisp_raw_packet-RibInv}
use lixy.Daemon.Invariant.{LispInv}
use lixy.Daemon.Invariant.Commands.{Kept, execute-Kept}

module _ (u : UtList) (t : Patricia) (res : Resolver) (f : Format)
    (kernel : List ℕ → Option (List RouteMessage)) where
  module _ (ulaw : LawfulUtList u) (tlaw : LawfulPatricia t) where
    module _ (lisp : Lisp u t) (v : LispInv u t lisp) where
      abbrev with_rib : Maptable t → Lisp u t
      with_rib rib' = record lisp { rib = rib' }

      with_rib-LispInv : (rib' : Maptable t) → RibInv t rib' → LispInv u t (with_rib rib')
      with_rib-LispInv rib' v' = record {
        locator_inv = v.locator_inv;
        eid_inv = v.eid_inv;
        mapsrv_owned = v.mapsrv_owned;
        rib_inv = v';
      }

      op_round-Kept :
          (stack : Stack) (buf : List ℕ) → Kept u t res f (lisp_op_round u t res f stack lisp buf)
      unfolding lisp_op_round
      op_round-Kept stack buf = elim (Option-cases (find_command u lisp.cmd_tuple buf)) [
        | inl e ↦ rw (e, lisp_op_round) v
        | inr ((func, args), e) ↦
            rw (e, lisp_op_round) (execute-Kept u t res f ulaw tlaw lisp v stack func args)
      ]

      message_round-LispInv :
          (buf : List ℕ) (len : ℕ) (lisp' : Lisp u t) (out : List Output) (sent : List Packet)
          → lisp_map_message_round u t buf len lisp ≡ some (lisp', out, sent)
          → LispInv u t lisp'
      unfolding lisp_map_message_round
      message_round-LispInv buf len lisp' out sent h =
          subst KeptMessage h (elim (Bool-cases (ltb len 24)) [
            | inl e ↦ rw (e, lisp_map_message_round) v
            | inr e ↦
                rw (e, lisp_map_message_round)
                  (elim (Option-cases (
                    process_lisp_map_message t lisp.tuples.loc_tuple.count (locators u lisp.tuples)
                      buf lisp.rib)) [
                        | inl e' ↦ rw e' tt
                        | inr ((rib', o, m), e') ↦ rw e' (
                            with_rib-LispInv rib' (
                              process_lisp_map_message-RibInv t tlaw lisp.tuples.loc_tuple.count
                                (locators u lisp.tuples) buf lisp.rib v.rib_inv rib' o m e'))
                      ])
          ])
        where
          KeptMessage : Option (Lisp u t × List Output × List Packet) → Type 0
          KeptMessage none = Unit
          KeptMessage (some (l, _, _)) = LispInv u t l

    pub Step-LispInv :
        {lisp lisp' : Lisp u t}
        → Step u t res f kernel lisp lisp'
        → LispInv u t lisp
        → LispInv u t lisp'
    Step-LispInv {lisp} (command stack buf texts routes e) v =
        subst (Kept u t res f) e (op_round-Kept lisp v stack buf)
    Step-LispInv {lisp} (message buf len out sent e) v =
        message_round-LispInv lisp v buf len _ out sent e
    Step-LispInv {lisp} (aging {rib' = rib'} out e) v =
        let (r', out', e', v', _) = age_maptable-refines t tlaw lisp.rib v.rib_inv in
        with_rib-LispInv lisp v rib'
          (subst (RibInv t) (ap (λ o. o.0) (some-injective _ _ (sym e' ∙ e))) v')
    Step-LispInv {lisp} (raw_packet {rib' = rib'} stack fresh buf out e) v =
        with_rib-LispInv lisp v rib'
          (lisp_raw_packet-RibInv t tlaw kernel stack fresh lisp.rib rib' buf out v.rib_inv e)

    main_state-LispInv :
        (eids : Pool (Eid u)) (locs : Pool Locator) (mapsrvs : Pool Sockaddr)
        (prefixes : Pool Prefix) (cmds : Pool CmdNode) (mapnodes : Pool MapNode)
        → LispInv u t (main_state u t eids locs mapsrvs prefixes cmds mapnodes)
    unfolding main_state
    main_state-LispInv eids locs mapsrvs prefixes cmds mapnodes = record {
      locator_inv = record {
        owned = create_list-IsOwned u ulaw locs;
        unlike = rw (contents-create_list u ulaw locs) tt;
      };
      eid_inv = record {
        owned = create_list-IsOwned u ulaw eids;
        names = rw (contents-create_list u ulaw eids) tt;
        each = rw (contents-create_list u ulaw eids) tt;
      };
      mapsrv_owned = create_list-IsOwned u ulaw mapsrvs;
      rib_inv = create_maptable-RibInv t tlaw mapnodes;
    }

    pub Reachable-LispInv : {lisp : Lisp u t} → Reachable u t res f kernel lisp → LispInv u t lisp
    Reachable-LispInv (started eids locs mapsrvs prefixes cmds mapnodes) =
        main_state-LispInv eids locs mapsrvs prefixes cmds mapnodes
    Reachable-LispInv (stepped r st) = Step-LispInv st (Reachable-LispInv r)

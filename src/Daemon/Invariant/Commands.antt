-- ===== src/Daemon/Invariant/Commands.antt =====
-- The commands of control.c keep the invariant of the daemon.

use lixy.Base.{ℕ, ◌≡◌, sym, subst, ap, Option, none, some, List, [], ◌++◌, Option-cases, inl, inr}
use lixy.Platform.{UtList, LawfulUtList}
use lixy.Platform.Patricia.{Patricia, LawfulPatricia}
use lixy.Platform.Resolver.{Resolver}
use lixy.Platform.Format.{Format}
use lixy.LinkedList.Owned.{IsOwned}
use lixy.State.{Tuples}
use lixy.Map.Receive.{◌>>=◌}
use lixy.Control.{ReturnType, Args}
use lixy.Control.Locators.{config_locator}
use lixy.Control.MapServers.{config_map_server}
use lixy.Control.MapServers.Owned.{config_map_server-IsOwned}
use lixy.Control.Eids.{config_eid}
use lixy.Control.Frame.{OnlyEids, config_map_server_frame, config_eid_frame}
use lixy.Control.Locators.Effect.{LocatorInv, config_locator-LocatorInv, config_locator_frame}
use lixy.Control.Eids.Laws.{EidInv}
use lixy.Control.Eids.Laws.Effect.{config_eid-EidInv}
use lixy.Control.Routes.Laws.{config_route-RibInv}
use lixy.Control.Dispatch.{Func}
use lixy.Daemon.{Stack, Lisp, execute, Executed, write_result}
use lixy.Daemon.Invariant.{LispInv}

module _ (u : UtList) where
  locators-LocatorInv :
      (s s' : Tuples u)
      → s'.locs ≡ s.locs
      → s'.loc_tuple ≡ s.loc_tuple
      → LocatorInv u s
      → LocatorInv u s'
  locators-LocatorInv s s' e e' v = record {
    owned = rw (e, e') v.owned;
    unlike = rw (e, e') v.unlike;
  }

  eids-EidInv :
      (s s' : Tuples u)
      → s'.eids ≡ s.eids
      → s'.eid_tuple ≡ s.eid_tuple
      → s'.prefixes ≡ s.prefixes
      → EidInv u s
      → EidInv u s'
  eids-EidInv s s' e e' e'' v = record {
    owned = rw (e, e') v.owned;
    names = rw (e, e') v.names;
    each = rw (e, e', e'') v.each;
  }

module _ (u : UtList) (t : Patricia) (res : Resolver) (f : Format) where
  abbrev pub Kept : Executed u t → Type 0
  Kept none = Unit
  Kept (some (lisp', texts, routes)) = LispInv u t lisp'

  abbrev KeptShown : Lisp u t → Option (List (List ℕ) × ReturnType) → Type 0
  KeptShown lisp o = Kept (o >>= λ (texts, r). some (lisp, texts ++ write_result r, []))

  shown-Kept :
      (lisp : Lisp u t) (o : Option (List (List ℕ) × ReturnType))
      → LispInv u t lisp
      → KeptShown lisp o
  shown-Kept lisp none v = tt
  shown-Kept lisp (some (texts, r)) v = v

  module _ (ulaw : LawfulUtList u) (tlaw : LawfulPatricia t) (lisp : Lisp u t)
      (v : LispInv u t lisp) where
    abbrev s : Tuples u
    s = lisp.tuples

    map_server-LispInv :
        (stack : List ℕ) (args : Args)
        → LispInv u t (record lisp { tuples = (config_map_server u res stack s args).0 })
    map_server-LispInv stack args =
        let s' = (config_map_server u res stack s args).0 in
        let frame = config_map_server_frame u res s stack args in
        record {
          locator_inv =
              locators-LocatorInv u s s' (ap (λ (x : Tuples u). x.locs) frame)
                (ap (λ (x : Tuples u). x.loc_tuple) frame) v.locator_inv;
          eid_inv =
              eids-EidInv u s s' (ap (λ (x : Tuples u). x.eids) frame)
                (ap (λ (x : Tuples u). x.eid_tuple) frame) (ap (λ (x : Tuples u). x.prefixes) frame)
                v.eid_inv;
          mapsrv_owned = config_map_server-IsOwned u ulaw s v.mapsrv_owned res stack args;
          rib_inv = v.rib_inv;
        }

    locator-LispInv :
        (stack : List ℕ) (args : Args)
        → LispInv u t (record lisp { tuples = (config_locator u res stack s args).0 })
    locator-LispInv stack args =
        let s' = (config_locator u res stack s args).0 in
        let frame = config_locator_frame u ulaw res s stack args in
        record {
          locator_inv = config_locator-LocatorInv u ulaw res s stack args v.locator_inv;
          eid_inv =
              eids-EidInv u s s' (ap (λ (x : Tuples u). x.eids) frame)
                (ap (λ (x : Tuples u). x.eid_tuple) frame) (ap (λ (x : Tuples u). x.prefixes) frame)
                v.eid_inv;
          mapsrv_owned =
              subst (λ (x : Tuples u). IsOwned u x.mapsrvs x.mapsrv_tuple) (sym frame)
                v.mapsrv_owned;
          rib_inv = v.rib_inv;
        }

    eid-Kept :
        (args : Args)
        → Kept (
            config_eid u res s args >>= λ (s', r).
            some (record lisp { tuples = s' }, write_result r, []))
    eid-Kept args = elim (Option-cases (config_eid u res s args)) [
      | inl e ↦ rw e tt
      | inr ((s', r), e) ↦
          let frame = subst (OnlyEids u res s) e (config_eid_frame u res s args) in
          rw e (record {
            locator_inv =
                locators-LocatorInv u s s' (ap (λ (x : Tuples u). x.locs) frame)
                  (ap (λ (x : Tuples u). x.loc_tuple) frame) v.locator_inv;
            eid_inv = config_eid-EidInv u ulaw res s v.eid_inv args e;
            mapsrv_owned =
                subst (λ (x : Tuples u). IsOwned u x.mapsrvs x.mapsrv_tuple) (sym frame)
                  v.mapsrv_owned;
            rib_inv = v.rib_inv;
          })
    ]

    pub execute-Kept :
        (stack : Stack) (func : Func) (args : Args) → Kept (execute u t res f stack lisp func args)
    unfolding execute
    execute-Kept stack lixy.Control.Dispatch.config_map_server args =
        map_server-LispInv stack.storage args
    execute-Kept stack lixy.Control.Dispatch.config_locator args =
        locator-LispInv stack.storage args
    execute-Kept stack lixy.Control.Dispatch.config_eid args = eid-Kept args
    execute-Kept stack lixy.Control.Dispatch.config_show args = shown-Kept lisp _ v
    execute-Kept stack lixy.Control.Dispatch.config_route args = record {
      locator_inv = v.locator_inv;
      eid_inv = v.eid_inv;
      mapsrv_owned = v.mapsrv_owned;
      rib_inv = config_route-RibInv t tlaw res lisp.rib v.rib_inv args;
    }

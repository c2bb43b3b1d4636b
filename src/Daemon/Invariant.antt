-- ===== src/Daemon/Invariant.antt =====
-- The invariant of the daemon's state (struct lisp of common.h).
use lixy.Platform.{UtList}
use lixy.Platform.Patricia.{Patricia}
use lixy.LinkedList.Owned.{IsOwned}
use lixy.Maptable.Fib.{RibInv}
use lixy.Control.Locators.Effect.{LocatorInv}
use lixy.Control.Eids.Laws.{EidInv}
use lixy.Daemon.{Lisp}
pub mod Commands
pub mod Rounds

module _ (u : UtList) (t : Patricia) where
  -- Every list of the configuration and the map table are well formed; no locator, EID or prefix of
  -- an EID is there twice.
  pub record LispInv (lisp : Lisp u t) : Type 0 where
    pub locator_inv : LocatorInv u lisp.tuples
    pub eid_inv : EidInv u lisp.tuples
    pub mapsrv_owned : IsOwned u lisp.tuples.mapsrvs lisp.tuples.mapsrv_tuple
    pub rib_inv : RibInv t lisp.rib

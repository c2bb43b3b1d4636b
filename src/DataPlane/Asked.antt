-- ===== src/DataPlane/Asked.antt =====
-- A destination that the watching thread has asked for, when the answer arrives.
use lixy.Base.{ℕ, ◌≡◌, none}
use lixy.Platform.Patricia.{Patricia, LawfulPatricia}
use lixy.Net.{Prefix, Locator}
use lixy.Maptable.{Maptable, MapNode, queried, install_mapnode_queried}
use lixy.Maptable.Fib.{fib, RibInv, best_key}
use lixy.Map.Receive.{register_locator}

module _ (t : Patricia) (law : LawfulPatricia t) (r : Maptable t) (v : RibInv t r) (p : Prefix)
    (fresh : MapNode) (missing : best_key (fib t r) p ≡ none) where
  abbrev asked : Maptable t
  asked = install_mapnode_queried t fresh r p

  abbrev entry : MapNode
  entry = record fresh { state = queried }

  module _ (ttl : ℕ) (loc : Locator) where
    abbrev answered : Maptable t
    answered = (register_locator t asked p ttl loc).0

-- ===== src/Maptable/Fib.antt =====
-- The map table seen as a function from prefixes to mapnodes.
pub mod Laws
pub mod Longest
use lixy.Base.{ℕ, ◌≡◌, ◌<◌, ◌≢◌, if◌then◌else◌, Bool, true, false, Option, none, some}
use lixy.Platform.Patricia.{Patricia, Key, key_eq, key, longest}
use lixy.Net.{Prefix}
use lixy.Maptable.{Maptable, MapNode, is_static}

abbrev pub Fib : Type 0
Fib = Key → Option MapNode

abbrev pub present {ℓ} : {A : Type ℓ} → Option A → Bool
present none = false
present (some a) = true

abbrev pub override : Fib → Key → Option MapNode → Fib
override f j m k = if key_eq k j then m else f k

-- The longest prefix with an entry that covers the given one.
unfoldable pub best_key : Fib → Prefix → Option Key
best_key f p = longest (λ k. present (f k)) p p.bitlen

abbrev pub at_key : Fib → Option Key → Option MapNode
at_key f none = none
at_key f (some k) = f k

-- Longest prefix match.
abbrev pub spec_search : Fib → Prefix → Option MapNode
spec_search f p = at_key f (best_key f p)

abbrev pub holds_static : Option MapNode → Bool
holds_static none = false
holds_static (some mn) = is_static mn.state

-- A static entry stays; any other is replaced.
abbrev pub spec_install : Fib → Prefix → MapNode → Fib × Bool
spec_install f p mn =
    if holds_static (f (key p)) then (f, false) else (override f (key p) (some mn), true)

abbrev pub without : Fib → Option Key → Fib
without f none = f
without f (some k) = override f k none

-- The entry that `search_mapnode` would find goes, be it for this prefix or a shorter one.
abbrev pub spec_delete : Fib → Prefix → Fib
spec_delete f p = without f (best_key f p)

module _ (t : Patricia) where
  abbrev pub fetch : Maptable t → Option ℕ → Option MapNode
  fetch r none = none
  fetch r (some q) = some (r.mapnodes.cell q)

  abbrev pub fib : Maptable t → Fib
  fib r k = fetch r (t.node_data r.tree k)

  -- No node is without data, and each points to a mapnode of its own.
  pub record RibInv (r : Maptable t) : Type 0 where
    pub full : (k : Key) → t.has_node r.tree k ≡ true → t.node_data r.tree k ≢ none
    pub allocated : (k : Key) (q : ℕ) → t.node_data r.tree k ≡ some q → q < r.mapnodes.next
    pub unshared :
        (j k : Key) (q : ℕ) → t.node_data r.tree j ≡ some q → t.node_data r.tree k ≡ some q → j ≡ k

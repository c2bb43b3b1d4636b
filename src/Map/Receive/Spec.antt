-- ===== src/Map/Receive/Spec.antt =====
-- The handler of map replies in two parts: the message is read without the table, and what was read
-- is applied to the table as a function from prefixes to entries.
pub mod Refines
use lixy.Base.{
  Bool, ℕ, zero, suc, ◌*◌, ◌%◌, ◌==◌, leb, ◌&&◌, ◌||◌, not, if◌then◌else◌, Option, none, some, List,
  [], ◌∷◌, ◌++◌,
}
use lixy.Platform.Patricia.{key}
use lixy.LinkedList.{u32}
use lixy.Net.{Prefix, Locator, zero_locator}
use lixy.Maptable.{MapNode, active, negative, drop, add_route_to_tun, mapttl_default}
use lixy.Maptable.Fib.{Fib, override, best_key, spec_install}
use lixy.Map.Receive.{
  Output, route, map_request, ◌>>=◌, new_mapnode, addr_to_prefix, select_locator,
  lisp_locator_pkt_to_locator,
}
use lixy.Wire.{LispRecord, get_record, get_map_reply, lispafi_to_af, afi_addr_len}
use lixy.Wire.Bytes.{get_bytes}

-- What a reply says, record by record, until it ends or runs over the end of the buffer. A record
-- without locators denies its prefix with an action; another maps it to the selected locator.
pub data Reading : Type 0 where
  finished overrun : Reading
  denial : Prefix → ℕ → Reading → Reading
  mapping : Prefix → ℕ → Locator → Reading → Reading

read_then : {A : Type 0} → Option A → (A → Reading) → Reading
read_then none f = overrun
read_then (some a) f = f a

read_record : Prefix → LispRecord → ℕ → List ℕ → (List ℕ → Reading) → Reading
unfolding read_then
read_record p rec zero next later = denial p rec.act (later next)
read_record p rec (suc k) next later =
    read_then (select_locator (suc k) next next) λ (lisploc, rest).
      read_then (lisp_locator_pkt_to_locator lisploc)
        λ loc. mapping p rec.record_ttl loc (later rest)

read_records : ℕ → List ℕ → Reading
unfolding read_then read_record
read_records zero pkt = finished
read_records (suc n) pkt = read_then (get_record pkt) λ (rec, eid).
    read_then (get_bytes (afi_addr_len rec.eid_prefix_afi) eid) λ (_, next).
      read_then (addr_to_prefix (lispafi_to_af rec.eid_prefix_afi) eid rec.eid_mask_len)
        λ prefix. read_record prefix rec rec.locator_count next (read_records n)

-- What a reply says.
pub read_reply : List ℕ → Reading
read_reply pkt =
    read_then (get_map_reply pkt) λ (rep, records). read_records rep.record_count records

-- The tree of prefixes has one of this length and family.
abbrev pub in_tree : Prefix → Bool
in_tree p = leb p.bitlen 128 && (p.family == 2 || p.family == 10)

-- A denial makes a negative or a dropping entry, or a request, as its action says.
abbrev pub spec_denial : Fib → Prefix → ℕ → Fib × List Output
spec_denial f p act =
    if act == 1
    then ((spec_install f p (new_mapnode negative mapttl_default zero_locator)).0, [])
    else (if act == 2
        then (f, map_request p ∷ [])
        else (if act == 3
            then ((spec_install f p (new_mapnode drop mapttl_default zero_locator)).0, [])
            else (f, [])))

abbrev pub refresh : Option MapNode → Option MapNode
refresh none = none
refresh (some mn) = some (record mn { ttl = mapttl_default })

-- A mapping of a prefix that an entry covers refreshes the longest such entry, and what follows is
-- left out. Any other makes an active entry and a route. A prefix that the tree cannot look for, or
-- have, leads to no result.
unfoldable pub spec_apply : Reading → Fib → Option (Fib × List Output)
spec_apply finished f = some (f, [])
spec_apply overrun f = none
spec_apply (denial p act later) f =
    let (f', out) = spec_denial f p act in
    let rest = spec_apply later f' >>= λ (f'', out'). some (f'', out ++ out') in
    if in_tree p || not (act == 1 || act == 3) then rest else none
spec_apply (mapping p ttl loc later) f =
    let entered = override f (key p) (some (new_mapnode active (ttl * 60 % u32) loc)) in
    let rest = spec_apply later entered in
    elim (best_key f p) [
      | some k ↦ if leb p.bitlen 128 then some (override f k (refresh (f k)), []) else none
      | none ↦
          if not (in_tree p)
          then none
          else rest >>= λ (f'', out). some (f'', route (add_route_to_tun p) ∷ out)
    ]

-- ===== src/Map/Receive.antt =====
-- map.c: what a received map reply does to the map table. A place in the message is the list of the
-- bytes from there to the end of the receive buffer; `none` is a read or a step past that end,
-- which the code does not check for, or a prefix that the tree does not take.
pub mod Select
pub mod Reply
pub mod Spec
pub mod Table
use lixy.Base.{
  ℕ, zero, suc, ◌+◌, ◌*◌, ◌%◌, ◌==◌, ltb, leb, ◌&&◌, ◌||◌, if◌then◌else◌, Bool, true, false, Option,
  none, some, List, [], ◌∷◌, ◌++◌, replicate,
}
use lixy.Platform.Patricia.{Patricia}
use lixy.LinkedList.{u32}
use lixy.LinkedList.Pool.{store}
use lixy.Net.{Sockaddr, Prefix, Locator, zero_locator, af_inet, af_inet6}
use lixy.Wire.{LispRecord, get_record, get_locator, get_map_reply, lispafi_to_af, afi_addr_len}
use lixy.Wire.Bytes.{get_bytes}
use lixy.Maptable.{
  Maptable, MapNode, MapState, active, negative, drop, RouteEvent, add_route_to_tun, install,
  search_mapnode, mapttl_default,
}

infixl 5 ◌>>=◌
abbrev pub ◌>>=◌ {ℓ κ} : {A : Type ℓ} {B : Type κ} → Option A → (A → Option B) → Option B
none >>= f = none
some a >>= f = f a

-- What the handler sends out.
pub data Output : Type 0 where
  route : RouteEvent → Output
  map_request : Prefix → Output

abbrev pub zero_prefix : Prefix
zero_prefix = record { family = 0; bitlen = 0; add = replicate 16 0 }

-- ADDRTOPREFIX into a zeroed prefix. An unknown family leaves it as it is.
unfoldable pub addr_to_prefix : Option ℕ → List ℕ → ℕ → Option Prefix
addr_to_prefix none addr len = some zero_prefix
addr_to_prefix (some af) addr len = do
  (add, _) ← get_bytes (if af == af_inet then 4 else 16) addr
  some (record { family = af; bitlen = len; add = add })

-- A zeroed `sockaddr_storage` behind FILL_SOCKADDR and the port. An unknown family leaves zeros.
unfoldable pub fill_sockaddr : Option ℕ → List ℕ → ℕ → Option Sockaddr
fill_sockaddr none addr port =
    some (record { family = 0; port = port; addr = replicate 16 0; rest = replicate 108 0 })
fill_sockaddr (some af) addr port = do
  (bytes, _) ← get_bytes (if af == af_inet then 4 else 16) addr
  some (record {
    family = af;
    port = port;
    addr = bytes;
    rest = replicate (if af == af_inet then 120 else 108) 0;
  })

-- `lisp_locator_pkt_to_locator`
unfoldable pub lisp_locator_pkt_to_locator : List ℕ → Option Locator
lisp_locator_pkt_to_locator lisploc = do
  (l, addr) ← get_locator lisploc
  loc_addr ← fill_sockaddr (lispafi_to_af l.afi) addr 4341
  some (record {
    loc_addr = loc_addr;
    priority = l.priority;
    weight = l.weight;
    m_priority = l.m_priority;
    m_weight = l.m_weight;
  })

-- The loop over the locators of a record: the place of the selected one, and of what follows them.
unfoldable pub select_locator : ℕ → List ℕ → List ℕ → Option (List ℕ × List ℕ)
select_locator zero lisploc tmplisploc = some (lisploc, tmplisploc)
select_locator (suc n) lisploc tmplisploc = do
  (best, _) ← get_locator lisploc
  (tmp, addr) ← get_locator tmplisploc
  (_, next) ← get_bytes (afi_addr_len tmp.afi) addr
  select_locator n (if ltb best.priority tmp.priority then tmplisploc else lisploc) next

abbrev pub new_mapnode : MapState → ℕ → Locator → MapNode
new_mapnode state ttl loc = record {
  ttl = ttl;
  timer = 0;
  state = state;
  addr = loc.loc_addr;
  locator = loc;
}

-- What `assert (prefix->bitlen <= patricia->maxbits)` of the tree lets pass.
abbrev within_maxbits : Prefix → Bool
within_maxbits p = leb p.bitlen 128

-- The families of which New_Prefix2 makes the prefix of a node.
abbrev is_known_family : Prefix → Bool
is_known_family p = p.family == af_inet || p.family == af_inet6

-- Only two actions enter the prefix into the tree.
unfoldable pub takes_denied : Prefix → ℕ → Bool
takes_denied p act = if act == 1 || act == 3 then within_maxbits p && is_known_family p else true

module _ (t : Patricia) where
  -- The switch on `rec->act` of `process_lisp_map_reply_record_loc_is_zero`.
  unfoldable pub negative_action : Maptable t → Prefix → ℕ → Maptable t × List Output
  negative_action rib prefix act =
      if act == 1
      then ((install t rib prefix (new_mapnode negative mapttl_default zero_locator)).0, [])
      else (if act == 2
          then (rib, map_request prefix ∷ [])
          else (if act == 3
              then ((install t rib prefix (new_mapnode drop mapttl_default zero_locator)).0, [])
              else (rib, [])))

  -- The end of a round of `process_lisp_map_reply`. The flag says that the handler returns, since
  -- the table has an entry that covers the prefix.
  unfoldable pub register_locator :
      Maptable t → Prefix → ℕ → Locator → Maptable t × List Output × Bool
  register_locator rib prefix record_ttl loc = elim (search_mapnode t rib prefix) [
    | some mn ↦ (
      record rib {
        mapnodes = store rib.mapnodes mn (record (rib.mapnodes.cell mn) { ttl = mapttl_default });
      },
      [],
      true,
    )
    | none ↦
        let (rib', done) = install t rib prefix (new_mapnode active (record_ttl * 60 % u32) loc) in
        (rib', if done then route (add_route_to_tun prefix) ∷ [] else [], false)
  ]

  -- The prefix is looked for in the tree, and entered if no entry covers it.
  unfoldable pub takes_mapped : Maptable t → Prefix → Bool
  takes_mapped rib p =
      within_maxbits p
      && (is_known_family p || elim (search_mapnode t rib p) [ none ↦ false | some mn ↦ true ])

  abbrev after_record :
      Maptable t × List Output × Bool
      → (Maptable t → Option (Maptable t × List Output))
      → Option (Maptable t × List Output)
  after_record (rib, out, true) later = some (rib, out)
  after_record (rib, out, false) later = do (rib', out') ← later rib; some (rib', out ++ out')

  -- One record, at the place behind its EID prefix, with the number of its locators. `later` is
  -- the rest of the loop. There is no result where the tree asserts, or would get a node without a
  -- prefix.
  unfoldable pub process_record :
      Maptable t
      → Prefix
      → LispRecord
      → ℕ
      → List ℕ
      → (List ℕ → Maptable t → Option (Maptable t × List Output))
      → Option (Maptable t × List Output)
  process_record rib prefix rec zero next later =
      let (rib', out) = negative_action rib prefix rec.act in
      let rest = after_record (rib', out, false) (later next) in
      if takes_denied prefix rec.act then rest else none
  process_record rib prefix rec (suc k) next later = do
    (lisploc, rest) ← select_locator (suc k) next next
    loc ← lisp_locator_pkt_to_locator lisploc
    entered ← some (after_record (register_locator rib prefix rec.record_ttl loc) (later rest))
    if takes_mapped rib prefix then entered else none

  -- The loop over the records, with the number of those that are left.
  unfoldable pub process_records : ℕ → List ℕ → Maptable t → Option (Maptable t × List Output)
  unfolding process_record
  process_records zero pkt rib = some (rib, [])
  process_records (suc n) pkt rib = do
    (rec, eid) ← get_record pkt
    (_, next) ← get_bytes (afi_addr_len rec.eid_prefix_afi) eid
    prefix ← addr_to_prefix (lispafi_to_af rec.eid_prefix_afi) eid rec.eid_mask_len
    process_record rib prefix rec rec.locator_count next (process_records n)

  unfoldable pub process_lisp_map_reply : List ℕ → Maptable t → Option (Maptable t × List Output)
  process_lisp_map_reply pkt rib = do
    (rep, records) ← get_map_reply pkt
    process_records rep.record_count records rib

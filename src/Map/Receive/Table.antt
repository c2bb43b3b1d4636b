-- ===== src/Map/Receive/Table.antt =====
-- What a round of the handler of map replies does to the table, seen as a function.
use mathlib.Core.Path.{fun_ext}
use lixy.Base.{
  if◌then◌else◌, ℕ, zero, suc, subst, ◌≡◌, refl, ap, ◌∙◌, ◌*◌, ◌%◌, ◌==◌, Bool, true, false, Option,
  none, some, List, [], ◌∷◌, ◌++◌, arith, Option-cases, Bool-cases, inl, inr,
}
use lixy.Platform.Patricia.{Patricia, LawfulPatricia, Key, key_eq, key_eq_iff, key}
use lixy.LinkedList.{u32}
use lixy.LinkedList.Pool.{store}
use lixy.Net.{Prefix, Locator}
use lixy.Maptable.{Maptable, MapNode, active, add_route_to_tun, search_mapnode, mapttl_default}
use lixy.Maptable.Fib.{fib, RibInv, override, best_key}
use lixy.Maptable.Fib.Laws.{search_best-best_key, install-refines}
use lixy.Maptable.Fib.Laws.Invariant.{install-RibInv, store-RibInv}
use lixy.Maptable.Fib.Longest.{best_key-none_self}
use lixy.Map.Receive.{
  Output, route, ◌>>=◌, takes_denied, takes_mapped, negative_action, register_locator, new_mapnode,
  after_record, addr_to_prefix, select_locator, lisp_locator_pkt_to_locator, process_record,
  process_records, process_lisp_map_reply,
}
use lixy.Wire.{LispRecord, get_record, get_map_reply, lispafi_to_af, afi_addr_len}
use lixy.Wire.Bytes.{get_bytes}

module _ (t : Patricia) (law : LawfulPatricia t) (r : Maptable t) (v : RibInv t r) where
  -- A mapnode is assigned through the pointer of its node.
  pub fib-store :
      (k : Key) (q : ℕ) (mn : MapNode)
      → t.node_data r.tree k ≡ some q
      → fib t (record r { mapnodes = store r.mapnodes q mn }) ≡ override (fib t r) k (some mn)
  fib-store k q mn e = fun_ext λ j. elim (Bool-cases (key_eq j k)) [
    | inl same ↦ ground (arith, (key_eq_iff j k).0 same)
    | inr other ↦ elim (Option-cases (t.node_data r.tree j)) [
      | inl e' ↦ ground arith
      | inr (q', e') ↦ ground (arith, v.unshared j k q, (key_eq_iff j k).1)
    ]
  ]

  module _ (p : Prefix) (ttl : ℕ) (loc : Locator) where
    -- In a well-formed table with an entry that covers the prefix, a reply with locators changes the time to live of that
    -- entry and nothing else, sends nothing, and ends the handler: a queried entry stays queried.
    pub register_covered :
        (k : Key) (mn : MapNode)
        → best_key (fib t r) p ≡ some k
        → fib t r k ≡ some mn
        → let (r', out, stop) = register_locator t r p ttl loc in
          (fib t r' ≡ override (fib t r) k (some (record mn { ttl = mapttl_default })))
          × (out ≡ [])
          × (stop ≡ true)
    unfolding register_locator search_mapnode
    register_covered k mn best here = elim (Option-cases (t.node_data r.tree k)) [
      | inl e ↦ absurd (ground arith)
      | inr (q, e) ↦
          let found : search_mapnode t r p ≡ some q =
            rw (search_best-best_key t law r v p, best, search_mapnode) e in
          rw (found, register_locator) (fib-store k q _ e ∙ ground arith, refl, refl)
    ]

    -- In a well-formed table with no entry that covers the prefix, a reply with locators makes an active one for exactly its prefix, with the locator's
    -- address and sixty seconds for each minute of the record, and routes the prefix to the tunnel.
    pub register_uncovered :
        best_key (fib t r) p ≡ none
        → let (r', out, stop) = register_locator t r p ttl loc in
          (fib t r' ≡ override (fib t r) (key p) (some (new_mapnode active (ttl * 60 % u32) loc)))
          × (out ≡ route (add_route_to_tun p) ∷ [])
          × (stop ≡ false)
    unfolding register_locator search_mapnode
    register_uncovered best =
        let none_here = best_key-none_self (fib t r) p best in
        let entered = install-refines t law r v p (new_mapnode active (ttl * 60 % u32) loc) in
        let missed : search_mapnode t r p ≡ none =
          rw (search_best-best_key t law r v p, best, search_mapnode) refl in
        rw (missed, register_locator)
          (
            ap (λ o. o.0) entered ∙ rw none_here refl,
            rw (ap (λ o. o.1) entered, none_here) refl,
            refl,
          )

  pub register_locator-RibInv :
      (p : Prefix) (ttl : ℕ) (loc : Locator) → RibInv t (register_locator t r p ttl loc).0
  unfolding register_locator
  register_locator-RibInv p ttl loc = elim (Option-cases (search_mapnode t r p)) [
    | inl e ↦ rw (e, register_locator) (install-RibInv t law r v p _)
    | inr (q, e) ↦ rw (e, register_locator) (store-RibInv t law r q _ v)
  ]

  pub negative_action-RibInv : (p : Prefix) (act : ℕ) → RibInv t (negative_action t r p act).0
  unfolding negative_action
  negative_action-RibInv p act = elim (Bool-cases (act == 1)) [
    | inl e ↦ rw (e, negative_action) (install-RibInv t law r v p _)
    | inr e ↦ elim (Bool-cases (act == 2)) [
      | inl e' ↦ rw (e, e', negative_action) v
      | inr e' ↦ elim (Bool-cases (act == 3)) [
        | inl e'' ↦ rw (e, e', e'', negative_action) (install-RibInv t law r v p _)
        | inr e'' ↦ rw (e, e', e'', negative_action) v
      ]
    ]
  ]

module _ (t : Patricia) (law : LawfulPatricia t) where
  -- If there is a result, its table is well formed.
  abbrev pub Keeps : Option (Maptable t × List Output) → Type 0
  Keeps none = Unit
  Keeps (some (r, out)) = RibInv t r

  then-Keeps :
      {A : Type 0} (m : Option A) (f : A → Option (Maptable t × List Output))
      → ((a : A) → Keeps (f a))
      → Keeps (m >>= f)
  then-Keeps none f h = tt
  then-Keeps (some a) f h = h a

  more-Keeps :
      (o : Option (Maptable t × List Output)) (out : List Output)
      → Keeps o
      → Keeps (o >>= λ p. some (p.0, out ++ p.1))
  more-Keeps none out h = tt
  more-Keeps (some (r, _)) out h = h

  after_record-Keeps :
      (o : Maptable t × List Output × Bool) (later : Maptable t → Option (Maptable t × List Output))
      → RibInv t o.0
      → ((r : Maptable t) → RibInv t r → Keeps (later r))
      → Keeps (after_record t o later)
  after_record-Keeps (r, out, true) later v h = v
  after_record-Keeps (r, out, false) later v h = more-Keeps (later r) out (h r v)

  guarded-Keeps :
      (b : Bool) (o : Option (Maptable t × List Output)) → Keeps o → Keeps (if b then o else none)
  guarded-Keeps true o h = h
  guarded-Keeps false o h = tt

  process_record-Keeps :
      (r : Maptable t) (p : Prefix) (rec : LispRecord) (count : ℕ) (next : List ℕ)
      (later : List ℕ → Maptable t → Option (Maptable t × List Output))
      → RibInv t r
      → ((pkt : List ℕ) (r' : Maptable t) → RibInv t r' → Keeps (later pkt r'))
      → Keeps (process_record t r p rec count next later)
  unfolding process_record
  process_record-Keeps r p rec zero next later v h =
      let o = negative_action t r p rec.act in
      guarded-Keeps (takes_denied p rec.act) _ (
        after_record-Keeps (o.0, o.1, false) (later next)
          (negative_action-RibInv t law r v p rec.act) (h next))
  process_record-Keeps r p rec (suc k) next later v h =
      then-Keeps (select_locator (suc k) next next) _ λ (lisploc, rest).
        then-Keeps (lisp_locator_pkt_to_locator lisploc) _ λ loc.
          guarded-Keeps (takes_mapped t r p) _ (
            after_record-Keeps (register_locator t r p rec.record_ttl loc) (later rest)
              (register_locator-RibInv t law r v p rec.record_ttl loc) (h rest))

  process_records-Keeps :
      (n : ℕ) (pkt : List ℕ) (r : Maptable t) → RibInv t r → Keeps (process_records t n pkt r)
  unfolding process_records
  process_records-Keeps zero pkt r v = v
  process_records-Keeps (suc n) pkt r v = then-Keeps (get_record pkt) _ λ (rec, eid).
      then-Keeps (get_bytes (afi_addr_len rec.eid_prefix_afi) eid) _ λ (_, next).
        then-Keeps (addr_to_prefix (lispafi_to_af rec.eid_prefix_afi) eid rec.eid_mask_len) _
          λ prefix.
            process_record-Keeps r prefix rec rec.locator_count next (process_records t n) v
              (process_records-Keeps n)

  -- A map reply, well formed or not, keeps a well-formed map table well formed, if it is read within
  -- the buffer.
  pub process_lisp_map_reply-RibInv :
      (pkt : List ℕ) (r r' : Maptable t) (out : List Output)
      → RibInv t r
      → process_lisp_map_reply t pkt r ≡ some (r', out)
      → RibInv t r'
  unfolding process_lisp_map_reply
  process_lisp_map_reply-RibInv pkt r r' out v e = subst Keeps e (
      then-Keeps (get_map_reply pkt) _
        λ (rep, records). process_records-Keeps rep.record_count records r v)

-- ===== src/Maptable/Routes.antt =====
-- Static routes and the lifetime of an entry, from `install` to a search.
use lixy.Base.{
  ℕ, ◌≤◌, ◌⊎◌, ◌≡◌, refl, ap, sym, ◌∙◌, ◌+◌, ◌-◌, ◌%◌, if◌then◌else◌, Bool, true, false, Option,
  none, some, List, [], ◌∷◌, arith, Option-cases, Bool-cases, inl, inr,
}
use lixy.Platform.Patricia.{Patricia, LawfulPatricia, Key, cut, key, key_eq_refl}
use lixy.LinkedList.{u32}
use lixy.Net.{Prefix, Sockaddr}
use lixy.Maptable.{
  MapState, active, negative, drop, queried, static, Maptable, MapNode, RouteEvent,
  del_route_to_tun, update_mapnode, install, delete_mapnode, search_mapnode, install_mapnode_static,
  static_mapnode, uninstall_mapnode_static, is_learned,
}
use lixy.Maptable.Fib.{
  present, Fib, fib, fetch, RibInv, override, best_key, spec_search, spec_delete, holds_static,
}
use lixy.Maptable.Fib.Laws.{
  search_best-best_key, search_mapnode-refines, fib-delete_mapnode, install-refines,
}
use lixy.Maptable.Fib.Laws.Invariant.{install-RibInv}
use lixy.Maptable.Fib.Longest.{IsLongest, best_key-cases, spec_search-override, longest_self}

-- The entries that are not taken away.
abbrev pub is_refused : MapState → Bool
is_refused active = true
is_refused queried = true
is_refused static = false
is_refused negative = false
is_refused drop = false

is_learned-is_refused : (state : MapState) → is_learned state ≡ is_refused state
is_learned-is_refused active = refl
is_learned-is_refused queried = refl
is_learned-is_refused static = refl
is_learned-is_refused negative = refl
is_learned-is_refused drop = refl

uninstall_found : Fib → Prefix → Option MapNode → Fib × Bool × List RouteEvent
uninstall_found f p none = (f, false, [])
uninstall_found f p (some mn) =
    if is_refused mn.state then (f, false, []) else (spec_delete f p, true, del_route_to_tun p ∷ [])

-- `uninstall_mapnode_static` on the function view. It deletes what a search finds.
pub spec_uninstall : Fib → Prefix → Fib × Bool × List RouteEvent
unfolding uninstall_found
spec_uninstall f p = uninstall_found f p (spec_search f p)

module _ (t : Patricia) (law : LawfulPatricia t) (r : Maptable t) (v : RibInv t r)
    (p : Prefix) where
  -- In a well-formed table, uninstalling acts on what a longest prefix match finds: an active or
  -- queried entry is refused, any other is deleted, and the route of the prefix with it.
  pub uninstall-refines :
      let (r', done, events) = uninstall_mapnode_static t r p in
      ◌≡◌ {A = Fib × Bool × List RouteEvent} (fib t r', done, events) (spec_uninstall (fib t r) p)
  unfolding uninstall_mapnode_static spec_uninstall
  uninstall-refines = elim (Option-cases (search_mapnode t r p)) [
    | inl e ↦
        let miss = sym (search_mapnode-refines t law r v p) ∙ ap (fetch t r) e in
        rw (e, uninstall_mapnode_static) (rw (miss, uninstall_found) refl)
    | inr (q, e) ↦
        let hit = sym (search_mapnode-refines t law r v p) ∙ ap (fetch t r) e in
        rw (e, uninstall_mapnode_static)
          (rw (hit, uninstall_found)
            (elim (Bool-cases (is_refused (r.mapnodes.cell q).state)) [
              | inl l ↦ rw (is_learned-is_refused (r.mapnodes.cell q).state, l) refl
              | inr l ↦
                  rw (is_learned-is_refused (r.mapnodes.cell q).state, l)
                    (ap (λ f. (f, true, del_route_to_tun p ∷ [])) (fib-delete_mapnode t law r v p))
            ]))
  ]

  -- After an entry was installed in a well-formed table for a prefix without a static one, a search
  -- for the prefix finds it, whatever else is in the table.
  pub search-install :
      (mn : MapNode)
      → holds_static (fib t r (key p)) ≡ false
      → let r' = (install t r p mn).0 in fetch t r' (search_mapnode t r' p) ≡ some mn
  search-install mn free =
      search_mapnode-refines t law _ (install-RibInv t law r v p mn) p
      ∙ ap (λ f. spec_search f p) (ap (λ o. o.0) (install-refines t law r v p mn) ∙ rw free refl)
      ∙ spec_search-override (fib t r) p mn

  -- In a well-formed table, a static entry of a prefix is not replaced by a further static route,
  -- and no route is sent to the kernel.
  pub install_static_held :
      (addr : Sockaddr)
      → holds_static (fib t r (key p)) ≡ true
      → let (r', events) = install_mapnode_static t r p addr in (fib t r' ≡ fib t r) × (events ≡ [])
  unfolding install_mapnode_static
  install_static_held addr held =
      let e = install-refines t law r v p (static_mapnode addr) in
      (ap (λ o. o.0) e ∙ rw held refl, rw (ap (λ o. o.1) e, held) refl)

  -- In a well-formed table, `uninstall_mapnode_static` takes away the longest covering entry, be it
  -- that of a shorter prefix, if that is not active or queried, and reports success.
  pub uninstall_covering :
      (k : Key) (mn : MapNode)
      → best_key (fib t r) p ≡ some k
      → fib t r k ≡ some mn
      → is_refused mn.state ≡ false
      → let (r', done, events) = uninstall_mapnode_static t r p in
        (fib t r' ≡ override (fib t r) k none) × (done ≡ true) × (events ≡ del_route_to_tun p ∷ [])
  unfolding spec_uninstall uninstall_found
  uninstall_covering k mn best here free =
      let goes : spec_uninstall (fib t r) p
          ≡ (override (fib t r) k none, true, del_route_to_tun p ∷ []) =
        rw (best, here, uninstall_found) (rw (free, best) refl) in
      let e = uninstall-refines ∙ goes in (ap (λ o. o.0) e, ap (λ o. o.1) e, ap (λ o. o.2) e)

module _ (t : Patricia) (law : LawfulPatricia t) (r : Maptable t) (p : Prefix) (mn : MapNode) where
  install-count : (install t r p mn).0.count ≡ r.count
  unfolding install update_mapnode
  install-count = ground arith

  has_node-install : t.has_node (install t r p mn).0.tree (key p) ≡ true
  unfolding install update_mapnode
  has_node-install =
      let there : t.has_node (t.patricia_lookup r.tree p) (key p) ≡ true =
        law.has-lookup r.tree p (key p) ∙ rw key_eq_refl refl in
      ground (
        arith,
        law.has-set_data (t.patricia_lookup r.tree p) (key p) (some r.mapnodes.next) (key p),
      )

  -- `count` is lowered by a deletion and never raised: an entry that is put in and deleted again
  -- leaves it one lower, modulo 2 ^ 32.
  pub count_install_delete :
      (delete_mapnode t (install t r p mn).0 p).0.count ≡ (r.count + (u32 - 1)) % u32
  unfolding delete_mapnode
  count_install_delete =
      let r' = (install t r p mn).0 in
      let best : t.patricia_search_best r'.tree p ≡ some (key p) =
        law.search_best_longest r'.tree p
        ∙ longest_self (t.has_node r'.tree) p p.bitlen has_node-install in
      rw (best, delete_mapnode) (rw install-count refl)

-- In a well-formed table, a search finds the entry of the longest prefix in the table that covers the given one, and finds
-- nothing only if no prefix in the table covers it.
pub search_mapnode-IsLongest :
    (t : Patricia) (law : LawfulPatricia t) (r : Maptable t) (v : RibInv t r) (p : Prefix)
    → let has = λ (k : Key). present (fib t r k) in
      ((search_mapnode t r p ≡ none) × ((l : ℕ) → l ≤ p.bitlen → has (cut p l) ≡ false))
      ⊎ ((m : ℕ) × (fetch t r (search_mapnode t r p) ≡ fib t r (cut p m))
          × IsLongest has p p.bitlen m)
unfolding search_mapnode
search_mapnode-IsLongest t law r v p = elim (best_key-cases (fib t r) p) [
  | inl (e, nothing) ↦ inl (rw (search_best-best_key t law r v p, e, search_mapnode) refl, nothing)
  | inr (m, e, g) ↦ inr (m, search_mapnode-refines t law r v p ∙ rw e refl, g)
]

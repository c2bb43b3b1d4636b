-- ===== src/DataPlane/Learn.antt =====
-- What the thread that watches raw packets does to the map table.
use lixy.Base.{
  ℕ, ◌≡◌, refl, ap, subst, ◌∙◌, Option, none, some, List, [], ◌∷◌, Option-cases, inl, inr,
}
use lixy.Platform.Patricia.{Patricia, LawfulPatricia, key}
use lixy.Net.{Prefix}
use lixy.Maptable.{Maptable, MapNode, queried, search_mapnode, install_mapnode_queried}
use lixy.Maptable.Fib.{fib, fetch, RibInv, override, spec_search, best_key}
use lixy.Maptable.Fib.Laws.{search_best-best_key, search_mapnode-refines, install-refines}
use lixy.Maptable.Fib.Laws.Invariant.{install-RibInv}
use lixy.Maptable.Fib.Longest.{best_key-none_self}
use lixy.Maptable.Routes.{search-install}
use lixy.Map.Receive.{Output, map_request}
use lixy.Netlink.{RouteMessage}
use lixy.DataPlane.{watched_prefix, ask_for, lisp_raw_packet}

module _ (t : Patricia) (law : LawfulPatricia t) (kernel : List ℕ → Option (List RouteMessage))
    (stack : List ℕ × List ℕ) (fresh : MapNode) where
  abbrev raw_packet : Maptable t → List ℕ → Option (Maptable t × List Output)
  raw_packet = lisp_raw_packet t kernel stack fresh

  known_quiet :
      (r : Maptable t) (buf : List ℕ) (p : Prefix) (q : ℕ)
      → watched_prefix t kernel stack fresh buf ≡ some (some p)
      → search_mapnode t r p ≡ some q
      → raw_packet r buf ≡ some (r, [])
  unfolding lisp_raw_packet ask_for
  known_quiet r buf p q seen e = rw (seen, e, ask_for) refl

  fetched :
      (r : Maptable t) (o : Option ℕ) (mn : MapNode)
      → fetch t r o ≡ some mn
      → (q : ℕ) × (o ≡ some q)
  fetched r none mn e = absurd (cc e)
  fetched r (some q) mn e = (q, refl)

  -- Any frame that is read within its buffer keeps a well-formed map table well formed.
  pub lisp_raw_packet-RibInv :
      (r r' : Maptable t) (buf : List ℕ) (out : List Output)
      → RibInv t r
      → raw_packet r buf ≡ some (r', out)
      → RibInv t r'
  unfolding lisp_raw_packet ask_for install_mapnode_queried
  lisp_raw_packet-RibInv r r' buf out v h =
      subst Kept h (elim (Option-cases (watched_prefix t kernel stack fresh buf)) [
        | inl e ↦ rw (e, lisp_raw_packet) tt
        | inr (dst, e) ↦ rw (e, lisp_raw_packet) (asked dst)
      ])
    where
      Kept : Option (Maptable t × List Output) → Type 0
      Kept none = Unit
      Kept (some (r'', _)) = RibInv t r''

      asked : (dst : Option Prefix) → RibInv t (ask_for t kernel stack fresh r dst).0
      asked none = v
      asked (some p) = elim (Option-cases (search_mapnode t r p)) [
        | inl e ↦ rw (e, ask_for) (install-RibInv t law r v p (record fresh { state = queried }))
        | inr (q, e) ↦ rw (e, ask_for) v
      ]

  module _ (r : Maptable t) (v : RibInv t r) (buf : List ℕ) (p : Prefix)
      (seen : watched_prefix t kernel stack fresh buf ≡ some (some p)) where
    -- In a well-formed table, a frame to a destination that is not on a link and that some entry
    -- covers, of whatever state, changes nothing and asks nothing.
    pub raw_packet-covered :
        (mn : MapNode) → spec_search (fib t r) p ≡ some mn → raw_packet r buf ≡ some (r, [])
    raw_packet-covered mn found =
        let (q, e) =
          fetched r (search_mapnode t r p) mn (search_mapnode-refines t law r v p ∙ found) in
        known_quiet r buf p q seen e

    -- In a well-formed table, a frame to a destination that is not on a link and that no entry covers
    -- asks the map servers for the destination, once: it gets a queried entry for its full
    -- length, the table stays well-formed, and the same frame changes and asks nothing afterwards.
    pub raw_packet-uncovered :
        best_key (fib t r) p ≡ none
        → (r' : Maptable t) × (raw_packet r buf ≡ some (r', map_request p ∷ []))
          × RibInv t r'
          × (fib t r' ≡ override (fib t r) (key p) (some (record fresh { state = queried })))
          × (raw_packet r' buf ≡ some (r', []))
    unfolding lisp_raw_packet ask_for install_mapnode_queried search_mapnode
    raw_packet-uncovered missing =
        let mn : MapNode = record fresh { state = queried } in
        let r' = install_mapnode_queried t fresh r p in
        let free = best_key-none_self (fib t r) p missing in
        let entries : fib t r' ≡ override (fib t r) (key p) (some mn) =
          ap (λ o. o.0) (install-refines t law r v p mn) ∙ rw free refl in
        let held = search-install t law r v p mn (rw free refl) in
        let (q, e) = fetched r' (search_mapnode t r' p) mn held in
        let missed : search_mapnode t r p ≡ none =
          rw (search_best-best_key t law r v p, missing, search_mapnode) refl in
        (
          r',
          rw (seen, missed, ask_for) refl,
          install-RibInv t law r v p mn,
          entries,
          known_quiet r' buf p q seen e,
        )

-- ===== src/Control/Eids/Spec/Sites.antt =====
-- The EIDs of instance.c with their prefixes, as the plain data of the specification.
use lixy.Base.{ℕ, ◌≡◌, refl, sym, ap, ◌∙◌, Option, none, some, List, All-map, map, ◌⊎◌, inl, inr}
use lixy.Platform.{UtList, LawfulUtList}
use lixy.LinkedList.Pool.{Pool, malloc, store}
use lixy.LinkedList.Search.{find}
use lixy.LinkedList.Mapped.{find-map, modify_first-map, map-agree}
use lixy.LinkedList.Unlike.{All-find}
use lixy.LinkedList.Owned.{contents, search_listnode-cases, contents-malloc, contents-store}
use lixy.Net.{Prefix}
use lixy.State.{Tuples, Eid, eid_list}
use lixy.Control.{ReturnType}
use lixy.Control.Eids.{compare_eid, search_eid}
use lixy.Control.Eids.Laws.{EidInv, PrefixInv}
use lixy.Control.Eids.Spec.{Site, is_site, SpecOutcome, changed}

module _ (u : UtList) where
  abbrev pub site_of : Pool Prefix → Eid u → Site
  site_of pool e = record {
    name = e.name;
    authkey = e.authkey;
    prefixes = contents u pool e.prefix_tuple;
  }

  -- The EIDs with their prefixes.
  abbrev pub sites : Tuples u → List Site
  sites s = map (site_of s.prefixes) (eid_list u s)

  abbrev pub seen_sites : Option (Tuples u × ReturnType) → SpecOutcome
  seen_sites none = none
  seen_sites (some (s, r)) = some (sites s, r)

  abbrev pub outcome : Tuples u × ReturnType → List Site × ReturnType
  outcome (s', r) = (sites s', r)

module _ (u : UtList) (law : LawfulUtList u) (s : Tuples u) (v : EidInv u s) where
  pub search_eid-cases :
      (name : List ℕ)
      → ((search_eid u s name ≡ none) × (find (is_site name) (sites u s) ≡ none))
        ⊎ ((p : ℕ) × (search_eid u s name ≡ some p)
            × (find (is_site name) (sites u s) ≡ some (site_of u s.prefixes (s.eids.cell p)))
            × PrefixInv u s.prefixes (s.eids.cell p))
  unfolding compare_eid
  search_eid-cases name =
      let views = find-map (is_site name) (site_of u s.prefixes) (eid_list u s) in
      elim (search_listnode-cases u law s.eids s.eid_tuple (compare_eid u name)) [
        | inl (miss, gone) ↦ inl (miss, views ∙ rw gone refl)
        | inr (p, hit, found) ↦ inr (
          p,
          hit,
          views ∙ rw found refl,
          All-find (PrefixInv u s.prefixes) (compare_eid u name) (eid_list u s) found v.each,
        )
      ]

  -- A prefix that is new in the pool is seen at no EID.
  pub sites-malloc :
      (prefix : Prefix) → map (site_of u (malloc s.prefixes prefix)) (eid_list u s) ≡ sites u s
  sites-malloc prefix = map-agree _ _ (eid_list u s) (
      All-map (PrefixInv u s.prefixes) _
        (λ e i.
          ap (λ l. record { name = e.name; authkey = e.authkey; prefixes = l })
            (contents-malloc u law s.prefixes e.prefix_tuple prefix i.owned))
        (eid_list u s) v.each)

  -- An EID that was found is replaced.
  pub sites-store :
      (pool : Pool Prefix) (name : List ℕ) (p : ℕ) (e : Eid u)
      → search_eid u s name ≡ some p
      → map (site_of u pool) (eid_list u s) ≡ sites u s
      → sites u (record s { eids = store s.eids p e; prefixes = pool })
        ≡ changed (sites u s) name (site_of u pool e)
  unfolding compare_eid
  sites-store pool name p e hit same =
      ap (map (site_of u pool)) (
        contents-store u law s.eids s.eid_tuple (compare_eid u name) (λ (_ : Eid u). e) hit v.owned)
      ∙ sym (modify_first-map (is_site name) (site_of u pool) e (eid_list u s))
      ∙ ap (λ l. changed l name (site_of u pool e)) same

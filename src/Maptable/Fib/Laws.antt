-- ===== src/Maptable/Fib/Laws.antt =====
-- maptable.c implements the function view of the map table.
pub mod Invariant
use mathlib.Core.Path.{fun_ext}
use lixy.Base.{
  ◌≡◌, refl, ap, ◌∙◌, if◌then◌else◌, Bool, true, false, some, arith, Option-cases, Bool-cases, ◌⊎◌,
  inl, inr,
}
use lixy.Platform.Patricia.{Patricia, LawfulPatricia, Key, key_eq, key_eq_refl, key, longest}
use lixy.LinkedList.Pool.{malloc}
use lixy.Net.{Prefix}
use lixy.Maptable.{
  Maptable, MapNode, is_static, update_mapnode, install, delete_mapnode, search_mapnode,
}
use lixy.Maptable.Fib.{
  Fib, present, override, best_key, spec_search, Fib, holds_static, spec_install, spec_delete,
  fetch, fib, RibInv,
}

module _ (t : Patricia) (law : LawfulPatricia t) (r : Maptable t) (v : RibInv t r) where
  has_node-present : (k : Key) → t.has_node r.tree k ≡ present (fib t r k)
  has_node-present k = ground (arith, v.full k, law.data_of_none r.tree k)

  pub search_best-best_key : (p : Prefix) → t.patricia_search_best r.tree p ≡ best_key (fib t r) p
  unfolding best_key
  search_best-best_key p =
      law.search_best_longest r.tree p ∙ ap (λ h. longest h p p.bitlen) (fun_ext has_node-present)

  -- A search gives the mapnode of the longest prefix in the table that covers the given one.
  pub search_mapnode-refines :
      (p : Prefix) → fetch t r (search_mapnode t r p) ≡ spec_search (fib t r) p
  unfolding search_mapnode
  search_mapnode-refines p = ground (arith, search_best-best_key p)

  -- In a well-formed table, deleting takes away the entry that a longest prefix match of the prefix finds, and no other.
  pub fib-delete_mapnode : (p : Prefix) → fib t (delete_mapnode t r p).0 ≡ spec_delete (fib t r) p
  unfolding delete_mapnode
  fib-delete_mapnode p = elim (Option-cases (best_key (fib t r) p)) [
    | inl e ↦ rw (search_best-best_key p, e, delete_mapnode) refl
    | inr (j, e) ↦
        rw (search_best-best_key p, e, delete_mapnode)
          (fun_ext λ k. ground (arith, law.data-remove r.tree j k))
  ]

  module _ (p : Prefix) (mn : MapNode) where
    -- A new mapnode disturbs no entry.
    fetch-malloc :
        (k : Key)
        → fetch t (record r { mapnodes = malloc r.mapnodes mn }) (t.node_data r.tree k) ≡ fib t r k
    fetch-malloc k = elim (Option-cases (t.node_data r.tree k)) [
      | inl e ↦ ground arith
      | inr (q, e) ↦ ground (arith, v.allocated k q e)
    ]

    written : Maptable t
    written = record r {
      tree = t.set_data (t.patricia_lookup r.tree p) (key p) (some r.mapnodes.next);
      mapnodes = malloc r.mapnodes mn;
    }

    data-written :
        (k : Key)
        → t.node_data written.tree k
          ≡ (if key_eq k (key p) then some r.mapnodes.next else t.node_data r.tree k)
    unfolding written
    data-written k =
        law.data-set_data _ (key p) (some r.mapnodes.next) k
          (law.has-lookup r.tree p (key p) ∙ rw key_eq_refl)
        ∙ rw law.data-lookup

    fib-written : fib t written ≡ override (fib t r) (key p) (some mn)
    unfolding written
    fib-written = fun_ext λ k. elim (Bool-cases (key_eq k (key p))) [
      | inl e ↦ rw (data-written k) (ground arith)
      | inr e ↦ rw (data-written k, e) (fetch-malloc k)
    ]

    -- The table after a refusal.
    refused : Maptable t
    refused = record r { tree = t.patricia_lookup r.tree p; mapnodes = malloc r.mapnodes mn }

    install-cases :
        ((holds_static (fib t r (key p)) ≡ false) × (install t r p mn ≡ (written, true)))
        ⊎ ((holds_static (fib t r (key p)) ≡ true)
            × (install t r p mn ≡ (refused, false))
            × (t.has_node r.tree (key p) ≡ true))
    unfolding install update_mapnode written refused
    install-cases = elim (Option-cases (t.node_data r.tree (key p))) [
      | inl e ↦ inl (rw e refl, rw (law.data-lookup, e, install, update_mapnode) refl)
      | inr (q, e) ↦ elim (Bool-cases (is_static (r.mapnodes.cell q).state)) [
        | inl h ↦ inr (
          rw e h,
          ground (arith, law.data-lookup r.tree p (key p), v.allocated (key p) q e),
          ground (arith, law.data_of_none r.tree (key p)),
        )
        | inr h ↦
            inl (rw e h, ground (arith, law.data-lookup r.tree p (key p), v.allocated (key p) q e))
      ]
    ]

    fib-refused : t.has_node r.tree (key p) ≡ true → fib t refused ≡ fib t r
    unfolding refused
    fib-refused h = fun_ext λ k. rw law.data-lookup (fetch-malloc k)

    -- In a well-formed table, installing an entry replaces the entry of that very prefix unless that
    -- is static, and touches no other.
    pub install-refines :
        ◌≡◌ {A = Fib × Bool}
          (fib t (install t r p mn).0, (install t r p mn).1)
          (spec_install (fib t r) p mn)
    install-refines = elim install-cases [
      | inl (free, e) ↦ rw (free, e) (ap (λ f. (f, true)) fib-written)
      | inr (held, e, h) ↦ rw (held, e) (ap (λ f. (f, false)) (fib-refused h))
    ]

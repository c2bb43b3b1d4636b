-- ===== src/Maptable/Fib/Laws/Invariant.antt =====
-- The map table stays well formed.
use lixy.Base.{ℕ, ◌≡◌, sym, ◌∙◌, true, arith, Option-cases, Bool-cases, inl, inr, subst}
use lixy.Platform.Patricia.{Patricia, LawfulPatricia, key_eq, key_eq_iff, key}
use lixy.LinkedList.Pool.{Pool, store}
use lixy.Net.{Prefix}
use lixy.Maptable.{Maptable, MapNode, create_maptable, install, delete_mapnode}
use lixy.Maptable.Fib.{RibInv}
use lixy.Maptable.Fib.Laws.{written, refused, data-written, install-cases}

module _ (t : Patricia) (law : LawfulPatricia t) where
  pub create_maptable-RibInv : (pool : Pool MapNode) → RibInv t (create_maptable t pool)
  unfolding create_maptable
  create_maptable-RibInv pool = record {
    full = λ k h. absurd (cc (law.has-new k));
    allocated = λ k q e. absurd (cc (law.data_of_none t.new_patricia k (law.has-new k)));
    unshared = λ j k q e. absurd (cc (law.data_of_none t.new_patricia j (law.has-new j)));
  }

  -- An assignment to a mapnode through its pointer.
  pub store-RibInv :
      (r : Maptable t) (q : ℕ) (mn : MapNode)
      → RibInv t r
      → RibInv t (record r { mapnodes = store r.mapnodes q mn })
  store-RibInv r q mn v = record { full = v.full; allocated = v.allocated; unshared = v.unshared }

  -- A deletion keeps a well-formed map table well formed.
  pub delete_mapnode-RibInv :
      (r : Maptable t) (p : Prefix) → RibInv t r → RibInv t (delete_mapnode t r p).0
  unfolding delete_mapnode
  delete_mapnode-RibInv r p v = elim (Option-cases (t.patricia_search_best r.tree p)) [
    | inl e ↦ rw (e, delete_mapnode) v
    | inr (j, e) ↦
        rw (e, delete_mapnode)
          (record {
            full = λ k.
                ground (arith, law.data-remove r.tree j k, law.has-remove r.tree j k, v.full k);
            allocated = λ k q. ground (arith, law.data-remove r.tree j k, v.allocated k q);
            unshared = λ i k q.
                ground
                  (arith, law.data-remove r.tree j i, law.data-remove r.tree j k, v.unshared i k q);
          })
  ]

module _ (t : Patricia) (law : LawfulPatricia t) (r : Maptable t) (v : RibInv t r) (p : Prefix)
    (mn : MapNode) where
  written-RibInv : RibInv t (written t law r v p mn)
  unfolding written
  written-RibInv = record {
    full = λ k h e. elim (Bool-cases (key_eq k (key p))) [
      | inl same ↦ cc (data-written t law r v p mn k)
      | inr other ↦
          v.full k (rw (law.has-set_data, law.has-lookup, other) at h)
            (sym (data-written t law r v p mn k ∙ rw other) ∙ e)
    ];
    allocated = λ k q e. elim (Bool-cases (key_eq k (key p))) [
      | inl same ↦ ground (arith, data-written t law r v p mn k)
      | inr other ↦ ground (arith, data-written t law r v p mn k, v.allocated k q)
    ];
    unshared = λ j k q e e'. elim (Bool-cases (key_eq j (key p))) [
      | inl same ↦ elim (Bool-cases (key_eq k (key p))) [
        | inl same' ↦ (key_eq_iff j (key p)).0 same ∙ sym ((key_eq_iff k (key p)).0 same')
        | inr other' ↦ absurd (
            ground (
              arith,
              data-written t law r v p mn j,
              data-written t law r v p mn k,
              v.allocated k q,
            ))
      ]
      | inr other ↦ elim (Bool-cases (key_eq k (key p))) [
        | inl same' ↦ absurd (
            ground (
              arith,
              data-written t law r v p mn j,
              data-written t law r v p mn k,
              v.allocated j q,
            ))
        | inr other' ↦
            v.unshared j k q (sym (data-written t law r v p mn j ∙ rw other) ∙ e)
              (sym (data-written t law r v p mn k ∙ rw other') ∙ e')
      ]
    ];
  }

  refused-RibInv : t.has_node r.tree (key p) ≡ true → RibInv t (refused t law r v p mn)
  unfolding refused
  refused-RibInv h = record {
    full = λ k e. rw law.data-lookup (
        v.full k (elim (Bool-cases (key_eq k (key p))) [
          | inl same ↦
              subst (λ j. t.has_node r.tree j ≡ true) (sym ((key_eq_iff k (key p)).0 same)) h
          | inr other ↦ rw (law.has-lookup, other) at e
        ]));
    allocated = λ k q e. ground (arith, v.allocated k q (rw law.data-lookup at e));
    unshared = λ j k q e e'. v.unshared j k q (rw law.data-lookup at e) (rw law.data-lookup at e');
  }

  -- Installing an entry keeps a well-formed map table well formed, also when the entry is refused.
  pub install-RibInv : RibInv t (install t r p mn).0
  install-RibInv = elim (install-cases t law r v p mn) [
    | inl (free, e) ↦ rw e written-RibInv
    | inr (held, e, h) ↦ rw e (refused-RibInv h)
  ]

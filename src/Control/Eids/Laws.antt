-- ===== src/Control/Eids/Laws.antt =====
-- What the `eid` commands keep true of the EIDs.
pub mod Effect
use mathlib.Core.Path.{fun_ext}
use lixy.Base.{
  ℕ, zero, suc, ◌≡◌, refl, sym, ap, ◌∙◌, subst, Bool, none, some, List, [], ◌∷◌, All, All-map,
  All-append, take, bytes_eq,
}
use lixy.Platform.{UtList, LawfulUtList}
use lixy.LinkedList.{append_listnode, delete_listnode}
use lixy.LinkedList.Pool.{Pool, malloc, store}
use lixy.LinkedList.Search.{find}
use lixy.LinkedList.Unlike.{
  Unlike, Unlike-append, Unlike-remove_first, Unlike-modify_first, All-remove_first,
  All-modify_first,
}
use lixy.LinkedList.Owned.{
  IsOwned, contents, search_listnode-find, contents-append_listnode, append_listnode-IsOwned,
  contents-malloc, malloc-IsOwned, contents-delete_listnode, delete_listnode-IsOwned,
  contents-store, store-IsOwned, create_list-IsOwned, contents-create_list,
}
use lixy.Net.{Prefix, compare_prefix}
use lixy.State.{Tuples, Eid, eid_list, lisp_eid_name_len}
use lixy.Instance.{create_eid_instance}
use lixy.Control.Eids.{compare_eid, search_eid}

module _ (u : UtList) where
  -- Two EIDs have the same name, as `compare_eid` sees it.
  abbrev pub same_name : Eid u → Eid u → Bool
  same_name e = compare_eid u e.name

  -- An EID's list of prefixes is well formed, and holds no prefix twice.
  pub record PrefixInv (pool : Pool Prefix) (e : Eid u) : Type 0 where
    pub owned : IsOwned u pool e.prefix_tuple
    pub unlike : Unlike compare_prefix (contents u pool e.prefix_tuple)

  -- The list of EIDs is well formed, no two EIDs share a name, and each has a good list of prefixes.
  pub record EidInv (s : Tuples u) : Type 0 where
    pub owned : IsOwned u s.eids s.eid_tuple
    pub names : Unlike same_name (eid_list u s)
    pub each : All (PrefixInv s.prefixes) (eid_list u s)

take_twice : (n : ℕ) (xs : List ℕ) → take n (take n xs) ≡ take n xs
take_twice zero xs = refl
take_twice (suc n) [] = refl
take_twice (suc n) (x ∷ xs) = ap (◌∷◌ x) (take_twice n xs)

compare_eid-new :
    (u : UtList) (name : List ℕ) (e : Eid u)
    → compare_eid u (create_eid_instance u name).name e ≡ compare_eid u name e
unfolding compare_eid create_eid_instance
compare_eid-new u name e = rw (take_twice lisp_eid_name_len name) refl

module _ (u : UtList) (law : LawfulUtList u) (s : Tuples u) (v : EidInv u s) where
  -- A prefix that is allocated and given to no EID.
  pub leak-EidInv : (prefix : Prefix) → EidInv u (record s { prefixes = malloc s.prefixes prefix })
  leak-EidInv prefix = record {
    owned = v.owned;
    names = v.names;
    each =
        All-map (PrefixInv u s.prefixes) _
          (λ e i. record {
            owned = malloc-IsOwned u law s.prefixes e.prefix_tuple prefix i.owned;
            unlike =
                subst (Unlike compare_prefix)
                  (sym (contents-malloc u law s.prefixes e.prefix_tuple prefix i.owned)) i.unlike;
          })
          (eid_list u s) v.each;
  }

  pub create-EidInv :
      (name : List ℕ)
      → search_eid u s name ≡ none
      → EidInv u (record s {
        eids = malloc s.eids (create_eid_instance u name);
        eid_tuple = append_listnode u s.eid_tuple s.eids.next;
      })
  unfolding create_eid_instance
  create-EidInv name miss =
      let new-PrefixInv : PrefixInv u s.prefixes (create_eid_instance u name) = record {
        owned = create_list-IsOwned u law s.prefixes;
        unlike = subst (Unlike compare_prefix) (sym (contents-create_list u law s.prefixes)) tt;
      } in
      let new = create_eid_instance u name in
      let listed = contents-append_listnode u law s.eids s.eid_tuple new v.owned in
      let fresh : find (compare_eid u new.name) (eid_list u s) ≡ none =
        subst (λ test. find test (eid_list u s) ≡ none) (sym (fun_ext (compare_eid-new u name)))
          (search_listnode-find u law s.eids s.eid_tuple (compare_eid u name) ∙ rw miss refl) in
      record {
        owned = append_listnode-IsOwned u law s.eids s.eid_tuple new v.owned;
        names =
            subst (Unlike (same_name u)) (sym listed)
              (Unlike-append (same_name u) (eid_list u s) new fresh v.names);
        each = subst (All (PrefixInv u s.prefixes)) (sym listed) (
            All-append (PrefixInv u s.prefixes) (eid_list u s) (new ∷ []) v.each
              (new-PrefixInv, tt));
      }

  pub delete-EidInv :
      (name : List ℕ) (p : ℕ)
      → search_eid u s name ≡ some p
      → EidInv u (record s { eid_tuple = (delete_listnode u s.eid_tuple p).0 })
  delete-EidInv name p hit =
      let listed = (contents-delete_listnode u law s.eids s.eid_tuple (compare_eid u name) hit).0 in
      record {
        owned = delete_listnode-IsOwned u law s.eids s.eid_tuple (compare_eid u name) hit v.owned;
        names =
            subst (Unlike (same_name u)) (sym listed)
              (Unlike-remove_first (same_name u) (compare_eid u name) (eid_list u s) v.names);
        each =
            subst (All (PrefixInv u s.prefixes)) (sym listed) (
              All-remove_first (PrefixInv u s.prefixes) (compare_eid u name) (eid_list u s) v.each);
      }

  -- An EID that was found is replaced by one of the same name.
  pub store-EidInv :
      (name : List ℕ) (p : ℕ) (e : Eid u)
      → search_eid u s name ≡ some p
      → e.name ≡ (s.eids.cell p).name
      → (PrefixInv u s.prefixes (s.eids.cell p) → PrefixInv u s.prefixes e)
      → EidInv u (record s { eids = store s.eids p e })
  unfolding compare_eid
  store-EidInv name p e hit named keep =
      let test = compare_eid u name in
      let found : find test (eid_list u s) ≡ some (s.eids.cell p) =
        search_listnode-find u law s.eids s.eid_tuple test ∙ rw hit refl in
      let listed = contents-store u law s.eids s.eid_tuple test (λ (_ : Eid u). e) hit v.owned in
      record {
        owned = store-IsOwned u law s.eids s.eid_tuple p e v.owned;
        names = subst (Unlike (same_name u)) (sym listed) (
            Unlike-modify_first (same_name u) test (eid_list u s) e found
              (λ c.
                ap (λ n. bytes_eq (take lisp_eid_name_len c.name) (take lisp_eid_name_len n)) named)
              (λ c. ap (λ n. compare_eid u n c) named) v.names);
        each =
            subst (All (PrefixInv u s.prefixes)) (sym listed)
              (All-modify_first (PrefixInv u s.prefixes) test (eid_list u s) e found keep v.each);
      }

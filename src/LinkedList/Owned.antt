-- ===== src/LinkedList/Owned.antt =====
-- A list that owns what its pointers point to, as all lists of the program do: list/list.c seen as
-- a plain list of values.
use lixy.Base.{
  ℕ, zero, suc, ◌≡◌, refl, ◌≢◌, ◌%◌, ◌<◌, Bool, true, Option, none, some, List, [], ◌∷◌, ◌++◌, map,
  map-append, arith, remove_at, All, All-append, All-map, All-remove_at, length, length-append,
  length-remove_at, map-remove_at, ◌⊎◌, inl, inr, ◌∙◌, Option-cases,
}
use lixy.Platform.{UtList, LawfulUtList}
use lixy.Base.{ap}
use lixy.LinkedList.{
  delete_each, delete_list, destroy_list, ListT, u32, create_list, append_listnode, delete_listnode,
  search_listnode,
}
use lixy.LinkedList.Pool.{Pool, malloc, store}
use lixy.LinkedList.Search.{
  Distinct, find, remove_first, modify_first, search_nodes-find, position-search_nodes,
  map-update_found, map-update_fresh,
}

module _ (u : UtList) {A : Type 0} where
  -- The values in list order.
  abbrev pub contents : Pool A → ListT u → List A
  contents pool l = map pool.cell (u.nodes l.head)

  -- `count` is the length, the addresses are allocated, and they differ.
  pub record IsOwned (pool : Pool A) (l : ListT u) : Type 0 where
    pub counted : l.count ≡ length (u.nodes l.head) % u32
    pub allocated : All (λ p. p < pool.next) (u.nodes l.head)
    pub distinct : Distinct (u.nodes l.head)

Distinct-append_fresh :
    (ps : List ℕ) (n : ℕ) → All (λ p. p < n) ps → Distinct ps → Distinct (ps ++ n ∷ [])
Distinct-append_fresh [] n h d = (tt, tt)
Distinct-append_fresh (p ∷ ps) n h d =
    (All-append (λ q. q ≢ p) ps (n ∷ []) d.0 (omega arith, tt), Distinct-append_fresh ps n h.1 d.1)

Distinct-remove_at : (i : ℕ) (ps : List ℕ) → Distinct ps → Distinct (remove_at i ps)
Distinct-remove_at i [] d = tt
Distinct-remove_at zero (p ∷ ps) d = d.1
Distinct-remove_at (suc i) (p ∷ ps) d =
    (All-remove_at (λ q. q ≢ p) i ps d.0, Distinct-remove_at i ps d.1)

module _ (u : UtList) (law : LawfulUtList u) {A : Type 0} where
  pub contents-create_list : (pool : Pool A) → contents u pool (create_list u) ≡ []
  unfolding create_list
  contents-create_list pool = rw law.nodes-null

  pub create_list-IsOwned : (pool : Pool A) → IsOwned u pool (create_list u)
  unfolding create_list
  create_list-IsOwned pool = record {
    counted = rw law.nodes-null;
    allocated = rw law.nodes-null tt;
    distinct = rw law.nodes-null tt;
  }

  -- A new object disturbs no list.
  pub contents-malloc :
      (pool : Pool A) (l : ListT u) (a : A)
      → IsOwned u pool l
      → contents u (malloc pool a) l ≡ contents u pool l
  contents-malloc pool l a o = map-update_fresh pool.cell (u.nodes l.head) pool.next a o.allocated

  pub malloc-IsOwned :
      (pool : Pool A) (l : ListT u) (a : A) → IsOwned u pool l → IsOwned u (malloc pool a) l
  malloc-IsOwned pool l a o = record {
    counted = o.counted;
    allocated = All-map _ _ (λ p h. omega arith) (u.nodes l.head) o.allocated;
    distinct = o.distinct;
  }

  -- `append_listnode` of a new object puts its value at the end.
  pub contents-append_listnode :
      (pool : Pool A) (l : ListT u) (a : A)
      → IsOwned u pool l
      → contents u (malloc pool a) (append_listnode u l pool.next) ≡ contents u pool l ++ a ∷ []
  unfolding append_listnode
  contents-append_listnode pool l a o =
      rw (law.nodes-ll_append, map-append)
        (ground (arith, map-update_fresh pool.cell (u.nodes l.head) pool.next a o.allocated))

  pub append_listnode-IsOwned :
      (pool : Pool A) (l : ListT u) (a : A)
      → IsOwned u pool l
      → IsOwned u (malloc pool a) (append_listnode u l pool.next)
  unfolding append_listnode
  append_listnode-IsOwned pool l a o = record {
    counted =
        rw law.nodes-ll_append
          (omega (arith, o.counted, length-append (u.nodes l.head) (pool.next ∷ [])));
    allocated = rw law.nodes-ll_append (
        All-append _ (u.nodes l.head) (pool.next ∷ [])
          (All-map _ _ (λ p h. omega arith) (u.nodes l.head) o.allocated) (omega arith, tt));
    distinct =
        rw law.nodes-ll_append
          (Distinct-append_fresh (u.nodes l.head) pool.next o.allocated o.distinct);
  }

  -- Storing a value leaves the list well formed.
  pub store-IsOwned :
      (pool : Pool A) (l : ListT u) (p : ℕ) (a : A)
      → IsOwned u pool l
      → IsOwned u (store pool p a) l
  store-IsOwned pool l p a o = record {
    counted = o.counted;
    allocated = o.allocated;
    distinct = o.distinct;
  }

  module _ (pool : Pool A) (l : ListT u) (test : A → Bool) where
    abbrev pub sought : Option ℕ
    sought = search_listnode u l (λ p. test (pool.cell p))

    -- A search misses exactly when no value passes the test.
    pub search_listnode-find :
        find test (contents u pool l) ≡ elim sought [ none ↦ none | some p ↦ some (pool.cell p) ]
    unfolding search_listnode
    search_listnode-find = search_nodes-find pool.cell test (u.nodes l.head)

    -- Deleting what a search found removes the first value that passes the test.
    pub contents-delete_listnode :
        {p : ℕ}
        → sought ≡ some p
        → (contents u pool (delete_listnode u l p).0 ≡ remove_first test (contents u pool l))
          × ((delete_listnode u l p).1 ≡ true)
    unfolding search_listnode delete_listnode
    contents-delete_listnode {p} h =
        let (i, at_i, rest, hit, lt) = position-search_nodes pool.cell test (u.nodes l.head) h in
        rw (at_i, delete_listnode) (rw (law.nodes-ll_delete, map-remove_at) rest, refl)

    pub delete_listnode-IsOwned :
        {p : ℕ} → sought ≡ some p → IsOwned u pool l → IsOwned u pool (delete_listnode u l p).0
    unfolding search_listnode delete_listnode
    delete_listnode-IsOwned {p} h o =
        let (i, at_i, rest, hit, lt) = position-search_nodes pool.cell test (u.nodes l.head) h in
        rw (at_i, delete_listnode)
          (record {
            counted =
                rw law.nodes-ll_delete
                  (omega (arith, o.counted, length-remove_at i (u.nodes l.head) lt));
            allocated = rw law.nodes-ll_delete (All-remove_at _ i (u.nodes l.head) o.allocated);
            distinct = rw law.nodes-ll_delete (Distinct-remove_at i (u.nodes l.head) o.distinct);
          })

    -- An assignment through the pointer found changes the first value that passes the test.
    pub contents-store :
        {p : ℕ} (f : A → A)
        → sought ≡ some p
        → IsOwned u pool l
        → contents u (store pool p (f (pool.cell p))) l ≡ modify_first test f (contents u pool l)
    unfolding search_listnode
    contents-store {p} f h o =
        map-update_found pool.cell test (u.nodes l.head) f {p = p} o.distinct h

    -- The two ways that a search ends, each with what it means for the values.
    pub search_listnode-cases :
        ((sought ≡ none) × (find test (contents u pool l) ≡ none))
        ⊎ ((p : ℕ) × (sought ≡ some p) × (find test (contents u pool l) ≡ some (pool.cell p)))
    search_listnode-cases = elim (Option-cases sought) [
      | inl e ↦ inl (e, search_listnode-find ∙ rw e)
      | inr (p, e) ↦ inr (p, e, search_listnode-find ∙ rw e)
    ]

module _ (u : UtList) (law : LawfulUtList u) where
  nodes-delete_each :
      (ps : List ℕ) (c : u.Chain) → u.nodes c ≡ ps → u.nodes (delete_each u ps c) ≡ []
  unfolding delete_each
  nodes-delete_each [] c e = e
  nodes-delete_each (p ∷ ps) c e =
      nodes-delete_each ps (u.ll_delete c 0) (law.nodes-ll_delete c 0 ∙ ap (remove_at 0) e)

  -- Both ways to delete a list leave no node; only one frees the data, each pointer once, and
  -- neither resets the count.
  nodes-destroy_list :
      (l : ListT u)
      → (u.nodes (delete_list u l).head ≡ [])
        × (u.nodes (destroy_list u l).0.head ≡ [])
        × ((destroy_list u l).1 ≡ u.nodes l.head)
        × ((delete_list u l).count ≡ l.count)
        × ((destroy_list u l).0.count ≡ l.count)
  unfolding destroy_list delete_list
  nodes-destroy_list l =
      let empty = nodes-delete_each (u.nodes l.head) l.head refl in (empty, empty, refl, refl, refl)

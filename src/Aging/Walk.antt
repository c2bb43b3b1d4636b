-- ===== src/Aging/Walk.antt =====
-- A round of the aging thread on the function view of the map table.
use mathlib.Core.Path.{fun_ext}
use lixy.Base.{
  ℕ, ◌≡◌, ◌≢◌, refl, sym, subst, ap, ◌∙◌, if◌then◌else◌, true, false, Option, none, some, List, [],
  ◌∷◌, ◌++◌, arith, All, Option-cases, Bool-cases, inl, inr,
}
use lixy.Platform.Patricia.{
  Patricia, LawfulPatricia, Key, key_eq, key_eq_iff, covers, IsPreorder, any_covers,
}
use lixy.Platform.Patricia.Covers.{covers_refl, contains-All}
use lixy.LinkedList.Pool.{store}
use lixy.Maptable.{Maptable, MapNode, is_static}
use lixy.Maptable.Fib.{Fib, fib, RibInv, override, without, present, best_key}
use lixy.Maptable.Fib.Laws.{fib-delete_mapnode, search_best-best_key}
use lixy.Maptable.Fib.Laws.Invariant.{delete_mapnode-RibInv, store-RibInv}
use lixy.Maptable.Fib.Longest.{longest_self}
use lixy.Map.Receive.{Output, ◌>>=◌}
use lixy.Map.Receive.Table.{fib-store}
use lixy.Aging.{lower_ttl, is_expired, age_node, age_nodes, age_maptable}

-- What a round makes of an entry that it ages.
abbrev pub aged : MapNode → Option MapNode
aged mn = if is_expired (lower_ttl mn) then none else some (lower_ttl mn)

-- The walk on entries: a static one stays, and so does all that it covers.
unfoldable pub spec_walk : List Key → List Key → Fib → Fib
spec_walk broken [] f = f
spec_walk broken (k ∷ ks) f =
    let skipped = spec_walk broken ks f in
    let left_out = spec_walk (k ∷ broken) ks f in
    let later = λ (o : Option MapNode). spec_walk broken ks (override f k o) in
    if any_covers broken k then skipped else elim (f k) [
      | none ↦ skipped
      | some mn ↦ if is_static mn.state then left_out else later (aged mn)
    ]

module _ (t : Patricia) (law : LawfulPatricia t) (r : Maptable t) (v : RibInv t r) (k : Key) (q : ℕ)
    (here : t.node_data r.tree k ≡ some q) where
  pub has_here : t.has_node r.tree k ≡ true
  has_here = elim (Bool-cases (t.has_node r.tree k)) [
    | inl e ↦ e
    | inr e ↦ absurd (cc (law.data_of_none r.tree k e))
  ]

  abbrev lowered : Maptable t
  lowered = record r { mapnodes = store r.mapnodes q (lower_ttl (r.mapnodes.cell q)) }

  lowered-RibInv : RibInv t lowered
  lowered-RibInv = store-RibInv t law r q _ v

  -- The node's prefix leads to the node itself.
  best_self : best_key (fib t lowered) (t.node_prefix r.tree k) ≡ some k
  best_self =
      let p = t.node_prefix r.tree k in
      let named = law.key-node_prefix r.tree k has_here in
      sym (search_best-best_key t law lowered lowered-RibInv p)
      ∙ law.search_best_longest r.tree p
      ∙ longest_self (t.has_node r.tree) p p.bitlen (ap (t.has_node r.tree) named ∙ has_here)
      ∙ ap some named

  fib-lowered : fib t lowered ≡ override (fib t r) k (some (lower_ttl (r.mapnodes.cell q)))
  fib-lowered = fib-store t law r v k q (lower_ttl (r.mapnodes.cell q)) here

  pub age_node-RibInv : RibInv t (age_node t r k q).0
  unfolding age_node
  age_node-RibInv = elim (Bool-cases (is_expired (lower_ttl (r.mapnodes.cell q)))) [
    | inl e ↦ rw e (delete_mapnode-RibInv t law lowered (t.node_prefix r.tree k) lowered-RibInv)
    | inr e ↦ rw e lowered-RibInv
  ]

  pub fib-age_node : fib t (age_node t r k q).0 ≡ override (fib t r) k (aged (r.mapnodes.cell q))
  unfolding age_node
  fib-age_node = elim (Bool-cases (is_expired (lower_ttl (r.mapnodes.cell q)))) [
    | inl e ↦ rw e (
        fib-delete_mapnode t law lowered lowered-RibInv (t.node_prefix r.tree k)
        ∙ ap (without (fib t lowered)) best_self
        ∙ ap (λ f. override f k none) fib-lowered
        ∙ fun_ext (λ j. ground arith))
    | inr e ↦ rw e fib-lowered
  ]

-- The nodes that are still to be met have a mapnode each.
abbrev pub Present : Fib → List Key → Type 0
Present f = All (λ k. present (f k) ≡ true)

pub Present-override :
    (ks : List Key) (f : Fib) (k : Key) (o : Option MapNode)
    → All (λ j. covers j k ≡ false) ks
    → Present f ks
    → Present (override f k o) ks
Present-override [] f k o a h = tt
Present-override (j ∷ js) f k o a h =
    let other : key_eq j k ≡ false = elim (Bool-cases (key_eq j k)) [
      | inl e ↦ absurd (cc (covers_refl k, (key_eq_iff j k).0 e, a.0))
      | inr e ↦ e
    ] in
    (rw other h.0, Present-override js f k o a.1 h.1)

module _ (t : Patricia) (law : LawfulPatricia t) where
  -- What a round ends with: a well-formed table that the specification gives.
  abbrev Ended : Option (Maptable t × List Output) → Fib → Type 0
  Ended none f = ⊥
  Ended (some (r, out)) f = RibInv t r × (fib t r ≡ f)

  more-Ended :
      (o : Option (Maptable t × List Output)) (sent : List Output) (f : Fib)
      → Ended o f
      → Ended (o >>= λ p. some (p.0, sent ++ p.1)) f
  more-Ended none sent f h = h
  more-Ended (some (r, out)) sent f h = h

  age_nodes-Ended :
      (broken ks : List Key) (r : Maptable t)
      → RibInv t r
      → IsPreorder ks
      → Present (fib t r) ks
      → Ended (age_nodes t broken ks r) (spec_walk broken ks (fib t r))
  unfolding age_nodes spec_walk
  age_nodes-Ended broken [] r v o h = (v, refl)
  age_nodes-Ended broken (k ∷ ks) r v o h = elim (Bool-cases (any_covers broken k)) [
    | inl e ↦ rw e (age_nodes-Ended broken ks r v o.1 h.1)
    | inr e ↦ elim (Option-cases (t.node_data r.tree k)) [
      | inl e' ↦ absurd (cc (h.0))
      | inr (q, e') ↦ elim (Bool-cases (is_static (r.mapnodes.cell q).state)) [
        | inl s ↦ rw (e, e') (rw s (age_nodes-Ended (k ∷ broken) ks r v o.1 h.1))
        | inr s ↦
            let (r', sent) = age_node t r k q in
            let entries = fib-age_node t law r v k q e' in
            let rest = age_nodes-Ended broken ks r' (age_node-RibInv t law r v k q e') o.1 (
              subst (λ f. Present f ks) (sym entries)
                (Present-override ks (fib t r) k (aged (r.mapnodes.cell q)) o.0 h.1)) in
            rw (e, e')
              (rw s (
                more-Ended (age_nodes t broken ks r') sent _ (
                  subst (λ f. Ended (age_nodes t broken ks r') (spec_walk broken ks f)) entries
                    rest)))
      ]
    ]
  ]

  present-fetch :
      (r : Maptable t) (k : Key) → t.node_data r.tree k ≢ none → present (fib t r k) ≡ true
  present-fetch r k h = elim (Option-cases (t.node_data r.tree k)) [
    | inl e ↦ absurd (h e)
    | inr (q, e) ↦ rw e refl
  ]

  -- Every node has a mapnode.
  pub Present-walk : (r : Maptable t) → RibInv t r → Present (fib t r) (t.walk r.tree)
  Present-walk r v =
      contains-All (t.walk r.tree)
        (λ k c. present-fetch r k (v.full k (sym (law.contains-walk r.tree k) ∙ c)))

  ended :
      (o : Option (Maptable t × List Output)) (f : Fib)
      → Ended o f
      → (r' : Maptable t) × (out : List Output) × (o ≡ some (r', out))
        × RibInv t r'
        × (fib t r' ≡ f)
  ended none f h = absurd h
  ended (some (r', out)) f (v, e) = (r', out, refl, v, e)

  -- A round of the thread on a well-formed table comes to its end without a NULL dereference, leaves
  -- a well-formed table, and makes of the entries what the specification makes of them.
  pub age_maptable-refines :
      (r : Maptable t)
      → RibInv t r
      → (r' : Maptable t) × (out : List Output) × (age_maptable t r ≡ some (r', out))
        × RibInv t r'
        × (fib t r' ≡ spec_walk [] (t.walk r.tree) (fib t r))
  unfolding age_maptable
  age_maptable-refines r v =
      ended (age_maptable t r) _
        (age_nodes-Ended [] (t.walk r.tree) r v (law.walk-IsPreorder r.tree) (Present-walk r v))

-- ===== src/Aging/Outputs.antt =====
-- What a round of the aging thread sends out.
use lixy.Base.{
  ℕ, ◌≡◌, refl, sym, ap, ap₂, ◌∙◌, subst, if◌then◌else◌, false, Option, none, some, List, [], ◌∷◌,
  ◌++◌, All, Option-cases, Bool-cases, inl, inr,
}
use lixy.Platform.Patricia.{Patricia, LawfulPatricia, Key, covers, IsPreorder, any_covers}
use lixy.Net.{Prefix}
use lixy.Maptable.{Maptable, is_static, delete_mapnode}
use lixy.Maptable.Fib.{fib, RibInv}
use lixy.Maptable.Fib.Longest.{longest_self}
use lixy.Map.Receive.{Output, ◌>>=◌}
use lixy.Aging.{lower_ttl, is_expired, age_node, age_nodes, age_maptable}
use lixy.Aging.Walk.{
  aged, has_here, Present, Present-override, Present-walk, age_node-RibInv, fib-age_node,
}
use lixy.Aging.Expiry.{under_static}
use lixy.Aging.Sends.{
  is_active-has_route, is_refreshed-is_asked_for, entry_sends, own_sends, outputs_of, spec_sends,
  spec_sends_lem, apart,
}

abbrev Sends : (t : Patricia) → Option (Maptable t × List Output) → List Output → Type 0
Sends t none l = ⊥
Sends t (some (r, out)) l = out ≡ l

module _ (t : Patricia) (law : LawfulPatricia t) (name : Key → Prefix) where
  -- The nodes that are still to be met have these prefixes.
  abbrev Named : Maptable t → List Key → Type 0
  Named r = All (λ k. t.node_prefix r.tree k ≡ name k)

  removed-Named :
      (r : Maptable t) (k : Key) (ks : List Key)
      → All (λ j. covers j k ≡ false) ks
      → Named r ks
      → All (λ j. t.node_prefix (t.patricia_remove r.tree k) j ≡ name j) ks
  removed-Named r k [] o h = tt
  removed-Named r k (j ∷ js) o h =
      (law.node_prefix-remove r.tree k j (apart j k o.0) ∙ h.0, removed-Named r k js o.1 h.1)

  module _ (r : Maptable t) (k : Key) (q : ℕ) where
    age_node-sends : (age_node t r k q).1 ≡ entry_sends (t.node_prefix r.tree k) (r.mapnodes.cell q)
    unfolding age_node lower_ttl
    age_node-sends = elim (Bool-cases (is_expired (lower_ttl (r.mapnodes.cell q)))) [
      | inl e ↦ rw (e, is_active-has_route (r.mapnodes.cell q).state) refl
      | inr e ↦ rw (e, is_refreshed-is_asked_for (r.mapnodes.cell q).state) refl
    ]

    module _ (v : RibInv t r) (here : t.node_data r.tree k ≡ some q) where
      search_self : t.patricia_search_best r.tree (t.node_prefix r.tree k) ≡ some k
      search_self =
          let has = has_here t law r v k q here in
          let p = t.node_prefix r.tree k in
          let named = law.key-node_prefix r.tree k has in
          law.search_best_longest r.tree p
          ∙ longest_self (t.has_node r.tree) p p.bitlen (ap (t.has_node r.tree) named ∙ has)
          ∙ ap some named

      age_node-Named :
          (ks : List Key)
          → All (λ j. covers j k ≡ false) ks
          → Named r ks
          → Named (age_node t r k q).0 ks
      unfolding age_node delete_mapnode
      age_node-Named ks o h = elim (Bool-cases (is_expired (lower_ttl (r.mapnodes.cell q)))) [
        | inl e ↦ rw e (rw (search_self, delete_mapnode) (removed-Named r k ks o h))
        | inr e ↦ rw e h
      ]

  more-Sends :
      (o : Option (Maptable t × List Output)) (sent sent' l : List Output)
      → sent ≡ sent'
      → Sends t o l
      → Sends t (o >>= λ p. some (p.0, sent ++ p.1)) (sent' ++ l)
  more-Sends none sent sent' l e h = h
  more-Sends (some (r, out)) sent sent' l e h = ap₂ (λ (a b : List Output). a ++ b) e h

  age_nodes-Sends :
      (broken ks : List Key) (r : Maptable t)
      → RibInv t r
      → IsPreorder ks
      → Present (fib t r) ks
      → Named r ks
      → Sends t (age_nodes t broken ks r) (spec_sends name broken ks (fib t r))
  unfolding age_nodes spec_sends
  age_nodes-Sends broken [] r v o h n = refl
  age_nodes-Sends broken (k ∷ ks) r v o h n = elim (Bool-cases (any_covers broken k)) [
    | inl e ↦ rw e (age_nodes-Sends broken ks r v o.1 h.1 n.1)
    | inr e ↦ elim (Option-cases (t.node_data r.tree k)) [
      | inl e' ↦ absurd (cc (h.0))
      | inr (q, e') ↦ elim (Bool-cases (is_static (r.mapnodes.cell q).state)) [
        | inl s ↦ rw (e, e') (rw s (age_nodes-Sends (k ∷ broken) ks r v o.1 h.1 n.1))
        | inr s ↦
            let r' = (age_node t r k q).0 in
            let entries = fib-age_node t law r v k q e' in
            let sent = age_node-sends r k q ∙ ap (λ p. entry_sends p (r.mapnodes.cell q)) n.0 in
            let rest =
              age_nodes-Sends broken ks r' (age_node-RibInv t law r v k q e') o.1
                (subst (λ f. Present f ks) (sym entries)
                  (Present-override ks (fib t r) k (aged (r.mapnodes.cell q)) o.0 h.1))
                (age_node-Named r k q v e' ks o.0 n.1) in
            rw (e, e')
              (rw s (
                more-Sends (age_nodes t broken ks r') _ _ _ sent (
                  subst (λ f. Sends t (age_nodes t broken ks r') (spec_sends name broken ks f))
                    entries rest)))
      ]
    ]
  ]

module _ (t : Patricia) (law : LawfulPatricia t) where
  sent_out :
      (o : Option (Maptable t × List Output)) (l : List Output)
      → Sends t o l
      → (r' : Maptable t) × (out : List Output) × (o ≡ some (r', out)) × (out ≡ l)
  sent_out none l h = absurd h
  sent_out (some (r', out)) l h = (r', out, refl, h)

  -- A round of the aging thread on a well-formed table sends, in the order of the walk and for each
  -- entry that is not static and that no static one covers: when its time is up, the deletion of its
  -- route if it is active and nothing otherwise; before that, a request for its prefix, unless it
  -- is one that drops packets.
  pub age_maptable-outputs :
      (r : Maptable t)
      → RibInv t r
      → (r' : Maptable t) × (out : List Output) × (age_maptable t r ≡ some (r', out))
        × (out
            ≡ outputs_of
                (λ k.
                  if under_static (fib t r) (t.walk r.tree) k
                  then []
                  else own_sends (t.node_prefix r.tree) (fib t r) k)
                (t.walk r.tree))
  unfolding age_maptable
  age_maptable-outputs r v =
      let name = t.node_prefix r.tree in
      let order = law.walk-IsPreorder r.tree in
      let (r', out, e, l) = sent_out (age_maptable t r) _ (
        age_nodes-Sends t law name [] (t.walk r.tree) r v order (Present-walk t law r v)
          (named (t.walk r.tree))) in
      (r', out, e, l ∙ spec_sends_lem name [] (t.walk r.tree) (fib t r) order)
    where
      named : (ks : List Key) → All (λ k. t.node_prefix r.tree k ≡ t.node_prefix r.tree k) ks
      named [] = tt
      named (k ∷ ks) = (refl, named ks)

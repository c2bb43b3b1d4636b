-- ===== src/Control/Show/Routes.antt =====
-- What `show ipv4-route` and `show ipv6-route` list.
use mathlib.Core.Path.{fun_ext}
use lixy.Base.{
  ℕ, ◌≡◌, refl, sym, ap, ap₂, ◌∙◌, ◌==◌, ◌&&◌, ◌||◌, not, ◌≢◌, Bool, true, false, Option, none,
  some, List, [], ◌∷◌, ◌++◌, All, arith, Bool-cases, Option-cases, inl, inr, if◌then◌else◌,
}
use lixy.Platform.Patricia.{Patricia, Key, LawfulPatricia, covers, IsPreorder, any_covers}
use lixy.Platform.Format.{Format}
use lixy.Maptable.{Maptable, MapState}
use lixy.Maptable.Fib.{Fib, fib, RibInv}
use lixy.Net.{Prefix}
use lixy.Map.Receive.{◌>>=◌}
use lixy.Platform.Patricia.Covers.{covers_refl, any_covers_trans, and_false, contains-All}
use lixy.Control.{success_no_message}
use lixy.Control.Show.{show_nodes, cmd_show_route, wanted, route_line}

abbrev pub lines_of : (Key → List (List ℕ)) → List Key → List (List ℕ)
lines_of f [] = []
lines_of f (k ∷ ks) = f k ++ lines_of f ks

-- The entries, the prefixes that stand for the keys, and what is asked for.
module _ (f : Format) (entries : Fib) (name : Key → Prefix) (wants : MapState → Bool) (af : ℕ) where
  abbrev pub is_wanted : Key → Bool
  is_wanted k = elim (entries k) [ none ↦ false | some mn ↦ wants mn.state ]

  abbrev pub in_family : Key → Bool
  in_family k = (name k).family == af

  -- A wanted entry of another family covers the key.
  abbrev pub hidden : List Key → Key → Bool
  hidden [] k = false
  hidden (j ∷ js) k = (covers j k && (is_wanted j && not (in_family j))) || hidden js k

  -- What is listed of a key that is not hidden.
  abbrev pub own_line : Key → List (List ℕ)
  own_line k = elim (entries k) [
    | none ↦ []
    | some mn ↦ if wants mn.state then route_line f (name k) mn ∷ [] else []
  ]

  -- What is listed of the keys in the order of the walk.
  abbrev pub spec_show_route : List Key → List (List ℕ)
  spec_show_route ks = lines_of (λ k. if hidden ks k then [] else own_line k) ks

module _ (t : Patricia) (f : Format) (rib : Maptable t) (state : Option ℕ) (af : ℕ) where
  abbrev name : Key → Prefix
  name = t.node_prefix rib.tree

  abbrev breaks : Key → Bool
  breaks k =
      is_wanted f (fib t rib) name (wanted state) af k
      && not (in_family f (fib t rib) name (wanted state) af k)

  abbrev shown : List Key → List Key → Key → List (List ℕ)
  shown broken ks k =
      if any_covers broken k || hidden f (fib t rib) name (wanted state) af ks k
      then []
      else own_line f (fib t rib) name (wanted state) af k

  -- The walk before a node and what is shown after it agree, in each of the three cases.
  shown-skipped :
      (broken ks : List Key) (k j : Key)
      → any_covers broken k ≡ true
      → shown broken ks j ≡ shown broken (k ∷ ks) j
  shown-skipped broken ks k j e = elim (Bool-cases (covers k j)) [
    | inl c ↦ rw (any_covers_trans broken k j e c) refl
    | inr c ↦ rw c refl
  ]

  shown-left :
      (broken ks : List Key) (k j : Key)
      → breaks k ≡ true
      → shown (k ∷ broken) ks j ≡ shown broken (k ∷ ks) j
  shown-left broken ks k j b =
      rw b (elim (Bool-cases (covers k j)) [ inl c ↦ rw c (ground arith) | inr c ↦ rw c refl ])

  shown-kept :
      (broken ks : List Key) (k j : Key)
      → breaks k ≡ false
      → shown broken ks j ≡ shown broken (k ∷ ks) j
  shown-kept broken ks k j b = rw (and_false (covers k j) (breaks k) b) refl

  not_hidden :
      (ks : List Key) (k : Key)
      → All (λ j. covers j k ≡ false) ks
      → hidden f (fib t rib) name (wanted state) af ks k ≡ false
  not_hidden [] k h = refl
  not_hidden (j ∷ js) k h = rw (h.0, not_hidden js k h.1) refl

  shown_here :
      (broken ks : List Key) (k : Key)
      → any_covers broken k ≡ false
      → All (λ j. covers j k ≡ false) ks
      → shown broken (k ∷ ks) k
        ≡ (if breaks k then [] else own_line f (fib t rib) name (wanted state) af k)
  shown_here broken ks k e o = rw (e, covers_refl k, not_hidden ks k o) (ground arith)

  -- Two readings of a node on the way, and what they show of it and behind it.
  joined :
      (broken ks : List Key) (k : Key) (g : Key → List (List ℕ)) (line : List (List ℕ))
      → shown broken (k ∷ ks) k ≡ line
      → ((j : Key) → g j ≡ shown broken (k ∷ ks) j)
      → line ++ lines_of g ks ≡ lines_of (shown broken (k ∷ ks)) (k ∷ ks)
  joined broken ks k g line here same =
      ap₂ (λ (a b : List (List ℕ)). a ++ b) (sym here) (ap (λ g'. lines_of g' ks) (fun_ext same))

  module _ (broken ks : List Key) (k : Key) (o : All (λ j. covers j k ≡ false) ks)
      (e : any_covers broken k ≡ false) (q : ℕ) (e' : t.node_data rib.tree k ≡ some q) where
    abbrev nodes : List Key → List Key → Option (List (List ℕ))
    nodes = show_nodes t f rib state af

    is_wanted-state :
        is_wanted f (fib t rib) name (wanted state) af k ≡ wanted state (rib.mapnodes.cell q).state
    is_wanted-state = rw (e', is_wanted) refl

    show_unwanted :
        wanted state (rib.mapnodes.cell q).state ≡ false
        → nodes broken ks ≡ some (lines_of (shown broken ks) ks)
        → nodes broken (k ∷ ks) ≡ some (lines_of (shown broken (k ∷ ks)) (k ∷ ks))
    unfolding show_nodes
    show_unwanted s rest =
        let stays : breaks k ≡ false = rw (is_wanted-state, s) refl in
        let step : nodes broken (k ∷ ks) ≡ nodes broken ks = rw (e, e') (rw s refl) in
        let none_own : own_line f (fib t rib) name (wanted state) af k ≡ [] =
          rw (e', own_line) (rw s refl) in
        let here : shown broken (k ∷ ks) k ≡ [] =
          shown_here broken ks k e o ∙ rw (stays, none_own) refl in
        step
        ∙ rest
        ∙ ap some
            (joined broken ks k (shown broken ks) [] here (λ j. shown-kept broken ks k j stays))

    module _ (s : wanted state (rib.mapnodes.cell q).state ≡ true) where
      show_line :
          in_family f (fib t rib) name (wanted state) af k ≡ true
          → nodes broken ks ≡ some (lines_of (shown broken ks) ks)
          → nodes broken (k ∷ ks) ≡ some (lines_of (shown broken (k ∷ ks)) (k ∷ ks))
      unfolding show_nodes
      show_line a rest =
          let stays : breaks k ≡ false =
            and_false (is_wanted f (fib t rib) name (wanted state) af k)
              (not (in_family f (fib t rib) name (wanted state) af k)) (rw a refl) in
          let line : List (List ℕ) =
            route_line f (t.node_prefix rib.tree k) (rib.mapnodes.cell q) ∷ [] in
          let step : nodes broken (k ∷ ks) ≡ (nodes broken ks >>= λ lines. some (line ++ lines)) =
            rw (e, e') (rw s (rw a refl)) in
          let own : own_line f (fib t rib) name (wanted state) af k ≡ line =
            rw (e', own_line) (rw s refl) in
          let here : shown broken (k ∷ ks) k ≡ line =
            shown_here broken ks k e o ∙ rw (stays, own) refl in
          step
          ∙ ap (λ o. o >>= λ lines. some (line ++ lines)) rest
          ∙ ap some
              (joined broken ks k (shown broken ks) line here (λ j. shown-kept broken ks k j stays))

      show_broken :
          in_family f (fib t rib) name (wanted state) af k ≡ false
          → nodes (k ∷ broken) ks ≡ some (lines_of (shown (k ∷ broken) ks) ks)
          → nodes broken (k ∷ ks) ≡ some (lines_of (shown broken (k ∷ ks)) (k ∷ ks))
      unfolding show_nodes
      show_broken a rest =
          let leaves : breaks k ≡ true = rw (is_wanted-state, s, a) refl in
          let step : nodes broken (k ∷ ks) ≡ nodes (k ∷ broken) ks =
            rw (e, e') (rw s (rw a refl)) in
          let here : shown broken (k ∷ ks) k ≡ [] = shown_here broken ks k e o ∙ rw leaves refl in
          step
          ∙ rest
          ∙ ap some (
              joined broken ks k (shown (k ∷ broken) ks) [] here
                (λ j. shown-left broken ks k j leaves))

  show_nodes_lem :
      (broken ks : List Key)
      → IsPreorder ks
      → All (λ k. t.node_data rib.tree k ≢ none) ks
      → show_nodes t f rib state af broken ks ≡ some (lines_of (shown broken ks) ks)
  unfolding show_nodes
  show_nodes_lem broken [] o h = refl
  show_nodes_lem broken (k ∷ ks) o (here, h) = elim (Bool-cases (any_covers broken k)) [
    | inl e ↦ rw e (
        show_nodes_lem broken ks o.1 h
        ∙ ap (λ g. some (lines_of g ks)) (fun_ext (λ j. shown-skipped broken ks k j e)))
    | inr e ↦ elim (Option-cases (t.node_data rib.tree k)) [
      | inl e' ↦ absurd (here e')
      | inr (q, e') ↦ elim (Bool-cases (wanted state (rib.mapnodes.cell q).state)) [
        | inr s ↦ show_unwanted broken ks k o.0 e q e' s (show_nodes_lem broken ks o.1 h)
        | inl s ↦ elim (Bool-cases (in_family f (fib t rib) name (wanted state) af k)) [
          | inl a ↦ show_line broken ks k o.0 e q e' s a (show_nodes_lem broken ks o.1 h)
          | inr a ↦ show_broken broken ks k o.0 e q e' s a (show_nodes_lem (k ∷ broken) ks o.1 h)
        ]
      ]
    ]
  ]

  -- On a well-formed table, `show ipv4-route` and `show ipv6-route` come to an end without a NULL
  -- dereference. In the order of the walk, they write the line of each entry that has the wanted
  -- state, except for those that a wanted entry of another family covers or that are of another
  -- family themselves.
  pub cmd_show_route_lem :
      LawfulPatricia t
      → RibInv t rib
      → cmd_show_route t f rib state af
        ≡ some (
          spec_show_route f (fib t rib) name (wanted state) af (t.walk rib.tree),
          success_no_message,
        )
  unfolding cmd_show_route
  cmd_show_route_lem law v =
      let full =
        contains-All (t.walk rib.tree) (λ k c. v.full k (sym (law.contains-walk rib.tree k) ∙ c)) in
      rw (show_nodes_lem [] (t.walk rib.tree) (law.walk-IsPreorder rib.tree) full) refl

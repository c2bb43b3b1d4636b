-- ===== src/Aging/Sends.antt =====
-- What a round of the aging thread sends, entry by entry.
use lixy.Base.{
  Bool, ◌≡◌, refl, sym, ap, ap₂, ◌∙◌, ◌||◌, if◌then◌else◌, true, false, Option, none, some, List,
  [], ◌∷◌, ◌++◌, arith, All, All-map, Option-cases, Bool-cases, inl, inr,
}
use lixy.Platform.Patricia.{Key, key_eq, key_eq_iff, covers, IsPreorder, any_covers}
use lixy.Platform.Patricia.Covers.{covers_refl, any_covers_trans, and_false}
use lixy.Net.{Prefix}
use lixy.Maptable.{
  MapState, active, negative, drop, queried, static, MapNode, is_static, del_route_to_tun,
}
use lixy.Maptable.Fib.{Fib, override, holds_static}
use lixy.Map.Receive.{Output, route, map_request}
use lixy.Aging.{lower_ttl, is_expired, is_active, is_refreshed}
use lixy.Aging.Walk.{aged}
use lixy.Aging.Expiry.{under_static, not_under, under_static-override}

-- The entries with a route of their own, and those that are asked for again.
abbrev pub has_route : MapState → Bool
has_route active = true
has_route queried = false
has_route negative = false
has_route drop = false
has_route static = false

abbrev pub is_asked_for : MapState → Bool
is_asked_for active = true
is_asked_for queried = true
is_asked_for negative = true
is_asked_for drop = false
is_asked_for static = false

pub is_active-has_route : (state : MapState) → is_active state ≡ has_route state
is_active-has_route active = refl
is_active-has_route queried = refl
is_active-has_route negative = refl
is_active-has_route drop = refl
is_active-has_route static = refl

pub is_refreshed-is_asked_for : (state : MapState) → is_refreshed state ≡ is_asked_for state
is_refreshed-is_asked_for active = refl
is_refreshed-is_asked_for queried = refl
is_refreshed-is_asked_for negative = refl
is_refreshed-is_asked_for drop = refl
is_refreshed-is_asked_for static = refl

-- What is sent for an entry that a round ages.
abbrev pub entry_sends : Prefix → MapNode → List Output
entry_sends p mn =
    let old = lower_ttl mn in
    if is_expired old
    then (if has_route old.state then route (del_route_to_tun p) ∷ [] else [])
    else (if is_asked_for old.state then map_request p ∷ [] else [])

-- Nothing is sent for a static entry.
abbrev pub sends_of : Prefix → Option MapNode → List Output
sends_of p none = []
sends_of p (some mn) = if is_static mn.state then [] else entry_sends p mn

module _ (name : Key → Prefix) where
  -- The walk on entries, as far as it sends.
  unfoldable pub spec_sends : List Key → List Key → Fib → List Output
  spec_sends broken [] f = []
  spec_sends broken (k ∷ ks) f =
      let skipped = spec_sends broken ks f in
      let left_out = spec_sends (k ∷ broken) ks f in
      let later = λ (o : Option MapNode). spec_sends broken ks (override f k o) in
      if any_covers broken k then skipped else elim (f k) [
        | none ↦ skipped
        | some mn ↦
            if is_static mn.state then left_out else entry_sends (name k) mn ++ later (aged mn)
      ]

  -- What is sent for the entry of a key, if no static entry covers it.
  abbrev pub own_sends : Fib → Key → List Output
  own_sends f k = sends_of (name k) (f k)

pub apart : (j k : Key) → covers j k ≡ false → key_eq j k ≡ false
apart j k h = elim (Bool-cases (key_eq j k)) [
  | inl e ↦ absurd (cc (covers_refl k, (key_eq_iff j k).0 e, h))
  | inr e ↦ e
]

abbrev pub outputs_of : (Key → List Output) → List Key → List Output
outputs_of g [] = []
outputs_of g (k ∷ ks) = g k ++ outputs_of g ks

outputs_of-same :
    (g g' : Key → List Output) (ks : List Key)
    → All (λ k. g k ≡ g' k) ks
    → outputs_of g ks ≡ outputs_of g' ks
outputs_of-same g g' [] h = refl
outputs_of-same g g' (k ∷ ks) h =
    ap₂ (λ (a b : List Output). a ++ b) h.0 (outputs_of-same g g' ks h.1)

module _ (name : Key → Prefix) where
  abbrev pub sent : List Key → List Key → Fib → Key → List Output
  sent broken ks f k = if any_covers broken k || under_static f ks k then [] else own_sends name f k

  abbrev Agree : List Key → (Key → List Output) → List Key → Key → Fib → Type 0
  Agree broken g ks k f = All (λ j. g j ≡ sent broken (k ∷ ks) f j) ks

  All-each : {P : Key → Type 0} (ks : List Key) → ((j : Key) → P j) → All P ks
  All-each [] h = tt
  All-each (k ∷ ks) h = (h k, All-each ks h)

  joined :
      (broken ks : List Key) (k : Key) (f : Fib) (g : Key → List Output) (out : List Output)
      → out ≡ sent broken (k ∷ ks) f k
      → Agree broken g ks k f
      → out ++ outputs_of g ks ≡ outputs_of (sent broken (k ∷ ks) f) (k ∷ ks)
  joined broken ks k f g out here same =
      ap₂ (λ (a b : List Output). a ++ b) here (outputs_of-same g (sent broken (k ∷ ks) f) ks same)

  sent_skipped :
      (broken ks : List Key) (k : Key) (f : Fib) (j : Key)
      → any_covers broken k ≡ true
      → sent broken ks f j ≡ sent broken (k ∷ ks) f j
  sent_skipped broken ks k f j e = elim (Bool-cases (covers k j)) [
    | inl c ↦ rw (any_covers_trans broken k j e c) refl
    | inr c ↦ rw c refl
  ]

  sent_kept :
      (broken ks : List Key) (k : Key) (f : Fib) (j : Key)
      → holds_static (f k) ≡ true
      → sent (k ∷ broken) ks f j ≡ sent broken (k ∷ ks) f j
  sent_kept broken ks k f j b =
      rw b (elim (Bool-cases (covers k j)) [ inl c ↦ rw c (ground arith) | inr c ↦ rw c refl ])

  sent_passed :
      (broken ks : List Key) (k : Key) (f : Fib) (j : Key)
      → holds_static (f k) ≡ false
      → sent broken ks f j ≡ sent broken (k ∷ ks) f j
  sent_passed broken ks k f j b = rw (and_false (covers k j) (holds_static (f k)) b) refl

  sent_here :
      (broken ks : List Key) (k : Key) (f : Fib)
      → any_covers broken k ≡ false
      → All (λ j. covers j k ≡ false) ks
      → sent broken (k ∷ ks) f k ≡ (if holds_static (f k) then [] else own_sends name f k)
  sent_here broken ks k f e o = rw (e, covers_refl k, (not_under ks f k o).0) (ground arith)

  -- The later entries are as before.
  sent_aged :
      (broken ks : List Key) (k : Key) (f : Fib) (o : Option MapNode)
      → holds_static (f k) ≡ false
      → All (λ j. covers j k ≡ false) ks
      → Agree broken (sent broken ks (override f k o)) ks k f
  sent_aged broken ks k f o b later =
      All-map (λ j. covers j k ≡ false) _
        (λ j c.
          let other = apart j k c in
          let same : override f k o j ≡ f j = rw other refl in
          rw (under_static-override ks f k o j later) (
            ap (λ m. if any_covers broken j || under_static f ks j then [] else sends_of (name j) m)
              same
            ∙ sent_passed broken ks k f j b))
        ks later

  abbrev pub Closed : List Key → List Key → Fib → Type 0
  Closed broken ks f = spec_sends name broken ks f ≡ outputs_of (sent broken ks f) ks

  module _ (broken ks : List Key) (k : Key) (f : Fib) where
    sends-skipped : any_covers broken k ≡ true → Closed broken ks f → Closed broken (k ∷ ks) f
    unfolding spec_sends
    sends-skipped e rest =
        let step : spec_sends name broken (k ∷ ks) f ≡ spec_sends name broken ks f = rw e refl in
        step
        ∙ rest
        ∙ joined broken ks k f (sent broken ks f) [] (rw e refl)
            (All-each ks (λ j. sent_skipped broken ks k f j e))

    module _ (e : any_covers broken k ≡ false) (o : All (λ j. covers j k ≡ false) ks) where
      sends-nothing : f k ≡ none → Closed broken ks f → Closed broken (k ∷ ks) f
      unfolding spec_sends
      sends-nothing e' rest =
          let step : spec_sends name broken (k ∷ ks) f ≡ spec_sends name broken ks f =
            rw (e, e') refl in
          let passed : holds_static (f k) ≡ false = rw e' refl in
          let own : own_sends name f k ≡ [] = ap (sends_of (name k)) e' in
          step
          ∙ rest
          ∙ joined broken ks k f (sent broken ks f) []
              (sym (sent_here broken ks k f e o ∙ rw (passed, own) refl))
              (All-each ks (λ j. sent_passed broken ks k f j passed))

      module _ (mn : MapNode) (e' : f k ≡ some mn) where
        sends-kept : is_static mn.state ≡ true → Closed (k ∷ broken) ks f → Closed broken (k ∷ ks) f
        unfolding spec_sends
        sends-kept s rest =
            let step : spec_sends name broken (k ∷ ks) f ≡ spec_sends name (k ∷ broken) ks f =
              rw (e, e') (rw s refl) in
            let held : holds_static (f k) ≡ true = rw e' s in
            step
            ∙ rest
            ∙ joined broken ks k f (sent (k ∷ broken) ks f) []
                (sym (sent_here broken ks k f e o ∙ rw held refl))
                (All-each ks (λ j. sent_kept broken ks k f j held))

        sends-ages :
            is_static mn.state ≡ false
            → Closed broken ks (override f k (aged mn))
            → Closed broken (k ∷ ks) f
        unfolding spec_sends
        sends-ages s rest =
            let f' = override f k (aged mn) in
            let step : spec_sends name broken (k ∷ ks) f
                ≡ entry_sends (name k) mn ++ spec_sends name broken ks f' =
              rw (e, e') (rw s refl) in
            let passed : holds_static (f k) ≡ false = rw e' s in
            let own : own_sends name f k ≡ entry_sends (name k) mn =
              ap (sends_of (name k)) e' ∙ rw s refl in
            step
            ∙ ap (λ out. entry_sends (name k) mn ++ out) rest
            ∙ joined broken ks k f (sent broken ks f') (entry_sends (name k) mn)
                (sym (sent_here broken ks k f e o ∙ rw (passed, own) refl))
                (sent_aged broken ks k f (aged mn) passed o)

  pub spec_sends_lem : (broken ks : List Key) (f : Fib) → IsPreorder ks → Closed broken ks f
  unfolding spec_sends
  spec_sends_lem broken [] f o = refl
  spec_sends_lem broken (k ∷ ks) f o = elim (Bool-cases (any_covers broken k)) [
    | inl e ↦ sends-skipped broken ks k f e (spec_sends_lem broken ks f o.1)
    | inr e ↦ elim (Option-cases (f k)) [
      | inl e' ↦ sends-nothing broken ks k f e o.0 e' (spec_sends_lem broken ks f o.1)
      | inr (mn, e') ↦ elim (Bool-cases (is_static mn.state)) [
        | inl s ↦ sends-kept broken ks k f e o.0 mn e' s (spec_sends_lem (k ∷ broken) ks f o.1)
        | inr s ↦
            sends-ages broken ks k f e o.0 mn e' s
              (spec_sends_lem broken ks (override f k (aged mn)) o.1)
      ]
    ]
  ]

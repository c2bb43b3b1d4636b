-- ===== src/LinkedList/Search.antt =====
-- What the search loops find, on pointers and on the values behind them.
use lixy.Base.{
  ℕ, suc, ◌≡◌, refl, ◌≢◌, ◌<◌, if◌then◌else◌, Bool, true, false, Option, none, some, List, [], ◌∷◌,
  map, arith, remove_at, All, Bool-cases, length, inl, inr,
}
use lixy.LinkedList.{position, search_nodes}
use lixy.LinkedList.Pool.{update}

-- The specification of the searches, on plain lists.
module _ {A : Type 0} where
  abbrev pub find : (A → Bool) → List A → Option A
  find test [] = none
  find test (a ∷ as') = if test a then some a else find test as'

  abbrev pub remove_first : (A → Bool) → List A → List A
  remove_first test [] = []
  remove_first test (a ∷ as') = if test a then as' else a ∷ remove_first test as'

  abbrev pub modify_first : (A → Bool) → (A → A) → List A → List A
  modify_first test f [] = []
  modify_first test f (a ∷ as') = if test a then f a ∷ as' else a ∷ modify_first test f as'

  pub find-none-All :
      (test : A → Bool) (as' : List A) → find test as' ≡ none → All (λ a. test a ≡ false) as'
  find-none-All test [] h = tt
  find-none-All test (a ∷ as') h = elim (Bool-cases (test a)) [
    | inl e ↦ absurd (cc (rw e at h))
    | inr e ↦ (e, find-none-All test as' (rw e at h))
  ]

-- The addresses differ from one another.
abbrev pub Distinct : List ℕ → Type 0
Distinct [] = Unit
Distinct (p ∷ ps) = All (λ q. q ≢ p) ps × Distinct ps

module _ {A : Type 0} (cell : ℕ → A) (test : A → Bool) where
  pub search_nodes-find :
      (ps : List ℕ)
      → find test (map cell ps)
        ≡ elim (search_nodes (λ p. test (cell p)) ps) [ none ↦ none | some p ↦ some (cell p) ]
  search_nodes-find [] = refl
  search_nodes-find (p ∷ ps) = ground (arith, search_nodes-find ps)

  -- The pointer found stands where the first matching value stands.
  pub position-search_nodes :
      (ps : List ℕ) {p : ℕ}
      → search_nodes (λ q. test (cell q)) ps ≡ some p
      → (i : ℕ) × (position p ps ≡ some i)
        × (remove_at i (map cell ps) ≡ remove_first test (map cell ps))
        × (test (cell p) ≡ true)
        × (i < length ps)
  position-search_nodes [] h = absurd (cc)
  position-search_nodes (q ∷ ps) {p} h = elim (Bool-cases (test (cell q))) [
    | inl e ↦ (0, ground arith, ground arith, ground arith, omega arith)
    | inr e ↦
        let (i, at_i, rest, hit, lt) = position-search_nodes ps {p = p} (rw e at h) in
        (suc i, ground arith, ground arith, hit, omega arith)
  ]

  map-update_absent :
      (ps : List ℕ) (p : ℕ) (a : A) → All (λ q. q ≢ p) ps → map (update cell p a) ps ≡ map cell ps
  map-update_absent [] p a h = refl
  map-update_absent (q ∷ ps) p a h = ground (arith, map-update_absent ps p a)

  pub map-update_found :
      (ps : List ℕ) (f : A → A) {p : ℕ}
      → Distinct ps
      → search_nodes (λ q. test (cell q)) ps ≡ some p
      → map (update cell p (f (cell p))) ps ≡ modify_first test f (map cell ps)
  map-update_found [] f d h = refl
  map-update_found (q ∷ ps) f {p} d h = elim (Bool-cases (test (cell q))) [
    | inl e ↦ ground (arith, map-update_absent ps p (f (cell p)))
    | inr e ↦ ground (arith, map-update_found ps f {p = p} d.1, position-search_nodes ps {p = p})
  ]

pub map-update_fresh :
    {A : Type 0} (cell : ℕ → A) (ps : List ℕ) (n : ℕ) (a : A)
    → All (λ p. p < n) ps
    → map (update cell n a) ps ≡ map cell ps
map-update_fresh cell [] n a h = refl
map-update_fresh cell (q ∷ ps) n a h = ground (arith, map-update_fresh cell ps n a)

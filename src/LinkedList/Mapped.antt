-- ===== src/LinkedList/Mapped.antt =====
-- The searches of list.c on a list of views: they commute with `map`.
use lixy.Base.{◌≡◌, refl, ap, Bool, none, some, List, [], ◌∷◌, map, All, Bool-cases, inl, inr}
use lixy.LinkedList.Search.{find, remove_first, modify_first}

module _ {A B : Type 0} (test : B → Bool) (view : A → B) where
  pub find-map :
      (xs : List A)
      → find test (map view xs)
        ≡ elim (find (λ a. test (view a)) xs) [ none ↦ none | some a ↦ some (view a) ]
  find-map [] = refl
  find-map (x ∷ xs) = elim (Bool-cases (test (view x))) [
    | inl e ↦ rw e refl
    | inr e ↦ rw e (find-map xs)
  ]

  pub remove_first-map :
      (xs : List A)
      → remove_first test (map view xs) ≡ map view (remove_first (λ a. test (view a)) xs)
  remove_first-map [] = refl
  remove_first-map (x ∷ xs) = elim (Bool-cases (test (view x))) [
    | inl e ↦ rw e refl
    | inr e ↦ rw e (ap (◌∷◌ (view x)) (remove_first-map xs))
  ]

  pub modify_first-map :
      (b : A) (xs : List A)
      → modify_first test (λ _. view b) (map view xs)
        ≡ map view (modify_first (λ a. test (view a)) (λ _. b) xs)
  modify_first-map b [] = refl
  modify_first-map b (x ∷ xs) = elim (Bool-cases (test (view x))) [
    | inl e ↦ rw e refl
    | inr e ↦ rw e (ap (◌∷◌ (view x)) (modify_first-map b xs))
  ]

-- Views that agree on each element.
pub map-agree :
    {A B : Type 0} (f g : A → B) (xs : List A) → All (λ a. f a ≡ g a) xs → map f xs ≡ map g xs
map-agree f g [] h = refl
map-agree f g (x ∷ xs) h = λ i. h.0 i ∷ map-agree f g xs h.1 i

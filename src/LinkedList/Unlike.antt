-- ===== src/LinkedList/Unlike.antt =====
-- Lists no two of whose values match, and what the list operations do to that.
use lixy.Base.{
  ◌≡◌, ◌∙◌, Bool, false, none, some, List, [], ◌∷◌, ◌++◌, arith, All, All-append, All-map,
  Bool-cases, inl, inr, subst, ap,
}
use lixy.LinkedList.Search.{find, remove_first, modify_first, find-none-All}

module _ {A : Type 0} where
  -- No value matches one before it.
  abbrev pub Unlike : (A → A → Bool) → List A → Type 0
  Unlike like [] = Unit
  Unlike like (a ∷ as') = All (λ b. like b a ≡ false) as' × Unlike like as'

  pub Unlike-append :
      (like : A → A → Bool) (as' : List A) (b : A)
      → find (like b) as' ≡ none
      → Unlike like as'
      → Unlike like (as' ++ b ∷ [])
  Unlike-append like [] b h d = (tt, tt)
  Unlike-append like (a ∷ as') b h d =
      let new = find-none-All (like b) (a ∷ as') h in
      (
        All-append (λ c. like c a ≡ false) as' (b ∷ []) d.0 (new.0, tt),
        Unlike-append like as' b
            (elim (Bool-cases (like b a)) [ inl e ↦ absurd (cc (new.0)) | inr e ↦ rw e at h ]) d.1,
      )

  pub All-remove_first :
      (P : A → Type 0) (test : A → Bool) (as' : List A) → All P as' → All P (remove_first test as')
  All-remove_first P test [] h = tt
  All-remove_first P test (a ∷ as') h = ground (arith, All-remove_first P test as' h.1)

  pub Unlike-remove_first :
      (like : A → A → Bool) (test : A → Bool) (as' : List A)
      → Unlike like as'
      → Unlike like (remove_first test as')
  Unlike-remove_first like test [] d = tt
  Unlike-remove_first like test (a ∷ as') d = ground (
    arith,
    All-remove_first (λ (b : A). like b a ≡ false) test as' d.0,
    Unlike-remove_first like test as' d.1,
  )

  pub All-modify_first :
      (P : A → Type 0) (test : A → Bool) (as' : List A) {a : A} (b : A)
      → find test as' ≡ some a
      → (P a → P b)
      → All P as'
      → All P (modify_first test (λ _. b) as')
  All-modify_first P test [] b h f d = tt
  All-modify_first P test (c ∷ as') {a} b h f d = elim (Bool-cases (test c)) [
    | inl e ↦ rw e (f (subst P (cc (rw e at h)) d.0), d.1)
    | inr e ↦ rw e (d.0, All-modify_first P test as' b (rw e at h) f d.1)
  ]

  -- A value may be replaced by one that matches the same values.
  pub Unlike-modify_first :
      (like : A → A → Bool) (test : A → Bool) (as' : List A) {a : A} (b : A)
      → find test as' ≡ some a
      → ((c : A) → like c b ≡ like c a)
      → ((c : A) → like b c ≡ like a c)
      → Unlike like as'
      → Unlike like (modify_first test (λ _. b) as')
  Unlike-modify_first like test [] b h l r d = tt
  Unlike-modify_first like test (c ∷ as') {a} b h l r d = elim (Bool-cases (test c)) [
    | inl e ↦ rw e (All-map _ _ (λ x k. l x ∙ ap (like x) (cc (rw e at h)) ∙ k) as' d.0, d.1)
    | inr e ↦ rw e (
      All-modify_first (λ x. like x c ≡ false) test as' b (rw e at h) (λ k. r c ∙ k) d.0,
      Unlike-modify_first like test as' b (rw e at h) l r d.1,
    )
  ]

  -- What a search finds is in the list.
  pub All-find :
      (P : A → Type 0) (test : A → Bool) (as' : List A) {a : A}
      → find test as' ≡ some a
      → All P as'
      → P a
  All-find P test [] h d = absurd (cc)
  All-find P test (c ∷ as') {a} h d = elim (Bool-cases (test c)) [
    | inl e ↦ subst P (cc (rw e at h)) d.0
    | inr e ↦ All-find P test as' (rw e at h) d.1
  ]

-- ===== src/Aging/Expiry.antt =====
-- A round of the aging thread entry by entry.
use lixy.Platform.Patricia.Covers.{covers_refl, any_covers_trans, key_eq_below, and_false}
use lixy.Base.{
  ◌≡◌, refl, sym, ◌&&◌, ap, ◌∙◌, ◌||◌, if◌then◌else◌, Bool, true, false, Option, none, some, List,
  [], ◌∷◌, arith, All, Option-cases, Bool-cases, inl, inr,
}
use lixy.Platform.Patricia.{
  Patricia, LawfulPatricia, Key, key_eq, key_eq_iff, covers, contains, IsPreorder, any_covers,
}
use lixy.Maptable.{Maptable, MapNode, is_static}
use lixy.Maptable.Fib.{Fib, fib, fetch, RibInv, override, holds_static}
use lixy.Map.Receive.{Output, ◌>>=◌}
use lixy.Aging.{age_maptable}
use lixy.Aging.Walk.{aged, spec_walk, age_maptable-refines}

-- A static entry covers the key.
abbrev pub under_static : Fib → List Key → Key → Bool
under_static f [] k = false
under_static f (j ∷ js) k = (covers j k && holds_static (f j)) || under_static f js k

-- What a round makes of the entry of a key.
abbrev pub spec_age : Fib → List Key → Fib
spec_age f ks k = if under_static f ks k then f k else if contains ks k then f k >>= aged else f k

-- What comes later does not cover the key.
pub not_under :
    (ks : List Key) (f : Fib) (k : Key)
    → All (λ j. covers j k ≡ false) ks
    → (under_static f ks k ≡ false) × (contains ks k ≡ false)
not_under [] f k h = (refl, refl)
not_under (j ∷ js) f k h =
    let rest = not_under js f k h.1 in (rw h.0 rest.0, rw (key_eq_below j k h.0) rest.1)

-- A change at a key that does not come later changes nothing there.
pub under_static-override :
    (ks : List Key) (f : Fib) (i : Key) (o : Option MapNode) (k : Key)
    → All (λ j. covers j i ≡ false) ks
    → under_static (override f i o) ks k ≡ under_static f ks k
under_static-override [] f i o k h = refl
under_static-override (j ∷ js) f i o k h =
    let rest = under_static-override js f i o k h.1 in
    let other : key_eq j i ≡ false = elim (Bool-cases (key_eq j i)) [
      | inl e ↦ absurd (cc (covers_refl i, (key_eq_iff j i).0 e, h.0))
      | inr e ↦ e
    ] in
    rw (other, rest) refl

module _ (broken ks : List Key) (f : Fib) (h : Key) where
  walk-skipped : any_covers broken h ≡ true → spec_walk broken (h ∷ ks) f ≡ spec_walk broken ks f
  unfolding spec_walk
  walk-skipped e = rw e refl

  module _ (e : any_covers broken h ≡ false) where
    walk-nothing : f h ≡ none → spec_walk broken (h ∷ ks) f ≡ spec_walk broken ks f
    unfolding spec_walk
    walk-nothing e' = rw (e, e') refl

    module _ (mn : MapNode) (e' : f h ≡ some mn) where
      walk-kept :
          is_static mn.state ≡ true → spec_walk broken (h ∷ ks) f ≡ spec_walk (h ∷ broken) ks f
      unfolding spec_walk
      walk-kept s = rw (e, e') (rw s refl)

      walk-ages :
          is_static mn.state ≡ false
          → spec_walk broken (h ∷ ks) f ≡ spec_walk broken ks (override f h (aged mn))
      unfolding spec_walk
      walk-ages s = rw (e, e') (rw s refl)

pub spec_walk_lem :
    (broken ks : List Key) (f : Fib) (k : Key)
    → IsPreorder ks
    → spec_walk broken ks f k ≡ (if any_covers broken k then f k else spec_age f ks k)
unfolding spec_walk
spec_walk_lem broken [] f k o = elim (Bool-cases (any_covers broken k)) [
  | inl e ↦ rw e refl
  | inr e ↦ rw e refl
]
spec_walk_lem broken (h ∷ ks) f k o = elim (Bool-cases (any_covers broken h)) [
  | inl e ↦
      ap (λ g. g k) (walk-skipped broken ks f h e) ∙ spec_walk_lem broken ks f k o.1 ∙ skipped e
  | inr e ↦ elim (Option-cases (f h)) [
    | inl e' ↦
        ap (λ g. g k) (walk-nothing broken ks f h e e')
        ∙ spec_walk_lem broken ks f k o.1
        ∙ nothing e'
    | inr (mn, e') ↦ elim (Bool-cases (is_static mn.state)) [
      | inl s ↦
          ap (λ g. g k) (walk-kept broken ks f h e mn e' s)
          ∙ spec_walk_lem (h ∷ broken) ks f k o.1
          ∙ kept mn e' s
      | inr s ↦
          ap (λ g. g k) (walk-ages broken ks f h e mn e' s)
          ∙ spec_walk_lem broken ks (override f h (aged mn)) k o.1
          ∙ ages mn e e' s
    ]
  ]
]
  where
    skipped :
        any_covers broken h ≡ true
        → (if any_covers broken k then f k else spec_age f ks k)
          ≡ (if any_covers broken k then f k else spec_age f (h ∷ ks) k)
    skipped e = elim (Bool-cases (any_covers broken k)) [
      | inl c ↦ rw c refl
      | inr c ↦
          let above : covers h k ≡ false = elim (Bool-cases (covers h k)) [
            | inl d ↦ absurd (cc (any_covers_trans broken h k e d, c))
            | inr d ↦ d
          ] in
          rw (c, above, key_eq_below h k above) refl
    ]

    nothing :
        f h ≡ none
        → (if any_covers broken k then f k else spec_age f ks k)
          ≡ (if any_covers broken k then f k else spec_age f (h ∷ ks) k)
    nothing e' = elim (Bool-cases (key_eq k h)) [
      | inl d ↦
          let gone : f k ≡ none = ap f ((key_eq_iff k h).0 d) ∙ e' in rw (gone, d) (ground arith)
      | inr d ↦ rw (d, and_false (covers h k) (holds_static (f h)) (rw e' refl)) refl
    ]

    kept :
        (mn : MapNode)
        → f h ≡ some mn
        → is_static mn.state ≡ true
        → (if any_covers (h ∷ broken) k then f k else spec_age f ks k)
          ≡ (if any_covers broken k then f k else spec_age f (h ∷ ks) k)
    kept mn e' s = elim (Bool-cases (covers h k)) [
      | inl d ↦ rw (d, e') (rw s (ground arith))
      | inr d ↦ rw (d, key_eq_below h k d) refl
    ]

    ages :
        (mn : MapNode)
        → any_covers broken h ≡ false
        → f h ≡ some mn
        → is_static mn.state ≡ false
        → (if any_covers broken k
            then override f h (aged mn) k
            else spec_age (override f h (aged mn)) ks k)
          ≡ (if any_covers broken k then f k else spec_age f (h ∷ ks) k)
    ages mn e e' s =
        rw (under_static-override ks f h (aged mn) k o.0) (elim (Bool-cases (key_eq k h)) [
          | inl d ↦
              let same = (key_eq_iff k h).0 d in
              let below = not_under ks f h o.0 in
              rw
                (
                  d,
                  ap (any_covers broken) same ∙ e,
                  ap (under_static f ks) same ∙ below.0,
                  ap (contains ks) same ∙ below.1,
                  ap f same ∙ e',
                  e',
                )
                (rw (s, and_false (covers h k) false refl) refl)
          | inr d ↦ rw (d, and_false (covers h k) (holds_static (f h)) (rw e' s)) refl
        ])

module _ (t : Patricia) (law : LawfulPatricia t) where
  absent :
      (r : Maptable t) (k : Key)
      → spec_age (fib t r) (t.walk r.tree) k
        ≡ (if under_static (fib t r) (t.walk r.tree) k then fib t r k else fib t r k >>= aged)
  absent r k = elim (Bool-cases (contains (t.walk r.tree) k)) [
    | inl e ↦ rw e refl
    | inr e ↦
        let gone : fib t r k ≡ none =
          ap (fetch t r) (law.data_of_none r.tree k (sym (law.contains-walk r.tree k) ∙ e)) in
        rw (e, gone) refl
  ]

  -- A round on a well-formed table comes to its end without a NULL dereference and leaves a
  -- well-formed table. An entry that a static one covers, or that is static, stays as it is. From
  -- any other, ten seconds are taken, and it goes when none are left.
  pub age_maptable-ages :
      (r : Maptable t)
      → RibInv t r
      → (r' : Maptable t) × (out : List Output) × (age_maptable t r ≡ some (r', out))
        × RibInv t r'
        × ((k : Key)
            → fib t r' k ≡ (
                if under_static (fib t r) (t.walk r.tree) k then fib t r k else fib t r k >>= aged))
  age_maptable-ages r v =
      let (r', out, e, v', entries) = age_maptable-refines t law r v in
      (
        r',
        out,
        e,
        v',
        λ k.
            ap (λ f. f k) entries
            ∙ spec_walk_lem [] (t.walk r.tree) (fib t r) k (law.walk-IsPreorder r.tree)
            ∙ absent r k,
      )

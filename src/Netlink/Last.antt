-- ===== src/Netlink/Last.antt =====
-- The addresses that `is_route_scope_link` is left with for IPv6.
use lixy.Base.{
  ℕ, zero, suc, ◌≡◌, refl, sym, ap, ◌∙◌, ◌≤◌, ◌==◌, if◌then◌else◌, false, List, [], ◌∷◌, ◌++◌,
  arith, take, drop, length, All, Bool-cases, inl, inr,
}
use lixy.Netlink.{
  Attribute, RouteMessage, Route, rta_gateway, rta_dst, see_attribute, see_attributes, see_messages,
}

-- The data of the attributes of a type, in order.
abbrev pub data_of : ℕ → List Attribute → List (List ℕ)
data_of type [] = []
data_of type (a ∷ later) =
    let rest = data_of type later in if a.rta_type == type then a.rta_data ∷ rest else rest

abbrev pub data_in : ℕ → List RouteMessage → List (List ℕ)
data_in type [] = []
data_in type (m ∷ ms) = data_of type m.attributes ++ data_in type ms

abbrev pub last_or : List ℕ → List (List ℕ) → List ℕ
last_or old [] = old
last_or old (d ∷ ds) = last_or d ds

-- Every attribute has as many bytes as an IPv6 address behind it in the buffer.
abbrev pub IsFull : List Attribute → Type 0
IsFull = All (λ a. 16 ≤ length a.rta_data)

last_or-append :
    (ds es : List (List ℕ)) (old : List ℕ) → last_or old (ds ++ es) ≡ last_or (last_or old ds) es
last_or-append [] es old = refl
last_or-append (d ∷ ds) es old = last_or-append ds es d

last_or-take :
    (n : ℕ) (ds : List (List ℕ)) (x y : List ℕ)
    → take n x ≡ take n y
    → take n (last_or x ds) ≡ take n (last_or y ds)
last_or-take n [] x y e = e
last_or-take n (d ∷ ds) x y e = refl

take-copied : (n : ℕ) (d old : List ℕ) → n ≤ length d → take n (take n d ++ drop n old) ≡ take n d
take-copied zero d old h = refl
take-copied (suc n) [] old h = absurd (omega arith)
take-copied (suc n) (x ∷ d) [] h = ap (λ zs. x ∷ zs) (take-nothing n d (omega arith))
  where
    take-nothing : (n : ℕ) (d : List ℕ) → n ≤ length d → take n (take n d ++ []) ≡ take n d
    take-nothing zero d h = refl
    take-nothing (suc n) [] h = absurd (omega arith)
    take-nothing (suc n) (x ∷ d) h = ap (λ zs. x ∷ zs) (take-nothing n d (omega arith))
take-copied (suc n) (x ∷ d) (y ∷ old) h = ap (λ zs. x ∷ zs) (take-copied n d old (omega arith))

module _ (scope : ℕ) where
  see_attributes-gwy :
      (found : List Attribute) (r : Route)
      → IsFull found
      → take 16 (see_attributes 16 scope r found).gwy
        ≡ take 16 (last_or r.gwy (data_of rta_gateway found))
  unfolding see_attributes see_attribute
  see_attributes-gwy [] r h = refl
  see_attributes-gwy (a ∷ later) r h =
      let r' = see_attribute 16 scope r a in
      see_attributes-gwy later r' h.1 ∙ elim (Bool-cases (a.rta_type == rta_gateway)) [
        | inl e ↦ rw e (
            last_or-take 16 (data_of rta_gateway later) _ a.rta_data
              (take-copied 16 a.rta_data r.gwy h.0))
        | inr e ↦ rw e (elim (Bool-cases (a.rta_type == rta_dst)) [
          | inl e' ↦ rw e' refl
          | inr e' ↦ rw e' refl
        ])
      ]

  see_attributes-dst :
      (found : List Attribute) (r : Route)
      → IsFull found
      → take 16 (see_attributes 16 scope r found).dst
        ≡ take 16 (last_or r.dst (data_of rta_dst found))
  unfolding see_attributes see_attribute
  see_attributes-dst [] r h = refl
  see_attributes-dst (a ∷ later) r h =
      let r' = see_attribute 16 scope r a in
      see_attributes-dst later r' h.1 ∙ elim (Bool-cases (a.rta_type == rta_gateway)) [
        | inl e ↦ let other : (a.rta_type == rta_dst) ≡ false = ground arith in rw (e, other) refl
        | inr e ↦ rw e (elim (Bool-cases (a.rta_type == rta_dst)) [
          | inl e' ↦ rw e' (
              last_or-take 16 (data_of rta_dst later) _ a.rta_data
                (take-copied 16 a.rta_data r.dst h.0))
          | inr e' ↦ rw e' refl
        ])
      ]

-- After the loops, the first 16 bytes of `gwy` and `dst` are those of the last gateway and the last
-- destination in the answer, or what they were where there is none.
pub see_messages-last :
    (ms : List RouteMessage) (r : Route)
    → All (λ m. IsFull m.attributes) ms
    → (take 16 (see_messages 16 r ms).gwy ≡ take 16 (last_or r.gwy (data_in rta_gateway ms)))
      × (take 16 (see_messages 16 r ms).dst ≡ take 16 (last_or r.dst (data_in rta_dst ms)))
unfolding see_messages
see_messages-last [] r h = (refl, refl)
see_messages-last (m ∷ ms) r h =
    let r' = see_attributes 16 m.rtm_scope r m.attributes in
    let rest = see_messages-last ms r' h.1 in
    let gwys = data_of rta_gateway m.attributes in
    let dsts = data_of rta_dst m.attributes in
    (
      rest.0
          ∙ last_or-take 16 (data_in rta_gateway ms) r'.gwy (last_or r.gwy gwys)
              (see_attributes-gwy m.rtm_scope m.attributes r h.0)
          ∙ ap (take 16) (sym (last_or-append gwys (data_in rta_gateway ms) r.gwy)),
      rest.1
          ∙ last_or-take 16 (data_in rta_dst ms) r'.dst (last_or r.dst dsts)
              (see_attributes-dst m.rtm_scope m.attributes r h.0)
          ∙ ap (take 16) (sym (last_or-append dsts (data_in rta_dst ms) r.dst)),
    )

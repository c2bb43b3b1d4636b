-- ===== src/Map/Request/Body.antt =====
-- The first byte of a map request, and the sizes of its inner source addresses.

use lixy.Base.{
  ℕ, suc, ◌≡◌, refl, subst, ◌+◌, ◌%◌, ◌==◌, false, some, List, [], ◌∷◌, ◌++◌, length, take, drop,
  length-take, arith, All, Option-cases, Bool-cases, inl, inr,
}
use mathlib.Core.Option.{some-injective}
use lixy.Net.{Prefix, Locator, af_inet, af_inet6}
use lixy.Wire.{af_to_lispafi}
use lixy.Wire.Bytes.{be16}
use lixy.Map.Build.{put_address}
use lixy.Map.Receive.Select.{IsLocator}
use lixy.Map.Request.{
  first_locator, get_locator_of, source_address, overwrite, step_over, add_itr, set_itr_locators,
  request_header, request_body,
}

-- The locator that is chosen has the family that is asked for.
first_locator-family :
    (af : ℕ) (locs : List Locator) (loc : Locator)
    → (af == 0) ≡ false
    → All IsLocator locs
    → first_locator af locs ≡ some loc
    → IsLocator loc × (af ≡ loc.loc_addr.family)
unfolding first_locator
first_locator-family af [] loc z h e = absurd (cc e)
first_locator-family af (l ∷ ls) loc z h e = elim (Bool-cases (af == l.loc_addr.family)) [
  | inl same ↦
      let it : some l ≡ some loc = rw same at e in
      subst (λ (x : Locator). IsLocator x × (af ≡ x.loc_addr.family)) (some-injective _ _ it)
        (h.0, ground arith)
  | inr other ↦ first_locator-family af ls loc z h.1 (rw (other, z) at e)
]

-- A request goes on to be one while the locators are put into it.
unfoldable pub IsRequest : List ℕ → Type 0
IsRequest buf = (rest : List ℕ) × (buf ≡ 16 ∷ rest)

overwrite-IsRequest :
    (buf : List ℕ) (ptr : ℕ) (bytes : List ℕ)
    → IsRequest buf
    → IsRequest (overwrite buf (suc ptr) bytes)
unfolding overwrite IsRequest
overwrite-IsRequest buf ptr bytes (rest, e) =
    (take ptr rest ++ bytes ++ drop (suc ptr + 2) buf, rw e refl)

pub append-IsRequest : (buf more : List ℕ) → IsRequest buf → IsRequest (buf ++ more)
unfolding IsRequest
append-IsRequest buf more (rest, e) = (rest ++ more, rw e refl)

step_over-IsRequest :
    (stack : ℕ → ℕ) (n : ℕ) (buf : List ℕ) → IsRequest buf → IsRequest (step_over stack n buf)
unfolding step_over
step_over-IsRequest stack n buf h = elim (Bool-cases (length buf == n)) [
  | inl e ↦ rw e (append-IsRequest buf (stack n ∷ stack (n + 1) ∷ []) h)
  | inr e ↦ rw e h
]

add_itr-IsRequest :
    (stack : ℕ → ℕ) (ptr : ℕ) (buf : List ℕ) (afi : ℕ) (address : List ℕ)
    → IsRequest buf
    → IsRequest (add_itr stack (suc ptr) buf afi address)
unfolding add_itr
add_itr-IsRequest stack ptr buf afi address h =
    append-IsRequest _ address
      (step_over-IsRequest stack (length buf) _ (overwrite-IsRequest buf ptr (be16 afi) h))

itrs-IsRequest :
    (stack : ℕ → ℕ) (ptr : ℕ) (locs : List Locator) (buf out : List ℕ)
    → IsRequest buf
    → set_itr_locators stack (suc ptr) buf locs ≡ some out
    → IsRequest out
unfolding set_itr_locators
itrs-IsRequest stack ptr [] buf out h e = subst IsRequest (some-injective _ _ e) h
itrs-IsRequest stack ptr (loc ∷ locs) buf out h e =
    elim (Bool-cases (loc.loc_addr.family == af_inet)) [
      | inl f ↦
          itrs-IsRequest stack ptr locs _ out (add_itr-IsRequest stack ptr buf _ _ h) (rw f at e)
      | inr f ↦ elim (Bool-cases (loc.loc_addr.family == af_inet6)) [
        | inl g ↦
            itrs-IsRequest stack ptr locs _ out (add_itr-IsRequest stack ptr buf _ _ h)
              (rw (f, g) at e)
        | inr g ↦ absurd (cc (rw (f, g) at e))
      ]
    ]

pub body-IsRequest :
    (stack : ℕ → ℕ) (start : ℕ) (prefix : Prefix) (nonce : List ℕ) (count : ℕ) (locs : List Locator)
    (body : List ℕ)
    → request_body stack start prefix nonce count locs ≡ some body
    → IsRequest body
unfolding request_body request_header IsRequest
body-IsRequest stack start prefix nonce count locs body e =
    let head = request_header count nonce ++ 0 ∷ 0 ∷ [] in
    let itrs = set_itr_locators (λ i. stack (start + i)) (length head) head locs in
    elim (Option-cases itrs) [
      | inl none_built ↦ absurd (cc (rw (none_built, request_body) at e))
      | inr (out, built) ↦ subst IsRequest (some-injective _ _ (rw (built, request_body) at e)) (
          append-IsRequest _ (put_address prefix.family prefix.add) (
            append-IsRequest out (0 ∷ (prefix.bitlen % 256) ∷ be16 (af_to_lispafi prefix.family))
              (itrs-IsRequest _ _ locs head out (_, refl) built)))
    ]

chosen-family :
    (af count : ℕ) (locs : List Locator) (loc : Locator)
    → (af == 0) ≡ false
    → All IsLocator locs
    → get_locator_of af count locs ≡ some loc
    → IsLocator loc × (af ≡ loc.loc_addr.family)
unfolding get_locator_of
chosen-family af count locs loc z h e = elim (Bool-cases (count == 0)) [
  | inl c ↦ absurd (cc (rw c at e))
  | inr c ↦ first_locator-family af locs loc z h (rw c at e)
]

-- The source address has the size that its family wants.
pub length-source_address4 :
    (count : ℕ) (locs : List Locator)
    → All IsLocator locs
    → length (source_address af_inet count locs) ≡ 4
unfolding source_address
length-source_address4 count locs h = elim (Option-cases (get_locator_of af_inet count locs)) [
  | inl e ↦ rw (e, source_address) refl
  | inr (loc, e) ↦
      rw (e, source_address) (sized loc (chosen-family af_inet count locs loc refl h e))
]
  where
    sized :
        (loc : Locator)
        → IsLocator loc × (af_inet ≡ loc.loc_addr.family)
        → length (take 4 loc.loc_addr.addr) ≡ 4
    sized loc (inl (f, n), g) = omega (arith, length-take 4 loc.loc_addr.addr, n)
    sized loc (inr (f, n), g) = absurd (omega (arith, f, g))

pub length-source_address6 :
    (count : ℕ) (locs : List Locator)
    → All IsLocator locs
    → length (source_address af_inet6 count locs) ≡ 16
unfolding source_address
length-source_address6 count locs h = elim (Option-cases (get_locator_of af_inet6 count locs)) [
  | inl e ↦ rw (e, source_address) refl
  | inr (loc, e) ↦
      rw (e, source_address) (sized loc (chosen-family af_inet6 count locs loc refl h e))
]
  where
    sized :
        (loc : Locator)
        → IsLocator loc × (af_inet6 ≡ loc.loc_addr.family)
        → length (take 16 loc.loc_addr.addr) ≡ 16
    sized loc (inl (f, n), g) = absurd (omega (arith, f, g))
    sized loc (inr (f, n), g) = omega (arith, length-take 16 loc.loc_addr.addr, n)

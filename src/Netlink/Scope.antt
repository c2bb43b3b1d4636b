-- ===== src/Netlink/Scope.antt =====
-- When `is_route_scope_link` takes a destination for one on a link.

use lixy.Base.{
  ℕ, ◌≡◌, refl, sym, ap, ap₂, ◌∙◌, ◌==◌, ◌||◌, not, Bool, true, false, Option, some, List, [], ◌∷◌,
  arith, Bool-cases, Option-cases, inl, inr,
}
use lixy.Net.{af_inet, af_inet6}
use lixy.Map.Receive.{◌>>=◌}
use lixy.Base.{All, take, bytes_eq}
use lixy.Netlink.Last.{IsFull, data_in, last_or, see_messages-last}
use lixy.Netlink.{
  rta_dst, Attribute, RouteMessage, Route, rta_gateway, rta_dst, rt_scope_link, addr_len,
  see_attribute, see_attributes, see_messages, is_link, start, is_route_scope_link, get_route,
}

abbrev any_of {ℓ} : {A : Type ℓ} → (A → Bool) → List A → Bool
any_of f [] = false
any_of f (x ∷ xs) = f x || any_of f xs

-- Some route of the answer has a gateway.
abbrev pub has_gateway : List RouteMessage → Bool
has_gateway = any_of (λ m. any_of (λ a. a.rta_type == rta_gateway) m.attributes)

-- Some route of the answer that has attributes is one on a link.
abbrev pub has_link : List RouteMessage → Bool
has_link = any_of (λ m. any_of (λ a. m.rtm_scope == rt_scope_link) m.attributes)

or_true : (a : Bool) → (a || true) ≡ true
or_true a = ground arith

or_false : (a : Bool) → (a || false) ≡ a
or_false a = ground arith

or_assoc : (a b c : Bool) → ((a || b) || c) ≡ (a || (b || c))
or_assoc a b c = ground arith

see_attribute-flags :
    (n scope : ℕ) (r : Route) (a : Attribute)
    → ((see_attribute n scope r a).gateway_exists
        ≡ (r.gateway_exists || (a.rta_type == rta_gateway)))
      × ((see_attribute n scope r a).scope_link ≡ (r.scope_link || (scope == rt_scope_link)))
unfolding see_attribute
see_attribute-flags n scope r a = (
  elim (Bool-cases (a.rta_type == rta_gateway)) [
    | inl e ↦ rw e (sym (or_true r.gateway_exists))
    | inr e ↦ rw e (elim (Bool-cases (a.rta_type == rta_dst)) [
      | inl e' ↦ rw e' (sym (or_false r.gateway_exists))
      | inr e' ↦ rw e' (sym (or_false r.gateway_exists))
    ])
  ],
  elim (Bool-cases (scope == rt_scope_link)) [
    | inl e ↦ rw e (sym (or_true r.scope_link))
    | inr e ↦ rw e (sym (or_false r.scope_link))
  ],
)

see_attributes-flags :
    (n scope : ℕ) (r : Route) (found : List Attribute)
    → ((see_attributes n scope r found).gateway_exists
        ≡ (r.gateway_exists || any_of (λ a. a.rta_type == rta_gateway) found))
      × ((see_attributes n scope r found).scope_link
          ≡ (r.scope_link || any_of (λ a. scope == rt_scope_link) found))
unfolding see_attributes
see_attributes-flags n scope r [] = (sym (or_false r.gateway_exists), sym (or_false r.scope_link))
see_attributes-flags n scope r (a ∷ later) =
    let here = see_attribute-flags n scope r a in
    let rest = see_attributes-flags n scope (see_attribute n scope r a) later in
    (
      rest.0
          ∙ ap (λ b. b || any_of (λ a. a.rta_type == rta_gateway) later) here.0
          ∙ or_assoc r.gateway_exists _ _,
      rest.1
          ∙ ap (λ b. b || any_of (λ a. scope == rt_scope_link) later) here.1
          ∙ or_assoc r.scope_link _ _,
    )

see_messages-flags :
    (n : ℕ) (r : Route) (ms : List RouteMessage)
    → ((see_messages n r ms).gateway_exists ≡ (r.gateway_exists || has_gateway ms))
      × ((see_messages n r ms).scope_link ≡ (r.scope_link || has_link ms))
unfolding see_messages
see_messages-flags n r [] = (sym (or_false r.gateway_exists), sym (or_false r.scope_link))
see_messages-flags n r (m ∷ ms) =
    let here = see_attributes-flags n m.rtm_scope r m.attributes in
    let rest = see_messages-flags n (see_attributes n m.rtm_scope r m.attributes) ms in
    (
      rest.0 ∙ ap (λ b. b || has_gateway ms) here.0 ∙ or_assoc r.gateway_exists _ _,
      rest.1 ∙ ap (λ b. b || has_link ms) here.1 ∙ or_assoc r.scope_link _ _,
    )

is_link-inet : (r : Route) → is_link af_inet r ≡ (not r.gateway_exists || r.scope_link)
unfolding is_link
is_link-inet r = ground arith

is_link-inet6 :
    (r : Route)
    → is_link af_inet6 r
      ≡ ((not r.gateway_exists || r.scope_link) || bytes_eq (take 16 r.gwy) (take 16 r.dst))
unfolding is_link
is_link-inet6 r = ground arith

-- The gateway that the answer gives last is the destination that it gives last.
abbrev pub gateway_is_dst : List ℕ × List ℕ → List RouteMessage → Bool
gateway_is_dst stack ms =
    bytes_eq (take 16 (last_or stack.0 (data_in rta_gateway ms)))
      (take 16 (last_or stack.1 (data_in rta_dst ms)))

-- Let each attribute of an answer for the address as an IPv6 one have 16 bytes in the buffer. The
-- result is -1 when the kernel does not answer. Otherwise it is, for IPv4, 1 exactly if no route of
-- the answer has a gateway, or a route with attributes has link scope, and 0 if not; for IPv6, it is
-- 1 also if the last gateway of the answer equals its last destination, where what the local
-- variables hold stands for what the answer lacks.
pub is_route_scope_link-flags :
    (kernel : List ℕ → Option (List RouteMessage)) (stack : List ℕ × List ℕ) (addr : List ℕ)
    → ((ms : List RouteMessage)
        → kernel (get_route af_inet6 addr) ≡ some ms
        → All (λ m. IsFull m.attributes) ms)
    → (is_route_scope_link kernel stack af_inet addr
        ≡ (kernel (get_route af_inet addr) >>= λ ms. some (not (has_gateway ms) || has_link ms)))
      × (is_route_scope_link kernel stack af_inet6 addr ≡ (
          kernel (get_route af_inet6 addr) >>= λ ms.
          some ((not (has_gateway ms) || has_link ms) || gateway_is_dst stack ms)))
unfolding is_route_scope_link addr_len
is_route_scope_link-flags kernel stack addr full = (
  elim (Option-cases (kernel (get_route af_inet addr))) [
    | inl e ↦ rw e refl
    | inr (ms, e) ↦
        let flags = see_messages-flags 4 (start stack) ms in
        rw e (
          ap some (
            is_link-inet (see_messages 4 (start stack) ms)
            ∙ ap₂ (λ a b. not a || b) flags.0 flags.1))
  ],
  elim (Option-cases (kernel (get_route af_inet6 addr))) [
    | inl e ↦ rw e refl
    | inr (ms, e) ↦
        let flags = see_messages-flags 16 (start stack) ms in
        let (gwy, dst) = see_messages-last ms (start stack) (full ms e) in
        rw e (
          ap some (
            is_link-inet6 (see_messages 16 (start stack) ms)
            ∙ ap₂ (λ a b. a || b) (ap₂ (λ a b. not a || b) flags.0 flags.1) (ap₂ bytes_eq gwy dst)))
  ],
)

-- ===== src/Netlink.antt =====
-- instance.c: the routes of the kernel, `op_route_to_dev` and `is_route_scope_link`. The structures of
-- rtnetlink are given by their bytes on a little-endian host. What the kernel answers, and what the
-- macros of its headers (NLMSG_NEXT, RTA_NEXT) make of the answer, is a parameter.
pub mod Request
pub mod Last
pub mod Scope
use lixy.Base.{
  ℕ, ◌+◌, ◌-◌, ◌*◌, ◌/◌, ◌%◌, ◌==◌, ◌||◌, ◌&&◌, not, if◌then◌else◌, Bool, true, false, Option, none,
  some, List, [], ◌∷◌, ◌++◌, length, take, drop, replicate, bytes_eq,
}
use lixy.Net.{af_inet, af_inet6}
use lixy.Maptable.{RouteEvent, add_route_to_tun, del_route_to_tun}

-- Numbers in the byte order of the host.
abbrev pub host16 : ℕ → List ℕ
host16 n = (n % 256) ∷ (n / 256 % 256) ∷ []

abbrev pub host32 : ℕ → List ℕ
host32 n = (n % 256) ∷ (n / 256 % 256) ∷ (n / 65536 % 256) ∷ (n / 16777216 % 256) ∷ []

abbrev pub rtm_newroute : ℕ
rtm_newroute = 24

abbrev pub rtm_delroute : ℕ
rtm_delroute = 25

abbrev pub rtm_getroute : ℕ
rtm_getroute = 26

-- NLM_F_REQUEST | NLM_F_CREATE | NLM_F_EXCL
abbrev pub nlm_f_new : ℕ
nlm_f_new = 1537

abbrev pub nlm_f_request : ℕ
nlm_f_request = 1

abbrev pub rta_dst : ℕ
rta_dst = 1

abbrev pub rta_oif : ℕ
rta_oif = 4

abbrev pub rta_gateway : ℕ
rta_gateway = 5

abbrev pub rt_scope_link : ℕ
rt_scope_link = 253

-- `struct nlmsghdr`; the port of the sender is zero.
unfoldable pub nlmsghdr : ℕ → ℕ → ℕ → ℕ → List ℕ
nlmsghdr len type flags seq =
    host32 len ++ host16 type ++ host16 flags ++ host32 seq ++ replicate 4 0

-- `struct rtmsg` in RT_TABLE_MAIN; the source length, the TOS and the flags are zero.
unfoldable pub rtmsg : ℕ → ℕ → ℕ → ℕ → ℕ → List ℕ
rtmsg family dst_len protocol scope type =
    (family % 256) ∷ (dst_len % 256) ∷ 0 ∷ 0 ∷ 254 ∷ protocol ∷ scope ∷ type ∷ replicate 4 0

-- An attribute whose data needs no padding.
unfoldable pub rtattr : ℕ → List ℕ → List ℕ
rtattr type data' = host16 (4 + length data') ++ host16 type ++ data'

-- `addrlen`
unfoldable pub addr_len : ℕ → ℕ
addr_len af = if af == af_inet then 4 else 16

-- The message of `op_route_to_dev`, `none` for -1. `tunifindex` is what `if_nametoindex` returns.
unfoldable pub op_route_to_dev : ℕ → ℕ → ℕ → List ℕ → ℕ → Option (List ℕ)
op_route_to_dev tunifindex op af addr prefixlen =
    if tunifindex == 0
    then none
    else (if op == rtm_newroute
        then some (message nlm_f_new (rtmsg af prefixlen 3 0 1))
        else (if op == rtm_delroute
            then some (message nlm_f_request (rtmsg af prefixlen 0 255 0))
            else none))
  where
    addrlen : ℕ
    addrlen = addr_len af

    message : ℕ → List ℕ → List ℕ
    message flags rt =
        nlmsghdr (28 + (4 + addrlen) + 8) op flags 0
        ++ rt
        ++ rtattr rta_dst (take addrlen addr)
        ++ rtattr rta_oif (host32 tunifindex)

-- `add_route_to_tun` and `del_route_to_tun`
unfoldable pub route_to_tun : ℕ → RouteEvent → Option (List ℕ)
route_to_tun tunifindex (add_route_to_tun p) =
    op_route_to_dev tunifindex rtm_newroute p.family p.add p.bitlen
route_to_tun tunifindex (del_route_to_tun p) =
    op_route_to_dev tunifindex rtm_delroute p.family p.add p.bitlen

-- The request of `is_route_scope_link`: all of `req` is sent, which has 1052 bytes.
unfoldable pub get_route : ℕ → List ℕ → List ℕ
get_route af addr =
    let addrlen = addr_len af in
    nlmsghdr (28 + (4 + addrlen)) rtm_getroute nlm_f_request 1
    ++ rtmsg af (8 * addrlen) 0 rt_scope_link 1
    ++ rtattr rta_dst (take addrlen addr)
    ++ replicate (1020 - addrlen) 0

-- An attribute of an answer, with the bytes from RTA_DATA on.
pub record Attribute : Type 0 where
  pub rta_type : ℕ
  pub rta_data : List ℕ

-- A message of an answer, before NLMSG_DONE.
pub record RouteMessage : Type 0 where
  pub rtm_scope : ℕ
  pub attributes : List Attribute

-- The local variables of the loops. `gwy` and `dst` are not set to begin with.
pub record Route : Type 0 where
  pub gateway_exists : Bool
  pub scope_link : Bool
  pub gwy : List ℕ
  pub dst : List ℕ

unfoldable pub see_attribute : ℕ → ℕ → Route → Attribute → Route
see_attribute addrlen scope r a = record taken {
  scope_link = if scope == rt_scope_link then true else r.scope_link;
}
  where
    copied : List ℕ → List ℕ
    copied old = take addrlen a.rta_data ++ drop addrlen old

    taken : Route
    taken =
        if a.rta_type == rta_gateway
        then record r { gateway_exists = true; gwy = copied r.gwy }
        else (if a.rta_type == rta_dst then record r { dst = copied r.dst } else r)

unfoldable pub see_attributes : ℕ → ℕ → Route → List Attribute → Route
see_attributes addrlen scope r [] = r
see_attributes addrlen scope r (a ∷ later) =
    see_attributes addrlen scope (see_attribute addrlen scope r a) later

unfoldable pub see_messages : ℕ → Route → List RouteMessage → Route
see_messages addrlen r [] = r
see_messages addrlen r (m ∷ ms) =
    see_messages addrlen (see_attributes addrlen m.rtm_scope r m.attributes) ms

-- What is returned after the loops.
unfoldable pub is_link : ℕ → Route → Bool
is_link af r =
    if not r.gateway_exists || r.scope_link
    then true
    else (if af == af_inet6 then bytes_eq (take 16 r.gwy) (take 16 r.dst) else false)

abbrev pub start : List ℕ × List ℕ → Route
start stack = record { gateway_exists = false; scope_link = false; gwy = stack.0; dst = stack.1 }

-- `none` for -1. The kernel's answer to the request is `none` when a system call fails. `stack` is
-- what the local variables hold to begin with.
unfoldable pub is_route_scope_link :
    (List ℕ → Option (List RouteMessage)) → (List ℕ × List ℕ) → ℕ → List ℕ → Option Bool
is_route_scope_link kernel stack af addr =
    if not (af == af_inet) && not (af == af_inet6)
    then none
    else (elim (kernel (get_route af addr)) [
      | none ↦ none
      | some answer ↦ some (is_link af (see_messages (addr_len af) (start stack) answer))
    ])

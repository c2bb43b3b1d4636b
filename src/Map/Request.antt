-- ===== src/Map/Request.antt =====
-- map.c: the builder of map request messages. `stack` is what the caller's uninitialised buffer
-- holds at each offset.
pub mod Body
pub mod Bounds
pub mod Header
use lixy.Base.{
  ℕ, ◌+◌, ◌-◌, ◌*◌, ◌/◌, ◌%◌, ◌==◌, ◌||◌, if◌then◌else◌, Option, none, some, List, [], ◌∷◌, ◌++◌,
  length, take, drop, replicate,
}
use lixy.LinkedList.{u32}
use lixy.Net.{Prefix, Locator, af_inet, af_inet6}
use lixy.Wire.{af_to_lispafi, lisp_afi_ipv4, lisp_afi_ipv6}
use lixy.Wire.Bytes.{be16}
use lixy.Map.Headers.{set_ip_hdr, set_ip6_hdr, set_udp_hdr, chksum}
use lixy.Map.Build.{put_address}

-- The loop of `get_locator`.
unfoldable pub first_locator : ℕ → List Locator → Option Locator
first_locator af [] = none
first_locator af (loc ∷ locs) =
    let rest = first_locator af locs in
    if af == loc.loc_addr.family || af == 0 then some loc else rest

-- `count` is MYLIST_COUNT of the locators.
unfoldable pub get_locator_of : ℕ → ℕ → List Locator → Option Locator
get_locator_of af count locs = if count == 0 then none else first_locator af locs

-- The source address of the inner header; zeros without a locator of the family.
unfoldable pub source_address : ℕ → ℕ → List Locator → List ℕ
source_address af count locs = elim (get_locator_of af count locs) [
  | none ↦ replicate (if af == af_inet then 4 else 16) 0
  | some loc ↦ put_address af loc.loc_addr.addr
]

-- `memcpy` of two bytes to an offset in or just behind what is written already.
unfoldable pub overwrite : List ℕ → ℕ → List ℕ → List ℕ
overwrite buf ptr bytes = take ptr buf ++ bytes ++ drop (ptr + 2) buf

-- A step over two bytes that may not have been written.
unfoldable pub step_over : (ℕ → ℕ) → ℕ → List ℕ → List ℕ
step_over stack pktlen buf =
    if length buf == pktlen then buf ++ stack pktlen ∷ stack (pktlen + 1) ∷ [] else buf

-- A round of the loop over the locators. The AFI goes to `ptr`, which stays at the first locator.
unfoldable pub add_itr : (ℕ → ℕ) → ℕ → List ℕ → ℕ → List ℕ → List ℕ
add_itr stack ptr buf afi address =
    step_over stack (length buf) (overwrite buf ptr (be16 afi)) ++ address

unfoldable pub set_itr_locators : (ℕ → ℕ) → ℕ → List ℕ → List Locator → Option (List ℕ)
set_itr_locators stack ptr buf [] = some buf
set_itr_locators stack ptr buf (loc ∷ locs) =
    let add = λ (afi n : ℕ).
      set_itr_locators stack ptr (add_itr stack ptr buf afi (take n loc.loc_addr.addr)) locs in
    if loc.loc_addr.family == af_inet
    then add lisp_afi_ipv4 4
    else (if loc.loc_addr.family == af_inet6 then add lisp_afi_ipv6 16 else none)

-- The 16-bit words of a header as the machine reads them.
abbrev pub words : List ℕ → List ℕ
words [] = []
words (b ∷ []) = []
words (b ∷ c ∷ bs) = (b + 256 * c) ∷ words bs

abbrev pub le16 : ℕ → List ℕ
le16 n = (n % 256) ∷ (n / 256 % 256) ∷ []

-- The IPv4 header with the length of what follows it, and the checksum over it.
unfoldable pub summed_ip_hdr : ℕ → List ℕ → List ℕ → List ℕ
summed_ip_hdr data_len src dst =
    let ip = set_ip_hdr data_len src dst in take 10 ip ++ le16 (chksum (words ip)) ++ drop 12 ip

-- `struct lisp_map_request`
unfoldable pub request_header : ℕ → List ℕ → List ℕ
request_header count nonce = 16 ∷ 0 ∷ ((count + (u32 - 1)) % u32 % 32) ∷ 1 ∷ nonce

-- What follows the inner UDP header. The offsets of the buffer count from the outer header, which
-- is `start` bytes before.
unfoldable pub request_body : (ℕ → ℕ) → ℕ → Prefix → List ℕ → ℕ → List Locator → Option (List ℕ)
request_body stack start prefix nonce count locs =
    let head = request_header count nonce ++ 0 ∷ 0 ∷ [] in
    elim (set_itr_locators (λ i. stack (start + i)) (length head) head locs) [
      | none ↦ none
      | some body ↦ some (
          body
          ++ 0 ∷ (prefix.bitlen % 256) ∷ be16 (af_to_lispafi prefix.family)
          ++ put_address prefix.family prefix.add)
    ]

-- `none` is -1.
unfoldable pub set_lisp_map_request : (ℕ → ℕ) → Prefix → List ℕ → ℕ → List Locator → Option (List ℕ)
set_lisp_map_request stack prefix nonce count locs =
    let src = source_address prefix.family count locs in
    if prefix.family == af_inet
    then elim (request_body stack 32 prefix nonce count locs) [
      | none ↦ none
      | some body ↦ some (
          0x80 ∷ 0 ∷ 0 ∷ 0 ∷ summed_ip_hdr (length body) src (take 4 prefix.add)
          ++ set_udp_hdr (8 + length body) 4342 4342
          ++ body)
    ]
    else (if prefix.family == af_inet6
        then elim (request_body stack 52 prefix nonce count locs) [
          | none ↦ none
          | some body ↦ some (
              0x80 ∷ 0 ∷ 0 ∷ 0 ∷ set_ip6_hdr (length body) src (take 16 prefix.add)
              ++ set_udp_hdr (8 + length body) 4342 4342
              ++ body)
        ]
        else none)

-- ===== src/Map/Request/Bounds.antt =====
-- The sizes of the messages, against the 1024 bytes of the buffers that they are built in, and the
-- checksum of a request's inner header.
use Prim.Native.Nat.{min}
use lixy.Base.{
  ℕ, ◌≡◌, ◌≤◌, ◌⊎◌, ◌+◌, ◌-◌, ◌*◌, ◌%◌, ◌==◌, if◌then◌else◌, Bool, some, List, [], ◌∷◌, ◌++◌,
  length, take, length-append, length-take, length-drop, arith, All, Option-cases, inl, inr, true,
  false, replicate, refl,
}
use lixy.Net.{Prefix, Locator, af_inet, af_inet6}
use lixy.Wire.Bytes.{be16}
use lixy.Map.Headers.{set_ip_hdr}
use lixy.Map.Receive.Select.{IsAddress, IsLocator}
use lixy.Map.Build.{put_address}
use lixy.Wire.{af_to_lispafi}
use lixy.Map.Headers.{set_ip6_hdr, set_udp_hdr}
use lixy.Map.Request.{
  request_body, request_header, source_address, set_lisp_map_request, get_locator_of, overwrite,
  step_over, add_itr, set_itr_locators, summed_ip_hdr,
}

length-overwrite :
    (buf : List ℕ) (ptr n : ℕ)
    → length (overwrite buf ptr (be16 n)) ≡ min ptr (length buf) + 2 + (length buf - (ptr + 2))
unfolding overwrite
length-overwrite buf ptr n =
    rw (length-append, length-append, length-take, length-drop) (omega arith)

-- A round of the loop over the locators adds two bytes and the address.
length-add_itr :
    (stack : ℕ → ℕ) (ptr : ℕ) (buf : List ℕ) (afi : ℕ) (address : List ℕ)
    → (ptr ≡ length buf) ⊎ (ptr + 2 ≤ length buf)
    → length (add_itr stack ptr buf afi address) ≡ length buf + 2 + length address
unfolding add_itr step_over
length-add_itr stack ptr buf afi address (inl h) =
    let n = length-overwrite buf ptr afi in
    let longer : (length (overwrite buf ptr (be16 afi)) == length buf) ≡ false =
      ground (arith, n, h) in
    rw longer (rw length-append (omega (arith, n, h)))
length-add_itr stack ptr buf afi address (inr h) =
    let n = length-overwrite buf ptr afi in
    let same : (length (overwrite buf ptr (be16 afi)) == length buf) ≡ true =
      ground (arith, n, h) in
    rw same (rw (length-append, length-append) (omega (arith, n, h)))

set_itr_locators-length :
    (stack : ℕ → ℕ) (ptr : ℕ) (buf : List ℕ) (locs : List Locator)
    → (ptr ≡ length buf) ⊎ (ptr + 2 ≤ length buf)
    → All IsLocator locs
    → (out : List ℕ) × (set_itr_locators stack ptr buf locs ≡ some out)
      × (length out ≤ length buf + 18 * length locs)
unfolding set_itr_locators
set_itr_locators-length stack ptr buf [] at h = (buf, refl, omega arith)
set_itr_locators-length stack ptr buf (loc ∷ locs) at (inl (f, n), h) =
    let buf' = add_itr stack ptr buf 1 (take 4 loc.loc_addr.addr) in
    let grown = length-add_itr stack ptr buf 1 (take 4 loc.loc_addr.addr) at in
    let size = length-take 4 loc.loc_addr.addr in
    let beyond : ptr + 2 ≤ length buf' = ground (arith, grown, size, n) in
    let (out, e, few) = set_itr_locators-length stack ptr buf' locs (inr beyond) h in
    (out, rw f e, ground (arith, grown, size, n, few))
set_itr_locators-length stack ptr buf (loc ∷ locs) at (inr (f, n), h) =
    let buf' = add_itr stack ptr buf 2 (take 16 loc.loc_addr.addr) in
    let grown = length-add_itr stack ptr buf 2 (take 16 loc.loc_addr.addr) at in
    let size = length-take 16 loc.loc_addr.addr in
    let beyond : ptr + 2 ≤ length buf' = ground (arith, grown, size, n) in
    let (out, e, few) = set_itr_locators-length stack ptr buf' locs (inr beyond) h in
    (out, rw f e, ground (arith, grown, size, n, few))

pub length-put_address : (af : ℕ) (add : List ℕ) → length (put_address af add) ≤ 16
length-put_address af add = ground (arith, length-take 4 add, length-take 16 add)

pub request_body-length :
    (stack : ℕ → ℕ) (start : ℕ) (prefix : Prefix) (nonce : List ℕ) (count : ℕ) (locs : List Locator)
    → length nonce ≡ 8
    → All IsLocator locs
    → (body : List ℕ) × (request_body stack start prefix nonce count locs ≡ some body)
      × (length body ≤ 34 + 18 * length locs)
unfolding request_body request_header
request_body-length stack start prefix nonce count locs n h =
    let head = request_header count nonce ++ 0 ∷ 0 ∷ [] in
    let size : length head ≡ 14 = rw length-append (omega arith) in
    let (out, e, few) =
      set_itr_locators-length (λ i. stack (start + i)) (length head) head locs (inl refl) h in
    let add = put_address prefix.family prefix.add in
    let small = length-put_address prefix.family prefix.add in
    (
      out ++ 0 ∷ (prefix.bitlen % 256) ∷ be16 (af_to_lispafi prefix.family) ++ add,
      rw (e, request_body) refl,
      rw (length-append, length-append) (omega (arith, size, few, small)),
    )

if-length : (b : Bool) → length (replicate {A = ℕ} (if b then 4 else 16) 0) ≤ 16
if-length true = omega arith
if-length false = omega arith

length-source_address :
    (af count : ℕ) (locs : List Locator) → length (source_address af count locs) ≤ 16
unfolding source_address
length-source_address af count locs = elim (Option-cases (get_locator_of af count locs)) [
  | inl e ↦ rw (e, source_address) (if-length (af == af_inet))
  | inr (loc, e) ↦ rw (e, source_address) (length-put_address af loc.loc_addr.addr)
]

pub length-summed_ip_hdr :
    (n : ℕ) (src dst : List ℕ) → length (summed_ip_hdr n src dst) ≡ 12 + length src + length dst
unfolding summed_ip_hdr set_ip_hdr
length-summed_ip_hdr n src dst = rw (length-append, length-append, length-append) (omega arith)

abbrev pub message4 : List ℕ → List ℕ → List ℕ → List ℕ
message4 src dst body =
    0x80 ∷ 0 ∷ 0 ∷ 0 ∷ summed_ip_hdr (length body) src dst
    ++ set_udp_hdr (8 + length body) 4342 4342
    ++ body

abbrev pub message6 : List ℕ → List ℕ → List ℕ → List ℕ
message6 src dst body =
    0x80 ∷ 0 ∷ 0 ∷ 0 ∷ set_ip6_hdr (length body) src dst
    ++ set_udp_hdr (8 + length body) 4342 4342
    ++ body

length-message4 :
    (src dst body : List ℕ)
    → length (message4 src dst body) ≡ 24 + length src + length dst + length body
unfolding set_udp_hdr
length-message4 src dst body =
    let udp = set_udp_hdr (8 + length body) 4342 4342 in
    let ip = summed_ip_hdr (length body) src dst in
    omega (
      arith,
      length-append ip udp,
      length-append (ip ++ udp) body,
      length-summed_ip_hdr (length body) src dst,
    )

length-message6 :
    (src dst body : List ℕ)
    → length (message6 src dst body) ≡ 20 + length src + length dst + length body
unfolding set_udp_hdr set_ip6_hdr
length-message6 src dst body =
    let udp = set_udp_hdr (8 + length body) 4342 4342 in
    let ip = set_ip6_hdr (length body) src dst in
    omega (
      arith,
      length-append ip udp,
      length-append (ip ++ udp) body,
      length-append (0x6E ∷ 0 ∷ 0 ∷ 0 ∷ be16 (8 + length body) ++ 17 ∷ 64 ∷ src) dst,
    )

-- A map request for an IP prefix, with at most 52 locators that are IP addresses, is built, and fits
-- the buffer of 1024 bytes.
pub set_lisp_map_request-fits :
    (stack : ℕ → ℕ) (prefix : Prefix) (nonce : List ℕ) (count : ℕ) (locs : List Locator)
    → IsAddress prefix.family prefix.add
    → length nonce ≡ 8
    → All IsLocator locs
    → length locs ≤ 52
    → (msg : List ℕ) × (set_lisp_map_request stack prefix nonce count locs ≡ some msg)
      × (length msg ≤ 1024)
unfolding set_lisp_map_request
set_lisp_map_request-fits stack prefix nonce count locs (inl (f, n)) n8 h few =
    let (body, e, size) = request_body-length stack 32 prefix nonce count locs n8 h in
    let src = source_address prefix.family count locs in
    let v4 : (prefix.family == af_inet) ≡ true = rw f refl in
    let dst = take 4 prefix.add in
    (
      message4 src dst body,
      rw v4 (rw e refl),
      omega (
        arith,
        length-message4 src dst body,
        length-source_address prefix.family count locs,
        length-take 4 prefix.add,
      ),
    )
set_lisp_map_request-fits stack prefix nonce count locs (inr (f, n)) n8 h few =
    let (body, e, size) = request_body-length stack 52 prefix nonce count locs n8 h in
    let src = source_address prefix.family count locs in
    let not_v4 : (prefix.family == af_inet) ≡ false = rw f refl in
    let v6 : (prefix.family == af_inet6) ≡ true = rw f refl in
    let dst = take 16 prefix.add in
    (
      message6 src dst body,
      rw (not_v4, v6) (rw e refl),
      omega (
        arith,
        length-message6 src dst body,
        length-source_address prefix.family count locs,
        length-take 16 prefix.add,
      ),
    )

-- ===== src/Map/Message/Own.antt =====
-- What lixy makes of a map request that lixy has built.

use lixy.Base.{
  ℕ, ◌≡◌, refl, ap, ◌∙◌, sym, ◌+◌, ◌==◌, true, false, some, List, [], ◌∷◌, ◌++◌, length, take,
  length-append, length-take, append_assoc, arith, All, inl, inr,
}
use lixy.Platform.Patricia.{Patricia}
use lixy.Net.{Prefix, Locator, af_inet, af_inet6}
use lixy.Wire.Bytes.{be16, get_bytes, get_bytes-append}
use lixy.Maptable.{Maptable}
use lixy.Map.Headers.{set_ip_hdr, set_ip6_hdr, set_udp_hdr}
use lixy.Map.Receive.Select.{IsAddress, IsLocator}
use lixy.Map.Request.{source_address, summed_ip_hdr, set_lisp_map_request}
use lixy.Map.Request.Bounds.{request_body-length, length-summed_ip_hdr, message4, message6}
use lixy.Map.Respond.{process_lisp_map_request}
use lixy.Map.Message.{
  high_nibble, type_behind, type_by_version, encapsulated_type, message_type, handle,
  process_lisp_map_message,
}
use lixy.Map.Request.Body.{
  IsRequest, body-IsRequest, length-source_address4, length-source_address6,
}

-- The type is read behind the IP and UDP headers.
type_behind-request :
    (n : ℕ) (headers body tail : List ℕ)
    → length headers ≡ n
    → IsRequest body
    → type_behind n (headers ++ (body ++ tail)) ≡ some (some 1)
unfolding type_behind high_nibble IsRequest
type_behind-request n headers body tail size (rest, e) =
    let split : get_bytes n (headers ++ (body ++ tail)) ≡ some (headers, body ++ tail) =
      ap (λ m. get_bytes m (headers ++ (body ++ tail))) (sym size)
      ∙ get_bytes-append headers (body ++ tail) in
    rw (split, type_behind) (rw e refl)

module _ (t : Patricia) (count : ℕ) (locs : List Locator) (rib : Maptable t) where
  -- An inner request is looked for in the outer header, which has no probe flag.
  ignored :
      (b4 b5 b6 b7 b8 b9 b10 b11 : ℕ) (rest : List ℕ)
      → let pkt = 0x80 ∷ 0 ∷ 0 ∷ 0 ∷ b4 ∷ b5 ∷ b6 ∷ b7 ∷ b8 ∷ b9 ∷ b10 ∷ b11 ∷ rest in
        message_type pkt ≡ some (some 1)
        → (message_type pkt ≡ some (some 1))
          × (process_lisp_map_message t count locs pkt rib ≡ some (rib, [], []))
  unfolding process_lisp_map_message handle process_lisp_map_request
  ignored b4 b5 b6 b7 b8 b9 b10 b11 rest type = (type, rw (type, process_lisp_map_message) refl)

  ignored4 :
      (src dst body tail : List ℕ)
      → length src ≡ 4
      → length dst ≡ 4
      → IsRequest body
      → (message_type (message4 src dst body ++ tail) ≡ some (some 1))
        × (process_lisp_map_message t count locs (message4 src dst body ++ tail) rib
            ≡ some (rib, [], []))
  unfolding message_type encapsulated_type type_by_version high_nibble get_bytes summed_ip_hdr
      set_ip_hdr set_udp_hdr
  ignored4 src dst body tail a b h = ignored _ _ _ _ _ _ _ _ _ (
      ap (type_behind 28) (
        append_assoc
          (summed_ip_hdr (length body) src dst ++ set_udp_hdr (8 + length body) 4342 4342) body
          tail)
      ∙ type_behind-request 28
          (summed_ip_hdr (length body) src dst ++ set_udp_hdr (8 + length body) 4342 4342) body tail
          (omega (
            arith,
            a,
            b,
            length-append (summed_ip_hdr (length body) src dst)
                (set_udp_hdr (8 + length body) 4342 4342),
            length-summed_ip_hdr (length body) src dst,
          ))
          h)

  ignored6 :
      (src dst body tail : List ℕ)
      → length src ≡ 16
      → length dst ≡ 16
      → IsRequest body
      → (message_type (message6 src dst body ++ tail) ≡ some (some 1))
        × (process_lisp_map_message t count locs (message6 src dst body ++ tail) rib
            ≡ some (rib, [], []))
  unfolding message_type encapsulated_type type_by_version high_nibble get_bytes set_ip6_hdr
      set_udp_hdr
  ignored6 src dst body tail a b h = ignored _ _ _ _ _ _ _ _ _ (
      ap (type_behind 48) (
        append_assoc (set_ip6_hdr (length body) src dst ++ set_udp_hdr (8 + length body) 4342 4342)
          body tail)
      ∙ type_behind-request 48
          (set_ip6_hdr (length body) src dst ++ set_udp_hdr (8 + length body) 4342 4342) body tail
          (omega (
            arith,
            a,
            b,
            length-append (set_ip6_hdr (length body) src dst)
                (set_udp_hdr (8 + length body) 4342 4342),
            length-append (0x6E ∷ 0 ∷ 0 ∷ 0 ∷ be16 (8 + length body) ++ 17 ∷ 64 ∷ src) dst,
          ))
          h)

  -- A map request that set_lisp_map_request builds, for an IP prefix and with locators that are IP
  -- addresses, has type 1, that of a map request, for whoever receives it with lixy's handler, and
  -- it changes nothing and is answered with nothing there, whatever follows it in the receive
  -- buffer.
  pub own_request-ignored :
      (stack : ℕ → ℕ) (prefix : Prefix) (nonce : List ℕ) (count' : ℕ) (locs' : List Locator)
      (tail : List ℕ)
      → IsAddress prefix.family prefix.add
      → length nonce ≡ 8
      → All IsLocator locs'
      → (msg : List ℕ) × (set_lisp_map_request stack prefix nonce count' locs' ≡ some msg)
        × (message_type (msg ++ tail) ≡ some (some 1))
        × (process_lisp_map_message t count locs (msg ++ tail) rib ≡ some (rib, [], []))
  unfolding set_lisp_map_request
  own_request-ignored stack prefix nonce count' locs' tail (inl (f, n)) n8 h =
      let (body, e, _) = request_body-length stack 32 prefix nonce count' locs' n8 h in
      let src = source_address prefix.family count' locs' in
      let dst = take 4 prefix.add in
      let v4 : (prefix.family == af_inet) ≡ true = rw f refl in
      let (type, same) =
        ignored4 src dst body tail
          (ap (λ af. length (source_address af count' locs')) f
            ∙ length-source_address4 count' locs' h)
          (omega (arith, n, length-take 4 prefix.add))
          (body-IsRequest stack 32 prefix nonce count' locs' body e) in
      (message4 src dst body, rw v4 (rw e refl), type, same)
  own_request-ignored stack prefix nonce count' locs' tail (inr (f, n)) n8 h =
      let (body, e, _) = request_body-length stack 52 prefix nonce count' locs' n8 h in
      let src = source_address prefix.family count' locs' in
      let dst = take 16 prefix.add in
      let not_v4 : (prefix.family == af_inet) ≡ false = rw f refl in
      let v6 : (prefix.family == af_inet6) ≡ true = rw f refl in
      let (type, same) =
        ignored6 src dst body tail
          (ap (λ af. length (source_address af count' locs')) f
            ∙ length-source_address6 count' locs' h)
          (omega (arith, n, length-take 16 prefix.add))
          (body-IsRequest stack 52 prefix nonce count' locs' body e) in
      (message6 src dst body, rw (not_v4, v6) (rw e refl), type, same)

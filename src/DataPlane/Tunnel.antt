-- ===== src/DataPlane/Tunnel.antt =====
-- Packets through the tunnel: what is sent for a packet, and what the other end makes of it.
use lixy.Base.{
  ℕ, zero, suc, ◌≡◌, refl, sym, ap, subst, ◌∙◌, ◌+◌, ◌-◌, ◌%◌, ◌^◌, ◌≤◌, ◌<◌, if◌then◌else◌, leb,
  Bool-cases, Bool, true, false, Option, none, some, List, [], ◌∷◌, ◌++◌, arith, Option-cases, inl,
  inr, length, take, length-take,
}
use lixy.Platform.Patricia.{Patricia, LawfulPatricia}
use lixy.Net.{Prefix}
use lixy.Wire.Bytes.{get_bytes, get_bytes-append}
use lixy.Maptable.{
  Maptable, MapNode, MapState, active, static, negative, queried, drop, search_mapnode,
}
use lixy.Maptable.Fib.{fib, fetch, RibInv, spec_search}
use lixy.Maptable.Fib.Laws.{search_mapnode-refines}
use lixy.DataPlane.{
  Sent, write_tun, sendmsg_udp, extract_salen, sendraw, dst_prefix, lisp_hdr, encapsulated,
  send_by_state, lisp_dp_tun_packet, lisp_dp_packet,
}

-- The states whose locator is used.
abbrev pub is_forwarding : MapState → Bool
is_forwarding active = true
is_forwarding static = true
is_forwarding negative = false
is_forwarding queried = false
is_forwarding drop = false

abbrev pub is_dropping : MapState → Bool
is_dropping drop = true
is_dropping active = false
is_dropping static = false
is_dropping negative = false
is_dropping queried = false

-- What the state of an entry decides: encapsulation to its address, with the 8 bytes behind the
-- packet, if the buffer has them; nothing; or to put the packet back.
abbrev pub spec_by_state : List ℕ → ℕ → MapNode → MapState → Option (List Sent)
spec_by_state buf len mn state =
    if is_forwarding state
    then (if leb (len + 8) (length buf)
        then some
            (sendmsg_udp mn.addr (extract_salen mn.addr) (lisp_hdr ++ take (len + 8) buf) ∷ [])
        else none)
    else (if is_dropping state then some [] else sendraw buf)

-- What the longest match decides.
unfoldable pub spec_forward : List ℕ → ℕ → Option MapNode → Option (List Sent)
spec_forward buf len none = sendraw buf
spec_forward buf len (some mn) = spec_by_state buf len mn mn.state

get_bytes-take :
    (n : ℕ) (xs : List ℕ)
    → n ≤ length xs
    → (rest : List ℕ) × (get_bytes n xs ≡ some (take n xs, rest))
unfolding get_bytes
get_bytes-take zero xs h = (xs, refl)
get_bytes-take (suc n) [] h = absurd (omega arith)
get_bytes-take (suc n) (x ∷ xs) h =
    let (rest, e) = get_bytes-take n xs (omega arith) in (rest, rw (e, get_bytes) refl)

get_bytes-short : (n : ℕ) (xs : List ℕ) → leb n (length xs) ≡ false → get_bytes n xs ≡ none
unfolding get_bytes
get_bytes-short zero xs h = absurd (ground (arith, h))
get_bytes-short (suc n) [] h = refl
get_bytes-short (suc n) (x ∷ xs) h = rw (get_bytes-short n xs (ground (arith, h)), get_bytes) refl

take-append : (xs ys : List ℕ) → take (length xs) (xs ++ ys) ≡ xs
take-append [] ys = refl
take-append (x ∷ xs) ys = ap (λ zs. x ∷ zs) (take-append xs ys)

encapsulated_lem :
    (mn : MapNode) (buf : List ℕ) (len : ℕ)
    → encapsulated buf len mn ≡ (
        if leb (len + 8) (length buf)
        then some
            (sendmsg_udp mn.addr (extract_salen mn.addr) (lisp_hdr ++ take (len + 8) buf) ∷ [])
        else none)
unfolding encapsulated
encapsulated_lem mn buf len = elim (Bool-cases (leb (len + 8) (length buf))) [
  | inr short ↦ rw (get_bytes-short (len + 8) buf short, short) refl
  | inl fits ↦
      let (rest, e) = get_bytes-take (len + 8) buf (ground (arith, fits)) in rw (e, fits) refl
]

send_by_state_lem :
    (mn : MapNode) (state : MapState) (buf : List ℕ) (len : ℕ)
    → send_by_state buf len mn state ≡ spec_by_state buf len mn state
unfolding send_by_state
send_by_state_lem mn active buf len = encapsulated_lem mn buf len
send_by_state_lem mn static buf len = encapsulated_lem mn buf len
send_by_state_lem mn negative buf len = refl
send_by_state_lem mn queried buf len = refl
send_by_state_lem mn drop buf len = refl

module _ (t : Patricia) (law : LawfulPatricia t) (r : Maptable t) (v : RibInv t r) (buf : List ℕ)
    (len : ℕ) (p : Prefix) (to_p : dst_prefix buf ≡ some (some p)) where
  pub lisp_dp_tun_packet-refines :
      lisp_dp_tun_packet t r buf len ≡ spec_forward buf len (spec_search (fib t r) p)
  unfolding lisp_dp_tun_packet spec_forward
  lisp_dp_tun_packet-refines = elim (Option-cases (search_mapnode t r p)) [
    | inl e ↦
        let miss = sym (search_mapnode-refines t law r v p) ∙ ap (fetch t r) e in
        rw (to_p, e, miss, lisp_dp_tun_packet) refl
    | inr (q, e) ↦
        let hit = sym (search_mapnode-refines t law r v p) ∙ ap (fetch t r) e in
        rw (to_p, e, hit, lisp_dp_tun_packet)
          (send_by_state_lem (r.mapnodes.cell q) (r.mapnodes.cell q).state buf len)
  ]

pub encapsulates :
    (mn : MapNode) (state : MapState) (buf : List ℕ) (len : ℕ)
    → is_forwarding state ≡ true
    → len + 8 ≤ length buf
    → spec_by_state buf len mn state
      ≡ some (sendmsg_udp mn.addr (extract_salen mn.addr) (lisp_hdr ++ take (len + 8) buf) ∷ [])
encapsulates mn state buf len f h =
    let fits : leb (len + 8) (length buf) ≡ true = ground (arith, h) in rw (f, fits) refl

decapsulates :
    (packet stale : List ℕ)
    → length packet < 2 ^ 31
    → lisp_dp_packet (lisp_hdr ++ packet ++ stale) (length (lisp_hdr ++ packet))
      ≡ some (write_tun (packet ++ stale) (length packet) ∷ [])
unfolding lisp_dp_packet
decapsulates packet stale h =
    let count : (length (lisp_hdr ++ packet) + (2 ^ 64 - 8)) % 2 ^ 64 ≡ length packet =
      omega (arith) in
    rw (get_bytes-append lisp_hdr (packet ++ stale), lisp_dp_packet) (rw count refl)

-- With a well-formed table, a packet of `len` bytes from the tunnel, in its buffer of 2048 bytes
-- and at least 16 bytes short of it, whose destination's longest match is an active or static entry,
-- is sent to the address of that entry in one datagram, which fits the receiver's buffer of the same
-- size. The thread that receives this datagram, whatever the rest of its buffer holds, writes to its
-- tunnel exactly the packet and the 8 bytes that follow it in the sender's buffer.
pub tunnel-delivers :
    (t : Patricia) (law : LawfulPatricia t) (r : Maptable t)
    → RibInv t r
    → (buf : List ℕ) (len : ℕ) (p : Prefix) (mn : MapNode) → dst_prefix buf ≡ some (some p)
    → spec_search (fib t r) p ≡ some mn
    → is_forwarding mn.state ≡ true
    → length buf ≡ 2048
    → len + 16 ≤ 2048
    → (datagram : List ℕ) × (lisp_dp_tun_packet t r buf len
        ≡ some (sendmsg_udp mn.addr (extract_salen mn.addr) datagram ∷ []))
      × (length datagram ≤ 2048)
      × ((stale : List ℕ)
          → (ip : List ℕ) × (lisp_dp_packet (datagram ++ stale) (length datagram)
              ≡ some (write_tun ip (len + 8) ∷ []))
            × (take (len + 8) ip ≡ take (len + 8) buf))
unfolding spec_forward
tunnel-delivers t law r v buf len p mn to_p found f size short =
    let packet = take (len + 8) buf in
    let packet_len : length packet ≡ len + 8 = length-take (len + 8) buf ∙ omega arith in
    (
      lisp_hdr ++ packet,
      lisp_dp_tun_packet-refines t law r v buf len p to_p
          ∙ ap (spec_forward buf len) found
          ∙ encapsulates mn mn.state buf len f (omega arith),
      omega (arith, packet_len),
      λ stale. (
        packet ++ stale,
        subst
            (λ n.
              lisp_dp_packet (lisp_hdr ++ packet ++ stale) (length (lisp_hdr ++ packet))
              ≡ some (write_tun (packet ++ stale) n ∷ []))
            packet_len (decapsulates packet stale (omega arith)),
        subst (λ n. take n (packet ++ stale) ≡ packet) packet_len (take-append packet stale),
      ),
    )

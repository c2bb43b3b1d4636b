-- ===== src/Map/Respond.antt =====
-- map.c: the handler of map requests, the choice of the handler, and the senders. As in
-- Map/Receive, a place in a message is the list of the bytes from there on, and `none` is a read or
-- a step past the end of the receive buffer. `count` is MYLIST_COUNT of the locators.
pub mod Probe
pub mod Register
use lixy.Base.{
  ℕ, zero, suc, ◌/◌, ◌%◌, ◌==◌, ltb, if◌then◌else◌, Bool, true, false, Option, none, some, List, [],
  ◌∷◌, ◌++◌,
}
use lixy.Net.{Sockaddr, Prefix, Locator}
use lixy.Wire.{lispafi_to_af, afi_addr_len}
use lixy.Wire.Bytes.{from_be16, from_be32, get_bytes}
use lixy.Map.Build.{set_lisp_map_reply, set_lisp_map_register}
use lixy.Map.Request.{set_lisp_map_request}
use lixy.Map.Receive.{◌>>=◌, addr_to_prefix, fill_sockaddr}

-- A call of `sendto` on the control socket.
pub record Packet : Type 0 where
  pub to : Sockaddr
  pub payload : List ℕ

unfoldable pub get_afi : List ℕ → Option (ℕ × List ℕ)
get_afi (a1 ∷ a0 ∷ rest) = some (from_be16 a1 a0, rest)
get_afi _ = none

-- What follows the AFI in REQUEST_LOC_LEN.
unfoldable pub request_loc_len : ℕ → ℕ
request_loc_len afi = if afi == 1 then 4 else (if afi == 2 then 16 else 0)

-- The loop over the ITR-RLOCs, with the number of those that are left.
unfoldable pub skip_itrs : ℕ → List ℕ → Option (List ℕ)
skip_itrs zero pkt = some pkt
skip_itrs (suc n) pkt = do
  (afi, addr) ← get_afi pkt
  (_, next) ← get_bytes (request_loc_len afi) addr
  skip_itrs n next

-- `etr_addr`: the family that is -1 is cut to sixteen bits.
unfoldable pub etr_addr_of : ℕ → List ℕ → Option Sockaddr
etr_addr_of afi addr = do
  sa ← fill_sockaddr (lispafi_to_af afi) addr 0
  some (elim (lispafi_to_af afi) [ none ↦ record sa { family = 65535 } | some af ↦ sa ])

-- The calls of `sendto` that `send_map_reply` makes.
unfoldable pub send_map_reply : ℕ → List Locator → Prefix → ℕ → ℕ → Sockaddr → List Packet
send_map_reply count locs prefix nonce_hi nonce_lo mapsrvaddr =
    elim (set_lisp_map_reply prefix nonce_hi nonce_lo count locs) [
      | none ↦ []
      | some buf ↦ record { to = mapsrvaddr; payload = buf } ∷ []
    ]

-- The handler behind the header of the request, for a probe.
unfoldable pub answer_probe : ℕ → List Locator → ℕ → ℕ → ℕ → List ℕ → Option (List Packet)
answer_probe count locs irc nonce_hi nonce_lo pkt = do
  (locafi, addr) ← get_afi pkt
  etr_addr ← etr_addr_of locafi addr
  (_, itrs) ← get_bytes (afi_addr_len locafi) addr
  qrec ← skip_itrs (suc irc) itrs
  (fixed, eid) ← get_bytes 2 qrec
  (eid_prefix_afi, eid_addr) ← get_afi eid
  prefix ← addr_to_prefix (lispafi_to_af eid_prefix_afi) eid_addr (mask_len fixed)
  some (send_map_reply count locs prefix nonce_hi nonce_lo etr_addr)
  where
    mask_len : List ℕ → ℕ
    mask_len (rsv ∷ m ∷ _) = m
    mask_len _ = 0

unfoldable pub process_lisp_map_request : ℕ → List Locator → List ℕ → Option (List Packet)
process_lisp_map_request count locs
      (b0 ∷ b1 ∷ b2 ∷ rc ∷ n7 ∷ n6 ∷ n5 ∷ n4 ∷ n3 ∷ n2 ∷ n1 ∷ n0 ∷ rest) =
    let answered =
      answer_probe count locs (b2 % 32) (from_be32 n7 n6 n5 n4) (from_be32 n3 n2 n1 n0) rest in
    if b0 / 2 % 2 == 0 then some [] else answered
process_lisp_map_request count locs _ = none

-- The loop of `send_map_request` over the map servers. `stack` and `nonce` are what the buffer
-- holds and what `set_nonce` makes in each round. The result is `false` for -1.
unfoldable pub request_each :
    (ℕ → ℕ → ℕ) → (ℕ → List ℕ) → ℕ → List Locator → Prefix → ℕ → List Sockaddr → Bool × List Packet
request_each stack nonce count locs prefix round [] = (true, [])
request_each stack nonce count locs prefix round (mapsrvaddr ∷ later) =
    let (done, sent) = request_each stack nonce count locs prefix (suc round) later in
    elim (set_lisp_map_request (stack round) prefix (nonce round) count locs) [
      | none ↦ (false, [])
      | some buf ↦ (done, record { to = mapsrvaddr; payload = buf } ∷ sent)
    ]

-- `servers` is MYLIST_COUNT of the map servers.
unfoldable pub send_map_request :
    (ℕ → ℕ → ℕ) → (ℕ → List ℕ) → ℕ → List Locator → ℕ → List Sockaddr → Prefix → Bool × List Packet
send_map_request stack nonce count locs servers mapsrvs prefix =
    if servers == 0 then (false, []) else request_each stack nonce count locs prefix 0 mapsrvs

-- `sent` says whether `sendto` succeeds; the loop ends at the first failure.
unfoldable pub send_to_servers : (Packet → Bool) → List ℕ → List Sockaddr → Bool × List Packet
send_to_servers sent buf [] = (true, [])
send_to_servers sent buf (mapsrvaddr ∷ later) =
    let packet : Packet = record { to = mapsrvaddr; payload = buf } in
    let (done, packets) = send_to_servers sent buf later in
    if sent packet then (done, packet ∷ packets) else (false, packet ∷ [])

unfoldable pub continue : Bool × List Packet → Bool × List Packet → Bool × List Packet
continue (true, packets) (done, later) = (done, packets ++ later)
continue (false, packets) later = (false, packets)

-- The loop of `send_map_register` over the EID's prefixes, each with its nonce.
unfoldable pub send_map_register :
    (Packet → Bool)
    → (List ℕ → List ℕ → List ℕ)
    → (ℕ → List ℕ)
    → ℕ
    → List Locator
    → List Sockaddr
    → List ℕ
    → ℕ
    → List Prefix
    → Bool × List Packet
send_map_register sent hmac nonce count locs mapsrvs authkey round [] = (true, [])
send_map_register sent hmac nonce count locs mapsrvs authkey round (prefix ∷ later) =
    let rest = send_map_register sent hmac nonce count locs mapsrvs authkey (suc round) later in
    elim (set_lisp_map_register hmac prefix authkey (nonce round) count locs) [
      | none ↦ (false, [])
      | some buf ↦ continue (send_to_servers sent buf mapsrvs) rest
    ]

-- ===== src/DataPlane.antt =====
-- instance.c: the threads of the data plane, one round each, and `sendraw`. A buffer is the list of
-- its 2048 bytes, with what `read` or `recv` put in front of what was there before. `none` is a read
-- past its end, which the code does not check for.
pub mod Learn
pub mod Asked
pub mod Forward
pub mod Tunnel
use lixy.Base.{
  ℕ, ◌+◌, ◌-◌, ◌*◌, ◌/◌, ◌%◌, ◌^◌, ◌==◌, ltb, ◌||◌, if◌then◌else◌, Bool, true, false, Option, none,
  some, List, [], ◌∷◌, ◌++◌, bytes_eq,
}
use lixy.Platform.Patricia.{Patricia}
use lixy.Net.{Sockaddr, Prefix, af_inet, af_inet6}
use lixy.LinkedList.{u32}
use lixy.Wire.Bytes.{get_bytes}
use lixy.Maptable.{
  Maptable, MapNode, MapState, active, negative, drop, queried, static, search_mapnode,
  install_mapnode_queried,
}
use lixy.Netlink.{RouteMessage, is_route_scope_link}
use lixy.Map.Receive.{Output, map_request, ◌>>=◌}

-- A call of the kernel that sends a packet.
pub data Sent : Type 0 where
  -- `write` to the tunnel: what is behind the pointer, and the count.
  write_tun : List ℕ → ℕ → Sent
  -- `sendto` on the tunnel: the family and address, and the bytes.
  sendto_tun : ℕ → List ℕ → List ℕ → Sent
  -- `sendmsg` on the UDP socket: `msg_name`, `msg_namelen`, and the bytes of both buffers.
  sendmsg_udp : Sockaddr → ℕ → List ℕ → Sent

-- `EXTRACT_SALEN`, as a `socklen_t`.
unfoldable pub extract_salen : Sockaddr → ℕ
extract_salen sa =
    if sa.family == af_inet then 16 else (if sa.family == af_inet6 then 28 else u32 - 1)

-- `n` bytes from an offset on.
unfoldable pub field : ℕ → ℕ → List ℕ → Option (List ℕ)
field offset n buf = do (_, rest) ← get_bytes offset buf; (bytes, _) ← get_bytes n rest; some bytes

-- A field of two bytes in network byte order.
unfoldable pub field16 : ℕ → List ℕ → Option ℕ
field16 offset buf = do bytes ← field offset 2 buf; some (number bytes)
  where
    number : List ℕ → ℕ
    number (b1 ∷ b0 ∷ []) = b1 * 256 + b0
    number _ = 0

-- `ip->ip_v`
unfoldable pub ip_v : List ℕ → Option ℕ
ip_v [] = none
ip_v (b ∷ _) = some (b / 16)

-- The result of `sendto` is only reported.
unfoldable pub sendraw4 : List ℕ → Option Sent
sendraw4 packet = do
  ip_dst ← field 16 4 packet
  ip_len ← field16 2 packet
  (bytes, _) ← get_bytes ip_len packet
  some (sendto_tun af_inet ip_dst bytes)

unfoldable pub sendraw6 : List ℕ → Option Sent
sendraw6 packet = do
  ip6_dst ← field 24 16 packet
  ip6_plen ← field16 4 packet
  (bytes, _) ← get_bytes (ip6_plen + 40) packet
  some (sendto_tun af_inet6 ip6_dst bytes)

unfoldable pub sendraw : List ℕ → Option (List Sent)
sendraw packet = do v ← ip_v packet; by_version v
  where
    by_version : ℕ → Option (List Sent)
    by_version v =
        if v == 4
        then (do sent ← sendraw4 packet; some (sent ∷ []))
        else (if v == 6 then (do sent ← sendraw6 packet; some (sent ∷ [])) else some [])

-- ADDRTOPREFIX of the address at an offset, with its full length.
unfoldable pub host_prefix : ℕ → ℕ → ℕ → List ℕ → Option Prefix
host_prefix af offset n buf = do
  add ← field offset n buf
  some (record { family = af; bitlen = 8 * n; add = add })

-- The destination of an IP packet, `some none` for another version.
unfoldable pub dst_prefix : List ℕ → Option (Option Prefix)
dst_prefix buf = do v ← ip_v buf; by_version v
  where
    by_version : ℕ → Option (Option Prefix)
    by_version v =
        if v == 4
        then (do p ← host_prefix af_inet 16 4 buf; some (some p))
        else (if v == 6 then (do p ← host_prefix af_inet6 24 16 buf; some (some p)) else some none)

-- `lhdr` of the tunnel thread: the N flag and locator status 1.
abbrev pub lisp_hdr : List ℕ
lisp_hdr = 128 ∷ 0 ∷ 0 ∷ 0 ∷ 0 ∷ 0 ∷ 0 ∷ 1 ∷ []

-- The second buffer is `len + sizeof (struct lisp_hdr)` bytes long.
unfoldable pub encapsulated : List ℕ → ℕ → MapNode → Option (List Sent)
encapsulated buf len mn = do
  (bytes, _) ← get_bytes (len + 8) buf
  some (sendmsg_udp mn.addr (extract_salen mn.addr) (lisp_hdr ++ bytes) ∷ [])

-- What the tunnel thread does with a packet whose destination has a mapnode, by its state.
unfoldable pub send_by_state : List ℕ → ℕ → MapNode → MapState → Option (List Sent)
send_by_state buf len mn negative = sendraw buf
send_by_state buf len mn queried = sendraw buf
send_by_state buf len mn active = encapsulated buf len mn
send_by_state buf len mn static = encapsulated buf len mn
send_by_state buf len mn drop = some []

-- A round of `lisp_dp_thread`, after `recv` returned `len`. The count is a `size_t`.
unfoldable pub lisp_dp_packet : List ℕ → ℕ → Option (List Sent)
lisp_dp_packet buf len = do
  (hdr, ip) ← get_bytes 8 buf
  some (write_tun ip ((len + (2 ^ 64 - 8)) % 2 ^ 64) ∷ [])

-- `ip_ttl` or `ip6_hlim` is zero.
unfoldable pub ttl_over : ℕ → List ℕ → Option Bool
ttl_over offset ip = do ttl ← field offset 1 ip; some (bytes_eq ttl (0 ∷ []))

-- `is_route_scope_link`, which gives -1, 0 or 1, is not zero.
abbrev pub nonzero : Option Bool → Bool
nonzero none = true
nonzero (some b) = b

module _ (t : Patricia) where
  -- A round of `lisp_dp_tun_thread`, after `read` returned `len`.
  unfoldable pub lisp_dp_tun_packet : Maptable t → List ℕ → ℕ → Option (List Sent)
  lisp_dp_tun_packet rib buf len = elim (dst_prefix buf) [
    | none ↦ none
    | some none ↦ some []
    | some (some dstprefix) ↦ elim (search_mapnode t rib dstprefix) [
      | none ↦ sendraw buf
      | some mn ↦ send_by_state buf len (rib.mapnodes.cell mn) (rib.mapnodes.cell mn).state
    ]
  ]

  module _ (kernel : List ℕ → Option (List RouteMessage)) (stack : List ℕ × List ℕ)
      (fresh : MapNode) where
    -- The destination is neither on a link nor has it run out of hops.
    unfoldable pub watched : ℕ → ℕ → Prefix → List ℕ → Option (Option Prefix)
    watched af hops dstprefix ip = do
      over ← ttl_over hops ip
      some (
          if over
          then none
          else (if nonzero (is_route_scope_link kernel stack af dstprefix.add)
              then none
              else some dstprefix))

    -- The destination that the thread looks at: by `ether_type`, in a frame with its header.
    unfoldable pub watched_prefix : List ℕ → Option (Option Prefix)
    watched_prefix buf = do
      ether_type ← field16 12 buf
      (_, ip) ← get_bytes 14 buf
      by_type ether_type ip
      where
        by_type : ℕ → List ℕ → Option (Option Prefix)
        by_type type ip =
            if type == 2048
            then (do p ← host_prefix af_inet 16 4 ip; watched af_inet 8 p ip)
            else (if type == 34525
                then (do p ← host_prefix af_inet6 24 16 ip; watched af_inet6 7 p ip)
                else some none)

    -- What is done for the destination.
    unfoldable pub ask_for : Maptable t → Option Prefix → Maptable t × List Output
    ask_for rib none = (rib, [])
    ask_for rib (some dstprefix) = elim (search_mapnode t rib dstprefix) [
      | none ↦ (install_mapnode_queried t fresh rib dstprefix, map_request dstprefix ∷ [])
      | some mn ↦ (rib, [])
    ]

    -- A round of `lisp_raw_packet_thread`. `fresh` is what `malloc` returns for the mapnode.
    unfoldable pub lisp_raw_packet : Maptable t → List ℕ → Option (Maptable t × List Output)
    lisp_raw_packet rib buf = do watched ← watched_prefix buf; some (ask_for rib watched)

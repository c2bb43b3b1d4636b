-- ===== src/DataPlane/Forward.antt =====
-- A packet after a `route` command: from the configuration to the datagram.
use lixy.Base.{
  ℕ, ◌≡◌, refl, ap, ◌∙◌, ◌+◌, ◌≤◌, ◌<◌, true, false, some, List, [], ◌∷◌, ◌++◌, none, arith, length,
  take,
}
use lixy.Platform.Patricia.{Patricia, LawfulPatricia, key, cut, key_eq, key_eq_refl}
use lixy.Net.{Prefix, Sockaddr}
use lixy.Maptable.{Maptable, MapNode, install, install_mapnode_static, static_mapnode}
use lixy.Maptable.Fib.{Fib, fib, RibInv, override, holds_static, best_key, spec_search, present}
use lixy.Maptable.Fib.Laws.{install-refines}
use lixy.Maptable.Fib.Laws.Invariant.{install-RibInv}
use lixy.Maptable.Fib.Longest.{longest-at}
use lixy.DataPlane.{sendmsg_udp, extract_salen, dst_prefix, lisp_hdr, lisp_dp_tun_packet}
use lixy.DataPlane.Tunnel.{spec_forward, lisp_dp_tun_packet-refines, encapsulates}

-- More bits than the new prefix has lead elsewhere.
other_key : (p h : Prefix) (l : ℕ) → p.bitlen < l → key_eq (cut h l) (key p) ≡ false
unfolding key_eq cut
other_key p h l a = ground arith

-- An entry is found for all that its prefix covers and no longer prefix does.
spec_search-covered :
    (f : Fib) (p h : Prefix) (mn : MapNode)
    → cut h p.bitlen ≡ key p
    → p.bitlen ≤ h.bitlen
    → ((l : ℕ) → p.bitlen < l → l ≤ h.bitlen → f (cut h l) ≡ none)
    → spec_search (override f (key p) (some mn)) h ≡ some mn
unfolding best_key
spec_search-covered f p h mn inside short longer =
    let f' = override f (key p) (some mn) in
    let hit : present (f' (cut h p.bitlen)) ≡ true = rw (inside, key_eq_refl) refl in
    rw
      (longest-at (λ k. present (f' k)) h p.bitlen h.bitlen short hit
        (λ l a b. rw (other_key p h l a, longer l a b) refl))
      (rw (inside, key_eq_refl) refl)

module _ (t : Patricia) (law : LawfulPatricia t) (r : Maptable t) (v : RibInv t r) where
  -- In a well-formed table, a static route is installed for a prefix that has no static one yet.
  -- Then a packet of `len` bytes from the tunnel, in its buffer of 2048 bytes and at least 8 bytes
  -- short of it, to a destination that the prefix covers and no longer prefix in the table does, is
  -- sent to the address of the route, behind a LISP header and with the 8 bytes that follow it.
  pub static_route-forwards :
      (p h : Prefix) (addr : Sockaddr) (buf : List ℕ) (len : ℕ)
      → holds_static (fib t r (key p)) ≡ false
      → cut h p.bitlen ≡ key p
      → p.bitlen ≤ h.bitlen
      → ((l : ℕ) → p.bitlen < l → l ≤ h.bitlen → fib t r (cut h l) ≡ none)
      → dst_prefix buf ≡ some (some h)
      → length buf ≡ 2048
      → len + 8 ≤ 2048
      → lisp_dp_tun_packet t (install_mapnode_static t r p addr).0 buf len
        ≡ some (sendmsg_udp addr (extract_salen addr) (lisp_hdr ++ take (len + 8) buf) ∷ [])
  unfolding install_mapnode_static spec_forward
  static_route-forwards p h addr buf len free inside short longer to_h size fits =
      let mn = static_mapnode addr in
      let r' = (install t r p mn).0 in
      let entries : fib t r' ≡ override (fib t r) (key p) (some mn) =
        ap (λ o. o.0) (install-refines t law r v p mn) ∙ rw free refl in
      let found : spec_search (fib t r') h ≡ some mn =
        ap (λ f. spec_search f h) entries
        ∙ spec_search-covered (fib t r) p h mn inside short longer in
      lisp_dp_tun_packet-refines t law r' (install-RibInv t law r v p mn) buf len h to_h
      ∙ ap (spec_forward buf len) found
      ∙ encapsulates mn mn.state buf len refl (omega arith)

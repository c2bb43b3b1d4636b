-- ===== src/Daemon/Abstract/Rounds.antt =====
-- Static routes while the threads run.
use lixy.Base.{
  ℕ, ◌≡◌, refl, ap, ◌∙◌, ◌+◌, ◌≤◌, ◌||◌, subst, Bool, true, false, Option, some, List, [], ◌∷◌,
  ◌++◌, length, take, arith,
}
use lixy.Platform.{UtList, LawfulUtList}
use lixy.Platform.Patricia.{Patricia, LawfulPatricia, Key}
use lixy.Platform.Resolver.{Resolver}
use lixy.Platform.Format.{Format}
use lixy.Net.{Sockaddr, Prefix}
use lixy.Maptable.{MapState, active, negative, drop, queried, static, is_static}
use lixy.Maptable.Fib.{fib, best_key}
use lixy.DataPlane.{sendmsg_udp, extract_salen, dst_prefix, lisp_hdr, lisp_dp_tun_packet}
use lixy.DataPlane.Tunnel.{is_forwarding, spec_forward, lisp_dp_tun_packet-refines, encapsulates}
use lixy.Netlink.{RouteMessage}
use lixy.Daemon.{Lisp}
use lixy.Daemon.Steps.{Step, Reachable}
use lixy.Daemon.Invariant.{LispInv}
use lixy.Daemon.Invariant.Rounds.{Step-LispInv, Reachable-LispInv}
use lixy.Daemon.Abstract.Refines.{config}
use lixy.Daemon.Abstract.History.{event_of, Step-refines}
use lixy.Daemon.Abstract.Statics.{IsStaticTo, deletes, Kept, spec_step-IsStaticTo}

static-forwarding : (state : MapState) → is_static state ≡ true → is_forwarding state ≡ true
static-forwarding static e = refl
static-forwarding active e = absurd (cc e)
static-forwarding negative e = absurd (cc e)
static-forwarding drop e = absurd (cc e)
static-forwarding queried e = absurd (cc e)

module _ (u : UtList) (t : Patricia) (res : Resolver) (f : Format)
    (kernel : List ℕ → Option (List RouteMessage)) where
  -- Rounds of the threads, one after the other.
  pub data Rounds : Lisp u t → Lisp u t → Type 0 where
    none_yet : {lisp : Lisp u t} → Rounds lisp lisp
    round :
        {lisp lisp' lisp'' : Lisp u t}
        → Rounds lisp lisp'
        → Step u t res f kernel lisp' lisp''
        → Rounds lisp lisp''

  -- One of the rounds is that of a command that deletes a route.
  abbrev pub some_deletes : {lisp lisp' : Lisp u t} → Rounds lisp lisp' → Bool
  some_deletes none_yet = false
  some_deletes (round rs st) = some_deletes rs || deletes res (event_of u t res f kernel st)

  module _ (ulaw : LawfulUtList u) (tlaw : LawfulPatricia t) where
    Rounds-LispInv :
        {lisp lisp' : Lisp u t} → Rounds lisp lisp' → LispInv u t lisp → LispInv u t lisp'
    Rounds-LispInv none_yet v = v
    Rounds-LispInv (round rs st) v =
        Step-LispInv u t res f kernel ulaw tlaw st (Rounds-LispInv rs v)

    kept :
        (k : Key) (to : Sockaddr) {lisp lisp' : Lisp u t} (rs : Rounds lisp lisp')
        → LispInv u t lisp
        → some_deletes rs ≡ false
        → IsStaticTo k to (fib t lisp.rib)
        → IsStaticTo k to (fib t lisp'.rib)
    kept k to none_yet v n h = h
    kept k to (round {lisp' = lisp'} rs st) v n h =
        let ev = event_of u t res f kernel st in
        subst (Kept k to) (Step-refines u t res f kernel ulaw tlaw st (Rounds-LispInv rs v)) (
          spec_step-IsStaticTo k to res f ev (config u t lisp') (ground arith)
            (kept k to rs v (ground arith) h))

    -- A static entry of the map table of a running daemon is still there, static and with its
    -- address, after any rounds of the threads with any messages, frames and commands, as long as
    -- none of these is a route command that is understood as a deletion.
    pub static_kept :
        (k : Key) (to : Sockaddr) {lisp lisp' : Lisp u t}
        → Reachable u t res f kernel lisp
        → (rs : Rounds lisp lisp') → some_deletes rs ≡ false
        → IsStaticTo k to (fib t lisp.rib)
        → IsStaticTo k to (fib t lisp'.rib)
    static_kept k to r rs = kept k to rs (Reachable-LispInv u t res f kernel ulaw tlaw r)

    -- A static entry of the map table of a running daemon goes on carrying packets: after any rounds
    -- of the threads, none of which is a route command that is understood as a deletion, a packet of
    -- `len` bytes from the tunnel, in its buffer of 2048 bytes and at least 8 bytes short of it, to
    -- a destination whose longest match is then that of the entry, is sent to the entry's address,
    -- behind a LISP header and with the 8 bytes that follow it.
    pub static_kept-forwards :
        (k : Key) (to : Sockaddr) {lisp lisp' : Lisp u t}
        → Reachable u t res f kernel lisp
        → (rs : Rounds lisp lisp') → some_deletes rs ≡ false
        → IsStaticTo k to (fib t lisp.rib)
        → (buf : List ℕ) (len : ℕ) (dst : Prefix) → dst_prefix buf ≡ some (some dst)
        → best_key (fib t lisp'.rib) dst ≡ some k
        → length buf ≡ 2048
        → len + 8 ≤ 2048
        → lisp_dp_tun_packet t lisp'.rib buf len
          ≡ some (sendmsg_udp to (extract_salen to) (lisp_hdr ++ take (len + 8) buf) ∷ [])
    unfolding spec_forward
    static_kept-forwards k to {lisp' = lisp'} r rs n h buf len dst to_dst best size short =
        let v = Rounds-LispInv rs (Reachable-LispInv u t res f kernel ulaw tlaw r) in
        let (mn, here, st, at) = static_kept k to r rs n h in
        lisp_dp_tun_packet-refines t tlaw lisp'.rib v.rib_inv buf len dst to_dst
        ∙ rw (best, here)
            (encapsulates mn mn.state buf len (static-forwarding mn.state st) (omega arith))
        ∙ ap (λ a. some (sendmsg_udp a (extract_salen a) (lisp_hdr ++ take (len + 8) buf) ∷ [])) at

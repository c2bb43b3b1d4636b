-- ===== src/Map/Respond/Probe.antt =====
-- RLOC probing: the answer to a map request with the probe flag, and what the asking side makes of it.
use lixy.Base.{ℕ, ◌==◌, if◌then◌else◌, List, [], ◌∷◌, ◌++◌, replicate}
use lixy.Platform.Patricia.{Patricia}
use lixy.Net.{Sockaddr, Prefix, Locator, af_inet}
use lixy.Wire.{af_to_lispafi}
use lixy.Wire.Bytes.{be16, be32}
use lixy.Maptable.{Maptable}

-- The AFI of an address and its bytes.
abbrev pub put_afi : ℕ → List ℕ → List ℕ
put_afi af add = be16 (af_to_lispafi af) ++ add

abbrev pub itr_packets : List Locator → List ℕ
itr_packets [] = []
itr_packets (l ∷ ls) = put_afi l.loc_addr.family l.loc_addr.addr ++ itr_packets ls

-- A probe of a prefix, with the EID and the locators of the side that asks: an ITR count of `0`
-- stands for one locator.
abbrev pub probe : ℕ → List ℕ → Prefix → ℕ → ℕ → ℕ → List Locator → List ℕ
probe af eid p hi lo irc itrs =
    0x12 ∷ 0 ∷ irc ∷ 1 ∷ be32 hi
    ++ be32 lo
    ++ put_afi af eid
    ++ itr_packets itrs
    ++ 0 ∷ p.bitlen ∷ put_afi p.family p.add

-- The address that the answer goes to: the EID of the side that asks, and port 0.
abbrev pub answered_to : ℕ → List ℕ → Sockaddr
answered_to af eid = record {
  family = af;
  port = 0;
  addr = eid;
  rest = replicate (if af == af_inet then 120 else 108) 0;
}

-- ===== src/Net.antt =====
-- sockaddrmacro.h, `prefix_t` (patricia/patricia.h) and `struct locator` (common.h): addresses,
-- prefixes and the comparisons of them.
pub mod Compare
use lixy.Base.{ℕ, ◌==◌, if◌then◌else◌, Bool, false, ◌&&◌, List, bytes_eq, replicate}

abbrev pub af_inet : ℕ
af_inet = 2

abbrev pub af_inet6 : ℕ
af_inet6 = 10

-- `struct sockaddr_storage`: the port, the address that the family has (4 bytes or 16, in network
-- order), and all bytes that belong to neither.
pub record Sockaddr : Type 0 where
  pub family : ℕ
  pub port : ℕ
  pub addr : List ℕ
  pub rest : List ℕ

-- `prefix_t`, without the tree's own `ref_count`.
pub record Prefix : Type 0 where
  pub family : ℕ
  pub bitlen : ℕ
  pub add : List ℕ

pub record Locator : Type 0 where
  pub loc_addr : Sockaddr
  pub priority : ℕ
  pub weight : ℕ
  pub m_priority : ℕ
  pub m_weight : ℕ

-- Both set to zero by `memset`. A storage has 128 bytes.
abbrev pub zero_sockaddr : Sockaddr
zero_sockaddr = record { family = 0; port = 0; addr = replicate 16 0; rest = replicate 108 0 }

abbrev pub zero_locator : Locator
zero_locator = record {
  loc_addr = zero_sockaddr;
  priority = 0;
  weight = 0;
  m_priority = 0;
  m_weight = 0;
}

-- COMPARE_SOCKADDR: the families, then the addresses.
unfoldable pub compare_sockaddr : Sockaddr → Sockaddr → Bool
compare_sockaddr s1 s2 = if s1.family == s2.family then bytes_eq s1.addr s2.addr else false

-- `memcmp (a, b, sizeof (struct sockaddr_storage)) == 0`
unfoldable pub memcmp_sockaddr : Sockaddr → Sockaddr → Bool
memcmp_sockaddr s1 s2 =
    s1.family == s2.family
    && s1.port == s2.port
    && bytes_eq s1.addr s2.addr
    && bytes_eq s1.rest s2.rest

-- `prefix_cmp (d1, d2) == 0` of instance.c. The lengths are not compared.
unfoldable pub prefix_cmp : Prefix → Prefix → Bool
prefix_cmp p1 p2 =
    if p1.family == p2.family
    then (if p1.family == af_inet
        then bytes_eq p1.add p2.add
        else (if p1.family == af_inet6 then bytes_eq p1.add p2.add else false))
    else false

-- `compare_prefix (d1, d2) == 0` of control.c.
unfoldable pub compare_prefix : Prefix → Prefix → Bool
compare_prefix p1 p2 =
    if p1.family == p2.family
    then (if p1.bitlen == p2.bitlen
        then (if p1.family == af_inet
            then bytes_eq p1.add p2.add
            else (if p1.family == af_inet6 then bytes_eq p1.add p2.add else false))
        else false)
    else false

-- ===== src/Net/Compare.antt =====
-- What the comparisons decide.
use lixy.Base.{ℕ, ◌≡◌, refl, ◌↔◌, ◌⊎◌, true, arith, bytes_eq_iff}
use lixy.Net.{
  Sockaddr, Prefix, af_inet, af_inet6, compare_sockaddr, memcmp_sockaddr, prefix_cmp,
  compare_prefix,
}

-- COMPARE_SOCKADDR ignores the port.
pub compare_sockaddr_iff :
    (s t : Sockaddr) → (compare_sockaddr s t ≡ true) ↔ ((s.family ≡ t.family) × (s.addr ≡ t.addr))
unfolding compare_sockaddr
compare_sockaddr_iff s t = ground (arith, bytes_eq_iff s.addr t.addr)

pub compare_sockaddr_refl : (s : Sockaddr) → compare_sockaddr s s ≡ true
compare_sockaddr_refl s = (compare_sockaddr_iff s s).1 (refl, refl)

pub compare_sockaddr_sym : (s t : Sockaddr) → compare_sockaddr s t ≡ compare_sockaddr t s
compare_sockaddr_sym s t = ground (arith, compare_sockaddr_iff s t, compare_sockaddr_iff t s)

pub memcmp_sockaddr_iff : (s t : Sockaddr) → (memcmp_sockaddr s t ≡ true) ↔ (s ≡ t)
unfolding memcmp_sockaddr
memcmp_sockaddr_iff s t = ground (arith, bytes_eq_iff s.addr t.addr, bytes_eq_iff s.rest t.rest)

-- Of the two IP families.
abbrev pub IsIp : ℕ → Type 0
IsIp af = (af ≡ af_inet) ⊎ (af ≡ af_inet6)

pub compare_prefix_iff : (p q : Prefix) → IsIp p.family → (compare_prefix p q ≡ true) ↔ (p ≡ q)
unfolding compare_prefix
compare_prefix_iff p q h = ground (arith, bytes_eq_iff p.add q.add)

pub compare_prefix-prefix_cmp : (p q : Prefix) → compare_prefix p q ≡ true → prefix_cmp p q ≡ true
unfolding compare_prefix prefix_cmp
compare_prefix-prefix_cmp p q h = ground arith

-- ===== src/Wire.antt =====
-- lisp.h: the headers of LISP control messages as structs, and their bytes on the wire. The bit
-- fields are those of the `__LITTLE_ENDIAN` branches, where the last field of a byte is its high
-- part.
pub mod Bytes
pub mod Headers
pub mod RoundTrip
use lixy.Base.{ℕ, ◌+◌, ◌*◌, ◌/◌, ◌%◌, ◌==◌, if◌then◌else◌, Option, none, some, List, ◌∷◌, ◌++◌}
use Bytes.{be16, be32, from_be16, from_be32}
use lixy.Net.{af_inet, af_inet6}

abbrev pub lisp_afi_ipv4 : ℕ
lisp_afi_ipv4 = 1

abbrev pub lisp_afi_ipv6 : ℕ
lisp_afi_ipv6 = 2

-- AF_TO_LISPAFI, and EXTRACT_LISPAFI on a family.
unfoldable pub af_to_lispafi : ℕ → ℕ
af_to_lispafi af = if af == af_inet then lisp_afi_ipv4 else lisp_afi_ipv6

-- LISPAFI_TO_AF, where `none` is -1.
unfoldable pub lispafi_to_af : ℕ → Option ℕ
lispafi_to_af afi =
    if afi == lisp_afi_ipv4
    then some af_inet
    else (if afi == lisp_afi_ipv6 then some af_inet6 else none)

-- The size of an address in LISP_LOCATOR_PKT_LEN and LISP_RECORD_PKT_LEN.
unfoldable pub afi_addr_len : ℕ → ℕ
afi_addr_len afi = if afi == lisp_afi_ipv4 then 4 else 16

-- `struct lisp_record`
pub record LispRecord : Type 0 where
  pub record_ttl : ℕ
  pub locator_count : ℕ
  pub eid_mask_len : ℕ
  pub rsv : ℕ
  pub a_flag : ℕ
  pub act : ℕ
  pub rsv2 : ℕ
  pub map_version_hi : ℕ
  pub rsv3 : ℕ
  pub map_version_low : ℕ
  pub eid_prefix_afi : ℕ

unfoldable pub put_record : LispRecord → List ℕ
put_record r =
    be32 r.record_ttl
    ++ r.locator_count
      ∷ r.eid_mask_len
      ∷ (r.act * 32 + r.a_flag * 16 + r.rsv)
      ∷ r.rsv2
      ∷ (r.rsv3 * 16 + r.map_version_hi)
      ∷ r.map_version_low
      ∷ be16 r.eid_prefix_afi

-- The struct at the head of the bytes, and what follows it; `none` if the bytes end before.
unfoldable pub get_record : List ℕ → Option (LispRecord × List ℕ)
get_record (t3 ∷ t2 ∷ t1 ∷ t0 ∷ lc ∷ ml ∷ ac ∷ r2 ∷ vh ∷ vl ∷ a1 ∷ a0 ∷ rest) = some (
  record {
    record_ttl = from_be32 t3 t2 t1 t0;
    locator_count = lc;
    eid_mask_len = ml;
    rsv = ac % 16;
    a_flag = ac / 16 % 2;
    act = ac / 32;
    rsv2 = r2;
    map_version_hi = vh % 16;
    rsv3 = vh / 16;
    map_version_low = vl;
    eid_prefix_afi = from_be16 a1 a0;
  },
  rest,
)
get_record _ = none

-- `struct lisp_locator`
pub record LispLocator : Type 0 where
  pub priority : ℕ
  pub weight : ℕ
  pub m_priority : ℕ
  pub m_weight : ℕ
  pub rsv : ℕ
  pub r_flag : ℕ
  pub p_flag : ℕ
  pub l_flag : ℕ
  pub rsv2 : ℕ
  pub afi : ℕ

unfoldable pub put_locator : LispLocator → List ℕ
put_locator l =
    l.priority
    ∷ l.weight
    ∷ l.m_priority
    ∷ l.m_weight
    ∷ l.rsv
    ∷ (l.rsv2 * 8 + l.l_flag * 4 + l.p_flag * 2 + l.r_flag)
    ∷ be16 l.afi

unfoldable pub get_locator : List ℕ → Option (LispLocator × List ℕ)
get_locator (pr ∷ we ∷ mp ∷ mw ∷ rs ∷ fl ∷ a1 ∷ a0 ∷ rest) = some (
  record {
    priority = pr;
    weight = we;
    m_priority = mp;
    m_weight = mw;
    rsv = rs;
    r_flag = fl % 2;
    p_flag = fl / 2 % 2;
    l_flag = fl / 4 % 2;
    rsv2 = fl / 8;
    afi = from_be16 a1 a0;
  },
  rest,
)
get_locator _ = none

-- `struct lisp_map_reply`
pub record LispMapReply : Type 0 where
  pub rsv : ℕ
  pub s_flag : ℕ
  pub e_flag : ℕ
  pub p_flag : ℕ
  pub type : ℕ
  pub rsv2 : ℕ
  pub record_count : ℕ
  pub nonce_hi : ℕ
  pub nonce_lo : ℕ

unfoldable pub put_map_reply : LispMapReply → List ℕ
put_map_reply h =
    (h.type * 16 + h.p_flag * 8 + h.e_flag * 4 + h.s_flag * 2 + h.rsv) ∷ be16 h.rsv2
    ++ h.record_count ∷ be32 h.nonce_hi
    ++ be32 h.nonce_lo

unfoldable pub get_map_reply : List ℕ → Option (LispMapReply × List ℕ)
get_map_reply (b0 ∷ r1 ∷ r0 ∷ rc ∷ n7 ∷ n6 ∷ n5 ∷ n4 ∷ n3 ∷ n2 ∷ n1 ∷ n0 ∷ rest) = some (
  record {
    rsv = b0 % 2;
    s_flag = b0 / 2 % 2;
    e_flag = b0 / 4 % 2;
    p_flag = b0 / 8 % 2;
    type = b0 / 16;
    rsv2 = from_be16 r1 r0;
    record_count = rc;
    nonce_hi = from_be32 n7 n6 n5 n4;
    nonce_lo = from_be32 n3 n2 n1 n0;
  },
  rest,
)
get_map_reply _ = none

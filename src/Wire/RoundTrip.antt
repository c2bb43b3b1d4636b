-- ===== src/Wire/RoundTrip.antt =====
-- Every struct is read back from its bytes.
use lixy.Base.{ℕ, ◌≡◌, ◌<◌, some, List, ◌++◌, arith}
use lixy.Wire.{
  LispRecord, put_record, get_record, LispLocator, put_locator, get_locator, LispMapReply,
  put_map_reply, get_map_reply,
}

-- Each field fits the bits that it has.
pub record FitsRecord (r : LispRecord) : Type 0 where
  pub ttl : r.record_ttl < 4294967296
  pub rsv : r.rsv < 16
  pub a_flag : r.a_flag < 2
  pub hi : r.map_version_hi < 16
  pub afi : r.eid_prefix_afi < 65536

-- A record header whose fields fit their bits is read back from the bytes that are written for it, and the
-- bytes behind it are left over.
pub get_record-put_record :
    (r : LispRecord) (rest : List ℕ)
    → FitsRecord r
    → get_record (put_record r ++ rest) ≡ some (r, rest)
unfolding get_record put_record
get_record-put_record r rest f = ground arith

pub record FitsLocator (l : LispLocator) : Type 0 where
  pub r_flag : l.r_flag < 2
  pub p_flag : l.p_flag < 2
  pub l_flag : l.l_flag < 2
  pub afi : l.afi < 65536

-- A locator header whose fields fit their bits is read back from the bytes that are written for it, and the
-- bytes behind it are left over.
pub get_locator-put_locator :
    (l : LispLocator) (rest : List ℕ)
    → FitsLocator l
    → get_locator (put_locator l ++ rest) ≡ some (l, rest)
unfolding get_locator put_locator
get_locator-put_locator l rest f = ground arith

pub record FitsMapReply (h : LispMapReply) : Type 0 where
  pub rsv : h.rsv < 2
  pub s_flag : h.s_flag < 2
  pub e_flag : h.e_flag < 2
  pub p_flag : h.p_flag < 2
  pub rsv2 : h.rsv2 < 65536
  pub hi : h.nonce_hi < 4294967296
  pub lo : h.nonce_lo < 4294967296

-- A map reply header whose fields fit their bits is read back from the bytes that are written for it, and the
-- bytes behind it are left over.
pub get_map_reply-put_map_reply :
    (h : LispMapReply) (rest : List ℕ)
    → FitsMapReply h
    → get_map_reply (put_map_reply h ++ rest) ≡ some (h, rest)
unfolding get_map_reply put_map_reply
get_map_reply-put_map_reply h rest f = ground arith

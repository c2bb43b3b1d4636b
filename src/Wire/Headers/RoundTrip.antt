-- ===== src/Wire/Headers/RoundTrip.antt =====
-- Every header is read back from its bytes.
use lixy.Base.{ℕ, ◌≡◌, sym, ap, ◌<◌, ◌∙◌, some, List, ◌++◌, length, arith}
use lixy.Wire.Bytes.{get_bytes, get_bytes-append}
use lixy.Wire.Headers.{
  LispHdr, put_lisp_hdr, get_lisp_hdr, LispControl, put_control, get_control, LispMapRequest,
  put_map_request, get_map_request, LispMapRequestRecord, put_request_record, get_request_record,
  LispMapRegister, put_map_register, get_map_register,
}

-- Each field fits the bits that it has.
pub record FitsHdr (h : LispHdr) : Type 0 where
  pub flags : h.flags < 8
  pub i_flag : h.i_flag < 2
  pub v_flag : h.v_flag < 2
  pub e_flag : h.e_flag < 2
  pub l_flag : h.l_flag < 2
  pub nonce : h.nonce < 16777216
  pub loc_status : h.loc_status < 4294967296

pub get_lisp_hdr-put_lisp_hdr :
    (h : LispHdr) (rest : List ℕ)
    → FitsHdr h
    → get_lisp_hdr (put_lisp_hdr h ++ rest) ≡ some (h, rest)
unfolding get_lisp_hdr put_lisp_hdr
get_lisp_hdr-put_lisp_hdr h rest f = ground arith

pub record FitsControl (c : LispControl) : Type 0 where
  pub rsv : c.rsv < 8
  pub s_flag : c.s_flag < 2
  pub rsv2_lo : c.rsv2_lo < 65536

pub get_control-put_control :
    (c : LispControl) (rest : List ℕ)
    → FitsControl c
    → get_control (put_control c ++ rest) ≡ some (c, rest)
unfolding get_control put_control
get_control-put_control c rest f = ground arith

pub record FitsMapRequest (h : LispMapRequest) : Type 0 where
  pub smr_flag : h.smr_flag < 2
  pub p_flag : h.p_flag < 2
  pub m_flag : h.m_flag < 2
  pub a_flag : h.a_flag < 2
  pub rsv : h.rsv < 64
  pub s_flag : h.s_flag < 2
  pub irc : h.irc < 32
  pub hi : h.nonce_hi < 4294967296
  pub lo : h.nonce_lo < 4294967296

pub get_map_request-put_map_request :
    (h : LispMapRequest) (rest : List ℕ)
    → FitsMapRequest h
    → get_map_request (put_map_request h ++ rest) ≡ some (h, rest)
unfolding get_map_request put_map_request
get_map_request-put_map_request h rest f = ground arith

pub get_request_record-put_request_record :
    (r : LispMapRequestRecord) (rest : List ℕ)
    → r.eid_prefix_afi < 65536
    → get_request_record (put_request_record r ++ rest) ≡ some (r, rest)
unfolding get_request_record put_request_record
get_request_record-put_request_record r rest f = ground arith

pub record FitsMapRegister (h : LispMapRegister) : Type 0 where
  pub rsv : h.rsv < 8
  pub p_flag : h.p_flag < 2
  pub m_flag : h.m_flag < 2
  pub hi : h.nonce_hi < 4294967296
  pub lo : h.nonce_lo < 4294967296
  pub key_id : h.key_id < 65536
  pub auth_data_len : h.auth_data_len < 65536
  pub auth_data : length h.auth_data ≡ 20

pub get_map_register-put_map_register :
    (h : LispMapRegister) (rest : List ℕ)
    → FitsMapRegister h
    → get_map_register (put_map_register h ++ rest) ≡ some (h, rest)
unfolding get_map_register put_map_register
get_map_register-put_map_register h rest f =
    let auth : get_bytes 20 (h.auth_data ++ rest) ≡ some (h.auth_data, rest) =
      ap (λ n. get_bytes n (h.auth_data ++ rest)) (sym f.auth_data)
      ∙ get_bytes-append h.auth_data rest in
    rw (auth) (ground arith)

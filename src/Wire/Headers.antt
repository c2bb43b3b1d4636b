-- ===== src/Wire/Headers.antt =====
-- lisp.h: the header of data packets and those of the other control messages.
pub mod RoundTrip
use lixy.Base.{ℕ, ◌+◌, ◌*◌, ◌/◌, ◌%◌, Option, none, some, List, [], ◌∷◌, ◌++◌}
use lixy.Wire.Bytes.{be16, be32, from_be16, from_be32, get_bytes}
use lixy.Map.Receive.{◌>>=◌}

-- `struct lisp_hdr`
pub record LispHdr : Type 0 where
  pub flags : ℕ
  pub i_flag : ℕ
  pub v_flag : ℕ
  pub e_flag : ℕ
  pub l_flag : ℕ
  pub n_flag : ℕ
  pub nonce : ℕ
  pub loc_status : ℕ

unfoldable pub put_lisp_hdr : LispHdr → List ℕ
put_lisp_hdr h =
    (h.n_flag * 128 + h.l_flag * 64 + h.e_flag * 32 + h.v_flag * 16 + h.i_flag * 8 + h.flags)
    ∷ (h.nonce / 65536 % 256)
    ∷ (h.nonce / 256 % 256)
    ∷ (h.nonce % 256)
    ∷ be32 h.loc_status

unfoldable pub get_lisp_hdr : List ℕ → Option (LispHdr × List ℕ)
get_lisp_hdr (fl ∷ n2 ∷ n1 ∷ n0 ∷ s3 ∷ s2 ∷ s1 ∷ s0 ∷ rest) = some (
  record {
    flags = fl % 8;
    i_flag = fl / 8 % 2;
    v_flag = fl / 16 % 2;
    e_flag = fl / 32 % 2;
    l_flag = fl / 64 % 2;
    n_flag = fl / 128;
    nonce = n2 * 65536 + n1 * 256 + n0;
    loc_status = from_be32 s3 s2 s1 s0;
  },
  rest,
)
get_lisp_hdr _ = none

-- `struct lisp_control`
pub record LispControl : Type 0 where
  pub rsv : ℕ
  pub s_flag : ℕ
  pub type : ℕ
  pub rsv2_hi : ℕ
  pub rsv2_lo : ℕ

unfoldable pub put_control : LispControl → List ℕ
put_control c = (c.type * 16 + c.s_flag * 8 + c.rsv) ∷ c.rsv2_hi ∷ be16 c.rsv2_lo

unfoldable pub get_control : List ℕ → Option (LispControl × List ℕ)
get_control (b0 ∷ r2 ∷ r1 ∷ r0 ∷ rest) = some (
  record {
    rsv = b0 % 8;
    s_flag = b0 / 8 % 2;
    type = b0 / 16;
    rsv2_hi = r2;
    rsv2_lo = from_be16 r1 r0;
  },
  rest,
)
get_control _ = none

-- `struct lisp_map_request`
pub record LispMapRequest : Type 0 where
  pub smr_flag : ℕ
  pub p_flag : ℕ
  pub m_flag : ℕ
  pub a_flag : ℕ
  pub type : ℕ
  pub rsv : ℕ
  pub s_flag : ℕ
  pub pitr_flag : ℕ
  pub irc : ℕ
  pub rsv2 : ℕ
  pub record_count : ℕ
  pub nonce_hi : ℕ
  pub nonce_lo : ℕ

unfoldable pub put_map_request : LispMapRequest → List ℕ
put_map_request h =
    (h.type * 16 + h.a_flag * 8 + h.m_flag * 4 + h.p_flag * 2 + h.smr_flag)
      ∷ (h.pitr_flag * 128 + h.s_flag * 64 + h.rsv)
      ∷ (h.rsv2 * 32 + h.irc)
      ∷ h.record_count
      ∷ be32 h.nonce_hi
    ++ be32 h.nonce_lo

unfoldable pub get_map_request : List ℕ → Option (LispMapRequest × List ℕ)
get_map_request (b0 ∷ b1 ∷ b2 ∷ rc ∷ n7 ∷ n6 ∷ n5 ∷ n4 ∷ n3 ∷ n2 ∷ n1 ∷ n0 ∷ rest) = some (
  record {
    smr_flag = b0 % 2;
    p_flag = b0 / 2 % 2;
    m_flag = b0 / 4 % 2;
    a_flag = b0 / 8 % 2;
    type = b0 / 16;
    rsv = b1 % 64;
    s_flag = b1 / 64 % 2;
    pitr_flag = b1 / 128;
    irc = b2 % 32;
    rsv2 = b2 / 32;
    record_count = rc;
    nonce_hi = from_be32 n7 n6 n5 n4;
    nonce_lo = from_be32 n3 n2 n1 n0;
  },
  rest,
)
get_map_request _ = none

-- `struct lisp_map_request_record`
pub record LispMapRequestRecord : Type 0 where
  pub rsv : ℕ
  pub eid_mask_len : ℕ
  pub eid_prefix_afi : ℕ

unfoldable pub put_request_record : LispMapRequestRecord → List ℕ
put_request_record r = r.rsv ∷ r.eid_mask_len ∷ be16 r.eid_prefix_afi

unfoldable pub get_request_record : List ℕ → Option (LispMapRequestRecord × List ℕ)
get_request_record (rs ∷ ml ∷ a1 ∷ a0 ∷ rest) =
    some (record { rsv = rs; eid_mask_len = ml; eid_prefix_afi = from_be16 a1 a0 }, rest)
get_request_record _ = none

-- `struct lisp_map_register`
pub record LispMapRegister : Type 0 where
  pub rsv : ℕ
  pub p_flag : ℕ
  pub type : ℕ
  pub rsv2 : ℕ
  pub m_flag : ℕ
  pub rsv3 : ℕ
  pub record_count : ℕ
  pub nonce_hi : ℕ
  pub nonce_lo : ℕ
  pub key_id : ℕ
  pub auth_data_len : ℕ
  pub auth_data : List ℕ

unfoldable pub put_map_register : LispMapRegister → List ℕ
put_map_register h =
    (h.type * 16 + h.p_flag * 8 + h.rsv)
    ∷ h.rsv2
    ∷ (h.rsv3 * 2 + h.m_flag)
    ∷ h.record_count
    ∷ (be32 h.nonce_hi ++ be32 h.nonce_lo ++ be16 h.key_id ++ be16 h.auth_data_len ++ h.auth_data)

-- The 16 bytes before the authentication data, with 20 bytes of that.
unfoldable pub get_map_register : List ℕ → Option (LispMapRegister × List ℕ)
get_map_register
      (b0 ∷ r2 ∷ b2 ∷ rc ∷ n7 ∷ n6 ∷ n5 ∷ n4 ∷ n3 ∷ n2 ∷ n1 ∷ n0 ∷ k1 ∷ k0 ∷ l1 ∷ l0 ∷ more) =
    do
      (auth, rest) ← get_bytes 20 more
      some (
        record {
          rsv = b0 % 8;
          p_flag = b0 / 8 % 2;
          type = b0 / 16;
          rsv2 = r2;
          m_flag = b2 % 2;
          rsv3 = b2 / 2;
          record_count = rc;
          nonce_hi = from_be32 n7 n6 n5 n4;
          nonce_lo = from_be32 n3 n2 n1 n0;
          key_id = from_be16 k1 k0;
          auth_data_len = from_be16 l1 l0;
          auth_data = auth;
        },
        rest,
      )
get_map_register _ = none

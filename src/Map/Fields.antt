-- ===== src/Map/Fields.antt =====
-- The headers that the code writes and reads byte by byte are the structs of lisp.h.
use lixy.Base.{ℕ, ◌≡◌, refl, ◌-◌, ◌+◌, ◌%◌, ◌==◌, if◌then◌else◌, arith, some, List, [], ◌∷◌, ◌++◌}
use lixy.LinkedList.{u32}
use lixy.Net.{Locator}
use lixy.Wire.Bytes.{be32}
use lixy.Wire.Headers.{put_lisp_hdr, put_map_request, get_map_request, put_map_register}
use lixy.Map.Build.{register_header, sha_digest_length}
use lixy.Map.Receive.{◌>>=◌}
use lixy.Map.Request.{request_header}
use lixy.Map.Respond.{answer_probe, process_lisp_map_request}
use lixy.DataPlane.{lisp_hdr}

-- A data packet has the nonce flag, no nonce, and one locator status bit.
pub lisp_hdr_lem :
    lisp_hdr
    ≡ put_lisp_hdr (record {
      flags = 0;
      i_flag = 0;
      v_flag = 0;
      e_flag = 0;
      l_flag = 0;
      n_flag = 1;
      nonce = 0;
      loc_status = 1;
    })
unfolding put_lisp_hdr
lisp_hdr_lem = refl

-- A map request has type 1, one record and no flag.
pub request_header_lem :
    (count nonce_hi nonce_lo : ℕ)
    → request_header count (be32 nonce_hi ++ be32 nonce_lo)
      ≡ put_map_request (record {
        smr_flag = 0;
        p_flag = 0;
        m_flag = 0;
        a_flag = 0;
        type = 1;
        rsv = 0;
        s_flag = 0;
        pitr_flag = 0;
        irc = (count + (u32 - 1)) % u32 % 32;
        rsv2 = 0;
        record_count = 1;
        nonce_hi = nonce_hi;
        nonce_lo = nonce_lo;
      })
unfolding request_header put_map_request
request_header_lem count nonce_hi nonce_lo = ground arith

-- A map register has type 3, the proxy flag, one record and key 1.
pub register_header_lem :
    (nonce_hi nonce_lo : ℕ) (hash : List ℕ)
    → register_header (be32 nonce_hi ++ be32 nonce_lo) ++ hash
      ≡ put_map_register (record {
        rsv = 0;
        p_flag = 1;
        type = 3;
        rsv2 = 0;
        m_flag = 0;
        rsv3 = 0;
        record_count = 1;
        nonce_hi = nonce_hi;
        nonce_lo = nonce_lo;
        key_id = 1;
        auth_data_len = sha_digest_length;
        auth_data = hash;
      })
unfolding put_map_register
register_header_lem nonce_hi nonce_lo hash = ground arith

-- The handler of map requests on the fields of the header, whatever the bytes are.
pub process_lisp_map_request_lem :
    (count : ℕ) (locs : List Locator) (pkt : List ℕ)
    → process_lisp_map_request count locs pkt ≡ (
        get_map_request pkt >>= λ (h, rest).
        if h.p_flag == 0 then some [] else answer_probe count locs h.irc h.nonce_hi h.nonce_lo rest)
unfolding process_lisp_map_request get_map_request
process_lisp_map_request_lem count locs
      (b0 ∷ b1 ∷ b2 ∷ rc ∷ n7 ∷ n6 ∷ n5 ∷ n4 ∷ n3 ∷ n2 ∷ n1 ∷ n0 ∷ rest) =
    refl
process_lisp_map_request_lem count locs pkt = refl

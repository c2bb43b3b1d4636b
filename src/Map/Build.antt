-- ===== src/Map/Build.antt =====
-- map.c: the builders of map register and map reply messages. The bytes before `buf + pktlen` are
-- the list, so `pktlen` is its length; -1 is `none`.
use mathlib.Core.Option
use lixy.Base.{
  ℕ, ◌%◌, ◌==◌, if◌then◌else◌, Option, none, some, List, [], ◌∷◌, ◌++◌, take, replicate,
}
use lixy.Wire.{
  LispRecord, put_record, LispLocator, put_locator, LispMapReply, put_map_reply, af_to_lispafi,
}
use lixy.Wire.Bytes.{be16}
use lixy.Net.{Prefix, Locator, af_inet, af_inet6}

abbrev pub lisp_default_record_ttl : ℕ
lisp_default_record_ttl = 10

abbrev pub sha_digest_length : ℕ
sha_digest_length = 20

-- `memcpy` of an address of the family; nothing for another family.
abbrev pub put_address : ℕ → List ℕ → List ℕ
put_address af add =
    if af == af_inet then take 4 add else (if af == af_inet6 then take 16 add else [])

-- The record of a register or a reply, from the prefix and MYLIST_COUNT (a `u_int32_t` that is
-- assigned to a `u_int8_t`).
abbrev pub built_record : Prefix → ℕ → LispRecord
built_record prefix count = record {
  record_ttl = lisp_default_record_ttl;
  locator_count = count % 256;
  eid_mask_len = prefix.bitlen % 256;
  rsv = 0;
  a_flag = 0;
  act = 0;
  rsv2 = 0;
  map_version_hi = 0;
  rsv3 = 0;
  map_version_low = 0;
  eid_prefix_afi = af_to_lispafi prefix.family;
}

abbrev pub built_locator : Locator → LispLocator
built_locator loc = record {
  priority = loc.priority;
  weight = loc.weight;
  m_priority = loc.m_priority;
  m_weight = loc.m_weight;
  rsv = 0;
  r_flag = 1;
  p_flag = 0;
  l_flag = 1;
  rsv2 = 0;
  afi = af_to_lispafi loc.loc_addr.family;
}

-- The loop over the locators.
unfoldable pub set_locators : List Locator → Option (List ℕ)
set_locators [] = some []
set_locators (loc ∷ locs) =
    let af = loc.loc_addr.family in
    let rest = set_locators locs in
    let add = λ (address : List ℕ).
      Option.map (λ later. put_locator (built_locator loc) ++ address ++ later) rest in
    if af == af_inet
    then add (take 4 loc.loc_addr.addr)
    else (if af == af_inet6 then add (take 16 loc.loc_addr.addr) else none)

abbrev pub reply_header : ℕ → ℕ → LispMapReply
reply_header nonce_hi nonce_lo = record {
  rsv = 0;
  s_flag = 0;
  e_flag = 0;
  p_flag = 1;
  type = 2;
  rsv2 = 0;
  record_count = 1;
  nonce_hi = nonce_hi;
  nonce_lo = nonce_lo;
}

-- The record, the EID prefix and the locators.
unfoldable pub set_record : Prefix → ℕ → List Locator → Option (List ℕ)
set_record prefix count locs =
    Option.map
      (λ packets.
        put_record (built_record prefix count) ++ put_address prefix.family prefix.add ++ packets)
      (set_locators locs)

unfoldable pub set_lisp_map_reply : Prefix → ℕ → ℕ → ℕ → List Locator → Option (List ℕ)
set_lisp_map_reply prefix nonce_hi nonce_lo count locs =
    Option.map (λ body. put_map_reply (reply_header nonce_hi nonce_lo) ++ body)
      (set_record prefix count locs)

-- `struct lisp_map_register` up to the authentication data.
abbrev pub register_header : List ℕ → List ℕ
register_header nonce = 0x38 ∷ 0 ∷ 0 ∷ 1 ∷ nonce ++ be16 1 ++ be16 sha_digest_length

-- `hmac` is HMAC-SHA1 of OpenSSL; it is taken over the message with zeros for its result.
unfoldable pub set_lisp_map_register :
    (List ℕ → List ℕ → List ℕ) → Prefix → List ℕ → List ℕ → ℕ → List Locator → Option (List ℕ)
set_lisp_map_register hmac prefix key nonce count locs =
    Option.map
      (λ body.
        register_header nonce
        ++ hmac key (register_header nonce ++ replicate sha_digest_length 0 ++ body)
        ++ body)
      (set_record prefix count locs)

-- `set_nonce`: each byte from a call of `rand`.
unfoldable pub set_nonce : (ℕ → ℕ) → List ℕ
set_nonce rand =
    (rand 0 % 255)
    ∷ (rand 1 % 255)
    ∷ (rand 2 % 255)
    ∷ (rand 3 % 255)
    ∷ (rand 4 % 255)
    ∷ (rand 5 % 255)
    ∷ (rand 6 % 255)
    ∷ (rand 7 % 255)
    ∷ []

-- ===== src/Map/Sizes.antt =====
-- The sizes of map replies and map registers, against the 1024 bytes of the buffers that they are
-- built in.
use lixy.Base.{
  ℕ, ◌≡◌, refl, ◌≤◌, ◌+◌, ◌*◌, some, replicate, List, [], ◌∷◌, ◌++◌, length, length-append, arith,
  All, inl, inr,
}
use lixy.Net.{Prefix, Locator}
use lixy.Wire.Bytes.{be16}
use lixy.Wire.{put_record, put_locator, put_map_reply}
use lixy.Map.Build.{
  put_address, built_record, built_locator, set_record, reply_header, set_lisp_map_reply,
  register_header, set_lisp_map_register,
}
use lixy.Map.Request.Bounds.{length-put_address}
use lixy.Map.Receive.Select.{IsLocator, packet, packets, set_locators-packets}

length-packet : (l : Locator) → IsLocator l → length (packet l) ≤ 24
unfolding put_locator
length-packet l (inl (f, n)) =
    omega (arith, length-append (put_locator (built_locator l)) l.loc_addr.addr, n)
length-packet l (inr (f, n)) =
    omega (arith, length-append (put_locator (built_locator l)) l.loc_addr.addr, n)

length-packets : (ls : List Locator) → All IsLocator ls → length (packets ls) ≤ 24 * length ls
length-packets [] h = omega arith
length-packets (l ∷ ls) h =
    omega (arith, length-append (packet l) (packets ls), length-packet l h.0, length-packets ls h.1)

pub set_record-length :
    (prefix : Prefix) (count : ℕ) (locs : List Locator)
    → All IsLocator locs
    → (body : List ℕ) × (set_record prefix count locs ≡ some body)
      × (length body ≤ 28 + 24 * length locs)
unfolding set_record put_record
set_record-length prefix count locs h =
    let add = put_address prefix.family prefix.add in
    let rec = put_record (built_record prefix count) in
    (
      rec ++ add ++ packets locs,
      rw (set_locators-packets locs h) refl,
      omega (
        arith,
        length-append (rec ++ add) (packets locs),
        length-append rec add,
        length-put_address prefix.family prefix.add,
        length-packets locs h,
      ),
    )

-- A map reply with at most 41 locators that are IP addresses is built, and fits the buffer of 1024
-- bytes.
pub set_lisp_map_reply-fits :
    (prefix : Prefix) (hi lo count : ℕ) (locs : List Locator)
    → All IsLocator locs
    → length locs ≤ 41
    → (msg : List ℕ) × (set_lisp_map_reply prefix hi lo count locs ≡ some msg) × (length msg ≤ 1024)
unfolding set_lisp_map_reply put_map_reply
set_lisp_map_reply-fits prefix hi lo count locs h few =
    let (body, e, size) = set_record-length prefix count locs h in
    let header = put_map_reply (reply_header hi lo) in
    (header ++ body, rw e refl, omega (arith, length-append header body))

-- A map register with at most 40 locators that are IP addresses is built, and fits the buffer of
-- 1024 bytes, if the nonce has 8 bytes and the hash 20.
pub set_lisp_map_register-fits :
    (hmac : List ℕ → List ℕ → List ℕ) (prefix : Prefix) (key nonce : List ℕ) (count : ℕ)
    (locs : List Locator)
    → ((k m : List ℕ) → length (hmac k m) ≡ 20)
    → length nonce ≡ 8
    → All IsLocator locs
    → length locs ≤ 40
    → (msg : List ℕ) × (set_lisp_map_register hmac prefix key nonce count locs ≡ some msg)
      × (length msg ≤ 1024)
unfolding set_lisp_map_register
set_lisp_map_register-fits hmac prefix key nonce count locs h20 n8 h few =
    let (body, e, size) = set_record-length prefix count locs h in
    let header = register_header nonce in
    let auth = hmac key (header ++ replicate 20 0 ++ body) in
    (
      header ++ auth ++ body,
      rw e refl,
      omega (
        arith,
        length-append (header ++ auth) body,
        length-append header auth,
        length-append (0x38 ∷ 0 ∷ 0 ∷ 1 ∷ nonce ++ be16 1) (be16 20),
        length-append nonce (be16 1),
        h20 key (header ++ replicate 20 0 ++ body),
      ),
    )

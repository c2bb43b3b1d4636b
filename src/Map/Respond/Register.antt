-- ===== src/Map/Respond/Register.antt =====
-- Map registers: who gets them, and what a map server that has the key can check.
use lixy.Base.{
  ℕ, suc, ◌≡◌, refl, sym, ap, ◌∙◌, none, some, Option, List, [], ◌∷◌, ◌++◌, append_assoc, map,
  length, length-append, replicate, arith, All,
}
use lixy.Net.{Sockaddr, Prefix, Locator}
use lixy.Wire.Bytes.{be16, get_bytes, get_bytes-append}
use lixy.Map.Build.{set_lisp_map_register, register_header}
use lixy.Map.Sizes.{set_record-length}
use lixy.Map.Receive.Select.{IsLocator}
use lixy.Map.Respond.{Packet}

-- A map register is split by the receiver into sixteen bytes of header, the hash and the record: the
-- hash is that of the message with zeros in its place, under the EID's key.
pub set_lisp_map_register-authentic :
    (hmac : List ℕ → List ℕ → List ℕ) (prefix : Prefix) (key nonce : List ℕ) (count : ℕ)
    (locs : List Locator)
    → ((k m : List ℕ) → length (hmac k m) ≡ 20)
    → length nonce ≡ 8
    → All IsLocator locs
    → (msg head auth rest : List ℕ) × (set_lisp_map_register hmac prefix key nonce count locs
        ≡ some msg)
      × (get_bytes 16 msg ≡ some (head, auth ++ rest))
      × (get_bytes 20 (auth ++ rest) ≡ some (auth, rest))
      × (auth ≡ hmac key (head ++ replicate 20 0 ++ rest))
unfolding set_lisp_map_register
set_lisp_map_register-authentic hmac prefix key nonce count locs h20 n8 h =
    let (body, e, _) = set_record-length prefix count locs h in
    let head = register_header nonce in
    let auth = hmac key (head ++ replicate 20 0 ++ body) in
    let long : length head ≡ 16 = omega (
      arith,
      length-append (0x38 ∷ 0 ∷ 0 ∷ 1 ∷ nonce ++ be16 1) (be16 20),
      length-append nonce (be16 1),
    ) in
    (
      head ++ auth ++ body,
      head,
      auth,
      body,
      rw e refl,
      ap (get_bytes 16) (append_assoc head auth body)
          ∙ ap (λ n. get_bytes n (head ++ (auth ++ body))) (sym long)
          ∙ get_bytes-append head (auth ++ body),
      ap (λ n. get_bytes n (auth ++ body)) (sym (h20 key (head ++ replicate 20 0 ++ body)))
          ∙ get_bytes-append auth body,
      refl,
    )

abbrev message : Option (List ℕ) → List ℕ
message none = []
message (some msg) = msg

module _ (hmac : List ℕ → List ℕ → List ℕ) (nonce : ℕ → List ℕ) (count : ℕ) (locs : List Locator)
    (mapsrvs : List Sockaddr) (authkey : List ℕ) where
  -- One register for each prefix, to each map server in turn.
  pub spec_register : ℕ → List Prefix → List Packet
  spec_register round [] = []
  spec_register round (prefix ∷ later) =
      let msg = message (set_lisp_map_register hmac prefix authkey (nonce round) count locs) in
      map (λ (s : Sockaddr). record { to = s; payload = msg }) mapsrvs
      ++ spec_register (suc round) later

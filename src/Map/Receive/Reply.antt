-- ===== src/Map/Receive/Reply.antt =====
-- The handler of map replies on the messages that `set_lisp_map_reply` builds.
use lixy.Base.{
  ◌≤◌, ℕ, suc, ◌≡◌, refl, ap, ◌∙◌, inl, inr, ◌%◌, ◌<◌, Bool, true, false, Option, some, List, ◌∷◌,
  ◌++◌, append-nil, append_assoc, length, arith, All,
}
use lixy.Platform.Patricia.{Patricia}
use lixy.Net.{Prefix, Locator}
use lixy.Wire.{LispRecord, put_map_reply, put_record, get_map_reply, af_to_lispafi}
use lixy.Wire.RoundTrip.{get_record-put_record, get_map_reply-put_map_reply, FitsRecord}
use lixy.Map.Build.{built_record, set_record, set_lisp_map_reply, reply_header}
use lixy.Map.Receive.{
  takes_mapped, select_locator, addr_to_prefix, process_records, process_lisp_map_reply,
  register_locator, after_record, Output,
}
use lixy.Maptable.{Maptable}
use lixy.Map.Receive.Select.{
  IsAddress, IsLocator, packet, packets, as_received, best_of, take_all, af_to_lispafi-lt, get_addr,
  afi_addr_len-af, set_locators-packets, pkt_to_locator-packet, select_locator-packets,
  best_of-IsLocator,
}

-- What was built for a prefix and locators.
abbrev reply : Prefix → ℕ → ℕ → List Locator → List ℕ
reply p hi lo ls =
    put_map_reply (reply_header hi lo)
    ++ (put_record (built_record p (length ls)) ++ p.add ++ packets ls)

built-reply :
    (p : Prefix) (hi lo : ℕ) (ls : List Locator)
    → IsAddress p.family p.add
    → All IsLocator ls
    → set_lisp_map_reply p hi lo (length ls) ls ≡ some (reply p hi lo ls)
unfolding set_lisp_map_reply set_record
built-reply p hi lo ls (inl (f, n)) h =
    rw (set_locators-packets ls h) (rw (f, take_all p.add 4 n) refl)
built-reply p hi lo ls (inr (f, n)) h =
    rw (set_locators-packets ls h) (rw (f, take_all p.add 16 n) refl)

module _ (t : Patricia) (rib : Maptable t) where
  -- The end of the handler, when the last record was processed.
  abbrev pub finish : Maptable t × List Output × Bool → Option (Maptable t × List Output)
  finish (rib', out, stop) = some (rib', out)

  after_last :
      (o : Maptable t × List Output × Bool) (tail : List ℕ)
      → after_record t o (process_records t 0 tail) ≡ finish o
  unfolding process_records
  after_last (rib', out, true) tail = refl
  after_last (rib', out, false) tail = rw append-nil refl

  taken :
      (r : Maptable t) (p : Prefix)
      → IsAddress p.family p.add
      → p.bitlen ≤ 128
      → takes_mapped t r p ≡ true
  unfolding takes_mapped
  taken r p (inl (f, n)) len = rw (f, takes_mapped) (ground (arith, len))
  taken r p (inr (f, n)) len = rw (f, takes_mapped) (ground (arith, len))

  -- One round of the handler's loop, on a record with locators.
  record_round :
      (r : LispRecord) (p : Prefix) (l : Locator) (ls : List Locator) (n : ℕ) (tail : List ℕ)
      → FitsRecord r
      → r.locator_count ≡ length (l ∷ ls)
      → r.eid_prefix_afi ≡ af_to_lispafi p.family
      → IsAddress p.family p.add
      → r.eid_mask_len ≤ 128
      → All IsLocator (l ∷ ls)
      → process_records t (suc n) (put_record r ++ (p.add ++ (packets (l ∷ ls) ++ tail))) rib
        ≡ after_record t
            (register_locator t rib
              (record p { bitlen = r.eid_mask_len })
              r.record_ttl
              (as_received (best_of l (l ∷ ls))))
            (process_records t n tail)
  unfolding process_records addr_to_prefix
  record_round r p l ls n tail fits count afi ip len (hl, h) =
      let place = packets (l ∷ ls) ++ tail in
      let (after', selected) =
        select_locator-packets l (l ∷ ls) (packets ls ++ tail) tail (hl, h) in
      let found : select_locator (suc (length ls)) place place
          ≡ some (packet (best_of l (l ∷ ls)) ++ after', tail) =
        ap (λ b. select_locator (suc (length ls)) b place)
          (append_assoc (packet l) (packets ls) tail)
        ∙ selected in
      rw
        (
          get_record-put_record r _ fits,
          afi,
          (afi_addr_len-af p.family p.add ip).0,
          (afi_addr_len-af p.family p.add ip).1,
          get_addr p.family p.add place ip,
          count,
        )
        (rw
          (
            found,
            pkt_to_locator-packet (best_of l (l ∷ ls)) after'
                (best_of-IsLocator l (l ∷ ls) hl (hl, h)),
            taken rib (record p { bitlen = r.eid_mask_len }) ip len,
          )
          refl)

  -- A map reply that lixy builds for an IP prefix, of a length of at most 128, and one to 255
  -- locators that are IP addresses is read back by lixy's handler as that prefix with the selected
  -- locator, which it hands to register_locator, whatever follows it in the receive buffer.
  pub process_reply-set_reply :
      (p : Prefix) (hi lo : ℕ) (l : Locator) (ls : List Locator) (tail : List ℕ)
      → IsAddress p.family p.add
      → p.bitlen ≤ 128
      → hi < 4294967296
      → lo < 4294967296
      → length (l ∷ ls) < 256
      → All IsLocator (l ∷ ls)
      → (msg : List ℕ) × (set_lisp_map_reply p hi lo (length (l ∷ ls)) (l ∷ ls) ≡ some msg)
        × (process_lisp_map_reply t (msg ++ tail) rib
            ≡ finish (register_locator t rib p 10 (as_received (best_of l (l ∷ ls)))))
  unfolding process_lisp_map_reply process_records
  process_reply-set_reply p hi lo l ls tail ip len h_hi h_lo few locs =
      let r = built_record p (length (l ∷ ls)) in
      let h = reply_header hi lo in
      let small : p.bitlen % 256 ≡ p.bitlen = omega arith in
      let fits : FitsRecord r = record {
        ttl = omega arith;
        rsv = omega arith;
        a_flag = omega arith;
        hi = omega arith;
        afi = af_to_lispafi-lt p.family;
      } in
      let body = put_record r ++ p.add ++ packets (l ∷ ls) in
      let grouped : body ++ tail ≡ put_record r ++ (p.add ++ (packets (l ∷ ls) ++ tail)) =
        simp append_assoc in
      let header : get_map_reply (reply p hi lo (l ∷ ls) ++ tail) ≡ some (h, body ++ tail) =
        rw append_assoc (
          get_map_reply-put_map_reply h (body ++ tail) (record {
            rsv = omega arith;
            s_flag = omega arith;
            e_flag = omega arith;
            p_flag = omega arith;
            rsv2 = omega arith;
            hi = h_hi;
            lo = h_lo;
          })) in
      (
        reply p hi lo (l ∷ ls),
        built-reply p hi lo (l ∷ ls) ip locs,
        rw (header, grouped)
            (record_round r p l ls 0 tail fits (omega arith) refl ip (omega arith) locs
              ∙ rw small (
                  after_last (register_locator t rib p 10 (as_received (best_of l (l ∷ ls))))
                    tail)),
      )

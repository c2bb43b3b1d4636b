-- ===== src/Netlink/Request.antt =====
-- The messages of `op_route_to_dev`, read back by the structures' own lengths.
use lixy.Base.{
  ℕ, suc, ◌≡◌, refl, sym, subst, append-nil, ap, ◌∙◌, ◌+◌, ◌-◌, ◌*◌, ◌%◌, ◌/◌, ◌≤◌, ◌<◌, ◌⊎◌, inl,
  inr, ◌==◌, false, Option, none, some, List, [], ◌∷◌, ◌++◌, arith, length, length-append, take,
  drop,
}
use lixy.Net.{Prefix, af_inet, af_inet6}
use lixy.Maptable.{add_route_to_tun, del_route_to_tun}
use lixy.Netlink.{
  rtm_newroute, rtm_delroute, nlm_f_new, nlm_f_request, rta_dst, rta_oif, nlmsghdr, rtmsg, rtattr,
  addr_len, host32, op_route_to_dev, route_to_tun,
}

-- A request for a route as the kernel reads it.
pub record Request : Type 0 where
  pub total : ℕ
  pub op : ℕ
  pub flags : ℕ
  pub family : ℕ
  pub dst_len : ℕ
  pub attrs : List (ℕ × List ℕ)

-- Attributes until the bytes end, on fuel.
abbrev pub read_attrs : ℕ → List ℕ → Option (List (ℕ × List ℕ))
read_attrs fuel [] = some []
read_attrs (suc fuel) (l0 ∷ l1 ∷ t0 ∷ t1 ∷ rest) =
    let data' = l0 + l1 * 256 - 4 in
    let later = read_attrs fuel (drop data' rest) in
    elim later [ none ↦ none | some attrs ↦ some ((t0 + t1 * 256, take data' rest) ∷ attrs) ]
read_attrs _ _ = none

abbrev pub read_request : List ℕ → Option Request
read_request
      (l0 ∷ l1 ∷ l2 ∷ l3 ∷ t0 ∷ t1 ∷ f0 ∷ f1 ∷ s0 ∷ s1 ∷ s2 ∷ s3 ∷ p0 ∷ p1 ∷ p2 ∷ p3 ∷ family
        ∷ dst_len ∷ src ∷ tos ∷ table ∷ protocol ∷ scope ∷ type ∷ r0 ∷ r1 ∷ r2 ∷ r3 ∷ rest) =
    elim (read_attrs 8 rest) [
      | none ↦ none
      | some attrs ↦ some (record {
        total = l0 + l1 * 256 + l2 * 65536 + l3 * 16777216;
        op = t0 + t1 * 256;
        flags = f0 + f1 * 256;
        family = family;
        dst_len = dst_len;
        attrs = attrs;
      })
    ]
read_request _ = none

-- What stands in front of a list is taken, and what is behind it is left.
take-append : (xs ys : List ℕ) → take (length xs) (xs ++ ys) ≡ xs
take-append [] ys = refl
take-append (x ∷ xs) ys = ap (λ zs. x ∷ zs) (take-append xs ys)

drop-append : (xs ys : List ℕ) → drop (length xs) (xs ++ ys) ≡ ys
drop-append [] ys = refl
drop-append (x ∷ xs) ys = drop-append xs ys

take_all : (xs : List ℕ) → take (length xs) xs ≡ xs
take_all [] = refl
take_all (x ∷ xs) = ap (λ zs. x ∷ zs) (take_all xs)

read_attrs-next :
    (fuel l0 l1 t0 t1 type : ℕ) (data' rest : List ℕ) (attrs : List (ℕ × List ℕ))
    → l0 + l1 * 256 - 4 ≡ length data'
    → t0 + t1 * 256 ≡ type
    → read_attrs fuel rest ≡ some attrs
    → read_attrs (suc fuel) (l0 ∷ l1 ∷ t0 ∷ t1 ∷ (data' ++ rest)) ≡ some ((type, data') ∷ attrs)
read_attrs-next fuel l0 l1 t0 t1 type data' rest attrs len kind e =
    rw (len, drop-append data' rest, e, read_attrs) (rw (kind, len, take-append data' rest) refl)

read_attrs-rtattr :
    (fuel type : ℕ) (data' rest : List ℕ) (attrs : List (ℕ × List ℕ))
    → type < 65536
    → length data' < 65532
    → read_attrs fuel rest ≡ some attrs
    → read_attrs (suc fuel) (rtattr type data' ++ rest) ≡ some ((type, data') ∷ attrs)
unfolding rtattr
read_attrs-rtattr fuel type data' rest attrs h l e =
    read_attrs-next fuel _ _ _ _ type data' rest attrs (omega arith) (omega arith) e

host32_value :
    (n : ℕ)
    → n < 4294967296
    → n % 256 + n / 256 % 256 * 256 + n / 65536 % 256 * 65536 + n / 16777216 % 256 * 16777216 ≡ n
host32_value n h = omega arith

read_request-headers :
    (len type flags seq family dst_len protocol scope kind : ℕ) (rest : List ℕ)
    (attrs : List (ℕ × List ℕ))
    → len < 4294967296
    → type < 65536
    → flags < 65536
    → read_attrs 8 rest ≡ some attrs
    → read_request (nlmsghdr len type flags seq ++ rtmsg family dst_len protocol scope kind ++ rest)
      ≡ some (record {
        total = len;
        op = type;
        flags = flags;
        family = family % 256;
        dst_len = dst_len % 256;
        attrs = attrs;
      })
unfolding nlmsghdr rtmsg
read_request-headers len type flags seq family dst_len protocol scope kind rest attrs l t f e =
    let type_value : type % 256 + type / 256 % 256 * 256 ≡ type = omega arith in
    let flags_value : flags % 256 + flags / 256 % 256 * 256 ≡ flags = omega arith in
    rw (e, read_request) refl ∙ fields (host32_value len l) type_value flags_value
  where
    fields :
        {a b c : ℕ}
        → a ≡ len
        → b ≡ type
        → c ≡ flags
        → ◌≡◌ {A = Option Request}
            (some (record {
              total = a;
              op = b;
              flags = c;
              family = family % 256;
              dst_len = dst_len % 256;
              attrs = attrs;
            }))
            (some (record {
              total = len;
              op = type;
              flags = flags;
              family = family % 256;
              dst_len = dst_len % 256;
              attrs = attrs;
            }))
    fields ea eb ec = rw (ea, eb, ec) refl

-- A prefix with an address of its family.
abbrev pub IsWhole : Prefix → Type 0
IsWhole p =
    ((p.family ≡ af_inet) × (length p.add ≡ 4)) ⊎ ((p.family ≡ af_inet6) × (length p.add ≡ 16))

IsWhole-lengths :
    (p : Prefix)
    → IsWhole p
    → (addr_len p.family ≡ length p.add) × (p.family < 256) × (length p.add ≤ 16)
unfolding addr_len
IsWhole-lengths p (inl (f, l)) = (rw f (sym l), omega arith, omega arith)
IsWhole-lengths p (inr (f, l)) = (rw f (sym l), omega arith, omega arith)

-- What the kernel should read: the address and the index of the tunnel.
abbrev pub expected : ℕ → Prefix → ℕ → ℕ → Request
expected i p op flags = record {
  total = 40 + length p.add;
  op = op;
  flags = flags;
  family = p.family;
  dst_len = p.bitlen;
  attrs = (rta_dst, p.add) ∷ (rta_oif, host32 i) ∷ [];
}

module _ (i : ℕ) (pos : 0 < i) (word : i < 4294967296) (p : Prefix) (w : IsWhole p)
    (b : p.bitlen < 256) where
  abbrev message : ℕ → ℕ → ℕ → ℕ → ℕ → List ℕ
  message op flags protocol scope kind =
      nlmsghdr (28 + (4 + addr_len p.family) + 8) op flags 0
      ++ rtmsg p.family p.bitlen protocol scope kind
      ++ rtattr rta_dst (take (addr_len p.family) p.add)
      ++ rtattr rta_oif (host32 i)

  length-message :
      (op flags protocol scope kind : ℕ)
      → length (message op flags protocol scope kind) ≡ 40 + length p.add
  unfolding nlmsghdr rtmsg rtattr
  length-message op flags protocol scope kind =
      let (len, _, _) = IsWhole-lengths p w in
      rw (len, take_all p.add) (omega (arith, length-append p.add (rtattr rta_oif (host32 i))))

  read_message :
      (op flags protocol scope kind : ℕ)
      → op < 65536
      → flags < 65536
      → read_request (message op flags protocol scope kind) ≡ some (expected i p op flags)
  unfolding nlmsghdr rtmsg rtattr
  read_message op flags protocol scope kind ho hf =
      let (len, fam, short) = IsWhole-lengths p w in
      let total : 28 + (4 + length p.add) + 8 ≡ 40 + length p.add = omega arith in
      let family : p.family % 256 ≡ p.family = omega arith in
      let bits : p.bitlen % 256 ≡ p.bitlen = omega arith in
      let last_attr : read_attrs 7 (rtattr rta_oif (host32 i)) ≡ some ((rta_oif, host32 i) ∷ []) =
        subst (λ m. read_attrs 7 m ≡ some ((rta_oif, host32 i) ∷ []))
          (append-nil (rtattr rta_oif (host32 i)))
          (read_attrs-rtattr 6 rta_oif (host32 i) [] [] (omega arith) (omega arith) refl) in
      rw (len, total)
        (rw (take_all p.add) (
          read_request-headers (40 + length p.add) op flags 0 p.family p.bitlen protocol scope kind
            (rtattr rta_dst p.add ++ rtattr rta_oif (host32 i))
            ((rta_dst, p.add) ∷ (rta_oif, host32 i) ∷ []) (omega arith) ho hf
            (read_attrs-rtattr 7 rta_dst p.add (rtattr rta_oif (host32 i)) _ (omega arith)
              (omega arith) last_attr)
          ∙ rw (family, bits) refl))

  -- For a prefix with a length below 256 and an address of its family, and a tunnel that has an
  -- index, both operations on the route of the prefix send a message. Read back by the lengths
  -- that stand in it, the message announces exactly its own length, the family, the prefix length
  -- and two attributes, the address and the index: to create the route only if there is none, or
  -- to delete it.
  pub route_to_tun-read :
      ((m : List ℕ) × (route_to_tun i (add_route_to_tun p) ≡ some m)
        × (length m ≡ 40 + length p.add)
        × (read_request m ≡ some (expected i p rtm_newroute nlm_f_new)))
      × ((m : List ℕ) × (route_to_tun i (del_route_to_tun p) ≡ some m)
          × (length m ≡ 40 + length p.add)
          × (read_request m ≡ some (expected i p rtm_delroute nlm_f_request)))
  unfolding route_to_tun op_route_to_dev
  route_to_tun-read =
      let index : (i == 0) ≡ false = ground arith in
      (
        (
          message rtm_newroute nlm_f_new 3 0 1,
          rw index refl,
          length-message rtm_newroute nlm_f_new 3 0 1,
          read_message rtm_newroute nlm_f_new 3 0 1 (omega arith) (omega arith),
        ),
        (
          message rtm_delroute nlm_f_request 0 255 0,
          rw index refl,
          length-message rtm_delroute nlm_f_request 0 255 0,
          read_message rtm_delroute nlm_f_request 0 255 0 (omega arith) (omega arith),
        ),
      )

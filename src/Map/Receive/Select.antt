-- ===== src/Map/Receive/Select.antt =====
-- What the loop over the locators of a record selects, on the packets that the builder writes.
use lixy.Base.{
  ℕ, zero, suc, ◌≡◌, refl, sym, ap, ◌∙◌, ◌⊎◌, inl, inr, ◌<◌, ◌==◌, ltb, if◌then◌else◌, Bool, some,
  List, [], ◌∷◌, ◌++◌, append_assoc, replicate, length, take, arith, All, Bool-cases, subst,
}
use lixy.Net.{Locator, af_inet, af_inet6}
use lixy.Wire.{put_locator, get_locator, lispafi_to_af, af_to_lispafi, afi_addr_len}
use lixy.Wire.RoundTrip.{get_locator-put_locator}
use lixy.Wire.Bytes.{get_bytes, get_bytes-append}
use lixy.Map.Build.{built_locator, set_locators}
use lixy.Map.Receive.{lisp_locator_pkt_to_locator, select_locator, fill_sockaddr}

-- An address of one of the two families, with the bytes that it has.
abbrev pub IsAddress : ℕ → List ℕ → Type 0
IsAddress af add = ((af ≡ af_inet) × (length add ≡ 4)) ⊎ ((af ≡ af_inet6) × (length add ≡ 16))

abbrev pub IsLocator : Locator → Type 0
IsLocator l = IsAddress l.loc_addr.family l.loc_addr.addr

abbrev pub packet : Locator → List ℕ
packet l = put_locator (built_locator l) ++ l.loc_addr.addr

abbrev pub packets : List Locator → List ℕ
packets [] = []
packets (l ∷ ls) = packet l ++ packets ls

-- A locator as the other side sees it: with the port of the data plane, and zeros for the rest.
abbrev pub as_received : Locator → Locator
as_received l = record l {
  loc_addr = record {
    family = l.loc_addr.family;
    port = 4341;
    addr = l.loc_addr.addr;
    rest = replicate (if l.loc_addr.family == af_inet then 120 else 108) 0;
  };
}

-- The first locator with the greatest number for its priority.
abbrev pub best_of : Locator → List Locator → Locator
best_of best [] = best
best_of best (l ∷ ls) = best_of (if ltb best.priority l.priority then l else best) ls

pub take_all : (xs : List ℕ) (n : ℕ) → length xs ≡ n → take n xs ≡ xs
take_all [] zero h = refl
take_all [] (suc n) h = refl
take_all (x ∷ xs) zero h = absurd (omega arith)
take_all (x ∷ xs) (suc n) h = ap (◌∷◌ x) (take_all xs n (omega arith))

pub af_to_lispafi-lt : (af : ℕ) → af_to_lispafi af < 65536
unfolding af_to_lispafi
af_to_lispafi-lt af = ground arith

get_packet :
    (l : Locator) (rest : List ℕ)
    → get_locator (packet l ++ rest) ≡ some (built_locator l, l.loc_addr.addr ++ rest)
get_packet l rest = rw append_assoc (
    get_locator-put_locator (built_locator l) (l.loc_addr.addr ++ rest) (record {
      r_flag = omega arith;
      p_flag = omega arith;
      l_flag = omega arith;
      afi = af_to_lispafi-lt l.loc_addr.family;
    }))

pub get_addr :
    (af : ℕ) (add rest : List ℕ)
    → IsAddress af add
    → get_bytes (if af == af_inet then 4 else 16) (add ++ rest) ≡ some (add, rest)
get_addr af add rest (inl (f, n)) = rw (f, ← n) (get_bytes-append add rest)
get_addr af add rest (inr (f, n)) = rw (f, ← n) (get_bytes-append add rest)

pub afi_addr_len-af :
    (af : ℕ) (add : List ℕ)
    → IsAddress af add
    → (afi_addr_len (af_to_lispafi af) ≡ (if af == af_inet then 4 else 16))
      × (lispafi_to_af (af_to_lispafi af) ≡ some af)
unfolding afi_addr_len af_to_lispafi lispafi_to_af
afi_addr_len-af af add (inl (f, n)) = rw f (refl, refl)
afi_addr_len-af af add (inr (f, n)) = rw f (refl, refl)

pub set_locators-packets :
    (ls : List Locator) → All IsLocator ls → set_locators ls ≡ some (packets ls)
unfolding set_locators
set_locators-packets [] h = refl
set_locators-packets (l ∷ ls) (inl (f, n), h) =
    rw (set_locators-packets ls h, f, take_all l.loc_addr.addr 4 n) refl
set_locators-packets (l ∷ ls) (inr (f, n), h) =
    rw (set_locators-packets ls h, f, take_all l.loc_addr.addr 16 n) refl

-- Reading one packet gives the locator, and the next one starts behind it.
pub pkt_to_locator-packet :
    (l : Locator) (rest : List ℕ)
    → IsLocator l
    → lisp_locator_pkt_to_locator (packet l ++ rest) ≡ some (as_received l)
unfolding lisp_locator_pkt_to_locator fill_sockaddr
pkt_to_locator-packet l rest h =
    rw
      (
        get_packet l rest,
        (afi_addr_len-af l.loc_addr.family l.loc_addr.addr h).1,
        get_addr l.loc_addr.family l.loc_addr.addr rest h,
      )
      refl

select_locator-step :
    (best l : Locator) (n : ℕ) (after tail : List ℕ)
    → IsLocator l
    → select_locator (suc n) (packet best ++ after) (packet l ++ tail)
      ≡ select_locator n
          (if ltb best.priority l.priority then packet l ++ tail else packet best ++ after)
          tail
unfolding select_locator
select_locator-step best l n after tail h =
    rw
      (
        get_packet best after,
        get_packet l tail,
        (afi_addr_len-af l.loc_addr.family l.loc_addr.addr h).0,
        get_addr l.loc_addr.family l.loc_addr.addr tail h,
      )
      refl

-- The loop ends at the packet of the locator that `best_of` names, and behind the last packet.
pub select_locator-packets :
    (best : Locator) (ls : List Locator) (after rest : List ℕ)
    → All IsLocator ls
    → (after' : List ℕ) × (select_locator (length ls) (packet best ++ after) (packets ls ++ rest)
        ≡ some (packet (best_of best ls) ++ after', rest))
unfolding select_locator
select_locator-packets best [] after rest h = (after, refl)
select_locator-packets best (l ∷ ls) after rest (hl, h) =
    let tail = packets ls ++ rest in
    let regroup =
      ap (select_locator (suc (length ls)) (packet best ++ after))
        (append_assoc (packet l) (packets ls) rest) in
    let step = regroup ∙ select_locator-step best l (length ls) after tail hl in
    let at_test = λ (b : Bool).
      select_locator (length ls) (if b then packet l ++ tail else packet best ++ after) tail in
    let chosen = λ (b : Bool). best_of (if b then l else best) ls in
    elim (Bool-cases (ltb best.priority l.priority)) [
      | inl e ↦
          let (after', ih) = select_locator-packets l ls tail rest h in
          (
            after',
            step ∙ ap at_test e ∙ ih ∙ sym (ap (λ b. some (packet (chosen b) ++ after', rest)) e),
          )
      | inr e ↦
          let (after', ih) = select_locator-packets best ls after rest h in
          (
            after',
            step ∙ ap at_test e ∙ ih ∙ sym (ap (λ b. some (packet (chosen b) ++ after', rest)) e),
          )
    ]

pub best_of-IsLocator :
    (best : Locator) (ls : List Locator)
    → IsLocator best
    → All IsLocator ls
    → IsLocator (best_of best ls)
best_of-IsLocator best [] hb h = hb
best_of-IsLocator best (l ∷ ls) hb (hl, h) = elim (Bool-cases (ltb best.priority l.priority)) [
  | inl e ↦
      subst (λ b. IsLocator (best_of (if b then l else best) ls)) (sym e)
        (best_of-IsLocator l ls hl h)
  | inr e ↦
      subst (λ b. IsLocator (best_of (if b then l else best) ls)) (sym e)
        (best_of-IsLocator best ls hb h)
]

-- ===== src/Aging/Rounds.antt =====
-- Rounds of the aging thread, and the end of an entry that is never refreshed.
use lixy.Base.{
  ℕ, zero, suc, ◌≡◌, refl, ◌+◌, ◌-◌, ◌*◌, ◌%◌, ◌^◌, ◌<◌, ◌≤◌, ◌⊎◌, ltb, dec_lt, ap, ◌∙◌,
  if◌then◌else◌, true, false, Option, none, some, List, [], ◌∷◌, ◌++◌, arith, Bool-cases, inl, inr,
}
use lixy.Platform.Patricia.{Patricia, LawfulPatricia, Key, covers}
use lixy.LinkedList.{u32}
use lixy.Maptable.{Maptable, MapNode}
use lixy.Maptable.Fib.{Fib, fib, RibInv, holds_static}
use lixy.Map.Receive.{Output, ◌>>=◌}
use lixy.Aging.{lower_ttl, is_expired, age_rounds}
use lixy.Aging.Walk.{aged}
use lixy.Aging.Expiry.{under_static, age_maptable-ages}

-- Nothing in a round makes an entry static.
aged-not_static : (o : Option MapNode) → holds_static o ≡ false → holds_static (o >>= aged) ≡ false
unfolding lower_ttl
aged-not_static none h = refl
aged-not_static (some mn) h = elim (Bool-cases (is_expired (lower_ttl mn))) [
  | inl e ↦ rw e refl
  | inr e ↦ rw e h
]

-- No static entry covers the key.
abbrev pub Exposed : Fib → Key → Type 0
Exposed f k = (j : Key) → covers j k ≡ true → holds_static (f j) ≡ false

Exposed-under_static :
    (f : Fib) (ks : List Key) (k : Key) → Exposed f k → under_static f ks k ≡ false
Exposed-under_static f [] k h = refl
Exposed-under_static f (j ∷ js) k h =
    let rest = Exposed-under_static f js k h in
    elim (Bool-cases (covers j k)) [ inl e ↦ rw (e, h j e) rest | inr e ↦ rw e rest ]

-- The entry after some rounds, when nothing protects or refreshes it.
abbrev pub spec_rounds : ℕ → Option MapNode → Option MapNode
spec_rounds zero o = o
spec_rounds (suc n) o = spec_rounds n (o >>= aged)

Exposed-round :
    (f f' : Fib) (ks : List Key) (k : Key)
    → ((j : Key) → f' j ≡ (if under_static f ks j then f j else f j >>= aged))
    → Exposed f k
    → Exposed f' k
Exposed-round f f' ks k e h j c = rw (e j) (elim (Bool-cases (under_static f ks j)) [
  | inl u ↦ rw u (h j c)
  | inr u ↦ rw u (aged-not_static (f j) (h j c))
])

-- What some rounds leave of an entry: it goes in the round in which its time is up.
abbrev pub remaining : ℕ → MapNode → Option MapNode
remaining zero mn = some mn
remaining (suc n) mn =
    if ltb (10 * suc n) mn.ttl then some (record mn { ttl = mn.ttl - 10 * suc n }) else none

spec_rounds-none : (n : ℕ) → spec_rounds n none ≡ none
spec_rounds-none zero = refl
spec_rounds-none (suc n) = spec_rounds-none n

is_expired-cases :
    (mn : MapNode)
    → mn.ttl < 2 ^ 31
    → ((is_expired (lower_ttl mn) ≡ true) × (mn.ttl ≤ 10))
      ⊎ ((is_expired (lower_ttl mn) ≡ false)
          × (10 < mn.ttl)
          × (lower_ttl mn ≡ record mn { ttl = mn.ttl - 10 }))
unfolding lower_ttl is_expired
is_expired-cases mn h = elim (dec_lt 10 mn.ttl) [
  | yes c ↦
      let left : (mn.ttl + (u32 - 10)) % u32 ≡ mn.ttl - 10 = omega arith in
      inr (rw left (ground arith), c, ap (λ n. record mn { ttl = n }) left)
  | no c ↦
      let left : ((mn.ttl + (u32 - 10)) % u32 ≡ 0) ⊎ (2 ^ 31 ≤ (mn.ttl + (u32 - 10)) % u32) =
        ground arith in
      inl (ground (arith, left), omega arith)
]

spec_rounds-remaining :
    (n : ℕ) (mn : MapNode) → mn.ttl < 2 ^ 31 → spec_rounds n (some mn) ≡ remaining n mn
spec_rounds-remaining zero mn h = refl
spec_rounds-remaining (suc n) mn h = elim (is_expired-cases mn h) [
  | inl (e, soon) ↦
      let over : ltb (10 * suc n) mn.ttl ≡ false = ground arith in rw (e, over) (spec_rounds-none n)
  | inr (e, more, same) ↦
      rw (e, same)
        (spec_rounds-remaining n (record mn { ttl = mn.ttl - 10 }) (omega arith) ∙ on n mn more)
]
  where
    on :
        (n : ℕ) (mn : MapNode)
        → 10 < mn.ttl
        → remaining n (record mn { ttl = mn.ttl - 10 }) ≡ remaining (suc n) mn
    on zero mn more = let due : ltb (10 * 1) mn.ttl ≡ true = ground arith in rw due refl
    on (suc n) mn more =
        let time : mn.ttl - 10 - 10 * suc n ≡ mn.ttl - 10 * suc (suc n) = omega arith in
        let due : ltb (10 * suc n) (mn.ttl - 10) ≡ ltb (10 * suc (suc n)) mn.ttl = ground arith in
        rw (time, due) refl

module _ (t : Patricia) (law : LawfulPatricia t) where
  age_rounds-Exposed :
      (n : ℕ) (r : Maptable t) (k : Key)
      → RibInv t r
      → Exposed (fib t r) k
      → (r' : Maptable t) × (out : List Output) × (age_rounds t n r ≡ some (r', out))
        × RibInv t r'
        × (fib t r' k ≡ spec_rounds n (fib t r k))
  unfolding age_rounds
  age_rounds-Exposed zero r k v h = (r, [], refl, v, refl)
  age_rounds-Exposed (suc n) r k v h =
      let (r₁, first, e₁, v₁, entries) = age_maptable-ages t law r v in
      let h₁ = Exposed-round (fib t r) (fib t r₁) (t.walk r.tree) k entries h in
      let (r₂, later, e₂, v₂, left) = age_rounds-Exposed n r₁ k v₁ h₁ in
      let here =
        entries k
        ∙ ap (λ b. if b then fib t r k else fib t r k >>= aged)
            (Exposed-under_static (fib t r) (t.walk r.tree) k h) in
      (r₂, first ++ later, rw (e₁, e₂) refl, v₂, left ∙ ap (spec_rounds n) here)

  -- Whatever number of rounds pass over a well-formed table, none of them dereferences NULL and the
  -- table stays well-formed. An entry that no static entry covers, that is not static, is not
  -- refreshed in between and has a time to live below 2 ^ 31 loses ten seconds in each, and is gone
  -- from the round on in which nothing is left of it.
  pub age_rounds-remaining :
      (n : ℕ) (r : Maptable t) (k : Key) (mn : MapNode)
      → RibInv t r
      → Exposed (fib t r) k
      → fib t r k ≡ some mn
      → mn.ttl < 2 ^ 31
      → (r' : Maptable t) × (out : List Output) × (age_rounds t n r ≡ some (r', out))
        × RibInv t r'
        × (fib t r' k ≡ remaining n mn)
  age_rounds-remaining n r k mn v h here short =
      let (r', out, e, v', left) = age_rounds-Exposed n r k v h in
      (r', out, e, v', left ∙ ap (spec_rounds n) here ∙ spec_rounds-remaining n mn short)

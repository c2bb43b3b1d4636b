-- ===== src/Platform/Patricia/Covers.antt =====
-- Prefixes that cover others, and the order of the walk.
use native.Mathlib.Nat.{div-div-eq-div-mul, two-pow-succ, one-mul, add-mul}
use lixy.Base.{
  ℕ, zero, suc, ◌≡◌, refl, sym, ◌+◌, ◌-◌, ◌*◌, ◌/◌, ◌^◌, ◌≤◌, ◌&&◌, leb, ap, ap₂, ◌∙◌, Bool, true,
  false, List, [], ◌∷◌, arith, All, Bool-cases, inl, inr,
}
use lixy.Platform.Patricia.{Key, key_eq, key_eq_iff, key_eq_refl, covers, contains, any_covers}

pub covers_refl : (k : Key) → covers k k ≡ true
unfolding covers
covers_refl k =
    let level : k.len - k.len ≡ 0 = omega arith in
    let reach : leb k.len k.len ≡ true = ground arith in rw (reach, level) (ground arith)

pow_add : (m n : ℕ) → 2 ^ (m + n) ≡ 2 ^ m * 2 ^ n
pow_add zero n = let same : 0 + n ≡ n = omega arith in rw same (sym (one-mul (2 ^ n)))
pow_add (suc m) n =
    let step : suc m + n ≡ suc (m + n) = omega arith in
    ap (λ l. 2 ^ l) step
    ∙ two-pow-succ (m + n)
    ∙ ap₂ (λ a b. a + b) (pow_add m n) (pow_add m n)
    ∙ sym (add-mul (2 ^ m) (2 ^ m) (2 ^ n))
    ∙ sym (ap (λ a. a * 2 ^ n) (two-pow-succ m))

pub and_false : (a b : Bool) → b ≡ false → (a && b) ≡ false
and_false a b h = ground arith

covers-cut :
    (i j : Key) → covers i j ≡ true → (i.len ≤ j.len) × (i.bits ≡ j.bits / 2 ^ (j.len - i.len))
unfolding covers
covers-cut i j h = ground arith

pub covers_trans : (i j k : Key) → covers i j ≡ true → covers j k ≡ true → covers i k ≡ true
unfolding covers
covers_trans i j k a b =
    let first = covers-cut i j a in
    let second = covers-cut j k b in
    let shift : (k.len - j.len) + (j.len - i.len) ≡ k.len - i.len =
      omega (arith, first.0, second.0) in
    let reach : leb i.len k.len ≡ true = ground (arith, first.0, second.0) in
    let divided =
      div-div-eq-div-mul k.bits (2 ^ (k.len - j.len)) (2 ^ (j.len - i.len))
      ∙ ap (λ n. k.bits / n)
          (sym (pow_add (k.len - j.len) (j.len - i.len)) ∙ ap (λ n. 2 ^ n) shift) in
    let bits : i.bits ≡ k.bits / 2 ^ (k.len - i.len) =
      first.1 ∙ ap (λ n. n / 2 ^ (j.len - i.len)) second.1 ∙ divided in
    rw (reach, sym bits) (ground arith)

pub key_eq_below : (j k : Key) → covers j k ≡ false → key_eq k j ≡ false
key_eq_below j k h = elim (Bool-cases (key_eq k j)) [
  | inl e ↦ absurd (cc (covers_refl j, (key_eq_iff k j).0 e, h))
  | inr e ↦ e
]

pub contains-All :
    (ks : List Key) {P : Key → Type 0} → ((k : Key) → contains ks k ≡ true → P k) → All P ks
contains-All [] h = tt
contains-All (j ∷ js) h = (
  h j (rw (key_eq_refl j) refl),
  contains-All js
      (λ k c. h k (elim (Bool-cases (key_eq k j)) [ inl e ↦ rw e refl | inr e ↦ rw e c ])),
)

pub any_covers_trans :
    (broken : List Key) (j k : Key)
    → any_covers broken j ≡ true
    → covers j k ≡ true
    → any_covers broken k ≡ true
any_covers_trans [] j k h c = h
any_covers_trans (i ∷ is) j k h c = elim (Bool-cases (covers i j)) [
  | inl e ↦ rw (covers_trans i j k e c) refl
  | inr e ↦ let rest = any_covers_trans is j k (sym (rw e refl) ∙ h) c in ground arith
]

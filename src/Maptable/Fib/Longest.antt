-- ===== src/Maptable/Fib/Longest.antt =====
-- Longest prefix match: what is found, what is not, and the match of a prefix with an entry.
use lixy.Base.{
  ℕ, zero, suc, ◌≡◌, refl, ap, ◌∙◌, ◌≤◌, ◌<◌, ◌⊎◌, Bool, true, false, none, some, arith,
  Option-cases, Bool-cases, inl, inr, subst, dec_lt,
}
use lixy.Platform.Patricia.{Key, key_eq_refl, key, cut, longest}
use lixy.Net.{Prefix}
use lixy.Maptable.{MapNode}
use lixy.Maptable.Fib.{Fib, present, override, best_key, spec_search}

-- `m` is the greatest number up to `n` whose first bits are accepted.
pub record IsLongest (has : Key → Bool) (p : Prefix) (n m : ℕ) : Type 0 where
  pub within : m ≤ n
  pub accepted : has (cut p m) ≡ true
  pub greatest : (l : ℕ) → m < l → l ≤ n → has (cut p l) ≡ false

longest-cases :
    (has : Key → Bool) (p : Prefix) (n : ℕ)
    → ((longest has p n ≡ none) × ((l : ℕ) → l ≤ n → has (cut p l) ≡ false))
      ⊎ ((m : ℕ) × (longest has p n ≡ some (cut p m)) × IsLongest has p n m)
unfolding longest
longest-cases has p zero = elim (Bool-cases (has (cut p 0))) [
  | inl h ↦ inr (
    0,
    rw h refl,
    record { within = omega arith; accepted = h; greatest = λ l a b. absurd (omega arith) },
  )
  | inr h ↦ inl (rw h refl, λ l a. subst (λ k. has (cut p k) ≡ false) (omega arith) h)
]
longest-cases has p (suc n) = elim (Bool-cases (has (cut p (suc n)))) [
  | inl h ↦ inr (
    suc n,
    rw h refl,
    record { within = omega arith; accepted = h; greatest = λ l a b. absurd (omega arith) },
  )
  | inr h ↦ elim (longest-cases has p n) [
    | inl (e, nothing) ↦ inl (rw h e, below nothing h)
    | inr (m, e, g) ↦ inr (
      m,
      rw h e,
      record {
        within = omega (arith, g.within);
        accepted = g.accepted;
        greatest = λ l a. below_from g.greatest h l a;
      },
    )
  ]
]
  where
    below_from :
        {m : ℕ}
        → ((l : ℕ) → m < l → l ≤ n → has (cut p l) ≡ false)
        → has (cut p (suc n)) ≡ false
        → (l : ℕ) → m < l
        → l ≤ suc n
        → has (cut p l) ≡ false
    below_from f h l a b = elim (dec_lt n l) [
      | yes c ↦ subst (λ k. has (cut p k) ≡ false) (omega arith) h
      | no c ↦ f l a (omega arith)
    ]

    below :
        ((l : ℕ) → l ≤ n → has (cut p l) ≡ false)
        → has (cut p (suc n)) ≡ false
        → (l : ℕ) → l ≤ suc n
        → has (cut p l) ≡ false
    below f h l b = elim (dec_lt n l) [
      | yes c ↦ subst (λ k. has (cut p k) ≡ false) (omega arith) h
      | no c ↦ f l (omega arith)
    ]

-- A prefix with an entry of its own is matched by that entry.
pub longest_self :
    (has : Key → Bool) (p : Prefix) (n : ℕ)
    → has (cut p n) ≡ true
    → longest has p n ≡ some (cut p n)
unfolding longest
longest_self has p zero h = rw h refl
longest_self has p (suc n) h = rw h refl

-- A search finds the entry of the longest covering prefix, and nothing only if there is none.
pub best_key-cases :
    (f : Fib) (p : Prefix)
    → let has = λ (k : Key). present (f k) in
      ((best_key f p ≡ none) × ((l : ℕ) → l ≤ p.bitlen → has (cut p l) ≡ false))
      ⊎ ((m : ℕ) × (best_key f p ≡ some (cut p m)) × IsLongest has p p.bitlen m)
unfolding best_key
best_key-cases f p = longest-cases (λ k. present (f k)) p p.bitlen

-- A longest match is an entry.
pub best_key-some :
    (f : Fib) (p : Prefix) (k : Key) → best_key f p ≡ some k → (mn : MapNode) × (f k ≡ some mn)
best_key-some f p k e = elim (Option-cases (f k)) [
  | inr (mn, e') ↦ (mn, e')
  | inl e' ↦ elim (best_key-cases f p) [
    | inl (miss, _) ↦ absurd (cc)
    | inr (m, hit, g) ↦ absurd (ground (arith, g.accepted))
  ]
]

-- What was just entered for a prefix is found for that prefix.
pub spec_search-override :
    (f : Fib) (p : Prefix) (mn : MapNode) → spec_search (override f (key p) (some mn)) p ≡ some mn
unfolding best_key
spec_search-override f p mn =
    rw
      (longest_self (λ k. present (override f (key p) (some mn) k)) p p.bitlen
        (rw key_eq_refl refl))
      (rw key_eq_refl refl)

pub best_key-none_self : (f : Fib) (p : Prefix) → best_key f p ≡ none → f (key p) ≡ none
unfolding best_key
best_key-none_self f p h = elim (Option-cases (f (key p))) [
  | inl e ↦ e
  | inr (mn, e) ↦ absurd (cc (longest_self (λ k. present (f k)) p p.bitlen (rw e refl)))
]

-- The longest match is where the test accepts and no more bits are accepted.
pub longest-at :
    (has : Key → Bool) (p : Prefix) (m n : ℕ)
    → m ≤ n
    → has (cut p m) ≡ true
    → ((l : ℕ) → m < l → l ≤ n → has (cut p l) ≡ false)
    → longest has p n ≡ some (cut p m)
longest-at has p m n h here longer = elim (longest-cases has p n) [
  | inl (e, nothing) ↦ absurd (cc (nothing m h))
  | inr (k, e, g) ↦
      let same : k ≡ m = elim (dec_lt m k) [
        | yes a ↦ absurd (cc (longer k a g.within, g.accepted))
        | no a ↦ elim (dec_lt k m) [ yes b ↦ absurd (cc (g.greatest m b h)) | no b ↦ omega arith ]
      ] in
      e ∙ ap (λ l. some (cut p l)) same
]

-- ===== src/Startup/Ensures.antt =====
-- Reasoning about system calls: what has succeeded when a program returns.
use lixy.Base.{
  ℕ, ◌≡◌, ◌≢◌, refl, ◌⊎◌, Option, none, some, List, [], ◌∷◌, ◌++◌, Option-cases, All, All-map,
  All-append, inl, inr,
}
use lixy.Startup.{Call, close, Trace, Kernel, Ran, returned, exited, Program, ◌>>=◌, must, call}

module _ (kernel : Kernel) where
  -- The call was made, and succeeded.
  unfoldable pub Done : Call → Trace → Type 0
  Done c [] = ⊥
  Done c (d ∷ t) = ((c ≡ d) × (kernel (d ∷ t) ≢ none)) ⊎ Done c t

  -- Each of the calls was made, for some descriptor where it is open, and succeeded.
  abbrev pub AllDone : List (ℕ → Call) → Trace → Type 0
  AllDone cs t = All (λ (c : ℕ → Call). (fd : ℕ) × Done (c fd) t) cs

  -- Whatever was done stays done.
  abbrev pub Later : Trace → Trace → Type 0
  Later t t' = (c : Call) → Done c t → Done c t'

  AllDone-Later : (cs : List (ℕ → Call)) (t t' : Trace) → Later t t' → AllDone cs t → AllDone cs t'
  AllDone-Later cs t t' l h = All-map _ _ (λ c (fd, d). (fd, l (c fd) d)) cs h

  -- The last call failed, or the one before it did and the last cleared up.
  unfoldable pub Failed : Trace → Type 0
  Failed t =
      (c : Call) × (t' : Trace) × (kernel (c ∷ t') ≡ none)
      × ((t ≡ c ∷ t') ⊎ ((fd : ℕ) × (t ≡ close fd ∷ c ∷ t')))

  -- If the program returns, the calls that its result stands for have succeeded; if it exits, a
  -- call has failed.
  abbrev pub Ensures : {A : Type 0} → Trace → Ran A → (A → List (ℕ → Call)) → Type 0
  Ensures t (returned a t') cs = Later t t' × AllDone (cs a) t'
  Ensures t (exited t') cs = Failed t'

  weaken-Ensures :
      {A : Type 0} (t t' : Trace) (r : Ran A) (cs : A → List (ℕ → Call))
      → Later t t'
      → Ensures t' r cs
      → Ensures t r cs
  weaken-Ensures t t' (exited t'') cs l h = h
  weaken-Ensures t t' (returned a t'') cs l (l', h) = (λ c d. l' c (l c d), h)

  -- What has been done may be left unsaid.
  pub drop-Ensures :
      {A : Type 0} (t : Trace) (r : Ran A) (cs : A → List (ℕ → Call))
      → Ensures t r cs
      → Ensures t r (λ _. [])
  drop-Ensures t (exited t') cs h = h
  drop-Ensures t (returned a t') cs h = (h.0, tt)

  -- A program, and then what follows it, with what has been done before.
  pub then-Ensures :
      {A B : Type 0} (before : List (ℕ → Call)) (ds : A → List (ℕ → Call))
      (cs : B → List (ℕ → Call)) (m : Program A) (f : A → Program B) (t : Trace)
      → Ensures t (m t) ds
      → ((a : A) (t' : Trace) → AllDone (before ++ ds a) t' → Ensures t' (f a t') cs)
      → AllDone before t
      → Ensures t ((m >>= f) t) cs
  unfolding ◌>>=◌
  then-Ensures before ds cs m f t h k b =
      elim (m t)
          as (λ r.
            Ensures t r ds
            → Ensures t (elim r [ returned a t' ↦ f a t' | exited t' ↦ exited t' ]) cs) [
              | exited t' ↦ λ h. h
              | returned a t' ↦ λ (l, d).
                  weaken-Ensures t t' (f a t') cs l
                    (k a t' (All-append _ before (ds a) (AllDone-Later before t t' l b) d))
            ]
        h

  pub must-Ensures : (c : Call) (t : Trace) → Ensures t (must kernel c t) (λ _. (λ _. c) ∷ [])
  unfolding must Done Failed
  must-Ensures c t = elim (Option-cases (kernel (c ∷ t))) [
    | inl e ↦ rw (e, must) (c, t, e, inl refl)
    | inr (n, e) ↦
        rw (e, must) (λ d h. inr h, ((0, inl (refl, λ none_there. cc (e, none_there))), tt))
  ]

  -- A call whose failure is seen by what follows.
  abbrev pub on_success : Call → Option ℕ → List (ℕ → Call)
  on_success c none = []
  on_success c (some n) = (λ _. c) ∷ []

  pub call-Ensures : (c : Call) (t : Trace) → Ensures t (call kernel c t) (on_success c)
  unfolding call Done
  call-Ensures c t = elim (Option-cases (kernel (c ∷ t))) [
    | inl e ↦ rw (e, call) (λ d h. inr h, tt)
    | inr (n, e) ↦
        rw (e, call) (λ d h. inr h, ((0, inl (refl, λ none_there. cc (e, none_there))), tt))
  ]

  pub call-quiet : (c : Call) (t : Trace) → Ensures t (call kernel c t) (λ _. [])
  call-quiet c t = drop-Ensures t (call kernel c t) (on_success c) (call-Ensures c t)

  pub pure-Ensures :
      {A : Type 0} (cs : A → List (ℕ → Call)) (a : A) (t : Trace)
      → AllDone (cs a) t
      → Ensures t (returned a t) cs
  pure-Ensures cs a t h = (λ c d. d, h)

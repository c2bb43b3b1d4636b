-- ===== src/Control/Locators/Effect.antt =====
-- What a `locator` command can do to the daemon's lists, and what it therefore keeps.
use lixy.Base.{
  ℕ, ◌≡◌, refl, Bool, Option, none, some, List, Option-cases, Bool-cases, inl, inr, subst, sym,
}
use lixy.Platform.{UtList, LawfulUtList}
use lixy.Platform.Resolver.{Resolver, memcpy_addr}
use lixy.LinkedList.{append_listnode, delete_listnode, search_listnode}
use lixy.LinkedList.Pool.{malloc, store}
use lixy.LinkedList.Unlike.{Unlike}
use lixy.LinkedList.Owned.{IsOwned, append_listnode-IsOwned, delete_listnode-IsOwned, store-IsOwned}
use lixy.Net.{Locator, compare_sockaddr}
use lixy.State.{Tuples, locators}
use lixy.Instance.{set_lisp_locator, unset_lisp_locator}
use lixy.Control.{Args, arg, is, lisp_control_port}
use lixy.Control.Locators.{
  set_paramater, new_locator, zeros_after, cmd_create_locator, cmd_delete_locator, search_locator,
  cmd_set_locator_paramater, config_locator, assign_paramater,
}
use lixy.Control.Locators.Spec.{config_locator-refines}
use lixy.Control.Locators.Spec.Invariant.{same_locator, spec_config_locator-Unlike}

module _ (u : UtList) (res : Resolver) (s : Tuples u) where
  added : Locator → Tuples u
  added loc = record s {
    locs = malloc s.locs loc;
    loc_tuple = append_listnode u s.loc_tuple s.locs.next;
  }

  removed : ℕ → Tuples u
  removed p = record s { loc_tuple = (delete_listnode u s.loc_tuple p).0 }

  assigned : ℕ → Locator → Tuples u
  assigned p loc = record s { locs = store s.locs p loc }

  module _ {ℓ} (P : Tuples u → Type ℓ) (kept : P s) (add : (loc : Locator) → P (added loc))
      (remove : (test : Locator → Bool) (p : ℕ)
        → search_listnode u s.loc_tuple (λ q. test (s.locs.cell q)) ≡ some p
        → P (removed p))
      (assign : (p : ℕ) (loc : Locator) → P (assigned p loc)) where
    create_cases : (caddr : List ℕ) → P (cmd_create_locator u res s caddr).0
    unfolding cmd_create_locator set_lisp_locator added
    create_cases caddr = elim (Option-cases (res.getaddrinfo (some caddr) lisp_control_port)) [
      | inl e ↦ rw (e, cmd_create_locator) kept
      | inr (ai, e) ↦
          rw (e, cmd_create_locator)
            (elim (Option-cases (search_locator u s (memcpy_addr ai (zeros_after ai)))) [
              | inl e' ↦ rw e' (add (new_locator ai))
              | inr (p, e') ↦ rw e' kept
            ])
    ]

    delete_cases : (stack caddr : List ℕ) → P (cmd_delete_locator u res stack s caddr).0
    unfolding cmd_delete_locator unset_lisp_locator removed
    delete_cases stack caddr =
        elim (Option-cases (res.getaddrinfo (some caddr) lisp_control_port)) [
          | inl e ↦ rw (e, cmd_delete_locator) kept
          | inr (ai, e) ↦
              let test = λ (l : Locator). compare_sockaddr l.loc_addr (memcpy_addr ai stack) in
              rw (e, cmd_delete_locator)
                (elim (Option-cases (search_listnode u s.loc_tuple (λ q. test (s.locs.cell q)))) [
                  | inl e' ↦ rw (e', unset_lisp_locator) kept
                  | inr (p, e') ↦ rw (e', unset_lisp_locator) (remove test p e')
                ])
        ]

    set_cases :
        (stack caddr param : List ℕ) (value : Option (List ℕ))
        → P (cmd_set_locator_paramater u res stack s caddr param value).0
    unfolding cmd_set_locator_paramater assigned
    set_cases stack caddr param none = kept
    set_cases stack caddr param (some value) =
        elim (Option-cases (res.getaddrinfo (some caddr) lisp_control_port)) [
          | inl e ↦ rw (e, cmd_set_locator_paramater) kept
          | inr (ai, e) ↦
              rw (e, cmd_set_locator_paramater)
                (elim (Option-cases (search_locator u s (memcpy_addr (res.after_free ai) stack))) [
                  | inl e' ↦ rw e' kept
                  | inr (p, e') ↦
                      rw e' (elim (Option-cases (set_paramater param value (s.locs.cell p))) [
                        | inl e'' ↦ rw (e'', assign_paramater) kept
                        | inr (loc, e'') ↦ rw (e'', assign_paramater) (assign p loc)
                      ])
                ])
        ]

    config_locator_cases : (stack : List ℕ) (args : Args) → P (config_locator u res stack s args).0
    unfolding config_locator
    config_locator_cases stack args = elim (Option-cases (arg args 1)) [
      | inl e ↦ rw (e, config_locator) kept
      | inr (caddr, e) ↦ elim (Option-cases (arg args 2)) [
        | inl e' ↦ rw (e, e', config_locator) kept
        | inr (action, e') ↦
            rw (e, e', config_locator)
              (elim (Bool-cases (is action "create")) [
                | inl c ↦ rw c (create_cases caddr)
                | inr c ↦ rw c (elim (Bool-cases (is action "delete")) [
                  | inl c' ↦ rw c' (delete_cases stack caddr)
                  | inr c' ↦ rw c' (set_cases stack caddr action (arg args 3))
                ])
              ])
      ]
    ]

module _ (u : UtList) where
  -- The list of locators is well formed, and no two locators have the same address.
  pub record LocatorInv (s : Tuples u) : Type 0 where
    pub owned : IsOwned u s.locs s.loc_tuple
    pub unlike : Unlike same_locator (locators u s)

module _ (u : UtList) (law : LawfulUtList u) (res : Resolver) (s : Tuples u) where
  config_locator-IsOwned :
      (stack : List ℕ) (args : Args)
      → IsOwned u s.locs s.loc_tuple
      → let t = (config_locator u res stack s args).0 in IsOwned u t.locs t.loc_tuple
  unfolding added removed assigned
  config_locator-IsOwned stack args o =
      config_locator_cases u res s (λ t. IsOwned u t.locs t.loc_tuple) o
        (λ loc. append_listnode-IsOwned u law s.locs s.loc_tuple loc o)
        (λ test p hit. delete_listnode-IsOwned u law s.locs s.loc_tuple test hit o)
        (λ p loc. store-IsOwned u law s.locs s.loc_tuple p loc o) stack args

  -- Any `locator` command keeps the list of locators well formed and free of double addresses.
  pub config_locator-LocatorInv :
      (stack : List ℕ) (args : Args)
      → LocatorInv u s
      → LocatorInv u (config_locator u res stack s args).0
  config_locator-LocatorInv stack args v = record {
    owned = config_locator-IsOwned stack args v.owned;
    unlike =
        subst (λ o. Unlike same_locator o.0)
          (sym (config_locator-refines u law res s stack args v.owned))
          (spec_config_locator-Unlike res (locators u s) v.unlike stack args);
  }

  -- A `locator` command leaves the EIDs and the map servers alone.
  pub config_locator_frame :
      (stack : List ℕ) (args : Args)
      → let t = (config_locator u res stack s args).0 in
        t ≡ record s { locs = t.locs; loc_tuple = t.loc_tuple }
  unfolding added removed assigned
  config_locator_frame stack args =
      config_locator_cases u res s (λ t. t ≡ record s { locs = t.locs; loc_tuple = t.loc_tuple })
        refl (λ loc. refl) (λ test p hit. refl) (λ p loc. refl) stack args

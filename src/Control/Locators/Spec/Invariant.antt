-- ===== src/Control/Locators/Spec/Invariant.antt =====
-- What the `locator` commands keep true of the daemon's lists.
use lixy.Base.{
  ℕ, ◌≡◌, ap, Bool, Option, none, some, List, arith, Option-cases, Bool-cases, inl, inr,
}
use lixy.Platform.Resolver.{Resolver, memcpy_addr}
use lixy.LinkedList.Search.{find}
use lixy.LinkedList.Unlike.{Unlike, Unlike-append, Unlike-remove_first, Unlike-modify_first}
use lixy.Net.{Locator, compare_sockaddr}
use lixy.Control.{Args, arg, is, lisp_control_port}
use lixy.Control.Locators.{set_paramater, new_locator, zeros_after}
use lixy.Control.Locators.Spec.{
  has_addr, spec_create, spec_delete, spec_set, spec_action, spec_config_locator,
}

-- Two locators have the same address.
abbrev pub same_locator : Locator → Locator → Bool
same_locator l = has_addr l.loc_addr

set_paramater-loc_addr :
    (param value : List ℕ) (loc loc' : Locator)
    → set_paramater param value loc ≡ some loc'
    → loc'.loc_addr ≡ loc.loc_addr
unfolding set_paramater
set_paramater-loc_addr param value loc loc' h = ground arith

module _ (res : Resolver) (ls : List Locator) (d : Unlike same_locator ls) where
  spec_create-Unlike : (caddr : List ℕ) → Unlike same_locator (spec_create res ls caddr).0
  unfolding spec_create
  spec_create-Unlike caddr = elim (Option-cases (res.getaddrinfo (some caddr) lisp_control_port)) [
    | inl e ↦ rw (e, spec_create) d
    | inr (ai, e) ↦
        rw (e, spec_create)
          (elim (Option-cases (find (has_addr (memcpy_addr ai (zeros_after ai))) ls)) [
            | inl e' ↦ rw e' (Unlike-append same_locator ls (new_locator ai) e' d)
            | inr (l, e') ↦ rw e' d
          ])
  ]

  spec_delete-Unlike :
      (stack caddr : List ℕ) → Unlike same_locator (spec_delete res stack ls caddr).0
  unfolding spec_delete
  spec_delete-Unlike stack caddr =
      elim (Option-cases (res.getaddrinfo (some caddr) lisp_control_port)) [
        | inl e ↦ rw (e, spec_delete) d
        | inr (ai, e) ↦
            let test = λ (l : Locator). compare_sockaddr l.loc_addr (memcpy_addr ai stack) in
            rw (e, spec_delete)
              (elim (Option-cases (find test ls)) [
                | inl e' ↦ rw e' d
                | inr (l, e') ↦ rw e' (Unlike-remove_first same_locator test ls d)
              ])
      ]

  spec_set-Unlike :
      (stack caddr param : List ℕ) (value : Option (List ℕ))
      → Unlike same_locator (spec_set res stack ls caddr param value).0
  unfolding spec_set
  spec_set-Unlike stack caddr param none = d
  spec_set-Unlike stack caddr param (some value) =
      elim (Option-cases (res.getaddrinfo (some caddr) lisp_control_port)) [
        | inl e ↦ rw (e, spec_set) d
        | inr (ai, e) ↦
            let test = has_addr (memcpy_addr (res.after_free ai) stack) in
            rw (e, spec_set)
              (elim (Option-cases (find test ls)) [
                | inl e' ↦ rw e' d
                | inr (l, e') ↦ rw e' (elim (Option-cases (set_paramater param value l)) [
                  | inl e'' ↦ rw e'' d
                  | inr (l', e'') ↦
                      let same = set_paramater-loc_addr param value l l' e'' in
                      rw e'' (
                        Unlike-modify_first same_locator test ls l' e'
                          (λ c. ap (compare_sockaddr c.loc_addr) same)
                          (λ c. ap (λ a. compare_sockaddr a c.loc_addr) same) d)
                ])
              ])
      ]

  spec_action-Unlike :
      (stack caddr action : List ℕ) (value : Option (List ℕ))
      → Unlike same_locator (spec_action res stack ls caddr action value).0
  unfolding spec_action
  spec_action-Unlike stack caddr action value = elim (Bool-cases (is action "create")) [
    | inl e ↦ rw e (spec_create-Unlike caddr)
    | inr e ↦ rw e (elim (Bool-cases (is action "delete")) [
      | inl e' ↦ rw e' (spec_delete-Unlike stack caddr)
      | inr e' ↦ rw e' (spec_set-Unlike stack caddr action value)
    ])
  ]

  pub spec_config_locator-Unlike :
      (stack : List ℕ) (args : Args) → Unlike same_locator (spec_config_locator res stack ls args).0
  unfolding spec_config_locator
  spec_config_locator-Unlike stack args = elim (Option-cases (arg args 1)) [
    | inl e ↦ rw (e, spec_config_locator) d
    | inr (caddr, e) ↦ elim (Option-cases (arg args 2)) [
      | inl e' ↦ rw (e, e', spec_config_locator) d
      | inr (action, e') ↦
          rw (e, e', spec_config_locator) (spec_action-Unlike stack caddr action (arg args 3))
    ]
  ]

-- ===== src/Control/Locators/Spec.antt =====
-- The `locator` commands as functions on the plain list of locators, and the proof that control.c
-- implements them.
pub mod Invariant
use lixy.Base.{
  ℕ, ◌≡◌, refl, if◌then◌else◌, Bool, Option, none, some, List, [], ◌∷◌, ◌++◌, arith, Option-cases,
  Bool-cases, inl, inr,
}
use lixy.Platform.{UtList, LawfulUtList}
use lixy.Platform.Resolver.{Resolver, memcpy_addr}
use lixy.LinkedList.Search.{find, remove_first, modify_first}
use lixy.LinkedList.Owned.{
  IsOwned, search_listnode-find, search_listnode-cases, contents-append_listnode,
  contents-delete_listnode, contents-store,
}
use lixy.Net.{Sockaddr, Locator, compare_sockaddr}
use lixy.State.{Tuples, locators}
use lixy.Instance.{set_lisp_locator, unset_lisp_locator}
use lixy.Control.{
  ReturnType, success, err_invalid_command, err_invalid_address, err_locator_exists,
  err_locator_does_not_exists, Args, arg, is, lisp_control_port,
}
use lixy.Control.Locators.{
  set_paramater, new_locator, zeros_after, cmd_create_locator, cmd_delete_locator,
  cmd_set_locator_paramater, config_locator, locator_action,
}

abbrev pub has_addr : Sockaddr → Locator → Bool
has_addr a loc = compare_sockaddr a loc.loc_addr

module _ (res : Resolver) where
  spec_create : List Locator → List ℕ → List Locator × ReturnType
  spec_create ls caddr = elim (res.getaddrinfo (some caddr) lisp_control_port) [
    | none ↦ (ls, err_invalid_address)
    | some ai ↦ elim (find (has_addr (memcpy_addr ai (zeros_after ai))) ls) [
      | some loc ↦ (ls, err_locator_exists)
      | none ↦ (ls ++ new_locator ai ∷ [], success)
    ]
  ]

  spec_delete : List ℕ → List Locator → List ℕ → List Locator × ReturnType
  spec_delete stack ls caddr = elim (res.getaddrinfo (some caddr) lisp_control_port) [
    | none ↦ (ls, err_invalid_address)
    | some ai ↦
        let test = λ (l : Locator). compare_sockaddr l.loc_addr (memcpy_addr ai stack) in
        elim (find test ls) [
          | none ↦ (ls, err_locator_does_not_exists)
          | some loc ↦ (remove_first test ls, success)
        ]
  ]

  spec_set : List ℕ → List Locator → List ℕ → List ℕ → Option (List ℕ) → List Locator × ReturnType
  spec_set stack ls caddr param none = (ls, err_invalid_command)
  spec_set stack ls caddr param (some value) =
      elim (res.getaddrinfo (some caddr) lisp_control_port) [
        | none ↦ (ls, err_invalid_address)
        | some ai ↦
            let test = has_addr (memcpy_addr (res.after_free ai) stack) in
            elim (find test ls) [
              | none ↦ (ls, err_locator_does_not_exists)
              | some loc ↦ elim (set_paramater param value loc) [
                | none ↦ (ls, err_invalid_command)
                | some loc' ↦ (modify_first test (λ _. loc') ls, success)
              ]
            ]
      ]

  spec_action :
      List ℕ → List Locator → List ℕ → List ℕ → Option (List ℕ) → List Locator × ReturnType
  spec_action stack ls caddr action value =
      if is action "create"
      then spec_create ls caddr
      else (if is action "delete"
          then spec_delete stack ls caddr
          else spec_set stack ls caddr action value)

  -- What `lixyctl locator` does, on the list of locators.
  pub spec_config_locator : List ℕ → List Locator → Args → List Locator × ReturnType
  unfolding spec_action
  spec_config_locator stack ls args = elim (arg args 1) [
    | none ↦ (ls, err_invalid_command)
    | some caddr ↦ elim (arg args 2) [
      | none ↦ (ls, err_invalid_command)
      | some action ↦ spec_action stack ls caddr action (arg args 3)
    ]
  ]

module _ (u : UtList) (law : LawfulUtList u) (res : Resolver) (s : Tuples u) where
  -- The locators after a command, with its result.
  abbrev outcome : Tuples u × ReturnType → List Locator × ReturnType
  outcome (s', r) = (locators u s', r)

  create-refines :
      (caddr : List ℕ)
      → IsOwned u s.locs s.loc_tuple
      → outcome (cmd_create_locator u res s caddr) ≡ spec_create res (locators u s) caddr
  unfolding cmd_create_locator spec_create set_lisp_locator
  create-refines caddr o = elim (Option-cases (res.getaddrinfo (some caddr) lisp_control_port)) [
    | inl e ↦ ground arith
    | inr (ai, e) ↦ ground (
      arith,
      search_listnode-find u law s.locs s.loc_tuple (has_addr (memcpy_addr ai (zeros_after ai))),
      contents-append_listnode u law s.locs s.loc_tuple (new_locator ai) o,
    )
  ]

  delete-refines :
      (stack caddr : List ℕ)
      → outcome (cmd_delete_locator u res stack s caddr)
        ≡ spec_delete res stack (locators u s) caddr
  unfolding cmd_delete_locator spec_delete unset_lisp_locator
  delete-refines stack caddr =
      elim (Option-cases (res.getaddrinfo (some caddr) lisp_control_port)) [
        | inl e ↦ ground arith
        | inr (ai, e) ↦
            let test = λ (l : Locator). compare_sockaddr l.loc_addr (memcpy_addr ai stack) in
            elim (search_listnode-cases u law s.locs s.loc_tuple test) [
              | inl (miss, gone) ↦ ground arith
              | inr (p, hit, found) ↦
                  ground (arith, contents-delete_listnode u law s.locs s.loc_tuple test hit)
            ]
      ]

  set-refines :
      (stack caddr param : List ℕ) (value : Option (List ℕ))
      → IsOwned u s.locs s.loc_tuple
      → outcome (cmd_set_locator_paramater u res stack s caddr param value)
        ≡ spec_set res stack (locators u s) caddr param value
  unfolding cmd_set_locator_paramater spec_set
  set-refines stack caddr param none o = refl
  set-refines stack caddr param (some value) o =
      elim (Option-cases (res.getaddrinfo (some caddr) lisp_control_port)) [
        | inl e ↦ ground arith
        | inr (ai, e) ↦
            let test = has_addr (memcpy_addr (res.after_free ai) stack) in
            elim (search_listnode-cases u law s.locs s.loc_tuple test) [
              | inl (miss, gone) ↦ ground arith
              | inr (p, hit, found) ↦
                  elim (Option-cases (set_paramater param value (s.locs.cell p))) [
                    | inl e' ↦ ground arith
                    | inr (loc, e') ↦ ground (
                      arith,
                      contents-store u law s.locs s.loc_tuple test (λ (_ : Locator). loc) hit o,
                    )
                  ]
            ]
      ]

  action-refines :
      (stack caddr action : List ℕ) (value : Option (List ℕ))
      → IsOwned u s.locs s.loc_tuple
      → outcome (locator_action u res stack s caddr action value)
        ≡ spec_action res stack (locators u s) caddr action value
  unfolding config_locator spec_config_locator
  action-refines stack caddr action value o = elim (Bool-cases (is action "create")) [
    | inl e ↦ rw e (create-refines caddr o)
    | inr e ↦ rw e (elim (Bool-cases (is action "delete")) [
      | inl e' ↦ rw e' (delete-refines stack caddr)
      | inr e' ↦ rw e' (set-refines stack caddr action value o)
    ])
  ]

  -- On a well-formed list, `config_locator` has the result of the specification, and leaves the
  -- locators that the specification gives, whatever the arguments.
  pub config_locator-refines :
      (stack : List ℕ) (args : Args)
      → IsOwned u s.locs s.loc_tuple
      → outcome (config_locator u res stack s args)
        ≡ spec_config_locator res stack (locators u s) args
  unfolding config_locator spec_config_locator
  config_locator-refines stack args o = elim (Option-cases (arg args 1)) [
    | inl e ↦ ground arith
    | inr (caddr, e) ↦ elim (Option-cases (arg args 2)) [
      | inl e' ↦ ground arith
      | inr (action, e') ↦ ground (arith, action-refines stack caddr action (arg args 3) o)
    ]
  ]

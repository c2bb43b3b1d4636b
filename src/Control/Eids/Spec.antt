-- ===== src/Control/Eids/Spec.antt =====
-- The `eid` commands as functions on a plain list of EIDs, each with a plain list of its prefixes,
-- and the proof that control.c implements them.
pub mod Refines
pub mod Sites
use lixy.Base.{
  ℕ, ◌==◌, ltb, leb, if◌then◌else◌, Bool, false, Option, none, some, List, [], ◌∷◌, ◌++◌, take,
  length, bytes_eq,
}
use lixy.Platform.Resolver.{Resolver}
use lixy.LinkedList.Search.{find, remove_first, modify_first}
use lixy.Net.{Prefix, compare_prefix}
use lixy.State.{lisp_eid_name_len, lisp_max_keylen}
use lixy.Control.{
  ReturnType, success, err_invalid_command, err_invalid_address, err_eid_exists, err_address_exists,
  err_eid_does_not_exists, err_address_does_not_exists, err_authkey_too_long, Args, arg, is,
}
use lixy.Control.Eids.{parse_prefix, addrbuflen}

-- An EID with the list of its prefixes.
pub record Site : Type 0 where
  pub name : List ℕ
  pub authkey : List ℕ
  pub prefixes : List Prefix

abbrev pub is_site : List ℕ → Site → Bool
is_site name e = bytes_eq (take lisp_eid_name_len name) (take lisp_eid_name_len e.name)

abbrev pub SpecOutcome : Type 0
SpecOutcome = Option (List Site × ReturnType)

spec_create : List Site → List ℕ → List Site × ReturnType
spec_create es name = elim (find (is_site name) es) [
  | some e ↦ (es, err_eid_exists)
  | none ↦ (
    es ++ record { name = take lisp_eid_name_len name; authkey = []; prefixes = [] } ∷ [],
    success,
  )
]

spec_delete : List Site → List ℕ → List Site × ReturnType
spec_delete es name = elim (find (is_site name) es) [
  | none ↦ (es, err_eid_does_not_exists)
  | some e ↦ (remove_first (is_site name) es, success)
]

-- The EID of the name becomes another.
abbrev pub changed : List Site → List ℕ → Site → List Site
changed es name e = modify_first (is_site name) (λ _. e) es

-- A key has at most 127 characters. One of 128 has no result, and a longer one is refused.
spec_key : List Site → List ℕ → Site → List ℕ → SpecOutcome
spec_key es name e key =
    if leb (length key) 127
    then some (changed es name (record e { authkey = key }), success)
    else (if length key == 128 then none else some (es, err_authkey_too_long))

spec_authkey : List Site → List ℕ → Option (List ℕ) → SpecOutcome
spec_authkey es name key = elim (find (is_site name) es) [
  | none ↦ some (es, err_eid_does_not_exists)
  | some e ↦ elim key [ none ↦ none | some k ↦ spec_key es name e k ]
]

spec_add : List Site → List ℕ → Site → Prefix → List Site × ReturnType
spec_add es name e prefix = elim (find (compare_prefix prefix) e.prefixes) [
  | some q ↦ (es, err_address_exists)
  | none ↦ (changed es name (record e { prefixes = e.prefixes ++ prefix ∷ [] }), success)
]

spec_remove : List Site → List ℕ → Site → Prefix → List Site × ReturnType
spec_remove es name e prefix = elim (find (compare_prefix prefix) e.prefixes) [
  | none ↦ (es, err_address_does_not_exists)
  | some q ↦ (
    changed es name (record e { prefixes = remove_first (compare_prefix prefix) e.prefixes }),
    success,
  )
]

module _ (res : Resolver) (es : List Site) where
  -- A command on the EID of the name and the prefix of the text; a text that overflows its array
  -- has no result.
  spec_prefix : (Site → Prefix → List Site × ReturnType) → List ℕ → Option (List ℕ) → SpecOutcome
  spec_prefix command name none = some (es, err_invalid_command)
  spec_prefix command name (some c_prefix) = elim (find (is_site name) es) [
    | none ↦ some (es, err_eid_does_not_exists)
    | some e ↦
        if ltb (length c_prefix) addrbuflen
        then elim (parse_prefix res c_prefix) [
          | none ↦ some (es, err_invalid_address)
          | some prefix ↦ some (command e prefix)
        ]
        else none
  ]

  spec_prefix_action : List ℕ → Option (List ℕ) → Option (List ℕ) → SpecOutcome
  spec_prefix_action name c_prefix none = spec_prefix (spec_add es name) name c_prefix
  spec_prefix_action name c_prefix (some delete) =
      if is delete "delete"
      then spec_prefix (spec_remove es name) name c_prefix
      else some (es, err_invalid_command)

  spec_eid_action : List ℕ → List ℕ → Args → SpecOutcome
  spec_eid_action name action args =
      if is action "create"
      then some (spec_create es name)
      else (if is action "delete"
          then some (spec_delete es name)
          else (if is action "authkey"
              then spec_authkey es name (arg args 3)
              else (if is action "prefix"
                  then spec_prefix_action name (arg args 3) (arg args 4)
                  else some (es, err_invalid_command))))

  -- What `lixyctl eid` does, on the list of EIDs.
  pub spec_config_eid : Args → SpecOutcome
  spec_config_eid args = elim (arg args 1) [
    | none ↦ some (es, err_invalid_command)
    | some name ↦ elim (arg args 2) [
      | none ↦ some (es, err_invalid_command)
      | some action ↦ spec_eid_action name action args
    ]
  ]

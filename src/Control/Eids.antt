-- ===== src/Control/Eids.antt =====
-- control.c: the `eid` commands. A command that dereferences NULL or writes past a local array has
-- no result.
pub mod Laws
pub mod Spec
use lixy.Base.{
  ℕ, ◌==◌, ltb, leb, ◌||◌, if◌then◌else◌, Bool, Option, none, some, List, [], ◌∷◌, length, take,
  bytes_eq,
}
use lixy.Platform.{UtList}
use lixy.Platform.Resolver.{Resolver}
use lixy.LinkedList.{append_listnode, delete_listnode, search_listnode}
use lixy.LinkedList.Pool.{malloc, store}
use lixy.Net.{Prefix, af_inet, af_inet6, compare_prefix}
use lixy.State.{Tuples, Eid, lisp_eid_name_len, lisp_max_keylen}
use lixy.Instance.{create_eid_instance, unset_eid_authkey}
use lixy.Control.{
  ReturnType, success, err_invalid_command, err_invalid_address, err_eid_exists, err_address_exists,
  err_eid_does_not_exists, err_address_does_not_exists, err_authkey_too_long, Args, arg, is,
  lisp_control_port,
}

abbrev pub addrbuflen : ℕ
addrbuflen = 56

-- `compare_eid (n, e) == 0`: `strncmp` of the first 16 characters.
unfoldable pub compare_eid : (u : UtList) → List ℕ → Eid u → Bool
compare_eid u name eid = bytes_eq (take lisp_eid_name_len name) (take lisp_eid_name_len eid.name)

-- The loop that looks for the slash, and the text before it.
unfoldable pub before_slash : List ℕ → Option (List ℕ)
before_slash [] = none
before_slash (c ∷ cs) =
    let rest : Option (List ℕ) = elim (before_slash cs) [ none ↦ none | some ys ↦ some (c ∷ ys) ] in
    if c == b'/' then some [] else rest

-- The prefix that an argument names, once it was copied into `addrbuf`; `none` is an invalid
-- address.
unfoldable pub parse_prefix : Resolver → List ℕ → Option Prefix
parse_prefix res c_prefix = elim (before_slash c_prefix) [
  | none ↦ none
  | some addrbuf ↦ elim (res.getaddrinfo (some addrbuf) lisp_control_port) [
    | none ↦ none
    | some ai ↦
        if ai.ai_family == af_inet
        then res.ascii2prefix af_inet c_prefix
        else (if ai.ai_family == af_inet6 then res.ascii2prefix af_inet6 c_prefix else none)
  ]
]

abbrev pub search_eid : (u : UtList) → Tuples u → List ℕ → Option ℕ
search_eid u s eid_name =
    search_listnode u s.eid_tuple (λ p. compare_eid u eid_name (s.eids.cell p))

abbrev pub search_prefix : (u : UtList) → Tuples u → Eid u → Prefix → Option ℕ
search_prefix u s eid prefix =
    search_listnode u eid.prefix_tuple (λ p. compare_prefix prefix (s.prefixes.cell p))

-- `memcpy (eid->authkey, key, strlen (key) + 1)` into 128 bytes, for a key that fits with its NUL.
unfoldable pub copy_authkey : (u : UtList) → List ℕ → Eid u → Eid u
copy_authkey u key eid = record eid { authkey = key }

module _ (u : UtList) (res : Resolver) (s : Tuples u) where
  abbrev pub Outcome : Type 0
  Outcome = Option (Tuples u × ReturnType)

  unfoldable pub cmd_create_eid : List ℕ → Tuples u × ReturnType
  cmd_create_eid eid_name = elim (search_eid u s eid_name) [
    | some p ↦ (s, err_eid_exists)
    | none ↦ (
      record s {
        eids = malloc s.eids (create_eid_instance u eid_name);
        eid_tuple = append_listnode u s.eid_tuple s.eids.next;
      },
      success,
    )
  ]

  unfoldable pub cmd_delete_eid : List ℕ → Tuples u × ReturnType
  cmd_delete_eid eid_name = elim (search_eid u s eid_name) [
    | none ↦ (s, err_eid_does_not_exists)
    | some p ↦ (record s { eid_tuple = (delete_listnode u s.eid_tuple p).0 }, success)
  ]

  -- A key of 128 characters passes the test, and its NUL goes into the pointer `prefix_tuple` behind
  -- `authkey`: there is no result.
  set_key : ℕ → List ℕ → Outcome
  set_key p key =
      if ltb lisp_max_keylen (length key)
      then some (s, err_authkey_too_long)
      else (if length key == lisp_max_keylen
          then none
          else some
              (record s { eids = store s.eids p (copy_authkey u key (s.eids.cell p)) }, success))

  -- `strlen (NULL)` for a missing key.
  unfoldable pub cmd_set_eid_authentication_key : List ℕ → Option (List ℕ) → Outcome
  unfolding set_key
  cmd_set_eid_authentication_key eid_name key = elim (search_eid u s eid_name) [
    | none ↦ some (s, err_eid_does_not_exists)
    | some p ↦ elim key [ none ↦ none | some k ↦ set_key p k ]
  ]

  unfoldable pub cmd_unset_eid_authentication_key : List ℕ → Tuples u × ReturnType
  cmd_unset_eid_authentication_key eid_name = elim (search_eid u s eid_name) [
    | none ↦ (s, err_eid_does_not_exists)
    | some p ↦ (record s { eids = store s.eids p (unset_eid_authkey u (s.eids.cell p)) }, success)
  ]

  -- A prefix of its own for the EID at the address, behind its others.
  abbrev pub with_prefix : ℕ → Prefix → Tuples u
  with_prefix p prefix =
      let eid = s.eids.cell p in
      record s {
        prefixes = malloc s.prefixes prefix;
        eids =
            store s.eids p
              (record eid { prefix_tuple = append_listnode u eid.prefix_tuple s.prefixes.next });
      }

  -- `ascii2prefix` allocates the prefix; it leaks if the EID has it already.
  add_prefix : ℕ → Prefix → Tuples u × ReturnType
  add_prefix p prefix = elim (search_prefix u s (s.eids.cell p) prefix) [
    | some q ↦ (record s { prefixes = malloc s.prefixes prefix }, err_address_exists)
    | none ↦ (with_prefix p prefix, success)
  ]

  remove_prefix : ℕ → Prefix → Tuples u × ReturnType
  remove_prefix p prefix = elim (search_prefix u s (s.eids.cell p) prefix) [
    | none ↦ (s, err_address_does_not_exists)
    | some q ↦
        let eid = s.eids.cell p in
        (
          record s {
            eids =
                store s.eids p
                  (record eid { prefix_tuple = (delete_listnode u eid.prefix_tuple q).0 });
          },
          success,
        )
  ]

  -- The part that `cmd_set_eid_prefix` and `cmd_unset_eid_prefix` share. The text is copied into an
  -- array of 56 bytes with its NUL.
  prefix_command : (ℕ → Prefix → Tuples u × ReturnType) → List ℕ → List ℕ → Outcome
  prefix_command command eid_name c_prefix = elim (search_eid u s eid_name) [
    | none ↦ some (s, err_eid_does_not_exists)
    | some p ↦
        if ltb (length c_prefix) addrbuflen
        then elim (parse_prefix res c_prefix) [
          | none ↦ some (s, err_invalid_address)
          | some prefix ↦ some (command p prefix)
        ]
        else none
  ]

  unfoldable pub cmd_set_eid_prefix : List ℕ → Option (List ℕ) → Outcome
  unfolding prefix_command add_prefix
  cmd_set_eid_prefix eid_name none = some (s, err_invalid_command)
  cmd_set_eid_prefix eid_name (some c_prefix) = prefix_command add_prefix eid_name c_prefix

  unfoldable pub cmd_unset_eid_prefix : List ℕ → Option (List ℕ) → Outcome
  unfolding prefix_command remove_prefix
  cmd_unset_eid_prefix eid_name none = some (s, err_invalid_command)
  cmd_unset_eid_prefix eid_name (some c_prefix) = prefix_command remove_prefix eid_name c_prefix

  eid_prefix_action : List ℕ → Option (List ℕ) → Option (List ℕ) → Outcome
  eid_prefix_action eid_name c_prefix none = cmd_set_eid_prefix eid_name c_prefix
  eid_prefix_action eid_name c_prefix (some delete) =
      if is delete "delete"
      then cmd_unset_eid_prefix eid_name c_prefix
      else some (s, err_invalid_command)

  eid_action : List ℕ → List ℕ → Args → Outcome
  eid_action eid_name action args =
      if is action "create"
      then some (cmd_create_eid eid_name)
      else (if is action "delete"
          then some (cmd_delete_eid eid_name)
          else (if is action "authkey"
              then cmd_set_eid_authentication_key eid_name (arg args 3)
              else (if is action "prefix"
                  then eid_prefix_action eid_name (arg args 3) (arg args 4)
                  else some (s, err_invalid_command))))

  unfoldable pub config_eid : Args → Outcome
  unfolding eid_action eid_prefix_action
  config_eid args = elim (arg args 1) [
    | none ↦ some (s, err_invalid_command)
    | some eid_name ↦ elim (arg args 2) [
      | none ↦ some (s, err_invalid_command)
      | some action ↦ eid_action eid_name action args
    ]
  ]

-- ===== src/Control/Eids/Laws/Effect.antt =====
-- Every `eid` command keeps the EIDs well formed; when a command has no result; what it changes.
use lixy.Base.{
  ◌==◌, ℕ, ◌≡◌, refl, sym, ◌∙◌, subst, ltb, Option, none, some, List, length, Option-cases,
  Bool-cases, inl, inr,
}
use lixy.Platform.{UtList, LawfulUtList}
use lixy.Platform.Resolver.{Resolver}
use lixy.LinkedList.Pool.{malloc}
use lixy.LinkedList.Unlike.{Unlike, Unlike-append, All-find, Unlike-remove_first}
use lixy.LinkedList.Owned.{
  search_listnode-find, contents-append_listnode, append_listnode-IsOwned, contents-delete_listnode,
  delete_listnode-IsOwned,
}
use lixy.Net.{Prefix, compare_prefix}
use lixy.State.{Tuples, lisp_max_keylen}
use lixy.Control.{ReturnType, Args, arg, is}
use lixy.Control.Eids.{
  compare_eid, search_eid, search_prefix, copy_authkey, set_key, add_prefix, remove_prefix,
  prefix_command, cmd_create_eid, cmd_delete_eid, cmd_set_eid_authentication_key,
  cmd_set_eid_prefix, cmd_unset_eid_prefix, eid_prefix_action, eid_action, config_eid, parse_prefix,
  addrbuflen,
}
use lixy.Control.Eids.Laws.{
  EidInv, PrefixInv, leak-EidInv, create-EidInv, delete-EidInv, store-EidInv,
}

module _ (u : UtList) (law : LawfulUtList u) (res : Resolver) (s : Tuples u) (v : EidInv u s) where
  -- If there is a result, its EIDs are well formed.
  abbrev Keeps : Option (Tuples u × ReturnType) → Type 0
  Keeps none = Unit
  Keeps (some (s', r)) = EidInv u s'

  create-Keeps : (name : List ℕ) → EidInv u (cmd_create_eid u res s name).0
  unfolding cmd_create_eid
  create-Keeps name = elim (Option-cases (search_eid u s name)) [
    | inl e ↦ rw (e, cmd_create_eid) (create-EidInv u law s v name e)
    | inr (p, e) ↦ rw (e, cmd_create_eid) v
  ]

  delete-Keeps : (name : List ℕ) → EidInv u (cmd_delete_eid u res s name).0
  unfolding cmd_delete_eid
  delete-Keeps name = elim (Option-cases (search_eid u s name)) [
    | inl e ↦ rw (e, cmd_delete_eid) v
    | inr (p, e) ↦ rw (e, cmd_delete_eid) (delete-EidInv u law s v name p e)
  ]

  set_key-Keeps :
      (name key : List ℕ) (p : ℕ) → search_eid u s name ≡ some p → Keeps (set_key u res s p key)
  unfolding set_key copy_authkey
  set_key-Keeps name key p e = elim (Bool-cases (ltb lisp_max_keylen (length key))) [
    | inl long ↦ rw (long, set_key) v
    | inr short ↦ elim (Bool-cases (length key == lisp_max_keylen)) [
      | inl full ↦ rw (short, full, set_key) tt
      | inr fits ↦
          rw (short, fits, set_key)
            (store-EidInv u law s v name p (copy_authkey u key (s.eids.cell p)) e refl
              (λ i. record { owned = i.owned; unlike = i.unlike }))
    ]
  ]

  authkey-Keeps :
      (name : List ℕ) (key : Option (List ℕ))
      → Keeps (cmd_set_eid_authentication_key u res s name key)
  unfolding cmd_set_eid_authentication_key
  authkey-Keeps name none = elim (Option-cases (search_eid u s name)) [
    | inl e ↦ rw (e, cmd_set_eid_authentication_key) v
    | inr (p, e) ↦ rw (e, cmd_set_eid_authentication_key) tt
  ]
  authkey-Keeps name (some key) = elim (Option-cases (search_eid u s name)) [
    | inl e ↦ rw (e, cmd_set_eid_authentication_key) v
    | inr (p, e) ↦ rw (e, cmd_set_eid_authentication_key) (set_key-Keeps name key p e)
  ]

  -- The prefixes of an EID that was found.
  old :
      (name : List ℕ) (p : ℕ)
      → search_eid u s name ≡ some p
      → PrefixInv u s.prefixes (s.eids.cell p)
  old name p e =
      All-find (PrefixInv u s.prefixes) (compare_eid u name) _
        (search_listnode-find u law s.eids s.eid_tuple (compare_eid u name) ∙ rw e refl) v.each

  add_prefix-Keeps :
      (name : List ℕ) (p : ℕ) (prefix : Prefix)
      → search_eid u s name ≡ some p
      → EidInv u (add_prefix u res s p prefix).0
  unfolding add_prefix
  add_prefix-Keeps name p prefix e =
      elim (Option-cases (search_prefix u s (s.eids.cell p) prefix)) [
        | inr (q, e') ↦ rw (e', add_prefix) (leak-EidInv u law s v prefix)
        | inl e' ↦
            rw (e', add_prefix)
              (store-EidInv u law (record s { prefixes = malloc s.prefixes prefix })
                (leak-EidInv u law s v prefix) name p _ e refl
                (λ _. record {
                  owned =
                      append_listnode-IsOwned u law s.prefixes (s.eids.cell p).prefix_tuple prefix
                        (old name p e).owned;
                  unlike =
                      subst (Unlike compare_prefix)
                        (sym (
                          contents-append_listnode u law s.prefixes (s.eids.cell p).prefix_tuple
                            prefix (old name p e).owned))
                        (Unlike-append compare_prefix _ prefix
                          (search_listnode-find u law s.prefixes (s.eids.cell p).prefix_tuple
                              (compare_prefix prefix)
                            ∙ rw e' refl)
                          (old name p e).unlike);
                }))
      ]

  remove_prefix-Keeps :
      (name : List ℕ) (p : ℕ) (prefix : Prefix)
      → search_eid u s name ≡ some p
      → EidInv u (remove_prefix u res s p prefix).0
  unfolding remove_prefix
  remove_prefix-Keeps name p prefix e =
      elim (Option-cases (search_prefix u s (s.eids.cell p) prefix)) [
        | inl e' ↦ rw (e', remove_prefix) v
        | inr (q, e') ↦
            rw (e', remove_prefix)
              (store-EidInv u law s v name p _ e refl (λ i. record {
                owned =
                    delete_listnode-IsOwned u law s.prefixes (s.eids.cell p).prefix_tuple
                      (compare_prefix prefix) e' i.owned;
                unlike =
                    subst (Unlike compare_prefix)
                      (sym
                        (contents-delete_listnode u law s.prefixes (s.eids.cell p).prefix_tuple
                          (compare_prefix prefix) e').0)
                      (Unlike-remove_first compare_prefix (compare_prefix prefix) _ i.unlike);
              }))
      ]

  prefix_command-Keeps :
      (command : ℕ → Prefix → Tuples u × ReturnType) (name c_prefix : List ℕ)
      → ((p : ℕ) (prefix : Prefix) → search_eid u s name ≡ some p → EidInv u (command p prefix).0)
      → Keeps (prefix_command u res s command name c_prefix)
  unfolding prefix_command
  prefix_command-Keeps command name c_prefix h = elim (Option-cases (search_eid u s name)) [
    | inl e ↦ rw (e, prefix_command) v
    | inr (p, e) ↦ elim (Bool-cases (ltb (length c_prefix) addrbuflen)) [
      | inr long ↦ rw (e, prefix_command) (rw long tt)
      | inl fits ↦ elim (Option-cases (parse_prefix res c_prefix)) [
        | inl e' ↦ rw (e, prefix_command) (rw (fits, e') v)
        | inr (prefix, e') ↦ rw (e, prefix_command) (rw (fits, e') (h p prefix e))
      ]
    ]
  ]

  set_prefix-Keeps :
      (name : List ℕ) (c_prefix : Option (List ℕ))
      → Keeps (cmd_set_eid_prefix u res s name c_prefix)
  unfolding cmd_set_eid_prefix
  set_prefix-Keeps name none = v
  set_prefix-Keeps name (some c_prefix) =
      prefix_command-Keeps (add_prefix u res s) name c_prefix (add_prefix-Keeps name)

  unset_prefix-Keeps :
      (name : List ℕ) (c_prefix : Option (List ℕ))
      → Keeps (cmd_unset_eid_prefix u res s name c_prefix)
  unfolding cmd_unset_eid_prefix
  unset_prefix-Keeps name none = v
  unset_prefix-Keeps name (some c_prefix) =
      prefix_command-Keeps (remove_prefix u res s) name c_prefix (remove_prefix-Keeps name)

  prefix_action-Keeps :
      (name : List ℕ) (c_prefix delete : Option (List ℕ))
      → Keeps (eid_prefix_action u res s name c_prefix delete)
  unfolding eid_prefix_action
  prefix_action-Keeps name c_prefix none = set_prefix-Keeps name c_prefix
  prefix_action-Keeps name c_prefix (some delete) = elim (Bool-cases (is delete "delete")) [
    | inl e ↦ rw (e, eid_prefix_action) (unset_prefix-Keeps name c_prefix)
    | inr e ↦ rw (e, eid_prefix_action) v
  ]

  eid_action-Keeps :
      (name action : List ℕ) (args : Args) → Keeps (eid_action u res s name action args)
  unfolding eid_action
  eid_action-Keeps name action args = elim (Bool-cases (is action "create")) [
    | inl c ↦ rw (c, eid_action) (create-Keeps name)
    | inr c ↦ elim (Bool-cases (is action "delete")) [
      | inl d ↦ rw (c, d, eid_action) (delete-Keeps name)
      | inr d ↦ elim (Bool-cases (is action "authkey")) [
        | inl a ↦ rw (c, d, a, eid_action) (authkey-Keeps name (arg args 3))
        | inr a ↦ elim (Bool-cases (is action "prefix")) [
          | inl p ↦ rw (c, d, a, p, eid_action) (prefix_action-Keeps name (arg args 3) (arg args 4))
          | inr p ↦ rw (c, d, a, p, eid_action) v
        ]
      ]
    ]
  ]

  -- Any `eid` command that has a result keeps the list of EIDs and the prefix lists of all of them
  -- well formed, with no name and no prefix of an EID twice.
  pub config_eid-EidInv :
      (args : Args) {s' : Tuples u} {r : ReturnType}
      → config_eid u res s args ≡ some (s', r)
      → EidInv u s'
  unfolding config_eid
  config_eid-EidInv args h = subst Keeps h (elim (Option-cases (arg args 1)) [
    | inl e ↦ rw (e, config_eid) v
    | inr (name, e) ↦ elim (Option-cases (arg args 2)) [
      | inl e' ↦ rw (e, e', config_eid) v
      | inr (action, e') ↦ rw (e, e', config_eid) (eid_action-Keeps name action args)
    ]
  ])

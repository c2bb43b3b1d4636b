-- ===== src/Control/Eids/Spec/Refines.antt =====
-- control.c implements the specification of the `eid` commands.
use lixy.Base.{
  arith, leb, ◌==◌, true, false, ◌⊎◌, ℕ, ◌≡◌, refl, sym, ap, ◌∙◌, ltb, Option, none, some, List, [],
  ◌∷◌, map, map-append, length, Option-cases, Bool-cases, inl, inr,
}
use lixy.Platform.{UtList, LawfulUtList}
use lixy.Platform.Resolver.{Resolver}
use lixy.LinkedList.Pool.{malloc}
use lixy.LinkedList.Mapped.{remove_first-map}
use lixy.LinkedList.Owned.{
  search_listnode-cases, contents-append_listnode, contents-delete_listnode, contents-create_list,
}
use lixy.Net.{Prefix, compare_prefix}
use lixy.State.{Tuples, eid_list, lisp_max_keylen}
use lixy.Instance.{create_eid_instance}
use lixy.Control.{ReturnType, Args, arg, is}
use lixy.Control.Eids.{
  compare_eid, search_eid, copy_authkey, set_key, add_prefix, remove_prefix, prefix_command,
  cmd_create_eid, cmd_delete_eid, cmd_set_eid_authentication_key, cmd_set_eid_prefix,
  cmd_unset_eid_prefix, eid_prefix_action, eid_action, config_eid, parse_prefix, addrbuflen,
}
use lixy.Control.Eids.Laws.{EidInv, PrefixInv}
use lixy.Control.Eids.Spec.{
  Site, is_site, changed, spec_create, spec_delete, spec_key, spec_authkey, spec_add, spec_remove,
  spec_prefix, spec_prefix_action, spec_eid_action, spec_config_eid,
}
use lixy.Control.Eids.Spec.Sites.{
  site_of, sites, seen_sites, outcome, search_eid-cases, sites-malloc, sites-store,
}

-- A key is too long, has 128 characters, or fits.
lengths :
    (n : ℕ)
    → ((ltb lisp_max_keylen n ≡ true) × ((n == 128) ≡ false) × (leb n 127 ≡ false))
      ⊎ (((ltb lisp_max_keylen n ≡ false) × ((n == 128) ≡ true) × (leb n 127 ≡ false))
          ⊎ ((ltb lisp_max_keylen n ≡ false) × ((n == 128) ≡ false) × (leb n 127 ≡ true)))
lengths n = elim (Bool-cases (ltb 128 n)) [
  | inl a ↦ inl (a, ground (arith, a), ground (arith, a))
  | inr a ↦ elim (Bool-cases (n == 128)) [
    | inl b ↦ inr (inl (a, b, ground (arith, a, b)))
    | inr b ↦ inr (inr (a, b, ground (arith, a, b)))
  ]
]

module _ (u : UtList) (law : LawfulUtList u) (res : Resolver) (s : Tuples u) (v : EidInv u s) where
  create-refines :
      (name : List ℕ) → outcome u (cmd_create_eid u res s name) ≡ spec_create (sites u s) name
  unfolding cmd_create_eid spec_create create_eid_instance
  create-refines name = elim (search_eid-cases u law s v name) [
    | inr (p, hit, found, i) ↦ rw (hit, found, cmd_create_eid, spec_create) refl
    | inl (miss, gone) ↦
        rw (miss, gone, cmd_create_eid, spec_create)
          (ap (λ l. (l, ReturnType.success))
            (ap (map (site_of u s.prefixes)) (
                contents-append_listnode u law s.eids s.eid_tuple (create_eid_instance u name)
                  v.owned)
              ∙ map-append (site_of u s.prefixes) (eid_list u s) (create_eid_instance u name ∷ [])
              ∙ rw (contents-create_list u law s.prefixes) refl))
  ]

  delete-refines :
      (name : List ℕ) → outcome u (cmd_delete_eid u res s name) ≡ spec_delete (sites u s) name
  unfolding cmd_delete_eid spec_delete compare_eid
  delete-refines name = elim (search_eid-cases u law s v name) [
    | inl (miss, gone) ↦ rw (miss, gone, cmd_delete_eid, spec_delete) refl
    | inr (p, hit, found, i) ↦
        rw (hit, found, cmd_delete_eid, spec_delete)
          (ap (λ l. (l, ReturnType.success))
            (ap (map (site_of u s.prefixes))
                (contents-delete_listnode u law s.eids s.eid_tuple (compare_eid u name) hit).0
              ∙ sym (remove_first-map (is_site name) (site_of u s.prefixes) (eid_list u s))))
  ]

  key-refines :
      (name key : List ℕ) (p : ℕ)
      → search_eid u s name ≡ some p
      → seen_sites u (set_key u res s p key)
        ≡ spec_key (sites u s) name (site_of u s.prefixes (s.eids.cell p)) key
  unfolding set_key spec_key copy_authkey
  key-refines name key p hit = elim (lengths (length key)) [
    | inl (long, full, fits) ↦ rw (long, full, fits, set_key, spec_key) refl
    | inr (inl (long, full, fits)) ↦ rw (long, full, fits, set_key, spec_key) refl
    | inr (inr (long, full, fits)) ↦
        rw (long, full, fits, set_key, spec_key)
          (ap (λ l. some (l, ReturnType.success))
            (sites-store u law s v s.prefixes name p (copy_authkey u key (s.eids.cell p)) hit refl))
  ]

  authkey-refines :
      (name : List ℕ) (key : Option (List ℕ))
      → seen_sites u (cmd_set_eid_authentication_key u res s name key)
        ≡ spec_authkey (sites u s) name key
  unfolding cmd_set_eid_authentication_key spec_authkey
  authkey-refines name key = elim (search_eid-cases u law s v name) [
    | inl (miss, gone) ↦ rw (miss, gone, cmd_set_eid_authentication_key, spec_authkey) refl
    | inr (p, hit, found, i) ↦
        rw (hit, found, cmd_set_eid_authentication_key, spec_authkey)
          (elim key
            as (λ k. seen_sites u (elim k [ none ↦ none | some k ↦ set_key u res s p k ]) ≡ elim k [
              | none ↦ none
              | some k ↦ spec_key (sites u s) name (site_of u s.prefixes (s.eids.cell p)) k
            ]) [ none ↦ refl | some k ↦ key-refines name k p hit ])
  ]

  -- An EID with other prefixes.
  abbrev with_prefixes : ℕ → List Prefix → Site
  with_prefixes p l = record (site_of u s.prefixes (s.eids.cell p)) { prefixes = l }

  add-refines :
      (name : List ℕ) (p : ℕ) (prefix : Prefix)
      → search_eid u s name ≡ some p
      → PrefixInv u s.prefixes (s.eids.cell p)
      → outcome u (add_prefix u res s p prefix)
        ≡ spec_add (sites u s) name (site_of u s.prefixes (s.eids.cell p)) prefix
  unfolding add_prefix spec_add
  add-refines name p prefix hit i =
      let l = (s.eids.cell p).prefix_tuple in
      elim (search_listnode-cases u law s.prefixes l (compare_prefix prefix)) [
        | inr (q, there, found) ↦
            rw (there, found, add_prefix, spec_add)
              (ap (λ l. (l, ReturnType.err_address_exists)) (sites-malloc u law s v prefix))
        | inl (miss, gone) ↦
            rw (miss, gone, add_prefix, spec_add)
              (ap (λ l. (l, ReturnType.success))
                (sites-store u law s v (malloc s.prefixes prefix) name p _ hit
                    (sites-malloc u law s v prefix)
                  ∙ ap (λ l. changed (sites u s) name (with_prefixes p l))
                      (contents-append_listnode u law s.prefixes l prefix i.owned)))
      ]

  remove-refines :
      (name : List ℕ) (p : ℕ) (prefix : Prefix)
      → search_eid u s name ≡ some p
      → outcome u (remove_prefix u res s p prefix)
        ≡ spec_remove (sites u s) name (site_of u s.prefixes (s.eids.cell p)) prefix
  unfolding remove_prefix spec_remove
  remove-refines name p prefix hit =
      let l = (s.eids.cell p).prefix_tuple in
      elim (search_listnode-cases u law s.prefixes l (compare_prefix prefix)) [
        | inl (miss, gone) ↦ rw (miss, gone, remove_prefix, spec_remove) refl
        | inr (q, there, found) ↦
            rw (there, found, remove_prefix, spec_remove)
              (ap (λ l. (l, ReturnType.success))
                (sites-store u law s v s.prefixes name p _ hit refl
                  ∙ ap (λ l. changed (sites u s) name (with_prefixes p l))
                      (contents-delete_listnode u law s.prefixes l (compare_prefix prefix)
                        there).0))
      ]

  prefix-refines :
      (command : ℕ → Prefix → Tuples u × ReturnType) (spec : Site → Prefix → List Site × ReturnType)
      (name c_prefix : List ℕ)
      → ((p : ℕ) (prefix : Prefix)
          → search_eid u s name ≡ some p
          → PrefixInv u s.prefixes (s.eids.cell p)
          → outcome u (command p prefix) ≡ spec (site_of u s.prefixes (s.eids.cell p)) prefix)
      → seen_sites u (prefix_command u res s command name c_prefix)
        ≡ spec_prefix res (sites u s) spec name (some c_prefix)
  unfolding prefix_command spec_prefix
  prefix-refines command spec name c_prefix h = elim (search_eid-cases u law s v name) [
    | inl (miss, gone) ↦ rw (miss, gone, prefix_command, spec_prefix) refl
    | inr (p, hit, found, i) ↦ elim (Bool-cases (ltb (length c_prefix) addrbuflen)) [
      | inr long ↦ rw (hit, found, prefix_command, spec_prefix) (rw long refl)
      | inl fits ↦ elim (Option-cases (parse_prefix res c_prefix)) [
        | inl e ↦ rw (hit, found, prefix_command, spec_prefix) (rw (fits, e) refl)
        | inr (prefix, e) ↦
            rw (hit, found, prefix_command, spec_prefix) (rw (fits, e) (ap some (h p prefix hit i)))
      ]
    ]
  ]

  set_prefix-refines :
      (name : List ℕ) (c_prefix : Option (List ℕ))
      → seen_sites u (cmd_set_eid_prefix u res s name c_prefix)
        ≡ spec_prefix res (sites u s) (spec_add (sites u s) name) name c_prefix
  unfolding cmd_set_eid_prefix spec_prefix
  set_prefix-refines name none = refl
  set_prefix-refines name (some c_prefix) =
      prefix-refines (add_prefix u res s) (spec_add (sites u s) name) name c_prefix
        (add-refines name)

  unset_prefix-refines :
      (name : List ℕ) (c_prefix : Option (List ℕ))
      → seen_sites u (cmd_unset_eid_prefix u res s name c_prefix)
        ≡ spec_prefix res (sites u s) (spec_remove (sites u s) name) name c_prefix
  unfolding cmd_unset_eid_prefix spec_prefix
  unset_prefix-refines name none = refl
  unset_prefix-refines name (some c_prefix) =
      prefix-refines (remove_prefix u res s) (spec_remove (sites u s) name) name c_prefix
        (λ p prefix hit i. remove-refines name p prefix hit)

  prefix_action-refines :
      (name : List ℕ) (c_prefix delete : Option (List ℕ))
      → seen_sites u (eid_prefix_action u res s name c_prefix delete)
        ≡ spec_prefix_action res (sites u s) name c_prefix delete
  unfolding eid_prefix_action spec_prefix_action
  prefix_action-refines name c_prefix none = set_prefix-refines name c_prefix
  prefix_action-refines name c_prefix (some delete) = elim (Bool-cases (is delete "delete")) [
    | inl e ↦ rw (e, eid_prefix_action, spec_prefix_action) (unset_prefix-refines name c_prefix)
    | inr e ↦ rw (e, eid_prefix_action, spec_prefix_action) refl
  ]

  eid_action-refines :
      (name action : List ℕ) (args : Args)
      → seen_sites u (eid_action u res s name action args)
        ≡ spec_eid_action res (sites u s) name action args
  unfolding eid_action spec_eid_action
  eid_action-refines name action args = elim (Bool-cases (is action "create")) [
    | inl c ↦ rw (c, eid_action, spec_eid_action) (ap some (create-refines name))
    | inr c ↦ elim (Bool-cases (is action "delete")) [
      | inl d ↦ rw (c, d, eid_action, spec_eid_action) (ap some (delete-refines name))
      | inr d ↦ elim (Bool-cases (is action "authkey")) [
        | inl a ↦ rw (c, d, a, eid_action, spec_eid_action) (authkey-refines name (arg args 3))
        | inr a ↦ elim (Bool-cases (is action "prefix")) [
          | inl p ↦
              rw (c, d, a, p, eid_action, spec_eid_action)
                (prefix_action-refines name (arg args 3) (arg args 4))
          | inr p ↦ rw (c, d, a, p, eid_action, spec_eid_action) refl
        ]
      ]
    ]
  ]

  -- On well-formed EIDs, `config_eid` has the result of the specification and leaves the EIDs and
  -- prefixes that the specification gives, whatever the arguments. It has no result, which stands for
  -- a NULL dereference or a write behind an array, exactly where the specification has none.
  pub config_eid-refines :
      (args : Args) → seen_sites u (config_eid u res s args) ≡ spec_config_eid res (sites u s) args
  unfolding config_eid spec_config_eid
  config_eid-refines args = elim (Option-cases (arg args 1)) [
    | inl e ↦ rw (e, config_eid, spec_config_eid) refl
    | inr (name, e) ↦ elim (Option-cases (arg args 2)) [
      | inl e' ↦ rw (e, e', config_eid, spec_config_eid) refl
      | inr (action, e') ↦
          rw (e, e', config_eid, spec_config_eid) (eid_action-refines name action args)
    ]
  ]

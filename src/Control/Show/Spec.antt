-- ===== src/Control/Show/Spec.antt =====
-- The `show` commands as functions on plain lists and on a function from prefixes to entries, and
-- the proof that control.c implements them.
use mathlib.Core.Path.{fun_ext}
use lixy.Base.{
  ◌∙◌, Bool, true, ◌==◌, ℕ, suc, ◌≡◌, refl, ap, ◌%◌, ltb, if◌then◌else◌, Option, none, some, List,
  [], ◌∷◌, ◌++◌, map, length, codes, Option-cases, Bool-cases, inl, inr,
}
use lixy.Platform.{UtList, LawfulUtList}
use lixy.Platform.Patricia.{Patricia, LawfulPatricia, Key}
use lixy.Platform.Format.{Format}
use lixy.LinkedList.{u32}
use lixy.LinkedList.Search.{find}
use lixy.Net.{Sockaddr, Prefix, Locator, af_inet, af_inet6}
use lixy.State.{Tuples, Eid, locators, map_servers, eid_list, lisp_eid_name_len}
use lixy.Maptable.{Maptable, MapState, active, negative, drop, queried, static}
use lixy.Maptable.Fib.{Fib, fib, RibInv}
use lixy.Control.{
  ReturnType, success_no_message, err_invalid_command, err_eid_does_not_exists, Args, arg, is,
}
use lixy.Control.Eids.Laws.{EidInv}
use lixy.Control.Eids.Spec.{Site, is_site}
use lixy.Control.Eids.Spec.Sites.{site_of, sites, search_eid-cases}
use lixy.Control.Show.{
  wanted, cmd_show_route, snprintf, state_of, write_prefixes, map_server_line, write_locators,
  name_text, cmd_write_eid, write_each, cmd_show_eid, cmd_show_mapserver, cmd_show_locator,
  config_show, show_action,
}
use lixy.Control.Show.Routes.{spec_show_route, cmd_show_route_lem}

-- The numbers of the states, in the order of maptable.h.
abbrev nth_state : ℕ → MapState → Bool
nth_state n active = n == 0
nth_state n negative = n == 1
nth_state n drop = n == 2
nth_state n queried = n == 3
nth_state n static = n == 4

-- The state that a word asks for.
named_state : List ℕ → Option (MapState → Bool)
named_state word =
    if is word "active"
    then some (nth_state 0)
    else (if is word "negative"
        then some (nth_state 1)
        else (if is word "drop"
            then some (nth_state 2)
            else (if is word "queried"
                then some (nth_state 3)
                else (if is word "static" then some (nth_state 4) else none))))

-- The entries that are asked for: all without a word, those of the named state with one. With an
-- unknown word it is what the stack holds that tells, where `none` is -1.
spec_wanted : Option ℕ → Option (List ℕ) → MapState → Bool
spec_wanted stack none state = true
spec_wanted stack (some word) state = elim (named_state word) [
  | some named ↦ named state
  | none ↦ elim stack [ none ↦ true | some n ↦ nth_state n state ]
]

abbrev site_name : Site → List ℕ
site_name e = if ltb (length e.name) lisp_eid_name_len then e.name else e.name ++ e.authkey

abbrev spec_write_site : Format → List ℕ → Site → List ℕ
spec_write_site f stack e =
    let head = snprintf (
      codes "Name : "
      ++ site_name e
      ++ codes "\n   Auth Key : "
      ++ e.authkey
      ++ codes "\n   Prefixes :") in
    snprintf (write_prefixes f head stack e.prefixes ++ codes "\n\n")

spec_write_each : Format → (ℕ → List ℕ) → ℕ → List Site → List (List ℕ)
spec_write_each f stack round [] = []
spec_write_each f stack round (e ∷ later) =
    spec_write_site f (stack round) e ∷ spec_write_each f stack (suc round) later

-- What `state` and `addrbuf` hold at first, the prefixes of the keys, the order of the walk, and
-- the configuration.
module _ (f : Format) (stack : Option ℕ × (ℕ → List ℕ)) (name : Key → Prefix) (ks : List Key)
    (locs : List Locator) (mapsrvs : List Sockaddr) (es : List Site) (entries : Fib) where
  spec_show_eid : Option (List ℕ) → List (List ℕ) × ReturnType
  spec_show_eid none = (spec_write_each f stack.1 0 es, success_no_message)
  spec_show_eid (some eid_name) = elim (find (is_site eid_name) es) [
    | none ↦ ([], err_eid_does_not_exists)
    | some e ↦ (spec_write_site f (stack.1 0) e ∷ [], success_no_message)
  ]

  spec_show_action : List ℕ → Option (List ℕ) → List (List ℕ) × ReturnType
  spec_show_action action word =
      if is action "ipv4-route"
      then (
        spec_show_route f entries name (spec_wanted stack.0 word) af_inet ks,
        success_no_message,
      )
      else (if is action "ipv6-route"
          then (
            spec_show_route f entries name (spec_wanted stack.0 word) af_inet6 ks,
            success_no_message,
          )
          else (if is action "eid"
              then spec_show_eid word
              else (if is action "mapserver"
                  then (map (map_server_line f) mapsrvs, success_no_message)
                  else (if is action "locator"
                      then (
                        snprintf
                              (codes "all " ++ f.decimal (length locs % u32) ++ codes " locators\n")
                            ∷ write_locators f [] locs,
                        success_no_message,
                      )
                      else ([], err_invalid_command)))))

  -- What `lixyctl show` writes.
  pub spec_show : Args → List (List ℕ) × ReturnType
  spec_show args = elim (arg args 1) [
    | none ↦ ([], err_invalid_command)
    | some action ↦ spec_show_action action (arg args 2)
  ]

wanted-nth :
    (stack : Option ℕ) (state : MapState)
    → wanted stack state ≡ elim stack [ none ↦ true | some n ↦ nth_state n state ]
unfolding wanted
wanted-nth none state = refl
wanted-nth (some n) active = refl
wanted-nth (some n) negative = refl
wanted-nth (some n) drop = refl
wanted-nth (some n) queried = refl
wanted-nth (some n) static = refl

wanted-state_of :
    (stack : Option ℕ) (word : Option (List ℕ)) (state : MapState)
    → wanted (state_of stack word) state ≡ spec_wanted stack word state
unfolding state_of spec_wanted named_state
wanted-state_of stack none state = wanted-nth none state
wanted-state_of stack (some word) state = elim (Bool-cases (is word "active")) [
  | inl a ↦ rw (a, state_of, spec_wanted) (wanted-nth (some 0) state)
  | inr a ↦ elim (Bool-cases (is word "negative")) [
    | inl b ↦ rw (a, b, state_of, spec_wanted) (wanted-nth (some 1) state)
    | inr b ↦ elim (Bool-cases (is word "drop")) [
      | inl c ↦ rw (a, b, c, state_of, spec_wanted) (wanted-nth (some 2) state)
      | inr c ↦ elim (Bool-cases (is word "queried")) [
        | inl d ↦ rw (a, b, c, d, state_of, spec_wanted) (wanted-nth (some 3) state)
        | inr d ↦ elim (Bool-cases (is word "static")) [
          | inl e ↦ rw (a, b, c, d, e, state_of, spec_wanted) (wanted-nth (some 4) state)
          | inr e ↦ rw (a, b, c, d, e, state_of, spec_wanted) (wanted-nth stack state)
        ]
      ]
    ]
  ]
]

module _ (u : UtList) (t : Patricia) (f : Format) (ulaw : LawfulUtList u) (tlaw : LawfulPatricia t)
    (stack : Option ℕ × (ℕ → List ℕ)) (s : Tuples u) (rib : Maptable t) (v : EidInv u s)
    (rv : RibInv t rib) (counted : s.loc_tuple.count ≡ length (locators u s) % u32) where
  write-refines :
      (round : ℕ) (eids : List (Eid u))
      → write_each u f s stack.1 round eids
        ≡ spec_write_each f stack.1 round (map (site_of u s.prefixes) eids)
  unfolding write_each spec_write_each cmd_write_eid name_text
  write-refines round [] = refl
  write-refines round (eid ∷ later) =
      ap (λ l. cmd_write_eid u f s (stack.1 round) eid ∷ l) (write-refines (suc round) later)

  eid-refines :
      (word : Option (List ℕ))
      → cmd_show_eid u f s stack.1 word
        ≡ spec_show_eid f stack
            (t.node_prefix rib.tree)
            (t.walk rib.tree)
            (locators u s)
            (map_servers u s)
            (sites u s)
            (fib t rib)
            word
  unfolding cmd_show_eid spec_show_eid cmd_write_eid name_text
  eid-refines none = ap (λ l. (l, ReturnType.success_no_message)) (write-refines 0 (eid_list u s))
  eid-refines (some eid_name) = elim (search_eid-cases u ulaw s v eid_name) [
    | inl (miss, gone) ↦ rw (miss, gone, cmd_show_eid, spec_show_eid) refl
    | inr (p, hit, found, i) ↦ rw (hit, found, cmd_show_eid, spec_show_eid) refl
  ]

  routes-refines :
      (af : ℕ) (word : Option (List ℕ))
      → cmd_show_route t f rib (state_of stack.0 word) af
        ≡ some (
          spec_show_route f
              (fib t rib)
              (t.node_prefix rib.tree)
              (spec_wanted stack.0 word)
              af
              (t.walk rib.tree),
          success_no_message,
        )
  routes-refines af word =
      cmd_show_route_lem t f rib (state_of stack.0 word) af tlaw rv
      ∙ ap
          (λ w. some (
            spec_show_route f (fib t rib) (t.node_prefix rib.tree) w af (t.walk rib.tree),
            ReturnType.success_no_message,
          ))
          (fun_ext λ state. wanted-state_of stack.0 word state)

  action-refines :
      (action : List ℕ) (word : Option (List ℕ))
      → show_action u t f stack s rib action word
        ≡ some (
            spec_show_action f stack
              (t.node_prefix rib.tree)
              (t.walk rib.tree)
              (locators u s)
              (map_servers u s)
              (sites u s)
              (fib t rib)
              action
              word)
  unfolding show_action spec_show_action cmd_show_mapserver cmd_show_locator
  action-refines action word = elim (Bool-cases (is action "ipv4-route")) [
    | inl a ↦ rw a (routes-refines af_inet word)
    | inr a ↦ elim (Bool-cases (is action "ipv6-route")) [
      | inl b ↦ rw (a, b) (routes-refines af_inet6 word)
      | inr b ↦ elim (Bool-cases (is action "eid")) [
        | inl c ↦ rw (a, b, c) (ap some (eid-refines word))
        | inr c ↦ elim (Bool-cases (is action "mapserver")) [
          | inl d ↦ rw (a, b, c, d) refl
          | inr d ↦ elim (Bool-cases (is action "locator")) [
            | inl e ↦ rw (a, b, c, d, e) (rw counted refl)
            | inr e ↦ rw (a, b, c, d, e) refl
          ]
        ]
      ]
    ]
  ]

  -- On well-formed EIDs and a well-formed table, and with the 32-bit number of the locators as their
  -- count: config_show never dereferences NULL, and it writes and returns what the specification
  -- says of the plain lists and of the entries, whatever the arguments and what the stack held.
  pub config_show-refines :
      (args : Args)
      → config_show u t f stack s rib args
        ≡ some (
            spec_show f stack
              (t.node_prefix rib.tree)
              (t.walk rib.tree)
              (locators u s)
              (map_servers u s)
              (sites u s)
              (fib t rib)
              args)
  unfolding config_show spec_show
  config_show-refines args = elim (Option-cases (arg args 1)) [
    | inl e ↦ rw (e, config_show, spec_show) refl
    | inr (action, e) ↦ rw (e, config_show, spec_show) (action-refines action (arg args 2))
  ]

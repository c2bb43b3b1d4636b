-- ===== src/Control/Show.antt =====
-- control.c: the `show` commands. What they write to the socket is the list of the texts that
-- WRITE_SOCKET writes; the copy on the standard output is left out. A command that dereferences NULL
-- has no result.
pub mod Locators
pub mod Routes
pub mod Spec
use lixy.Base.{
  ℕ, suc, ◌==◌, ltb, ◌-◌, ◌||◌, map, if◌then◌else◌, Bool, true, Option, none, some, List, [], ◌∷◌,
  ◌++◌, length, take, codes,
}
use lixy.Platform.{UtList}
use lixy.Platform.Patricia.{Patricia, Key, any_covers}
use lixy.Platform.Format.{Format}
use lixy.Net.{Sockaddr, Prefix, Locator, af_inet, af_inet6}
use lixy.State.{Tuples, Eid, locators, map_servers, eid_list, prefixes_of, lisp_eid_name_len}
use lixy.Maptable.{Maptable, MapNode, MapState, active, negative, drop, queried, static}
use lixy.Map.Receive.{◌>>=◌}
use lixy.Control.{
  ReturnType, success_no_message, err_invalid_command, err_eid_does_not_exists, Args, arg, is,
}
use lixy.Control.Dispatch.{control_msg_buf_len}
use lixy.Control.Eids.{search_eid}

abbrev pub mapstate : MapState → ℕ
mapstate active = 0
mapstate negative = 1
mapstate drop = 2
mapstate queried = 3
mapstate static = 4

-- MAPSTATE_STRING_INIT
unfoldable pub mapstate_string : MapState → List ℕ
mapstate_string active = codes "active"
mapstate_string negative = codes "negative"
mapstate_string drop = codes "drop"
mapstate_string queried = codes "queried"
mapstate_string static = codes "static"

-- `snprintf` into an array of 1024 characters.
unfoldable pub snprintf : List ℕ → List ℕ
snprintf text = take (control_msg_buf_len - 1) text

-- `state`, where `none` is -1. An unknown word leaves it as the stack has it.
unfoldable pub state_of : Option ℕ → Option (List ℕ) → Option ℕ
state_of stack none = none
state_of stack (some type) =
    if is type "active"
    then some 0
    else (if is type "negative"
        then some 1
        else (if is type "drop"
            then some 2
            else (if is type "queried"
                then some 3
                else (if is type "static" then some 4 else stack))))

-- `state < 0 || state == mn->state`
unfoldable pub wanted : Option ℕ → MapState → Bool
wanted none s = true
wanted (some n) s = n == mapstate s

-- The buffer after `inet_ntop`.
abbrev pub ntop : Format → ℕ → List ℕ → List ℕ → List ℕ
ntop f af add old = elim (f.inet_ntop af add) [ none ↦ old | some text ↦ text ]

-- The text of an address whose family is checked first.
unfoldable pub ntop_sockaddr : Format → Sockaddr → List ℕ
ntop_sockaddr f sa =
    if sa.family == af_inet
    then ntop f af_inet sa.addr []
    else (if sa.family == af_inet6 then ntop f af_inet6 sa.addr [] else [])

unfoldable pub route_line : Format → Prefix → MapNode → List ℕ
route_line f p mn = snprintf (
    ntop f p.family p.add []
    ++ codes "/"
    ++ f.decimal p.bitlen
    ++ codes " via "
    ++ ntop_sockaddr f mn.addr
    ++ codes " "
    ++ mapstate_string mn.state
    ++ codes "\n")

module _ (t : Patricia) (f : Format) (rib : Maptable t) (state : Option ℕ) (af : ℕ) where
  -- The walk from a node on. `broken` are the nodes that it left with PATRICIA_WALK_BREAK.
  unfoldable pub show_nodes : List Key → List Key → Option (List (List ℕ))
  show_nodes broken [] = some []
  show_nodes broken (k ∷ ks) =
      let rest = show_nodes broken ks in
      let left_out = show_nodes (k ∷ broken) ks in
      let prefix = t.node_prefix rib.tree k in
      if any_covers broken k then rest else elim (t.node_data rib.tree k) [
        | none ↦ none
        | some q ↦
            let mn = rib.mapnodes.cell q in
            if wanted state mn.state
            then (if prefix.family == af
                then (rest >>= λ lines. some (route_line f prefix mn ∷ lines))
                else left_out)
            else rest
      ]

  unfoldable pub cmd_show_route : Option (List (List ℕ) × ReturnType)
  cmd_show_route = do lines ← show_nodes [] (t.walk rib.tree); some (lines, success_no_message)

module _ (f : Format) where
  -- The loop over the prefixes; `addrbuf` keeps its text when `inet_ntop` fails.
  unfoldable pub write_prefixes : List ℕ → List ℕ → List Prefix → List ℕ
  write_prefixes buf addrbuf [] = buf
  write_prefixes buf addrbuf (p ∷ ps) =
      let text = ntop f p.family p.add addrbuf in
      write_prefixes (snprintf (buf ++ codes " " ++ text ++ codes "/" ++ f.decimal p.bitlen)) text
        ps

  unfoldable pub map_server_line : Sockaddr → List ℕ
  map_server_line sa =
      if sa.family == af_inet || sa.family == af_inet6
      then snprintf (codes "map server address : " ++ ntop_sockaddr f sa ++ codes "\n")
      else snprintf (codes "invalid map server family\n")

  unfoldable pub locator_line : List ℕ → Locator → List ℕ
  locator_line addrbuf loc = snprintf (
      addrbuf
      ++ codes " priority="
      ++ f.decimal loc.priority
      ++ codes ", weigth="
      ++ f.decimal loc.weight
      ++ codes ", m priority="
      ++ f.decimal loc.m_priority
      ++ codes ", m weigth="
      ++ f.decimal loc.m_weight
      ++ codes "\n")

  -- The loop over the locators; `addrbuf` keeps its text when `inet_ntop` fails.
  unfoldable pub write_locators : List ℕ → List Locator → List (List ℕ)
  write_locators addrbuf [] = []
  write_locators addrbuf (loc ∷ later) =
      let text = ntop f loc.loc_addr.family loc.loc_addr.addr addrbuf in
      locator_line text loc ∷ write_locators text later

module _ (u : UtList) (f : Format) (s : Tuples u) where
  -- `%s` of `eid->name`, whose array has no NUL when it is full: `authkey` follows.
  unfoldable pub name_text : Eid u → List ℕ
  name_text eid =
      if ltb (length eid.name) lisp_eid_name_len then eid.name else eid.name ++ eid.authkey

  -- `stack` is the text in the uninitialised `addrbuf`.
  unfoldable pub cmd_write_eid : List ℕ → Eid u → List ℕ
  cmd_write_eid stack eid =
      let head = snprintf (
        codes "Name : "
        ++ name_text eid
        ++ codes "\n   Auth Key : "
        ++ eid.authkey
        ++ codes "\n   Prefixes :") in
      snprintf (write_prefixes f head stack (prefixes_of u s eid) ++ codes "\n\n")

  -- `stack` is what `addrbuf` holds in each call.
  unfoldable pub write_each : (ℕ → List ℕ) → ℕ → List (Eid u) → List (List ℕ)
  write_each stack round [] = []
  write_each stack round (eid ∷ later) =
      cmd_write_eid (stack round) eid ∷ write_each stack (suc round) later

  unfoldable pub cmd_show_eid : (ℕ → List ℕ) → Option (List ℕ) → List (List ℕ) × ReturnType
  cmd_show_eid stack none = (write_each stack 0 (eid_list u s), success_no_message)
  cmd_show_eid stack (some eid_name) = elim (search_eid u s eid_name) [
    | none ↦ ([], err_eid_does_not_exists)
    | some p ↦ (cmd_write_eid (stack 0) (s.eids.cell p) ∷ [], success_no_message)
  ]

  unfoldable pub cmd_show_mapserver : List (List ℕ) × ReturnType
  cmd_show_mapserver = (map (map_server_line f) (map_servers u s), success_no_message)

  unfoldable pub cmd_show_locator : List (List ℕ) × ReturnType
  cmd_show_locator = (
    snprintf (codes "all " ++ f.decimal s.loc_tuple.count ++ codes " locators\n")
        ∷ write_locators f [] (locators u s),
    success_no_message,
  )

-- `stack` is what the uninitialised `state` and `addrbuf` hold.
module _ (u : UtList) (t : Patricia) (f : Format) (stack : Option ℕ × (ℕ → List ℕ)) (s : Tuples u)
    (rib : Maptable t) where
  pub show_action : List ℕ → Option (List ℕ) → Option (List (List ℕ) × ReturnType)
  show_action action word =
      if is action "ipv4-route"
      then cmd_show_route t f rib (state_of stack.0 word) af_inet
      else (if is action "ipv6-route"
          then cmd_show_route t f rib (state_of stack.0 word) af_inet6
          else (if is action "eid"
              then some (cmd_show_eid u f s stack.1 word)
              else (if is action "mapserver"
                  then some (cmd_show_mapserver u f s)
                  else (if is action "locator"
                      then some (cmd_show_locator u f s)
                      else some ([], err_invalid_command)))))

  unfoldable pub config_show : Args → Option (List (List ℕ) × ReturnType)
  unfolding show_action
  config_show args = elim (arg args 1) [
    | none ↦ some ([], err_invalid_command)
    | some action ↦ show_action action (arg args 2)
  ]

-- ===== src/Daemon/Abstract/Statics.antt =====
-- What becomes of a static route.
use lixy.Base.{
  ◌||◌, leb, not, if◌then◌else◌, ℕ, ◌≡◌, sym, ap, ◌∙◌, ◌%◌, ◌==◌, ltb, arith, Bool, true, false,
  Option, none, some, List, [], ◌∷◌, ◌++◌, length, Option-cases, Bool-cases, inl, inr,
}
use lixy.Platform.Patricia.{Key, key, key_eq, key_eq_iff, contains}
use lixy.Platform.Patricia.Covers.{covers_refl}
use lixy.Platform.Resolver.{Resolver}
use lixy.Platform.Format.{Format}
use lixy.LinkedList.{u32}
use lixy.Net.{Sockaddr, Prefix}
use lixy.Maptable.{MapNode, is_static, mapttl_default}
use lixy.Maptable.Fib.{Fib, override, holds_static, spec_install, best_key}
use lixy.Maptable.Fib.Longest.{best_key-none_self}
use lixy.Map.Receive.{Output, ◌>>=◌}
use lixy.Map.Receive.Spec.{
  in_tree, Reading, finished, overrun, denial, mapping, refresh, spec_denial, spec_apply,
  read_reply,
}
use lixy.Map.Respond.{process_lisp_map_request}
use lixy.Map.Message.{message_type}
use lixy.Aging.Expiry.{under_static, spec_age}
use lixy.Control.Routes.Laws.{Parsed, request, error, add, delete, parse_route, spec_route}
use lixy.Control.Eids.Spec.{spec_config_eid}
use lixy.Daemon.{write_result}
use lixy.Daemon.Abstract.{
  Config, Effects, Event, mapserver_command, locator_command, eid_command, route_command,
  show_command, invalid_command, received, tick, watched, spec_handle, spec_watched, spec_step,
  sends_out, says,
}

-- There is a static entry for the key, and packets for it go to the address.
abbrev pub IsStaticTo : Key → Sockaddr → Fib → Type 0
IsStaticTo k to f = (mn : MapNode) × (f k ≡ some mn) × (is_static mn.state ≡ true) × (mn.addr ≡ to)

-- A route command that is understood as a deletion.
abbrev pub is_delete : Parsed → Bool
is_delete (error e) = false
is_delete (request (add p ai)) = false
is_delete (request (delete p)) = true

abbrev pub deletes : Resolver → Event → Bool
deletes res (route_command args) = is_delete (parse_route res args)
deletes res (mapserver_command stack args) = false
deletes res (locator_command stack args) = false
deletes res (eid_command args) = false
deletes res (show_command stack name ks args) = false
deletes res invalid_command = false
deletes res (received buf len) = false
deletes res (tick name ks) = false
deletes res (watched fresh dst) = false

module _ (k : Key) (to : Sockaddr) where
  install-IsStaticTo :
      (f : Fib) (p : Prefix) (mn : MapNode)
      → IsStaticTo k to f
      → IsStaticTo k to (spec_install f p mn).0
  install-IsStaticTo f p mn (old, here, st, at) = elim (Bool-cases (holds_static (f (key p)))) [
    | inl e ↦ rw e (old, here, st, at)
    | inr e ↦
        let other : key_eq k (key p) ≡ false = elim (Bool-cases (key_eq k (key p))) [
          | inr d ↦ d
          | inl d ↦ absurd (ground (arith, (key_eq_iff k (key p)).0 d))
        ] in
        rw e (old, rw other here, st, at)
  ]

  refreshed-IsStaticTo :
      (f : Fib) (j : Key) → IsStaticTo k to f → IsStaticTo k to (override f j (refresh (f j)))
  refreshed-IsStaticTo f j (old, here, st, at) = elim (Bool-cases (key_eq k j)) [
    | inr d ↦ (old, rw d here, st, at)
    | inl d ↦ (
      record old { ttl = mapttl_default },
      rw d (ap (λ i. refresh (f i)) (sym ((key_eq_iff k j).0 d)) ∙ ap refresh here),
      st,
      at,
    )
  ]

  denied-IsStaticTo :
      (f : Fib) (p : Prefix) (act : ℕ) → IsStaticTo k to f → IsStaticTo k to (spec_denial f p act).0
  denied-IsStaticTo f p act h = elim (Bool-cases (act == 1)) [
    | inl e ↦ rw e (install-IsStaticTo f p _ h)
    | inr e ↦ elim (Bool-cases (act == 2)) [
      | inl e' ↦ rw (e, e') h
      | inr e' ↦ elim (Bool-cases (act == 3)) [
        | inl e'' ↦ rw (e, e', e'') (install-IsStaticTo f p _ h)
        | inr e'' ↦ rw (e, e', e'') h
      ]
    ]
  ]

  -- If there is a result, it still has the static entry.
  abbrev Stays : Option (Fib × List Output) → Type 0
  Stays none = Unit
  Stays (some (f, out)) = IsStaticTo k to f

  more-Stays :
      (o : Option (Fib × List Output)) (g : List Output → List Output)
      → Stays o
      → Stays (o >>= λ (f, out). some (f, g out))
  more-Stays none g h = tt
  more-Stays (some (f, out)) g h = h

  guarded-Stays :
      (b : Bool) (o : Option (Fib × List Output)) → Stays o → Stays (if b then o else none)
  guarded-Stays true o h = h
  guarded-Stays false o h = tt

  refused-Stays :
      (b : Bool) (o : Option (Fib × List Output)) → Stays o → Stays (if b then none else o)
  refused-Stays true o h = tt
  refused-Stays false o h = h

  applied-Stays : (reading : Reading) (f : Fib) → IsStaticTo k to f → Stays (spec_apply reading f)
  unfolding spec_apply
  applied-Stays finished f h = h
  applied-Stays overrun f h = tt
  applied-Stays (denial p act later) f h =
      guarded-Stays (in_tree p || not (act == 1 || act == 3)) _ (
        more-Stays (spec_apply later (spec_denial f p act).0)
          (λ out. (spec_denial f p act).1 ++ out)
          (applied-Stays later (spec_denial f p act).0 (denied-IsStaticTo f p act h)))
  applied-Stays (mapping p ttl loc later) f h = elim (Option-cases (best_key f p)) [
    | inr (j, e) ↦
        rw (e, spec_apply) (guarded-Stays (leb p.bitlen 128) _ (refreshed-IsStaticTo f j h))
    | inl e ↦
        let (old, here, st, at) = h in
        let other : key_eq k (key p) ≡ false = elim (Bool-cases (key_eq k (key p))) [
          | inr d ↦ d
          | inl d ↦ absurd (cc (best_key-none_self f p e, ap f ((key_eq_iff k (key p)).0 d), here))
        ] in
        rw (e, spec_apply)
          (refused-Stays (not (in_tree p)) _
            (more-Stays _ _ (applied-Stays later _ (old, rw other here, st, at))))
  ]

  walked :
      (ks : List Key) (f : Fib)
      → contains ks k ≡ true
      → holds_static (f k) ≡ true
      → under_static f ks k ≡ true
  walked [] f c h = absurd (cc c)
  walked (j ∷ js) f c h = elim (Bool-cases (key_eq k j)) [
    | inl e ↦ let same = (key_eq_iff k j).0 e in ground (arith, covers_refl k, same, ap f same)
    | inr e ↦ ground (arith, walked js f)
  ]

  aged-IsStaticTo : (f : Fib) (ks : List Key) → IsStaticTo k to f → IsStaticTo k to (spec_age f ks)
  aged-IsStaticTo f ks (old, here, st, at) = (
    old,
    (elim (Bool-cases (under_static f ks k)) [
      | inl e ↦ rw e here
      | inr e ↦ elim (Bool-cases (contains ks k)) [
        | inl c ↦ absurd (cc (walked ks f c (rw here st), e))
        | inr c ↦ rw (e, c) here
      ]
    ]),
    st,
    at,
  )

  abbrev pub Kept : Option (Config × Effects) → Type 0
  Kept none = Unit
  Kept (some (c, eff)) = IsStaticTo k to c.entries

  then-Kept :
      {A : Type 0} (o : Option A) (g : A → Option (Config × Effects))
      → ((a : A) → Kept (g a))
      → Kept (o >>= g)
  then-Kept none g h = tt
  then-Kept (some a) g h = h a

  routed-IsStaticTo :
      (f : Fib) (q : Parsed)
      → is_delete q ≡ false
      → IsStaticTo k to f
      → IsStaticTo k to (spec_route f q).0
  unfolding spec_route
  routed-IsStaticTo f (error e) n h = h
  routed-IsStaticTo f (request (add p ai)) n h = install-IsStaticTo f p _ h
  routed-IsStaticTo f (request (delete p)) n h = absurd (cc n)

  handled-Kept :
      (c : Config) (buf : List ℕ) (type : Option ℕ)
      → IsStaticTo k to c.entries
      → Kept (spec_handle c buf type)
  unfolding spec_handle
  handled-Kept c buf none h = h
  handled-Kept c buf (some type) h = elim (Bool-cases (type == 2)) [
    | inl e ↦
        rw (e, spec_handle)
          (replied (spec_apply (read_reply buf) c.entries)
            (applied-Stays (read_reply buf) c.entries h))
    | inr e ↦ elim (Bool-cases (type == 1)) [
      | inl e' ↦
          rw (e, e', spec_handle)
            (then-Kept (process_lisp_map_request (length c.locs % u32) c.locs buf)
              (λ sent. some (c, sends_out [] sent)) (λ sent. h))
      | inr e' ↦ rw (e, e', spec_handle) h
    ]
  ]
    where
      replied :
          (o : Option (Fib × List Output))
          → Stays o
          → Kept (
              o >>= λ (f, out).
              some (record c { entries = f }, record { texts = []; outputs = out; packets = [] }))
      replied none g = tt
      replied (some (f, out)) g = g

  watched-IsStaticTo :
      (c : Config) (fresh : MapNode) (dst : Option Prefix)
      → IsStaticTo k to c.entries
      → IsStaticTo k to (spec_watched c fresh dst).0.entries
  unfolding spec_watched
  watched-IsStaticTo c fresh none h = h
  watched-IsStaticTo c fresh (some p) h = elim (Option-cases (best_key c.entries p)) [
    | inl e ↦ rw (e, spec_watched) (install-IsStaticTo c.entries p _ h)
    | inr (j, e) ↦ rw (e, spec_watched) h
  ]

  -- No event but the deletion of a route takes a static entry away or turns it to another address.
  pub spec_step-IsStaticTo :
      (res : Resolver) (f : Format) (ev : Event) (c : Config)
      → deletes res ev ≡ false
      → IsStaticTo k to c.entries
      → Kept (spec_step res f ev c)
  unfolding spec_step
  spec_step-IsStaticTo res f (mapserver_command stack args) c n h = h
  spec_step-IsStaticTo res f (locator_command stack args) c n h = h
  spec_step-IsStaticTo res f (eid_command args) c n h =
      then-Kept (spec_config_eid res c.eids args)
        (λ (l, r). some (record c { eids = l }, says (write_result r))) (λ o. h)
  spec_step-IsStaticTo res f (route_command args) c n h =
      routed-IsStaticTo c.entries (parse_route res args) n h
  spec_step-IsStaticTo res f (show_command stack name ks args) c n h = h
  spec_step-IsStaticTo res f invalid_command c n h = h
  spec_step-IsStaticTo res f (received buf len) c n h = elim (Bool-cases (ltb len 24)) [
    | inl e ↦ rw (e, spec_step) h
    | inr e ↦ rw (e, spec_step) (then-Kept (message_type buf) _ (λ type. handled-Kept c buf type h))
  ]
  spec_step-IsStaticTo res f (tick name ks) c n h = aged-IsStaticTo c.entries ks h
  spec_step-IsStaticTo res f (watched fresh dst) c n h = watched-IsStaticTo c fresh dst h

-- ===== src/Daemon/Abstract/Refines/Threads.antt =====
-- The threads of map.c, instance.c and mapaging.c do what the daemon on plain data does.
use mathlib.Core.Path.{fun_ext}
use lixy.Base.{
  ℕ, ◌≡◌, refl, sym, ap, ◌∙◌, ◌==◌, ltb, arith, Bool, Option, none, some, List, [], ◌∷◌,
  Option-cases, Bool-cases, inl, inr,
}
use lixy.Platform.{UtList, LawfulUtList}
use lixy.Platform.Patricia.{Patricia, LawfulPatricia}
use lixy.Platform.Resolver.{Resolver}
use lixy.Platform.Format.{Format}
use lixy.Net.{Prefix}
use lixy.State.{Tuples, locators}
use lixy.Maptable.{Maptable, MapNode, queried, search_mapnode, install_mapnode_queried}
use lixy.Maptable.Fib.{Fib, fib, best_key}
use lixy.Maptable.Fib.Laws.{install-refines, search_best-best_key}
use lixy.Maptable.Fib.Longest.{best_key-some}
use lixy.Map.Receive.{Output, map_request, ◌>>=◌}
use lixy.Map.Receive.Spec.Refines.{seen, process_lisp_map_reply-refines}
use lixy.Map.Respond.{Packet, process_lisp_map_request}
use lixy.Map.Message.{handle, message_type, process_lisp_map_message}
use lixy.Netlink.{RouteMessage}
use lixy.DataPlane.{watched_prefix, ask_for, lisp_raw_packet}
use lixy.Aging.{age_maptable}
use lixy.Aging.Walk.{age_maptable-refines}
use lixy.Aging.Expiry.{spec_age, spec_walk_lem}
use lixy.Aging.Outputs.{age_maptable-outputs}
use mathlib.Core.Option.{some-injective}
use lixy.Map.Receive.{process_lisp_map_reply}
use lixy.Daemon.{Lisp, lisp_map_message_round}
use lixy.Daemon.Invariant.{LispInv}
use lixy.Daemon.Abstract.{
  Config, Effects, received, tick, watched, sends_out, spec_handle, spec_watched, spec_step,
}
use lixy.Daemon.Abstract.Refines.{counted, config, delivered}

module _ (u : UtList) (t : Patricia) (res : Resolver) (f : Format)
    (kernel : List ℕ → Option (List RouteMessage)) (ulaw : LawfulUtList u) (tlaw : LawfulPatricia t)
    (lisp : Lisp u t) (v : LispInv u t lisp) where
  abbrev s : Tuples u
  s = lisp.tuples

  handle-refines :
      (buf : List ℕ) (type : Option ℕ)
      → delivered u t (
          handle t s.loc_tuple.count (locators u s) buf lisp.rib type >>= λ (rib', out, sent).
          some (record lisp { rib = rib' }, out, sent))
        ≡ spec_handle (config u t lisp) buf type
  unfolding handle spec_handle
  handle-refines buf none = refl
  handle-refines buf (some type) = elim (Bool-cases (type == 2)) [
    | inl e ↦
        rw (e, handle, spec_handle)
          (replied (process_lisp_map_reply t buf lisp.rib)
            ∙ ap
                (λ o. o >>= λ (g, out).
                  some (record (config u t lisp) { entries = g }, sends_out out []))
                (process_lisp_map_reply-refines t tlaw buf lisp.rib v.rib_inv))
    | inr e ↦ elim (Bool-cases (type == 1)) [
      | inl e' ↦
          rw (e, e', handle, spec_handle)
            (answered (process_lisp_map_request s.loc_tuple.count (locators u s) buf)
              ∙ ap
                  (λ n. process_lisp_map_request n (locators u s) buf >>= λ sent.
                    some (config u t lisp, sends_out [] sent))
                  (counted u t lisp v))
      | inr e' ↦ rw (e, e', handle, spec_handle) refl
    ]
  ]
    where
      answered :
          (o : Option (List Packet))
          → delivered u t (
              o >>= (λ sent. some (lisp.rib, [], sent)) >>= λ (rib', out, sent).
              some (record lisp { rib = rib' }, out, sent))
            ≡ (o >>= λ sent. some (config u t lisp, sends_out [] sent))
      answered none = refl
      answered (some sent) = refl

      replied :
          (o : Option (Maptable t × List Output))
          → delivered u t (
              o >>= (λ (rib', out). some (rib', out, [])) >>= λ (rib', out, sent).
              some (record lisp { rib = rib' }, out, sent))
            ≡ (seen t tlaw o >>= λ (g, out).
                some (record (config u t lisp) { entries = g }, sends_out out []))
      replied none = refl
      replied (some (rib', out)) = refl

  pub lisp_map_message_round-refines :
      (buf : List ℕ) (len : ℕ)
      → delivered u t (lisp_map_message_round u t buf len lisp)
        ≡ spec_step res f (received buf len) (config u t lisp)
  unfolding lisp_map_message_round process_lisp_map_message spec_step
  lisp_map_message_round-refines buf len = elim (Bool-cases (ltb len 24)) [
    | inl e ↦ rw (e, lisp_map_message_round, spec_step) refl
    | inr e ↦
        rw (e, lisp_map_message_round, spec_step)
          (elim (Option-cases (message_type buf)) [
            | inl e' ↦ rw e' refl
            | inr (type, e') ↦ rw e' (handle-refines buf type)
          ])
  ]

  -- A change of the table alone.
  abbrev with_table : Option (Maptable t × List Output) → Option (Config × Effects)
  with_table o =
      o >>= λ (rib', out). some (config u t (record lisp { rib = rib' }), sends_out out [])

  pub aging-refines :
      with_table (age_maptable t lisp.rib)
      ≡ spec_step res f
          (tick (t.node_prefix lisp.rib.tree) (t.walk lisp.rib.tree))
          (config u t lisp)
  unfolding spec_step
  aging-refines =
      let ks = t.walk lisp.rib.tree in
      let (r₁, out₁, e₁, v₁, entries) = age_maptable-refines t tlaw lisp.rib v.rib_inv in
      let (r₂, out₂, e₂, outputs) = age_maptable-outputs t tlaw lisp.rib v.rib_inv in
      let same : ◌≡◌ {A = Maptable t × List Output} (r₁, out₁) (r₂, out₂) =
        some-injective _ _ (sym e₁ ∙ e₂) in
      let aged : fib t r₁ ≡ spec_age (fib t lisp.rib) ks =
        entries
        ∙ fun_ext
            (λ k. spec_walk_lem [] ks (fib t lisp.rib) k (tlaw.walk-IsPreorder lisp.rib.tree)) in
      ap with_table e₁
      ∙ ap
          (λ (o : Fib × List Output).
            some (record (config u t lisp) { entries = o.0 }, sends_out o.1 []))
          (λ i. (aged i, (ap (λ o. o.1) same ∙ outputs) i))

  asked-refines :
      (stack : List ℕ × List ℕ) (fresh : MapNode) (dst : Option Prefix)
      → with_table (some (ask_for t kernel stack fresh lisp.rib dst))
        ≡ some (spec_watched (config u t lisp) fresh dst)
  unfolding ask_for spec_watched install_mapnode_queried search_mapnode
  asked-refines stack fresh none = refl
  asked-refines stack fresh (some p) = elim (Option-cases (best_key (fib t lisp.rib) p)) [
    | inl e ↦
        let missed : search_mapnode t lisp.rib p ≡ none =
          rw (search_best-best_key t tlaw lisp.rib v.rib_inv p, e, search_mapnode) refl in
        rw (missed, e, ask_for, spec_watched)
          (ap
            (λ (o : Fib × Bool).
              some (record (config u t lisp) { entries = o.0 }, sends_out (map_request p ∷ []) []))
            (install-refines t tlaw lisp.rib v.rib_inv p (record fresh { state = queried })))
    | inr (k, e) ↦
        let (mn, here) = best_key-some (fib t lisp.rib) p k e in
        elim (Option-cases (t.node_data lisp.rib.tree k)) [
          | inl e' ↦ absurd (ground arith)
          | inr (q, e') ↦
              let found : search_mapnode t lisp.rib p ≡ some q =
                rw (search_best-best_key t tlaw lisp.rib v.rib_inv p, e, search_mapnode) e' in
              rw (found, e, ask_for, spec_watched) refl
        ]
  ]

  pub raw_packet-refines :
      (stack : List ℕ × List ℕ) (fresh : MapNode) (buf : List ℕ) (rib' : Maptable t)
      (out : List Output)
      → lisp_raw_packet t kernel stack fresh lisp.rib buf ≡ some (rib', out)
      → with_table (some (rib', out)) ≡ (
          watched_prefix t kernel stack fresh buf >>= λ dst.
          spec_step res f (watched fresh dst) (config u t lisp))
  unfolding lisp_raw_packet spec_step
  raw_packet-refines stack fresh buf rib' out e =
      elim (Option-cases (watched_prefix t kernel stack fresh buf)) [
        | inl e' ↦ absurd (cc (rw (e', lisp_raw_packet) at e))
        | inr (dst, e') ↦
            rw e' (ap with_table (sym e) ∙ rw (e', lisp_raw_packet) (asked-refines stack fresh dst))
      ]

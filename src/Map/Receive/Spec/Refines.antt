-- ===== src/Map/Receive/Spec/Refines.antt =====
-- map.c implements the specification of the handler of map replies.
use lixy.Base.{
  leb, not, ◌||◌, if◌then◌else◌, arith, ℕ, zero, suc, ◌≡◌, refl, ap, ◌∙◌, ◌==◌, Bool, true, false,
  Option, none, some, List, [], ◌++◌, Option-cases, Bool-cases, inl, inr,
}
use lixy.Platform.Patricia.{Patricia, LawfulPatricia}
use lixy.Net.{Prefix, Locator}
use lixy.Maptable.{Maptable}
use lixy.Maptable.Fib.{Fib, fib, RibInv, best_key}
use lixy.Maptable.Fib.Laws.{install-refines}
use lixy.Maptable.Fib.Longest.{best_key-some}
use lixy.Maptable.{search_mapnode}
use lixy.Maptable.Fib.Laws.{search_best-best_key}
use lixy.Map.Receive.{
  takes_denied, takes_mapped, Output, ◌>>=◌, negative_action, register_locator, after_record,
  addr_to_prefix, select_locator, lisp_locator_pkt_to_locator, process_record, process_records,
  process_lisp_map_reply,
}
use lixy.Map.Receive.Table.{
  register_covered, register_uncovered, register_locator-RibInv, negative_action-RibInv,
}
use lixy.Wire.{LispRecord, get_record, get_map_reply, lispafi_to_af, afi_addr_len}
use lixy.Wire.Bytes.{get_bytes}
use lixy.Map.Receive.Spec.{
  in_tree, Reading, denial, mapping, read_then, read_record, read_records, read_reply, spec_denial,
  spec_apply,
}

module _ (t : Patricia) (law : LawfulPatricia t) where
  abbrev pub seen : Option (Maptable t × List Output) → Option (Fib × List Output)
  seen o = o >>= λ (r, out). some (fib t r, out)

  seen-after :
      (o : Option (Maptable t × List Output)) (out : List Output)
      → seen (o >>= λ (r, out'). some (r, out ++ out'))
        ≡ (seen o >>= λ (f, out'). some (f, out ++ out'))
  seen-after none out = refl
  seen-after (some (r, _)) out = refl

  -- Both go on under the same condition.
  guarded :
      (b b' : Bool) (o : Option (Maptable t × List Output)) (w : Option (Fib × List Output))
      → b ≡ b'
      → seen o ≡ w
      → seen (if b then o else none) ≡ (if b' then w else none)
  guarded true true o w e h = h
  guarded false false o w e h = refl
  guarded true false o w e h = absurd (cc e)
  guarded false true o w e h = absurd (cc e)

  turned :
      {A : Type 0} (b : Bool) (o : Option A) → (if b then o else none) ≡ (if not b then none else o)
  turned true o = refl
  turned false o = refl

  module _ (r : Maptable t) (v : RibInv t r) where
    negative_action-refines :
        (p : Prefix) (act : ℕ)
        → ◌≡◌ {A = Fib × List Output}
            (fib t (negative_action t r p act).0, (negative_action t r p act).1)
            (spec_denial (fib t r) p act)
    unfolding negative_action
    negative_action-refines p act = elim (Bool-cases (act == 1)) [
      | inl e ↦ rw (e, negative_action) (ap (λ o. (o.0, [])) (install-refines t law r v p _))
      | inr e ↦ elim (Bool-cases (act == 2)) [
        | inl e' ↦ rw (e, e', negative_action) refl
        | inr e' ↦ elim (Bool-cases (act == 3)) [
          | inl e'' ↦
              rw (e, e', e'', negative_action) (ap (λ o. (o.0, [])) (install-refines t law r v p _))
          | inr e'' ↦ rw (e, e', e'', negative_action) refl
        ]
      ]
    ]

    -- What is left of a reply is applied as it reads.
    abbrev Applies : (Maptable t → Option (Maptable t × List Output)) → Reading → Type 0
    Applies later reading =
        (r' : Maptable t) → RibInv t r' → seen (later r') ≡ spec_apply reading (fib t r')

    denial-refines :
        (p : Prefix) (act : ℕ) (later : Maptable t → Option (Maptable t × List Output))
        (reading : Reading)
        → Applies later reading
        → let o = negative_action t r p act in
          seen (if takes_denied p act then after_record t (o.0, o.1, false) later else none)
          ≡ spec_apply (denial p act reading) (fib t r)
    unfolding spec_apply takes_denied
    denial-refines p act later reading h =
        let (r', out) = negative_action t r p act in
        let here = negative_action-refines p act in
        guarded (takes_denied p act) (in_tree p || not (act == 1 || act == 3)) _ _ (ground arith) (
          seen-after (later r') out
          ∙ ap (λ o. o >>= λ (f, out'). some (f, out ++ out'))
              (h r' (negative_action-RibInv t law r v p act))
          ∙ ap
              (λ (o : Fib × List Output).
                spec_apply reading o.0 >>= λ (f, out'). some (f, o.1 ++ out'))
              here)

    mapping-refines :
        (p : Prefix) (ttl : ℕ) (loc : Locator)
        (later : Maptable t → Option (Maptable t × List Output)) (reading : Reading)
        → Applies later reading
        → seen (
            if takes_mapped t r p
            then after_record t (register_locator t r p ttl loc) later
            else none)
          ≡ spec_apply (mapping p ttl loc reading) (fib t r)
    unfolding spec_apply takes_mapped search_mapnode
    mapping-refines p ttl loc later reading h = elim (Option-cases (best_key (fib t r) p)) [
      | inr (k, e) ↦
          let (mn, e') = best_key-some (fib t r) p k e in
          let (entries, quiet, stop) = register_covered t law r v p ttl loc k mn e e' in
          elim (Option-cases (t.node_data r.tree k)) [
            | inl e'' ↦ absurd (ground arith)
            | inr (q, e'') ↦
                let found : search_mapnode t r p ≡ some q =
                  rw (search_best-best_key t law r v p, e, search_mapnode) e'' in
                guarded (takes_mapped t r p) (leb p.bitlen 128) _ _
                  (rw (found, takes_mapped) (ground arith))
                  (stopped (register_locator t r p ttl loc) stop
                    ∙ ap (λ (o : Fib × List Output). some o) (λ i. (entries i, quiet i)))
                ∙ rw (e, e', spec_apply) refl
          ]
      | inl e ↦
          let (entries, sent, stop) = register_uncovered t law r v p ttl loc e in
          let r' = (register_locator t r p ttl loc).0 in
          let missed : search_mapnode t r p ≡ none =
            rw (search_best-best_key t law r v p, e, search_mapnode) refl in
          guarded (takes_mapped t r p) (in_tree p) _ _ (rw (missed, takes_mapped) (ground arith)) (
            went_on (register_locator t r p ttl loc) stop
            ∙ ap (λ o. o >>= λ (f, out'). some (f, (register_locator t r p ttl loc).1 ++ out'))
                (h r' (register_locator-RibInv t law r v p ttl loc))
            ∙ ap
                (λ (o : Fib × List Output).
                  spec_apply reading o.0 >>= λ (f, out'). some (f, o.1 ++ out'))
                (λ i. (entries i, sent i)))
          ∙ rw (e, spec_apply) (turned (in_tree p) _)
    ]
      where
        stopped :
            (o : Maptable t × List Output × Bool)
            → o.2 ≡ true
            → seen (after_record t o later) ≡ some (fib t o.0, o.1)
        stopped (r', out, true) e = refl
        stopped (r', out, false) e = absurd (cc e)

        went_on :
            (o : Maptable t × List Output × Bool)
            → o.2 ≡ false
            → seen (after_record t o later)
              ≡ (seen (later o.0) >>= λ (f, out'). some (f, o.1 ++ out'))
        went_on (r', out, true) e = absurd (cc e)
        went_on (r', out, false) e = seen-after (later r') out

  then-refines :
      {A : Type 0} (m : Option A) (f : A → Option (Maptable t × List Output)) (g : A → Reading)
      (F : Fib)
      → ((a : A) → seen (f a) ≡ spec_apply (g a) F)
      → seen (m >>= f) ≡ spec_apply (read_then m g) F
  unfolding read_then spec_apply
  then-refines none f g F h = refl
  then-refines (some a) f g F h = h a

  record-refines :
      (r : Maptable t) (p : Prefix) (rec : LispRecord) (count : ℕ) (next : List ℕ)
      (later : List ℕ → Maptable t → Option (Maptable t × List Output)) (reading : List ℕ → Reading)
      → RibInv t r
      → ((pkt : List ℕ) (r' : Maptable t)
          → RibInv t r'
          → seen (later pkt r') ≡ spec_apply (reading pkt) (fib t r'))
      → seen (process_record t r p rec count next later)
        ≡ spec_apply (read_record p rec count next reading) (fib t r)
  unfolding process_record read_record
  record-refines r p rec zero next later reading v h =
      denial-refines r v p rec.act (later next) (reading next) (h next)
  record-refines r p rec (suc k) next later reading v h =
      then-refines (select_locator (suc k) next next) _ _ (fib t r) λ (lisploc, rest).
        then-refines (lisp_locator_pkt_to_locator lisploc) _ _ (fib t r)
          λ loc. mapping-refines r v p rec.record_ttl loc (later rest) (reading rest) (h rest)

  records-refines :
      (n : ℕ) (pkt : List ℕ) (r : Maptable t)
      → RibInv t r
      → seen (process_records t n pkt r) ≡ spec_apply (read_records n pkt) (fib t r)
  unfolding process_records read_records spec_apply
  records-refines zero pkt r v = refl
  records-refines (suc n) pkt r v = then-refines (get_record pkt) _ _ (fib t r) λ (rec, eid).
      then-refines (get_bytes (afi_addr_len rec.eid_prefix_afi) eid) _ _ (fib t r) λ (_, next).
        then-refines (addr_to_prefix (lispafi_to_af rec.eid_prefix_afi) eid rec.eid_mask_len) _ _
          (fib t r)
          λ prefix.
            record-refines r prefix rec rec.locator_count next (process_records t n)
              (read_records n) v (records-refines n)

  pub process_lisp_map_reply-refines :
      (pkt : List ℕ) (r : Maptable t)
      → RibInv t r
      → seen (process_lisp_map_reply t pkt r) ≡ spec_apply (read_reply pkt) (fib t r)
  unfolding process_lisp_map_reply read_reply
  process_lisp_map_reply-refines pkt r v =
      then-refines (get_map_reply pkt) _ _ (fib t r)
        λ (rep, records). records-refines rep.record_count records r v

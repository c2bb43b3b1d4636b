-- ===== src/Map/Message/Table.antt =====
-- Control messages and the map table.
use lixy.Base.{ℕ, ◌≡◌, ◌==◌, Option, none, some, List, Option-cases, Bool-cases, inl, inr, subst}
use lixy.Platform.Patricia.{Patricia, LawfulPatricia}
use lixy.Net.{Locator}
use lixy.Maptable.{Maptable}
use lixy.Maptable.Fib.{RibInv}
use lixy.Map.Receive.{Output, process_lisp_map_reply}
use lixy.Map.Receive.Table.{process_lisp_map_reply-RibInv}
use lixy.Map.Respond.{Packet, process_lisp_map_request}
use lixy.Map.Message.{Outcome, message_type, handle, process_lisp_map_message}

module _ (t : Patricia) (law : LawfulPatricia t) (count : ℕ) (locs : List Locator) (pkt : List ℕ)
    (rib : Maptable t) (v : RibInv t rib) where
  abbrev Kept : Outcome t count locs pkt rib → Type 0
  Kept none = Unit
  Kept (some (rib', out, sent)) = RibInv t rib'

  handle-Kept : (type : Option ℕ) → Kept (handle t count locs pkt rib type)
  unfolding handle
  handle-Kept none = v
  handle-Kept (some type) = elim (Bool-cases (type == 2)) [
    | inl e ↦
        rw (e, handle)
          (elim (Option-cases (process_lisp_map_reply t pkt rib)) [
            | inl e' ↦ rw e' tt
            | inr (o, e') ↦ rw e' (process_lisp_map_reply-RibInv t law pkt rib o.0 o.1 v e')
          ])
    | inr e ↦ elim (Bool-cases (type == 1)) [
      | inl e' ↦
          rw (e, e', handle)
            (elim (Option-cases (process_lisp_map_request count locs pkt)) [
              | inl e'' ↦ rw e'' tt
              | inr (sent, e'') ↦ rw e'' v
            ])
      | inr e' ↦ rw (e, e', handle) v
    ]
  ]

  -- Any control message, encapsulated or not, keeps a well-formed map table well formed, if it is
  -- read within the buffer.
  pub process_lisp_map_message-RibInv :
      (rib' : Maptable t) (out : List Output) (sent : List Packet)
      → process_lisp_map_message t count locs pkt rib ≡ some (rib', out, sent)
      → RibInv t rib'
  unfolding process_lisp_map_message
  process_lisp_map_message-RibInv rib' out sent h =
      subst Kept h (elim (Option-cases (message_type pkt)) [
        | inl e ↦ rw (e, process_lisp_map_message) tt
        | inr (type, e) ↦ rw (e, process_lisp_map_message) (handle-Kept type)
      ])

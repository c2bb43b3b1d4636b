-- ===== src/Map/Message.antt =====
-- map.c: `process_lisp_map_message`, which chooses the handler of a control message. As in
-- Map/Receive, `none` is a read or a step past the end of the receive buffer.
pub mod Own
pub mod Table
use lixy.Base.{ℕ, ◌/◌, ◌==◌, if◌then◌else◌, Option, none, some, List, [], ◌∷◌}
use lixy.Platform.Patricia.{Patricia}
use lixy.Net.{Locator}
use lixy.Wire.Bytes.{get_bytes}
use lixy.Maptable.{Maptable}
use lixy.Map.Receive.{◌>>=◌, Output, process_lisp_map_reply}
use lixy.Map.Respond.{Packet, process_lisp_map_request}

-- `ctl->type`, and `ip->ip_v`: the high part of a byte.
unfoldable pub high_nibble : List ℕ → Option ℕ
high_nibble [] = none
high_nibble (b ∷ _) = some (b / 16)

-- The type behind so many bytes of headers.
unfoldable pub type_behind : ℕ → List ℕ → Option (Option ℕ)
type_behind n pkt = do (_, ctl) ← get_bytes n pkt; type ← high_nibble ctl; some (some type)

unfoldable pub type_by_version : ℕ → List ℕ → Option (Option ℕ)
type_by_version ip_v ip =
    if ip_v == 4 then type_behind 28 ip else (if ip_v == 6 then type_behind 48 ip else some none)

-- The type of the inner message; `some none` is an invalid IP version.
unfoldable pub encapsulated_type : List ℕ → Option (Option ℕ)
encapsulated_type pkt = do (_, ip) ← get_bytes 4 pkt; ip_v ← high_nibble ip; type_by_version ip_v ip

unfoldable pub message_type : List ℕ → Option (Option ℕ)
message_type pkt = elim (high_nibble pkt) [
  | none ↦ none
  | some type ↦ if type == 8 then encapsulated_type pkt else some (some type)
]

module _ (t : Patricia) (count : ℕ) (locs : List Locator) (pkt : List ℕ) (rib : Maptable t) where
  abbrev pub Outcome : Type 0
  Outcome = Option (Maptable t × List Output × List Packet)

  -- The handler is given the message from its outer header on.
  unfoldable pub handle : Option ℕ → Outcome
  handle none = some (rib, [], [])
  handle (some type) =
      if type == 2
      then process_lisp_map_reply t pkt rib >>= (λ (rib', out). some (rib', out, []))
      else (if type == 1
          then process_lisp_map_request count locs pkt >>= (λ sent. some (rib, [], sent))
          else some (rib, [], []))

  unfoldable pub process_lisp_map_message : Outcome
  process_lisp_map_message = message_type pkt >>= handle

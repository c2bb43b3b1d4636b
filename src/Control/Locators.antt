-- ===== src/Control/Locators.antt =====
-- control.c: the `locator` commands.
pub mod Spec
pub mod Effect
use lixy.Base.{
  ltb, ◌^◌, ℕ, ◌+◌, ◌-◌, ◌*◌, ◌%◌, ◌==◌, leb, ◌&&◌, if◌then◌else◌, Option, none, some, List, [],
  ◌∷◌, replicate, length,
}
use lixy.Platform.{UtList}
use lixy.Platform.Resolver.{Resolver, AddrInfo, memcpy_addr}
use lixy.LinkedList.{search_listnode}
use lixy.LinkedList.Pool.{store}
use lixy.Net.{Sockaddr, Locator, compare_sockaddr}
use lixy.State.{Tuples}
use lixy.Instance.{set_lisp_locator, unset_lisp_locator}
use lixy.Control.{
  ReturnType, success, err_failed, err_invalid_command, err_invalid_address, err_locator_exists,
  err_locator_does_not_exists, Args, arg, is, lisp_control_port,
}

-- The number of the digits that `atoi` reads.
atoi_digits : ℕ → List ℕ → ℕ
atoi_digits acc [] = acc
atoi_digits acc (c ∷ cs) =
    let rest = atoi_digits (acc * 10 + (c - b'0')) cs in
    if leb b'0' c && leb c b'9' then rest else acc

abbrev low_byte : ℕ → ℕ
low_byte n = if ltb n (2 ^ 63) then n % 256 else 255

-- `(u_int8_t) atoi (value)`, of a word with no leading space: `strtol` stops at the greatest and the
-- least `long` of 64 bits, of which the last byte is kept.
unfoldable pub atoi_u8 : List ℕ → ℕ
unfolding atoi_digits
atoi_u8 [] = 0
atoi_u8 (c ∷ cs) =
    if c == b'-'
    then (if ltb (2 ^ 63) (atoi_digits 0 cs) then 0 else (256 - atoi_digits 0 cs % 256) % 256)
    else (if c == b'+' then low_byte (atoi_digits 0 cs) else low_byte (atoi_digits 0 (c ∷ cs)))

-- The fields that `cmd_set_locator_paramater` assigns.
unfoldable pub set_paramater : List ℕ → List ℕ → Locator → Option Locator
set_paramater param value loc =
    if is param "priority"
    then some (record loc { priority = atoi_u8 value })
    else (if is param "weight"
        then some (record loc { weight = atoi_u8 value })
        else (if is param "m_priority"
            then some (record loc { m_priority = atoi_u8 value })
            else (if is param "m_weight"
                then some (record loc { m_weight = atoi_u8 value })
                else none)))

-- The bytes of a zeroed `sockaddr_storage` (128 bytes) behind the result's `ai_addrlen` ones.
abbrev pub zeros_after : AddrInfo → List ℕ
zeros_after ai = replicate (128 - (4 + length ai.ai_address + length ai.ai_tail)) 0

-- A locator that was set to zero before its address was copied in.
abbrev pub new_locator : AddrInfo → Locator
new_locator ai = record {
  loc_addr = memcpy_addr ai (zeros_after ai);
  priority = 0;
  weight = 0;
  m_priority = 0;
  m_weight = 0;
}

-- `search_locator`, with `compare_locator` as its test.
abbrev pub search_locator : (u : UtList) → Tuples u → Sockaddr → Option ℕ
search_locator u s loc_addr =
    search_listnode u s.loc_tuple (λ p. compare_sockaddr loc_addr (s.locs.cell p).loc_addr)

module _ (u : UtList) (res : Resolver) where
  unfoldable pub cmd_create_locator : Tuples u → List ℕ → Tuples u × ReturnType
  cmd_create_locator s caddr = elim (res.getaddrinfo (some caddr) lisp_control_port) [
    | none ↦ (s, err_invalid_address)
    | some ai ↦ elim (search_locator u s (memcpy_addr ai (zeros_after ai))) [
      | some p ↦ (s, err_locator_exists)
      | none ↦
          let (s', done) = set_lisp_locator u s (new_locator ai) in
          (s', if done then success else err_failed)
    ]
  ]

  -- `stack` is what the uninitialised `loc_addr` holds.
  unfoldable pub cmd_delete_locator : List ℕ → Tuples u → List ℕ → Tuples u × ReturnType
  cmd_delete_locator stack s caddr = elim (res.getaddrinfo (some caddr) lisp_control_port) [
    | none ↦ (s, err_invalid_address)
    | some ai ↦
        let (s', done) = unset_lisp_locator u s (memcpy_addr ai stack) in
        (s', if done then success else err_locator_does_not_exists)
  ]

  assign_paramater : Tuples u → ℕ → List ℕ → List ℕ → Tuples u × ReturnType
  assign_paramater s p param value = elim (set_paramater param value (s.locs.cell p)) [
    | none ↦ (s, err_invalid_command)
    | some loc ↦ (record s { locs = store s.locs p loc }, success)
  ]

  -- The address is copied out of the result after `freeaddrinfo`.
  unfoldable pub cmd_set_locator_paramater :
      List ℕ → Tuples u → List ℕ → List ℕ → Option (List ℕ) → Tuples u × ReturnType
  unfolding assign_paramater
  cmd_set_locator_paramater stack s caddr param none = (s, err_invalid_command)
  cmd_set_locator_paramater stack s caddr param (some value) =
      elim (res.getaddrinfo (some caddr) lisp_control_port) [
        | none ↦ (s, err_invalid_address)
        | some ai ↦ elim (search_locator u s (memcpy_addr (res.after_free ai) stack)) [
          | none ↦ (s, err_locator_does_not_exists)
          | some p ↦ assign_paramater s p param value
        ]
      ]

  locator_action : List ℕ → Tuples u → List ℕ → List ℕ → Option (List ℕ) → Tuples u × ReturnType
  locator_action stack s caddr action value =
      if is action "create"
      then cmd_create_locator s caddr
      else (if is action "delete"
          then cmd_delete_locator stack s caddr
          else cmd_set_locator_paramater stack s caddr action value)

  unfoldable pub config_locator : List ℕ → Tuples u → Args → Tuples u × ReturnType
  unfolding locator_action
  config_locator stack s args = elim (arg args 1) [
    | none ↦ (s, err_invalid_command)
    | some caddr ↦ elim (arg args 2) [
      | none ↦ (s, err_invalid_command)
      | some action ↦ locator_action stack s caddr action (arg args 3)
    ]
  ]

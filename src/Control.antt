-- ===== src/Control.antt =====
-- control.h and control.c: the configuration commands.
pub mod Locators
pub mod MapServers
pub mod Eids
pub mod Dispatch
pub mod Routes
pub mod Show
pub mod Frame
use lixy.Base.{ℕ, Bool, List, String, Option, get_elem?, codes, bytes_eq}

pub data ReturnType : Type 0 where
  success success_no_message err_failed err_invalid_command err_invalid_address : ReturnType
  err_eid_exists err_locator_exists err_interface_exists err_address_exists : ReturnType
  err_eid_does_not_exists err_locator_does_not_exists : ReturnType
  err_interface_does_not_exists err_address_does_not_exists err_authkey_too_long : ReturnType

-- `char ** args`: the words of the command, NULL from there on.
abbrev pub Args : Type 0
Args = List (List ℕ)

abbrev pub arg : Args → ℕ → Option (List ℕ)
arg = get_elem?

-- `strcmp (word, text) == 0`
unfoldable pub is : List ℕ → String → Bool
is word text = bytes_eq word (codes text)

abbrev pub lisp_control_port : ℕ
lisp_control_port = 4342

abbrev pub lisp_data_port : ℕ
lisp_data_port = 4341

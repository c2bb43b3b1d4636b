-- ===== src/Tests/Requests.antt =====
-- Requests, probes and registers of two locators.
use lixy.Base.{
  ℕ, ◌≡◌, refl, ◌≤◌, ◌+◌, ◌%◌, inl, some, List, [], ◌∷◌, ◌++◌, length, replicate, All, arith,
}
use lixy.Net.{Locator}
use lixy.Wire.Bytes.{get_bytes}
use lixy.Map.Build.{set_lisp_map_register}
use lixy.Map.Headers.{total}
use lixy.Map.Request.{set_lisp_map_request, words, summed_ip_hdr}
use lixy.Map.Request.Bounds.{set_lisp_map_request-fits}
use lixy.Map.Request.Header.{summed_ip_hdr_verifies}
use lixy.Map.Sizes.{set_lisp_map_register-fits}
use lixy.Map.Receive.Select.{IsLocator}
use lixy.Map.Respond.Register.{set_lisp_map_register-authentic}
use lixy.Tests.Trees.{list_tree}
use lixy.Tests.World.{net8}
use lixy.Tests.Messages.{at_host}
use lixy.Map.Message.{message_type, process_lisp_map_message}
use lixy.Map.Message.Own.{own_request-ignored}
use lixy.Tests.Trees.{list_tree}
use lixy.Tests.Table.{table}

abbrev two : List Locator
two = at_host 1 1 ∷ at_host 2 2 ∷ []

two-IsLocator : All IsLocator two
two-IsLocator = (inl (refl, refl), (inl (refl, refl), tt))

abbrev nonce : List ℕ
nonce = replicate 8 7

abbrev toy_hmac : List ℕ → List ℕ → List ℕ
toy_hmac key msg = replicate 20 (length key + length msg)

set_lisp_map_request-fits_example :
    (msg : List ℕ) × (set_lisp_map_request (λ i. 0) net8 nonce 2 two ≡ some msg)
    × (length msg ≤ 1024)
set_lisp_map_request-fits_example =
    set_lisp_map_request-fits (λ i. 0) net8 nonce 2 two (inl (refl, refl)) refl two-IsLocator
      (omega arith)

own_request-ignored_example :
    (msg : List ℕ) × (set_lisp_map_request (λ i. 0) net8 nonce 2 two ≡ some msg)
    × (message_type (msg ++ 0 ∷ 0 ∷ []) ≡ some (some 1))
    × (process_lisp_map_message list_tree 2 two (msg ++ 0 ∷ 0 ∷ []) table ≡ some (table, [], []))
own_request-ignored_example =
    own_request-ignored list_tree 2 two table (λ i. 0) net8 nonce 2 two (0 ∷ 0 ∷ [])
      (inl (refl, refl)) refl two-IsLocator

set_lisp_map_register-fits_example :
    (msg : List ℕ) × (set_lisp_map_register toy_hmac net8 (1 ∷ []) nonce 2 two ≡ some msg)
    × (length msg ≤ 1024)
set_lisp_map_register-fits_example =
    set_lisp_map_register-fits toy_hmac net8 (1 ∷ []) nonce 2 two (λ k m. refl) refl two-IsLocator
      (omega arith)

summed_ip_hdr_verifies_example :
    total (words (summed_ip_hdr 60 (192 ∷ 0 ∷ 2 ∷ 1 ∷ []) (10 ∷ 0 ∷ 0 ∷ 0 ∷ []))) % 65535 ≡ 0
summed_ip_hdr_verifies_example = summed_ip_hdr_verifies 60 192 0 2 1 10 0 0 0 (
  omega arith,
  (
    omega arith,
    (omega arith, (omega arith, (omega arith, (omega arith, (omega arith, (omega arith, tt)))))),
  ),
)

set_lisp_map_register-authentic_example :
    (msg head auth rest : List ℕ) × (set_lisp_map_register toy_hmac net8 (1 ∷ []) nonce 2 two
      ≡ some msg)
    × (get_bytes 16 msg ≡ some (head, auth ++ rest))
    × (get_bytes 20 (auth ++ rest) ≡ some (auth, rest))
    × (auth ≡ toy_hmac (1 ∷ []) (head ++ replicate 20 0 ++ rest))
set_lisp_map_register-authentic_example =
    set_lisp_map_register-authentic toy_hmac net8 (1 ∷ []) nonce 2 two (λ k m. refl) refl
      two-IsLocator

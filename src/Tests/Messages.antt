-- ===== src/Tests/Messages.antt =====
-- A map reply for 10.0.0.0/8 with two locators, built and received.
use lixy.Base.{ℕ, ◌≡◌, refl, inl, some, List, [], ◌∷◌, ◌++◌, replicate, arith}
use lixy.Net.{Locator, zero_locator}
use lixy.Wire.Bytes.{get_bytes}
use lixy.Wire.{lispafi_to_af, afi_addr_len, get_record, get_map_reply}
use lixy.Maptable.{Maptable, negative, mapttl_default, install}
use lixy.Map.Build.{set_lisp_map_reply}
use lixy.Map.Receive.{
  takes_denied, negative_action, addr_to_prefix, process_record, process_lisp_map_reply,
  register_locator, new_mapnode, process_records,
}
use lixy.Map.Receive.Select.{as_received}
use lixy.Map.Receive.Reply.{process_reply-set_reply}
use lixy.Tests.Trees.{list_tree}
use lixy.Tests.World.{net8, net16}
use lixy.Tests.Table.{empty_table, table}

abbrev pub at_host : ℕ → ℕ → Locator
at_host n priority = record {
  loc_addr = record {
    family = 2;
    port = 4342;
    addr = 192 ∷ 0 ∷ 2 ∷ n ∷ [];
    rest = replicate 120 0;
  };
  priority = priority;
  weight = 100;
  m_priority = 255;
  m_weight = 0;
}

process_reply-set_reply_example :
    (msg : List ℕ) × (set_lisp_map_reply net8 1 2 2 (at_host 1 1 ∷ at_host 2 2 ∷ []) ≡ some msg)
    × (process_lisp_map_reply list_tree (msg ++ 0 ∷ []) empty_table
        ≡ some (
            let o = register_locator list_tree empty_table net8 10 (as_received (at_host 2 2)) in
            (o.0, o.1)))
process_reply-set_reply_example =
    process_reply-set_reply list_tree empty_table net8 1 2 (at_host 1 1) (at_host 2 2 ∷ []) (0 ∷ [])
      (inl (refl, refl)) (omega arith) (omega arith) (omega arith) (omega arith)
      (inl (refl, refl), (inl (refl, refl), tt))

-- A reply with one record, which has no locators and asks for a negative entry for 10.1.0.0/16.
abbrev pub negative_reply : List ℕ
negative_reply =
    0x28 ∷ 0 ∷ 0 ∷ 1 ∷ replicate 8 0
    ++ 0 ∷ 0 ∷ 0 ∷ 10 ∷ 0 ∷ 16 ∷ 32 ∷ 0 ∷ 0 ∷ 0 ∷ 0 ∷ 1 ∷ 10 ∷ 1 ∷ 0 ∷ 0 ∷ []

abbrev pub with_negative : Maptable list_tree
with_negative = (install list_tree table net16 (new_mapnode negative mapttl_default zero_locator)).0

negative_read : process_lisp_map_reply list_tree negative_reply table ≡ some (with_negative, [])
unfolding process_lisp_map_reply process_records process_record negative_action get_map_reply
    get_record get_bytes addr_to_prefix lispafi_to_af afi_addr_len takes_denied
negative_read = refl

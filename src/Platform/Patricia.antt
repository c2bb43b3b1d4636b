-- ===== src/Platform/Patricia.antt =====
-- The prefix tree of patricia/patricia.c (the MRT library), as far as lixy calls it. A node of the
-- tree that has a prefix is known by the bits of that prefix. The tree does not look at a prefix's
-- address family to find a node. It takes prefixes of up to 128 bits, and makes nodes for those of
-- IPv4 and IPv6; a caller whose prefix may be another one has no result for it, so what the operations
-- give for such a prefix is never used. lixy has such prefixes only from map replies.
pub mod Covers
use lixy.Base.{
  ℕ, zero, suc, ◌≡◌, refl, ◌↔◌, ◌+◌, ◌-◌, ◌*◌, ◌/◌, ◌^◌, ◌==◌, ◌&&◌, if◌then◌else◌, Bool, true,
  false, Option, none, some, List, [], ◌∷◌, length, arith, leb, ◌||◌, All,
}
use lixy.Net.{Prefix}

-- A big-endian number.
abbrev pub be_value_from : ℕ → List ℕ → ℕ
be_value_from acc [] = acc
be_value_from acc (b ∷ bs) = be_value_from (acc * 256 + b) bs

pub record Key : Type 0 where
  pub len : ℕ
  pub bits : ℕ

unfoldable pub key_eq : Key → Key → Bool
key_eq j k = j.len == k.len && j.bits == k.bits

-- The first `n` bits of a prefix, whose address the tree keeps with zeros behind it.
unfoldable pub cut : Prefix → ℕ → Key
cut p n = record {
  len = n;
  bits = be_value_from 0 p.add * 2 ^ (n - 8 * length p.add) / 2 ^ (8 * length p.add - n);
}

abbrev pub key : Prefix → Key
key p = cut p p.bitlen

-- The longest of the first bits of a prefix, `n` at most, that a test accepts.
unfoldable pub longest : (Key → Bool) → Prefix → ℕ → Option Key
longest has p zero = if has (cut p 0) then some (cut p 0) else none
longest has p (suc n) =
    let shorter = longest has p n in if has (cut p (suc n)) then some (cut p (suc n)) else shorter

-- The first key is a prefix of the second, or equal to it.
unfoldable pub covers : Key → Key → Bool
covers j k = leb j.len k.len && j.bits == k.bits / 2 ^ (k.len - j.len)

-- Some node whose walk was broken off has the key below it.
abbrev pub any_covers : List Key → Key → Bool
any_covers [] k = false
any_covers (j ∷ js) k = covers j k || any_covers js k

pub record Patricia : Type 1 where
  pub Tree : Type 0
  -- `New_Patricia (128)`
  pub new_patricia : Tree
  -- The tree has a node with this prefix.
  pub has_node : Tree → Key → Bool
  -- `node->data`, where `none` is NULL, and also stands for the `data` of no node.
  pub node_data : Tree → Key → Option ℕ
  -- The tree after `patricia_lookup`, whose result is the node of the prefix.
  pub patricia_lookup : Tree → Prefix → Tree
  pub patricia_search_best : Tree → Prefix → Option Key
  pub patricia_remove : Tree → Key → Tree
  -- `node->data = d`
  pub set_data : Tree → Key → Option ℕ → Tree
  -- `node->prefix`
  pub node_prefix : Tree → Key → Prefix
  -- The nodes with a prefix, in the order in which PATRICIA_WALK meets them. The nodes below one,
  -- which PATRICIA_WALK_BREAK leaves out, are those whose prefixes it covers.
  pub walk : Tree → List Key

abbrev pub contains : List Key → Key → Bool
contains [] k = false
contains (j ∷ js) k = if key_eq k j then true else contains js k

-- No node comes after one that it covers.
abbrev pub IsPreorder : List Key → Type 0
IsPreorder [] = Unit
IsPreorder (j ∷ js) = All (λ k. covers k j ≡ false) js × IsPreorder js

-- The documented behaviour, for the prefixes that the tree takes; what the operations do with others
-- is never asked. A new node's `data` is NULL, and `patricia_search_best` finds the
-- longest prefix in the tree that covers the given one.
pub record LawfulPatricia (t : Patricia) : Type 0 where
  pub has-new : (k : Key) → t.has_node t.new_patricia k ≡ false
  pub data_of_none : (r : t.Tree) (k : Key) → t.has_node r k ≡ false → t.node_data r k ≡ none
  pub has-lookup :
      (r : t.Tree) (p : Prefix) (k : Key)
      → t.has_node (t.patricia_lookup r p) k ≡ (if key_eq k (key p) then true else t.has_node r k)
  pub data-lookup :
      (r : t.Tree) (p : Prefix) (k : Key) → t.node_data (t.patricia_lookup r p) k ≡ t.node_data r k
  pub search_best_longest :
      (r : t.Tree) (p : Prefix) → t.patricia_search_best r p ≡ longest (t.has_node r) p p.bitlen
  pub has-remove :
      (r : t.Tree) (j k : Key)
      → t.has_node (t.patricia_remove r j) k ≡ (if key_eq k j then false else t.has_node r k)
  pub data-remove :
      (r : t.Tree) (j k : Key)
      → t.node_data (t.patricia_remove r j) k ≡ (if key_eq k j then none else t.node_data r k)
  pub has-set_data :
      (r : t.Tree) (j : Key) (d : Option ℕ) (k : Key)
      → t.has_node (t.set_data r j d) k ≡ t.has_node r k
  pub data-set_data :
      (r : t.Tree) (j : Key) (d : Option ℕ) (k : Key)
      → t.has_node r j ≡ true
      → t.node_data (t.set_data r j d) k ≡ (if key_eq k j then d else t.node_data r k)
  pub key-node_prefix : (r : t.Tree) (k : Key) → t.has_node r k ≡ true → key (t.node_prefix r k) ≡ k
  pub node_prefix-remove :
      (r : t.Tree) (j k : Key)
      → key_eq k j ≡ false
      → t.node_prefix (t.patricia_remove r j) k ≡ t.node_prefix r k
  pub contains-walk : (r : t.Tree) (k : Key) → contains (t.walk r) k ≡ t.has_node r k
  pub walk-IsPreorder : (r : t.Tree) → IsPreorder (t.walk r)

pub key_eq_iff : (j k : Key) → (key_eq j k ≡ true) ↔ (j ≡ k)
unfolding key_eq
key_eq_iff j k = ground arith

pub key_eq_refl : (k : Key) → key_eq k k ≡ true
key_eq_refl k = (key_eq_iff k k).1 refl

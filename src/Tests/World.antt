-- ===== src/Tests/World.antt =====
-- Concrete chains, prefix trees and name resolution, with which the theorems are applied.
use lixy.Base.{
  ℕ, refl, if◌then◌else◌, none, some, List, [], ◌∷◌, ◌++◌, remove_at, bytes_eq, codes, replicate,
}
use lixy.Platform.{UtList, LawfulUtList}
use lixy.Platform.Resolver.{Resolver, AddrInfo}
use lixy.Net.{Prefix}

-- A chain as the list of its data.
abbrev pub list_chain : UtList
list_chain = record {
  Chain = List ℕ;
  null = [];
  nodes = λ c. c;
  ll_append = λ c p. c ++ p ∷ [];
  ll_delete = λ c i. remove_at i c;
}

pub list_chain_lawful : LawfulUtList list_chain
list_chain_lawful = record {
  nodes-null = refl;
  nodes-ll_append = λ c p. refl;
  nodes-ll_delete = λ c i. refl;
}

abbrev pub address : ℕ → AddrInfo
address n = record {
  ai_family = 2;
  ai_port = 4342;
  ai_address = 10 ∷ 0 ∷ 0 ∷ n ∷ [];
  ai_tail = replicate 8 0;
}

abbrev pub net8 : Prefix
net8 = record { family = 2; bitlen = 8; add = 10 ∷ 0 ∷ 0 ∷ 0 ∷ [] }

abbrev pub net16 : Prefix
net16 = record { family = 2; bitlen = 16; add = 10 ∷ 1 ∷ 0 ∷ 0 ∷ [] }

-- It knows the names "a" and "b", and reads any text as the prefix 10.0.0.0/8.
abbrev pub two_names : Resolver
two_names = record {
  getaddrinfo = λ host port. elim host [
    | none ↦ none
    | some name ↦
        if bytes_eq name (codes "a")
        then some (address 1)
        else (if bytes_eq name (codes "b") then some (address 2) else none)
  ];
  after_free = λ ai. ai;
  ascii2prefix = λ af text. some net8;
}

-- ===== src/Platform/Resolver.antt =====
-- `getaddrinfo` and `ascii2prefix`, which turn text into addresses.
use lixy.Base.{ℕ, List, ◌++◌, Option}
use lixy.Net.{Sockaddr, Prefix}

-- What `res->ai_addr` holds in its `ai_addrlen` bytes.
pub record AddrInfo : Type 0 where
  pub ai_family : ℕ
  pub ai_port : ℕ
  pub ai_address : List ℕ
  pub ai_tail : List ℕ

-- `getaddrinfo` is given the host (`none` for NULL) and the port; `none` is a failure. `after_free` is what
-- the memory of a result holds once `freeaddrinfo` was called on it.
pub record Resolver : Type 0 where
  pub getaddrinfo : Option (List ℕ) → ℕ → Option AddrInfo
  pub after_free : AddrInfo → AddrInfo
  pub ascii2prefix : ℕ → List ℕ → Option Prefix

-- `memcpy (&storage, res->ai_addr, res->ai_addrlen)`, where `over` is what the storage held in the
-- bytes that are not written.
abbrev pub memcpy_addr : AddrInfo → List ℕ → Sockaddr
memcpy_addr ai over = record {
  family = ai.ai_family;
  port = ai.ai_port;
  addr = ai.ai_address;
  rest = ai.ai_tail ++ over;
}

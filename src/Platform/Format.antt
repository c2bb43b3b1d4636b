-- ===== src/Platform/Format.antt =====
-- `inet_ntop` and the numbers of `snprintf`, which turn addresses and numbers into text.
use lixy.Base.{ℕ, List, Option}

-- `inet_ntop` is given the family and the address; `none` is NULL, and the buffer is as it was.
-- `decimal` is the text of `%d` for a number that is not negative.
pub record Format : Type 0 where
  pub inet_ntop : ℕ → List ℕ → Option (List ℕ)
  pub decimal : ℕ → List ℕ

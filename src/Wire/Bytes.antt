-- ===== src/Wire/Bytes.antt =====
-- Network byte order, and the splitting of a message.
use lixy.Base.{
  ℕ, zero, suc, ◌≡◌, refl, ◌+◌, ◌*◌, ◌/◌, ◌%◌, Option, none, some, List, [], ◌∷◌, ◌++◌, length,
}

-- `htons` and `htonl` of a number, as bytes.
abbrev pub be16 : ℕ → List ℕ
be16 n = (n / 256 % 256) ∷ (n % 256) ∷ []

abbrev pub be32 : ℕ → List ℕ
be32 n = (n / 16777216 % 256) ∷ (n / 65536 % 256) ∷ (n / 256 % 256) ∷ (n % 256) ∷ []

abbrev pub from_be16 : ℕ → ℕ → ℕ
from_be16 b1 b0 = b1 * 256 + b0

abbrev pub from_be32 : ℕ → ℕ → ℕ → ℕ → ℕ
from_be32 b3 b2 b1 b0 = b3 * 16777216 + b2 * 65536 + b1 * 256 + b0

-- The first `n` bytes and the rest; `none` if there are fewer.
unfoldable pub get_bytes : ℕ → List ℕ → Option (List ℕ × List ℕ)
get_bytes zero xs = some ([], xs)
get_bytes (suc n) [] = none
get_bytes (suc n) (x ∷ xs) = elim (get_bytes n xs) [
  | none ↦ none
  | some (ys, rest) ↦ some (x ∷ ys, rest)
]

pub get_bytes-append : (ys rest : List ℕ) → get_bytes (length ys) (ys ++ rest) ≡ some (ys, rest)
unfolding get_bytes
get_bytes-append [] rest = refl
get_bytes-append (y ∷ ys) rest = rw (get_bytes-append ys rest, get_bytes) refl

-- ===== src/Map/Headers.antt =====
-- map.c: the inner IP and UDP headers of an encapsulated message, and the checksum.
use lixy.Base.{ℕ, ◌≡◌, ◌+◌, ◌-◌, ◌*◌, ◌/◌, ◌%◌, ◌<◌, ◌≤◌, List, [], ◌∷◌, ◌++◌, length, arith, All}
use lixy.Wire.Bytes.{be16}

-- The addresses are given by their bytes. The length may be set again later.
unfoldable pub set_ip_hdr : ℕ → List ℕ → List ℕ → List ℕ
set_ip_hdr data_len src dst =
    0x45 ∷ 0 ∷ be16 (28 + data_len) ++ 0 ∷ 0 ∷ 0 ∷ 0 ∷ 255 ∷ 17 ∷ 0 ∷ 0 ∷ src ++ dst

unfoldable pub set_ip6_hdr : ℕ → List ℕ → List ℕ → List ℕ
set_ip6_hdr data_len src dst = 0x6E ∷ 0 ∷ 0 ∷ 0 ∷ be16 (8 + data_len) ++ 17 ∷ 64 ∷ src ++ dst

unfoldable pub set_udp_hdr : ℕ → ℕ → ℕ → List ℕ
set_udp_hdr u_len srcport dstport = be16 srcport ++ be16 dstport ++ be16 u_len ++ 0 ∷ 0 ∷ []

-- The loop of `chksum`: a `u_int32_t` sum of 16-bit words.
abbrev pub sum_words : ℕ → List ℕ → ℕ
sum_words sum [] = sum
sum_words sum (w ∷ ws) = sum_words ((sum + w) % 4294967296) ws

unfoldable pub chksum : List ℕ → ℕ
chksum words =
    let sum = sum_words 0 words in
    let folded = sum / 65536 + sum % 65536 in 65535 - (folded + folded / 65536) % 65536

-- The exact sum of the words.
abbrev pub total : List ℕ → ℕ
total [] = 0
total (w ∷ ws) = w + total ws

sum_words-total :
    (ws : List ℕ) (sum : ℕ) → sum + total ws < 4294967296 → sum_words sum ws ≡ sum + total ws
sum_words-total [] sum h = omega arith
sum_words-total (w ∷ ws) sum h =
    let step : (sum + w) % 4294967296 ≡ sum + w = omega arith in
    rw step (omega (arith, sum_words-total ws (sum + w)))

total-le : (ws : List ℕ) → All (λ w. w < 65536) ws → total ws ≤ length ws * 65535
total-le [] h = omega arith
total-le (w ∷ ws) h = omega (arith, total-le ws h.1, h.0)

-- Of up to 65536 words of 16 bits, the checksum is the number that makes their sum with it a
-- multiple of 65535, as the receiver of a header checks.
pub chksum_verifies :
    (ws : List ℕ) → All (λ w. w < 65536) ws → length ws ≤ 65536 → (total ws + chksum ws) % 65535 ≡ 0
unfolding chksum
chksum_verifies ws h n =
    let small : total ws < 4294967296 = omega (arith, total-le ws h) in
    rw (sum_words-total ws 0 (omega arith)) (omega arith)

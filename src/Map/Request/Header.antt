-- ===== src/Map/Request/Header.antt =====
-- The inner IPv4 header of a map request.
use lixy.Base.{ℕ, ◌≡◌, ◌<◌, ◌≤◌, ◌+◌, ◌*◌, ◌/◌, ◌%◌, List, [], ◌∷◌, arith, All}
use lixy.Map.Headers.{set_ip_hdr, chksum, total, chksum_verifies}
use lixy.Map.Request.{words, summed_ip_hdr}

abbrev address : ℕ → ℕ → ℕ → ℕ → List ℕ
address a b c d = a ∷ b ∷ c ∷ d ∷ []

chksum-le : (ws : List ℕ) → chksum ws ≤ 65535
unfolding chksum
chksum-le ws = omega arith

le16-word : (n : ℕ) → n ≤ 65535 → n % 256 + 256 * (n / 256 % 256) ≡ n
le16-word n h = omega arith

-- The IPv4 header of a map request, between any two addresses and for any length, has a checksum
-- that the receiver accepts: the sum of its sixteen-bit words is a multiple of 65535.
pub summed_ip_hdr_verifies :
    (data_len a b c d e f g h : ℕ)
    → All (λ x. x < 256) (a ∷ b ∷ c ∷ d ∷ e ∷ f ∷ g ∷ h ∷ [])
    → total (words (summed_ip_hdr data_len (address a b c d) (address e f g h))) % 65535 ≡ 0
unfolding summed_ip_hdr set_ip_hdr
summed_ip_hdr_verifies data_len a b c d e f g h bytes =
    let ws = words (set_ip_hdr data_len (address a b c d) (address e f g h)) in
    let small : All (λ w. w < 65536) ws = (
      omega arith,
      (
        omega arith,
        (
          omega arith,
          (
            omega arith,
            (
              omega arith,
              (
                omega arith,
                (
                  omega (arith, bytes.0, bytes.1.0),
                  (
                    omega (arith, bytes.1.1.0, bytes.1.1.1.0),
                    (
                      omega (arith, bytes.1.1.1.1.0, bytes.1.1.1.1.1.0),
                      (omega (arith, bytes.1.1.1.1.1.1.0, bytes.1.1.1.1.1.1.1.0), tt),
                    ),
                  ),
                ),
              ),
            ),
          ),
        ),
      ),
    ) in
    let whole = le16-word (chksum ws) (chksum-le ws) in
    omega (arith, chksum_verifies ws small (omega arith), whole)

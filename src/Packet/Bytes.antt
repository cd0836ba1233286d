-- ===== src/Packet/Bytes.antt =====
-- Integers as bytes in network order.
use self_db_mini.Base.{
  ℕ, ◌+◌, ◌*◌, ◌/◌, ◌%◌, ◌^◌, ◌<◌, ◌≡◌, refl, List, [], ◌∷◌, ◌++◌, Option, none, some, arith,
  length,
}

unfoldable pub uint16be : ℕ → List ℕ
uint16be v = v / 256 % 256 ∷ v % 256 ∷ []

unfoldable pub uint32be : ℕ → List ℕ
uint32be v = v / 16777216 % 256 ∷ v / 65536 % 256 ∷ v / 256 % 256 ∷ v % 256 ∷ []

-- The value of four bytes, and what follows them.
unfoldable pub get_uint32be : List ℕ → Option (ℕ × List ℕ)
get_uint32be (a ∷ b ∷ c ∷ d ∷ rest) = some (a * 16777216 + b * 65536 + c * 256 + d, rest)
get_uint32be _ = none

unfoldable pub get_uint16be : List ℕ → Option (ℕ × List ℕ)
get_uint16be (a ∷ b ∷ rest) = some (a * 256 + b, rest)
get_uint16be _ = none

digits_lem :
    (v : ℕ)
    → v < 2 ^ 32
    → v / 16777216 % 256 * 16777216 + v / 65536 % 256 * 65536 + v / 256 % 256 * 256 + v % 256 ≡ v
digits_lem v h = omega (arith, h)

-- What was written is read back.
pub get_uint32be-uint32be :
    (v : ℕ) (rest : List ℕ) → v < 2 ^ 32 → get_uint32be (uint32be v ++ rest) ≡ some (v, rest)
unfolding get_uint32be uint32be
get_uint32be-uint32be v rest h = rw (digits_lem v h) refl

pub length-uint32be : (v : ℕ) → length (uint32be v) ≡ 4
unfolding uint32be
length-uint32be v = refl

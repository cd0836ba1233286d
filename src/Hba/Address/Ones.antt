-- ===== src/Hba/Address/Ones.antt =====
-- The mask that a number of bits gives.
use self_db_mini.Base.{
  ℕ, ◌+◌, ◌-◌, ◌*◌, ◌^◌, ◌≤◌, ◌≡◌, refl, Bool, true, ◌&&◌, List, [], ◌∷◌, ◌==◌, if◌then◌else◌, take,
  checks, checks_at, arith, ltb,
}
use self_db_mini.Hba.Address.{zeros, mask_of_bits}

-- The number that bytes stand for in network order, onto `acc`.
abbrev pub number_of : ℕ → List ℕ → ℕ
number_of acc [] = acc
number_of acc (b ∷ bs) = number_of (acc * 256 + b) bs

abbrev ones_at : ℕ → Bool
ones_at bits =
    (number_of 0 (mask_of_bits bits (zeros 16)) == 2 ^ 128 - 2 ^ (128 - bits))
    && (if ltb 32 bits
        then true
        else number_of 0 (take 4 (mask_of_bits bits (zeros 16))) == 2 ^ 32 - 2 ^ (32 - bits))

ones_table : checks ones_at 129 ≡ true
unfolding checks mask_of_bits zeros
ones_table = refl

-- The mask that parse_nmask makes for a number of bits up to 128 is, as a number in network order,
-- that many ones and then zeros in all sixteen bytes, and for up to 32 bits so in the first four
-- bytes.
pub mask_of_bits_lem :
    (bits : ℕ)
    → bits ≤ 128
    → (number_of 0 (mask_of_bits bits (zeros 16)) ≡ 2 ^ 128 - 2 ^ (128 - bits))
      × (bits ≤ 32 → number_of 0 (take 4 (mask_of_bits bits (zeros 16))) ≡ 2 ^ 32 - 2 ^ (32 - bits))
mask_of_bits_lem bits h = ground (arith, checks_at ones_at 129 bits (omega arith) ones_table)

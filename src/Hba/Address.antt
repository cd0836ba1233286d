-- ===== src/Hba/Address.antt =====
-- The addresses of rules: how they are read, and which clients' addresses they match.
pub mod BadMask
pub mod Sizes
pub mod Ones
use Prim.Native.Nat.{bit_and, bit_or, bit_xor}
use self_db_mini.Base.{
  ℕ, zero, suc, ◌+◌, ◌-◌, ◌*◌, ◌/◌, ◌%◌, ◌^◌, Bool, true, false, ◌&&◌, ◌||◌, not, Option, none,
  some, List, [], ◌∷◌, ◌++◌, ltb, leb, ◌==◌, if◌then◌else◌, length, take, drop, is_empty,
}
use self_db_mini.Hba.Text.{Str, equal, is_space}
use self_db_mini.Hba.Types.{
  Family, af_inet, af_inet6, af_unspec, af_unix, HbaAddress, HbaEnv, PgAddr, pga_unix, pga_inet,
  pga_inet6,
}

-- Bytes written over the front of an array.
unfoldable pub overwrite : List ℕ → List ℕ → List ℕ
overwrite [] arr = arr
overwrite (b ∷ bs) [] = []
overwrite (b ∷ bs) (a ∷ arr) = b ∷ overwrite bs arr

unfoldable pub zeros : ℕ → List ℕ
zeros zero = []
zeros (suc n) = 0 ∷ zeros n

-- `none` is the result false.
unfoldable pub parse_addr : {Tree : Type 0} → HbaEnv Tree → Str → HbaAddress → Option HbaAddress
unfolding overwrite
parse_addr env addr haddress = elim (env.inet_pton af_inet6 addr) [
  | some bytes ↦ some (record haddress { addr = overwrite bytes haddress.addr; family = af_inet6 })
  | none ↦ elim (env.inet_pton af_inet addr) [
    | some bytes ↦ some (record haddress { addr = overwrite bytes haddress.addr; family = af_inet })
    | none ↦ none
  ]
]

-- The value of the digits at the front of a text, onto `acc`, and what follows them.
unfoldable pub digits_of : ℕ → Str → ℕ × Str
digits_of acc [] = (acc, [])
digits_of acc (c ∷ s) =
    let more = digits_of (acc * 10 + (c - b'0')) s in
    if leb b'0' c && leb c b'9' then more else (acc, c ∷ s)

abbrev is_digit_first : Str → Bool
is_digit_first [] = false
is_digit_first (c ∷ s) = leb b'0' c && leb c b'9'

-- `strtoul(s, &end, 10)` of the standard library, where `errno` stays 0 and `*end` is 0: a text of
-- spaces, a sign and digits. The text without any digit has the value 0 and is its own end.
unfoldable pub strtoul_all : Str → Option ℕ
unfolding is_space digits_of
strtoul_all [] = some 0
strtoul_all (c ∷ s) =
    let more = strtoul_all s in
    let (bits, end) = digits_of 0 (c ∷ s) in
    let (behind, end_behind) = digits_of 0 s in
    if is_space c
    then elim s [ [] ↦ none | _ ∷ _ ↦ more ]
    else if c == b'+' || c == b'-'
    then if is_digit_first s && is_empty end_behind && ltb behind (2 ^ 64)
      then some (if c == b'-' then (2 ^ 64 - behind) % 2 ^ 64 else behind)
      else none
    else if is_digit_first (c ∷ s) && is_empty end && ltb bits (2 ^ 64)
    then some bits
    else none

-- `for (i = 0; i < n; i++) mask[i] = 255`
unfoldable pub fill : ℕ → List ℕ → List ℕ
fill zero arr = arr
fill (suc n) [] = []
fill (suc n) (a ∷ arr) = 255 ∷ fill n arr

-- `mask[i] = v`
unfoldable pub set_byte : List ℕ → ℕ → ℕ → List ℕ
set_byte [] i v = []
set_byte (a ∷ arr) zero v = v ∷ arr
set_byte (a ∷ arr) (suc i) v = a ∷ set_byte arr i v

abbrev pub max_bits : Family → ℕ → Bool
max_bits af_inet bits = leb bits 32
max_bits af_inet6 bits = leb bits 128
max_bits _ bits = true

unfoldable pub mask_of_bits : ℕ → List ℕ → List ℕ
unfolding fill set_byte
mask_of_bits bits mask =
    let whole = fill (bits / 8) mask in
    if bits % 8 == 0 then whole else set_byte whole (bits / 8) (255 * 2 ^ (8 - bits % 8) % 256)

-- `none` is the result false.
unfoldable pub parse_nmask : HbaAddress → Str → Option HbaAddress
unfolding strtoul_all mask_of_bits
parse_nmask haddress nmask = elim (strtoul_all nmask) [
  | none ↦ none
  | some bits ↦
      if max_bits haddress.family bits
      then some (record haddress { mask = mask_of_bits bits haddress.mask })
      else none
]

-- The loop of `bad_mask`, over the bytes that are left.
unfoldable pub bad_bits : ℕ → ℕ → List ℕ → List ℕ → ℕ
bad_bits res (suc n) (a ∷ addr) (m ∷ mask) =
    bad_bits (bit_or res (bit_and a (bit_xor 255 m))) n addr mask
bad_bits res _ _ _ = res

abbrev pub address_bytes : Family → ℕ
address_bytes af_inet = 4
address_bytes _ = 16

unfoldable pub bad_mask : HbaAddress → Bool
unfolding bad_bits
bad_mask haddress =
    not (bad_bits 0 (address_bytes haddress.family) haddress.addr haddress.mask == 0)

-- A `uint32_t` in memory is its four bytes, and `&` and `==` work byte by byte.
abbrev pub word : ℕ → List ℕ → List ℕ
word i bytes = take 4 (drop (4 * i) bytes)

unfoldable pub and_word : List ℕ → List ℕ → List ℕ
and_word (s ∷ src) (m ∷ mask) = bit_and s m ∷ and_word src mask
and_word _ _ = []

-- `(src[i] & mask[i]) == base[i]`
unfoldable pub match_word : ℕ → List ℕ → HbaAddress → Bool
unfolding and_word equal
match_word i src haddress =
    equal (and_word (word i src) (word i haddress.mask)) (word i haddress.addr)

unfoldable pub match_inet4 : HbaAddress → PgAddr → Bool
unfolding match_word
match_inet4 haddress (pga_inet src) = match_word 0 src haddress
match_inet4 haddress _ = false

unfoldable pub match_inet6 : HbaAddress → PgAddr → Bool
unfolding match_word
match_inet6 haddress (pga_inet6 src) =
    match_word 0 src haddress
    && match_word 1 src haddress
    && match_word 2 src haddress
    && match_word 3 src haddress
match_inet6 haddress _ = false

-- the `switch` of `address_match`
unfoldable pub family_match : Family → HbaAddress → PgAddr → Bool
unfolding match_inet4 match_inet6
family_match af_inet haddress addr = match_inet4 haddress addr
family_match af_inet6 haddress addr = match_inet6 haddress addr
family_match _ haddress addr = false

unfoldable pub address_match : HbaAddress → PgAddr → Bool
unfolding family_match
address_match haddress addr =
    if haddress.all then true else family_match haddress.family haddress addr

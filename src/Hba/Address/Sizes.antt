-- ===== src/Hba/Address/Sizes.antt =====
-- The sixteen bytes of an address and of its mask.
use self_db_mini.Base.{
  ℕ, zero, suc, ◌*◌, ◌/◌, ◌%◌, ◌^◌, ◌-◌, ◌≡◌, ◌⊎◌, subst, ◌∙◌, refl, some, List, [], ◌∷◌, ◌==◌,
  Bool-cases, Option-cases, inl, inr, arith, length,
}
use self_db_mini.Hba.Text.{Str}
use self_db_mini.Hba.Types.{af_inet, af_inet6, HbaAddress, HbaEnv}
use self_db_mini.Hba.Address.{
  overwrite, fill, set_byte, mask_of_bits, strtoul_all, parse_nmask, parse_addr,
}

pub length-overwrite : (bs arr : List ℕ) → length (overwrite bs arr) ≡ length arr
unfolding overwrite
length-overwrite [] arr = refl
length-overwrite (b ∷ bs) [] = refl
length-overwrite (b ∷ bs) (a ∷ arr) = omega (arith, length-overwrite bs arr)

length-fill : (n : ℕ) (arr : List ℕ) → length (fill n arr) ≡ length arr
unfolding fill
length-fill zero arr = refl
length-fill (suc n) [] = refl
length-fill (suc n) (a ∷ arr) = omega (arith, length-fill n arr)

length-set_byte : (arr : List ℕ) (i v : ℕ) → length (set_byte arr i v) ≡ length arr
unfolding set_byte
length-set_byte [] i v = refl
length-set_byte (a ∷ arr) zero v = refl
length-set_byte (a ∷ arr) (suc i) v = omega (arith, length-set_byte arr i v)

length-mask_of_bits : (bits : ℕ) (mask : List ℕ) → length (mask_of_bits bits mask) ≡ length mask
unfolding mask_of_bits
length-mask_of_bits bits mask = elim (Bool-cases (bits % 8 == 0)) [
  | inl e ↦ rw e (length-fill (bits / 8) mask)
  | inr e ↦ rw e (
      length-set_byte (fill (bits / 8) mask) (bits / 8) (255 * 2 ^ (8 - bits % 8) % 256)
      ∙ length-fill (bits / 8) mask)
]

-- An address of the Internet, read.
pub record IsInet (a : HbaAddress) : Type 0 where
  pub of_family : (a.family ≡ af_inet) ⊎ (a.family ≡ af_inet6)
  pub addr_size : length a.addr ≡ 16
  pub mask_size : length a.mask ≡ 16

pub parse_nmask-IsInet :
    (a a' : HbaAddress) (nmask : Str) → IsInet a → parse_nmask a nmask ≡ some a' → IsInet a'
unfolding parse_nmask
parse_nmask-IsInet a a' nmask w h = elim (Option-cases (strtoul_all nmask)) [
  | inl e ↦ absurd (ground arith)
  | inr (bits, e) ↦
      subst IsInet {x = record a { mask = mask_of_bits bits a.mask }} (ground arith) (record {
        of_family = w.of_family;
        addr_size = w.addr_size;
        mask_size = length-mask_of_bits bits a.mask ∙ w.mask_size;
      })
]

pub parse_addr-IsInet :
    {Tree : Type 0} (env : HbaEnv Tree) (addr : Str) (a a' : HbaAddress)
    → length a.addr ≡ 16
    → length a.mask ≡ 16
    → parse_addr env addr a ≡ some a'
    → IsInet a'
unfolding parse_addr
parse_addr-IsInet env addr a a' la lm h = elim (Option-cases (env.inet_pton af_inet6 addr)) [
  | inr (bytes, e) ↦
      subst IsInet {x = record a { addr = overwrite bytes a.addr; family = af_inet6 }}
        (ground arith)
        (record {
          of_family = inr refl;
          addr_size = length-overwrite bytes a.addr ∙ la;
          mask_size = lm;
        })
  | inl e ↦ elim (Option-cases (env.inet_pton af_inet addr)) [
    | inr (bytes, f) ↦
        subst IsInet {x = record a { addr = overwrite bytes a.addr; family = af_inet }}
          (ground arith)
          (record {
            of_family = inl refl;
            addr_size = length-overwrite bytes a.addr ∙ la;
            mask_size = lm;
          })
    | inl f ↦ absurd (ground arith)
  ]
]

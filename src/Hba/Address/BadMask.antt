-- ===== src/Hba/Address/BadMask.antt =====
-- Masks that leave bits of their address over.
use Prim.Native.Nat.{bit_and, bit_xor}
use self_db_mini.Base.{
  checks, checks_at, ℕ, zero, suc, ◌+◌, ◌<◌, ◌≡◌, refl, sym, ap, ap₂, ◌∙◌, ◌*◌, subst, Bool, true,
  false, ◌&&◌, List, [], ◌∷◌, ◌==◌, ==_iff, Bool-cases, inl, inr, arith, take, drop,
}
use self_db_mini.Hba.Text.{equal}
use self_db_mini.Hba.Types.{
  HbaAddress, PgAddr, pga_unix, pga_inet, pga_inet6, Family, af_inet, af_inet6,
}
use self_db_mini.Hba.Address.{
  bad_bits, bad_mask, and_word, match_word, match_inet4, match_inet6, family_match, address_match,
}

-- No bit of `s` under `m` is one that `m` leaves out.
abbrev inside : ℕ → ℕ → Bool
inside m s = bit_and (bit_and s m) (bit_xor 255 m) == 0

inside_bytes : checks (λ m. checks (inside m) 256) 256 ≡ true
unfolding checks
inside_bytes = refl

-- What a mask lets through has none of the bits that it does not.
masked : (s m : ℕ) → s < 256 → m < 256 → bit_and (bit_and s m) (bit_xor 255 m) ≡ 0
masked s m hs hm =
    let row : checks (inside m) 256 ≡ true =
      checks_at (λ k. checks (inside k) 256) 256 m hm inside_bytes in
    (==_iff _ 0).0 (checks_at (inside m) 256 s hs row)

abbrev pub AllBytes : List ℕ → Type 0
AllBytes [] = Unit {0}
AllBytes (b ∷ bs) = (b < 256) × AllBytes bs

AllBytes-drop : (n : ℕ) (bs : List ℕ) → AllBytes bs → AllBytes (drop n bs)
AllBytes-drop zero bs h = h
AllBytes-drop (suc n) [] h = tt
AllBytes-drop (suc n) (b ∷ bs) h = AllBytes-drop n bs h.1

drop-nil : (n : ℕ) → drop {A = ℕ} n [] ≡ []
drop-nil zero = refl
drop-nil (suc n) = refl

drop-drop : (m n k : ℕ) (bs : List ℕ) → k ≡ n + m → drop m (drop n bs) ≡ drop k bs
drop-drop m zero k bs e = ap (λ j. drop j bs) (omega arith)
drop-drop m (suc n) k [] e = rw (drop-nil m, drop-nil k)
drop-drop m (suc n) zero (b ∷ bs) e = absurd (omega arith)
drop-drop m (suc n) (suc k) (b ∷ bs) e = drop-drop m n k bs (omega arith)

bad_bits_end : (k : ℕ) (mask : List ℕ) → bad_bits 0 k [] mask ≡ 0
unfolding bad_bits
bad_bits_end zero mask = refl
bad_bits_end (suc k) mask = refl

bad_bits_no_mask : (k : ℕ) (addr : List ℕ) → bad_bits 0 k addr [] ≡ 0
unfolding bad_bits
bad_bits_no_mask zero addr = refl
bad_bits_no_mask (suc k) [] = refl
bad_bits_no_mask (suc k) (a ∷ addr) = refl

-- The bytes that a mask makes equal to those of an address leave no bad bit.
bad_bits-drop :
    (n m k : ℕ) (src mask addr : List ℕ)
    → m ≡ n + k
    → AllBytes src
    → AllBytes mask
    → equal (and_word (take n src) (take n mask)) (take n addr) ≡ true
    → bad_bits 0 m addr mask ≡ bad_bits 0 k (drop n addr) (drop n mask)
unfolding bad_bits and_word equal
bad_bits-drop zero m k src mask addr e hs hm h = ap (λ j. bad_bits 0 j addr mask) (omega arith)
bad_bits-drop (suc n) zero k src mask addr e hs hm h = absurd (omega arith)
bad_bits-drop (suc n) (suc m) k (s ∷ src) (b ∷ mask) (a ∷ addr) e hs hm h =
    let lets : bit_and s b ≡ a = (==_iff _ _).0 (ground arith) in
    let none_left : bit_and a (bit_xor 255 b) ≡ 0 =
      subst (λ v. bit_and v (bit_xor 255 b) ≡ 0) lets (masked s b hs.0 hm.0) in
    rw none_left (bad_bits-drop n m k src mask addr (omega arith) hs.1 hm.1 (ground arith))
bad_bits-drop (suc n) (suc m) k (s ∷ src) (b ∷ mask) [] e hs hm h = absurd (cc h)
bad_bits-drop (suc n) (suc m) k [] mask (a ∷ addr) e hs hm h = absurd (cc h)
bad_bits-drop (suc n) (suc m) k src [] (a ∷ addr) e hs hm h =
    rw (bad_bits_no_mask k (drop n addr)) refl
bad_bits-drop (suc n) (suc m) k [] mask [] e hs hm h = sym (bad_bits_end k (drop (suc n) mask))
bad_bits-drop (suc n) (suc m) k src mask [] e hs hm h = sym (bad_bits_end k (drop (suc n) mask))

and_all :
    (a b c d : Bool) → (a && b && c && d) ≡ true → (a ≡ true) × (b ≡ true) × (c ≡ true) × (d ≡ true)
and_all a b c d h = ground arith

module _ (haddress : HbaAddress) where
  -- One word: what is bad lies behind it.
  match_word-bad_bits :
      (i m k : ℕ) (src : List ℕ)
      → m ≡ 4 + k
      → AllBytes src
      → AllBytes haddress.mask
      → match_word i src haddress ≡ true
      → bad_bits 0 m (drop (4 * i) haddress.addr) (drop (4 * i) haddress.mask)
        ≡ bad_bits 0 k (drop (4 * i + 4) haddress.addr) (drop (4 * i + 4) haddress.mask)
  unfolding match_word
  match_word-bad_bits i m k src e hs hm h =
      bad_bits-drop 4 m k (drop (4 * i) src) (drop (4 * i) haddress.mask)
        (drop (4 * i) haddress.addr) e (AllBytes-drop (4 * i) src hs)
        (AllBytes-drop (4 * i) haddress.mask hm) h
      ∙ ap₂ (bad_bits 0 k) (drop-drop 4 (4 * i) (4 * i + 4) haddress.addr refl)
          (drop-drop 4 (4 * i) (4 * i + 4) haddress.mask refl)

  bad_bits_none : (addr mask : List ℕ) → bad_bits 0 0 addr mask ≡ 0
  unfolding bad_bits
  bad_bits_none addr mask = refl

  match_inet4-bad_mask :
      (src : List ℕ)
      → AllBytes src
      → AllBytes haddress.mask
      → match_inet4 haddress (pga_inet src) ≡ true
      → bad_bits 0 4 haddress.addr haddress.mask ≡ 0
  unfolding match_inet4
  match_inet4-bad_mask src hs hm h =
      match_word-bad_bits 0 4 0 src refl hs hm h
      ∙ bad_bits_none (drop 4 haddress.addr) (drop 4 haddress.mask)

  match_inet6-bad_mask :
      (src : List ℕ)
      → AllBytes src
      → AllBytes haddress.mask
      → match_inet6 haddress (pga_inet6 src) ≡ true
      → bad_bits 0 16 haddress.addr haddress.mask ≡ 0
  unfolding match_inet6
  match_inet6-bad_mask src hs hm h =
      let (w0, w1, w2, w3) =
        and_all (match_word 0 src haddress) (match_word 1 src haddress) (match_word 2 src haddress)
          (match_word 3 src haddress) h in
      match_word-bad_bits 0 16 12 src refl hs hm w0
      ∙ match_word-bad_bits 1 12 8 src refl hs hm w1
      ∙ match_word-bad_bits 2 8 4 src refl hs hm w2
      ∙ match_word-bad_bits 3 4 0 src refl hs hm w3
      ∙ bad_bits_none (drop 16 haddress.addr) (drop 16 haddress.mask)

abbrev pub address_of : PgAddr → List ℕ
address_of pga_unix = []
address_of (pga_inet src) = src
address_of (pga_inet6 src) = src

family_match-bad_mask :
    (family : Family) (haddress : HbaAddress) (addr : PgAddr)
    → haddress.family ≡ family
    → AllBytes (address_of addr)
    → AllBytes haddress.mask
    → bad_mask haddress ≡ true
    → family_match family haddress addr ≡ false
unfolding family_match bad_mask
family_match-bad_mask af_inet haddress (pga_inet src) e hs hm h =
    elim (Bool-cases (match_inet4 haddress (pga_inet src))) [
      | inl g ↦ absurd (ground (arith, match_inet4-bad_mask haddress src hs hm g))
      | inr g ↦ g
    ]
family_match-bad_mask af_inet6 haddress (pga_inet6 src) e hs hm h =
    elim (Bool-cases (match_inet6 haddress (pga_inet6 src))) [
      | inl g ↦ absurd (ground (arith, match_inet6-bad_mask haddress src hs hm g))
      | inr g ↦ g
    ]
family_match-bad_mask _ haddress _ e hs hm h = refl

-- A rule whose address has bits that its mask leaves out, which bad_mask tells, matches no client,
-- of either family of addresses, where the bytes of the mask and of the address of the client are
-- below 256 and the rule is not for all addresses.
pub address_match-bad_mask :
    (haddress : HbaAddress) (addr : PgAddr)
    → AllBytes (address_of addr)
    → AllBytes haddress.mask
    → haddress.all ≡ false
    → bad_mask haddress ≡ true
    → address_match haddress addr ≡ false
unfolding address_match
address_match-bad_mask haddress addr hs hm a h =
    ground (arith, family_match-bad_mask haddress.family haddress addr refl hs hm h)

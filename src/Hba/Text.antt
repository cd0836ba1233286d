-- ===== src/Hba/Text.antt =====
-- C strings as lists of bytes without the closing NUL, and what hba.c does with them.
use Prim.Native.Char.{code}
use Prim.Native.String.{String}
use self_db_mini.Base.{
  ℕ, ◌+◌, ◌≡◌, refl, ap₂, Bool, true, false, ◌&&◌, ◌||◌, Option, none, some, List, [], ◌∷◌, ◌++◌,
  leb, ◌==◌, if◌then◌else◌, is_empty, length, arith,
}

abbrev pub Str : Type 0
Str = List ℕ

-- The bytes of a text in ASCII.
abbrev pub codes : String → Str
codes String.[] = []
codes (String.◌∷◌ c s) = code c ∷ codes s

-- `strcmp(a, b) == 0`
unfoldable pub equal : Str → Str → Bool
equal [] b = is_empty b
equal (c ∷ a) [] = false
equal (c ∷ a) (d ∷ b) = c == d && equal a b

pub equal→eq : (a b : Str) → equal a b ≡ true → a ≡ b
unfolding equal
equal→eq [] [] h = refl
equal→eq [] (y ∷ ys) h = absurd (cc h)
equal→eq (x ∷ xs) [] h = absurd (cc h)
equal→eq (x ∷ xs) (y ∷ ys) h = ap₂ ◌∷◌ (ground arith) (equal→eq xs ys (ground arith))

pub equal_self : (a : Str) → equal a a ≡ true
unfolding equal
equal_self [] = refl
equal_self (x ∷ xs) = ground (arith, equal_self xs)

-- `isspace` in the C locale
unfoldable pub is_space : ℕ → Bool
is_space c = c == b' ' || (leb 9 c && leb c 13)

-- `strchr`: the text from the first `c` on.
unfoldable pub strchr : ℕ → Str → Option Str
strchr c [] = none
strchr c (x ∷ xs) = if x == c then some (x ∷ xs) else strchr c xs

-- `strncmp(s, p, strlen(p)) == 0`
unfoldable pub has_prefix : Str → Str → Bool
has_prefix [] s = true
has_prefix (x ∷ p) [] = false
has_prefix (x ∷ p) (y ∷ s) = x == y && has_prefix p s

unfoldable pub starts_with : ℕ → Str → Bool
starts_with c [] = false
starts_with c (x ∷ xs) = x == c

unfoldable pub ends_with : ℕ → Str → Bool
ends_with c [] = false
ends_with c (x ∷ []) = x == c
ends_with c (x ∷ y ∷ xs) = ends_with c (y ∷ xs)

-- The argument tells whether memory of a size is there; `none` is a NULL result.
unfoldable pub strdup : (ℕ → Bool) → Str → Option Str
strdup mem s = if mem (length s + 1) then some s else none

unfoldable pub path_join : (ℕ → Bool) → Str → Str → Option Str
unfolding equal starts_with ends_with strdup
path_join mem p1 p2 =
    if starts_with b'/' p2 || is_empty p1 || equal p1 (codes ".")
    then strdup mem p2
    else if mem (length p1 + length p2 + 2 + 1)
    then some (p1 ++ ((if ends_with b'/' p1 then [] else b'/' ∷ []) ++ p2))
    else none

-- `dirname` is a function of the system.
unfoldable pub path_join_dirname : (ℕ → Bool) → (Str → Str) → Str → Str → Option Str
unfolding path_join strdup starts_with
path_join_dirname mem dirname parent fn =
    if starts_with b'/' fn
    then strdup mem fn
    else elim (strdup mem parent) [ none ↦ none | some tmp ↦ path_join mem (dirname tmp) fn ]

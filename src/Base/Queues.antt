-- ===== src/Base/Queues.antt =====
-- Lists of socket numbers: how often one occurs, and its removal.
use Prim.Native.Nat.{ℕ, suc, ◌+◌, ◌-◌, ◌<◌}
use mathlib.Core.Path.{◌≡◌}
use mathlib.Core.List.{List, [], ◌∷◌, ◌++◌}
use mathlib.Core.Option.{Option, none, some}
use native.Mathlib.Omega.{arith}
use self_db_mini.Base.Tests.{◌==◌, ltb, if◌then◌else◌}
use self_db_mini.Base.Lists.{length}

abbrev pub count : ℕ → List ℕ → ℕ
count a [] = 0
count a (x ∷ xs) = if a == x then suc (count a xs) else count a xs

-- The first occurrence goes, as one node of a linked list does.
unfoldable pub remove : ℕ → List ℕ → List ℕ
remove a [] = []
remove a (x ∷ xs) = if a == x then xs else x ∷ remove a xs

unfoldable pub head? : List ℕ → Option ℕ
head? [] = none
head? (x ∷ xs) = some x

unfoldable pub get_last? : List ℕ → Option ℕ
get_last? [] = none
get_last? (x ∷ []) = some x
get_last? (x ∷ y ∷ ys) = get_last? (y ∷ ys)

pub count-append : (a : ℕ) (xs ys : List ℕ) → count a (xs ++ ys) ≡ count a xs + count a ys
count-append a [] ys = omega arith
count-append a (x ∷ xs) ys = ground (arith, count-append a xs ys)

pub count-remove :
    (a b : ℕ) (xs : List ℕ) → count a (remove b xs) ≡ count a xs - (if a == b then 1 else 0)
unfolding remove
count-remove a b [] = ground arith
count-remove a b (x ∷ xs) = ground (arith, count-remove a b xs)

pub count-head? : (a : ℕ) (xs : List ℕ) → head? xs ≡ some a → 0 < count a xs
unfolding head?
count-head? a [] e = absurd (cc e)
count-head? a (x ∷ xs) e = ground arith

pub count-get_last? : (a : ℕ) (xs : List ℕ) → get_last? xs ≡ some a → 0 < count a xs
unfolding get_last?
count-get_last? a [] e = absurd (cc e)
count-get_last? a (x ∷ []) e = ground arith
count-get_last? a (x ∷ y ∷ ys) e = ground (arith, count-get_last? a (y ∷ ys) e)

pub length-remove :
    (a : ℕ) (xs : List ℕ) → length (remove a xs) + (if ltb 0 (count a xs) then 1 else 0) ≡ length xs
unfolding remove
length-remove a [] = ground arith
length-remove a (x ∷ xs) = ground (arith, length-remove a xs)

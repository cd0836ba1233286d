-- ===== src/Base/Int.antt =====
-- C's `int` where the program keeps a negative number in it: counters, and sizes with -1 for unset.
use self_db_mini.Base.{
  ℕ, zero, suc, ◌≡◌, refl, Bool, true, false, leb, ltb, ◌+◌, ◌-◌, if◌then◌else◌,
}

-- `negsuc n` is -(n + 1).
pub data ℤ : Type 0 where
  pos : ℕ → ℤ
  negsuc : ℕ → ℤ

-- `i++`
unfoldable pub increment : ℤ → ℤ
increment (pos n) = pos (suc n)
increment (negsuc zero) = pos 0
increment (negsuc (suc n)) = negsuc n

-- `i--`
unfoldable pub decrement : ℤ → ℤ
decrement (pos zero) = negsuc 0
decrement (pos (suc n)) = pos n
decrement (negsuc n) = negsuc (suc n)

-- `a <= b` and `a < b`
unfoldable pub le_ℤ : ℤ → ℤ → Bool
le_ℤ (pos m) (pos n) = leb m n
le_ℤ (pos m) (negsuc n) = false
le_ℤ (negsuc m) (pos n) = true
le_ℤ (negsuc m) (negsuc n) = leb n m

unfoldable pub lt_ℤ : ℤ → ℤ → Bool
lt_ℤ (pos m) (pos n) = ltb m n
lt_ℤ (pos m) (negsuc n) = false
lt_ℤ (negsuc m) (pos n) = true
lt_ℤ (negsuc m) (negsuc n) = ltb n m

pub decrement-increment : (i : ℤ) → decrement (increment i) ≡ i
unfolding increment decrement
decrement-increment (pos n) = refl
decrement-increment (negsuc zero) = refl
decrement-increment (negsuc (suc n)) = refl

-- `i != 0` is `not (is_zero i)`.
unfoldable pub is_zero : ℤ → Bool
is_zero (pos zero) = true
is_zero (pos (suc n)) = false
is_zero (negsuc n) = false

-- m - n
unfoldable pub sub_ℕ : ℕ → ℕ → ℤ
sub_ℕ m n = if leb n m then pos (m - n) else negsuc (n - m - 1)

-- `a + b`
unfoldable pub add_ℤ : ℤ → ℤ → ℤ
unfolding sub_ℕ
add_ℤ (pos m) (pos n) = pos (m + n)
add_ℤ (pos m) (negsuc n) = sub_ℕ m (n + 1)
add_ℤ (negsuc m) (pos n) = sub_ℕ n (m + 1)
add_ℤ (negsuc m) (negsuc n) = negsuc (m + n + 1)

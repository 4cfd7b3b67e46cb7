-- ===== src/Prelude/Int.antt =====
-- Go's int64 and int where a negative value is tested for.
use Prim.Native.Nat.{ℕ, ◌+◌, ◌-◌, ◌%◌, ◌^◌}
use mathlib.Core.Path.{◌≡◌}
use mathlib.Core.Bool.{Bool, true, false}
use ai_web_testing.Prelude.Tests.{if◌then◌else◌}
use native.Mathlib.Omega.{arith}
use ai_web_testing.Prelude.Tests.{ltb, leb, nat_eq}

-- `negsuc n` is -(n + 1).
pub data ℤ : Type 0 where
  pos : ℕ → ℤ
  negsuc : ℕ → ℤ

-- x < k, for a numeral k that is not negative
abbrev pub below : ℤ → ℕ → Bool
below (pos n) k = ltb n k
below (negsuc n) k = true

-- n <= x
abbrev pub nat_le_int : ℕ → ℤ → Bool
nat_le_int n (pos m) = leb n m
nat_le_int n (negsuc m) = false

-- n < x
abbrev pub int_gt_nat : ℤ → ℕ → Bool
int_gt_nat (pos m) n = ltb n m
int_gt_nat (negsuc m) n = false

abbrev pub int_lt : ℤ → ℤ → Bool
int_lt (pos n) (pos m) = ltb n m
int_lt (pos n) (negsuc m) = false
int_lt (negsuc n) (pos m) = true
int_lt (negsuc n) (negsuc m) = ltb m n

abbrev pub int_eq : ℤ → ℤ → Bool
int_eq (pos n) (pos m) = nat_eq n m
int_eq (negsuc n) (negsuc m) = nat_eq n m
int_eq _ _ = false

-- The sum of two integers, and a sum of int64, which wraps around.
abbrev difference : ℕ → ℕ → ℤ
difference n m = if leb m n then pos (n - m) else negsuc (m - n - 1)

infixl 20 ◌+ℤ◌
abbrev pub ◌+ℤ◌ : ℤ → ℤ → ℤ
pos n +ℤ pos m = pos (n + m)
pos n +ℤ negsuc m = difference n (m + 1)
negsuc n +ℤ pos m = difference m (n + 1)
negsuc n +ℤ negsuc m = negsuc (n + m + 1)

abbrev pub wrap_int64 : ℤ → ℤ
wrap_int64 (pos n) = let m = n % 2 ^ 64 in if ltb m (2 ^ 63) then pos m else negsuc (2 ^ 64 - 1 - m)
wrap_int64 (negsuc n) =
    let m = n % 2 ^ 64 in if ltb m (2 ^ 63) then negsuc m else pos (2 ^ 64 - 1 - m)

pub int_eq-eq : (x y : ℤ) → int_eq x y ≡ true → x ≡ y
int_eq-eq (pos n) (pos m) h = ground arith
int_eq-eq (negsuc n) (negsuc m) h = ground arith
int_eq-eq _ _ h = ground arith

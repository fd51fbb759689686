-- ===== src/Number.antt =====
-- JavaScript's type `number`, with the tests that packages/core makes on it.
use vechain_sdk_js.Prelude.{
  ℕ, suc, ◌%◌, ◌^◌, ◌-◌, ℤ, pos, negsuc, Bool, true, false, leb, ltb, ◌==◌,
}

-- A JavaScript `number`, as far as the code tells numbers apart: an integer (of any size),
-- a fraction strictly between z and z + 1, NaN, or an infinity. The two zeros are one.
pub data Number : Type 0 where
  int frac : ℤ → Number
  nan infinity minus_infinity : Number

abbrev pub max_safe_integer : ℕ
max_safe_integer = 2 ^ 53 - 1

-- `Number.isSafeInteger`
abbrev pub is_safe_integer : Number → Bool
is_safe_integer (int (pos n)) = leb n max_safe_integer
is_safe_integer (int (negsuc n)) = ltb n max_safe_integer
is_safe_integer _ = false

-- `num < 0`
abbrev pub is_below_zero : Number → Bool
is_below_zero (int (negsuc n)) = true
is_below_zero (frac (negsuc n)) = true
is_below_zero minus_infinity = true
is_below_zero _ = false

-- `num >= 0`
abbrev pub is_at_least_zero : Number → Bool
is_at_least_zero (int (pos n)) = true
is_at_least_zero (frac (pos n)) = true
is_at_least_zero infinity = true
is_at_least_zero _ = false

-- `num <= 255`
abbrev pub is_at_most_255 : Number → Bool
is_at_most_255 (int (pos n)) = leb n 255
is_at_most_255 (frac (pos n)) = ltb n 255
is_at_most_255 (int (negsuc n)) = true
is_at_most_255 (frac (negsuc n)) = true
is_at_most_255 minus_infinity = true
is_at_most_255 _ = false

-- `(num & 1) === 1`, on the 32-bit integer that the number is first cut to.
abbrev pub is_odd : Number → Bool
is_odd (int (pos n)) = n % 2 == 1
is_odd (int (negsuc n)) = suc n % 2 == 1
is_odd (frac (pos n)) = n % 2 == 1
is_odd (frac (negsuc n)) = n % 2 == 1
is_odd _ = false

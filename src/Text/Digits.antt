-- ===== src/Text/Digits.antt =====
-- Single hexadecimal digits: their tests, their values, and case.
use vechain_sdk_js.Prelude.{ℕ, ◌<◌, ◌≡◌, true, arith}
use vechain_sdk_js.Text.{is_hex_digit, to_lower, digit_value, hex_digit}

pub is_hex_digit-hex_digit : (d : ℕ) → d < 16 → is_hex_digit (hex_digit d) ≡ true
is_hex_digit-hex_digit d h = ground arith

pub digit_value-hex_digit : (d : ℕ) → d < 16 → digit_value (hex_digit d) ≡ d
digit_value-hex_digit d h = ground arith

pub to_lower-hex_digit : (d : ℕ) → d < 16 → to_lower (hex_digit d) ≡ hex_digit d
to_lower-hex_digit d h = ground arith

pub digit_value-lt : (c : ℕ) → is_hex_digit c ≡ true → digit_value c < 16
digit_value-lt c h = ground arith

pub hex_digit-digit_value : (c : ℕ) → is_hex_digit c ≡ true → hex_digit (digit_value c) ≡ to_lower c
hex_digit-digit_value c h = ground arith

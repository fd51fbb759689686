-- ===== src/Text.antt =====
-- JavaScript strings as lists of UTF-16 code units, with the tests that the SDK's regular
-- expressions make: the hexadecimal ones of packages/core/src/vcdm/Hex.ts and HexUInt.ts, and the
-- decimal one of packages/core/src/utils/const/data.ts. A regular expression is written as the
-- function that it stands for: each optional prefix is taken off where it is there, which decides
-- the match, since neither `-` nor `x` is a digit.
pub mod Digits
pub mod Bytes
pub mod Positional
pub mod Equality
use Prim.Native.Char.{code}
use Prim.Native.String
use vechain_sdk_js.Prelude.{
  ℕ, ◌+◌, ◌-◌, ◌*◌, ◌/◌, ◌%◌, String, Bool, true, false, ◌&&◌, ◌||◌, List, [], ◌∷◌, Option, none,
  some, leb, ◌==◌, if◌then◌else◌,
}

abbrev pub Text : Type 0
Text = List ℕ

abbrev pub Bytes : Type 0
Bytes = List ℕ

abbrev pub codes : String → Text
codes String.[] = []
codes (String.◌∷◌ c s) = code c ∷ codes s

-- `[0-9]`
abbrev pub is_digit : ℕ → Bool
is_digit c = leb 48 c && leb c 57

-- `[0-9a-f]` under the flag `i`
abbrev pub is_hex_digit : ℕ → Bool
is_hex_digit c = is_digit c || (leb 97 c && leb c 102) || (leb 65 c && leb c 70)

abbrev pub to_lower : ℕ → ℕ
to_lower c = if leb 65 c && leb c 90 then c + 32 else c

unfoldable pub to_lower_case : Text → Text
to_lower_case [] = []
to_lower_case (c ∷ s) = to_lower c ∷ to_lower_case s

-- The value of a hexadecimal digit.
abbrev pub digit_value : ℕ → ℕ
digit_value c = if leb c 57 then c - 48 else if leb c 70 then c - 55 else c - 87

-- The lower-case digit of a value below 16.
abbrev pub hex_digit : ℕ → ℕ
hex_digit d = if leb d 9 then d + 48 else d + 87

-- `^[0-9a-f]*$`
unfoldable pub is_hex_digits : Text → Bool
is_hex_digits [] = true
is_hex_digits (c ∷ s) = is_hex_digit c && is_hex_digits s

-- `^-?`
unfoldable pub strip_sign : Text → Text
strip_sign [] = []
strip_sign (c ∷ s) = if c == b'-' then s else c ∷ s

unfoldable pub starts_with_minus : Text → Bool
starts_with_minus [] = false
starts_with_minus (c ∷ s) = c == b'-'

-- `^0x` under the flag `i`
unfoldable pub starts_with_tag : Text → Bool
starts_with_tag [] = false
starts_with_tag (c ∷ []) = false
starts_with_tag (c ∷ d ∷ s) = c == b'0' && (d == b'x' || d == b'X')

-- `^(0x)?`
unfoldable pub strip_tag : Text → Text
strip_tag [] = []
strip_tag (c ∷ []) = c ∷ []
strip_tag (c ∷ d ∷ s) = if c == b'0' && (d == b'x' || d == b'X') then s else c ∷ d ∷ s

-- `INTEGER_REGEX`, `^\d+$`
unfoldable pub is_digits : Text → Bool
is_digits [] = true
is_digits (c ∷ s) = is_digit c && is_digits s

unfoldable pub matches_integer : Text → Bool
unfolding is_digits
matches_integer [] = false
matches_integer (c ∷ s) = is_digits (c ∷ s)

-- The number that digits in a base stand for, the most significant one first.
unfoldable pub hex_value_from : ℕ → Text → ℕ
hex_value_from acc [] = acc
hex_value_from acc (c ∷ s) = hex_value_from (acc * 16 + digit_value c) s

unfoldable pub decimal_value_from : ℕ → Text → ℕ
decimal_value_from acc [] = acc
decimal_value_from acc (c ∷ s) = decimal_value_from (acc * 10 + (c - 48)) s

-- `Buffer.from(text, 'hex')` of Node.js: it decodes pairs of digits, and stops without an error at
-- the first pair that is none.
unfoldable pub buffer_from_hex : Text → Bytes
buffer_from_hex [] = []
buffer_from_hex (c ∷ []) = []
buffer_from_hex (c ∷ d ∷ s) =
    let rest = buffer_from_hex s in
    if is_hex_digit c && is_hex_digit d then (digit_value c * 16 + digit_value d) ∷ rest else []

-- The lower-case hexadecimal expression of bytes, two digits each.
unfoldable pub hex_of_bytes : Bytes → Text
hex_of_bytes [] = []
hex_of_bytes (b ∷ bs) = hex_digit (b / 16) ∷ hex_digit (b % 16) ∷ hex_of_bytes bs

-- `===` on strings
unfoldable pub text_eq : Text → Text → Bool
text_eq [] [] = true
text_eq (a ∷ s) (b ∷ t) = a == b && text_eq s t
text_eq [] (b ∷ t) = false
text_eq (a ∷ s) [] = false

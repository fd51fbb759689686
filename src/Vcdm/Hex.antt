-- ===== src/Vcdm/Hex.antt =====
-- packages/core/src/vcdm/Hex.ts. `Hex.of` takes a bigint, a text or bytes; the variant for a
-- `number`, which lays out an IEEE 754 double, and the random values are not modelled.
pub mod RoundTrip
pub mod Value
pub mod Order
use vechain_sdk_js.Prelude.{
  ℕ, suc, ◌-◌, ◌%◌, max, ℤ, pos, negsuc, negate, Bool, false, ◌&&◌, [], ◌∷◌, ◌++◌, length, drop,
  replicate, ltb, leb, ◌==◌, if◌then◌else◌,
}
use vechain_sdk_js.Result.{Result, ok, err, invalid_data_type, ◌>>=◌}
use vechain_sdk_js.Text.{
  Text, Bytes, to_lower_case, is_hex_digits, strip_sign, strip_tag, starts_with_minus,
  starts_with_tag,
}
use vechain_sdk_js.Noble.{Noble}

-- `NEGATIVE` and `POSITIVE`
pub data Sign : Type 0 where
  negative positive : Sign

pub record Hex : Type 0 where
  pub sign : Sign
  pub digits : Text

-- The constructor, with its default `normalize`.
unfoldable pub new_hex : Sign → Text → Hex
new_hex sign digits = record { sign = sign; digits = to_lower_case digits }

-- `REGEX_HEX`, `^-?(0x)?[0-9a-f]*$`
unfoldable pub is_valid : Text → Bool
is_valid exp = is_hex_digits (strip_tag (strip_sign exp))

-- `REGEX_HEX_PREFIX`, `^-?0x`
unfoldable pub has_hex_prefix : Text → Bool
has_hex_prefix exp = starts_with_tag (strip_sign exp)

unfoldable pub is_valid0x : Text → Bool
unfolding has_hex_prefix is_valid
is_valid0x exp = has_hex_prefix exp && is_valid exp

unfoldable pub abs : Hex → Hex
unfolding new_hex
abs h = new_hex positive h.digits

unfoldable pub align_to_bytes : Hex → Hex
unfolding new_hex
align_to_bytes h = if length h.digits % 2 == 0 then h else new_hex h.sign (b'0' ∷ h.digits)

unfoldable pub is_number : Hex → Bool
is_number h = length h.digits == 32

-- The loop of `fit` that moves `cue` on; the result is `digits.slice(cue)`.
unfoldable pub cut : ℕ → Text → Text
cut n [] = []
cut n (c ∷ s) = let rest = cut n s in if ltb n (length (c ∷ s)) && c == b'0' then rest else c ∷ s

unfoldable pub fit : ℕ → Hex → Result Hex
unfolding new_hex cut
fit n h =
    if ltb n (length h.digits)
    then (let rest = cut n h.digits in
        if length rest == n then ok (new_hex h.sign rest) else err (invalid_data_type "Hex.fit"))
    else if ltb (length h.digits) n
    then ok (new_hex h.sign (replicate (n - length h.digits) b'0' ++ h.digits))
    else ok h

unfoldable pub to_text : Hex → Text
to_text h = elim h.sign [
  | negative ↦ b'-' ∷ b'0' ∷ b'x' ∷ h.digits
  | positive ↦ b'0' ∷ b'x' ∷ h.digits
]

pub data Exp : Type 0 where
  bigint : ℤ → Exp
  text : Text → Exp
  bytes : Bytes → Exp

-- `this.sign - that.sign`
unfoldable pub compare_signs : Sign → Sign → ℤ
compare_signs negative negative = pos 0
compare_signs negative positive = negsuc 1
compare_signs positive negative = pos 2
compare_signs positive positive = pos 0

-- `thisBytes[i] - thatBytes[i]`
abbrev pub byte_difference : ℕ → ℕ → ℤ
byte_difference a b = if leb b a then pos (a - b) else negsuc (b - a - 1)

-- The loop of `compareTo`. The two lists have one length, so the last clause is not reached.
unfoldable pub compare_bytes : Bytes → Bytes → ℤ
compare_bytes [] _ = pos 0
compare_bytes (a ∷ these) (b ∷ bs) =
    let rest = compare_bytes these bs in if a == b then rest else byte_difference a b
compare_bytes (a ∷ these) [] = pos a

-- The string cases of `of`.
unfoldable pub of_text : Text → Result Hex
unfolding is_valid has_hex_prefix new_hex
of_text exp =
    if is_valid exp
    then (if starts_with_minus exp
        then ok (new_hex negative (if has_hex_prefix exp then drop 3 exp else drop 1 exp))
        else ok (new_hex positive (if has_hex_prefix exp then drop 2 exp else exp)))
    else err (invalid_data_type "Hex.of")

module _ (noble : Noble) where
  open noble use {bytes_to_hex, hex_to_bytes, hex_to_number, number_to_hex_unpadded}

  unfoldable pub of : Exp → Result Hex
  unfolding of_text new_hex
  of (bytes bs) = ok (new_hex positive (bytes_to_hex bs))
  of (bigint (negsuc n)) = ok (new_hex negative (number_to_hex_unpadded (suc n)))
  of (bigint (pos n)) = ok (new_hex positive (number_to_hex_unpadded n))
  of (text exp) = of_text exp

  -- The getter `bi`.
  unfoldable pub bi : Hex → ℤ
  bi h = elim h.sign [
    | negative ↦ negate (hex_to_number h.digits)
    | positive ↦ pos (hex_to_number h.digits)
  ]

  -- The getter `bytes`.
  unfoldable pub to_bytes : Hex → Result Bytes
  unfolding align_to_bytes
  to_bytes h = hex_to_bytes (align_to_bytes h).digits

  compare_digits : Hex → Hex → Result ℤ
  unfolding fit to_bytes compare_bytes
  compare_digits this that = do
    let digits = max (length this.digits) (length that.digits)
    fitted ← fit digits this
    these ← to_bytes fitted
    other ← fit digits that
    those ← to_bytes other
    ok (compare_bytes these those)

  unfoldable pub compare_to : Hex → Hex → Result ℤ
  unfolding compare_digits compare_signs
  compare_to this that = elim this.sign [
    | negative ↦ elim that.sign [
      | negative ↦ compare_digits this that
      | positive ↦ ok (compare_signs negative positive)
    ]
    | positive ↦ elim that.sign [
      | positive ↦ compare_digits this that
      | negative ↦ ok (compare_signs positive negative)
    ]
  ]

  unfoldable pub is_equal : Hex → Hex → Result Bool
  unfolding compare_to
  is_equal this that = do
    order ← compare_to this that
    ok (elim order [ pos n ↦ n == 0 | negsuc n ↦ false ])

-- ===== src/Rlp/Kinds.antt =====
-- packages/core/src/encoding/rlp/kind and helpers: how a scalar kind turns data into a buffer and
-- back. `data k` is `kind.data(data, context).encode()`, and `buffer k` is
-- `kind.buffer(buffer, context).decode()`, which the code always calls one after the other.

use vechain_sdk_js.Prelude.{
  ℕ, ◌+◌, ◌*◌, ◌%◌, ℤ, pos, negsuc, Bool, false, not, ◌&&◌, ◌||◌, Option, none, some, [], ◌∷◌,
  length, drop, ltb, leb, ◌==◌, if◌then◌else◌,
}
use vechain_sdk_js.Result.{
  Result, ok, err, Context, invalid_rlp, syntax_error, require, ◌>>=◌, ◌>>◌,
}
use vechain_sdk_js.Text.{
  Text, Bytes, is_hex_digits, strip_tag, starts_with_tag, matches_integer, hex_value_from,
  decimal_value_from, buffer_from_hex,
}
use vechain_sdk_js.Text.Positional.{to_string16}
use vechain_sdk_js.Noble.{Noble}
use vechain_sdk_js.Vcdm.Hex.{is_valid, is_valid0x, of, bi, fit, to_text, bigint, bytes}
use vechain_sdk_js.Number.{Number, int, max_safe_integer, is_safe_integer, is_below_zero}
use vechain_sdk_js.Rlp.Value.{
  Value, null, undefined, num, str, buf, ScalarKind, buffer_kind, hex_blob_kind, numeric_kind,
  fixed_hex_blob_kind, optional_fixed_hex_blob_kind, compact_fixed_hex_blob_kind,
}

-- `BigInt(str)` on the strings that pass the validation: after `0x`, digits up to the end of which
-- there is at least one, or decimal digits. A sign before `0x` is a syntax error of the engine.
unfoldable pub big_int_of : Text → Result ℕ
big_int_of s =
    if starts_with_tag s
    then (if is_hex_digits (strip_tag s) && ltb 2 (length s)
        then ok (hex_value_from 0 (strip_tag s))
        else err syntax_error)
    else if matches_integer s
    then ok (decimal_value_from 0 s)
    else err syntax_error

-- `_validateNumericKindNumber`
unfoldable pub validate_numeric_kind_number : Number → Context → Result (Unit {0})
validate_numeric_kind_number n context =
    require (not (not (is_safe_integer n) || is_below_zero n))
      (invalid_rlp "_validateNumericKindNumber()" context)

-- `_validateNumericKindString`
unfoldable pub validate_numeric_kind_string : Text → Context → Result (Unit {0})
unfolding is_valid0x
validate_numeric_kind_string s context = do
  let is_hex = is_valid0x s
  let is_decimal = matches_integer s
  require (not (not is_hex && not is_decimal)) (invalid_rlp "_validateNumericKindString()" context)
  require (not (is_hex && leb (length s) 2)) (invalid_rlp "_validateNumericKindString()" context)

-- `BigInt` of a safe and non-negative integer.
abbrev pub nat_of_number : Number → ℕ
nat_of_number (int (pos n)) = n
nat_of_number _ = 0

unfoldable pub validate_numeric_kind_data : Value → Context → Result ℕ
unfolding validate_numeric_kind_number validate_numeric_kind_string big_int_of
validate_numeric_kind_data (num n) context = do
  validate_numeric_kind_number n context
  ok (nat_of_number n)
validate_numeric_kind_data (str s) context = do validate_numeric_kind_string s context; big_int_of s
validate_numeric_kind_data _ context = err (invalid_rlp "validateNumericKindData()" context)

-- `maxBytes !== undefined && length > maxBytes`
abbrev pub exceeds : ℕ → Option ℕ → Bool
exceeds size none = false
exceeds size (some most) = ltb most size

abbrev pub starts_with_zero : Bytes → Bool
starts_with_zero [] = false
starts_with_zero (b ∷ bs) = b == 0

unfoldable pub assert_valid_numeric_kind_buffer : Bytes → Context → Option ℕ → Result (Unit {0})
assert_valid_numeric_kind_buffer buffer context max_bytes = do
  require (not (exceeds (length buffer) max_bytes))
      (invalid_rlp "assertValidNumericKindBuffer()" context)
  require (not (starts_with_zero buffer)) (invalid_rlp "assertValidNumericKindBuffer()" context)

unfoldable pub assert_valid_hex_blob_kind_data : Value → Context → Result Text
unfolding is_valid
assert_valid_hex_blob_kind_data (str s) context = do
  require (is_valid s) (invalid_rlp "assertValidHexBlobKindData()" context)
  require (length s % 2 == 0) (invalid_rlp "assertValidHexBlobKindData()" context)
  ok s
assert_valid_hex_blob_kind_data _ context = err (invalid_rlp "assertValidHexBlobKindData()" context)

unfoldable pub assert_fixed_hex_blob_kind_data : Text → Context → ℕ → Result (Unit {0})
assert_fixed_hex_blob_kind_data s context size =
    require (length s == size * 2 + 2) (invalid_rlp "assertFixedHexBlobKindData()" context)

unfoldable pub assert_fixed_hex_blob_kind_buffer : Bytes → Context → ℕ → Result (Unit {0})
assert_fixed_hex_blob_kind_buffer buffer context size =
    require (length buffer == size) (invalid_rlp "assertFixedHexBlobKindData()" context)

unfoldable pub assert_compact_fixed_hex_blob_buffer : Bytes → Context → ℕ → Result (Unit {0})
assert_compact_fixed_hex_blob_buffer buffer context size = do
  require (not (ltb size (length buffer))) (invalid_rlp "assertCompactFixedHexBlobBuffer()" context)
  require (not (not (length buffer == 0) && starts_with_zero buffer))
      (invalid_rlp "assertCompactFixedHexBlobBuffer()" context)

-- `buffer.subarray(zeroIndex)` from the first byte that is not 0, or the empty buffer.
unfoldable pub encode_compact_fixed_hex_blob : Bytes → Bytes
encode_compact_fixed_hex_blob [] = []
encode_compact_fixed_hex_blob (b ∷ bs) =
    let rest = encode_compact_fixed_hex_blob bs in if b == 0 then rest else b ∷ bs

-- `HexBlobKind.data`
unfoldable pub hex_blob_data : Value → Context → Result Bytes
unfolding assert_valid_hex_blob_kind_data
hex_blob_data v context = do
  s ← assert_valid_hex_blob_kind_data v context
  ok (buffer_from_hex (drop 2 s))

-- `FixedHexBlobKind.data`
unfoldable pub fixed_hex_blob_data : ℕ → Value → Context → Result Bytes
unfolding assert_valid_hex_blob_kind_data assert_fixed_hex_blob_kind_data
fixed_hex_blob_data size v context = do
  s ← assert_valid_hex_blob_kind_data v context
  assert_fixed_hex_blob_kind_data s context size
  ok (buffer_from_hex (drop 2 s))

-- `OptionalFixedHexBlobKind.data`: `data == null` holds of `null` and of `undefined`.
unfoldable pub optional_fixed_hex_blob_data : ℕ → Value → Context → Result Bytes
unfolding fixed_hex_blob_data
optional_fixed_hex_blob_data size null context = ok []
optional_fixed_hex_blob_data size undefined context = ok []
optional_fixed_hex_blob_data size v context = fixed_hex_blob_data size v context

-- `CompactFixedHexBlobKind.data`
unfoldable pub compact_fixed_hex_blob_data : ℕ → Value → Context → Result Bytes
unfolding fixed_hex_blob_data encode_compact_fixed_hex_blob
compact_fixed_hex_blob_data size v context = do
  buffer ← fixed_hex_blob_data size v context
  ok (encode_compact_fixed_hex_blob buffer)

-- `BufferKind.data`
unfoldable pub buffer_data : Value → Context → Result Bytes
buffer_data (buf b) context = ok b
buffer_data _ context = err (invalid_rlp "BufferKind.data()" context)

module _ (noble : Noble) where
  unfoldable pub encode_big_int_to_buffer : ℕ → Option ℕ → Context → Result Bytes
  unfolding of
  encode_big_int_to_buffer n max_bytes context = if n == 0 then ok [] else do
    h ← of noble (bigint (pos n))
    require
        (not (exceeds (length h.digits) (elim max_bytes [ none ↦ none | some m ↦ some (m * 2) ])))
        (invalid_rlp "encodeBigIntToBuffer()" context)
    ok (buffer_from_hex h.digits)

  -- `Number(bi)` rounds above the safe range, to a number that is not safe either.
  abbrev pub number_or_hex : ℤ → Value
  number_or_hex (pos n) =
      if leb n max_safe_integer then num (int (pos n)) else str (b'0' ∷ b'x' ∷ to_string16 n)
  number_or_hex (negsuc n) = num (int (negsuc n))

  unfoldable pub decode_buffer_to_number_or_hex : Bytes → Result Value
  unfolding of bi
  decode_buffer_to_number_or_hex [] = ok (num (int (pos 0)))
  decode_buffer_to_number_or_hex (b ∷ bs) = do
    h ← of noble (bytes (b ∷ bs))
    ok (number_or_hex (bi noble h))

  -- `NumericKind.data`
  unfoldable pub numeric_data : Option ℕ → Value → Context → Result Bytes
  unfolding validate_numeric_kind_data encode_big_int_to_buffer
  numeric_data max_bytes v context = do
    n ← validate_numeric_kind_data v context
    encode_big_int_to_buffer n max_bytes context

  -- `NumericKind.buffer`
  unfoldable pub numeric_buffer : Option ℕ → Bytes → Context → Result Value
  unfolding assert_valid_numeric_kind_buffer decode_buffer_to_number_or_hex
  numeric_buffer max_bytes b context = do
    assert_valid_numeric_kind_buffer b context max_bytes
    decode_buffer_to_number_or_hex b

  -- `HexBlobKind.buffer`
  unfoldable pub hex_blob_buffer : Bytes → Result Value
  unfolding of to_text
  hex_blob_buffer b = do h ← of noble (bytes b); ok (str (to_text h))

  -- `FixedHexBlobKind.buffer`
  unfoldable pub fixed_hex_blob_buffer : ℕ → Bytes → Context → Result Value
  unfolding hex_blob_buffer assert_fixed_hex_blob_kind_buffer
  fixed_hex_blob_buffer size b context = do
    assert_fixed_hex_blob_kind_buffer b context size
    hex_blob_buffer b

  -- `OptionalFixedHexBlobKind.buffer`
  unfoldable pub optional_fixed_hex_blob_buffer : ℕ → Bytes → Context → Result Value
  unfolding fixed_hex_blob_buffer
  optional_fixed_hex_blob_buffer size b context =
      if length b == 0 then ok null else fixed_hex_blob_buffer size b context

  -- `CompactFixedHexBlobKind.buffer`
  unfoldable pub compact_fixed_hex_blob_buffer : ℕ → Bytes → Context → Result Value
  unfolding assert_compact_fixed_hex_blob_buffer of fit to_text
  compact_fixed_hex_blob_buffer size b context = do
    assert_compact_fixed_hex_blob_buffer b context size
    h ← of noble (bytes b)
    fitted ← fit (size * 2) h
    ok (str (to_text fitted))

  -- The dispatch of `kind.data(obj, context).encode()`.
  unfoldable pub data_of : ScalarKind → Value → Context → Result Bytes
  data_of buffer_kind v context = buffer_data v context
  data_of hex_blob_kind v context = hex_blob_data v context
  data_of (numeric_kind max_bytes) v context = numeric_data max_bytes v context
  data_of (fixed_hex_blob_kind size) v context = fixed_hex_blob_data size v context
  data_of (optional_fixed_hex_blob_kind size) v context =
      optional_fixed_hex_blob_data size v context
  data_of (compact_fixed_hex_blob_kind size) v context = compact_fixed_hex_blob_data size v context

  -- The dispatch of `kind.buffer(packed, context).decode()`.
  unfoldable pub buffer_of : ScalarKind → Bytes → Context → Result Value
  buffer_of buffer_kind b context = ok (buf b)
  buffer_of hex_blob_kind b context = hex_blob_buffer b
  buffer_of (numeric_kind max_bytes) b context = numeric_buffer max_bytes b context
  buffer_of (fixed_hex_blob_kind size) b context = fixed_hex_blob_buffer size b context
  buffer_of (optional_fixed_hex_blob_kind size) b context =
      optional_fixed_hex_blob_buffer size b context
  buffer_of (compact_fixed_hex_blob_kind size) b context =
      compact_fixed_hex_blob_buffer size b context

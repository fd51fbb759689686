-- ===== src/Vcdm/HexInt.antt =====
-- packages/core/src/vcdm/HexInt.ts and HexUInt.ts: signed and unsigned integers in hexadecimal.
use vechain_sdk_js.Prelude.{pos, negsuc, Bool, ◌&&◌, leb, ltb, if◌then◌else◌}
use vechain_sdk_js.Result.{Result, ok, err, invalid_data_type, ◌>>=◌, catch_as}
use vechain_sdk_js.Text.{Text, is_hex_digits, strip_tag}
use vechain_sdk_js.Noble.{Noble}
use vechain_sdk_js.Number.{Number, int, max_safe_integer}
use vechain_sdk_js.Vcdm.Hex
use vechain_sdk_js.Vcdm.Hex.{negative, positive, Hex, Exp, bigint, new_hex, bi, has_hex_prefix}

pub data IntExp : Type 0 where
  number : Number → IntExp
  hex : Hex → IntExp
  exp : Exp → IntExp

-- `HexUInt.isValid`, `^(0x)?[0-9a-f]*$`
unfoldable pub is_valid : Text → Bool
is_valid s = is_hex_digits (strip_tag s)

-- `HexUInt.isValid0x`, which calls the tests of `Hex`
unfoldable pub is_valid0x : Text → Bool
unfolding has_hex_prefix Hex.is_valid
is_valid0x s = has_hex_prefix s && Hex.is_valid s

module _ (noble : Noble) where
  -- The body of the `try` of `HexInt.of`.
  int_of : IntExp → Result Hex
  unfolding Hex.of new_hex
  int_of (hex h) = ok (new_hex h.sign h.digits)
  int_of (number (int z)) = do h ← Hex.of noble (bigint z); ok (new_hex h.sign h.digits)
  int_of (number n) = err (invalid_data_type "HexInt.of")
  int_of (exp e) = do h ← Hex.of noble e; ok (new_hex h.sign h.digits)

  -- `HexInt.of`
  unfoldable pub of_int : IntExp → Result Hex
  unfolding int_of
  of_int e = catch_as (invalid_data_type "HexInt.of") (int_of e)

  -- The getter `n` of `HexInt`.
  unfoldable pub to_number : Hex → Result Number
  unfolding bi
  to_number h = elim (bi noble h) [
    | pos n ↦
        if leb n max_safe_integer then ok (int (pos n)) else err (invalid_data_type "HexInt.of")
    | negsuc n ↦
        if ltb n max_safe_integer then ok (int (negsuc n)) else err (invalid_data_type "HexInt.of")
  ]

  -- The test of the sign in `HexUInt.of`.
  unsigned : Hex → Result Hex
  unfolding new_hex
  unsigned h = elim h.sign [
    | positive ↦ ok (new_hex positive h.digits)
    | negative ↦ err (invalid_data_type "HexUInt.of")
  ]

  -- `HexUInt.of`
  unfoldable pub of_uint : IntExp → Result Hex
  unfolding of_int unsigned
  of_uint e = catch_as (invalid_data_type "HexUInt.of") (of_int e >>= unsigned)

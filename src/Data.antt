-- ===== src/Data.antt =====
-- packages/core/src/utils/data/data.ts: strings of 32 bytes. `TextEncoder` and `TextDecoder`, by which
-- `Txt` goes from strings to bytes and back, are parameters.
use vechain_sdk_js.Prelude.{
  ◌-◌, Bool, true, ◌&&◌, [], ◌∷◌, ◌++◌, length, replicate, ltb, ◌==◌, not, if◌then◌else◌,
}
use vechain_sdk_js.Result.{Result, ok, invalid_data_type, require, ◌>>=◌, ◌>>◌}
use vechain_sdk_js.Text.{Text, Bytes, matches_integer}
use vechain_sdk_js.Noble.{Noble}
use vechain_sdk_js.Vcdm.Hex
use vechain_sdk_js.Vcdm.Hex.{of_text, of, bytes, to_bytes, to_text}

pub record Utf8 : Type 0 where
  pub encode : Text → Bytes
  pub decode : Bytes → Text

unfoldable pub all_zero : Bytes → Bool
all_zero [] = true
all_zero (b ∷ bs) = b == 0 && all_zero bs

-- `subarray(firstNotZeroIndex)`, where there is a byte that is not zero
unfoldable pub drop_zeros : Bytes → Bytes
drop_zeros [] = []
drop_zeros (b ∷ bs) = let rest = drop_zeros bs in if b == 0 then rest else b ∷ bs

-- `subarray(0, firstZeroIndex)`, and all bytes where none is zero
unfoldable pub until_zero : Bytes → Bytes
until_zero [] = []
until_zero (b ∷ bs) = let rest = until_zero bs in if b == 0 then [] else b ∷ rest

-- The bytes that are decoded. Where all bytes are zero the index is -1, and `subarray(-1)` is the last
-- byte.
unfoldable pub unpadded : Bytes → Bytes
unfolding all_zero drop_zeros until_zero
unpadded [] = []
unpadded (b ∷ bs) =
    if b == 0 then (if all_zero bs then 0 ∷ [] else drop_zeros bs) else b ∷ until_zero bs

-- `zeroPadding`
pub data ZeroPadding : Type 0 where
  left right : ZeroPadding

unfoldable pub pad : ZeroPadding → Bytes → Bytes
pad left bs = replicate (32 - length bs) 0 ++ bs
pad right bs = bs ++ replicate (32 - length bs) 0

-- `isDecimalString`
unfoldable pub is_decimal_string : Text → Bool
unfolding matches_integer
is_decimal_string s = matches_integer s

module _ (noble : Noble) (utf8 : Utf8) where
  -- `decodeBytes32String`
  unfoldable pub decode_bytes32_string : Text → Result Text
  unfolding Hex.is_valid of_text to_bytes unpadded
  decode_bytes32_string hex = do
    require (Hex.is_valid hex) (invalid_data_type "dataUtils.decodeBytes32String()")
    h ← of_text hex
    require (length h.digits == 64) (invalid_data_type "dataUtils.decodeBytes32String()")
    bs ← to_bytes noble h
    ok (utf8.decode (unpadded bs))

  -- `encodeBytes32String`
  unfoldable pub encode_bytes32_string : ZeroPadding → Text → Result Text
  unfolding pad of to_text
  encode_bytes32_string padding value = do
    require (not (ltb 32 (length (utf8.encode value))))
        (invalid_data_type "dataUtils.encodeBytes32String()")
    hex ← of noble (bytes (pad padding (utf8.encode value)))
    ok (to_text hex)

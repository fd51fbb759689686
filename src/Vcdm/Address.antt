-- ===== src/Vcdm/Address.antt =====
-- packages/core/src/vcdm/Address.ts: 20-byte account addresses with the mixed-case checksum.
use vechain_sdk_js.Prelude.{
  ℕ, ◌-◌, Bool, true, ◌&&◌, [], ◌∷◌, length, drop, ltb, leb, ◌==◌, if◌then◌else◌,
}
use vechain_sdk_js.Result.{Result, ok, err, invalid_data_type, ◌>>=◌, rethrow_as}
use vechain_sdk_js.Text.{Text, Bytes, digit_value}
use vechain_sdk_js.Noble.{Noble}
use vechain_sdk_js.Crypto.{Crypto, derive_public_key, inflate_public_key, hash_of}
use vechain_sdk_js.Vcdm.Hex.{positive, Hex, is_valid0x, to_text, bytes, to_bytes}
use vechain_sdk_js.Vcdm.HexInt.{IntExp, exp, of_uint}

abbrev pub to_upper : ℕ → ℕ
to_upper c = if leb 97 c && leb c 122 then c - 32 else c

-- `Address.isValid`
unfoldable pub is_valid : Text → Bool
unfolding is_valid0x
is_valid s = is_valid0x s && length s == 42

-- The loop of `checksum`; past the end of the hash, `parseInt(undefined) > 7` is false.
unfoldable pub checksum_digits : Text → Text → Text
checksum_digits [] hash = []
checksum_digits (c ∷ s) [] = c ∷ checksum_digits s []
checksum_digits (c ∷ s) (h ∷ hash) =
    (if ltb 7 (digit_value h) then to_upper c else c) ∷ checksum_digits s hash

module _ (noble : Noble) (crypto : Crypto) where
  -- `checksum`, without the `0x` that it puts in front and `of` takes off again. The UTF-8 bytes of
  -- hexadecimal digits are their code units.
  unfoldable pub checksum : Text → Result Text
  unfolding hash_of checksum_digits
  checksum digits = do
    hash ← hash_of noble crypto.keccak_256 digits
    ok (checksum_digits digits hash.digits)

  address_of : IntExp → Result Hex
  unfolding of_uint is_valid to_text checksum
  address_of e = do
    huint ← of_uint noble e
    if is_valid (to_text huint)
        then (do digits ← checksum huint.digits; ok (record { sign = positive; digits = digits }))
        else err (invalid_data_type "Address.of")

  -- `Address.of`
  unfoldable pub of : IntExp → Result Hex
  unfolding address_of
  of e = rethrow_as (invalid_data_type "Address.of") (address_of e)

  -- `Address.ofPublicKey`
  unfoldable pub of_public_key : Bytes → Result Hex
  unfolding inflate_public_key hash_of to_bytes of
  of_public_key key = rethrow_as (invalid_data_type "Address.ofPublicKey") (do
    inflated ← inflate_public_key crypto key
    hash ← hash_of noble crypto.keccak_256 (drop 1 inflated)
    digest ← to_bytes noble hash
    of (exp (bytes (drop 12 digest))))

  -- `Address.ofPrivateKey`, with its default `isCompressed`; the error of an invalid key is kept.
  unfoldable pub of_private_key : Bytes → Result Hex
  unfolding derive_public_key of_public_key
  of_private_key private_key = do
    key ← derive_public_key crypto private_key true
    rethrow_as (invalid_data_type "Address.ofPrivateKey") (of_public_key key)

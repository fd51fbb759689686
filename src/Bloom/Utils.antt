-- ===== src/Bloom/Utils.antt =====
-- packages/core/src/utils/bloom/bloom.ts: filters of addresses, as hexadecimal texts.
use vechain_sdk_js.Prelude.{ℕ, suc, Bool, ◌&&◌, pos, List, [], ◌∷◌, length, leb, if◌then◌else◌}
use vechain_sdk_js.Result.{
  Result, ok, err, invalid_address, invalid_bloom, invalid_bloom_params, invalid_data_type, require,
  ◌>>=◌, ◌>>◌,
}
use vechain_sdk_js.Text.{Text, Bytes, is_hex_digits, strip_tag}
use vechain_sdk_js.Number.{Number, int}
use vechain_sdk_js.Noble.{Noble}
use vechain_sdk_js.Crypto.{Crypto}
use vechain_sdk_js.Vcdm.Hex
use vechain_sdk_js.Vcdm.Hex.{of_text, to_text, to_bytes}
use vechain_sdk_js.Vcdm.Address
use vechain_sdk_js.Bloom.{calculate_bits_per_key, add, generate, contains}

-- `isBloom`, `^(0x)?[0-9a-f]{16}$`
unfoldable pub is_bloom : Text → Bool
is_bloom s = is_hex_digits (strip_tag s) && leb 16 (length (strip_tag s))

-- `!Number.isInteger(k) || k <= 0`
abbrev pub positive_integer : Number → Result ℕ
positive_integer (int (pos (suc n))) = ok (suc n)
positive_integer _ = err (invalid_bloom_params "bloomUtils.isInBloom()")

module _ (noble : Noble) where
  -- The loop of `filterOf` over the addresses. The keys are arrays, which a set tells apart.
  unfoldable pub keys_of : List Text → Result (List Bytes)
  unfolding of_text Address.is_valid to_text to_bytes
  keys_of [] = ok []
  keys_of (address ∷ addresses) = do
    hex ← of_text address
    if Address.is_valid (to_text hex)
        then (do key ← to_bytes noble hex; keys ← keys_of addresses; ok (key ∷ keys))
        else keys_of addresses

  module _ (crypto : Crypto) where
    -- The calls of `add` for the keys, in their order.
    unfoldable pub add_all : List Bytes → List ℕ → Result (List ℕ)
    unfolding add
    add_all [] hashes = ok hashes
    add_all (key ∷ keys) hashes = do more ← add noble crypto key hashes; add_all keys more

    -- `filterOf`
    unfoldable pub filter_of : List Text → ℕ → Result Text
    unfolding keys_of add_all generate calculate_bits_per_key
    filter_of addresses k = do
      keys ← keys_of addresses
      hashes ← add_all keys []
      ok (noble.bytes_to_hex (generate hashes (calculate_bits_per_key k) k).0.bits)

    -- `isInBloom`
    unfoldable pub is_in_bloom : Text → Number → Text → Result Bool
    unfolding is_bloom Hex.is_valid of_text to_bytes contains
    is_in_bloom filter k data_ = do
      require (is_bloom filter) (invalid_bloom "bloomUtils.isInBloom()")
      require (Hex.is_valid data_) (invalid_data_type "bloomUtils.isInBloom()")
      rounds ← positive_integer k
      filter_hex ← of_text filter
      bits ← to_bytes noble filter_hex
      data_hex ← of_text data_
      key ← to_bytes noble data_hex
      contains noble crypto (record { bits = bits; k = rounds }) key

    -- `isAddressInBloom`
    unfoldable pub is_address_in_bloom : Text → Number → Text → Result Bool
    unfolding Address.is_valid is_in_bloom
    is_address_in_bloom filter k address = do
      require (Address.is_valid address) (invalid_address "bloomUtils.isAddressInBloom()")
      is_in_bloom filter k address

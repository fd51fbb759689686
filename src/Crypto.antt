-- ===== src/Crypto.antt =====
-- The cryptographic packages `@noble/hashes` and `@noble/curves/secp256k1`, parameters of the model,
-- and packages/core/src/secp256k1/secp256k1.ts and packages/core/src/hash, which wrap them.
pub mod Keys
use vechain_sdk_js.Prelude.{
  ℕ, ◌≡◌, ◌⊎◌, Bool, true, false, ◌||◌, [], ◌∷◌, ◌++◌, Option, none, some, length, take, get_elem?,
  All, ◌==◌, if◌then◌else◌,
}
use vechain_sdk_js.Result.{
  Result, ok, err, invalid_operation, invalid_secp256k1_signature, invalid_secp256k1_private_key,
  invalid_secp256k1_message_hash, require, ◌>>=◌, ◌>>◌, catch_as,
}
use vechain_sdk_js.Text.{Bytes}
use vechain_sdk_js.Text.Bytes.{IsByte}
use vechain_sdk_js.Noble.{Noble}
use vechain_sdk_js.Vcdm.Hex.{Hex, bytes, to_bytes}
use vechain_sdk_js.Vcdm.HexInt.{exp, of_uint}

-- `compact` is the 64 bytes of r and s, the `numberToBytesBE(r, 32)` and `numberToBytesBE(s, 32)` that
-- the source puts one after the other, and `recovery` the bit that tells the two public keys apart.
pub record Signature : Type 0 where
  pub compact : Bytes
  pub recovery : ℕ

pub record Crypto : Type 0 where
  pub blake2b : Bytes → Bytes
  pub keccak_256 : Bytes → Bytes
  pub is_valid_key : Bytes → Bool
  -- `getPublicKey(key, isCompressed)`
  pub get_public_key : Bytes → Bool → Bytes
  pub sign_hash : Bytes → Bytes → Signature
  -- `fromCompact(...).addRecoveryBit(...).recoverPublicKey(hash).toRawBytes(false)`, which may throw
  pub recover_public_key : Bytes → ℕ → Bytes → Result Bytes
  -- `fromHex(...)` of a compressed key, and `toRawBytes(false)`
  pub decompress : Bytes → Result Bytes
  -- the digests have 32 bytes
  pub blake2b-IsByte : (b : Bytes) → All IsByte (blake2b b)
  pub length-blake2b : (b : Bytes) → length (blake2b b) ≡ 32
  pub keccak_256-IsByte : (b : Bytes) → All IsByte (keccak_256 b)
  pub length-keccak_256 : (b : Bytes) → length (keccak_256 b) ≡ 32
  -- an uncompressed key has 65 bytes, the first of them 4; that of a compressed key is 2 or 3
  pub uncompressed : (k : Bytes) → get_elem? (get_public_key k false) 0 ≡ some 4
  pub uncompressed-IsByte : (k : Bytes) → All IsByte (get_public_key k false)
  pub compressed :
      (k : Bytes)
      → (get_elem? (get_public_key k true) 0 ≡ some 2)
        ⊎ (get_elem? (get_public_key k true) 0 ≡ some 3)
  pub length-compressed : (k : Bytes) → length (get_public_key k true) ≡ 33
  pub decompress-compressed :
      (k : Bytes)
      → is_valid_key k ≡ true
      → decompress (get_public_key k true) ≡ ok (get_public_key k false)
  pub length-compact : (h k : Bytes) → length (sign_hash h k).compact ≡ 64
  -- a signature gives back the public key of its signer
  pub recover-sign :
      (h k : Bytes)
      → is_valid_key k ≡ true
      → recover_public_key (sign_hash h k).compact (sign_hash h k).recovery h
        ≡ ok (get_public_key k false)

abbrev pub signature_length : ℕ
signature_length = 65

module _ (crypto : Crypto) where
  open crypto use {is_valid_key, get_public_key, sign_hash, recover_public_key, decompress}

  -- `derivePublicKey`
  unfoldable pub derive_public_key : Bytes → Bool → Result Bytes
  derive_public_key key is_compressed =
      if is_valid_key key
      then ok (get_public_key key is_compressed)
      else err invalid_secp256k1_private_key

  -- `inflatePublicKey`: the prefix 4 marks an uncompressed key.
  unfoldable pub inflate_public_key : Bytes → Result Bytes
  inflate_public_key [] = decompress []
  inflate_public_key (prefix ∷ rest) =
      if prefix == 4 then ok (prefix ∷ rest) else decompress (take 33 (prefix ∷ rest))

  unfoldable pub is_valid_message_hash : Bytes → Bool
  is_valid_message_hash hash = length hash == 32

  -- `sign`: r, s and the recovery bit, one byte
  unfoldable pub sign : Bytes → Bytes → Result Bytes
  unfolding is_valid_message_hash
  sign hash key = do
    require (is_valid_message_hash hash) invalid_secp256k1_message_hash
    require (is_valid_key key) invalid_secp256k1_private_key
    ok ((sign_hash hash key).compact ++ (sign_hash hash key).recovery ∷ [])

  -- The test of `sig[64]` in `recover`, and the call that follows it.
  recover_with : Bytes → Bytes → Option ℕ → Result Bytes
  recover_with hash sig none = err invalid_secp256k1_signature
  recover_with hash sig (some recovery) = do
    require (recovery == 0 || recovery == 1) invalid_secp256k1_signature
    recover_public_key (take 64 sig) recovery hash

  unfoldable pub recover : Bytes → Bytes → Result Bytes
  unfolding is_valid_message_hash recover_with
  recover hash sig = do
    require (is_valid_message_hash hash) invalid_secp256k1_message_hash
    require (length sig == signature_length) invalid_secp256k1_signature
    recover_with hash sig (get_elem? sig 64)

module _ (noble : Noble) where
  -- `Blake2b256.of` and `Keccak256.of` on bytes, for the digest that is given.
  unfoldable pub hash_of : (Bytes → Bytes) → Bytes → Result Hex
  unfolding of_uint to_bytes
  hash_of digest b = catch_as (invalid_operation "hash error") (do
    h ← of_uint noble (exp (bytes b))
    input ← to_bytes noble h
    of_uint noble (exp (bytes (digest input))))

-- ===== src/Signer/Messages.antt =====
-- VeChainPrivateKeySigner.signMessage and signTypedData of
-- packages/network/src/signer/signers/vechain-private-key-signer/vechain-private-key-signer.ts. A
-- message that is a string is given by its UTF-8 bytes, and typed data by the hash that
-- `TypedDataEncoder` of ethers makes of it.
use vechain_sdk_js.Prelude.{◌+◌, ◌%◌, [], ◌∷◌, ◌++◌, length}
use vechain_sdk_js.Result.{Result, ok, ◌>>=◌}
use vechain_sdk_js.Text.{Text, Bytes, codes}
use vechain_sdk_js.Noble.{Noble}
use vechain_sdk_js.Crypto
use vechain_sdk_js.Crypto.{Crypto, hash_of}
use vechain_sdk_js.Vcdm.Hex.{to_text, of, bytes, text, to_bytes}
use vechain_sdk_js.ThorClient.Http.{decimal}

-- `MESSAGE_PREFIX`
abbrev pub message_prefix : Bytes
message_prefix = 25 ∷ (codes "Ethereum Signed Message:" ++ 10 ∷ [])

-- `sign[sign.length - 1] += 27`, on an array of bytes
unfoldable pub add_to_last : Bytes → Bytes
add_to_last [] = []
add_to_last (b ∷ []) = (b + 27) % 256 ∷ []
add_to_last (b ∷ c ∷ bs) = b ∷ add_to_last (c ∷ bs)

-- The message in the envelope of EIP-191.
unfoldable pub envelope : Bytes → Bytes
unfolding decimal
envelope body = message_prefix ++ decimal (length body) ++ body

module _ (noble : Noble) (crypto : Crypto) where
  -- The signature of a hash, with 27 added to the recovery bit.
  unfoldable pub sign_hash : Bytes → Bytes → Result Text
  unfolding Crypto.sign add_to_last of to_text
  sign_hash hash key = do
    signature ← Crypto.sign crypto hash key
    hex ← of noble (bytes (add_to_last signature))
    ok (to_text hex)

  -- `signMessage`
  unfoldable pub sign_message : Bytes → Bytes → Result Text
  unfolding envelope hash_of to_bytes sign_hash
  sign_message body key = do
    hash ← hash_of noble crypto.keccak_256 (envelope body)
    digest ← to_bytes noble hash
    sign_hash digest key

  -- `signTypedData`
  unfoldable pub sign_typed_data : Text → Bytes → Result Text
  unfolding of to_bytes sign_hash
  sign_typed_data typed_hash key = do
    hash ← of noble (text typed_hash)
    digest ← to_bytes noble hash
    sign_hash digest key

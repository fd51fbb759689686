-- ===== src/Transaction/Signing.antt =====
-- The hashes, the signers and the identifier of a transaction (transaction.ts), and
-- packages/core/src/transaction/handlers/sign.ts.
use vechain_sdk_js.Prelude.{true, not, none, some, ◌++◌, take, drop, if◌then◌else◌}
use vechain_sdk_js.Result.{
  Result, ok, err, invalid_transaction_field, invalid_secp256k1_private_key,
  unavailable_transaction_field, not_delegated_transaction, require, ◌>>=◌, ◌>>◌,
}
use vechain_sdk_js.Text.{Text, Bytes, buffer_from_hex}
use vechain_sdk_js.Noble.{Noble}
use vechain_sdk_js.Crypto
use vechain_sdk_js.Crypto.{Crypto, hash_of, derive_public_key, recover}
use vechain_sdk_js.Vcdm.Hex.{to_text, to_bytes}
use vechain_sdk_js.Vcdm.Address
use vechain_sdk_js.Rlp.Profiler.{RlpCodec}
use vechain_sdk_js.Transaction.Body.{
  TransactionBody, Transaction, encode_unsigned, new_transaction, is_delegated,
}

module _ (noble : Noble) (crypto : Crypto) (codec : RlpCodec) where
  open crypto use {blake2b, is_valid_key}

  -- `Blake2b256.of(...).bytes`
  unfoldable pub blake2b256 : Bytes → Result Bytes
  unfolding hash_of to_bytes
  blake2b256 b = do h ← hash_of noble blake2b b; to_bytes noble h

  -- `getSignatureHash` with no argument, and with the address of the origin.
  unfoldable pub get_signature_hash : TransactionBody → Result Bytes
  unfolding encode_unsigned blake2b256
  get_signature_hash body = do b ← encode_unsigned noble codec body; blake2b256 b

  unfoldable pub get_signature_hash_for : TransactionBody → Text → Result Bytes
  unfolding Address.is_valid get_signature_hash blake2b256
  get_signature_hash_for body delegate_for = do
    require (Address.is_valid delegate_for) (invalid_transaction_field "delegateFor")
    hash ← get_signature_hash body
    blake2b256 (hash ++ buffer_from_hex (drop 2 delegate_for))

  -- `Address.ofPublicKey(...).toString()`
  unfoldable pub address_text : Bytes → Result Text
  unfolding Address.of_public_key to_text
  address_text key = do address ← Address.of_public_key noble crypto key; ok (to_text address)

  unfoldable pub origin_of : TransactionBody → Bytes → Result Text
  unfolding get_signature_hash recover address_text
  origin_of body signature = do
    hash ← get_signature_hash body
    key ← recover crypto hash (take 65 signature)
    address_text key

  -- The getter `origin`.
  unfoldable pub origin : Transaction → Result Text
  unfolding origin_of
  origin tx = elim tx.signature [
    | none ↦ err (unavailable_transaction_field "origin")
    | some signature ↦ origin_of tx.body signature
  ]

  unfoldable pub delegator_of : TransactionBody → Bytes → Result Text
  unfolding origin_of get_signature_hash_for recover address_text
  delegator_of body signature = do
    sender ← origin_of body signature
    hash ← get_signature_hash_for body sender
    key ← recover crypto hash (drop 65 signature)
    address_text key

  -- The getter `delegator`.
  unfoldable pub delegator : Transaction → Result Text
  unfolding is_delegated delegator_of
  delegator tx =
      if is_delegated tx
      then elim tx.signature [
        | none ↦ err (unavailable_transaction_field "delegator")
        | some signature ↦ delegator_of tx.body signature
      ]
      else err not_delegated_transaction

  unfoldable pub id_of : TransactionBody → Bytes → Result Text
  unfolding origin_of get_signature_hash hash_of to_text
  id_of body signature = do
    hash ← get_signature_hash body
    sender ← origin_of body signature
    h ← hash_of noble blake2b (hash ++ buffer_from_hex (drop 2 sender))
    ok (to_text h)

  -- The getter `id`.
  unfoldable pub id : Transaction → Result Text
  unfolding id_of
  id tx = elim tx.signature [
    | none ↦ err (unavailable_transaction_field "id")
    | some signature ↦ id_of tx.body signature
  ]

  -- `sign`
  unfoldable pub sign : TransactionBody → Bytes → Result Transaction
  unfolding new_transaction is_delegated get_signature_hash Crypto.sign
  sign body key = do
    require (is_valid_key key) invalid_secp256k1_private_key
    to_sign ← new_transaction body none
    require (not (is_delegated to_sign)) (invalid_transaction_field "delegator")
    hash ← get_signature_hash to_sign.body
    signature ← Crypto.sign crypto hash key
    new_transaction body (some signature)

  -- `signWithDelegator`
  unfoldable pub sign_with_delegator : TransactionBody → Bytes → Bytes → Result Transaction
  unfolding new_transaction is_delegated get_signature_hash get_signature_hash_for Crypto.sign
      derive_public_key address_text
  sign_with_delegator body signer_key delegator_key = do
    require (is_valid_key signer_key) invalid_secp256k1_private_key
    require (is_valid_key delegator_key) invalid_secp256k1_private_key
    to_sign ← new_transaction body none
    require (is_delegated to_sign) not_delegated_transaction
    hash ← get_signature_hash to_sign.body
    key ← derive_public_key crypto signer_key true
    sender ← address_text key
    delegated_hash ← get_signature_hash_for to_sign.body sender
    first ← Crypto.sign crypto hash signer_key
    second ← Crypto.sign crypto delegated_hash delegator_key
    new_transaction body (some (first ++ second))

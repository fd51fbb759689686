-- ===== src/Signer/PrivateKey.antt =====
-- packages/network/src/signer/signers/vechain-private-key-signer/vechain-private-key-signer.ts: the
-- signer of a private key with a provider.
use vechain_sdk_js.Prelude.{Bool, Option, none, some, List, ◌++◌}
use vechain_sdk_js.Result.{Result, ok, ◌>>=◌}
use vechain_sdk_js.Number.{Number}
use vechain_sdk_js.Text.{Text, Bytes, buffer_from_hex}
use vechain_sdk_js.Noble.{Noble}
use vechain_sdk_js.Crypto
use vechain_sdk_js.Crypto.{Crypto}
use vechain_sdk_js.Vcdm.Address
use vechain_sdk_js.Vcdm.Hex.{to_text, of, bytes}
use vechain_sdk_js.Rlp.Profiler.{RlpCodec}
use vechain_sdk_js.Transaction.Body.{TransactionBody, Transaction, new_transaction, encoded}
use vechain_sdk_js.Transaction.Signing.{get_signature_hash, sign, sign_with_delegator}
use vechain_sdk_js.Provider.Details.{TransactionClause}
use vechain_sdk_js.ThorClient.Http.{Http}
use vechain_sdk_js.ThorClient.Building.{Nonce}
use vechain_sdk_js.Signer.Populating.{TransactionRequestInput, checksum_of, populate_transaction}
use vechain_sdk_js.Signer.Delegation.{
  SignTransactionOptions, delegator_url, delegator_private_key, get_delegation_signature_using_url,
}

module _ (noble : Noble) (crypto : Crypto) (codec : RlpCodec) where
  -- `Address.ofPrivateKey(key).toString()`
  unfoldable pub address_of_key : Bytes → Result Text
  unfolding Address.of_private_key to_text
  address_of_key key = do address ← Address.of_private_key noble crypto key; ok (to_text address)

  -- `getAddress`
  unfoldable pub get_address : Bytes → Result Text
  unfolding address_of_key checksum_of
  get_address key = do address ← address_of_key key; checksum_of noble crypto address

  -- `Hex.of(transaction.encoded).toString()`
  unfoldable pub encoded_text : Transaction → Result Text
  unfolding encoded of to_text
  encoded_text tx = do raw ← encoded noble codec tx; hex ← of noble (bytes raw); ok (to_text hex)

  module _ (http : Http) where
    -- `_signWithDelegator`
    unfoldable pub sign_with_delegator_options :
        TransactionBody → Bytes → SignTransactionOptions → Result Text
    unfolding address_of_key new_transaction sign_with_delegator encoded_text get_signature_hash
        get_delegation_signature_using_url Crypto.sign
    sign_with_delegator_options body key (delegator_private_key delegator_key) = do
      origin_address ← address_of_key key
      unsigned_tx ← new_transaction body none
      tx ← sign_with_delegator noble crypto codec body key (buffer_from_hex delegator_key)
      encoded_text tx
    sign_with_delegator_options body key (delegator_url url) = do
      origin_address ← address_of_key key
      unsigned_tx ← new_transaction body none
      delegator_signature ←
          get_delegation_signature_using_url noble codec http (some (delegator_url url)) unsigned_tx
            origin_address
      hash ← get_signature_hash noble crypto codec unsigned_tx.body
      origin_signature ← Crypto.sign crypto hash key
      tx ← new_transaction unsigned_tx.body (some (origin_signature ++ delegator_signature))
      encoded_text tx

    unfoldable pub sign_populated :
        TransactionBody → Bytes → Option SignTransactionOptions → Result Text
    unfolding sign encoded_text sign_with_delegator_options
    sign_populated body key none = do tx ← sign noble crypto codec body key; encoded_text tx
    sign_populated body key (some delegator) = sign_with_delegator_options body key delegator

    -- `_signFlow`, for a signer with this key
    unfoldable pub sign_flow :
        (List TransactionClause → Text → Result Number)
        → Bytes
        → Bool
        → Nonce
        → TransactionRequestInput
        → Option SignTransactionOptions
        → Result Text
    unfolding get_address populate_transaction sign_populated
    sign_flow estimate_gas key enable_delegation nonce transaction delegator = do
      address ← get_address key
      body ←
          populate_transaction noble crypto http estimate_gas address enable_delegation nonce
            transaction
      sign_populated body key delegator

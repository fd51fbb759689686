-- ===== src/Signer/Delegation.antt =====
-- packages/network/src/thor-client/transactions/helpers/delegation-handler.ts
use vechain_sdk_js.Prelude.{Bool, true, false, Option, none, some, drop}
use vechain_sdk_js.Result.{Result, ok, err, not_delegated_transaction, ◌>>=◌}
use vechain_sdk_js.Text.{Text, Bytes, buffer_from_hex}
use vechain_sdk_js.Noble.{Noble}
use vechain_sdk_js.Vcdm.Hex.{to_text, of, bytes}
use vechain_sdk_js.Rlp.Profiler.{RlpCodec}
use vechain_sdk_js.Transaction.Body.{Transaction, encoded}
use vechain_sdk_js.ThorClient.Http.{Http}

-- `SignTransactionOptions`
pub data SignTransactionOptions : Type 0 where
  delegator_url delegator_private_key : Text → SignTransactionOptions

-- `isDelegated`; `null` and `undefined` are both `none`, which `delegatorOrNull` and
-- `delegatorOrUndefined` return as it is.
unfoldable pub is_delegated : Option SignTransactionOptions → Bool
is_delegated none = false
is_delegated (some delegator) = true

-- `Buffer.from(response.signature.slice(2), 'hex')`, with the `catch`
abbrev pub signature_of : Result Text → Result Bytes
signature_of (ok signature) = ok (buffer_from_hex (drop 2 signature))
signature_of (err e) = err not_delegated_transaction

module _ (noble : Noble) (codec : RlpCodec) (http : Http) where
  -- `_getDelegationSignature`
  unfoldable pub get_delegation_signature : Transaction → Text → Text → Result Bytes
  unfolding encoded of to_text
  get_delegation_signature tx url origin_address = do
    raw ← encoded noble codec tx
    hex ← of noble (bytes raw)
    signature_of (http.delegation_signature url origin_address (to_text hex))

  -- `getDelegationSignatureUsingUrl`
  unfoldable pub get_delegation_signature_using_url :
      Option SignTransactionOptions → Transaction → Text → Result Bytes
  unfolding get_delegation_signature
  get_delegation_signature_using_url (some (delegator_url url)) tx origin_address =
      get_delegation_signature tx url origin_address
  get_delegation_signature_using_url _ tx origin_address = err not_delegated_transaction

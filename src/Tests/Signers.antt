-- ===== src/Tests/Signers.antt =====
-- The signer of a private key, at concrete inputs.
use vechain_sdk_js.Prelude.{◌≡◌, ◌<◌, refl, subst, true, some, none, [], ◌∷◌, ◌++◌, All, arith}
use vechain_sdk_js.Result.{
  Result, ok, err, ◌>>=◌, require-eq-ok, ok-injective, invalid_secp256k1_message_hash,
  invalid_secp256k1_private_key,
}
use vechain_sdk_js.Text.{Text, Bytes, codes, buffer_from_hex}
use vechain_sdk_js.Text.Bytes.{IsByte, buffer_from_hex-hex_of_bytes}
use vechain_sdk_js.Crypto
use vechain_sdk_js.Transaction.Body.{encoded}
use vechain_sdk_js.Transaction.Signing.{get_signature_hash_for}
use vechain_sdk_js.ThorClient.Http.{Http}
use vechain_sdk_js.ThorClient.Sending.{send_raw_transaction}
use vechain_sdk_js.ThorClient.Sent.{text_of_bytes}
use vechain_sdk_js.Signer.Populating.{TransactionRequestInput, populate_call}
use vechain_sdk_js.Signer.Messages.{envelope, add_to_last}
use vechain_sdk_js.Signer.Delegation.{delegator_url}
use vechain_sdk_js.Signer.PrivateKey.{encoded_text, sign_with_delegator_options, sign_populated}
use vechain_sdk_js.Signer.Delegated.{
  Sponsors, sign_with_delegator_options-url, send_raw_transaction-sign_populated,
}
use vechain_sdk_js.Tests.Packages.{test_noble, test_crypto, test_codec, byte_of, zeros-IsByte}
use vechain_sdk_js.Tests.Bodies.{
  or_empty, recipient, plain_body, delegated_body, key, delegator_key, signed_tx, empty_transaction,
}
use vechain_sdk_js.Tests.Receipts.{test_http, test_clause}
use vechain_sdk_js.Tests.Transactions.{
  sign_check, signed_bytes, encoded_check, plain_body-IsTaggedBody, delegated_tx,
  sign_with_delegator_check,
}
use vechain_sdk_js.Tests.Sending.{all_bytes, all_bytes_lem, signed_bytes_check}

send_raw_transaction-sign_populated_example :
    (sign_populated test_noble test_crypto test_codec test_http plain_body key none
      >>= send_raw_transaction test_noble test_codec test_http)
    ≡ test_http.send_transaction (text_of_bytes signed_bytes)
send_raw_transaction-sign_populated_example =
    send_raw_transaction-sign_populated test_noble test_crypto test_codec test_http plain_body key
      signed_bytes signed_tx plain_body-IsTaggedBody sign_check encoded_check
      (all_bytes_lem signed_bytes signed_bytes_check)

-- A delegator that signs this body for any origin.
abbrev sponsor_answer : Text → Result Text
sponsor_answer sender = do
  hash ← get_signature_hash_for test_noble test_crypto test_codec delegated_body sender
  signature ← Crypto.sign test_crypto hash delegator_key
  ok (text_of_bytes signature)

abbrev sponsor_http : Http
sponsor_http = record test_http { delegation_signature = λ url sender raw. sponsor_answer sender }

delegator_byte : byte_of delegator_key < 256
delegator_byte = omega arith

sign-IsByte :
    (hash signature : Bytes)
    → Crypto.sign test_crypto hash delegator_key ≡ ok signature
    → All IsByte signature
unfolding Crypto.sign
sign-IsByte hash signature h =
    let (fits, h1) =
      require-eq-ok (Crypto.is_valid_message_hash test_crypto hash) invalid_secp256k1_message_hash _
        _ h in
    let (valid, h2) =
      require-eq-ok (test_crypto.is_valid_key delegator_key) invalid_secp256k1_private_key _ _ h1 in
    subst (All IsByte) (ok-injective h2) (delegator_byte, zeros-IsByte 64)

sponsor_http-Sponsors :
    Sponsors test_noble test_crypto test_codec sponsor_http
      (codes "https://sponsor")
      delegator_key
      delegated_body
sponsor_http-Sponsors sender b hash signature e is_hash is_signature = (
  text_of_bytes signature,
  rw (is_hash, is_signature) refl,
  buffer_from_hex-hex_of_bytes signature (sign-IsByte hash signature is_signature),
)

abbrev unsigned_bytes : Bytes
unsigned_bytes = or_empty (encoded test_noble test_codec (empty_transaction delegated_body))

unsigned_check :
    encoded test_noble test_codec (empty_transaction delegated_body) ≡ ok unsigned_bytes
unfolding encoded vechain_sdk_js.Rlp.Kinds.numeric_data vechain_sdk_js.Text.to_lower_case
    vechain_sdk_js.Text.hex_of_bytes vechain_sdk_js.Text.Positional.be_bytes
    vechain_sdk_js.Text.Positional.digits_of vechain_sdk_js.Rlp.Profiler.property
    vechain_sdk_js.Rlp.Kinds.compact_fixed_hex_blob_data vechain_sdk_js.Text.is_hex_digits
    vechain_sdk_js.Text.strip_tag vechain_sdk_js.Text.strip_sign
    vechain_sdk_js.Rlp.Kinds.optional_fixed_hex_blob_data vechain_sdk_js.Rlp.Kinds.hex_blob_data
    buffer_from_hex vechain_sdk_js.Rlp.Kinds.buffer_data
unsigned_check = refl

unsigned_bytes_check : all_bytes unsigned_bytes ≡ true
unfolding all_bytes encoded vechain_sdk_js.Rlp.Kinds.numeric_data vechain_sdk_js.Text.to_lower_case
    vechain_sdk_js.Text.hex_of_bytes vechain_sdk_js.Text.Positional.be_bytes
    vechain_sdk_js.Text.Positional.digits_of vechain_sdk_js.Rlp.Profiler.property
    vechain_sdk_js.Rlp.Kinds.compact_fixed_hex_blob_data vechain_sdk_js.Text.is_hex_digits
    vechain_sdk_js.Text.strip_tag vechain_sdk_js.Text.strip_sign
    vechain_sdk_js.Rlp.Kinds.optional_fixed_hex_blob_data vechain_sdk_js.Rlp.Kinds.hex_blob_data
    buffer_from_hex vechain_sdk_js.Rlp.Kinds.buffer_data
unsigned_bytes_check = refl

sign_with_delegator_options-url_example :
    sign_with_delegator_options test_noble test_crypto test_codec sponsor_http delegated_body key
      (delegator_url (codes "https://sponsor"))
    ≡ encoded_text test_noble test_crypto test_codec delegated_tx
sign_with_delegator_options-url_example =
    sign_with_delegator_options-url test_noble test_crypto test_codec sponsor_http delegated_body
      key delegator_key unsigned_bytes (codes "https://sponsor") delegated_tx sponsor_http-Sponsors
      unsigned_check (all_bytes_lem unsigned_bytes unsigned_bytes_check) sign_with_delegator_check

abbrev test_request : TransactionRequestInput
test_request = record {
  to = none;
  from = none;
  nonce = none;
  gas = none;
  gas_price_coef = none;
  payload = some (codes "0x00");
  value = none;
  clauses = some (test_clause ∷ []);
  depends_on = none;
  expiration = none;
  block_ref = none;
  chain_tag = none;
}

abbrev request_or :
    TransactionRequestInput → Result TransactionRequestInput → TransactionRequestInput
request_or other (ok tx) = tx
request_or other (err e) = other

abbrev populated_request : TransactionRequestInput
populated_request =
    request_or test_request (populate_call test_noble test_crypto recipient test_request)

envelope_check :
    envelope (codes "hello") ≡ 25 ∷ (codes "Ethereum Signed Message:" ++ 10 ∷ codes "5hello")
unfolding envelope vechain_sdk_js.Text.Positional.digits_of
envelope_check = refl

last_check : add_to_last (7 ∷ 1 ∷ []) ≡ 7 ∷ 28 ∷ []
unfolding add_to_last
last_check = refl

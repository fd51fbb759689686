-- ===== src/Tests/Transactions.antt =====
-- Transactions at concrete inputs.
use vechain_sdk_js.Prelude.{◌≡◌, refl, pos, false, Option, some, List, [], ◌∷◌}
use vechain_sdk_js.Result.{ok}
use vechain_sdk_js.Number.{int}
use vechain_sdk_js.Rlp.Profiler.{get_field}
use vechain_sdk_js.Text.{Bytes, starts_with_tag}
use vechain_sdk_js.Crypto.Keys.{HasPlainRecovery}
use vechain_sdk_js.Transaction.Body.{
  Reserved, new_transaction, encoded, is_signed, Transaction, encode_reserved_field,
}
use vechain_sdk_js.Transaction.Reserved.{IsReadBack, decode_reserved-encode_reserved}
use vechain_sdk_js.Transaction.Getters.{HasSameGetters, decode-HasSameGetters}
use vechain_sdk_js.Transaction.Decode.{decode}
use vechain_sdk_js.Transaction.Matched.{IsTaggedBody}
use vechain_sdk_js.Transaction.RoundTrip.{IsSame, decode-encoded}
use vechain_sdk_js.Transaction.Signing.{origin, delegator, address_text, sign, sign_with_delegator}
use vechain_sdk_js.Transaction.Signers.{origin-sign, delegator-sign_with_delegator}
use vechain_sdk_js.Tests.Packages.{test_noble, test_crypto, test_codec}
use vechain_sdk_js.Tests.Bodies.{
  or_empty, plain_body, delegated_body, key, delegator_key, tx_of, empty_transaction, signed_tx,
}

pub sign_check : sign test_noble test_crypto test_codec plain_body key ≡ ok signed_tx
unfolding sign starts_with_tag vechain_sdk_js.Text.strip_sign vechain_sdk_js.Text.is_hex_digits
    vechain_sdk_js.Text.strip_tag vechain_sdk_js.Text.buffer_from_hex
    vechain_sdk_js.Rlp.Kinds.numeric_data vechain_sdk_js.Rlp.Profiler.property
    vechain_sdk_js.Text.to_lower_case vechain_sdk_js.Text.hex_of_bytes
    vechain_sdk_js.Text.Positional.be_bytes vechain_sdk_js.Text.Positional.digits_of
    vechain_sdk_js.Rlp.Kinds.compact_fixed_hex_blob_data
    vechain_sdk_js.Rlp.Kinds.optional_fixed_hex_blob_data vechain_sdk_js.Rlp.Kinds.hex_blob_data
sign_check = refl

abbrev pub signed_bytes : Bytes
signed_bytes = or_empty (encoded test_noble test_codec signed_tx)

pub encoded_check : encoded test_noble test_codec signed_tx ≡ ok signed_bytes
unfolding encoded sign starts_with_tag vechain_sdk_js.Text.strip_sign
    vechain_sdk_js.Text.is_hex_digits vechain_sdk_js.Text.strip_tag
    vechain_sdk_js.Text.buffer_from_hex vechain_sdk_js.Rlp.Kinds.numeric_data
    vechain_sdk_js.Rlp.Profiler.property vechain_sdk_js.Text.to_lower_case
    vechain_sdk_js.Text.hex_of_bytes vechain_sdk_js.Text.Positional.be_bytes
    vechain_sdk_js.Text.Positional.digits_of vechain_sdk_js.Rlp.Kinds.compact_fixed_hex_blob_data
    vechain_sdk_js.Rlp.Kinds.optional_fixed_hex_blob_data vechain_sdk_js.Rlp.Kinds.hex_blob_data
    vechain_sdk_js.Rlp.Kinds.buffer_data
encoded_check = refl

pub new_transaction_check : new_transaction plain_body signed_tx.signature ≡ ok signed_tx
unfolding new_transaction sign starts_with_tag vechain_sdk_js.Text.strip_sign
    vechain_sdk_js.Text.is_hex_digits vechain_sdk_js.Text.strip_tag
    vechain_sdk_js.Text.buffer_from_hex vechain_sdk_js.Rlp.Kinds.numeric_data
    vechain_sdk_js.Rlp.Profiler.property vechain_sdk_js.Text.to_lower_case
    vechain_sdk_js.Text.hex_of_bytes vechain_sdk_js.Text.Positional.be_bytes
    vechain_sdk_js.Text.Positional.digits_of vechain_sdk_js.Rlp.Kinds.compact_fixed_hex_blob_data
    vechain_sdk_js.Rlp.Kinds.optional_fixed_hex_blob_data vechain_sdk_js.Rlp.Kinds.hex_blob_data
new_transaction_check = refl

pub plain_body-IsTaggedBody : IsTaggedBody plain_body
unfolding starts_with_tag get_field
plain_body-IsTaggedBody = record {
  depends_on = tt;
  clauses = ((refl, (tt, (refl, tt))), ((refl, (tt, (refl, tt))), tt));
}

decode-encoded_example :
    (other : Transaction) × (decode test_noble test_codec signed_bytes (is_signed signed_tx)
      ≡ ok other)
    × IsSame test_noble test_codec signed_tx other
decode-encoded_example =
    decode-encoded test_noble test_codec plain_body signed_tx.signature signed_tx signed_bytes
      new_transaction_check plain_body-IsTaggedBody encoded_check

decode-HasSameGetters_example :
    (other : Transaction) × (decode test_noble test_codec signed_bytes (is_signed signed_tx)
      ≡ ok other)
    × HasSameGetters test_noble test_crypto test_codec signed_tx other
decode-HasSameGetters_example =
    decode-HasSameGetters test_noble test_crypto test_codec plain_body signed_tx.signature signed_tx
      signed_bytes new_transaction_check plain_body-IsTaggedBody encoded_check

test-HasPlainRecovery : (k : Bytes) → HasPlainRecovery test_crypto k
test-HasPlainRecovery k h = refl

origin-sign_example :
    origin test_noble test_crypto test_codec signed_tx
    ≡ address_text test_noble test_crypto test_codec (test_crypto.get_public_key key false)
origin-sign_example =
    origin-sign test_noble test_crypto test_codec plain_body key signed_tx
      (test-HasPlainRecovery key) sign_check

abbrev pub delegated_tx : Transaction
delegated_tx =
    tx_of (sign_with_delegator test_noble test_crypto test_codec delegated_body key delegator_key)
      (empty_transaction delegated_body)

pub sign_with_delegator_check :
    sign_with_delegator test_noble test_crypto test_codec delegated_body key delegator_key
    ≡ ok delegated_tx
unfolding sign_with_delegator starts_with_tag vechain_sdk_js.Text.strip_sign
    vechain_sdk_js.Text.is_hex_digits vechain_sdk_js.Text.strip_tag
    vechain_sdk_js.Text.buffer_from_hex vechain_sdk_js.Rlp.Kinds.numeric_data
    vechain_sdk_js.Text.to_lower_case vechain_sdk_js.Text.hex_of_bytes
    vechain_sdk_js.Text.Positional.be_bytes vechain_sdk_js.Text.Positional.digits_of
    vechain_sdk_js.Rlp.Profiler.property vechain_sdk_js.Rlp.Kinds.compact_fixed_hex_blob_data
    vechain_sdk_js.Rlp.Kinds.optional_fixed_hex_blob_data vechain_sdk_js.Rlp.Kinds.hex_blob_data
    vechain_sdk_js.Rlp.Kinds.buffer_data
sign_with_delegator_check = refl

delegator-sign_with_delegator_example :
    (origin test_noble test_crypto test_codec delegated_tx
      ≡ address_text test_noble test_crypto test_codec (test_crypto.get_public_key key false))
    × (delegator test_noble test_crypto test_codec delegated_tx
        ≡ address_text test_noble test_crypto test_codec
            (test_crypto.get_public_key delegator_key false))
delegator-sign_with_delegator_example =
    delegator-sign_with_delegator test_noble test_crypto test_codec delegated_body key delegator_key
      delegated_tx (test-HasPlainRecovery key) (test-HasPlainRecovery delegator_key)
      sign_with_delegator_check

abbrev some_reserved : Option Reserved
some_reserved = some (record { features = some (int (pos 3)); unused = some ((7 ∷ []) ∷ [] ∷ []) })

abbrev reserved_bytes : List Bytes
reserved_bytes = (3 ∷ []) ∷ (7 ∷ []) ∷ []

reserved_check : encode_reserved_field test_noble some_reserved ≡ ok reserved_bytes
unfolding encode_reserved_field vechain_sdk_js.Rlp.Kinds.numeric_data
    vechain_sdk_js.Text.to_lower_case vechain_sdk_js.Text.hex_of_bytes
    vechain_sdk_js.Text.Positional.be_bytes vechain_sdk_js.Text.Positional.digits_of
    vechain_sdk_js.Text.buffer_from_hex
reserved_check = refl

decode_reserved-encode_reserved_example : IsReadBack test_noble some_reserved reserved_bytes
decode_reserved-encode_reserved_example =
    decode_reserved-encode_reserved test_noble some_reserved reserved_bytes reserved_check

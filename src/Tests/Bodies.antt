-- ===== src/Tests/Bodies.antt =====
-- A body with two clauses, plain and delegated, and two keys.
use vechain_sdk_js.Prelude.{pos, Option, none, some, [], replicate}
use vechain_sdk_js.Result.{Result, ok, err}
use vechain_sdk_js.Text.{Text, Bytes, codes}
use vechain_sdk_js.Number.{int}
use vechain_sdk_js.Rlp.Value.{Value, null, num, str, arr, obj, nil, cons, no_more, entry}
use vechain_sdk_js.Transaction.Body.{Reserved, TransactionBody, Transaction}
use vechain_sdk_js.Transaction.Signing.{sign}
use vechain_sdk_js.Tests.Packages.{test_noble, test_crypto, test_codec}

abbrev pub or_empty : Result Bytes → Bytes
or_empty (ok b) = b
or_empty (err e) = []

abbrev pub recipient : Text
recipient = codes "0x7567d83b7b8d80addcb281a71d54ac7b3364abed"

abbrev pub clause : Value → Value
clause data_ = obj (
    entry "to" (str recipient) (entry "value" (num (int (pos 10000))) (entry "data" data_ no_more)))

abbrev pub body_with : Option Reserved → TransactionBody
body_with reserved = record {
  chain_tag = num (int (pos 39));
  block_ref = str (codes "0x00000000aabbccdd");
  expiration = num (int (pos 32));
  clauses =
      arr (cons (clause (str (codes "0x000000606060"))) (cons (clause (str (codes "0x"))) nil));
  gas_price_coef = num (int (pos 128));
  gas = num (int (pos 21000));
  depends_on = null;
  nonce = num (int (pos 12345678));
  reserved = reserved;
}

abbrev pub plain_body : TransactionBody
plain_body = body_with none

abbrev pub delegated_body : TransactionBody
delegated_body = body_with (some (record { features = some (int (pos 1)); unused = none }))

abbrev pub key : Bytes
key = replicate 32 7

abbrev pub delegator_key : Bytes
delegator_key = replicate 32 9

abbrev pub empty_transaction : TransactionBody → Transaction
empty_transaction body = record { body = body; signature = none }

abbrev pub tx_of : Result Transaction → Transaction → Transaction
tx_of (ok tx) other = tx
tx_of (err e) other = other

abbrev pub signed_tx : Transaction
signed_tx =
    tx_of (sign test_noble test_crypto test_codec plain_body key) (empty_transaction plain_body)

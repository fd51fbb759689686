-- ===== src/Tests/Sending.antt =====
-- Building, sending and waiting for transactions, at concrete inputs.
use vechain_sdk_js.Prelude.{
  ℕ, zero, suc, ◌≡◌, ◌<◌, refl, pos, Bool, true, ◌&&◌, Option, some, none, [], ◌∷◌, ltb, All, arith,
  if◌then◌else◌,
}
use vechain_sdk_js.Result.{ok}
use vechain_sdk_js.Text.{Text, Bytes, codes}
use vechain_sdk_js.Text.Bytes.{IsByte}
use vechain_sdk_js.Number.{int}
use vechain_sdk_js.Transaction.Body.{TransactionBody}
use vechain_sdk_js.Provider.Details.{TransactionReceipt, CompressedBlockDetail}
use vechain_sdk_js.ThorClient.Http.{Http}
use vechain_sdk_js.ThorClient.Blocks.{get_genesis_block, get_best_block_compressed}
use vechain_sdk_js.ThorClient.Names.{resolve_names_in_clauses}
use vechain_sdk_js.ThorClient.Transactions.{get_transaction_receipt}
use vechain_sdk_js.ThorClient.Sending.{
  WaitForTransactionOptions, send_transaction, wait_for_transaction,
}
use vechain_sdk_js.ThorClient.Sent.{text_of_bytes, send_transaction-encoded}
use vechain_sdk_js.ThorClient.Awaited.{wait_for_transaction-found}
use vechain_sdk_js.ThorClient.BlockWaiting.{
  WaitForBlockOptions, compressed, wait_for_block_expanded,
}
use vechain_sdk_js.ThorClient.Building.{TransactionBodyOptions, build_transaction_body}
use vechain_sdk_js.ThorClient.Built.{IsBlockId, IsBuilt, is_true, build_transaction_body-IsBuilt}
use vechain_sdk_js.Tests.Packages.{test_noble, test_codec}
use vechain_sdk_js.Tests.Bodies.{plain_body, signed_tx}
use vechain_sdk_js.Tests.Receipts.{
  id_of, test_http, test_clause, test_header, first_transaction, receipt_of,
}
use vechain_sdk_js.Tests.Transactions.{
  signed_bytes, encoded_check, new_transaction_check, plain_body-IsTaggedBody,
}

unfoldable pub all_bytes : Bytes → Bool
all_bytes [] = true
all_bytes (b ∷ bs) = ltb b 256 && all_bytes bs

pub all_bytes_lem : (bs : Bytes) → all_bytes bs ≡ true → All IsByte bs
unfolding all_bytes
all_bytes_lem [] h = tt
all_bytes_lem (b ∷ bs) h =
    let first : b < 256 = ground (arith, h) in
    let rest : all_bytes bs ≡ true = ground (arith, h) in (first, all_bytes_lem bs rest)

pub signed_bytes_check : all_bytes signed_bytes ≡ true
unfolding all_bytes vechain_sdk_js.Transaction.Body.encoded vechain_sdk_js.Transaction.Signing.sign
    vechain_sdk_js.Text.starts_with_tag vechain_sdk_js.Text.strip_sign
    vechain_sdk_js.Text.is_hex_digits vechain_sdk_js.Text.strip_tag
    vechain_sdk_js.Text.buffer_from_hex vechain_sdk_js.Rlp.Kinds.numeric_data
    vechain_sdk_js.Rlp.Profiler.property vechain_sdk_js.Text.to_lower_case
    vechain_sdk_js.Text.hex_of_bytes vechain_sdk_js.Text.Positional.be_bytes
    vechain_sdk_js.Text.Positional.digits_of vechain_sdk_js.Rlp.Kinds.compact_fixed_hex_blob_data
    vechain_sdk_js.Rlp.Kinds.optional_fixed_hex_blob_data vechain_sdk_js.Rlp.Kinds.hex_blob_data
    vechain_sdk_js.Rlp.Kinds.buffer_data
signed_bytes_check = refl

abbrev bytes_of : Option Bytes → Bytes
bytes_of none = []
bytes_of (some b) = b

send_transaction-encoded_example :
    send_transaction test_noble test_codec test_http signed_tx
    ≡ test_http.send_transaction (text_of_bytes signed_bytes)
unfolding vechain_sdk_js.Transaction.Signing.sign vechain_sdk_js.Text.starts_with_tag
    vechain_sdk_js.Text.strip_sign vechain_sdk_js.Text.is_hex_digits vechain_sdk_js.Text.strip_tag
    vechain_sdk_js.Text.buffer_from_hex vechain_sdk_js.Rlp.Kinds.numeric_data
    vechain_sdk_js.Rlp.Profiler.property vechain_sdk_js.Text.to_lower_case
    vechain_sdk_js.Text.hex_of_bytes vechain_sdk_js.Text.Positional.be_bytes
    vechain_sdk_js.Text.Positional.digits_of vechain_sdk_js.Rlp.Kinds.compact_fixed_hex_blob_data
    vechain_sdk_js.Rlp.Kinds.optional_fixed_hex_blob_data vechain_sdk_js.Rlp.Kinds.hex_blob_data
send_transaction-encoded_example =
    send_transaction-encoded test_noble test_codec test_http plain_body
      (bytes_of signed_tx.signature) signed_tx signed_bytes new_transaction_check
      plain_body-IsTaggedBody encoded_check (all_bytes_lem signed_bytes signed_bytes_check)

-- A node that has the receipt from the third round on.
abbrev test_receipt : TransactionReceipt
test_receipt = receipt_of first_transaction

abbrev receipt_from : ℕ → Option TransactionReceipt
receipt_from i = if ltb i 2 then none else some test_receipt

abbrev later_http : ℕ → Http
later_http i = record test_http { transaction_receipt = λ path query. ok (receipt_from i) }

abbrev no_options : WaitForTransactionOptions
no_options = record { timeout_ms = none; interval_ms = none }

receipt_missing :
    (i : ℕ) → i < 2 → get_transaction_receipt (later_http i) (id_of b'a') none ≡ ok none
unfolding get_transaction_receipt vechain_sdk_js.Text.is_hex_digits vechain_sdk_js.Text.strip_tag
    vechain_sdk_js.Text.strip_sign vechain_sdk_js.Text.starts_with_tag
receipt_missing zero h = refl
receipt_missing (suc zero) h = refl
receipt_missing (suc (suc i)) h = absurd (omega (arith, h))

receipt_found : get_transaction_receipt (later_http 2) (id_of b'a') none ≡ ok (some test_receipt)
unfolding get_transaction_receipt vechain_sdk_js.Text.is_hex_digits vechain_sdk_js.Text.strip_tag
    vechain_sdk_js.Text.strip_sign vechain_sdk_js.Text.starts_with_tag
receipt_found = refl

wait_for_transaction-found_example :
    wait_for_transaction 3 later_http (λ i. pos i) (id_of b'a') no_options
    ≡ ok (some (record { result = ok (some test_receipt); iterations = 3 }))
unfolding vechain_sdk_js.Vcdm.ThorId.is_valid vechain_sdk_js.Text.is_hex_digits
    vechain_sdk_js.Text.strip_tag vechain_sdk_js.Text.strip_sign vechain_sdk_js.Text.starts_with_tag
wait_for_transaction-found_example =
    wait_for_transaction-found later_http (λ i. pos i) (id_of b'a') no_options refl 2 3 test_receipt
      refl refl receipt_missing receipt_found (omega arith)

abbrev digits : Text
digits = codes "00000000851caf3cfdb6e899cf5958bfb1ac3413d346d43539627e6be7ec1b4a"

abbrev test_genesis : CompressedBlockDetail
test_genesis = record {
  header = record test_header { id = b'0' ∷ b'x' ∷ digits };
  transactions = [];
}

abbrev genesis_http : Http
genesis_http = record test_http { compressed_block = λ path query. ok (some test_genesis) }

abbrev delegated_options : TransactionBodyOptions
delegated_options = record {
  block_ref = none;
  chain_tag = none;
  depends_on = none;
  expiration = none;
  gas_price_coef = none;
  is_delegated = some true;
  nonce = none;
}

digits-IsBlockId : IsBlockId (b'0' ∷ b'x' ∷ digits)
unfolding vechain_sdk_js.Text.is_hex_digits
digits-IsBlockId = record { digits = digits; tagged = refl; size = refl; hexadecimal = refl }

resolved_check : resolve_names_in_clauses genesis_http (test_clause ∷ []) ≡ ok (test_clause ∷ [])
unfolding resolve_names_in_clauses
resolved_check = refl

build_transaction_body-IsBuilt_example :
    (body : TransactionBody) × (build_transaction_body genesis_http
        (codes "0x01")
        (test_clause ∷ [])
        (int (pos 21000))
        delegated_options
      ≡ ok body)
    × IsBuilt body (is_true (some true))
unfolding get_genesis_block get_best_block_compressed vechain_sdk_js.Vcdm.Revision.is_valid_number
    vechain_sdk_js.Text.starts_with_tag vechain_sdk_js.Text.strip_sign
build_transaction_body-IsBuilt_example =
    build_transaction_body-IsBuilt genesis_http test_genesis test_genesis (test_clause ∷ [])
      (test_clause ∷ []) refl refl resolved_check digits-IsBlockId digits-IsBlockId (codes "0x01")
      (int (pos 21000)) delegated_options refl refl

-- The best block of the node has the number 7. A wait for an expanded block gives a compressed one.
abbrev block_options : WaitForBlockOptions
block_options = record { timeout_ms = none; interval_ms = none }

waited_check :
    wait_for_block_expanded 1 (λ i. test_http) (λ i. pos i) (pos 7) block_options
    ≡ ok (
        some (record {
          result = ok (some (compressed (record { header = test_header; transactions = [] })));
          iterations = 1;
        }))
unfolding wait_for_block_expanded vechain_sdk_js.Text.starts_with_tag vechain_sdk_js.Text.strip_sign
waited_check = refl

-- ===== src/ThorClient/Sending.antt =====
-- TransactionsModule.sendRawTransaction, sendTransaction and waitForTransaction of
-- packages/network/src/thor-client/transactions/transactions-module.ts. The answer of a node is the
-- identifier of the transaction.
use vechain_sdk_js.Prelude.{ℕ, ℤ, Bool, true, false, Option, none, some, drop}
use vechain_sdk_js.Result.{Result, ok, err, invalid_data_type, require, ◌>>=◌, ◌>>◌}
use vechain_sdk_js.Number.{Number}
use vechain_sdk_js.Text.{Text, buffer_from_hex}
use vechain_sdk_js.Noble.{Noble}
use vechain_sdk_js.Vcdm.Hex.{to_text, of, bytes, is_valid0x}
use vechain_sdk_js.Vcdm.ThorId
use vechain_sdk_js.Rlp.Profiler.{RlpCodec}
use vechain_sdk_js.Transaction.Body.{Transaction, is_signed, encoded}
use vechain_sdk_js.Transaction.Decode.{decode}
use vechain_sdk_js.Poll.{SyncPollInputOptions, Round, Waited, sync_poll, wait_until}
use vechain_sdk_js.Provider.Details.{TransactionReceipt}
use vechain_sdk_js.ThorClient.Http.{Http}
use vechain_sdk_js.ThorClient.Transactions.{get_transaction_receipt}

-- An error of decoding becomes an error of the argument.
abbrev pub wrap_decoding : Result Transaction → Result {0} Unit
wrap_decoding (ok tx) = ok tt
wrap_decoding (err e) = err (invalid_data_type "TransactionsModule.sendRawTransaction()")

module _ (noble : Noble) (codec : RlpCodec) (http : Http) where
  -- `sendRawTransaction`
  unfoldable pub send_raw_transaction : Text → Result Text
  unfolding is_valid0x decode
  send_raw_transaction raw = do
    require (is_valid0x raw) (invalid_data_type "TransactionsModule.sendRawTransaction()")
    wrap_decoding (decode noble codec (buffer_from_hex (drop 2 raw)) true)
    http.send_transaction raw

  -- `sendTransaction`
  unfoldable pub send_transaction : Transaction → Result Text
  unfolding is_signed encoded of to_text send_raw_transaction
  send_transaction signed_tx = do
    require (is_signed signed_tx) (invalid_data_type "TransactionsModule.sendTransaction()")
    raw ← encoded noble codec signed_tx
    hex ← of noble (bytes raw)
    send_raw_transaction (to_text hex)

-- `WaitForTransactionOptions`
pub record WaitForTransactionOptions : Type 0 where
  pub timeout_ms : Option Number
  pub interval_ms : Option Number

-- The options of the poll.
abbrev pub poll_options : WaitForTransactionOptions → SyncPollInputOptions
poll_options options = record {
  request_interval_in_milliseconds = options.interval_ms;
  maximum_iterations = none;
  maximum_waiting_time_in_milliseconds = options.timeout_ms;
}

-- `result !== null`
abbrev pub is_found : Option TransactionReceipt → Bool
is_found none = false
is_found (some receipt) = true

-- The rounds of the poll: the node answers in each of them, and the clock is given.
abbrev pub rounds_of : (ℕ → Http) → (ℕ → ℤ) → Text → ℕ → Round (Option TransactionReceipt)
rounds_of https clock id i = record {
  outcome = get_transaction_receipt (https i) id none;
  elapsed = clock i;
}

-- `waitForTransaction`, with at most so many rounds. `none` is a wait that has not ended by then.
unfoldable pub wait_for_transaction :
    ℕ
    → (ℕ → Http)
    → (ℕ → ℤ)
    → Text
    → WaitForTransactionOptions
    → Result (Option (Waited (Option TransactionReceipt)))
unfolding ThorId.is_valid sync_poll wait_until get_transaction_receipt
wait_for_transaction fuel https clock id options = do
  require (ThorId.is_valid id) (invalid_data_type "TransactionsModule.waitForTransaction()")
  iterations ← sync_poll (poll_options options)
  ok (wait_until (poll_options options) is_found (rounds_of https clock id) fuel 0 iterations)

-- ===== src/ThorClient/Transactions.antt =====
-- packages/network/src/thor-client/transactions/transactions-module.ts: the requests for a
-- transaction and for its receipt.
use vechain_sdk_js.Prelude.{Bool, true, false, Option, none, some, [], ◌∷◌}
use vechain_sdk_js.Result.{Result, invalid_data_type, require, ◌>>◌}
use vechain_sdk_js.Text.{Text, codes}
use vechain_sdk_js.Vcdm.ThorId
use vechain_sdk_js.Provider.Details.{TransactionDetail, TransactionDetailRaw, TransactionReceipt}
use vechain_sdk_js.ThorClient.Http.{
  text, bool, QueryValue, build_query, Http, transaction_path, transaction_receipt_path,
}

-- `GetTransactionInputOptions`
pub record GetTransactionInputOptions : Type 0 where
  pub head : Option Text
  pub pending : Option Bool

-- `options?.head !== undefined && !ThorId.isValid(options.head)`, negated
unfoldable pub is_head_valid : Option Text → Bool
unfolding ThorId.is_valid
is_head_valid none = true
is_head_valid (some head) = ThorId.is_valid head

abbrev pub text_value : Option Text → Option QueryValue
text_value none = none
text_value (some s) = some (text s)

abbrev pub bool_value : Option Bool → Option QueryValue
bool_value none = none
bool_value (some b) = some (bool b)

module _ (http : Http) where
  -- `getTransaction`
  unfoldable pub get_transaction :
      Text → GetTransactionInputOptions → Result (Option TransactionDetail)
  unfolding ThorId.is_valid is_head_valid build_query transaction_path
  get_transaction id options = do
    require (ThorId.is_valid id) (invalid_data_type "TransactionsModule.getTransaction()")
    require (is_head_valid options.head) (invalid_data_type "TransactionsModule.getTransaction()")
    http.transaction (transaction_path id) (
        build_query (
          (codes "raw", some (bool false))
          ∷ (codes "head", text_value options.head)
          ∷ (codes "pending", bool_value options.pending)
          ∷ []))

  -- `getTransactionRaw`, which names another method where the head is not valid
  unfoldable pub get_transaction_raw :
      Text → GetTransactionInputOptions → Result (Option TransactionDetailRaw)
  unfolding ThorId.is_valid is_head_valid build_query transaction_path
  get_transaction_raw id options = do
    require (ThorId.is_valid id) (invalid_data_type "TransactionsModule.getTransactionRaw()")
    require (is_head_valid options.head) (invalid_data_type "TransactionsModule.getTransaction()")
    http.transaction_raw (transaction_path id) (
        build_query (
          (codes "raw", some (bool true))
          ∷ (codes "head", text_value options.head)
          ∷ (codes "pending", bool_value options.pending)
          ∷ []))

  -- `getTransactionReceipt`, with the option `head`
  unfoldable pub get_transaction_receipt : Text → Option Text → Result (Option TransactionReceipt)
  unfolding ThorId.is_valid is_head_valid build_query transaction_receipt_path
  get_transaction_receipt id head = do
    require (ThorId.is_valid id) (invalid_data_type "TransactionsModule.getTransactionReceipt()")
    require (is_head_valid head) (invalid_data_type "TransactionsModule.getTransaction()")
    http.transaction_receipt (transaction_receipt_path id)
        (build_query ((codes "head", text_value head) ∷ []))

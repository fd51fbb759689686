-- ===== src/Provider/BlockReceipts.antt =====
-- The logs of all receipts of a block are numbered one after the other
-- (rpc-mapper/methods-map/methods/eth_getBlockReceipts/eth_getBlockReceipts.ts).
use vechain_sdk_js.Prelude.{◌≡◌, true, none, some, List, [], ◌∷◌, ◌++◌, length}
use vechain_sdk_js.Result.{ok}
use vechain_sdk_js.Text.{Text}
use vechain_sdk_js.Noble.{Noble}
use vechain_sdk_js.Vcdm.ThorId
use vechain_sdk_js.Provider.Details.{
  ExpandedTransaction, TransactionDetail, TransactionReceipt, ExpandedBlockDetail,
}
use vechain_sdk_js.Provider.Rpc.{TransactionReceiptRpc, TransactionReceiptLogsRpc}
use vechain_sdk_js.Provider.Indexes.{count_logs, count_all_logs, IsNew}
use vechain_sdk_js.Provider.NumberedReceipts.{IsPlaced, IsFormattable}
use vechain_sdk_js.ThorClient.Http.{Http}
use vechain_sdk_js.ThorClient.Blocks.{name, get_block_expanded}
use vechain_sdk_js.ThorClient.Transactions.{get_transaction, get_transaction_receipt}

-- The logs of receipts, in order.
unfoldable pub all_logs : List TransactionReceiptRpc → List TransactionReceiptLogsRpc
all_logs [] = []
all_logs (r ∷ rs) = r.logs ++ all_logs rs

-- No transaction has the identifier of one before it.
unfoldable pub AreNew : List ExpandedTransaction → List ExpandedTransaction → Type 0
AreNew before [] = Unit
AreNew before (tx ∷ after) = IsNew tx.id before × AreNew (before ++ tx ∷ []) after

-- The receipts are those of the transactions of a block from one on: one for each of them, in order,
-- with the index of its transaction, and as many logs as that has events and transfers, numbered from
-- the number of the logs of the transactions before it.
unfoldable pub ArePlaced :
    Noble
    → List ExpandedTransaction
    → List ExpandedTransaction
    → List TransactionReceiptRpc
    → Type 0
ArePlaced noble before [] [] = Unit
ArePlaced noble before [] (r ∷ rs) = ⊥
ArePlaced noble before (tx ∷ after) [] = ⊥
ArePlaced noble before (tx ∷ after) (r ∷ rs) =
    IsPlaced noble (length before) (count_all_logs before) (count_logs tx.outputs) r
    × ArePlaced noble (before ++ tx ∷ []) after rs

-- What a node answers about a transaction of a block: the receipt with the outputs of the block, the
-- same block for the receipt, and the details.
pub record Answers (http : Http) (block : ExpandedBlockDetail) (tx : ExpandedTransaction)
    : Type 0 where
  pub receipt : TransactionReceipt
  pub transaction : TransactionDetail
  pub valid : ThorId.is_valid tx.id ≡ true
  pub receipt_lem : get_transaction_receipt http tx.id none ≡ ok (some receipt)
  pub outputs_lem : receipt.outputs ≡ tx.outputs
  pub block_lem : get_block_expanded http (name receipt.meta.block_id) ≡ ok (some block)
  pub transaction_lem :
      get_transaction http tx.id (record { head = none; pending = none }) ≡ ok (some transaction)
  pub formattable : IsFormattable receipt transaction

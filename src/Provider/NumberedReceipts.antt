-- ===== src/Provider/NumberedReceipts.antt =====
-- A formatted receipt has the place of its transaction, and numbers its logs from the logs before it
-- (transactions/formatter.ts, helpers/transaction/transaction-helpers.ts).
use vechain_sdk_js.Prelude.{ℕ, ◌≡◌, refl, ◌∙◌, pos, Option, List, [], replicate, length, arith}
use vechain_sdk_js.Result.{ok}
use vechain_sdk_js.Text.{Text, codes}
use vechain_sdk_js.Number.{int}
use vechain_sdk_js.Noble.{Noble}
use vechain_sdk_js.Vcdm.Hex.{positive, new_hex, to_text, of}
use vechain_sdk_js.Provider.Details.{
  ExpandedTransaction, TransactionDetail, TransactionReceipt, BlockDetail, ExpandedBlockDetail,
}
use vechain_sdk_js.Provider.Rpc.{TransactionReceiptRpc, BlocksRpc}
use vechain_sdk_js.Provider.Formatters.{
  status_of, to_of_first, first_contract, get_transaction_index_into_block,
}
use vechain_sdk_js.Provider.Receipts.{
  LogState, push_outputs, get_number_of_logs_ahead, format_expanded_block,
  format_transaction_receipt,
}
use vechain_sdk_js.Provider.Indexes.{
  count_logs, count_all_logs, IsNew, block_of, get_transaction_index-before,
  get_number_of_logs_ahead-before,
}
use vechain_sdk_js.Provider.Numbering.{
  quantity_text, quantity_lem, IsNumbered, IsNumberedState, push_outputs-Numbers,
}

-- What a formatted receipt says of its transaction's place in the block: the index, and the numbers
-- of the logs.
pub record IsPlaced (noble : Noble) (index first count : ℕ) (r : TransactionReceiptRpc)
    : Type 0 where
  pub at : r.transaction_index ≡ quantity_text noble index
  pub numbered : IsNumbered noble first r.logs
  pub all : length r.logs ≡ count

-- A receipt whose numbers are not negative, with the clause that the formatter reads.
pub record IsFormattable (receipt : TransactionReceipt) (transaction : TransactionDetail)
    : Type 0 where
  pub block_number : ℕ
  pub gas_used : ℕ
  pub to : Option Text
  pub block_number_lem : receipt.meta.block_number ≡ int (pos block_number)
  pub gas_used_lem : receipt.gas_used ≡ int (pos gas_used)
  pub to_lem : to_of_first transaction.clauses ≡ ok to

module _ (noble : Noble) where
  abbrev start : ℕ → LogState
  start n = record { logs = []; log_index = n }

  start-IsNumberedState : (n : ℕ) → IsNumberedState noble n (start n)
  unfolding IsNumbered
  start-IsNumberedState n = record { numbered = tt; next = omega arith }

  abbrev receipt_rpc :
      (receipt : TransactionReceipt) (transaction : TransactionDetail)
      → IsFormattable receipt transaction
      → ℕ
      → LogState
      → TransactionReceiptRpc
  receipt_rpc receipt transaction f index state = record {
    block_hash = receipt.meta.block_id;
    block_number = quantity_text noble f.block_number;
    contract_address = first_contract receipt.outputs;
    cumulative_gas_used = codes "0x0";
    effective_gas_price = codes "0x0";
    from = transaction.origin;
    gas_used = quantity_text noble f.gas_used;
    logs = state.logs;
    logs_bloom = to_text (new_hex positive (noble.bytes_to_hex (replicate 256 0)));
    status = status_of receipt.reverted;
    to = f.to;
    transaction_hash = receipt.meta.tx_id;
    transaction_index = quantity_text noble index;
    type = codes "0x0";
  }

  format_transaction_receipt_lem :
      (hash : Text) (receipt : TransactionReceipt) (transaction : TransactionDetail)
      (block : ExpandedBlockDetail) (chain_id : Text) (b : BlocksRpc) (index offset : ℕ)
      (state : LogState) (f : IsFormattable receipt transaction)
      → format_expanded_block noble block chain_id ≡ ok b
      → get_transaction_index_into_block b hash ≡ ok index
      → get_number_of_logs_ahead noble block hash chain_id ≡ ok offset
      → push_outputs noble receipt index (start offset) receipt.outputs ≡ ok state
      → format_transaction_receipt noble hash receipt transaction block chain_id
        ≡ ok (receipt_rpc receipt transaction f index state)
  unfolding format_transaction_receipt of
  format_transaction_receipt_lem hash receipt transaction block chain_id b index offset state f
        formatted at ahead pushed =
      rw
        (
          formatted,
          at,
          ahead,
          pushed,
          f.block_number_lem,
          f.gas_used_lem,
          f.to_lem,
          quantity_lem noble f.block_number,
          quantity_lem noble f.gas_used,
          quantity_lem noble index,
        )
        refl

  -- If the block can be formatted, the identifier of a transaction of it is that of no transaction
  -- before it, the transaction has a clause, and the receipt's block number and gas are not negative,
  -- then the receipt is formatted, with the index that the transaction has in the block, and its logs
  -- are numbered one after the other from the number of the logs of the transactions before it.
  pub format_transaction_receipt-IsPlaced :
      (header : BlockDetail) (before : List ExpandedTransaction) (tx : ExpandedTransaction)
      (after : List ExpandedTransaction) (chain_id : Text) (b : BlocksRpc)
      (receipt : TransactionReceipt) (transaction : TransactionDetail)
      → IsNew tx.id before
      → format_expanded_block noble (block_of header before tx after) chain_id ≡ ok b
      → IsFormattable receipt transaction
      → (r : TransactionReceiptRpc) × (format_transaction_receipt noble tx.id receipt transaction
            (block_of header before tx after)
            chain_id
          ≡ ok r)
        × IsPlaced noble (length before) (count_all_logs before) (count_logs receipt.outputs) r
  format_transaction_receipt-IsPlaced header before tx after chain_id b receipt transaction new
        formatted f =
      let at = get_transaction_index-before noble header before tx after chain_id b new formatted in
      let ahead =
        get_number_of_logs_ahead-before noble header before tx after chain_id b new formatted in
      let first = count_all_logs before in
      let (state, pushed, h, all) =
        push_outputs-Numbers noble receipt (length before) f.block_number f.block_number_lem first
          receipt.outputs (start first) (start-IsNumberedState first) in
      (
        receipt_rpc receipt transaction f (length before) state,
        format_transaction_receipt_lem tx.id receipt transaction (block_of header before tx after)
            chain_id b (length before) first state f formatted at ahead pushed,
        record { at = refl; numbered = h.numbered; all = all ∙ omega arith },
      )

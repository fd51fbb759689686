-- ===== src/Provider/Receipts.antt =====
-- packages/network/src/provider/utils/formatter/blocks/formatter.ts and the receipts of
-- transactions/formatter.ts.
use vechain_sdk_js.Prelude.{ℕ, ◌+◌, pos, false, List, [], ◌∷◌, ◌++◌, replicate}
use vechain_sdk_js.Result.{Result, ok, ◌>>=◌}
use vechain_sdk_js.Text.{Text, codes}
use vechain_sdk_js.Number.{int}
use vechain_sdk_js.Noble.{Noble}
use vechain_sdk_js.Vcdm.Hex
use vechain_sdk_js.Vcdm.Hex.{bytes, to_text}
use vechain_sdk_js.Provider.Details.{
  Event, Output, TransactionDetail, TransactionReceipt, BlockDetail, ExpandedBlockDetail,
  CompressedBlockDetail,
}
use vechain_sdk_js.Provider.Rpc.{
  TransactionReceiptLogsRpc, TransactionReceiptRpc, hashes, details, TransactionsRpc, BlocksRpc,
}
use vechain_sdk_js.Provider.Formatters.{
  get_transaction_index_into_block, add_logs_below, status_of, first_contract, to_of_first,
  quantity, zero_text, format_all,
}

-- The logs of a receipt and the index of the next one.
pub record LogState : Type 0 where
  pub logs : List TransactionReceiptLogsRpc
  pub log_index : ℕ

-- `typeof block.transactions[0] === 'string' ? block.transactions : block.transactions.map(...)`
abbrev pub ids_rpc : List Text → TransactionsRpc
ids_rpc [] = details []
ids_rpc (id ∷ ids) = hashes (id ∷ ids)

module _ (noble : Noble) where
  -- `formatToRPCStandard` of a block, for the transactions that are given
  unfoldable pub format_block : BlockDetail → Result TransactionsRpc → Result BlocksRpc
  format_block block formatted = do
    transactions ← formatted
    number ← quantity noble block.number
    size ← quantity noble block.size
    timestamp ← quantity noble block.timestamp
    gas_limit ← quantity noble block.gas_limit
    gas_used ← quantity noble block.gas_used
    zero32 ← zero_text noble 32
    zero8 ← zero_text noble 8
    zero256 ← zero_text noble 256
    ok (record {
      number = number;
      hash = block.id;
      parent_hash = block.parent_id;
      transactions_root = block.txs_root;
      state_root = block.state_root;
      receipts_root = block.receipts_root;
      miner = block.beneficiary;
      gas_limit = gas_limit;
      gas_used = gas_used;
      timestamp = timestamp;
      sha3_uncles = zero32;
      nonce = zero8;
      logs_bloom = zero256;
      extra_data = codes "0x";
      size = size;
      transactions = transactions;
      difficulty = codes "0x0";
      total_difficulty = codes "0x0";
      uncles = [];
      base_fee_per_gas = codes "0x0";
      mix_hash = zero32;
    })

  unfoldable pub format_compressed_block : CompressedBlockDetail → Result BlocksRpc
  unfolding format_block
  format_compressed_block block = format_block block.header (ok (ids_rpc block.transactions))

  unfoldable pub format_expanded_block : ExpandedBlockDetail → Text → Result BlocksRpc
  unfolding format_block format_all
  format_expanded_block block chain_id =
      format_block block.header
        (do txs ← format_all noble block.transactions block.header 0 chain_id; ok (details txs))

  -- `getNumberOfLogsAheadOfTransactionIntoBlockExpanded`
  unfoldable pub get_number_of_logs_ahead : ExpandedBlockDetail → Text → Text → Result ℕ
  unfolding format_expanded_block get_transaction_index_into_block add_logs_below
  get_number_of_logs_ahead block transaction_id chain_id = do
    formatted ← format_expanded_block block chain_id
    transaction_index ← get_transaction_index_into_block formatted transaction_id
    ok (add_logs_below 0 transaction_index block.transactions)

  module _ (receipt : TransactionReceipt) (transaction_index : ℕ) where
    -- The body of the inner `forEach` of `formatTransactionReceiptToRPCStandard`
    unfoldable pub format_event : Event → ℕ → Result TransactionReceiptLogsRpc
    format_event event log_index = do
      block_number ← quantity noble receipt.meta.block_number
      index ← quantity noble (int (pos transaction_index))
      log ← quantity noble (int (pos log_index))
      ok (record {
        address = event.address;
        block_hash = receipt.meta.block_id;
        block_number = block_number;
        payload = event.payload;
        log_index = log;
        removed = false;
        topics = event.topics;
        transaction_hash = receipt.meta.tx_id;
        transaction_index = index;
      })

    unfoldable pub push_events : LogState → List Event → Result LogState
    unfolding format_event
    push_events state [] = ok state
    push_events state (event ∷ events) = do
      log ← format_event event state.log_index
      push_events (record { logs = state.logs ++ log ∷ []; log_index = state.log_index + 1 }) events

    unfoldable pub push_outputs : LogState → List Output → Result LogState
    unfolding push_events
    push_outputs state [] = ok state
    push_outputs state (output ∷ outputs) = do
      state' ← push_events state output.events
      push_outputs state' outputs

  -- `formatTransactionReceiptToRPCStandard`
  unfoldable pub format_transaction_receipt :
      Text
      → TransactionReceipt
      → TransactionDetail
      → ExpandedBlockDetail
      → Text
      → Result TransactionReceiptRpc
  format_transaction_receipt hash receipt transaction block chain_id = do
    formatted ← format_expanded_block block chain_id
    transaction_index ← get_transaction_index_into_block formatted hash
    offset ← get_number_of_logs_ahead block hash chain_id
    state ←
        push_outputs receipt transaction_index (record { logs = []; log_index = offset })
          receipt.outputs
    block_number ← quantity noble receipt.meta.block_number
    gas_used ← quantity noble receipt.gas_used
    to ← to_of_first transaction.clauses
    index ← quantity noble (int (pos transaction_index))
    bloom ← Hex.of noble (bytes (replicate 256 0))
    ok (record {
      block_hash = receipt.meta.block_id;
      block_number = block_number;
      contract_address = first_contract receipt.outputs;
      cumulative_gas_used = codes "0x0";
      effective_gas_price = codes "0x0";
      from = transaction.origin;
      gas_used = gas_used;
      logs = state.logs;
      logs_bloom = to_text bloom;
      status = status_of receipt.reverted;
      to = to;
      transaction_hash = receipt.meta.tx_id;
      transaction_index = index;
      type = codes "0x0";
    })

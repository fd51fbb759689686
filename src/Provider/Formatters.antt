-- ===== src/Provider/Formatters.antt =====
-- packages/network/src/provider/utils/formatter/blocks/formatter.ts, transactions/formatter.ts and
-- helpers/transaction/transaction-helpers.ts.
use mathlib.Core.Option
use vechain_sdk_js.Prelude.{
  ℕ, zero, suc, ◌+◌, pos, Bool, true, false, Option, none, some, List, [], ◌∷◌, length, replicate,
  if◌then◌else◌,
}
use vechain_sdk_js.Result.{Result, ok, err, invalid_data_type, type_error, ◌>>=◌}
use vechain_sdk_js.Text.{Text, codes, text_eq}
use vechain_sdk_js.Number.{Number, int}
use vechain_sdk_js.Noble.{Noble}
use vechain_sdk_js.Vcdm.Hex.{bytes, bigint, bi, to_text}
use vechain_sdk_js.Vcdm.HexInt.{IntExp, number, exp, of_uint}
use vechain_sdk_js.Vcdm.Quantity.{of_quantity}
use vechain_sdk_js.Provider.Details.{
  TransactionClause, Output, ExpandedTransaction, TransactionDetail, BlockDetail,
}
use vechain_sdk_js.Provider.Rpc.{TransactionRpc, hashes, details, TransactionsRpc, BlocksRpc}

-- `findIndex`; `none` is -1.
unfoldable pub find_index {ℓ} : {A : Type ℓ} → (A → Bool) → List A → Option ℕ
find_index test [] = none
find_index test (x ∷ xs) =
    let rest = find_index test xs in if test x then some 0 else Option.map suc rest

-- `getTransactionIndexIntoBlock`, on the transactions of the block
find_transaction : TransactionsRpc → Text → Option ℕ
unfolding find_index
find_transaction (hashes hs) hash = find_index (λ tx. text_eq tx hash) hs
find_transaction (details txs) hash = find_index (λ (tx : TransactionRpc). text_eq tx.hash hash) txs

abbrev pub or_not_found : Option ℕ → Result ℕ
or_not_found none = err (invalid_data_type "getTransactionIndexIntoBlock()")
or_not_found (some idx) = ok idx

unfoldable pub get_transaction_index_into_block : BlocksRpc → Text → Result ℕ
unfolding find_transaction
get_transaction_index_into_block block hash =
    or_not_found (find_transaction block.transactions hash)

-- The loop over the outputs of a transaction in `getNumberOfLogsAheadOfTransactionIntoBlockExpanded`
unfoldable pub add_logs : ℕ → List Output → ℕ
add_logs log_index [] = log_index
add_logs log_index (output ∷ outputs) = add_logs (log_index + length output.events) outputs

-- The loop over the transactions below an index, which is an index of the list.
unfoldable pub add_logs_below : ℕ → ℕ → List ExpandedTransaction → ℕ
unfolding add_logs
add_logs_below log_index zero txs = log_index
add_logs_below log_index (suc i) [] = log_index
add_logs_below log_index (suc i) (tx ∷ txs) = add_logs_below (add_logs log_index tx.outputs) i txs

-- `tx.clauses[0]?.data`, `to` and `value`
abbrev pub first_payload : List TransactionClause → Text
first_payload [] = []
first_payload (clause ∷ clauses) = clause.payload

abbrev pub first_to : List TransactionClause → Option Text
first_to [] = none
first_to (clause ∷ clauses) = clause.to

abbrev pub status_of : Bool → Text
status_of true = codes "0x0"
status_of false = codes "0x1"

abbrev pub first_contract : List Output → Option Text
first_contract [] = none
first_contract (output ∷ outputs) = output.contract_address

-- `transaction.clauses[0].to`
abbrev pub to_of_first : List TransactionClause → Result (Option Text)
to_of_first [] = err type_error
to_of_first (clause ∷ clauses) = ok clause.to

module _ (noble : Noble) where
  -- `Quantity.of(n).toString()`
  unfoldable pub quantity : Number → Result Text
  unfolding of_quantity to_text
  quantity n = do h ← of_quantity noble (number n); ok (to_text h)

  -- `Quantity.of(HexUInt.of(e).bi).toString()`
  unfoldable pub quantity_of : IntExp → Result Text
  unfolding of_uint bi of_quantity to_text
  quantity_of e = do
    huint ← of_uint noble e
    h ← of_quantity noble (exp (bigint (bi noble huint)))
    ok (to_text h)

  unfoldable pub first_value : List TransactionClause → Result Text
  unfolding quantity_of
  first_value [] = ok []
  first_value (clause ∷ clauses) = quantity_of clause.value

  -- `HexUInt.of(ZERO_BYTES(n)).toString()`
  unfoldable pub zero_text : ℕ → Result Text
  unfolding of_uint to_text
  zero_text n = do h ← of_uint noble (exp (bytes (replicate n 0))); ok (to_text h)

  -- What `_formatTransactionToRPC` reads of either of its two kinds of transactions.
  module _ (origin id nonce : Text) (gas : IntExp) (clauses : List TransactionClause) where
    -- `_formatTransactionToRPC`
    unfoldable pub format_transaction : Text → Number → Text → ℕ → Result TransactionRpc
    unfolding quantity quantity_of first_value
    format_transaction block_hash block_number chain_id tx_index = do
      block_quantity ← quantity block_number
      gas_quantity ← quantity_of gas
      index_quantity ← quantity (int (pos tx_index))
      value ← first_value clauses
      ok (record {
        hash = id;
        block_hash = block_hash;
        block_number = block_quantity;
        from = origin;
        to = first_to clauses;
        value = value;
        gas = gas_quantity;
        input = first_payload clauses;
        transaction_index = index_quantity;
        chain_id = chain_id;
        nonce = nonce;
        r = codes "0x0";
        s = codes "0x0";
        v = codes "0x0";
        type = codes "0x0";
        gas_price = codes "0x0";
        max_fee_per_gas = codes "0x0";
        max_priority_fee_per_gas = codes "0x0";
        access_list = [];
        y_parity = codes "0x0";
      })

  -- `formatToRPCStandard` of a transaction
  unfoldable pub format_transaction_detail : TransactionDetail → Text → ℕ → Result TransactionRpc
  unfolding format_transaction
  format_transaction_detail tx chain_id tx_index =
      format_transaction tx.origin tx.id tx.nonce tx.gas tx.clauses tx.meta.block_id
        tx.meta.block_number chain_id tx_index

  -- `formatExpandedBlockToRPCStandard`
  unfoldable pub format_expanded :
      ExpandedTransaction → BlockDetail → ℕ → Text → Result TransactionRpc
  unfolding format_transaction
  format_expanded tx block tx_index chain_id =
      format_transaction tx.origin tx.id tx.nonce tx.gas tx.clauses block.id block.number chain_id
        tx_index

  -- `block.transactions.map`, from an index on
  unfoldable pub format_all :
      List ExpandedTransaction → BlockDetail → ℕ → Text → Result (List TransactionRpc)
  unfolding format_expanded
  format_all [] block index chain_id = ok []
  format_all (tx ∷ txs) block index chain_id = do
    formatted ← format_expanded tx block index chain_id
    rest ← format_all txs block (suc index) chain_id
    ok (formatted ∷ rest)

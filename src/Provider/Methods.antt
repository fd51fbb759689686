-- ===== src/Provider/Methods.antt =====
-- packages/network/src/provider/utils/rpc-mapper/methods-map/methods: the JSON-RPC methods that read
-- blocks, transactions and receipts, and provider/utils/const/blocks/blocks.ts. A method calls the
-- others through `RPCMethodsMap`, which hands its parameters on.
use vechain_sdk_js.Prelude.{
  Bool, true, false, ◌||◌, Option, none, some, List, [], ◌∷◌, if◌then◌else◌,
}
use vechain_sdk_js.Result.{
  Result, ok, err, type_error, json_rpc_invalid_params, json_rpc_internal_error, require, ◌>>=◌,
  ◌>>◌, catch_as,
}
use vechain_sdk_js.Text.{Text, codes, text_eq}
use vechain_sdk_js.Noble.{Noble}
use vechain_sdk_js.Vcdm.ThorId
use vechain_sdk_js.Provider.Details.{
  TransactionDetail, TransactionReceipt, ExpandedBlockDetail, CompressedBlockDetail,
}
use vechain_sdk_js.Provider.Rpc.{
  TransactionRpc, TransactionReceiptRpc, hashes, details, TransactionsRpc, BlocksRpc,
}
use vechain_sdk_js.Provider.Formatters.{get_transaction_index_into_block, format_transaction_detail}
use vechain_sdk_js.Provider.Receipts.{
  format_compressed_block, format_expanded_block, format_transaction_receipt,
}
use vechain_sdk_js.ThorClient.Http.{Http}
use vechain_sdk_js.ThorClient.Blocks.{
  name, get_block_compressed, get_block_expanded, get_genesis_block,
}
use vechain_sdk_js.ThorClient.Transactions.{get_transaction, get_transaction_receipt}

-- A parameter, as far as these methods tell parameters apart.
pub data Param : Type 0 where
  string : Text → Param
  boolean : Bool → Param
  other : Param

-- `getCorrectBlockNumberRPCToVeChain` of a string. `Hex.of(0).toString()` lays out the eight bytes
-- of the double 0.
unfoldable pub get_correct_block_number : Text → Text
unfolding text_eq
get_correct_block_number block =
    if text_eq block (codes "latest")
      || text_eq block (codes "finalized")
      || text_eq block (codes "safe")
      || text_eq block (codes "pending")
    then codes "best"
    else if text_eq block (codes "earliest")
    then codes "0x0000000000000000"
    else block

-- `networkInfo.mainnet.genesisBlock.id`
abbrev pub mainnet_genesis_id : Text
mainnet_genesis_id = codes "0x00000000851caf3cfdb6e899cf5958bfb1ac3413d346d43539627e6be7ec1b4a"

-- `CHAIN_ID`
abbrev pub mainnet : Text
mainnet = codes "0x186a9"

abbrev pub testnet : Text
testnet = codes "0x186aa"

-- `block.transactions as TransactionRPC[]`; a block that was asked for with its transactions has them.
abbrev pub transaction_details : TransactionsRpc → List TransactionRpc
transaction_details (details txs) = txs
transaction_details (hashes hs) = []

-- The genesis block, which must be there.
abbrev pub require_block : Option CompressedBlockDetail → Result CompressedBlockDetail
require_block none = err (json_rpc_invalid_params "eth_chainId()")
require_block (some block) = ok block

module _ (noble : Noble) (http : Http) where
  -- `ethChainId`
  unfoldable pub eth_chain_id : Result Text
  unfolding get_genesis_block text_eq
  eth_chain_id = catch_as (json_rpc_internal_error "eth_chainId()") (do
    genesis ← get_genesis_block http
    block ← require_block genesis
    ok (if text_eq block.header.id mainnet_genesis_id then mainnet else testnet))

  format_compressed : Option CompressedBlockDetail → Result (Option BlocksRpc)
  unfolding format_compressed_block
  format_compressed none = ok none
  format_compressed (some block) = do b ← format_compressed_block noble block; ok (some b)

  unfoldable pub format_expanded : Text → Option ExpandedBlockDetail → Result (Option BlocksRpc)
  unfolding format_expanded_block
  format_expanded chain_id none = ok none
  format_expanded chain_id (some block) = do
    b ← format_expanded_block noble block chain_id
    ok (some b)

  -- The body of the `try` of `ethGetBlockByNumber`.
  unfoldable pub block_by_number : Text → Bool → Result (Option BlocksRpc)
  unfolding eth_chain_id get_block_expanded get_block_compressed get_correct_block_number
      format_compressed format_expanded
  block_by_number number true = do
    chain_id ← eth_chain_id
    block ← get_block_expanded http (name (get_correct_block_number number))
    format_expanded chain_id block
  block_by_number number false = do
    block ← get_block_compressed http (name (get_correct_block_number number))
    format_compressed block

  -- `ethGetBlockByNumber`
  unfoldable pub eth_get_block_by_number : List Param → Result (Option BlocksRpc)
  unfolding block_by_number
  eth_get_block_by_number (string number ∷ boolean is_tx_detail ∷ []) =
      catch_as (json_rpc_internal_error "eth_getBlockByNumber()")
        (block_by_number number is_tx_detail)
  eth_get_block_by_number _ = err (json_rpc_invalid_params "eth_getBlockByNumber")

  -- `ethGetBlockByHash`
  unfoldable pub eth_get_block_by_hash : List Param → Result (Option BlocksRpc)
  unfolding ThorId.is_valid eth_get_block_by_number
  eth_get_block_by_hash (string hash ∷ boolean is_tx_detail ∷ []) =
      if ThorId.is_valid hash
      then catch_as (json_rpc_internal_error "eth_getBlockByHash()")
          (eth_get_block_by_number (string hash ∷ boolean is_tx_detail ∷ []))
      else err (json_rpc_invalid_params "eth_getBlockByHash")
  eth_get_block_by_hash _ = err (json_rpc_invalid_params "eth_getBlockByHash")

  -- `block` is cast from `null`, so reading it fails.
  abbrev not_null {ℓ} : {A : Type ℓ} → Option A → Result A
  not_null none = err type_error
  not_null (some a) = ok a

  transaction_by_hash : Text → Option TransactionDetail → Result (Option TransactionRpc)
  unfolding eth_get_block_by_number eth_chain_id get_transaction_index_into_block
      format_transaction_detail
  transaction_by_hash hash none = ok none
  transaction_by_hash hash (some tx) = do
    found ← eth_get_block_by_number (string tx.meta.block_id ∷ boolean false ∷ [])
    block ← not_null found
    tx_index ← get_transaction_index_into_block block hash
    chain_id ← eth_chain_id
    formatted ← format_transaction_detail noble tx chain_id tx_index
    ok (some formatted)

  -- `ethGetTransactionByHash`
  unfoldable pub eth_get_transaction_by_hash : List Param → Result (Option TransactionRpc)
  unfolding get_transaction transaction_by_hash
  eth_get_transaction_by_hash (string hash ∷ []) =
      catch_as (json_rpc_internal_error "eth_getTransactionByHash()") (do
        tx ← get_transaction http hash (record { head = none; pending = none })
        transaction_by_hash hash tx)
  eth_get_transaction_by_hash _ = err (json_rpc_invalid_params "eth_getTransactionByHash")

  -- The end of `ethGetTransactionReceipt`.
  unfoldable pub format_found :
      Text
      → TransactionReceipt
      → Option ExpandedBlockDetail
      → Option TransactionDetail
      → Text
      → Result (Option TransactionReceiptRpc)
  format_found hash receipt found none chain_id = ok none
  format_found hash receipt found (some transaction) chain_id = do
    block ← not_null found
    r ← format_transaction_receipt noble hash receipt transaction block chain_id
    ok (some r)

  -- What follows the request of the receipt in `ethGetTransactionReceipt`.
  unfoldable pub format_receipt :
      Text → Option TransactionReceipt → Result (Option TransactionReceiptRpc)
  format_receipt hash none = ok none
  format_receipt hash (some receipt) = do
    found ← get_block_expanded http (name receipt.meta.block_id)
    detail ← get_transaction http hash (record { head = none; pending = none })
    chain_id ← eth_chain_id
    format_found hash receipt found detail chain_id

  -- `ethGetTransactionReceipt`
  unfoldable pub eth_get_transaction_receipt : List Param → Result (Option TransactionReceiptRpc)
  unfolding ThorId.is_valid
  eth_get_transaction_receipt (string hash ∷ []) = do
    require (ThorId.is_valid hash) (json_rpc_invalid_params "eth_getTransactionReceipt")
    catch_as (json_rpc_internal_error "eth_getTransactionReceipt()")
        (do receipt ← get_transaction_receipt http hash none; format_receipt hash receipt)
  eth_get_transaction_receipt _ = err (json_rpc_invalid_params "eth_getTransactionReceipt")

  -- The loop of `ethGetBlockReceipts`. A receipt that is `null` stays in the list.
  unfoldable pub receipts_of : List TransactionRpc → Result (List (Option TransactionReceiptRpc))
  receipts_of [] = ok []
  receipts_of (tx ∷ txs) = do
    receipt ← eth_get_transaction_receipt (string tx.hash ∷ [])
    rest ← receipts_of txs
    ok (receipt ∷ rest)

  block_receipts : Option BlocksRpc → Result (Option (List (Option TransactionReceiptRpc)))
  block_receipts none = ok none
  block_receipts (some block) = do
    receipts ← receipts_of (transaction_details block.transactions)
    ok (some receipts)

  -- `ethGetBlockReceipts`
  unfoldable pub eth_get_block_receipts :
      List Param → Result (Option (List (Option TransactionReceiptRpc)))
  unfolding block_receipts
  eth_get_block_receipts (string number ∷ []) =
      catch_as (json_rpc_internal_error "ethGetBlockReceipts()") (do
        block ← eth_get_block_by_number (string number ∷ boolean true ∷ [])
        block_receipts block)
  eth_get_block_receipts _ = err (json_rpc_invalid_params "eth_getBlockReceipts")

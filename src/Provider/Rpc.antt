-- ===== src/Provider/Rpc.antt =====
-- packages/network/src/provider/utils/formatter: the JSON-RPC types of blocks, transactions and
-- receipts (blocks/types.d.ts, transactions/types.d.ts).
use vechain_sdk_js.Prelude.{Bool, Option, List}
use vechain_sdk_js.Text.{Text}

pub record TransactionRpc : Type 0 where
  pub hash : Text
  pub block_hash : Text
  pub block_number : Text
  pub from : Text
  pub to : Option Text
  pub value : Text
  pub gas : Text
  pub input : Text
  pub transaction_index : Text
  pub chain_id : Text
  pub nonce : Text
  pub r : Text
  pub s : Text
  pub v : Text
  pub type : Text
  pub gas_price : Text
  pub max_fee_per_gas : Text
  pub max_priority_fee_per_gas : Text
  pub access_list : List Text
  pub y_parity : Text

pub record TransactionReceiptLogsRpc : Type 0 where
  pub address : Text
  pub block_hash : Text
  pub block_number : Text
  pub payload : Text
  pub log_index : Text
  pub removed : Bool
  pub topics : List Text
  pub transaction_hash : Option Text
  pub transaction_index : Text

pub record TransactionReceiptRpc : Type 0 where
  pub block_hash : Text
  pub block_number : Text
  pub contract_address : Option Text
  pub cumulative_gas_used : Text
  pub effective_gas_price : Text
  pub from : Text
  pub gas_used : Text
  pub logs : List TransactionReceiptLogsRpc
  pub logs_bloom : Text
  pub status : Text
  pub to : Option Text
  pub transaction_hash : Option Text
  pub transaction_index : Text
  pub type : Text

-- `transactions` of a block: hashes, or whole transactions.
pub data TransactionsRpc : Type 0 where
  hashes : List Text → TransactionsRpc
  details : List TransactionRpc → TransactionsRpc

pub record BlocksRpc : Type 0 where
  pub number : Text
  pub hash : Text
  pub parent_hash : Text
  pub transactions_root : Text
  pub state_root : Text
  pub receipts_root : Text
  pub miner : Text
  pub gas_limit : Text
  pub gas_used : Text
  pub timestamp : Text
  pub sha3_uncles : Text
  pub nonce : Text
  pub logs_bloom : Text
  pub extra_data : Text
  pub size : Text
  pub transactions : TransactionsRpc
  pub difficulty : Text
  pub total_difficulty : Text
  pub uncles : List Text
  pub base_fee_per_gas : Text
  pub mix_hash : Text

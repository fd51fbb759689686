-- ===== src/Provider/Details.antt =====
-- packages/network/src/thor-client: what a VeChainThor node answers (blocks/types.d.ts,
-- transactions/types.d.ts, logs/types.d.ts). Strings are texts, `null` and a missing member are
-- `none`, and the member `data` is called `payload`.
use vechain_sdk_js.Prelude.{Bool, Option, List}
use vechain_sdk_js.Text.{Text}
use vechain_sdk_js.Number.{Number}
use vechain_sdk_js.Vcdm.HexInt.{IntExp}

pub record TransactionClause : Type 0 where
  pub to : Option Text
  pub value : IntExp
  pub payload : Text

pub record Event : Type 0 where
  pub address : Text
  pub topics : List Text
  pub payload : Text

pub record Transfer : Type 0 where
  pub sender : Text
  pub recipient : Text
  pub amount : Text

pub record Output : Type 0 where
  pub contract_address : Option Text
  pub events : List Event
  pub transfers : List Transfer

pub record TransactionMetadata : Type 0 where
  pub block_id : Text
  pub block_number : Number
  pub block_timestamp : Number
  pub tx_id : Option Text
  pub tx_origin : Option Text

-- `TransactionsExpandedBlockDetail`
pub record ExpandedTransaction : Type 0 where
  pub id : Text
  pub chain_tag : Text
  pub block_ref : Text
  pub expiration : Number
  pub clauses : List TransactionClause
  pub gas_price_coef : Number
  pub gas : IntExp
  pub origin : Text
  pub delegator : Text
  pub nonce : Text
  pub depends_on : Text
  pub size : Number
  pub gas_used : Number
  pub gas_payer : Text
  pub paid : Text
  pub reward : Text
  pub reverted : Bool
  pub outputs : List Output

-- `TransactionDetailRaw`, where `meta` has no identifier and no origin of the transaction
pub record TransactionDetailRaw : Type 0 where
  pub raw : Text
  pub meta : TransactionMetadata

-- `TransactionDetailNoRaw`, with the members of the body that the formatters read.
pub record TransactionDetail : Type 0 where
  pub id : Text
  pub origin : Text
  pub delegator : Option Text
  pub size : Number
  pub meta : TransactionMetadata
  pub clauses : List TransactionClause
  pub gas : IntExp
  pub nonce : Text

pub record TransactionReceipt : Type 0 where
  pub gas_used : Number
  pub gas_payer : Text
  pub paid : Text
  pub reward : Text
  pub reverted : Bool
  pub outputs : List Output
  pub meta : TransactionMetadata

pub record BlockDetail : Type 0 where
  pub id : Text
  pub number : Number
  pub size : Number
  pub parent_id : Text
  pub timestamp : Number
  pub gas_limit : Number
  pub beneficiary : Text
  pub gas_used : Number
  pub total_score : Number
  pub txs_root : Text
  pub txs_features : Option Number
  pub state_root : Text
  pub receipts_root : Text
  pub signer : Text
  pub committed : Option Bool
  pub is_finalized : Option Bool
  pub is_trunk : Bool

pub record ExpandedBlockDetail : Type 0 where
  pub header : BlockDetail
  pub transactions : List ExpandedTransaction

pub record CompressedBlockDetail : Type 0 where
  pub header : BlockDetail
  pub transactions : List Text

-- ===== src/Provider/LogDetails.antt =====
-- packages/network/src/thor-client/logs/types.d.ts: filters of logs, and logs.
use vechain_sdk_js.Prelude.{Option, List}
use vechain_sdk_js.Text.{Text}
use vechain_sdk_js.Number.{Number}

-- `Metadata`
pub record LogMetadata : Type 0 where
  pub block_id : Text
  pub block_number : Number
  pub block_timestamp : Number
  pub tx_id : Text
  pub tx_origin : Text
  pub clause_index : Number

-- `EventLogs`, less `decodedData`
pub record EventLogs : Type 0 where
  pub address : Text
  pub topics : List Text
  pub payload : Text
  pub meta : LogMetadata

pub record EventCriteria : Type 0 where
  pub address : Option Text
  pub topic0 : Option Text
  pub topic1 : Option Text
  pub topic2 : Option Text
  pub topic3 : Option Text
  pub topic4 : Option Text

-- `range`, of blocks
pub record Range : Type 0 where
  pub from : Number
  pub to : Number

-- `FilterRawEventLogsOptions`, in ascending order, with `options.offset` and `options.limit`
pub record FilterRawEventLogsOptions : Type 0 where
  pub range : Range
  pub criteria_set : List EventCriteria
  pub offset : Number
  pub limit : Number

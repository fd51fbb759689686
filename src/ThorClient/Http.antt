-- ===== src/ThorClient/Http.antt =====
-- packages/network/src/utils/http/http-client.ts as the other modules see it, and the endpoints of
-- utils/thorest/thorest.ts. The answers of a node come over the network, so they are a parameter: a
-- function for each type that the code casts an answer to. `null` is `none`.
use vechain_sdk_js.Prelude.{
  ℕ, ◌+◌, Bool, Option, none, some, List, [], ◌∷◌, ◌++◌, map, if◌then◌else◌, ◌==◌,
}
use vechain_sdk_js.Result.{Result}
use vechain_sdk_js.Text.{Text, codes}
use vechain_sdk_js.Text.Positional.{digits_of}
use vechain_sdk_js.Provider.LogDetails.{EventLogs, FilterRawEventLogsOptions}
use vechain_sdk_js.Provider.Details.{
  TransactionDetail, TransactionDetailRaw, TransactionReceipt, ExpandedBlockDetail,
  CompressedBlockDetail,
}

-- The value of a member of a query; a member that is missing is left out of the request.
pub data QueryValue : Type 0 where
  text : Text → QueryValue
  bool : Bool → QueryValue

abbrev pub Query : Type 0
Query = List (Text × QueryValue)

-- `buildQuery`: the members of `params` that are not undefined
unfoldable pub build_query : List (Text × Option QueryValue) → Query
build_query [] = []
build_query ((key, none) ∷ params) = build_query params
build_query ((key, some value) ∷ params) = (key, value) ∷ build_query params

pub record Http : Type 0 where
  pub compressed_block : Text → Query → Result (Option CompressedBlockDetail)
  pub expanded_block : Text → Query → Result (Option ExpandedBlockDetail)
  pub transaction : Text → Query → Result (Option TransactionDetail)
  pub transaction_raw : Text → Query → Result (Option TransactionDetailRaw)
  pub transaction_receipt : Text → Query → Result (Option TransactionReceipt)
  -- what the contract at an address answers to `getAddresses(names)`, which `executeCall` encodes and
  -- decodes with the ABI coder of ethers
  pub get_addresses : Text → List Text → Result (List Text)
  -- what it answers to `getNames(addresses)`
  pub get_names : Text → List Text → Result (List Text)
  -- the signature in the answer of a delegator to a `POST` of `{ origin, raw }` to its URL
  pub delegation_signature : Text → Text → Text → Result Text
  -- the identifier in the answer to a `POST` of `{ raw }` to `/transactions`
  pub send_transaction : Text → Result Text
  -- the answer to a `POST` of the filter
  pub event_logs : Text → FilterRawEventLogsOptions → Result (List EventLogs)

-- `${n}` of a number below 10^21
unfoldable pub decimal : ℕ → Text
decimal n = if n == 0 then b'0' ∷ [] else map (λ (d : ℕ). d + 48) (digits_of 10 n)

-- `BLOCK_DETAIL`, `TRANSACTION` and `TRANSACTION_RECEIPT`
unfoldable pub block_detail : Text → Text
block_detail revision = codes "/blocks/" ++ revision

unfoldable pub transaction_path : Text → Text
transaction_path id = codes "/transactions/" ++ id

unfoldable pub transaction_receipt_path : Text → Text
transaction_receipt_path id = codes "/transactions/" ++ id ++ codes "/receipt"

-- `EVENT_LOGS`
unfoldable pub event_logs_path : Text
event_logs_path = codes "/logs/event"

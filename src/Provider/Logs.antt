-- ===== src/Provider/Logs.antt =====
-- packages/network/src/provider/utils/formatter/logs/formatter.ts and the method eth_getLogs.
use vechain_sdk_js.Prelude.{
  pos, negate, Bool, true, false, Option, none, some, List, [], ◌∷◌, ◌++◌, map, get_elem?,
  if◌then◌else◌,
}
use vechain_sdk_js.Result.{Result, ok, err, type_error, json_rpc_internal_error, ◌>>=◌, catch_as}
use vechain_sdk_js.Text.{
  Text, codes, is_hex_digit, hex_value_from, strip_sign, strip_tag, starts_with_minus,
}
use vechain_sdk_js.Number.{Number, int, nan}
use vechain_sdk_js.Noble.{Noble}
use vechain_sdk_js.Vcdm.Hex.{to_text}
use vechain_sdk_js.Vcdm.HexInt.{number, of_int}
use vechain_sdk_js.Provider.Details.{CompressedBlockDetail}
use vechain_sdk_js.Provider.LogDetails.{EventLogs, EventCriteria}
use vechain_sdk_js.ThorClient.Http.{Http, event_logs_path}
use vechain_sdk_js.ThorClient.Blocks.{get_best_block_compressed}

pub record LogsRpc : Type 0 where
  pub removed : Bool
  pub log_index : Text
  pub transaction_index : Text
  pub transaction_hash : Text
  pub block_hash : Text
  pub block_number : Text
  pub address : Text
  pub payload : Text
  pub topics : List Text

-- `address`: none, one, or several.
pub data Addresses : Type 0 where
  no_address : Addresses
  one_address : Text → Addresses
  several_addresses : List Text → Addresses

-- A member of `topics`, which may be `null`; a list has no `null` in it.
pub data Topic : Type 0 where
  any_topic : Topic
  topic : Text → Topic
  topics : List Text → Topic

-- `criteriaTopicsArray[i] ?? undefined`
abbrev pub or_undefined : Option (Option Text) → Option Text
or_undefined none = none
or_undefined (some t) = t

-- `_scatterArrayTopic`
unfoldable pub scatter_array_topic : List (Option Text) → Option Text → EventCriteria
scatter_array_topic criteria address = record {
  address = address;
  topic0 = or_undefined (get_elem? criteria 0);
  topic1 = or_undefined (get_elem? criteria 1);
  topic2 = or_undefined (get_elem? criteria 2);
  topic3 = or_undefined (get_elem? criteria 3);
  topic4 = or_undefined (get_elem? criteria 4);
}

-- `notArrayTopics` and `arrayTopics`
unfoldable pub not_array_topics : List Topic → List (Option Text)
not_array_topics [] = []
not_array_topics (any_topic ∷ rest) = none ∷ not_array_topics rest
not_array_topics (topic t ∷ rest) = some t ∷ not_array_topics rest
not_array_topics (topics ts ∷ rest) = not_array_topics rest

unfoldable pub array_topics : List Topic → List Text
array_topics [] = []
array_topics (any_topic ∷ rest) = array_topics rest
array_topics (topic t ∷ rest) = array_topics rest
array_topics (topics ts ∷ rest) = ts ++ array_topics rest

-- A criterion on the first topic.
abbrev pub first_topic : Option Text → Option Text → EventCriteria
first_topic address t = record {
  address = address;
  topic0 = t;
  topic1 = none;
  topic2 = none;
  topic3 = none;
  topic4 = none;
}

abbrev pub scattered : Option Text → List (Option Text) → List EventCriteria
scattered address [] = []
scattered address (t ∷ ts) = scatter_array_topic (t ∷ ts) address ∷ []

abbrev pub or_address : Option Text → List EventCriteria → List EventCriteria
or_address address [] = first_topic address none ∷ []
or_address address (c ∷ cs) = c ∷ cs

-- `getTopicsPerAddress`
unfoldable pub get_topics_per_address : Option Text → List Topic → List EventCriteria
unfolding scatter_array_topic not_array_topics array_topics
get_topics_per_address address ts = or_address address (
    scattered address (not_array_topics ts)
    ++ map (λ t. first_topic address (some t)) (array_topics ts))

-- `criteriaAddress`
unfoldable pub criteria_addresses : Addresses → List (Option Text)
criteria_addresses no_address = none ∷ []
criteria_addresses (one_address a) = some a ∷ []
criteria_addresses (several_addresses as') = map (λ a. some a) as'

-- `eventsCriteriaToFlat.flat()`
unfoldable pub flat_criteria : List (Option Text) → List Topic → List EventCriteria
unfolding get_topics_per_address
flat_criteria [] ts = []
flat_criteria (a ∷ as') ts = get_topics_per_address a ts ++ flat_criteria as' ts

-- `getCriteriaSetForInput`
unfoldable pub get_criteria_set_for_input : Addresses → List Topic → List EventCriteria
unfolding criteria_addresses flat_criteria
get_criteria_set_for_input address ts = flat_criteria (criteria_addresses address) ts

-- `FilterOptions`
pub record FilterOptions : Type 0 where
  pub address : Addresses
  pub from_block : Option Text
  pub to_block : Option Text
  pub topics : List Topic

-- The longest beginning of a text that has hexadecimal digits only.
unfoldable pub leading_digits : Text → Text
leading_digits [] = []
leading_digits (c ∷ s) = let rest = leading_digits s in if is_hex_digit c then c ∷ rest else []

abbrev pub number_of : Bool → Text → Number
number_of minus [] = nan
number_of true (c ∷ s) = int (negate (hex_value_from 0 (c ∷ s)))
number_of false (c ∷ s) = int (pos (hex_value_from 0 (c ∷ s)))

-- `parseInt(s, 16)`, of a text that does not begin with white space or with a plus
unfoldable pub parse_int16 : Text → Number
unfolding leading_digits strip_sign strip_tag starts_with_minus hex_value_from
parse_int16 s = number_of (starts_with_minus s) (leading_digits (strip_tag (strip_sign s)))

-- `latestBlock.number` where the option is missing
abbrev pub block_or_latest : Option Text → Option CompressedBlockDetail → Result Number
block_or_latest (some s) latest = ok (parse_int16 s)
block_or_latest none none = err type_error
block_or_latest none (some block) = ok block.header.number

module _ (noble : Noble) where
  -- `formatToLogsRPC`
  unfoldable pub format_to_logs_rpc : List EventLogs → Result (List LogsRpc)
  unfolding of_int to_text
  format_to_logs_rpc [] = ok []
  format_to_logs_rpc (log ∷ logs) = do
    block_number ← of_int noble (number log.meta.block_number)
    rest ← format_to_logs_rpc logs
    ok (
        record {
          removed = false;
          log_index = codes "0x0";
          transaction_index = codes "0x0";
          transaction_hash = log.meta.tx_id;
          block_hash = log.meta.block_id;
          block_number = to_text block_number;
          address = log.address;
          payload = log.payload;
          topics = log.topics;
        }
        ∷ rest)

  -- `ethGetLogs`, on an object
  unfoldable pub eth_get_logs : Http → FilterOptions → Result (List LogsRpc)
  unfolding get_best_block_compressed get_criteria_set_for_input parse_int16 event_logs_path
      format_to_logs_rpc
  eth_get_logs http options = catch_as (json_rpc_internal_error "ethGetLogs()") (do
    latest ← get_best_block_compressed http
    from ← block_or_latest options.from_block latest
    to ← block_or_latest options.to_block latest
    logs ← http.event_logs event_logs_path (record {
      range = record { from = from; to = to };
      criteria_set = get_criteria_set_for_input options.address options.topics;
      offset = int (pos 0);
      limit = int (pos 1000);
    })
    format_to_logs_rpc logs)

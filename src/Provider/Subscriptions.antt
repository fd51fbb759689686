-- ===== src/Provider/Subscriptions.antt =====
-- packages/network/src/provider/providers/vechain-provider/vechain-provider.ts and the methods
-- eth_subscribe and eth_unsubscribe: subscriptions to new blocks and to logs, and the polling for
-- them. The provider is there. `Hex.random(16)` gives the identifiers, so they are arguments. The event
-- poll is there or not; what it calls is `poll_function`, which runs from its start to its end with no
-- other poll and no call of the methods in between: calls of the timer that overlap are not modelled
-- by it, but by `get_current_block` and `poll_block`, its parts before and after the first answer. A
-- subscription to logs names no block.
use vechain_sdk_js.Prelude.{
  ℤ, negsuc, zero, suc, pos, Bool, true, false, ◌||◌, Option, none, some, List, [], ◌∷◌, ◌++◌,
  length, ltb, if◌then◌else◌,
}
use vechain_sdk_js.Result.{Result, ok, err, json_rpc_invalid_params, json_rpc_server_error, ◌>>=◌}
use vechain_sdk_js.Text.{Text, text_eq}
use vechain_sdk_js.Number.{Number, int, frac}
use vechain_sdk_js.Noble.{Noble}
use vechain_sdk_js.Vcdm.Hex.{to_text}
use vechain_sdk_js.Vcdm.HexInt.{number, of_int}
use vechain_sdk_js.Provider.Details.{CompressedBlockDetail}
use vechain_sdk_js.Provider.Logs.{Addresses, Topic, FilterOptions, LogsRpc, eth_get_logs}
use vechain_sdk_js.ThorClient.Http.{Http}
use vechain_sdk_js.ThorClient.Blocks
use vechain_sdk_js.ThorClient.Blocks.{get_block_compressed, get_best_block_compressed}

-- `Subscription` of logs, with the two options that are read.
pub record Subscription : Type 0 where
  pub address : Addresses
  pub topics : List Topic

-- `SubscriptionManager`, with the poll of the provider. The subscriptions stand in the order of the
-- map's insertion.
pub record SubscriptionManager : Type 0 where
  pub log_subscriptions : List (Text × Subscription)
  pub new_heads_subscription : Option Text
  pub current_block_number : Number
  pub has_poll : Bool

pub data SubscriptionEvent : Type 0 where
  new_head : Text → CompressedBlockDetail → SubscriptionEvent
  new_logs : Text → List LogsRpc → SubscriptionEvent

-- `Map.set`
unfoldable pub set : Text → Subscription → List (Text × Subscription) → List (Text × Subscription)
set id s [] = (id, s) ∷ []
set id s ((j, t) ∷ m) = if text_eq j id then (j, s) ∷ m else (j, t) ∷ set id s m

-- `Map.delete`, and whether the key was there
unfoldable pub delete : Text → List (Text × Subscription) → List (Text × Subscription)
delete id [] = []
delete id ((j, t) ∷ m) = if text_eq j id then m else (j, t) ∷ delete id m

unfoldable pub has : Text → List (Text × Subscription) → Bool
has id [] = false
has id ((j, t) ∷ m) = text_eq j id || has id m

-- `isThereActiveSubscriptions`
abbrev pub is_some {ℓ} : {A : Type ℓ} → Option A → Bool
is_some none = false
is_some (some a) = true

unfoldable pub is_there_active_subscriptions : SubscriptionManager → Bool
is_there_active_subscriptions m =
    ltb 0 (length m.log_subscriptions) || is_some m.new_heads_subscription

-- `startSubscriptionsPolling` and `stopSubscriptionsPolling`, on the manager
unfoldable pub start_subscriptions_polling : SubscriptionManager → SubscriptionManager
start_subscriptions_polling m = record m { has_poll = true }

unfoldable pub stop_subscriptions_polling : SubscriptionManager → SubscriptionManager
stop_subscriptions_polling m = record m { has_poll = false }

-- `n + 1`, for the integers that a number holds exactly
abbrev pub suc_ℤ : ℤ → ℤ
suc_ℤ (pos n) = pos (suc n)
suc_ℤ (negsuc zero) = pos 0
suc_ℤ (negsuc (suc n)) = negsuc n

abbrev pub plus_one : Number → Number
plus_one (int z) = int (suc_ℤ z)
plus_one (frac z) = frac (suc_ℤ z)
plus_one n = n

-- What the parameters name: one of the two types of subscriptions first, or both of them. A
-- first parameter that is neither is refused.
pub data SubscriptionType : Type 0 where
  new_heads : SubscriptionType
  logs : Subscription → SubscriptionType
  both : Subscription → SubscriptionType
  unknown : SubscriptionType

-- `subscriptionManager.currentBlockNumber = block.number`, where there is a best block
abbrev pub from_best :
    Option CompressedBlockDetail → SubscriptionManager → Result SubscriptionManager
from_best none m = err (json_rpc_server_error "ethSubscribe()")
from_best (some block) m = ok (record m { current_block_number = block.header.number })

-- `ethSubscribe` with no poll
abbrev pub start_at_best : Http → SubscriptionManager → Result SubscriptionManager
start_at_best http m = do
  best ← get_best_block_compressed http
  m' ← from_best best m
  ok (start_subscriptions_polling m')

-- `ethSubscribe`, up to the new identifier
unfoldable pub start_if_needed : Http → SubscriptionManager → Result SubscriptionManager
unfolding get_best_block_compressed start_subscriptions_polling
start_if_needed http m = if m.has_poll then ok m else start_at_best http m

abbrev pub subscribed : Text → SubscriptionType → SubscriptionManager → SubscriptionManager
subscribed id new_heads m = record m { new_heads_subscription = some id }
subscribed id (logs s) m = record m { log_subscriptions = set id s m.log_subscriptions }
subscribed id (both s) m = record m {
  new_heads_subscription = some id;
  log_subscriptions = set id s m.log_subscriptions;
}
subscribed id unknown m = m

-- `ethSubscribe`: the identifier is the result
unfoldable pub eth_subscribe :
    Http → Text → SubscriptionType → SubscriptionManager → Result SubscriptionManager
unfolding start_if_needed set
eth_subscribe http id unknown m = err (json_rpc_invalid_params "ethSubscribe()")
eth_subscribe http id new_heads m = do m' ← start_if_needed http m; ok (subscribed id new_heads m')
eth_subscribe http id (logs s) m = do m' ← start_if_needed http m; ok (subscribed id (logs s) m')
eth_subscribe http id (both s) m = do m' ← start_if_needed http m; ok (subscribed id (both s) m')

-- `newHeadsSubscription` has the identifier.
abbrev pub is_new_heads : Text → Option Text → Bool
is_new_heads id none = false
is_new_heads id (some j) = text_eq id j

unfoldable pub unsubscribed : Text → SubscriptionManager → SubscriptionManager × Bool
unfolding delete has
unsubscribed id m =
    if is_new_heads id m.new_heads_subscription
    then (record m { new_heads_subscription = none }, true)
    else (
      record m { log_subscriptions = delete id m.log_subscriptions },
      has id m.log_subscriptions,
    )

-- `ethUnsubscribe`
unfoldable pub eth_unsubscribe : Text → SubscriptionManager → SubscriptionManager × Bool
unfolding unsubscribed is_there_active_subscriptions stop_subscriptions_polling
eth_unsubscribe id m =
    let (m', result) = unsubscribed id m in
    (if is_there_active_subscriptions m' then m' else stop_subscriptions_polling m', result)

-- The filter of `getLogsRPC` for a subscription.
abbrev pub filter_for : Subscription → Text → FilterOptions
filter_for s current_block = record {
  address = s.address;
  from_block = some current_block;
  to_block = some current_block;
  topics = s.topics;
}

-- `getCurrentBlock`
unfoldable pub get_current_block :
    Http → SubscriptionManager → Result (Option CompressedBlockDetail)
unfolding is_there_active_subscriptions get_block_compressed
get_current_block http m =
    if is_there_active_subscriptions m
    then get_block_compressed http (Blocks.number m.current_block_number)
    else ok none

abbrev pub head_events : Option Text → CompressedBlockDetail → List SubscriptionEvent
head_events none block = []
head_events (some id) block = new_head id block ∷ []

module _ (noble : Noble) where
  -- `getLogsRPC`, with the empty results filtered out
  unfoldable pub get_logs_rpc :
      Http → Number → List (Text × Subscription) → Result (List SubscriptionEvent)
  unfolding of_int to_text eth_get_logs
  get_logs_rpc http current [] = ok []
  get_logs_rpc http current ((id, s) ∷ m) = do
    current_block ← of_int noble (number current)
    result ← eth_get_logs noble http (filter_for s (to_text current_block))
    rest ← get_logs_rpc http current m
    ok (if ltb 0 (length result) then new_logs id result ∷ rest else rest)

  -- The polling function of `startSubscriptionsPolling`, for the block that it has got
  unfoldable pub poll_block :
      Http
      → SubscriptionManager
      → Option CompressedBlockDetail
      → Result (SubscriptionManager × List SubscriptionEvent)
  unfolding get_logs_rpc
  poll_block http m none = ok (m, [])
  poll_block http m (some block) = do
    more ← get_logs_rpc http m.current_block_number m.log_subscriptions
    ok (
      record m { current_block_number = plus_one m.current_block_number },
      head_events m.new_heads_subscription block ++ more,
    )

  unfoldable pub poll_function :
      Http → SubscriptionManager → Result (SubscriptionManager × List SubscriptionEvent)
  unfolding get_current_block poll_block
  poll_function http m = do block ← get_current_block http m; poll_block http m block

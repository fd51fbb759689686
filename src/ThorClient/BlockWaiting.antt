-- ===== src/ThorClient/BlockWaiting.antt =====
-- BlocksModule.waitForBlockCompressed and waitForBlockExpanded of
-- packages/network/src/thor-client/blocks/blocks-module.ts. The number of the block is an integer.
use vechain_sdk_js.Prelude.{
  ℕ, ℤ, zero, suc, pos, negsuc, Bool, true, false, not, Option, none, some, leb,
}
use vechain_sdk_js.Result.{Result, ok, invalid_data_type, require, ◌>>=◌, ◌>>◌}
use vechain_sdk_js.Number.{Number, int, frac, nan, infinity, minus_infinity}
use vechain_sdk_js.Poll.{SyncPollInputOptions, Waited, sync_poll, wait_until}
use vechain_sdk_js.Provider.Details.{CompressedBlockDetail, ExpandedBlockDetail}
use vechain_sdk_js.ThorClient.Http.{Http}
use vechain_sdk_js.ThorClient.Blocks.{get_best_block_compressed, get_best_block_expanded}

-- `WaitForBlockOptions`
pub record WaitForBlockOptions : Type 0 where
  pub timeout_ms : Option Number
  pub interval_ms : Option Number

-- `CompressedBlockDetail | ExpandedBlockDetail`
pub data AnyBlock : Type 0 where
  compressed : CompressedBlockDetail → AnyBlock
  expanded : ExpandedBlockDetail → AnyBlock

unfoldable pub number_of : AnyBlock → Number
number_of (compressed block) = block.header.number
number_of (expanded block) = block.header.number

unfoldable pub leb_ℤ : ℤ → ℤ → Bool
leb_ℤ (pos m) (pos n) = leb m n
leb_ℤ (pos m) (negsuc n) = false
leb_ℤ (negsuc m) (pos n) = true
leb_ℤ (negsuc m) (negsuc n) = leb n m

-- `number >= blockNumber`
unfoldable pub is_at_least : Number → ℤ → Bool
unfolding leb_ℤ
is_at_least (int z) n = leb_ℤ n z
is_at_least (frac z) n = leb_ℤ n z
is_at_least nan n = false
is_at_least infinity n = true
is_at_least minus_infinity n = false

-- `result != null && result?.number >= blockNumber`
unfoldable pub is_reached : ℤ → Option AnyBlock → Bool
unfolding is_at_least number_of
is_reached n none = false
is_reached n (some block) = is_at_least (number_of block) n

-- `blockNumber <= 0`
abbrev pub is_at_most_zero : ℤ → Bool
is_at_most_zero (pos zero) = true
is_at_most_zero (pos (suc n)) = false
is_at_most_zero (negsuc n) = true

abbrev pub any_compressed : Option CompressedBlockDetail → Option AnyBlock
any_compressed none = none
any_compressed (some block) = some (compressed block)

abbrev pub any_expanded : Option ExpandedBlockDetail → Option AnyBlock
any_expanded none = none
any_expanded (some block) = some (expanded block)

-- The polling function: the compressed block is asked for where the expanded one is wanted.
unfoldable pub best_block : Bool → Http → Result (Option AnyBlock)
unfolding get_best_block_compressed get_best_block_expanded
best_block true http = do block ← get_best_block_compressed http; ok (any_compressed block)
best_block false http = do block ← get_best_block_expanded http; ok (any_expanded block)

abbrev pub poll_options : WaitForBlockOptions → SyncPollInputOptions
poll_options options = record {
  request_interval_in_milliseconds = options.interval_ms;
  maximum_iterations = none;
  maximum_waiting_time_in_milliseconds = options.timeout_ms;
}

-- `_waitForBlock`, with the node and the clock given round by round and at most so many rounds.
-- `none` is a wait that has not ended by then.
unfoldable pub wait_for_block :
    ℕ
    → (ℕ → Http)
    → (ℕ → ℤ)
    → ℤ
    → Bool
    → WaitForBlockOptions
    → Result (Option (Waited (Option AnyBlock)))
unfolding is_reached best_block sync_poll wait_until
wait_for_block fuel https clock block_number is_expanded options = do
  require (not (is_at_most_zero block_number)) (invalid_data_type "BlocksModule.waitForBlock()")
  iterations ← sync_poll (poll_options options)
  ok (
      wait_until (poll_options options) (is_reached block_number)
        (λ i. record { outcome = best_block is_expanded (https i); elapsed = clock i }) fuel 0
        iterations)

unfoldable pub wait_for_block_compressed :
    ℕ → (ℕ → Http) → (ℕ → ℤ) → ℤ → WaitForBlockOptions → Result (Option (Waited (Option AnyBlock)))
unfolding wait_for_block
wait_for_block_compressed fuel https clock n options =
    wait_for_block fuel https clock n false options

unfoldable pub wait_for_block_expanded :
    ℕ → (ℕ → Http) → (ℕ → ℤ) → ℤ → WaitForBlockOptions → Result (Option (Waited (Option AnyBlock)))
unfolding wait_for_block
wait_for_block_expanded fuel https clock n options = wait_for_block fuel https clock n true options

-- ===== src/Tests/Subscriptions.antt =====
-- Subscriptions at concrete inputs.
use vechain_sdk_js.Prelude.{
  ℕ, ◌+◌, ◌≡◌, refl, inr, pos, Option, none, some, List, [], ◌∷◌, ◌++◌, length,
}
use vechain_sdk_js.Result.{Result, ok, err}
use vechain_sdk_js.Text.{Text, codes}
use vechain_sdk_js.Number.{int}
use vechain_sdk_js.Provider.Details.{CompressedBlockDetail}
use vechain_sdk_js.Provider.Subscriptions.{
  SubscriptionManager, SubscriptionEvent, new_heads, eth_subscribe, eth_unsubscribe,
  get_current_block, poll_block, poll_function,
}
use vechain_sdk_js.Provider.Delivery.{
  heads, blocks_from, Follows, poll_times, poll_times-blocks_from,
}
use vechain_sdk_js.Provider.Polling.{
  new_manager, subscribes, unsubscribes, here, next, IsPolledWhileActive, Reach-IsPolledWhileActive,
}
use vechain_sdk_js.ThorClient.Http.{Http}
use vechain_sdk_js.ThorClient.Blocks.{get_block_compressed}
use vechain_sdk_js.Tests.Packages.{test_noble}
use vechain_sdk_js.Tests.Receipts.{test_header}

-- A node whose blocks are all alike, but for the number that a test does not look at.
abbrev test_block : CompressedBlockDetail
test_block = record { header = test_header; transactions = [] }

abbrev chain : ℕ → CompressedBlockDetail
chain n = test_block

abbrev node : Http
node = record {
  compressed_block = λ path query. ok (some test_block);
  expanded_block = λ path query. ok none;
  transaction = λ path query. ok none;
  transaction_raw = λ path query. ok none;
  transaction_receipt = λ path query. ok none;
  get_addresses = λ address names. ok names;
  get_names = λ address addresses. ok addresses;
  delegation_signature = λ url origin raw. ok raw;
  send_transaction = λ raw. ok raw;
  event_logs = λ path options. ok [];
}

abbrev manager_or : Result SubscriptionManager → SubscriptionManager
manager_or (ok m) = m
manager_or (err e) = new_manager

abbrev subscribed_manager : SubscriptionManager
subscribed_manager = manager_or (eth_subscribe node (codes "id") new_heads new_manager)

subscribe_check : eth_subscribe node (codes "id") new_heads new_manager ≡ ok subscribed_manager
unfolding eth_subscribe vechain_sdk_js.Text.starts_with_tag vechain_sdk_js.Text.strip_sign
subscribe_check = refl

Reach-IsPolledWhileActive_example :
    IsPolledWhileActive (eth_unsubscribe (codes "id") subscribed_manager).0
Reach-IsPolledWhileActive_example =
    Reach-IsPolledWhileActive test_noble (eth_unsubscribe (codes "id") subscribed_manager).0 (
      next (next here (subscribes node (codes "id") new_heads subscribe_check))
        (unsubscribes (codes "id")))

ok-injective {ℓ} : {A : Type ℓ} {x y : A} → ok x ≡ ok y → x ≡ y
ok-injective h = cc

node-Follows : Follows chain node
unfolding get_block_compressed vechain_sdk_js.Vcdm.Revision.is_valid_number
node-Follows n found h = inr (cc (ok-injective h))

abbrev polled_or :
    Result (SubscriptionManager × List SubscriptionEvent)
    → SubscriptionManager × List SubscriptionEvent
polled_or (ok r) = r
polled_or (err e) = (new_manager, [])

abbrev found_or : Result (Option CompressedBlockDetail) → Option CompressedBlockDetail
found_or (ok b) = b
found_or (err e) = none

abbrev polled : SubscriptionManager × List SubscriptionEvent
polled = polled_or (poll_times test_noble 2 (λ i. node) subscribed_manager)

poll_check : poll_times test_noble 2 (λ i. node) subscribed_manager ≡ ok polled
unfolding poll_times poll_function eth_subscribe vechain_sdk_js.Text.starts_with_tag
    vechain_sdk_js.Vcdm.Revision.is_valid_number
poll_check = refl

heads_check : subscribed_manager.new_heads_subscription ≡ some (codes "id")
unfolding eth_subscribe vechain_sdk_js.Text.starts_with_tag vechain_sdk_js.Text.strip_sign
heads_check = refl

number_check : subscribed_manager.current_block_number ≡ int (pos 7)
unfolding eth_subscribe vechain_sdk_js.Text.starts_with_tag vechain_sdk_js.Text.strip_sign
number_check = refl

poll_times-blocks_from_example :
    (heads polled.1 ≡ blocks_from chain 7 (length (heads polled.1)))
    × (polled.0.current_block_number ≡ int (pos (7 + length (heads polled.1))))
poll_times-blocks_from_example =
    poll_times-blocks_from test_noble 2 chain (λ i. node) subscribed_manager (codes "id") 7 polled
      (λ i. node-Follows) heads_check number_check poll_check

-- Two polls overlap: both get the block before either of them ends. The subscription gets it twice, and
-- the number moves on by two.
abbrev found : Option CompressedBlockDetail
found = found_or (get_current_block node subscribed_manager)

abbrev first_end : SubscriptionManager × List SubscriptionEvent
first_end = polled_or (poll_block test_noble node subscribed_manager found)

abbrev second_end : SubscriptionManager × List SubscriptionEvent
second_end = polled_or (poll_block test_noble node first_end.0 found)

overlap_check :
    (heads (first_end.1 ++ second_end.1) ≡ test_block ∷ test_block ∷ [])
    × (second_end.0.current_block_number ≡ int (pos 9))
unfolding heads get_current_block poll_block eth_subscribe vechain_sdk_js.Text.starts_with_tag
    vechain_sdk_js.Vcdm.Revision.is_valid_number
overlap_check = (refl, refl)

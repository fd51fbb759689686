-- ===== src/Provider/Delivery.antt =====
-- The blocks that a subscription to new blocks gets, and when the provider polls
-- (vechain-provider.ts, eth_subscribe.ts, eth_unsubscribe.ts), where each poll ends before the next one
-- begins. The timer does not wait for a poll, so polls of a slow node overlap and are not covered; two
-- overlapping polls are run in the tests.
use vechain_sdk_js.Prelude.{
  ℕ, zero, suc, ◌+◌, ◌≡◌, ◌⊎◌, inl, inr, refl, ap, sym, ◌∙◌, subst, pos, Bool, true, false, ◌||◌,
  Option, none, some, List, [], ◌∷◌, ◌++◌, length, arith, ltb, if◌then◌else◌,
}
use vechain_sdk_js.Result.{Result, ok, ◌>>=◌, >>=-eq-ok, ok-injective}
use vechain_sdk_js.Text.{Text}
use vechain_sdk_js.Number.{Number, int}
use vechain_sdk_js.Noble.{Noble}
use vechain_sdk_js.Vcdm.Hex.{to_text}
use vechain_sdk_js.Vcdm.HexInt.{number, of_int}
use vechain_sdk_js.Provider.Details.{CompressedBlockDetail}
use vechain_sdk_js.Provider.Logs.{LogsRpc, eth_get_logs}
use vechain_sdk_js.Provider.Subscriptions.{
  Subscription, SubscriptionManager, new_head, new_logs, SubscriptionEvent,
  is_there_active_subscriptions, get_logs_rpc, filter_for, head_events, is_some, plus_one,
  get_current_block, poll_block, poll_function,
}
use vechain_sdk_js.ThorClient.Http.{Http}
use vechain_sdk_js.ThorClient.Blocks
use vechain_sdk_js.ThorClient.Blocks.{get_block_compressed}

-- The blocks among the events.
unfoldable pub heads : List SubscriptionEvent → List CompressedBlockDetail
heads [] = []
heads (new_head id block ∷ events) = block ∷ heads events
heads (new_logs id ls ∷ events) = heads events

heads-append : (es fs : List SubscriptionEvent) → heads (es ++ fs) ≡ heads es ++ heads fs
unfolding heads
heads-append [] fs = refl
heads-append (new_head id block ∷ es) fs = ap (λ bs. block ∷ bs) (heads-append es fs)
heads-append (new_logs id ls ∷ es) fs = heads-append es fs

or_true : (b : Bool) → (b || true) ≡ true
or_true b = ground arith

new_logs-heads :
    (b : Bool) (id : Text) (ls : List LogsRpc) (rest : List SubscriptionEvent)
    → heads (if b then new_logs id ls ∷ rest else rest) ≡ heads rest
unfolding heads
new_logs-heads true id ls rest = refl
new_logs-heads false id ls rest = refl

-- The blocks of a chain from a number on.
unfoldable pub blocks_from : (ℕ → CompressedBlockDetail) → ℕ → ℕ → List CompressedBlockDetail
blocks_from chain n zero = []
blocks_from chain n (suc count) = chain n ∷ blocks_from chain (suc n) count

-- So many blocks from a number on were delivered, and the number has moved on by them.
abbrev Delivered : (ℕ → CompressedBlockDetail) → ℕ → List CompressedBlockDetail → Number → Type 0
Delivered chain n bs current =
    (bs ≡ blocks_from chain n (length bs)) × (current ≡ int (pos (n + length bs)))

Delivered-next :
    (chain : ℕ → CompressedBlockDetail) (n : ℕ) (bs : List CompressedBlockDetail) (current : Number)
    → Delivered chain (suc n) bs current
    → Delivered chain n (chain n ∷ bs) current
unfolding blocks_from
Delivered-next chain n bs current (same, moved) =
    (ap (λ cs. chain n ∷ cs) same, moved ∙ ap (λ i. int (pos i)) (omega arith))

-- A node answers with the blocks of a chain, as far as it has them, or with an error.
abbrev pub Follows : (ℕ → CompressedBlockDetail) → Http → Type 0
Follows chain http =
    (n : ℕ) (found : Option CompressedBlockDetail)
    → get_block_compressed http (Blocks.number (int (pos n))) ≡ ok found
    → (found ≡ none) ⊎ (found ≡ some (chain n))

module _ (noble : Noble) where
  -- So many calls of the polling function, with the answers of the node call by call.
  unfoldable pub poll_times :
      ℕ → (ℕ → Http) → SubscriptionManager → Result (SubscriptionManager × List SubscriptionEvent)
  poll_times zero https m = ok (m, [])
  poll_times (suc k) https m = do
    first ← poll_function noble (https 0) m
    rest ← poll_times k (λ i. https (suc i)) first.0
    ok (rest.0, first.1 ++ rest.1)

  get_logs_rpc-heads :
      (http : Http) (n : Number) (m : List (Text × Subscription)) (es : List SubscriptionEvent)
      → get_logs_rpc noble http n m ≡ ok es
      → heads es ≡ []
  unfolding get_logs_rpc heads
  get_logs_rpc-heads http n [] es h = ap heads (ok-injective (sym h))
  get_logs_rpc-heads http n ((id, s) ∷ m) es h =
      let (current, a, h1) = >>=-eq-ok (of_int noble (number n)) _ h in
      let (result, b, h2) =
        >>=-eq-ok (eth_get_logs noble http (filter_for s (to_text current))) _ h1 in
      let (rest, c, h3) = >>=-eq-ok (get_logs_rpc noble http n m) _ h2 in
      ap heads (ok-injective (sym h3))
      ∙ new_logs-heads (ltb 0 (length result)) id result rest
      ∙ get_logs_rpc-heads http n m rest c

  -- A call of the polling function from a number on: no block and the same number, or the block of
  -- that number and the next number.
  abbrev Polled :
      (ℕ → CompressedBlockDetail) → Text → ℕ → SubscriptionManager → List SubscriptionEvent → Type 0
  Polled chain id n m es =
      (m.new_heads_subscription ≡ some id)
      × (((heads es ≡ []) × (m.current_block_number ≡ int (pos n)))
          ⊎ ((heads es ≡ chain n ∷ []) × (m.current_block_number ≡ int (pos (suc n)))))

  module _ (chain : ℕ → CompressedBlockDetail) (http : Http) (m : SubscriptionManager) (id : Text)
      (n : ℕ) (subscribed : m.new_heads_subscription ≡ some id)
      (current : m.current_block_number ≡ int (pos n)) where
    poll_block-none :
        (r : SubscriptionManager × List SubscriptionEvent)
        → poll_block noble http m none ≡ ok r
        → Polled chain id n r.0 r.1
    unfolding poll_block heads
    poll_block-none r h =
        subst (λ x. Polled chain id n x.0 x.1) (ok-injective h) (subscribed, inl (refl, current))

    poll_block-some :
        (r : SubscriptionManager × List SubscriptionEvent)
        → poll_block noble http m (some (chain n)) ≡ ok r
        → Polled chain id n r.0 r.1
    unfolding poll_block heads
    poll_block-some r h =
        let (more, logged, e) =
          >>=-eq-ok (get_logs_rpc noble http m.current_block_number m.log_subscriptions) _ h in
        subst (λ x. Polled chain id n x.0 x.1) (ok-injective e)
          (
            subscribed,
            inr (
              ap (λ o. heads (head_events o (chain n) ++ more)) subscribed
                  ∙ ap (λ bs. chain n ∷ bs)
                      (get_logs_rpc-heads http m.current_block_number m.log_subscriptions more
                        logged),
              ap plus_one current,
            ),
          )

    current_block :
        get_current_block http m ≡ get_block_compressed http (Blocks.number (int (pos n)))
    unfolding get_current_block is_there_active_subscriptions
    current_block =
        let active =
          ap (λ o. ltb 0 (length m.log_subscriptions) || is_some o) subscribed
          ∙ or_true (ltb 0 (length m.log_subscriptions)) in
        rw active (ap (λ c. get_block_compressed http (Blocks.number c)) current)

    poll_function-Polled :
        (r : SubscriptionManager × List SubscriptionEvent)
        → Follows chain http
        → poll_function noble http m ≡ ok r
        → Polled chain id n r.0 r.1
    unfolding poll_function
    poll_function-Polled r follows h =
        let (found, f, e) = >>=-eq-ok (get_current_block http m) (poll_block noble http m) h in
        elim (follows n found (sym current_block ∙ f)) [
          | inl none_found ↦
              poll_block-none r (subst (λ o. poll_block noble http m o ≡ ok r) none_found e)
          | inr block_found ↦
              poll_block-some r (subst (λ o. poll_block noble http m o ≡ ok r) block_found e)
        ]

  -- Over any number of polls that do not fail, each of which ends before the next one begins, of a node
  -- that follows the chain, a subscription to new blocks gets the blocks of the chain one after the
  -- other, from the current number on, none left out and none twice; the current number moves on by the
  -- blocks that it got.
  pub poll_times-blocks_from :
      (k : ℕ) (chain : ℕ → CompressedBlockDetail) (https : ℕ → Http) (m : SubscriptionManager)
      (id : Text) (n : ℕ) (r : SubscriptionManager × List SubscriptionEvent)
      → ((i : ℕ) → Follows chain (https i))
      → m.new_heads_subscription ≡ some id
      → m.current_block_number ≡ int (pos n)
      → poll_times k https m ≡ ok r
      → (heads r.1 ≡ blocks_from chain n (length (heads r.1)))
        × (r.0.current_block_number ≡ int (pos (n + length (heads r.1))))
  unfolding poll_times heads blocks_from
  poll_times-blocks_from zero chain https m id n r follows subscribed current h =
      subst (λ x. Delivered chain n (heads x.1) x.0.current_block_number) (ok-injective h)
        (refl, current ∙ ap (λ i. int (pos i)) (omega arith))
  poll_times-blocks_from (suc k) chain https m id n r follows subscribed current h =
      let (first, f, h1) = >>=-eq-ok (poll_function noble (https 0) m) _ h in
      let (rest, g, h2) = >>=-eq-ok (poll_times k (λ i. https (suc i)) first.0) _ h1 in
      let (subscribed', polled) =
        poll_function-Polled chain (https 0) m id n subscribed current first (follows 0) f in
      let all = heads-append first.1 rest.1 in
      subst (λ x. Delivered chain n (heads x.1) x.0.current_block_number) (ok-injective h2)
        (elim polled [
          | inl (empty, same) ↦
              subst (λ bs. Delivered chain n bs rest.0.current_block_number)
                (sym (all ∙ ap (λ bs. bs ++ heads rest.1) empty))
                (poll_times-blocks_from k chain (λ i. https (suc i)) first.0 id n rest
                  (λ i. follows (suc i)) subscribed' same g)
          | inr (one, moved) ↦
              subst (λ bs. Delivered chain n bs rest.0.current_block_number)
                (sym (all ∙ ap (λ bs. bs ++ heads rest.1) one))
                (Delivered-next chain n (heads rest.1) rest.0.current_block_number (
                  poll_times-blocks_from k chain (λ i. https (suc i)) first.0 id (suc n) rest
                    (λ i. follows (suc i)) subscribed' moved g))
        ])

-- ===== src/Provider/Polling.antt =====
-- The provider polls exactly while there are subscriptions (vechain-provider.ts, eth_subscribe.ts,
-- eth_unsubscribe.ts), whatever steps come in between the request for a block and the end of a poll.
use vechain_sdk_js.Prelude.{
  ◌≡◌, inl, inr, refl, ap, sym, ◌∙◌, subst, pos, Bool, true, false, ◌||◌, Bool-cases, Option, none,
  some, List, [], ◌∷◌, length, arith, ltb, if◌then◌else◌,
}
use vechain_sdk_js.Result.{ok, >>=-eq-ok}
use vechain_sdk_js.Text.{Text, text_eq}
use vechain_sdk_js.Number.{int}
use vechain_sdk_js.Noble.{Noble}
use vechain_sdk_js.Provider.Details.{CompressedBlockDetail}
use vechain_sdk_js.Provider.Subscriptions.{
  Subscription, SubscriptionManager, SubscriptionEvent, set, new_heads, logs, both, unknown,
  SubscriptionType, is_some, is_there_active_subscriptions, start_subscriptions_polling,
  stop_subscriptions_polling, from_best, start_at_best, delete, is_new_heads, start_if_needed,
  subscribed, eth_subscribe, unsubscribed, eth_unsubscribe, get_logs_rpc, get_current_block,
  poll_block, poll_function,
}
use vechain_sdk_js.ThorClient.Http.{Http}
use vechain_sdk_js.ThorClient.Blocks.{get_best_block_compressed}

-- The manager of a new provider.
abbrev pub new_manager : SubscriptionManager
new_manager = record {
  log_subscriptions = [];
  new_heads_subscription = none;
  current_block_number = int (pos 0);
  has_poll = false;
}

-- What may happen to the subscriptions of a provider.
pub data Step (noble : Noble) (m : SubscriptionManager) : SubscriptionManager → Type 0 where
  subscribes :
      (http : Http) (id : Text) (t : SubscriptionType) {m' : SubscriptionManager}
      → eth_subscribe http id t m ≡ ok m'
      → Step noble m m'
  unsubscribes : (id : Text) → Step noble m (eth_unsubscribe id m).0
  polls :
      (http : Http) (r : SubscriptionManager × List SubscriptionEvent)
      → poll_function noble http m ≡ ok r
      → Step noble m r.0
  -- a poll ends whose block was got at an earlier moment, before other steps
  poll_ends :
      (http : Http) (found : Option CompressedBlockDetail)
      (r : SubscriptionManager × List SubscriptionEvent)
      → poll_block noble http m found ≡ ok r
      → Step noble m r.0

pub data Reach (noble : Noble) (m : SubscriptionManager) : SubscriptionManager → Type 0 where
  here : Reach noble m m
  next : {n p : SubscriptionManager} → Reach noble m n → Step noble n p → Reach noble m p

abbrev pub IsPolledWhileActive : SubscriptionManager → Type 0
IsPolledWhileActive m = m.has_poll ≡ is_there_active_subscriptions m

set_pos :
    (id : Text) (s : Subscription) (m : List (Text × Subscription))
    → ltb 0 (length (set id s m)) ≡ true
unfolding set
set_pos id s [] = refl
set_pos id s ((j, t) ∷ m) = elim (Bool-cases (text_eq j id)) [
  | inl e ↦ rw e (ground arith)
  | inr e ↦ rw e (ground arith)
]

ok-injective {ℓ} : {A : Type ℓ} {x y : A} → ok x ≡ ok y → x ≡ y
ok-injective h = cc

or_true : (b : Bool) → (b || true) ≡ true
or_true b = ground arith

start_if_needed-has_poll :
    (http : Http) (m m' : SubscriptionManager) → start_if_needed http m ≡ ok m' → m'.has_poll ≡ true
unfolding start_if_needed start_subscriptions_polling
start_if_needed-has_poll http m m' h = elim (Bool-cases m.has_poll) [
  | inl polled ↦
      let h' = subst (λ (b : Bool). (if b then ok m else start_at_best http m) ≡ ok m') polled h in
      subst (λ (x : SubscriptionManager). x.has_poll ≡ true) (ok-injective h') polled
  | inr idle ↦
      let h' = subst (λ (b : Bool). (if b then ok m else start_at_best http m) ≡ ok m') idle h in
      let (best, a, h1) = >>=-eq-ok (get_best_block_compressed http) _ h' in
      let (n, b, h2) = >>=-eq-ok (from_best best m) _ h1 in
      subst (λ (x : SubscriptionManager). x.has_poll ≡ true) (ok-injective h2) refl
]

subscribed-IsPolledWhileActive :
    (id : Text) (t : SubscriptionType) (m : SubscriptionManager)
    → (t ≡ unknown → ⊥)
    → m.has_poll ≡ true
    → IsPolledWhileActive (subscribed id t m)
unfolding is_there_active_subscriptions
subscribed-IsPolledWhileActive id new_heads m known h =
    h ∙ sym (or_true (ltb 0 (length m.log_subscriptions)))
subscribed-IsPolledWhileActive id (logs s) m known h =
    h ∙ sym (ap (λ b. b || is_some m.new_heads_subscription) (set_pos id s m.log_subscriptions))
subscribed-IsPolledWhileActive id (both s) m known h =
    h ∙ sym (or_true (ltb 0 (length (set id s m.log_subscriptions))))
subscribed-IsPolledWhileActive id unknown m known h = absurd (known refl)

eth_subscribe-IsPolledWhileActive :
    (http : Http) (id : Text) (t : SubscriptionType) (m m' : SubscriptionManager)
    → eth_subscribe http id t m ≡ ok m'
    → IsPolledWhileActive m'
unfolding eth_subscribe
eth_subscribe-IsPolledWhileActive http id unknown m m' h = cc
eth_subscribe-IsPolledWhileActive http id new_heads m m' h =
    let (n, a, h1) = >>=-eq-ok (start_if_needed http m) _ h in
    subst IsPolledWhileActive (ok-injective h1) (
      subscribed-IsPolledWhileActive id new_heads n (λ e. cc e)
        (start_if_needed-has_poll http m n a))
eth_subscribe-IsPolledWhileActive http id (logs s) m m' h =
    let (n, a, h1) = >>=-eq-ok (start_if_needed http m) _ h in
    subst IsPolledWhileActive (ok-injective h1) (
      subscribed-IsPolledWhileActive id (logs s) n (λ e. cc e)
        (start_if_needed-has_poll http m n a))
eth_subscribe-IsPolledWhileActive http id (both s) m m' h =
    let (n, a, h1) = >>=-eq-ok (start_if_needed http m) _ h in
    subst IsPolledWhileActive (ok-injective h1) (
      subscribed-IsPolledWhileActive id (both s) n (λ e. cc e)
        (start_if_needed-has_poll http m n a))

-- Unsubscribing leaves the poll, before the test that may stop it.
unsubscribed-has_poll :
    (id : Text) (m : SubscriptionManager) → (unsubscribed id m).0.has_poll ≡ m.has_poll
unfolding unsubscribed
unsubscribed-has_poll id m = elim (Bool-cases (is_new_heads id m.new_heads_subscription)) [
  | inl e ↦ rw e refl
  | inr e ↦ rw e refl
]

is_new_heads-is_some : (id : Text) (o : Option Text) → is_new_heads id o ≡ true → is_some o ≡ true
is_new_heads-is_some id none h = cc
is_new_heads-is_some id (some j) h = refl

delete_pos :
    (id : Text) (m : List (Text × Subscription))
    → ltb 0 (length (delete id m)) ≡ true
    → ltb 0 (length m) ≡ true
unfolding delete
delete_pos id [] h = h
delete_pos id ((j, t) ∷ m) h = ground arith

or_mono : (a b c : Bool) → (a ≡ true → b ≡ true) → (a || c) ≡ true → (b || c) ≡ true
or_mono true b c f h = rw (f refl) refl
or_mono false true c f h = refl
or_mono false false c f h = h

-- Unsubscribing makes no subscription.
unsubscribed-active :
    (id : Text) (m : SubscriptionManager)
    → is_there_active_subscriptions (unsubscribed id m).0 ≡ true
    → is_there_active_subscriptions m ≡ true
unfolding unsubscribed is_there_active_subscriptions
unsubscribed-active id m h = elim (Bool-cases (is_new_heads id m.new_heads_subscription)) [
  | inl e ↦
      ap (λ b. ltb 0 (length m.log_subscriptions) || b)
        (is_new_heads-is_some id m.new_heads_subscription e)
      ∙ or_true (ltb 0 (length m.log_subscriptions))
  | inr e ↦
      let deleted = rw e at h in
      or_mono (ltb 0 (length (delete id m.log_subscriptions))) (ltb 0 (length m.log_subscriptions))
        (is_some m.new_heads_subscription) (delete_pos id m.log_subscriptions) deleted
]

eth_unsubscribe-IsPolledWhileActive :
    (id : Text) (m : SubscriptionManager)
    → IsPolledWhileActive m
    → IsPolledWhileActive (eth_unsubscribe id m).0
unfolding eth_unsubscribe stop_subscriptions_polling is_there_active_subscriptions
eth_unsubscribe-IsPolledWhileActive id m h =
    elim (Bool-cases (is_there_active_subscriptions (unsubscribed id m).0)) [
      | inl active ↦
          rw active (unsubscribed-has_poll id m ∙ h ∙ unsubscribed-active id m active ∙ sym active)
      | inr idle ↦ rw idle (sym idle)
    ]

poll_block-IsPolledWhileActive :
    (noble : Noble) (http : Http) (m : SubscriptionManager) (found : Option CompressedBlockDetail)
    (r : SubscriptionManager × List SubscriptionEvent)
    → IsPolledWhileActive m
    → poll_block noble http m found ≡ ok r
    → IsPolledWhileActive r.0
unfolding poll_block is_there_active_subscriptions
poll_block-IsPolledWhileActive noble http m none r h e =
    subst (λ x. IsPolledWhileActive x.0) (ok-injective e) h
poll_block-IsPolledWhileActive noble http m (some block) r h e =
    let (more, logged, e') =
      >>=-eq-ok (get_logs_rpc noble http m.current_block_number m.log_subscriptions) _ e in
    subst (λ x. IsPolledWhileActive x.0) (ok-injective e') h

Step-IsPolledWhileActive :
    {noble : Noble} {m n : SubscriptionManager}
    → Step noble m n
    → IsPolledWhileActive m
    → IsPolledWhileActive n
unfolding poll_function
Step-IsPolledWhileActive {noble} {m} {n} (subscribes http id t h) v =
    eth_subscribe-IsPolledWhileActive http id t m n h
Step-IsPolledWhileActive {noble} {m} (unsubscribes id) v =
    eth_unsubscribe-IsPolledWhileActive id m v
Step-IsPolledWhileActive {noble} {m} (polls http r h) v =
    let (found, f, e) = >>=-eq-ok (get_current_block http m) (poll_block noble http m) h in
    poll_block-IsPolledWhileActive noble http m found r v e
Step-IsPolledWhileActive {noble} {m} (poll_ends http found r h) v =
    poll_block-IsPolledWhileActive noble http m found r v h

-- From a new provider on, whatever is subscribed, unsubscribed and polled, there is a poll exactly
-- where there is a subscription.
pub Reach-IsPolledWhileActive :
    (noble : Noble) (m : SubscriptionManager) → Reach noble new_manager m → IsPolledWhileActive m
unfolding is_there_active_subscriptions
Reach-IsPolledWhileActive noble m here = refl
Reach-IsPolledWhileActive noble m (next r s) =
    Step-IsPolledWhileActive s (Reach-IsPolledWhileActive noble _ r)

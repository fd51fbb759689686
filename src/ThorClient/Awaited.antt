-- ===== src/ThorClient/Awaited.antt =====
-- When waitForTransaction finds a receipt (transactions/transactions-module.ts, utils/poll/sync.ts).
use vechain_sdk_js.Prelude.{
  ℕ, ℤ, suc, zero, pos, negsuc, ◌+◌, ◌<◌, ◌≡◌, refl, ap, sym, ◌∙◌, subst, true, false, Option, none,
  some, arith,
}
use vechain_sdk_js.Result.{ok}
use vechain_sdk_js.Text.{Text}
use vechain_sdk_js.Vcdm.ThorId
use vechain_sdk_js.Poll.{sync_poll, reaches, stops, wait_until, is_positive_or_missing}
use vechain_sdk_js.Poll.Waiting.{wait_until-stops, wait_until-goes_on}
use vechain_sdk_js.Provider.Details.{TransactionReceipt}
use vechain_sdk_js.ThorClient.Http.{Http}
use vechain_sdk_js.ThorClient.Transactions.{get_transaction_receipt}
use vechain_sdk_js.ThorClient.Sending.{
  WaitForTransactionOptions, poll_options, is_found, rounds_of, wait_for_transaction,
}

+-zero : (n : ℕ) → n + 0 ≡ n
+-zero n = omega arith

zero-+ : (n : ℕ) → 0 + n ≡ n
zero-+ n = omega arith

+-suc : (m n : ℕ) → m + suc n ≡ suc m + n
+-suc m n = omega arith

reaches-none : (z : ℤ) → reaches z none ≡ false
reaches-none (pos n) = refl
reaches-none (negsuc n) = refl

module _ (https : ℕ → Http) (clock : ℕ → ℤ) (id : Text) (options : WaitForTransactionOptions)
    (no_timeout : options.timeout_ms ≡ none) where
  abbrev pub Missing : ℕ → Type 0
  Missing i = get_transaction_receipt (https i) id none ≡ ok none

  goes_on_without_timeout :
      (a : Option TransactionReceipt) (i : ℕ) (elapsed : ℤ)
      → is_found a ≡ false
      → stops (poll_options options) is_found (rounds_of https clock id) a i elapsed ≡ false
  goes_on_without_timeout a i elapsed missing = rw (missing, no_timeout) (reaches-none elapsed)

  wait_until-found :
      (k j fuel c : ℕ) (receipt : TransactionReceipt)
      → ((i : ℕ) → i < k → Missing (j + i))
      → get_transaction_receipt (https (j + k)) id none ≡ ok (some receipt)
      → k < fuel
      → wait_until (poll_options options) is_found (rounds_of https clock id) fuel j c
        ≡ some (record { result = ok (some receipt); iterations = suc (k + c) })
  wait_until-found k j zero c receipt missing found enough = absurd (omega arith)
  wait_until-found zero j (suc fuel) c receipt missing found enough =
      let here : get_transaction_receipt (https j) id none ≡ ok (some receipt) =
        subst (λ i. get_transaction_receipt (https i) id none ≡ ok (some receipt)) (+-zero j)
          found in
      let count : c ≡ 0 + c = omega arith in
      wait_until-stops (poll_options options) is_found (rounds_of https clock id) fuel j c
        (some receipt) here refl
      ∙ ap (λ i. some (record { result = ok (some receipt); iterations = suc i })) count
  wait_until-found (suc k) j (suc fuel) c receipt missing found enough =
      let first : 0 < suc k = omega arith in
      let here : Missing j = subst Missing (+-zero j) (missing 0 first) in
      let later : (i : ℕ) → i < k → Missing (suc j + i) = λ i h.
        let below : suc i < suc k = omega (arith, h) in
        subst Missing (+-suc j i) (missing (suc i) below) in
      let found' : get_transaction_receipt (https (suc j + k)) id none ≡ ok (some receipt) =
        subst (λ i. get_transaction_receipt (https i) id none ≡ ok (some receipt)) (+-suc j k)
          found in
      let rest : k < fuel = omega (arith, enough) in
      let count : k + suc c ≡ suc k + c = omega arith in
      wait_until-goes_on (poll_options options) is_found (rounds_of https clock id) fuel j c none
        here (goes_on_without_timeout none (suc c) (clock j) refl)
      ∙ wait_until-found k (suc j) fuel (suc c) receipt later found' rest
      ∙ ap (λ i. some (record { result = ok (some receipt); iterations = suc i })) count

  -- A wait with no timeout, for a receipt that the node does not have in the first k rounds and has in
  -- the next, ends in that round with the receipt, if the identifier is valid and the interval is
  -- positive or left out: k + 1 rounds are enough.
  pub wait_for_transaction-found :
      (k fuel : ℕ) (receipt : TransactionReceipt)
      → ThorId.is_valid id ≡ true
      → is_positive_or_missing options.interval_ms ≡ true
      → ((i : ℕ) → i < k → get_transaction_receipt (https i) id none ≡ ok none)
      → get_transaction_receipt (https k) id none ≡ ok (some receipt)
      → k < fuel
      → wait_for_transaction fuel https clock id options
        ≡ ok (some (record { result = ok (some receipt); iterations = suc k }))
  unfolding wait_for_transaction sync_poll
  wait_for_transaction-found k fuel receipt valid interval missing found enough =
      let timeout : is_positive_or_missing options.timeout_ms ≡ true = rw no_timeout refl in
      let earlier : (i : ℕ) → i < k → Missing (0 + i) =
        λ i h. subst Missing (sym (zero-+ i)) (missing i h) in
      let found' : get_transaction_receipt (https (0 + k)) id none ≡ ok (some receipt) =
        subst (λ i. get_transaction_receipt (https i) id none ≡ ok (some receipt)) (sym (zero-+ k))
          found in
      let waited =
        wait_until-found k 0 fuel 0 receipt earlier found' enough
        ∙ ap (λ i. some (record { result = ok (some receipt); iterations = suc i })) (+-zero k) in
      rw (valid, interval, timeout) (ap ok waited)

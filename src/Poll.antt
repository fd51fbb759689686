-- ===== src/Poll.antt =====
-- packages/network/src/utils/poll/sync.ts: polling a function until a condition holds. What the
-- function returns or throws and what the clock shows are given round by round.
pub mod Waiting
pub mod Event
pub mod Listening
pub mod Moments
pub mod Stopping
use vechain_sdk_js.Prelude.{
  ℕ, zero, suc, ℤ, pos, negsuc, Bool, true, false, ◌||◌, Option, none, some, leb, if◌then◌else◌,
}
use vechain_sdk_js.Result.{Result, ok, err, invalid_data_type, poll_execution, require, ◌>>=◌, ◌>>◌}
use vechain_sdk_js.Number.{Number, int}

-- `SyncPollInputOptions`
pub record SyncPollInputOptions : Type 0 where
  pub request_interval_in_milliseconds : Option Number
  pub maximum_iterations : Option Number
  pub maximum_waiting_time_in_milliseconds : Option Number

-- `option === undefined || !(option <= 0 || !Number.isInteger(option))`
abbrev pub is_positive_or_missing : Option Number → Bool
is_positive_or_missing none = true
is_positive_or_missing (some (int (pos (suc n)))) = true
is_positive_or_missing (some n) = false

-- The checks of `SyncPoll`; it starts with no iteration done.
unfoldable pub sync_poll : SyncPollInputOptions → Result ℕ
sync_poll options = do
  require (is_positive_or_missing options.request_interval_in_milliseconds)
      (invalid_data_type "SyncPoll()")
  require (is_positive_or_missing options.maximum_iterations) (invalid_data_type "SyncPoll()")
  require (is_positive_or_missing options.maximum_waiting_time_in_milliseconds)
      (invalid_data_type "SyncPoll()")
  ok 0

-- `value >= limit`, where the option is there
abbrev pub reaches : ℤ → Option Number → Bool
reaches (pos n) (some (int (pos m))) = leb m n
reaches _ _ = false

-- One call of the polling function, and `Date.now() - startTime` after it and the sleep.
pub record Round {ℓ} (A : Type ℓ) : Type ℓ where
  pub outcome : Result A
  pub elapsed : ℤ

-- How a call of `waitUntil` ends, with the iterations that the poll has done by then.
pub record Waited {ℓ} (A : Type ℓ) : Type ℓ where
  pub result : Result A
  pub iterations : ℕ

module _ {ℓ} {A : Type ℓ} (options : SyncPollInputOptions) (condition : A → Bool)
    (rounds : ℕ → Round A) where
  -- `!pollingCondition`, after the iterations that are given.
  abbrev pub stops : A → ℕ → ℤ → Bool
  stops a iterations elapsed =
      condition a
      || reaches (pos iterations) options.maximum_iterations
      || reaches elapsed options.maximum_waiting_time_in_milliseconds

  -- The rest of a round, once the polling function has returned or thrown: the end of the loop, or
  -- what the next rounds give.
  abbrev pub after_round : Result A → ℤ → ℕ → Option (Waited A) → Option (Waited A)
  after_round (err e) elapsed iterations rest =
      some
        (record { result = err (poll_execution "SyncPoll.waitUntil()"); iterations = iterations })
  after_round (ok a) elapsed iterations rest =
      if stops a (suc iterations) elapsed
      then some (record { result = ok a; iterations = suc iterations })
      else rest

  -- The loop of `waitUntil` from a round on, with at most so many rounds to go.
  unfoldable pub wait_until : ℕ → ℕ → ℕ → Option (Waited A)
  wait_until zero round iterations = none
  wait_until (suc fuel) round iterations =
      let rest = wait_until fuel (suc round) (suc iterations) in
      after_round (rounds round).outcome (rounds round).elapsed iterations rest

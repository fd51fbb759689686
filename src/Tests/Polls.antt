-- ===== src/Tests/Polls.antt =====
-- Polling at concrete inputs.
use vechain_sdk_js.Prelude.{ℕ, ◌≡◌, ◌≤◌, ◌+◌, max, refl, pos, Bool, none, some, arith, ◌==◌}
use vechain_sdk_js.Result.{ok}
use vechain_sdk_js.Number.{int}
use vechain_sdk_js.Poll.{SyncPollInputOptions, Round, Waited, wait_until}
use vechain_sdk_js.Poll.Waiting.{Earlier, wait_until-returns, wait_until-Earlier}

abbrev test_options : SyncPollInputOptions
test_options = record {
  request_interval_in_milliseconds = none;
  maximum_iterations = some (int (pos 5));
  maximum_waiting_time_in_milliseconds = none;
}

-- The third call returns what is waited for.
abbrev is_two : ℕ → Bool
is_two n = n == 2

abbrev counting : ℕ → Round ℕ
counting n = record { outcome = ok n; elapsed = pos 0 }

wait_until-returns_example :
    (w : Waited ℕ) × (wait_until test_options is_two counting 5 0 0 ≡ some w)
    × (w.iterations ≤ max 1 5)
wait_until-returns_example =
    wait_until-returns test_options is_two counting 5 5 0 0 refl (omega arith) (omega arith)

abbrev third : Waited ℕ
third = record { result = ok 2; iterations = 3 }

third_check : wait_until test_options is_two counting 5 0 0 ≡ some third
unfolding wait_until
third_check = refl

wait_until-Earlier_example : Earlier test_options is_two counting (0 + 1)
wait_until-Earlier_example =
    wait_until-Earlier test_options is_two counting 5 0 0 1 third third_check (omega arith)

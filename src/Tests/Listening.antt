-- ===== src/Tests/Listening.antt =====
-- Event polls at concrete inputs.
use vechain_sdk_js.Prelude.{ℕ, suc, ◌+◌, ◌≤◌, ◌≡◌, refl, subst, true, false, none, some, [], ◌∷◌}
use vechain_sdk_js.Result.{ok, err, syntax_error}
use vechain_sdk_js.Poll.Event.{
  start, error, loop_error, EventPoll, Reaction, Handlers, fresh, new, start_listen, started,
  interval_loop, stop_listen, Step, starts, start_ends, fires, call_ends, Reach, here, next,
}
use vechain_sdk_js.Poll.Listening.{values, errors}
use vechain_sdk_js.Poll.Moments.{IsValid, Reach-IsValid}
use vechain_sdk_js.Poll.Stopping.{Reach-stop_listen}

abbrev new_poll : EventPoll ℕ
new_poll = fresh true

new_check : new {A = ℕ} none true ≡ ok new_poll
unfolding new
new_check = refl

abbrev silent : Reaction
silent = record { stops = false; throws = false }

abbrev throwing : Reaction
throwing = record { stops = false; throws = true }

abbrev listened : Handlers
listened = record { on_data = silent; on_error = silent; stop_throws = false }

-- A handler of `data` that throws, and no handler of `error`
abbrev unheard : Handlers
unheard = record { on_data = throwing; on_error = throwing; stop_throws = false }

-- The poll is started, and its first call returns; its timer fires.
abbrev listening : EventPoll ℕ
listening = started listened (ok 5) (record (start_listen new_poll) { starting = 0 })

abbrev fired : EventPoll ℕ
fired = record listening { pending = 1 }

starting_check : (start_listen new_poll).starting ≡ 1
unfolding start_listen
starting_check = refl

timers_check : listening.timers ≡ 0 ∷ []
unfolding started start_listen
timers_check = refl

pending_check : listening.pending ≡ 0
unfolding started start_listen
pending_check = refl

-- With no handler of `error`, the first call that throws leaves a poll with no timer, no stop and no
-- iteration.
unheard_check :
    started unheard (err syntax_error) (record (start_listen new_poll) { starting = 0 })
    ≡ record new_poll {
      rejected = 1;
      last_error = some loop_error;
      log = error loop_error ∷ start ∷ [];
    }
unfolding started start_listen
unheard_check = refl

fires_once : Step listening fired
fires_once =
    subst (λ n. Step listening (record listening { pending = suc n })) pending_check
      (fires 0 [] timers_check)

Reach-fired : Reach new_poll fired
Reach-fired =
    next (next (next here (starts refl)) (start_ends listened (ok 5) 0 starting_check)) fires_once

Reach-IsValid_example : IsValid fired
Reach-IsValid_example = Reach-IsValid none true new_poll fired new_check Reach-fired

fired-IsValid : IsValid fired
fired-IsValid = Reach-IsValid none true new_poll fired new_check Reach-fired

-- It is stopped while a call is on its way, which then returns; the handler of the data throws.
abbrev drained : EventPoll ℕ
drained = interval_loop unheard (ok 6) (record (stop_listen fired) { pending = 0 })

drained_check : (values drained.log ≡ 2) × (errors drained.log ≡ 1)
unfolding started start_listen values errors
drained_check = (refl, refl)

stopped_check : (stop_listen fired).pending ≡ 1
unfolding stop_listen
stopped_check = refl

idle_check : fired.starting ≡ 0
unfolding started start_listen
idle_check = refl

Reach-stop_listen_example :
    (drained.timers ≡ [])
    × (values drained.log ≤ values fired.log + fired.pending)
    × (errors drained.log ≤ errors fired.log + fired.pending)
Reach-stop_listen_example =
    Reach-stop_listen fired drained fired-IsValid idle_check
      (next here (call_ends unheard (ok 6) 0 stopped_check))

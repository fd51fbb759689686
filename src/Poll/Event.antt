-- ===== src/Poll/Event.antt =====
-- packages/network/src/utils/poll/event.ts: polling on a timer. What happens to a poll is a sequence
-- of steps: a call of its methods, a firing of one of its timers, or the end of a call of the polling
-- function with what it returned or threw. Calls may overlap, so a call may end after the poll was
-- stopped. `log` holds the calls of `emit`, the latest first. A handler of `data` or of `error` may call
-- `stopListen`, and it may throw; an `error` with no handler makes `emit` throw as well. `setInterval`
-- keeps on firing after a rejected call. What the polling function throws is an object with a message.
use vechain_sdk_js.Prelude.{
  ℕ, suc, ◌+◌, ◌≡◌, Bool, true, false, Option, none, some, List, [], ◌∷◌, if◌then◌else◌, ◌==◌,
}
use vechain_sdk_js.Result.{Error, Result, ok, err, invalid_data_type, poll_execution, require, ◌>>◌}
use vechain_sdk_js.Number.{Number}
use vechain_sdk_js.Poll.{is_positive_or_missing}

-- The events of the emitter. `data` is called `value`.
pub data Emitted {ℓ} (A : Type ℓ) : Type ℓ where
  start : Emitted A
  value : A → Emitted A
  error : Error → Emitted A
  stop : Emitted A

-- What the handlers of an event do while it is emitted: they stop the poll, and they throw.
pub record Reaction : Type 0 where
  pub stops : Bool
  pub throws : Bool

-- The handlers of `data` and of `error`, and whether a handler of `stop` throws when it is emitted after
-- an error.
pub record Handlers : Type 0 where
  pub on_data : Reaction
  pub on_error : Reaction
  pub stop_throws : Bool

pub record EventPoll {ℓ} (A : Type ℓ) : Type ℓ where
  pub current_iteration : ℕ
  pub last_error : Option Error
  pub has_to_stop_on_error : Bool
  pub interval_id : Option ℕ
  -- the timers that fire, the identifier of the next one, and the calls of the polling function that
  -- are on their way: those of `startListen`, and those of a timer
  pub timers : List ℕ
  pub next_id : ℕ
  pub starting : ℕ
  pub pending : ℕ
  -- the calls of `_intervalLoop` that were rejected, and those in which a handler of `data` threw
  pub rejected : ℕ
  pub thrown : ℕ
  pub log : List (Emitted A)

-- `clearInterval` of one timer
unfoldable pub clear : ℕ → List ℕ → List ℕ
clear id [] = []
clear id (t ∷ ts) = let rest = clear id ts in if t == id then rest else t ∷ rest

unfoldable pub clear_interval : Option ℕ → List ℕ → List ℕ
unfolding clear
clear_interval none timers = timers
clear_interval (some id) timers = clear id timers

abbrev pub loop_error : Error
loop_error = poll_execution "EventPoll - main interval loop function"

module _ {ℓ} {A : Type ℓ} where
  abbrev pub fresh : Bool → EventPoll A
  fresh has_to_stop_on_error = record {
    current_iteration = 0;
    last_error = none;
    has_to_stop_on_error = has_to_stop_on_error;
    interval_id = none;
    timers = [];
    next_id = 0;
    starting = 0;
    pending = 0;
    rejected = 0;
    thrown = 0;
    log = [];
  }

  -- The constructor.
  unfoldable pub new : Option Number → Bool → Result (EventPoll A)
  new request_interval has_to_stop_on_error = do
    require (is_positive_or_missing request_interval) (invalid_data_type "SyncPoll()")
    ok (fresh has_to_stop_on_error)

  unfoldable pub emit : Emitted A → EventPoll A → EventPoll A
  emit event p = record p { log = event ∷ p.log }

  -- `stopListen`
  unfoldable pub stop_listen : EventPoll A → EventPoll A
  unfolding emit clear_interval
  stop_listen p = emit stop (record p { timers = clear_interval p.interval_id p.timers })

  abbrev pub react : Bool → EventPoll A → EventPoll A
  react true p = stop_listen p
  react false p = p

  abbrev pub counted : EventPoll A → EventPoll A
  counted p = record p { current_iteration = p.current_iteration + 1 }

  -- The end of a call of `_intervalLoop`: it is rejected, or the iteration is counted.
  abbrev pub ended : Bool → EventPoll A → EventPoll A
  ended true p = record p { rejected = p.rejected + 1 }
  ended false p = counted p

  -- The poll after `emit('error')`
  abbrev pub with_error : EventPoll A → EventPoll A
  with_error p = emit (error loop_error) (record p { last_error = some loop_error })

  -- The `catch` of `_intervalLoop`, after `emit('error')` has returned, and what follows it
  abbrev pub caught : Bool → Bool → EventPoll A → EventPoll A
  caught true stop_throws p = ended stop_throws (stop_listen p)
  caught false stop_throws p = ended false p

  abbrev pub after_error : Bool → Bool → EventPoll A → EventPoll A
  after_error true stop_throws p = ended true p
  after_error false stop_throws p = caught p.has_to_stop_on_error stop_throws p

  -- The `catch` of `_intervalLoop`, and what follows it
  unfoldable pub failed : Handlers → EventPoll A → EventPoll A
  unfolding emit stop_listen
  failed h p = after_error h.on_error.throws h.stop_throws (react h.on_error.stops (with_error p))

  -- After `emit('data')` in the `try`
  abbrev pub after_data : Bool → Handlers → EventPoll A → EventPoll A
  after_data true h p = failed h (record p { thrown = p.thrown + 1 })
  after_data false h p = ended false p

  -- `_intervalLoop`, once the polling function has returned or thrown
  unfoldable pub interval_loop : Handlers → Result A → EventPoll A → EventPoll A
  unfolding emit stop_listen failed
  interval_loop h (ok a) p =
      after_data h.on_data.throws h (react h.on_data.stops (emit (value a) p))
  interval_loop h (err e) p = failed h p

  -- `startListen`, up to its call of `_intervalLoop`
  unfoldable pub start_listen : EventPoll A → EventPoll A
  unfolding emit
  start_listen p = emit start (record p { starting = suc p.starting })

  -- `setInterval`
  unfoldable pub set_interval : EventPoll A → EventPoll A
  set_interval p = record p {
    interval_id = some p.next_id;
    timers = p.next_id ∷ p.timers;
    next_id = suc p.next_id;
  }

  -- A call of `startListen` ends, and `then` sets the timer where `_intervalLoop` was not rejected.
  abbrev pub then_set : Bool → EventPoll A → EventPoll A
  then_set true p = set_interval p
  then_set false p = p

  unfoldable pub started : Handlers → Result A → EventPoll A → EventPoll A
  unfolding interval_loop set_interval
  started h r p = let q = interval_loop h r p in then_set (q.rejected == p.rejected) q

  -- What may happen to a poll that is started at most once.
  pub data Step (p : EventPoll A) : EventPoll A → Type ℓ where
    starts : p.log ≡ [] → Step p (start_listen p)
    -- a handler of `start` throws, and `startListen` with it
    start_throws : p.log ≡ [] → Step p (emit start p)
    start_ends :
        (h : Handlers) (r : Result A) (n : ℕ)
        → p.starting ≡ suc n
        → Step p (started h r (record p { starting = n }))
    fires :
        (t : ℕ) (ts : List ℕ) → p.timers ≡ t ∷ ts → Step p (record p { pending = suc p.pending })
    call_ends :
        (h : Handlers) (r : Result A) (n : ℕ)
        → p.pending ≡ suc n
        → Step p (interval_loop h r (record p { pending = n }))
    is_stopped : Step p (stop_listen p)

  pub data Reach (p : EventPoll A) : EventPoll A → Type ℓ where
    here : Reach p p
    next : {q r : EventPoll A} → Reach p q → Step q r → Reach p r

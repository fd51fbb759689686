-- ===== src/Poll/Listening.antt =====
-- How the fragments of a call of an event poll change it (utils/poll/event.ts).
use vechain_sdk_js.Prelude.{
  ℕ, suc, ◌+◌, ◌≤◌, ◌≡◌, refl, ap, sym, ◌∙◌, subst, Bool, true, false, Option, none, some, List, [],
  ◌∷◌, length, arith,
}
use vechain_sdk_js.Result.{Error, Result, ok, err}
use vechain_sdk_js.Poll.Event.{
  start, value, error, stop, Emitted, EventPoll, Handlers, clear, clear_interval, emit, stop_listen,
  react, ended, with_error, caught, after_error, failed, after_data, interval_loop,
}

-- No timer but the one that `stopListen` clears.
abbrev pub IsTimed : Option ℕ → List ℕ → Type 0
IsTimed none [] = Unit
IsTimed none (t ∷ ts) = ⊥
IsTimed (some id) [] = Unit
IsTimed (some id) (t ∷ []) = t ≡ id
IsTimed (some id) (t ∷ u ∷ ts) = ⊥

pub clear_interval-timed :
    (id : Option ℕ) (timers : List ℕ) → IsTimed id timers → clear_interval id timers ≡ []
unfolding clear_interval clear
clear_interval-timed none [] h = refl
clear_interval-timed none (t ∷ ts) h = absurd h
clear_interval-timed (some id) [] h = refl
clear_interval-timed (some id) (t ∷ []) h = ground arith
clear_interval-timed (some id) (t ∷ u ∷ ts) h = absurd h

pub IsTimed-nil : (id : Option ℕ) → IsTimed id []
IsTimed-nil none = tt
IsTimed-nil (some id) = tt

module _ {ℓ} {A : Type ℓ} where
  -- The data and the errors in a log.
  unfoldable pub values : List (Emitted A) → ℕ
  values [] = 0
  values (value a ∷ log) = suc (values log)
  values (error e ∷ log) = values log
  values (start ∷ log) = values log
  values (stop ∷ log) = values log

  unfoldable pub errors : List (Emitted A) → ℕ
  errors [] = 0
  errors (error e ∷ log) = suc (errors log)
  errors (value a ∷ log) = errors log
  errors (start ∷ log) = errors log
  errors (stop ∷ log) = errors log

  -- The error that was emitted last.
  unfoldable pub latest_error : List (Emitted A) → Option Error
  latest_error [] = none
  latest_error (error e ∷ log) = some e
  latest_error (value a ∷ log) = latest_error log
  latest_error (start ∷ log) = latest_error log
  latest_error (stop ∷ log) = latest_error log

  -- A part of a call leaves the calls that are on their way and sets no timer. It adds `ends` to the
  -- iterations, rejected calls and throwing handlers, and emits `vs` data and `es` errors.
  pub record Keeps (ends vs es : ℕ) (p q : EventPoll A) : Type ℓ where
    pub starting : q.starting ≡ p.starting
    pub pending : q.pending ≡ p.pending
    pub interval_id : q.interval_id ≡ p.interval_id
    pub timed : IsTimed p.interval_id p.timers → IsTimed q.interval_id q.timers
    pub fewer : IsTimed p.interval_id p.timers → length q.timers ≤ length p.timers
    pub ended :
        q.current_iteration + q.rejected + q.thrown
        ≡ p.current_iteration + p.rejected + p.thrown + ends
    pub values : values q.log ≡ values p.log + vs
    pub errors : errors q.log ≡ errors p.log + es
    pub latest : p.last_error ≡ latest_error p.log → q.last_error ≡ latest_error q.log
    pub logged : q.log ≡ [] → p.log ≡ []

  Keeps-trans :
      {c v e c' v' e' : ℕ} {p q r : EventPoll A}
      → Keeps c v e p q
      → Keeps c' v' e' q r
      → Keeps (c + c') (v + v') (e + e') p r
  Keeps-trans k m = record {
    starting = m.starting ∙ k.starting;
    pending = m.pending ∙ k.pending;
    interval_id = m.interval_id ∙ k.interval_id;
    timed = λ t. m.timed (k.timed t);
    fewer = λ t. omega (arith, k.fewer t, m.fewer (k.timed t));
    ended = omega (arith, k.ended, m.ended);
    values = omega (arith, k.values, m.values);
    errors = omega (arith, k.errors, m.errors);
    latest = λ h. m.latest (k.latest h);
    logged = λ h. k.logged (m.logged h);
  }

  pub stop_listen-Keeps : (p : EventPoll A) → Keeps 0 0 0 p (stop_listen p)
  unfolding stop_listen emit values errors latest_error
  stop_listen-Keeps p = record {
    starting = refl;
    pending = refl;
    interval_id = refl;
    timed = λ t.
        subst (λ ts. IsTimed p.interval_id ts) (sym (clear_interval-timed p.interval_id p.timers t))
          (IsTimed-nil p.interval_id);
    fewer = λ t. omega (arith, ap length (clear_interval-timed p.interval_id p.timers t));
    ended = omega arith;
    values = omega arith;
    errors = omega arith;
    latest = λ h. h;
    logged = λ h. cc h;
  }

  react-Keeps : (b : Bool) (p : EventPoll A) → Keeps 0 0 0 p (react b p)
  react-Keeps true p = stop_listen-Keeps p
  react-Keeps false p = record {
    starting = refl;
    pending = refl;
    interval_id = refl;
    timed = λ t. t;
    fewer = λ t. omega arith;
    ended = omega arith;
    values = omega arith;
    errors = omega arith;
    latest = λ h. h;
    logged = λ h. h;
  }

  value-Keeps : (a : A) (p : EventPoll A) → Keeps 0 1 0 p (emit (value a) p)
  unfolding emit values errors latest_error
  value-Keeps a p = record {
    starting = refl;
    pending = refl;
    interval_id = refl;
    timed = λ t. t;
    fewer = λ t. omega arith;
    ended = omega arith;
    values = omega arith;
    errors = omega arith;
    latest = λ h. h;
    logged = λ h. cc h;
  }

  with_error-Keeps : (p : EventPoll A) → Keeps 0 0 1 p (with_error p)
  unfolding emit values errors latest_error
  with_error-Keeps p = record {
    starting = refl;
    pending = refl;
    interval_id = refl;
    timed = λ t. t;
    fewer = λ t. omega arith;
    ended = omega arith;
    values = omega arith;
    errors = omega arith;
    latest = λ h. refl;
    logged = λ h. cc h;
  }

  thrown-Keeps : (p : EventPoll A) → Keeps 1 0 0 p (record p { thrown = p.thrown + 1 })
  thrown-Keeps p = record {
    starting = refl;
    pending = refl;
    interval_id = refl;
    timed = λ t. t;
    fewer = λ t. omega arith;
    ended = omega arith;
    values = omega arith;
    errors = omega arith;
    latest = λ h. h;
    logged = λ h. h;
  }

  ended-Keeps : (b : Bool) (p : EventPoll A) → Keeps 1 0 0 p (ended b p)
  ended-Keeps true p = record {
    starting = refl;
    pending = refl;
    interval_id = refl;
    timed = λ t. t;
    fewer = λ t. omega arith;
    ended = omega arith;
    values = omega arith;
    errors = omega arith;
    latest = λ h. h;
    logged = λ h. h;
  }
  ended-Keeps false p = record {
    starting = refl;
    pending = refl;
    interval_id = refl;
    timed = λ t. t;
    fewer = λ t. omega arith;
    ended = omega arith;
    values = omega arith;
    errors = omega arith;
    latest = λ h. h;
    logged = λ h. h;
  }

  caught-Keeps : (b c : Bool) (p : EventPoll A) → Keeps 1 0 0 p (caught b c p)
  caught-Keeps true c p = Keeps-trans (stop_listen-Keeps p) (ended-Keeps c (stop_listen p))
  caught-Keeps false c p = ended-Keeps false p

  after_error-Keeps : (b c : Bool) (p : EventPoll A) → Keeps 1 0 0 p (after_error b c p)
  after_error-Keeps true c p = ended-Keeps true p
  after_error-Keeps false c p = caught-Keeps p.has_to_stop_on_error c p

  failed-Keeps : (h : Handlers) (p : EventPoll A) → Keeps 1 0 1 p (failed h p)
  unfolding failed
  failed-Keeps h p =
      Keeps-trans (Keeps-trans (with_error-Keeps p) (react-Keeps h.on_error.stops (with_error p)))
        (after_error-Keeps h.on_error.throws h.stop_throws (react h.on_error.stops (with_error p)))

  -- What a call of `_intervalLoop` does that emits `vs` data and `es` errors.
  pub record Ends (p q : EventPoll A) : Type ℓ where
    pub vs : ℕ
    pub es : ℕ
    pub at_most_one : (vs ≤ 1) × (es ≤ 1)
    pub keeps : Keeps (vs + es) vs es p q

  after_data-Ends :
      (b : Bool) (h : Handlers) (p q : EventPoll A) → Keeps 0 1 0 p q → Ends p (after_data b h q)
  after_data-Ends true h p q k = record {
    vs = 1;
    es = 1;
    at_most_one = (omega arith, omega arith);
    keeps =
        Keeps-trans k
          (Keeps-trans (thrown-Keeps q) (failed-Keeps h (record q { thrown = q.thrown + 1 })));
  }
  after_data-Ends false h p q k = record {
    vs = 1;
    es = 0;
    at_most_one = (omega arith, omega arith);
    keeps = Keeps-trans k (ended-Keeps false q);
  }

  pub interval_loop-Ends :
      (h : Handlers) (r : Result A) (p : EventPoll A) → Ends p (interval_loop h r p)
  unfolding interval_loop
  interval_loop-Ends h (ok a) p =
      after_data-Ends h.on_data.throws h p (react h.on_data.stops (emit (value a) p))
        (Keeps-trans (value-Keeps a p) (react-Keeps h.on_data.stops (emit (value a) p)))
  interval_loop-Ends h (err e) p = record {
    vs = 0;
    es = 1;
    at_most_one = (omega arith, omega arith);
    keeps = failed-Keeps h p;
  }

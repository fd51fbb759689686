-- ===== src/Poll/Stopping.antt =====
-- What comes after an event poll is stopped (utils/poll/event.ts).
use vechain_sdk_js.Prelude.{ℕ, suc, ◌+◌, ◌≤◌, ◌≡◌, ap, ◌∙◌, subst, sym, [], length, arith}
use vechain_sdk_js.Result.{Result}
use vechain_sdk_js.Poll.Event.{
  EventPoll, Handlers, stop_listen, emit, interval_loop, starts, start_throws, start_ends, fires,
  call_ends, is_stopped, Step, here, next, Reach,
}
use vechain_sdk_js.Poll.Listening.{
  values, errors, IsTimed, IsTimed-nil, clear_interval-timed, Keeps, stop_listen-Keeps,
  interval_loop-Ends,
}
use vechain_sdk_js.Poll.Moments.{IsValid, length-eq_nil}

module _ {ℓ} {A : Type ℓ} where
  -- A poll that is started, with no timer: what is left are the calls on their way.
  record IsQuiet (max_values max_errors : ℕ) (p : EventPoll A) : Type ℓ where
    pub idle : p.starting ≡ 0
    pub untimed : p.timers ≡ []
    pub logged : p.log ≡ [] → ⊥
    pub values_left : values p.log + p.pending ≤ max_values
    pub errors_left : errors p.log + p.pending ≤ max_errors

  Keeps-untimed : {c v e : ℕ} {p q : EventPoll A} → Keeps c v e p q → p.timers ≡ [] → q.timers ≡ []
  Keeps-untimed {c} {v} {e} {p} {q} k h =
      let timed = subst (λ ts. IsTimed p.interval_id ts) (sym h) (IsTimed-nil p.interval_id) in
      length-eq_nil q.timers (omega (arith, k.fewer timed, ap length h))

  interval_loop-IsQuiet :
      (vs es : ℕ) (h : Handlers) (r : Result A) (n : ℕ) (p : EventPoll A)
      → p.pending ≡ suc n
      → IsQuiet vs es p
      → IsQuiet vs es (interval_loop h r (record p { pending = n }))
  interval_loop-IsQuiet vs es h r n p s q =
      let ends = interval_loop-Ends h r (record p { pending = n }) in
      let k = ends.keeps in
      record {
        idle = k.starting ∙ q.idle;
        untimed = Keeps-untimed k q.untimed;
        logged = λ e. q.logged (k.logged e);
        values_left = omega (arith, k.values, k.pending, s, q.values_left, ends.at_most_one.0);
        errors_left = omega (arith, k.errors, k.pending, s, q.errors_left, ends.at_most_one.1);
      }

  stop_listen-IsQuiet :
      (vs es : ℕ) (p : EventPoll A) → IsQuiet vs es p → IsQuiet vs es (stop_listen p)
  stop_listen-IsQuiet vs es p q =
      let k = stop_listen-Keeps p in
      record {
        idle = k.starting ∙ q.idle;
        untimed = Keeps-untimed k q.untimed;
        logged = λ e. q.logged (k.logged e);
        values_left = omega (arith, k.values, k.pending, q.values_left);
        errors_left = omega (arith, k.errors, k.pending, q.errors_left);
      }

  Step-IsQuiet : {p q : EventPoll A} (vs es : ℕ) → Step p q → IsQuiet vs es p → IsQuiet vs es q
  Step-IsQuiet {p} vs es (starts h) q = absurd (q.logged h)
  Step-IsQuiet {p} vs es (start_throws h) q = absurd (q.logged h)
  Step-IsQuiet {p} vs es (start_ends h r n s) q = absurd (omega (arith, s, q.idle))
  Step-IsQuiet {p} vs es (fires t ts h) q = cc (h, q.untimed)
  Step-IsQuiet {p} vs es (call_ends h r n s) q = interval_loop-IsQuiet vs es h r n p s q
  Step-IsQuiet {p} vs es is_stopped q = stop_listen-IsQuiet vs es p q

  Reach-IsQuiet : {p q : EventPoll A} (vs es : ℕ) → Reach p q → IsQuiet vs es p → IsQuiet vs es q
  Reach-IsQuiet vs es here q = q
  Reach-IsQuiet vs es (next r s) q = Step-IsQuiet vs es s (Reach-IsQuiet vs es r q)

  -- Once a poll whose call of startListen has ended is stopped, no timer of it fires any more, and it
  -- emits at most one datum and at most one error for each call of the polling function that was on
  -- its way.
  pub Reach-stop_listen :
      (p q : EventPoll A)
      → IsValid p
      → p.starting ≡ 0
      → Reach (stop_listen p) q
      → (q.timers ≡ [])
        × (values q.log ≤ values p.log + p.pending)
        × (errors q.log ≤ errors p.log + p.pending)
  unfolding stop_listen emit values errors
  Reach-stop_listen p q v idle r =
      let quiet = Reach-IsQuiet (values p.log + p.pending) (errors p.log + p.pending) r (record {
        idle = idle;
        untimed = clear_interval-timed p.interval_id p.timers v.timed;
        logged = λ h. cc h;
        values_left = omega arith;
        errors_left = omega arith;
      }) in
      (quiet.untimed, omega (arith, quiet.values_left), omega (arith, quiet.errors_left))

-- ===== src/Poll/Moments.antt =====
-- Every moment of an event poll (utils/poll/event.ts).
use vechain_sdk_js.Prelude.{
  ℕ, suc, ◌+◌, ◌≤◌, ◌<◌, ◌≡◌, refl, ap, sym, ◌∙◌, subst, Bool, true, false, Option, none, some,
  List, [], ◌∷◌, length, ◌==◌, arith,
}
use vechain_sdk_js.Result.{Result, ok, invalid_data_type, require-eq-ok}
use vechain_sdk_js.Number.{Number}
use vechain_sdk_js.Poll.{is_positive_or_missing}
use vechain_sdk_js.Poll.Event.{
  EventPoll, Handlers, start, new, fresh, emit, interval_loop, start_listen, set_interval, then_set,
  started, starts, start_throws, start_ends, fires, call_ends, is_stopped, Step, here, next, Reach,
}
use vechain_sdk_js.Poll.Listening.{
  values, errors, latest_error, IsTimed, Keeps, stop_listen-Keeps, interval_loop-Ends,
}

pub length-eq_nil {ℓ} : {B : Type ℓ} (xs : List B) → length xs ≤ 0 → xs ≡ []
length-eq_nil [] h = refl
length-eq_nil (x ∷ xs) h = absurd (omega (arith, h))

module _ {ℓ} {A : Type ℓ} where
  pub record IsValid (p : EventPoll A) : Type ℓ where
    pub counted : p.current_iteration + p.rejected + p.thrown ≡ values p.log + errors p.log
    pub latest : p.last_error ≡ latest_error p.log
    pub timed : IsTimed p.interval_id p.timers
    pub once : p.starting + length p.timers ≤ 1
    pub before : p.log ≡ [] → (p.starting ≡ 0) × (p.timers ≡ []) × (p.interval_id ≡ none)
    pub untimed : 0 < p.starting → p.interval_id ≡ none

  Keeps-IsValid :
      {c v e : ℕ} {p q : EventPoll A} → Keeps c v e p q → c ≡ v + e → IsValid p → IsValid q
  Keeps-IsValid {c} {v} {e} {p} {q} k h w = record {
    counted = omega (arith, k.ended, k.values, k.errors, h, w.counted);
    latest = k.latest w.latest;
    timed = k.timed w.timed;
    once = omega (arith, k.starting, k.fewer w.timed, w.once);
    before = λ e.
        let (idle, untimed, unset) = w.before (k.logged e) in
        (
          k.starting ∙ idle,
          length-eq_nil q.timers (omega (arith, k.fewer w.timed, ap length untimed)),
          k.interval_id ∙ unset,
        );
    untimed = λ m. k.interval_id ∙ w.untimed (omega (arith, k.starting, m));
  }

  interval_loop-IsValid :
      (h : Handlers) (r : Result A) (p : EventPoll A) → IsValid p → IsValid (interval_loop h r p)
  interval_loop-IsValid h r p w = Keeps-IsValid (interval_loop-Ends h r p).keeps refl w

  -- A call of `startListen` that ends.
  fewer-IsValid :
      (p : EventPoll A) (n : ℕ)
      → p.starting ≡ suc n
      → IsValid p
      → IsValid (record p { starting = n })
  fewer-IsValid p n h v = record {
    counted = v.counted;
    latest = v.latest;
    timed = v.timed;
    once = omega (arith, v.once, h);
    before = λ e. absurd (omega (arith, h, (v.before e).0));
    untimed = λ m. absurd (omega (arith, v.once, h, m));
  }

  then_set-IsValid :
      (b : Bool) (p : EventPoll A)
      → p.starting ≡ 0
      → p.timers ≡ []
      → (p.log ≡ [] → ⊥)
      → IsValid p
      → IsValid (then_set b p)
  unfolding set_interval
  then_set-IsValid true p idle untimed logged v = record {
    counted = v.counted;
    latest = v.latest;
    timed = subst (λ ts. IsTimed (some p.next_id) (p.next_id ∷ ts)) (sym untimed) refl;
    once = omega (arith, idle, ap length untimed);
    before = λ e. absurd (logged e);
    untimed = λ m. absurd (omega (arith, m, idle));
  }
  then_set-IsValid false p idle untimed logged v = v

  started-IsValid :
      (h : Handlers) (r : Result A) (n : ℕ) (p : EventPoll A)
      → p.starting ≡ suc n
      → IsValid p
      → IsValid (started h r (record p { starting = n }))
  unfolding started
  started-IsValid h r n p s v =
      let p' = record p { starting = n } in
      let q = interval_loop h r p' in
      let k = (interval_loop-Ends h r p').keeps in
      then_set-IsValid (q.rejected == p.rejected) q (k.starting ∙ omega (arith, s, v.once))
        (length-eq_nil q.timers (omega (arith, k.fewer v.timed, s, v.once)))
        (λ e. absurd (omega (arith, s, (v.before (k.logged e)).0)))
        (interval_loop-IsValid h r p' (fewer-IsValid p n s v))

  start_listen-IsValid : (p : EventPoll A) → p.log ≡ [] → IsValid p → IsValid (start_listen p)
  unfolding start_listen emit values errors latest_error
  start_listen-IsValid p h v =
      let (idle, untimed, unset) = v.before h in
      record {
        counted = v.counted;
        latest = v.latest;
        timed = v.timed;
        once = omega (arith, idle, ap length untimed);
        before = λ e. cc e;
        untimed = λ m. unset;
      }

  start_throws-IsValid : (p : EventPoll A) → IsValid p → IsValid (emit start p)
  unfolding emit values errors latest_error
  start_throws-IsValid p v = record {
    counted = v.counted;
    latest = v.latest;
    timed = v.timed;
    once = v.once;
    before = λ e. cc e;
    untimed = v.untimed;
  }

  pending-IsValid : (p : EventPoll A) (n : ℕ) → IsValid p → IsValid (record p { pending = n })
  pending-IsValid p n v = record {
    counted = v.counted;
    latest = v.latest;
    timed = v.timed;
    once = v.once;
    before = v.before;
    untimed = v.untimed;
  }

  Step-IsValid : {p q : EventPoll A} → Step p q → IsValid p → IsValid q
  Step-IsValid {p} (starts h) v = start_listen-IsValid p h v
  Step-IsValid {p} (start_throws h) v = start_throws-IsValid p v
  Step-IsValid {p} (start_ends h r n s) v = started-IsValid h r n p s v
  Step-IsValid {p} (fires t ts h) v = pending-IsValid p (suc p.pending) v
  Step-IsValid {p} (call_ends h r n s) v =
      interval_loop-IsValid h r (record p { pending = n }) (pending-IsValid p n v)
  Step-IsValid {p} is_stopped v = Keeps-IsValid (stop_listen-Keeps p) refl v

  fresh-IsValid : (stops : Bool) → IsValid (fresh stops)
  unfolding values errors latest_error
  fresh-IsValid stops = record {
    counted = refl;
    latest = refl;
    timed = tt;
    once = omega arith;
    before = λ e. (refl, refl, refl);
    untimed = λ m. refl;
  }

  new-IsValid :
      (interval : Option Number) (stops : Bool) (p : EventPoll A)
      → new interval stops ≡ ok p
      → IsValid p
  unfolding new
  new-IsValid interval stops p h =
      let (valid, e) =
        require-eq-ok (is_positive_or_missing interval) (invalid_data_type "SyncPoll()")
          (ok (fresh stops)) p h in
      let same : fresh stops ≡ p = cc e in subst IsValid same (fresh-IsValid stops)

  -- At every moment of a poll that is started at most once, its iterations, its rejected calls and the
  -- calls in which a handler of `data` threw are together as many as the data and the errors that it
  -- has emitted, its error is the one that was emitted last, and the only timer that may fire is the
  -- one that stopListen clears.
  pub Reach-IsValid :
      (interval : Option Number) (stops : Bool) (p q : EventPoll A)
      → new interval stops ≡ ok p
      → Reach p q
      → IsValid q
  Reach-IsValid interval stops p q h here = new-IsValid interval stops p h
  Reach-IsValid interval stops p q h (next r s) =
      Step-IsValid s (Reach-IsValid interval stops p _ h r)

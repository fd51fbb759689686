-- ===== src/Poll/Waiting.antt =====
-- When the loop of `waitUntil` ends, and with what (utils/poll/sync.ts).
use vechain_sdk_js.Prelude.{
  ℕ, zero, suc, ◌+◌, ◌≤◌, ◌<◌, ◌≡◌, ◌⊎◌, refl, ap, sym, ◌∙◌, subst, ℤ, pos, Bool, true, false,
  Option, some, arith, Bool-cases, inl, inr, max,
}
use vechain_sdk_js.Result.{Result-cases, Error, Result, ok, err, poll_execution}
use vechain_sdk_js.Number.{int}
use vechain_sdk_js.Poll.{
  SyncPollInputOptions, Round, Waited, reaches, stops, after_round, wait_until,
}

some-injective {ℓ} : {A : Type ℓ} {v w : A} → some v ≡ some w → v ≡ w
some-injective h = cc

module _ {ℓ} {A : Type ℓ} (options : SyncPollInputOptions) (condition : A → Bool)
    (rounds : ℕ → Round A) where
  module _ (fuel round iterations : ℕ) where
    abbrev after : Result A → Option (Waited A)
    after r =
        after_round options condition rounds r (rounds round).elapsed iterations
          (wait_until options condition rounds fuel (suc round) (suc iterations))

    wait_until-throws :
        (e : Error)
        → (rounds round).outcome ≡ err e
        → wait_until options condition rounds (suc fuel) round iterations
          ≡ some (record {
            result = err (poll_execution "SyncPoll.waitUntil()");
            iterations = iterations;
          })
    unfolding wait_until
    wait_until-throws e h = ap (λ r. after r) h

    pub wait_until-stops :
        (a : A)
        → (rounds round).outcome ≡ ok a
        → stops options condition rounds a (suc iterations) (rounds round).elapsed ≡ true
        → wait_until options condition rounds (suc fuel) round iterations
          ≡ some (record { result = ok a; iterations = suc iterations })
    unfolding wait_until
    wait_until-stops a h s = ap (λ r. after r) h ∙ rw s refl

    pub wait_until-goes_on :
        (a : A)
        → (rounds round).outcome ≡ ok a
        → stops options condition rounds a (suc iterations) (rounds round).elapsed ≡ false
        → wait_until options condition rounds (suc fuel) round iterations
          ≡ wait_until options condition rounds fuel (suc round) (suc iterations)
    unfolding wait_until
    wait_until-goes_on a h s = ap (λ r. after r) h ∙ rw s refl

  -- The poll goes on only below its limit of iterations, and where the condition does not hold.
  goes_on_below :
      (m c : ℕ) (a : A) (elapsed : ℤ)
      → options.maximum_iterations ≡ some (int (pos m))
      → stops options condition rounds a (suc c) elapsed ≡ false
      → suc c < m
  goes_on_below m c a elapsed limit s =
      let at : reaches (pos (suc c)) options.maximum_iterations ≡ false = ground (arith, s) in
      let at' = subst (λ o. reaches (pos (suc c)) o ≡ false) limit at in ground (arith, at')

  goes_on_fails :
      (c : ℕ) (a : A) (elapsed : ℤ)
      → stops options condition rounds a (suc c) elapsed ≡ false
      → condition a ≡ false
  goes_on_fails c a elapsed s = ground (arith, s)

  -- With a maximum of iterations the loop ends within them, one at least, whatever the polling
  -- function returns: it never runs out of rounds.
  pub wait_until-returns :
      (m fuel round c : ℕ)
      → options.maximum_iterations ≡ some (int (pos m))
      → m ≤ fuel + c
      → 0 < fuel
      → (w : Waited A) × (wait_until options condition rounds fuel round c ≡ some w)
        × (w.iterations ≤ max (suc c) m)
  wait_until-returns m zero round c limit enough p = absurd (omega arith)
  wait_until-returns m (suc fuel) round c limit enough p =
      elim (Result-cases (rounds round).outcome) [
        | inr (e, h) ↦ (
          record { result = err (poll_execution "SyncPoll.waitUntil()"); iterations = c },
          wait_until-throws fuel round c e h,
          omega arith,
        )
        | inl (a, h) ↦
            elim (Bool-cases (stops options condition rounds a (suc c) (rounds round).elapsed)) [
              | inl s ↦ (
                record { result = ok a; iterations = suc c },
                wait_until-stops fuel round c a h s,
                omega arith,
              )
              | inr s ↦
                  let below = goes_on_below m c a (rounds round).elapsed limit s in
                  let (w, returns, bound) =
                    wait_until-returns m fuel (suc round) (suc c) limit (omega (arith, enough))
                      (omega (arith, below, enough)) in
                  (w, wait_until-goes_on fuel round c a h s ∙ returns, omega (arith, bound, below))
            ]
      ]

  -- What an iteration before the last one of a call was.
  abbrev pub Earlier : ℕ → Type ℓ
  Earlier k = (a : A) × ((rounds k).outcome ≡ ok a) × (condition a ≡ false)

  -- The last iteration of a call and those before it.
  wait_until-step :
      (fuel round c : ℕ) (w : Waited A)
      → wait_until options condition rounds (suc fuel) round c ≡ some w
      → (w.iterations ≤ suc c)
        ⊎ (Earlier round × (wait_until options condition rounds fuel (suc round) (suc c) ≡ some w))
  wait_until-step fuel round c w h = elim (Result-cases (rounds round).outcome) [
    | inr (e, r) ↦
        let same = some-injective (sym (wait_until-throws fuel round c e r) ∙ h) in
        inl (subst (λ v. v.iterations ≤ suc c) same (omega arith))
    | inl (a, r) ↦
        elim (Bool-cases (stops options condition rounds a (suc c) (rounds round).elapsed)) [
          | inl s ↦
              let same = some-injective (sym (wait_until-stops fuel round c a r s) ∙ h) in
              inl (subst (λ v. v.iterations ≤ suc c) same (omega arith))
          | inr s ↦ inr (
            (a, r, goes_on_fails c a (rounds round).elapsed s),
            sym (wait_until-goes_on fuel round c a r s) ∙ h,
          )
        ]
  ]

  -- Every iteration of a call before its last one got a value that did not meet the condition.
  pub wait_until-Earlier :
      (fuel round c j : ℕ) (w : Waited A)
      → wait_until options condition rounds fuel round c ≡ some w
      → c + suc j < w.iterations
      → Earlier (round + j)
  unfolding wait_until
  wait_until-Earlier zero round c j w h p = cc
  wait_until-Earlier (suc fuel) round c zero w h p =
      let e : round ≡ round + 0 = omega arith in
      elim (wait_until-step fuel round c w h) [
        | inl last ↦ absurd (omega (arith, last, p))
        | inr (here, rest) ↦ subst Earlier e here
      ]
  wait_until-Earlier (suc fuel) round c (suc j) w h p =
      let e : suc round + j ≡ round + suc j = omega arith in
      elim (wait_until-step fuel round c w h) [
        | inl last ↦ absurd (omega (arith, last, p))
        | inr (here, rest) ↦
            subst Earlier e
              (wait_until-Earlier fuel (suc round) (suc c) j w rest (omega (arith, p)))
      ]

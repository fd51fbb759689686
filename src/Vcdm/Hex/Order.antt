-- ===== src/Vcdm/Hex/Order.antt =====
-- What `compareTo` of vcdm/Hex.ts compares.
use vechain_sdk_js.Prelude.{
  ℕ, ◌+◌, ◌*◌, ◌<◌, ◌≡◌, refl, sym, ◌∙◌, max, ℤ, pos, negsuc, Bool, true, false, [], ◌∷◌, length,
  All, arith, ◌==◌, ltb, inl, inr, Bool-cases, ==_iff,
}
use vechain_sdk_js.Result.{ok}
use vechain_sdk_js.Text.{Text, Bytes}
use vechain_sdk_js.Text.Positional.{value_from}
use vechain_sdk_js.Text.Bytes.{IsByte}
use vechain_sdk_js.Noble.{Noble}
use vechain_sdk_js.Vcdm.Hex.{
  Sign, negative, positive, Hex, byte_difference, compare_bytes, compare_digits, compare_to,
}
use vechain_sdk_js.Vcdm.Hex.Value.{value, HasDigits, to_bytes-value, fit-value}

-- The three outcomes of a comparison.
abbrev pub is_negative : ℤ → Bool
is_negative (pos n) = false
is_negative (negsuc n) = true

abbrev pub is_zero : ℤ → Bool
is_zero (pos n) = n == 0
is_zero (negsuc n) = false

-- `z` compares two numbers.
pub record Compares (z : ℤ) (a b : ℕ) : Type 0 where
  pub below : is_negative z ≡ ltb a b
  pub same : is_zero z ≡ (a == b)

byte_difference-Compares : (a b : ℕ) → Compares (byte_difference a b) a b
byte_difference-Compares a b = record { below = ground arith; same = ground arith }

-- What stands in front decides.
value_from_mono :
    (m n : ℕ) (these those : Bytes)
    → m < n
    → length these ≡ length those
    → All IsByte these
    → All IsByte those
    → value_from 256 m these < value_from 256 n those
unfolding value_from
value_from_mono m n [] [] h e p q = h
value_from_mono m n [] (b ∷ bs) h e p q = absurd (omega (arith, e))
value_from_mono m n (a ∷ bs) [] h e p q = absurd (omega (arith, e))
value_from_mono m n (a ∷ these) (b ∷ those) h e p q =
    value_from_mono (m * 256 + a) (n * 256 + b) these those (omega (arith, p.0, q.0, h))
      (omega (arith, e)) p.1 q.1

-- The first bytes that differ decide, as in the numbers.
compare_bytes-Compares :
    (acc : ℕ) (these those : Bytes)
    → length these ≡ length those
    → All IsByte these
    → All IsByte those
    → Compares (compare_bytes these those) (value_from 256 acc these) (value_from 256 acc those)
unfolding value_from compare_bytes
compare_bytes-Compares acc [] [] e p q = record { below = ground arith; same = ground arith }
compare_bytes-Compares acc [] (b ∷ bs) e p q = absurd (omega (arith, e))
compare_bytes-Compares acc (a ∷ bs) [] e p q = absurd (omega (arith, e))
compare_bytes-Compares acc (a ∷ these) (b ∷ those) e p q =
    let sizes : length these ≡ length those = omega (arith, e) in
    let m = acc * 256 + a in
    let n = acc * 256 + b in
    elim (Bool-cases (a == b)) [
      | inl h ↦
          let same = (==_iff a b).0 h in
          let rest = compare_bytes-Compares m these those sizes p.1 q.1 in rw (h, ← same) rest
      | inr h ↦ elim (Bool-cases (ltb a b)) [
        | inl l ↦
            let less = value_from_mono m n these those (ground (arith, l)) sizes p.1 q.1 in
            let d = byte_difference-Compares a b in
            rw h (record {
              below = ground (arith, d.below, l, less);
              same = ground (arith, d.same, h, less);
            })
        | inr l ↦
            let more = value_from_mono n m those these (ground (arith, l, h)) (sym sizes) q.1 p.1 in
            let d = byte_difference-Compares a b in
            rw h (record {
              below = ground (arith, d.below, l, more);
              same = ground (arith, d.same, h, more);
            })
      ]
    ]

module _ (noble : Noble) where
  -- Both numbers are filled up to the longer one, so their bytes are compared in place.
  compare_digits-Compares :
      (this that : Hex)
      → HasDigits this
      → HasDigits that
      → (z : ℤ) × (compare_digits noble this that ≡ ok z) × Compares z (value this) (value that)
  unfolding compare_digits
  compare_digits-Compares this that h k =
      let n = max (length this.digits) (length that.digits) in
      let (r, fits, f) = fit-value n this h (omega arith) in
      let (s, fits', g) = fit-value n that k (omega arith) in
      let (these, read, same, size, valid) = to_bytes-value noble r f.digits in
      let (those, read', same', size', valid') = to_bytes-value noble s g.digits in
      let sizes : length these ≡ length those = omega (arith, size, size', f.full, g.full) in
      let c = compare_bytes-Compares 0 these those sizes valid valid' in
      (
        compare_bytes these those,
        rw (fits, read, fits', read') refl,
        record {
          below = c.below ∙ rw (same, same', f.same, g.same) refl;
          same = c.same ∙ rw (same, same', f.same, g.same) refl;
        },
      )

  compare_to-same_sign :
      (s t : Sign) (d e : Text)
      → s ≡ t
      → compare_to noble (record { sign = s; digits = d }) (record { sign = t; digits = e })
        ≡ compare_digits noble (record { sign = s; digits = d }) (record { sign = t; digits = e })
  unfolding compare_to
  compare_to-same_sign negative negative d e h = refl
  compare_to-same_sign positive positive d e h = refl
  compare_to-same_sign negative positive d e h = cc
  compare_to-same_sign positive negative d e h = cc

  -- `compareTo` of two `Hex` with hexadecimal digits and the same sign compares the numbers of their
  -- digits, whatever the sign; it does not fail.
  pub compare_to-value :
      (this that : Hex)
      → HasDigits this
      → HasDigits that
      → this.sign ≡ that.sign
      → (z : ℤ) × (compare_to noble this that ≡ ok z) × Compares z (value this) (value that)
  compare_to-value this that h k e =
      let (z, read, c) = compare_digits-Compares this that h k in
      (z, compare_to-same_sign this.sign that.sign this.digits that.digits e ∙ read, c)

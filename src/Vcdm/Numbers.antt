-- ===== src/Vcdm/Numbers.antt =====
-- Identifiers and quantities of the data model (vcdm/ThorId.ts, Quantity.ts, HexUInt.ts).
use vechain_sdk_js.Prelude.{
  ℕ, ◌≤◌, ◌≡◌, refl, ap, ◌∙◌, Bool, true, false, ◌&&◌, pos, negsuc, [], ◌∷◌, length, arith, ◌==◌,
  ==_iff,
}
use vechain_sdk_js.Result.{Result, ok, err, invalid_data_type, catch_as, ◌>>=◌}
use vechain_sdk_js.Text.{
  Text, is_hex_digits, hex_value_from, to_lower_case, strip_sign, starts_with_tag,
}
use vechain_sdk_js.Noble.{Noble}
use vechain_sdk_js.Vcdm.Hex
use vechain_sdk_js.Vcdm.Hex.{
  has_hex_prefix, Hex, Sign, positive, negative, new_hex, of, bigint, fit,
}
use vechain_sdk_js.Vcdm.Hex.Value.{
  value, HasDigits, hex_value_from-to_lower_case, is_hex_digits-to_lower_case, length-to_lower_case,
  fit-value,
}
use vechain_sdk_js.Vcdm.Hex.RoundTrip.{number_digits}
use vechain_sdk_js.Vcdm.HexInt.{exp, of_int, of_uint}
use vechain_sdk_js.Vcdm.Quantity.{skip_zeros, or_zero, of_quantity}
use vechain_sdk_js.Vcdm.ThorId
use vechain_sdk_js.Vcdm.ThorId.{new_thor_id, of_hex, id_digits}

-- A digit that is not 0 comes first, or the text is the one digit 0.
abbrev pub IsCanonical : Text → Type 0
IsCanonical [] = ⊥
IsCanonical (c ∷ []) = Unit
IsCanonical (c ∷ d ∷ s) = (c == b'0') ≡ false

skip_zeros-value : (s : Text) → hex_value_from 0 (skip_zeros s) ≡ hex_value_from 0 s
unfolding skip_zeros hex_value_from
skip_zeros-value [] = refl
skip_zeros-value (c ∷ s) = ground (arith, skip_zeros-value s)

-- No zero is left in front.
skip_zeros-first : (s : Text) (c : ℕ) (rest : Text) → skip_zeros s ≡ c ∷ rest → (c == b'0') ≡ false
unfolding skip_zeros
skip_zeros-first [] c rest h = cc
skip_zeros-first (d ∷ s) c rest h = ground (arith, skip_zeros-first s c rest)

or_zero-IsCanonical :
    (s : Text)
    → ((c : ℕ) (rest : Text) → s ≡ c ∷ rest → (c == b'0') ≡ false)
    → IsCanonical (or_zero s)
or_zero-IsCanonical [] h = tt
or_zero-IsCanonical (c ∷ []) h = tt
or_zero-IsCanonical (c ∷ d ∷ s) h = h c (d ∷ s) refl

skip_zeros-digits :
    (s : Text) → is_hex_digits s ≡ true → is_hex_digits (or_zero (skip_zeros s)) ≡ true
unfolding skip_zeros is_hex_digits
skip_zeros-digits [] h = refl
skip_zeros-digits (c ∷ s) h = ground (arith, skip_zeros-digits s)

or_zero-value : (s : Text) → hex_value_from 0 (or_zero s) ≡ hex_value_from 0 s
unfolding hex_value_from
or_zero-value [] = refl
or_zero-value (c ∷ s) = refl

to_lower_case-IsCanonical : (s : Text) → IsCanonical s → IsCanonical (to_lower_case s)
unfolding to_lower_case
to_lower_case-IsCanonical [] h = h
to_lower_case-IsCanonical (c ∷ []) h = tt
to_lower_case-IsCanonical (c ∷ d ∷ s) h = ground (arith, h)

to_lower_case-idempotent : (s : Text) → to_lower_case (to_lower_case s) ≡ to_lower_case s
unfolding to_lower_case
to_lower_case-idempotent [] = refl
to_lower_case-idempotent (c ∷ s) = ground (arith, to_lower_case-idempotent s)

-- The text of a quantity.
pub record IsQuantity (n : ℕ) (h : Hex) : Type 0 where
  pub positive : h.sign ≡ positive
  pub digits : HasDigits h
  pub canonical : IsCanonical h.digits
  pub same : value h ≡ n

module _ (noble : Noble) where
  abbrev digits_for : ℕ → Text
  digits_for n = to_lower_case (noble.number_to_hex_unpadded n)

  of_uint-bigint :
      (n : ℕ)
      → of_uint noble (exp (bigint (pos n)))
        ≡ ok (record { sign = positive; digits = digits_for n })
  unfolding of_uint of_int of new_hex
  of_uint-bigint n =
      ap (λ d. ok (record { sign = positive; digits = d }))
        (to_lower_case-idempotent (digits_for n)
          ∙ to_lower_case-idempotent (noble.number_to_hex_unpadded n))

  of_uint-negative :
      (n : ℕ) → of_uint noble (exp (bigint (negsuc n))) ≡ err (invalid_data_type "HexUInt.of")
  unfolding of_uint of_int of new_hex
  of_uint-negative n = refl

  -- What `Quantity.of` does with the integer.
  abbrev after : Result Hex → Result Hex
  after r =
      catch_as (invalid_data_type "Quantity.of")
        (r >>= λ h. ok (new_hex h.sign (or_zero (skip_zeros h.digits))))

  -- `Quantity.of` of a bigint that is not negative has its value, and no superfluous zero in front.
  -- One that is negative is refused.
  pub of_quantity-IsQuantity :
      (n : ℕ)
      → ((h : Hex) × (of_quantity noble (exp (bigint (pos n))) ≡ ok h) × IsQuantity n h)
        × (of_quantity noble (exp (bigint (negsuc n))) ≡ err (invalid_data_type "Quantity.of"))
  unfolding of_quantity new_hex
  of_quantity-IsQuantity n =
      let s = or_zero (skip_zeros (digits_for n)) in
      let (valid, same) = number_digits noble n in
      let valid' = skip_zeros-digits (digits_for n) valid in
      (
        (
          new_hex positive s,
          ap after (of_uint-bigint n),
          record {
            positive = refl;
            digits = is_hex_digits-to_lower_case s valid';
            canonical =
                to_lower_case-IsCanonical s (
                  or_zero-IsCanonical (skip_zeros (digits_for n))
                    (skip_zeros-first (digits_for n)));
            same =
                hex_value_from-to_lower_case 0 s valid'
                ∙ or_zero-value (skip_zeros (digits_for n))
                ∙ skip_zeros-value (digits_for n)
                ∙ same;
          },
        ),
        ap after (of_uint-negative n),
      )

digits-has_hex_prefix : (s : Text) → is_hex_digits s ≡ true → has_hex_prefix s ≡ false
unfolding is_hex_digits has_hex_prefix strip_sign starts_with_tag
digits-has_hex_prefix [] h = refl
digits-has_hex_prefix (c ∷ []) h = ground arith
digits-has_hex_prefix (c ∷ d ∷ []) h = ground arith
digits-has_hex_prefix (c ∷ d ∷ e ∷ s) h = ground arith

and-false : (a b : Bool) → b ≡ false → (a && b) ≡ false
and-false a b h = ground arith

new_thor_id-digits :
    (h : Hex) → HasDigits h → length h.digits ≡ 64 → new_thor_id h ≡ ok (new_hex positive h.digits)
unfolding new_thor_id ThorId.is_valid
new_thor_id-digits h digits full =
    let untagged = and-false (Hex.is_valid h.digits) _ (digits-has_hex_prefix h.digits digits) in
    rw (untagged, (==_iff (length h.digits) 64).1 full) refl

-- `ThorId.of` of a `Hex` of at most 64 hexadecimal digits has 64 digits of the same value, and no
-- sign.
pub of_hex-value :
    (h : Hex)
    → HasDigits h
    → length h.digits ≤ 64
    → (r : Hex) × (of_hex h ≡ ok r)
      × (length r.digits ≡ 64)
      × (value r ≡ value h)
      × (r.sign ≡ positive)
unfolding of_hex new_hex
of_hex-value h digits le =
    let (fitted, fits, f) = fit-value 64 h digits le in
    (
      new_hex positive fitted.digits,
      rw fits (new_thor_id-digits fitted f.digits f.full),
      length-to_lower_case fitted.digits ∙ f.full,
      hex_value_from-to_lower_case 0 fitted.digits f.digits ∙ f.same,
      refl,
    )

-- ===== src/Vcdm/Hex/RoundTrip.antt =====
-- Texts, bytes and bigints through `Hex.of` and back (vcdm/Hex.ts).
use vechain_sdk_js.Prelude.{
  ℕ, suc, ◌≡◌, refl, ap, sym, ◌∙◌, ℤ, pos, negsuc, negate, true, All, arith, subst, length, ◌%◌,
  ==_iff, Bool-cases, inl, inr, ◌==◌,
}
use vechain_sdk_js.Result.{ok, ◌>>=◌}
use vechain_sdk_js.Text.{
  Text, Bytes, to_lower_case, is_hex_digits, hex_value_from, hex_of_bytes, strip_sign, strip_tag,
  starts_with_minus, starts_with_tag,
}
use vechain_sdk_js.Text.Positional.{be_bytes, be_value}
use vechain_sdk_js.Text.Bytes.{
  IsByte, is_hex_digits-hex_of_bytes, to_lower_case-hex_of_bytes, hex_value_from-hex_of_bytes,
  buffer_from_hex-hex_of_bytes, length-hex_of_bytes,
}
use vechain_sdk_js.Noble.{Noble}
use vechain_sdk_js.Rlp.Blobs.{of_bytes_lem}
use vechain_sdk_js.Rlp.Numerics.{be_bytes-IsByte, be_value-be_bytes}
use vechain_sdk_js.Vcdm.Hex.{
  Sign, negative, positive, Hex, new_hex, is_valid, has_hex_prefix, to_text, of_text, of, bi,
  to_bytes, align_to_bytes, bigint, bytes,
}
use vechain_sdk_js.Vcdm.Hex.Value.{HasDigits}

-- A `Hex` made by the constructor has lower-case digits.
of_text-parts :
    (s : Sign) (d : Text)
    → is_hex_digits d ≡ true
    → of_text (to_text (record { sign = s; digits = d })) ≡ ok (new_hex s d)
unfolding of_text to_text is_valid has_hex_prefix starts_with_minus starts_with_tag strip_sign
    strip_tag
of_text-parts negative d h = rw h refl
of_text-parts positive d h = rw h refl

-- The text of a `Hex` with hexadecimal digits in lower case is read as the same `Hex`.
pub of_text-to_text :
    (h : Hex) → HasDigits h → to_lower_case h.digits ≡ h.digits → of_text (to_text h) ≡ ok h
unfolding new_hex
of_text-to_text h digits lower =
    of_text-parts h.sign h.digits digits ∙ ap (λ d. ok (record { sign = h.sign; digits = d })) lower

align_to_bytes-even :
    (s : Sign) (d : Text)
    → length d % 2 ≡ 0
    → align_to_bytes (record { sign = s; digits = d }) ≡ record { sign = s; digits = d }
unfolding align_to_bytes
align_to_bytes-even s d h = rw h refl

module _ (noble : Noble) where
  pub to_bytes-hex_of_bytes :
      (bs : Bytes)
      → All IsByte bs
      → to_bytes noble (record { sign = positive; digits = hex_of_bytes bs }) ≡ ok bs
  unfolding to_bytes
  to_bytes-hex_of_bytes bs h =
      let d = hex_of_bytes bs in
      let even : length d % 2 ≡ 0 = omega (arith, length-hex_of_bytes bs) in
      ap (λ (r : Hex). noble.hex_to_bytes r.digits) (align_to_bytes-even positive d even)
      ∙ noble.hex_to_bytes_lem d (is_hex_digits-hex_of_bytes bs h) even
      ∙ ap ok (buffer_from_hex-hex_of_bytes bs h)

  -- The bytes that a `Hex` is made of are read back.
  pub to_bytes-of : (bs : Bytes) → All IsByte bs → (of noble (bytes bs) >>= to_bytes noble) ≡ ok bs
  to_bytes-of bs h = rw (of_bytes_lem bs h noble) (to_bytes-hex_of_bytes bs h)

  -- The digits of a number, in lower case, are digits of its value.
  pub number_digits :
      (n : ℕ)
      → (is_hex_digits (to_lower_case (noble.number_to_hex_unpadded n)) ≡ true)
        × (hex_value_from 0 (to_lower_case (noble.number_to_hex_unpadded n)) ≡ n)
  unfolding hex_value_from to_lower_case is_hex_digits
  number_digits n = elim (Bool-cases (n == 0)) [
    | inl e ↦
        let zero_is : 0 ≡ n = sym ((==_iff n 0).0 e) in
        rw (noble.number_to_hex_unpadded_lem n, e) (refl, zero_is)
    | inr e ↦
        let bs = be_bytes n in
        let valid = be_bytes-IsByte n in
        rw (noble.number_to_hex_unpadded_lem n, e, to_lower_case-hex_of_bytes bs valid)
          (
            is_hex_digits-hex_of_bytes bs valid,
            hex_value_from-hex_of_bytes 0 bs valid ∙ unfold be_value in be_value-be_bytes n,
          )
  ]

  -- The number of the digits that `of` takes from a bigint.
  hex_to_number-digits :
      (n : ℕ) → noble.hex_to_number (to_lower_case (noble.number_to_hex_unpadded n)) ≡ n
  hex_to_number-digits n =
      let (valid, same) = number_digits n in
      noble.hex_to_number_lem (to_lower_case (noble.number_to_hex_unpadded n)) valid ∙ same

  -- `bi` gives back the bigint that a `Hex` was made of.
  pub bi-of : (z : ℤ) (h : Hex) → of noble (bigint z) ≡ ok h → bi noble h ≡ z
  unfolding of bi new_hex
  bi-of (pos n) h e =
      let same : new_hex positive (noble.number_to_hex_unpadded n) ≡ h = cc in
      subst (λ r. bi noble r ≡ pos n) same (ap pos (hex_to_number-digits n))
  bi-of (negsuc n) h e =
      let same : new_hex negative (noble.number_to_hex_unpadded (suc n)) ≡ h = cc in
      subst (λ r. bi noble r ≡ negsuc n) same (ap negate (hex_to_number-digits (suc n)))

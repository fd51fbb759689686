-- ===== src/Signer/Checksums.antt =====
-- An address that is written with its checksum has the same checksum (vcdm/Address.ts, as
-- vechain-abstract-signer.ts uses it).
use vechain_sdk_js.Prelude.{
  ℕ, ◌≡◌, refl, ap, ap₂, sym, ◌∙◌, subst, Bool, true, false, Bool-cases, inl, inr, [], ◌∷◌, arith,
  drop, if◌then◌else◌, ltb,
}
use vechain_sdk_js.Result.{ok, err, >>=-eq-ok, ok-injective, Result-cases, Error, invalid_data_type}
use vechain_sdk_js.Text.{
  Text, to_lower, to_lower_case, digit_value, starts_with_minus, starts_with_tag, is_hex_digits,
  is_hex_digit, strip_sign, strip_tag,
}
use vechain_sdk_js.Noble.{Noble}
use vechain_sdk_js.Crypto.{Crypto, hash_of}
use vechain_sdk_js.Vcdm.Hex
use vechain_sdk_js.Vcdm.Hex.{Hex, new_hex, positive, negative, text, of_text, has_hex_prefix}
use vechain_sdk_js.Vcdm.HexInt.{exp, of_uint}
use vechain_sdk_js.Vcdm.Address.{to_upper, checksum, checksum_digits}
use vechain_sdk_js.Signer.Populating.{checksum_of}

-- Lower-case hexadecimal digits.
abbrev IsLower : Text → Type 0
IsLower d = (is_hex_digits d ≡ true) × (to_lower_case d ≡ d)

to_lower-twice : (c : ℕ) → to_lower (to_lower c) ≡ to_lower c
to_lower-twice c = ground arith

to_lower_case-twice : (s : Text) → to_lower_case (to_lower_case s) ≡ to_lower_case s
unfolding to_lower_case
to_lower_case-twice [] = refl
to_lower_case-twice (c ∷ s) = ap₂ (λ (x : ℕ) xs. x ∷ xs) (to_lower-twice c) (to_lower_case-twice s)

is_hex_digit-to_lower : (c : ℕ) → is_hex_digit c ≡ true → is_hex_digit (to_lower c) ≡ true
is_hex_digit-to_lower c h = ground (arith, h)

is_hex_digits-to_lower_case :
    (s : Text) → is_hex_digits s ≡ true → is_hex_digits (to_lower_case s) ≡ true
unfolding is_hex_digits to_lower_case
is_hex_digits-to_lower_case [] h = refl
is_hex_digits-to_lower_case (c ∷ s) h =
    let first : is_hex_digit c ≡ true = ground (arith, h) in
    let rest : is_hex_digits s ≡ true = ground (arith, h) in
    rw (is_hex_digit-to_lower c first) (is_hex_digits-to_lower_case s rest)

-- Raising a lower-case digit does not change what it is in lower case.
to_lower-to_upper : (c : ℕ) → is_hex_digit c ≡ true → to_lower (to_upper c) ≡ to_lower c
to_lower-to_upper c h = ground (arith, h)

is_hex_digit-to_upper : (c : ℕ) → is_hex_digit c ≡ true → is_hex_digit (to_upper c) ≡ true
is_hex_digit-to_upper c h = ground (arith, h)

raised-IsLower :
    (b : Bool) (c : ℕ)
    → is_hex_digit c ≡ true
    → (is_hex_digit (if b then to_upper c else c) ≡ true)
      × (to_lower (if b then to_upper c else c) ≡ to_lower c)
raised-IsLower true c h = (is_hex_digit-to_upper c h, to_lower-to_upper c h)
raised-IsLower false c h = (h, refl)

checksum_digits-IsLower :
    (d hash : Text)
    → is_hex_digits d ≡ true
    → (is_hex_digits (checksum_digits d hash) ≡ true)
      × (to_lower_case (checksum_digits d hash) ≡ to_lower_case d)
unfolding checksum_digits is_hex_digits to_lower_case
checksum_digits-IsLower [] hash h = (refl, refl)
checksum_digits-IsLower (c ∷ d) [] h =
    let first : is_hex_digit c ≡ true = ground (arith, h) in
    let (digits, lower) = checksum_digits-IsLower d [] (ground (arith, h)) in
    (rw first digits, ap (λ xs. to_lower c ∷ xs) lower)
checksum_digits-IsLower (c ∷ d) (x ∷ hash) h =
    let first : is_hex_digit c ≡ true = ground (arith, h) in
    let (digits, lower) = checksum_digits-IsLower d hash (ground (arith, h)) in
    let (raised, same) = raised-IsLower (ltb 7 (digit_value x)) c first in
    (rw raised digits, ap₂ (λ (y : ℕ) ys. y ∷ ys) same lower)

strip-minus :
    (s : Text)
    → starts_with_minus s ≡ true
    → (if has_hex_prefix s then drop 3 s else drop 1 s) ≡ strip_tag (strip_sign s)
unfolding starts_with_minus has_hex_prefix starts_with_tag strip_tag strip_sign
strip-minus [] h = cc
strip-minus (c ∷ []) h = rw h refl
strip-minus (c ∷ d ∷ []) h = rw h refl
strip-minus (c ∷ d ∷ e ∷ s) h = rw h refl

strip-plus :
    (s : Text)
    → starts_with_minus s ≡ false
    → (if has_hex_prefix s then drop 2 s else s) ≡ strip_tag (strip_sign s)
unfolding starts_with_minus has_hex_prefix starts_with_tag strip_tag strip_sign
strip-plus [] h = refl
strip-plus (c ∷ []) h = rw h refl
strip-plus (c ∷ d ∷ s) h = rw h refl

is_hex_digits-valid :
    (s : Text) → Hex.is_valid s ≡ true → is_hex_digits (strip_tag (strip_sign s)) ≡ true
unfolding Hex.is_valid
is_hex_digits-valid s h = h

module _ (s : Text) where
  of_text-minus :
      Hex.is_valid s ≡ true
      → starts_with_minus s ≡ true
      → of_text s ≡ ok (new_hex negative (strip_tag (strip_sign s)))
  unfolding of_text
  of_text-minus valid minus =
      rw (valid, minus) (ap (λ x. ok (new_hex negative x)) (strip-minus s minus))

  of_text-plus :
      Hex.is_valid s ≡ true
      → starts_with_minus s ≡ false
      → of_text s ≡ ok (new_hex positive (strip_tag (strip_sign s)))
  unfolding of_text
  of_text-plus valid plus = rw (valid, plus) (ap (λ x. ok (new_hex positive x)) (strip-plus s plus))

  of_text-invalid : Hex.is_valid s ≡ false → of_text s ≡ err (invalid_data_type "Hex.of")
  unfolding of_text
  of_text-invalid invalid = rw invalid refl

  is_hex_digits-new_hex :
      (sign : Hex.Sign)
      → Hex.is_valid s ≡ true
      → is_hex_digits (new_hex sign (strip_tag (strip_sign s))).digits ≡ true
  unfolding new_hex
  is_hex_digits-new_hex sign valid =
      is_hex_digits-to_lower_case (strip_tag (strip_sign s)) (is_hex_digits-valid s valid)

  is_hex_digits-of_text : (h : Hex) → of_text s ≡ ok h → is_hex_digits h.digits ≡ true
  is_hex_digits-of_text h e = elim (Bool-cases (Hex.is_valid s)) [
    | inr invalid ↦ let impossible = sym (of_text-invalid invalid) ∙ e in cc
    | inl valid ↦ elim (Bool-cases (starts_with_minus s)) [
      | inl minus ↦
          subst (λ x. is_hex_digits x.digits ≡ true)
            (ok-injective (sym (of_text-minus valid minus) ∙ e))
            (is_hex_digits-new_hex negative valid)
      | inr plus ↦
          subst (λ x. is_hex_digits x.digits ≡ true)
            (ok-injective (sym (of_text-plus valid plus) ∙ e))
            (is_hex_digits-new_hex positive valid)
    ]
  ]

module _ (noble : Noble) (crypto : Crypto) where
  of_uint-read :
      (s : Text) (sign : Hex.Sign) (digits : Text) (h : Hex)
      → of_text s ≡ ok (record { sign = sign; digits = digits })
      → of_uint noble (exp (text s)) ≡ ok h
      → h.digits ≡ to_lower_case (to_lower_case digits)
  unfolding of_uint new_hex Hex.of
  of_uint-read s negative digits h read e =
      let refused : of_uint noble (exp (text s)) ≡ err (invalid_data_type "HexUInt.of") =
        rw read refl in
      let impossible = sym refused ∙ e in cc
  of_uint-read s positive digits h read e =
      let given : of_uint noble (exp (text s))
          ≡ ok (record { sign = positive; digits = to_lower_case (to_lower_case digits) }) =
        rw read refl in
      ap (λ (x : Hex). x.digits) (ok-injective (sym e ∙ given))

  of_uint-refused :
      (s : Text) (x : Error)
      → of_text s ≡ err x
      → of_uint noble (exp (text s)) ≡ err (invalid_data_type "HexUInt.of")
  unfolding of_uint Hex.of
  of_uint-refused s x read = rw read refl

  of_uint-IsLower : (s : Text) (h : Hex) → of_uint noble (exp (text s)) ≡ ok h → IsLower h.digits
  of_uint-IsLower s h e = elim (Result-cases (of_text s)) [
    | inr (x, read) ↦ let impossible = sym (of_uint-refused s x read) ∙ e in cc
    | inl (a, read) ↦
        let same = of_uint-read s a.sign a.digits h read e in
        let digits = is_hex_digits-of_text s a read in
        (
          subst (λ d. is_hex_digits d ≡ true) (sym same)
              (is_hex_digits-to_lower_case (to_lower_case a.digits)
                (is_hex_digits-to_lower_case a.digits digits)),
          subst (λ d. to_lower_case d ≡ d) (sym same)
              (to_lower_case-twice (to_lower_case a.digits)),
        )
  ]

  of_uint-tagged :
      (d : Text)
      → is_hex_digits d ≡ true
      → of_uint noble (exp (text (b'0' ∷ b'x' ∷ d)))
        ≡ ok (record { sign = positive; digits = to_lower_case d })
  unfolding of_uint of_text new_hex Hex.is_valid starts_with_minus has_hex_prefix starts_with_tag
      strip_tag strip_sign
  of_uint-tagged d h = rw h (
      ap (λ x. ok (record { sign = positive; digits = x }))
        (to_lower_case-twice (to_lower_case d) ∙ to_lower_case-twice d))

  checksum_of-checksum :
      (huint hash : Hex) (digits t : Text)
      → IsLower huint.digits
      → checksum noble crypto huint.digits ≡ ok digits
      → checksum_digits huint.digits hash.digits ≡ digits
      → b'0' ∷ b'x' ∷ digits ≡ t
      → checksum_of noble crypto t ≡ ok t
  unfolding checksum_of
  checksum_of-checksum huint hash digits t low e same is_t =
      let (valid, lower) = checksum_digits-IsLower huint.digits hash.digits low.0 in
      let valid' : is_hex_digits digits ≡ true = subst (λ x. is_hex_digits x ≡ true) same valid in
      let lower' : to_lower_case digits ≡ huint.digits =
        subst (λ x. to_lower_case x ≡ huint.digits) same (lower ∙ low.1) in
      let read =
        of_uint-tagged digits valid'
        ∙ ap (λ x. ok (record { sign = positive; digits = x })) lower' in
      subst (λ x. checksum_of noble crypto x ≡ ok x) is_t (rw (read, e) refl)

  -- The checksum of an address is its own checksum.
  pub checksum_of-twice :
      (s t : Text) → checksum_of noble crypto s ≡ ok t → checksum_of noble crypto t ≡ ok t
  unfolding checksum_of checksum
  checksum_of-twice s t h =
      let (huint, e1, h1) = >>=-eq-ok (of_uint noble (exp (text s))) _ h in
      let (digits, e2, h2) = >>=-eq-ok (checksum noble crypto huint.digits) _ h1 in
      let (hash, e3, h3) = >>=-eq-ok (hash_of noble crypto.keccak_256 huint.digits) _ e2 in
      checksum_of-checksum huint hash digits t (of_uint-IsLower s huint e1) e2 (ok-injective h3)
        (ok-injective h2)

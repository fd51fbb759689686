-- ===== src/Rlp/Numerics.antt =====
-- `NumericKind`: a number is encoded by its big-endian bytes, none for 0, and is read back as a
-- `number` in the safe range and as a hexadecimal text above.
use vechain_sdk_js.Prelude.{
  ℕ, zero, suc, ◌<◌, ◌≡◌, refl, ap, subst, ◌∙◌, sym, true, false, Option, none, some, List, [], ◌∷◌,
  pos, length, All, arith, ◌==◌, leb, map, Bool-cases, inl, inr,
}
use vechain_sdk_js.Result.{ok, Context, >>=-eq-ok}
use vechain_sdk_js.Text.{
  Text, Bytes, hex_digit, to_lower_case, is_hex_digits, hex_value_from, hex_of_bytes, strip_sign,
  strip_tag, starts_with_tag,
}
use vechain_sdk_js.Text.Positional.{
  be_bytes, be_value, to_string16, digits_of, value_from, value_from-digits_of, All-digits_of,
  HasNonZeroHead, HasNonZeroHead-digits_of,
}
use vechain_sdk_js.Text.Bytes.{
  IsByte, length-hex_of_bytes, is_hex_digits-hex_of_bytes, buffer_from_hex-hex_of_bytes,
  to_lower_case-hex_of_bytes, hex_value_from-hex_of_bytes, hex_value_from-map, is_hex_digits-map,
}
use vechain_sdk_js.Noble.{Noble}
use vechain_sdk_js.Vcdm.Hex.{is_valid0x}
use vechain_sdk_js.Number.{max_safe_integer}
use vechain_sdk_js.Rlp.Value.{Value}
use vechain_sdk_js.Rlp.Kinds.{
  exceeds, starts_with_zero, validate_numeric_kind_data, encode_big_int_to_buffer, number_or_hex,
  decode_buffer_to_number_or_hex, numeric_data, numeric_buffer,
}

pub be_bytes-IsByte : (n : ℕ) → All IsByte (be_bytes n)
unfolding be_bytes
be_bytes-IsByte n = All-digits_of 256 n (omega arith)

pub be_value-be_bytes : (n : ℕ) → be_value (be_bytes n) ≡ n
unfolding be_bytes be_value
be_value-be_bytes n = value_from-digits_of 256 n (omega arith)

pub be_bytes-HasNonZeroHead : (n : ℕ) → 0 < n → HasNonZeroHead (be_bytes n)
unfolding be_bytes
be_bytes-HasNonZeroHead n h = HasNonZeroHead-digits_of 256 n (omega arith) h

be_bytes-zero : be_bytes 0 ≡ []
unfolding be_bytes digits_of
be_bytes-zero = refl

starts_with_zero_of : (bs : Bytes) → HasNonZeroHead bs → starts_with_zero bs ≡ false
starts_with_zero_of [] h = absurd h
starts_with_zero_of (b ∷ bs) h = ground arith

-- The bytes of a number are its canonical ones.
pub starts_with_zero-be_bytes : (n : ℕ) → starts_with_zero (be_bytes n) ≡ false
starts_with_zero-be_bytes zero = cc be_bytes-zero
starts_with_zero-be_bytes (suc n) =
    starts_with_zero_of (be_bytes (suc n)) (be_bytes-HasNonZeroHead (suc n) (omega arith))

hex_value-to_string16 : (n : ℕ) → hex_value_from 0 (to_string16 n) ≡ n
unfolding to_string16 hex_value_from
hex_value-to_string16 n = elim (Bool-cases (n == 0)) [
  | inl z ↦ rw z (ground arith)
  | inr z ↦ rw z (
      hex_value_from-map 0 (digits_of 16 n) (All-digits_of 16 n (omega arith))
      ∙ value_from-digits_of 16 n (omega arith))
]

is_hex_digits-to_string16 : (n : ℕ) → is_hex_digits (to_string16 n) ≡ true
unfolding to_string16 is_hex_digits
is_hex_digits-to_string16 n = elim (Bool-cases (n == 0)) [
  | inl z ↦ rw z
  | inr z ↦ rw z (is_hex_digits-map (digits_of 16 n) (All-digits_of 16 n (omega arith)))
]

length-map_pos : (ds : List ℕ) → HasNonZeroHead ds → 0 < length (map hex_digit ds)
length-map_pos [] h = absurd h
length-map_pos (d ∷ ds) h = omega arith

to_string16-ne-nil : (n : ℕ) → 0 < n → 0 < length (to_string16 n)
unfolding to_string16
to_string16-ne-nil n h = elim (Bool-cases (n == 0)) [
  | inl z ↦ absurd (ground arith)
  | inr z ↦ rw z (length-map_pos (digits_of 16 n) (HasNonZeroHead-digits_of 16 n (omega arith) h))
]

pub tagged-is_valid0x : (s : Text) → is_hex_digits s ≡ true → is_valid0x (b'0' ∷ b'x' ∷ s) ≡ true
unfolding is_valid0x strip_sign strip_tag starts_with_tag
tagged-is_valid0x s h = h

tagged-starts_with_tag : (s : Text) → starts_with_tag (b'0' ∷ b'x' ∷ s) ≡ true
unfolding starts_with_tag
tagged-starts_with_tag s = refl

tagged-strip_tag : (s : Text) → strip_tag (b'0' ∷ b'x' ∷ s) ≡ s
unfolding strip_tag
tagged-strip_tag s = refl

pub be_value-nil : be_value [] ≡ 0
unfolding be_value value_from
be_value-nil = refl

module _ (noble : Noble) where
  open noble use {number_to_hex_unpadded_lem, hex_to_number_lem}

  -- What a successful encoding of a number is.
  pub encode_big_int_to_buffer_lem :
      (n : ℕ) (max_bytes : Option ℕ) (context : Context) (bs : Bytes)
      → encode_big_int_to_buffer noble n max_bytes context ≡ ok bs
      → (bs ≡ be_bytes n) × (exceeds (length bs) max_bytes ≡ false)
  unfolding encode_big_int_to_buffer
  encode_big_int_to_buffer_lem zero max_bytes context bs h = (cc be_bytes-zero, ground (arith))
  encode_big_int_to_buffer_lem (suc n) none context bs h = (
    ground (
      arith,
      number_to_hex_unpadded_lem (suc n),
      to_lower_case-hex_of_bytes (be_bytes (suc n)) (be_bytes-IsByte (suc n)),
      buffer_from_hex-hex_of_bytes (be_bytes (suc n)) (be_bytes-IsByte (suc n)),
    ),
    refl,
  )
  encode_big_int_to_buffer_lem (suc n) (some most) context bs h = ground (
    arith,
    number_to_hex_unpadded_lem (suc n),
    to_lower_case-hex_of_bytes (be_bytes (suc n)) (be_bytes-IsByte (suc n)),
    buffer_from_hex-hex_of_bytes (be_bytes (suc n)) (be_bytes-IsByte (suc n)),
    length-hex_of_bytes (be_bytes (suc n)),
  )

  number_of_bytes :
      (bs : Bytes)
      → All IsByte bs
      → noble.hex_to_number (to_lower_case (noble.bytes_to_hex bs)) ≡ be_value bs
  unfolding be_value
  number_of_bytes bs h =
      ap (λ t. noble.hex_to_number (to_lower_case t)) (noble.bytes_to_hex_lem bs h)
      ∙ ap noble.hex_to_number (to_lower_case-hex_of_bytes bs h)
      ∙ hex_to_number_lem (hex_of_bytes bs) (is_hex_digits-hex_of_bytes bs h)
      ∙ hex_value_from-hex_of_bytes 0 bs h

  pub decode_buffer_to_number_or_hex_lem :
      (n : ℕ) → decode_buffer_to_number_or_hex noble (be_bytes n) ≡ ok (number_or_hex noble (pos n))
  unfolding decode_buffer_to_number_or_hex
  decode_buffer_to_number_or_hex_lem n = go (be_bytes n) refl
    where
      go :
          (bs : Bytes)
          → be_bytes n ≡ bs
          → decode_buffer_to_number_or_hex noble bs ≡ ok (number_or_hex noble (pos n))
      go [] e =
          let zero_is : n ≡ 0 = sym (be_value-be_bytes n) ∙ ap be_value e ∙ be_value-nil in
          rw zero_is (ground arith)
      go (b ∷ bs) e =
          ap (λ t. ok (number_or_hex noble (pos t)))
            (number_of_bytes (b ∷ bs) (subst (All IsByte) e (be_bytes-IsByte n))
              ∙ ap be_value (sym e)
              ∙ be_value-be_bytes n)

  pub validate_numeric_kind_data_lem :
      (n : ℕ) (context : Context)
      → validate_numeric_kind_data (number_or_hex noble (pos n)) context ≡ ok n
  unfolding validate_numeric_kind_data
  validate_numeric_kind_data_lem n context = elim (Bool-cases (leb n max_safe_integer)) [
    | inl small ↦ rw small (ground arith)
    | inr large ↦ rw large (
        ground (
          arith,
          tagged-is_valid0x (to_string16 n) (is_hex_digits-to_string16 n),
          tagged-starts_with_tag (to_string16 n),
          tagged-strip_tag (to_string16 n),
          to_string16-ne-nil n (ground arith),
          is_hex_digits-to_string16 n,
          hex_value-to_string16 n,
        ))
  ]

  pub numeric_buffer-be_bytes :
      (n : ℕ) (max_bytes : Option ℕ) (context : Context)
      → exceeds (length (be_bytes n)) max_bytes ≡ false
      → numeric_buffer noble max_bytes (be_bytes n) context ≡ ok (number_or_hex noble (pos n))
  unfolding numeric_buffer
  numeric_buffer-be_bytes n max_bytes context fits =
      rw (fits, starts_with_zero-be_bytes n) (decode_buffer_to_number_or_hex_lem n)

  -- A buffer that a numeric kind made is read back, and what is read is encoded to the same buffer.
  pub numeric_stable :
      (max_bytes : Option ℕ) (v : Value) (context : Context) (bs : Bytes)
      → numeric_data noble max_bytes v context ≡ ok bs
      → (w : Value) × (numeric_buffer noble max_bytes bs context ≡ ok w)
        × (numeric_data noble max_bytes w context ≡ ok bs)
  unfolding numeric_data numeric_buffer
  numeric_stable max_bytes v context bs h =
      let (n, valid, encoded) = >>=-eq-ok (validate_numeric_kind_data v context) _ h in
      let (same, fits) = encode_big_int_to_buffer_lem n max_bytes context bs encoded in
      (
        number_or_hex noble (pos n),
        subst (λ t. numeric_buffer noble max_bytes t context ≡ ok (number_or_hex noble (pos n)))
            (sym same)
            (numeric_buffer-be_bytes n max_bytes context
              (subst (λ t. exceeds (length t) max_bytes ≡ false) same fits)),
        rw (validate_numeric_kind_data_lem n context) encoded,
      )

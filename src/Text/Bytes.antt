-- ===== src/Text/Bytes.antt =====
-- Bytes and their hexadecimal expressions.
use vechain_sdk_js.Prelude.{
  ℕ, ◌+◌, ◌*◌, ◌/◌, ◌%◌, ◌<◌, ◌≡◌, refl, ap, ap₂, ◌∙◌, true, List, [], ◌∷◌, map, length, All, arith,
}
use vechain_sdk_js.Text.{
  Text, Bytes, is_hex_digit, to_lower, to_lower_case, digit_value, hex_digit, is_hex_digits,
  hex_value_from, buffer_from_hex, hex_of_bytes,
}
use vechain_sdk_js.Text.Digits.{
  is_hex_digit-hex_digit, digit_value-hex_digit, to_lower-hex_digit, digit_value-lt,
  hex_digit-digit_value,
}
use vechain_sdk_js.Text.Positional.{value_from}

abbrev pub IsByte : ℕ → Type 0
IsByte b = b < 256

pub length-hex_of_bytes : (bs : Bytes) → length (hex_of_bytes bs) ≡ 2 * length bs
unfolding hex_of_bytes
length-hex_of_bytes [] = refl
length-hex_of_bytes (b ∷ bs) = omega (arith, length-hex_of_bytes bs)

module _ (b : ℕ) (h : IsByte b) where
  high_digit : is_hex_digit (hex_digit (b / 16)) ≡ true
  high_digit = is_hex_digit-hex_digit (b / 16) (omega arith)

  low_digit : is_hex_digit (hex_digit (b % 16)) ≡ true
  low_digit = is_hex_digit-hex_digit (b % 16) (omega arith)

  byte_value : digit_value (hex_digit (b / 16)) * 16 + digit_value (hex_digit (b % 16)) ≡ b
  byte_value = omega (
    arith,
    digit_value-hex_digit (b / 16) (omega arith),
    digit_value-hex_digit (b % 16) (omega arith),
  )

pub is_hex_digits-hex_of_bytes :
    (bs : Bytes) → All IsByte bs → is_hex_digits (hex_of_bytes bs) ≡ true
unfolding is_hex_digits hex_of_bytes
is_hex_digits-hex_of_bytes [] h = refl
is_hex_digits-hex_of_bytes (b ∷ bs) h =
    rw (high_digit b h.0, low_digit b h.0) (is_hex_digits-hex_of_bytes bs h.1)

pub buffer_from_hex-hex_of_bytes :
    (bs : Bytes) → All IsByte bs → buffer_from_hex (hex_of_bytes bs) ≡ bs
unfolding buffer_from_hex hex_of_bytes
buffer_from_hex-hex_of_bytes [] h = refl
buffer_from_hex-hex_of_bytes (b ∷ bs) h =
    rw (high_digit b h.0, low_digit b h.0)
      (ap₂ (λ (x : ℕ) (xs : Bytes). x ∷ xs) (byte_value b h.0)
        (buffer_from_hex-hex_of_bytes bs h.1))

pub to_lower_case-hex_of_bytes :
    (bs : Bytes) → All IsByte bs → to_lower_case (hex_of_bytes bs) ≡ hex_of_bytes bs
unfolding to_lower_case hex_of_bytes
to_lower_case-hex_of_bytes [] h = refl
to_lower_case-hex_of_bytes (b ∷ bs) h = cc (
  to_lower-hex_digit (b / 16) (omega arith),
  to_lower-hex_digit (b % 16) (omega arith),
  to_lower_case-hex_of_bytes bs h.1,
)

pub hex_value_from-hex_of_bytes :
    (acc : ℕ) (bs : Bytes)
    → All IsByte bs
    → hex_value_from acc (hex_of_bytes bs) ≡ value_from 256 acc bs
unfolding hex_value_from hex_of_bytes value_from
hex_value_from-hex_of_bytes acc [] h = refl
hex_value_from-hex_of_bytes acc (b ∷ bs) h =
    ap (λ t. hex_value_from t (hex_of_bytes bs)) (omega (arith, byte_value b h.0))
    ∙ hex_value_from-hex_of_bytes (acc * 256 + b) bs h.1

pub hex_value_from-map :
    (acc : ℕ) (ds : List ℕ)
    → All (λ d. d < 16) ds
    → hex_value_from acc (map hex_digit ds) ≡ value_from 16 acc ds
unfolding hex_value_from value_from
hex_value_from-map acc [] h = refl
hex_value_from-map acc (d ∷ ds) h =
    ap (λ t. hex_value_from (acc * 16 + t) (map hex_digit ds)) (digit_value-hex_digit d h.0)
    ∙ hex_value_from-map (acc * 16 + d) ds h.1

pub is_hex_digits-map :
    (ds : List ℕ) → All (λ d. d < 16) ds → is_hex_digits (map hex_digit ds) ≡ true
unfolding is_hex_digits
is_hex_digits-map [] h = refl
is_hex_digits-map (d ∷ ds) h = rw (is_hex_digit-hex_digit d h.0) (is_hex_digits-map ds h.1)

-- A text of hexadecimal digits, two to a byte.
abbrev pub HasEvenLength : Text → Type 0
HasEvenLength s = length s % 2 ≡ 0

module _ (c d : ℕ) (s : Text) (h : is_hex_digits (c ∷ d ∷ s) ≡ true) where
  pub first_two : (is_hex_digit c ≡ true) × (is_hex_digit d ≡ true) × (is_hex_digits s ≡ true)
  unfolding is_hex_digits
  first_two = ground arith

pub length-buffer_from_hex :
    (s : Text)
    → is_hex_digits s ≡ true
    → HasEvenLength s
    → 2 * length (buffer_from_hex s) ≡ length s
unfolding buffer_from_hex
length-buffer_from_hex [] h e = refl
length-buffer_from_hex (c ∷ []) h e = absurd (omega arith)
length-buffer_from_hex (c ∷ d ∷ s) h e =
    let (p, q, r) = first_two c d s h in
    rw (p, q) (omega (arith, length-buffer_from_hex s r (omega arith)))

-- Whatever the text, what is decoded are bytes.
pub All-buffer_from_hex : (s : Text) → All IsByte (buffer_from_hex s)
unfolding buffer_from_hex
All-buffer_from_hex [] = tt
All-buffer_from_hex (c ∷ []) = tt
All-buffer_from_hex (c ∷ d ∷ s) =
    ground (arith, All-buffer_from_hex s, digit_value-lt c, digit_value-lt d)

module _ (c d : ℕ) (p : is_hex_digit c ≡ true) (q : is_hex_digit d ≡ true) where
  high_part : hex_digit ((digit_value c * 16 + digit_value d) / 16) ≡ to_lower c
  high_part = ap hex_digit (omega (arith, digit_value-lt d q)) ∙ hex_digit-digit_value c p

  low_part : hex_digit ((digit_value c * 16 + digit_value d) % 16) ≡ to_lower d
  low_part = ap hex_digit (omega (arith, digit_value-lt d q)) ∙ hex_digit-digit_value d q

pub hex_of_bytes-buffer_from_hex :
    (s : Text)
    → is_hex_digits s ≡ true
    → HasEvenLength s
    → hex_of_bytes (buffer_from_hex s) ≡ to_lower_case s
unfolding buffer_from_hex hex_of_bytes to_lower_case
hex_of_bytes-buffer_from_hex [] h e = refl
hex_of_bytes-buffer_from_hex (c ∷ []) h e = absurd (omega arith)
hex_of_bytes-buffer_from_hex (c ∷ d ∷ s) h e =
    let (p, q, r) = first_two c d s h in
    rw (p, q)
      (cc (hex_of_bytes-buffer_from_hex s r (omega arith), high_part c d p q, low_part c d p q))

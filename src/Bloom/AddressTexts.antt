-- ===== src/Bloom/AddressTexts.antt =====
-- How the texts of addresses and of filters are read (utils/bloom/bloom.ts, vcdm/Address.ts).
use vechain_sdk_js.Prelude.{
  ℕ, ◌+◌, ◌≤◌, ◌≡◌, refl, true, false, [], ◌∷◌, length, All, arith, ◌==◌, Bool-cases, inl, inr,
}
use vechain_sdk_js.Result.{ok}
use vechain_sdk_js.Text.{
  Text, Bytes, is_hex_digits, strip_sign, strip_tag, starts_with_minus, starts_with_tag,
  hex_of_bytes,
}
use vechain_sdk_js.Text.Bytes.{
  IsByte, length-hex_of_bytes, is_hex_digits-hex_of_bytes, to_lower_case-hex_of_bytes,
}
use vechain_sdk_js.Vcdm.Hex
use vechain_sdk_js.Vcdm.Hex.{
  Sign, positive, negative, Hex, new_hex, of_text, to_text, to_bytes, has_hex_prefix, is_valid0x,
}
use vechain_sdk_js.Vcdm.Hex.Value.{length-to_lower_case, is_hex_digits-to_lower_case}
use vechain_sdk_js.Vcdm.Address
use vechain_sdk_js.Bloom.Utils.{is_bloom}

-- Hexadecimal digits with nothing in front.
plain_digits :
    (s : Text)
    → is_hex_digits s ≡ true
    → (strip_tag s ≡ s)
      × (strip_sign s ≡ s)
      × (starts_with_minus s ≡ false)
      × (starts_with_tag s ≡ false)
unfolding is_hex_digits strip_tag strip_sign starts_with_minus starts_with_tag
plain_digits [] h = (refl, refl, refl, refl)
plain_digits (c ∷ []) h = ground arith
plain_digits (c ∷ d ∷ s) h = ground arith

pub of_text-hex_of_bytes :
    (bs : Bytes)
    → All IsByte bs
    → of_text (hex_of_bytes bs) ≡ ok (record { sign = positive; digits = hex_of_bytes bs })
unfolding of_text Hex.is_valid has_hex_prefix new_hex
of_text-hex_of_bytes bs h =
    let digits = is_hex_digits-hex_of_bytes bs h in
    let (tag, sign, minus, prefix) = plain_digits (hex_of_bytes bs) digits in
    rw (sign, tag, digits, minus, prefix, to_lower_case-hex_of_bytes bs h) refl

pub is_bloom-hex_of_bytes :
    (bs : Bytes) → All IsByte bs → 8 ≤ length bs → is_bloom (hex_of_bytes bs) ≡ true
unfolding is_bloom
is_bloom-hex_of_bytes bs h le =
    let digits = is_hex_digits-hex_of_bytes bs h in
    let (tag, sign, minus, prefix) = plain_digits (hex_of_bytes bs) digits in
    rw (tag, digits) (ground (arith, length-hex_of_bytes bs, le))

abbrev prefix_length : Sign → ℕ
prefix_length negative = 3
prefix_length positive = 2

-- How an address is read.
record AddressParts (s : Text) : Type 0 where
  sign : Sign
  rest : Text
  read : of_text s ≡ ok (new_hex sign rest)
  digits : is_hex_digits rest ≡ true
  full : length rest + prefix_length sign ≡ 42

address_parts : (s : Text) → Address.is_valid s ≡ true → AddressParts s
unfolding Address.is_valid is_valid0x of_text Hex.is_valid has_hex_prefix strip_sign strip_tag
    starts_with_tag starts_with_minus
address_parts [] h = absurd (ground (arith, h))
address_parts (c ∷ []) h = absurd (ground (arith, h))
address_parts (c ∷ d ∷ []) h = absurd (ground (arith, h))
address_parts (c ∷ d ∷ e ∷ s) h = elim (Bool-cases (c == b'-')) [
  | inl m ↦ record {
    sign = negative;
    rest = s;
    read = ground (arith, h, m);
    digits = ground (arith, h, m);
    full = ground (arith, h, m);
  }
  | inr m ↦ record {
    sign = positive;
    rest = e ∷ s;
    read = ground (arith, h, m);
    digits = ground (arith, h, m);
    full = ground (arith, h, m);
  }
]

is_valid-to_text :
    (sign : Sign) (d : Text)
    → is_hex_digits d ≡ true
    → length d + prefix_length sign ≡ 42
    → Address.is_valid (to_text (new_hex sign d)) ≡ true
unfolding Address.is_valid is_valid0x Hex.is_valid has_hex_prefix new_hex to_text strip_sign
    strip_tag starts_with_tag
is_valid-to_text negative d h full =
    ground (arith, is_hex_digits-to_lower_case d h, length-to_lower_case d, full)
is_valid-to_text positive d h full =
    ground (arith, is_hex_digits-to_lower_case d h, length-to_lower_case d, full)

-- The `Hex` of an address is valid in itself, and its text is an address.
pub valid_address :
    (s : Text)
    → Address.is_valid s ≡ true
    → (h : Hex) × (of_text s ≡ ok h) × (Address.is_valid (to_text h) ≡ true)
valid_address s h =
    let p = address_parts s h in
    (new_hex p.sign p.rest, p.read, is_valid-to_text p.sign p.rest p.digits p.full)

pub address-is_valid : (s : Text) → Address.is_valid s ≡ true → Hex.is_valid s ≡ true
unfolding Address.is_valid is_valid0x
address-is_valid s h = ground arith

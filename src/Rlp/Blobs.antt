-- ===== src/Rlp/Blobs.antt =====
-- The hexadecimal kinds: what they accept, and that a buffer they made is read back.
use vechain_sdk_js.Prelude.{ℕ, ◌+◌, ◌*◌, ◌%◌, ◌≡◌, true, [], ◌∷◌, length, drop, All, arith}
use vechain_sdk_js.Result.{ok, Context}
use vechain_sdk_js.Text.{
  Text, Bytes, is_hex_digits, strip_sign, strip_tag, starts_with_tag, buffer_from_hex, hex_of_bytes,
}
use vechain_sdk_js.Text.Bytes.{
  IsByte, length-hex_of_bytes, is_hex_digits-hex_of_bytes, buffer_from_hex-hex_of_bytes,
  to_lower_case-hex_of_bytes, length-buffer_from_hex, All-buffer_from_hex,
}
use vechain_sdk_js.Noble.{Noble}
use vechain_sdk_js.Vcdm.Hex.{is_valid, positive, of, bytes}
use vechain_sdk_js.Rlp.Value.{Value, str}
use vechain_sdk_js.Rlp.Kinds.{hex_blob_data, fixed_hex_blob_data, hex_blob_buffer}

-- The text that `Hex.toString` writes for bytes.
abbrev pub hex_text : Bytes → Text
hex_text bs = b'0' ∷ b'x' ∷ hex_of_bytes bs

-- After the tag of a valid text there are only digits.
pub is_hex_digits-drop :
    (s : Text) → starts_with_tag s ≡ true → is_valid s ≡ true → is_hex_digits (drop 2 s) ≡ true
unfolding starts_with_tag is_valid strip_sign strip_tag
is_hex_digits-drop [] t h = cc
is_hex_digits-drop (c ∷ []) t h = cc
is_hex_digits-drop (c ∷ d ∷ s) t h = ground arith

pub length-drop_two : (s : Text) → starts_with_tag s ≡ true → length s ≡ length (drop 2 s) + 2
unfolding starts_with_tag
length-drop_two [] t = cc
length-drop_two (c ∷ []) t = cc
length-drop_two (c ∷ d ∷ s) t = omega arith

abbrev pub IsTagged : Value → Type 0
IsTagged (str s) = starts_with_tag s ≡ true
IsTagged _ = Unit

pub hex_blob_data-IsByte :
    (v : Value) (context : Context) (bs : Bytes) → hex_blob_data v context ≡ ok bs → All IsByte bs
unfolding hex_blob_data
hex_blob_data-IsByte (str s) context bs h =
    let e : buffer_from_hex (drop 2 s) ≡ bs = ground arith in
    rw (← e) (All-buffer_from_hex (drop 2 s))
hex_blob_data-IsByte v context bs h = cc

-- A fixed blob has the length that its kind fixes.
pub fixed_hex_blob_data-length :
    (size : ℕ) (v : Value) (context : Context) (bs : Bytes)
    → IsTagged v
    → fixed_hex_blob_data size v context ≡ ok bs
    → (All IsByte bs) × (length bs ≡ size)
unfolding fixed_hex_blob_data
fixed_hex_blob_data-length size (str s) context bs t h =
    let valid : is_valid s ≡ true = ground arith in
    let even : length s % 2 ≡ 0 = ground arith in
    let size_is : length s ≡ size * 2 + 2 = ground arith in
    let e : buffer_from_hex (drop 2 s) ≡ bs = ground arith in
    rw (← e) (
      All-buffer_from_hex (drop 2 s),
      omega (
        arith,
        length-drop_two s t,
        length-buffer_from_hex (drop 2 s) (is_hex_digits-drop s t valid)
            (omega (arith, length-drop_two s t)),
      ),
    )
fixed_hex_blob_data-length size v context bs t h = cc

module _ (bs : Bytes) (h : All IsByte bs) where
  is_valid-hex_text : is_valid (hex_text bs) ≡ true
  unfolding is_valid strip_sign strip_tag
  is_valid-hex_text = is_hex_digits-hex_of_bytes bs h

  -- The canonical text of bytes is encoded to these bytes.
  pub hex_blob_data-hex_text :
      (context : Context) → hex_blob_data (str (hex_text bs)) context ≡ ok bs
  unfolding hex_blob_data
  hex_blob_data-hex_text context =
      ground (arith, is_valid-hex_text, length-hex_of_bytes bs, buffer_from_hex-hex_of_bytes bs h)

  pub fixed_hex_blob_data-hex_text :
      (context : Context) → fixed_hex_blob_data (length bs) (str (hex_text bs)) context ≡ ok bs
  unfolding fixed_hex_blob_data
  fixed_hex_blob_data-hex_text context =
      ground (arith, is_valid-hex_text, length-hex_of_bytes bs, buffer_from_hex-hex_of_bytes bs h)

  module _ (noble : Noble) where
    open noble use {bytes_to_hex_lem}

    pub of_bytes_lem :
        of noble (bytes bs) ≡ ok (record { sign = positive; digits = hex_of_bytes bs })
    unfolding of
    of_bytes_lem = rw (bytes_to_hex_lem bs h, to_lower_case-hex_of_bytes bs h)

    pub hex_blob_buffer_lem : hex_blob_buffer noble bs ≡ ok (str (hex_text bs))
    unfolding hex_blob_buffer
    hex_blob_buffer_lem = rw (bytes_to_hex_lem bs h, to_lower_case-hex_of_bytes bs h)

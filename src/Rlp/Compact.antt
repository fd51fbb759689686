-- ===== src/Rlp/Compact.antt =====
-- `CompactFixedHexBlobKind`: leading zero bytes are taken off, and are put back on reading.
use vechain_sdk_js.Prelude.{
  ℕ, zero, suc, ◌-◌, ◌*◌, ◌≤◌, ◌≡◌, refl, ap, ◌∙◌, sym, false, [], ◌∷◌, ◌++◌, length, replicate,
  length-replicate, All, All-append, All-replicate, length-append, arith, ◌==◌, ltb, Bool-cases,
  inl, inr,
}
use vechain_sdk_js.Result.{ok, Context, >>=-eq-ok}
use vechain_sdk_js.Text.{Bytes, to_lower_case, hex_of_bytes}
use vechain_sdk_js.Text.Bytes.{IsByte, length-hex_of_bytes, to_lower_case-hex_of_bytes}
use vechain_sdk_js.Noble.{Noble}
use vechain_sdk_js.Vcdm.Hex.{positive, fit}
use vechain_sdk_js.Rlp.Value.{Value, str}
use vechain_sdk_js.Rlp.Kinds.{
  starts_with_zero, fixed_hex_blob_data, encode_compact_fixed_hex_blob, compact_fixed_hex_blob_data,
  compact_fixed_hex_blob_buffer,
}
use vechain_sdk_js.Rlp.Blobs.{
  hex_text, IsTagged, fixed_hex_blob_data-length, fixed_hex_blob_data-hex_text, of_bytes_lem,
}

abbrev pub zeros : ℕ → Bytes
zeros n = replicate n 0

encode_compact-IsTrimmed :
    (bs : Bytes)
    → All IsByte bs
    → All IsByte (encode_compact_fixed_hex_blob bs)
      × (length (encode_compact_fixed_hex_blob bs) ≤ length bs)
      × (starts_with_zero (encode_compact_fixed_hex_blob bs) ≡ false)
unfolding encode_compact_fixed_hex_blob
encode_compact-IsTrimmed [] h = (tt, omega arith, refl)
encode_compact-IsTrimmed (b ∷ bs) h =
    let (p, q, r) = encode_compact-IsTrimmed bs h.1 in
    elim (Bool-cases (b == 0)) [
      | inl z ↦ rw z (p, omega arith, r)
      | inr z ↦ rw z (h, omega arith, z)
    ]

encode_compact-zeros :
    (n : ℕ) (bs : Bytes)
    → starts_with_zero bs ≡ false
    → encode_compact_fixed_hex_blob (zeros n ++ bs) ≡ bs
unfolding encode_compact_fixed_hex_blob
encode_compact-zeros zero [] h = refl
encode_compact-zeros zero (b ∷ bs) h = rw h
encode_compact-zeros (suc n) bs h = encode_compact-zeros n bs h

-- A compact encoding is at most as long as its kind says, and has no zero byte in front.
pub compact_fixed_hex_blob_data-IsTrimmed :
    (size : ℕ) (v : Value) (context : Context) (bs : Bytes)
    → IsTagged v
    → compact_fixed_hex_blob_data size v context ≡ ok bs
    → All IsByte bs × (length bs ≤ size) × (starts_with_zero bs ≡ false)
unfolding compact_fixed_hex_blob_data
compact_fixed_hex_blob_data-IsTrimmed size v context bs t h =
    let (whole, e, same) = >>=-eq-ok (fixed_hex_blob_data size v context) _ h in
    let (valid, full) = fixed_hex_blob_data-length size v context whole t e in
    let (p, q, r) = encode_compact-IsTrimmed whole valid in
    let same' : encode_compact_fixed_hex_blob whole ≡ bs = cc in rw (← same') (p, omega arith, r)

hex_of_bytes-zeros :
    (n : ℕ) (bs : Bytes) → hex_of_bytes (zeros n ++ bs) ≡ replicate (2 * n) b'0' ++ hex_of_bytes bs
unfolding hex_of_bytes
hex_of_bytes-zeros zero bs = refl
hex_of_bytes-zeros (suc n) bs =
    ap (λ t. b'0' ∷ b'0' ∷ t) (hex_of_bytes-zeros n bs)
    ∙ ap (λ k. replicate k b'0' ++ hex_of_bytes bs) {x = suc (suc (2 * n))} (omega arith)

module _ (size : ℕ) (bs : Bytes) (h : All IsByte bs) (le : length bs ≤ size) where
  abbrev pub padded : Bytes
  padded = zeros (size - length bs) ++ bs

  pub padded-IsByte : All IsByte padded
  padded-IsByte =
      All-append IsByte (zeros (size - length bs)) bs (All-replicate IsByte _ 0 (omega arith)) h

  pub length-padded : length padded ≡ size
  length-padded = omega (
    arith,
    length-append (zeros (size - length bs)) bs,
    length-replicate {A = ℕ} (size - length bs) 0,
  )

  padded_digits :
      to_lower_case (replicate (size * 2 - length (hex_of_bytes bs)) b'0' ++ hex_of_bytes bs)
      ≡ hex_of_bytes padded
  padded_digits =
      ap (λ k. to_lower_case (replicate k b'0' ++ hex_of_bytes bs)) {y = 2 * (size - length bs)}
        (omega (arith, length-hex_of_bytes bs))
      ∙ ap to_lower_case (sym (hex_of_bytes-zeros (size - length bs) bs))
      ∙ to_lower_case-hex_of_bytes padded padded-IsByte

  no_padding : length bs ≡ size → hex_of_bytes padded ≡ hex_of_bytes bs
  no_padding e = ap (λ k. hex_of_bytes (zeros k ++ bs)) {y = 0} (omega arith)

  fit-hex_of_bytes :
      fit (size * 2) (record { sign = positive; digits = hex_of_bytes bs })
      ≡ ok (record { sign = positive; digits = hex_of_bytes padded })
  unfolding fit
  fit-hex_of_bytes = elim (Bool-cases (ltb (length bs) size)) [
    | inl less ↦ ground (arith, length-hex_of_bytes bs, padded_digits)
    | inr full ↦ ground (arith, length-hex_of_bytes bs, no_padding (ground arith))
  ]

  module _ (trimmed : starts_with_zero bs ≡ false) (context : Context) where
    pub compact_fixed_hex_blob_buffer_lem :
        (noble : Noble)
        → compact_fixed_hex_blob_buffer noble size bs context ≡ ok (str (hex_text padded))
    unfolding compact_fixed_hex_blob_buffer
    compact_fixed_hex_blob_buffer_lem noble =
        ground (arith, of_bytes_lem bs h noble, fit-hex_of_bytes)

    pub compact_fixed_hex_blob_data-padded :
        compact_fixed_hex_blob_data size (str (hex_text padded)) context ≡ ok bs
    unfolding compact_fixed_hex_blob_data
    compact_fixed_hex_blob_data-padded = ground (
      arith,
      fixed_hex_blob_data-hex_text padded padded-IsByte context,
      length-padded,
      encode_compact-zeros (size - length bs) bs trimmed,
    )

-- ===== src/Rlp/Scalars.antt =====
-- What a scalar kind encodes is read back, and what is read is encoded to the same buffer.
use vechain_sdk_js.Prelude.{ℕ, ◌≡◌, refl, subst, [], ◌∷◌, arith}
use vechain_sdk_js.Result.{ok, Context}
use vechain_sdk_js.Text.{Bytes}
use vechain_sdk_js.Noble.{Noble}
use vechain_sdk_js.Rlp.Value.{
  Value, null, buf, str, ScalarKind, buffer_kind, hex_blob_kind, numeric_kind, fixed_hex_blob_kind,
  optional_fixed_hex_blob_kind, compact_fixed_hex_blob_kind,
}
use vechain_sdk_js.Rlp.Kinds.{
  data_of, buffer_of, buffer_data, fixed_hex_blob_data, fixed_hex_blob_buffer,
  optional_fixed_hex_blob_data, optional_fixed_hex_blob_buffer,
}
use vechain_sdk_js.Rlp.Blobs.{
  hex_text, IsTagged, hex_blob_data-IsByte, fixed_hex_blob_data-length, hex_blob_data-hex_text,
  fixed_hex_blob_data-hex_text, hex_blob_buffer_lem,
}
use vechain_sdk_js.Rlp.Compact.{
  padded, compact_fixed_hex_blob_data-IsTrimmed, compact_fixed_hex_blob_buffer_lem,
  compact_fixed_hex_blob_data-padded,
}
use vechain_sdk_js.Rlp.Numerics.{numeric_stable}

-- A text at a hexadecimal kind has its `0x`: the kinds do not check that.
abbrev pub IsTaggedFor : ScalarKind → Value → Type 0
IsTaggedFor buffer_kind v = Unit
IsTaggedFor (numeric_kind m) v = Unit
IsTaggedFor _ v = IsTagged v

module _ (noble : Noble) where
  fixed_stable :
      (size : ℕ) (v : Value) (context : Context) (bs : Bytes)
      → IsTagged v
      → fixed_hex_blob_data size v context ≡ ok bs
      → (w : Value) × (fixed_hex_blob_buffer noble size bs context ≡ ok w)
        × (fixed_hex_blob_data size w context ≡ ok bs)
  unfolding fixed_hex_blob_buffer
  fixed_stable size v context bs t h =
      let (valid, full) = fixed_hex_blob_data-length size v context bs t h in
      (
        str (hex_text bs),
        ground (arith, hex_blob_buffer_lem bs valid noble),
        rw (← full) (fixed_hex_blob_data-hex_text bs valid context),
      )

  optional_stable :
      (size : ℕ) (v : Value) (context : Context) (bs : Bytes)
      → IsTagged v
      → optional_fixed_hex_blob_data size v context ≡ ok bs
      → (w : Value) × (optional_fixed_hex_blob_buffer noble size bs context ≡ ok w)
        × (optional_fixed_hex_blob_data size w context ≡ ok bs)
  unfolding optional_fixed_hex_blob_data optional_fixed_hex_blob_buffer
  optional_stable size v context [] t h = (null, refl, refl)
  optional_stable size (str s) context (b ∷ bs) t h =
      let (valid, full) = fixed_hex_blob_data-length size (str s) context (b ∷ bs) t h in
      (
        str (hex_text (b ∷ bs)),
        ground (arith, hex_blob_buffer_lem (b ∷ bs) valid noble),
        subst (λ n. fixed_hex_blob_data n (str (hex_text (b ∷ bs))) context ≡ ok (b ∷ bs)) full
            (fixed_hex_blob_data-hex_text (b ∷ bs) valid context),
      )
  optional_stable size v context (b ∷ bs) t h = cc

  -- What a scalar kind encoded is read back, and what is read is encoded to the same buffer.
  pub scalar_stable :
      (k : ScalarKind) (v : Value) (context : Context) (bs : Bytes)
      → IsTaggedFor k v
      → data_of noble k v context ≡ ok bs
      → (w : Value) × (buffer_of noble k bs context ≡ ok w) × (data_of noble k w context ≡ ok bs)
  unfolding data_of buffer_of
  scalar_stable buffer_kind v context bs t h = (buf bs, refl, unfold buffer_data in refl)
  scalar_stable hex_blob_kind v context bs t h =
      let valid = hex_blob_data-IsByte v context bs h in
      (
        str (hex_text bs),
        hex_blob_buffer_lem bs valid noble,
        hex_blob_data-hex_text bs valid context,
      )
  scalar_stable (numeric_kind m) v context bs t h = numeric_stable noble m v context bs h
  scalar_stable (fixed_hex_blob_kind size) v context bs t h = fixed_stable size v context bs t h
  scalar_stable (optional_fixed_hex_blob_kind size) v context bs t h =
      optional_stable size v context bs t h
  scalar_stable (compact_fixed_hex_blob_kind size) v context bs t h =
      let (valid, fits, trimmed) = compact_fixed_hex_blob_data-IsTrimmed size v context bs t h in
      (
        str (hex_text (padded size bs valid fits)),
        compact_fixed_hex_blob_buffer_lem size bs valid fits trimmed context noble,
        compact_fixed_hex_blob_data-padded size bs valid fits trimmed context,
      )

-- ===== src/Transaction/Members.antt =====
-- What the decoder finds in the members of an encoded transaction: the checks of the constructor
-- hold of them again.
use vechain_sdk_js.Prelude.{
  ℕ, ◌≡◌, refl, ap, sym, ◌∙◌, subst, true, some, List, [], ◌∷◌, ◌++◌, drop, length, All, arith,
  ◌==◌,
}
use vechain_sdk_js.Result.{ok, Segment, Context, >>=-eq-ok}
use vechain_sdk_js.Text.{Text, Bytes, strip_sign, starts_with_tag, buffer_from_hex, hex_of_bytes}
use vechain_sdk_js.Text.Bytes.{IsByte, is_hex_digits-hex_of_bytes, buffer_from_hex-hex_of_bytes}
use vechain_sdk_js.Noble.{Noble}
use vechain_sdk_js.Vcdm.Hex.{is_valid0x, has_hex_prefix}
use vechain_sdk_js.Rlp.Value.{
  Value, str, buf, arr, is_defined, buffers, ScalarKind, buffer_kind, numeric_kind,
  compact_fixed_hex_blob_kind, Kind, scalar, array, leaf,
}
use vechain_sdk_js.Rlp.Kinds.{data_of, buffer_of}
use vechain_sdk_js.Rlp.Profiler.{pack_data, unpack_data}
use vechain_sdk_js.Rlp.Blobs.{hex_text, IsTagged}
use vechain_sdk_js.Rlp.Compact.{
  padded, padded-IsByte, length-padded, compact_fixed_hex_blob_data-IsTrimmed,
  compact_fixed_hex_blob_buffer_lem,
}
use vechain_sdk_js.Rlp.Numerics.{tagged-is_valid0x}
use vechain_sdk_js.Rlp.Shapes.{
  one_byte_number, unpack_data-is_defined, pack_buffer, pack_buffers, leaves, leaves-injective,
}
use vechain_sdk_js.Rlp.RoundTrip.{IsMatched}
use vechain_sdk_js.Transaction.Body.{is_byte_value, is_block_ref}

signed_is_empty :
    (c : ℕ) (s : Text)
    → (c == b'-') ≡ true
    → starts_with_tag s ≡ true
    → buffer_from_hex (drop 2 (c ∷ s)) ≡ []
unfolding starts_with_tag buffer_from_hex
signed_is_empty c [] h t = cc
signed_is_empty c (d ∷ []) h t = cc
signed_is_empty c (d ∷ e ∷ []) h t = refl
signed_is_empty c (d ∷ e ∷ f ∷ s) h t = ground arith

-- A block reference that passes the constructor has its `0x`, and no sign in front of it.
pub is_block_ref-IsTagged : (v : Value) → is_block_ref v ≡ true → IsTagged v
unfolding is_valid0x has_hex_prefix strip_sign starts_with_tag
is_block_ref-IsTagged (str []) h = cc
is_block_ref-IsTagged (str (c ∷ [])) h = ground arith
is_block_ref-IsTagged (str (c ∷ d ∷ s)) h = ground (arith, signed_is_empty c (d ∷ s))
is_block_ref-IsTagged v h = tt

is_block_ref-hex_text :
    (bs : Bytes) → All IsByte bs → length bs ≡ 8 → is_block_ref (str (hex_text bs)) ≡ true
is_block_ref-hex_text bs h full = ground (
  arith,
  tagged-is_valid0x (hex_of_bytes bs) (is_hex_digits-hex_of_bytes bs h),
  buffer_from_hex-hex_of_bytes bs h,
)

module _ (noble : Noble) where
  scalar_matched :
      (k : ScalarKind) (seg : Segment) (context : Context) (v w : Value)
      → IsMatched noble (scalar k) seg context v w
      → (b : Bytes) × (data_of noble k v (context ++ seg ∷ []) ≡ ok b)
        × (buffer_of noble k b (context ++ seg ∷ []) ≡ ok w)
  unfolding pack_data unpack_data
  scalar_matched k seg context v w m =
      let (b, encoded, same) = >>=-eq-ok (data_of noble k v (context ++ seg ∷ [])) _ m.written in
      let same' : leaf b ≡ m.packed = cc in
      let read =
        subst (λ p. unpack_data noble (scalar k) seg context p ≡ ok w) (sym same') m.read in
      (b, encoded, read)

  pub matched-is_defined :
      (kind : Kind) (seg : Segment) (context : Context) (v w : Value)
      → IsMatched noble kind seg context v w
      → is_defined w ≡ true
  matched-is_defined kind seg context v w m =
      unpack_data-is_defined noble kind seg context m.packed w m.read

  pub matched-is_byte_value :
      (seg : Segment) (context : Context) (v w : Value)
      → IsMatched noble (scalar (numeric_kind (some 1))) seg context v w
      → is_byte_value w ≡ true
  unfolding data_of buffer_of
  matched-is_byte_value seg context v w m =
      let (b, encoded, read) = scalar_matched (numeric_kind (some 1)) seg context v w m in
      let (n, small, same) = one_byte_number noble v w (context ++ seg ∷ []) b encoded read in
      rw same (ground arith)

  pub matched-is_block_ref :
      (seg : Segment) (context : Context) (v w : Value)
      → IsTagged v
      → IsMatched noble (scalar (compact_fixed_hex_blob_kind 8)) seg context v w
      → is_block_ref w ≡ true
  unfolding data_of buffer_of
  matched-is_block_ref seg context v w t m =
      let (b, encoded, read) = scalar_matched (compact_fixed_hex_blob_kind 8) seg context v w m in
      let c = context ++ seg ∷ [] in
      let (valid, fits, trimmed) = compact_fixed_hex_blob_data-IsTrimmed 8 v c b t encoded in
      let e = compact_fixed_hex_blob_buffer_lem 8 b valid fits trimmed c noble in
      let same : str (hex_text (padded 8 b valid fits)) ≡ w = cc in
      subst (λ x. is_block_ref x ≡ true) same
        (is_block_ref-hex_text _ (padded-IsByte 8 b valid fits) (length-padded 8 b valid fits))

  pub matched_buffer :
      (seg : Segment) (context : Context) (b : Bytes) (w : Value)
      → IsMatched noble (scalar buffer_kind) seg context (buf b) w
      → w ≡ buf b
  matched_buffer seg context b w m =
      let (c, is_c, p_c) = pack_buffer noble seg context (buf b) m.packed m.written in
      let (d, is_d, p_d) = pack_buffer noble seg context w m.packed m.again in cc

  pub matched_buffers :
      (seg : Segment) (context : Context) (bs : List Bytes) (w : Value)
      → IsMatched noble (array (scalar buffer_kind)) seg context (arr (buffers bs)) w
      → w ≡ arr (buffers bs)
  matched_buffers seg context bs w m =
      let (cs, is_c, p_c) = pack_buffers noble seg context (arr (buffers bs)) m.packed m.written in
      let (ds, is_d, p_d) = pack_buffers noble seg context w m.packed m.again in
      let e : leaves ds ≡ leaves cs = cc in
      is_d ∙ ap (λ t. arr (buffers t)) (leaves-injective ds cs e) ∙ sym is_c

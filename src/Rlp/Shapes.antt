-- ===== src/Rlp/Shapes.antt =====
-- What the kinds read, by shape: short numbers, buffers and arrays of buffers; nothing is undefined.
use vechain_sdk_js.Prelude.{
  suc, ℕ, ◌≤◌, ◌<◌, ◌≡◌, refl, ap, sym, ◌∙◌, subst, true, false, Option, some, List, [], ◌∷◌, ◌++◌,
  pos, length, All, arith,
}
use vechain_sdk_js.Result.{ok, Segment, item, Context, >>=-eq-ok}
use vechain_sdk_js.Text.{Bytes}
use vechain_sdk_js.Text.Positional.{be_bytes, be_value, value_from}
use vechain_sdk_js.Text.Bytes.{IsByte}
use vechain_sdk_js.Number.{Number, int}
use vechain_sdk_js.Noble.{Noble}
use vechain_sdk_js.Rlp.Value.{
  Value, num, buf, arr, is_defined, buffers, Items, nil, cons, ScalarKind, buffer_kind,
  numeric_kind, Kind, scalar, array, struct, Packed, leaf, node, Parts, none_left, part,
}
use vechain_sdk_js.Rlp.Kinds.{
  hex_blob_buffer, fixed_hex_blob_buffer, optional_fixed_hex_blob_buffer,
  compact_fixed_hex_blob_buffer, exceeds, data_of, buffer_of, buffer_data, numeric_data,
  numeric_buffer, number_or_hex, validate_numeric_kind_data,
}
use vechain_sdk_js.Rlp.Profiler.{pack_data, pack_array, pack_items, unpack_data}
use vechain_sdk_js.Rlp.Numerics.{
  be_bytes-IsByte, be_value-be_bytes, encode_big_int_to_buffer_lem, numeric_buffer-be_bytes,
}

be_value_lt : (bs : Bytes) → All IsByte bs → length bs ≤ 4 → be_value bs < 4294967296
unfolding be_value value_from
be_value_lt [] h le = omega arith
be_value_lt (a ∷ []) h le = omega arith
be_value_lt (a ∷ b ∷ []) h le = omega arith
be_value_lt (a ∷ b ∷ c ∷ []) h le = omega arith
be_value_lt (a ∷ b ∷ c ∷ d ∷ []) h le = omega arith
be_value_lt (a ∷ b ∷ c ∷ d ∷ e ∷ bs) h le = absurd (omega arith)

be_value_lt_256 : (bs : Bytes) → All IsByte bs → length bs ≤ 1 → be_value bs < 256
unfolding be_value value_from
be_value_lt_256 [] h le = omega arith
be_value_lt_256 (a ∷ []) h le = omega arith
be_value_lt_256 (a ∷ b ∷ bs) h le = absurd (omega arith)

pub short_lt : (n : ℕ) → length (be_bytes n) ≤ 4 → n < 4294967296
short_lt n le = omega (arith, be_value_lt (be_bytes n) (be_bytes-IsByte n) le, be_value-be_bytes n)

pub short_lt_256 : (n : ℕ) → length (be_bytes n) ≤ 1 → n < 256
short_lt_256 n le =
    omega (arith, be_value_lt_256 (be_bytes n) (be_bytes-IsByte n) le, be_value-be_bytes n)

validate_number :
    (n : Number) (context : Context) (m : ℕ)
    → validate_numeric_kind_data (num n) context ≡ ok m
    → n ≡ int (pos m)
unfolding validate_numeric_kind_data
validate_number (int (pos n)) context m h = ground arith
validate_number n context m h = ground arith

module _ (noble : Noble) where
  -- A number that a numeric kind encoded, and what the kind reads back.
  pub record IsRead (max_bytes : Option ℕ) (b : Bytes) (context : Context) : Type 0 where
    pub value : ℕ
    pub encoded : b ≡ be_bytes value
    pub fits : exceeds (length (be_bytes value)) max_bytes ≡ false
    pub read : numeric_buffer noble max_bytes b context ≡ ok (number_or_hex noble (pos value))

  pub IsRead-numeric_data :
      (max_bytes : Option ℕ) (v : Value) (context : Context) (b : Bytes)
      → numeric_data noble max_bytes v context ≡ ok b
      → IsRead max_bytes b context
  unfolding numeric_data
  IsRead-numeric_data max_bytes v context b h =
      let (n, valid, encoded) = >>=-eq-ok (validate_numeric_kind_data v context) _ h in
      let (same, fits) = encode_big_int_to_buffer_lem noble n max_bytes context b encoded in
      let fits' = subst (λ t. exceeds (length t) max_bytes ≡ false) same fits in
      record {
        value = n;
        encoded = same;
        fits = fits';
        read =
            subst (λ t. numeric_buffer noble max_bytes t context ≡ ok (number_or_hex noble (pos n)))
              (sym same) (numeric_buffer-be_bytes noble n max_bytes context fits');
      }

  number_or_hex_small : (n : ℕ) → n < 4294967296 → number_or_hex noble (pos n) ≡ num (int (pos n))
  number_or_hex_small n h = ground arith

  -- A `number` of at most four bytes is a natural number, and is read back as itself.
  pub numeric_data-number :
      (n : Number) (context : Context) (b : Bytes)
      → numeric_data noble (some 4) (num n) context ≡ ok b
      → (m : ℕ) × (n ≡ int (pos m))
        × (b ≡ be_bytes m)
        × (numeric_buffer noble (some 4) b context ≡ ok (num n))
  unfolding numeric_data
  numeric_data-number n context b h =
      let (m, valid, encoded) = >>=-eq-ok (validate_numeric_kind_data (num n) context) _ h in
      let same = validate_number n context m valid in
      let (bytes_are, fits) = encode_big_int_to_buffer_lem noble m (some 4) context b encoded in
      let fits' = subst (λ t. exceeds (length t) (some 4) ≡ false) bytes_are fits in
      let small = short_lt m (ground (arith, fits')) in
      (
        m,
        same,
        bytes_are,
        subst (λ t. numeric_buffer noble (some 4) t context ≡ ok (num n)) (sym bytes_are)
            (numeric_buffer-be_bytes noble m (some 4) context fits'
              ∙ ap ok (number_or_hex_small m small ∙ ap num (sym same))),
      )

  -- One byte is read as a number below 256.
  pub one_byte_number :
      (v x : Value) (context : Context) (b : Bytes)
      → numeric_data noble (some 1) v context ≡ ok b
      → numeric_buffer noble (some 1) b context ≡ ok x
      → (n : ℕ) × (n < 256) × (x ≡ num (int (pos n)))
  one_byte_number v x context b h k =
      let r = IsRead-numeric_data (some 1) v context b h in
      let small = short_lt_256 r.value (ground (arith, r.fits)) in
      let e : x ≡ number_or_hex noble (pos r.value) = cc (r.read) in
      (r.value, small, e ∙ number_or_hex_small r.value (omega arith))

module _ (noble : Noble) where
  numeric_buffer-is_defined :
      (m : Option ℕ) (b : Bytes) (context : Context) (x : Value)
      → numeric_buffer noble m b context ≡ ok x
      → is_defined x ≡ true
  unfolding numeric_buffer
  numeric_buffer-is_defined m [] context x h = ground arith
  numeric_buffer-is_defined m (c ∷ b) context x h = ground arith

  -- A scalar kind reads no `undefined`.
  buffer_of-is_defined :
      (k : ScalarKind) (b : Bytes) (context : Context) (x : Value)
      → buffer_of noble k b context ≡ ok x
      → is_defined x ≡ true
  unfolding buffer_of hex_blob_buffer fixed_hex_blob_buffer optional_fixed_hex_blob_buffer
      compact_fixed_hex_blob_buffer
  buffer_of-is_defined buffer_kind b context x h = ground arith
  buffer_of-is_defined (numeric_kind m) b context x h = numeric_buffer-is_defined m b context x h
  buffer_of-is_defined _ b context x h = ground arith

  pub unpack_data-is_defined :
      (kind : Kind) (seg : Segment) (context : Context) (p : Packed) (x : Value)
      → unpack_data noble kind seg context p ≡ ok x
      → is_defined x ≡ true
  unfolding unpack_data
  unpack_data-is_defined (scalar k) seg context (leaf b) x h =
      buffer_of-is_defined k b (context ++ seg ∷ []) x h
  unpack_data-is_defined (scalar k) seg context (node ps) x h = cc
  unpack_data-is_defined (struct ps) seg context (leaf b) x h = cc
  unpack_data-is_defined (struct ps) seg context (node parts) x h = ground arith
  unpack_data-is_defined (array kind) seg context (leaf b) x h = cc
  unpack_data-is_defined (array kind) seg context (node parts) x h = ground arith

abbrev pub leaves : List Bytes → Parts
leaves [] = none_left
leaves (b ∷ bs) = part (leaf b) (leaves bs)

unleaf : Parts → List Bytes
unleaf (part (leaf b) ps) = b ∷ unleaf ps
unleaf _ = []

unleaf-leaves : (bs : List Bytes) → unleaf (leaves bs) ≡ bs
unfolding unleaf
unleaf-leaves [] = refl
unleaf-leaves (b ∷ bs) = ap (λ t. b ∷ t) (unleaf-leaves bs)

pub leaves-injective : (bs cs : List Bytes) → leaves bs ≡ leaves cs → bs ≡ cs
leaves-injective bs cs e = sym (unleaf-leaves bs) ∙ ap unleaf e ∙ unleaf-leaves cs

module _ (noble : Noble) where
  -- A buffer is written as itself, and nothing but a buffer is accepted.
  pub pack_buffer :
      (seg : Segment) (context : Context) (v : Value) (p : Packed)
      → pack_data noble (scalar buffer_kind) seg context v ≡ ok p
      → (b : Bytes) × (v ≡ buf b) × (p ≡ leaf b)
  unfolding pack_data data_of buffer_data
  pack_buffer seg context (buf b) p h = (b, refl, ground arith)
  pack_buffer seg context v p h = cc

  pack_buffer_items :
      (context : Context) (i : ℕ) (vs : Items) (ps : Parts)
      → pack_items (λ s w. pack_data noble (scalar buffer_kind) s context w) i vs ≡ ok ps
      → (bs : List Bytes) × (vs ≡ buffers bs) × (ps ≡ leaves bs)
  unfolding pack_items
  pack_buffer_items context i nil ps h = ([], refl, ground arith)
  pack_buffer_items context i (cons v vs) ps h =
      let (p, first, later) =
        >>=-eq-ok (pack_data noble (scalar buffer_kind) (item i) context v) _ h in
      let (rest, others, same) =
        >>=-eq-ok (pack_items (λ s w. pack_data noble (scalar buffer_kind) s context w) (suc i) vs)
          _ later in
      let (b, is_buf, is_leaf) = pack_buffer (item i) context v p first in
      let (bs, are_bufs, are_leaves) = pack_buffer_items context (suc i) vs rest others in
      (b ∷ bs, cc, cc)

  -- An array of buffers, likewise.
  pub pack_buffers :
      (seg : Segment) (context : Context) (v : Value) (p : Packed)
      → pack_data noble (array (scalar buffer_kind)) seg context v ≡ ok p
      → (bs : List Bytes) × (v ≡ arr (buffers bs)) × (p ≡ node (leaves bs))
  unfolding pack_data pack_array
  pack_buffers seg context (arr vs) p h =
      let (ps, packed, same) =
        >>=-eq-ok
          (pack_items (λ s w. pack_data noble (scalar buffer_kind) s (context ++ seg ∷ []) w) 0 vs)
          _ h in
      let (bs, e, f) = pack_buffer_items (context ++ seg ∷ []) 0 vs ps packed in
      (bs, ap arr e, ground (arith, ap node f))
  pack_buffers seg context v p h = cc

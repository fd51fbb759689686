-- ===== src/Transaction/Reserved.antt =====
-- The reserved field: it is trimmed on encoding, and read back with the same features.
use vechain_sdk_js.Prelude.{
  ◌≡◌, refl, ap, sym, ◌∙◌, subst, false, Option, none, some, List, [], ◌∷◌, pos, arith,
}
use vechain_sdk_js.Result.{ok, field, Context, >>=-eq-ok}
use vechain_sdk_js.Text.{Bytes}
use vechain_sdk_js.Text.Positional.{be_value}
use vechain_sdk_js.Number.{Number, int, is_odd}
use vechain_sdk_js.Noble.{Noble}
use vechain_sdk_js.Rlp.Value.{num}
use vechain_sdk_js.Rlp.Kinds.{numeric_data}
use vechain_sdk_js.Rlp.Numerics.{be_value-be_bytes, be_value-nil}
use vechain_sdk_js.Rlp.Shapes.{numeric_data-number}
use vechain_sdk_js.Transaction.Body.{
  Reserved, features_or_zero, reserved_or_empty, unused_or_empty, keep, trim, encode_reserved_field,
}
use vechain_sdk_js.Transaction.Decode.{is_last_empty, unused_of, decode_reserved}

is_last_empty-keep :
    (b : Bytes) (t : List Bytes) → is_last_empty t ≡ false → is_last_empty (keep b t) ≡ false
unfolding is_last_empty
is_last_empty-keep b [] h = ground arith
is_last_empty-keep b (c ∷ cs) h = h

-- The last buffer of a trimmed list is not empty.
pub is_last_empty-trim : (bs : List Bytes) → is_last_empty (trim bs) ≡ false
unfolding is_last_empty trim
is_last_empty-trim [] = refl
is_last_empty-trim (b ∷ bs) = is_last_empty-keep b (trim bs) (is_last_empty-trim bs)

-- Trimming leaves a trimmed list as it is.
pub trim_of_trimmed : (bs : List Bytes) → is_last_empty bs ≡ false → trim bs ≡ bs
unfolding is_last_empty trim
trim_of_trimmed [] h = refl
trim_of_trimmed (b ∷ []) h = ground arith
trim_of_trimmed (b ∷ c ∷ bs) h = rw (trim_of_trimmed (c ∷ bs) h, trim)

trim_head :
    (f : Bytes) (bs : List Bytes) (r : Bytes) (rs : List Bytes) → trim (f ∷ bs) ≡ r ∷ rs → f ≡ r
unfolding trim
trim_head f bs r rs h = ground arith

trim_nil : (f : Bytes) (bs : List Bytes) → trim (f ∷ bs) ≡ [] → f ≡ []
unfolding trim
trim_nil [] bs h = refl
trim_nil (c ∷ f) bs h = ground arith

unused_or_empty-unused_of : (bs : List Bytes) → unused_or_empty (unused_of bs) ≡ bs
unused_or_empty-unused_of [] = refl
unused_or_empty-unused_of (b ∷ bs) = refl

module _ (noble : Noble) where
  -- How a reserved field is read back: with the same bit for delegation, and encoded the same.
  pub record IsReadBack (reserved : Option Reserved) (bs : List Bytes) : Type 0 where
    pub result : Option Reserved
    pub read : decode_reserved noble bs ≡ ok result
    pub again : encode_reserved_field noble result ≡ ok bs
    pub same_bit :
        is_odd (features_or_zero (reserved_or_empty result).features)
        ≡ is_odd (features_or_zero (reserved_or_empty reserved).features)

  numeric_zero :
      (context : Context) → numeric_data noble (some 4) (num (int (pos 0))) context ≡ ok []
  unfolding numeric_data
  numeric_zero context = refl

  module _ (reserved : Option Reserved) where
    abbrev features : Number
    features = features_or_zero (reserved_or_empty reserved).features

    abbrev unused : List Bytes
    unused = unused_or_empty (reserved_or_empty reserved).unused

    abbrev context : Context
    context = field "reserved.features" ∷ []

    reserved_nil :
        (f : Bytes)
        → numeric_data noble (some 4) (num features) context ≡ ok f
        → f ≡ []
        → IsReadBack reserved []
    unfolding decode_reserved encode_reserved_field
    reserved_nil f h e =
        let (m, is_m, bytes_are, read) = numeric_data-number noble features context f h in
        let zero_is : m ≡ 0 =
          sym (be_value-be_bytes m) ∙ ap be_value (sym bytes_are ∙ e) ∙ be_value-nil in
        record {
          result = none;
          read = refl;
          again = rw (numeric_zero context) refl;
          same_bit = sym (ap is_odd (is_m ∙ ap (λ k. int (pos k)) zero_is));
        }

    reserved_cons :
        (f : Bytes) (rest : List Bytes)
        → numeric_data noble (some 4) (num features) context ≡ ok f
        → is_last_empty (f ∷ rest) ≡ false
        → IsReadBack reserved (f ∷ rest)
    unfolding decode_reserved encode_reserved_field
    reserved_cons f rest h trimmed =
        let (m, is_m, bytes_are, read) = numeric_data-number noble features context f h in
        record {
          result = some (record { features = some features; unused = unused_of rest });
          read = rw (trimmed, read) refl;
          again = rw (h, unused_or_empty-unused_of rest, trim_of_trimmed (f ∷ rest) trimmed) refl;
          same_bit = refl;
        }

    reserved_step :
        (f : Bytes) (t : List Bytes)
        → numeric_data noble (some 4) (num features) context ≡ ok f
        → trim (f ∷ unused) ≡ t
        → IsReadBack reserved t
    reserved_step f [] h e = reserved_nil f h (trim_nil f unused e)
    reserved_step f (r ∷ rs) h e =
        let same = trim_head f unused r rs e in
        let trimmed = subst (λ t. is_last_empty t ≡ false) e (is_last_empty-trim (f ∷ unused)) in
        subst (λ x. IsReadBack reserved (x ∷ rs)) same
          (reserved_cons f rs h (subst (λ x. is_last_empty (x ∷ rs) ≡ false) (sym same) trimmed))

  -- The reserved field is always read back after it was encoded.
  pub decode_reserved-encode_reserved :
      (reserved : Option Reserved) (bs : List Bytes)
      → encode_reserved_field noble reserved ≡ ok bs
      → IsReadBack reserved bs
  unfolding encode_reserved_field
  decode_reserved-encode_reserved reserved bs h =
      let (f, encoded, same) =
        >>=-eq-ok (numeric_data noble (some 4) (num (features reserved)) (context reserved)) _ h in
      reserved_step reserved f bs encoded (cc same)

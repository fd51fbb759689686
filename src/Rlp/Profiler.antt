-- ===== src/Rlp/Profiler.antt =====
-- packages/core/src/encoding/rlp/rlp.ts: `_packData`, `_unpackData` and the class `Profiler`. The
-- RLP format itself is the package `@ethereumjs/rlp`, a parameter.
use text.Mathlib.Text.{◌==◌ as str_eq}
use vechain_sdk_js.Prelude.{ℕ, suc, ◌≡◌, String, [], ◌∷◌, ◌++◌, ◌==◌, if◌then◌else◌}
use vechain_sdk_js.Result.{
  Result, ok, err, Segment, field, item, Context, invalid_rlp, type_error, require, ◌>>=◌, ◌>>◌,
}
use vechain_sdk_js.Text.{Bytes}
use vechain_sdk_js.Noble.{Noble}
use vechain_sdk_js.Rlp.Value.{
  Value, null, undefined, arr, obj, Items, nil, cons, Fields, no_more, entry, Kind, scalar, array,
  struct, Profiles, finish, profile, Packed, leaf, node, Parts, none_left, part,
}
use vechain_sdk_js.Rlp.Kinds.{data_of, buffer_of}

-- `RLP.encode` and `RLP.decode`: decoding gives back what was encoded. On bytes that are no RLP the
-- decoder throws.
pub record RlpCodec : Type 0 where
  pub encode : Packed → Bytes
  pub decode : Bytes → Result Packed
  pub decode-encode : (p : Packed) → decode (encode p) ≡ ok p

unfoldable pub get_field : String → Fields → Value
get_field k no_more = undefined
get_field k (entry j v fs) = if str_eq j k then v else get_field k fs

-- `obj[name] = value`
unfoldable pub set_field : String → Value → Fields → Fields
set_field k v no_more = entry k v no_more
set_field k v (entry j w fs) = if str_eq j k then entry j v fs else entry j w (set_field k v fs)

-- `obj[name]`: reading from `null` or `undefined` throws. The other values have no properties with
-- the names of a profile.
unfoldable pub property : String → Value → Result Value
unfolding get_field
property k null = err type_error
property k undefined = err type_error
property k (obj fs) = ok (get_field k fs)
property k _ = ok undefined

-- `obj[name]`, where the value is there and is an object or no object at all
abbrev pub member : String → Value → Value
member name (obj fs) = get_field name fs
member name _ = undefined

unfoldable pub length_profiles : Profiles → ℕ
length_profiles finish = 0
length_profiles (profile name kind ps) = suc (length_profiles ps)

unfoldable pub length_parts : Parts → ℕ
length_parts none_left = 0
length_parts (part p ps) = suc (length_parts ps)

-- `obj.map((part, i) => ...)` over the items of an array
unfoldable pub pack_items : (Segment → Value → Result Packed) → ℕ → Items → Result Parts
pack_items f i nil = ok none_left
pack_items f i (cons v vs) = do p ← f (item i) v; ps ← pack_items f (suc i) vs; ok (part p ps)

-- `packed.map((part, index) => ...)`
unfoldable pub unpack_parts : (Segment → Packed → Result Value) → ℕ → Parts → Result Items
unpack_parts f i none_left = ok nil
unpack_parts f i (part p ps) = do v ← f (item i) p; vs ← unpack_parts f (suc i) ps; ok (cons v vs)

-- An array that is packed by `f`; anything else is refused.
unfoldable pub pack_array : (Segment → Value → Result Packed) → Value → Context → Result Packed
unfolding pack_items
pack_array f (arr vs) context = do ps ← pack_items f 0 vs; ok (node ps)
pack_array f _ context = err (invalid_rlp "_packData()" context)

unfoldable pub unpack_array : (Segment → Packed → Result Value) → Packed → Context → Result Value
unfolding unpack_parts
unpack_array f (node ps) context = do vs ← unpack_parts f 0 ps; ok (arr vs)
unpack_array f (leaf b) context = err (invalid_rlp "_unpackData()" context)

module _ (noble : Noble) where
  -- `_packData(obj, { name, kind }, context)`, with `name` as the segment that it adds.
  unfoldable mutual
    unfolding pack_array

    pub pack_data : Kind → Segment → Context → Value → Result Packed
    pack_data (scalar k) seg context v = do b ← data_of noble k v (context ++ seg ∷ []); ok (leaf b)
    pack_data (struct profiles) seg context v = do
      ps ← pack_struct profiles (context ++ seg ∷ []) v
      ok (node ps)
    pack_data (array kind) seg context v =
        pack_array (λ s w. pack_data kind s (context ++ seg ∷ []) w) v (context ++ seg ∷ [])

    pub pack_struct : Profiles → Context → Value → Result Parts
    pack_struct finish context v = ok none_left
    pack_struct (profile name kind rest) context v = do
      w ← property name v
      p ← pack_data kind (field name) context w
      ps ← pack_struct rest context v
      ok (part p ps)

  -- `_unpackData(packed, { name, kind }, context)`; the members of a struct are put into the object
  -- one after the other, as `reduce` does.
  unfoldable mutual
    unfolding unpack_array set_field length_profiles length_parts

    pub unpack_data : Kind → Segment → Context → Packed → Result Value
    unpack_data (scalar k) seg context (leaf b) = buffer_of noble k b (context ++ seg ∷ [])
    unpack_data (scalar k) seg context (node ps) =
        err (invalid_rlp "_unpackData()" (context ++ seg ∷ []))
    unpack_data (struct profiles) seg context (node ps) = do
      require (length_profiles profiles == length_parts ps)
          (invalid_rlp "_unpackData()" (context ++ seg ∷ []))
      fs ← unpack_struct profiles (context ++ seg ∷ []) ps no_more
      ok (obj fs)
    unpack_data (struct profiles) seg context (leaf b) =
        err (invalid_rlp "_unpackData()" (context ++ seg ∷ []))
    unpack_data (array kind) seg context packed =
        unpack_array (λ s p. unpack_data kind s (context ++ seg ∷ []) p) packed
          (context ++ seg ∷ [])

    -- The two lists have one length.
    pub unpack_struct : Profiles → Context → Parts → Fields → Result Fields
    unpack_struct finish context ps fs = ok fs
    unpack_struct (profile name kind rest) context (part p ps) fs = do
      v ← unpack_data kind (field name) context p
      unpack_struct rest context ps (set_field name v fs)
    unpack_struct (profile name kind rest) context none_left fs = err type_error

-- `Profiler`, for the profile with this name and kind.
module _ (noble : Noble) (codec : RlpCodec) (name : String) (kind : Kind) where
  unfoldable pub encode_object : Value → Result Bytes
  unfolding pack_data
  encode_object v = do packed ← pack_data noble kind (field name) [] v; ok (codec.encode packed)

  unfoldable pub decode_object : Bytes → Result Value
  unfolding unpack_data
  decode_object b = do packed ← codec.decode b; unpack_data noble kind (field name) [] packed

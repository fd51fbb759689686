-- ===== src/Rlp/Value.antt =====
-- packages/core/src/encoding/rlp/types.d.ts: the values that a profile reads, the profiles, and the
-- nested buffers that the RLP package encodes.
use vechain_sdk_js.Prelude.{ℕ, ℤ, String, Bool, true, false, Option, List, [], ◌∷◌}
use vechain_sdk_js.Number.{Number}
use vechain_sdk_js.Text.{Text, Bytes}

-- `RLPValueType`: what may stand at a place of an object that is encoded.
mutual
  pub data Value : Type 0 where
    null undefined : Value
    num : Number → Value
    big : ℤ → Value
    str : Text → Value
    buf : Bytes → Value
    arr : Items → Value
    obj : Fields → Value

  pub data Items : Type 0 where
    nil : Items
    cons : Value → Items → Items

  pub data Fields : Type 0 where
    no_more : Fields
    entry : String → Value → Fields → Fields

-- `value !== undefined`
abbrev pub is_defined : Value → Bool
is_defined undefined = false
is_defined _ = true

-- An array of buffers.
abbrev pub buffers : List Bytes → Items
buffers [] = nil
buffers (b ∷ bs) = cons (buf b) (buffers bs)

-- The scalar kinds, with what their constructors are given.
pub data ScalarKind : Type 0 where
  buffer_kind hex_blob_kind : ScalarKind
  numeric_kind : Option ℕ → ScalarKind
  fixed_hex_blob_kind optional_fixed_hex_blob_kind compact_fixed_hex_blob_kind : ℕ → ScalarKind

-- `RLPProfile['kind']`: a scalar, an `ArrayKind`, or a `StructKind`, a list of profiles.
mutual
  pub data Kind : Type 0 where
    scalar : ScalarKind → Kind
    array : Kind → Kind
    struct : Profiles → Kind

  pub data Profiles : Type 0 where
    finish : Profiles
    profile : String → Kind → Profiles → Profiles

-- `TRANSACTION_FIELDS.concat(...)`
abbrev pub concat_profiles : Profiles → Profiles → Profiles
concat_profiles finish qs = qs
concat_profiles (profile name kind ps) qs = profile name kind (concat_profiles ps qs)

-- Nested buffers: what is handed to `RLP.encode`, and what `RLP.decode` returns.
mutual
  pub data Packed : Type 0 where
    leaf : Bytes → Packed
    node : Parts → Packed

  pub data Parts : Type 0 where
    none_left : Parts
    part : Packed → Parts → Parts

-- ===== src/Transaction/Body.antt =====
-- packages/core/src/transaction/transaction.ts: the body of a transaction, its checks in the
-- constructor, and its RLP encoding. A field of the body is a JavaScript value: the decoder casts
-- what it read to `TransactionBody` with no check at run time.
use vechain_sdk_js.Prelude.{
  ◌*◌, pos, Bool, true, false, ◌&&◌, Option, none, some, List, [], ◌∷◌, length, drop, ◌==◌,
  if◌then◌else◌,
}
use vechain_sdk_js.Result.{
  Result, ok, field, invalid_transaction_field, invalid_secp256k1_signature, require, ◌>>=◌, ◌>>◌,
}
use vechain_sdk_js.Text.{Bytes, buffer_from_hex}
use vechain_sdk_js.Number.{Number, int, is_at_least_zero, is_at_most_255, is_odd}
use vechain_sdk_js.Noble.{Noble}
use vechain_sdk_js.Crypto.{signature_length}
use vechain_sdk_js.Vcdm.Hex.{is_valid0x}
use vechain_sdk_js.Rlp.Value.{
  concat_profiles, is_defined, buffers, Value, num, str, buf, arr, obj, Fields, no_more, entry,
  buffer_kind, hex_blob_kind, numeric_kind, optional_fixed_hex_blob_kind,
  compact_fixed_hex_blob_kind, Kind, scalar, array, struct, Profiles, finish, profile,
}
use vechain_sdk_js.Rlp.Kinds.{data_of}
use vechain_sdk_js.Rlp.Profiler.{RlpCodec, encode_object}

-- `reserved`, where each member may be missing.
pub record Reserved : Type 0 where
  pub features : Option Number
  pub unused : Option (List Bytes)

pub record TransactionBody : Type 0 where
  pub chain_tag : Value
  pub block_ref : Value
  pub expiration : Value
  pub clauses : Value
  pub gas_price_coef : Value
  pub gas : Value
  pub depends_on : Value
  pub nonce : Value
  pub reserved : Option Reserved

pub record Transaction : Type 0 where
  pub body : TransactionBody
  pub signature : Option Bytes

-- `TRANSACTION_FIELDS`
abbrev pub clause_fields : Profiles
clause_fields = profile "to" (scalar (optional_fixed_hex_blob_kind 20)) (
    profile "value" (scalar (numeric_kind (some 32)))
      (profile "data" (scalar hex_blob_kind) finish))

abbrev pub transaction_fields : Profiles
transaction_fields = profile "chainTag" (scalar (numeric_kind (some 1))) (
    profile "blockRef" (scalar (compact_fixed_hex_blob_kind 8)) (
      profile "expiration" (scalar (numeric_kind (some 4))) (
        profile "clauses" (array (struct clause_fields)) (
          profile "gasPriceCoef" (scalar (numeric_kind (some 1))) (
            profile "gas" (scalar (numeric_kind (some 8))) (
              profile "dependsOn" (scalar (optional_fixed_hex_blob_kind 32)) (
                profile "nonce" (scalar (numeric_kind (some 8)))
                  (profile "reserved" (array (scalar buffer_kind)) finish))))))))

-- `TRANSACTION_SIGNATURE_KIND`
abbrev pub signature_fields : Profiles
signature_fields = profile "signature" (scalar buffer_kind) finish

-- `UNSIGNED_TRANSACTION_RLP` and `SIGNED_TRANSACTION_RLP`
abbrev pub unsigned_kind : Kind
unsigned_kind = struct transaction_fields

abbrev pub signed_kind : Kind
signed_kind = struct (concat_profiles transaction_fields signature_fields)

-- `value >= 0 && value <= 255`, for the numbers that the type of the field admits.
abbrev pub is_byte_value : Value → Bool
is_byte_value (num n) = is_at_least_zero n && is_at_most_255 n
is_byte_value _ = false

-- The two tests of `blockRef`, for the strings that the type of the field admits.
abbrev pub is_block_ref : Value → Bool
is_block_ref (str s) = is_valid0x s && length (buffer_from_hex (drop 2 s)) == 8
is_block_ref _ = false

-- `isValidBody`
unfoldable pub is_valid_body : TransactionBody → Bool
unfolding is_valid0x
is_valid_body body =
    is_defined body.chain_tag
    && is_byte_value body.chain_tag
    && is_defined body.block_ref
    && is_block_ref body.block_ref
    && is_defined body.expiration
    && is_defined body.clauses
    && is_defined body.gas_price_coef
    && is_defined body.gas
    && is_defined body.depends_on
    && is_defined body.nonce

-- `features ?? 0`
abbrev pub features_or_zero : Option Number → Number
features_or_zero none = int (pos 0)
features_or_zero (some n) = n

-- `body.reserved ?? {}`
abbrev pub reserved_or_empty : Option Reserved → Reserved
reserved_or_empty none = record { features = none; unused = none }
reserved_or_empty (some r) = r

-- `_isDelegated`: `(features & 1) === 1`
unfoldable pub is_delegated_body : TransactionBody → Bool
is_delegated_body body = is_odd (features_or_zero (reserved_or_empty body.reserved).features)

-- `_isSignatureValid`
unfoldable pub is_signature_valid : TransactionBody → Bytes → Bool
unfolding is_delegated_body
is_signature_valid body signature =
    length signature == (if is_delegated_body body then signature_length * 2 else signature_length)

-- The constructor.
unfoldable pub new_transaction : TransactionBody → Option Bytes → Result Transaction
unfolding is_valid_body is_signature_valid
new_transaction body none = do
  require (is_valid_body body) (invalid_transaction_field "body")
  ok (record { body = body; signature = none })
new_transaction body (some signature) = do
  require (is_valid_body body) (invalid_transaction_field "body")
  require (is_signature_valid body signature) invalid_secp256k1_signature
  ok (record { body = body; signature = some signature })

-- The getters `isDelegated` and `isSigned`.
unfoldable pub is_delegated : Transaction → Bool
unfolding is_delegated_body
is_delegated tx = is_delegated_body tx.body

unfoldable pub is_signed : Transaction → Bool
is_signed tx = elim tx.signature [ none ↦ false | some s ↦ true ]

-- The loop that pops empty buffers off the end of the list: a buffer stays where one behind it
-- stays, or where it is not empty.
abbrev pub keep : Bytes → List Bytes → List Bytes
keep b [] = if length b == 0 then [] else b ∷ []
keep b (c ∷ cs) = b ∷ c ∷ cs

unfoldable pub trim : List Bytes → List Bytes
trim [] = []
trim (b ∷ bs) = keep b (trim bs)

abbrev pub unused_or_empty : Option (List Bytes) → List Bytes
unused_or_empty none = []
unused_or_empty (some bs) = bs

-- The members of `{ ...this.body, clauses, reserved }`, with `signature` where there is one.
abbrev pub fields_of : TransactionBody → List Bytes → Fields → Fields
fields_of body reserved more = entry "chainTag" body.chain_tag (
    entry "blockRef" body.block_ref (
      entry "expiration" body.expiration (
        entry "clauses" body.clauses (
          entry "gasPriceCoef" body.gas_price_coef (
            entry "gas" body.gas (
              entry "dependsOn" body.depends_on
                (entry "nonce" body.nonce (entry "reserved" (arr (buffers reserved)) more))))))))

abbrev pub signature_entry : Bytes → Fields
signature_entry signature = entry "signature" (buf signature) no_more

module _ (noble : Noble) where
  -- `_encodeReservedField`
  unfoldable pub encode_reserved_field : Option Reserved → Result (List Bytes)
  unfolding data_of trim
  encode_reserved_field reserved = do
    features ←
        data_of noble (numeric_kind (some 4))
          (num (features_or_zero (reserved_or_empty reserved).features))
          (field "reserved.features" ∷ [])
    ok (trim (features ∷ unused_or_empty (reserved_or_empty reserved).unused))

  module _ (codec : RlpCodec) where
    -- `_encode(false)`
    unfoldable pub encode_unsigned : TransactionBody → Result Bytes
    unfolding encode_reserved_field encode_object
    encode_unsigned body = do
      reserved ← encode_reserved_field body.reserved
      encode_object noble codec "tx" unsigned_kind (obj (fields_of body reserved no_more))

    -- `_encode(true)`
    unfoldable pub encode_signed : TransactionBody → Bytes → Result Bytes
    unfolding encode_reserved_field encode_object
    encode_signed body signature = do
      reserved ← encode_reserved_field body.reserved
      encode_object noble codec "tx" signed_kind
          (obj (fields_of body reserved (signature_entry signature)))

    -- The getter `encoded`.
    unfoldable pub encoded : Transaction → Result Bytes
    unfolding encode_unsigned encode_signed
    encoded tx = elim tx.signature [
      | none ↦ encode_unsigned tx.body
      | some signature ↦ encode_signed tx.body signature
    ]

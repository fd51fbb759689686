-- ===== src/Transaction/Decode.antt =====
-- packages/core/src/transaction/handlers/decode.ts
use vechain_sdk_js.Prelude.{Bool, true, false, not, Option, none, some, List, [], ◌∷◌, length, ◌==◌}
use vechain_sdk_js.Result.{Result, ok, field, invalid_transaction_field, require, ◌>>=◌, ◌>>◌}
use vechain_sdk_js.Text.{Bytes}
use vechain_sdk_js.Noble.{Noble}
use vechain_sdk_js.Rlp.Value.{Value, num, buf, arr, Items, nil, cons, numeric_kind, Kind}
use vechain_sdk_js.Rlp.Kinds.{buffer_of}
use vechain_sdk_js.Number.{Number}
use vechain_sdk_js.Rlp.Profiler.{RlpCodec, member, decode_object}
use vechain_sdk_js.Transaction.Body.{
  Reserved, TransactionBody, Transaction, unsigned_kind, signed_kind, new_transaction,
}

-- `member as Buffer[]`. The profile yields an array of buffers there.
abbrev pub buffers_of_items : Items → List Bytes
buffers_of_items nil = []
buffers_of_items (cons (buf b) vs) = b ∷ buffers_of_items vs
buffers_of_items (cons v vs) = [] ∷ buffers_of_items vs

abbrev pub buffers_of : Value → List Bytes
buffers_of (arr vs) = buffers_of_items vs
buffers_of _ = []

-- `reserved[reserved.length - 1].length === 0`
unfoldable pub is_last_empty : List Bytes → Bool
is_last_empty [] = false
is_last_empty (b ∷ []) = length b == 0
is_last_empty (b ∷ c ∷ bs) = is_last_empty (c ∷ bs)

-- `member as Buffer` where the member is there
abbrev pub signature_of : Value → Option Bytes
signature_of (buf b) = some b
signature_of _ = none

-- `value as number`. The profile yields a number there.
abbrev pub number_of : Value → Option Number
number_of (num n) = some n
number_of _ = none

-- `reserved.length > 1 ? { features, unused: reserved.slice(1) } : { features }`
abbrev pub unused_of : List Bytes → Option (List Bytes)
unused_of [] = none
unused_of (b ∷ bs) = some (b ∷ bs)

abbrev pub signed_or_not : Bool → Kind
signed_or_not true = signed_kind
signed_or_not false = unsigned_kind

module _ (noble : Noble) where
  -- `_decodeReservedField`
  unfoldable pub decode_reserved_field : Bytes → List Bytes → Result Reserved
  unfolding is_last_empty buffer_of
  decode_reserved_field first rest = do
    require (not (is_last_empty (first ∷ rest))) (invalid_transaction_field "reserved")
    features ← buffer_of noble (numeric_kind (some 4)) first (field "reserved.features" ∷ [])
    ok (record { features = number_of features; unused = unused_of rest })

  -- `decodedRLPBody.reserved.length > 0`
  unfoldable pub decode_reserved : List Bytes → Result (Option Reserved)
  unfolding decode_reserved_field
  decode_reserved [] = ok none
  decode_reserved (first ∷ rest) = do
    reserved ← decode_reserved_field first rest
    ok (some reserved)

  -- `bodyWithoutReservedField`, with the reserved field
  abbrev pub body_of : Value → Option Reserved → TransactionBody
  body_of v reserved = record {
    chain_tag = member "chainTag" v;
    block_ref = member "blockRef" v;
    expiration = member "expiration" v;
    clauses = member "clauses" v;
    gas_price_coef = member "gasPriceCoef" v;
    gas = member "gas" v;
    depends_on = member "dependsOn" v;
    nonce = member "nonce" v;
    reserved = reserved;
  }

  unfoldable pub decode : RlpCodec → Bytes → Bool → Result Transaction
  unfolding decode_object decode_reserved new_transaction
  decode codec raw is_signed = do
    v ← decode_object noble codec "tx" (signed_or_not is_signed) raw
    reserved ← decode_reserved (buffers_of (member "reserved" v))
    new_transaction (body_of v reserved) (signature_of (member "signature" v))

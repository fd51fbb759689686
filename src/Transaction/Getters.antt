-- ===== src/Transaction/Getters.antt =====
-- The getters of a transaction that was decoded (transaction.ts, handlers/decode.ts).
use vechain_sdk_js.Prelude.{◌≡◌, refl, sym, subst, Option, none, some}
use vechain_sdk_js.Result.{ok}
use vechain_sdk_js.Text.{Bytes}
use vechain_sdk_js.Noble.{Noble}
use vechain_sdk_js.Crypto.{Crypto}
use vechain_sdk_js.Rlp.Profiler.{RlpCodec}
use vechain_sdk_js.Transaction.Body.{
  TransactionBody, Transaction, new_transaction, is_delegated, is_delegated_body, encode_unsigned,
  encoded, is_signed,
}
use vechain_sdk_js.Transaction.Decode.{decode}
use vechain_sdk_js.Transaction.Matched.{IsTaggedBody}
use vechain_sdk_js.Transaction.RoundTrip.{IsSame, decode-encoded}
use vechain_sdk_js.Transaction.Signing.{
  get_signature_hash, get_signature_hash_for, origin, origin_of, delegator, delegator_of, id, id_of,
}

module _ (noble : Noble) (crypto : Crypto) (codec : RlpCodec) where
  module _ (body other : TransactionBody)
      (e : encode_unsigned noble codec other ≡ encode_unsigned noble codec body) where
    get_signature_hash-same :
        get_signature_hash noble crypto codec other ≡ get_signature_hash noble crypto codec body
    unfolding get_signature_hash
    get_signature_hash-same = rw e refl

    origin_of-same :
        (s : Bytes) → origin_of noble crypto codec other s ≡ origin_of noble crypto codec body s
    unfolding origin_of
    origin_of-same s = rw get_signature_hash-same refl

    delegator_of-same :
        (s : Bytes)
        → delegator_of noble crypto codec other s ≡ delegator_of noble crypto codec body s
    unfolding delegator_of get_signature_hash_for
    delegator_of-same s = rw (origin_of-same s, get_signature_hash-same) refl

    id_of-same : (s : Bytes) → id_of noble crypto codec other s ≡ id_of noble crypto codec body s
    unfolding id_of
    id_of-same s = rw (origin_of-same s, get_signature_hash-same) refl

  -- The getters that depend on the encoding only.
  pub record HasSameGetters (tx other : Transaction) : Type 0 where
    pub origin : origin noble crypto codec other ≡ origin noble crypto codec tx
    pub delegator : delegator noble crypto codec other ≡ delegator noble crypto codec tx
    pub id : id noble crypto codec other ≡ id noble crypto codec tx
    pub is_signed : is_signed other ≡ is_signed tx

  getters_of_same :
      (body other : TransactionBody) (signature : Option Bytes)
      → encode_unsigned noble codec other ≡ encode_unsigned noble codec body
      → is_delegated_body other ≡ is_delegated_body body
      → HasSameGetters
          (record { body = body; signature = signature })
          (record { body = other; signature = signature })
  unfolding origin delegator id is_signed is_delegated
  getters_of_same body other none e d = record {
    origin = refl;
    delegator = rw d refl;
    id = refl;
    is_signed = refl;
  }
  getters_of_same body other (some s) e d = record {
    origin = origin_of-same body other e s;
    delegator = rw (d, delegator_of-same body other e s) refl;
    id = id_of-same body other e s;
    is_signed = refl;
  }

  same-getters : (tx other : Transaction) → IsSame noble codec tx other → HasSameGetters tx other
  unfolding is_delegated
  same-getters tx other s =
      subst (λ g. HasSameGetters tx (record { body = other.body; signature = g })) (sym s.signature)
        (getters_of_same tx.body other.body tx.signature s.payload s.delegation)

  -- A transaction that is decoded from an encoding has the origin, the delegator and the
  -- identifier of the transaction that was encoded, errors included.
  pub decode-HasSameGetters :
      (body : TransactionBody) (signature : Option Bytes) (tx : Transaction) (b : Bytes)
      → new_transaction body signature ≡ ok tx
      → IsTaggedBody body
      → encoded noble codec tx ≡ ok b
      → (other : Transaction) × (decode noble codec b (is_signed tx) ≡ ok other)
        × HasSameGetters tx other
  decode-HasSameGetters body signature tx b made tagged h =
      let (other, read, s) = decode-encoded noble codec body signature tx b made tagged h in
      (other, read, same-getters tx other s)

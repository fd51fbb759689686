-- ===== src/Transaction/Matched.antt =====
-- The members of an encoded transaction, after the decoder has read them (transaction.ts and
-- handlers/decode.ts).
use vechain_sdk_js.Prelude.{
  ◌≡◌, refl, ap, sym, ◌∙◌, Bool, true, ◌&&◌, Option, none, some, List, [], ◌∷◌, arith,
}
use vechain_sdk_js.Result.{ok, field, Context, require-eq-ok}
use vechain_sdk_js.Text.{Bytes}
use vechain_sdk_js.Noble.{Noble}
use vechain_sdk_js.Rlp.Value.{
  buf, arr, obj, Fields, no_more, buffers, is_defined, array, struct, concat_profiles,
}
use vechain_sdk_js.Rlp.Profiler.{RlpCodec, get_field}
use vechain_sdk_js.Rlp.Blobs.{IsTagged}
use vechain_sdk_js.Rlp.Members.{IsFresh}
use vechain_sdk_js.Rlp.Conditions.{IsTaggedAt, HaveDistinctNames}
use vechain_sdk_js.Rlp.RoundTrip.{
  AreMatched, AreMatched-concat, encode_object-AreMatched, encode_object-HaveSameMembers,
}
use vechain_sdk_js.Transaction.Body.{
  Reserved, TransactionBody, Transaction, clause_fields, transaction_fields, signature_fields,
  is_valid_body, is_byte_value, is_block_ref, is_delegated_body, is_signature_valid,
  new_transaction, encode_reserved_field, fields_of, signature_entry, encode_unsigned,
  encode_signed,
}
use vechain_sdk_js.Transaction.Decode.{buffers_of_items, body_of}
use vechain_sdk_js.Transaction.Reserved.{IsReadBack}
use vechain_sdk_js.Transaction.Members.{
  is_block_ref-IsTagged, matched-is_defined, matched-is_byte_value, matched-is_block_ref,
  matched_buffers,
}

-- The texts of `dependsOn` and of the clauses' `to` and `data` have their `0x`.
pub record IsTaggedBody (body : TransactionBody) : Type 0 where
  pub depends_on : IsTagged body.depends_on
  pub clauses : IsTaggedAt (array (struct clause_fields)) body.clauses

pub distinct_names : HaveDistinctNames (concat_profiles transaction_fields signature_fields)
distinct_names = ground arith

pub distinct_unsigned : HaveDistinctNames transaction_fields
distinct_unsigned = ground arith

pub unsigned-IsFresh : IsFresh "signature" transaction_fields
unsigned-IsFresh = ground arith

pub buffers_of_items-buffers : (bs : List Bytes) → buffers_of_items (buffers bs) ≡ bs
buffers_of_items-buffers [] = refl
buffers_of_items-buffers (b ∷ bs) = ap (λ t. b ∷ t) (buffers_of_items-buffers bs)

fourth_of :
    (a b c d e f g h i j : Bool)
    → (a && b && c && d && e && f && g && h && i && j) ≡ true
    → d ≡ true
fourth_of a b c d e f g h i j p = ground arith

pub block_ref_of_valid :
    (body : TransactionBody) → is_valid_body body ≡ true → IsTagged body.block_ref
unfolding is_valid_body
block_ref_of_valid body h = is_block_ref-IsTagged body.block_ref (
    fourth_of (is_defined body.chain_tag) (is_byte_value body.chain_tag) (is_defined body.block_ref)
      (is_block_ref body.block_ref) (is_defined body.expiration) (is_defined body.clauses)
      (is_defined body.gas_price_coef) (is_defined body.gas) (is_defined body.depends_on)
      (is_defined body.nonce) h)

all_of :
    (a b c d e f g h i j : Bool)
    → a ≡ true
    → b ≡ true
    → c ≡ true
    → d ≡ true
    → e ≡ true
    → f ≡ true
    → g ≡ true
    → h ≡ true
    → i ≡ true
    → j ≡ true
    → (a && b && c && d && e && f && g && h && i && j) ≡ true
all_of a b c d e f g h i j p q r s t u v w x y = rw (p, q, r, s, t, u, v, w, x, y) refl

abbrev pub in_tx : Context
in_tx = field "tx" ∷ []

module _ (noble : Noble) where
  -- The body that is read back passes the checks of the constructor.
  pub is_valid_body-matched :
      (body : TransactionBody) (bs : List Bytes) (more fs : Fields) (reserved : Option Reserved)
      → is_valid_body body ≡ true
      → AreMatched noble transaction_fields in_tx (obj (fields_of body bs more)) fs
      → is_valid_body (body_of noble (obj fs) reserved) ≡ true
  unfolding is_valid_body get_field
  is_valid_body-matched body bs more fs reserved h m =
      let tagged = block_ref_of_valid body h in
      all_of _ _ _ _ _ _ _ _ _ _ (matched-is_defined noble _ _ _ _ _ m.0)
        (matched-is_byte_value noble _ _ _ _ m.0) (matched-is_defined noble _ _ _ _ _ m.1.0)
        (matched-is_block_ref noble _ _ _ _ tagged m.1.0)
        (matched-is_defined noble _ _ _ _ _ m.1.1.0) (matched-is_defined noble _ _ _ _ _ m.1.1.1.0)
        (matched-is_defined noble _ _ _ _ _ m.1.1.1.1.0)
        (matched-is_defined noble _ _ _ _ _ m.1.1.1.1.1.0)
        (matched-is_defined noble _ _ _ _ _ m.1.1.1.1.1.1.0)
        (matched-is_defined noble _ _ _ _ _ m.1.1.1.1.1.1.1.0)

  pub reserved-matched :
      (body : TransactionBody) (bs : List Bytes) (more fs : Fields)
      → AreMatched noble transaction_fields in_tx (obj (fields_of body bs more)) fs
      → get_field "reserved" fs ≡ arr (buffers bs)
  unfolding get_field
  reserved-matched body bs more fs m =
      matched_buffers noble (field "reserved") in_tx bs (get_field "reserved" fs)
        m.1.1.1.1.1.1.1.1.0

  pub new_transaction-signed :
      (body : TransactionBody) (signature : Bytes) (tx : Transaction)
      → new_transaction body (some signature) ≡ ok tx
      → (is_valid_body body ≡ true)
        × (is_signature_valid body signature ≡ true)
        × (record { body = body; signature = some signature } ≡ tx)
  unfolding new_transaction
  new_transaction-signed body signature tx h =
      let (valid, h₁) = require-eq-ok (is_valid_body body) _ _ _ h in
      let (fits, h₂) = require-eq-ok (is_signature_valid body signature) _ _ _ h₁ in
      (valid, fits, cc)

  pub new_transaction-unsigned :
      (body : TransactionBody) (tx : Transaction)
      → new_transaction body none ≡ ok tx
      → (is_valid_body body ≡ true) × (record { body = body; signature = none } ≡ tx)
  unfolding new_transaction
  new_transaction-unsigned body tx h =
      let (valid, h₁) = require-eq-ok (is_valid_body body) _ _ _ h in (valid, cc)

  module _ (codec : RlpCodec) (body : TransactionBody) (bs : List Bytes) where
    abbrev pub read_body : Fields → IsReadBack noble body.reserved bs → TransactionBody
    read_body fs r = body_of noble (obj fs) r.result

    -- The members that are read back are encoded to the same bytes, signed or not.
    pub encode_unsigned-matched :
        (more fs : Fields) (r : IsReadBack noble body.reserved bs)
        → encode_reserved_field noble body.reserved ≡ ok bs
        → AreMatched noble transaction_fields in_tx (obj (fields_of body bs more)) fs
        → encode_unsigned noble codec (read_body fs r) ≡ encode_unsigned noble codec body
    unfolding encode_unsigned get_field
    encode_unsigned-matched more fs r h m =
        let at = reserved-matched body bs more fs m in
        rw (r.again, h)
          (encode_object-HaveSameMembers noble codec "tx" transaction_fields
              (fields_of (read_body fs r) bs no_more) fs
              (refl, (refl, (refl, (refl, (refl, (refl, (refl, (refl, (sym at, tt)))))))))
            ∙ encode_object-AreMatched noble codec "tx" transaction_fields
                (fields_of body bs no_more) fs m)

    pub encode_signed-matched :
        (signature : Bytes) (fs : Fields) (r : IsReadBack noble body.reserved bs)
        → encode_reserved_field noble body.reserved ≡ ok bs
        → AreMatched noble
            (concat_profiles transaction_fields signature_fields)
            in_tx
            (obj (fields_of body bs (signature_entry signature)))
            fs
        → get_field "signature" fs ≡ buf signature
        → encode_signed noble codec (read_body fs r) signature
          ≡ encode_signed noble codec body signature
    unfolding encode_signed get_field
    encode_signed-matched signature fs r h m sig =
        let more = signature_entry signature in
        let ps = concat_profiles transaction_fields signature_fields in
        let at = reserved-matched body bs more fs (
          AreMatched-concat noble transaction_fields signature_fields in_tx
            (obj (fields_of body bs more)) fs m) in
        rw (r.again, h)
          (encode_object-HaveSameMembers noble codec "tx" ps (fields_of (read_body fs r) bs more) fs
              (
                refl,
                (refl, (refl, (refl, (refl, (refl, (refl, (refl, (sym at, (sym sig, tt))))))))),
              )
            ∙ encode_object-AreMatched noble codec "tx" ps (fields_of body bs more) fs m)

    pub is_delegated_body-matched :
        (fs : Fields) (r : IsReadBack noble body.reserved bs)
        → is_delegated_body (read_body fs r) ≡ is_delegated_body body
    unfolding is_delegated_body
    is_delegated_body-matched fs r = r.same_bit

    -- The constructor accepts what is read back.
    pub new_transaction-matched :
        (signature : Bytes) (fs : Fields) (r : IsReadBack noble body.reserved bs)
        → is_valid_body (read_body fs r) ≡ true
        → is_signature_valid body signature ≡ true
        → new_transaction (read_body fs r) (some signature)
          ≡ ok (record { body = read_body fs r; signature = some signature })
    unfolding new_transaction is_signature_valid
    new_transaction-matched signature fs r valid fits =
        rw (valid, is_delegated_body-matched fs r, fits) refl

-- ===== src/Transaction/RoundTrip.antt =====
-- Decoding an encoded transaction (handlers/decode.ts and the getter `encoded` of transaction.ts).
use vechain_sdk_js.Prelude.{◌≡◌, refl, ap, subst, true, false, Option, none, some, List, [], ◌∷◌}
use vechain_sdk_js.Result.{ok, field, >>=-eq-ok}
use vechain_sdk_js.Text.{Bytes}
use vechain_sdk_js.Noble.{Noble}
use vechain_sdk_js.Rlp.Value.{obj, Fields, no_more, buffers, struct, concat_profiles}
use vechain_sdk_js.Rlp.Profiler.{RlpCodec, get_field, decode_object}
use vechain_sdk_js.Rlp.Conditions.{AllItems, AreTaggedAt}
use vechain_sdk_js.Rlp.RoundTrip.{AreMatched, decode_object_struct, AreMatched-concat}
use vechain_sdk_js.Transaction.Body.{
  TransactionBody, Transaction, transaction_fields, signature_fields, is_valid_body,
  is_signature_valid, new_transaction, is_delegated, is_signed, encode_reserved_field, fields_of,
  signature_entry, encode_unsigned, encode_signed, encoded,
}
use vechain_sdk_js.Transaction.Decode.{signature_of, body_of, decode}
use vechain_sdk_js.Transaction.Reserved.{decode_reserved-encode_reserved}
use vechain_sdk_js.Transaction.Members.{matched_buffer}
use vechain_sdk_js.Transaction.Matched.{
  IsTaggedBody, distinct_names, distinct_unsigned, unsigned-IsFresh, block_ref_of_valid, in_tx,
  is_valid_body-matched, reserved-matched, new_transaction-signed, new_transaction-unsigned,
  encode_unsigned-matched, encode_signed-matched, is_delegated_body-matched,
  new_transaction-matched, buffers_of_items-buffers,
}

-- Two transactions with the same signature and the same encodings, as payload and in full.
pub record IsSame (noble : Noble) (codec : RlpCodec) (tx other : Transaction) : Type 0 where
  pub signature : other.signature ≡ tx.signature
  pub bytes : encoded noble codec other ≡ encoded noble codec tx
  pub payload : encode_unsigned noble codec other.body ≡ encode_unsigned noble codec tx.body
  pub delegation : is_delegated other ≡ is_delegated tx

buffers-AllItems : (bs : List Bytes) → AllItems {0} (λ v. Unit) (buffers bs)
buffers-AllItems [] = tt
buffers-AllItems (b ∷ bs) = (tt, buffers-AllItems bs)

module _ (noble : Noble) (codec : RlpCodec) where
  module _ (body : TransactionBody) (bs : List Bytes) (b : Bytes) where
    -- The rest of the decoder, after the profile has read the members.
    decode-members_signed :
        (signature : Bytes) (fs : Fields)
        → is_valid_body body ≡ true
        → is_signature_valid body signature ≡ true
        → encode_reserved_field noble body.reserved ≡ ok bs
        → decode_object noble codec "tx"
            (struct (concat_profiles transaction_fields signature_fields))
            b
          ≡ ok (obj fs)
        → AreMatched noble
            (concat_profiles transaction_fields signature_fields)
            in_tx
            (obj (fields_of body bs (signature_entry signature)))
            fs
        → (tx : Transaction) × (decode noble codec b true ≡ ok tx)
          × IsSame noble codec (record { body = body; signature = some signature }) tx
    unfolding decode is_delegated encoded get_field
    decode-members_signed signature fs valid fits reserved read m =
        let more = signature_entry signature in
        let n =
          AreMatched-concat noble transaction_fields signature_fields in_tx
            (obj (fields_of body bs more)) fs m in
        let r = decode_reserved-encode_reserved noble body.reserved bs reserved in
        let valid' = is_valid_body-matched noble body bs more fs r.result valid n in
        let sig =
          matched_buffer noble (field "signature") in_tx signature (get_field "signature" fs)
            m.1.1.1.1.1.1.1.1.1.0 in
        (
          record { body = body_of noble (obj fs) r.result; signature = some signature },
          rw
              (
                read,
                reserved-matched noble body bs more fs n,
                buffers_of_items-buffers bs,
                r.read,
                sig,
                new_transaction-matched noble codec body bs signature fs r valid' fits,
              )
              refl,
          record {
            signature = refl;
            bytes = encode_signed-matched noble codec body bs signature fs r reserved m sig;
            payload = encode_unsigned-matched noble codec body bs more fs r reserved n;
            delegation = is_delegated_body-matched noble codec body bs fs r;
          },
        )

  decode-encode_signed :
      (body : TransactionBody) (signature b : Bytes)
      → is_valid_body body ≡ true
      → is_signature_valid body signature ≡ true
      → IsTaggedBody body
      → encode_signed noble codec body signature ≡ ok b
      → (tx : Transaction) × (decode noble codec b true ≡ ok tx)
        × IsSame noble codec (record { body = body; signature = some signature }) tx
  unfolding encode_signed get_field
  decode-encode_signed body signature b valid fits tagged h =
      let (bs, reserved, h₁) = >>=-eq-ok (encode_reserved_field noble body.reserved) _ h in
      let ps = concat_profiles transaction_fields signature_fields in
      let v = obj (fields_of body bs (signature_entry signature)) in
      let t : AreTaggedAt ps v = (
        tt,
        (
          block_ref_of_valid body valid,
          (
            tt,
            (
              tagged.clauses,
              (tt, (tt, (tagged.depends_on, (tt, (buffers-AllItems bs, (tt, tt)))))),
            ),
          ),
        ),
      ) in
      let (fs, read, again, m, others) =
        decode_object_struct noble codec "tx" ps v b distinct_names t h₁ in
      decode-members_signed body bs b signature fs valid fits reserved read m

  decode-members_unsigned :
      (body : TransactionBody) (bs : List Bytes) (b : Bytes) (fs : Fields)
      → is_valid_body body ≡ true
      → encode_reserved_field noble body.reserved ≡ ok bs
      → decode_object noble codec "tx" (struct transaction_fields) b ≡ ok (obj fs)
      → AreMatched noble transaction_fields in_tx (obj (fields_of body bs no_more)) fs
      → signature_of (get_field "signature" fs) ≡ none
      → (tx : Transaction) × (decode noble codec b false ≡ ok tx)
        × IsSame noble codec (record { body = body; signature = none }) tx
  unfolding decode is_delegated encoded get_field new_transaction
  decode-members_unsigned body bs b fs valid reserved read m no_signature =
      let r = decode_reserved-encode_reserved noble body.reserved bs reserved in
      let valid' = is_valid_body-matched noble body bs no_more fs r.result valid m in
      let same = encode_unsigned-matched noble codec body bs no_more fs r reserved m in
      (
        record { body = body_of noble (obj fs) r.result; signature = none },
        rw
            (
              read,
              reserved-matched noble body bs no_more fs m,
              buffers_of_items-buffers bs,
              r.read,
              no_signature,
              valid',
            )
            refl,
        record {
          signature = refl;
          bytes = same;
          payload = same;
          delegation = is_delegated_body-matched noble codec body bs fs r;
        },
      )

  decode-encode_unsigned :
      (body : TransactionBody) (b : Bytes)
      → is_valid_body body ≡ true
      → IsTaggedBody body
      → encode_unsigned noble codec body ≡ ok b
      → (tx : Transaction) × (decode noble codec b false ≡ ok tx)
        × IsSame noble codec (record { body = body; signature = none }) tx
  unfolding encode_unsigned get_field
  decode-encode_unsigned body b valid tagged h =
      let (bs, reserved, h₁) = >>=-eq-ok (encode_reserved_field noble body.reserved) _ h in
      let v = obj (fields_of body bs no_more) in
      let t : AreTaggedAt transaction_fields v = (
        tt,
        (
          block_ref_of_valid body valid,
          (tt, (tagged.clauses, (tt, (tt, (tagged.depends_on, (tt, (buffers-AllItems bs, tt))))))),
        ),
      ) in
      let (fs, read, again, m, others) =
        decode_object_struct noble codec "tx" transaction_fields v b distinct_unsigned t h₁ in
      let none_there = others "signature" unsigned-IsFresh in
      decode-members_unsigned body bs b fs valid reserved read m (ap signature_of none_there)

  -- The encoding of a transaction that the constructor made, signed or not, is decoded, if the
  -- texts in the body have their `0x`. What is decoded has the same signature, the same full
  -- encoding, the same payload (which the hashes are of) and the same bit for delegation.
  pub decode-encoded :
      (body : TransactionBody) (signature : Option Bytes) (tx : Transaction) (b : Bytes)
      → new_transaction body signature ≡ ok tx
      → IsTaggedBody body
      → encoded noble codec tx ≡ ok b
      → (other : Transaction) × (decode noble codec b (is_signed tx) ≡ ok other)
        × IsSame noble codec tx other
  unfolding encoded is_signed
  decode-encoded body none tx b made tagged h =
      let (valid, same) = new_transaction-unsigned noble body tx made in
      subst
        (λ t.
          encoded noble codec t ≡ ok b
          → (other : Transaction) × (decode noble codec b (is_signed t) ≡ ok other)
            × IsSame noble codec t other)
        same (λ e. decode-encode_unsigned body b valid tagged e) h
  decode-encoded body (some signature) tx b made tagged h =
      let (valid, fits, same) = new_transaction-signed noble body signature tx made in
      subst
        (λ t.
          encoded noble codec t ≡ ok b
          → (other : Transaction) × (decode noble codec b (is_signed t) ≡ ok other)
            × IsSame noble codec t other)
        same (λ e. decode-encode_signed body signature b valid fits tagged e) h

-- ===== src/ThorClient/Sent.antt =====
-- What sendTransaction and waitForTransaction give (transactions/transactions-module.ts).
use vechain_sdk_js.Prelude.{◌≡◌, refl, ap, sym, ◌∙◌, subst, true, some, All, ◌∷◌}
use vechain_sdk_js.Result.{ok, ◌>>=◌}
use vechain_sdk_js.Text.{Text, Bytes, hex_of_bytes, starts_with_tag, strip_sign, strip_tag}
use vechain_sdk_js.Text.Bytes.{IsByte, is_hex_digits-hex_of_bytes, buffer_from_hex-hex_of_bytes}
use vechain_sdk_js.Noble.{Noble}
use vechain_sdk_js.Vcdm.Hex.{to_text, is_valid0x}
use vechain_sdk_js.Rlp.Blobs.{of_bytes_lem}
use vechain_sdk_js.Rlp.Profiler.{RlpCodec}
use vechain_sdk_js.Transaction.Body.{
  TransactionBody, Transaction, new_transaction, is_signed, encoded,
}
use vechain_sdk_js.Transaction.Decode.{decode}
use vechain_sdk_js.Transaction.Matched.{IsTaggedBody, new_transaction-signed}
use vechain_sdk_js.Transaction.RoundTrip.{decode-encoded}
use vechain_sdk_js.ThorClient.Http.{Http}
use vechain_sdk_js.ThorClient.Sending.{send_raw_transaction, send_transaction}

-- The text of bytes, as `Hex` prints it.
abbrev pub text_of_bytes : Bytes → Text
text_of_bytes b = b'0' ∷ b'x' ∷ hex_of_bytes b

is_valid0x-text_of_bytes : (b : Bytes) → All IsByte b → is_valid0x (text_of_bytes b) ≡ true
unfolding is_valid0x starts_with_tag strip_sign strip_tag
is_valid0x-text_of_bytes b h = is_hex_digits-hex_of_bytes b h

module _ (noble : Noble) (codec : RlpCodec) (http : Http) where
  send_raw_transaction-accepted :
      (b : Bytes) (tx : Transaction)
      → All IsByte b
      → decode noble codec b true ≡ ok tx
      → send_raw_transaction noble codec http (text_of_bytes b)
        ≡ http.send_transaction (text_of_bytes b)
  unfolding send_raw_transaction
  send_raw_transaction-accepted b tx h d =
      rw (is_valid0x-text_of_bytes b h, buffer_from_hex-hex_of_bytes b h, d) refl

  pub send_raw_transaction-encoded :
      (body : TransactionBody) (signature : Bytes) (tx : Transaction) (b : Bytes)
      → new_transaction body (some signature) ≡ ok tx
      → IsTaggedBody body
      → encoded noble codec tx ≡ ok b
      → All IsByte b
      → send_raw_transaction noble codec http (text_of_bytes b)
        ≡ http.send_transaction (text_of_bytes b)
  unfolding is_signed
  send_raw_transaction-encoded body signature tx b made tagged e h =
      let (valid, fits, same) = new_transaction-signed noble body signature tx made in
      let (other, read, others) =
        decode-encoded noble codec body (some signature) tx b made tagged e in
      send_raw_transaction-accepted b other h
        (subst (λ s. decode noble codec b s ≡ ok other) (sym (ap is_signed same)) read)

  -- A transaction that the constructor made with a signature, whose texts have their `0x`, and whose
  -- encoding gives bytes, is sent as the text of its encoding: the checks of sendTransaction and
  -- sendRawTransaction, the decoding included, accept it, and the result is the answer of the node.
  pub send_transaction-encoded :
      (body : TransactionBody) (signature : Bytes) (tx : Transaction) (b : Bytes)
      → new_transaction body (some signature) ≡ ok tx
      → IsTaggedBody body
      → encoded noble codec tx ≡ ok b
      → All IsByte b
      → send_transaction noble codec http tx ≡ http.send_transaction (text_of_bytes b)
  unfolding send_transaction is_signed to_text
  send_transaction-encoded body signature tx b made tagged e h =
      let (valid, fits, same) = new_transaction-signed noble body signature tx made in
      rw (sym (ap is_signed same), e)
        (ap (λ r. do hex ← r; send_raw_transaction noble codec http (to_text hex))
            (of_bytes_lem b h noble)
          ∙ send_raw_transaction-encoded body signature tx b made tagged e h)

-- ===== src/Signer/Delegated.antt =====
-- What the signer of a private key signs (vechain-private-key-signer.ts, delegation-handler.ts).
use vechain_sdk_js.Prelude.{◌≡◌, refl, ap, ◌∙◌, true, none, some, ◌++◌, All, drop}
use vechain_sdk_js.Result.{ok, ◌>>=◌, >>=-eq-ok, require-eq-ok}
use vechain_sdk_js.Text.{Text, Bytes, buffer_from_hex}
use vechain_sdk_js.Text.Bytes.{IsByte}
use vechain_sdk_js.Noble.{Noble}
use vechain_sdk_js.Crypto
use vechain_sdk_js.Crypto.{Crypto, derive_public_key}
use vechain_sdk_js.Vcdm.Address
use vechain_sdk_js.Vcdm.Hex.{to_text}
use vechain_sdk_js.Rlp.Blobs.{of_bytes_lem}
use vechain_sdk_js.Rlp.Profiler.{RlpCodec}
use vechain_sdk_js.Transaction.Body.{TransactionBody, Transaction, new_transaction, encoded}
use vechain_sdk_js.Transaction.Matched.{IsTaggedBody, new_transaction-signed}
use vechain_sdk_js.Transaction.Signing.{
  get_signature_hash_for, address_text, sign, sign_with_delegator,
}
use vechain_sdk_js.Transaction.Signers.{
  address_text-compressed, sign-Signed, sign_with_delegator-SignedTwice,
}
use vechain_sdk_js.ThorClient.Http.{Http}
use vechain_sdk_js.ThorClient.Sending.{send_raw_transaction}
use vechain_sdk_js.ThorClient.Sent.{text_of_bytes, send_raw_transaction-encoded}
use vechain_sdk_js.Signer.Delegation.{
  delegator_url, signature_of, get_delegation_signature, get_delegation_signature_using_url,
}
use vechain_sdk_js.Signer.PrivateKey.{
  address_of_key, encoded_text, sign_with_delegator_options, sign_populated,
}

module _ (noble : Noble) (crypto : Crypto) (codec : RlpCodec) (http : Http) where
  open crypto use {is_valid_key, get_public_key}

  abbrev unsigned : TransactionBody → Transaction
  unsigned body = record { body = body; signature = none }

  -- The service of a delegator with a key, at a URL, for a body: asked with an origin and the encoding
  -- of the unsigned transaction, it answers with the text of its signature of the hash for that origin.
  abbrev pub Sponsors : Text → Bytes → TransactionBody → Type 0
  Sponsors url delegator_key body =
      (sender : Text) (b hash signature : Bytes)
      → encoded noble codec (record { body = body; signature = none }) ≡ ok b
      → get_signature_hash_for noble crypto codec body sender ≡ ok hash
      → Crypto.sign crypto hash delegator_key ≡ ok signature
      → (answer : Text) × (http.delegation_signature url sender (text_of_bytes b) ≡ ok answer)
        × (buffer_from_hex (drop 2 answer) ≡ signature)

  encoded_text_lem :
      (tx : Transaction) (b : Bytes)
      → encoded noble codec tx ≡ ok b
      → All IsByte b
      → encoded_text noble crypto codec tx ≡ ok (text_of_bytes b)
  unfolding encoded_text to_text
  encoded_text_lem tx b e h = rw e (ap (λ r. do hex ← r; ok (to_text hex)) (of_bytes_lem b h noble))

  get_delegation_signature_lem :
      (tx : Transaction) (url sender : Text) (b : Bytes)
      → encoded noble codec tx ≡ ok b
      → All IsByte b
      → get_delegation_signature noble codec http tx url sender
        ≡ signature_of (http.delegation_signature url sender (text_of_bytes b))
  unfolding get_delegation_signature to_text
  get_delegation_signature_lem tx url sender b e h = rw e (
      ap (λ r. do hex ← r; signature_of (http.delegation_signature url sender (to_text hex)))
        (of_bytes_lem b h noble))

  address_of_key_lem :
      (key : Bytes) (sender : Text)
      → is_valid_key key ≡ true
      → address_text noble crypto codec (get_public_key key true) ≡ ok sender
      → address_of_key noble crypto codec key ≡ ok sender
  unfolding address_of_key address_text Address.of_private_key derive_public_key
  address_of_key_lem key sender valid h =
      let (address, found, same) =
        >>=-eq-ok (Address.of_public_key noble crypto (get_public_key key true)) _ h in
      rw (valid, found) same

  valid-sign :
      (hash key signature : Bytes)
      → Crypto.sign crypto hash key ≡ ok signature
      → is_valid_key key ≡ true
  unfolding Crypto.sign
  valid-sign hash key signature h =
      let (fits, h1) = require-eq-ok (Crypto.is_valid_message_hash crypto hash) _ _ _ h in
      let (valid, h2) = require-eq-ok (is_valid_key key) _ _ _ h1 in valid

  new_transaction-none :
      (body : TransactionBody) (signature : Bytes) (tx : Transaction)
      → new_transaction body (some signature) ≡ ok tx
      → new_transaction body none ≡ ok (unsigned body)
  unfolding new_transaction
  new_transaction-none body signature tx made =
      let (valid, fits, same) = new_transaction-signed noble body signature tx made in rw valid refl

  -- Delegation by URL and by key are the same. A transaction that signWithDelegator makes of two keys
  -- is also what the signer makes of the first key and the URL of a service that signs with the second
  -- one, where the unsigned transaction is encoded as bytes.
  pub sign_with_delegator_options-url :
      (body : TransactionBody) (key delegator_key b : Bytes) (url : Text) (tx : Transaction)
      → Sponsors url delegator_key body
      → encoded noble codec (record { body = body; signature = none }) ≡ ok b
      → All IsByte b
      → sign_with_delegator noble crypto codec body key delegator_key ≡ ok tx
      → sign_with_delegator_options noble crypto codec http body key (delegator_url url)
        ≡ encoded_text noble crypto codec tx
  unfolding sign_with_delegator_options get_delegation_signature_using_url
  sign_with_delegator_options-url body key delegator_key b url tx sponsors e h signed =
      let t = sign_with_delegator-SignedTwice noble crypto codec body key delegator_key tx signed in
      let valid = valid-sign t.hash key t.first t.is_first in
      let address =
        address_of_key_lem key t.sender valid
          (address_text-compressed noble crypto codec key valid ∙ t.is_sender) in
      let fresh = new_transaction-none body (t.first ++ t.second) tx t.made in
      let (answer, answered, same) =
        sponsors t.sender b t.delegated_hash t.second e t.is_delegated_hash t.is_second in
      let delegated =
        get_delegation_signature_lem (unsigned body) url t.sender b e h
        ∙ ap signature_of answered
        ∙ ap ok same in
      rw (address, fresh, delegated, t.is_hash, t.is_first, t.made) refl

  -- What a signer with no delegator returns for a populated transaction is accepted by
  -- sendRawTransaction and sent as it is, if the texts in the body have their `0x` and the encoding
  -- gives bytes.
  pub send_raw_transaction-sign_populated :
      (body : TransactionBody) (key b : Bytes) (tx : Transaction)
      → IsTaggedBody body
      → sign noble crypto codec body key ≡ ok tx
      → encoded noble codec tx ≡ ok b
      → All IsByte b
      → (sign_populated noble crypto codec http body key none
          >>= send_raw_transaction noble codec http)
        ≡ http.send_transaction (text_of_bytes b)
  unfolding sign_populated
  send_raw_transaction-sign_populated body key b tx tagged signed e h =
      let s = sign-Signed noble crypto codec body key tx signed in
      rw (signed, encoded_text_lem tx b e h)
        (send_raw_transaction-encoded noble codec http body s.signature tx b s.made tagged e h)

-- ===== src/Transaction/Signers.antt =====
-- Who signed a transaction: the getters `origin` and `delegator` after `sign` and
-- `signWithDelegator` (transaction.ts, handlers/sign.ts).
use vechain_sdk_js.Prelude.{
  ◌≡◌, refl, ap, sym, ◌∙◌, subst, true, false, not, none, some, ◌++◌, arith, take, take_all,
  take-append, drop-append,
}
use vechain_sdk_js.Result.{ok, require-eq-ok, >>=-eq-ok}
use vechain_sdk_js.Text.{Text, Bytes}
use vechain_sdk_js.Noble.{Noble}
use vechain_sdk_js.Crypto
use vechain_sdk_js.Crypto.{Crypto, recover, derive_public_key}
use vechain_sdk_js.Crypto.Keys.{
  inflate_public_key-uncompressed, inflate_public_key-compressed, HasPlainRecovery, length-sign,
  recover_of_sign,
}
use vechain_sdk_js.Vcdm.Address
use vechain_sdk_js.Rlp.Profiler.{RlpCodec}
use vechain_sdk_js.Transaction.Body.{
  TransactionBody, Transaction, new_transaction, is_delegated, is_delegated_body,
}
use vechain_sdk_js.Transaction.Matched.{new_transaction-signed, new_transaction-unsigned}
use vechain_sdk_js.Transaction.Signing.{
  get_signature_hash, get_signature_hash_for, address_text, origin, origin_of, delegator,
  delegator_of, sign, sign_with_delegator,
}

module _ (noble : Noble) (crypto : Crypto) (codec : RlpCodec) where
  open crypto use {is_valid_key, get_public_key}

  -- The address of a key does not depend on the form of its public key.
  pub address_text-compressed :
      (k : Bytes)
      → is_valid_key k ≡ true
      → address_text noble crypto codec (get_public_key k true)
        ≡ address_text noble crypto codec (get_public_key k false)
  unfolding address_text Address.of_public_key
  address_text-compressed k h =
      rw (inflate_public_key-compressed crypto k h, inflate_public_key-uncompressed crypto k) refl

  -- What `sign` went through.
  pub record Signed (body : TransactionBody) (key : Bytes) (tx : Transaction) : Type 0 where
    pub hash : Bytes
    pub signature : Bytes
    pub is_hash : get_signature_hash noble crypto codec body ≡ ok hash
    pub is_signed : Crypto.sign crypto hash key ≡ ok signature
    pub made : new_transaction body (some signature) ≡ ok tx

  pub sign-Signed :
      (body : TransactionBody) (key : Bytes) (tx : Transaction)
      → sign noble crypto codec body key ≡ ok tx
      → Signed body key tx
  unfolding sign is_delegated
  sign-Signed body key tx h =
      let (valid, h₁) = require-eq-ok (is_valid_key key) _ _ _ h in
      let (to_sign, made, h₂) = >>=-eq-ok (new_transaction body none) _ h₁ in
      let (plain, h₃) = require-eq-ok (not (is_delegated to_sign)) _ _ _ h₂ in
      let (hash, is_hash, h₄) =
        >>=-eq-ok (get_signature_hash noble crypto codec to_sign.body) _ h₃ in
      let (signature, is_signed, h₅) = >>=-eq-ok (Crypto.sign crypto hash key) _ h₄ in
      let (fits, same) = new_transaction-unsigned noble body to_sign made in
      let same_body : to_sign.body ≡ body = ap (λ t. t.body) (sym same) in
      record {
        hash = hash;
        signature = signature;
        is_hash = subst (λ b. get_signature_hash noble crypto codec b ≡ ok hash) same_body is_hash;
        is_signed = is_signed;
        made = h₅;
      }

  -- A signature that starts with what a key made gives back its address.
  origin_of-sign :
      (body : TransactionBody) (key hash first signature : Bytes)
      → get_signature_hash noble crypto codec body ≡ ok hash
      → Crypto.sign crypto hash key ≡ ok first
      → take 65 signature ≡ first
      → HasPlainRecovery crypto key
      → origin_of noble crypto codec body signature
        ≡ address_text noble crypto codec (get_public_key key false)
  unfolding origin_of
  origin_of-sign body key hash first signature is_hash is_signed starts plain =
      rw (is_hash, starts, recover_of_sign crypto hash key first plain is_signed) refl

  -- The origin of a transaction that `sign` returns is the address of the key that signed it, if
  -- the recovery bits of the key's signatures are 0 or 1.
  pub origin-sign :
      (body : TransactionBody) (key : Bytes) (tx : Transaction)
      → HasPlainRecovery crypto key
      → sign noble crypto codec body key ≡ ok tx
      → origin noble crypto codec tx ≡ address_text noble crypto codec (get_public_key key false)
  unfolding origin
  origin-sign body key tx plain h =
      let s = sign-Signed body key tx h in
      let (valid, fits, same) = new_transaction-signed noble body s.signature tx s.made in
      let starts =
        take_all s.signature 65 (length-sign crypto s.hash key s.signature s.is_signed) in
      let signer =
        origin_of-sign body key s.hash s.signature s.signature s.is_hash s.is_signed starts plain in
      subst
        (λ t.
          origin noble crypto codec t ≡ address_text noble crypto codec (get_public_key key false))
        same signer

  -- What `signWithDelegator` went through.
  pub record SignedTwice (body : TransactionBody) (key delegator_key : Bytes) (tx : Transaction)
      : Type 0 where
    pub hash : Bytes
    pub sender : Text
    pub delegated_hash : Bytes
    pub first : Bytes
    pub second : Bytes
    pub is_hash : get_signature_hash noble crypto codec body ≡ ok hash
    pub is_sender : address_text noble crypto codec (get_public_key key false) ≡ ok sender
    pub is_delegated_hash :
        get_signature_hash_for noble crypto codec body sender ≡ ok delegated_hash
    pub is_first : Crypto.sign crypto hash key ≡ ok first
    pub is_second : Crypto.sign crypto delegated_hash delegator_key ≡ ok second
    pub delegates : is_delegated_body body ≡ true
    pub made : new_transaction body (some (first ++ second)) ≡ ok tx

  derive_public_key-eq-ok :
      (k p : Bytes)
      → derive_public_key crypto k true ≡ ok p
      → (is_valid_key k ≡ true) × (get_public_key k true ≡ p)
  unfolding derive_public_key
  derive_public_key-eq-ok k p h = ground (arith, h)

  pub sign_with_delegator-SignedTwice :
      (body : TransactionBody) (key delegator_key : Bytes) (tx : Transaction)
      → sign_with_delegator noble crypto codec body key delegator_key ≡ ok tx
      → SignedTwice body key delegator_key tx
  unfolding sign_with_delegator is_delegated
  sign_with_delegator-SignedTwice body key delegator_key tx h =
      let (valid, h₁) = require-eq-ok (is_valid_key key) _ _ _ h in
      let (valid', h₂) = require-eq-ok (is_valid_key delegator_key) _ _ _ h₁ in
      let (to_sign, fresh, h₃) = >>=-eq-ok (new_transaction body none) _ h₂ in
      let (delegates, h₄) = require-eq-ok (is_delegated to_sign) _ _ _ h₃ in
      let (hash, is_hash, h₅) =
        >>=-eq-ok (get_signature_hash noble crypto codec to_sign.body) _ h₄ in
      let (public, is_public, h₆) = >>=-eq-ok (derive_public_key crypto key true) _ h₅ in
      let (sender, is_sender, h₇) = >>=-eq-ok (address_text noble crypto codec public) _ h₆ in
      let (delegated_hash, is_delegated_hash, h₈) =
        >>=-eq-ok (get_signature_hash_for noble crypto codec to_sign.body sender) _ h₇ in
      let (first, is_first, h₉) = >>=-eq-ok (Crypto.sign crypto hash key) _ h₈ in
      let (second, is_second, made) =
        >>=-eq-ok (Crypto.sign crypto delegated_hash delegator_key) _ h₉ in
      let (fits, same) = new_transaction-unsigned noble body to_sign fresh in
      let same_body : to_sign.body ≡ body = ap (λ t. t.body) (sym same) in
      let (ok_key, same_key) = derive_public_key-eq-ok key public is_public in
      record {
        hash = hash;
        sender = sender;
        delegated_hash = delegated_hash;
        first = first;
        second = second;
        is_hash = subst (λ b. get_signature_hash noble crypto codec b ≡ ok hash) same_body is_hash;
        is_sender =
            sym (address_text-compressed key ok_key)
            ∙ ap (address_text noble crypto codec) same_key
            ∙ is_sender;
        is_delegated_hash =
            subst (λ b. get_signature_hash_for noble crypto codec b sender ≡ ok delegated_hash)
              same_body is_delegated_hash;
        is_first = is_first;
        is_second = is_second;
        delegates = subst (λ b. is_delegated_body b ≡ true) same_body delegates;
        made = made;
      }

  -- The origin and the delegator of a transaction that `signWithDelegator` returns are the
  -- addresses of the two keys, if the recovery bits of their signatures are 0 or 1.
  pub delegator-sign_with_delegator :
      (body : TransactionBody) (key delegator_key : Bytes) (tx : Transaction)
      → HasPlainRecovery crypto key
      → HasPlainRecovery crypto delegator_key
      → sign_with_delegator noble crypto codec body key delegator_key ≡ ok tx
      → (origin noble crypto codec tx ≡ address_text noble crypto codec (get_public_key key false))
        × (delegator noble crypto codec tx
            ≡ address_text noble crypto codec (get_public_key delegator_key false))
  unfolding origin delegator is_delegated delegator_of
  delegator-sign_with_delegator body key delegator_key tx plain plain' h =
      let s = sign_with_delegator-SignedTwice body key delegator_key tx h in
      let signature = s.first ++ s.second in
      let (valid, fits, same) = new_transaction-signed noble body signature tx s.made in
      let full = length-sign crypto s.hash key s.first s.is_first in
      let signer =
        origin_of-sign body key s.hash s.first signature s.is_hash s.is_first
          (take-append s.first s.second 65 full) plain in
      let rest = drop-append s.first s.second 65 full in
      let recovered =
        recover_of_sign crypto s.delegated_hash delegator_key s.second plain' s.is_second in
      subst
        (λ t.
          (origin noble crypto codec t ≡ address_text noble crypto codec (get_public_key key false))
          × (delegator noble crypto codec t
              ≡ address_text noble crypto codec (get_public_key delegator_key false)))
        same
        (signer, rw (s.delegates, signer, s.is_sender, s.is_delegated_hash, rest, recovered) refl)

-- ===== src/Crypto/Keys.antt =====
-- Public keys and signatures (packages/core/src/secp256k1/secp256k1.ts).
use vechain_sdk_js.Prelude.{
  ◌≡◌, ◌⊎◌, inl, inr, ap, sym, ◌∙◌, true, false, ◌||◌, some, [], ◌∷◌, ◌++◌, length, take, get_elem?,
  arith, ◌==◌, ==_iff, length-append, take_all, take-append, subst, get_elem?-append,
}
use vechain_sdk_js.Result.{ok, require-eq-ok}
use vechain_sdk_js.Text.{Bytes}
use vechain_sdk_js.Crypto.{
  Crypto, inflate_public_key, is_valid_message_hash, sign, recover, recover_with,
}

inflate_uncompressed :
    (crypto : Crypto) (key : Bytes)
    → get_elem? key 0 ≡ some 4
    → inflate_public_key crypto key ≡ ok key
unfolding inflate_public_key
inflate_uncompressed crypto [] h = cc
inflate_uncompressed crypto (c ∷ key) h = ground (arith, h)

-- A key that starts with 2 or 3 is decompressed.
inflate_compressed :
    (crypto : Crypto) (key : Bytes)
    → (get_elem? key 0 ≡ some 2) ⊎ (get_elem? key 0 ≡ some 3)
    → length key ≡ 33
    → inflate_public_key crypto key ≡ crypto.decompress key
unfolding inflate_public_key
inflate_compressed crypto [] (inl h) full = cc
inflate_compressed crypto [] (inr h) full = cc
inflate_compressed crypto (c ∷ key) h full = ground (arith, h, take_all (c ∷ key) 33 full)

module _ (crypto : Crypto) where
  open crypto use {is_valid_key, get_public_key, sign_hash}

  -- An uncompressed key stays as it is.
  pub inflate_public_key-uncompressed :
      (k : Bytes) → inflate_public_key crypto (get_public_key k false) ≡ ok (get_public_key k false)
  unfolding inflate_public_key
  inflate_public_key-uncompressed k =
      inflate_uncompressed crypto (get_public_key k false) (crypto.uncompressed k)

  pub inflate_public_key-compressed :
      (k : Bytes)
      → is_valid_key k ≡ true
      → inflate_public_key crypto (get_public_key k true) ≡ ok (get_public_key k false)
  unfolding inflate_public_key
  inflate_public_key-compressed k h =
      inflate_compressed crypto (get_public_key k true) (crypto.compressed k)
        (crypto.length-compressed k)
      ∙ crypto.decompress-compressed k h

  -- The recovery bits of the signatures made with a key are those that `recover` accepts.
  abbrev pub HasPlainRecovery : Bytes → Type 0
  HasPlainRecovery k =
      (h : Bytes) → ((sign_hash h k).recovery == 0 || (sign_hash h k).recovery == 1) ≡ true

  -- What a signature that was made consists of.
  pub sign-eq-ok :
      (h k s : Bytes)
      → sign crypto h k ≡ ok s
      → (is_valid_message_hash crypto h ≡ true)
        × (is_valid_key k ≡ true)
        × ((sign_hash h k).compact ++ (sign_hash h k).recovery ∷ [] ≡ s)
  unfolding sign is_valid_message_hash
  sign-eq-ok h k s e =
      let (hash, e₁) = require-eq-ok (is_valid_message_hash crypto h) _ _ _ e in
      let (key, e₂) = require-eq-ok (is_valid_key k) _ _ _ e₁ in (hash, key, cc)

  pub length-sign : (h k s : Bytes) → sign crypto h k ≡ ok s → length s ≡ 65
  length-sign h k s e =
      let (hash, key, same) = sign-eq-ok h k s e in
      let full = crypto.length-compact h k in
      let total = length-append (sign_hash h k).compact ((sign_hash h k).recovery ∷ []) in
      subst (λ t. length t ≡ 65) same (omega (arith, full, total))

  -- `recover` gives back the uncompressed public key of the signer, if the recovery bits of the
  -- key's signatures are 0 or 1.
  pub recover_of_sign :
      (h k s : Bytes)
      → HasPlainRecovery k
      → sign crypto h k ≡ ok s
      → recover crypto h s ≡ ok (get_public_key k false)
  unfolding recover recover_with
  recover_of_sign h k s plain e =
      let (hash, key, same) = sign-eq-ok h k s e in
      let full = crypto.length-compact h k in
      let compact = (sign_hash h k).compact in
      let recovery = (sign_hash h k).recovery in
      let long = (==_iff (length s) 65).1 (length-sign h k s e) in
      let last = ap (λ t. get_elem? t 64) (sym same) ∙ get_elem?-append compact 64 recovery full in
      let first = ap (take 64) (sym same) ∙ take-append compact (recovery ∷ []) 64 full in
      rw (hash, long, last, plain h, first) (crypto.recover-sign h k key)

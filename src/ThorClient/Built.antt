-- ===== src/ThorClient/Built.antt =====
-- The bodies that buildTransactionBody makes (transactions/transactions-module.ts).
use vechain_sdk_js.Prelude.{
  ℕ, suc, zero, ◌+◌, ◌-◌, ◌*◌, ◌%◌, ◌<◌, ◌≡◌, refl, ap, sym, ◌∙◌, subst, pos, Bool, true, false,
  leb, Option, none, some, List, [], ◌∷◌, length, take, drop, arith,
}
use vechain_sdk_js.Result.{ok}
use vechain_sdk_js.Number.{Number, int, is_odd}
use vechain_sdk_js.Text.{
  Text, hex_value_from, is_hex_digits, digit_value, buffer_from_hex, starts_with_tag, strip_sign,
  strip_tag,
}
use vechain_sdk_js.Text.Digits.{digit_value-lt}
use vechain_sdk_js.Text.Bytes.{first_two, length-buffer_from_hex}
use vechain_sdk_js.Vcdm.Hex.{is_valid0x, is_valid, has_hex_prefix}
use vechain_sdk_js.Rlp.Value.{num, str, is_defined}
use vechain_sdk_js.Transaction.Body.{
  TransactionBody, features_or_zero, reserved_or_empty, is_block_ref, is_valid_body,
  is_delegated_body,
}
use vechain_sdk_js.Provider.Details.{TransactionClause, CompressedBlockDetail}
use vechain_sdk_js.ThorClient.Http.{Http}
use vechain_sdk_js.ThorClient.Blocks
use vechain_sdk_js.ThorClient.Blocks.{
  get_block_compressed, get_genesis_block, get_best_block_compressed, get_best_block_ref,
}
use vechain_sdk_js.ThorClient.Names.{resolve_names_in_clauses}
use vechain_sdk_js.ThorClient.Building.{
  TransactionBodyOptions, or_default, Nonce, random, counter, nonce_value, to_value, reserved_for,
  number_of_digits, block_ref_for, body_for, build_transaction_body,
}

-- The identifier of a block: `0x` and 64 hexadecimal digits.
pub record IsBlockId (id : Text) : Type 0 where
  pub digits : Text
  pub tagged : id ≡ b'0' ∷ b'x' ∷ digits
  pub size : length digits ≡ 64
  pub hexadecimal : is_hex_digits digits ≡ true

is_hex_digits-drop : (n : ℕ) (s : Text) → is_hex_digits s ≡ true → is_hex_digits (drop n s) ≡ true
unfolding is_hex_digits
is_hex_digits-drop zero s h = h
is_hex_digits-drop (suc n) [] h = refl
is_hex_digits-drop (suc n) (c ∷ s) h = is_hex_digits-drop n s (ground (arith, h))

is_hex_digits-take : (n : ℕ) (s : Text) → is_hex_digits s ≡ true → is_hex_digits (take n s) ≡ true
unfolding is_hex_digits
is_hex_digits-take zero s h = refl
is_hex_digits-take (suc n) [] h = refl
is_hex_digits-take (suc n) (c ∷ s) h = ground (arith, h, is_hex_digits-take n s)

length-drop : (n : ℕ) (s : Text) → length (drop n s) ≡ length s - n
length-drop zero s = omega arith
length-drop (suc n) [] = omega arith
length-drop (suc n) (c ∷ s) = omega (arith, length-drop n s)

length-take : (n : ℕ) (s : Text) → n < suc (length s) → length (take n s) ≡ n
length-take zero s h = refl
length-take (suc n) [] h = absurd (omega (arith, h))
length-take (suc n) (c ∷ s) h =
    let below : n < suc (length s) = omega (arith, h) in ap suc (length-take n s below)

-- Two hexadecimal digits are a byte.
number_of_digits-byte :
    (s : Text)
    → length s ≡ 2
    → is_hex_digits s ≡ true
    → (t : ℕ) × (number_of_digits s ≡ int (pos t)) × (t < 256)
unfolding number_of_digits is_hex_digits hex_value_from
number_of_digits-byte [] l h = absurd (omega (arith, l))
number_of_digits-byte (c ∷ []) l h = absurd (omega (arith, l))
number_of_digits-byte (c ∷ d ∷ []) l h =
    let (p, q, r) = first_two c d [] h in
    let small : (0 * 16 + digit_value c) * 16 + digit_value d < 256 =
      omega (arith, digit_value-lt c p, digit_value-lt d q) in
    ((0 * 16 + digit_value c) * 16 + digit_value d, rw h refl, small)
number_of_digits-byte (c ∷ d ∷ e ∷ s) l h = absurd (omega (arith, l))

is_block_ref-take : (id : Text) → IsBlockId id → is_block_ref (str (take 18 id)) ≡ true
unfolding is_valid0x is_valid has_hex_prefix starts_with_tag strip_sign strip_tag
is_block_ref-take id h =
    subst (λ x. is_block_ref (str (take 18 x)) ≡ true) (sym h.tagged)
      (let below : 16 < suc (length h.digits) = omega (arith, h.size) in
        let size = length-take 16 h.digits below in
        let even : length (take 16 h.digits) % 2 ≡ 0 = omega (arith, size) in
        let valid = is_hex_digits-take 16 h.digits h.hexadecimal in
        let bytes : length (buffer_from_hex (take 16 h.digits)) ≡ 8 =
          omega (arith, size, length-buffer_from_hex (take 16 h.digits) valid even) in
        rw (valid, bytes) refl)

chain_tag-byte :
    (id : Text) → IsBlockId id → (t : ℕ) × (number_of_digits (drop 64 id) ≡ int (pos t)) × (t < 256)
chain_tag-byte id h =
    subst (λ x. (t : ℕ) × (number_of_digits (drop 64 x) ≡ int (pos t)) × (t < 256)) (sym h.tagged)
      (number_of_digits-byte (drop 62 h.digits) (length-drop 62 h.digits ∙ ap (λ n. n - 62) h.size)
        (is_hex_digits-drop 62 h.digits h.hexadecimal))

-- `options.isDelegated === true`
abbrev pub is_true : Option Bool → Bool
is_true none = false
is_true (some b) = b

-- A body that the constructor of a transaction accepts, with a chain tag of one byte, and delegated
-- as it was asked for.
pub record IsBuilt (body : TransactionBody) (delegated : Bool) : Type 0 where
  pub tag : ℕ
  pub chain_tag : body.chain_tag ≡ num (int (pos tag))
  pub is_byte : tag < 256
  pub valid : is_valid_body body ≡ true
  pub delegation : is_delegated_body body ≡ delegated

block_ref_for-none :
    (http : Http) (best : CompressedBlockDetail)
    → get_best_block_compressed http ≡ ok (some best)
    → block_ref_for http none ≡ ok (some (take 18 best.header.id))
unfolding block_ref_for get_best_block_ref
block_ref_for-none http best h = rw h refl

genesis_found :
    (http : Http) (genesis : CompressedBlockDetail)
    → get_genesis_block http ≡ ok (some genesis)
    → get_block_compressed http (Blocks.number (int (pos 0))) ≡ ok (some genesis)
unfolding get_genesis_block
genesis_found http genesis h = h

is_delegated_body-reserved_for :
    (delegated : Option Bool)
    → is_odd (features_or_zero (reserved_or_empty (reserved_for delegated)).features)
      ≡ is_true delegated
is_delegated_body-reserved_for none = refl
is_delegated_body-reserved_for (some false) = refl
is_delegated_body-reserved_for (some true) = refl

leb-byte : (t : ℕ) → t < 256 → leb t 255 ≡ true
leb-byte t h = ground (arith, h)

is_defined-to_value : (to : Option Text) → is_defined (to_value to) ≡ true
is_defined-to_value none = refl
is_defined-to_value (some to) = refl

is_defined-nonce_value : (nonce : Nonce) → is_defined (nonce_value nonce) ≡ true
is_defined-nonce_value (random s) = refl
is_defined-nonce_value (counter n) = refl

module _ (genesis best : CompressedBlockDetail) (resolved : List TransactionClause)
    (random_nonce : Text) (gas : Number) (options : TransactionBodyOptions)
    (no_tag : options.chain_tag ≡ none) (is_genesis_id : IsBlockId genesis.header.id)
    (is_best_id : IsBlockId best.header.id) where
  body_for-IsBuilt :
      IsBuilt
        (body_for genesis (take 18 best.header.id) resolved gas random_nonce options)
        (is_true options.is_delegated)
  unfolding is_valid_body is_delegated_body
  body_for-IsBuilt =
      let (t, tag, small) = chain_tag-byte genesis.header.id is_genesis_id in
      record {
        tag = t;
        chain_tag = rw (no_tag, tag) refl;
        is_byte = small;
        valid =
            rw
              (
                no_tag,
                tag,
                leb-byte t small,
                is_block_ref-take best.header.id is_best_id,
                is_defined-to_value options.depends_on,
                is_defined-nonce_value (or_default options.nonce (random random_nonce)),
              )
              refl;
        delegation = is_delegated_body-reserved_for options.is_delegated;
      }

module _ (http : Http) (genesis best : CompressedBlockDetail)
    (clauses resolved : List TransactionClause)
    (has_genesis : get_genesis_block http ≡ ok (some genesis))
    (has_best : get_best_block_compressed http ≡ ok (some best))
    (has_resolved : resolve_names_in_clauses http clauses ≡ ok resolved)
    (is_genesis_id : IsBlockId genesis.header.id) (is_best_id : IsBlockId best.header.id) where
  -- Where the node has a genesis block and a best block, whose identifiers are `0x` and 64 hexadecimal
  -- digits, and the names in the clauses are resolved, the body is built if neither the chain tag nor
  -- the block reference is given. Its chain tag is a byte, the constructor of a transaction accepts it,
  -- and it is delegated exactly where the options ask for that.
  pub build_transaction_body-IsBuilt :
      (random_nonce : Text) (gas : Number) (options : TransactionBodyOptions)
      → options.chain_tag ≡ none
      → options.block_ref ≡ none
      → (body : TransactionBody) × (build_transaction_body http random_nonce clauses gas options
          ≡ ok body)
        × IsBuilt body (is_true options.is_delegated)
  unfolding build_transaction_body
  build_transaction_body-IsBuilt random_nonce gas options no_tag no_ref = (
    body_for genesis (take 18 best.header.id) resolved gas random_nonce options,
    rw
        (
          genesis_found http genesis has_genesis,
          no_ref,
          block_ref_for-none http best has_best,
          has_resolved,
        )
        refl,
    body_for-IsBuilt genesis best resolved random_nonce gas options no_tag is_genesis_id is_best_id,
  )

-- ===== src/ThorClient/Building.antt =====
-- TransactionsModule.buildTransactionBody of
-- packages/network/src/thor-client/transactions/transactions-module.ts. `Hex.random(8)` is a parameter.
-- The identifier of a block has no white space, and at most 13 digits after its first 64 characters.
use vechain_sdk_js.Prelude.{
  pos, Bool, true, false, ◌&&◌, not, Option, none, some, List, [], ◌∷◌, drop, if◌then◌else◌,
}
use vechain_sdk_js.Result.{Result, ok, err, invalid_transaction_field, ◌>>=◌}
use vechain_sdk_js.Number.{Number, int, nan}
use vechain_sdk_js.Text.{Text, hex_value_from, is_hex_digits}
use vechain_sdk_js.Vcdm.HexInt.{IntExp, number, exp}
use vechain_sdk_js.Vcdm.Hex.{text}
use vechain_sdk_js.Rlp.Value.{
  Value, null, undefined, num, str, arr, obj, Items, nil, cons, entry, no_more,
}
use vechain_sdk_js.Transaction.Body.{Reserved, TransactionBody}
use vechain_sdk_js.Transaction.Gas.{is_empty}
use vechain_sdk_js.Provider.Details.{TransactionClause, CompressedBlockDetail}
use vechain_sdk_js.ThorClient.Http.{Http}
use vechain_sdk_js.ThorClient.Blocks.{get_block_compressed, get_best_block_ref}
use vechain_sdk_js.ThorClient.Blocks
use vechain_sdk_js.ThorClient.Names.{resolve_names_in_clauses}

-- A nonce, `string | number`
pub data Nonce : Type 0 where
  random : Text → Nonce
  counter : Number → Nonce

-- `TransactionBodyOptions`
pub record TransactionBodyOptions : Type 0 where
  pub block_ref : Option Text
  pub chain_tag : Option Number
  pub depends_on : Option Text
  pub expiration : Option Number
  pub gas_price_coef : Option Number
  pub is_delegated : Option Bool
  pub nonce : Option Nonce

-- `Number('0x' + digits)`
unfoldable pub number_of_digits : Text → Number
number_of_digits digits =
    if not (is_empty digits) && is_hex_digits digits
    then int (pos (hex_value_from 0 digits))
    else nan

-- The clauses as members of the body.
abbrev pub to_value : Option Text → Value
to_value none = null
to_value (some to) = str to

-- The type of `value` is `string | number`; an `IntExp` of another kind is none of it.
abbrev pub int_value : IntExp → Value
int_value (number n) = num n
int_value (exp (text s)) = str s
int_value _ = undefined

abbrev pub nonce_value : Nonce → Value
nonce_value (random s) = str s
nonce_value (counter n) = num n

abbrev pub clause_value : TransactionClause → Value
clause_value clause = obj (
    entry "to" (to_value clause.to)
      (entry "value" (int_value clause.value) (entry "data" (str clause.payload) no_more)))

abbrev pub clause_items : List TransactionClause → Items
clause_items [] = nil
clause_items (clause ∷ clauses) = cons (clause_value clause) (clause_items clauses)

-- `option ?? value`
abbrev pub or_default {ℓ} : {A : Type ℓ} → Option A → A → A
or_default none a = a
or_default (some b) a = b

-- `options?.isDelegated === true ? { features: 1 } : undefined`
abbrev pub reserved_for : Option Bool → Option Reserved
reserved_for none = none
reserved_for (some false) = none
reserved_for (some true) = some (record { features = some (int (pos 1)); unused = none })

-- `genesisBlock === null` and `blockRef === null`
abbrev pub or_missing {ℓ} : {A : Type ℓ} → Option A → Result A
or_missing none = err (invalid_transaction_field "TransactionsModule.buildTransactionBody()")
or_missing (some a) = ok a

-- The members of the body.
abbrev pub body_for :
    CompressedBlockDetail
    → Text
    → List TransactionClause
    → Number
    → Text
    → TransactionBodyOptions
    → TransactionBody
body_for genesis block_ref clauses gas random_nonce options = record {
  chain_tag = num (or_default options.chain_tag (number_of_digits (drop 64 genesis.header.id)));
  block_ref = str block_ref;
  expiration = num (or_default options.expiration (int (pos 32)));
  clauses = arr (clause_items clauses);
  gas_price_coef = num (or_default options.gas_price_coef (int (pos 0)));
  gas = num gas;
  depends_on = to_value options.depends_on;
  nonce = nonce_value (or_default options.nonce (random random_nonce));
  reserved = reserved_for options.is_delegated;
}

module _ (http : Http) where
  -- `options?.blockRef ?? (await this.thor.blocks.getBestBlockRef())`
  unfoldable pub block_ref_for : Option Text → Result (Option Text)
  block_ref_for none = get_best_block_ref http
  block_ref_for (some ref) = ok (some ref)

  -- `buildTransactionBody`
  unfoldable pub build_transaction_body :
      Text → List TransactionClause → Number → TransactionBodyOptions → Result TransactionBody
  unfolding get_block_compressed block_ref_for resolve_names_in_clauses number_of_digits
  build_transaction_body random_nonce clauses gas options = do
    genesis_block ← get_block_compressed http (Blocks.number (int (pos 0)))
    genesis ← or_missing genesis_block
    ref ← block_ref_for options.block_ref
    block_ref ← or_missing ref
    resolved ← resolve_names_in_clauses http clauses
    ok (body_for genesis block_ref resolved gas random_nonce options)

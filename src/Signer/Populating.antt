-- ===== src/Signer/Populating.antt =====
-- packages/network/src/signer/signers/vechain-abstract-signer/vechain-abstract-signer.ts: what is
-- missing in a transaction is filled in. The signer has a provider. The gas of a transaction that
-- gives none, and the nonce, are the answers of the node and of `Hex.random(6)`.
use vechain_sdk_js.Prelude.{pos, Bool, Option, none, some, List, [], ◌∷◌}
use vechain_sdk_js.Result.{Result, ok, invalid_data_type, require, ◌>>=◌, ◌>>◌}
use vechain_sdk_js.Number.{Number, int}
use vechain_sdk_js.Text.{Text, codes, text_eq}
use vechain_sdk_js.Noble.{Noble}
use vechain_sdk_js.Crypto.{Crypto}
use vechain_sdk_js.Vcdm.Hex.{text}
use vechain_sdk_js.Vcdm.HexInt.{IntExp, number, exp, of_uint}
use vechain_sdk_js.Vcdm.Address.{checksum}
use vechain_sdk_js.Transaction.Body.{TransactionBody}
use vechain_sdk_js.Provider.Details.{TransactionClause}
use vechain_sdk_js.ThorClient.Http.{Http}
use vechain_sdk_js.ThorClient.Building.{
  Nonce, TransactionBodyOptions, or_default, build_transaction_body,
}

-- `TransactionRequestInput`, with the members that a signed transaction depends on. `to` is left out
-- or given, and may then be `null`.
pub record TransactionRequestInput : Type 0 where
  pub to : Option (Option Text)
  pub from : Option Text
  pub nonce : Option Nonce
  -- what `Number` makes of it
  pub gas : Option Number
  pub gas_price_coef : Option Number
  pub payload : Option Text
  pub value : Option IntExp
  pub clauses : Option (List TransactionClause)
  pub depends_on : Option Text
  pub expiration : Option Number
  pub block_ref : Option Text
  pub chain_tag : Option Number

-- `to` is null where it is left out, and `to`, `value` and `data` are those of the first clause.
abbrev pub or_null : Option (Option Text) → Option Text
or_null none = none
or_null (some to) = to

abbrev pub of_clause : TransactionClause → TransactionRequestInput → TransactionRequestInput
of_clause clause tx = record tx {
  to = some clause.to;
  value = some clause.value;
  payload = some clause.payload;
}

abbrev pub use_clauses :
    Option (List TransactionClause) → TransactionRequestInput → TransactionRequestInput
use_clauses none tx = tx
use_clauses (some []) tx = tx
use_clauses (some (clause ∷ clauses)) tx = of_clause clause tx

-- `_buildClauses`, with `clauseBuilder.deployContract`
abbrev pub build_clause : Option Text → TransactionRequestInput → TransactionClause
build_clause (some to) tx = record {
  to = some to;
  value = or_default tx.value (exp (text (codes "0x0")));
  payload = or_default tx.payload (codes "0x");
}
build_clause none tx = record {
  to = none;
  value = number (int (pos 0));
  payload = or_default tx.payload (codes "0x");
}

unfoldable pub build_clauses : TransactionRequestInput → List TransactionClause
build_clauses tx = build_clause (or_null tx.to) tx ∷ []

-- `populatedTransaction.clauses ?? this._buildClauses(populatedTransaction)`
abbrev pub clauses_of : TransactionRequestInput → List TransactionClause
clauses_of tx = or_default tx.clauses (build_clauses tx)

-- `populateCall`, steps 2 and 3
unfoldable pub set_to : TransactionRequestInput → TransactionRequestInput
set_to tx = use_clauses tx.clauses (record tx { to = some (or_null tx.to) })

module _ (noble : Noble) (crypto : Crypto) where
  -- `Address.checksum(HexUInt.of(text))`
  unfoldable pub checksum_of : Text → Result Text
  unfolding of_uint checksum
  checksum_of s = do
    huint ← of_uint noble (exp (text s))
    digits ← checksum noble crypto huint.digits
    ok (b'0' ∷ b'x' ∷ digits)

  -- `populateCall`, step 1, for the address of the signer
  unfoldable pub set_from :
      Text → Option Text → TransactionRequestInput → Result TransactionRequestInput
  unfolding checksum_of text_eq
  set_from address none tx = do from ← checksum_of address; ok (record tx { from = some from })
  set_from address (some from) tx = do
    given ← checksum_of from
    own ← checksum_of address
    require (text_eq given own) (invalid_data_type "VeChainAbstractSigner.populateCall()")
    ok tx

  -- `populateCall`
  unfoldable pub populate_call : Text → TransactionRequestInput → Result TransactionRequestInput
  unfolding set_from set_to
  populate_call address tx = do tx' ← set_from address tx.from tx; ok (set_to tx')

  -- The options that are handed to `buildTransactionBody`.
  abbrev pub body_options : Bool → Nonce → TransactionRequestInput → TransactionBodyOptions
  body_options enable_delegation nonce tx = record {
    is_delegated = some enable_delegation;
    nonce = some (or_default tx.nonce nonce);
    block_ref = tx.block_ref;
    chain_tag = tx.chain_tag;
    depends_on = tx.depends_on;
    expiration = tx.expiration;
    gas_price_coef = tx.gas_price_coef;
  }

  module _ (http : Http) (estimate_gas : List TransactionClause → Text → Result Number) where
    -- `estimateGas`: the call is populated once more.
    unfoldable pub estimated_gas : Text → TransactionRequestInput → Result Number
    unfolding populate_call
    estimated_gas address tx = do
      populated ← populate_call address tx
      estimate_gas (clauses_of populated) (or_default populated.from [])

    unfoldable pub total_gas : Text → Option Number → TransactionRequestInput → Result Number
    unfolding estimated_gas
    total_gas address (some gas) tx = ok gas
    total_gas address none tx = estimated_gas address tx

    -- `populateTransaction`. `populateCall` changes the transaction in place, so the gas is estimated
    -- for the populated one.
    unfoldable pub populate_transaction :
        Text → Bool → Nonce → TransactionRequestInput → Result TransactionBody
    unfolding populate_call total_gas build_clauses build_transaction_body
    populate_transaction address enable_delegation nonce tx = do
      populated ← populate_call address tx
      gas ← total_gas address populated.gas populated
      build_transaction_body http [] (clauses_of populated) gas
          (body_options enable_delegation nonce populated)

-- ===== src/Signer/Populated.antt =====
-- What populating a transaction does, once and twice (vechain-abstract-signer.ts): populateTransaction
-- populates the call, and estimateGas populates it once more.
use vechain_sdk_js.Prelude.{◌≡◌, ◌⊎◌, none, some, List, [], ◌∷◌}
use vechain_sdk_js.Result.{ok}
use vechain_sdk_js.Text.{Text}
use vechain_sdk_js.Noble.{Noble}
use vechain_sdk_js.Crypto.{Crypto}
use vechain_sdk_js.Provider.Details.{TransactionClause}
use vechain_sdk_js.Signer.Populating.{TransactionRequestInput, or_null, checksum_of}

module _ (noble : Noble) (crypto : Crypto) where
  -- The sender that was set: the address of the signer in its spelling with a checksum, or a given
  -- sender with the same checksum, which is left as it is. Nothing else is changed.
  record IsSent (address : Text) (tx tx' : TransactionRequestInput) : Type 0 where
    pub own : Text
    pub from : Text
    pub own_lem : checksum_of noble crypto address ≡ ok own
    pub same : checksum_of noble crypto from ≡ ok own
    pub from_lem : tx'.from ≡ some from
    pub alone : tx.from ≡ none → from ≡ own
    pub given : (f : Text) → tx.from ≡ some f → from ≡ f
    pub unchanged : tx' ≡ record tx { from = some from }

  -- What `populateCall` makes of a transaction for the signer of an address: the sender as above, and
  -- `to`, `value` and `data` of the first clause, where there is one; else `to` is null if it was left
  -- out. Nothing else is changed.
  pub record IsPopulated (address : Text) (tx populated : TransactionRequestInput) : Type 0 where
    pub own : Text
    pub from : Text
    pub own_lem : checksum_of noble crypto address ≡ ok own
    pub same : checksum_of noble crypto from ≡ ok own
    pub alone : tx.from ≡ none → from ≡ own
    pub given : (f : Text) → tx.from ≡ some f → from ≡ f
    pub of_clauses :
        (clause : TransactionClause) (clauses : List TransactionClause)
        → tx.clauses ≡ some (clause ∷ clauses)
        → populated ≡ record tx {
          from = some from;
          to = some clause.to;
          value = some clause.value;
          payload = some clause.payload;
        }
    pub with_no_clauses :
        (tx.clauses ≡ none) ⊎ (tx.clauses ≡ some [])
        → populated ≡ record tx { from = some from; to = some (or_null tx.to) }

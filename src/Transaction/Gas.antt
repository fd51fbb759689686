-- ===== src/Transaction/Gas.antt =====
-- packages/core/src/utils/transaction/transaction.ts: the intrinsic gas of clauses.
use vechain_sdk_js.Prelude.{
  ℕ, ◌+◌, Bool, true, false, not, ◌&&◌, ◌||◌, Option, none, some, List, [], ◌∷◌, drop, ◌==◌,
  if◌then◌else◌,
}
use vechain_sdk_js.Result.{Result, ok, invalid_data_type, require, ◌>>=◌, ◌>>◌}
use vechain_sdk_js.Text.{Text}
use vechain_sdk_js.Vcdm.Hex
use vechain_sdk_js.Vcdm.Address

-- `TransactionClause`, less `value`, which gas does not depend on; `null` is `none`.
pub record TransactionClause : Type 0 where
  pub to : Option Text
  pub payload : Text

-- `TRANSACTIONS_GAS_CONSTANTS`
abbrev pub tx_gas : ℕ
tx_gas = 5000

abbrev pub clause_gas : ℕ
clause_gas = 16000

abbrev pub clause_gas_contract_creation : ℕ
clause_gas_contract_creation = 48000

abbrev pub zero_gas_data : ℕ
zero_gas_data = 4

abbrev pub non_zero_gas_data : ℕ
non_zero_gas_data = 68

-- `to.includes('.')`
unfoldable pub includes_dot : Text → Bool
includes_dot [] = false
includes_dot (c ∷ s) = c == b'.' || includes_dot s

-- The loop of `_calculateDataUsedGas`, two characters a round; a last odd one is not `'00'`.
unfoldable pub sum_data_gas : ℕ → Text → ℕ
sum_data_gas sum [] = sum
sum_data_gas sum (c ∷ []) = sum + non_zero_gas_data
sum_data_gas sum (c ∷ d ∷ s) =
    sum_data_gas (sum + (if c == b'0' && d == b'0' then zero_gas_data else non_zero_gas_data)) s

abbrev pub is_empty : Text → Bool
is_empty [] = true
is_empty (c ∷ s) = false

-- `_calculateDataUsedGas`, from index 2 on
unfoldable pub calculate_data_used_gas : Text → Result ℕ
unfolding Hex.is_valid sum_data_gas
calculate_data_used_gas s = do
  require (not (not (is_empty s) && not (Hex.is_valid s)))
      (invalid_data_type "_calculateDataUsedGas()")
  ok (sum_data_gas 0 (drop 2 s))

-- The gas of the recipient of a clause.
unfoldable pub recipient_gas : Option Text → Result ℕ
unfolding Address.is_valid includes_dot
recipient_gas none = ok clause_gas_contract_creation
recipient_gas (some to) = do
  require (not (not (Address.is_valid to) && not (includes_dot to)))
      (invalid_data_type "TransactionUtils.intrinsicGas()")
  ok clause_gas

-- The `reduce` over the clauses.
unfoldable pub sum_gas : ℕ → List TransactionClause → Result ℕ
unfolding calculate_data_used_gas recipient_gas
sum_gas sum [] = ok sum
sum_gas sum (clause ∷ clauses) = do
  gas ← recipient_gas clause.to
  used ← calculate_data_used_gas clause.payload
  sum_gas (sum + gas + used) clauses

unfoldable pub intrinsic_gas : List TransactionClause → Result ℕ
unfolding sum_gas
intrinsic_gas [] = ok (tx_gas + clause_gas)
intrinsic_gas (clause ∷ clauses) = sum_gas tx_gas (clause ∷ clauses)

-- ===== src/Provider/Indexes.antt =====
-- Where a transaction stands in a block, and how many logs stand before it
-- (helpers/transaction/transaction-helpers.ts).
use vechain_sdk_js.Prelude.{
  ℕ, suc, ◌+◌, ◌≡◌, refl, ap, subst, ◌∙◌, false, some, List, [], ◌∷◌, ◌++◌, length, All, arith,
}
use vechain_sdk_js.Result.{Result, ok, >>=-eq-ok, ◌>>=◌}
use vechain_sdk_js.Text.{Text, text_eq}
use vechain_sdk_js.Text.Equality.{text_eq_refl}
use vechain_sdk_js.Noble.{Noble}
use vechain_sdk_js.Provider.Details.{Output, ExpandedTransaction, BlockDetail, ExpandedBlockDetail}
use vechain_sdk_js.Provider.Rpc.{TransactionRpc, details, TransactionsRpc, BlocksRpc}
use vechain_sdk_js.Provider.Formatters.{
  find_index, or_not_found, get_transaction_index_into_block, add_logs, add_logs_below,
  format_transaction, format_expanded, format_all,
}
use vechain_sdk_js.Provider.Receipts.{format_block, format_expanded_block, get_number_of_logs_ahead}

-- How many logs outputs have, and how many the transactions of a list have.
unfoldable pub count_logs : List Output → ℕ
count_logs [] = 0
count_logs (output ∷ outputs) = length output.events + count_logs outputs

unfoldable pub count_all_logs : List ExpandedTransaction → ℕ
count_all_logs [] = 0
count_all_logs (tx ∷ txs) = count_logs tx.outputs + count_all_logs txs

pub add_logs-count_logs :
    (n : ℕ) (outputs : List Output) → add_logs n outputs ≡ n + count_logs outputs
unfolding add_logs count_logs
add_logs-count_logs n [] = omega arith
add_logs-count_logs n (output ∷ outputs) =
    omega (arith, add_logs-count_logs (n + length output.events) outputs)

pub add_logs_below-count_all_logs :
    (n : ℕ) (before after : List ExpandedTransaction)
    → add_logs_below n (length before) (before ++ after) ≡ n + count_all_logs before
unfolding add_logs_below count_all_logs
add_logs_below-count_all_logs n [] after = omega arith
add_logs_below-count_all_logs n (tx ∷ before) after = omega (
  arith,
  add_logs-count_logs n tx.outputs,
  add_logs_below-count_all_logs (add_logs n tx.outputs) before after,
)

-- No transaction of the list has the identifier.
abbrev pub IsNew : Text → List ExpandedTransaction → Type 0
IsNew id txs = All (λ (tx : ExpandedTransaction). text_eq tx.id id ≡ false) txs

-- The formatted transactions have the identifiers of the block's, one for one.
unfoldable pub HasIds : List ExpandedTransaction → List TransactionRpc → Type 0
HasIds [] [] = Unit
HasIds [] (f ∷ fs) = ⊥
HasIds (tx ∷ txs) [] = ⊥
HasIds (tx ∷ txs) (f ∷ fs) = (f.hash ≡ tx.id) × HasIds txs fs

find_index-HasIds :
    (before : List ExpandedTransaction) (tx : ExpandedTransaction)
    (after : List ExpandedTransaction) (fs : List TransactionRpc)
    → HasIds (before ++ tx ∷ after) fs
    → IsNew tx.id before
    → find_index (λ (f : TransactionRpc). text_eq f.hash tx.id) fs ≡ some (length before)
unfolding find_index HasIds
find_index-HasIds [] tx after [] h new = absurd h
find_index-HasIds [] tx after (f ∷ fs) h new = rw (h.0, text_eq_refl tx.id) refl
find_index-HasIds (b ∷ before) tx after [] h new = absurd h
find_index-HasIds (b ∷ before) tx after (f ∷ fs) h new =
    rw (h.0, new.0, find_index-HasIds before tx after fs h.1 new.1) refl

-- A block with a transaction at a place.
abbrev pub block_of :
    BlockDetail
    → List ExpandedTransaction
    → ExpandedTransaction
    → List ExpandedTransaction
    → ExpandedBlockDetail
block_of header before tx after = record { header = header; transactions = before ++ tx ∷ after }

module _ (noble : Noble) where
  format_expanded-hash :
      (tx : ExpandedTransaction) (block : BlockDetail) (i : ℕ) (chain_id : Text)
      (f : TransactionRpc)
      → format_expanded noble tx block i chain_id ≡ ok f
      → f.hash ≡ tx.id
  unfolding format_expanded format_transaction
  format_expanded-hash tx block i chain_id f h = ground arith

  pub format_all-HasIds :
      (txs : List ExpandedTransaction) (block : BlockDetail) (i : ℕ) (chain_id : Text)
      (fs : List TransactionRpc)
      → format_all noble txs block i chain_id ≡ ok fs
      → HasIds txs fs
  unfolding format_all HasIds
  format_all-HasIds [] block i chain_id [] h = tt
  format_all-HasIds [] block i chain_id (f ∷ fs) h = cc
  format_all-HasIds (tx ∷ txs) block i chain_id fs h =
      let (f, first, h') =
        >>=-eq-ok (format_expanded noble tx block i chain_id)
          (λ f. format_all noble txs block (suc i) chain_id >>= λ rest. ok (f ∷ rest)) h in
      let (rest, later, h'') =
        >>=-eq-ok (format_all noble txs block (suc i) chain_id) (λ rest. ok (f ∷ rest)) h' in
      let same : f ∷ rest ≡ fs = cc h'' in
      subst (HasIds (tx ∷ txs)) same (
        format_expanded-hash tx block i chain_id f first,
        format_all-HasIds txs block (suc i) chain_id rest later,
      )

  format_block-transactions :
      (block : BlockDetail) (formatted : Result TransactionsRpc) (b : BlocksRpc)
      → format_block noble block formatted ≡ ok b
      → formatted ≡ ok b.transactions
  unfolding format_block
  format_block-transactions block formatted b h = ground arith

  abbrev in_details : List TransactionRpc → Result TransactionsRpc
  in_details fs = ok (details fs)

  -- A formatted block has the identifiers of the transactions of the block.
  pub format_expanded_block-HasIds :
      (block : ExpandedBlockDetail) (chain_id : Text) (b : BlocksRpc)
      → format_expanded_block noble block chain_id ≡ ok b
      → (fs : List TransactionRpc) × (b.transactions ≡ details fs) × HasIds block.transactions fs
  unfolding format_expanded_block
  format_expanded_block-HasIds block chain_id b formatted =
      let h = format_block-transactions block.header _ b formatted in
      let (fs, all, e) =
        >>=-eq-ok (format_all noble block.transactions block.header 0 chain_id) in_details h in
      (fs, cc e, format_all-HasIds block.transactions block.header 0 chain_id fs all)

  module _ (header : BlockDetail) (before : List ExpandedTransaction) (tx : ExpandedTransaction)
      (after : List ExpandedTransaction) (chain_id : Text) (b : BlocksRpc)
      (new : IsNew tx.id before)
      (formatted : format_expanded_block noble (block_of header before tx after) chain_id
        ≡ ok b) where
    -- A transaction of a formatted block is found at its place.
    pub get_transaction_index-before : get_transaction_index_into_block b tx.id ≡ ok (length before)
    unfolding get_transaction_index_into_block
    get_transaction_index-before =
        let (fs, e, ids) =
          format_expanded_block-HasIds (block_of header before tx after) chain_id b formatted in
        let found = find_index-HasIds before tx after fs ids new in
        ap (λ ts. get_transaction_index_into_block (record b { transactions = ts }) tx.id) e
        ∙ ap or_not_found found

    -- The logs ahead of it are those of the transactions before it.
    pub get_number_of_logs_ahead-before :
        get_number_of_logs_ahead noble (block_of header before tx after) tx.id chain_id
        ≡ ok (count_all_logs before)
    unfolding get_number_of_logs_ahead
    get_number_of_logs_ahead-before =
        rw (formatted, get_transaction_index-before)
          (ap ok (add_logs_below-count_all_logs 0 before (tx ∷ after) ∙ omega arith))

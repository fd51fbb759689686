-- ===== src/ThorClient/Blocks.antt =====
-- packages/network/src/thor-client/blocks/blocks-module.ts: the requests for blocks, the waiting for a
-- block, and the addresses of a block.
use vechain_sdk_js.Prelude.{
  pos, Bool, true, false, ◌||◌, Option, none, some, List, [], ◌∷◌, ◌++◌, take, if◌then◌else◌,
}
use vechain_sdk_js.Result.{Result, ok, invalid_data_type, require, ◌>>=◌, ◌>>◌}
use vechain_sdk_js.Text.{Text, codes, text_eq}
use vechain_sdk_js.Number.{Number, int}
use vechain_sdk_js.Vcdm.Revision.{is_valid_text, is_valid_number}
use vechain_sdk_js.Provider.Details.{
  TransactionClause, Event, Transfer, Output, ExpandedTransaction, ExpandedBlockDetail,
  CompressedBlockDetail,
}
use vechain_sdk_js.ThorClient.Http.{bool, build_query, Http, decimal, block_detail}

-- A revision, `string | number`.
pub data Revision : Type 0 where
  name : Text → Revision
  number : Number → Revision

-- `Revision.isValid(revision)`
unfoldable pub is_valid : Revision → Bool
unfolding is_valid_text
is_valid (name s) = is_valid_text s
is_valid (number n) = is_valid_number n

-- `${revision}`, for the numbers that are valid
unfoldable pub to_text : Revision → Text
unfolding decimal
to_text (name s) = s
to_text (number (int (pos n))) = decimal n
to_text (number n) = []

module _ (http : Http) where
  -- `getBlockCompressed`
  unfoldable pub get_block_compressed : Revision → Result (Option CompressedBlockDetail)
  unfolding is_valid block_detail to_text
  get_block_compressed revision = do
    require (is_valid revision) (invalid_data_type "BlocksModule.getBlockCompressed()")
    http.compressed_block (block_detail (to_text revision)) []

  -- `getBlockExpanded`
  unfoldable pub get_block_expanded : Revision → Result (Option ExpandedBlockDetail)
  unfolding is_valid block_detail to_text build_query
  get_block_expanded revision = do
    require (is_valid revision) (invalid_data_type "BlocksModule.getBlockExpanded()")
    http.expanded_block (block_detail (to_text revision))
        (build_query ((codes "expanded", some (bool true)) ∷ []))

  unfoldable pub get_best_block_compressed : Result (Option CompressedBlockDetail)
  unfolding get_block_compressed
  get_best_block_compressed = get_block_compressed (name (codes "best"))

  unfoldable pub get_best_block_expanded : Result (Option ExpandedBlockDetail)
  unfolding get_block_expanded
  get_best_block_expanded = get_block_expanded (name (codes "best"))

  -- `getBestBlockRef`, with `id.slice(0, 18)`
  unfoldable pub get_best_block_ref : Result (Option Text)
  unfolding get_best_block_compressed
  get_best_block_ref = do
    best ← get_best_block_compressed
    ok (elim best [ none ↦ none | some block ↦ some (take 18 block.header.id) ])

  unfoldable pub get_final_block_compressed : Result (Option CompressedBlockDetail)
  unfolding get_block_compressed
  get_final_block_compressed = get_block_compressed (name (codes "finalized"))

  unfoldable pub get_final_block_expanded : Result (Option ExpandedBlockDetail)
  unfolding get_block_expanded
  get_final_block_expanded = get_block_expanded (name (codes "finalized"))

  unfoldable pub get_genesis_block : Result (Option CompressedBlockDetail)
  unfolding get_block_compressed
  get_genesis_block = get_block_compressed (number (int (pos 0)))

-- `Set.add`: the values in the order in which they were first added
unfoldable pub has : Text → List Text → Bool
has x [] = false
has x (y ∷ ys) = text_eq y x || has x ys

unfoldable pub add : List Text → Text → List Text
unfolding has
add set x = if has x set then set else set ++ x ∷ []

unfoldable pub add_optional : List Text → Option Text → List Text
unfolding add
add_optional set none = set
add_optional set (some x) = add set x

unfoldable pub add_clauses : List Text → List TransactionClause → List Text
unfolding add_optional
add_clauses set [] = set
add_clauses set (clause ∷ clauses) = add_clauses (add_optional set clause.to) clauses

unfoldable pub add_events : List Text → List Event → List Text
unfolding add
add_events set [] = set
add_events set (event ∷ events) = add_events (add set event.address) events

unfoldable pub add_transfers : List Text → List Transfer → List Text
unfolding add
add_transfers set [] = set
add_transfers set (transfer ∷ transfers) =
    add_transfers (add (add set transfer.recipient) transfer.sender) transfers

unfoldable pub add_outputs : List Text → List Output → List Text
unfolding add_optional add_events add_transfers
add_outputs set [] = set
add_outputs set (output ∷ outputs) =
    add_outputs
      (add_transfers (add_events (add_optional set output.contract_address) output.events)
        output.transfers)
      outputs

unfoldable pub add_transactions : List Text → List ExpandedTransaction → List Text
unfolding add add_clauses add_outputs
add_transactions set [] = set
add_transactions set (tx ∷ txs) =
    add_transactions
      (add_outputs
        (add (add (add (add_clauses set tx.clauses) tx.delegator) tx.gas_payer) tx.origin)
        tx.outputs)
      txs

-- `getAllAddressesIntoABlock`
unfoldable pub get_all_addresses_into_a_block : ExpandedBlockDetail → List Text
unfolding add add_transactions
get_all_addresses_into_a_block block =
    add_transactions (add (add [] block.header.beneficiary) block.header.signer) block.transactions

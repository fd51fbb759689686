-- ===== src/ThorClient/Addresses.antt =====
-- The addresses that BlocksModule.getAllAddressesIntoABlock collects (blocks/blocks-module.ts).
use vechain_sdk_js.Prelude.{◌≡◌, refl, ap, sym, ◌∙◌, subst, Option, none, some, List, [], ◌∷◌, ◌++◌}
use vechain_sdk_js.Text.{Text}
use vechain_sdk_js.Provider.Details.{
  TransactionClause, Event, Transfer, Output, ExpandedTransaction, ExpandedBlockDetail,
}
use vechain_sdk_js.ThorClient.Sets.{
  IsDistinct, add_all, add_all-append, add_all-IsDistinct, has-add_all,
}
use vechain_sdk_js.ThorClient.Blocks.{
  has, add, add_optional, add_clauses, add_events, add_transfers, add_outputs, add_transactions,
  get_all_addresses_into_a_block,
}

-- All addresses that a block names, in order, as often as it names them.
unfoldable pub optional_list : Option Text → List Text
optional_list none = []
optional_list (some x) = x ∷ []

unfoldable pub of_clauses : List TransactionClause → List Text
of_clauses [] = []
of_clauses (clause ∷ clauses) = optional_list clause.to ++ of_clauses clauses

unfoldable pub of_events : List Event → List Text
of_events [] = []
of_events (event ∷ events) = event.address ∷ of_events events

unfoldable pub of_transfers : List Transfer → List Text
of_transfers [] = []
of_transfers (transfer ∷ transfers) = transfer.recipient ∷ transfer.sender ∷ of_transfers transfers

unfoldable pub of_outputs : List Output → List Text
of_outputs [] = []
of_outputs (output ∷ outputs) =
    optional_list output.contract_address
    ++ (of_events output.events ++ (of_transfers output.transfers ++ of_outputs outputs))

unfoldable pub of_transactions : List ExpandedTransaction → List Text
of_transactions [] = []
of_transactions (tx ∷ txs) =
    of_clauses tx.clauses
    ++ (tx.delegator ∷ tx.gas_payer ∷ tx.origin ∷ (of_outputs tx.outputs ++ of_transactions txs))

unfoldable pub mentioned : ExpandedBlockDetail → List Text
mentioned block =
    block.header.beneficiary ∷ block.header.signer ∷ of_transactions block.transactions

add_optional_lem :
    (set : List Text) (o : Option Text) → add_optional set o ≡ add_all set (optional_list o)
unfolding add_optional add_all optional_list
add_optional_lem set none = refl
add_optional_lem set (some x) = refl

add_clauses_lem :
    (set : List Text) (clauses : List TransactionClause)
    → add_clauses set clauses ≡ add_all set (of_clauses clauses)
unfolding add_clauses add_all of_clauses
add_clauses_lem set [] = refl
add_clauses_lem set (clause ∷ clauses) =
    add_clauses_lem (add_optional set clause.to) clauses
    ∙ ap (λ s. add_all s (of_clauses clauses)) (add_optional_lem set clause.to)
    ∙ sym (add_all-append set (optional_list clause.to) (of_clauses clauses))

add_events_lem :
    (set : List Text) (events : List Event) → add_events set events ≡ add_all set (of_events events)
unfolding add_events add_all of_events
add_events_lem set [] = refl
add_events_lem set (event ∷ events) = add_events_lem (add set event.address) events

add_transfers_lem :
    (set : List Text) (transfers : List Transfer)
    → add_transfers set transfers ≡ add_all set (of_transfers transfers)
unfolding add_transfers add_all of_transfers
add_transfers_lem set [] = refl
add_transfers_lem set (transfer ∷ transfers) =
    add_transfers_lem (add (add set transfer.recipient) transfer.sender) transfers

add_outputs_lem :
    (set : List Text) (outputs : List Output)
    → add_outputs set outputs ≡ add_all set (of_outputs outputs)
unfolding add_outputs add_all of_outputs
add_outputs_lem set [] = refl
add_outputs_lem set (output ∷ outputs) =
    let rest = of_outputs outputs in
    let transfers = of_transfers output.transfers in
    let events = of_events output.events in
    let contract = optional_list output.contract_address in
    add_outputs_lem
      (add_transfers (add_events (add_optional set output.contract_address) output.events)
        output.transfers)
      outputs
    ∙ ap (λ s. add_all s rest)
        (add_transfers_lem _ output.transfers
          ∙ ap (λ s. add_all s transfers)
              (add_events_lem _ output.events
                ∙ ap (λ s. add_all s events) (add_optional_lem set output.contract_address)))
    ∙ sym (
        add_all-append set contract (events ++ (transfers ++ rest))
        ∙ add_all-append (add_all set contract) events (transfers ++ rest)
        ∙ add_all-append (add_all (add_all set contract) events) transfers rest)

add_transactions_lem :
    (set : List Text) (txs : List ExpandedTransaction)
    → add_transactions set txs ≡ add_all set (of_transactions txs)
unfolding add_transactions add_all of_transactions
add_transactions_lem set [] = refl
add_transactions_lem set (tx ∷ txs) =
    let named = λ (s : List Text). add (add (add s tx.delegator) tx.gas_payer) tx.origin in
    add_transactions_lem (add_outputs (named (add_clauses set tx.clauses)) tx.outputs) txs
    ∙ ap (λ s. add_all s (of_transactions txs))
        (add_outputs_lem _ tx.outputs
          ∙ ap (λ s. add_all (named s) (of_outputs tx.outputs)) (add_clauses_lem set tx.clauses))
    ∙ sym (
        add_all-append set (of_clauses tx.clauses) _
        ∙ add_all-append (named (add_all set (of_clauses tx.clauses))) (of_outputs tx.outputs)
            (of_transactions txs))

-- The addresses that are collected from a block are those that it names, each of them once.
pub get_all_addresses_into_a_block-mentioned :
    (block : ExpandedBlockDetail)
    → ((x : Text) → has x (get_all_addresses_into_a_block block) ≡ has x (mentioned block))
      × IsDistinct (get_all_addresses_into_a_block block)
unfolding get_all_addresses_into_a_block mentioned add_all IsDistinct has
get_all_addresses_into_a_block-mentioned block =
    let same =
      add_transactions_lem (add (add [] block.header.beneficiary) block.header.signer)
        block.transactions in
    (
      λ x. ap (has x) same ∙ has-add_all x [] (mentioned block),
      subst IsDistinct (sym same) (add_all-IsDistinct [] (mentioned block) tt),
    )

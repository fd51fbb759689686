-- ===== src/Provider/Numbering.antt =====
-- The numbers of the logs in a formatted receipt (transactions/formatter.ts).
use vechain_sdk_js.Prelude.{
  ℕ, suc, ◌+◌, ◌≡◌, refl, ap, subst, pos, false, List, [], ◌∷◌, ◌++◌, length, length-append, arith,
}
use vechain_sdk_js.Result.{Result, ok, ◌>>=◌}
use vechain_sdk_js.Text.{Text}
use vechain_sdk_js.Number.{int}
use vechain_sdk_js.Noble.{Noble}
use vechain_sdk_js.Vcdm.Hex.{Hex, to_text}
use vechain_sdk_js.Vcdm.HexInt.{of_int, of_uint}
use vechain_sdk_js.Vcdm.Quantity.{of_quantity}
use vechain_sdk_js.Vcdm.Numbers.{of_quantity-IsQuantity}
use vechain_sdk_js.Provider.Details.{Event, Output, TransactionReceipt}
use vechain_sdk_js.Provider.Rpc.{TransactionReceiptLogsRpc}
use vechain_sdk_js.Provider.Formatters.{quantity}
use vechain_sdk_js.Provider.Receipts.{LogState, format_event, push_events, push_outputs}
use vechain_sdk_js.Provider.Indexes.{count_logs}

module _ (noble : Noble) where
  -- The quantity of a number.
  unfoldable pub quantity_text : ℕ → Text
  quantity_text n = to_text (of_quantity-IsQuantity noble n).0.0

  pub quantity_lem : (n : ℕ) → quantity noble (int (pos n)) ≡ ok (quantity_text n)
  unfolding quantity quantity_text of_quantity of_uint of_int
  quantity_lem n =
      ap (λ (r : Result Hex). r >>= λ h. ok (to_text h)) (of_quantity-IsQuantity noble n).0.1

  -- The logs are numbered one after the other, from a number on.
  unfoldable pub IsNumbered : ℕ → List TransactionReceiptLogsRpc → Type 0
  IsNumbered n [] = Unit
  IsNumbered n (log ∷ logs) = (log.log_index ≡ quantity_text n) × IsNumbered (suc n) logs

  pub IsNumbered-append :
      (n : ℕ) (logs more : List TransactionReceiptLogsRpc)
      → IsNumbered n logs
      → IsNumbered (n + length logs) more
      → IsNumbered n (logs ++ more)
  unfolding IsNumbered
  IsNumbered-append n [] more h k = subst (λ m. IsNumbered m more) (omega arith) k
  IsNumbered-append n (log ∷ logs) more h k = (
    h.0,
    IsNumbered-append (suc n) logs more h.1 (subst (λ m. IsNumbered m more) (omega arith) k),
  )

  -- Logs that are numbered from a number on, up to the next number.
  pub record IsNumberedState (first : ℕ) (state : LogState) : Type 0 where
    pub numbered : IsNumbered first state.logs
    pub next : state.log_index ≡ first + length state.logs

  -- The state after some events or outputs, which number as many logs as they have.
  abbrev pub Numbers : ℕ → LogState → ℕ → Result LogState → Type 0
  Numbers first state count result =
      (state' : LogState) × (result ≡ ok state')
      × IsNumberedState first state'
      × (length state'.logs ≡ length state.logs + count)

  module _ (receipt : TransactionReceipt) (i block_number : ℕ)
      (numbered : receipt.meta.block_number ≡ int (pos block_number)) (first : ℕ) where
    abbrev log_of : Event → ℕ → TransactionReceiptLogsRpc
    log_of event log_index = record {
      address = event.address;
      block_hash = receipt.meta.block_id;
      block_number = quantity_text block_number;
      payload = event.payload;
      log_index = quantity_text log_index;
      removed = false;
      topics = event.topics;
      transaction_hash = receipt.meta.tx_id;
      transaction_index = quantity_text i;
    }

    format_event_lem :
        (event : Event) (log_index : ℕ)
        → format_event noble receipt i event log_index ≡ ok (log_of event log_index)
    unfolding format_event
    format_event_lem event log_index =
        rw (numbered, quantity_lem block_number, quantity_lem i, quantity_lem log_index) refl

    abbrev pushed : TransactionReceiptLogsRpc → LogState → LogState
    pushed log state = record { logs = state.logs ++ log ∷ []; log_index = state.log_index + 1 }

    pushed-IsNumberedState :
        (event : Event) (state : LogState)
        → IsNumberedState first state
        → IsNumberedState first (pushed (log_of event state.log_index) state)
    unfolding IsNumbered
    pushed-IsNumberedState event state h = record {
      numbered =
          IsNumbered-append first state.logs (log_of event state.log_index ∷ []) h.numbered
            (ap quantity_text h.next, tt);
      next = omega (arith, h.next, length-append state.logs (log_of event state.log_index ∷ []));
    }

    push_events-Numbers :
        (events : List Event) (state : LogState)
        → IsNumberedState first state
        → Numbers first state (length events) (push_events noble receipt i state events)
    unfolding push_events
    push_events-Numbers [] state h = (state, refl, h, omega arith)
    push_events-Numbers (event ∷ events) state h =
        let (state', runs, h', more) =
          push_events-Numbers events (pushed (log_of event state.log_index) state)
            (pushed-IsNumberedState event state h) in
        (
          state',
          rw (format_event_lem event state.log_index) runs,
          h',
          omega (arith, more, length-append state.logs (log_of event state.log_index ∷ [])),
        )

    pub push_outputs-Numbers :
        (outputs : List Output) (state : LogState)
        → IsNumberedState first state
        → Numbers first state (count_logs outputs) (push_outputs noble receipt i state outputs)
    unfolding push_outputs count_logs
    push_outputs-Numbers [] state h = (state, refl, h, omega arith)
    push_outputs-Numbers (output ∷ outputs) state h =
        let (state', runs, h', more) = push_events-Numbers output.events state h in
        let (state'', runs', h'', more') = push_outputs-Numbers outputs state' h' in
        (state'', rw runs runs', h'', omega (arith, more, more'))

-- ===== src/Tests/Receipts.antt =====
-- Receipts of a block, and filters of logs, at concrete inputs.
use vechain_sdk_js.Prelude.{
  ℕ, ◌≡◌, refl, ap, pos, true, false, ◌&&◌, none, some, List, [], ◌∷◌, ◌++◌, map, replicate, arith,
  if◌then◌else◌,
}
use vechain_sdk_js.Result.{Result, ok, err}
use vechain_sdk_js.Text.{Text, codes, text_eq}
use vechain_sdk_js.Number.{int}
use vechain_sdk_js.Vcdm.HexInt.{number}
use vechain_sdk_js.Provider.Details.{
  TransactionClause, Event, Output, TransactionMetadata, ExpandedTransaction, TransactionDetail,
  TransactionReceipt, BlockDetail, ExpandedBlockDetail,
}
use vechain_sdk_js.Provider.Rpc.{TransactionReceiptRpc, hashes, BlocksRpc}
use vechain_sdk_js.Provider.Formatters.{to_of_first}
use vechain_sdk_js.Provider.Logs.{topic, one_address, several_addresses, get_criteria_set_for_input}
use vechain_sdk_js.Provider.Criteria.{
  selects_set, to_topic, wants, begins_with, selects_set-get_criteria_set_for_input,
}
use vechain_sdk_js.Provider.Receipts.{format_expanded_block, format_transaction_receipt}
use vechain_sdk_js.Provider.Indexes.{count_logs, count_all_logs, block_of}
use vechain_sdk_js.Provider.NumberedReceipts.{
  IsPlaced, IsFormattable, format_transaction_receipt-IsPlaced,
}
use vechain_sdk_js.Provider.Methods.{testnet}
use vechain_sdk_js.ThorClient.Http.{Http}
use vechain_sdk_js.Tests.Packages.{test_noble}

abbrev pub id_of : ℕ → Text
id_of c = b'0' ∷ b'x' ∷ replicate 64 c

abbrev test_event : Event
test_event = record { address = codes "0xee"; topics = []; payload = codes "0x" }

abbrev output_of : List Event → Output
output_of events = record { contract_address = none; events = events; transfers = [] }

abbrev pub test_clause : TransactionClause
test_clause = record { to = none; value = number (int (pos 1)); payload = codes "0x" }

abbrev transaction_of : ℕ → List Output → ExpandedTransaction
transaction_of c outputs = record {
  id = id_of c;
  chain_tag = codes "0x27";
  block_ref = codes "0x00";
  expiration = int (pos 32);
  clauses = test_clause ∷ [];
  gas_price_coef = int (pos 0);
  gas = number (int (pos 21000));
  origin = codes "0xaa";
  delegator = codes "0xbb";
  nonce = codes "0x1";
  depends_on = [];
  size = int (pos 100);
  gas_used = int (pos 21000);
  gas_payer = codes "0xaa";
  paid = codes "0x1";
  reward = codes "0x1";
  reverted = false;
  outputs = outputs;
}

-- The first transaction has two logs, and the second has one.
abbrev pub first_transaction : ExpandedTransaction
first_transaction = transaction_of b'a' (output_of (test_event ∷ test_event ∷ []) ∷ [])

abbrev second_transaction : ExpandedTransaction
second_transaction = transaction_of b'b' (output_of (test_event ∷ []) ∷ [])

abbrev pub test_header : BlockDetail
test_header = record {
  id = id_of b'c';
  number = int (pos 7);
  size = int (pos 300);
  parent_id = id_of b'd';
  timestamp = int (pos 1000);
  gas_limit = int (pos 40000000);
  beneficiary = codes "0xcc";
  gas_used = int (pos 42000);
  total_score = int (pos 8);
  txs_root = codes "0x1";
  txs_features = none;
  state_root = codes "0x2";
  receipts_root = codes "0x3";
  signer = codes "0xdd";
  committed = none;
  is_finalized = none;
  is_trunk = true;
}

abbrev pub test_block : ExpandedBlockDetail
test_block = block_of test_header (first_transaction ∷ []) second_transaction []

abbrev test_meta : TransactionMetadata
test_meta = record {
  block_id = id_of b'c';
  block_number = int (pos 7);
  block_timestamp = int (pos 1000);
  tx_id = none;
  tx_origin = none;
}

abbrev pub receipt_of : ExpandedTransaction → TransactionReceipt
receipt_of tx = record {
  gas_used = tx.gas_used;
  gas_payer = tx.gas_payer;
  paid = tx.paid;
  reward = tx.reward;
  reverted = tx.reverted;
  outputs = tx.outputs;
  meta = test_meta;
}

abbrev detail_of : ExpandedTransaction → TransactionDetail
detail_of tx = record {
  id = tx.id;
  origin = tx.origin;
  delegator = none;
  size = tx.size;
  meta = test_meta;
  clauses = tx.clauses;
  gas = tx.gas;
  nonce = tx.nonce;
}

abbrev formattable_of :
    (tx : ExpandedTransaction)
    → tx.gas_used ≡ int (pos 21000)
    → tx.clauses ≡ test_clause ∷ []
    → IsFormattable (receipt_of tx) (detail_of tx)
formattable_of tx g c = record {
  block_number = 7;
  gas_used = 21000;
  to = none;
  block_number_lem = refl;
  gas_used_lem = g;
  to_lem = ap to_of_first c;
}

-- A node with this block, on a network of its own.
abbrev by_path : Text → Text → ExpandedTransaction
by_path suffix path =
    if text_eq path (codes "/transactions/" ++ id_of b'a' ++ suffix)
    then first_transaction
    else second_transaction

abbrev pub test_http : Http
test_http = record {
  compressed_block = λ path query. ok (some (record { header = test_header; transactions = [] }));
  expanded_block = λ path query. ok (some test_block);
  transaction = λ path query. ok (some (detail_of (by_path [] path)));
  transaction_raw = λ path query. ok none;
  transaction_receipt = λ path query. ok (some (receipt_of (by_path (codes "/receipt") path)));
  get_addresses = λ address names. ok names;
  get_names = λ address addresses. ok addresses;
  delegation_signature = λ url origin raw. ok raw;
  send_transaction = λ raw. ok raw;
  event_logs = λ path options. ok [];
}

abbrev blocks_rpc_or {ℓ} : {A : Type ℓ} → A → Result A → A
blocks_rpc_or a (ok b) = b
blocks_rpc_or a (err e) = a

abbrev some_block : BlocksRpc
some_block = record {
  number = [];
  hash = [];
  parent_hash = [];
  transactions_root = [];
  state_root = [];
  receipts_root = [];
  miner = [];
  gas_limit = [];
  gas_used = [];
  timestamp = [];
  sha3_uncles = [];
  nonce = [];
  logs_bloom = [];
  extra_data = [];
  size = [];
  transactions = hashes [];
  difficulty = [];
  total_difficulty = [];
  uncles = [];
  base_fee_per_gas = [];
  mix_hash = [];
}

abbrev test_block_rpc : BlocksRpc
test_block_rpc = blocks_rpc_or some_block (format_expanded_block test_noble test_block testnet)

formatted_check : format_expanded_block test_noble test_block testnet ≡ ok test_block_rpc
unfolding format_expanded_block vechain_sdk_js.Provider.Formatters.zero_text
formatted_check = refl

format_transaction_receipt-IsPlaced_example :
    (r : TransactionReceiptRpc) × (format_transaction_receipt test_noble second_transaction.id
        (receipt_of second_transaction)
        (detail_of second_transaction)
        (block_of test_header (first_transaction ∷ []) second_transaction [])
        testnet
      ≡ ok r)
    × IsPlaced test_noble 1
        (count_all_logs (first_transaction ∷ []))
        (count_logs (receipt_of second_transaction).outputs)
        r
unfolding text_eq
format_transaction_receipt-IsPlaced_example =
    format_transaction_receipt-IsPlaced test_noble test_header (first_transaction ∷ [])
      second_transaction [] testnet test_block_rpc (receipt_of second_transaction)
      (detail_of second_transaction) (refl, tt) formatted_check
      (formattable_of second_transaction refl refl)

selects_set-get_criteria_set_for_input_example :
    selects_set
      (get_criteria_set_for_input
        (one_address (codes "0xee"))
        (map to_topic (some (codes "0x01") ∷ none ∷ some (codes "0x02") ∷ [])))
      (codes "0xee")
      (codes "0x01" ∷ [])
    ≡ (wants (one_address (codes "0xee")) (codes "0xee")
        && begins_with (some (codes "0x01") ∷ none ∷ some (codes "0x02") ∷ []) (codes "0x01" ∷ []))
selects_set-get_criteria_set_for_input_example =
    selects_set-get_criteria_set_for_input (some (codes "0x01") ∷ none ∷ some (codes "0x02") ∷ [])
      (codes "0xee") (codes "0x01" ∷ []) (omega arith) (one_address (codes "0xee")) (λ e. cc e)

-- An empty list of addresses makes no criteria, so that a log of any address and topics is selected.
no_criteria_check :
    selects_set
      (get_criteria_set_for_input (several_addresses []) (topic (codes "0x01") ∷ []))
      (codes "0xee")
      []
    ≡ true
unfolding selects_set get_criteria_set_for_input
no_criteria_check = refl

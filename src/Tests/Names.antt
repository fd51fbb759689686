-- ===== src/Tests/Names.antt =====
-- Names in clauses, and the addresses of a block, at concrete inputs.
use vechain_sdk_js.Prelude.{◌≡◌, refl, pos, some, none, List, [], ◌∷◌, map, if◌then◌else◌}
use vechain_sdk_js.Result.{ok}
use vechain_sdk_js.Text.{Text, codes, text_eq}
use vechain_sdk_js.Number.{int}
use vechain_sdk_js.Vcdm.HexInt.{number}
use vechain_sdk_js.Provider.Details.{TransactionClause, CompressedBlockDetail}
use vechain_sdk_js.ThorClient.Http.{Http}
use vechain_sdk_js.ThorClient.Names.{zero_address, known_address, resolve_names_in_clauses}
use vechain_sdk_js.ThorClient.Resolving.{resolved, resolve_names_in_clauses-resolved}
use vechain_sdk_js.ThorClient.Sets.{IsDistinct}
use vechain_sdk_js.ThorClient.Blocks.{get_genesis_block, has, get_all_addresses_into_a_block}
use vechain_sdk_js.ThorClient.Addresses.{mentioned, get_all_addresses_into_a_block-mentioned}
use vechain_sdk_js.Tests.Receipts.{test_block, test_header}

-- The genesis block of the test network, and a resolver that knows one name.
abbrev test_genesis : CompressedBlockDetail
test_genesis = record {
  header = record test_header {
    id = codes "0x000000000b2bce3c70bc649a02749e8687721b09ed2e15997f466536b20bb127";
  };
  transactions = [];
}

abbrev address_of : Text → Text
address_of name =
    if text_eq name (codes "a.vet")
    then codes "0x105199a26b10e55300CB71B46c5B5e867b7dF427"
    else zero_address

abbrev vns_http : Http
vns_http = record {
  compressed_block = λ path query. ok (some test_genesis);
  expanded_block = λ path query. ok none;
  transaction = λ path query. ok none;
  transaction_raw = λ path query. ok none;
  transaction_receipt = λ path query. ok none;
  get_addresses = λ address names. ok (map address_of names);
  get_names = λ address addresses. ok addresses;
  delegation_signature = λ url origin raw. ok raw;
  send_transaction = λ raw. ok raw;
  event_logs = λ path options. ok [];
}

abbrev clause_to : Text → TransactionClause
clause_to to = record { to = some to; value = number (int (pos 1)); payload = codes "0x" }

abbrev named_clauses : List TransactionClause
named_clauses =
    clause_to (codes "a.vet")
    ∷ clause_to (codes "0x01")
    ∷ clause_to (codes "b.vet")
    ∷ clause_to (codes "a.vet")
    ∷ []

abbrev addressed_clauses : List TransactionClause
addressed_clauses =
    clause_to (codes "0x105199a26b10e55300CB71B46c5B5e867b7dF427")
    ∷ clause_to (codes "0x01")
    ∷ clause_to (codes "b.vet")
    ∷ clause_to (codes "0x105199a26b10e55300CB71B46c5B5e867b7dF427")
    ∷ []

resolve_check : resolve_names_in_clauses vns_http named_clauses ≡ ok addressed_clauses
unfolding resolve_names_in_clauses text_eq vechain_sdk_js.ThorClient.Names.resolve_names
    vechain_sdk_js.Vcdm.Revision.is_valid_number vechain_sdk_js.ThorClient.Names.replace_names
    vechain_sdk_js.ThorClient.Names.set_addresses vechain_sdk_js.Text.starts_with_tag
    vechain_sdk_js.Text.strip_sign vechain_sdk_js.Text.is_hex_digits vechain_sdk_js.Text.strip_tag
resolve_check = refl

resolve_names_in_clauses-resolved_example :
    resolve_names_in_clauses vns_http named_clauses
    ≡ ok (map (resolved (λ t. known_address (address_of t))) named_clauses)
unfolding get_genesis_block vechain_sdk_js.Vcdm.Revision.is_valid_number
resolve_names_in_clauses-resolved_example =
    resolve_names_in_clauses-resolved vns_http (some test_genesis)
      (codes "0xc403b8EA53F707d7d4de095f0A20bC491Cf2bc94") address_of refl refl (λ names. refl)
      named_clauses

get_all_addresses_into_a_block-mentioned_example :
    ((x : Text) → has x (get_all_addresses_into_a_block test_block) ≡ has x (mentioned test_block))
    × IsDistinct (get_all_addresses_into_a_block test_block)
get_all_addresses_into_a_block-mentioned_example =
    get_all_addresses_into_a_block-mentioned test_block

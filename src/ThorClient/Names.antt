-- ===== src/ThorClient/Names.antt =====
-- packages/network/src/utils/vns/index.ts and TransactionsModule.resolveNamesInClauses of
-- packages/network/src/thor-client/transactions/transactions-module.ts: names in place of addresses.
use vechain_sdk_js.Prelude.{
  Bool, true, false, ◌&&◌, ◌||◌, not, Option, none, some, List, [], ◌∷◌, map, if◌then◌else◌,
}
use vechain_sdk_js.Result.{Result, ok, ◌>>=◌}
use vechain_sdk_js.Text.{Text, codes, text_eq}
use vechain_sdk_js.Vcdm.Address
use vechain_sdk_js.Transaction.Gas.{includes_dot}
use vechain_sdk_js.Provider.Details.{TransactionClause, CompressedBlockDetail}
use vechain_sdk_js.ThorClient.Http.{Http}
use vechain_sdk_js.ThorClient.Blocks.{get_genesis_block}

-- `ZERO_ADDRESS`
abbrev pub zero_address : Text
zero_address = codes "0x0000000000000000000000000000000000000000"

-- `NetworkContracts`, by the identifier of the genesis block: `resolveUtils`
abbrev pub resolve_utils_of : Text → Option Text
resolve_utils_of id =
    if text_eq id (codes "0x00000000851caf3cfdb6e899cf5958bfb1ac3413d346d43539627e6be7ec1b4a")
    then some (codes "0xA11413086e163e41901bb81fdc5617c975Fa5a1A")
    else if text_eq id (codes "0x000000000b2bce3c70bc649a02749e8687721b09ed2e15997f466536b20bb127")
    then some (codes "0xc403b8EA53F707d7d4de095f0A20bC491Cf2bc94")
    else if text_eq id (codes "0x00000000c05a20fbca2bf6ae3affba6af4a74b800b585bf7a4988aba7aea69f6")
    then some (codes "0xb2f08bbfa8a42b1fbe63feec604cb147385203d7")
    else none

abbrev pub contract_for : Option CompressedBlockDetail → Option Text
contract_for none = none
contract_for (some block) = resolve_utils_of block.header.id

-- An address that is zero or not valid stands for a missing entry.
unfoldable pub known_address : Text → Option Text
unfolding text_eq Address.is_valid
known_address address =
    if text_eq address zero_address || not (Address.is_valid address) then none else some address

-- `[address] = ...; address ?? null`
abbrev pub first_or_null : List (Option Text) → Option Text
first_or_null [] = none
first_or_null (address ∷ addresses) = address

-- An empty name stands for a missing one.
abbrev pub known_name : Text → Option Text
known_name [] = none
known_name (c ∷ s) = some (c ∷ s)

module _ (http : Http) where
  unfoldable pub resolve_at : Option Text → List Text → Result (List (Option Text))
  unfolding known_address
  resolve_at none names = ok (map (λ name. none) names)
  resolve_at (some contract) names = do
    addresses ← http.get_addresses contract names
    ok (map known_address addresses)

  -- `resolveNames`. The addresses of the three contracts are valid.
  unfoldable pub resolve_names : List Text → Result (List (Option Text))
  unfolding get_genesis_block resolve_at
  resolve_names names = do genesis ← get_genesis_block http; resolve_at (contract_for genesis) names

  -- `resolveName`
  unfoldable pub resolve_name : Text → Result (Option Text)
  unfolding resolve_names
  resolve_name name = do addresses ← resolve_names (name ∷ []); ok (first_or_null addresses)

  unfoldable pub look_up_at : Option Text → List Text → Result (List (Option Text))
  look_up_at none addresses = ok (map (λ address. none) addresses)
  look_up_at (some contract) addresses = do
    names ← http.get_names contract addresses
    ok (map known_name names)

  -- `lookupAddresses`
  unfoldable pub look_up_addresses : List Text → Result (List (Option Text))
  unfolding get_genesis_block look_up_at
  look_up_addresses addresses = do
    genesis ← get_genesis_block http
    look_up_at (contract_for genesis) addresses

  -- `lookupAddress`
  unfoldable pub look_up_address : Text → Result (Option Text)
  unfolding look_up_addresses
  look_up_address address = do names ← look_up_addresses (address ∷ []); ok (first_or_null names)

-- A `Map` from names, in the order of insertion.
abbrev pub NameMap : Type 0
NameMap = List (Text × Text)

unfoldable pub lookup : Text → NameMap → Option Text
lookup t [] = none
lookup t ((k, v) ∷ m) = if text_eq k t then some v else lookup t m

unfoldable pub set_name : Text → Text → NameMap → NameMap
set_name k v [] = (k, v) ∷ []
set_name k v ((j, w) ∷ m) = if text_eq j k then (j, v) ∷ m else (j, w) ∷ set_name k v m

unfoldable pub keys : NameMap → List Text
keys [] = []
keys ((k, v) ∷ m) = k ∷ keys m

abbrev pub is_there : Option Text → Bool
is_there none = false
is_there (some v) = true

-- The `reduce` that collects the names.
unfoldable pub collect_name : NameMap → Option Text → NameMap
unfolding lookup includes_dot set_name
collect_name m none = m
collect_name m (some to) =
    if not (is_there (lookup to m)) && includes_dot to then set_name to to m else m

unfoldable pub collect_names : NameMap → List TransactionClause → NameMap
unfolding collect_name
collect_names m [] = m
collect_names m (clause ∷ clauses) = collect_names (collect_name m clause.to) clauses

-- The `forEach` over the addresses. An address past the names gets no name.
abbrev pub set_address : Text → Option Text → NameMap → NameMap
set_address name none m = m
set_address name (some address) m = set_name name address m

unfoldable pub set_addresses : NameMap → List Text → List (Option Text) → NameMap
unfolding set_name
set_addresses m [] addresses = m
set_addresses m (name ∷ names) [] = m
set_addresses m (name ∷ names) (address ∷ addresses) =
    set_addresses (set_address name address m) names addresses

-- `uniqueNames.get(clause.to) ?? clause.to`
abbrev pub or_name : Text → Option Text → Text
or_name to none = to
or_name to (some address) = address

abbrev pub replace_to : NameMap → Option Text → Option Text
replace_to m none = none
replace_to m (some to) = some (or_name to (lookup to m))

unfoldable pub replace_names : NameMap → List TransactionClause → List TransactionClause
unfolding lookup
replace_names m [] = []
replace_names m (clause ∷ clauses) =
    record { to = replace_to m clause.to; value = clause.value; payload = clause.payload }
    ∷ replace_names m clauses

-- `resolveNamesInClauses`, for the names that were collected
unfoldable pub resolve_collected :
    Http → NameMap → List TransactionClause → Result (List TransactionClause)
unfolding keys
resolve_collected http [] clauses = ok clauses
resolve_collected http ((k, v) ∷ m) clauses = do
  addresses ← resolve_names http (keys ((k, v) ∷ m))
  ok (replace_names (set_addresses ((k, v) ∷ m) (keys ((k, v) ∷ m)) addresses) clauses)

-- `resolveNamesInClauses`
unfoldable pub resolve_names_in_clauses :
    Http → List TransactionClause → Result (List TransactionClause)
unfolding collect_names resolve_collected
resolve_names_in_clauses http clauses = resolve_collected http (collect_names [] clauses) clauses

-- ===== src/ThorClient/Resolving.antt =====
-- Which clauses resolveNamesInClauses gives (transactions/transactions-module.ts).
use vechain_sdk_js.Prelude.{
  ◌≡◌, refl, ap, ap₂, sym, ◌∙◌, Bool, true, false, ◌&&◌, ◌||◌, Option, none, some, List, [], ◌∷◌,
  map, if◌then◌else◌,
}
use vechain_sdk_js.Result.{ok}
use vechain_sdk_js.Text.{Text}
use vechain_sdk_js.Text.Equality.{text_eq_refl}
use vechain_sdk_js.Transaction.Gas.{includes_dot}
use vechain_sdk_js.Provider.Details.{TransactionClause, CompressedBlockDetail}
use vechain_sdk_js.ThorClient.Http.{Http}
use vechain_sdk_js.ThorClient.Blocks.{get_genesis_block}
use vechain_sdk_js.ThorClient.Names.{
  NameMap, lookup, keys, is_there, collect_names, set_addresses, or_name, replace_to, replace_names,
  resolve_collected, resolve_names, resolve_names_in_clauses, resolve_at, known_address,
  contract_for,
}
use vechain_sdk_js.ThorClient.NameMaps.{
  is_to, occurs, named, or_else, has-keys, lookup-set_addresses, lookup-collect_names,
}

-- A clause with its name resolved: a recipient with a dot in it is replaced by its address, if it has
-- one.
abbrev pub resolved_to : (Text → Option Text) → Option Text → Option Text
resolved_to f none = none
resolved_to f (some to) = some (if includes_dot to then or_name to (f to) else to)

abbrev pub resolved : (Text → Option Text) → TransactionClause → TransactionClause
resolved f clause = record {
  to = resolved_to f clause.to;
  value = clause.value;
  payload = clause.payload;
}

or_true : (a : Bool) → (a || true) ≡ true
or_true true = refl
or_true false = refl

replace_to-empty : (to : Option Text) → replace_to [] to ≡ to
unfolding lookup
replace_to-empty none = refl
replace_to-empty (some to) = refl

-- The name stands for its address once the addresses have been set.
or_name-found :
    (t : Text) (d : Bool) (o : Option Text)
    → or_name t (
        if is_there (if d && true then some t else none)
        then or_else o (if d && true then some t else none)
        else (if d && true then some t else none))
      ≡ (if d then or_name t o else t)
or_name-found t true none = refl
or_name-found t true (some a) = refl
or_name-found t false o = refl

map-map :
    (g : Text → Option Text) (f : Text → Text) (ts : List Text)
    → map g (map f ts) ≡ map (λ t. g (f t)) ts
map-map g f [] = refl
map-map g f (t ∷ ts) = ap (◌∷◌ (g (f t))) (map-map g f ts)

module _ (f : Text → Option Text) where
  set_all : NameMap → NameMap
  set_all m = set_addresses m (keys m) (map f (keys m))

  or_name-set_all :
      (t : Text) (clauses : List TransactionClause)
      → occurs t clauses ≡ true
      → or_name t (lookup t (set_all (collect_names [] clauses)))
        ≡ (if includes_dot t then or_name t (f t) else t)
  unfolding set_all lookup
  or_name-set_all t clauses there =
      let m = collect_names [] clauses in
      let found : lookup t m ≡ named t true =
        lookup-collect_names t clauses [] ∙ ap (named t) there in
      ap (or_name t) (
        lookup-set_addresses f t (keys m) m
        ∙ ap (λ c. if c then or_else (f t) (lookup t m) else lookup t m) (has-keys t m)
        ∙ ap (λ o. if is_there o then or_else (f t) o else o) found)
      ∙ or_name-found t (includes_dot t) (f t)

  replace_to-resolved_to :
      (m : NameMap) (to : Option Text)
      → ((t : Text)
          → is_to to t ≡ true
          → or_name t (lookup t m) ≡ (if includes_dot t then or_name t (f t) else t))
      → replace_to m to ≡ resolved_to f to
  replace_to-resolved_to m none right = refl
  replace_to-resolved_to m (some to) right = ap some (right to (text_eq_refl to))

  replace_names-resolved :
      (m : NameMap) (clauses : List TransactionClause)
      → ((t : Text)
          → occurs t clauses ≡ true
          → or_name t (lookup t m) ≡ (if includes_dot t then or_name t (f t) else t))
      → replace_names m clauses ≡ map (resolved f) clauses
  unfolding replace_names occurs
  replace_names-resolved m [] right = refl
  replace_names-resolved m (clause ∷ clauses) right =
      ap₂ (λ to rest. record { to = to; value = clause.value; payload = clause.payload } ∷ rest)
        (replace_to-resolved_to m clause.to (λ t is. right t (rw is refl)))
        (replace_names-resolved m clauses
          (λ t there. right t (rw there (or_true (is_to clause.to t)))))

replace_names-empty : (clauses : List TransactionClause) → replace_names [] clauses ≡ clauses
unfolding replace_names lookup
replace_names-empty [] = refl
replace_names-empty (clause ∷ clauses) =
    ap₂ (λ to rest. record { to = to; value = clause.value; payload = clause.payload } ∷ rest)
      (replace_to-empty clause.to) (replace_names-empty clauses)

module _ (http : Http) (genesis : Option CompressedBlockDetail) (contract : Text)
    (address_of : Text → Text) (found : get_genesis_block http ≡ ok genesis)
    (deployed : contract_for genesis ≡ some contract)
    (answers : (names : List Text)
      → http.get_addresses contract names ≡ ok (map address_of names)) where
  resolve_names-map :
      (names : List Text)
      → resolve_names http names ≡ ok (map (λ t. known_address (address_of t)) names)
  unfolding resolve_names resolve_at
  resolve_names-map names =
      rw (found, deployed, answers names) (ap ok (map-map known_address address_of names))

  resolve_collected_lem :
      (m : NameMap) (clauses : List TransactionClause)
      → resolve_collected http m clauses
        ≡ ok (replace_names (set_all (λ t. known_address (address_of t)) m) clauses)
  unfolding resolve_collected keys set_all set_addresses
  resolve_collected_lem [] clauses = ap ok (sym (replace_names-empty clauses))
  resolve_collected_lem ((k, v) ∷ m) clauses = rw (resolve_names-map (k ∷ keys m)) refl

  -- Where the node has a genesis block with a resolver and the resolver answers every list of names
  -- pointwise, the clauses that come back are the given ones, in order, each recipient with a dot in it
  -- replaced by the address of that name if this is a valid address other than zero, and nothing else
  -- changed, however often a name occurs.
  pub resolve_names_in_clauses-resolved :
      (clauses : List TransactionClause)
      → resolve_names_in_clauses http clauses
        ≡ ok (map (resolved (λ t. known_address (address_of t))) clauses)
  unfolding resolve_names_in_clauses
  resolve_names_in_clauses-resolved clauses =
      let f = λ (t : Text). known_address (address_of t) in
      resolve_collected_lem (collect_names [] clauses) clauses
      ∙ ap ok (
          replace_names-resolved f (set_all f (collect_names [] clauses)) clauses
            (λ t there. or_name-set_all f t clauses there))

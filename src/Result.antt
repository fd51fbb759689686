-- ===== src/Result.antt =====
-- packages/errors: the errors that the modelled code throws, as values. `Context` is the dotted
-- path that the RLP code builds for its messages, kept as the list of its parts, outermost first.
use vechain_sdk_js.Prelude.{◌⊎◌, inl, inr, ℕ, String, ◌≡◌, refl, List, Bool, true, false}

pub data Segment : Type 0 where
  field : String → Segment
  item : ℕ → Segment

abbrev pub Context : Type 0
Context = List Segment

-- The class of the error that the caller sees, with the `methodName` or the `fieldName` it reports.
-- `syntax_error` and `type_error` are the engine's own.
pub data Error : Type 0 where
  invalid_data_type invalid_operation invalid_transaction_field : String → Error
  invalid_rlp : String → Context → Error
  invalid_secp256k1_signature invalid_secp256k1_private_key : Error
  invalid_secp256k1_message_hash : Error
  unavailable_transaction_field : String → Error
  not_delegated_transaction : Error
  poll_execution : String → Error
  invalid_address invalid_bloom invalid_bloom_params : String → Error
  json_rpc_invalid_params json_rpc_internal_error json_rpc_server_error : String → Error
  json_rpc_method_not_found invalid_http_request : String → Error
  malformed_rlp syntax_error type_error : Error

pub data Result {ℓ} (A : Type ℓ) : Type ℓ where
  ok : A → Result A
  err : Error → Result A

-- `if (!test) throw e`
abbrev pub require : Bool → Error → Result (Unit {0})
require true e = ok tt
require false e = err e

infixl 5 ◌>>◌ ◌>>=◌
-- What is thrown goes past the rest.
abbrev pub ◌>>=◌ {ℓ μ} : {A : Type ℓ} {B : Type μ} → Result A → (A → Result B) → Result B
err e >>= next = err e
ok a >>= next = next a

abbrev pub ◌>>◌ {μ} : {B : Type μ} → Result (Unit {0}) → Result B → Result B
check >> rest = check >>= λ u. rest

-- What a successful chain has gone through.
pub >>=-eq-ok {ℓ μ} :
    {A : Type ℓ} {B : Type μ} (first : Result A) (next : A → Result B) {b : B}
    → (first >>= next) ≡ ok b
    → (a : A) × (first ≡ ok a) × (next a ≡ ok b)
>>=-eq-ok (err e) next h = cc
>>=-eq-ok (ok a) next h = (a, refl, h)

-- `catch (e) { throw new ... }`: any error is replaced by the one of the outer method.
abbrev pub catch_as {ℓ} : {A : Type ℓ} → Error → Result A → Result A
catch_as e (ok a) = ok a
catch_as e (err inner) = err e

-- `Hex.throwInvalidDataType`: an `InvalidDataType` passes, and any other error is replaced.
abbrev pub rethrow_as {ℓ} : {A : Type ℓ} → Error → Result A → Result A
rethrow_as e (ok a) = ok a
rethrow_as e (err (invalid_data_type method)) = err (invalid_data_type method)
rethrow_as e (err inner) = err e

-- A check that is followed by something succeeds where it holds.
pub require-eq-ok {ℓ} :
    {A : Type ℓ}
    → (b : Bool) (e : Error) (r : Result A) (x : A) → (require b e >> r) ≡ ok x
    → (b ≡ true) × (r ≡ ok x)
require-eq-ok true e r x h = (refl, h)
require-eq-ok false e r x h = cc

pub ok-injective {ℓ} : {A : Type ℓ} {x y : A} → ok x ≡ ok y → x ≡ y
ok-injective h = cc

-- A result is a value or an error.
pub Result-cases {ℓ} :
    {A : Type ℓ} (r : Result A) → ((a : A) × (r ≡ ok a)) ⊎ ((e : Error) × (r ≡ err e))
Result-cases (ok a) = inl (a, refl)
Result-cases (err e) = inr (e, refl)

-- ===== src/Tests/Values.antt =====
-- The data model, profiles and gas at concrete inputs.
use vechain_sdk_js.Prelude.{
  ◌≡◌, refl, ℤ, pos, negsuc, false, none, some, List, [], ◌∷◌, replicate, length, arith,
}
use vechain_sdk_js.Result.{ok, err, invalid_data_type, ◌>>=◌}
use vechain_sdk_js.Number.{int}
use vechain_sdk_js.Text.{Text, Bytes, codes, to_lower_case, starts_with_tag, is_hex_digits}
use vechain_sdk_js.Crypto
use vechain_sdk_js.Crypto.{recover}
use vechain_sdk_js.Crypto.Keys.{recover_of_sign}
use vechain_sdk_js.Vcdm.Hex.{
  positive, negative, Hex, to_text, of_text, of, bi, to_bytes, bigint, bytes, fit, compare_to,
}
use vechain_sdk_js.Vcdm.Hex.Value.{value, IsFitted, fit-value}
use vechain_sdk_js.Vcdm.Hex.Order.{Compares, compare_to-value}
use vechain_sdk_js.Vcdm.Hex.RoundTrip.{of_text-to_text, to_bytes-of, bi-of}
use vechain_sdk_js.Vcdm.HexInt.{exp}
use vechain_sdk_js.Vcdm.Quantity.{of_quantity}
use vechain_sdk_js.Vcdm.ThorId.{of_hex}
use vechain_sdk_js.Vcdm.Numbers.{IsQuantity, of_quantity-IsQuantity, of_hex-value}
use vechain_sdk_js.Rlp.Value.{
  Value, num, str, arr, obj, nil, cons, no_more, entry, Kind, scalar, array, struct, finish,
  profile, numeric_kind, hex_blob_kind,
}
use vechain_sdk_js.Rlp.Profiler.{get_field, encode_object, decode_object}
use vechain_sdk_js.Rlp.RoundTrip.{decode_object-encode_object}
use vechain_sdk_js.Transaction.Gas.{TransactionClause, intrinsic_gas}
use vechain_sdk_js.Transaction.Intrinsic.{
  transaction_cost, intrinsic_gas-cost, is_ok, are_accepted, intrinsic_gas-are_accepted,
}
use vechain_sdk_js.Tests.Packages.{test_noble, test_crypto, test_codec}
use vechain_sdk_js.Tests.Bodies.{or_empty, recipient, key}

abbrev small : Hex
small = record { sign = positive; digits = codes "ff" }

abbrev large : Hex
large = record { sign = positive; digits = codes "0100" }

abbrev below : Hex
below = record { sign = negative; digits = codes "2a" }

compare_to-value_example :
    (z : ℤ) × (compare_to test_noble small large ≡ ok z) × Compares z (value small) (value large)
unfolding is_hex_digits
compare_to-value_example = compare_to-value test_noble small large refl refl refl

of_text-to_text_example : of_text (to_text below) ≡ ok below
unfolding is_hex_digits to_lower_case
of_text-to_text_example = of_text-to_text below refl refl

to_bytes-of_example :
    (of test_noble (bytes (1 ∷ 255 ∷ [])) >>= to_bytes test_noble) ≡ ok (1 ∷ 255 ∷ [])
to_bytes-of_example = to_bytes-of test_noble (1 ∷ 255 ∷ []) (omega arith, (omega arith, tt))

minus : of test_noble (bigint (negsuc 41)) ≡ ok below
unfolding of to_lower_case vechain_sdk_js.Text.hex_of_bytes vechain_sdk_js.Text.Positional.be_bytes
    vechain_sdk_js.Text.Positional.digits_of
minus = refl

bi-of_example : bi test_noble below ≡ negsuc 41
bi-of_example = bi-of test_noble (negsuc 41) below minus

fit-value_example : (r : Hex) × (fit 4 small ≡ ok r) × IsFitted 4 small r
unfolding is_hex_digits
fit-value_example = fit-value 4 small refl (omega arith)

of_quantity-IsQuantity_example :
    ((h : Hex) × (of_quantity test_noble (exp (bigint (pos 10))) ≡ ok h) × IsQuantity 10 h)
    × (of_quantity test_noble (exp (bigint (negsuc 10))) ≡ err (invalid_data_type "Quantity.of"))
of_quantity-IsQuantity_example = of_quantity-IsQuantity test_noble 10

of_hex-value_example :
    (r : Hex) × (of_hex below ≡ ok r)
    × (length r.digits ≡ 64)
    × (value r ≡ value below)
    × (r.sign ≡ positive)
unfolding is_hex_digits
of_hex-value_example = of_hex-value below refl (omega arith)

-- A struct with a list of numbers and a text.
abbrev test_kind : Kind
test_kind = struct (
    profile "foo" (scalar (numeric_kind none))
      (profile "bar" (array (scalar hex_blob_kind)) finish))

abbrev test_value : Value
test_value = obj (
    entry "foo" (num (int (pos 1234)))
      (entry "bar" (arr (cons (str (codes "0x12ef")) nil)) no_more))

abbrev encoded_value : Bytes
encoded_value = or_empty (encode_object test_noble test_codec "data" test_kind test_value)

encode_object_check :
    encode_object test_noble test_codec "data" test_kind test_value ≡ ok encoded_value
unfolding encode_object vechain_sdk_js.Rlp.Profiler.property vechain_sdk_js.Rlp.Kinds.data_of
    vechain_sdk_js.Rlp.Kinds.numeric_data vechain_sdk_js.Rlp.Kinds.hex_blob_data is_hex_digits
    vechain_sdk_js.Text.strip_tag vechain_sdk_js.Text.strip_sign
encode_object_check = refl

decode_object-encode_object_example :
    (w : Value) × (decode_object test_noble test_codec "data" test_kind encoded_value ≡ ok w)
    × (encode_object test_noble test_codec "data" test_kind w ≡ ok encoded_value)
unfolding get_field starts_with_tag
decode_object-encode_object_example =
    decode_object-encode_object test_noble test_codec "data" test_kind test_value encoded_value
      ((refl, tt), tt, (tt, tt, tt)) (tt, ((refl, tt), tt)) encode_object_check

abbrev test_clauses : List TransactionClause
test_clauses =
    record { to = some recipient; payload = codes "0x00ff" }
    ∷ record { to = none; payload = [] }
    ∷ []

intrinsic_gas-cost_example : intrinsic_gas test_clauses ≡ ok (transaction_cost test_clauses)
unfolding starts_with_tag vechain_sdk_js.Vcdm.Address.is_valid vechain_sdk_js.Text.strip_sign
    is_hex_digits vechain_sdk_js.Text.strip_tag
intrinsic_gas-cost_example =
    intrinsic_gas-cost test_clauses
      (record { to = refl; payload = (refl, refl, refl) }, (record { to = tt; payload = tt }, tt))

intrinsic_gas-are_accepted_example : is_ok (intrinsic_gas test_clauses) ≡ are_accepted test_clauses
intrinsic_gas-are_accepted_example = intrinsic_gas-are_accepted test_clauses

abbrev test_signature : Bytes
test_signature = or_empty (Crypto.sign test_crypto (replicate 32 5) key)

sign_hash_check : Crypto.sign test_crypto (replicate 32 5) key ≡ ok test_signature
unfolding Crypto.sign
sign_hash_check = refl

recover_of_sign_example :
    recover test_crypto (replicate 32 5) test_signature ≡ ok (test_crypto.get_public_key key false)
recover_of_sign_example =
    recover_of_sign test_crypto (replicate 32 5) key test_signature (λ h. refl) sign_hash_check

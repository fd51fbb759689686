-- ===== src/Tests/Filters.antt =====
-- Bloom filters at concrete inputs.
use mathlib.Core.List.{Memᴰ}
use vechain_sdk_js.Prelude.{ℕ, ◌≡◌, inl, refl, pos, true, List, [], ◌∷◌, arith}
use vechain_sdk_js.Result.{Result, ok, err}
use vechain_sdk_js.Number.{int}
use vechain_sdk_js.Text.{Text, Bytes}
use vechain_sdk_js.Vcdm.Address
use vechain_sdk_js.Bloom.{Filter, generate, contains, compose, calculate_k, calculate_bits_per_key}
use vechain_sdk_js.Bloom.Membership.{contains-generate, generate-IsByte}
use vechain_sdk_js.Bloom.Composing.{contains-compose, calculate_k-calculate_bits_per_key}
use vechain_sdk_js.Bloom.Utils.{add_all, filter_of, is_address_in_bloom}
use vechain_sdk_js.Bloom.Addresses.{is_address_in_bloom-filter_of}
use vechain_sdk_js.Tests.Packages.{test_noble, test_crypto}
use vechain_sdk_js.Tests.Bodies.{recipient}

abbrev first_key : Bytes
first_key = 1 ∷ 2 ∷ []

abbrev second_key : Bytes
second_key = 9 ∷ []

abbrev hashes_or_none : Result (List ℕ) → List ℕ
hashes_or_none (ok hs) = hs
hashes_or_none (err e) = []

abbrev test_hashes : List ℕ
test_hashes = hashes_or_none (add_all test_noble test_crypto (first_key ∷ second_key ∷ []) [])

add_all_check : add_all test_noble test_crypto (first_key ∷ second_key ∷ []) [] ≡ ok test_hashes
unfolding add_all
add_all_check = refl

abbrev test_filter : Filter
test_filter = (generate test_hashes 10 7).0

contains-generate_example :
    contains test_noble test_crypto (generate test_hashes 10 7).0 second_key ≡ ok true
contains-generate_example =
    contains-generate test_noble test_crypto (first_key ∷ second_key ∷ []) test_hashes 10 7
      second_key add_all_check (Memᴰ.tail (Memᴰ.head refl))

abbrev other_filter : Filter
other_filter = (generate (5 ∷ []) 10 7).0

abbrev filter_or : Result Filter → Filter
filter_or (ok f) = f
filter_or (err e) = test_filter

abbrev composed : Filter
composed = filter_or (compose test_filter other_filter)

compose_check : compose test_filter other_filter ≡ ok composed
unfolding compose generate add_all vechain_sdk_js.Text.Positional.be_value
    vechain_sdk_js.Text.Positional.value_from vechain_sdk_js.Text.buffer_from_hex
    vechain_sdk_js.Text.to_lower_case vechain_sdk_js.Text.hex_of_bytes
compose_check = refl

contains-compose_example : contains test_noble test_crypto composed second_key ≡ ok true
contains-compose_example =
    contains-compose test_noble test_crypto test_filter other_filter composed second_key
      (generate-IsByte test_hashes 10 7).0 (generate-IsByte (5 ∷ []) 10 7).0 compose_check
      (inl contains-generate_example)

abbrev text_or_none : Result Text → Text
text_or_none (ok s) = s
text_or_none (err e) = []

abbrev address_filter : Text
address_filter = text_or_none (filter_of test_noble test_crypto (recipient ∷ []) 5)

filter_of_check : filter_of test_noble test_crypto (recipient ∷ []) 5 ≡ ok address_filter
unfolding filter_of vechain_sdk_js.Text.is_hex_digits vechain_sdk_js.Text.strip_tag
    vechain_sdk_js.Text.strip_sign vechain_sdk_js.Text.starts_with_minus
    vechain_sdk_js.Text.starts_with_tag vechain_sdk_js.Text.to_lower_case
filter_of_check = refl

recipient-is_valid : Address.is_valid recipient ≡ true
unfolding Address.is_valid vechain_sdk_js.Text.starts_with_tag vechain_sdk_js.Text.strip_sign
    vechain_sdk_js.Text.is_hex_digits vechain_sdk_js.Text.strip_tag
recipient-is_valid = refl

is_address_in_bloom-filter_of_example :
    is_address_in_bloom test_noble test_crypto address_filter (int (pos 5)) recipient ≡ ok true
is_address_in_bloom-filter_of_example =
    is_address_in_bloom-filter_of test_noble test_crypto (recipient ∷ []) 4 address_filter recipient
      filter_of_check (Memᴰ.head refl) recipient-is_valid

calculate_k-calculate_bits_per_key_example : calculate_k (calculate_bits_per_key 5) ≡ 5
calculate_k-calculate_bits_per_key_example =
    calculate_k-calculate_bits_per_key 5 (omega arith) (omega arith)

-- ===== src/Tests/Strings.antt =====
-- Strings of 32 bytes at concrete inputs. The code units of these strings are their UTF-8 bytes.
use vechain_sdk_js.Prelude.{◌≡◌, refl, [], ◌∷◌, replicate, ◌++◌}
use vechain_sdk_js.Result.{ok}
use vechain_sdk_js.Text.{Text, codes}
use vechain_sdk_js.Data.{Utf8, right, decode_bytes32_string, encode_bytes32_string}
use vechain_sdk_js.Tests.Packages.{test_noble}

abbrev ascii : Utf8
ascii = record { encode = λ s. s; decode = λ b. b }

abbrev padded_right : Text
padded_right = codes "0x6869" ++ replicate 60 b'0'

abbrev padded_left : Text
padded_left = codes "0x" ++ (replicate 60 b'0' ++ codes "6869")

encode_check : encode_bytes32_string test_noble ascii right (codes "hi") ≡ ok padded_right
unfolding encode_bytes32_string vechain_sdk_js.Text.to_lower_case vechain_sdk_js.Text.hex_of_bytes
encode_check = refl

decode_right_check : decode_bytes32_string test_noble ascii padded_right ≡ ok (codes "hi")
unfolding decode_bytes32_string vechain_sdk_js.Text.is_hex_digits vechain_sdk_js.Text.strip_tag
    vechain_sdk_js.Text.strip_sign vechain_sdk_js.Text.starts_with_minus
    vechain_sdk_js.Text.to_lower_case vechain_sdk_js.Text.starts_with_tag
    vechain_sdk_js.Text.buffer_from_hex
decode_right_check = refl

decode_left_check : decode_bytes32_string test_noble ascii padded_left ≡ ok (codes "hi")
unfolding decode_bytes32_string vechain_sdk_js.Text.is_hex_digits vechain_sdk_js.Text.strip_tag
    vechain_sdk_js.Text.strip_sign vechain_sdk_js.Text.starts_with_minus
    vechain_sdk_js.Text.to_lower_case vechain_sdk_js.Text.starts_with_tag
    vechain_sdk_js.Text.buffer_from_hex
decode_left_check = refl

-- The empty string is not read back.
abbrev zeros_text : Text
zeros_text = codes "0x" ++ replicate 64 b'0'

decode_zeros_check : decode_bytes32_string test_noble ascii zeros_text ≡ ok (0 ∷ [])
unfolding decode_bytes32_string vechain_sdk_js.Text.is_hex_digits vechain_sdk_js.Text.strip_tag
    vechain_sdk_js.Text.strip_sign vechain_sdk_js.Text.starts_with_minus
    vechain_sdk_js.Text.to_lower_case vechain_sdk_js.Text.starts_with_tag
    vechain_sdk_js.Text.buffer_from_hex
decode_zeros_check = refl

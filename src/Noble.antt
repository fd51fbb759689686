-- ===== src/Noble.antt =====
-- `@noble/curves/abstract/utils`, the package that the SDK takes its hexadecimal conversions from. Its
-- code is not in the repository, so it is a parameter: the operations that the SDK calls, each with
-- the documented behaviour that the SDK relies on.
use vechain_sdk_js.Prelude.{ℕ, ◌≡◌, true, [], ◌∷◌, All, ◌==◌, if◌then◌else◌}
use vechain_sdk_js.Result.{Result, ok}
use vechain_sdk_js.Text.{Text, Bytes, is_hex_digits, hex_value_from, buffer_from_hex, hex_of_bytes}
use vechain_sdk_js.Text.Positional.{be_bytes}
use vechain_sdk_js.Text.Bytes.{IsByte, HasEvenLength}

pub record Noble : Type 0 where
  pub bytes_to_hex : Bytes → Text
  pub hex_to_bytes : Text → Result Bytes
  pub hex_to_number : Text → ℕ
  pub number_to_hex_unpadded : ℕ → Text
  -- two lower-case digits for each byte
  pub bytes_to_hex_lem : (bs : Bytes) → All IsByte bs → bytes_to_hex bs ≡ hex_of_bytes bs
  -- it throws on an odd number of digits, which the SDK never hands over
  pub hex_to_bytes_lem :
      (s : Text)
      → is_hex_digits s ≡ true
      → HasEvenLength s
      → hex_to_bytes s ≡ ok (buffer_from_hex s)
  pub hex_to_number_lem : (s : Text) → is_hex_digits s ≡ true → hex_to_number s ≡ hex_value_from 0 s
  -- whole bytes, and no superfluous one at the front
  pub number_to_hex_unpadded_lem :
      (n : ℕ)
      → number_to_hex_unpadded n ≡ (if n == 0 then b'0' ∷ b'0' ∷ [] else hex_of_bytes (be_bytes n))

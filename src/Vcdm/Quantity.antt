-- ===== src/Vcdm/Quantity.antt =====
-- packages/core/src/vcdm/Quantity.ts: the numbers of JSON-RPC, with no superfluous leading zero.
use vechain_sdk_js.Prelude.{[], ◌∷◌, ◌==◌, if◌then◌else◌}
use vechain_sdk_js.Result.{Result, ok, invalid_data_type, ◌>>=◌, catch_as}
use vechain_sdk_js.Text.{Text}
use vechain_sdk_js.Noble.{Noble}
use vechain_sdk_js.Vcdm.Hex.{Hex, new_hex}
use vechain_sdk_js.Vcdm.HexInt.{IntExp, of_uint}

-- `digits.slice(cue)` after the loop that skips the zeros
unfoldable pub skip_zeros : Text → Text
skip_zeros [] = []
skip_zeros (c ∷ s) = let rest = skip_zeros s in if c == b'0' then rest else c ∷ s

abbrev pub or_zero : Text → Text
or_zero [] = b'0' ∷ []
or_zero (c ∷ s) = c ∷ s

module _ (noble : Noble) where
  -- The argument is a bigint or a number.
  unfoldable pub of_quantity : IntExp → Result Hex
  unfolding of_uint skip_zeros new_hex
  of_quantity e =
      catch_as (invalid_data_type "Quantity.of")
        (do h ← of_uint noble e; ok (new_hex h.sign (or_zero (skip_zeros h.digits))))

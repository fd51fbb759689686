-- ===== src/Vcdm/ThorId.antt =====
-- packages/core/src/vcdm/ThorId.ts: 32-byte identifiers.
use vechain_sdk_js.Prelude.{ℕ, ◌+◌, Bool, ◌&&◌, length, ◌==◌, if◌then◌else◌}
use vechain_sdk_js.Result.{Result, ok, err, invalid_data_type, ◌>>=◌}
use vechain_sdk_js.Text.{Text}
use vechain_sdk_js.Noble.{Noble}
use vechain_sdk_js.Vcdm.Hex
use vechain_sdk_js.Vcdm.Hex.{positive, Hex, Exp, new_hex, has_hex_prefix, of, fit}

abbrev pub id_digits : ℕ
id_digits = 64

-- `ThorId.isValid`
unfoldable pub is_valid : Text → Bool
unfolding Hex.is_valid has_hex_prefix
is_valid s =
    if Hex.is_valid s && has_hex_prefix s then length s == id_digits + 2 else length s == id_digits

-- `ThorId.isValid0x`
unfoldable pub is_valid0x : Text → Bool
unfolding has_hex_prefix is_valid
is_valid0x s = has_hex_prefix s && is_valid s

-- The constructor.
unfoldable pub new_thor_id : Hex → Result Hex
unfolding is_valid new_hex
new_thor_id h =
    if is_valid h.digits
    then ok (new_hex positive h.digits)
    else err (invalid_data_type "ThorId.constructor")

-- `ThorId.of` on a `Hex`.
unfoldable pub of_hex : Hex → Result Hex
unfolding fit new_thor_id
of_hex h = do fitted ← fit id_digits h; new_thor_id fitted

-- `ThorId.of` on a bigint, a text or bytes.
unfoldable pub of_exp : Noble → Exp → Result Hex
unfolding of of_hex
of_exp noble e = do h ← of noble e; of_hex h

-- ===== src/Vcdm/Revision.antt =====
-- packages/core/src/vcdm/Revision.ts: which texts and numbers name a block.
use vechain_sdk_js.Prelude.{Bool, true, false, ◌||◌, pos}
use vechain_sdk_js.Text.{Text, codes, matches_integer, text_eq}
use vechain_sdk_js.Number.{Number, int}
use vechain_sdk_js.Vcdm.HexInt.{is_valid0x}

-- `REGEX_DECIMAL_REVISION`, `^(best|finalized|\d+)$`
unfoldable pub is_decimal_revision : Text → Bool
unfolding text_eq matches_integer
is_decimal_revision s =
    text_eq s (codes "best") || text_eq s (codes "finalized") || matches_integer s

-- `Revision.isValid` of a string
unfoldable pub is_valid_text : Text → Bool
unfolding is_valid0x is_decimal_revision
is_valid_text s = is_valid0x s || is_decimal_revision s

-- `Revision.isValid` of a number
unfoldable pub is_valid_number : Number → Bool
is_valid_number (int (pos n)) = true
is_valid_number _ = false

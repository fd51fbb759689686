-- ===== src/Tests/Paths.antt =====
-- Derivation paths at concrete inputs.
use vechain_sdk_js.Prelude.{◌≡◌, refl, ◌&&◌, ◌||◌, [], ◌∷◌}
use vechain_sdk_js.Text.{Text, codes}
use vechain_sdk_js.Derivation.{is_m, is_derivation_path_valid}
use vechain_sdk_js.Derivation.Joining.{
  has_no_slash, join, is_index, are_indexes, is_derivation_path_valid-join,
}

abbrev purpose : Text
purpose = codes "44'"

is_derivation_path_valid-join_example :
    is_derivation_path_valid (join (codes "m") (purpose ∷ codes "0" ∷ []))
    ≡ ((is_m (codes "m") || is_index (codes "m")) && are_indexes (purpose ∷ codes "0" ∷ []))
unfolding has_no_slash
is_derivation_path_valid-join_example =
    is_derivation_path_valid-join (codes "m") (purpose ∷ codes "0" ∷ []) refl (refl, (refl, tt))

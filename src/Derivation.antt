-- ===== src/Derivation.antt =====
-- packages/core/src/utils/hdnode/hdnode.ts: which texts are derivation paths.
pub mod Joining
use vechain_sdk_js.Prelude.{
  ℕ, zero, suc, Bool, true, false, ◌&&◌, ◌||◌, List, [], ◌∷◌, ◌==◌, if◌then◌else◌,
}
use vechain_sdk_js.Text.{Text, matches_integer}

-- `component === 'm'`
abbrev pub is_m : Text → Bool
is_m (c ∷ []) = c == b'm'
is_m _ = false

-- `component.slice(0, -1)`
unfoldable pub but_last : Text → Text
but_last [] = []
but_last (c ∷ []) = []
but_last (c ∷ d ∷ s) = c ∷ but_last (d ∷ s)

-- `component.endsWith("'")`
unfoldable pub ends_with_quote : Text → Bool
ends_with_quote [] = false
ends_with_quote (c ∷ []) = c == 39
ends_with_quote (c ∷ d ∷ s) = ends_with_quote (d ∷ s)

-- `_checkDerivationPathSingleComponentValid`
unfoldable pub check_derivation_path_single_component_valid : Text → ℕ → Bool
unfolding matches_integer but_last ends_with_quote
check_derivation_path_single_component_valid component index =
    (if index == 0 then is_m component else false)
    || matches_integer component
    || (matches_integer (but_last component) && ends_with_quote component)

-- `derivationPath.split('/')`, with the characters of the component that is being read in front.
abbrev pub into_first : ℕ → List Text → List Text
into_first c [] = (c ∷ []) ∷ []
into_first c (t ∷ ts) = (c ∷ t) ∷ ts

unfoldable pub split : Text → List Text
split [] = [] ∷ []
split (c ∷ s) = let rest = split s in if c == b'/' then [] ∷ rest else into_first c rest

-- The loop of `isDerivationPathValid`, from an index on.
unfoldable pub are_components_valid : ℕ → List Text → Bool
unfolding check_derivation_path_single_component_valid
are_components_valid index [] = true
are_components_valid index (t ∷ ts) =
    let rest = are_components_valid (suc index) ts in
    if check_derivation_path_single_component_valid t index then rest else false

-- `isDerivationPathValid`
unfoldable pub is_derivation_path_valid : Text → Bool
unfolding split are_components_valid
is_derivation_path_valid path = are_components_valid 0 (split path)

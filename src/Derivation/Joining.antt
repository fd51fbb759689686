-- ===== src/Derivation/Joining.antt =====
-- The components of a derivation path that is put together (utils/hdnode/hdnode.ts).
use vechain_sdk_js.Prelude.{
  ℕ, suc, ◌≡◌, refl, ap, ap₂, ◌∙◌, Bool, true, false, ◌&&◌, ◌||◌, List, [], ◌∷◌, ◌++◌, All, arith,
  ◌==◌, if◌then◌else◌,
}
use vechain_sdk_js.Text.{Text, is_digit, is_digits, matches_integer}
use vechain_sdk_js.Derivation.{
  is_m, but_last, ends_with_quote, check_derivation_path_single_component_valid, split,
  are_components_valid, is_derivation_path_valid,
}

-- No slash is in the text.
unfoldable pub has_no_slash : Text → Bool
has_no_slash [] = true
has_no_slash (c ∷ s) = (if c == b'/' then false else has_no_slash s)

-- `components.join('/')`, for one component at least
unfoldable pub join : Text → List Text → Text
join t [] = t
join t (u ∷ ts) = t ++ b'/' ∷ join u ts

distribute : (b x y e r : Bool) → (x || (y && e)) ≡ r → ((b && x) || ((b && y) && e)) ≡ (b && r)
distribute true x y e r h = h
distribute false x y e r h = refl

or_assoc : (a b c : Bool) → ((a || b) || c) ≡ (a || (b || c))
or_assoc a b c = ground arith

if_and : (b c : Bool) → (if b then c else false) ≡ (b && c)
if_and b c = ground arith

head_tail :
    (c : ℕ) (s : Text)
    → has_no_slash (c ∷ s) ≡ true
    → ((c == b'/') ≡ false) × (has_no_slash s ≡ true)
unfolding has_no_slash
head_tail c s h = ground arith

split-last : (t : Text) → has_no_slash t ≡ true → split t ≡ t ∷ []
unfolding split
split-last [] h = refl
split-last (c ∷ t) h = let (here, rest) = head_tail c t h in rw (split-last t rest, here) refl

split-append : (t s : Text) → has_no_slash t ≡ true → split (t ++ b'/' ∷ s) ≡ t ∷ split s
unfolding split
split-append [] s h = refl
split-append (c ∷ t) s h =
    let (here, rest) = head_tail c t h in rw (split-append t s rest, here) refl

abbrev pub HasNoSlash : Text → Type 0
HasNoSlash t = has_no_slash t ≡ true

split-join :
    (t : Text) (ts : List Text) → HasNoSlash t → All HasNoSlash ts → split (join t ts) ≡ t ∷ ts
unfolding join
split-join t [] h k = split-last t h
split-join t (u ∷ ts) h k = split-append t (join u ts) h ∙ ap (λ r. t ∷ r) (split-join u ts k.0 k.1)

-- An index of a path: one digit at least, and a quote at the end or none.
unfoldable pub is_rest_of_index : Text → Bool
is_rest_of_index [] = true
is_rest_of_index (c ∷ []) = is_digit c || (c == 39)
is_rest_of_index (c ∷ d ∷ s) = is_digit c && is_rest_of_index (d ∷ s)

unfoldable pub is_index : Text → Bool
unfolding is_rest_of_index
is_index [] = false
is_index (c ∷ s) = is_digit c && is_rest_of_index s

unfoldable pub are_indexes : List Text → Bool
unfolding is_index
are_indexes [] = true
are_indexes (t ∷ ts) = is_index t && are_indexes ts

-- The two tests of a component by the code, on what follows its first digit.
is_rest_of_index-eq :
    (s : Text) → (is_digits s || (is_digits (but_last s) && ends_with_quote s)) ≡ is_rest_of_index s
unfolding is_rest_of_index is_digits but_last ends_with_quote
is_rest_of_index-eq [] = refl
is_rest_of_index-eq (c ∷ []) = ground arith
is_rest_of_index-eq (c ∷ d ∷ s) = distribute (is_digit c) _ _ _ _ (is_rest_of_index-eq (d ∷ s))

is_index-eq :
    (t : Text)
    → (matches_integer t || (matches_integer (but_last t) && ends_with_quote t)) ≡ is_index t
unfolding is_index is_rest_of_index matches_integer is_digits but_last ends_with_quote
is_index-eq [] = refl
is_index-eq (c ∷ []) = ground arith
is_index-eq (c ∷ d ∷ s) = distribute (is_digit c) _ _ _ _ (is_rest_of_index-eq (d ∷ s))

check-later :
    (n : ℕ) (t : Text) → check_derivation_path_single_component_valid t (suc n) ≡ is_index t
unfolding check_derivation_path_single_component_valid
check-later n t = let e : (suc n == 0) ≡ false = ground arith in rw e (is_index-eq t)

check-first : (t : Text) → check_derivation_path_single_component_valid t 0 ≡ (is_m t || is_index t)
unfolding check_derivation_path_single_component_valid
check-first t =
    or_assoc (is_m t) (matches_integer t) (matches_integer (but_last t) && ends_with_quote t)
    ∙ ap (λ b. is_m t || b) (is_index-eq t)

are_components_valid-later :
    (n : ℕ) (ts : List Text) → are_components_valid (suc n) ts ≡ are_indexes ts
unfolding are_components_valid are_indexes
are_components_valid-later n [] = refl
are_components_valid-later n (t ∷ ts) =
    ap₂ (λ b c. if b then c else false) (check-later n t) (are_components_valid-later (suc n) ts)
    ∙ if_and (is_index t) (are_indexes ts)

-- A path that is put together of components with no slash is valid exactly where its first component is
-- an index or the letter m, and each other one is an index: digits, one at least, and a quote or none.
pub is_derivation_path_valid-join :
    (t : Text) (ts : List Text)
    → HasNoSlash t
    → All HasNoSlash ts
    → is_derivation_path_valid (join t ts) ≡ ((is_m t || is_index t) && are_indexes ts)
unfolding is_derivation_path_valid are_components_valid
is_derivation_path_valid-join t ts h k =
    ap (are_components_valid 0) (split-join t ts h k)
    ∙ ap₂ (λ b c. if b then c else false) (check-first t) (are_components_valid-later 0 ts)
    ∙ if_and (is_m t || is_index t) (are_indexes ts)

-- ===== src/ThorClient/Sets.antt =====
-- Sets of addresses as lists in the order of insertion (blocks/blocks-module.ts).
use vechain_sdk_js.Prelude.{
  ◌≡◌, refl, ap, sym, ◌∙◌, subst, Bool, true, false, ◌||◌, Bool-cases, inl, inr, List, [], ◌∷◌,
  ◌++◌, arith,
}
use vechain_sdk_js.Text.{Text, text_eq}
use vechain_sdk_js.Text.Equality.{text_eq-false, eq_of-text_eq}
use vechain_sdk_js.ThorClient.Blocks.{has, add}

-- No value stands twice in a list.
unfoldable pub IsDistinct : List Text → Type 0
IsDistinct [] = Unit
IsDistinct (x ∷ xs) = (has x xs ≡ false) × IsDistinct xs

-- To add all values of a list.
unfoldable pub add_all : List Text → List Text → List Text
add_all set [] = set
add_all set (x ∷ xs) = add_all (add set x) xs

pub add_all-append : (set xs ys : List Text) → add_all set (xs ++ ys) ≡ add_all (add_all set xs) ys
unfolding add_all
add_all-append set [] ys = refl
add_all-append set (x ∷ xs) ys = add_all-append (add set x) xs ys

has-append : (x : Text) (xs ys : List Text) → has x (xs ++ ys) ≡ (has x xs || has x ys)
unfolding has
has-append x [] ys = refl
has-append x (z ∷ xs) ys = ground (arith, has-append x xs ys)

or_false : (a : Bool) → (a || false) ≡ a
or_false a = ground arith

-- To add a value makes it, and no other, a member.
has-add : (x y : Text) (set : List Text) → has x (add set y) ≡ (has x set || text_eq y x)
unfolding add has
has-add x y set = elim (Bool-cases (has y set)) [
  | inl there ↦ rw there (elim (Bool-cases (text_eq y x)) [
    | inl same ↦
        let member = subst (λ z. has z set ≡ true) (eq_of-text_eq y x same) there in
        rw (same, member) refl
    | inr differ ↦ rw differ (sym (or_false (has x set)))
  ])
  | inr new ↦ rw new (has-append x set (y ∷ []) ∙ ap (λ b. has x set || b) (or_false (text_eq y x)))
]

or_parts : (a b : Bool) → (a || b) ≡ false → (a ≡ false) × (b ≡ false)
or_parts a b h = ground arith

append-IsDistinct :
    (x : Text) (set : List Text) → has x set ≡ false → IsDistinct set → IsDistinct (set ++ x ∷ [])
unfolding IsDistinct has
append-IsDistinct x [] new h = (refl, tt)
append-IsDistinct x (z ∷ set) new h =
    let (differ, rest) = or_parts (text_eq z x) (has x set) new in
    (
      has-append z set (x ∷ []) ∙ rw (h.0, text_eq-false z x differ) refl,
      append-IsDistinct x set rest h.1,
    )

add-IsDistinct : (x : Text) (set : List Text) → IsDistinct set → IsDistinct (add set x)
unfolding add
add-IsDistinct x set h = elim (Bool-cases (has x set)) [
  | inl there ↦ rw there h
  | inr new ↦ rw new (append-IsDistinct x set new h)
]

pub add_all-IsDistinct : (set xs : List Text) → IsDistinct set → IsDistinct (add_all set xs)
unfolding add_all
add_all-IsDistinct set [] h = h
add_all-IsDistinct set (x ∷ xs) h = add_all-IsDistinct (add set x) xs (add-IsDistinct x set h)

or_assoc : (a b c : Bool) → ((a || b) || c) ≡ (a || (b || c))
or_assoc a b c = ground arith

pub has-add_all : (x : Text) (set xs : List Text) → has x (add_all set xs) ≡ (has x set || has x xs)
unfolding add_all has
has-add_all x set [] = sym (or_false (has x set))
has-add_all x set (y ∷ xs) =
    has-add_all x (add set y) xs
    ∙ ap (λ b. b || has x xs) (has-add x y set)
    ∙ or_assoc (has x set) (text_eq y x) (has x xs)

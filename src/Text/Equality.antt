-- ===== src/Text/Equality.antt =====
-- The test of equality of two texts decides it.
use vechain_sdk_js.Prelude.{◌≡◌, refl, subst, true, false, Bool-cases, inl, inr, [], ◌∷◌, arith}
use vechain_sdk_js.Text.{Text, text_eq}

pub text_eq_refl : (s : Text) → text_eq s s ≡ true
unfolding text_eq
text_eq_refl [] = refl
text_eq_refl (c ∷ s) = ground (arith, text_eq_refl s)

pub eq_of-text_eq : (s t : Text) → text_eq s t ≡ true → s ≡ t
unfolding text_eq
eq_of-text_eq [] [] h = refl
eq_of-text_eq [] (b ∷ t) h = cc
eq_of-text_eq (a ∷ s) [] h = cc
eq_of-text_eq (a ∷ s) (b ∷ t) h = ground (arith, eq_of-text_eq s t)

pub text_eq-false : (s t : Text) → text_eq s t ≡ false → text_eq t s ≡ false
text_eq-false s t h = elim (Bool-cases (text_eq t s)) [
  | inl same ↦
      let refl' = subst (λ z. text_eq z t ≡ true) (eq_of-text_eq t s same) (text_eq_refl t) in
      cc (refl', h)
  | inr differ ↦ differ
]

-- ===== src/Text/Positional.antt =====
-- `toString(16)` of a bigint, and the bytes of a number: digits in a base, most significant first.
use native.Mathlib.Nat.{div-add-mod, div-add-mod', mod-lt}
use vechain_sdk_js.Prelude.{
  ℕ, zero, suc, ◌+◌, ◌*◌, ◌/◌, ◌%◌, ◌≤◌, ◌<◌, ◌≡◌, ap, ◌∙◌, List, [], ◌∷◌, map, All, arith, ◌==◌,
  if◌then◌else◌, Bool-cases, inl, inr,
}
use vechain_sdk_js.Text.{Text, Bytes, hex_digit}

-- A round for each digit; a number below 2 ^ k has at most k digits, and `n` rounds are enough.
digits_go : ℕ → ℕ → ℕ → List ℕ → List ℕ
digits_go zero b n acc = acc
digits_go (suc f) b n acc =
    let rest = digits_go f b (n / b) ((n % b) ∷ acc) in if n == 0 then acc else rest

-- No digit for 0.
unfoldable pub digits_of : ℕ → ℕ → List ℕ
unfolding digits_go
digits_of b n = digits_go n b n []

unfoldable pub value_from : ℕ → ℕ → List ℕ → ℕ
value_from b acc [] = acc
value_from b acc (d ∷ ds) = value_from b (acc * b + d) ds

unfoldable pub be_bytes : ℕ → Bytes
be_bytes n = digits_of 256 n

unfoldable pub be_value : Bytes → ℕ
be_value bs = value_from 256 0 bs

-- `n.toString(16)`
unfoldable pub to_string16 : ℕ → Text
to_string16 n = if n == 0 then b'0' ∷ [] else map hex_digit (digits_of 16 n)

quotient_lt : (f n b : ℕ) → 2 ≤ b → n ≤ suc f → n / b ≤ f
quotient_lt f n b h p = grind (arith, div-add-mod n b)

value_from-digits_go :
    (f b n : ℕ) (acc : List ℕ)
    → 2 ≤ b
    → n ≤ f
    → value_from b 0 (digits_go f b n acc) ≡ value_from b n acc
unfolding digits_go value_from
value_from-digits_go zero b n acc h p = ap (λ t. value_from b t acc) (omega arith)
value_from-digits_go (suc f) b n acc h p = elim (Bool-cases (n == 0)) [
  | inl done ↦ rw done (ap (λ t. value_from b t acc) (ground arith))
  | inr more ↦ rw more (
      value_from-digits_go f b (n / b) ((n % b) ∷ acc) h (quotient_lt f n b h p)
      ∙ ap (λ t. value_from b t acc) (div-add-mod' n b))
]

-- The digits of a number stand for it.
pub value_from-digits_of : (b n : ℕ) → 2 ≤ b → value_from b 0 (digits_of b n) ≡ n
unfolding digits_of value_from
value_from-digits_of b n h = value_from-digits_go n b n [] h (omega arith)

All-digits_go :
    (f b n : ℕ) (acc : List ℕ)
    → 2 ≤ b
    → All (λ d. d < b) acc
    → All (λ d. d < b) (digits_go f b n acc)
unfolding digits_go
All-digits_go zero b n acc h k = k
All-digits_go (suc f) b n acc h k = elim (Bool-cases (n == 0)) [
  | inl done ↦ rw done k
  | inr more ↦ rw more (All-digits_go f b (n / b) ((n % b) ∷ acc) h (mod-lt n (omega arith), k))
]

pub All-digits_of : (b n : ℕ) → 2 ≤ b → All (λ d. d < b) (digits_of b n)
unfolding digits_of
All-digits_of b n h = All-digits_go n b n [] h tt

-- The first element is there and is not 0.
abbrev pub HasNonZeroHead : List ℕ → Type 0
HasNonZeroHead [] = ⊥
HasNonZeroHead (d ∷ ds) = 0 < d

quotient_pos : (n b : ℕ) → 2 ≤ b → 0 < n → n / b ≡ 0 → 0 < n % b
quotient_pos n b h p e = grind (arith, div-add-mod n b)

HasNonZeroHead-digits_go :
    (f b n : ℕ) (acc : List ℕ)
    → 2 ≤ b
    → n ≤ f
    → (n ≡ 0 → HasNonZeroHead acc)
    → HasNonZeroHead (digits_go f b n acc)
unfolding digits_go
HasNonZeroHead-digits_go zero b n acc h p k = k (omega arith)
HasNonZeroHead-digits_go (suc f) b n acc h p k = elim (Bool-cases (n == 0)) [
  | inl done ↦ rw done (k (ground arith))
  | inr more ↦ rw more (
      HasNonZeroHead-digits_go f b (n / b) ((n % b) ∷ acc) h (quotient_lt f n b h p)
        (quotient_pos n b h (ground arith)))
]

pub HasNonZeroHead-digits_of : (b n : ℕ) → 2 ≤ b → 0 < n → HasNonZeroHead (digits_of b n)
unfolding digits_of
HasNonZeroHead-digits_of b n h p =
    HasNonZeroHead-digits_go n b n [] h (omega arith) (λ e. absurd (omega arith))

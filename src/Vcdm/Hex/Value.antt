-- ===== src/Vcdm/Hex/Value.antt =====
-- The number that the digits of a `Hex` stand for, through the operations on digits of vcdm/Hex.ts.
use vechain_sdk_js.Prelude.{
  ℕ, zero, suc, ◌+◌, ◌-◌, ◌*◌, ◌%◌, ◌≤◌, ◌≡◌, refl, ap, ◌∙◌, true, false, [], ◌∷◌, ◌++◌, length,
  replicate, All, arith, ◌==◌, ==_iff, Bool-cases, inl, inr, ltb, length-append, length-replicate,
}
use vechain_sdk_js.Result.{ok}
use vechain_sdk_js.Text.{
  Text, Bytes, to_lower, to_lower_case, is_hex_digit, is_hex_digits, digit_value, hex_value_from,
  buffer_from_hex,
}
use vechain_sdk_js.Text.Positional.{value_from}
use vechain_sdk_js.Text.Bytes.{
  IsByte, HasEvenLength, first_two, length-buffer_from_hex, All-buffer_from_hex,
}
use vechain_sdk_js.Noble.{Noble}
use vechain_sdk_js.Vcdm.Hex.{Hex, new_hex, align_to_bytes, fit, to_bytes}

pub length-to_lower_case : (s : Text) → length (to_lower_case s) ≡ length s
unfolding to_lower_case
length-to_lower_case [] = refl
length-to_lower_case (c ∷ s) = ap suc (length-to_lower_case s)

lower_digit :
    (c : ℕ)
    → is_hex_digit c ≡ true
    → (is_hex_digit (to_lower c) ≡ true) × (digit_value (to_lower c) ≡ digit_value c)
lower_digit c h = ground arith

first_digit :
    (c : ℕ) (s : Text)
    → is_hex_digits (c ∷ s) ≡ true
    → (is_hex_digit c ≡ true) × (is_hex_digits s ≡ true)
unfolding is_hex_digits
first_digit c s h = ground arith

pub is_hex_digits-to_lower_case :
    (s : Text) → is_hex_digits s ≡ true → is_hex_digits (to_lower_case s) ≡ true
unfolding is_hex_digits to_lower_case
is_hex_digits-to_lower_case [] h = refl
is_hex_digits-to_lower_case (c ∷ s) h =
    let (hc, hs) = first_digit c s h in rw ((lower_digit c hc).0) (is_hex_digits-to_lower_case s hs)

pub hex_value_from-to_lower_case :
    (acc : ℕ) (s : Text)
    → is_hex_digits s ≡ true
    → hex_value_from acc (to_lower_case s) ≡ hex_value_from acc s
unfolding hex_value_from to_lower_case
hex_value_from-to_lower_case acc [] h = refl
hex_value_from-to_lower_case acc (c ∷ s) h =
    let (hc, hs) = first_digit c s h in
    ap (λ d. hex_value_from (acc * 16 + d) (to_lower_case s)) ((lower_digit c hc).1)
    ∙ hex_value_from-to_lower_case (acc * 16 + digit_value c) s hs

-- Two digits at a time, or a byte at a time.
pub value_from-buffer_from_hex :
    (acc : ℕ) (s : Text)
    → is_hex_digits s ≡ true
    → HasEvenLength s
    → value_from 256 acc (buffer_from_hex s) ≡ hex_value_from acc s
unfolding value_from buffer_from_hex hex_value_from
value_from-buffer_from_hex acc [] h e = refl
value_from-buffer_from_hex acc (c ∷ []) h e = ground arith
value_from-buffer_from_hex acc (c ∷ d ∷ s) h e =
    let (hc, hd, hs) = first_two c d s h in
    let here : acc * 256 + (digit_value c * 16 + digit_value d)
        ≡ (acc * 16 + digit_value c) * 16 + digit_value d =
      omega arith in
    rw (hc, hd, here)
      (value_from-buffer_from_hex ((acc * 16 + digit_value c) * 16 + digit_value d) s hs
        (omega (arith, e)))

-- Zeros in front change nothing.
pub hex_value_from-zeros :
    (n : ℕ) (s : Text) → hex_value_from 0 (replicate n b'0' ++ s) ≡ hex_value_from 0 s
unfolding hex_value_from
hex_value_from-zeros zero s = refl
hex_value_from-zeros (suc n) s = hex_value_from-zeros n s

pub is_hex_digits-zeros :
    (n : ℕ) (s : Text) → is_hex_digits s ≡ true → is_hex_digits (replicate n b'0' ++ s) ≡ true
unfolding is_hex_digits
is_hex_digits-zeros zero s h = h
is_hex_digits-zeros (suc n) s h = is_hex_digits-zeros n s h

abbrev pub value : Hex → ℕ
value h = hex_value_from 0 h.digits

-- Digits, and none but digits.
abbrev pub HasDigits : Hex → Type 0
HasDigits h = is_hex_digits h.digits ≡ true

-- The digits of `alignToBytes` are whole bytes of the same value.
pub record IsAligned (h : Hex) (s : Text) : Type 0 where
  pub digits : is_hex_digits s ≡ true
  pub even : HasEvenLength s
  pub same : hex_value_from 0 s ≡ value h
  pub size : length s ≡ length h.digits + length h.digits % 2

align_to_bytes-IsAligned : (h : Hex) → HasDigits h → IsAligned h (align_to_bytes h).digits
unfolding align_to_bytes new_hex to_lower_case is_hex_digits hex_value_from
align_to_bytes-IsAligned h digits = elim (Bool-cases (length h.digits % 2 == 0)) [
  | inl e ↦
      let even = (==_iff (length h.digits % 2) 0).0 e in
      rw e (record { digits = digits; even = even; same = refl; size = omega (arith, even) })
  | inr e ↦
      let odd : length h.digits % 2 ≡ 1 = ground arith in
      let full = length-to_lower_case h.digits in
      rw e (record {
        digits = is_hex_digits-to_lower_case h.digits digits;
        even = omega (arith, odd, full);
        same = hex_value_from-to_lower_case 0 h.digits digits;
        size = omega (arith, odd, full);
      })
]

module _ (noble : Noble) where
  -- The bytes of a `Hex` have its value.
  pub to_bytes-value :
      (h : Hex)
      → HasDigits h
      → (bs : Bytes) × (to_bytes noble h ≡ ok bs)
        × (value_from 256 0 bs ≡ value h)
        × (2 * length bs ≡ length h.digits + length h.digits % 2)
        × (All IsByte bs)
  unfolding to_bytes
  to_bytes-value h digits =
      let s = (align_to_bytes h).digits in
      let a = align_to_bytes-IsAligned h digits in
      (
        buffer_from_hex s,
        noble.hex_to_bytes_lem s a.digits a.even,
        value_from-buffer_from_hex 0 s a.digits a.even ∙ a.same,
        length-buffer_from_hex s a.digits a.even ∙ a.size,
        All-buffer_from_hex s,
      )

-- What filling up to `n` digits gives: `n` digits of the same value, with the same sign.
pub record IsFitted (n : ℕ) (h r : Hex) : Type 0 where
  pub full : length r.digits ≡ n
  pub same : value r ≡ value h
  pub digits : HasDigits r
  pub sign : r.sign ≡ h.sign

-- A `Hex` of at most `n` hexadecimal digits is filled up to `n` digits, and keeps its value and
-- its sign; `fit` does not fail.
pub fit-value :
    (n : ℕ) (h : Hex)
    → HasDigits h
    → length h.digits ≤ n
    → (r : Hex) × (fit n h ≡ ok r) × IsFitted n h r
unfolding fit new_hex
fit-value n h digits le =
    let short : ltb n (length h.digits) ≡ false = ground arith in
    let zeros = n - length h.digits in
    let padded = replicate zeros b'0' ++ h.digits in
    let valid = is_hex_digits-zeros zeros h.digits digits in
    elim (Bool-cases (ltb (length h.digits) n)) [
      | inl e ↦
          rw (short, e)
            (
              new_hex h.sign padded,
              refl,
              record {
                full = omega (
                  arith,
                  le,
                  length-to_lower_case padded,
                  length-append (replicate zeros b'0') h.digits,
                  length-replicate {A = ℕ} zeros b'0',
                );
                same =
                    hex_value_from-to_lower_case 0 padded valid
                    ∙ hex_value_from-zeros zeros h.digits;
                digits = is_hex_digits-to_lower_case padded valid;
                sign = refl;
              },
            )
      | inr e ↦
          rw (short, e)
            (h, refl, record { full = ground arith; same = refl; digits = digits; sign = refl })
    ]

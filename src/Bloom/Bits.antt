-- ===== src/Bloom/Bits.antt =====
-- Bits of naturals: what `|` sets stays set.
use Prim.Native.Nat.{digits, bit_and, bit_or, bit_and-bitwise, bit_or-bitwise, min}
use vechain_sdk_js.Prelude.{
  ℕ, zero, suc, ◌+◌, ◌*◌, ◌/◌, ◌%◌, ◌^◌, ◌≤◌, ◌<◌, ◌≡◌, refl, ap, sym, ◌∙◌, max, arith,
}

-- The operations on binary digits are computed with enough rounds, whatever their number.
module _ (z : ℕ → ℕ) (f : ℕ → ℕ → ℕ) where
  rounds_zero : (n b : ℕ) → digits z f n 0 b ≡ z b
  rounds_zero zero b = refl
  rounds_zero (suc n) b = refl

  rounds : (n m a b : ℕ) → a ≤ n → a ≤ m → digits z f n a b ≡ digits z f m a b
  rounds n m zero b p q = rounds_zero n b ∙ sym (rounds_zero m b)
  rounds (suc n) (suc m) (suc a) b p q =
      ap (λ t. t * 2 + f (suc a % 2) (b % 2))
        (rounds n m (suc a / 2) (b / 2) (omega arith) (omega arith))
  rounds zero m (suc a) b p q = absurd (omega arith)
  rounds (suc n) zero (suc a) b p q = absurd (omega arith)

bit_or_step : (a b : ℕ) → bit_or a b ≡ bit_or (a / 2) (b / 2) * 2 + max (a % 2) (b % 2)
bit_or_step zero b = omega (arith, bit_or-bitwise 0 b, bit_or-bitwise 0 (b / 2))
bit_or_step (suc a) b =
    bit_or-bitwise (suc a) b
    ∙ ap (λ t. t * 2 + max (suc a % 2) (b % 2))
        (rounds (λ x. x) max a (suc a / 2) (suc a / 2) (b / 2) (omega arith) (omega arith)
          ∙ sym (bit_or-bitwise (suc a / 2) (b / 2)))

bit_and_step : (a b : ℕ) → bit_and a b ≡ bit_and (a / 2) (b / 2) * 2 + min (a % 2) (b % 2)
bit_and_step zero b = omega (arith, bit_and-bitwise 0 b, bit_and-bitwise 0 (b / 2))
bit_and_step (suc a) b =
    bit_and-bitwise (suc a) b
    ∙ ap (λ t. t * 2 + min (suc a % 2) (b % 2))
        (rounds (λ x. zero) min a (suc a / 2) (suc a / 2) (b / 2) (omega arith) (omega arith)
          ∙ sym (bit_and-bitwise (suc a / 2) (b / 2)))

-- The bits of `m` are set in `a`.
abbrev pub Covers : ℕ → ℕ → Type 0
Covers a m = bit_and a m ≡ m

Covers-half : (a m : ℕ) → Covers a m → Covers (a / 2) (m / 2) × (m % 2 ≤ a % 2)
Covers-half a m h = (omega (arith, h, bit_and_step a m), omega (arith, h, bit_and_step a m))

Covers-double : (a m : ℕ) → Covers (a / 2) (m / 2) → m % 2 ≤ a % 2 → Covers a m
Covers-double a m h k = omega (arith, h, k, bit_and_step a m)

bit_or_half :
    (a b : ℕ) → (bit_or a b / 2 ≡ bit_or (a / 2) (b / 2)) × (bit_or a b % 2 ≡ max (a % 2) (b % 2))
bit_or_half a b = (omega (arith, bit_or_step a b), omega (arith, bit_or_step a b))

Covers-zero : (n a : ℕ) → a ≤ n → Covers a 0
Covers-zero n zero h = bit_and-bitwise 0 0
Covers-zero zero (suc a) h = absurd (omega arith)
Covers-zero (suc n) (suc a) h =
    Covers-double (suc a) 0 (Covers-zero n (suc a / 2) (omega arith)) (omega arith)

-- What `|` does not clear.
Covers-bit_or_left_in : (n a b m : ℕ) → m ≤ n → Covers a m → Covers (bit_or a b) m
Covers-bit_or_left_in n a b zero p h = Covers-zero (bit_or a b) (bit_or a b) (omega arith)
Covers-bit_or_left_in zero a b (suc m) p h = absurd (omega arith)
Covers-bit_or_left_in (suc n) a b (suc m) p h =
    let (half, low) = Covers-half a (suc m) h in
    let (half_or, low_or) = bit_or_half a b in
    let rest = Covers-bit_or_left_in n (a / 2) (b / 2) (suc m / 2) (omega arith) half in
    Covers-double (bit_or a b) (suc m) (rw half_or rest) (omega (arith, low, low_or))

pub Covers-bit_or_left : (a b m : ℕ) → Covers a m → Covers (bit_or a b) m
Covers-bit_or_left a b m h = Covers-bit_or_left_in m a b m (omega arith) h

-- What `|` sets.
Covers-bit_or_right_in : (n a m : ℕ) → m ≤ n → Covers (bit_or a m) m
Covers-bit_or_right_in n a zero p = Covers-zero (bit_or a 0) (bit_or a 0) (omega arith)
Covers-bit_or_right_in zero a (suc m) p = absurd (omega arith)
Covers-bit_or_right_in (suc n) a (suc m) p =
    let (half_or, low_or) = bit_or_half a (suc m) in
    let rest = Covers-bit_or_right_in n (a / 2) (suc m / 2) (omega arith) in
    Covers-double (bit_or a (suc m)) (suc m) (rw half_or rest) (omega (arith, low_or))

pub Covers-bit_or_right : (a m : ℕ) → Covers (bit_or a m) m
Covers-bit_or_right a m = Covers-bit_or_right_in m a m (omega arith)

pub bit_or-bound : (k a b : ℕ) → a < 2 ^ k → b < 2 ^ k → bit_or a b < 2 ^ k
bit_or-bound zero zero zero p q = omega arith
bit_or-bound zero (suc a) b p q = absurd (omega arith)
bit_or-bound zero zero (suc b) p q = absurd (omega arith)
bit_or-bound (suc k) a b p q =
    omega (arith, bit_or_step a b, bit_or-bound k (a / 2) (b / 2) (omega arith) (omega arith))

Covers-trans_in : (n a b m : ℕ) → m ≤ n → Covers a b → Covers b m → Covers a m
Covers-trans_in n a b zero p h k = Covers-zero a a (omega arith)
Covers-trans_in zero a b (suc m) p h k = absurd (omega arith)
Covers-trans_in (suc n) a b (suc m) p h k =
    let (half, low) = Covers-half a b h in
    let (half', low') = Covers-half b (suc m) k in
    Covers-double a (suc m) (Covers-trans_in n (a / 2) (b / 2) (suc m / 2) (omega arith) half half')
      (omega (arith, low, low'))

pub Covers-trans : (a b m : ℕ) → Covers a b → Covers b m → Covers a m
Covers-trans a b m h k = Covers-trans_in m a b m (omega arith) h k

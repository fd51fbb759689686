-- ===== src/Bloom/Writing.antt =====
-- What the loops of vechain's Bloom filters write is found again (bloom/bloom.ts).
use Prim.Native.Nat.{bit_and, bit_or}
use native.Mathlib.Nat.{pow-le-pow_right, mod-lt}
use vechain_sdk_js.Prelude.{
  ℕ, zero, suc, ◌*◌, ◌/◌, ◌%◌, ◌^◌, ◌≤◌, ◌<◌, ◌≡◌, refl, ap, sym, ◌∙◌, subst, Bool, true, false,
  ◌&&◌, [], ◌∷◌, length, All, arith, ◌==◌, ==_iff,
}
use vechain_sdk_js.Text.{Bytes}
use vechain_sdk_js.Text.Bytes.{IsByte}
use vechain_sdk_js.Bloom.{
  Step, distribute_from, add_with_uint32_wrap, byte_at, set_bit, test_bit, write_bit,
}
use vechain_sdk_js.Bloom.Bits.{Covers, Covers-bit_or_left, Covers-bit_or_right, bit_or-bound}

-- Every byte of the one list has the bits of the other's.
pub record Extends (bits more : Bytes) : Type 0 where
  pub size : length more ≡ length bits
  pub covers : (i m : ℕ) → Covers (byte_at i bits) m → Covers (byte_at i more) m

pub Extends-refl : (bits : Bytes) → Extends bits bits
Extends-refl bits = record { size = refl; covers = λ i m h. h }

pub Extends-trans : (a b c : Bytes) → Extends a b → Extends b c → Extends a c
Extends-trans a b c f g = record {
  size = g.size ∙ f.size;
  covers = λ i m h. g.covers i m (f.covers i m h);
}

-- The bit that a byte is or-ed with is one of the byte's.
pub or_byte : (b bit : ℕ) → IsByte b → IsByte bit → bit_or b bit % 256 ≡ bit_or b bit
or_byte b bit p q = omega (arith, bit_or-bound 8 b bit p q)

length-set_bit : (i bit : ℕ) (bits : Bytes) → length (set_bit i bit bits) ≡ length bits
unfolding set_bit
length-set_bit i bit [] = refl
length-set_bit zero bit (b ∷ bs) = refl
length-set_bit (suc i) bit (b ∷ bs) = ap suc (length-set_bit i bit bs)

All-set_bit : (i bit : ℕ) (bits : Bytes) → All IsByte bits → All IsByte (set_bit i bit bits)
unfolding set_bit
All-set_bit i bit [] h = tt
All-set_bit zero bit (b ∷ bs) h = (omega arith, h.1)
All-set_bit (suc i) bit (b ∷ bs) h = (h.0, All-set_bit i bit bs h.1)

set_bit-Covers :
    (i bit : ℕ) (bits : Bytes) (j m : ℕ)
    → All IsByte bits
    → IsByte bit
    → Covers (byte_at j bits) m
    → Covers (byte_at j (set_bit i bit bits)) m
unfolding set_bit byte_at
set_bit-Covers i bit [] j m h p c = c
set_bit-Covers zero bit (b ∷ bs) zero m h p c =
    rw (or_byte b bit h.0 p) (Covers-bit_or_left b bit m c)
set_bit-Covers zero bit (b ∷ bs) (suc j) m h p c = c
set_bit-Covers (suc i) bit (b ∷ bs) zero m h p c = c
set_bit-Covers (suc i) bit (b ∷ bs) (suc j) m h p c = set_bit-Covers i bit bs j m h.1 p c

set_bit-Extends :
    (i bit : ℕ) (bits : Bytes) → All IsByte bits → IsByte bit → Extends bits (set_bit i bit bits)
set_bit-Extends i bit bits h p = record {
  size = length-set_bit i bit bits;
  covers = λ j m c. set_bit-Covers i bit bits j m h p c;
}

-- The bit that was written is there.
byte_at-set_bit :
    (i bit : ℕ) (bits : Bytes)
    → All IsByte bits
    → IsByte bit
    → i < length bits
    → Covers (byte_at i (set_bit i bit bits)) bit
unfolding set_bit byte_at
byte_at-set_bit i bit [] h p l = absurd (omega arith)
byte_at-set_bit zero bit (b ∷ bs) h p l = rw (or_byte b bit h.0 p) (Covers-bit_or_right b bit)
byte_at-set_bit (suc i) bit (b ∷ bs) h p l = byte_at-set_bit i bit bs h.1 p (omega arith)

IsByte-power : (j : ℕ) → j < 8 → IsByte (2 ^ j)
IsByte-power j h =
    let two : 0 < 2 = omega arith in
    let le : j ≤ 7 = omega arith in
    let below : 2 ^ j ≤ 2 ^ 7 = pow-le-pow_right two le in omega (arith, below)

-- The test of `contains` in some rounds.
abbrev pub IsFound : Bytes → ℕ → ℕ → ℕ → ℕ → Type 0
IsFound bits bit_count i hash delta =
    (distribute_from bit_count (test_bit bits) i hash delta tt).goes_on ≡ true

and-eq-true : (a b : Bool) → (a && b) ≡ true → (a ≡ true) × (b ≡ true)
and-eq-true a b h = ground arith

both :
    (t : Bool) (rest : Step (Unit {0}))
    → (elim t as (λ x. Step (Unit {0})) [
      | true ↦ rest
      | false ↦ record { state = tt; goes_on = t }
    ]).goes_on
      ≡ (t && rest.goes_on)
both true rest = refl
both false rest = refl

module _ (bits : Bytes) (bit_count i hash delta : ℕ) where
  abbrev index : ℕ
  index = hash % bit_count / 8

  abbrev bit : ℕ
  bit = 2 ^ (hash % bit_count % 8)

  abbrev rest : Step (Unit {0})
  rest = distribute_from bit_count (test_bit bits) i (add_with_uint32_wrap hash delta) delta tt

  IsFound-round :
      (distribute_from bit_count (test_bit bits) (suc i) hash delta tt).goes_on
      ≡ (bit_and (byte_at index bits) bit == bit && rest.goes_on)
  unfolding distribute_from
  IsFound-round = both (bit_and (byte_at index bits) bit == bit) rest

  IsFound-step :
      Covers (byte_at index bits) bit
      → rest.goes_on ≡ true
      → IsFound bits bit_count (suc i) hash delta
  IsFound-step c h = IsFound-round ∙ rw ((==_iff (bit_and (byte_at index bits) bit) bit).1 c) h

  IsFound-inv :
      IsFound bits bit_count (suc i) hash delta
      → Covers (byte_at index bits) bit × (rest.goes_on ≡ true)
  IsFound-inv h =
      let h' = sym IsFound-round ∙ h in
      let (c, r) = and-eq-true (bit_and (byte_at index bits) bit == bit) rest.goes_on h' in
      ((==_iff _ _).0 c, r)

-- What is found stays found where bits are added.
pub IsFound-Extends :
    (bits more : Bytes) (bit_count i hash delta : ℕ)
    → Extends bits more
    → IsFound bits bit_count i hash delta
    → IsFound more bit_count i hash delta
unfolding distribute_from
IsFound-Extends bits more bit_count zero hash delta e h = refl
IsFound-Extends bits more bit_count (suc i) hash delta e h =
    let (c, rest) = IsFound-inv bits bit_count i hash delta h in
    IsFound-step more bit_count i hash delta (e.covers _ _ c)
      (IsFound-Extends bits more bit_count i (add_with_uint32_wrap hash delta) delta e rest)

-- What the rounds that write leave behind.
pub record IsWritten (bits written : Bytes) (bit_count i hash delta : ℕ) : Type 0 where
  pub extends : Extends bits written
  pub valid : All IsByte written
  pub found : IsFound written bit_count i hash delta

position_lt : (hash n : ℕ) → 0 < n → hash % (n * 8) / 8 < n
position_lt hash n h = let positive : 0 < n * 8 = omega arith in omega (arith, mod-lt hash positive)

pub write-IsWritten :
    (bits : Bytes) (n i hash delta : ℕ)
    → All IsByte bits
    → length bits ≡ n
    → 0 < n
    → IsWritten bits
        (distribute_from (n * 8) write_bit i hash delta bits).state
        (n * 8)
        i
        hash
        delta
unfolding distribute_from
write-IsWritten bits n zero hash delta h e p = record {
  extends = Extends-refl bits;
  valid = h;
  found = refl;
}
write-IsWritten bits n (suc i) hash delta h e p =
    let index = hash % (n * 8) / 8 in
    let bit = 2 ^ (hash % (n * 8) % 8) in
    let is_byte = IsByte-power (hash % (n * 8) % 8) (omega arith) in
    let next = set_bit index bit bits in
    let first = set_bit-Extends index bit bits h is_byte in
    let r =
      write-IsWritten next n i (add_with_uint32_wrap hash delta) delta
        (All-set_bit index bit bits h) (first.size ∙ e) p in
    let written =
      (distribute_from (n * 8) write_bit i (add_with_uint32_wrap hash delta) delta next).state in
    let here =
      byte_at-set_bit index bit bits h is_byte
        (subst (λ k. index < k) (sym e) (position_lt hash n p)) in
    record {
      extends = Extends-trans bits next written first r.extends;
      valid = r.valid;
      found = IsFound-step written (n * 8) i hash delta (r.extends.covers index bit here) r.found;
    }

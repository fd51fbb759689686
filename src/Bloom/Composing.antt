-- ===== src/Bloom/Composing.antt =====
-- Composing Bloom filters, and the numbers of bits and rounds (bloom/bloom.ts).
use mathlib.Core.Path.{◌≡◌}
use Prim.Native.Nat.{bit_or}
use vechain_sdk_js.Prelude.{
  ℕ, zero, suc, ◌*◌, ◌≤◌, ◌⊎◌, inl, inr, refl, ap, sym, ◌∙◌, subst, true, [], ◌∷◌, length, All,
  arith, ◌==◌, ==_iff,
}
use vechain_sdk_js.Result.{ok, require-eq-ok, >>=-eq-ok}
use vechain_sdk_js.Text.{Bytes}
use vechain_sdk_js.Text.Bytes.{IsByte}
use vechain_sdk_js.Noble.{Noble}
use vechain_sdk_js.Crypto.{Crypto}
use vechain_sdk_js.Bloom.{
  Filter, distribute, delta_of, byte_at, merge_bits, compose, contains_hash, hash, contains,
  calculate_bits_per_key, calculate_k,
}
use vechain_sdk_js.Bloom.Bits.{Covers, Covers-bit_or_left, Covers-bit_or_right, Covers-trans}
use vechain_sdk_js.Bloom.Writing.{Extends, or_byte, IsFound, IsFound-Extends}

length-merge_bits : (bs cs : Bytes) → length (merge_bits bs cs) ≡ length bs
unfolding merge_bits
length-merge_bits [] cs = refl
length-merge_bits (b ∷ bs) [] = refl
length-merge_bits (b ∷ bs) (c ∷ cs) = ap suc (length-merge_bits bs cs)

merge_bits-left :
    (bs cs : Bytes) (i m : ℕ)
    → All IsByte bs
    → All IsByte cs
    → Covers (byte_at i bs) m
    → Covers (byte_at i (merge_bits bs cs)) m
unfolding merge_bits byte_at
merge_bits-left [] cs i m p q h = h
merge_bits-left (b ∷ bs) [] i m p q h = h
merge_bits-left (b ∷ bs) (c ∷ cs) zero m p q h =
    rw (or_byte b c p.0 q.0) (Covers-bit_or_left b c m h)
merge_bits-left (b ∷ bs) (c ∷ cs) (suc i) m p q h = merge_bits-left bs cs i m p.1 q.1 h

merge_bits-right :
    (bs cs : Bytes) (i m : ℕ)
    → All IsByte bs
    → All IsByte cs
    → length bs ≡ length cs
    → Covers (byte_at i cs) m
    → Covers (byte_at i (merge_bits bs cs)) m
unfolding merge_bits byte_at
merge_bits-right [] [] i m p q e h = h
merge_bits-right [] (c ∷ cs) i m p q e h = absurd (omega (arith, e))
merge_bits-right (b ∷ bs) [] i m p q e h = absurd (omega (arith, e))
merge_bits-right (b ∷ bs) (c ∷ cs) zero m p q e h =
    rw (or_byte b c p.0 q.0) (Covers-trans (bit_or b c) c m (Covers-bit_or_right b c) h)
merge_bits-right (b ∷ bs) (c ∷ cs) (suc i) m p q e h =
    merge_bits-right bs cs i m p.1 q.1 (omega (arith, e)) h

compose-eq-ok :
    (this other result : Filter)
    → compose this other ≡ ok result
    → (length this.bits ≡ length other.bits)
      × (this.k ≡ other.k)
      × (record { bits = merge_bits this.bits other.bits; k = this.k } ≡ result)
unfolding compose
compose-eq-ok this other result h =
    let (sizes, h₁) = require-eq-ok (length this.bits == length other.bits) _ _ _ h in
    let (rounds, h₂) = require-eq-ok (this.k == other.k) _ _ _ h₁ in
    ((==_iff _ _).0 sizes, (==_iff _ _).0 rounds, cc)

-- A filter with more bits, of the same size and number of rounds, contains what the other does.
contains_hash-Extends :
    (this more : Filter) (h : ℕ)
    → Extends this.bits more.bits
    → this.k ≡ more.k
    → contains_hash this h ≡ true
    → contains_hash more h ≡ true
unfolding contains_hash distribute
contains_hash-Extends this more h e same c =
    let found =
      IsFound-Extends this.bits more.bits (length this.bits * 8) this.k h (delta_of h) e c in
    subst (λ n. IsFound more.bits (n * 8) more.k h (delta_of h)) (sym e.size)
      (subst (λ j. IsFound more.bits (length this.bits * 8) j h (delta_of h)) same found)

module _ (noble : Noble) (crypto : Crypto) where
  contains-Extends :
      (this more : Filter) (key : Bytes)
      → Extends this.bits more.bits
      → this.k ≡ more.k
      → contains noble crypto this key ≡ ok true
      → contains noble crypto more key ≡ ok true
  unfolding contains
  contains-Extends this more key e same c =
      let (h, hashed, found) = >>=-eq-ok (hash noble crypto key) _ c in
      let found' : contains_hash this h ≡ true = cc in
      rw hashed (ap ok (contains_hash-Extends this more h e same found'))

  -- Composed filters contain every key that either contains.
  pub contains-compose :
      (this other result : Filter) (key : Bytes)
      → All IsByte this.bits
      → All IsByte other.bits
      → compose this other ≡ ok result
      → (contains noble crypto this key ≡ ok true) ⊎ (contains noble crypto other key ≡ ok true)
      → contains noble crypto result key ≡ ok true
  contains-compose this other result key p q h c =
      let (sizes, rounds, same) = compose-eq-ok this other result h in
      let merged = length-merge_bits this.bits other.bits in
      let composed : Filter = record { bits = merge_bits this.bits other.bits; k = this.k } in
      subst (λ f. contains noble crypto f key ≡ ok true) same
        (elim c [
          | inl c' ↦
              contains-Extends this composed key
                (record {
                  size = merged;
                  covers = λ i m. merge_bits-left this.bits other.bits i m p q;
                })
                refl c'
          | inr c' ↦
              contains-Extends other composed key
                (record {
                  size = merged ∙ sizes;
                  covers = λ i m. merge_bits-right this.bits other.bits i m p q sizes;
                })
                (sym rounds) c'
        ])

-- The rounds that are computed of the bits of a number of rounds are that number again, between 1
-- and 30.
pub calculate_k-calculate_bits_per_key :
    (k : ℕ) → 1 ≤ k → k ≤ 30 → calculate_k (calculate_bits_per_key k) ≡ k
unfolding calculate_k calculate_bits_per_key
calculate_k-calculate_bits_per_key k p q = ground arith

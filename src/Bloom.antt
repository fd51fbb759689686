-- ===== src/Bloom.antt =====
-- packages/core/src/bloom/bloom.ts: Bloom filters. Numbers are naturals; a hash is a 32-bit one.
pub mod Bits
pub mod Utils
pub mod AddressTexts
pub mod Addresses
pub mod Writing
pub mod Composing
pub mod Membership
use Prim.Native.Nat.{bit_and, bit_or}
use vechain_sdk_js.Prelude.{
  ℕ, zero, suc, ◌+◌, ◌-◌, ◌*◌, ◌/◌, ◌%◌, ◌^◌, Bool, true, false, not, ◌&&◌, ◌||◌, Option, none,
  some, List, [], ◌∷◌, length, replicate, take, get_elem?, ltb, leb, ◌==◌, if◌then◌else◌,
}
use vechain_sdk_js.Result.{Result, ok, invalid_data_type, require, ◌>>=◌, ◌>>◌}
use vechain_sdk_js.Text.{Bytes}
use vechain_sdk_js.Text.Positional.{be_value}
use vechain_sdk_js.Noble.{Noble}
use vechain_sdk_js.Crypto.{Crypto, hash_of}
use vechain_sdk_js.Vcdm.Hex.{to_bytes}

abbrev pub word : ℕ
word = 2 ^ 32

-- `addWithUInt32Wrap`
abbrev pub add_with_uint32_wrap : ℕ → ℕ → ℕ
add_with_uint32_wrap a b = (a + b) % word

-- `calculateBitsPerKey`; 0.69 is 69 / 100, and the quotient is rounded up.
unfoldable pub calculate_bits_per_key : ℕ → ℕ
calculate_bits_per_key k = if leb k 1 then 2 else if leb 30 k then 44 else (k * 100 + 68) / 69

-- `calculateK`
unfoldable pub calculate_k : ℕ → ℕ
calculate_k bits_per_key =
    let k = bits_per_key * 69 / 100 in if ltb k 1 then 1 else if ltb 30 k then 30 else k

-- `((hash >>> 17) | (hash << 15)) >>> 0`
abbrev pub delta_of : ℕ → ℕ
delta_of hash = bit_or (hash / 2 ^ 17) (hash * 2 ^ 15 % word)

-- What the callback of `distribute` returns, with the state that it keeps.
pub record Step {ℓ} (S : Type ℓ) : Type ℓ where
  pub state : S
  pub goes_on : Bool

module _ {ℓ} {S : Type ℓ} (bit_count : ℕ) (cb : ℕ → ℕ → S → Step S) where
  -- The loop of `distribute`, with the rounds that are left.
  unfoldable pub distribute_from : ℕ → ℕ → ℕ → S → Step S
  distribute_from zero hash delta s = record { state = s; goes_on = true }
  distribute_from (suc i) hash delta s =
      let next = cb (hash % bit_count / 8) (2 ^ (hash % bit_count % 8)) s in
      elim next.goes_on [
        | true ↦ distribute_from i (add_with_uint32_wrap hash delta) delta next.state
        | false ↦ next
      ]

  unfoldable pub distribute : ℕ → ℕ → S → Step S
  unfolding distribute_from
  distribute hash k s = distribute_from k hash (delta_of hash) s

pub record Filter : Type 0 where
  pub bits : Bytes
  pub k : ℕ

-- `bits[index]`; past the end, `undefined & bit` is 0.
unfoldable pub byte_at : ℕ → Bytes → ℕ
byte_at i [] = 0
byte_at zero (b ∷ bs) = b
byte_at (suc i) (b ∷ bs) = byte_at i bs

-- `bits[index] |= bit` of a `Uint8Array`; past the end, nothing is written.
unfoldable pub set_bit : ℕ → ℕ → Bytes → Bytes
set_bit i bit [] = []
set_bit zero bit (b ∷ bs) = bit_or b bit % 256 ∷ bs
set_bit (suc i) bit (b ∷ bs) = b ∷ set_bit i bit bs

-- `bits.map((bit, index) => bit | other.bits[index])`
unfoldable pub merge_bits : Bytes → Bytes → Bytes
merge_bits [] other = []
merge_bits (b ∷ bs) [] = b ∷ bs
merge_bits (b ∷ bs) (c ∷ cs) = bit_or b c % 256 ∷ merge_bits bs cs

-- `Filter.compose`
unfoldable pub compose : Filter → Filter → Result Filter
unfolding merge_bits
compose this other = do
  require (length this.bits == length other.bits) (invalid_data_type "Filter.compose()")
  require (this.k == other.k) (invalid_data_type "Filter.compose()")
  ok (record { bits = merge_bits this.bits other.bits; k = this.k })

-- `Filter.isComposableWith`
unfoldable pub is_composable_with : Filter → Filter → Bool
is_composable_with this other = this.k == other.k && length this.bits == length other.bits

-- The callback of `contains`.
abbrev pub test_bit : Bytes → ℕ → ℕ → Unit {0} → Step (Unit {0})
test_bit bits index bit u = record { state = tt; goes_on = bit_and (byte_at index bits) bit == bit }

-- The test of `contains`, for the hash of a key.
unfoldable pub contains_hash : Filter → ℕ → Bool
unfolding distribute byte_at
contains_hash filter hash =
    (distribute (length filter.bits * 8) (test_bit filter.bits) hash filter.k tt).goes_on

-- The callback of `generate`.
abbrev pub write_bit : ℕ → ℕ → Bytes → Step Bytes
write_bit index bit bits = record { state = set_bit index bit bits; goes_on = true }

-- The hashes of a `Generator`: the keys of the map, in the order in which they were added.
unfoldable pub add_hash : ℕ → List ℕ → List ℕ
add_hash hash [] = hash ∷ []
add_hash hash (h ∷ hashes) = if h == hash then h ∷ hashes else h ∷ add_hash hash hashes

-- The loop of `generate` over the hashes.
unfoldable pub write_hashes : ℕ → ℕ → List ℕ → Bytes → Bytes
unfolding distribute set_bit
write_hashes bit_count k [] bits = bits
write_hashes bit_count k (hash ∷ hashes) bits =
    write_hashes bit_count k hashes (distribute bit_count write_bit hash k bits).state

abbrev pub byte_count : ℕ → ℕ → ℕ
byte_count size bits_per_key = let n = (size * bits_per_key + 7) / 8 in if ltb n 8 then 8 else n

-- `Generator.generate`: the filter, and the map of hashes, which is cleared.
unfoldable pub generate : List ℕ → ℕ → ℕ → Filter × List ℕ
unfolding write_hashes
generate hashes bits_per_key k =
    let n = byte_count (length hashes) bits_per_key in
    (record { bits = write_hashes (n * 8) k hashes (replicate n 0); k = k }, [])

module _ (noble : Noble) (crypto : Crypto) where
  -- `hash`: the first four bytes of the digest
  unfoldable pub hash : Bytes → Result ℕ
  unfolding hash_of to_bytes
  hash key = do
    h ← hash_of noble crypto.blake2b key
    digest ← to_bytes noble h
    ok (be_value (take 4 digest))

  -- `Generator.add`
  unfoldable pub add : Bytes → List ℕ → Result (List ℕ)
  unfolding hash add_hash
  add key hashes = do h ← hash key; ok (add_hash h hashes)

  -- `Filter.contains`
  unfoldable pub contains : Filter → Bytes → Result Bool
  unfolding hash contains_hash
  contains filter key = do h ← hash key; ok (contains_hash filter h)

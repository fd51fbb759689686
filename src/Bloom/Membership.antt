-- ===== src/Bloom/Membership.antt =====
-- A filter contains the keys that it was generated of, and composing filters loses none.
use mathlib.Core.List.{Memᴰ}
use vechain_sdk_js.Prelude.{
  ℕ, ◌*◌, ◌≤◌, ◌<◌, ◌≡◌, inl, inr, refl, ap, sym, ◌∙◌, subst, true, List, [], ◌∷◌, length,
  replicate, length-replicate, All, All-replicate, arith, ◌==◌, ==_iff, Bool-cases,
}
use vechain_sdk_js.Result.{ok, >>=-eq-ok}
use vechain_sdk_js.Text.{Bytes}
use vechain_sdk_js.Text.Bytes.{IsByte}
use vechain_sdk_js.Noble.{Noble}
use vechain_sdk_js.Crypto.{Crypto}
use vechain_sdk_js.Bloom.{
  distribute, delta_of, byte_count, contains_hash, add_hash, write_bit, write_hashes, generate,
  hash, add, contains,
}
use vechain_sdk_js.Bloom.Utils.{add_all}
use vechain_sdk_js.Bloom.Writing.{
  Extends, Extends-refl, Extends-trans, IsFound, IsFound-Extends, write-IsWritten,
}

-- `Map.set` keeps the keys that are there, and adds its own.
add_hash-keeps : (h x : ℕ) (hashes : List ℕ) → Memᴰ x hashes → Memᴰ x (add_hash h hashes)
unfolding add_hash
add_hash-keeps h x [] m = elim m [ ]
add_hash-keeps h x (y ∷ ys) (Memᴰ.head e) = elim (Bool-cases (y == h)) [
  | inl q ↦ rw q (Memᴰ.head e)
  | inr q ↦ rw q (Memᴰ.head e)
]
add_hash-keeps h x (y ∷ ys) (Memᴰ.tail m) = elim (Bool-cases (y == h)) [
  | inl q ↦ rw q (Memᴰ.tail m)
  | inr q ↦ rw q (Memᴰ.tail (add_hash-keeps h x ys m))
]

add_hash-adds : (h : ℕ) (hashes : List ℕ) → Memᴰ h (add_hash h hashes)
unfolding add_hash
add_hash-adds h [] = Memᴰ.head refl
add_hash-adds h (y ∷ ys) = elim (Bool-cases (y == h)) [
  | inl q ↦ rw q (Memᴰ.head (sym ((==_iff y h).0 q)))
  | inr q ↦ rw q (Memᴰ.tail (add_hash-adds h ys))
]

-- After the loop of `generate` every hash is found.
record AreWritten (n k : ℕ) (hashes : List ℕ) (bits written : Bytes) : Type 0 where
  extends : Extends bits written
  valid : All IsByte written
  found : (h : ℕ) → Memᴰ h hashes → IsFound written (n * 8) k h (delta_of h)

write_hashes-AreWritten :
    (n k : ℕ) (hashes : List ℕ) (bits : Bytes)
    → All IsByte bits
    → length bits ≡ n
    → 0 < n
    → AreWritten n k hashes bits (write_hashes (n * 8) k hashes bits)
unfolding write_hashes distribute
write_hashes-AreWritten n k [] bits valid e p = record {
  extends = Extends-refl bits;
  valid = valid;
  found = λ h m. elim m [ ];
}
write_hashes-AreWritten n k (x ∷ hashes) bits valid e p =
    let w = write-IsWritten bits n k x (delta_of x) valid e p in
    let next = (distribute (n * 8) write_bit x k bits).state in
    let r = write_hashes-AreWritten n k hashes next w.valid (w.extends.size ∙ e) p in
    let last = write_hashes (n * 8) k hashes next in
    record {
      extends = Extends-trans bits next last w.extends r.extends;
      valid = r.valid;
      found = λ h m. elim m [
        | Memᴰ.head q ↦
            subst (λ y. IsFound last (n * 8) k y (delta_of y)) (sym q)
              (IsFound-Extends next last (n * 8) k x (delta_of x) r.extends w.found)
        | Memᴰ.tail m' ↦ r.found h m'
      ];
    }

byte_count_positive : (size bits_per_key : ℕ) → 0 < byte_count size bits_per_key
byte_count_positive size bits_per_key = ground arith

byte_count_lower : (size bits_per_key : ℕ) → 8 ≤ byte_count size bits_per_key
byte_count_lower size bits_per_key = ground arith

zero_bytes : (n : ℕ) → All IsByte (replicate n 0)
zero_bytes n = All-replicate IsByte n 0 (omega arith)

contains_hash-generate :
    (hashes : List ℕ) (bits_per_key k h : ℕ)
    → Memᴰ h hashes
    → contains_hash (generate hashes bits_per_key k).0 h ≡ true
unfolding contains_hash generate distribute
contains_hash-generate hashes bits_per_key k h m =
    let n = byte_count (length hashes) bits_per_key in
    let full = length-replicate n 0 in
    let w =
      write_hashes-AreWritten n k hashes (replicate n 0) (zero_bytes n) full
        (byte_count_positive (length hashes) bits_per_key) in
    let written = write_hashes (n * 8) k hashes (replicate n 0) in
    subst (λ l. IsFound written (l * 8) k h (delta_of h)) (sym (w.extends.size ∙ full))
      (w.found h m)

module _ (noble : Noble) (crypto : Crypto) where
  add_all-keeps :
      (keys : List Bytes) (hashes more : List ℕ) (h : ℕ)
      → add_all noble crypto keys hashes ≡ ok more
      → Memᴰ h hashes
      → Memᴰ h more
  unfolding add_all add
  add_all-keeps [] hashes more h e m = subst (Memᴰ h) (cc e) m
  add_all-keeps (key ∷ keys) hashes more h e m =
      let (next, added, e₁) = >>=-eq-ok (add noble crypto key hashes) _ e in
      let (x, hashed, same) = >>=-eq-ok (hash noble crypto key) _ added in
      let same' : add_hash x hashes ≡ next = cc in
      add_all-keeps keys next more h e₁ (subst (Memᴰ h) same' (add_hash-keeps x h hashes m))

  add_all-adds :
      (keys : List Bytes) (hashes more : List ℕ) (key : Bytes)
      → add_all noble crypto keys hashes ≡ ok more
      → Memᴰ key keys
      → (h : ℕ) × (hash noble crypto key ≡ ok h) × Memᴰ h more
  unfolding add_all add
  add_all-adds [] hashes more key e m = elim m [ ]
  add_all-adds (k ∷ keys) hashes more key e (Memᴰ.tail m) =
      let (next, added, e₁) = >>=-eq-ok (add noble crypto k hashes) _ e in
      add_all-adds keys next more key e₁ m
  add_all-adds (k ∷ keys) hashes more key e (Memᴰ.head q) =
      let (next, added, e₁) = >>=-eq-ok (add noble crypto k hashes) _ e in
      let (x, hashed, same) = >>=-eq-ok (hash noble crypto k) _ added in
      let same' : add_hash x hashes ≡ next = cc in
      (
        x,
        ap (hash noble crypto) q ∙ hashed,
        add_all-keeps keys next more x e₁ (subst (Memᴰ x) same' (add_hash-adds x hashes)),
      )

  -- No false negatives: a filter that is generated after some keys were added contains each of
  -- them, whatever the bits per key and the number of rounds.
  pub contains-generate :
      (keys : List Bytes) (hashes : List ℕ) (bits_per_key k : ℕ) (key : Bytes)
      → add_all noble crypto keys [] ≡ ok hashes
      → Memᴰ key keys
      → contains noble crypto (generate hashes bits_per_key k).0 key ≡ ok true
  unfolding contains
  contains-generate keys hashes bits_per_key k key e m =
      let (h, hashed, among) = add_all-adds keys [] hashes key e m in
      rw hashed (ap ok (contains_hash-generate hashes bits_per_key k h among))

-- A generated filter has at least eight bytes.
pub generate-IsByte :
    (hashes : List ℕ) (bits_per_key k : ℕ)
    → All IsByte (generate hashes bits_per_key k).0.bits
      × (8 ≤ length (generate hashes bits_per_key k).0.bits)
unfolding generate
generate-IsByte hashes bits_per_key k =
    let n = byte_count (length hashes) bits_per_key in
    let full = length-replicate n 0 in
    let w =
      write_hashes-AreWritten n k hashes (replicate n 0) (zero_bytes n) full
        (byte_count_positive (length hashes) bits_per_key) in
    let enough = byte_count_lower (length hashes) bits_per_key in
    (w.valid, subst (λ m. 8 ≤ m) (sym (w.extends.size ∙ full)) enough)

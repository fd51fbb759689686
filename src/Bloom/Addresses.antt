-- ===== src/Bloom/Addresses.antt =====
-- The addresses that a filter was made of are in it (utils/bloom/bloom.ts).
use mathlib.Core.List.{Memᴰ}
use vechain_sdk_js.Prelude.{
  ℕ, suc, ◌≤◌, ◌≡◌, refl, sym, ◌∙◌, subst, Bool, true, false, pos, List, [], ◌∷◌, length, All,
  Bool-cases, inl, inr, if◌then◌else◌,
}
use vechain_sdk_js.Result.{ok, >>=-eq-ok}
use vechain_sdk_js.Text.{Text, Bytes, hex_of_bytes}
use vechain_sdk_js.Text.Bytes.{IsByte}
use vechain_sdk_js.Number.{int}
use vechain_sdk_js.Noble.{Noble}
use vechain_sdk_js.Crypto.{Crypto}
use vechain_sdk_js.Vcdm.Hex.{Hex, of_text, to_text, to_bytes}
use vechain_sdk_js.Vcdm.Hex.RoundTrip.{to_bytes-hex_of_bytes}
use vechain_sdk_js.Vcdm.Address
use vechain_sdk_js.Bloom.{calculate_bits_per_key, generate, contains}
use vechain_sdk_js.Bloom.Membership.{contains-generate, generate-IsByte}
use vechain_sdk_js.Bloom.Utils.{keys_of, add_all, filter_of, is_in_bloom, is_address_in_bloom}
use vechain_sdk_js.Bloom.AddressTexts.{
  of_text-hex_of_bytes, is_bloom-hex_of_bytes, valid_address, address-is_valid,
}

if_true {ℓ} : {A : Type ℓ} (b : Bool) (x y : A) → b ≡ true → (if b then x else y) ≡ x
if_true true x y h = refl
if_true false x y h = cc

if_false {ℓ} : {A : Type ℓ} (b : Bool) (x y : A) → b ≡ false → (if b then x else y) ≡ y
if_false false x y h = refl
if_false true x y h = cc

ok-injective {ℓ} : {A : Type ℓ} (x y : A) → ok x ≡ ok y → x ≡ y
ok-injective x y h = cc

module _ (noble : Noble) where
  -- The key of an address that is taken, and those of the rest.
  record HasKey (h : Hex) (addresses : List Text) (keys : List Bytes) : Type 0 where
    key : Bytes
    more : List Bytes
    read : to_bytes noble h ≡ ok key
    rest : keys_of noble addresses ≡ ok more
    same : key ∷ more ≡ keys

  keys_of-taken :
      (a : Text) (h : Hex) (addresses : List Text) (keys : List Bytes)
      → of_text a ≡ ok h
      → Address.is_valid (to_text h) ≡ true
      → keys_of noble (a ∷ addresses) ≡ ok keys
      → HasKey h addresses keys
  unfolding keys_of
  keys_of-taken a h addresses keys read valid e =
      let (h', read', e₁) = >>=-eq-ok (of_text a) _ e in
      let same_hex = ok-injective h h' (sym read ∙ read') in
      let valid' = subst (λ x. Address.is_valid (to_text x) ≡ true) same_hex valid in
      let e₂ = sym (if_true (Address.is_valid (to_text h')) _ _ valid') ∙ e₁ in
      let (key, bytes_are, e₃) = >>=-eq-ok (to_bytes noble h') _ e₂ in
      let (more, rest, e₄) = >>=-eq-ok (keys_of noble addresses) _ e₃ in
      record {
        key = key;
        more = more;
        read = subst (λ x. to_bytes noble x ≡ ok key) (sym same_hex) bytes_are;
        rest = rest;
        same = ok-injective (key ∷ more) keys e₄;
      }

  keys_of-passed :
      (a : Text) (h : Hex) (addresses : List Text) (keys : List Bytes)
      → of_text a ≡ ok h
      → Address.is_valid (to_text h) ≡ false
      → keys_of noble (a ∷ addresses) ≡ ok keys
      → keys_of noble addresses ≡ ok keys
  unfolding keys_of
  keys_of-passed a h addresses keys read invalid e =
      let (h', read', e₁) = >>=-eq-ok (of_text a) _ e in
      let same_hex = ok-injective h h' (sym read ∙ read') in
      let invalid' = subst (λ x. Address.is_valid (to_text x) ≡ false) same_hex invalid in
      sym (if_false (Address.is_valid (to_text h')) _ _ invalid') ∙ e₁

  read_first :
      (a : Text) (addresses : List Text) (keys : List Bytes)
      → keys_of noble (a ∷ addresses) ≡ ok keys
      → (h : Hex) × (of_text a ≡ ok h)
  unfolding keys_of
  read_first a addresses keys e = let (h, read, e₁) = >>=-eq-ok (of_text a) _ e in (h, read)

  -- An address of the list gives a key.
  keys_of-Mem :
      (addresses : List Text) (keys : List Bytes) (address : Text) (h : Hex)
      → keys_of noble addresses ≡ ok keys
      → Memᴰ address addresses
      → of_text address ≡ ok h
      → Address.is_valid (to_text h) ≡ true
      → (key : Bytes) × (to_bytes noble h ≡ ok key) × Memᴰ key keys
  keys_of-Mem [] keys address h e m read valid = elim m [ ]
  keys_of-Mem (a ∷ addresses) keys address h e (Memᴰ.head q) read valid =
      let read' = subst (λ x. of_text x ≡ ok h) q read in
      let k = keys_of-taken a h addresses keys read' valid e in
      (k.key, k.read, subst (Memᴰ k.key) k.same (Memᴰ.head refl))
  keys_of-Mem (a ∷ addresses) keys address h e (Memᴰ.tail m) read valid =
      let (h', read') = read_first a addresses keys e in
      elim (Bool-cases (Address.is_valid (to_text h'))) [
        | inl v ↦
            let k = keys_of-taken a h' addresses keys read' v e in
            let (key, found, among) = keys_of-Mem addresses k.more address h k.rest m read valid in
            (key, found, subst (Memᴰ key) k.same (Memᴰ.tail among))
        | inr v ↦
            keys_of-Mem addresses keys address h (keys_of-passed a h' addresses keys read' v e) m
              read valid
      ]

  module _ (crypto : Crypto) where
    -- A text that `filterOf` returns tests an address as the filter does.
    is_in_bloom-bits :
        (bits : Bytes) (k : ℕ) (address : Text) (h : Hex) (key : Bytes)
        → All IsByte bits
        → 8 ≤ length bits
        → Address.is_valid address ≡ true
        → of_text address ≡ ok h
        → to_bytes noble h ≡ ok key
        → is_address_in_bloom noble crypto (hex_of_bytes bits) (int (pos (suc k))) address
          ≡ contains noble crypto (record { bits = bits; k = suc k }) key
    unfolding is_address_in_bloom is_in_bloom
    is_in_bloom-bits bits k address h key valid size is_address read bytes_are =
        rw
          (
            is_address,
            is_bloom-hex_of_bytes bits valid size,
            read,
            address-is_valid address is_address,
            of_text-hex_of_bytes bits valid,
            to_bytes-hex_of_bytes noble bits valid,
            bytes_are,
          )
          refl

    -- No false negatives: a valid address of the list is in the filter that `filterOf` makes of the
    -- list, for any positive number of rounds.
    pub is_address_in_bloom-filter_of :
        (addresses : List Text) (k : ℕ) (filter address : Text)
        → filter_of noble crypto addresses (suc k) ≡ ok filter
        → Memᴰ address addresses
        → Address.is_valid address ≡ true
        → is_address_in_bloom noble crypto filter (int (pos (suc k))) address ≡ ok true
    unfolding filter_of generate
    is_address_in_bloom-filter_of addresses k filter address e m valid =
        let (keys, e_keys, e₁) = >>=-eq-ok (keys_of noble addresses) _ e in
        let (hashes, e_hashes, e₂) = >>=-eq-ok (add_all noble crypto keys []) _ e₁ in
        let (h, read, valid') = valid_address address valid in
        let (key, bytes_are, among) = keys_of-Mem addresses keys address h e_keys m read valid' in
        let rounds = calculate_bits_per_key (suc k) in
        let bits = (generate hashes rounds (suc k)).0.bits in
        let (all_bytes, size) = generate-IsByte hashes rounds (suc k) in
        let same : hex_of_bytes bits ≡ filter =
          sym (noble.bytes_to_hex_lem bits all_bytes)
          ∙ ok-injective (noble.bytes_to_hex bits) filter e₂ in
        subst (λ f. is_address_in_bloom noble crypto f (int (pos (suc k))) address ≡ ok true) same
          (is_in_bloom-bits bits k address h key all_bytes size valid read bytes_are
            ∙ contains-generate noble crypto keys hashes rounds (suc k) key e_hashes among)

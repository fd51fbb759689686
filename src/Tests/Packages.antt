-- ===== src/Tests/Packages.antt =====
-- Concrete functions in the places of the packages, which keep what the model asks of each.
use vechain_sdk_js.Prelude.{
  ℕ, zero, suc, ◌+◌, ◌%◌, ◌≡◌, inl, refl, ap, Bool, true, false, List, [], ◌∷◌, replicate, All,
  All-replicate, arith, if◌then◌else◌, ◌==◌, length,
}
use vechain_sdk_js.Result.{Result, ok, err, malformed_rlp}
use vechain_sdk_js.Text.{Bytes, buffer_from_hex, hex_of_bytes, hex_value_from}
use vechain_sdk_js.Text.Bytes.{IsByte}
use vechain_sdk_js.Text.Positional.{be_bytes}
use vechain_sdk_js.Noble.{Noble}
use vechain_sdk_js.Crypto.{Crypto}
use vechain_sdk_js.Rlp.Value.{Packed, leaf, node, Parts, none_left, part}
use vechain_sdk_js.Rlp.Profiler.{RlpCodec}

abbrev pub test_noble : Noble
test_noble = record {
  bytes_to_hex = hex_of_bytes;
  hex_to_bytes = λ s. ok (buffer_from_hex s);
  hex_to_number = hex_value_from 0;
  number_to_hex_unpadded = λ n. if n == 0 then b'0' ∷ b'0' ∷ [] else hex_of_bytes (be_bytes n);
  bytes_to_hex_lem = λ bs h. refl;
  hex_to_bytes_lem = λ s h e. refl;
  hex_to_number_lem = λ s h. refl;
  number_to_hex_unpadded_lem = λ n. refl;
}

-- A digest and a key pair that depend on one byte of their input.
abbrev sum : Bytes → ℕ
sum [] = 0
sum (b ∷ bs) = b + sum bs

abbrev pub byte_of : Bytes → ℕ
byte_of b = sum b % 256

abbrev zeros : ℕ → Bytes
zeros n = replicate n 0

pub zeros-IsByte : (n : ℕ) → All IsByte (zeros n)
zeros-IsByte n = All-replicate IsByte n 0 (omega arith)

abbrev digest : Bytes → Bytes
digest b = byte_of b ∷ zeros 31

pub digest-IsByte : (b : Bytes) → All IsByte (digest b)
digest-IsByte b = (omega arith, zeros-IsByte 31)

abbrev public_key : Bytes → Bool → Bytes
public_key k true = 2 ∷ byte_of k ∷ zeros 31
public_key k false = 4 ∷ byte_of k ∷ zeros 63

abbrev uncompressed_of : Bytes → Result Bytes
uncompressed_of (b ∷ c ∷ bs) = ok (4 ∷ c ∷ zeros 63)
uncompressed_of _ = err malformed_rlp

abbrev recovered : Bytes → Result Bytes
recovered (b ∷ bs) = ok (4 ∷ b ∷ zeros 63)
recovered [] = err malformed_rlp

abbrev pub test_crypto : Crypto
test_crypto = record {
  blake2b = digest;
  keccak_256 = digest;
  is_valid_key = λ k. length k == 32;
  get_public_key = public_key;
  sign_hash = λ h k. record { compact = byte_of k ∷ zeros 63; recovery = 0 };
  recover_public_key = λ compact recovery h. recovered compact;
  decompress = uncompressed_of;
  blake2b-IsByte = digest-IsByte;
  length-blake2b = λ b. refl;
  keccak_256-IsByte = digest-IsByte;
  length-keccak_256 = λ b. refl;
  uncompressed = λ k. refl;
  uncompressed-IsByte = λ k. (omega arith, (omega arith, zeros-IsByte 63));
  compressed = λ k. inl refl;
  length-compressed = λ k. refl;
  decompress-compressed = λ k h. refl;
  length-compact = λ h k. refl;
  recover-sign = λ h k v. refl;
}

-- Nested buffers as one list, read from its end with a stack.
pub data Cell : Type 0 where
  open_bytes : Bytes → Cell
  one : Packed → Cell
  several : Parts → Cell

abbrev act : ℕ → List Cell → List Cell
act zero stack = open_bytes [] ∷ stack
act (suc zero) (open_bytes b ∷ stack) = one (leaf b) ∷ stack
act (suc zero) stack = []
act (suc (suc zero)) stack = several none_left ∷ stack
act (suc (suc (suc zero))) (one p ∷ several ps ∷ stack) = several (part p ps) ∷ stack
act (suc (suc (suc zero))) stack = []
act (suc (suc (suc (suc zero)))) (several ps ∷ stack) = one (node ps) ∷ stack
act (suc (suc (suc (suc zero)))) stack = []
act (suc (suc (suc (suc (suc b))))) (open_bytes bs ∷ stack) = open_bytes (b ∷ bs) ∷ stack
act (suc (suc (suc (suc (suc b))))) stack = []

abbrev read_back : Bytes → List Cell
read_back [] = []
read_back (t ∷ ts) = act t (read_back ts)

abbrev write_bytes : Bytes → Bytes → Bytes
write_bytes [] rest = 0 ∷ rest
write_bytes (b ∷ bs) rest = suc (suc (suc (suc (suc b)))) ∷ write_bytes bs rest

abbrev mutual
  write : Packed → Bytes → Bytes
  write (leaf b) rest = 1 ∷ write_bytes b rest
  write (node ps) rest = 4 ∷ write_parts ps rest

  write_parts : Parts → Bytes → Bytes
  write_parts none_left rest = 2 ∷ rest
  write_parts (part p ps) rest = 3 ∷ write p (write_parts ps rest)

read_back-bytes : (b rest : Bytes) → read_back (write_bytes b rest) ≡ open_bytes b ∷ read_back rest
read_back-bytes [] rest = refl
read_back-bytes (b ∷ bs) rest = rw (read_back-bytes bs rest) refl

mutual
  pub read_back-write :
      (p : Packed) (rest : Bytes) → read_back (write p rest) ≡ one p ∷ read_back rest
  read_back-write (leaf b) rest = rw (read_back-bytes b rest) refl
  read_back-write (node ps) rest = rw (read_back-write_parts ps rest) refl

  read_back-write_parts :
      (ps : Parts) (rest : Bytes) → read_back (write_parts ps rest) ≡ several ps ∷ read_back rest
  read_back-write_parts none_left rest = refl
  read_back-write_parts (part p ps) rest =
      rw (read_back-write p (write_parts ps rest), read_back-write_parts ps rest) refl

abbrev result_of : List Cell → Result Packed
result_of (one p ∷ []) = ok p
result_of _ = err malformed_rlp

abbrev pub test_codec : RlpCodec
test_codec = record {
  encode = λ p. write p [];
  decode = λ b. result_of (read_back b);
  decode-encode = λ p. ap result_of (read_back-write p []);
}

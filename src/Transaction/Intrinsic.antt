-- ===== src/Transaction/Intrinsic.antt =====
-- What the intrinsic gas of clauses amounts to (utils/transaction/transaction.ts).
use vechain_sdk_js.Prelude.{
  ℕ, ◌+◌, ◌*◌, ◌≡◌, refl, ap, ◌∙◌, Bool, true, false, ◌&&◌, ◌||◌, Option, none, some, List, [], ◌∷◌,
  drop, All, arith, ◌==◌, if◌then◌else◌,
}
use vechain_sdk_js.Result.{Result, ok, err, ◌>>=◌}
use vechain_sdk_js.Text.{
  Text, Bytes, is_hex_digits, is_hex_digit, digit_value, starts_with_tag, buffer_from_hex,
}
use vechain_sdk_js.Text.Bytes.{HasEvenLength, first_two}
use vechain_sdk_js.Vcdm.Hex
use vechain_sdk_js.Vcdm.Address
use vechain_sdk_js.Rlp.Blobs.{is_hex_digits-drop, length-drop_two}
use vechain_sdk_js.Transaction.Gas.{
  TransactionClause, includes_dot, sum_data_gas, is_empty, calculate_data_used_gas, recipient_gas,
  sum_gas, intrinsic_gas,
}

abbrev byte_cost : ℕ → ℕ
byte_cost b = if b == 0 then 4 else 68

abbrev pair_cost : ℕ → ℕ → ℕ
pair_cost c d = if c == b'0' && d == b'0' then 4 else 68

-- The gas of the bytes of a call: 4 for a zero byte and 68 for another one.
unfoldable pub bytes_gas : Bytes → ℕ
bytes_gas [] = 0
bytes_gas (b ∷ bs) = byte_cost b + bytes_gas bs

-- Two digits are both `0` exactly where the byte that they stand for is 0.
pair_gas :
    (c d : ℕ)
    → is_hex_digit c ≡ true
    → is_hex_digit d ≡ true
    → pair_cost c d ≡ byte_cost (digit_value c * 16 + digit_value d)
pair_gas c d h k = ground arith

sum_data_gas-bytes :
    (sum : ℕ) (s : Text)
    → is_hex_digits s ≡ true
    → HasEvenLength s
    → sum_data_gas sum s ≡ sum + bytes_gas (buffer_from_hex s)
unfolding sum_data_gas bytes_gas buffer_from_hex is_hex_digits
sum_data_gas-bytes sum [] h e = ground arith
sum_data_gas-bytes sum (c ∷ []) h e = ground arith
sum_data_gas-bytes sum (c ∷ d ∷ s) h e =
    let (hc, hd, hs) = first_two c d s h in
    let even : HasEvenLength s = omega (arith, e) in
    let here = pair_cost c d in
    rw (sum_data_gas-bytes (sum + here) s hs even, pair_gas c d hc hd, hc, hd) (omega arith)

-- What the gas is computed of: no text, or whole bytes after `0x`.
abbrev pub IsWholeBytes : Text → Type 0
IsWholeBytes [] = Unit
IsWholeBytes (c ∷ s) =
    (starts_with_tag (c ∷ s) ≡ true) × (Hex.is_valid (c ∷ s) ≡ true) × HasEvenLength (c ∷ s)

-- A recipient that is an address or a name, or none.
abbrev pub IsRecipient : Option Text → Type 0
IsRecipient none = Unit
IsRecipient (some to) = (Address.is_valid to || includes_dot to) ≡ true

pub record IsPriced (clause : TransactionClause) : Type 0 where
  pub to : IsRecipient clause.to
  pub payload : IsWholeBytes clause.payload

abbrev pub clause_base : Option Text → ℕ
clause_base none = 48000
clause_base (some to) = 16000

-- The gas of a clause by its bytes.
unfoldable pub clause_cost : TransactionClause → ℕ
unfolding bytes_gas
clause_cost clause = clause_base clause.to + bytes_gas (buffer_from_hex (drop 2 clause.payload))

unfoldable pub total_cost : List TransactionClause → ℕ
unfolding clause_cost
total_cost [] = 0
total_cost (clause ∷ clauses) = clause_cost clause + total_cost clauses

calculate_data_used_gas-bytes :
    (s : Text)
    → IsWholeBytes s
    → calculate_data_used_gas s ≡ ok (bytes_gas (buffer_from_hex (drop 2 s)))
unfolding calculate_data_used_gas sum_data_gas buffer_from_hex bytes_gas
calculate_data_used_gas-bytes [] h = refl
calculate_data_used_gas-bytes (c ∷ s) (tagged, valid, even) =
    let digits = is_hex_digits-drop (c ∷ s) tagged valid in
    let even' : HasEvenLength (drop 2 (c ∷ s)) =
      omega (arith, even, length-drop_two (c ∷ s) tagged) in
    let used = bytes_gas (buffer_from_hex (drop 2 (c ∷ s))) in
    let same : 0 + used ≡ used = omega arith in
    rw valid (ap ok (sum_data_gas-bytes 0 (drop 2 (c ∷ s)) digits even' ∙ same))

recipient_gas-base : (to : Option Text) → IsRecipient to → recipient_gas to ≡ ok (clause_base to)
unfolding recipient_gas
recipient_gas-base none h = refl
recipient_gas-base (some to) h = ground (arith, h)

sum_gas-cost :
    (sum : ℕ) (clauses : List TransactionClause)
    → All IsPriced clauses
    → sum_gas sum clauses ≡ ok (sum + total_cost clauses)
unfolding sum_gas total_cost
sum_gas-cost sum [] h = ap ok (omega arith)
sum_gas-cost sum (clause ∷ clauses) (h, hs) =
    let base = clause_base clause.to in
    let used = bytes_gas (buffer_from_hex (drop 2 clause.payload)) in
    rw
      (
        recipient_gas-base clause.to h.to,
        calculate_data_used_gas-bytes clause.payload h.payload,
        sum_gas-cost (sum + base + used) clauses hs,
      )
      (ap ok (omega arith))

-- The gas of a transaction by the bytes of its clauses; with no clause, one is counted.
unfoldable pub transaction_cost : List TransactionClause → ℕ
unfolding total_cost
transaction_cost [] = 21000
transaction_cost (clause ∷ clauses) = 5000 + total_cost (clause ∷ clauses)

-- If every recipient is missing, a valid address or a name with a dot, and every text of data is whole
-- bytes after 0x, the intrinsic gas of the clauses is the gas of a transaction, and for each clause
-- that of its recipient and of its bytes, 4 for a zero byte and 68 for another.
pub intrinsic_gas-cost :
    (clauses : List TransactionClause)
    → All IsPriced clauses
    → intrinsic_gas clauses ≡ ok (transaction_cost clauses)
unfolding intrinsic_gas transaction_cost
intrinsic_gas-cost [] h = refl
intrinsic_gas-cost (clause ∷ clauses) h = sum_gas-cost 5000 (clause ∷ clauses) h

abbrev is_recipient : Option Text → Bool
is_recipient none = true
is_recipient (some to) = Address.is_valid to || includes_dot to

-- A clause whose recipient and data are accepted.
abbrev is_accepted : TransactionClause → Bool
is_accepted clause =
    is_recipient clause.to && (is_empty clause.payload || Hex.is_valid clause.payload)

unfoldable pub are_accepted : List TransactionClause → Bool
are_accepted [] = true
are_accepted (clause ∷ clauses) = is_accepted clause && are_accepted clauses

abbrev pub is_ok {ℓ} : {A : Type ℓ} → Result A → Bool
is_ok (ok a) = true
is_ok (err e) = false

is_ok->>= :
    {A B : Type 0} (r : Result A) (f : A → Result B) (b : Bool)
    → ((a : A) → is_ok (f a) ≡ b)
    → is_ok (r >>= f) ≡ (is_ok r && b)
is_ok->>= (ok a) f b h = h a
is_ok->>= (err e) f b h = refl

is_ok-recipient_gas : (to : Option Text) → is_ok (recipient_gas to) ≡ is_recipient to
unfolding recipient_gas
is_ok-recipient_gas none = refl
is_ok-recipient_gas (some to) = ground arith

is_ok-calculate_data_used_gas :
    (s : Text) → is_ok (calculate_data_used_gas s) ≡ (is_empty s || Hex.is_valid s)
unfolding calculate_data_used_gas
is_ok-calculate_data_used_gas s = ground arith

and_rearrange : (a b c : Bool) → (a && (b && c)) ≡ ((a && b) && c)
and_rearrange a b c = ground arith

is_ok-sum_gas :
    (sum : ℕ) (clauses : List TransactionClause)
    → is_ok (sum_gas sum clauses) ≡ are_accepted clauses
unfolding sum_gas are_accepted
is_ok-sum_gas sum [] = refl
is_ok-sum_gas sum (clause ∷ clauses) =
    let used = calculate_data_used_gas clause.payload in
    let step = λ (gas : ℕ).
      is_ok->>= used (λ more. sum_gas (sum + gas + more) clauses) (are_accepted clauses)
        (λ more. is_ok-sum_gas (sum + gas + more) clauses) in
    is_ok->>= (recipient_gas clause.to) _ (is_ok used && are_accepted clauses) step
    ∙ rw (is_ok-recipient_gas clause.to, is_ok-calculate_data_used_gas clause.payload)
        (and_rearrange (is_recipient clause.to) _ _)

-- The intrinsic gas is computed exactly where each recipient is an address or has a dot, and each
-- text of data is empty or is hexadecimal.
pub intrinsic_gas-are_accepted :
    (clauses : List TransactionClause) → is_ok (intrinsic_gas clauses) ≡ are_accepted clauses
unfolding intrinsic_gas are_accepted
intrinsic_gas-are_accepted [] = refl
intrinsic_gas-are_accepted (clause ∷ clauses) = is_ok-sum_gas 5000 (clause ∷ clauses)

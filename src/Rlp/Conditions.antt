-- ===== src/Rlp/Conditions.antt =====
-- What is asked of a profile and of a value that it encodes.
use vechain_sdk_js.Rlp.Value.{
  Value, arr, Items, nil, cons, Kind, scalar, array, struct, Profiles, finish, profile,
}
use vechain_sdk_js.Rlp.Profiler.{member}
use vechain_sdk_js.Rlp.Scalars.{IsTaggedFor}
use vechain_sdk_js.Rlp.Members.{IsFresh}

abbrev pub AllItems {ℓ} : (Value → Type ℓ) → Items → Type ℓ
AllItems P nil = Unit
AllItems P (cons v vs) = P v × AllItems P vs

-- Every text that a hexadecimal kind of the profile reads has its `0x`.
abbrev mutual
  pub IsTaggedAt : Kind → Value → Type 0
  IsTaggedAt (scalar k) v = IsTaggedFor k v
  IsTaggedAt (struct ps) v = AreTaggedAt ps v
  IsTaggedAt (array kind) (arr vs) = AllItems (IsTaggedAt kind) vs
  IsTaggedAt (array kind) v = Unit

  pub AreTaggedAt : Profiles → Value → Type 0
  AreTaggedAt finish v = Unit
  AreTaggedAt (profile name kind ps) v = IsTaggedAt kind (member name v) × AreTaggedAt ps v

-- No struct of the profile names two members alike.
abbrev mutual
  pub HasDistinctNames : Kind → Type 0
  HasDistinctNames (scalar k) = Unit
  HasDistinctNames (struct ps) = HaveDistinctNames ps
  HasDistinctNames (array kind) = HasDistinctNames kind

  pub HaveDistinctNames : Profiles → Type 0
  HaveDistinctNames finish = Unit
  HaveDistinctNames (profile name kind ps) =
      IsFresh name ps × HasDistinctNames kind × HaveDistinctNames ps

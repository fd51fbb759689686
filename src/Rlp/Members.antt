-- ===== src/Rlp/Members.antt =====
-- Objects as lists of members: reading after writing, and the numbers of members.
use text.Mathlib.Text.{◌==◌ as str_eq}
use text.Mathlib.TextEquality.{eq_iff}
use vechain_sdk_js.Prelude.{◌≡◌, refl, String, false, arith, if◌then◌else◌}
use vechain_sdk_js.Rlp.Value.{Value, Fields, no_more, entry, Profiles, finish, profile}
use vechain_sdk_js.Rlp.Profiler.{get_field, set_field}

pub get_field-set_field :
    (k j : String) (v : Value) (fs : Fields)
    → get_field j (set_field k v fs) ≡ (if str_eq k j then v else get_field j fs)
unfolding get_field set_field
get_field-set_field k j v no_more = refl
get_field-set_field k j v (entry i w fs) =
    ground (arith, eq_iff k j, eq_iff i k, eq_iff i j, get_field-set_field k j v fs)

pub get_field-set_self : (k : String) (v : Value) (fs : Fields) → get_field k (set_field k v fs) ≡ v
get_field-set_self k v fs = ground (arith, get_field-set_field k k v fs, eq_iff k k)

pub get_field-set_ne :
    (k j : String) (v : Value) (fs : Fields)
    → str_eq j k ≡ false
    → get_field j (set_field k v fs) ≡ get_field j fs
get_field-set_ne k j v fs h = ground (arith, get_field-set_field k j v fs, eq_iff k j, eq_iff j k)

-- No profile of the list has the name.
abbrev pub IsFresh : String → Profiles → Type 0
IsFresh name finish = Unit
IsFresh name (profile other kind ps) = (str_eq name other ≡ false) × IsFresh name ps

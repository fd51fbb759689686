-- ===== src/Rlp/RoundTrip.antt =====
-- What a profile packed is unpacked by it, and what is unpacked is packed to the same buffers.
use vechain_sdk_js.Prelude.{suc, ◌≡◌, refl, ap, subst, ◌∙◌, String, [], ◌∷◌, ◌++◌, ==_iff}
use vechain_sdk_js.Result.{ok, Segment, field, Context, >>=-eq-ok}
use vechain_sdk_js.Text.{Bytes}
use vechain_sdk_js.Noble.{Noble}
use vechain_sdk_js.Rlp.Value.{
  concat_profiles, Value, undefined, null, obj, Fields, no_more, Kind, scalar, array, struct,
  Profiles, finish, profile, Packed, leaf, node, Parts, none_left, part,
}
use vechain_sdk_js.Rlp.Kinds.{data_of}
use vechain_sdk_js.Rlp.Profiler.{
  member, RlpCodec, get_field, set_field, property, length_profiles, length_parts, pack_data,
  pack_struct, unpack_data, unpack_struct, encode_object, decode_object,
}
use vechain_sdk_js.Rlp.Scalars.{scalar_stable}
use vechain_sdk_js.Rlp.Conditions.{IsTaggedAt, AreTaggedAt, HasDistinctNames, HaveDistinctNames}
use vechain_sdk_js.Rlp.Arrays.{array_stable}
use vechain_sdk_js.Rlp.Members.{IsFresh, get_field-set_self, get_field-set_ne}

property-member : (name : String) (v w : Value) → property name v ≡ ok w → member name v ≡ w
unfolding property
property-member name null w h = cc
property-member name (obj fs) w h = cc
property-member name v w h = cc

length-pack_struct :
    (noble : Noble) (ps : Profiles) (context : Context) (v : Value) (parts : Parts)
    → pack_struct noble ps context v ≡ ok parts
    → length_profiles ps ≡ length_parts parts
unfolding pack_data length_profiles length_parts
length-pack_struct noble finish context v none_left h = refl
length-pack_struct noble finish context v (part p parts) h = cc
length-pack_struct noble (profile name kind ps) context v parts h =
    let (w, read, h₁) = >>=-eq-ok (property name v) _ h in
    let (p, first, h₂) = >>=-eq-ok (pack_data noble kind (field name) context w) _ h₁ in
    let (rest, others, same) = >>=-eq-ok (pack_struct noble ps context v) _ h₂ in
    let same' : part p rest ≡ parts = cc in
    rw (← same') (ap suc (length-pack_struct noble ps context v rest others))

module _ (noble : Noble) where
  -- Each member was written to some buffers, is what these are read as, and is written to the same.
  pub record IsMatched (kind : Kind) (seg : Segment) (context : Context) (v w : Value)
      : Type 0 where
    pub packed : Packed
    pub written : pack_data noble kind seg context v ≡ ok packed
    pub read : unpack_data noble kind seg context packed ≡ ok w
    pub again : pack_data noble kind seg context w ≡ ok packed

  abbrev pub AreMatched : Profiles → Context → Value → Fields → Type 0
  AreMatched finish context v fs = Unit
  AreMatched (profile name kind ps) context v fs =
      IsMatched kind (field name) context (member name v) (get_field name fs)
      × AreMatched ps context v fs

  -- What the members of a struct become, put into an object that may have other members.
  pub record AreStable (ps : Profiles) (context : Context) (v : Value) (parts : Parts) (fs : Fields)
      : Type 0 where
    pub result : Fields
    pub read : unpack_struct noble ps context parts fs ≡ ok result
    others : (name : String) → IsFresh name ps → get_field name result ≡ get_field name fs
    pub again : pack_struct noble ps context (obj result) ≡ ok parts
    pub matched : AreMatched ps context v result

  -- One more member in front.
  struct_step :
      (name : String) (kind : Kind) (ps : Profiles) (context : Context) (v : Value) (p : Packed)
      (parts : Parts) (x : Value) (fs : Fields)
      → IsFresh name ps
      → pack_data noble kind (field name) context (member name v) ≡ ok p
      → unpack_data noble kind (field name) context p ≡ ok x
      → pack_data noble kind (field name) context x ≡ ok p
      → AreStable ps context v parts (set_field name x fs)
      → AreStable (profile name kind ps) context v (part p parts) fs
  unfolding pack_data unpack_data property
  struct_step name kind ps context v p parts x fs fresh written read again s =
      let here : get_field name s.result ≡ x = s.others name fresh ∙ get_field-set_self name x fs in
      record {
        result = s.result;
        read = rw read s.read;
        others = λ other f. s.others other f.1 ∙ get_field-set_ne name other x fs f.0;
        again = rw (here, again, s.again) refl;
        matched = (
          record { packed = p; written = written; read = rw here read; again = rw here again },
          s.matched,
        );
      }

  mutual
    unfolding pack_data unpack_data

    kind_stable :
        (kind : Kind) (seg : Segment) (context : Context) (v : Value) (p : Packed)
        → HasDistinctNames kind
        → IsTaggedAt kind v
        → pack_data noble kind seg context v ≡ ok p
        → (w : Value) × (unpack_data noble kind seg context p ≡ ok w)
          × (pack_data noble kind seg context w ≡ ok p)
    kind_stable (scalar k) seg context v p d t h =
        let (b, encoded, same) = >>=-eq-ok (data_of noble k v (context ++ seg ∷ [])) _ h in
        let (w, read, again) = scalar_stable noble k v (context ++ seg ∷ []) b t encoded in
        let same' : leaf b ≡ p = cc in rw (← same') (w, read, rw again refl)
    kind_stable (struct ps) seg context v p d t h =
        let c = context ++ seg ∷ [] in
        let (parts, packed, same) = >>=-eq-ok (pack_struct noble ps c v) _ h in
        let s = struct_stable ps c v parts no_more d t packed in
        let same' : node parts ≡ p = cc in
        let e = length-pack_struct noble ps c v parts packed in
        rw (← same') (
          obj s.result,
          rw (e, (==_iff (length_parts parts) _).1 refl, s.read) refl,
          rw s.again refl,
        )
    kind_stable (array kind) seg context v p d t h =
        array_stable (λ s w. pack_data noble kind s (context ++ seg ∷ []) w)
          (λ s q. unpack_data noble kind s (context ++ seg ∷ []) q)
          (λ s w q t' h'. kind_stable kind s (context ++ seg ∷ []) w q d t' h') v
          (context ++ seg ∷ []) p (λ vs e. subst (IsTaggedAt (array kind)) e t) h

    struct_stable :
        (ps : Profiles) (context : Context) (v : Value) (parts : Parts) (fs : Fields)
        → HaveDistinctNames ps
        → AreTaggedAt ps v
        → pack_struct noble ps context v ≡ ok parts
        → AreStable ps context v parts fs
    struct_stable finish context v parts fs d t h =
        let same : none_left ≡ parts = cc in
        rw (← same)
          (record { result = fs; read = refl; others = λ name f. refl; again = refl; matched = tt })
    struct_stable (profile name kind ps) context v parts fs d t h =
        let (w, found, h₁) = >>=-eq-ok (property name v) _ h in
        let (p, first, h₂) = >>=-eq-ok (pack_data noble kind (field name) context w) _ h₁ in
        let (rest, others, same) = >>=-eq-ok (pack_struct noble ps context v) _ h₂ in
        let same' : part p rest ≡ parts = cc in
        let tagged = subst (IsTaggedAt kind) (property-member name v w found) t.0 in
        let (x, read, again) = kind_stable kind (field name) context w p d.1 tagged first in
        let s = struct_stable ps context v rest (set_field name x fs) d.2 t.1 others in
        let e = property-member name v w found in
        rw (← same') (struct_step name kind ps context v p rest x fs d.0 (rw e first) read again s)

-- `Profiler.decodeObject` accepts what `Profiler.encodeObject` of the same profile wrote, and the
-- value that it returns is encoded to the same bytes, if the names in each struct are distinct and
-- the texts at hexadecimal kinds have their `0x`.
pub decode_object-encode_object :
    (noble : Noble) (codec : RlpCodec) (name : String) (kind : Kind) (v : Value) (b : Bytes)
    → HasDistinctNames kind
    → IsTaggedAt kind v
    → encode_object noble codec name kind v ≡ ok b
    → (w : Value) × (decode_object noble codec name kind b ≡ ok w)
      × (encode_object noble codec name kind w ≡ ok b)
unfolding encode_object decode_object
decode_object-encode_object noble codec name kind v b d t h =
    let (p, packed, same) = >>=-eq-ok (pack_data noble kind (field name) [] v) _ h in
    let (w, read, again) = kind_stable noble kind (field name) [] v p d t packed in
    let same' : codec.encode p ≡ b = cc in
    rw (← same') (w, rw (codec.decode-encode p) read, rw again refl)

-- The same for a struct, with what became of each member. No other member is there.
pub decode_object_struct :
    (noble : Noble) (codec : RlpCodec) (name : String) (ps : Profiles) (v : Value) (b : Bytes)
    → HaveDistinctNames ps
    → AreTaggedAt ps v
    → encode_object noble codec name (struct ps) v ≡ ok b
    → (fs : Fields) × (decode_object noble codec name (struct ps) b ≡ ok (obj fs))
      × (encode_object noble codec name (struct ps) (obj fs) ≡ ok b)
      × AreMatched noble ps (field name ∷ []) v fs
      × ((other : String) → IsFresh other ps → get_field other fs ≡ undefined)
unfolding encode_object decode_object get_field
decode_object_struct noble codec name ps v b d t h =
    let (p, packed, same) = >>=-eq-ok (pack_data noble (struct ps) (field name) [] v) _ h in
    let (parts, members, is_node) = >>=-eq-ok (pack_struct noble ps (field name ∷ []) v) _ packed in
    let s = struct_stable noble ps (field name ∷ []) v parts no_more d t members in
    let e = length-pack_struct noble ps (field name ∷ []) v parts members in
    let same' : codec.encode (node parts) ≡ b = cc in
    rw (← same') (
      s.result,
      rw (codec.decode-encode (node parts), e, (==_iff (length_parts parts) _).1 refl, s.read) refl,
      rw s.again refl,
      s.matched,
      s.others,
    )

pub AreMatched-concat :
    (noble : Noble) (ps qs : Profiles) (context : Context) (v : Value) (fs : Fields)
    → AreMatched noble (concat_profiles ps qs) context v fs
    → AreMatched noble ps context v fs
AreMatched-concat noble finish qs context v fs m = tt
AreMatched-concat noble (profile name kind ps) qs context v fs m =
    (m.0, AreMatched-concat noble ps qs context v fs m.1)

pack_struct-AreMatched :
    (noble : Noble) (ps : Profiles) (context : Context) (gs fs : Fields)
    → AreMatched noble ps context (obj gs) fs
    → pack_struct noble ps context (obj fs) ≡ pack_struct noble ps context (obj gs)
unfolding pack_data property
pack_struct-AreMatched noble finish context gs fs m = refl
pack_struct-AreMatched noble (profile name kind ps) context gs fs m =
    rw (m.0.written, m.0.again, pack_struct-AreMatched noble ps context gs fs m.1) refl

-- Matched members are encoded alike.
pub encode_object-AreMatched :
    (noble : Noble) (codec : RlpCodec) (name : String) (ps : Profiles) (gs fs : Fields)
    → AreMatched noble ps (field name ∷ []) (obj gs) fs
    → encode_object noble codec name (struct ps) (obj fs)
      ≡ encode_object noble codec name (struct ps) (obj gs)
unfolding encode_object
encode_object-AreMatched noble codec name ps gs fs m =
    rw (pack_struct-AreMatched noble ps (field name ∷ []) gs fs m) refl

-- Two objects that agree on the members of a profile are packed alike.
abbrev pub HaveSameMembers : Profiles → Fields → Fields → Type 0
HaveSameMembers finish fs gs = Unit
HaveSameMembers (profile name kind ps) fs gs =
    (get_field name fs ≡ get_field name gs) × HaveSameMembers ps fs gs

pack_struct-HaveSameMembers :
    (noble : Noble) (ps : Profiles) (context : Context) (fs gs : Fields)
    → HaveSameMembers ps fs gs
    → pack_struct noble ps context (obj fs) ≡ pack_struct noble ps context (obj gs)
unfolding pack_data property
pack_struct-HaveSameMembers noble finish context fs gs h = refl
pack_struct-HaveSameMembers noble (profile name kind ps) context fs gs h =
    rw (h.0, pack_struct-HaveSameMembers noble ps context fs gs h.1) refl

pub encode_object-HaveSameMembers :
    (noble : Noble) (codec : RlpCodec) (name : String) (ps : Profiles) (fs gs : Fields)
    → HaveSameMembers ps fs gs
    → encode_object noble codec name (struct ps) (obj fs)
      ≡ encode_object noble codec name (struct ps) (obj gs)
unfolding encode_object
encode_object-HaveSameMembers noble codec name ps fs gs h =
    rw (pack_struct-HaveSameMembers noble ps (field name ∷ []) fs gs h) refl

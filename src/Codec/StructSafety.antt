-- ===== src/Codec/StructSafety.antt =====
-- Structs read from arbitrary bytes: no panic, the declared type, and the size that is reported.
use chainlink_common.Base.{
  ◌≡◌, ◌≢◌, subst, Bool, List, [], ◌∷◌, All, map, Result-cases, >>=-eq-ok, ok, err, arith, inl, inr,
  Bool-cases,
}
use chainlink_common.Codec.Values.{GoType, FieldTypes, Value, Fields, field, type_of, types_of}
use chainlink_common.Codec.Bytes.{Bytes}
use chainlink_common.Codec.Interface.{panicked, TypeCodec, IsTyped, Fallible}
use chainlink_common.Codec.Elements.{settable}
use chainlink_common.Codec.ElementLaws.{settable_lem}
use chainlink_common.Codec.StructLaws.{not_nil_pointer-IsTyped}
use chainlink_common.Codec.Structs.{
  NamedTypeCodec, is_pointer, wrap, field_types, decode_fields, struct_type, decode_struct,
  struct_codec, new_struct_codec,
}

-- What a successful step of the loop over the fields read.
pub decode_fields-cons :
    (f : NamedTypeCodec) (fs : List NamedTypeCodec) (raw : Bytes) {vs : Fields} {rest : Bytes}
    → decode_fields (f ∷ fs) raw ≡ ok (vs, rest)
    → (v : Value) × (mid : Bytes) × (ws : Fields) × (f.codec.decode raw ≡ ok (v, mid))
      × (decode_fields fs mid ≡ ok (ws, rest))
      × (vs ≡ field f.name v ws)
unfolding decode_fields
decode_fields-cons f fs raw h =
    let (r, e, k) = >>=-eq-ok (f.codec.decode raw) _ h in
    let (u, _, k') = >>=-eq-ok (settable f.codec.get_type r.0) _ k in
    let (q, e'', k'') = >>=-eq-ok (decode_fields fs r.1) _ k' in
    (r.0, r.1, q.0, ground arith, ground arith, ground arith)

abbrev pub FieldIsTyped : NamedTypeCodec → Type 0
FieldIsTyped f = IsTyped f.codec

decode_fields-types_of :
    (fs : List NamedTypeCodec) (raw : Bytes) {vs : Fields} {rest : Bytes}
    → All FieldIsTyped fs
    → decode_fields fs raw ≡ ok (vs, rest)
    → types_of vs ≡ field_types fs
unfolding decode_fields type_of
decode_fields-types_of [] raw laws h = ground arith
decode_fields-types_of (f ∷ fs) raw laws h =
    let (v, mid, ws, e, e', made) = decode_fields-cons f fs raw h in
    rw made (cc (laws.0.declared raw e, decode_fields-types_of fs mid laws.1 e'))

decode_fields_calm :
    (fs : List NamedTypeCodec) (raw : Bytes)
    → All FieldIsTyped fs
    → decode_fields fs raw ≢ err panicked
unfolding decode_fields
decode_fields_calm [] raw laws h = cc
decode_fields_calm (f ∷ fs) raw laws h = elim (Result-cases (f.codec.decode raw)) [
  | inr (e, bad) ↦ laws.0.calm raw (ground arith)
  | inl ((v, rest), good) ↦ ground (
    arith,
    settable_lem f.codec.get_type v (laws.0.declared raw good),
    decode_fields_calm fs rest laws.1,
  )
]

wrap-IsTyped : (f : NamedTypeCodec) → IsTyped f.codec → IsTyped (wrap f).codec
unfolding wrap
wrap-IsTyped f law = elim (Bool-cases (is_pointer f.codec.get_type)) [
  | inl p ↦ rw p law
  | inr p ↦ rw p (not_nil_pointer-IsTyped law)
]

All-wrap : (fs : List NamedTypeCodec) → All FieldIsTyped fs → All FieldIsTyped (map wrap fs)
All-wrap [] laws = laws
All-wrap (f ∷ fs) laws = (wrap-IsTyped f laws.0, All-wrap fs laws.1)

decode_struct_calm :
    (fs : List NamedTypeCodec) (raw : Bytes)
    → All FieldIsTyped fs
    → decode_struct fs raw ≢ err panicked
unfolding decode_struct
decode_struct_calm fs raw laws h = ground (arith, decode_fields_calm fs raw laws)

decode_struct-type_of :
    (fs : List NamedTypeCodec) (raw : Bytes) {v : Value} {rest : Bytes}
    → All FieldIsTyped fs
    → decode_struct fs raw ≡ ok (v, rest)
    → type_of v ≡ struct_type fs
unfolding decode_struct type_of
decode_struct-type_of fs raw laws h =
    let (r, e, k) = >>=-eq-ok (decode_fields fs raw) _ h in
    ground (arith, decode_fields-types_of fs raw laws e)

-- How a decoder may end: with an error that is no panic, or with a value of the declared type.
abbrev pub Declares : GoType → Fallible (Value × Bytes) → Type 0
Declares t (ok (v, rest)) = type_of v ≡ t
Declares t (err e) = e ≢ panicked

decode_struct-Declares :
    (fs : List NamedTypeCodec) (raw : Bytes)
    → All FieldIsTyped fs
    → Declares (struct_type fs) (decode_struct fs raw)
decode_struct-Declares fs raw laws = elim (Result-cases (decode_struct fs raw)) [
  | inl ((v, rest), good) ↦ rw good (decode_struct-type_of fs raw laws good)
  | inr (e, bad) ↦ rw bad (λ p. decode_struct_calm fs raw laws (cc (bad, p)))
]

-- The codec that NewStructCodec makes of codecs that do not panic and that decode values of their
-- declared types does not panic either, on any bytes, and what it decodes has the type that it
-- declares.
pub new_struct_codec-Declares :
    (panics : FieldTypes → Bool) (fs : List NamedTypeCodec) (raw : Bytes) {codec : TypeCodec}
    → All FieldIsTyped fs
    → new_struct_codec panics fs ≡ ok codec
    → Declares codec.get_type (codec.decode raw)
unfolding new_struct_codec
new_struct_codec-Declares panics fs raw {codec = codec} laws h =
    let made : struct_codec (map wrap fs) ≡ codec = ground arith in
    subst (λ c. Declares c.get_type (c.decode raw)) made
      (decode_struct-Declares (map wrap fs) raw (All-wrap fs laws))

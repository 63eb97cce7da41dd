-- ===== src/Codec/StructTrips.antt =====
-- Structs of fields whose codecs bring their values back come back themselves.
use Prim.Native.String.{String}
use mathlib.Core.List.{append-nil, append_assoc}
use chainlink_common.Base.{
  ◌≡◌, refl, sym, ap, Bool, false, List, [], ◌∷◌, ◌++◌, map, if◌then◌else◌, ok, inl, inr,
  Bool-cases,
}
use chainlink_common.Codec.Values.{
  FieldTypes, Value, struct, pointer, Fields, end, field, type_of, types_of, is_type_self,
}
use chainlink_common.Codec.Bytes.{Bytes}
use chainlink_common.Codec.Interface.{TypeCodec, RoundTrips, IsTyped}
use chainlink_common.Codec.Elements.{not_nil_pointer}
use chainlink_common.Codec.ElementLaws.{settable_lem}
use chainlink_common.Codec.StructLaws.{
  IsPointer, not_nil_pointer-RoundTrips, not_nil_pointer-IsTyped,
}
use chainlink_common.Codec.Structs.{
  NamedTypeCodec, is_pointer, wrap, field_types, encode_fields, decode_fields, struct_type,
  encode_struct, decode_struct, struct_codec, new_struct_codec,
}

-- A field's codec with the values that fit it and the laws that it keeps.
pub record LawfulField : Type 1 where
  pub name : String
  pub codec : TypeCodec
  pub Fits : Value → Type 0
  pub law : RoundTrips codec Fits
  pub is_typed : IsTyped codec

abbrev pub codecs : List LawfulField → List NamedTypeCodec
codecs [] = []
codecs (f ∷ fs) = (record { name = f.name; codec = f.codec }) ∷ codecs fs

-- A struct with a fitting value in each field.
abbrev pub Fill : List LawfulField → Fields → Type 0
Fill [] end = Unit
Fill (f ∷ fs) (field name v rest) = (name ≡ f.name) × f.Fits v × Fill fs rest
Fill _ _ = ⊥

wire_fields : List LawfulField → Fields → Bytes
wire_fields (f ∷ fs) (field name v rest) = f.law.wire v ++ wire_fields fs rest
wire_fields _ _ = []

encode_fields-eq_ok :
    (fs : List LawfulField) (vs : Fields) (into : Bytes)
    → Fill fs vs
    → encode_fields (codecs fs) vs into ≡ ok (into ++ wire_fields fs vs)
unfolding encode_fields wire_fields
encode_fields-eq_ok [] end into fits = ap ok (sym (append-nil into))
encode_fields-eq_ok [] (field name v rest) into fits = absurd fits
encode_fields-eq_ok (f ∷ fs) end into fits = absurd fits
encode_fields-eq_ok (f ∷ fs) (field name v rest) into fits =
    rw (f.law.encodes v into fits.1, encode_fields-eq_ok fs rest (into ++ f.law.wire v) fits.2)
      (ap ok (append_assoc into (f.law.wire v) (wire_fields fs rest)))

decode_fields-eq_ok :
    (fs : List LawfulField) (vs : Fields) (rest : Bytes)
    → Fill fs vs
    → decode_fields (codecs fs) (wire_fields fs vs ++ rest) ≡ ok (vs, rest)
unfolding decode_fields wire_fields
decode_fields-eq_ok [] end rest fits = refl
decode_fields-eq_ok [] (field name v vs) rest fits = absurd fits
decode_fields-eq_ok (f ∷ fs) end rest fits = absurd fits
decode_fields-eq_ok (f ∷ fs) (field name v vs) rest fits =
    let read = f.law.decodes v (wire_fields fs vs ++ rest) fits.1 in
    rw
      (
        append_assoc (f.law.wire v) (wire_fields fs vs) rest,
        read,
        settable_lem f.codec.get_type v (f.is_typed.declared _ read),
        decode_fields-eq_ok fs vs rest fits.2,
      )
      (ap (λ (n : String). ok (field n v vs, rest)) (sym fits.0))

types_of-field_types :
    (fs : List LawfulField) (vs : Fields) → Fill fs vs → types_of vs ≡ field_types (codecs fs)
unfolding type_of
types_of-field_types [] end fits = refl
types_of-field_types [] (field name v rest) fits = absurd fits
types_of-field_types (f ∷ fs) end fits = absurd fits
types_of-field_types (f ∷ fs) (field name v vs) fits =
    cc
      (fits.0, f.is_typed.declared _ (f.law.decodes v [] fits.1), types_of-field_types fs vs fits.2)

module _ (fs : List LawfulField) (vs : Fields) (into rest : Bytes) (fits : Fill fs vs) where
  encode_struct-eq_ok :
      encode_struct (codecs fs) (pointer (struct vs)) into ≡ ok (into ++ wire_fields fs vs)
  unfolding encode_struct type_of
  encode_struct-eq_ok =
      rw (types_of-field_types fs vs fits, is_type_self (struct_type (codecs fs)))
        (encode_fields-eq_ok fs vs into fits)

  decode_struct-eq_ok :
      decode_struct (codecs fs) (wire_fields fs vs ++ rest) ≡ ok (pointer (struct vs), rest)
  unfolding decode_struct
  decode_struct-eq_ok = rw (decode_fields-eq_ok fs vs rest fits)

-- What NewStructCodec makes of a field.
abbrev pub wrapped : LawfulField → LawfulField
wrapped f = if is_pointer f.codec.get_type then f else record {
  name = f.name;
  codec = not_nil_pointer f.codec;
  Fits = IsPointer f.Fits;
  law = not_nil_pointer-RoundTrips f.law f.is_typed;
  is_typed = not_nil_pointer-IsTyped f.is_typed;
}

codecs-wrapped : (fs : List LawfulField) → map wrap (codecs fs) ≡ codecs (map wrapped fs)
unfolding wrap
codecs-wrapped [] = refl
codecs-wrapped (f ∷ fs) = elim (Bool-cases (is_pointer f.codec.get_type)) [
  | inl p ↦ rw (p, codecs-wrapped fs)
  | inr p ↦ rw (p, codecs-wrapped fs)
]

-- Given field codecs that bring the values that fit them back and decode values of their declared
-- types, and names that reflection takes, NewStructCodec makes a codec, wrapping the fields that
-- are no pointers; a pointer to a struct whose fields hold fitting values is appended to the bytes
-- there are and read back unchanged, and the bytes after it are left.
pub new_struct_codec-round_trip :
    (panics : FieldTypes → Bool) (fs : List LawfulField) (vs : Fields) (into rest : Bytes)
    → panics (field_types (codecs (map wrapped fs))) ≡ false
    → Fill (map wrapped fs) vs
    → (codec : TypeCodec) × (enc : Bytes) × (new_struct_codec panics (codecs fs) ≡ ok codec)
      × (codec.encode (pointer (struct vs)) into ≡ ok (into ++ enc))
      × (codec.decode (enc ++ rest) ≡ ok (pointer (struct vs), rest))
unfolding new_struct_codec
new_struct_codec-round_trip panics fs vs into rest fine fits =
    let ws = map wrapped fs in
    (
      struct_codec (codecs ws),
      wire_fields ws vs,
      rw (codecs-wrapped fs, fine),
      encode_struct-eq_ok ws vs into rest fits,
      decode_struct-eq_ok ws vs into rest fits,
    )

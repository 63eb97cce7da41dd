-- ===== src/Codec/StructSizes.antt =====
-- The size that a struct codec reports is the one that it reads and writes.
use Prim.Native.String.{String}
use chainlink_common.Base.{
  ℕ, ◌+◌, ◌≡◌, refl, subst, sym, ap, ◌∙◌, Bool, List, [], ◌∷◌, map, total, length, if◌then◌else◌,
  Result-cases, >>=-eq-ok, ok, arith, inl, inr, Bool-cases,
}
use chainlink_common.Codec.Values.{FieldTypes, Value, pointer, Fields, end, field, type_of, is_type}
use chainlink_common.Codec.Bytes.{Bytes}
use chainlink_common.Codec.Interface.{TypeCodec, IsFixed}
use chainlink_common.Codec.Elements.{not_nil_pointer, encode_pointer, decode_pointer, settable}
use chainlink_common.Codec.StructSafety.{decode_fields-cons}
use chainlink_common.Codec.Structs.{
  NamedTypeCodec, is_pointer, wrap, encode_fields, decode_fields, fields_of, struct_type,
  encode_struct, decode_struct, fields_fixed_size, struct_fixed_size, struct_codec,
  new_struct_codec,
}

module _ {elm : TypeCodec} {n : ℕ} (fixed : IsFixed elm n) where
  pointer_reads :
      (raw : Bytes) {v : Value} {rest : Bytes}
      → decode_pointer elm raw ≡ ok (v, rest)
      → length raw ≡ n + length rest
  unfolding decode_pointer
  pointer_reads raw h =
      let (r, e, k) = >>=-eq-ok (elm.decode raw) _ h in
      let (u, _, k') = >>=-eq-ok (settable elm.get_type r.0) _ k in
      ground (arith, fixed.reads raw e)

  pointer_writes :
      (v : Value) (into : Bytes) {out : Bytes}
      → encode_pointer elm v into ≡ ok out
      → length out ≡ length into + n
  unfolding encode_pointer
  pointer_writes (pointer v) into h = fixed.writes v into h
  pointer_writes _ into h = cc

  pub not_nil_pointer-IsFixed : IsFixed (not_nil_pointer elm) n
  not_nil_pointer-IsFixed = record {
    reported = fixed.reported;
    reads = pointer_reads;
    writes = pointer_writes;
  }

-- A codec of fixed size, with that size.
pub record FixedField : Type 0 where
  pub name : String
  pub codec : TypeCodec
  pub bytes : ℕ
  pub fixed : IsFixed codec bytes

abbrev pub fixed_codecs : List FixedField → List NamedTypeCodec
fixed_codecs [] = []
fixed_codecs (f ∷ fs) = (record { name = f.name; codec = f.codec }) ∷ fixed_codecs fs

abbrev pub total_bytes : List FixedField → ℕ
total_bytes fs = total (λ f. f.bytes) fs

fields_fixed_size-total :
    (fs : List FixedField) → fields_fixed_size (fixed_codecs fs) ≡ ok (total_bytes fs)
unfolding fields_fixed_size
fields_fixed_size-total [] = refl
fields_fixed_size-total (f ∷ fs) = rw (f.fixed.reported, fields_fixed_size-total fs)

decode_fields_reads :
    (fs : List FixedField) (raw : Bytes) {vs : Fields} {rest : Bytes}
    → decode_fields (fixed_codecs fs) raw ≡ ok (vs, rest)
    → length raw ≡ total_bytes fs + length rest
unfolding decode_fields
decode_fields_reads [] raw h = ground arith
decode_fields_reads (f ∷ fs) raw h =
    let (v, mid, ws, e, e', made) =
      decode_fields-cons (record { name = f.name; codec = f.codec }) (fixed_codecs fs) raw h in
    omega (arith, f.fixed.reads raw e, decode_fields_reads fs mid e')

encode_fields_writes :
    (fs : List FixedField) (vs : Fields) (into : Bytes) {out : Bytes}
    → encode_fields (fixed_codecs fs) vs into ≡ ok out
    → length out ≡ length into + total_bytes fs
unfolding encode_fields
encode_fields_writes [] end into h = ground arith
encode_fields_writes [] (field name v vs) into h = cc
encode_fields_writes (f ∷ fs) end into h = cc
encode_fields_writes (f ∷ fs) (field name v vs) into h =
    let (mid, e, e') = >>=-eq-ok (f.codec.encode v into) _ h in
    omega (arith, f.fixed.writes v into e, encode_fields_writes fs vs mid e')

-- What NewStructCodec makes of a field.
abbrev fixed_wrapped : FixedField → FixedField
fixed_wrapped f = if is_pointer f.codec.get_type then f else record {
  name = f.name;
  codec = not_nil_pointer f.codec;
  bytes = f.bytes;
  fixed = not_nil_pointer-IsFixed f.fixed;
}

fixed_codecs-wrapped :
    (fs : List FixedField) → map wrap (fixed_codecs fs) ≡ fixed_codecs (map fixed_wrapped fs)
unfolding wrap
fixed_codecs-wrapped [] = refl
fixed_codecs-wrapped (f ∷ fs) = elim (Bool-cases (is_pointer f.codec.get_type)) [
  | inl p ↦ rw (p, fixed_codecs-wrapped fs)
  | inr p ↦ rw (p, fixed_codecs-wrapped fs)
]

total_bytes-wrapped : (fs : List FixedField) → total_bytes (map fixed_wrapped fs) ≡ total_bytes fs
total_bytes-wrapped [] = refl
total_bytes-wrapped (f ∷ fs) = elim (Bool-cases (is_pointer f.codec.get_type)) [
  | inl p ↦ rw p (omega (arith, total_bytes-wrapped fs))
  | inr p ↦ rw p (omega (arith, total_bytes-wrapped fs))
]

module _ (fs : List FixedField) where
  struct_reads :
      (raw : Bytes) {v : Value} {rest : Bytes}
      → decode_struct (fixed_codecs fs) raw ≡ ok (v, rest)
      → length raw ≡ total_bytes fs + length rest
  unfolding decode_struct
  struct_reads raw h =
      let (r, e, k) = >>=-eq-ok (decode_fields (fixed_codecs fs) raw) _ h in
      ground (arith, decode_fields_reads fs raw e)

  struct_writes :
      (v : Value) (into : Bytes) {out : Bytes}
      → encode_struct (fixed_codecs fs) v into ≡ ok out
      → length out ≡ length into + total_bytes fs
  unfolding encode_struct
  struct_writes v into {out = out} h =
      elim (Bool-cases (is_type (type_of v) (struct_type (fixed_codecs fs)))) [
        | inr e ↦ ground arith
        | inl e ↦ elim (Result-cases (fields_of v)) [
          | inr (_, none_there) ↦ ground arith
          | inl (vs, there) ↦ ground (arith, encode_fields_writes fs vs into {out = out})
        ]
      ]

  struct_codec-IsFixed : IsFixed (struct_codec (fixed_codecs fs)) (total_bytes fs)
  unfolding struct_fixed_size
  struct_codec-IsFixed = record {
    reported = fields_fixed_size-total fs;
    reads = struct_reads;
    writes = struct_writes;
  }

-- Where every field's codec has a fixed size, the codec that NewStructCodec makes reports the sum
-- of the sizes; each encoding is that much longer than what it was appended to, and each successful
-- decoding consumes exactly that many bytes.
pub new_struct_codec-fixed_size :
    (panics : FieldTypes → Bool) (fs : List FixedField) {codec : TypeCodec} (v w : Value)
    (into raw : Bytes) {out rest : Bytes}
    → new_struct_codec panics (fixed_codecs fs) ≡ ok codec
    → codec.encode v into ≡ ok out
    → codec.decode raw ≡ ok (w, rest)
    → (codec.fixed_size ≡ ok (total_bytes fs))
      × (length out ≡ length into + total_bytes fs)
      × (length raw ≡ total_bytes fs + length rest)
unfolding new_struct_codec
new_struct_codec-fixed_size panics fs {codec = codec} v w into raw h written read =
    let made : struct_codec (map wrap (fixed_codecs fs)) ≡ codec = ground arith in
    let law : IsFixed codec (total_bytes (map fixed_wrapped fs)) =
      subst (λ c. IsFixed c (total_bytes (map fixed_wrapped fs)))
        (sym (ap struct_codec (fixed_codecs-wrapped fs)) ∙ made)
        (struct_codec-IsFixed (map fixed_wrapped fs)) in
    let same = total_bytes-wrapped fs in
    (
      law.reported ∙ ap ok same,
      omega (arith, law.writes v into written),
      omega (arith, law.reads raw read),
    )

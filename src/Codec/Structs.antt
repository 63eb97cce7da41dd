-- ===== src/Codec/Structs.antt =====
-- pkg/codec/encodings/struct.go: the codec of a struct, its fields in order.
use Prim.Native.String.{String}
use chainlink_common.Base.{
  ℕ, ◌+◌, Bool, true, false, List, [], ◌∷◌, map, if◌then◌else◌, ok, err, ◌>>=◌, ◌>>◌,
}
use chainlink_common.Codec.Values.{
  GoType, FieldTypes, no_types, typed, big_int_type, pointer_to, struct_of, Value, struct, pointer,
  Fields, end, field, type_of, is_type,
}
use chainlink_common.Codec.Bytes.{Bytes}
use chainlink_common.Codec.Interface.{invalid_type, invalid_config, panicked, Fallible, TypeCodec}
use chainlink_common.Codec.Elements.{not_nil_pointer, settable}

pub record NamedTypeCodec : Type 0 where
  pub name : String
  pub codec : TypeCodec

-- `Kind() == reflect.Pointer`: the type of big integers is *big.Int.
unfoldable pub is_pointer : GoType → Bool
is_pointer (pointer_to t) = true
is_pointer big_int_type = true
is_pointer _ = false

-- A field whose type is no pointer is read and written through one.
unfoldable pub wrap : NamedTypeCodec → NamedTypeCodec
unfolding is_pointer
wrap f = if is_pointer f.codec.get_type then f else record f { codec = not_nil_pointer f.codec }

abbrev pub field_types : List NamedTypeCodec → FieldTypes
field_types [] = no_types
field_types (f ∷ fs) = typed f.name f.codec.get_type (field_types fs)

-- The loops over the fields, which a struct of the codec's type has in the same number.
unfoldable pub encode_fields : List NamedTypeCodec → Fields → Bytes → Fallible Bytes
encode_fields [] end into = ok into
encode_fields (f ∷ fs) (field name v rest) into = do
  into' ← f.codec.encode v into
  encode_fields fs rest into'
encode_fields _ _ into = err panicked

unfoldable pub decode_fields : List NamedTypeCodec → Bytes → Fallible (Fields × Bytes)
unfolding settable
decode_fields [] encoded = ok (end, encoded)
decode_fields (f ∷ fs) encoded = do
  (value, encoded') ← f.codec.decode encoded
  settable f.codec.get_type value
  (rest, remaining) ← decode_fields fs encoded'
  ok (field f.name value rest, remaining)

unfoldable pub fields_fixed_size : List NamedTypeCodec → Fallible ℕ
fields_fixed_size [] = ok 0
fields_fixed_size (f ∷ fs) = do
  field_size ← f.codec.fixed_size
  size ← fields_fixed_size fs
  ok (field_size + size)

unfoldable pub fields_size : ℕ → List NamedTypeCodec → Fallible ℕ
fields_size num_items [] = ok 0
fields_size num_items (f ∷ fs) = do
  field_size ← f.codec.size num_items
  size ← fields_size num_items fs
  ok (field_size + size)

-- `Field` of what `Indirect` gives panics at a nil pointer.
unfoldable pub fields_of : Value → Fallible Fields
fields_of (pointer (struct fs)) = ok fs
fields_of _ = err panicked

module _ (fields : List NamedTypeCodec) where
  abbrev pub struct_type : GoType
  struct_type = pointer_to (struct_of (field_types fields))

  unfoldable pub encode_struct : Value → Bytes → Fallible Bytes
  unfolding is_type fields_of encode_fields
  encode_struct v into =
      if is_type (type_of v) struct_type
      then (fields_of v >>= λ fs. encode_fields fields fs into)
      else err invalid_type

  unfoldable pub decode_struct : Bytes → Fallible (Value × Bytes)
  unfolding decode_fields
  decode_struct encoded = do
    (fs, remaining) ← decode_fields fields encoded
    ok (pointer (struct fs), remaining)

  unfoldable pub struct_fixed_size : Fallible ℕ
  unfolding fields_fixed_size
  struct_fixed_size = fields_fixed_size fields

  unfoldable pub size_at_top_level : ℕ → Fallible ℕ
  unfolding fields_size
  size_at_top_level num_items = fields_size num_items fields

  abbrev pub struct_codec : TypeCodec
  struct_codec = record {
    encode = encode_struct;
    decode = decode_struct;
    get_type = struct_type;
    size = λ _. struct_fixed_size;
    fixed_size = struct_fixed_size;
  }

-- `reflect.StructOf` panics at names that it does not take, which `recover` turns into an error.
module _ (struct_of_panics : FieldTypes → Bool) where
  unfoldable pub new_struct_codec : List NamedTypeCodec → Fallible TypeCodec
  unfolding wrap
  new_struct_codec fields =
      let wrapped = map wrap fields in
      if struct_of_panics (field_types wrapped)
      then err invalid_config
      else ok (struct_codec wrapped)

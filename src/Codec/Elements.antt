-- ===== src/Codec/Elements.antt =====
-- pkg/codec/encodings/utils.go, array.go, slice.go and not_nil_pointer.go, and binary/string.go:
-- codecs made of the codec of an element. Both callers of DecodeEach hand it a buffer of exactly
-- the elements asked for, so its length check passes.
use chainlink_common.Base.{
  ℕ, zero, suc, ◌+◌, ◌*◌, ◌/◌, Bool, true, false, Option, none, some, if◌then◌else◌, ltb, ◌==◌, ok,
  err, ◌>>=◌, ◌>>◌, refuse_if,
}
use chainlink_common.Codec.Values.{
  int, GoType, number_type, slice_of, array_of, pointer_to, Value, number, slice, array, pointer,
  Values, nil, cons, count, type_of, is_type,
}
use chainlink_common.Codec.Bytes.{Bytes, capacity}
use chainlink_common.Codec.Interface.{
  invalid_type, invalid_encoding, invalid_config, slice_wrong_len, not_a_slice, internal, panicked,
  Fallible, TypeCodec,
}
use chainlink_common.Codec.Numbers.{as_number}

-- `reflect.Slice` or `reflect.Array`, and what it holds.
unfoldable pub elements : Value → Option Values
elements (slice t vs) = some vs
elements (array t vs) = some vs
elements _ = none

-- `Set`, which panics where the types differ.
unfoldable pub settable : GoType → Value → Fallible (Unit {0})
unfolding is_type
settable t v = refuse_if (if is_type (type_of v) t then false else true) panicked

module _ (codec : TypeCodec) where
  -- The loop of EncodeEach.
  unfoldable pub encode_each : Values → Bytes → Fallible Bytes
  encode_each nil into = ok into
  encode_each (cons v vs) into = do into' ← codec.encode v into; encode_each vs into'

  -- The loop of DecodeEach, for a buffer whose elements have type t.
  unfoldable pub decode_each : GoType → ℕ → Bytes → Fallible (Values × Bytes)
  unfolding settable
  decode_each t zero remaining = ok (nil, remaining)
  decode_each t (suc n) remaining = do
    (element, bytes) ← codec.decode remaining
    settable t element
    (vs, rest) ← decode_each t n bytes
    ok (cons element vs, rest)

module _ (num_elements : ℕ) (field : TypeCodec) where
  unfoldable pub encode_array : Value → Bytes → Fallible Bytes
  unfolding elements encode_each
  encode_array v into = elim (elements v) [
    | none ↦ err not_a_slice
    | some vs ↦
        refuse_if (if count vs == num_elements then false else true) slice_wrong_len
        >> encode_each field vs into
  ]

  unfoldable pub decode_array : Bytes → Fallible (Value × Bytes)
  unfolding decode_each
  decode_array encoded = do
    (vs, remaining) ← decode_each field field.get_type num_elements encoded
    ok (array field.get_type vs, remaining)

  unfoldable pub array_fixed_size : Fallible ℕ
  array_fixed_size = do fs ← field.fixed_size; ok (fs * num_elements)

  abbrev pub array_codec : TypeCodec
  array_codec = record {
    encode = encode_array;
    decode = decode_array;
    get_type = array_of num_elements field.get_type;
    size = λ _. array_fixed_size;
    fixed_size = array_fixed_size;
  }

module _ (field size_codec : TypeCodec) where
  -- `reflect.ValueOf(n).Convert(t)`, at the one type that NewSlice lets through.
  unfoldable pub convert_length : ℕ → Fallible Value
  unfolding is_type
  convert_length n =
      if is_type size_codec.get_type (number_type int) then ok (number int n) else err panicked

  unfoldable pub encode_slice : Value → Bytes → Fallible Bytes
  unfolding elements convert_length encode_each
  encode_slice v into = elim (elements v) [
    | none ↦ err not_a_slice
    | some vs ↦ do
      fs ← size_codec.fixed_size
      refuse_if (ltb (capacity fs) (count vs)) slice_wrong_len
      to_encode ← convert_length (count vs)
      into' ← size_codec.encode to_encode into
      encode_each field vs into'
  ]

  -- `size.(int)`
  unfoldable pub as_length : Value → Fallible ℕ
  unfolding as_number
  as_length v = elim (as_number int v) [
    | none ↦ err internal
    | some n ↦ if ltb n (capacity 8 / 2) then ok n else err invalid_encoding
  ]

  unfoldable pub slice_size : ℕ → Fallible ℕ
  slice_size num_items = do
    size_size ← size_codec.fixed_size
    elem_size ← field.fixed_size
    ok (size_size + elem_size * num_items)

-- `makes n` says whether reflect.MakeSlice returns for n elements: it panics on more than it can
-- allocate.
module _ (makes : ℕ → Bool) (field size_codec : TypeCodec) where
  unfoldable pub decode_slice : Bytes → Fallible (Value × Bytes)
  unfolding as_length decode_each
  decode_slice encoded = do
    (size, remaining) ← size_codec.decode encoded
    n ← as_length field size_codec size
    refuse_if (if makes n then false else true) panicked
    (vs, rest) ← decode_each field field.get_type n remaining
    ok (slice field.get_type vs, rest)

  abbrev pub slice_codec : TypeCodec
  slice_codec = record {
    encode = encode_slice field size_codec;
    decode = decode_slice;
    get_type = slice_of field.get_type;
    size = slice_size field size_codec;
    fixed_size = err invalid_type;
  }

  unfoldable pub new_slice : Fallible TypeCodec
  unfolding is_type
  new_slice =
      if is_type size_codec.get_type (number_type int) then ok slice_codec else err invalid_config

-- not_nil_pointer.go
module _ (elm : TypeCodec) where
  unfoldable pub encode_pointer : Value → Bytes → Fallible Bytes
  encode_pointer (pointer v) into = elm.encode v into
  encode_pointer _ into = err invalid_type

  unfoldable pub decode_pointer : Bytes → Fallible (Value × Bytes)
  unfolding settable
  decode_pointer encoded = do
    (v, remaining) ← elm.decode encoded
    settable elm.get_type v
    ok (pointer v, remaining)

  abbrev pub not_nil_pointer : TypeCodec
  not_nil_pointer = record {
    encode = encode_pointer;
    decode = decode_pointer;
    get_type = pointer_to elm.get_type;
    size = elm.size;
    fixed_size = elm.fixed_size;
  }

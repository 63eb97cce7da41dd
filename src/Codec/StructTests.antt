-- ===== src/Codec/StructTests.antt =====
-- The theorems on structs of pkg/codec/encodings/struct.go at small structs.
use chainlink_common.Base.{
  Option-cases, inl, inr, >>=-eq-ok, ℕ, ◌+◌, ◌≡◌, refl, Bool, false, List, [], ◌∷◌, ◌++◌, All, map,
  length, ok, arith,
}
use chainlink_common.Codec.Values.{
  int, int8, uint16, number_type, FieldTypes, number, array, pointer, struct, Fields, end, field,
  type_of,
}
use chainlink_common.Codec.Bytes.{Bytes, big_endian, put, get}
use chainlink_common.Codec.Interface.{TypeCodec}
use chainlink_common.Codec.Numbers.{
  decode_int, widen, as_number, int_as, encode_number, decode_number,
}
use chainlink_common.Codec.NumberLaws.{
  as_number_self, IsNumber, in_range, fixed_number-RoundTrips, fixed_number-IsTyped,
  fixed_number-IsFixed,
}
use chainlink_common.Codec.IntLaws.{int_as-IsTyped}
use chainlink_common.Codec.Elements.{
  as_length, encode_array, decode_array, encode_pointer, decode_pointer, array_codec, slice_codec,
}
use chainlink_common.Codec.ElementLaws.{
  IsArray, array_of_fitting, array_codec-RoundTrips, array_codec-IsTyped, array_codec-IsFixed,
}
use chainlink_common.Codec.SliceLaws.{Allocates, slice_codec-IsTyped}
use chainlink_common.Codec.Structs.{
  NamedTypeCodec, is_pointer, new_struct_codec, struct_codec, wrap, encode_struct, decode_struct,
}
use chainlink_common.Codec.StructLaws.{points_to}
use chainlink_common.Codec.StructTrips.{
  LawfulField, codecs, wrapped, Fill, new_struct_codec-round_trip,
}
use chainlink_common.Codec.StructSafety.{Declares, FieldIsTyped, new_struct_codec-Declares}
use chainlink_common.Codec.StructSizes.{FixedField, fixed_codecs, new_struct_codec-fixed_size}
use chainlink_common.Codec.Tests.{allocatable, words, two_words, two_words-IsNumber}

-- A struct of a word and an array of two words.
abbrev word_field : LawfulField
word_field = record {
  name = "Word";
  codec = words;
  Fits = IsNumber uint16;
  law = fixed_number-RoundTrips big_endian uint16;
  is_typed = fixed_number-IsTyped big_endian uint16;
}

abbrev pair_field : LawfulField
pair_field = record {
  name = "Pair";
  codec = array_codec 2 words;
  Fits = IsArray 2 words (IsNumber uint16);
  law =
      array_codec-RoundTrips 2 (fixed_number-RoundTrips big_endian uint16)
        (fixed_number-IsTyped big_endian uint16);
  is_typed = array_codec-IsTyped 2 (fixed_number-IsTyped big_endian uint16);
}

abbrev two_fields : List LawfulField
two_fields = word_field ∷ pair_field ∷ []

abbrev filled : Fields
filled =
    field "Word" (pointer (number uint16 258))
      (field "Pair" (pointer (array (number_type uint16) two_words)) end)

abbrev no_panic : FieldTypes → Bool
no_panic fs = false

filled-Fill : Fill (map wrapped two_fields) filled
unfolding is_pointer
filled-Fill = (
  refl,
  points_to (number uint16 258) (in_range 258 (omega arith)),
  (
    refl,
    points_to (array (number_type uint16) two_words)
        (array_of_fitting two_words refl two_words-IsNumber),
    tt,
  ),
)

new_struct_codec-round_trip_example :
    (codec : TypeCodec) × (enc : Bytes) × (new_struct_codec no_panic (codecs two_fields) ≡ ok codec)
    × (codec.encode (pointer (struct filled)) (5 ∷ []) ≡ ok ((5 ∷ []) ++ enc))
    × (codec.decode (enc ++ (6 ∷ [])) ≡ ok (pointer (struct filled), 6 ∷ []))
new_struct_codec-round_trip_example =
    new_struct_codec-round_trip no_panic two_fields filled (5 ∷ []) (6 ∷ []) refl filled-Fill

words-Allocates : Allocates allocatable words (int_as big_endian int8)
unfolding decode_int widen as_length
words-Allocates raw rest v n read sized =
    let ((value, remaining), taken, goes) = >>=-eq-ok (decode_number big_endian int8 raw) _ read in
    let (wide, widened, done) = >>=-eq-ok (widen int8 value) _ goes in
    elim (Option-cases (as_number int8 value)) [
      | inl none_read ↦ ground arith
      | inr (narrow_n, is) ↦ ground (arith, as_number_self int wide)
    ]

abbrev typed_fields : List NamedTypeCodec
typed_fields =
    (record { name = "Word"; codec = words })
    ∷ (record { name = "Words"; codec = slice_codec allocatable words (int_as big_endian int8) })
    ∷ []

typed_fields-IsTyped : All FieldIsTyped typed_fields
typed_fields-IsTyped = (
  fixed_number-IsTyped big_endian uint16,
  (
    slice_codec-IsTyped allocatable words (int_as big_endian int8)
        (fixed_number-IsTyped big_endian uint16) (int_as-IsTyped big_endian int8) words-Allocates,
    tt,
  ),
)

abbrev typed_struct : TypeCodec
typed_struct = struct_codec (map wrap typed_fields)

typed_struct_lem : new_struct_codec no_panic typed_fields ≡ ok typed_struct
unfolding new_struct_codec
typed_struct_lem = refl

-- A word, then a slice of three words that breaks off.
new_struct_codec-Declares_example :
    Declares typed_struct.get_type (typed_struct.decode (1 ∷ 2 ∷ 3 ∷ 0 ∷ []))
new_struct_codec-Declares_example =
    new_struct_codec-Declares no_panic typed_fields (1 ∷ 2 ∷ 3 ∷ 0 ∷ []) typed_fields-IsTyped
      typed_struct_lem

abbrev fixed_fields : List FixedField
fixed_fields =
    (record {
      name = "Word";
      codec = words;
      bytes = 2;
      fixed = fixed_number-IsFixed big_endian uint16;
    })
    ∷ (record {
      name = "Pair";
      codec = array_codec 2 words;
      bytes = 4;
      fixed = array_codec-IsFixed 2 (fixed_number-IsFixed big_endian uint16);
    })
    ∷ []

abbrev fixed_struct : TypeCodec
fixed_struct = struct_codec (map wrap (fixed_codecs fixed_fields))

fixed_struct_lem : new_struct_codec no_panic (fixed_codecs fixed_fields) ≡ ok fixed_struct
unfolding new_struct_codec
fixed_struct_lem = refl

fixed_struct_encodes :
    fixed_struct.encode (pointer (struct filled)) (9 ∷ []) ≡ ok (9 ∷ 1 ∷ 2 ∷ 2 ∷ 1 ∷ 0 ∷ 7 ∷ [])
unfolding encode_struct encode_array encode_pointer encode_number put wrap type_of
fixed_struct_encodes = refl

fixed_struct_decodes :
    fixed_struct.decode (1 ∷ 2 ∷ 2 ∷ 1 ∷ 0 ∷ 7 ∷ 9 ∷ []) ≡ ok (pointer (struct filled), 9 ∷ [])
unfolding decode_struct decode_array decode_pointer decode_number get wrap type_of
fixed_struct_decodes = refl

new_struct_codec-fixed_size_example :
    (fixed_struct.fixed_size ≡ ok 6)
    × (7 ≡ length {A = ℕ} (9 ∷ []) + 6)
    × (7 ≡ 6 + length {A = ℕ} (9 ∷ []))
new_struct_codec-fixed_size_example =
    new_struct_codec-fixed_size no_panic fixed_fields (pointer (struct filled))
      (pointer (struct filled)) (9 ∷ []) (1 ∷ 2 ∷ 2 ∷ 1 ∷ 0 ∷ 7 ∷ 9 ∷ []) fixed_struct_lem
      fixed_struct_encodes fixed_struct_decodes

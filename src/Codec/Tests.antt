-- ===== src/Codec/Tests.antt =====
-- The theorems on pkg/codec/encodings at small codecs.
use chainlink_common.Base.{Bool, ltb, ℕ, zero, suc, ◌≡◌, refl, [], ◌∷◌, ◌++◌, ok, err, arith}
use chainlink_common.Codec.Values.{
  int8, uint8, uint16, number_type, Value, number, slice, Values, nil, cons, Every,
}
use chainlink_common.Codec.Bytes.{Bytes, big_endian, little_endian, put}
use chainlink_common.Codec.Interface.{invalid_encoding, TypeCodec}
use chainlink_common.Codec.Numbers.{fixed_number, int_as, encode_int, encode_number, narrow}
use chainlink_common.Codec.NumberLaws.{
  IsNumber, in_range, fixed_number-RoundTrips, fixed_number-IsTyped,
}
use chainlink_common.Codec.Elements.{encode_slice, decode_slice}
use chainlink_common.Codec.SliceLaws.{slice-round_trip, encode_slice-decode_slice_refuses}

abbrev pub words : TypeCodec
words = fixed_number big_endian uint16

-- A runtime that allocates up to 2 ^ 40 elements.
abbrev pub allocatable : ℕ → Bool
allocatable n = ltb n 0x100_0000_0000

abbrev pub two_words : Values
two_words = cons (number uint16 513) (cons (number uint16 7) nil)

pub two_words-IsNumber : Every (IsNumber uint16) two_words
two_words-IsNumber = (in_range 513 (omega arith), (in_range 7 (omega arith), tt))

abbrev sized_words : Value
sized_words = slice (number_type uint16) two_words

slice-round_trip_example :
    (enc : Bytes) × (encode_slice words (int_as big_endian int8) sized_words (9 ∷ [])
      ≡ ok ((9 ∷ []) ++ enc))
    × (decode_slice allocatable words (int_as big_endian int8) (enc ++ (8 ∷ []))
        ≡ ok (sized_words, 8 ∷ []))
slice-round_trip_example =
    slice-round_trip big_endian int8 tt allocatable (fixed_number-RoundTrips big_endian uint16)
      two_words (9 ∷ []) (8 ∷ []) (fixed_number-IsTyped big_endian uint16) (omega arith) refl
      two_words-IsNumber

-- The bytes on the wire: the size, then each word with its high byte first.
encode_words :
    encode_slice words (int_as big_endian int8) sized_words [] ≡ ok (2 ∷ 2 ∷ 1 ∷ 0 ∷ 7 ∷ [])
unfolding encode_slice encode_int encode_number narrow put
encode_words = refl

-- A slice of n equal bytes.
abbrev sevens : ℕ → Values
sevens zero = nil
sevens (suc n) = cons (number uint8 7) (sevens n)

sevens-IsNumber : (n : ℕ) → Every (IsNumber uint8) (sevens n)
sevens-IsNumber zero = tt
sevens-IsNumber (suc n) = (in_range 7 (omega arith), sevens-IsNumber n)

abbrev pub bytes : TypeCodec
bytes = fixed_number little_endian uint8

abbrev byte_slice : ℕ → Value
byte_slice n = slice (number_type uint8) (sevens n)

encode_slice-decode_slice_refuses_example :
    (enc : Bytes) × (encode_slice bytes (int_as little_endian int8) (byte_slice 128) []
      ≡ ok ([] ++ enc))
    × (decode_slice allocatable bytes (int_as little_endian int8) (enc ++ [])
        ≡ err invalid_encoding)
encode_slice-decode_slice_refuses_example =
    encode_slice-decode_slice_refuses little_endian int8 tt allocatable
      (fixed_number-RoundTrips little_endian uint8) (sevens 128) [] [] (omega arith) (omega arith)
      (sevens-IsNumber 128)

-- ===== src/Codec/Text.antt =====
-- pkg/codec/encodings/binary/string.go: a string as a slice of bytes, with a largest length.
use chainlink_common.Base.{
  ℕ, zero, suc, ◌+◌, ◌/◌, Bool, [], ◌∷◌, length, none, some, if◌then◌else◌, ltb, ◌==◌, ok, err,
  ◌>>=◌, ◌>>◌, refuse_if,
}
use chainlink_common.Codec.Values.{
  int8, int16, int32, int64, uint8, number_type, text_type, Value, number, text, slice, Values, nil,
  cons,
}
use chainlink_common.Codec.Bytes.{Bytes, ByteOrder}
use chainlink_common.Codec.Interface.{invalid_type, invalid_encoding, panicked, Fallible, TypeCodec}
use chainlink_common.Codec.Numbers.{as_number, fixed_number, int_as}
use chainlink_common.Codec.Elements.{encode_slice, decode_slice}

-- `bits.Len`, for a number below 2 ^ fuel.
unfoldable pub bit_len : ℕ → ℕ → ℕ
bit_len zero n = 0
bit_len (suc fuel) n = if n == 0 then 0 else suc (bit_len fuel (n / 2))

-- The bytes that the number of bytes of a string takes; a uint has 64 bits.
unfoldable pub header_size : ℕ → ℕ
unfolding bit_len
header_size max_length = (bit_len 64 max_length + 7) / 8

-- `Int` of the builder, at the sizes that it has kinds for. The others are big integers.
unfoldable pub int_of_size : ByteOrder → ℕ → Fallible TypeCodec → Fallible TypeCodec
int_of_size order n other =
    if n == 1
    then ok (int_as order int8)
    else if n == 2
    then ok (int_as order int16)
    else if n == 4
    then ok (int_as order int32)
    else if n == 8
    then ok (int_as order int64)
    else other

-- `[]byte(str)` and `string(bytes.([]byte))`.
unfoldable pub to_values : Bytes → Values
to_values [] = nil
to_values (b ∷ bs) = cons (number uint8 b) (to_values bs)

unfoldable pub of_values : Values → Fallible Bytes
unfolding as_number
of_values nil = ok []
of_values (cons v vs) = do
  b ← elim (as_number uint8 v) [ some n ↦ ok n | none ↦ err panicked ]
  bs ← of_values vs
  ok (b ∷ bs)

unfoldable pub to_text : Value → Fallible Bytes
unfolding of_values
to_text (slice t vs) = of_values vs
to_text _ = err panicked

module _ (makes : ℕ → Bool) (order : ByteOrder) (size_encoder : TypeCodec) (max_length : ℕ) where
  unfoldable pub encode_string : Value → Bytes → Fallible Bytes
  unfolding to_values
  encode_string (text s) into =
      if ltb max_length (length s)
      then err invalid_type
      else encode_slice (fixed_number order uint8) size_encoder
          (slice (number_type uint8) (to_values s)) into
  encode_string _ into = err invalid_type

  unfoldable pub decode_string : Bytes → Fallible (Value × Bytes)
  unfolding to_text
  decode_string encoded = do
    (bytes, remaining) ← decode_slice makes (fixed_number order uint8) size_encoder encoded
    s ← to_text bytes
    refuse_if (ltb max_length (length s)) invalid_encoding
    ok (text s, remaining)

  abbrev pub string_codec : TypeCodec
  string_codec = record {
    encode = encode_string;
    decode = decode_string;
    get_type = text_type;
    size = λ _. err invalid_type;
    fixed_size = err invalid_type;
  }

unfoldable pub new_string : (ℕ → Bool) → ByteOrder → ℕ → Fallible TypeCodec → Fallible TypeCodec
unfolding header_size int_of_size
new_string makes order max_length other = do
  size_encoder ← int_of_size order (header_size max_length) other
  ok (string_codec makes order size_encoder max_length)

-- ===== src/Codec/Numbers.antt =====
-- pkg/codec/encodings/binary: the codecs of numbers, booleans and oracle ids.
use chainlink_common.Base.{
  ℕ, ◌+◌, ◌-◌, ◌/◌, ◌%◌, Bool, true, false, [], ◌∷◌, ◌++◌, Option, none, some, if◌then◌else◌, ltb,
  ◌==◌, ok, err, ◌>>=◌,
}
use chainlink_common.Codec.Values.{
  Kind, int8, int16, int32, int64, int, uint8, uint16, uint32, uint64, uint, float32, float64,
  boolean_type, number_type, oracle_id_type, empty_type, Value, boolean, number, oracle_id, empty,
  is_kind,
}
use chainlink_common.Codec.Bytes.{Bytes, capacity, ByteOrder, put, get}
use chainlink_common.Codec.Interface.{invalid_type, panicked, Fallible, TypeCodec, safe_decode}

-- `unsafe.Sizeof` of a number, in bytes. The code runs where an int has 64 bits.
abbrev pub bytes_of : Kind → ℕ
bytes_of int8 = 1
bytes_of uint8 = 1
bytes_of int16 = 2
bytes_of uint16 = 2
bytes_of int32 = 4
bytes_of uint32 = 4
bytes_of float32 = 4
bytes_of int64 = 8
bytes_of uint64 = 8
bytes_of float64 = 8
bytes_of int = 8
bytes_of uint = 8

-- The type assertion `value.(k)`.
unfoldable pub as_number : Kind → Value → Option ℕ
unfolding is_kind
as_number k (number j n) = if is_kind k j then some n else none
as_number k _ = none

-- Int8 to Uint64, Float32 and Float64: a number of one kind in its own bytes. `byte(v)` and the
-- conversions between signed and unsigned leave the bit pattern.
module _ (order : ByteOrder) (k : Kind) where
  unfoldable pub encode_number : Value → Bytes → Fallible Bytes
  unfolding as_number
  encode_number v into = elim (as_number k v) [
    | some n ↦ ok (into ++ put order (bytes_of k) n)
    | none ↦ err invalid_type
  ]

  unfoldable pub decode_number : Bytes → Fallible (Value × Bytes)
  unfolding safe_decode
  decode_number raw = safe_decode raw (bytes_of k) (λ bs. number k (get order bs))

  abbrev pub fixed_number : TypeCodec
  fixed_number = record {
    encode = encode_number;
    decode = decode_number;
    get_type = number_type k;
    size = λ _. ok (bytes_of k);
    fixed_size = ok (bytes_of k);
  }

-- int_codec.go: an `int` in the bytes of a narrower codec. `to_int` and `from_int` are the
-- conversions that `Int` hands over.
module _ (codec : TypeCodec) (to_int : Value → Fallible ℕ) (from_int : ℕ → Value) where
  unfoldable pub encode_int : Value → Bytes → Fallible Bytes
  unfolding as_number
  encode_int v into = elim (as_number int v) [
    | some n ↦ codec.encode (from_int n) into
    | none ↦ err invalid_type
  ]

  unfoldable pub decode_int : Bytes → Fallible (Value × Bytes)
  decode_int raw = do
    (value, remaining) ← codec.decode raw
    n ← to_int value
    ok (number int n, remaining)

  abbrev pub int_codec : TypeCodec
  int_codec = record {
    encode = encode_int;
    decode = decode_int;
    get_type = number_type int;
    size = codec.size;
    fixed_size = codec.fixed_size;
  }

-- `int8(v)` and so on: the low bytes.
unfoldable pub narrow : Kind → ℕ → Value
narrow k n = number k (n % capacity (bytes_of k))

-- `int(v.(int8))` and so on: the sign is extended to 64 bits.
unfoldable pub widen : Kind → Value → Fallible ℕ
unfolding as_number
widen k v = elim (as_number k v) [
  | some n ↦
      ok (if ltb n (capacity (bytes_of k) / 2) then n else n + (capacity 8 - capacity (bytes_of k)))
  | none ↦ err panicked
]

-- `Int(1)`, `Int(2)`, `Int(4)` and `Int(8)` for k of these sizes.
abbrev pub int_as : ByteOrder → Kind → TypeCodec
int_as order k = int_codec (fixed_number order k) (widen k) (narrow k)

-- bool.go
unfoldable pub encode_bool : Value → Bytes → Fallible Bytes
encode_bool (boolean true) into = ok (into ++ (1 ∷ []))
encode_bool (boolean false) into = ok (into ++ (0 ∷ []))
encode_bool _ into = err invalid_type

unfoldable pub is_set : Bytes → Bool
is_set [] = false
is_set (b ∷ bs) = if b == 0 then false else true

unfoldable pub decode_bool : Bytes → Fallible (Value × Bytes)
unfolding safe_decode is_set
decode_bool raw = safe_decode raw 1 (λ bs. boolean (is_set bs))

abbrev pub bool_codec : TypeCodec
bool_codec = record {
  encode = encode_bool;
  decode = decode_bool;
  get_type = boolean_type;
  size = λ _. ok 1;
  fixed_size = ok 1;
}

-- oracle_id_codec.go, over Uint8
module _ (order : ByteOrder) where
  unfoldable pub encode_oracle_id : Value → Bytes → Fallible Bytes
  unfolding encode_number
  encode_oracle_id (oracle_id n) into = encode_number order uint8 (number uint8 n) into
  encode_oracle_id _ into = err invalid_type

  -- `decoded.(uint8)`
  unfoldable pub to_oracle_id : Value → Fallible Value
  unfolding as_number
  to_oracle_id v = elim (as_number uint8 v) [ some n ↦ ok (oracle_id n) | none ↦ err panicked ]

  unfoldable pub decode_oracle_id : Bytes → Fallible (Value × Bytes)
  unfolding decode_number to_oracle_id
  decode_oracle_id raw = do
    (decoded, remaining) ← decode_number order uint8 raw
    v ← to_oracle_id decoded
    ok (v, remaining)

  abbrev pub oracle_id_codec : TypeCodec
  oracle_id_codec = record {
    encode = encode_oracle_id;
    decode = decode_oracle_id;
    get_type = oracle_id_type;
    size = λ _. ok 1;
    fixed_size = ok 1;
  }

-- empty.go
abbrev pub empty_codec : TypeCodec
empty_codec = record {
  encode = λ _ into. ok into;
  decode = λ raw. ok (empty, raw);
  get_type = empty_type;
  size = λ _. ok 0;
  fixed_size = ok 0;
}

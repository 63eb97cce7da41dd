-- ===== src/Codec/BigInts.antt =====
-- pkg/codec/encodings/binary/big_integer.go and the big-integer half of builder.go.
use mathlib.Core.List.{reverse}
use chainlink_common.Base.{
  ℕ, ◌≡◌, Bool, true, false, ◌++◌, length, Option, none, some, if◌then◌else◌, ltb, ok, err, ◌>>=◌,
  ◌>>◌, refuse_if, or_fail,
}
use chainlink_common.Base.Int.{ℤ, pos, negsuc}
use chainlink_common.Codec.Values.{big_int_type, Value, big_int, nil_big_int}
use chainlink_common.Codec.Bytes.{Bytes, capacity, ByteOrder, big_endian, little_endian, put, get}
use chainlink_common.Codec.Interface.{
  invalid_type, invalid_config, panicked, Fallible, TypeCodec, safe_decode,
}

-- The signed half of libocr's bigbigendian: big-endian two's complement.
pub record BigBigEndian : Type 0 where
  pub max_size : ℕ
  pub serialize_signed : ℕ → ℤ → Option Bytes
  pub deserialize_signed : ℕ → Bytes → Option ℤ

-- It refuses what does not fit, and otherwise fills the bytes asked for and reads them back.
pub record Documented (lib : BigBigEndian) : Type 0 where
  pub fills :
      (size : ℕ) (z : ℤ) (bs : Bytes) → lib.serialize_signed size z ≡ some bs → length bs ≡ size
  pub reads :
      (size : ℕ) (z : ℤ) (bs : Bytes)
      → lib.serialize_signed size z ≡ some bs
      → lib.deserialize_signed size bs ≡ some z

-- `slices.Reverse` of the bytes, in littleBigInt alone.
unfoldable pub in_order : ByteOrder → Bytes → Bytes
in_order big_endian bs = bs
in_order little_endian bs = reverse bs

-- `i.Sign() < 0`, then `i.BitLen() > size * 8`.
unfoldable pub serialize_unsigned : ByteOrder → ℕ → ℤ → Fallible Bytes
unfolding in_order
serialize_unsigned order size (negsuc n) = err invalid_type
serialize_unsigned order size (pos n) =
    if ltb n (capacity size) then ok (in_order order (put big_endian size n)) else err invalid_type

unfoldable pub deserialize_unsigned : ByteOrder → Bytes → Value
unfolding in_order
deserialize_unsigned order bs = big_int (pos (get big_endian (in_order order bs)))

module _ (lib : BigBigEndian) (order : ByteOrder) (num_bytes : ℕ) where
  unfoldable pub serialize : Bool → ℤ → Fallible Bytes
  unfolding serialize_unsigned
  serialize true z = do
    bs ← or_fail (lib.serialize_signed num_bytes z) invalid_type
    ok (in_order order bs)
  serialize false z = serialize_unsigned order num_bytes z

  -- The error of DeserializeSigned is dropped, which leaves a nil pointer.
  unfoldable pub deserialize_signed : Bytes → Value
  unfolding in_order
  deserialize_signed bs = elim (lib.deserialize_signed num_bytes (in_order order bs)) [
    | some z ↦ big_int z
    | none ↦ nil_big_int
  ]

  unfoldable pub deserialize : Bool → Bytes → Value
  unfolding deserialize_signed deserialize_unsigned
  deserialize true bs = deserialize_signed bs
  deserialize false bs = deserialize_unsigned order bs

  module _ (signed : Bool) where
    unfoldable pub encode_big_int : Value → Bytes → Fallible Bytes
    unfolding serialize
    encode_big_int (big_int z) into = do bs ← serialize signed z; ok (into ++ bs)
    encode_big_int nil_big_int into = err panicked
    encode_big_int _ into = err invalid_type

    unfoldable pub decode_big_int : Bytes → Fallible (Value × Bytes)
    unfolding safe_decode deserialize
    decode_big_int raw = safe_decode raw num_bytes (deserialize signed)

    abbrev pub big_int_codec : TypeCodec
    big_int_codec = record {
      encode = encode_big_int;
      decode = decode_big_int;
      get_type = big_int_type;
      size = λ _. ok num_bytes;
      fixed_size = ok num_bytes;
    }

    unfoldable pub new_big_int : Fallible TypeCodec
    new_big_int = refuse_if (ltb lib.max_size num_bytes) invalid_config >> ok big_int_codec

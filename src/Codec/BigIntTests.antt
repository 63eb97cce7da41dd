-- ===== src/Codec/BigIntTests.antt =====
-- The theorem on big integers at one byte.
use chainlink_common.Base.{
  ℕ, ◌≡◌, ◌⊎◌, true, [], ◌∷◌, ◌++◌, length, Option, none, some, if◌then◌else◌, ◌==◌, ltb, ◌-◌, ok,
  err, arith,
}
use chainlink_common.Base.Int.{ℤ, pos, negsuc}
use chainlink_common.Codec.Values.{big_int}
use chainlink_common.Codec.Bytes.{Bytes, little_endian}
use chainlink_common.Codec.Interface.{invalid_type}
use chainlink_common.Codec.BigInts.{BigBigEndian, Documented, encode_big_int, decode_big_int}
use chainlink_common.Codec.BigIntLaws.{Held, big_int-round_trip}

-- libocr on numbers of one byte.
abbrev serialize_byte : ℕ → ℤ → Option Bytes
serialize_byte size (pos n) =
    if size == 1 then (if ltb n 128 then some (n ∷ []) else none) else none
serialize_byte size (negsuc n) =
    if size == 1 then (if ltb n 128 then some ((255 - n) ∷ []) else none) else none

abbrev deserialize_byte : ℕ → Bytes → Option ℤ
deserialize_byte size [] = none
deserialize_byte size (b ∷ bs) = if ltb b 128 then some (pos b) else some (negsuc (255 - b))

abbrev one_byte : BigBigEndian
one_byte = record {
  max_size = 1;
  serialize_signed = serialize_byte;
  deserialize_signed = deserialize_byte;
}

serialize_byte-length :
    (size : ℕ) (z : ℤ) (bs : Bytes) → serialize_byte size z ≡ some bs → length bs ≡ size
serialize_byte-length size (pos n) bs h = ground arith
serialize_byte-length size (negsuc n) bs h = ground arith

deserialize_byte-serialize_byte :
    (size : ℕ) (z : ℤ) (bs : Bytes)
    → serialize_byte size z ≡ some bs
    → deserialize_byte size bs ≡ some z
deserialize_byte-serialize_byte size (pos n) bs h = ground arith
deserialize_byte-serialize_byte size (negsuc n) bs h = ground arith

one_byte-Documented : Documented one_byte
one_byte-Documented = record {
  fills = serialize_byte-length;
  reads = deserialize_byte-serialize_byte;
}

big_int-round_trip_example :
    (Held one_byte 1 true (negsuc 4)
      × ((enc : Bytes) × (encode_big_int one_byte little_endian 1 true (big_int (negsuc 4)) []
            ≡ ok ([] ++ enc))
          × (length enc ≡ 1)
          × (decode_big_int one_byte little_endian 1 true (enc ++ [])
              ≡ ok (big_int (negsuc 4), []))))
    ⊎ ((¬ (Held one_byte 1 true (negsuc 4)))
        × (encode_big_int one_byte little_endian 1 true (big_int (negsuc 4)) [] ≡ err invalid_type))
big_int-round_trip_example =
    big_int-round_trip one_byte-Documented little_endian 1 true (negsuc 4) [] []

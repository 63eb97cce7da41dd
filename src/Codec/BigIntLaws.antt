-- ===== src/Codec/BigIntLaws.antt =====
-- big_integer.go keeps the laws of a codec, signed or not, given what libocr documents.
use mathlib.Core.List.{reverse-reverse}
use chainlink_common.Base.{
  ℕ, ◌≡◌, ◌<◌, refl, ap, ◌⊎◌, ◌∙◌, Bool, true, false, ◌++◌, length, Option-cases, some, ltb,
  Bool-cases, ok, err, arith, inl, inr,
}
use chainlink_common.Base.Int.{ℤ, pos, negsuc}
use chainlink_common.Codec.Values.{Value, big_int}
use chainlink_common.Codec.Bytes.{
  Bytes, capacity, ByteOrder, big_endian, little_endian, put, get-put, length-put, length-reverse,
}
use chainlink_common.Codec.Interface.{invalid_type, safe_decode-append}
use chainlink_common.Codec.BigInts.{
  BigBigEndian, Documented, in_order, serialize_unsigned, deserialize_unsigned, serialize,
  deserialize_signed, deserialize, encode_big_int, decode_big_int,
}

in_order_twice : (order : ByteOrder) (bs : Bytes) → in_order order (in_order order bs) ≡ bs
unfolding in_order
in_order_twice big_endian bs = refl
in_order_twice little_endian bs = reverse-reverse bs

length-in_order : (order : ByteOrder) (bs : Bytes) → length (in_order order bs) ≡ length bs
unfolding in_order
length-in_order big_endian bs = refl
length-in_order little_endian bs = length-reverse bs

-- The integers that there are bytes for: what libocr takes, or an unsigned number below 2 ^ (8 *
-- n).
abbrev pub Held : BigBigEndian → ℕ → Bool → ℤ → Type 0
Held lib num_bytes true z = (bs : Bytes) × (lib.serialize_signed num_bytes z ≡ some bs)
Held lib num_bytes false (pos n) = n < capacity num_bytes
Held lib num_bytes false (negsuc n) = ⊥

module _ {lib : BigBigEndian} (documented : Documented lib) (order : ByteOrder)
    (num_bytes : ℕ) where
  -- What is serialized fills the bytes of the codec.
  length-serialize :
      (signed : Bool) (z : ℤ) (bs : Bytes)
      → serialize lib order num_bytes signed z ≡ ok bs
      → length bs ≡ num_bytes
  unfolding serialize serialize_unsigned
  length-serialize true z bs h = elim (Option-cases (lib.serialize_signed num_bytes z)) [
    | inl e ↦ ground arith
    | inr (b, e) ↦ ground (arith, length-in_order order b, documented.fills num_bytes z b e)
  ]
  length-serialize false (negsuc n) bs h = cc
  length-serialize false (pos n) bs h =
      ground (
        arith,
        length-in_order order (put big_endian num_bytes n),
        length-put big_endian num_bytes n,
      )

  deserialize_signed_lem :
      (z : ℤ) (bs : Bytes)
      → lib.deserialize_signed num_bytes (in_order order bs) ≡ some z
      → deserialize_signed lib order num_bytes bs ≡ big_int z
  unfolding deserialize_signed
  deserialize_signed_lem z bs h = rw (h, deserialize_signed)

  deserialize-serialize :
      (signed : Bool) (z : ℤ) (bs : Bytes)
      → serialize lib order num_bytes signed z ≡ ok bs
      → deserialize lib order num_bytes signed bs ≡ big_int z
  unfolding serialize serialize_unsigned deserialize deserialize_unsigned
  deserialize-serialize true z bs h = elim (Option-cases (lib.serialize_signed num_bytes z)) [
    | inl e ↦ ground arith
    | inr (b, e) ↦
        let same : in_order order b ≡ bs = ground arith in
        rw (← same) (
          deserialize_signed_lem z (in_order order b)
            (rw (in_order_twice order b) (documented.reads num_bytes z b e)))
  ]
  deserialize-serialize false (negsuc n) bs h = cc
  deserialize-serialize false (pos n) bs h = elim (Bool-cases (ltb n (capacity num_bytes))) [
    | inr e ↦ ground arith
    | inl e ↦
        let same : in_order order (put big_endian num_bytes n) ≡ bs = ground arith in
        rw (← same) (
          rw (
            in_order_twice order (put big_endian num_bytes n),
            get-put big_endian num_bytes n (ground arith),
          ))
  ]

  module _ (signed : Bool) where
    encode_big_int_lem :
        (z : ℤ) (bs into : Bytes)
        → serialize lib order num_bytes signed z ≡ ok bs
        → encode_big_int lib order num_bytes signed (big_int z) into ≡ ok (into ++ bs)
    unfolding encode_big_int
    encode_big_int_lem z bs into h = rw h

    decode_big_int_lem :
        (z : ℤ) (bs rest : Bytes)
        → serialize lib order num_bytes signed z ≡ ok bs
        → decode_big_int lib order num_bytes signed (bs ++ rest) ≡ ok (big_int z, rest)
    unfolding decode_big_int
    decode_big_int_lem z bs rest h =
        safe_decode-append (deserialize lib order num_bytes signed) num_bytes bs rest
          (length-serialize signed z bs h)
        ∙ ap (λ (v : Value). ok (v, rest)) (deserialize-serialize signed z bs h)

  serialize-cases :
      (signed : Bool) (z : ℤ)
      → (Held lib num_bytes signed z
          × ((bs : Bytes) × (serialize lib order num_bytes signed z ≡ ok bs)))
        ⊎ ((¬ (Held lib num_bytes signed z))
            × (serialize lib order num_bytes signed z ≡ err invalid_type))
  unfolding serialize serialize_unsigned
  serialize-cases true z = elim (Option-cases (lib.serialize_signed num_bytes z)) [
    | inl e ↦ inr ((λ h. cc (e, h.1)), rw e)
    | inr (b, e) ↦ inl ((b, e), (in_order order b, rw e))
  ]
  serialize-cases false (negsuc n) = inr ((λ h. h), refl)
  serialize-cases false (pos n) = elim (Bool-cases (ltb n (capacity num_bytes))) [
    | inl e ↦ inl (ground arith, (in_order order (put big_endian num_bytes n), rw e))
    | inr e ↦ inr ((λ h. ground arith), rw e)
  ]

  -- Where libocr's serialization does as documented: a big integer that the codec has bytes for is
  -- appended, in either byte order, to the bytes there are, in exactly the bytes of the codec, and
  -- is read back unchanged with the bytes after it left; any other is refused as an invalid type.
  pub big_int-round_trip :
      (signed : Bool) (z : ℤ) (into rest : Bytes)
      → (Held lib num_bytes signed z
          × ((enc : Bytes) × (encode_big_int lib order num_bytes signed (big_int z) into
                ≡ ok (into ++ enc))
              × (length enc ≡ num_bytes)
              × (decode_big_int lib order num_bytes signed (enc ++ rest) ≡ ok (big_int z, rest))))
        ⊎ ((¬ (Held lib num_bytes signed z))
            × (encode_big_int lib order num_bytes signed (big_int z) into ≡ err invalid_type))
  unfolding encode_big_int
  big_int-round_trip signed z into rest = elim (serialize-cases signed z) [
    | inl (held, (bs, h)) ↦ inl (
      held,
      (
        bs,
        encode_big_int_lem signed z bs into h,
        length-serialize signed z bs h,
        decode_big_int_lem signed z bs rest h,
      ),
    )
    | inr (lost, h) ↦ inr (lost, rw h)
  ]

-- ===== src/Codec/SliceLaws.antt =====
-- slice.go over an int size codec: which slices come back, and which ones do not.
use mathlib.Core.List.{append_assoc}
use chainlink_common.Base.{
  ℕ, ◌+◌, ◌-◌, ◌/◌, ◌<◌, ◌≤◌, ◌≡◌, ◌≢◌, ◌++◌, Option-cases, Result-cases, >>=-eq-ok, ok, err, arith,
  inl, inr, Bool, true, false, refuse_if, if◌then◌else◌,
}
use chainlink_common.Codec.Values.{
  Kind, int, number, Value, Values, nil, count, Every, slice, slice_of, type_of, number_type,
  is_type_self,
}
use chainlink_common.Codec.Bytes.{Bytes, capacity, ByteOrder}
use chainlink_common.Codec.Interface.{
  panicked, invalid_encoding, slice_wrong_len, TypeCodec, RoundTrips, IsTyped,
}
use chainlink_common.Codec.Numbers.{bytes_of, int_as}
use chainlink_common.Codec.NumberLaws.{as_number_self}
use chainlink_common.Codec.Numbers.{as_number}
use chainlink_common.Codec.IntLaws.{
  Signed, capacity-Signed, widen-narrow_full, int_as_takes, widen-narrow_low, widen-narrow_wrapped,
}
use chainlink_common.Codec.Elements.{
  decode_each, encode_slice, decode_slice, slice_codec, as_length, convert_length,
}
use chainlink_common.Codec.ElementLaws.{
  wire_each, encode_each-eq_ok, decode_each-eq_ok, decode_each_calm,
}

module _ (field size_codec : TypeCodec) where
  as_length_ok : (n : ℕ) → n < capacity 8 / 2 → as_length field size_codec (number int n) ≡ ok n
  unfolding as_length
  as_length_ok n h = ground (arith, as_number_self int n)

  as_length_negative :
      (n : ℕ)
      → capacity 8 / 2 ≤ n
      → as_length field size_codec (number int n) ≡ err invalid_encoding
  unfolding as_length
  as_length_negative n h = ground (arith, as_number_self int n)

module _ (order : ByteOrder) (k : Kind) (signed : Signed k) (makes : ℕ → Bool)
    {field : TypeCodec} where
  module _ {Fits : Value → Type 0} (law : RoundTrips field Fits) where
    -- Up to the full capacity the header is written, whatever it reads as.
    encode_slice_takes :
        (vs : Values) (into head : Bytes)
        → count vs ≤ capacity (bytes_of k)
        → Every Fits vs
        → (int_as order k).encode (number int (count vs)) into ≡ ok (into ++ head)
        → encode_slice field (int_as order k) (slice field.get_type vs) into
          ≡ ok (into ++ (head ++ wire_each law vs))
    unfolding encode_slice convert_length
    encode_slice_takes vs into head small fits h = ground (
      arith,
      is_type_self (number_type int),
      encode_each-eq_ok law vs (into ++ head) fits,
      append_assoc into head (wire_each law vs),
    )

    -- A slice of fewer elements than half of what the size's bytes can count, each of them one that
    -- its codec brings back and that can all be allocated at once, is appended to what is there,
    -- and is read back with the bytes after it.
    pub slice-round_trip :
        (vs : Values) (into rest : Bytes)
        → IsTyped field
        → count vs < capacity (bytes_of k) / 2
        → makes (count vs) ≡ true
        → Every Fits vs
        → (enc : Bytes) × (encode_slice field (int_as order k) (slice field.get_type vs) into
            ≡ ok (into ++ enc))
          × (decode_slice makes field (int_as order k) (enc ++ rest)
              ≡ ok (slice field.get_type vs, rest))
    unfolding decode_slice
    slice-round_trip vs into rest typed few room fits =
        let (head, write, read) =
          int_as_takes order k signed (count vs) (count vs)
            (widen-narrow_low k (count vs) signed few) in
        (
          head ++ wire_each law vs,
          encode_slice_takes vs into head (omega arith) fits (write into),
          rw (
            append_assoc head (wire_each law vs) rest,
            read (wire_each law vs ++ rest),
            as_length_ok field (int_as order k) (count vs)
                (omega (arith, capacity-Signed k signed)),
            room,
            decode_each-eq_ok law typed vs rest fits,
          ),
        )

    -- From half of that count up to the count that the size's bytes can hold, less one, the slice
    -- is written without an error, and no decoder of the same codec reads what was written.
    pub encode_slice-decode_slice_refuses :
        (vs : Values) (into rest : Bytes)
        → capacity (bytes_of k) / 2 ≤ count vs
        → count vs < capacity (bytes_of k)
        → Every Fits vs
        → (enc : Bytes) × (encode_slice field (int_as order k) (slice field.get_type vs) into
            ≡ ok (into ++ enc))
          × (decode_slice makes field (int_as order k) (enc ++ rest) ≡ err invalid_encoding)
    unfolding decode_slice
    encode_slice-decode_slice_refuses vs into rest many most fits =
        let wrapped = widen-narrow_wrapped k (count vs) signed many most in
        let (head, write, read) = int_as_takes order k signed (count vs) _ wrapped in
        (
          head ++ wire_each law vs,
          encode_slice_takes vs into head (omega arith) fits (write into),
          rw (
            append_assoc head (wire_each law vs) rest,
            read (wire_each law vs ++ rest),
            as_length_negative field (int_as order k)
                (count vs + (capacity 8 - capacity (bytes_of k)))
                (omega (arith, capacity-Signed k signed)),
          ),
        )

    -- A slice of as many elements as the size's bytes have values passes the check of its length.
    -- Its size is written as zero, so it is read back as the empty slice, with its elements left
    -- over.
    pub encode_slice-decode_slice_empty :
        (vs : Values) (into rest : Bytes)
        → count vs ≡ capacity (bytes_of k)
        → makes 0 ≡ true
        → Every Fits vs
        → (head elements : Bytes) × (encode_slice field
              (int_as order k)
              (slice field.get_type vs)
              into
            ≡ ok (into ++ (head ++ elements)))
          × (decode_slice makes field (int_as order k) ((head ++ elements) ++ rest)
              ≡ ok (slice field.get_type nil, elements ++ rest))
    unfolding decode_slice decode_each
    encode_slice-decode_slice_empty vs into rest full room fits =
        let (head, write, read) =
          int_as_takes order k signed (count vs) 0 (rw full (widen-narrow_full k signed)) in
        (
          head,
          wire_each law vs,
          encode_slice_takes vs into head (omega arith) fits (write into),
          rw (append_assoc head (wire_each law vs) rest, read (wire_each law vs ++ rest), room),
        )

    -- One element more is refused.
    encode_slice_too_long :
        (vs : Values) (into : Bytes)
        → capacity (bytes_of k) < count vs
        → encode_slice field (int_as order k) (slice field.get_type vs) into ≡ err slice_wrong_len
    unfolding encode_slice
    encode_slice_too_long vs into h = ground arith

module _ (field size_codec : TypeCodec) where
  as_length_calm : (v : Value) → as_length field size_codec v ≢ err panicked
  unfolding as_length
  as_length_calm v h = elim (Option-cases (as_number int v)) [
    | inl e ↦ ground arith
    | inr (n, e) ↦ ground arith
  ]

module _ (makes : ℕ → Bool) (field size_codec : TypeCodec) where
  -- Every length that the codec of the size reads can be allocated.
  abbrev pub Allocates : Type 0
  Allocates =
      (raw rest : Bytes) (v : Value) (n : ℕ)
      → size_codec.decode raw ≡ ok (v, rest)
      → as_length field size_codec v ≡ ok n
      → makes n ≡ true

  decode_slice-type_of :
      (raw : Bytes) {v : Value} {rest : Bytes}
      → decode_slice makes field size_codec raw ≡ ok (v, rest)
      → type_of v ≡ slice_of field.get_type
  unfolding decode_slice type_of
  decode_slice-type_of raw h =
      let (r, e, k) = >>=-eq-ok (size_codec.decode raw) _ h in
      let (n, e', k') = >>=-eq-ok (as_length field size_codec r.0) _ k in
      let (_, room, read) = >>=-eq-ok (refuse_if (if makes n then false else true) panicked) _ k' in
      let (q, e'', k'') = >>=-eq-ok (decode_each field field.get_type n r.1) _ read in ground arith

  module _ (typed : IsTyped field) (sized : IsTyped size_codec) (allocates : Allocates) where
    decode_slice_calm : (raw : Bytes) → decode_slice makes field size_codec raw ≢ err panicked
    unfolding decode_slice
    decode_slice_calm raw h = elim (Result-cases (size_codec.decode raw)) [
      | inr (e, bad) ↦ sized.calm raw (ground arith)
      | inl ((v, rest), good) ↦ elim (Result-cases (as_length field size_codec v)) [
        | inr (e, bad) ↦ as_length_calm field size_codec v (ground arith)
        | inl (n, length_read) ↦
            let room : makes n ≡ true = allocates raw rest v n good length_read in
            ground (arith, decode_each_calm typed n rest)
      ]
    ]

    pub slice_codec-IsTyped : IsTyped (slice_codec makes field size_codec)
    slice_codec-IsTyped = record { declared = decode_slice-type_of; calm = decode_slice_calm }

-- ===== src/Codec/NumberLaws.antt =====
-- The codecs of numbers keep the laws of a codec, in either byte order.
use chainlink_common.Base.{
  ℕ, ◌+◌, ◌≡◌, ◌<◌, refl, ◌++◌, length, length-append, Option-cases, some, ok, arith, inl, inr,
}
use chainlink_common.Codec.Values.{Kind, number_type, Value, number, is_kind_self, type_of}
use chainlink_common.Codec.Bytes.{Bytes, capacity, ByteOrder, put, get, get-put, length-put}
use chainlink_common.Codec.Interface.{
  RoundTrips, IsTyped, IsFixed, safe_decode, safe_decode-append, safe_decode-length,
  safe_decode_calm,
}
use chainlink_common.Codec.Numbers.{bytes_of, as_number, fixed_number, encode_number, decode_number}

-- A number whose bit pattern is no wider than its kind.
pub data IsNumber (k : Kind) : Value → Type 0 where
  in_range : (n : ℕ) → n < capacity (bytes_of k) → IsNumber k (number k n)

abbrev pattern_of : Value → ℕ
pattern_of (number k n) = n
pattern_of _ = 0

pub as_number_self : (k : Kind) (n : ℕ) → as_number k (number k n) ≡ some n
unfolding as_number
as_number_self k n = ground (arith, is_kind_self k)

-- Type assertion succeeds on a value of that type.
pub as_number-type_of :
    (k : Kind) (v : Value) → type_of v ≡ number_type k → (n : ℕ) × (as_number k v ≡ some n)
unfolding type_of
as_number-type_of k (number j n) h = let e : j ≡ k = cc in (n, rw e (as_number_self k n))
as_number-type_of k _ h = absurd (cc)

module _ (order : ByteOrder) (k : Kind) where
  fixed_number-encodes :
      (v : Value) (into : Bytes)
      → IsNumber k v
      → encode_number order k v into ≡ ok (into ++ put order (bytes_of k) (pattern_of v))
  unfolding encode_number
  fixed_number-encodes _ into (in_range n h) = ground (arith, as_number_self k n)

  fixed_number-decodes :
      (v : Value) (rest : Bytes)
      → IsNumber k v
      → decode_number order k (put order (bytes_of k) (pattern_of v) ++ rest) ≡ ok (v, rest)
  unfolding decode_number
  fixed_number-decodes _ rest (in_range n h) = rw (
    safe_decode-append (λ bs. number k (get order bs)) (bytes_of k) (put order (bytes_of k) n) rest
        (length-put order (bytes_of k) n),
    get-put order (bytes_of k) n h,
  )

  pub fixed_number-RoundTrips : RoundTrips (fixed_number order k) (IsNumber k)
  fixed_number-RoundTrips = record {
    wire = λ v. put order (bytes_of k) (pattern_of v);
    encodes = fixed_number-encodes;
    decodes = fixed_number-decodes;
  }

  decode_number-type_of :
      (raw : Bytes) {v : Value} {rest : Bytes}
      → decode_number order k raw ≡ ok (v, rest)
      → type_of v ≡ number_type k
  unfolding decode_number safe_decode type_of
  decode_number-type_of raw h = ground arith

  pub fixed_number-IsTyped : IsTyped (fixed_number order k)
  unfolding decode_number
  fixed_number-IsTyped = record {
    declared = decode_number-type_of;
    calm = safe_decode_calm (λ bs. number k (get order bs)) (bytes_of k);
  }

  encode_number-length :
      (v : Value) (into : Bytes) {out : Bytes}
      → encode_number order k v into ≡ ok out
      → length out ≡ length into + bytes_of k
  unfolding encode_number
  encode_number-length v into h = elim (Option-cases (as_number k v)) [
    | inl e ↦ ground arith
    | inr (n, e) ↦
        ground
          (arith, length-append into (put order (bytes_of k) n), length-put order (bytes_of k) n)
  ]

  pub fixed_number-IsFixed : IsFixed (fixed_number order k) (bytes_of k)
  unfolding decode_number
  fixed_number-IsFixed = record {
    reported = refl;
    reads = safe_decode-length (λ bs. number k (get order bs)) (bytes_of k);
    writes = encode_number-length;
  }

-- ===== src/Codec/IntLaws.antt =====
-- `Int(1)` to `Int(8)` of int_gen.go keep the laws of a codec for the ints that they can hold.
use chainlink_common.Base.{
  ℕ, ◌+◌, ◌-◌, ◌*◌, ◌/◌, ◌≡◌, ◌<◌, ◌≤◌, ◌≢◌, refl, ◌++◌, length, Option-cases, Result-cases, ok,
  err, arith, inl, inr,
}
use chainlink_common.Codec.Values.{
  Kind, int8, int16, int32, int64, int, number_type, Value, number, type_of,
}
use chainlink_common.Codec.Bytes.{Bytes, capacity, ByteOrder}
use chainlink_common.Codec.Interface.{panicked, RoundTrips, IsTyped, IsFixed}
use chainlink_common.Codec.Numbers.{
  bytes_of, as_number, fixed_number, decode_number, int_as, encode_int, decode_int, narrow, widen,
}
use chainlink_common.Codec.NumberLaws.{
  IsNumber, in_range, as_number_self, as_number-type_of, fixed_number-RoundTrips,
  fixed_number-IsTyped, fixed_number-IsFixed,
}

abbrev pub Signed : Kind → Type 0
Signed int8 = Unit
Signed int16 = Unit
Signed int32 = Unit
Signed int64 = Unit
Signed _ = ⊥

-- An int that the signed kind holds, its sign bit extended.
pub data IsInt (k : Kind) : Value → Type 0 where
  nonneg : (n : ℕ) → n < capacity (bytes_of k) / 2 → IsInt k (number int n)
  negative :
      (n : ℕ) → capacity 8 ≤ n + capacity (bytes_of k) / 2 → n < capacity 8 → IsInt k (number int n)

pub widen-narrow_low :
    (k : Kind) (n : ℕ) → Signed k → n < capacity (bytes_of k) / 2 → widen k (narrow k n) ≡ ok n
unfolding widen narrow
widen-narrow_low int8 n s h = ground arith
widen-narrow_low int16 n s h = ground arith
widen-narrow_low int32 n s h = ground arith
widen-narrow_low int64 n s h = ground arith
widen-narrow_low k n s h = ground arith

narrow-IsNumber : (k : Kind) (n : ℕ) → Signed k → IsNumber k (narrow k n)
unfolding narrow
narrow-IsNumber int8 n s = in_range _ (omega arith)
narrow-IsNumber int16 n s = in_range _ (omega arith)
narrow-IsNumber int32 n s = in_range _ (omega arith)
narrow-IsNumber int64 n s = in_range _ (omega arith)
narrow-IsNumber k n s = ground arith

pub widen-narrow_high :
    (k : Kind) (n : ℕ)
    → Signed k
    → capacity 8 ≤ n + capacity (bytes_of k) / 2
    → n < capacity 8
    → widen k (narrow k n) ≡ ok n
unfolding widen narrow
widen-narrow_high int8 n s h l = ground arith
widen-narrow_high int16 n s h l = ground arith
widen-narrow_high int32 n s h l = ground arith
widen-narrow_high int64 n s h l = ground arith
widen-narrow_high k n s h l = ground arith

-- From half of the capacity on, the sign bit of the narrow number is set.
pub widen-narrow_wrapped :
    (k : Kind) (n : ℕ)
    → Signed k
    → capacity (bytes_of k) / 2 ≤ n
    → n < capacity (bytes_of k)
    → widen k (narrow k n) ≡ ok (n + (capacity 8 - capacity (bytes_of k)))
unfolding widen narrow
widen-narrow_wrapped int8 n s h l = ground arith
widen-narrow_wrapped int16 n s h l = ground arith
widen-narrow_wrapped int32 n s h l = ground arith
widen-narrow_wrapped int64 n s h l = ground arith
widen-narrow_wrapped k n s h l = ground arith

-- At the capacity itself nothing but zero bytes are left.
pub widen-narrow_full : (k : Kind) → Signed k → widen k (narrow k (capacity (bytes_of k))) ≡ ok 0
unfolding widen narrow as_number
widen-narrow_full int8 s = refl
widen-narrow_full int16 s = refl
widen-narrow_full int32 s = refl
widen-narrow_full int64 s = refl
widen-narrow_full k s = ground arith

pub capacity-Signed :
    (k : Kind)
    → Signed k
    → (capacity (bytes_of k) ≤ capacity 8)
      × (capacity (bytes_of k) ≡ 2 * (capacity (bytes_of k) / 2))
      × (0 < capacity (bytes_of k))
capacity-Signed int8 s = omega arith
capacity-Signed int16 s = omega arith
capacity-Signed int32 s = omega arith
capacity-Signed int64 s = omega arith
capacity-Signed k s = ground arith

abbrev int_bits : Value → ℕ
int_bits (number k n) = n
int_bits _ = 0

module _ (order : ByteOrder) (k : Kind) (signed : Signed k) where
  abbrev inner : RoundTrips (fixed_number order k) (IsNumber k)
  inner = fixed_number-RoundTrips order k

  abbrev int_wire : Value → Bytes
  int_wire v = inner.wire (narrow k (int_bits v))

  encode_int_lem :
      (n : ℕ) (into : Bytes)
      → (int_as order k).encode (number int n) into ≡ ok (into ++ inner.wire (narrow k n))
  unfolding encode_int
  encode_int_lem n into =
      ground
        (arith, as_number_self int n, inner.encodes (narrow k n) into (narrow-IsNumber k n signed))

  decode_int_lem :
      (n m : ℕ) (rest : Bytes)
      → widen k (narrow k n) ≡ ok m
      → (int_as order k).decode (inner.wire (narrow k n) ++ rest) ≡ ok (number int m, rest)
  unfolding decode_int
  decode_int_lem n m rest h = rw (inner.decodes (narrow k n) rest (narrow-IsNumber k n signed), h)

  int_as-encodes :
      (v : Value) (into : Bytes)
      → IsInt k v
      → (int_as order k).encode v into ≡ ok (into ++ int_wire v)
  int_as-encodes _ into (nonneg n h) = encode_int_lem n into
  int_as-encodes _ into (negative n h l) = encode_int_lem n into

  int_as-decodes :
      (v : Value) (rest : Bytes)
      → IsInt k v
      → (int_as order k).decode (int_wire v ++ rest) ≡ ok (v, rest)
  int_as-decodes _ rest (nonneg n h) = decode_int_lem n n rest (widen-narrow_low k n signed h)
  int_as-decodes _ rest (negative n h l) =
      decode_int_lem n n rest (widen-narrow_high k n signed h l)

  pub int_as-RoundTrips : RoundTrips (int_as order k) (IsInt k)
  int_as-RoundTrips = record { wire = int_wire; encodes = int_as-encodes; decodes = int_as-decodes }

  -- Any number is taken, cut down to the low bytes, and read back with their sign.
  pub int_as_takes :
      (n m : ℕ)
      → widen k (narrow k n) ≡ ok m
      → (enc : Bytes) × ((into : Bytes)
          → (int_as order k).encode (number int n) into ≡ ok (into ++ enc))
        × ((rest : Bytes) → (int_as order k).decode (enc ++ rest) ≡ ok (number int m, rest))
  int_as_takes n m h =
      (inner.wire (narrow k n), encode_int_lem n, λ rest. decode_int_lem n m rest h)

module _ (order : ByteOrder) (k : Kind) where
  int_as-type_of :
      (raw : Bytes) {v : Value} {rest : Bytes}
      → (int_as order k).decode raw ≡ ok (v, rest)
      → type_of v ≡ number_type int
  unfolding decode_int type_of
  int_as-type_of raw h = ground arith

  widen_ok : (v : Value) → type_of v ≡ number_type k → (n : ℕ) × (widen k v ≡ ok n)
  unfolding widen
  widen_ok v h = let (n, e) = as_number-type_of k v h in rw (e, widen) (_, refl)

  int_as_calm : (raw : Bytes) → (int_as order k).decode raw ≢ err panicked
  unfolding decode_int
  int_as_calm raw h = elim (Result-cases (decode_number order k raw)) [
    | inr (e, bad) ↦ (fixed_number-IsTyped order k).calm raw (ground arith)
    | inl ((v, rest), good) ↦
        ground (arith, (widen_ok v ((fixed_number-IsTyped order k).declared raw good)).1)
  ]

  pub int_as-IsTyped : IsTyped (int_as order k)
  int_as-IsTyped = record { declared = int_as-type_of; calm = int_as_calm }

  int_as_reads :
      (raw : Bytes) {v : Value} {rest : Bytes}
      → (int_as order k).decode raw ≡ ok (v, rest)
      → length raw ≡ bytes_of k + length rest
  unfolding decode_int
  int_as_reads raw h = elim (Result-cases (decode_number order k raw)) [
    | inr (e, bad) ↦ ground arith
    | inl ((v, rest), good) ↦ ground (arith, (fixed_number-IsFixed order k).reads raw good)
  ]

  int_as_writes :
      (v : Value) (into : Bytes) {out : Bytes}
      → (int_as order k).encode v into ≡ ok out
      → length out ≡ length into + bytes_of k
  unfolding encode_int
  int_as_writes v into {out = out} h = elim (Option-cases (as_number int v)) [
    | inl e ↦ ground arith
    | inr (n, e) ↦
        ground (arith, (fixed_number-IsFixed order k).writes (narrow k n) into {out = out})
  ]

  pub int_as-IsFixed : IsFixed (int_as order k) (bytes_of k)
  int_as-IsFixed = record { reported = refl; reads = int_as_reads; writes = int_as_writes }

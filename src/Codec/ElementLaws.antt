-- ===== src/Codec/ElementLaws.antt =====
-- The loops over elements, arrays and pointers keep the laws of a codec.
use mathlib.Core.List.{append-nil, append_assoc}
use chainlink_common.Base.{
  ℕ, zero, suc, ◌+◌, ◌*◌, ◌≡◌, ◌≢◌, refl, [], ◌++◌, length, Option-cases, Result-cases, >>=-eq-ok,
  sym, ap, ok, err, arith, inl, inr,
}
use chainlink_common.Codec.Values.{
  GoType, Value, Values, nil, cons, count, Every, array, array_of, type_of, is_type_self,
}
use chainlink_common.Codec.Bytes.{Bytes}
use chainlink_common.Codec.Interface.{panicked, TypeCodec, RoundTrips, IsTyped, IsFixed}
use chainlink_common.Codec.Elements.{
  elements, settable, encode_each, decode_each, encode_array, decode_array, array_codec,
  array_fixed_size,
}

pub settable_lem : (t : GoType) (v : Value) → type_of v ≡ t → settable t v ≡ ok tt
unfolding settable
settable_lem t v h = rw (h, is_type_self t)

module _ {codec : TypeCodec} where
  module _ {Fits : Value → Type 0} (law : RoundTrips codec Fits) where
    pub wire_each : Values → Bytes
    wire_each nil = []
    wire_each (cons v vs) = law.wire v ++ wire_each vs

    pub encode_each-eq_ok :
        (vs : Values) (into : Bytes)
        → Every Fits vs
        → encode_each codec vs into ≡ ok (into ++ wire_each vs)
    unfolding encode_each wire_each
    encode_each-eq_ok nil into fits = ap ok (sym (append-nil into))
    encode_each-eq_ok (cons v vs) into fits =
        rw (law.encodes v into fits.0, encode_each-eq_ok vs (into ++ law.wire v) fits.1)
          (ap ok (append_assoc into (law.wire v) (wire_each vs)))

    module _ (typed : IsTyped codec) where
      pub decode_each-eq_ok :
          (vs : Values) (rest : Bytes)
          → Every Fits vs
          → decode_each codec codec.get_type (count vs) (wire_each vs ++ rest) ≡ ok (vs, rest)
      unfolding decode_each wire_each
      decode_each-eq_ok nil rest fits = refl
      decode_each-eq_ok (cons v vs) rest fits =
          let read = law.decodes v (wire_each vs ++ rest) fits.0 in
          rw (
            append_assoc (law.wire v) (wire_each vs) rest,
            read,
            settable_lem codec.get_type v (typed.declared _ read),
            decode_each-eq_ok vs rest fits.1,
          )

  module _ (typed : IsTyped codec) where
    pub decode_each_calm :
        (n : ℕ) (raw : Bytes) → decode_each codec codec.get_type n raw ≢ err panicked
    unfolding decode_each
    decode_each_calm zero raw h = cc
    decode_each_calm (suc n) raw h = elim (Result-cases (codec.decode raw)) [
      | inr (e, bad) ↦ typed.calm raw (ground arith)
      | inl ((v, rest), good) ↦
          ground (
            arith,
            settable_lem codec.get_type v (typed.declared raw good),
            decode_each_calm n rest,
          )
    ]

module _ (codec : TypeCodec) where
  -- What a decoded list is made of.
  decode_each-cons :
      (t : GoType) (n : ℕ) (raw : Bytes) {vs : Values} {rest : Bytes}
      → decode_each codec t (suc n) raw ≡ ok (vs, rest)
      → (v : Value) × (mid : Bytes) × (ws : Values) × (codec.decode raw ≡ ok (v, mid))
        × (decode_each codec t n mid ≡ ok (ws, rest))
        × (vs ≡ cons v ws)
  unfolding decode_each
  decode_each-cons t n raw {vs = vs} {rest = rest} h =
      let (r, e, k) = >>=-eq-ok (codec.decode raw) _ h in
      let (u, _, k') = >>=-eq-ok (settable t r.0) _ k in
      let (q, e'', k'') = >>=-eq-ok (decode_each codec t n r.1) _ k' in
      (r.0, r.1, q.0, ground arith, ground arith, ground arith)

  pub decode_each-count :
      (t : GoType) (n : ℕ) (raw : Bytes) {vs : Values} {rest : Bytes}
      → decode_each codec t n raw ≡ ok (vs, rest)
      → count vs ≡ n
  unfolding decode_each
  decode_each-count t zero raw h = ground arith
  decode_each-count t (suc n) raw h =
      let (v, mid, ws, e, e', made) = decode_each-cons t n raw h in
      rw made (ap suc (decode_each-count t n mid e'))

module _ {codec : TypeCodec} {k : ℕ} (fixed : IsFixed codec k) where
  pub decode_each_reads :
      (t : GoType) (n : ℕ) (raw : Bytes) {vs : Values} {rest : Bytes}
      → decode_each codec t n raw ≡ ok (vs, rest)
      → length raw ≡ k * n + length rest
  unfolding decode_each
  decode_each_reads t zero raw h = ground arith
  decode_each_reads t (suc n) raw h =
      let (v, mid, ws, e, e', made) = decode_each-cons codec t n raw h in
      grind (arith, fixed.reads raw e, decode_each_reads t n mid e')

  pub encode_each_writes :
      (vs : Values) (into : Bytes) {out : Bytes}
      → encode_each codec vs into ≡ ok out
      → length out ≡ length into + k * count vs
  unfolding encode_each
  encode_each_writes nil into h = ground arith
  encode_each_writes (cons v vs) into h =
      let (mid, e, e') = >>=-eq-ok (codec.encode v into) _ h in
      grind (arith, fixed.writes v into e, encode_each_writes vs mid e')

-- The arrays that an array codec writes and reads: n elements of the field's type that fit.
pub data IsArray (n : ℕ) (field : TypeCodec) (Fits : Value → Type 0) : Value → Type 0 where
  array_of_fitting :
      (vs : Values) → count vs ≡ n → Every Fits vs → IsArray n field Fits (array field.get_type vs)

module _ (n : ℕ) {field : TypeCodec} where
  module _ {Fits : Value → Type 0} (law : RoundTrips field Fits) (typed : IsTyped field) where
    array_wire : Value → Bytes
    array_wire (array t vs) = wire_each law vs
    array_wire _ = []

    array-encodes :
        (v : Value) (into : Bytes)
        → IsArray n field Fits v
        → encode_array n field v into ≡ ok (into ++ array_wire v)
    unfolding encode_array array_wire
    array-encodes _ into (array_of_fitting vs size fits) =
        ground (arith, encode_each-eq_ok law vs into fits)

    array-decodes :
        (v : Value) (rest : Bytes)
        → IsArray n field Fits v
        → decode_array n field (array_wire v ++ rest) ≡ ok (v, rest)
    unfolding decode_array array_wire
    array-decodes _ rest (array_of_fitting vs size fits) =
        rw (← size) (rw (decode_each-eq_ok law typed vs rest fits))

    pub array_codec-RoundTrips : RoundTrips (array_codec n field) (IsArray n field Fits)
    array_codec-RoundTrips = record {
      wire = array_wire;
      encodes = array-encodes;
      decodes = array-decodes;
    }

  module _ (typed : IsTyped field) where
    array-type_of :
        (raw : Bytes) {v : Value} {rest : Bytes}
        → decode_array n field raw ≡ ok (v, rest)
        → type_of v ≡ array_of n field.get_type
    unfolding decode_array type_of
    array-type_of raw h =
        let (r, e, k) = >>=-eq-ok (decode_each field field.get_type n raw) _ h in
        ground (arith, decode_each-count field field.get_type n raw e)

    array_calm : (raw : Bytes) → decode_array n field raw ≢ err panicked
    unfolding decode_array
    array_calm raw h = ground (arith, decode_each_calm typed n raw)

    pub array_codec-IsTyped : IsTyped (array_codec n field)
    array_codec-IsTyped = record { declared = array-type_of; calm = array_calm }

  module _ {k : ℕ} (fixed : IsFixed field k) where
    array_reads :
        (raw : Bytes) {v : Value} {rest : Bytes}
        → decode_array n field raw ≡ ok (v, rest)
        → length raw ≡ k * n + length rest
    unfolding decode_array
    array_reads raw h =
        let (r, e, q) = >>=-eq-ok (decode_each field field.get_type n raw) _ h in
        ground (arith, decode_each_reads fixed field.get_type n raw e)

    array_writes :
        (v : Value) (into : Bytes) {out : Bytes}
        → encode_array n field v into ≡ ok out
        → length out ≡ length into + k * n
    unfolding encode_array
    array_writes v into {out = out} h = elim (Option-cases (elements v)) [
      | inl e ↦ ground arith
      | inr (vs, e) ↦ ground (arith, encode_each_writes fixed vs into {out = out})
    ]

    array-fixed_size : array_fixed_size n field ≡ ok (k * n)
    unfolding array_fixed_size
    array-fixed_size = rw fixed.reported

    pub array_codec-IsFixed : IsFixed (array_codec n field) (k * n)
    array_codec-IsFixed = record {
      reported = array-fixed_size;
      reads = array_reads;
      writes = array_writes;
    }

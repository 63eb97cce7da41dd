-- ===== src/Codec/StructLaws.antt =====
-- struct.go and not_nil_pointer.go: a struct of lawful fields is lawful.
use chainlink_common.Base.{◌≡◌, ◌≢◌, ◌++◌, Result-cases, >>=-eq-ok, ok, err, arith, inl, inr}
use chainlink_common.Codec.Values.{Value, pointer, pointer_to, type_of}
use chainlink_common.Codec.Bytes.{Bytes}
use chainlink_common.Codec.Interface.{panicked, TypeCodec, RoundTrips, IsTyped}
use chainlink_common.Codec.Elements.{encode_pointer, decode_pointer, not_nil_pointer}
use chainlink_common.Codec.ElementLaws.{settable_lem}

-- A pointer to a value that fits the pointed-to codec.
pub data IsPointer (Fits : Value → Type 0) : Value → Type 0 where
  points_to : (v : Value) → Fits v → IsPointer Fits (pointer v)

abbrev target : Value → Value
target (pointer v) = v
target v = v

module _ {elm : TypeCodec} where
  module _ {Fits : Value → Type 0} (law : RoundTrips elm Fits) (is_typed : IsTyped elm) where
    pointer-encodes :
        (v : Value) (into : Bytes)
        → IsPointer Fits v
        → encode_pointer elm v into ≡ ok (into ++ law.wire (target v))
    unfolding encode_pointer
    pointer-encodes _ into (points_to v fits) = law.encodes v into fits

    pointer-decodes :
        (v : Value) (rest : Bytes)
        → IsPointer Fits v
        → decode_pointer elm (law.wire (target v) ++ rest) ≡ ok (v, rest)
    unfolding decode_pointer
    pointer-decodes _ rest (points_to v fits) =
        let read = law.decodes v rest fits in
        rw (read, settable_lem elm.get_type v (is_typed.declared _ read))

    pub not_nil_pointer-RoundTrips : RoundTrips (not_nil_pointer elm) (IsPointer Fits)
    not_nil_pointer-RoundTrips = record {
      wire = λ v. law.wire (target v);
      encodes = pointer-encodes;
      decodes = pointer-decodes;
    }

  module _ (is_typed : IsTyped elm) where
    pointer-type_of :
        (raw : Bytes) {v : Value} {rest : Bytes}
        → decode_pointer elm raw ≡ ok (v, rest)
        → type_of v ≡ pointer_to elm.get_type
    unfolding decode_pointer type_of
    pointer-type_of raw h =
        let (r, e, k) = >>=-eq-ok (elm.decode raw) _ h in
        ground
          (arith, settable_lem elm.get_type r.0 (is_typed.declared raw e), is_typed.declared raw e)

    pointer_calm : (raw : Bytes) → decode_pointer elm raw ≢ err panicked
    unfolding decode_pointer
    pointer_calm raw h = elim (Result-cases (elm.decode raw)) [
      | inr (e, bad) ↦ is_typed.calm raw (ground arith)
      | inl ((v, rest), good) ↦
          ground (arith, settable_lem elm.get_type v (is_typed.declared raw good))
    ]

    pub not_nil_pointer-IsTyped : IsTyped (not_nil_pointer elm)
    not_nil_pointer-IsTyped = record { declared = pointer-type_of; calm = pointer_calm }

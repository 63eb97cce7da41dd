-- ===== src/Codec/Interface.antt =====
-- pkg/codec/encodings/type_codec.go and utils.go: the interface of every codec, the laws that make
-- one correct, and the reads that the codecs share. An `any` that is nil is not modelled, nor is
-- the memory that reflection allocates.
use chainlink_common.Base.{
  ℕ, ◌+◌, ◌≡◌, ◌≢◌, refl, List, [], ◌∷◌, ◌++◌, length, length-append, take, drop, take-length,
  length-drop, ltb, if◌then◌else◌, Result, ok, err, arith,
}
use chainlink_common.Codec.Values.{GoType, Value, type_of}
use chainlink_common.Codec.Bytes.{Bytes}

-- `panicked` is a run-time panic of the call; the others are the errors of pkg/types.
pub data CodecError : Type 0 where
  invalid_type invalid_encoding invalid_config slice_wrong_len not_a_slice internal : CodecError
  panicked : CodecError

abbrev pub Fallible : Type 0 → Type 0
Fallible = Result CodecError

pub record TypeCodec : Type 0 where
  pub encode : Value → Bytes → Fallible Bytes
  pub decode : Bytes → Fallible (Value × Bytes)
  pub get_type : GoType
  pub size : ℕ → Fallible ℕ
  pub fixed_size : Fallible ℕ

-- What a codec promises of the values that fit it: it appends bytes from which it reads the value
-- back, and leaves what follows them.
pub record RoundTrips (c : TypeCodec) (Fits : Value → Type 0) : Type 0 where
  pub wire : Value → Bytes
  pub encodes : (v : Value) (into : Bytes) → Fits v → c.encode v into ≡ ok (into ++ wire v)
  pub decodes : (v : Value) (rest : Bytes) → Fits v → c.decode (wire v ++ rest) ≡ ok (v, rest)

-- On any bytes: no panic, and a value of the type that the codec declares.
pub record IsTyped (c : TypeCodec) : Type 0 where
  pub declared :
      (raw : Bytes) {v : Value} {rest : Bytes}
      → c.decode raw ≡ ok (v, rest)
      → type_of v ≡ c.get_type
  pub calm : (raw : Bytes) → c.decode raw ≢ err panicked

-- The size that it reports is the one that it reads and writes.
pub record IsFixed (c : TypeCodec) (n : ℕ) : Type 0 where
  pub reported : c.fixed_size ≡ ok n
  pub reads :
      (raw : Bytes) {v : Value} {rest : Bytes}
      → c.decode raw ≡ ok (v, rest)
      → length raw ≡ n + length rest
  pub writes :
      (v : Value) (into : Bytes) {out : Bytes}
      → c.encode v into ≡ ok out
      → length out ≡ length into + n

unfoldable pub safe_decode : {A : Type 0} → Bytes → ℕ → (Bytes → A) → Fallible (A × Bytes)
safe_decode raw size call =
    if ltb (length raw) size then err invalid_encoding else ok (call (take size raw), drop size raw)

drop-length {ℓ} : {A : Type ℓ} (xs ys : List A) → drop (length xs) (xs ++ ys) ≡ ys
drop-length [] ys = refl
drop-length (x ∷ xs) ys = drop-length xs ys

module _ {A : Type 0} (call : Bytes → A) where
  pub safe_decode-append :
      (n : ℕ) (raw rest : Bytes)
      → length raw ≡ n
      → safe_decode (raw ++ rest) n call ≡ ok (call raw, rest)
  unfolding safe_decode
  safe_decode-append n raw rest h =
      rw (← h) (ground (arith, length-append raw rest, take-length raw rest, drop-length raw rest))

  pub safe_decode-length :
      (n : ℕ) (raw : Bytes) {a : A} {rest : Bytes}
      → safe_decode raw n call ≡ ok (a, rest)
      → length raw ≡ n + length rest
  unfolding safe_decode
  safe_decode-length n raw h = ground (arith, length-drop n raw)

  pub safe_decode_calm : (n : ℕ) (raw : Bytes) → safe_decode raw n call ≢ err panicked
  unfolding safe_decode
  safe_decode_calm n raw h = ground arith

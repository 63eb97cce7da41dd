-- ===== src/Codec/Values.antt =====
-- The Go values that pkg/codec/encodings handles, with the dynamic type that each one carries. A
-- number is its bit pattern: a signed one is in two's complement, a float in IEEE-754 form.
use Prim.Native.String.{String}
use chainlink_common.Base.{ℕ, suc, ◌==◌, ◌≡◌, ◌↔◌, refl, Bool, true, false, List, arith, string_eq}
use native.Mathlib.Decide.{ℕ_discrete}
use chainlink_common.Base.Int.{ℤ}

pub data Kind : Type 0 where
  int8 int16 int32 int64 int uint8 uint16 uint32 uint64 uint float32 float64 : Kind

mutual
  -- What `reflect.Type` says of a value.
  pub data GoType : Type 0 where
    boolean_type : GoType
    number_type : Kind → GoType
    big_int_type : GoType
    text_type : GoType
    oracle_id_type : GoType
    empty_type : GoType
    slice_of : GoType → GoType
    array_of : ℕ → GoType → GoType
    pointer_to : GoType → GoType
    struct_of : FieldTypes → GoType

  pub data FieldTypes : Type 0 where
    no_types : FieldTypes
    typed : String → GoType → FieldTypes → FieldTypes

mutual
  pub data Value : Type 0 where
    boolean : Bool → Value
    number : Kind → ℕ → Value
    big_int : ℤ → Value
    nil_big_int : Value
    text : List ℕ → Value
    oracle_id : ℕ → Value
    empty : Value
    slice : GoType → Values → Value
    array : GoType → Values → Value
    nil_pointer : GoType → Value
    pointer : Value → Value
    struct : Fields → Value

  pub data Values : Type 0 where
    nil : Values
    cons : Value → Values → Values

  pub data Fields : Type 0 where
    end : Fields
    field : String → Value → Fields → Fields

abbrev pub count : Values → ℕ
count nil = 0
count (cons v vs) = suc (count vs)

abbrev pub Every {ℓ} : (Value → Type ℓ) → Values → Type ℓ
Every P nil = Unit
Every P (cons v vs) = P v × Every P vs

-- `reflect.TypeOf`.
unfoldable mutual
  pub type_of : Value → GoType
  type_of (boolean b) = boolean_type
  type_of (number k n) = number_type k
  type_of (big_int z) = big_int_type
  type_of nil_big_int = big_int_type
  type_of (text s) = text_type
  type_of (oracle_id n) = oracle_id_type
  type_of empty = empty_type
  type_of (slice t vs) = slice_of t
  type_of (array t vs) = array_of (count vs) t
  type_of (nil_pointer t) = pointer_to t
  type_of (pointer v) = pointer_to (type_of v)
  type_of (struct fs) = struct_of (types_of fs)

  pub types_of : Fields → FieldTypes
  types_of end = no_types
  types_of (field name v fs) = typed name (type_of v) (types_of fs)

abbrev tag : Kind → ℕ
tag int8 = 0
tag int16 = 1
tag int32 = 2
tag int64 = 3
tag int = 4
tag uint8 = 5
tag uint16 = 6
tag uint32 = 7
tag uint64 = 8
tag uint = 9
tag float32 = 10
tag float64 = 11

unfoldable pub is_kind : Kind → Kind → Bool
is_kind j k = tag j == tag k

pub is_kind_self : (k : Kind) → is_kind k k ≡ true
unfolding is_kind
is_kind_self k = ground arith

module _ (a b : String) where
  decide_text : (t : Bool) → string_eq.beq a b ≡ t → Dec (a ≡ b)
  decide_text true same = yes ((string_eq.beq_iff a b).0 same)
  decide_text false apart = no (λ e. cc (apart, (string_eq.beq_iff a b).1 e))

String-discrete : Discrete String
unfolding decide_text
String-discrete a b = decide_text a b (string_eq.beq a b) refl

GoType-discrete : Discrete GoType
unfolding String-discrete
GoType-discrete = hlevel (ℕ_discrete, String-discrete)

-- Comparison of two `reflect.Type`s.
unfoldable pub is_type : GoType → GoType → Bool
unfolding GoType-discrete ℕ_discrete
is_type a b = elim (GoType-discrete a b) [ yes _ ↦ true | no _ ↦ false ]

pub is_type_iff : (a b : GoType) → (is_type a b ≡ true) ↔ (a ≡ b)
unfolding is_type
is_type_iff a b =
    (elim (GoType-discrete a b)
      as (λ d. ((elim d [ yes _ ↦ true | no _ ↦ false ]) ≡ true) ↔ (a ≡ b)) [
        | yes e ↦ (λ _. e, λ _. refl)
        | no n ↦ (λ h. cc, λ e. absurd (n e))
      ])

pub is_type_self : (a : GoType) → is_type a a ≡ true
is_type_self a = (is_type_iff a a).1 refl

-- ===== src/Aggregators/Reduce.antt =====
-- pkg/capabilities/consensus/ocr3/aggregators/reduce_aggregator.go: values as the aggregator
-- unwraps them, their decimals, the median and the deviation.
use Prim.Native.String.{String}
use chainlink_common.Base.{
  ℕ, ◌-◌, ◌/◌, List, [], ◌∷◌, Option, none, some, Bool, true, false, length, get_elem?,
  if◌then◌else◌, string_eq, Result, ok, err, ◌>>=◌, or_fail,
}
use chainlink_common.Base.Int.{ℤ, pos}
use chainlink_common.Aggregators.ReduceConfig.{
  deviation_absolute, deviation_percent, method_median, method_mode,
}
use chainlink_common.Aggregators.Mode.{ModeError, mode, mode_has_quorum}

-- What the aggregator uses of shopspring/decimal, with `F` for float64.
pub record Decimals (D F : Type 0) : Type 0 where
  pub of_string : String → Option D
  pub of_int : ℤ → D
  pub of_big_int : ℤ → ℤ → D
  pub of_float : F → D
  pub greater_than : D → D → Bool
  pub is_zero : D → Bool
  pub sub : D → D → D
  pub abs : D → D
  pub div : D → D → D

-- What Unwrap gives. A map or a list is its deterministic encoding, and `broken` is a value that
-- cannot be unwrapped.
pub data Item (D F : Type 0) : Type 0 where
  text : String → Item D F
  decimal : D → Item D F
  int64 : ℤ → Item D F
  big_int : ℤ → Item D F
  time : ℤ → ℕ → Item D F
  float64 : F → Item D F
  boolean : Bool → Item D F
  bytes : List ℕ → Item D F
  composite : String → Item D F
  broken : Item D F

pub data ReduceError : Type 0 where
  not_enough_observations : ReduceError
  not_enough_values : String → ReduceError
  no_items : ReduceError
  not_decimal : ReduceError
  mode_failed : ModeError → ReduceError
  unsupported_method : ReduceError
  unsupported_deviation : ReduceError
  unwrap_failed : ReduceError
  bad_state : ReduceError
  cannot_encode_state : ReduceError
  cannot_wrap_report : ReduceError
  bad_format : ReduceError
  panicked : ReduceError

abbrev pub max_int : ℤ
max_int = pos 0x7fff_ffff_ffff_ffff

module _ {D F : Type 0} (ops : Decimals D F) where
  open ops use {of_string, of_int, of_big_int, of_float, greater_than, is_zero, sub, abs, div}

  -- A time is its Unix seconds.
  unfoldable pub to_decimal : Item D F → Result ReduceError D
  to_decimal (text s) = or_fail (of_string s) not_decimal
  to_decimal (decimal d) = ok d
  to_decimal (int64 n) = ok (of_int n)
  to_decimal (big_int n) = ok (of_big_int n (pos 10))
  to_decimal (time n nsec) = ok (of_int n)
  to_decimal (float64 x) = ok (of_float x)
  to_decimal (boolean b) = err not_decimal
  to_decimal (bytes bs) = err not_decimal
  to_decimal (composite s) = err not_decimal
  to_decimal broken = err unwrap_failed

  -- The comparison that sortAsDecimal hands to `sort.Slice`; a value that is no decimal stands as
  -- 0.
  unfoldable pub or_zero : Item D F → D
  unfolding to_decimal
  or_zero v = elim (to_decimal v) [ ok d ↦ d | err e ↦ of_int (pos 0) ]

  -- One order that `sort.Slice` may leave: insertion, the greatest first.
  unfoldable pub insert_item : Item D F → List (Item D F) → List (Item D F)
  unfolding or_zero
  insert_item v [] = v ∷ []
  insert_item v (w ∷ ws) = elim (greater_than (or_zero w) (or_zero v)) [
    | true ↦ w ∷ insert_item v ws
    | false ↦ v ∷ (w ∷ ws)
  ]

  unfoldable pub sort_items : List (Item D F) → List (Item D F)
  unfolding insert_item
  sort_items [] = []
  sort_items (v ∷ vs) = insert_item v (sort_items vs)

  -- `err` after the sort: every item of two or more is compared at least once.
  unfoldable pub compare_all : List (Item D F) → Result ReduceError (Unit {0})
  unfolding to_decimal
  compare_all [] = ok tt
  compare_all (v ∷ vs) = do d ← to_decimal v; compare_all vs

  unfoldable pub sort_as_decimal : List (Item D F) → Result ReduceError (List (Item D F))
  unfolding sort_items compare_all
  sort_as_decimal [] = ok []
  sort_as_decimal (v ∷ []) = ok (v ∷ [])
  sort_as_decimal (v ∷ (w ∷ ws)) = do
    done ← compare_all (v ∷ (w ∷ ws))
    ok (sort_items (v ∷ (w ∷ ws)))

  unfoldable pub median : List (Item D F) → Result ReduceError (Item D F)
  unfolding sort_as_decimal
  median [] = err no_items
  median (v ∷ vs) = do
    items ← sort_as_decimal (v ∷ vs)
    or_fail (get_elem? items ((length items - 1) / 2)) panicked

  unfoldable pub deviation : String → Item D F → Item D F → Result ReduceError D
  unfolding to_decimal
  deviation method previous_value next_value = do
    prev_deci ← to_decimal previous_value
    next_deci ← to_decimal next_value
    let diff = abs (sub prev_deci next_deci)
    if string_eq.beq method deviation_absolute
        then ok diff
        else if string_eq.beq method deviation_percent
        then (if is_zero prev_deci
            then (if is_zero diff then ok (of_int (pos 0)) else ok (of_int max_int))
            else ok (div diff prev_deci))
        else err unsupported_deviation

  module _ (hash : Option (Item D F) → Option String) where
    -- A mode's value is never nil, since no item is.
    unfoldable pub as_item : Option (Item D F) → Result ReduceError (Item D F)
    as_item none = err panicked
    as_item (some v) = ok v

    unfoldable pub somes : List (Item D F) → List (Option (Item D F))
    somes [] = []
    somes (v ∷ vs) = some v ∷ somes vs

    unfoldable pub lift_mode : {A : Type 0} → Result ModeError A → Result ReduceError A
    lift_mode (ok a) = ok a
    lift_mode (err e) = err (mode_failed e)

    unfoldable pub reduce : String → List (Item D F) → ℕ → String → Result ReduceError (Item D F)
    unfolding median mode mode_has_quorum lift_mode as_item somes
    reduce method items f mode_quorum =
        if string_eq.beq method method_median
        then median items
        else if string_eq.beq method method_mode
        then (do
          (value, count) ← lift_mode (mode hash (somes items))
          done ← lift_mode (mode_has_quorum mode_quorum count f)
          as_item value)
        else err unsupported_method

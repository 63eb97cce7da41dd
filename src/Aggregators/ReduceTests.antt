-- ===== src/Aggregators/ReduceTests.antt =====
-- The theorems on the reduce aggregator over whole numbers as decimals.
use Prim.Native.String.{String}
use chainlink_common.Base.{
  ℕ, ◌+◌, ◌-◌, ◌/◌, ◌≡◌, ◌≢◌, ◌≤◌, refl, List, [], ◌∷◌, Bool, true, false, Option, none, some, All,
  ltb, leb, ◌==◌, if◌then◌else◌, string_eq, Dict, lookup, ok, arith,
}
use chainlink_common.Base.Int.{ℤ, pos, negsuc}
use chainlink_common.Aggregators.ReduceConfig.{
  AggregationField, ReduceAggConfig, method_median, deviation_none, deviation_percent,
  deviation_absolute, format_map,
}
use chainlink_common.Aggregators.Reduce.{Decimals, Item, int64, to_decimal, or_zero, reduce}
use chainlink_common.Aggregators.Median.{IsOrder, above, below, Numeric, reduce-median_between}
use chainlink_common.Aggregators.Deviation.{
  HasSigns, ReportsFirst, should_report-negative, aggregate-quiet,
}
use chainlink_common.Aggregators.ReduceRun.{
  NodeValue, plain, leaf, as_map, Formatted, Reduced, should_report, aggregate,
}

abbrev greater : ℤ → ℤ → Bool
greater (pos m) (pos n) = ltb n m
greater (pos m) (negsuc n) = true
greater (negsuc m) (pos n) = false
greater (negsuc m) (negsuc n) = ltb m n

abbrev minus : ℕ → ℕ → ℤ
minus m n = if leb n m then pos (m - n) else negsuc (n - m - 1)

abbrev sub : ℤ → ℤ → ℤ
sub (pos m) (pos n) = minus m n
sub (pos m) (negsuc n) = pos (m + n + 1)
sub (negsuc m) (pos n) = negsuc (m + n)
sub (negsuc m) (negsuc n) = minus n m

abbrev abs : ℤ → ℤ
abs (pos n) = pos n
abs (negsuc n) = pos (n + 1)

abbrev div : ℤ → ℤ → ℤ
div (pos m) (pos n) = pos (m / n)
div (pos m) (negsuc n) = minus 0 (m / (n + 1))
div (negsuc m) (pos n) = minus 0 ((m + 1) / n)
div (negsuc m) (negsuc n) = pos ((m + 1) / (n + 1))

abbrev is_zero : ℤ → Bool
is_zero (pos n) = n == 0
is_zero (negsuc n) = false

abbrev whole : Decimals ℤ ℕ
whole = record {
  of_string = λ s. none;
  of_int = λ n. n;
  of_big_int = λ n e. n;
  of_float = λ n. pos n;
  greater_than = greater;
  is_zero = is_zero;
  sub = sub;
  abs = abs;
  div = div;
}

greater_asymmetric : (a b : ℤ) → greater a b ≡ true → greater b a ≡ false
greater_asymmetric a b h = ground arith

greater_transitive : (a b c : ℤ) → greater a b ≡ false → greater b c ≡ false → greater a c ≡ false
greater_transitive a b c h k = ground arith

whole-IsOrder : IsOrder whole
whole-IsOrder = record { asymmetric = greater_asymmetric; transitive = greater_transitive }

is_zero_negative : (d : ℤ) → greater (pos 0) d ≡ true → is_zero d ≡ false
is_zero_negative d h = ground arith

abs_nonneg : (d : ℤ) → greater (pos 0) (abs d) ≡ false
abs_nonneg d = ground arith

div_sign :
    (n d : ℤ)
    → greater (pos 0) n ≡ false
    → greater (pos 0) d ≡ true
    → greater (div n d) (pos 0) ≡ false
div_sign (pos m) (pos n) h k = ground arith
div_sign (pos m) (negsuc n) h k = ground arith
div_sign (negsuc m) d h k = ground arith

whole-HasSigns : HasSigns whole
whole-HasSigns = record {
  negative_nonzero = is_zero_negative;
  abs_nonneg = abs_nonneg;
  div_sign = div_sign;
}

abbrev same_float : ℕ → ℕ → Bool
same_float a b = a == b

abbrev no_hash : Option (Item ℤ ℕ) → Option String
no_hash v = none

-- One of three nodes sends far too much.
abbrev three : List (Item ℤ ℕ)
three = int64 (pos 5) ∷ int64 (pos 100) ∷ int64 (pos 7) ∷ []

three-Numeric : Numeric whole three
unfolding to_decimal
three-Numeric = ((pos 5, refl), ((pos 100, refl), ((pos 7, refl), tt)))

three_low : below whole (pos 5) three ≤ 1
unfolding or_zero
three_low = omega arith

three_high : above whole (pos 7) three ≤ 1
unfolding or_zero
three_high = omega arith

reduce-median_between_example :
    (v : Item ℤ ℕ) × (reduce whole no_hash method_median three 1 "" ≡ ok v)
    × (greater (pos 5) (or_zero whole v) ≡ false)
    × (greater (or_zero whole v) (pos 7) ≡ false)
reduce-median_between_example =
    reduce-median_between whole whole-IsOrder no_hash (pos 5) (pos 7) three 1 "" three-Numeric
      (omega arith) three_low three_high

abbrev price : String → ℤ → AggregationField ℤ
price deviation_type limit = record {
  deviation = some limit;
  deviation_string = "1";
  deviation_type = deviation_type;
  input_key = "";
  method = method_median;
  mode_quorum = "";
  output_key = "price";
  sub_map_field = false;
}

abbrev at_price : ℤ → Dict String (Item ℤ ℕ)
at_price n = ("price", int64 n) ∷ []

price_found : (n : ℤ) → lookup "price" (at_price n) ≡ some (int64 n)
unfolding lookup
price_found n = refl

price_decimal : (n : ℤ) → to_decimal whole (int64 n) ≡ ok n
unfolding to_decimal
price_decimal n = refl

abbrev all_wrap : Formatted ℤ ℕ → Bool
all_wrap r = true

-- From -10 to 500.
should_report-negative_example :
    should_report whole same_float
      (price deviation_percent (pos 1))
      (int64 (pos 500))
      (at_price (negsuc 9))
    ≡ ok false
should_report-negative_example =
    should_report-negative whole-IsOrder whole-HasSigns same_float (price deviation_percent (pos 1))
      (at_price (negsuc 9)) (int64 (negsuc 9)) (int64 (pos 500)) (negsuc 9) (pos 500) refl
      (price_found (negsuc 9)) (price_decimal (negsuc 9)) (price_decimal (pos 500)) refl refl

abbrev config : ReduceAggConfig ℤ
config = record {
  fields = price deviation_absolute (pos 10) ∷ [];
  output_field_name = "Reports";
  report_format = format_map;
  sub_map_key = "";
}

abbrev one_node : Dict ℕ (List (NodeValue ℤ ℕ))
one_node = (1, plain (int64 (pos 7)) ∷ []) ∷ []

abbrev no_index : String → Option ℤ
no_index s = none

abbrev encode : Dict String (Item ℤ ℕ) → Option (Dict String (Item ℤ ℕ))
encode s = some s

abbrev decode : Dict String (Item ℤ ℕ) → Option (Dict String (Item ℤ ℕ))
decode s = some s

abbrev quiet_round : Reduced ℤ ℕ (Dict String (Item ℤ ℕ))
quiet_round = record {
  output_field_name = "Reports";
  report = as_map (("price", leaf (some (int64 (pos 7)))) ∷ []);
  metadata = at_price (pos 5);
  should_report = false;
}

quiet_round_lem :
    aggregate whole same_float no_hash no_index one_node 0 encode decode all_wrap config
      (some (at_price (pos 5)))
    ≡ ok quiet_round
unfolding aggregate
quiet_round_lem = refl

config-ReportsFirst : All (ReportsFirst "price") config.fields
config-ReportsFirst = ((λ same none_type. absurd (apart none_type)), tt)
  where
    apart : deviation_absolute ≢ deviation_none
    apart = cc

aggregate-quiet_example :
    (state' : Dict String (Item ℤ ℕ)) × (encode state' ≡ some (at_price (pos 5)))
    × (lookup "price" state' ≡ lookup "price" (at_price (pos 5)))
aggregate-quiet_example =
    aggregate-quiet whole same_float no_hash no_index one_node 0 "price" encode decode all_wrap
      config (at_price (pos 5)) (at_price (pos 5)) quiet_round refl config-ReportsFirst
      quiet_round_lem refl

-- ===== src/Aggregators/ReduceConfig.antt =====
-- pkg/capabilities/consensus/ocr3/aggregators/reduce_aggregator.go: the configuration and
-- ParseConfigReduceAggregator behind UnwrapTo.
use Prim.Native.String.{String}
use chainlink_common.Base.{
  List, [], ◌∷◌, Option, none, some, Bool, true, false, not, ◌&&◌, ◌||◌, length, ltb, ◌==◌,
  if◌then◌else◌, string_eq, Result, ok, err, ◌>>=◌, ◌>>◌, refuse_if,
}

-- The constants.
abbrev pub method_median : String
method_median = "median"

abbrev pub method_mode : String
method_mode = "mode"

abbrev pub deviation_none : String
deviation_none = "none"

abbrev pub deviation_any : String
deviation_any = "any"

abbrev pub deviation_percent : String
deviation_percent = "percent"

abbrev pub deviation_absolute : String
deviation_absolute = "absolute"

abbrev pub format_map : String
format_map = "map"

abbrev pub format_array : String
format_array = "array"

abbrev pub format_value : String
format_value = "value"

abbrev pub quorum_ocr : String
quorum_ocr = "ocr"

abbrev pub quorum_any : String
quorum_any = "any"

-- `D` is a decimal.
pub record AggregationField (D : Type 0) : Type 0 where
  pub deviation : Option D
  pub deviation_string : String
  pub deviation_type : String
  pub input_key : String
  pub method : String
  pub mode_quorum : String
  pub output_key : String
  pub sub_map_field : Bool

pub record ReduceAggConfig (D : Type 0) : Type 0 where
  pub fields : List (AggregationField D)
  pub output_field_name : String
  pub report_format : String
  pub sub_map_key : String

pub data ConfigError : Type 0 where
  no_fields one_value_only no_output_key bad_deviation_type no_deviation_string bad_deviation
        bad_method bad_mode_quorum unused_deviation same_output_key no_sub_map_field no_sub_map_key
        bad_report_format :
      ConfigError

unfoldable pub is_one_of : String → List String → Bool
is_one_of to_check [] = false
is_one_of to_check (option ∷ options) =
    let rest = is_one_of to_check options in if string_eq.beq to_check option then true else rest

-- `len(s) == 0`.
abbrev pub is_empty : String → Bool
is_empty s = string_eq.beq s ""

-- A default for an empty text.
abbrev pub or_default : String → String → String
or_default default s = if is_empty s then default else s

module _ {D : Type 0} (decimal : String → Option D) where
  -- The deviation, if there is one to read.
  unfoldable pub read_deviation : AggregationField D → Result ConfigError (AggregationField D)
  read_deviation f =
      if not (string_eq.beq f.deviation_type deviation_none) && not (is_empty f.deviation_string)
      then elim (decimal f.deviation_string) [
        | none ↦ err bad_deviation
        | some d ↦ ok (record f { deviation = some d })
      ]
      else ok f

  -- The quorum of a mode.
  unfoldable pub default_quorum : AggregationField D → AggregationField D
  default_quorum f =
      if string_eq.beq f.method method_mode
      then record f { mode_quorum = or_default quorum_ocr f.mode_quorum }
      else f

  -- The body of the loop over the fields; `seen` is outputKeyCount.
  unfoldable pub check_field :
      String → List String → AggregationField D → Result ConfigError (AggregationField D)
  check_field report_format seen field = do
    refuse_if
        (is_one_of report_format (format_array ∷ format_map ∷ []) && is_empty field.output_key)
        no_output_key
    let f = record field { deviation_type = or_default deviation_none field.deviation_type }
    refuse_if
        (not (
          is_one_of f.deviation_type
            (deviation_absolute ∷ deviation_percent ∷ deviation_none ∷ deviation_any ∷ [])))
        bad_deviation_type
    refuse_if
        (not (is_one_of f.deviation_type (deviation_none ∷ deviation_any ∷ []))
          && is_empty f.deviation_string)
        no_deviation_string
    g ← read_deviation f
    refuse_if (is_empty g.method || not (is_one_of g.method (method_median ∷ method_mode ∷ [])))
        bad_method
    let h = default_quorum g
    refuse_if
        (string_eq.beq h.method method_mode
          && not (is_one_of h.mode_quorum (quorum_any ∷ quorum_ocr ∷ [])))
        bad_mode_quorum
    refuse_if
        (not (is_empty h.deviation_string)
          && is_one_of h.deviation_type (deviation_none ∷ deviation_any ∷ []))
        unused_deviation
    refuse_if (is_one_of h.output_key seen) same_output_key
    ok h

  unfoldable pub check_fields :
      String
      → List String
      → List (AggregationField D)
      → Result ConfigError (List (AggregationField D))
  check_fields report_format seen [] = ok []
  check_fields report_format seen (field ∷ fields) = do
    f ← check_field report_format seen field
    rest ← check_fields report_format (f.output_key ∷ seen) fields
    ok (f ∷ rest)

  unfoldable pub has_sub_map_field : List (AggregationField D) → Bool
  has_sub_map_field [] = false
  has_sub_map_field (f ∷ fs) = f.sub_map_field || has_sub_map_field fs

  unfoldable pub parse_config : ReduceAggConfig D → Result ConfigError (ReduceAggConfig D)
  parse_config c = do
    refuse_if (length c.fields == 0) no_fields
    let name = or_default "Reports" c.output_field_name
    let format = or_default format_map c.report_format
    refuse_if (ltb 1 (length c.fields) && string_eq.beq format format_value) one_value_only
    fields ← check_fields format [] c.fields
    let has = has_sub_map_field fields
    refuse_if (not (is_empty c.sub_map_key) && not has) no_sub_map_field
    refuse_if (has && is_empty c.sub_map_key) no_sub_map_key
    refuse_if (not (is_one_of format (format_array ∷ format_map ∷ format_value ∷ [])))
        bad_report_format
    ok (record c { fields = fields; output_field_name = name; report_format = format })

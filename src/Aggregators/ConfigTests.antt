-- ===== src/Aggregators/ConfigTests.antt =====
-- The theorem on the configuration of the reduce aggregator at one with a median and a mode.
use Prim.Native.String.{String}
use chainlink_common.Base.{
  ℕ, ◌≡◌, ◌≢◌, ◌↔◌, refl, [], ◌∷◌, Option, none, some, true, false, ok, length,
}
use chainlink_common.Aggregators.ReduceConfig.{
  AggregationField, ReduceAggConfig, is_one_of, read_deviation, default_quorum, check_field,
  check_fields, has_sub_map_field, parse_config, format_map, format_array, format_value, quorum_ocr,
  deviation_none,
}
use chainlink_common.Aggregators.ValidConfig.{ValidFields, parse_config-Valid}

abbrev ten : String → Option ℕ
ten s = some 10

abbrev price : AggregationField ℕ
price = record {
  deviation = none;
  deviation_string = "10";
  deviation_type = "percent";
  input_key = "p";
  method = "median";
  mode_quorum = "";
  output_key = "Price";
  sub_map_field = false;
}

abbrev feed : AggregationField ℕ
feed = record {
  deviation = none;
  deviation_string = "";
  deviation_type = "";
  input_key = "f";
  method = "mode";
  mode_quorum = "";
  output_key = "Feed";
  sub_map_field = true;
}

abbrev given_config : ReduceAggConfig ℕ
given_config = record {
  fields = price ∷ feed ∷ [];
  output_field_name = "";
  report_format = "";
  sub_map_key = "Sub";
}

abbrev parsed_config : ReduceAggConfig ℕ
parsed_config = record {
  fields =
      record price { deviation = some 10 }
      ∷ record feed { deviation_type = deviation_none; mode_quorum = quorum_ocr }
      ∷ [];
  output_field_name = "Reports";
  report_format = "map";
  sub_map_key = "Sub";
}

given-parsed : parse_config ten given_config ≡ ok parsed_config
unfolding parse_config check_fields check_field read_deviation default_quorum is_one_of
    has_sub_map_field
given-parsed = refl

parse_config-Valid_example :
    (length parsed_config.fields ≢ 0)
    × (parsed_config.output_field_name ≢ "")
    × (is_one_of parsed_config.report_format (format_array ∷ format_map ∷ format_value ∷ []) ≡ true)
    × (parsed_config.report_format ≡ format_value → length parsed_config.fields ≡ 1)
    × ((parsed_config.sub_map_key ≢ "") ↔ (has_sub_map_field ten parsed_config.fields ≡ true))
    × ValidFields ten parsed_config.report_format [] parsed_config.fields
parse_config-Valid_example = parse_config-Valid ten given_config parsed_config given-parsed

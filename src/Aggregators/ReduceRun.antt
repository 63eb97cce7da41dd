-- ===== src/Aggregators/ReduceRun.antt =====
-- pkg/capabilities/consensus/ocr3/aggregators/reduce_aggregator.go: the extraction of the values of
-- a field, the decision to report, and Aggregate. Maps are ranged over in the order of their lists.
use Prim.Native.String.{String}
use chainlink_common.Base.{
  ℕ, ◌+◌, ◌*◌, List, [], ◌∷◌, ◌++◌, Option, none, some, Bool, true, false, not, ◌&&◌, ◌||◌, length,
  get_elem?, ltb, ◌==◌, if◌then◌else◌, string_eq, Dict, lookup, insert, delete, Result, ok, err,
  ◌>>=◌, ◌>>◌, refuse_if, or_fail,
}
use chainlink_common.Base.Bytes.{same_bytes}
use chainlink_common.Base.Int.{ℤ, pos, negsuc, eq_ℤ}
use chainlink_common.Aggregators.ReduceConfig.{
  AggregationField, ReduceAggConfig, deviation_none, deviation_any, format_array, format_map,
  format_value, is_empty, or_default,
}
use chainlink_common.Aggregators.Reduce.{
  Decimals, Item, text, int64, time, float64, boolean, bytes, composite, broken, ReduceError,
  not_enough_observations, not_enough_values, unwrap_failed, bad_state, bad_format, panicked,
  cannot_encode_state, cannot_wrap_report, deviation, reduce,
}

-- What a node sends, as Unwrap gives it. Wrap takes an entry of a map or a list back as it was.
pub data NodeValue (D F : Type 0) : Type 0 where
  missing : NodeValue D F
  unreadable : NodeValue D F
  mapping : Dict String (Item D F) → NodeValue D F
  sequence : List (Item D F) → NodeValue D F
  plain : Item D F → NodeValue D F

-- The value under an output key: a value, or the nested map, where a key may be absent from the
-- report.
pub data Entry (D F : Type 0) : Type 0 where
  leaf : Option (Item D F) → Entry D F
  nested : Dict String (Option (Item D F)) → Entry D F

-- What `formatReport` returns.
pub data Formatted (D F : Type 0) : Type 0 where
  as_array : Dict String (Entry D F) → Formatted D F
  as_map : Dict String (Entry D F) → Formatted D F
  as_value : Entry D F → Formatted D F

pub record Reduced (D F M : Type 0) : Type 0 where
  pub output_field_name : String
  pub report : Formatted D F
  pub metadata : M
  pub should_report : Bool

module _ {D F : Type 0} where
  -- `val[i]`, which panics out of range.
  unfoldable pub at_index : List (Item D F) → ℤ → Result ReduceError (Item D F)
  at_index vs (pos i) = or_fail (get_elem? vs i) panicked
  at_index vs (negsuc i) = err panicked

  module _ (atoi : String → Option ℤ) (aggregation_key : String) where
    -- The body of the loop of extractValues: the value that a node adds, if any.
    unfoldable pub node_value : List (NodeValue D F) → Result ReduceError (List (Item D F))
    unfolding at_index
    node_value [] = ok []
    node_value (v ∷ (w ∷ ws)) = ok []
    node_value (missing ∷ []) = ok []
    node_value (unreadable ∷ []) = ok []
    node_value (mapping m ∷ []) = elim (lookup aggregation_key m) [
      | none ↦ ok []
      | some v ↦ ok (v ∷ [])
    ]
    node_value (sequence vs ∷ []) = elim (atoi aggregation_key) [
      | none ↦ ok []
      | some i ↦ (do v ← at_index vs i; ok (v ∷ []))
    ]
    node_value (plain v ∷ []) = if is_empty aggregation_key then ok (v ∷ []) else ok []

    unfoldable pub extract_values :
        Dict ℕ (List (NodeValue D F)) → Result ReduceError (List (Item D F))
    unfolding node_value
    extract_values [] = ok []
    extract_values ((id, node_observations) ∷ observations) = do
      v ← node_value node_observations
      vs ← extract_values observations
      ok (v ++ vs)

-- The key of a field in the report.
abbrev pub report_key : {D : Type 0} → AggregationField D → String
report_key f = or_default f.input_key f.output_key

module _ {D F : Type 0} (ops : Decimals D F) where
  -- `field.Deviation`, which is 0 where none was read.
  abbrev pub threshold : AggregationField D → D
  threshold field = elim field.deviation [ none ↦ ops.of_int (pos 0) | some d ↦ d ]

  unfoldable pub exceeds : AggregationField D → Item D F → Item D F → Result ReduceError Bool
  unfolding deviation
  exceeds field old_value single_value = do
    curr_deviation ← deviation ops field.deviation_type old_value single_value
    ok (ops.greater_than curr_deviation (threshold field))

module _ {D F : Type 0} (same_float : F → F → Bool) where
  -- `!=` on the unwrapped values of the case "any". A big.Int is a new pointer each time that it is
  -- unwrapped, and a decimal holds such a pointer, so neither equals another.
  unfoldable pub differs : Item D F → Item D F → Result ReduceError Bool
  unfolding same_bytes
  differs broken w = err unwrap_failed
  differs v broken = err unwrap_failed
  differs (bytes a) (bytes b) = ok (not (same_bytes a b))
  differs (bytes a) w = err panicked
  differs (composite a) (composite b) = ok (not (string_eq.beq a b))
  differs (text a) (text b) = ok (not (string_eq.beq a b))
  differs (int64 a) (int64 b) = ok (not (eq_ℤ a b))
  differs (time a m) (time b n) = ok (not (eq_ℤ a b && m == n))
  differs (float64 a) (float64 b) = ok (not (same_float a b))
  differs (boolean true) (boolean true) = ok false
  differs (boolean false) (boolean false) = ok false
  differs v w = ok true

module _ {D F : Type 0} where
  -- `(*currentState)[field.OutputKey] = singleValue`, under its condition.
  unfoldable pub update_state :
      AggregationField D → Bool → Item D F → Dict String (Item D F) → Dict String (Item D F)
  unfolding insert
  update_state field report_it single_value state =
      if report_it || string_eq.beq field.deviation_type deviation_none
      then insert field.output_key single_value state
      else state

  unfoldable pub leaves : Dict String (Item D F) → Dict String (Entry D F)
  leaves [] = []
  leaves ((k, v) ∷ m) = (k, leaf (some v)) ∷ leaves m

  -- The loop that moves fields into the nested map.
  unfoldable pub move_fields :
      List (AggregationField D)
      → Dict String (Item D F)
      → Dict String (Option (Item D F))
      → Dict String (Item D F) × Dict String (Option (Item D F))
  unfolding insert delete lookup
  move_fields [] report sub_map = (report, sub_map)
  move_fields (field ∷ fields) report sub_map =
      let moved =
        move_fields fields (delete (report_key field) report)
          (insert (report_key field) (lookup (report_key field) report) sub_map) in
      let kept = move_fields fields report sub_map in if field.sub_map_field then moved else kept

  unfoldable pub nest_fields : ReduceAggConfig D → Dict String (Item D F) → Dict String (Entry D F)
  unfolding move_fields leaves insert
  nest_fields config report =
      if is_empty config.sub_map_key
      then leaves report
      else (let (rest, sub_map) = move_fields config.fields report [] in
          insert config.sub_map_key (nested sub_map) (leaves rest))

  unfoldable pub format_report :
      Dict String (Entry D F) → String → Result ReduceError (Formatted D F)
  format_report report format =
      if string_eq.beq format format_array
      then ok (as_array report)
      else if string_eq.beq format format_map
      then ok (as_map report)
      else if string_eq.beq format format_value
      then elim report [ [] ↦ err bad_format | (k, v) ∷ rest ↦ ok (as_value v) ]
      else err bad_format

unfoldable pub has_no_deviation : {D : Type 0} → List (AggregationField D) → Bool
has_no_deviation [] = true
has_no_deviation (field ∷ fields) =
    string_eq.beq field.deviation_type deviation_none && has_no_deviation fields

module _ {D F : Type 0} (ops : Decimals D F) (same_float : F → F → Bool) where
  unfoldable pub should_report :
      AggregationField D → Item D F → Dict String (Item D F) → Result ReduceError Bool
  unfolding differs exceeds lookup
  should_report field single_value current_state =
      if string_eq.beq field.deviation_type deviation_none
      then ok false
      else elim (lookup field.output_key current_state) [
        | none ↦ ok true
        | some old_value ↦
            if string_eq.beq field.deviation_type deviation_any
            then differs same_float old_value single_value
            else exceeds ops field old_value single_value
      ]

  module _ (hash : Option (Item D F) → Option String) (atoi : String → Option ℤ)
      (observations : Dict ℕ (List (NodeValue D F))) (f : ℕ) where
    -- The single value of a field.
    unfoldable pub reduce_field : AggregationField D → Result ReduceError (Item D F)
    unfolding extract_values reduce
    reduce_field field = do
      vals ← extract_values atoi field.input_key observations
      refuse_if (ltb (length vals) (2 * f + 1)) (not_enough_values field.input_key)
      reduce ops hash field.method vals f field.mode_quorum

    -- The loop over the fields: the state, the report and shouldReport.
    unfoldable pub reduce_fields :
        List (AggregationField D)
        → Dict String (Item D F)
        → Dict String (Item D F)
        → Bool
        → Result ReduceError (Dict String (Item D F) × Dict String (Item D F) × Bool)
    unfolding reduce_field should_report update_state insert
    reduce_fields [] state report reporting = ok (state, report, reporting)
    reduce_fields (field ∷ fields) state report reporting = do
      single_value ← reduce_field field
      report_field ← should_report field single_value state
      reduce_fields fields (update_state field report_field single_value state)
          (insert (report_key field) single_value report) (reporting || report_field)

    -- Metadata is the state in its encoding, where WrapMap and Marshal may fail, and `wraps` says
    -- if NewMap can wrap the report.
    module _ {M : Type 0} (encode_state : Dict String (Item D F) → Option M)
        (decode_state : M → Option (Dict String (Item D F))) (wraps : Formatted D F → Bool) where
      unfoldable pub initialize_current_state :
          Option M → Result ReduceError (Dict String (Item D F))
      initialize_current_state none = ok []
      initialize_current_state (some m) = or_fail (decode_state m) bad_state

      -- `previous` is the metadata of the previous outcome, if there is one.
      unfoldable pub aggregate : ReduceAggConfig D → Option M → Result ReduceError (Reduced D F M)
      unfolding initialize_current_state reduce_fields nest_fields has_no_deviation format_report
      aggregate config previous = do
        refuse_if (ltb (length observations) (2 * f + 1)) not_enough_observations
        current_state ← initialize_current_state previous
        (state, report, reporting) ← reduce_fields config.fields current_state [] false
        state_bytes ← or_fail (encode_state state) cannot_encode_state
        to_wrap ← format_report (nest_fields config report) config.report_format
        refuse_if (not (wraps to_wrap)) cannot_wrap_report
        ok (record {
          output_field_name = config.output_field_name;
          report = to_wrap;
          metadata = state_bytes;
          should_report = reporting || has_no_deviation config.fields;
        })

-- ===== src/Aggregators/Deviation.antt =====
-- When the reduce aggregator reports, and what a round that does not report leaves of its state.
use Prim.Native.String.{String}
use text.Mathlib.TextEquality.{eq_iff}
use chainlink_common.Base.{
  ℕ, ◌+◌, ◌*◌, ◌≡◌, ◌≢◌, ap, ◌∙◌, inl, inr, List, [], ◌∷◌, Bool, true, false, not, ◌||◌, Option,
  some, length, All, ltb, refuse_if, string_eq, Dict, lookup, insert, lookup-insert, >>=-eq-ok, ok,
  or_fail, arith, Bool-cases,
}
use chainlink_common.Base.Int.{ℤ, pos}
use chainlink_common.Aggregators.ReduceConfig.{
  AggregationField, ReduceAggConfig, deviation_none, deviation_percent,
}
use chainlink_common.Aggregators.Reduce.{
  Decimals, Item, not_enough_observations, bad_state, cannot_encode_state, cannot_wrap_report,
  to_decimal, deviation,
}
use chainlink_common.Aggregators.Median.{IsOrder}
use chainlink_common.Aggregators.ReduceRun.{
  NodeValue, Reduced, Formatted, threshold, exceeds, should_report, report_key, reduce_field,
  update_state, reduce_fields, initialize_current_state, aggregate, nest_fields, format_report,
}

module _ {D F : Type 0} (ops : Decimals D F) where
  abbrev zero_decimal : D
  zero_decimal = ops.of_int (pos 0)

  abbrev pub IsNegative : D → Type 0
  IsNegative d = ops.greater_than zero_decimal d ≡ true

  abbrev pub IsNonneg : D → Type 0
  IsNonneg d = ops.greater_than zero_decimal d ≡ false

  -- The signs of absolute values and quotients.
  pub record HasSigns : Type 0 where
    pub negative_nonzero : (d : D) → IsNegative d → ops.is_zero d ≡ false
    pub abs_nonneg : (d : D) → IsNonneg (ops.abs d)
    pub div_sign :
        (n d : D) → IsNonneg n → IsNegative d → ops.greater_than (ops.div n d) zero_decimal ≡ false

module _ {D F : Type 0} {ops : Decimals D F} (order : IsOrder ops) (signs : HasSigns ops)
    (same_float : F → F → Bool) where
  -- Whatever the next value is, a field whose previous value is negative does not ask for a report
  -- on a percentage deviation, if its threshold is not negative and both values are decimals.
  pub should_report-negative :
      (field : AggregationField D) (state : Dict String (Item D F)) (old next : Item D F) (a b : D)
      → field.deviation_type ≡ deviation_percent
      → lookup field.output_key state ≡ some old
      → to_decimal ops old ≡ ok a
      → to_decimal ops next ≡ ok b
      → IsNegative ops a
      → IsNonneg ops (threshold ops field)
      → should_report ops same_float field next state ≡ ok false
  unfolding should_report exceeds deviation
  should_report-negative field state old next a b percent found old_decimal next_decimal negative
        nonneg =
      let diff = ops.abs (ops.sub a b) in
      let low = signs.div_sign diff a (signs.abs_nonneg (ops.sub a b)) negative in
      let under =
        order.transitive (ops.div diff a) (ops.of_int (pos 0)) (threshold ops field) low nonneg in
      rw (
        percent,
        found,
        percent,
        old_decimal,
        next_decimal,
        signs.negative_nonzero a negative,
        under,
      )

-- A field that may be kept without a report does not stand under the key.
abbrev pub ReportsFirst : {D : Type 0} → String → AggregationField D → Type 0
ReportsFirst k field = field.output_key ≡ k → field.deviation_type ≢ deviation_none

module _ {D F : Type 0} (ops : Decimals D F) (same_float : F → F → Bool)
    (hash : Option (Item D F) → Option String) (atoi : String → Option ℤ)
    (observations : Dict ℕ (List (NodeValue D F))) (f : ℕ) where
  -- One field of a successful loop.
  reduce_fields-cons :
      (field : AggregationField D) (fields : List (AggregationField D))
      (state report : Dict String (Item D F)) (reporting : Bool)
      {r : Dict String (Item D F) × Dict String (Item D F) × Bool}
      → reduce_fields ops same_float hash atoi observations f
          (field ∷ fields)
          state
          report
          reporting
        ≡ ok r
      → (v : Item D F) × (b : Bool) × (should_report ops same_float field v state ≡ ok b)
        × (reduce_fields ops same_float hash atoi observations f fields
              (update_state field b v state)
              (insert (report_key field) v report)
              (reporting || b)
            ≡ ok r)
  unfolding reduce_fields
  reduce_fields-cons field fields state report reporting h =
      let (v, _, k) = >>=-eq-ok (reduce_field ops same_float hash atoi observations f field) _ h in
      let (b, e, k') = >>=-eq-ok (should_report ops same_float field v state) _ k in (v, b, e, k')

  -- Once a field asks for a report, there is one.
  reduce_fields-reporting :
      (fields : List (AggregationField D)) (state report : Dict String (Item D F))
      {r : Dict String (Item D F) × Dict String (Item D F) × Bool}
      → reduce_fields ops same_float hash atoi observations f fields state report true ≡ ok r
      → r.2 ≡ true
  unfolding reduce_fields
  reduce_fields-reporting [] state report h = cc
  reduce_fields-reporting (field ∷ fields) state report h =
      let (v, b, e, k) = reduce_fields-cons field fields state report true h in
      reduce_fields-reporting fields _ _ k

  module _ (key : String) where
    update_state-quiet :
        (field : AggregationField D) (v : Item D F) (state : Dict String (Item D F))
        → ReportsFirst key field
        → lookup key (update_state field false v state) ≡ lookup key state
    unfolding update_state
    update_state-quiet field v state first =
        elim (Bool-cases (string_eq.beq field.deviation_type deviation_none)) [
          | inr e ↦ rw e
          | inl e ↦ elim (Bool-cases (string_eq.beq field.output_key key)) [
            | inl same ↦ absurd (
                first ((eq_iff field.output_key key).0 same)
                  ((eq_iff field.deviation_type deviation_none).0 e))
            | inr apart ↦ rw (e, lookup-insert field.output_key key v state, apart)
          ]
        ]

    reduce_fields-quiet :
        (fields : List (AggregationField D)) (state report : Dict String (Item D F))
        {r : Dict String (Item D F) × Dict String (Item D F) × Bool}
        → All (ReportsFirst key) fields
        → reduce_fields ops same_float hash atoi observations f fields state report false ≡ ok r
        → r.2 ≡ false
        → lookup key r.0 ≡ lookup key state
    unfolding reduce_fields
    reduce_fields-quiet [] state report first h quiet = cc
    reduce_fields-quiet (field ∷ fields) state report {r = r} first h quiet =
        let (v, b, e, k) = reduce_fields-cons field fields state report false h in
        (elim b
            as (λ b.
              reduce_fields ops same_float hash atoi observations f fields
                  (update_state field b v state) (insert (report_key field) v report) (false || b)
                ≡ ok r
              → lookup key r.0 ≡ lookup key state) [
                | true ↦ λ k. cc (quiet, reduce_fields-reporting fields _ _ k)
                | false ↦ λ k.
                    reduce_fields-quiet fields _ _ first.1 k quiet
                    ∙ update_state-quiet field v state first.0
              ])
          k

    -- A round that succeeds and does not report carries the value of a key over from the previous
    -- outcome's state, if the key is not that of a field of deviation type none.
    pub aggregate-quiet :
        {M : Type 0} (encode_state : Dict String (Item D F) → Option M)
        (decode_state : M → Option (Dict String (Item D F))) (wraps : Formatted D F → Bool)
        (config : ReduceAggConfig D) (previous : M) (state : Dict String (Item D F))
        (r : Reduced D F M)
        → decode_state previous ≡ some state
        → All (ReportsFirst key) config.fields
        → aggregate ops same_float hash atoi observations f encode_state decode_state wraps config
            (some previous)
          ≡ ok r
        → r.should_report ≡ false
        → (state' : Dict String (Item D F)) × (encode_state state' ≡ some r.metadata)
          × (lookup key state' ≡ lookup key state)
    unfolding aggregate initialize_current_state
    aggregate-quiet encode_state decode_state wraps config previous state r decoded first made
          quiet =
        let (_, _, k) =
          >>=-eq-ok (refuse_if (ltb (length observations) (2 * f + 1)) not_enough_observations) _
            made in
        let (start, begun, k') = >>=-eq-ok (or_fail (decode_state previous) bad_state) _ k in
        let (q, looped, k'') =
          >>=-eq-ok
            (reduce_fields ops same_float hash atoi observations f config.fields start [] false) _
            k' in
        let (bytes, encoded, k3) =
          >>=-eq-ok (or_fail (encode_state q.0) cannot_encode_state) _ k'' in
        let (w, _, k4) =
          >>=-eq-ok (format_report (nest_fields config q.1) config.report_format) _ k3 in
        let (_, _, last) = >>=-eq-ok (refuse_if (not (wraps w)) cannot_wrap_report) _ k4 in
        let same : start ≡ state = ground arith in
        let kept : encode_state q.0 ≡ some r.metadata = ground arith in
        let silent : q.2 ≡ false = ground arith in
        (
          q.0,
          kept,
          reduce_fields-quiet config.fields start [] first looped silent ∙ ap (lookup key) same,
        )

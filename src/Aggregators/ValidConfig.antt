-- ===== src/Aggregators/ValidConfig.antt =====
-- A configuration that ParseConfigReduceAggregator accepts leaves the aggregator no case that it
-- does not support.
use Prim.Native.String.{String}
use text.Mathlib.TextEquality.{eq_iff}
use chainlink_common.Base.{
  ◌≡◌, ◌≢◌, refl, sym, subst, ◌↔◌, suc, inl, inr, List, [], ◌∷◌, Option, true, false, length,
  string_eq, Result-cases, ok, arith, Option-cases,
}
use chainlink_common.Aggregators.ReduceConfig.{
  AggregationField, ReduceAggConfig, is_one_of, or_default, read_deviation, default_quorum,
  check_field, check_fields, has_sub_map_field, parse_config, method_median, method_mode,
  deviation_none, deviation_any, deviation_percent, deviation_absolute, format_map, format_array,
  format_value, quorum_ocr, quorum_any,
}

or_default-filled : (d s : String) → d ≢ "" → or_default d s ≢ ""
or_default-filled d s h = ground (arith, eq_iff s "")

not_none :
    (s : String) → is_one_of s (deviation_none ∷ deviation_any ∷ []) ≡ false → s ≢ deviation_none
unfolding is_one_of
not_none s h = ground (arith, eq_iff s deviation_none)

module _ {D : Type 0} (decimal : String → Option D) where
  -- What holds of an accepted field, given the format and the keys of the fields before it.
  pub record ValidField (format : String) (seen : List String) (f : AggregationField D)
      : Type 0 where
    pub known_deviation :
        is_one_of f.deviation_type
          (deviation_absolute ∷ deviation_percent ∷ deviation_none ∷ deviation_any ∷ [])
        ≡ true
    pub known_method : is_one_of f.method (method_median ∷ method_mode ∷ []) ≡ true
    pub known_quorum :
        f.method ≡ method_mode → is_one_of f.mode_quorum (quorum_any ∷ quorum_ocr ∷ []) ≡ true
    pub threshold :
        is_one_of f.deviation_type (deviation_none ∷ deviation_any ∷ []) ≡ false
        → f.deviation ≡ decimal f.deviation_string
    pub new_key : is_one_of f.output_key seen ≡ false
    pub keyed : is_one_of format (format_array ∷ format_map ∷ []) ≡ true → f.output_key ≢ ""

  -- Reading the deviation touches nothing else.
  read_deviation-ok :
      (f g : AggregationField D)
      → read_deviation decimal f ≡ ok g
      → (g.deviation_type ≡ f.deviation_type)
        × (g.method ≡ f.method)
        × (g.output_key ≡ f.output_key)
        × (g.deviation_string ≡ f.deviation_string)
        × (f.deviation_type ≢ deviation_none
            → f.deviation_string ≢ ""
            → g.deviation ≡ decimal f.deviation_string)
  unfolding read_deviation
  read_deviation-ok f g e = elim (Option-cases (decimal f.deviation_string)) [
    | inl n ↦ (
      ground arith,
      ground arith,
      ground arith,
      ground arith,
      λ a b. ground (arith, eq_iff f.deviation_type deviation_none, eq_iff f.deviation_string ""),
    )
    | inr (d, n) ↦ (
      ground arith,
      ground arith,
      ground arith,
      ground arith,
      λ a b. ground (arith, eq_iff f.deviation_type deviation_none, eq_iff f.deviation_string ""),
    )
  ]

  default_quorum-same :
      (g : AggregationField D)
      → let h = default_quorum decimal g in
        (h.deviation_type ≡ g.deviation_type)
        × (h.method ≡ g.method)
        × (h.output_key ≡ g.output_key)
        × (h.deviation_string ≡ g.deviation_string)
        × (h.deviation ≡ g.deviation)
  unfolding default_quorum
  default_quorum-same g = ground arith

  check_field-Valid :
      (format : String) (seen : List String) (field f : AggregationField D)
      → check_field decimal format seen field ≡ ok f
      → ValidField format seen f
  unfolding check_field
  check_field-Valid format seen field f e =
      let f₁ : AggregationField D = record field {
        deviation_type = or_default deviation_none field.deviation_type;
      } in
      elim (Result-cases (read_deviation decimal f₁)) [
        | inr (x, d) ↦ absurd (ground arith)
        | inl (g, d) ↦
            let same = read_deviation-ok f₁ g d in
            let kept = default_quorum-same g in
            let made : f ≡ default_quorum decimal g = ground arith in
            record {
              known_deviation = ground (arith, made);
              known_method = ground (arith, made);
              known_quorum = λ m. ground (arith, made, eq_iff f.method method_mode);
              threshold = λ m.
                  let typed : is_one_of f₁.deviation_type (deviation_none ∷ deviation_any ∷ [])
                      ≡ false =
                    ground (arith, made) in
                  let filled : f₁.deviation_string ≢ "" =
                    ground (arith, eq_iff f₁.deviation_string "") in
                  let read = same.4 (not_none f₁.deviation_type typed) filled in
                  ground (arith, made, read);
              new_key = ground (arith, made);
              keyed = λ m k. ground (arith, made, eq_iff f.output_key "");
            }
      ]

  -- All fields are accepted, each behind the keys of those before it.
  abbrev pub ValidFields : String → List String → List (AggregationField D) → Type 0
  ValidFields format seen [] = Unit
  ValidFields format seen (f ∷ fs) =
      ValidField format seen f × ValidFields format (f.output_key ∷ seen) fs

  check_fields-Valid :
      (format : String) (seen : List String) (fields fs : List (AggregationField D))
      → check_fields decimal format seen fields ≡ ok fs
      → ValidFields format seen fs × (length fs ≡ length fields)
  unfolding check_fields
  check_fields-Valid format seen [] fs e =
      let made : [] ≡ fs = ground arith in
      subst (λ fs. ValidFields format seen fs × (length fs ≡ 0)) made (tt, refl)
  check_fields-Valid format seen (field ∷ fields) fs e =
      elim (Result-cases (check_field decimal format seen field)) [
        | inr (x, n) ↦ absurd (ground arith)
        | inl (f, n) ↦
            elim (Result-cases (check_fields decimal format (f.output_key ∷ seen) fields)) [
              | inr (x, m) ↦ absurd (ground arith)
              | inl (rest, m) ↦
                  let (valid, same) =
                    check_fields-Valid format (f.output_key ∷ seen) fields rest m in
                  let made : f ∷ rest ≡ fs = ground arith in
                  subst (λ fs. ValidFields format seen fs × (length fs ≡ suc (length fields))) made
                    ((check_field-Valid format seen field f n, valid), ground arith)
            ]
      ]

  -- A configuration that the parser accepts has a field, a name and a known format for the report,
  -- one field only if the report is a value, a key for the nested map exactly if a field goes
  -- there, and fields whose methods, quorums and kinds of deviation are known, whose threshold is
  -- the decimal that was given for it, and whose output keys differ, and are not empty in a map or
  -- array.
  pub parse_config-Valid :
      (c c' : ReduceAggConfig D)
      → parse_config decimal c ≡ ok c'
      → (length c'.fields ≢ 0)
        × (c'.output_field_name ≢ "")
        × (is_one_of c'.report_format (format_array ∷ format_map ∷ format_value ∷ []) ≡ true)
        × (c'.report_format ≡ format_value → length c'.fields ≡ 1)
        × ((c'.sub_map_key ≢ "") ↔ (has_sub_map_field decimal c'.fields ≡ true))
        × ValidFields c'.report_format [] c'.fields
  unfolding parse_config
  parse_config-Valid c c' e =
      let format = or_default format_map c.report_format in
      elim (Result-cases (check_fields decimal format [] c.fields)) [
        | inr (x, n) ↦ absurd (ground arith)
        | inl (fs, n) ↦
            let (valid, same) = check_fields-Valid format [] c.fields fs n in
            let made : c' ≡ record c {
              fields = fs;
              output_field_name = or_default "Reports" c.output_field_name;
              report_format = format;
            } =
              ground arith in
            let apart : string_eq.beq "Reports" "" ≡ false = refl in
            let named : or_default "Reports" c.output_field_name ≢ "" =
              or_default-filled "Reports" c.output_field_name
                (ground (arith, eq_iff "Reports" "", apart)) in
            (
              ground (arith, made),
              ground (arith, made, named),
              ground (arith, made),
              λ v. ground (arith, made, eq_iff format format_value),
              ground (arith, made, eq_iff c.sub_map_key ""),
              subst (λ d. ValidFields d.report_format [] d.fields) (sym made) valid,
            )
      ]

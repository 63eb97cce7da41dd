-- ===== src/Consensus/Reports.antt =====
-- pkg/capabilities/consensus/ocr3/reporting_plugin.go: Reports and marshalReportInfo; and the
-- metadata of pkg/capabilities/consensus/ocr3/types/aggregator.go.
use Prim.Native.String.{String, len, ◌++◌ as ◌+++◌}
use chainlink_common.Base.{
  ℕ, zero, suc, ◌+◌, ◌-◌, ◌%◌, ◌^◌, List, [], ◌∷◌, Option, none, some, Bool, string_eq, ltb,
  if◌then◌else◌, Result, ok, err,
}
use chainlink_common.Consensus.Types.{RequestId, AggregationOutcome}
use chainlink_common.Consensus.Round.{as_time}

pub record Metadata : Type 0 where
  pub version : ℕ
  pub execution_id : String
  pub timestamp : ℕ
  pub don_id : ℕ
  pub don_config_version : ℕ
  pub workflow_id : String
  pub workflow_name : String
  pub workflow_owner : String
  pub report_id : String

unfoldable pub zeros : ℕ → String
zeros zero = ""
zeros (suc n) = "0" +++ zeros n

-- `len` counts the bytes of the text in UTF-8, as Go's len does.
unfoldable pub pad_workflow_name : Metadata → Metadata
pad_workflow_name m =
    if ltb (len m.workflow_name) 20
    then record m { workflow_name = m.workflow_name +++ zeros (20 - len m.workflow_name) }
    else m

pub record Report (V C : Type 0) : Type 0 where
  pub id : Option RequestId
  pub outcome : Option (AggregationOutcome V C)

-- What Reports calls: the map operations of values, protobuf and the encoders. `M` is a map of
-- values and `S` a Struct; an encoder takes a map and may fail. `add_field` fails where the
-- metadata cannot be wrapped; `has_fields` says that the map of fields is not nil.
pub record Encoding (B V C M S : Type 0) : Type 0 where
  pub unmarshal_reports : B → Option (List (Option (Report V C)))
  pub add_field : V → Metadata → Option V
  pub has_fields : V → Bool
  pub map_of : V → Option M
  pub config_of : C → Option M
  pub encoder_by_name : String → M → Option (M → Option B)
  pub encoder_by_workflow_id : String → Option (M → Option B)
  pub marshal_info : RequestId → Bool → Option B
  pub new_struct : String → B → Option S
  pub marshal_struct : S → Option B

-- The assignment into a nil map is a panic, which ends Reports.
pub data AppendError : Type 0 where
  cannot_wrap : AppendError
  assignment_panics : AppendError

pub data ReportsError : Type 0 where
  cannot_unmarshal_outcome : ReportsError
  context_cancelled : ReportsError
  reports_panics : ReportsError

-- What becomes of one report: it is left out, all of them are, or it has bytes or none.
pub data Attempt (B : Type 0) : Type 0 where
  skipped : Attempt B
  failed : ReportsError → Attempt B
  raw_report : Option B → Attempt B

module _ {B V C M S : Type 0} (encoding : Encoding B V C M S) where
  unfoldable pub append_metadata :
      AggregationOutcome V C → Metadata → Result AppendError (AggregationOutcome V C)
  append_metadata outcome meta =
      elim (encoding.add_field outcome.encodable_outcome (pad_workflow_name meta)) [
        | none ↦ err cannot_wrap
        | some v ↦
            if encoding.has_fields outcome.encodable_outcome
            then ok (record outcome { encodable_outcome = v })
            else err assignment_panics
      ]

  unfoldable pub marshal_report_info : RequestId → Bool → Option B
  marshal_report_info id should_report = elim (encoding.marshal_info id should_report) [
    | none ↦ none
    | some p ↦ elim (encoding.new_struct id.key_id p) [
      | none ↦ none
      | some infos ↦ encoding.marshal_struct infos
    ]
  ]

  -- The encoder of the outcome if it names one that there is, or else that of the workflow.
  unfoldable pub find_encoder : AggregationOutcome V C → RequestId → Option (M → Option B)
  find_encoder o id =
      let default = encoding.encoder_by_workflow_id id.workflow_id in
      if string_eq.beq o.encoder_name ""
      then default
      else elim (encoding.config_of o.encoder_config) [
        | none ↦ default
        | some config ↦ elim (encoding.encoder_by_name o.encoder_name config) [
          | none ↦ default
          | some encoder ↦ some encoder
        ]
      ]

  unfoldable pub metadata_of : AggregationOutcome V C → RequestId → Metadata
  metadata_of o id = record {
    version = 1;
    execution_id = id.workflow_execution_id;
    timestamp = ((as_time o.timestamp).sec + (2 ^ 32 - 62135596800 % 2 ^ 32)) % 2 ^ 32;
    don_id = id.workflow_don_id;
    don_config_version = id.workflow_don_config_version;
    workflow_id = id.workflow_id;
    workflow_name = id.workflow_name;
    workflow_owner = id.workflow_owner;
    report_id = id.report_id;
  }

  -- The bytes of a report that is to be sent. `done` says if the context is cancelled meanwhile.
  unfoldable pub encode_report : Bool → AggregationOutcome V C → RequestId → Attempt B
  encode_report done o id = elim (append_metadata o (metadata_of o id)) [
    | err cannot_wrap ↦ skipped
    | err assignment_panics ↦ failed reports_panics
    | ok new_outcome ↦ elim (find_encoder new_outcome id) [
      | none ↦ skipped
      | some encoder ↦ elim (encoding.map_of new_outcome.encodable_outcome) [
        | none ↦ skipped
        | some mv ↦ elim (encoder mv) [
          | none ↦ if done then failed context_cancelled else skipped
          | some raw ↦ raw_report (some raw)
        ]
      ]
    ]
  ]

  unfoldable pub attempt : Bool → AggregationOutcome V C → RequestId → Attempt B
  attempt done o id = if o.should_report then encode_report done o id else raw_report none

  -- The loop over the reports; `done` is given the ID of each.
  unfoldable pub report_all :
      (RequestId → Bool) → List (Option (Report V C)) → Result ReportsError (List (Option B × B))
  report_all done [] = ok []
  report_all done (none ∷ rs) = report_all done rs
  report_all done (some r ∷ rs) =
      let rest = report_all done rs in
      elim r.id [
        | none ↦ rest
        | some id ↦ elim r.outcome [
          | none ↦ rest
          | some o ↦ elim (attempt (done id) o id) [
            | skipped ↦ rest
            | failed e ↦ err e
            | raw_report raw ↦ elim (marshal_report_info id o.should_report) [
              | none ↦ rest
              | some info ↦ elim rest [ err e ↦ err e | ok out ↦ ok ((raw, info) ∷ out) ]
            ]
          ]
        ]
      ]

  unfoldable pub reports : (RequestId → Bool) → B → Result ReportsError (List (Option B × B))
  reports done outcome = elim (encoding.unmarshal_reports outcome) [
    | none ↦ err cannot_unmarshal_outcome
    | some rs ↦ report_all done rs
  ]

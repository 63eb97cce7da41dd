-- ===== src/Consensus/Types.antt =====
-- The messages of pkg/capabilities/consensus/ocr3/types that reporting_plugin.go reads and writes,
-- and what the plugin is given: its configuration, its store and the capability behind it.
use Prim.Native.String.{String}
use chainlink_common.Base.{ℕ, List, Option, Bool, Dict, Result}

-- RequestId of ocr3_types.proto.
pub record RequestId : Type 0 where
  pub workflow_execution_id : String
  pub workflow_id : String
  pub workflow_owner : String
  pub workflow_name : String
  pub workflow_don_id : ℕ
  pub workflow_don_config_version : ℕ
  pub report_id : String
  pub key_id : String

-- A time as Timestamp documents it: the seconds since year 1 and the nanoseconds.
pub record Time : Type 0 where
  pub sec : ℕ
  pub nsec : ℕ

-- A pointer to a message is an Option: none is nil. `L` is a list of values on the wire, `C` an
-- encoder configuration and `V` a value.
pub record Observation (L C : Type 0) : Type 0 where
  pub observations : L
  pub id : Option RequestId
  pub overridden_encoder_name : String
  pub overridden_encoder_config : C

pub record Observations (L C : Type 0) : Type 0 where
  pub observations : List (Option (Observation L C))
  pub registered_workflow_ids : List String
  pub timestamp : Option Time

pub record AggregationOutcome (V C : Type 0) : Type 0 where
  pub encodable_outcome : V
  pub metadata : String
  pub should_report : Bool
  pub last_seen_at : ℕ
  pub timestamp : Option Time
  pub encoder_name : String
  pub encoder_config : C

-- Outcome of ocr3_types.proto: the outcomes by workflow, and the reports.
pub record Outcome (V C : Type 0) : Type 0 where
  pub outcomes : Dict String (AggregationOutcome V C)
  pub current_reports : List (AggregationOutcome V C × RequestId)

-- The formats: protobuf of the messages, FromListValueProto and SHA-256.
pub record Wire (B L C Val V : Type 0) : Type 0 where
  pub unmarshal_observations : B → Option (Observations L C)
  pub unmarshal_query : B → Option (List (Option RequestId))
  pub unmarshal_outcome : B → Option (Outcome V C)
  pub marshal_outcome : Outcome V C → Option B
  pub from_list_value : L → Option (List Val)
  pub marshal_config : C → Option (List ℕ)
  pub name_bytes : String → List ℕ
  pub sha256 : List ℕ → String

-- The Aggregate method behind CapabilityIface: nil or the previous outcome, the lists of values by
-- oracle, and the number of faulty oracles. Each returns an outcome that it has made itself, or an
-- error, or it panics.
pub data AggregateError : Type 0 where
  aggregate_failed : AggregateError
  aggregate_panicked : AggregateError

abbrev pub Aggregate : Type 0 → Type 0 → Type 0 → Type 0
Aggregate C Val V =
    Option (AggregationOutcome V C)
    → Dict ℕ (List Val)
    → ℕ
    → Result AggregateError (AggregationOutcome V C)

-- The fields of reportingPlugin: N and F of its ReportingPluginConfig, and the rest.
pub record Plugin (C Val V : Type 0) : Type 0 where
  pub n : ℕ
  pub f : ℕ
  pub batch_size : ℕ
  pub outcome_pruning_threshold : ℕ
  pub get_aggregator : String → Option (Aggregate C Val V)

-- The fields of a Request that the plugin reads beside its ID: `W` is the list of values, `K` an
-- encoder configuration before it is put on the wire.
pub record Payload (W K : Type 0) : Type 0 where
  pub observations : W
  pub overridden_encoder_name : String
  pub overridden_encoder_config : Option K
  pub workflow_id : String
  pub workflow_owner : String
  pub workflow_name : String
  pub workflow_don_id : ℕ
  pub workflow_don_config_version : ℕ
  pub report_id : String
  pub key_id : String

-- ===== src/Consensus/Phases.antt =====
-- pkg/capabilities/consensus/ocr3/reporting_plugin.go: Query and Observation, with the store that
-- they read.
use Prim.Native.String.{String}
use chainlink_common.Base.{
  ℕ, List, [], ◌∷◌, Option, none, some, Dict, lookup, insert, string_eq, Result, ok, err,
}
use chainlink_common.Requests.Store.{Request, Store, StoreError, first_n, get_by_ids}
use chainlink_common.Consensus.Types.{RequestId, Time, Observation, Observations, Payload}

unfoldable pub id_of : {W K : Type 0} → Request (Payload W K) → RequestId
id_of rq = record {
  workflow_execution_id = rq.workflow_execution_id;
  workflow_id = rq.payload.workflow_id;
  workflow_owner = rq.payload.workflow_owner;
  workflow_name = rq.payload.workflow_name;
  workflow_don_id = rq.payload.workflow_don_id;
  workflow_don_config_version = rq.payload.workflow_don_config_version;
  report_id = rq.payload.report_id;
  key_id = rq.payload.key_id;
}

-- The loop of Query over the batch.
unfoldable pub query_ids : {W K : Type 0} → List (Request (Payload W K)) → List (Option RequestId)
query_ids [] = []
query_ids (rq ∷ batch) = some (id_of rq) ∷ query_ids batch

-- The IDs of a query that are not nil.
unfoldable pub query_weids : List (Option RequestId) → List String
query_weids [] = []
query_weids (none ∷ ids) = query_weids ids
query_weids (some q ∷ ids) = q.workflow_execution_id ∷ query_weids ids

-- The map of the requests found, which the observations are then looked up in.
unfoldable pub request_map :
    {P : Type 0} → List (Request P) → Dict String (Request P) → Dict String (Request P)
request_map [] m = m
request_map (req ∷ reqs) m = request_map reqs (insert req.workflow_execution_id req m)

pub data PhaseError : Type 0 where
  no_batch : StoreError → PhaseError
  cannot_unmarshal : PhaseError
  cannot_marshal : PhaseError

-- `list_value` is the list of a value on the wire, nil if it is none; `map_value` is the map of a
-- configuration, and `nil_config` its nil.
module _ {B L C W K : Type 0} (list_value : W → Option L) (map_value : K → C) (nil_config : C)
    (marshal_query : List (Option RequestId) → Option B)
    (unmarshal_query : B → Option (List (Option RequestId)))
    (marshal_observations : Observations L C → Option B) where
  unfoldable pub query : Store (Payload W K) → ℕ → Result PhaseError B
  query s batch_size = elim (first_n s batch_size) [
    | err e ↦ err (no_batch e)
    | ok batch ↦ elim (marshal_query (query_ids batch)) [
      | none ↦ err cannot_marshal
      | some raw ↦ ok raw
    ]
  ]

  unfoldable pub new_observation : Request (Payload W K) → L → Observation L C
  new_observation rq list_proto = record {
    observations = list_proto;
    id = some (id_of rq);
    overridden_encoder_name = rq.payload.overridden_encoder_name;
    overridden_encoder_config = elim rq.payload.overridden_encoder_config [
      | none ↦ nil_config
      | some config ↦ map_value config
    ];
  }

  -- The loop of Observation over the execution IDs.
  unfoldable pub observe :
      Dict String (Request (Payload W K)) → List String → List (Option (Observation L C))
  observe reqs [] = []
  observe reqs (weid ∷ weids) =
      let rest = observe reqs weids in
      elim (lookup weid reqs) [
        | none ↦ rest
        | some rq ↦ elim (list_value rq.payload.observations) [
          | none ↦ rest
          | some list_proto ↦ some (new_observation rq list_proto) ∷ rest
        ]
      ]

  -- `registered` is GetRegisteredWorkflowsIDs and `now` the clock.
  unfoldable pub observation : Store (Payload W K) → List String → Time → B → Result PhaseError B
  observation s registered now bytes = elim (unmarshal_query bytes) [
    | none ↦ err cannot_unmarshal
    | some ids ↦
        let weids = query_weids ids in
        let reqs = request_map (get_by_ids s weids) [] in
        elim (marshal_observations (record {
          observations = observe reqs weids;
          registered_workflow_ids = registered;
          timestamp = some now;
        })) [ none ↦ err cannot_marshal | some raw ↦ ok raw ]
  ]

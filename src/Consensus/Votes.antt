-- ===== src/Consensus/Votes.antt =====
-- pkg/capabilities/consensus/ocr3/reporting_plugin.go: the first loop of Outcome, which counts what
-- the oracles observed.
use Prim.Native.String.{String}
use chainlink_common.Base.{
  ℕ, suc, List, [], ◌∷◌, ◌++◌, Option, none, some, Bool, true, Dict, lookup, insert, string_eq,
  nat_eq,
}
use chainlink_common.Consensus.Types.{Time, Observation, Wire}

-- `m[k]` of a map into the integers, which is 0 for a missing key.
unfoldable pub count_at : String → Dict String ℕ → ℕ
count_at k m = elim (lookup k m) [ none ↦ 0 | some n ↦ n ]

-- The loop over RegisteredWorkflowIds, with countedWorkflowIDs.
unfoldable pub count_workflow_ids : Dict String Bool → List String → Dict String ℕ → Dict String ℕ
count_workflow_ids counted [] seen = seen
count_workflow_ids counted (id ∷ ids) seen = elim (lookup id counted) [
  | some _ ↦ count_workflow_ids counted ids seen
  | none ↦ count_workflow_ids (insert id true counted) ids (insert id (suc (count_at id seen)) seen)
]

-- The maps of Outcome.
pub record Votes (C Val : Type 0) : Type 0 where
  pub exec_id_to_oracle_observations : Dict String (Dict ℕ (List Val))
  pub seen_workflow_ids : Dict String ℕ
  pub timestamps : List (Option Time)
  pub exec_id_to_encoder_sha_to_count : Dict String (Dict String ℕ)
  pub sha_to_encoder : Dict String (String × C)

module _ {C Val : Type 0} where
  unfoldable pub no_votes : Votes C Val
  no_votes = record {
    exec_id_to_oracle_observations = [];
    seen_workflow_ids = [];
    timestamps = [];
    exec_id_to_encoder_sha_to_count = [];
    sha_to_encoder = [];
  }

  -- The body of the loop over the observations, behind its guards.
  unfoldable pub record_values : ℕ → String → List Val → Votes C Val → Votes C Val
  record_values observer weid underlying v =
      let per_oracle : Dict ℕ (List Val) = elim (lookup weid v.exec_id_to_oracle_observations) [
        | none ↦ []
        | some m ↦ m
      ] in
      record v {
        exec_id_to_oracle_observations =
            insert weid (insert observer underlying per_oracle) v.exec_id_to_oracle_observations;
      }

  unfoldable pub record_encoder :
      {L : Type 0} → String → String → Observation L C → Votes C Val → Votes C Val
  record_encoder weid sha request v =
      let counts : Dict String ℕ = elim (lookup weid v.exec_id_to_encoder_sha_to_count) [
        | none ↦ []
        | some m ↦ m
      ] in
      record v {
        sha_to_encoder =
            insert sha (request.overridden_encoder_name, request.overridden_encoder_config)
              v.sha_to_encoder;
        exec_id_to_encoder_sha_to_count =
            insert weid (insert sha (suc (count_at sha counts)) counts)
              v.exec_id_to_encoder_sha_to_count;
      }

module _ {B L C Val V : Type 0} (wire : Wire B L C Val V) where
  unfoldable pub sha_for_overridden_encoder : Observation L C → Option String
  sha_for_overridden_encoder obs = elim (wire.marshal_config obs.overridden_encoder_config) [
    | none ↦ none
    | some marshalled ↦
        some (wire.sha256 (wire.name_bytes obs.overridden_encoder_name ++ marshalled))
  ]

  unfoldable pub count_request : ℕ → Option (Observation L C) → Votes C Val → Votes C Val
  count_request observer none v = v
  count_request observer (some request) v = elim request.id [
    | none ↦ v
    | some id ↦ elim (wire.from_list_value request.observations) [
      | none ↦ v
      | some underlying ↦
          let weid = id.workflow_execution_id in
          let v' = record_values observer weid underlying v in
          elim (sha_for_overridden_encoder request) [
            | none ↦ v'
            | some sha ↦ record_encoder weid sha request v'
          ]
    ]
  ]

  unfoldable pub count_requests : ℕ → List (Option (Observation L C)) → Votes C Val → Votes C Val
  count_requests observer [] v = v
  count_requests observer (r ∷ rs) v = count_requests observer rs (count_request observer r v)

  -- The body of the loop over the attributed observations.
  unfoldable pub count_observation : ℕ × B → Votes C Val → Votes C Val
  count_observation (observer, bytes) v = elim (wire.unmarshal_observations bytes) [
    | none ↦ v
    | some obs ↦ count_requests observer obs.observations (record v {
      seen_workflow_ids = count_workflow_ids [] obs.registered_workflow_ids v.seen_workflow_ids;
      timestamps = v.timestamps ++ obs.timestamp ∷ [];
    })
  ]

  unfoldable pub count_observations : List (ℕ × B) → Votes C Val → Votes C Val
  count_observations [] v = v
  count_observations (ao ∷ aos) v = count_observations aos (count_observation ao v)

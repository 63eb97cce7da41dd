-- ===== src/Consensus/Oracles.antt =====
-- How many oracles an execution has, and how often an encoder is asked for.
use Prim.Native.String.{String}
use text.Mathlib.TextEquality.{eq_iff}
use chainlink_common.Base.{
  ℕ, zero, suc, ◌+◌, ◌≡◌, ◌≤◌, refl, inl, inr, List, [], ◌∷◌, ◌++◌, Option, none, some, Dict,
  lookup, insert, string_eq, nat_eq, lookup-insert, length-insert, if◌then◌else◌, ◌||◌, ◌&&◌, not,
  arith, Option-cases, beq_refl,
}
use chainlink_common.Consensus.Types.{RequestId, Observation, Wire}
use chainlink_common.Consensus.Votes.{
  Votes, count_at, count_workflow_ids, sha_for_overridden_encoder, record_values, record_encoder,
  count_request, count_requests, count_observation, count_observations, no_votes,
}
use chainlink_common.Consensus.Tally.{
  copies, oracles_of, encoder_votes, has_oracle, lookup_nil, gives, any_gives, supporters,
}

module _ {B L C Val V : Type 0} (wire : Wire B L C Val V) where
  values_oracles :
      (weid weid' : String) (observer : ℕ) (u : List Val) (v : Votes C Val)
      → let v' = record_values observer weid' u v in
        let new = string_eq.beq weid' weid in
        (has_oracle observer weid v' ≡ (new || has_oracle observer weid v))
        × (oracles_of weid v'
            ≡ (if new && not (has_oracle observer weid v) then 1 else 0) + oracles_of weid v)
  unfolding record_values
  values_oracles weid weid' observer u v =
      let per_oracle : Dict ℕ (List Val) = elim (lookup weid' v.exec_id_to_oracle_observations) [
        | none ↦ []
        | some m ↦ m
      ] in
      ground (
        arith,
        eq_iff weid' weid,
        lookup-insert weid' weid (insert observer u per_oracle) v.exec_id_to_oracle_observations,
        lookup-insert observer observer u per_oracle,
        length-insert observer u per_oracle,
        beq_refl observer,
        lookup_nil observer per_oracle,
      )

  -- One request of an oracle adds that oracle to those of an execution, if it is not there.
  request_oracles :
      (weid : String) (observer : ℕ) (r : Option (Observation L C)) (v : Votes C Val)
      → let v' = count_request wire observer r v in
        (has_oracle observer weid v' ≡ (gives wire weid r || has_oracle observer weid v))
        × (oracles_of weid v'
            ≡ (if gives wire weid r && not (has_oracle observer weid v) then 1 else 0)
              + oracles_of weid v)
  unfolding count_request record_encoder
  request_oracles weid observer none v = (refl, omega arith)
  request_oracles weid observer (some r) v = elim (Option-cases r.id) [
    | inl e ↦ ground arith
    | inr (id, e) ↦ elim (Option-cases (wire.from_list_value r.observations)) [
      | inl e' ↦ ground arith
      | inr (u, e') ↦ elim (Option-cases (sha_for_overridden_encoder wire r)) [
        | inl e'' ↦ ground (arith, values_oracles weid id.workflow_execution_id observer u v)
        | inr (sha, e'') ↦ ground (arith, values_oracles weid id.workflow_execution_id observer u v)
      ]
    ]
  ]

  -- Further requests of the same oracle add it at most once.
  requests_oracles :
      (weid : String) (observer : ℕ) (rs : List (Option (Observation L C))) (v : Votes C Val)
      → oracles_of weid (count_requests wire observer rs v)
        ≡ (if any_gives wire weid rs && not (has_oracle observer weid v) then 1 else 0)
          + oracles_of weid v
  unfolding count_requests
  requests_oracles weid observer [] v = omega arith
  requests_oracles weid observer (r ∷ rs) v = ground (
    arith,
    request_oracles weid observer r v,
    requests_oracles weid observer rs (count_request wire observer r v),
  )

  oracles-from :
      (weid : String) (aos : List (ℕ × B)) (v : Votes C Val)
      → oracles_of weid (count_observations wire aos v)
        ≤ oracles_of weid v + supporters wire weid aos
  unfolding count_observations count_observation
  oracles-from weid [] v = omega arith
  oracles-from weid ((observer, bytes) ∷ aos) v =
      elim (Option-cases (wire.unmarshal_observations bytes)) [
        | inl e ↦ ground (arith, oracles-from weid aos v)
        | inr (obs, e) ↦
            let v' : Votes C Val = record v {
              seen_workflow_ids =
                  count_workflow_ids [] obs.registered_workflow_ids v.seen_workflow_ids;
              timestamps = v.timestamps ++ obs.timestamp ∷ [];
            } in
            ground (
              arith,
              oracles-from weid aos (count_requests wire observer obs.observations v'),
              requests_oracles weid observer obs.observations v',
            )
      ]

  -- An execution has at most one oracle for each readable observation with values for it.
  pub count_observations-oracles :
      (weid : String) (aos : List (ℕ × B))
      → oracles_of weid (count_observations wire aos no_votes) ≤ supporters wire weid aos
  unfolding no_votes lookup
  count_observations-oracles weid aos = omega (arith, oracles-from weid aos no_votes)

  module _ (observer : ℕ) (r : Observation L C) (id : RequestId) (u : List Val) (sha : String)
      (i : r.id ≡ some id) (e : wire.from_list_value r.observations ≡ some u)
      (s : sha_for_overridden_encoder wire r ≡ some sha) where
    request_votes :
        (v : Votes C Val)
        → let weid = id.workflow_execution_id in
          encoder_votes weid sha (count_request wire observer (some r) v)
          ≡ suc (encoder_votes weid sha v)
    unfolding count_request record_encoder record_values count_at
    request_votes v =
        let weid = id.workflow_execution_id in
        let counts : Dict String ℕ = elim (lookup weid v.exec_id_to_encoder_sha_to_count) [
          | none ↦ []
          | some m ↦ m
        ] in
        ground (
          arith,
          beq_refl weid,
          beq_refl sha,
          lookup-insert weid weid (insert sha (suc (count_at sha counts)) counts)
              v.exec_id_to_encoder_sha_to_count,
          lookup-insert sha sha (suc (count_at sha counts)) counts,
          lookup_nil sha counts,
        )

    -- The encoders are counted by the observation and not by the oracle: a request with an ID, with
    -- values and with an encoder, repeated `n` times by one oracle, counts `n` times, though it
    -- adds at most one oracle to the execution.
    pub count_requests-stuffs :
        (n : ℕ) (v : Votes C Val)
        → let weid = id.workflow_execution_id in
          let v' = count_requests wire observer (copies n (some r)) v in
          (encoder_votes weid sha v' ≡ n + encoder_votes weid sha v)
          × (oracles_of weid v' ≤ 1 + oracles_of weid v)
    unfolding count_requests
    count_requests-stuffs n v = (
      stuffed n v,
      ground (arith, requests_oracles id.workflow_execution_id observer (copies n (some r)) v),
    )
      where
        stuffed :
            (n : ℕ) (v : Votes C Val)
            → let weid = id.workflow_execution_id in
              encoder_votes weid sha (count_requests wire observer (copies n (some r)) v)
              ≡ n + encoder_votes weid sha v
        stuffed zero v = omega arith
        stuffed (suc n) v =
            omega (arith, request_votes v, stuffed n (count_request wire observer (some r) v))

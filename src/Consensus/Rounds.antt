-- ===== src/Consensus/Rounds.antt =====
-- Query offers the oldest requests of the store, and Observation answers a query from the store.
use Prim.Native.String.{String}
use text.Mathlib.TextEquality.{eq_iff}
use chainlink_common.Base.{
  ℕ, zero, suc, Bool, All, beq_refl, true, false, ◌≡◌, ◌≢◌, refl, List, [], ◌∷◌, Option, none, some,
  Dict, lookup, insert, lookup-insert, string_eq, ok, err, take, inl, inr, arith, Option-cases,
  if◌then◌else◌, ◌∙◌, ap,
}
use chainlink_common.Requests.Store.{Request, Store, first_n, get_by_ids, found_in}
use chainlink_common.Requests.StoreInvariant.{Inv}
use chainlink_common.Requests.StoreQueue.{contents, first_n_lem}
use chainlink_common.Consensus.Types.{RequestId, Time, Observation, Observations, Payload}
use chainlink_common.Consensus.Phases.{
  id_of, query_ids, query_weids, request_map, cannot_marshal, query, new_observation, observe,
  observation,
}

-- An ID stands in a list.
abbrev among : String → List String → Bool
among w [] = false
among w (v ∷ vs) = let rest = among w vs in if string_eq.beq v w then true else rest

module _ {P : Type 0} where
  request_map-found :
      (m acc : Dict String (Request P)) (ids : List String) (w : String)
      → ((id : String) (r : Request P) → lookup id m ≡ some r → r.workflow_execution_id ≡ id)
      → lookup w (request_map (found_in m ids) acc) ≡ (
          if among w ids
          then (elim (lookup w m) [ none ↦ lookup w acc | some r ↦ some r ])
          else lookup w acc)
  unfolding request_map found_in
  request_map-found m acc [] w filed = refl
  request_map-found m acc (id ∷ ids) w filed = elim (Option-cases (lookup id m)) [
    | inl e ↦ ground (arith, eq_iff id w, request_map-found m acc ids w filed)
    | inr (r, e) ↦ ground (
      arith,
      eq_iff id w,
      filed id r e,
      lookup-insert id w r acc,
      request_map-found m (insert r.workflow_execution_id r acc) ids w filed,
    )
  ]

  -- Every request of a list is the one that the store has under its ID.
  abbrev Known : Dict String (Request P) → List (Request P) → Type 0
  Known m = All (λ r. lookup r.workflow_execution_id m ≡ some r)

  found_in-Known :
      (m : Dict String (Request P)) (ids : List String)
      → ((id : String) (r : Request P) → lookup id m ≡ some r → r.workflow_execution_id ≡ id)
      → Known m (found_in m ids)
  unfolding found_in
  found_in-Known m [] filed = tt
  found_in-Known m (id ∷ ids) filed = elim (Option-cases (lookup id m)) [
    | inl e ↦ rw (e, found_in) (found_in-Known m ids filed)
    | inr (r, e) ↦
        rw (e, found_in) (ap (λ i. lookup i m) (filed id r e) ∙ e, found_in-Known m ids filed)
  ]

  take-Known :
      (m : Dict String (Request P)) (n : ℕ) (rs : List (Request P))
      → Known m rs
      → Known m (take n rs)
  take-Known m zero rs k = tt
  take-Known m (suc n) [] k = tt
  take-Known m (suc n) (r ∷ rs) k = (k.0, take-Known m n rs k.1)

module _ {B L C W K : Type 0} (list_value : W → Option L) (map_value : K → C) (nil_config : C)
    (marshal_query : List (Option RequestId) → Option B)
    (unmarshal_query : B → Option (List (Option RequestId)))
    (marshal_observations : Observations L C → Option B) where
  -- The specification: the observations of the requests whose values are a list.
  abbrev pub listed : List (Request (Payload W K)) → List (Option (Observation L C))
  listed [] = []
  listed (rq ∷ rqs) =
      let rest = listed rqs in
      elim (list_value rq.payload.observations) [
        | none ↦ rest
        | some list_proto ↦
            some (
              new_observation list_value map_value nil_config marshal_query unmarshal_query
                marshal_observations rq list_proto)
            ∷ rest
      ]

  observe-listed :
      (reqs : Dict String (Request (Payload W K))) (batch : List (Request (Payload W K)))
      → Known reqs batch
      → observe list_value map_value nil_config marshal_query unmarshal_query marshal_observations
          reqs
          (query_weids (query_ids batch))
        ≡ listed batch
  unfolding observe query_weids query_ids id_of
  observe-listed reqs [] k = refl
  observe-listed reqs (rq ∷ batch) k = ground (arith, observe-listed reqs batch k.1)

  all_among :
      (m acc : Dict String (Request (Payload W K))) (batch : List (Request (Payload W K)))
      → Known m batch
      → ((id : String)
          → among id (query_weids (query_ids batch)) ≡ true
          → lookup id acc ≡ lookup id m)
      → Known acc batch
  unfolding query_weids query_ids id_of
  all_among m acc [] k same = tt
  all_among m acc (rq ∷ batch) k same = (
    same rq.workflow_execution_id (ground (arith, beq_refl rq.workflow_execution_id)) ∙ k.0,
    all_among m acc batch k.1 (λ id a. same id (ground arith)),
  )

  batch_found :
      (s : Store (Payload W K)) (batch : List (Request (Payload W K)))
      → Inv s
      → Known s.requests batch
      → Known (request_map (get_by_ids s (query_weids (query_ids batch))) []) batch
  unfolding get_by_ids
  batch_found s batch v k =
      let weids = query_weids (query_ids batch) in
      all_among s.requests (request_map (found_in s.requests weids) []) batch k
        (λ id a. unfold lookup in ground (arith, request_map-found s.requests [] weids id v.filed))

  -- Let a query be read as it was written. The query of a node whose store agrees with its list of
  -- IDs, for a batch size that is not 0, is answered by the node itself with an observation for
  -- each of its oldest requests up to the batch size, in their order, but for those whose values
  -- are not a list; the IDs, the encoder and the values are those of the request.
  pub observation-query :
      (s : Store (Payload W K)) (batch_size : ℕ) (registered : List String) (now : Time) (raw : B)
      → ((ids : List (Option RequestId)) (b : B)
          → marshal_query ids ≡ some b
          → unmarshal_query b ≡ some ids)
      → Inv s
      → batch_size ≢ 0
      → query list_value map_value nil_config marshal_query unmarshal_query marshal_observations s
          batch_size
        ≡ ok raw
      → observation list_value map_value nil_config marshal_query unmarshal_query
          marshal_observations s registered now raw
        ≡ elim (marshal_observations (record {
          observations = listed (take batch_size (contents s));
          registered_workflow_ids = registered;
          timestamp = some now;
        })) [ none ↦ err cannot_marshal | some b ↦ ok b ]
  unfolding query observation
  observation-query s batch_size registered now raw wire v n e =
      let batch = take batch_size (contents s) in
      let k =
        take-Known s.requests batch_size (contents s)
          (unfold get_by_ids in found_in-Known s.requests s.request_ids v.filed) in
      let found =
        observe-listed (request_map (get_by_ids s (query_weids (query_ids batch))) []) batch
          (batch_found s batch v k) in
      let first : first_n s batch_size ≡ ok batch = ground (arith, first_n_lem s batch_size) in
      elim (Option-cases (marshal_query (query_ids batch))) [
        | inl m ↦ absurd (ground arith)
        | inr (b, m) ↦
            let read : unmarshal_query raw ≡ some (query_ids batch) =
              wire (query_ids batch) raw (ground arith) in
            rw (read, observation, found)
      ]

-- ===== src/Consensus/Tally.antt =====
-- What the counts of the first loop of Outcome are of the attributed observations.
use Prim.Native.String.{String}
use mathlib.Core.List.{append-nil, append_assoc}
use text.Mathlib.TextEquality.{eq_iff}
use chainlink_common.Base.{
  ℕ, zero, suc, Eq, ◌+◌, ◌≡◌, refl, sym, inl, inr, List, [], ◌∷◌, ◌++◌, Option, none, some, Bool,
  true, false, Dict, lookup, insert, string_eq, nat_eq, lookup-insert, length, if◌then◌else◌, ◌||◌,
  arith, Option-cases,
}
use chainlink_common.Consensus.Types.{Time, Observation, Wire}
use chainlink_common.Consensus.Votes.{
  Votes, count_at, count_workflow_ids, record_values, record_encoder, count_request, count_requests,
  count_observation, count_observations, no_votes,
}

-- The specification: whether a list mentions an ID.
abbrev pub mentions : String → List String → Bool
mentions w [] = false
mentions w (id ∷ ids) = let rest = mentions w ids in if string_eq.beq id w then true else rest

count_at-workflow_ids :
    (w : String) (counted : Dict String Bool) (ids : List String) (seen : Dict String ℕ)
    → count_at w (count_workflow_ids counted ids seen)
      ≡ count_at w seen
        + elim (lookup w counted) [ some _ ↦ 0 | none ↦ if mentions w ids then 1 else 0 ]
unfolding count_at count_workflow_ids
count_at-workflow_ids w counted [] seen = ground arith
count_at-workflow_ids w counted (id ∷ ids) seen = ground (
  arith,
  eq_iff id w,
  lookup-insert id w true counted,
  lookup-insert id w (suc (count_at id seen)) seen,
  count_at-workflow_ids w counted ids seen,
  count_at-workflow_ids w (insert id true counted) ids (insert id (suc (count_at id seen)) seen),
)

abbrev pub copies : {A : Type 0} → ℕ → A → List A
copies zero a = []
copies (suc n) a = a ∷ copies n a

-- How many oracles gave values for an execution.
abbrev pub oracles_of : {C Val : Type 0} → String → Votes C Val → ℕ
oracles_of weid v = elim (lookup weid v.exec_id_to_oracle_observations) [
  | none ↦ 0
  | some m ↦ length m
]

-- How many observations of an execution ask for an encoder.
abbrev pub encoder_votes : {C Val : Type 0} → String → String → Votes C Val → ℕ
encoder_votes weid sha v = elim (lookup weid v.exec_id_to_encoder_sha_to_count) [
  | none ↦ 0
  | some m ↦ count_at sha m
]

abbrev pub has_oracle : {C Val : Type 0} → ℕ → String → Votes C Val → Bool
has_oracle observer weid v = elim (lookup weid v.exec_id_to_oracle_observations) [
  | none ↦ false
  | some m ↦ elim (lookup observer m) [ none ↦ false | some _ ↦ true ]
]

pub lookup_nil : {K A : Type 0} ⦃e : Eq K⦄ (k : K) (m : Dict K A) → m ≡ [] → lookup k m ≡ none
unfolding lookup
lookup_nil k [] e = refl
lookup_nil k (x ∷ m) e = cc

module _ {B L C Val V : Type 0} (wire : Wire B L C Val V) where
  -- The specification: whether a list of observations has values for an execution.
  abbrev pub gives : String → Option (Observation L C) → Bool
  gives weid none = false
  gives weid (some request) = elim request.id [
    | none ↦ false
    | some id ↦ elim (wire.from_list_value request.observations) [
      | none ↦ false
      | some _ ↦ string_eq.beq id.workflow_execution_id weid
    ]
  ]

  abbrev pub any_gives : String → List (Option (Observation L C)) → Bool
  any_gives weid [] = false
  any_gives weid (r ∷ rs) = gives weid r || any_gives weid rs

  -- How many of the attributed observations have values for an execution, how many have a workflow
  -- among the registered ones, and how many can be read.
  abbrev pub supporters : String → List (ℕ × B) → ℕ
  supporters weid [] = 0
  supporters weid ((observer, bytes) ∷ aos) =
      let rest = supporters weid aos in
      elim (wire.unmarshal_observations bytes) [
        | none ↦ rest
        | some obs ↦ if any_gives weid obs.observations then suc rest else rest
      ]

  abbrev pub registrations : String → List (ℕ × B) → ℕ
  registrations w [] = 0
  registrations w ((observer, bytes) ∷ aos) =
      let rest = registrations w aos in
      elim (wire.unmarshal_observations bytes) [
        | none ↦ rest
        | some obs ↦ if mentions w obs.registered_workflow_ids then suc rest else rest
      ]

  abbrev pub times : List (ℕ × B) → List (Option Time)
  times [] = []
  times ((observer, bytes) ∷ aos) =
      let rest = times aos in
      elim (wire.unmarshal_observations bytes) [ none ↦ rest | some obs ↦ obs.timestamp ∷ rest ]

  count_request-apart :
      (observer : ℕ) (r : Option (Observation L C)) (v : Votes C Val)
      → ((count_request wire observer r v).seen_workflow_ids ≡ v.seen_workflow_ids)
        × ((count_request wire observer r v).timestamps ≡ v.timestamps)
  unfolding count_request record_values record_encoder
  count_request-apart observer none v = (refl, refl)
  count_request-apart observer (some r) v = ground arith

  count_requests-apart :
      (observer : ℕ) (rs : List (Option (Observation L C))) (v : Votes C Val)
      → ((count_requests wire observer rs v).seen_workflow_ids ≡ v.seen_workflow_ids)
        × ((count_requests wire observer rs v).timestamps ≡ v.timestamps)
  unfolding count_requests
  count_requests-apart observer [] v = (refl, refl)
  count_requests-apart observer (r ∷ rs) v = ground (
    arith,
    count_request-apart observer r v,
    count_requests-apart observer rs (count_request wire observer r v),
  )

  seen-from :
      (w : String) (aos : List (ℕ × B)) (v : Votes C Val)
      → count_at w (count_observations wire aos v).seen_workflow_ids
        ≡ count_at w v.seen_workflow_ids + registrations w aos
  unfolding count_observations count_observation lookup
  seen-from w [] v = omega arith
  seen-from w ((observer, bytes) ∷ aos) v =
      elim (Option-cases (wire.unmarshal_observations bytes)) [
        | inl e ↦ ground (arith, seen-from w aos v)
        | inr (obs, e) ↦
            let v' : Votes C Val = record v {
              seen_workflow_ids =
                  count_workflow_ids [] obs.registered_workflow_ids v.seen_workflow_ids;
              timestamps = v.timestamps ++ obs.timestamp ∷ [];
            } in
            ground (
              arith,
              count_requests-apart observer obs.observations v',
              count_at-workflow_ids w [] obs.registered_workflow_ids v.seen_workflow_ids,
              seen-from w aos (count_requests wire observer obs.observations v'),
            )
      ]

  -- A workflow is seen once for each readable observation whose oracle has it registered, however
  -- often that observation repeats it.
  pub count_observations-seen :
      (w : String) (aos : List (ℕ × B))
      → count_at w (count_observations wire aos no_votes).seen_workflow_ids ≡ registrations w aos
  unfolding no_votes count_at lookup
  count_observations-seen w aos = omega (arith, seen-from w aos no_votes)

  times-from :
      (aos : List (ℕ × B)) (v : Votes C Val)
      → (count_observations wire aos v).timestamps ≡ v.timestamps ++ times aos
  unfolding count_observations count_observation
  times-from [] v = sym (append-nil v.timestamps)
  times-from ((observer, bytes) ∷ aos) v = elim (Option-cases (wire.unmarshal_observations bytes)) [
    | inl e ↦ ground (arith, times-from aos v)
    | inr (obs, e) ↦
        let v' : Votes C Val = record v {
          seen_workflow_ids = count_workflow_ids [] obs.registered_workflow_ids v.seen_workflow_ids;
          timestamps = v.timestamps ++ obs.timestamp ∷ [];
        } in
        ground (
          arith,
          times-from aos (count_requests wire observer obs.observations v'),
          count_requests-apart observer obs.observations v',
          append_assoc v.timestamps (obs.timestamp ∷ []) (times aos),
        )
  ]

  -- The timestamps are those of the readable observations, in their order.
  pub count_observations-times :
      (aos : List (ℕ × B)) → (count_observations wire aos no_votes).timestamps ≡ times aos
  unfolding no_votes
  count_observations-times aos = times-from aos no_votes

-- ===== src/Consensus/Tests.antt =====
-- The theorems on the reporting plugin in a round of four oracles, one of which may be faulty.
use Prim.Native.String.{String}
use text.Mathlib.TextEquality.{eq_iff}
use chainlink_common.Base.{
  ℕ, ◌+◌, ◌≡◌, ◌≤◌, refl, List, [], ◌∷◌, Option, none, some, true, false, Dict, lookup, insert,
  string_eq, nat_eq, All, arith, length, ok,
}
use chainlink_common.Consensus.Types.{
  RequestId, Time, Observation, Observations, AggregationOutcome, Outcome, Wire, Plugin, Aggregate,
}
use chainlink_common.Consensus.Votes.{
  Votes, count_at, count_workflow_ids, sha_for_overridden_encoder, record_values, record_encoder,
  count_request, count_requests, count_observation, count_observations, no_votes,
}
use chainlink_common.Consensus.Tally.{
  registrations, count_observations-seen, times, encoder_votes, oracles_of, copies,
}
use chainlink_common.Consensus.Oracles.{count_requests-stuffs}
use chainlink_common.Consensus.Timestamps.{seconds, final_timestamp-between}
use chainlink_common.Consensus.Round.{
  report_ids, id_panics, aggregate_panics, report_id, new_outcome, load, before, insert_time,
  sort_times, as_time, final_timestamp, conclude, outcome,
}
use chainlink_common.Consensus.Quorum.{Supported, outcome-Supported}
use chainlink_common.Consensus.Pruning.{keyed}
use chainlink_common.Consensus.Carried.{ZeroLastSeen}
use chainlink_common.Consensus.Renewed.{renewed, at_pruning, conclude-renews}

-- Messages that are their own encodings.
data Message : Type 0 where
  observations_message : Observations String (List ℕ) → Message
  query_message : List (Option RequestId) → Message
  outcome_message : Outcome ℕ (List ℕ) → Message

abbrev read_observations : Message → Option (Observations String (List ℕ))
read_observations (observations_message o) = some o
read_observations (query_message q) = none
read_observations (outcome_message o) = none

abbrev read_query : Message → Option (List (Option RequestId))
read_query (observations_message o) = none
read_query (query_message q) = some q
read_query (outcome_message o) = none

abbrev read_outcome : Message → Option (Outcome ℕ (List ℕ))
read_outcome (observations_message o) = none
read_outcome (query_message q) = none
read_outcome (outcome_message o) = some o

abbrev plain : Wire Message String (List ℕ) String ℕ
plain = record {
  unmarshal_observations = read_observations;
  unmarshal_query = read_query;
  unmarshal_outcome = read_outcome;
  marshal_outcome = λ o. some (outcome_message o);
  from_list_value = λ s. some (s ∷ []);
  marshal_config = λ c. some c;
  name_bytes = λ s. [];
  sha256 = λ bytes. "sha";
}

abbrev counting : Aggregate (List ℕ) String ℕ
counting previous observations f = ok (record {
  encodable_outcome = length observations;
  metadata = "";
  should_report = true;
  last_seen_at = 0;
  timestamp = none;
  encoder_name = "";
  encoder_config = [];
})

abbrev plugin : Plugin (List ℕ) String ℕ
plugin = record {
  n = 4;
  f = 1;
  batch_size = 10;
  outcome_pruning_threshold = 100;
  get_aggregator = λ w. some counting;
}

abbrev execution : RequestId
execution = record {
  workflow_execution_id = "e";
  workflow_id = "w";
  workflow_owner = "";
  workflow_name = "";
  workflow_don_id = 1;
  workflow_don_config_version = 1;
  report_id = "";
  key_id = "";
}

abbrev observation : Observation String (List ℕ)
observation = record {
  observations = "v";
  id = some execution;
  overridden_encoder_name = "EVM";
  overridden_encoder_config = 1 ∷ [];
}

abbrev at_time : ℕ → Option Time
at_time s = some (record { sec = s; nsec = 0 })

abbrev observed : ℕ → Message
observed s = observations_message (record {
  observations = some observation ∷ none ∷ [];
  registered_workflow_ids = "w" ∷ "w" ∷ [];
  timestamp = at_time s;
})

abbrev attributed : List (ℕ × Message)
attributed = (0, observed 100) ∷ (1, observed 900) ∷ (2, observed 102) ∷ (3, observed 104) ∷ []

count_observations-seen_example :
    count_at "w" (count_observations plain attributed no_votes).seen_workflow_ids
    ≡ registrations plain "w" attributed
count_observations-seen_example = count_observations-seen plain "w" attributed

-- The clock of oracle 1 is far off.
final_timestamp-between_example :
    (t : Option Time) × (final_timestamp (times plain attributed) ≡ some t)
    × (100 ≤ seconds t)
    × (seconds t ≤ 104)
final_timestamp-between_example =
    final_timestamp-between 100 104 (times plain attributed) (unfold as_time in omega arith)
      (unfold as_time in omega arith)

abbrev query : Message
query = query_message (some execution ∷ none ∷ [])

abbrev nothing_before : Message
nothing_before = outcome_message (record { outcomes = []; current_reports = [] })

abbrev votes_now : Votes (List ℕ) String
votes_now = count_observations plain attributed no_votes

abbrev middle : Option Time
middle = at_time 103

outcome-attributed :
    outcome plain plugin 7 nothing_before query attributed
    ≡ ok (
      outcome_message (conclude plain plugin votes_now middle 7 (some execution ∷ none ∷ []) []).0,
      (conclude plain plugin votes_now middle 7 (some execution ∷ none ∷ []) []).1,
    )
unfolding outcome final_timestamp sort_times insert_time before as_time count_observations
    count_observation count_requests count_request record_values record_encoder count_workflow_ids
    sha_for_overridden_encoder lookup insert count_at no_votes report_ids id_panics aggregate_panics
    report_id new_outcome load
outcome-attributed = refl

outcome-Supported_example :
    (ids : List (Option RequestId)) × (result : Outcome ℕ (List ℕ)) × (read_query query ≡ some ids)
    × (some (outcome_message result)
        ≡ some (
            outcome_message
              (conclude plain plugin votes_now middle 7 (some execution ∷ none ∷ []) []).0))
    × All (Supported plain plugin attributed ids) result.current_reports
outcome-Supported_example =
    outcome-Supported plain plugin 7 nothing_before query attributed
      (outcome_message (conclude plain plugin votes_now middle 7 (some execution ∷ none ∷ []) []).0)
      (conclude plain plugin votes_now middle 7 (some execution ∷ none ∷ []) []).1
      outcome-attributed

-- A workflow that was last seen in round 3, and the one that is queried, in round 200.
abbrev from_round : ℕ → AggregationOutcome ℕ (List ℕ)
from_round n = record {
  encodable_outcome = 0;
  metadata = "";
  should_report = false;
  last_seen_at = n;
  timestamp = none;
  encoder_name = "";
  encoder_config = [];
}

abbrev previous_outcomes : Dict String (AggregationOutcome ℕ (List ℕ))
previous_outcomes = ("gone", from_round 3) ∷ ("w", from_round 199) ∷ []

previous-distinct : (w : String) → keyed w previous_outcomes ≤ 1
previous-distinct w =
    let apart : string_eq.beq "gone" "w" ≡ false = refl in
    ground (arith, eq_iff "gone" w, eq_iff "w" w, eq_iff "gone" "w", apart)

previous-old :
    (w : String) (o : AggregationOutcome ℕ (List ℕ))
    → lookup w previous_outcomes ≡ some o
    → o.last_seen_at ≤ 200
unfolding lookup
previous-old w o e = ground arith

counting-ZeroLastSeen : ZeroLastSeen plain plugin
counting-ZeroLastSeen w aggregate previous obs o e f = ground arith

conclude-renews_example :
    let result =
      (conclude plain plugin votes_now middle 200
        (some execution ∷ [])
        previous_outcomes).0.outcomes in
    ((w : String)
      → lookup w result
        ≡ renewed plain plugin votes_now 200 w (
            at_pruning plain plugin votes_now middle 200 (some execution ∷ []) previous_outcomes w))
    × ((w : String) → keyed w result ≤ 1)
    × ((w : String) (o : AggregationOutcome ℕ (List ℕ))
        → lookup w result ≡ some o
        → o.last_seen_at ≤ 200)
conclude-renews_example =
    conclude-renews plain plugin votes_now middle 200 (some execution ∷ []) previous_outcomes
      previous-distinct previous-old counting-ZeroLastSeen (omega arith)

request_sha : sha_for_overridden_encoder plain observation ≡ some "sha"
unfolding sha_for_overridden_encoder
request_sha = refl

count_requests-stuffs_example :
    let v' = count_requests plain 1 (copies 3 (some observation)) votes_now in
    (encoder_votes "e" "sha" v' ≡ 3 + encoder_votes "e" "sha" votes_now)
    × (oracles_of "e" v' ≤ 1 + oracles_of "e" votes_now)
count_requests-stuffs_example =
    count_requests-stuffs plain 1 observation execution ("v" ∷ []) "sha" refl refl request_sha 3
      votes_now

-- ===== src/Consensus/PhaseTests.antt =====
-- The theorems on Query, Observation and Reports at a store with one request and at two reports.
use Prim.Native.String.{String}
use chainlink_common.Base.{
  arith, ℕ, ◌≡◌, refl, List, [], ◌∷◌, Option, none, some, Bool, true, false, ok, take, lookup,
  insert, string_eq,
}
use chainlink_common.Requests.Store.{Request, Store, new_store, add, first_n, first_n_loop}
use chainlink_common.Requests.StoreInvariant.{Inv, new_store-Inv, add-Inv}
use chainlink_common.Requests.StoreQueue.{contents}
use chainlink_common.Consensus.Types.{RequestId, Time, Observations, AggregationOutcome, Payload}
use chainlink_common.Consensus.Phases.{id_of, query, query_ids, observation}
use chainlink_common.Consensus.Rounds.{listed, observation-query}
use chainlink_common.Consensus.Reports.{
  Report, Encoding, append_metadata, find_encoder, encode_report, attempt, marshal_report_info,
  report_all, reports,
}
use chainlink_common.Consensus.Delivery.{Among, first, later, reports-Among}

data Packet : Type 0 where
  query_packet : List (Option RequestId) → Packet
  observations_packet : Observations String (List ℕ) → Packet
  reports_packet : List (Option (Report ℕ (List ℕ))) → Packet
  info_packet : RequestId → Bool → Packet
  bytes_packet : ℕ → Packet

abbrev read_ids : Packet → Option (List (Option RequestId))
read_ids (query_packet ids) = some ids
read_ids (observations_packet o) = none
read_ids (reports_packet rs) = none
read_ids (info_packet id b) = none
read_ids (bytes_packet n) = none

abbrev read_reports : Packet → Option (List (Option (Report ℕ (List ℕ))))
read_reports (reports_packet rs) = some rs
read_reports (query_packet ids) = none
read_reports (observations_packet o) = none
read_reports (info_packet id b) = none
read_reports (bytes_packet n) = none

abbrev request_a : Request (Payload String (List ℕ))
request_a = record {
  workflow_execution_id = "a";
  expires_at = 9;
  callback_ch = 1;
  payload = record {
    observations = "values";
    overridden_encoder_name = "EVM";
    overridden_encoder_config = some (1 ∷ []);
    workflow_id = "w";
    workflow_owner = "o";
    workflow_name = "n";
    workflow_don_id = 1;
    workflow_don_config_version = 2;
    report_id = "r";
    key_id = "k";
  };
}

abbrev store_a : Store (Payload String (List ℕ))
store_a = record { request_ids = "a" ∷ []; requests = ("a", request_a) ∷ [] }

store_a-Inv : Inv store_a
store_a-Inv = add-Inv new_store store_a request_a new_store-Inv added
  where
    added : add new_store request_a ≡ ok store_a
    added = unfold add in unfold new_store in unfold lookup in unfold insert in refl

abbrev as_list : String → Option String
as_list s = some s

abbrev same_config : List ℕ → List ℕ
same_config c = c

abbrev write_ids : List (Option RequestId) → Option Packet
write_ids ids = some (query_packet ids)

abbrev write_observations : Observations String (List ℕ) → Option Packet
write_observations o = some (observations_packet o)

read-write :
    (ids : List (Option RequestId)) (b : Packet) → write_ids ids ≡ some b → read_ids b ≡ some ids
read-write ids b e = cc

query-store_a :
    query as_list same_config [] write_ids read_ids write_observations store_a 5
    ≡ ok (query_packet (some (id_of request_a) ∷ []))
unfolding query first_n first_n_loop lookup query_ids
query-store_a = refl

abbrev noon : Time
noon = record { sec = 43200; nsec = 0 }

observation-query_example :
    observation as_list same_config [] write_ids read_ids write_observations store_a
      ("w" ∷ [])
      noon
      (query_packet (some (id_of request_a) ∷ []))
    ≡ ok (
        observations_packet (record {
          observations =
              listed as_list same_config [] write_ids read_ids write_observations
                (take 5 (contents store_a));
          registered_workflow_ids = "w" ∷ [];
          timestamp = some noon;
        }))
observation-query_example =
    observation-query as_list same_config [] write_ids read_ids write_observations store_a 5
      ("w" ∷ []) noon (query_packet (some (id_of request_a) ∷ [])) read-write store_a-Inv
      (λ e. omega arith) query-store_a

abbrev number_encoding : Encoding Packet ℕ (List ℕ) ℕ Packet
number_encoding = record {
  unmarshal_reports = read_reports;
  add_field = λ v m. some v;
  has_fields = λ _. true;
  map_of = λ v. some v;
  config_of = λ c. some 0;
  encoder_by_name = λ name c. none;
  encoder_by_workflow_id = λ w. some (λ v. some (bytes_packet v));
  marshal_info = λ id b. some (info_packet id b);
  new_struct = λ key p. some p;
  marshal_struct = λ p. some p;
}

abbrev sent_or_not : Bool → AggregationOutcome ℕ (List ℕ)
sent_or_not b = record {
  encodable_outcome = 7;
  metadata = "";
  should_report = b;
  last_seen_at = 1;
  timestamp = some noon;
  encoder_name = "";
  encoder_config = [];
}

abbrev report_of : Bool → Report ℕ (List ℕ)
report_of b = record { id = some (id_of request_a); outcome = some (sent_or_not b) }

abbrev never_done : RequestId → Bool
never_done id = false

abbrev two_reports : List (Option (Report ℕ (List ℕ)))
two_reports = some (report_of true) ∷ some (report_of false) ∷ []

abbrev none_sent : Request (Payload String (List ℕ)) → Option Packet × Packet
none_sent rq = (none, info_packet (id_of rq) false)

abbrev two_results : List (Option Packet × Packet)
two_results = (some (bytes_packet 7), info_packet (id_of request_a) true) ∷ none_sent request_a ∷ []

two_reports-sent : reports number_encoding never_done (reports_packet two_reports) ≡ ok two_results
unfolding reports report_all attempt encode_report append_metadata find_encoder marshal_report_info
two_reports-sent = refl

info_marshals :
    marshal_report_info number_encoding (id_of request_a) false
    ≡ some (info_packet (id_of request_a) false)
unfolding marshal_report_info
info_marshals = refl

reports-Among_example : Among (none_sent request_a) two_results
reports-Among_example =
    reports-Among number_encoding never_done (reports_packet two_reports) two_reports two_results
      (report_of false) (id_of request_a) (sent_or_not false) (info_packet (id_of request_a) false)
      refl two_reports-sent (later (some (report_of true)) (some (report_of false) ∷ []) (first []))
      refl refl refl info_marshals

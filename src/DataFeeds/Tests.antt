-- ===== src/DataFeeds/Tests.antt =====
-- The theorems on the aggregator of price feeds at three nodes, one of which may be faulty.
use chainlink_common.Base.{
  zero, suc, ◌+◌, ◌≤◌, ℕ, ◌≡◌, refl, inl, true, not, length, ◌==◌, List, [], ◌∷◌, All, Option, none,
  some, Dict, ok, lookup, insert,
}
use chainlink_common.Base.Int.{ℤ, pos, negsuc, ltb_ℤ, sub64}
use chainlink_common.Base.Bytes.{Bytes, same_bytes, bytes_eq}
use chainlink_common.DataFeeds.Feeds.{
  FeedId, FeedReport, FeedInfo, AggregatorConfig, Environment, Floats,
}
use chainlink_common.DataFeeds.Signers.{
  contains, add_unique, unique_signers, extract_unique_signers, count_of, increment, count_signers,
  contribution, extract_node, extract_nodes, allowed_signers, min_required, nothing_extracted,
  extract, signers_of, min_of,
}
use chainlink_common.DataFeeds.Latest.{
  latest_of, is_newer, take_report, take_reports, take_events, add_missing, remove_obsolete,
}
use chainlink_common.DataFeeds.FeedIds.{is_valid_id, id_bytes, decode_hex, hex_digit}
use chainlink_common.DataFeeds.Updates.{
  FeedsOutcome, set_bytes, insert_id, sort_ids, update_feed, deviation, config_of, needs_update,
  is_candidate, decide_feed, check_feed, check_feeds, add_candidates, select_feeds, new_update,
  new_updates, initialize_current_state, aggregate,
}
use chainlink_common.Codec.Bytes.{get}
use chainlink_common.DataFeeds.Vouched.{vouchers}
use chainlink_common.DataFeeds.Newest.{Covers, Offered, latest_of-Covers}
use chainlink_common.DataFeeds.Outcomes.{Reported, Recorded, aggregate-Reported, aggregate-Recorded}
use Prim.Native.Nat.{◌*◌, ◌/◌}

-- Whole numbers in place of float64.
abbrev floats : Floats ℤ
floats = record {
  of_int = λ z. z;
  of_big = λ n. pos n;
  max_float = pos 1000000;
  div = λ a b. quotient a b;
  mul = λ a b. product a b;
  sub = λ a b. sub64 a b;
  greater_than = λ a b. ltb_ℤ b a;
}
  where
    quotient : ℤ → ℤ → ℤ
    quotient (pos a) (pos b) = pos (a / b)
    quotient (pos a) (negsuc b) = pos 0
    quotient (negsuc a) b = pos 0

    product : ℤ → ℤ → ℤ
    product (pos a) (pos b) = pos (a * b)
    product (pos a) (negsuc b) = pos 0
    product (negsuc a) b = pos 0

abbrev repeat : ℕ → ℕ → Bytes → Bytes
repeat zero c rest = rest
repeat (suc n) c rest = c ∷ repeat n c rest

-- `0x` and 64 digits `1`.
abbrev sample_id : FeedId
sample_id = 48 ∷ 120 ∷ repeat 64 49 []

abbrev id_value : Bytes
id_value = repeat 32 17 []

abbrev signer : Bytes
signer = 7 ∷ 0 ∷ 0 ∷ 0 ∷ 0 ∷ 0 ∷ 0 ∷ 0 ∷ 0 ∷ 0 ∷ 0 ∷ 0 ∷ 0 ∷ 0 ∷ 0 ∷ 0 ∷ 0 ∷ 0 ∷ 0 ∷ 1 ∷ []

abbrev env : Environment (List FeedReport)
env = record {
  unwrap_metadata = λ v. some (record { signers = signer ∷ []; min_required_signatures = pos 1 });
  unwrap = λ v. some v;
  validate = λ r allowed min. not (length allowed == 0);
}

abbrev report : ℕ → FeedReport
report at = record {
  feed_id = sample_id;
  full_report = 9 ∷ [];
  report_context = [];
  signatures = [];
  benchmark_price = at ∷ [];
  observation_timestamp = pos at;
}

abbrev config : AggregatorConfig ℤ
config = record {
  feeds = (sample_id, record { heartbeat = pos 5; deviation = pos 1; remapped_id = [] }) ∷ [];
  allowed_partial_staleness = pos 0;
}

abbrev three_nodes : Dict ℕ (List (Option (List FeedReport)))
three_nodes =
    (0, some (report 20 ∷ []) ∷ []) ∷ (1, some (report 21 ∷ []) ∷ []) ∷ (2, none ∷ []) ∷ []

abbrev old_state : Dict FeedId FeedInfo
old_state = (sample_id, record { observation_timestamp = pos 10; benchmark_price = 10 ∷ [] }) ∷ []

abbrev decode : Dict FeedId FeedInfo → Option (Dict FeedId FeedInfo)
decode m = some m

abbrev encode : Dict FeedId FeedInfo → Option (Dict FeedId FeedInfo)
encode m = some m

abbrev three_outcome : FeedsOutcome (Dict FeedId FeedInfo)
three_outcome = record {
  updates =
      record {
        feed_id = id_value;
        raw_report = 9 ∷ [];
        price = 21;
        timestamp = pos 21;
        remapped_id = id_value;
      }
      ∷ [];
  metadata = (sample_id, record { observation_timestamp = pos 21; benchmark_price = 21 ∷ [] }) ∷ [];
  should_report = true;
}

initialize_current_state-old :
    initialize_current_state config decode (some old_state) ≡ ok old_state
unfolding initialize_current_state add_missing remove_obsolete lookup same_bytes
initialize_current_state-old = refl

latest_of-three : latest_of env 1 three_nodes ≡ (sample_id, report 21) ∷ []
unfolding latest_of is_newer take_report take_reports take_events extract signers_of min_of
    extract_nodes extract_node contribution extract_unique_signers unique_signers add_unique
    contains same_bytes count_signers increment count_of allowed_signers min_required
    nothing_extracted lookup insert
latest_of-three = refl

aggregate-three :
    aggregate floats env config encode decode (some old_state) three_nodes 1 ≡ ok three_outcome
unfolding aggregate initialize_current_state add_missing remove_obsolete select_feeds check_feeds
    check_feed decide_feed needs_update is_candidate update_feed config_of deviation add_candidates
    sort_ids insert_id is_valid_id id_bytes decode_hex hex_digit new_updates new_update set_bytes
    get sub64 latest_of is_newer take_report take_reports take_events extract signers_of min_of
    extract_nodes extract_node contribution extract_unique_signers unique_signers add_unique
    contains same_bytes count_signers increment count_of allowed_signers min_required
    nothing_extracted lookup insert
aggregate-three = refl

validate-three :
    env.validate (report 20) (signers_of env 1 three_nodes) (min_of env 1 three_nodes) ≡ true
unfolding extract signers_of min_of extract_nodes extract_node contribution extract_unique_signers
    unique_signers add_unique contains same_bytes count_signers increment count_of allowed_signers
    min_required nothing_extracted lookup insert
validate-three = refl

Offered-three : Offered env (extract env three_nodes).events (report 20)
unfolding extract extract_nodes extract_node contribution extract_unique_signers unique_signers
    nothing_extracted
Offered-three = inl (report 20 ∷ [], refl, inl refl)

aggregate-Reported_example :
    Reported floats env config three_nodes 1 three_outcome.updates
    × All (λ s. 1 + 1 ≤ vouchers env s three_nodes) (signers_of env 1 three_nodes)
aggregate-Reported_example =
    aggregate-Reported floats env config encode decode three_nodes 1 (some old_state)
      aggregate-three

aggregate-Recorded_example :
    Recorded floats env config encode decode three_nodes 1 old_state three_outcome
aggregate-Recorded_example =
    aggregate-Recorded floats env config encode decode three_nodes 1 (some old_state)
      initialize_current_state-old aggregate-three

latest_of-Covers_example : Covers (latest_of env 1 three_nodes) (report 20)
latest_of-Covers_example =
    latest_of-Covers env 1 three_nodes (report 20) Offered-three validate-three

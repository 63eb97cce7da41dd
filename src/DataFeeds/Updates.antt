-- ===== src/DataFeeds/Updates.antt =====
-- feeds_aggregator.go: the deviation, the decision on each feed, and Aggregate.
use chainlink_common.Base.{
  true, false, ℕ, ◌-◌, Bool, ◌||◌, ◌&&◌, not, List, [], ◌∷◌, ◌++◌, Option, none, some, ltb, ◌==◌,
  Dict, lookup, insert, keys, length, if◌then◌else◌, Result, ok, ◌>>=◌, ◌>>◌, or_fail, refuse_if,
}
use chainlink_common.Base.Int.{ℤ, pos, ltb_ℤ, eq_ℤ, sub64}
use chainlink_common.Base.Bytes.{Bytes, bytes_eq}
use chainlink_common.Codec.Bytes.{get, big_endian}
use chainlink_common.DataFeeds.Feeds.{
  FeedId, FeedReport, FeedInfo, FeedConfig, AggregatorConfig, Environment, Floats,
}
use chainlink_common.DataFeeds.FeedIds.{is_valid_id, id_bytes}
use chainlink_common.Hashutil.{bytes_lt}
use chainlink_common.DataFeeds.Signers.{extract, min_of}
use chainlink_common.DataFeeds.Latest.{latest_of, add_missing, remove_obsolete}

pub data FeedsError : Type 0 where
  no_min_required : FeedsError
  bad_metadata : FeedsError
  unencodable : FeedsError
  panicked : FeedsError

-- One entry of the list of reports in the outcome.
pub record Update : Type 0 where
  pub feed_id : Bytes
  pub raw_report : Bytes
  pub price : ℕ
  pub timestamp : ℤ
  pub remapped_id : Bytes

pub record FeedsOutcome (M : Type 0) : Type 0 where
  pub updates : List Update
  pub metadata : M
  pub should_report : Bool

-- `big.Int.SetBytes`.
unfoldable pub set_bytes : Bytes → ℕ
unfolding get
set_bytes bs = get big_endian bs

unfoldable pub insert_id : FeedId → List FeedId → List FeedId
unfolding bytes_lt
insert_id id [] = id ∷ []
insert_id id (j ∷ js) =
    let rest = insert_id id js in if bytes_lt j id then j ∷ rest else id ∷ (j ∷ js)

-- `sort.Slice(allIDs, ...)`: the ids are the keys of a map, so they differ.
unfoldable pub sort_ids : List FeedId → List FeedId
unfolding insert_id
sort_ids [] = []
sort_ids (id ∷ ids) = insert_id id (sort_ids ids)

abbrev pub info_of : FeedReport → FeedInfo
info_of r = record {
  observation_timestamp = r.observation_timestamp;
  benchmark_price = r.benchmark_price;
}

-- currentState.FeedInfo, reportsNeedingUpdate and candidateIDs.
pub record Progress : Type 0 where
  pub state : Dict FeedId FeedInfo
  pub updates : List FeedReport
  pub candidates : List FeedId

unfoldable pub update_feed : FeedId → FeedReport → Progress → Progress
unfolding insert
update_feed id report p = record p {
  state = insert id (info_of report) p.state;
  updates = p.updates ++ (report ∷ []);
}

module _ {F M : Type 0} (config : AggregatorConfig F)
    (decode_state : M → Option (Dict FeedId FeedInfo)) where
  unfoldable pub initialize_current_state : Option M → Result FeedsError (Dict FeedId FeedInfo)
  unfolding add_missing remove_obsolete
  initialize_current_state none = ok (remove_obsolete config.feeds (add_missing config.feeds []))
  initialize_current_state (some m) = do
    state ← or_fail (decode_state m) bad_metadata
    ok (remove_obsolete config.feeds (add_missing config.feeds state))

module _ {F : Type 0} (floats : Floats F) where
  open floats use {of_int, of_big, max_float, div, mul, sub, greater_than}

  unfoldable pub deviation : ℕ → ℕ → F
  deviation old_price new_price =
      let diff = if ltb old_price new_price then new_price - old_price else old_price - new_price in
      if old_price == 0
      then (if diff == 0 then of_int (pos 0) else max_float)
      else div (of_big diff) (of_big old_price)

  -- A configuration that is not there is the zero value.
  abbrev pub no_config : FeedConfig F
  no_config = record { heartbeat = pos 0; deviation = of_int (pos 0); remapped_id = [] }

  unfoldable pub config_of : AggregatorConfig F → FeedId → FeedConfig F
  unfolding lookup
  config_of config id = elim (lookup id config.feeds) [ none ↦ no_config | some c ↦ c ]

  -- The first condition: the heartbeat or the deviation is exceeded.
  unfoldable pub needs_update : FeedConfig F → FeedInfo → FeedReport → Bool
  unfolding deviation set_bytes sub64
  needs_update c old report =
      ltb_ℤ c.heartbeat (sub64 report.observation_timestamp old.observation_timestamp)
      || greater_than (deviation (set_bytes old.benchmark_price) (set_bytes report.benchmark_price))
          c.deviation

  -- The second: the feed is stale enough to go along.
  unfoldable pub is_candidate : AggregatorConfig F → FeedConfig F → FeedInfo → FeedReport → Bool
  unfolding sub64
  is_candidate config c old report =
      greater_than (of_int (sub64 report.observation_timestamp old.observation_timestamp))
        (mul (of_int c.heartbeat) (sub (of_int (pos 1)) config.allowed_partial_staleness))

  module _ (config : AggregatorConfig F) (latest : Dict FeedId FeedReport) where
    -- The decision on a feed with a valid id, a state and a new report.
    unfoldable pub decide_feed : FeedId → FeedInfo → FeedReport → Progress → Progress
    unfolding needs_update is_candidate update_feed config_of
    decide_feed id old report p =
        if needs_update (config_of config id) old report
        then update_feed id report p
        else if is_candidate config (config_of config id) old report
        then record p { candidates = p.candidates ++ (id ∷ []) }
        else p

    -- The body of the loop over the ids.
    unfoldable pub check_feed : FeedId → Progress → Progress
    unfolding decide_feed lookup is_valid_id
    check_feed id p = elim (is_valid_id id) [
      | false ↦ p
      | true ↦ elim (lookup id latest) [
        | none ↦ p
        | some report ↦ elim (lookup id p.state) [
          | none ↦ p
          | some old ↦ decide_feed id old report p
        ]
      ]
    ]

    unfoldable pub check_feeds : List FeedId → Progress → Progress
    unfolding check_feed
    check_feeds [] p = p
    check_feeds (id ∷ ids) p = check_feeds ids (check_feed id p)

    -- The loop over the candidates, each of which has a report.
    unfoldable pub add_candidates : List FeedId → Progress → Progress
    unfolding update_feed lookup
    add_candidates [] p = p
    add_candidates (id ∷ ids) p = elim (lookup id latest) [
      | none ↦ add_candidates ids p
      | some report ↦ add_candidates ids (update_feed id report p)
    ]

    unfoldable pub select_feeds : Dict FeedId FeedInfo → Progress
    unfolding check_feeds add_candidates sort_ids
    select_feeds state =
        let p =
          check_feeds (sort_ids (keys state))
            (record { state = state; updates = []; candidates = [] }) in
        if length p.updates == 0 then p else add_candidates p.candidates p

  module _ (config : AggregatorConfig F) where
    -- `Bytes` of the id panics if it is too short.
    unfoldable pub new_update : FeedReport → Result FeedsError Update
    unfolding config_of set_bytes id_bytes
    new_update report = do
      id ← or_fail (id_bytes report.feed_id) panicked
      let remapped = (config_of config report.feed_id).remapped_id
      ok (record {
        feed_id = id;
        raw_report = report.full_report;
        price = set_bytes report.benchmark_price;
        timestamp = report.observation_timestamp;
        remapped_id = if length remapped == 0 then id else remapped;
      })

    unfoldable pub new_updates : List FeedReport → Result FeedsError (List Update)
    unfolding new_update
    new_updates [] = ok []
    new_updates (report ∷ reports) = do u ← new_update report; us ← new_updates reports; ok (u ∷ us)

  -- Metadata is the state in its encoding.
  module _ {V M : Type 0} (env : Environment V) (config : AggregatorConfig F)
      (encode_state : Dict FeedId FeedInfo → Option M)
      (decode_state : M → Option (Dict FeedId FeedInfo)) where
    unfoldable pub aggregate :
        Option M → Dict ℕ (List (Option V)) → ℕ → Result FeedsError (FeedsOutcome M)
    unfolding initialize_current_state select_feeds new_updates
    aggregate previous observations f = do
      refuse_if
          (not (length (extract env observations).events == 0)
            && eq_ℤ (min_of env f observations) (pos 0))
          no_min_required
      state ← initialize_current_state config decode_state previous
      let p = select_feeds config (latest_of env f observations) state
      metadata ← or_fail (encode_state p.state) unencodable
      updates ← new_updates config p.updates
      ok (record {
        updates = updates;
        metadata = metadata;
        should_report = not (length p.updates == 0);
      })

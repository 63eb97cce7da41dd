-- ===== src/DataFeeds/Latest.antt =====
-- The latest valid report of each feed, and the state that the aggregation starts from.
use chainlink_common.Base.{
  ℕ, Bool, true, List, [], ◌∷◌, Option, none, some, Dict, lookup, insert, if◌then◌else◌,
}
use chainlink_common.Base.Int.{ℤ, pos, ltb_ℤ}
use chainlink_common.Base.Bytes.{Bytes, bytes_eq}
use chainlink_common.DataFeeds.Signers.{extract, signers_of, min_of}
use chainlink_common.DataFeeds.Feeds.{FeedId, FeedReport, FeedInfo, FeedConfig, Environment}

module _ {V : Type 0} (env : Environment V) (allowed : List Bytes) (min : ℤ) where
  -- `!ok || report.ObservationTimestamp > latest.ObservationTimestamp`.
  unfoldable pub is_newer : FeedReport → Dict FeedId FeedReport → Bool
  unfolding lookup
  is_newer report latest = elim (lookup report.feed_id latest) [
    | none ↦ true
    | some known ↦ ltb_ℤ known.observation_timestamp report.observation_timestamp
  ]

  -- The body of the loop over the reports of an event.
  unfoldable pub take_report : FeedReport → Dict FeedId FeedReport → Dict FeedId FeedReport
  unfolding is_newer insert
  take_report report latest =
      if is_newer report latest
      then (if env.validate report allowed min then insert report.feed_id report latest else latest)
      else latest

  unfoldable pub take_reports : List FeedReport → Dict FeedId FeedReport → Dict FeedId FeedReport
  unfolding take_report
  take_reports [] latest = latest
  take_reports (report ∷ reports) latest = take_reports reports (take_report report latest)

  unfoldable pub take_events : Dict ℕ V → Dict FeedId FeedReport → Dict FeedId FeedReport
  unfolding take_reports
  take_events [] latest = latest
  take_events ((id, event) ∷ events) latest = elim (env.unwrap event) [
    | none ↦ take_events events latest
    | some reports ↦ take_events events (take_reports reports latest)
  ]

-- The reports of a round: those of its events, for its signers and its minimum.
module _ {V : Type 0} (env : Environment V) where
  unfoldable pub latest_of : ℕ → Dict ℕ (List (Option V)) → Dict FeedId FeedReport
  unfolding take_events extract signers_of min_of
  latest_of f observations =
      take_events env (signers_of env f observations) (min_of env f observations)
        (extract env observations).events []

-- The state of a feed that is new: the zero time always triggers an update.
abbrev pub no_info : FeedInfo
no_info = record { observation_timestamp = pos 0; benchmark_price = [] }

module _ {F : Type 0} where
  -- The loop that adds the missing feeds.
  unfoldable pub add_missing :
      Dict FeedId (FeedConfig F) → Dict FeedId FeedInfo → Dict FeedId FeedInfo
  unfolding lookup insert
  add_missing [] state = state
  add_missing ((id, c) ∷ feeds) state = elim (lookup id state) [
    | some _ ↦ add_missing feeds state
    | none ↦ add_missing feeds (insert id no_info state)
  ]

  -- The loop that removes the feeds that are not configured.
  unfoldable pub remove_obsolete :
      Dict FeedId (FeedConfig F) → Dict FeedId FeedInfo → Dict FeedId FeedInfo
  unfolding lookup
  remove_obsolete feeds [] = []
  remove_obsolete feeds ((id, info) ∷ state) =
      let rest = remove_obsolete feeds state in
      elim (lookup id feeds) [ none ↦ rest | some _ ↦ (id, info) ∷ rest ]

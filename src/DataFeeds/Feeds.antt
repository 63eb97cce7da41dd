-- ===== src/DataFeeds/Feeds.antt =====
-- The data of feeds_aggregator.go and of pkg/capabilities/datastreams/types.go, and what the
-- aggregator is given: the codec of reports and float64.
use chainlink_common.Base.{ℕ, Bool, List, Option, Dict}
use chainlink_common.Base.Int.{ℤ}
use chainlink_common.Base.Bytes.{Bytes}

abbrev pub FeedId : Type 0
FeedId = Bytes

pub record FeedReport : Type 0 where
  pub feed_id : FeedId
  pub full_report : Bytes
  pub report_context : Bytes
  pub signatures : List Bytes
  pub benchmark_price : Bytes
  pub observation_timestamp : ℤ

pub record Metadata : Type 0 where
  pub signers : List Bytes
  pub min_required_signatures : ℤ

-- DataFeedsMercuryReportInfo, what the chain is taken to hold of a feed.
pub record FeedInfo : Type 0 where
  pub observation_timestamp : ℤ
  pub benchmark_price : Bytes

-- A feed's configuration after ParseConfig, with `F` for float64; the deviation is InexactFloat64
-- of the decimal.
pub record FeedConfig (F : Type 0) : Type 0 where
  pub heartbeat : ℤ
  pub deviation : F
  pub remapped_id : Bytes

pub record AggregatorConfig (F : Type 0) : Type 0 where
  pub feeds : Dict FeedId (FeedConfig F)
  pub allowed_partial_staleness : F

-- What the aggregator uses of float64.
pub record Floats (F : Type 0) : Type 0 where
  pub of_int : ℤ → F
  pub of_big : ℕ → F
  pub max_float : F
  pub div : F → F → F
  pub mul : F → F → F
  pub sub : F → F → F
  pub greater_than : F → F → Bool

-- What the aggregator is given: UnwrapTo of a trigger event, which finds the metadata, and the
-- report codec.
pub record Environment (V : Type 0) : Type 0 where
  pub unwrap_metadata : V → Option Metadata
  pub unwrap : V → Option (List FeedReport)
  pub validate : FeedReport → List Bytes → ℤ → Bool

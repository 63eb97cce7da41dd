-- ===== src/DataFeeds.antt =====
-- pkg/capabilities/consensus/ocr3/datafeeds/feeds_aggregator.go: the aggregator of price feeds.
pub mod Feeds
pub mod FeedIds
pub mod Signers
pub mod Latest
pub mod Updates
pub mod Counts
pub mod Vouched
pub mod Newest
pub mod Selected
pub mod Outcomes
pub mod Tests

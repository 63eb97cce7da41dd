-- ===== src/Lib.antt =====
-- chainlink-common: the parts of the library that keep state or decide by a quorum, as functions
-- on values, with what their callers rely on.
--
-- Services (pkg/services/state.go) has the ErrorBuffer, each method one function since it holds
-- its mutex, and the StateMachine that every service embeds. Its four locking methods are split
-- into operations (compare-and-swap, load, lock). A deferred unlock is one operation with what is
-- done before it under the lock: the return of `fn` and the second swap, or the test that refuses
-- a call. `Thread` is a program counter, `advance` one operation, and `run` interleaves any
-- number of threads by any list of turns. An operation that has to wait for the lock leaves the
-- world as it is. Ready and Healthy are functions on the state and not interleaved. Multi has the
-- MultiStart of pkg/services/multi.go, with the calls that it makes as a list, and MultiLaws its
-- proofs.
--
-- Merkle (pkg/merklemulti/merkle_multi.go) has NewTree, Root and Prove in Tree and
-- VerifyComputeRoot in Verify, with its array and three positions; an index out of range is the
-- error `out_of_range`. Queue says what the array means, and Refine, Accepts, Layer and Roundtrip
-- prove it. The fuel of NewTree's loop is the number of leaves, which suffices as a layer of at
-- least two hashes gets shorter. Hashutil (pkg/hashutil/keccak.go) is the hasher that the trees
-- are built with; the SHA-3 function is a parameter.
--
-- Requests (pkg/capabilities/consensus/ocr3/requests) has the Store of pending requests and the
-- Handler, whose worker joins requests with responses: one function for each case of its select,
-- and `run` for any sequence of events. The inner select of sendResponse may go either way, by
-- the argument `sends`; channels are numbers and `delivered` records the sends.
--
-- Consensus (pkg/capabilities/consensus/ocr3/reporting_plugin.go) has the methods of a round:
-- Query and Observation in Phases, Outcome in Votes (its first loop) and Round, and Reports with
-- the metadata of ocr3/types/aggregator.go in the module Reports. In Outcome, reports and the map
-- of outcomes share pointers that the pruning writes through, so outcomes live in a heap.
-- Protobuf, FromListValueProto and SHA-256 are the record Wire, the aggregators a field of
-- Plugin, each of which may fail or panic. LastSeenAt is a uint64, so the difference of rounds is
-- taken modulo 2 ^ 64. A time is counted from year 1, where Timestamp's range begins, without an
-- upper bound, and its nanoseconds, if not negative, need not be below a second. A panic ends the
-- method with the error `panics` or `reports_panics`.
--
-- Aggregators (pkg/capabilities/consensus/ocr3/aggregators) has two aggregators that Outcome can
-- call. Identical has identical.go, and Counters, NodeCounts and Quorum its proofs. Of
-- reduce_aggregator.go, ReduceConfig has the configuration and its validation, Mode the mode with
-- its quorum, Reduce the decimals, the median and the deviation, and ReduceRun the extraction of
-- values and Aggregate; ValidConfig, MostFrequent, Median and Deviation have the proofs. The type
-- of decimals with its operations is the record Decimals, and their laws are hypotheses. The
-- encodings of the state, and whether NewMap can wrap the report, are parameters that may fail.
--
-- DataFeeds (pkg/capabilities/consensus/ocr3/datafeeds/feeds_aggregator.go) is a third
-- aggregator, of price feeds. FeedIds has the feed ids of pkg/capabilities/datastreams/types.go
-- as bytes of text, Signers the first phase (who may sign, and the minimum), Latest the latest
-- valid reports and the initial state, Updates the decision on each feed and Aggregate. Counts,
-- Vouched, Selected, Newest and Outcomes have the proofs. What reads a trigger event, the codec
-- of reports, float64 and the encoding of the state are parameters.
--
-- Codec (pkg/codec/encodings) has the codecs of single values in Numbers, BigInts and Text (the
-- folder binary) and those built from others in Elements (arrays, slices, pointers) and Structs.
-- Values are the Go values that reflection sees, with their types; a number is its bit pattern,
-- and an int has 64 bits. `makes` says which lengths reflect.MakeSlice can allocate; the others
-- are a panic. Interface has the interface TypeCodec as a record, and the laws RoundTrips,
-- IsTyped and IsFixed of one codec; NumberLaws, IntLaws, BigIntLaws, TextLaws, ElementLaws,
-- SliceLaws and the modules of structs show that the codecs have them if their elements do. The
-- signed big integers of libocr are a parameter. The fuel of the length of a number in bits is
-- the 64 bits of a uint.
--
-- Workflows (pkg/workflows) has the values of a step's inputs with DeepMap in Items, the token of
-- a reference and findRefs in Refs, BuildDependencyGraph (dependency_graph.go, over the library
-- of graphs as the record GraphLibrary) in Graph, and exec/interpolation.go in Interpolation and
-- EnvVars. Text is bytes, and a Go map a list of entries in its order of iteration. Framed and
-- Linked have the proofs; what is relied on of the library is the record IsGraph.
--
-- Mailbox (pkg/utils/mailbox/mailbox.go) is the queue between components; the fuel of the loop
-- that reverses it is its length.
--
-- Base has the shared types, lists, maps and results. A Go map is an association list, whose
-- order is the order of iteration. Each part has its theorems at concrete inputs in modules whose
-- names end in Tests.
--
-- Not modelled: logging, metrics and contexts beyond what they decide; the parsing of YAML
-- workflows; the configuration of price feeds and the aggregator of LLO streams; a nil `any`
-- given to a codec, the map of codecs by item type with its conversions, and the codec modifiers,
-- which rewrite Go types by reflection; the loop plugins over gRPC and all generated code.
mod Base
pub mod Codec
pub mod DataFeeds
pub mod Aggregators
pub mod Hashutil
pub mod Mailbox
pub mod Merkle
pub mod Requests
pub mod Consensus
pub mod Services
pub mod Workflows

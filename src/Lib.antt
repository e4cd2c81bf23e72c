-- ===== src/Lib.antt =====
-- The core of vmestimator: counting distinct time series in streams, and dropping repeated ones.
--
-- Parts of the program, the files that model them, and how they meet:
-- * The data that the parser hands to the rest, `TimeSerie` and `Label`: Series.
-- * deduplicator.go keeps a ring of ten Bloom filters; main.go filters each batch in place before
--   the estimators see it, and a goroutine clears one filter at a time: Dedup, Dedup/Bloom, with
--   the bit operations in Words. The atomic steps of threads that share a filter, in any order, are
--   in Dedup/Bloom/Race.
-- * config.go checks and completes the configuration of the streams: Config. It also compiles a
--   stream's filter and matches labels with it: Filter.
-- * estimator.go makes one estimator for each stream. Its buckets hold the sketches, and share a
--   `groupSize` that limits the number of groups: Estimator/GroupSize, Estimator/Bucket,
--   Estimator/State and Estimator/InsertMany. The invariant is in Estimator/Invariant and
--   Estimator/Bounds; what `newEstimator` refuses is in Estimator/Refusals.
-- * snapshot.go and churn.go merge what the estimators of several nodes hold, and compare a merged
--   sketch with an earlier one: Snapshot and Churn. An estimator hands its state over in snapshots,
--   with sketches from a pool: Export and Export/Pool. What the nodes of a cluster serve, and another
--   one reads and merges: Cluster and Cluster/Fetch.
-- * protoparser/write_request.go and protoparser/streamparser.go read the series of a request:
--   Parser, with the loop over fields in Parser/Fields and the reused unmarshalers in Parser/Reuse.
-- * config.go also reads a configuration, loads it into the running program and watches its file:
--   Reload.
-- * main.go leads a request to its handler, gives a write request to the deduplicator and to every
--   estimator, and resets them: Server, and as one function Server/Handler. Server/Startup has the
--   start of the program, Server/Life the steps of the whole: writes, resets, reloads, scrapes and
--   the turns of the goroutines, and Server/Watching the loop of the reloader.
-- * The text of the metrics, in snapshot.go, churn.go and estimator.go: Metrics. What writes and
--   caches it, in cardinality_metrics.go, and asks the other nodes: Scrape.
-- All paths are below app/vmestimator. Base holds the tests on numbers, lists, maps and integers
-- that the parts share; Tests holds the runs on concrete inputs.
--
-- Correspondence: a struct is a record with its fields, a method a function that returns the changed
-- state; a Go panic is `none` of an optional result (or `panics`), an error is a value of its own. A
-- string is its bytes, a map an association list without repeated keys, a duration a number of
-- nanoseconds. 64-bit words wrap around where the program's do; counts that are `int64` in the
-- program are natural numbers. A critical section is one step.
--
-- Bounds: every loop is a recursion on a list or on the number of its rounds, which is the number
-- that the program uses. Only the loops over the fields of a message have fuel: the number of its
-- bytes, which is enough as reading a field takes at least one. Bloom filters are for at most
-- 2 ^ 59 - 1 items, below which the number of their bits fits in a word; the loop over the estimators
-- is for at most 2 ^ 31 of them, below which its index does not wrap around.
--
-- What is not under app/ is a parameter: the HyperLogLog sketch is the interface of Sketch, with its
-- documented behaviour as laws; the reading of a protobuf field, the decompressors, the parsing of
-- selectors and of regular expressions, the comparison of configurations (reflect.DeepEqual), the
-- encoding and decoding of a snapshot (gob), the sorting of strings, the printing of durations,
-- numbers and quoted strings, xxhash, random numbers, the clock and what other nodes answer are
-- arguments.
--
-- Not modelled: files and YAML, HTTP itself, the pools of buffers and digests, the reading of flags
-- and the shutdown. But for the threads of a Bloom filter, the goroutines are steps, one whole after
-- the other: the interleaving of a scrape or an export with inserts between two locks is not
-- modelled.
pub mod Base
pub mod Series
pub mod Parser
pub mod Words
pub mod Filter
pub mod Config
pub mod Sketch
pub mod Dedup
pub mod Estimator
pub mod Snapshot
pub mod Churn
pub mod Export
pub mod Cluster
pub mod Reload
pub mod Server
pub mod Metrics
pub mod Scrape
pub mod Tests

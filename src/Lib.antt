-- ===== src/Lib.antt =====
-- A model of fossil, an archive of historical chain state kept as immutable runs in an object
-- store, with the theorems that make its core correct.
--
-- The parts. A package of consecutive blocks is published as one run: sorted records behind a tree
-- of fences, addressed by digest. The head is the only mutable object: it lists the runs, the
-- recent ones in L0 and the older ones in levels. `publish` appends to L0, and `compact_once` folds
-- L0 and full levels into one run. Both commit by a compare-and-swap on the head. A reader looks a
-- key up in the runs.
--
-- Base, Bytes and Extern hold what the parts share: results with errors as values, byte strings
-- with big-endian words, and the other crates (SHA-256, hex, zstd) as records of operations with
-- their documented laws. Models take these records as parameters.
--
-- Head is codec/src/head.rs: Head/Manifest the manifest with `validate`, which is `Head::decode`
-- behind the JSON parser, Head/Keys the keys, and Head/Account the account value.
-- Codec is codec/src/run.rs: Codec/Data the data pages, Codec/Index the fences, Codec/Page the
-- compressed objects, Codec/Root the run root, Codec/Lookup `RunReader::lookup`, over a
-- function that fetches objects, Codec/Builder `RunBuilder::build`, Codec/Scanner `RunScanner`, and
-- Codec/Walk `RunReader::walk`. Package is the data of src/format.rs and src/normalized.rs,
-- Package/Quantity the texts of numbers, and Package/Parser `parse_package` behind the JSON parser.
-- Compact/Merge is the producer of `merge_runs` in src/compact.rs, over any scanners, and
-- Compact/Write is `write_sorted`, with `finish` of codec/src/summary.rs, and Compact/Runs is
-- `merge_runs` from its scanners on; both pass the state of a store along. Compact/Pages is the
-- read-ahead.
-- Tiered is src/tiered.rs: Tiered/Publication the guards of `publish` and the head that it
-- commits, Tiered/Records the records of a package and its lifecycle checks, Tiered/Compaction
-- `compact_once` without the merge, whose result is a parameter, Tiered/Protocol the commits of any
-- number of publishers and compactors as a step relation, Tiered/Reader the pinned
-- reader with its budget and its shard cache, and Tiered/Collect `collect_garbage`.
-- Summary is codec/src/summary.rs: the filters, the builder, the encoding of a shard, the paths of
-- shards and objects, and the probe of the reader in src/tiered.rs.
-- Store is src/store.rs: Store/Immutable what the writers rely on, as an interface, and Store/Memory
-- the memory store with its versions, which Store/Memory/Puts shows to fill it.
-- Server is src/rpc.rs: Server/Selector the block that a request names, Server/Dispatch `dispatch`
-- and the replies to values and batches.
-- Worker is worker/src: Worker/Reader the reader of core.rs over any object store, Worker/Selector its
-- selectors and texts, Worker/Object `parse_range` and `decode_cas_key` of lib.rs, Worker/Gateway
-- its `serve_object`, and Worker/Dispatch its `dispatch_rpc`.
-- Examples has concrete inputs of the theorems.
--
-- Numbers are natural numbers. A `u64` sum that the code leaves unchecked wraps in the model, a
-- checked one is a test against 2 ^ 64, and `usize` sums over lengths in memory do not overflow.
-- `carry`, the loop of `compact_once` over the levels, runs on fuel of nine rounds: each round
-- raises the target, which is below eight. The loop that readies a scanner's cursor runs on
-- fuel of two rounds, since the page of the first is not empty, and the merge on fuel for one more
-- round than there are records. The loops over counted entries recurse on the count. `shard_count`
-- looks for a power of two among the 64 that a `u64` has.
--
-- The reader's cache is the crate moka: it answers what was inserted, or nothing. The budget and the
-- cache of a request are passed along as its state, and a request ends with its first error. The worker's
-- reader lives for one request, and passes its cells along in the same way.
--
-- Not modelled: JSON and the store's input and output, the channels of the merge,
-- the bodies and the routing of the edge worker's requests, the stores on a file system and S3,
-- bootstrap, and the server's sockets and command line.
pub mod Compact
pub mod Base
pub mod Bytes
pub mod Extern
pub mod Head
pub mod Codec
pub mod Summary
pub mod Package
pub mod Tiered
pub mod Store
pub mod Server
pub mod Worker
pub mod Examples

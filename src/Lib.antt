-- ===== src/Lib.antt =====
-- fossic keeps an append-only log of events in SQLite: streams with branches, event ids that are hashes of
-- a canonical encoding of the content, reducers that fold the events of a stream to a state, and
-- snapshots of such states. This library models its core, with theorems on it.
--
-- The parts and the files that model them:
--   * Canonical encoding (src/cce.rs): Cce models the encoder and `derive_event_id` over the JSON values of
--     Json, with `sort_unstable_by` in Cce/Sort. Cce/Canon is the canonical form of a value,
--     Cce/Writes, Cce/Unique, Cce/Sized, Cce/Order and Cce/Identity hold the lemmas.
--   * Event ids (src/types.rs): EventId, with lemmas in EventId/Hex.
--   * Errors (src/error.rs): Error. A failing function returns `Result Error A`.
--   * Streams (src/stream.rs): Stream, with Stream/Valid, Stream/Registry and
--     Stream/Listing.
--   * The database (src/schema.rs, src/types.rs): Tables. `Db` is the rows of the tables; a function that
--     writes returns the new `Db`, and a transaction that fails returns an error and no `Db`.
--   * Writes to the log (src/append.rs): Append and Append/Batch, with Append/Log and Append/Outcome.
--   * Reads of the log (src/read.rs): Read, with Read/Page and Read/Own.
--   * Stream patterns (src/glob.rs): Glob, with Glob/Meaning.
--   * Reducers (src/reducers.rs): Reducers, with Reducers/Overlap and Reducers/Lookup.
--   * Snapshots and folds (src/snapshots.rs; compute_state_bytes, apply_reducer_guarded,
--     read_state_bytes_at_version and take_snapshot of src/store.rs): Snapshots, with Snapshots/Range,
--     Snapshots/State, Snapshots/Writes and Snapshots/Appends.
--     Snapshots/Auto models read_state_bytes of src/store.rs with the state monitor and the automatic
--     snapshots, Snapshots/Reads holds the lemmas.
--   * Branches (src/branches.rs): Branches, with Branches/Chain and Branches/Lifecycle.
--   * Upcasters and transforms (src/upcasters.rs, src/transforms.rs): Upcasters, with Upcasters/Chains.
--   * Cursors (src/cursors.rs): Cursors, with Cursors/Laws.
--   * Deletion (src/deletion.rs): Deletion, with Deletion/Purge.
--   * The appends and reads of the store (prepare_payload, build_stored_event, append, append_batch, append_if
--     and the reads of src/store.rs): Store, Store/Batch and Store/Reads, with Store/Published and
--     Store/Upcast.
--   * Subscriptions (src/subscriptions.rs, and subscribe of src/store.rs): Subscriptions models the registry
--     and its dispatches, Subscriptions/Seed the first cursors of a subscription, Subscriptions/Runs the
--     sequences of operations. Subscriptions/Visit, Steps, Offers, Keeps, Dispatches, Order and
--     Reach hold the lemmas.
--   * The events that the store writes about itself (src/system_stream.rs, src/registry.rs): SystemStream, with
--     SystemStream/Emit.
--   * Background tasks (src/executor.rs, and the tasks in src/store.rs): Executor models the heap, the
--     quiescence gate and a turn of the thread, with Executor/Order and Executor/Rounds.
--   * The scan of the log for events of other processes (src/wal_watch.rs): WalWatch, with
--     WalWatch/Groups, WalWatch/Scan and WalWatch/Missed.
--   * Queries over several streams (src/cross_stream.rs): CrossStream models the reads by correlation and the
--     walks along causation, CrossStream/Bounded the walk within a budget, CrossStream/Aggregate the
--     aggregates. CrossStream/Levels, CrossStream/Walks and the children of Bounded and Aggregate hold
--     the lemmas.
--   Prelude and Text hold what all share: lists, words, orders, and texts as lists of code points.
--   Env holds what comes from other crates. Tests applies the theorems to concrete data.
--
-- How they interact: an append derives its id with Cce, tests the stream with Stream and inserts a row. A
-- read selects rows in the order of their versions. A fold finds its reducer with Reducers by the
-- patterns of Glob, starts from the latest snapshot and reads the events after it. An append hands a new
-- event to the subscriptions, whose cursors start from the log.
--
-- A function keeps its name; a `Store` method that wraps one adds locks, pools and
-- notifications, which are not modelled. The clock, `is_alphanumeric`, `is_whitespace`, Unicode
-- normalisation, blake3, JSON text, msgpack, reducers, upcasters, transforms, the channels and handlers of
-- subscriptions, and SQLite's GLOB and json_extract are parameters. A 64-bit
-- integer in JSON and a float are their 64 bits. Versions and timestamps are plain numbers; where a version
-- of a caller is cast to `i64` for SQLite, the cast is written out, and so is the bound of 32,766
-- parameters of a statement over ids.
--
-- Two loops of the source need not end and run on fuel here: `walk` of Branches, for which fuel above the
-- rank of the branch is enough if a rank falls from every branch to its parent, and `upcast_from` of
-- Upcasters, for which fuel above the number of versions up to the highest source is enough if all
-- upcasters lead to a higher version.
--
-- The walks along causation run for the depth that they are given, and need no other fuel.
--
-- Emptying the heap of the executor at its stop takes as many rounds as it has tasks.
--
-- Not modelled: the other methods of src/store.rs (the bounded queries over several streams, iterators and the
-- loop that dispatches), which can be modelled on this base; src/similarity.rs, a slot for
-- a provider; notifications of the file system, migrations, threads and channels, which are I/O; the
-- bindings (fossic-py, fossic-node, crates/fossic-tauri), which convert values; and the similarity
-- index (crates/fossic-similarity-hnsw), an adapter of a third-party index.
pub mod Prelude
pub mod Text
pub mod Error
pub mod Json
pub mod Cce
pub mod EventId
pub mod Glob
pub mod Reducers
pub mod Env
pub mod Tables
pub mod Stream
pub mod Append
pub mod Read
pub mod Snapshots
pub mod Branches
pub mod Upcasters
pub mod Cursors
pub mod Deletion
pub mod Store
pub mod Subscriptions
pub mod WalWatch
pub mod SystemStream
pub mod Executor
pub mod CrossStream
pub mod Tests

-- ===== src/Lib.antt =====
-- Chorus is a write-ahead log on object storage: one writer appends records to segment objects in
-- one, three or five zones, a record is committed once a quorum of zones has it durable, and a
-- control register (the manifest), which is changed by compare-and-swap only, says which writer
-- owns the log, which segments are sealed and where the log has been truncated. This library models
-- the Rust client under rust/client/src.
--
-- Parts and files:
-- - Prelude, Prelude/*: lists over native numbers, Boolean tests, results, signed integers.
-- - Text, Text/*: strings as lists of bytes, hexadecimal and decimal texts, segment ids.
-- - Record, Record/*: record.rs, the frame codec. encode, decode_one and the four loops over a
--   buffer are the methods of RecordFrame. A loop runs on fuel, the length of its input; each round
--   takes at least a header's four bytes, so the fuel is enough (see Record.Loop below).
-- - Transport, Errors: transport.rs, error.rs and the error enums of protocol.rs and
--   manifest_store.rs, with their classifications and conversions.
-- - Manifest: the register's contents and validate of manifest.rs. Manifest/Wire is its wire format,
--   Manifest/Mutations the closures that the mutators (claim, register_pending,
--   replace_empty_frontier, fold_pending, raise_trunc, remove_segments) hand to the
--   compare-and-swap loop, Manifest/Store the in-memory register of manifest_store.rs, and
--   Manifest/Cas refresh, cas_transform and the mutators as wholes.
-- - Commit, Commit/*: CommitTracker of protocol.rs. A lock is held through each method, so an
--   interleaving of writer and lanes is a sequence of calls, Commit/Steps.
-- - Lane, Lane/*: LaneBudget, majority and select_recovery_size of protocol.rs.
-- - Recovery, Recovery/*: quorum_subsets and select_canonical_quorum of protocol.rs, by which recovery
--   chooses the record prefix that it keeps.
-- - Engine: the state of the engine task of engine.rs, its queue, and the ways in which it fails what
--   is left. Engine/Handle is enqueue_inner, Engine/Dispatch the dispatch loop and the graceful stop of
--   run_engine, Engine/Complete its completion pass, Engine/Config the configuration's validate, and
--   Engine/Rotation the Rotation enum with the arms of the loop that move it. Engine/System puts
--   handle, channel and passes together, Engine/Order, Engine/Settle, Engine/Passes, Engine/Batches,
--   Engine/Intake and Engine/Window are lemmas about them, and Engine/Rotation/Diagram the runs of rotation.
-- - Slatedb, Slatedb/*: slatedb.rs and slatedb/, the adapter of an external database. Slatedb/Codec is
--   codec.rs, Slatedb/Retention retain_from of gc.rs, Slatedb/Progress progress.rs and
--   Slatedb/Observer the published status of slatedb.rs. The database's methods on a value are an
--   argument, with what is documented of them as a hypothesis.
-- - Segment, Segment/*: the pure functions by which segment.rs reads a register and a segment.
--
-- How they interact: the mutators of Manifest/Cas read and write the register of Manifest/Store
-- through refresh and cas_transform, which apply a transform of Manifest/Mutations to decoded
-- contents, check the result by validate and send its wire format. The register is shared: a World
-- holds its current contents, the writes that this process made, and a list of events, one for each
-- request. An event says which contents other writers store before the request arrives, and whether
-- the request is delivered, delivered with its response lost, or lost. So a theorem about every World
-- is about every interference and every network failure. The commit tracker's state names the error
-- classes of Transport; Segment reads the register that Manifest/Valid describes.
--
-- The handle sends commands to the engine over a channel, which is a list; the engine answers each
-- append by one outcome, and Engine keeps those in the order in which they leave it. What the segmented
-- writer, the commit channels, the provisioner and the maintenance task answer are arguments of the
-- passes, so a theorem about every run is about all their answers. The loop of run_engine runs its
-- passes in a fixed order; a run here is any sequence of them, which includes those.
--
-- Bounds: cas_transform makes at most MAX_CAS_ROUNDS (16) rounds and refresh max_retries + 1, as the
-- source does, so these loops are structural and a run that uses them up returns the source's error.
-- Decimal texts have at most 20 digits and hexadecimal ones at most 16, which 64 bits fit in. u64 and
-- usize are natural numbers with the 64-bit bound written out where the source checks, saturates or
-- wraps. Byte offsets in i64 are natural numbers where the source keeps them nonnegative.
--
-- Not modelled: tasks, timers and metrics, which are the runtime's; the semaphores, queue slots and
-- published status of the engine, and the seal at shutdown; the gRPC and file backends, token refresh
-- and command line tools, which are input and output; values spliced into messages by format!; the
-- commit tracker's log line and lag metrics; lane sessions, the segmented writer, the maintenance task
-- and the adapter's writer and replay, which are protocols over those.
pub mod Prelude
pub mod Record
pub mod Recovery
pub mod Transport
pub mod Errors
pub mod Text
pub mod Manifest
pub mod Commit
pub mod Engine
pub mod Lane
pub mod Segment
pub mod Slatedb

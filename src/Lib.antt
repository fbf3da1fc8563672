-- ===== src/Lib.antt =====
-- VeritasSyncNext: the synchronization engine, a C++ program that keeps folders of several devices
-- alike over peer-to-peer connections. This library models the core of the engine's own logic.
--
-- The parts and where they stand:
-- * Protocol models engine/common/protocol.cpp: the writer and the reader (Writer, Reader), frames
--   (Frames), HELLO, CANCEL and ignore policies (Handshake), manifests (Manifests), chunks and file
--   requests (Transfers). EncodeX is `encode_x`, DecodeX is `decode_x`.
-- * Transport models engine/transport/connection_state.cpp (Connection), send_scheduler.cpp
--   (Scheduler) and frame_fragments.cpp (Fragments): the states of a peer connection, the four
--   queues under one byte budget, and the pieces of a frame.
-- * Signaling models engine/signaling/tracker_contract.cpp (Room): who may join and signal to whom,
--   and signaling_session.cpp (Session): what a session hands to its peer transport.
-- * Storage models the tables of engine/storage/database.cpp as lists of rows (Tables), file records
--   (Records), the version graph and the logical clocks (Lineage), transfers (Transfers), the
--   lookup of a task and the policy of engine/sync/task_policy.cpp (Tasks), the revisions of ignore
--   policies (Policies), tasks that come and go (TaskStore) with their runtime state (Runtime), their
--   connections, members and policy negotiations (Members), conflicts and events (Conflicts).
--   Storage/Ignore models engine/storage/ignore_rules.cpp (Texts, Glob, Validate,
--   Rules) and ignore_policy.cpp (Policy, Preview); Matching says what a path that matches is, as the
--   matcher reads a pattern and as docs/IGNORE_RULES.md describes it (Documented).
-- * Sync models engine/sync: manifest_diff.cpp (ManifestDiff), resume_request.cpp (Resume),
--   version_resolution.cpp (Versions), download_receiver.cpp with what safe_file_writer.cpp does to
--   the bytes of a file (Download), chunk_source.cpp and upload_session.cpp (Upload),
--   snapshot_reconciler.cpp (Reconcile). Sync/OneWay models one_way_sync.cpp: the hexadecimal hashes
--   (Hashes), the node's state and its calls (Node), its files by storage/safe_file_writer.cpp (Files,
--   with the path rules in Storage/TaskPaths), its two sides (Target with Entries, Source) and Receive
--   (Receive).
--
-- How they interact: an upload session answers a file request with chunks that it reads, encodes by
-- Protocol and queues in the scheduler; a receiver checks and writes them and marks them in the
-- database; the resume request asks for what the database does not list. The resolver asks the
-- database for the ancestry of two versions; the reconciler joins the manifest difference, the
-- clocks and the version graph. An ignore policy keeps a task's rules file in step with the
-- revisions in the database.
--
-- Conventions: bytes, strings and fixed arrays are lists of numbers; machine integers are numbers
-- with their wrap-around written out; an exception is an `err` with the text of the source; the
-- state of a class is a record that an operation takes and returns. An operation that throws returns
-- no state: for the database this is the rollback of its transaction, and for the others the state
-- after an exception is not described; but the calls of a one-way node give back the node with what
-- they changed, as Receive catches exceptions and goes on, and so does the pump of a signaling
-- session. The calls on a peer transport are taken to answer. The hash function of the BLAKE3 library
-- is a parameter, and so are the generators of ids and the clock.
-- std::map and std::unordered_map are association lists; std::ranges::sort is an insertion sort.
--
-- The file system's part is an argument: a file is its bytes, and a failed write is an error given.
-- char is signed, as in the builds of the engine.
--
-- Fuel: the pattern matcher runs on the length of its pattern, which its theorem shows to be
-- enough; the merge of two manifests runs on the sum of their lengths, which its theorem shows to be
-- enough; the fragments of a frame run on its length, and their theorem shows that no byte is left
-- out; the climb of the version graph has the source's own limit of 100000 steps; to_string has
-- 20 digits, as many as a 64-bit number has at most.
--
-- Not modelled: SQLite and its statements, locks and threads, the file system (paths, links,
-- flushing), WebRTC, the tracker's HTTP client, the Windows key stores, the engine's process, pipes
-- and managers, and the desktop application and the tracker server in other languages. Not modelled
-- yet: the message handlers of bidirectional synchronization.
pub mod Prelude
pub mod Protocol
pub mod Transport
pub mod Signaling
pub mod Storage
pub mod Sync

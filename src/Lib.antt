-- ===== src/Lib.antt =====
-- Concord: a verification of the TypeScript code: the browser client's collaboration core, and the
-- document and permission services of the web server.
--
-- The client keeps a local CRDT replica and synchronises it with a gateway over one WebSocket. The
-- wire format is in src/lib/sync/protocol.ts, the connection in src/lib/sync/transport.ts, the
-- durable outbox of local operations in src/lib/sync/pending-store.ts. The web server keeps documents,
-- grants and an audit log in a database, behind its services. Paths are from the root of the repository.
--
-- Wire models the binary data frames: encodeClientOps, decodeDataFrame and readOps over lists of
-- bytes. Wire/Bytes has the fixed-width integers of DataView. Control models the text frames:
-- decodeControlFrame, encodeControlFrame and the validators isStrict, optional, arrayOf, isEnum,
-- isString and isUint. It starts at the value that JSON.parse gives and ends at the value that
-- JSON.stringify is handed; `key in object` is modelled with the keys that objects inherit.
--
-- Transport models the class SyncTransport: a record of its fields, one function for each method and
-- handler, and a log of what it does to the outside. Transport/Run has one step for each call of the
-- session and each event of the socket, the timer and the token promise; a history is a list of them.
-- The transport hands messages to the decoders of Wire and Control. A socket that is torn down has no
-- handlers, so it brings no events. Math.random is a numerator over 2 ^ 53, and the products of
-- computeBackoffDelay are exact where floating point rounds.
--
-- Outbox models the class PendingOpStore of src/lib/sync/pending-store.ts: the two object stores are
-- lists of rows, one function for each method. Outbox/History has one step for each write transaction,
-- of any storage id, since all documents and tabs of a browser share the database. The comparison of
-- localeCompare and the ids that the engine's log covers are arguments.
--
-- Access models src/server/auth/authorization.ts, errors.ts and result.ts. Documents models the
-- document service, src/server/services/documents.ts, over src/server/repositories: Documents/Inputs
-- has the checks of what a client gives, Documents/Tables one function for each SQL statement,
-- Documents/Listing the query of the listing, with ILIKE as an argument. A
-- service that checks the access before its transaction takes the tables at both times, since other
-- requests may run in between. The columns for times hold the clock's readings, the id of a new row is
-- an argument, and integer columns are unbounded. The length of JSON.stringify is an argument.
--
-- Sharing models the permission service, src/server/services/permissions.ts, over the same tables and
-- the table of users; the directory of the sign-in service, the test of an email address and the lower
-- case of a text are arguments. Its transaction runs on the tables of its access check.
--
-- Comments models the comment service, src/server/services/comments.ts: Comments/Inputs has the schemas,
-- Comments the creation of a thread, Comments/Replies the replies and the status. A request takes the
-- tables at each of its reads and at its inserts. Comments/History has the transactions of other requests.
--
-- SaveStatus models src/lib/collaboration/save-status.ts, the mapping of the session's signals to what
-- the editor shows; the texts of a view are named, not spelled out.
--
-- Identity models src/lib/sync/identities.ts, Briefing src/lib/sync/catchup-briefing.ts, and Resync
-- src/lib/sync/snapshot-resync.ts: the decoders and the validation of a served snapshot, and in
-- Resync/Import its import through a port, whose calls may throw and leave any state behind. SHA-256 is
-- an argument.
--
-- Session models the class SyncSession of src/lib/sync/sync-session.ts as an event loop: the code between
-- two awaits is one step, the answers of the outbox, the engine and the transport are inputs, and every
-- asynchronous function that waits is a task, which any step may resume. Session/Inbound and
-- Session/Outbound have the two promise tails as queues, Session/Handlers and Session/SnapshotResync the
-- handlers and their continuations, Session/Run the steps. Of a negative cursor only the sign is lost.
--
-- Recursion is on lists and counts; the one function on fuel, the decimal printer of Base/Decimal,
-- has more fuel than the number has digits.
--
-- Not modelled: the parser and printer of JSON, floating-point rounding, the C++ engine and the Rust
-- gateway, and the user interface.
pub mod Base
pub mod Wire
pub mod Control
pub mod Transport
pub mod Outbox
pub mod Access
pub mod Documents
pub mod Sharing
pub mod SaveStatus
pub mod Identity
pub mod Briefing
pub mod Resync
pub mod Session
pub mod Comments

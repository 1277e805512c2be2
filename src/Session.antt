-- ===== src/Session.antt =====
-- src/lib/sync/sync-session.ts: the session of one document as an event loop. Between two awaits the
-- code runs as one step; what it calls on the engine, the outbox and the transport goes to the log,
-- newest first, and the answers come as inputs.
pub mod Inbound
pub mod Outbound
pub mod Handlers
pub mod SnapshotResync
pub mod Run
pub mod Core
pub mod Quiet
pub mod Moves
pub mod Steps
pub mod History
pub mod Cursor
pub mod Queue
pub mod Drain
pub mod Flush
pub mod Stall
mod Tests
pub mod Stop
use concord_dev.Identity.{big_int_value}
use concord_dev.Briefing.{CatchupOpCounts, empty_catchup_counts, CatchupBriefing}
use concord_dev.Resync.{SnapshotEnvelope}
use concord_dev.Outbox.{StateCounts}
use concord_dev.Base.Text.{Text, Text, Text, Text, Text, Text, Text, Text}
use concord_dev.Base.{
  ℕ, Bool, true, false, ◌&&◌, Option, none, some, List, [], ◌∷◌, ltb, if◌then◌else◌, ◌==◌,
}

-- What the engine port implements of its optional methods.
pub record EnginePort : Type 0 where
  pub has_sync_cursor : Bool
  pub has_persist_cursor : Bool
  pub has_local_ops_since : Bool
  pub has_resync : Bool

pub record SnapshotResyncRequired : Type 0 where
  pub boundary : Text
  pub snapshot_id : Text
  pub snapshot_checksum : Text
  pub snapshot_format_version : Text
  pub coverage_op_count : Text

pub record SnapshotPayload : Type 0 where
  pub snapshot_id : Text
  pub format_version : Text
  pub coverage_seq : Text
  pub covered_op_count : Text
  pub state_digest : Text
  pub checksum : Text
  pub payload_base64 : Text
  pub payload_size : Text

-- The calls that the session makes.
pub data Effect : Type 0 where
  -- of the transport
  connects closes reconnects : Effect
  joins : Text → Text → Effect
  requests_sync : Text → Effect
  fetches_snapshot : Text → Effect
  sends_ops : ℕ → List (List ℕ) → Effect
  -- of the outbox
  adds_pending : Text → List ℕ → Effect
  marks_sent marks_durably_acked clears_acked : List Text → Effect
  closes_store : Effect
  -- of the engine
  applies_remote : List (List ℕ) → Option Text → Effect
  persists_cursor asks_ops_since : Text → Effect
  resyncs : SnapshotEnvelope → Effect
  -- of the options' callbacks, and of the timer
  sets_cursor : Text → Effect
  reports : StateCounts → Bool → Effect
  briefs : CatchupBriefing → Effect
  reports_local_error : Effect
  sets_timer clears_timer : Effect

-- A `queueRemote` call that has not run to its end.
pub record RemoteCall : Type 0 where
  pub ops : List (List ℕ)
  pub cursor : Option Text

-- A link of `enqueueTail`: the repair, or the operations of an edit.
pub data Job : Type 0 where
  recovers : Job
  enqueues : List (List ℕ) → Job

-- Where the running link awaits. `later` holds the operations that follow a repair.
pub data Running : Type 0 where
  reading_counter : Option (List (List ℕ)) → Running
  reading_ops : Option (List (List ℕ)) → Running
  -- the operations behind the one that is being added
  adding : List (List ℕ) → Option (List (List ℕ)) → Running
  -- false where an exception is on its way
  reporting : Bool → Bool → Option (List (List ℕ)) → Running

-- Who called `flushOutbox`.
pub data Caller : Type 0 where
  by_timer by_ack by_ready : Caller

-- The other asynchronous functions, each by the await that it stands at.
pub data Task : Type 0 where
  flush_reads flush_marks flush_reports : Caller → Task
  ack_marks ack_reports ack_counts : Task
  ready_inbound ready_enqueue join_enqueue : ℕ → Task
  ready_acked ready_clears ready_counts ready_reports : Task
  join_replica : Task
  join_summary : Text → Task
  -- the cursor before the resync
  resync_runs : Text → Task
  resync_persists : Text → Text → Task
  resync_restores : Text → Task
  start_cursor : Task
  start_enqueue : ℕ → Task
  start_reports : Task
  stop_enqueue : ℕ → Task

pub record Session : Type 0 where
  pub disposed : Bool
  pub subscribed : Bool
  pub next_batch_id : ℕ
  pub flush_timer : Bool
  pub last_cursor : Text
  pub catchup_failed : Bool
  pub catchup_complete : Bool
  pub server_confirmed : Bool
  pub catchup_start_cursor : Text
  pub catchup_counts : CatchupOpCounts
  pub snapshot_resync_applied : Bool
  pub initial_catchup_pending : Bool
  pub suppress_catchup_briefing : Bool
  pub resync_signal : Option SnapshotResyncRequired
  -- inboundTail: what has not run to its end, how many calls were made and how many ended
  pub inbound : List RemoteCall
  pub inbound_queued : ℕ
  pub inbound_done : ℕ
  -- enqueueTail
  pub running : Option Running
  pub runs_edit : Bool
  pub jobs : List Job
  pub jobs_queued : ℕ
  pub jobs_done : ℕ
  pub failed_jobs : List ℕ
  pub tasks : List Task
  pub log : List Effect

-- The constructor, with what `getCursor` answers.
abbrev pub init : Text → Session
init cursor = record {
  disposed = false;
  subscribed = false;
  next_batch_id = 1;
  flush_timer = false;
  last_cursor = cursor;
  catchup_failed = false;
  catchup_complete = false;
  server_confirmed = false;
  catchup_start_cursor = cursor;
  catchup_counts = empty_catchup_counts;
  snapshot_resync_applied = false;
  initial_catchup_pending = true;
  suppress_catchup_briefing = false;
  resync_signal = none;
  inbound = [];
  inbound_queued = 0;
  inbound_done = 0;
  running = none;
  runs_edit = false;
  jobs = [];
  jobs_queued = 0;
  jobs_done = 0;
  failed_jobs = [];
  tasks = [];
  log = [];
}

abbrev pub tell : Effect → Session → Session
tell e s = record s { log = e ∷ s.log }

abbrev pub await : Task → Session → Session
await t s = record s { tasks = t ∷ s.tasks }

-- `reportLocalError` and `transport.reconnect()`
abbrev pub fail_and_reconnect : Session → Session
fail_and_reconnect s = record s { log = reconnects ∷ reports_local_error ∷ s.log }

abbrev pub request_catchup : Session → Session
request_catchup s = tell (requests_sync s.last_cursor) s

-- none where `BigInt` throws
unfoldable pub advance_cursor : Text → Session → Option Session
advance_cursor cursor s = elim (big_int_value cursor) [
  | none ↦ none
  | some n ↦ elim (big_int_value s.last_cursor) [
    | none ↦ none
    | some m ↦
        some (
          if ltb n m
          then s
          else record s { last_cursor = cursor; log = sets_cursor cursor ∷ s.log })
  ]
]

-- `reportOutboxState` from the answer of `stateCounts` on; none where that throws.
unfoldable pub report_outbox_state : Bool → Option StateCounts → Session → Session
report_outbox_state confirmed none s = tell reports_local_error s
report_outbox_state confirmed (some counts) s =
    let done =
      confirmed && (counts.pending == 0) && (counts.sent == 0) && (counts.durably_acked == 0) in
    record s { server_confirmed = done; log = reports counts done ∷ s.log }

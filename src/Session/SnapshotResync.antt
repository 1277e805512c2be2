-- ===== src/Session/SnapshotResync.antt =====
-- src/lib/sync/sync-session.ts: the snapshot resync of a session. The steps of performSnapshotResync
-- are those of Resync/Import; here it runs up to its call of `setCursor` while other events come in.
use concord_dev.Base.Decimal.{to_nat}
use concord_dev.Resync.{SnapshotEnvelope}
use concord_dev.Base.Text.{Text, Text, text_eq}
use concord_dev.Session.{
  EnginePort, SnapshotPayload, SnapshotPayload, SnapshotPayload, Session, EnginePort, EnginePort,
  EnginePort, SnapshotResyncRequired, await, request_catchup, fail_and_reconnect, advance_cursor,
  fetches_snapshot, resync_runs, resync_restores, resync_persists, tell, resyncs, persists_cursor,
}
use concord_dev.Base.{Bool, true, false, ◌&&◌, none, some, ◌∷◌, if◌then◌else◌}

unfoldable pub begin_snapshot_resync : EnginePort → SnapshotResyncRequired → Session → Session
begin_snapshot_resync port signal s =
    if port.has_resync
    then record s {
      resync_signal = some signal;
      log = fetches_snapshot (SnapshotResyncRequired.snapshot_id signal) ∷ s.log;
    }
    else s

unfoldable pub matches_signal : SnapshotPayload → SnapshotResyncRequired → Bool
matches_signal payload signal =
    text_eq payload.snapshot_id signal.snapshot_id
    && text_eq payload.checksum signal.snapshot_checksum
    && text_eq payload.coverage_seq signal.boundary
    && text_eq payload.covered_op_count signal.coverage_op_count
    && text_eq payload.format_version signal.snapshot_format_version

-- `Number(payload.formatVersion)`, of the decimal text that the frame's validator lets in.
unfoldable pub envelope_of : SnapshotPayload → SnapshotEnvelope
envelope_of payload = record {
  snapshot_id = payload.snapshot_id;
  format_version = to_nat payload.format_version;
  coverage_seq = payload.coverage_seq;
  covered_op_count = payload.covered_op_count;
  checksum = payload.checksum;
  payload_base64 = payload.payload_base64;
  state_digest = payload.state_digest;
  payload_size = payload.payload_size;
}

unfoldable pub handle_snapshot_payload : SnapshotPayload → Session → Session
handle_snapshot_payload payload s =
    let cleared = record s { resync_signal = none } in
    elim s.resync_signal [
      | none ↦ cleared
      | some signal ↦
          if s.disposed
          then cleared
          else if matches_signal payload signal
          then await (resync_runs s.last_cursor) (tell (resyncs (envelope_of payload)) cleared)
          else request_catchup cleared
    ]

unfoldable pub resync_finished : Session → Session
resync_finished s = request_catchup (record s { snapshot_resync_applied = true })

-- The handler inside performSnapshotResync, and the error that goes on.
unfoldable pub resync_broke : EnginePort → Text → Session → Session
resync_broke port previous s =
    if text_eq s.last_cursor previous
    then fail_and_reconnect s
    else if port.has_persist_cursor
    then await (resync_restores previous) (tell (persists_cursor previous) s)
    else fail_and_reconnect (elim (advance_cursor previous s) [ none ↦ s | some t ↦ t ])

unfoldable pub resync_restored : Text → Bool → Session → Session
resync_restored previous true s =
    fail_and_reconnect (elim (advance_cursor previous s) [ none ↦ s | some t ↦ t ])
resync_restored previous false s = fail_and_reconnect s

-- From the answer of `engine.persistCursor` on.
unfoldable pub cursor_persisted : EnginePort → Text → Text → Bool → Session → Session
cursor_persisted port boundary previous false s = resync_broke port previous s
cursor_persisted port boundary previous true s = elim (advance_cursor boundary s) [
  | none ↦ resync_broke port previous s
  | some t ↦ resync_finished t
]

-- What becomes of a resync before the cursor is set.
pub data Progress : Type 0 where
  -- the base is replaced, and `setCursor` is called with the boundary
  reaches : Text → Progress
  -- the validation rejects the snapshot
  invalid : Progress
  -- the pending operations cannot be read
  aborts : Progress
  -- the import or the reapplication rejects
  interrupted : Progress

unfoldable pub resync_progressed : EnginePort → Text → Progress → Session → Session
resync_progressed port previous (reaches boundary) s =
    if port.has_persist_cursor
    then await (resync_persists boundary previous) (tell (persists_cursor boundary) s)
    else cursor_persisted port boundary previous true s
resync_progressed port previous invalid s = s
resync_progressed port previous aborts s = fail_and_reconnect s
resync_progressed port previous interrupted s = resync_broke port previous s

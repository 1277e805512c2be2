-- ===== src/Session/Run.antt =====
-- src/lib/sync/sync-session.ts: one step for each call, event and answer, and whole histories.
use concord_dev.Transport.{same_status, syncing}
use concord_dev.Session.Inbound.{on_peer_ops, on_sync_batch, remote_applied}
use concord_dev.Session.Handlers.{
  start, stop, counter_read, sync_now, batch_marked, ops_read, on_authenticated, op_added,
  ack_marked, on_sync_done, enqueue_reported, ack_counted, ready_caught_up, ready_acked_read,
  handle_durable_ack, ready_cleared, ready_enqueued, ready_counted, join_repaired, join_replied,
  join_summed, start_cursor_read, start_enqueued,
}
use concord_dev.Session.Outbound.{
  Reading, send_batch, queue_job, flushed, flush_outbox, flush_timer_fires,
}
use concord_dev.Session.SnapshotResync.{
  interrupted, Progress, begin_snapshot_resync, handle_snapshot_payload, resync_progressed,
  cursor_persisted, resync_restored,
}
use concord_dev.Base.Text.{Text, Text}
use concord_dev.Session.{
  SnapshotResyncRequired, Task, EnginePort, EnginePort, SnapshotPayload, Session, Running,
  ready_inbound, flush_reads, ready_enqueue, reading_counter, join_enqueue, flush_marks,
  start_enqueue, reading_ops, enqueues, stop_enqueue, flush_reports, adding, report_outbox_state,
  request_catchup, reporting, by_ack, tell, by_ready, reconnects, join_summary, resync_runs,
  resync_persists, resync_restores, connects, closes_store, ack_marks, ack_reports, ack_counts,
  ready_acked, ready_clears, ready_counts, ready_reports, join_replica, start_cursor, start_reports,
}
use concord_dev.Outbox.{PendingOpRecord, PendingOpRecord, StateCounts}
use concord_dev.Base.{
  ℕ, suc, Bool, true, false, ◌&&◌, Option, none, some, List, [], ◌∷◌, ◌++◌, leb, if◌then◌else◌,
  take, drop, get_elem?,
}

-- An answer of the outbox or the engine; `failed` where the promise rejects.
pub data Answer : Type 0 where
  done failed : Answer
  rows : List PendingOpRecord → Answer
  counts : StateCounts → Answer
  texts : List Text → Answer
  text : Text → Answer
  ops : List (List ℕ) → Answer
  progress : Progress → Answer

pub data Input : Type 0 where
  -- calls of the page
  starts stops : Input
  syncs_now : Bool → Input
  -- the engine's notification
  edits : List (List ℕ) → Input
  -- events of the transport
  authenticated join_accepted sync_done : Input
  peer_ops : List (List ℕ) → Input
  sync_batch : List (List ℕ) → ℕ → Bool → Input
  resync_required : SnapshotResyncRequired → Input
  snapshot_payload : SnapshotPayload → Input
  durable_ack : List Text → Input
  -- true for `database_unavailable`
  errs : Bool → Input
  timer_fires : Input
  -- the engine's answer to the call at the head of `inboundTail`
  remote_answers : Bool → Input
  -- the answer to the running link of `enqueueTail`, and to the task at a place
  job_answers : Answer → Input
  task_answers : ℕ → Answer → Input

abbrev pub succeeds : Answer → Bool
succeeds failed = false
succeeds _ = true

abbrev pub rows_of : Answer → Option (List PendingOpRecord)
rows_of (rows r) = some r
rows_of _ = none

abbrev pub counts_of : Answer → Option StateCounts
counts_of (counts c) = some c
counts_of _ = none

abbrev pub texts_of : Answer → Option (List Text)
texts_of (texts t) = some t
texts_of _ = none

abbrev pub text_of : Answer → Option Text
text_of (text t) = some t
text_of _ = none

abbrev pub ops_of : Answer → Option (List (List ℕ))
ops_of (ops o) = some o
ops_of _ = none

abbrev pub progress_of : Answer → Progress
progress_of (progress p) = p
progress_of _ = interrupted

-- A task that waits for a tail resumes when the tail has come so far.
abbrev pub may_resume : Task → Session → Bool
may_resume (ready_inbound n) s = leb n s.inbound_done
may_resume (ready_enqueue n) s = leb n s.jobs_done
may_resume (join_enqueue n) s = leb n s.jobs_done
may_resume (start_enqueue n) s = leb n s.jobs_done
may_resume (stop_enqueue n) s = leb n s.jobs_done
may_resume _ s = true

module _ (port : EnginePort) (r : Reading) where
  unfoldable pub resume : Task → Answer → Session → Session
  resume (flush_reads caller) a s = send_batch r caller (rows_of a) s
  resume (flush_marks caller) a s = batch_marked caller (succeeds a) s
  resume (flush_reports caller) a s = flushed caller (report_outbox_state false (counts_of a) s)
  resume ack_marks a s = ack_marked (succeeds a) s
  resume ack_reports a s = flush_outbox r by_ack (report_outbox_state false (counts_of a) s)
  resume ack_counts a s = ack_counted r (counts_of a) s
  resume (ready_inbound n) a s = ready_caught_up s
  resume ready_acked a s = ready_acked_read (texts_of a) s
  resume ready_clears a s = ready_cleared (succeeds a) s
  resume (ready_enqueue n) a s = ready_enqueued n s
  resume ready_counts a s = ready_counted (counts_of a) s
  resume ready_reports a s = flush_outbox r by_ready (report_outbox_state true (counts_of a) s)
  resume (join_enqueue n) a s = join_repaired n s
  resume join_replica a s = join_replied (text_of a) s
  resume (join_summary replica) a s = join_summed replica (text_of a) s
  resume (resync_runs previous) a s = resync_progressed port previous (progress_of a) s
  resume (resync_persists boundary previous) a s =
      cursor_persisted port boundary previous (succeeds a) s
  resume (resync_restores previous) a s = resync_restored previous (succeeds a) s
  resume start_cursor a s = start_cursor_read port (text_of a) s
  resume (start_enqueue n) a s = start_enqueued n s
  resume start_reports a s = tell connects (report_outbox_state false (counts_of a) s)
  resume (stop_enqueue n) a s = tell closes_store s

  unfoldable pub resume_job : Running → Answer → Session → Session
  resume_job (reading_counter later) a s = counter_read port later (text_of a) s
  resume_job (reading_ops later) a s = ops_read port later (ops_of a) s
  resume_job (adding rest later) a s = op_added rest later (succeeds a) s
  resume_job (reporting succeeded in_enqueue later) a s =
      enqueue_reported port r succeeded in_enqueue later (counts_of a) s

  abbrev pub resume_running : Option Running → Answer → Session → Session
  resume_running none a s = s
  resume_running (some j) a s = resume_job j a s

  abbrev pub resume_task : Option Task → ℕ → Answer → Session → Session
  resume_task none i a s = s
  resume_task (some t) i a s =
      if may_resume t s
      then resume t a (record s { tasks = take i s.tasks ++ drop (suc i) s.tasks })
      else s

  unfoldable pub step : Session → Input → Session
  step s starts = start port s
  step s stops = stop s
  step s (syncs_now show) = sync_now r show s
  step s (edits o) = if s.subscribed then queue_job port (enqueues o) s else s
  step s authenticated = on_authenticated port s
  step s join_accepted = request_catchup s
  step s sync_done = on_sync_done s
  step s (peer_ops o) = on_peer_ops o s
  step s (sync_batch o next has_more) = on_sync_batch o next s
  step s (resync_required signal) = begin_snapshot_resync port signal s
  step s (snapshot_payload payload) = handle_snapshot_payload payload s
  step s (durable_ack ids) = handle_durable_ack ids s
  step s (errs unavailable) =
      if unavailable && same_status r.status syncing then tell reconnects s else s
  step s timer_fires = if s.flush_timer then flush_timer_fires r s else s
  step s (remote_answers accepted) = remote_applied accepted s
  step s (job_answers a) = resume_running s.running a s
  step s (task_answers i a) = resume_task (get_elem? s.tasks i) i a s

-- A history, with what the transport answers at each step.
unfoldable pub run : EnginePort → Session → List (Reading × Input) → Session
run port s [] = s
run port s ((r, i) ∷ is) = run port (step port r s i) is

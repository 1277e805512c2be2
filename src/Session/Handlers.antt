-- ===== src/Session/Handlers.antt =====
-- src/lib/sync/sync-session.ts: the handlers of the transport's events and the methods, each with the
-- continuations behind its awaits.
use concord_dev.Briefing.{CatchupBriefing, create_catchup_briefing, empty_catchup_counts}
use concord_dev.Outbox.{StateCounts, StateCounts, StateCounts}
use concord_dev.Session.{
  Session, Caller, EnginePort, Session, Session, Session, Session, Session, EnginePort, EnginePort,
  EnginePort, Session, Session, EnginePort, EnginePort, EnginePort, Session, EnginePort, await,
  fail_and_reconnect, tell, report_outbox_state, request_catchup, ack_marks, ack_reports,
  flush_reports, recovers, join_replica, join_summary, joins, ready_inbound, ready_acked,
  ready_clears, ready_enqueue, ready_counts, reports_local_error, briefs, start_cursor,
  start_reports, stop_enqueue, reading_ops, reporting, marks_durably_acked, join_enqueue,
  clears_acked, ready_reports, start_enqueue, closes, asks_ops_since, clears_timer,
}
use concord_dev.Base.Text.{Text, Text, Text, Text, text_eq}
use concord_dev.Session.Outbound.{
  Reading, Reading, is_ready, flush_throws, queue_job, job_failed, end_job, add_loop,
  returns_at_once, schedule_flush, enqueue_local,
}
use concord_dev.Base.{
  ℕ, ◌+◌, Bool, true, false, not, ◌&&◌, ◌||◌, Option, none, some, List, [], ◌∷◌, if◌then◌else◌,
  ◌==◌,
}

unfoldable pub sync_now : Reading → Bool → Session → Session
sync_now r show_briefing s =
    if s.disposed || not (is_ready r)
    then s
    else request_catchup (record s {
      suppress_catchup_briefing = not show_briefing;
      catchup_failed = false;
      catchup_complete = false;
      catchup_start_cursor = s.last_cursor;
      catchup_counts = empty_catchup_counts;
    })

-- handleDurableAck
unfoldable pub handle_durable_ack : List Text → Session → Session
handle_durable_ack ids s = await ack_marks (tell (marks_durably_acked ids) s)

unfoldable pub ack_marked : Bool → Session → Session
ack_marked false s = fail_and_reconnect s
ack_marked true s = await ack_reports (record s { server_confirmed = false })

unfoldable pub ack_counted : Reading → Option StateCounts → Session → Session
ack_counted r none s = fail_and_reconnect s
ack_counted r (some counts) s =
    if (counts.pending == 0) && (counts.sent == 0) then sync_now r false s else s

unfoldable pub batch_marked : Caller → Bool → Session → Session
batch_marked caller false s = flush_throws caller s
batch_marked caller true s = await (flush_reports caller) s

-- onAuthenticated
unfoldable pub on_authenticated : EnginePort → Session → Session
on_authenticated port s =
    let t = queue_job port recovers (record s {
      suppress_catchup_briefing = false;
      catchup_failed = false;
      catchup_complete = false;
      server_confirmed = false;
    }) in
    await (join_enqueue t.jobs_queued) t

unfoldable pub join_repaired : ℕ → Session → Session
join_repaired n s = if job_failed n s then fail_and_reconnect s else await join_replica s

-- `joinWithSummary`, which swallows a rejection.
unfoldable pub join_replied : Option Text → Session → Session
join_replied none s = s
join_replied (some replica_id) s = await (join_summary replica_id) s

unfoldable pub join_summed : Text → Option Text → Session → Session
join_summed replica_id none s = s
join_summed replica_id (some sequence) s = tell (joins replica_id sequence) s

-- onReady
unfoldable pub on_sync_done : Session → Session
on_sync_done s = await (ready_inbound s.inbound_queued) s

unfoldable pub ready_caught_up : Session → Session
ready_caught_up s =
    if s.catchup_failed || s.disposed
    then s
    else await ready_acked (record s { catchup_complete = true })

unfoldable pub ready_acked_read : Option (List Text) → Session → Session
ready_acked_read none s = fail_and_reconnect s
ready_acked_read (some acked) s = await ready_clears (tell (clears_acked acked) s)

unfoldable pub ready_cleared : Bool → Session → Session
ready_cleared false s = fail_and_reconnect s
ready_cleared true s = await (ready_enqueue s.jobs_queued) s

unfoldable pub ready_enqueued : ℕ → Session → Session
ready_enqueued n s = if job_failed n s then fail_and_reconnect s else await ready_counts s

abbrev pub unacked_count : Option StateCounts → Option ℕ
unacked_count none = none
unacked_count (some counts) = some (counts.pending + counts.sent)

abbrev pub count_failed : Option StateCounts → Session → Session
count_failed none s = tell reports_local_error s
count_failed (some counts) s = s

abbrev pub brief : Option CatchupBriefing → Bool → Session → Session
brief none silent s = s
brief (some briefing) silent s = if silent then s else tell (briefs briefing) s

unfoldable pub ready_counted : Option StateCounts → Session → Session
ready_counted counts s =
    let briefing =
      create_catchup_briefing s.catchup_start_cursor s.last_cursor s.catchup_counts
        (unacked_count counts) (not s.snapshot_resync_applied) in
    let is_initial_fresh_load =
      s.initial_catchup_pending && text_eq s.catchup_start_cursor (b'0' ∷ []) in
    let t =
      brief briefing (is_initial_fresh_load || s.suppress_catchup_briefing)
        (count_failed counts s) in
    await ready_reports (record t {
      initial_catchup_pending = false;
      catchup_start_cursor = t.last_cursor;
      catchup_counts = empty_catchup_counts;
      snapshot_resync_applied = false;
    })

-- start
unfoldable pub begin_recovery : EnginePort → Session → Session
begin_recovery port s =
    let t = queue_job port recovers s in
    await (start_enqueue t.jobs_queued) (record t { subscribed = true })

unfoldable pub start : EnginePort → Session → Session
start port s =
    let t = record s { server_confirmed = false } in
    if port.has_sync_cursor then await start_cursor t else begin_recovery port t

unfoldable pub start_cursor_read : EnginePort → Option Text → Session → Session
start_cursor_read port none s = s
start_cursor_read port (some cursor) s =
    begin_recovery port (record s { last_cursor = cursor; catchup_start_cursor = cursor })

unfoldable pub start_enqueued : ℕ → Session → Session
start_enqueued n s = await start_reports (if job_failed n s then tell reports_local_error s else s)

-- stop
unfoldable pub stop : Session → Session
stop s = await (stop_enqueue s.jobs_queued) (record s {
  disposed = true;
  subscribed = false;
  flush_timer = false;
  log = closes ∷ (if s.flush_timer then clears_timer ∷ s.log else s.log);
})

-- The running link of `enqueueTail`, from the answer that it waits for on.
unfoldable pub continue_job : EnginePort → Option (List (List ℕ)) → Session → Session
continue_job port none s = end_job port false s
continue_job port (some ops) s =
    if returns_at_once ops s then end_job port false s else enqueue_local ops none s

unfoldable pub counter_read : EnginePort → Option (List (List ℕ)) → Option Text → Session → Session
counter_read port later none s = end_job port true s
counter_read port later (some since) s = record s {
  running = some (reading_ops later);
  log = asks_ops_since since ∷ s.log;
}

unfoldable pub ops_read :
    EnginePort → Option (List (List ℕ)) → Option (List (List ℕ)) → Session → Session
ops_read port later none s = end_job port true s
ops_read port later (some []) s = record s { running = some (reporting true false later) }
ops_read port later (some (op ∷ ops)) s =
    if s.disposed then continue_job port later s else enqueue_local (op ∷ ops) later s

unfoldable pub op_added : List (List ℕ) → Option (List (List ℕ)) → Bool → Session → Session
op_added ops later true s = add_loop ops later s
op_added ops later false s = record s { running = some (reporting false true later) }

unfoldable pub enqueue_reported :
    EnginePort
    → Reading
    → Bool
    → Bool
    → Option (List (List ℕ))
    → Option StateCounts
    → Session
    → Session
enqueue_reported port r succeeded in_enqueue later counts s =
    let t = report_outbox_state false counts s in
    if not succeeded
    then end_job port true t
    else continue_job port later (if in_enqueue && is_ready r then schedule_flush t else t)

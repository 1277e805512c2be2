-- ===== src/Session/Quiet.antt =====
-- The handlers of the session that leave its core alone.
use concord_dev.Outbox.{StateCounts, StateCounts}
use concord_dev.Briefing.{CatchupBriefing, create_catchup_briefing}
use concord_dev.Base.Text.{Text, Text, Text, Text, text_eq}
use concord_dev.Session.SnapshotResync.{begin_snapshot_resync, handle_snapshot_payload}
use concord_dev.Session.Outbound.{schedule_flush, Reading, flushed}
use concord_dev.Session.Core.{
  core, core, core, core-queue_job, core-end_job, core-add, core-enqueue, core-report,
}
use concord_dev.Session.Handlers.{
  sync_now, handle_durable_ack, ack_marked, ack_counted, batch_marked, on_authenticated,
  join_repaired, join_replied, join_summed, on_sync_done, ready_caught_up, ready_acked_read,
  ready_cleared, ready_enqueued, ready_counted, start_enqueued, continue_job, counter_read,
  ops_read, op_added, enqueue_reported, brief, count_failed, unacked_count,
}
use concord_dev.Session.{
  by_ready, by_timer, by_ack, Session, Caller, EnginePort, SnapshotPayload, report_outbox_state,
  SnapshotResyncRequired, recovers,
}
use concord_dev.Base.{
  ℕ, ◌≡◌, refl, ◌∙◌, Bool, true, false, not, ◌&&◌, ◌||◌, Option, none, some, List, [], ◌∷◌, arith,
}

pub core-sync_now : (r : Reading) (show : Bool) (s : Session) → core (sync_now r show s) ≡ core s
unfolding sync_now core
core-sync_now r show s = ground arith

pub core-durable_ack : (ids : List Text) (s : Session) → core (handle_durable_ack ids s) ≡ core s
unfolding handle_durable_ack core
core-durable_ack ids s = refl

pub core-ack_marked : (ok : Bool) (s : Session) → core (ack_marked ok s) ≡ core s
unfolding ack_marked core
core-ack_marked false s = refl
core-ack_marked true s = refl

pub core-ack_counted :
    (r : Reading) (counts : Option StateCounts) (s : Session)
    → core (ack_counted r counts s) ≡ core s
unfolding ack_counted
core-ack_counted r none s = unfold core in refl
core-ack_counted r (some counts) s = ground (arith, core-sync_now r false s)

pub core-batch_marked :
    (caller : Caller) (ok : Bool) (s : Session) → core (batch_marked caller ok s) ≡ core s
unfolding batch_marked core
core-batch_marked by_timer ok s = ground arith
core-batch_marked by_ack ok s = ground arith
core-batch_marked by_ready ok s = ground arith

pub core-flushed : (caller : Caller) (s : Session) → core (flushed caller s) ≡ core s
unfolding core
core-flushed by_timer s = refl
core-flushed by_ack s = refl
core-flushed by_ready s = refl

pub core-authenticated : (port : EnginePort) (s : Session) → core (on_authenticated port s) ≡ core s
unfolding on_authenticated
core-authenticated port s =
    let t : Session = record s {
      suppress_catchup_briefing = false;
      catchup_failed = false;
      catchup_complete = false;
      server_confirmed = false;
    } in
    unfold core in ground (arith, core-queue_job port recovers t)

pub core-join_repaired : (n : ℕ) (s : Session) → core (join_repaired n s) ≡ core s
unfolding join_repaired core
core-join_repaired n s = ground arith

pub core-join_replied : (t : Option Text) (s : Session) → core (join_replied t s) ≡ core s
unfolding join_replied core
core-join_replied none s = refl
core-join_replied (some t) s = refl

pub core-join_summed :
    (id : Text) (t : Option Text) (s : Session) → core (join_summed id t s) ≡ core s
unfolding join_summed core
core-join_summed id none s = refl
core-join_summed id (some t) s = refl

pub core-sync_done : (s : Session) → core (on_sync_done s) ≡ core s
unfolding on_sync_done core
core-sync_done s = refl

pub core-caught_up : (s : Session) → core (ready_caught_up s) ≡ core s
unfolding ready_caught_up core
core-caught_up s = ground arith

pub core-acked_read :
    (ids : Option (List Text)) (s : Session) → core (ready_acked_read ids s) ≡ core s
unfolding ready_acked_read core
core-acked_read none s = refl
core-acked_read (some ids) s = refl

pub core-cleared : (ok : Bool) (s : Session) → core (ready_cleared ok s) ≡ core s
unfolding ready_cleared core
core-cleared false s = refl
core-cleared true s = refl

pub core-enqueued : (n : ℕ) (s : Session) → core (ready_enqueued n s) ≡ core s
unfolding ready_enqueued core
core-enqueued n s = ground arith

core-brief :
    (b : Option CatchupBriefing) (silent : Bool) (s : Session) → core (brief b silent s) ≡ core s
unfolding core
core-brief none silent s = refl
core-brief (some b) true s = refl
core-brief (some b) false s = refl

core-count_failed : (c : Option StateCounts) (s : Session) → core (count_failed c s) ≡ core s
unfolding core
core-count_failed none s = refl
core-count_failed (some c) s = refl

pub core-counted : (c : Option StateCounts) (s : Session) → core (ready_counted c s) ≡ core s
unfolding ready_counted
core-counted c s =
    let silent =
      s.initial_catchup_pending && text_eq s.catchup_start_cursor (b'0' ∷ [])
      || s.suppress_catchup_briefing in
    let b =
      create_catchup_briefing s.catchup_start_cursor s.last_cursor s.catchup_counts
        (unacked_count c) (not s.snapshot_resync_applied) in
    let e : core (ready_counted c s) ≡ core (brief b silent (count_failed c s)) =
      unfold core in refl in
    e ∙ core-brief b silent (count_failed c s) ∙ core-count_failed c s

pub core-start_enqueued : (n : ℕ) (s : Session) → core (start_enqueued n s) ≡ core s
unfolding start_enqueued core
core-start_enqueued n s = ground arith

pub core-continue :
    (port : EnginePort) (later : Option (List (List ℕ))) (s : Session)
    → core (continue_job port later s) ≡ core s
unfolding continue_job
core-continue port none s = core-end_job port false s
core-continue port (some ops) s = ground (arith, core-end_job port false s, core-enqueue ops none s)

pub core-counter_read :
    (port : EnginePort) (later : Option (List (List ℕ))) (t : Option Text) (s : Session)
    → core (counter_read port later t s) ≡ core s
unfolding counter_read
core-counter_read port later none s = core-end_job port true s
core-counter_read port later (some t) s = unfold core in refl

pub core-ops_read :
    (port : EnginePort) (later : Option (List (List ℕ))) (ops : Option (List (List ℕ)))
    (s : Session)
    → core (ops_read port later ops s) ≡ core s
unfolding ops_read
core-ops_read port later none s = core-end_job port true s
core-ops_read port later (some []) s = unfold core in refl
core-ops_read port later (some (op ∷ ops)) s =
    ground (arith, core-continue port later s, core-enqueue (op ∷ ops) later s)

pub core-op_added :
    (ops : List (List ℕ)) (later : Option (List (List ℕ))) (ok : Bool) (s : Session)
    → core (op_added ops later ok s) ≡ core s
unfolding op_added
core-op_added ops later true s = core-add ops later s
core-op_added ops later false s = unfold core in refl

core-schedule : (s : Session) → core (schedule_flush s) ≡ core s
unfolding schedule_flush core
core-schedule s = ground arith

pub core-enqueue_reported :
    (port : EnginePort) (r : Reading) (succeeded in_enqueue : Bool) (later : Option (List (List ℕ)))
    (counts : Option StateCounts) (s : Session)
    → core (enqueue_reported port r succeeded in_enqueue later counts s) ≡ core s
unfolding enqueue_reported
core-enqueue_reported port r succeeded in_enqueue later counts s =
    let t = report_outbox_state false counts s in
    ground (
      arith,
      core-report false counts s,
      core-end_job port true t,
      core-schedule t,
      core-continue port later t,
      core-continue port later (schedule_flush t),
    )

pub core-begin_resync :
    (port : EnginePort) (signal : SnapshotResyncRequired) (s : Session)
    → core (begin_snapshot_resync port signal s) ≡ core s
unfolding begin_snapshot_resync core
core-begin_resync port signal s = ground arith

pub core-payload : (p : SnapshotPayload) (s : Session) → core (handle_snapshot_payload p s) ≡ core s
unfolding handle_snapshot_payload core
core-payload p s = ground arith

-- ===== src/Session/Steps.antt =====
-- Every step of the session moves its core as the relation says.
use concord_dev.Session.Quiet.{
  core-counter_read, core-ops_read, core-batch_marked, core-op_added, core-flushed,
  core-enqueue_reported, core-ack_marked, core-ack_counted, core-caught_up, core-acked_read,
  core-cleared, core-enqueued, core-counted, core-join_repaired, core-join_replied,
  core-join_summed, core-start_enqueued,
}
use concord_dev.Session.Run.{
  resume, resume_job, Answer, resume_running, text_of, rows_of, ops_of, succeeds, counts_of,
  texts_of, progress_of,
}
use concord_dev.Session.Outbound.{queue_job, Reading}
use concord_dev.Session.Moves.{
  Moves, Moves, Moves, Moves, Moves, Moves, Moves, Moves, stays, Moves-trans, one-Move,
  advance-Moves, restarts, same, settles, Move, further,
}
use concord_dev.Base.Text.{Text, text_eq}
use concord_dev.Session.Handlers.{start_cursor_read, begin_recovery}
use concord_dev.Session.SnapshotResync.{
  interrupted, resync_broke, resync_restored, resync_finished, cursor_persisted, resync_progressed,
  Progress, reaches, aborts, invalid,
}
use concord_dev.Session.Core.{
  core, core-queue_job, has_start, is_start, core-send, core-report, core-flush,
}
use concord_dev.Session.{
  start_reports, EnginePort, Session, fail_and_reconnect, advance_cursor, recovers, Task, Running,
  reading_counter, start_cursor, flush_reads, reading_ops, flush_marks, adding, flush_reports,
  reporting, report_outbox_state, by_ack, ready_inbound, ready_enqueue, by_ready, join_enqueue,
  join_summary, resync_runs, resync_persists, resync_restores, start_enqueue, tell, connects,
  stop_enqueue, ack_marks, ack_reports, ack_counts, ready_acked, ready_clears, ready_counts,
  ready_reports, join_replica,
}
use concord_dev.Base.{
  ◌≡◌, inl, inr, refl, ◌∙◌, Bool, true, false, Option, none, some, Bool-cases, Option-cases, List,
  ℕ, arith, get_elem?, take, ◌++◌, drop, ◌∷◌, suc, [], zero, if◌then◌else◌,
}

module _ {b : Bool} (port : EnginePort) where
  pub either :
      (c : Bool) (s x y : Session)
      → Moves b (core s) (core x)
      → Moves b (core s) (core y)
      → Moves b (core s) (core (if c then x else y))
  either true s x y p q = p
  either false s x y p q = q

  failing : (s : Session) → Moves b (core s) (core (fail_and_reconnect s))
  unfolding core
  failing s = stays

  restoring :
      (previous : Text) (s : Session)
      → Moves b
          (core s)
          (core (fail_and_reconnect (elim (advance_cursor previous s) [ none ↦ s | some t ↦ t ])))
  restoring previous s = elim (Option-cases (advance_cursor previous s)) [
    | inl e ↦ rw e (failing s)
    | inr (t, e) ↦ rw e (Moves-trans (advance-Moves previous s t e) (failing t))
  ]

  broke : (previous : Text) (s : Session) → Moves b (core s) (core (resync_broke port previous s))
  unfolding resync_broke
  broke previous s = elim (Bool-cases (text_eq s.last_cursor previous)) [
    | inl e ↦ rw (e, resync_broke) (failing s)
    | inr e ↦ elim (Bool-cases port.has_persist_cursor) [
      | inl f ↦ rw (e, f, resync_broke) (unfold core in stays)
      | inr f ↦ rw (e, f, resync_broke) (restoring previous s)
    ]
  ]

  restored :
      (previous : Text) (ok : Bool) (s : Session)
      → Moves b (core s) (core (resync_restored previous ok s))
  unfolding resync_restored
  restored previous true s = restoring previous s
  restored previous false s = failing s

  finished : (s : Session) → Moves b (core s) (core (resync_finished s))
  unfolding resync_finished core
  finished s = stays

  persisted :
      (boundary previous : Text) (ok : Bool) (s : Session)
      → Moves b (core s) (core (cursor_persisted port boundary previous ok s))
  unfolding cursor_persisted
  persisted boundary previous false s = broke previous s
  persisted boundary previous true s = elim (Option-cases (advance_cursor boundary s)) [
    | inl e ↦ rw (e, cursor_persisted) (broke previous s)
    | inr (t, e) ↦
        rw (e, cursor_persisted) (Moves-trans (advance-Moves boundary s t e) (finished t))
  ]

  progressed :
      (previous : Text) (p : Progress) (s : Session)
      → Moves b (core s) (core (resync_progressed port previous p s))
  unfolding resync_progressed
  progressed previous (reaches boundary) s =
      either port.has_persist_cursor s _ _ (unfold core in stays)
        (persisted boundary previous true s)
  progressed previous invalid s = stays
  progressed previous aborts s = failing s
  progressed previous interrupted s = broke previous s

  pub recovery : (s : Session) → Moves b (core s) (core (begin_recovery port s))
  recovery s =
      let e : core (begin_recovery port s) ≡ core (queue_job port recovers s) =
        unfold begin_recovery in unfold core in refl in
      same (e ∙ core-queue_job port recovers s)

  -- The answer to a start is read where its task was among the tasks; the others are `kept`.
  pub cursor_read :
      (t : Option Text) (kept : List Task) (s : Session)
      → has_start s.tasks ≡ true
      → Moves b (core s) (core (start_cursor_read port t (record s { tasks = kept })))
  unfolding start_cursor_read core
  cursor_read none kept s h =
      one-Move
        (settles (core s) (has_start kept) (λ no_start. absurd (ground (arith, h, no_start))))
  cursor_read (some c) kept s h =
      let settle : Move b (record (core s) { last_cursor = c })
          (record (core s) { last_cursor = c; starting = has_start kept }) =
        settles (record (core s) { last_cursor = c }) (has_start kept)
          (λ no_start. absurd (ground (arith, h, no_start))) in
      Moves-trans (further (one-Move (restarts (core s) c h)) settle)
        (recovery (record s { tasks = kept; last_cursor = c; catchup_start_cursor = c }))

  pub resume-Moves :
      (r : Reading) (t : Task) (a : Answer) (s : Session)
      → is_start t ≡ false
      → Moves b (core s) (core (resume port r t a s))
  unfolding resume
  resume-Moves r (flush_reads caller) a s h = same (core-send r caller (rows_of a) s)
  resume-Moves r (flush_marks caller) a s h = same (core-batch_marked caller (succeeds a) s)
  resume-Moves r (flush_reports caller) a s h = same (
      core-flushed caller (report_outbox_state false (counts_of a) s)
      ∙ core-report false (counts_of a) s)
  resume-Moves r ack_marks a s h = same (core-ack_marked (succeeds a) s)
  resume-Moves r ack_reports a s h = same (
      core-flush r by_ack (report_outbox_state false (counts_of a) s)
      ∙ core-report false (counts_of a) s)
  resume-Moves r ack_counts a s h = same (core-ack_counted r (counts_of a) s)
  resume-Moves r (ready_inbound n) a s h = same (core-caught_up s)
  resume-Moves r ready_acked a s h = same (core-acked_read (texts_of a) s)
  resume-Moves r ready_clears a s h = same (core-cleared (succeeds a) s)
  resume-Moves r (ready_enqueue n) a s h = same (core-enqueued n s)
  resume-Moves r ready_counts a s h = same (core-counted (counts_of a) s)
  resume-Moves r ready_reports a s h = same (
      core-flush r by_ready (report_outbox_state true (counts_of a) s)
      ∙ core-report true (counts_of a) s)
  resume-Moves r (join_enqueue n) a s h = same (core-join_repaired n s)
  resume-Moves r join_replica a s h = same (core-join_replied (text_of a) s)
  resume-Moves r (join_summary replica) a s h = same (core-join_summed replica (text_of a) s)
  resume-Moves r (resync_runs previous) a s h = progressed previous (progress_of a) s
  resume-Moves r (resync_persists boundary previous) a s h =
      persisted boundary previous (succeeds a) s
  resume-Moves r (resync_restores previous) a s h = restored previous (succeeds a) s
  resume-Moves r start_cursor a s h = absurd (ground (arith, h))
  resume-Moves r (start_enqueue n) a s h = same (core-start_enqueued n s)
  resume-Moves r start_reports a s h =
      let e : core (tell connects (report_outbox_state false (counts_of a) s))
          ≡ core (report_outbox_state false (counts_of a) s) =
        unfold core in refl in
      same (e ∙ core-report false (counts_of a) s)
  resume-Moves r (stop_enqueue n) a s h = unfold core in stays

  resume_job-Moves :
      (r : Reading) (j : Running) (a : Answer) (s : Session)
      → Moves b (core s) (core (resume_job port r j a s))
  unfolding resume_job
  resume_job-Moves r (reading_counter later) a s = same (core-counter_read port later (text_of a) s)
  resume_job-Moves r (reading_ops later) a s = same (core-ops_read port later (ops_of a) s)
  resume_job-Moves r (adding rest later) a s = same (core-op_added rest later (succeeds a) s)
  resume_job-Moves r (reporting succeeded in_enqueue later) a s =
      same (core-enqueue_reported port r succeeded in_enqueue later (counts_of a) s)

  pub resume_running-Moves :
      (r : Reading) (j : Option Running) (a : Answer) (s : Session)
      → Moves b (core s) (core (resume_running port r j a s))
  resume_running-Moves r none a s = stays
  resume_running-Moves r (some j) a s = resume_job-Moves r j a s

pub has_start-get :
    (ts : List Task) (i : ℕ) → get_elem? ts i ≡ some start_cursor → has_start ts ≡ true
unfolding has_start
has_start-get [] i h = absurd (ground (arith, h))
has_start-get (t ∷ ts) zero h = ground (arith, h)
has_start-get (t ∷ ts) (suc i) h = ground (arith, has_start-get ts i h)

pub has_start-remove :
    (ts : List Task) (i : ℕ)
    → has_start ts ≡ false
    → has_start (take i ts ++ drop (suc i) ts) ≡ false
unfolding has_start
has_start-remove [] zero h = refl
has_start-remove [] (suc i) h = refl
has_start-remove (t ∷ ts) zero h = ground (arith, h)
has_start-remove (t ∷ ts) (suc i) h = ground (arith, has_start-remove ts i)

-- ===== src/Session/Core.antt =====
-- The part of the session that carries what comes from the server, and what leaves it alone.
use concord_dev.Outbox.{StateCounts, PendingOpRecord}
use concord_dev.Session.Outbound.{
  flush_outbox, send_batch, add_loop, enqueue_local, begin_job, pump_jobs, queue_job, Reading,
  end_job, is_edit, job_failed, job_ended,
}
use concord_dev.Base.Text.{Text}
use concord_dev.Session.{
  by_ready, by_timer, by_ack, Task, Task, Effect, Effect, Session, report_outbox_state, EnginePort,
  RemoteCall, Job, start_cursor, applies_remote, Caller, enqueues, by_timer, recovers, by_ack,
}
use concord_dev.Base.{
  ℕ, suc, ◌+◌, ◌≡◌, refl, ◌∙◌, Bool, true, false, ◌||◌, Option, none, some, List, [], ◌∷◌, arith,
  if◌then◌else◌,
}

abbrev pub is_start : Task → Bool
is_start start_cursor = true
is_start _ = false

unfoldable pub has_start : List Task → Bool
has_start [] = false
has_start (t ∷ ts) = is_start t || has_start ts

abbrev pub is_application : Effect → Bool
is_application (applies_remote o c) = true
is_application _ = false

-- The calls of `engine.applyRemote` in a log.
unfoldable pub applications : List Effect → ℕ
applications [] = 0
applications (e ∷ es) = if is_application e then suc (applications es) else applications es

pub record Core : Type 0 where
  pub last_cursor : Text
  pub starting : Bool
  pub inbound : List RemoteCall
  pub queued : ℕ
  pub done : ℕ
  pub disposed : Bool
  pub applied : ℕ

unfoldable pub core : Session → Core
unfolding has_start applications
core s = record {
  last_cursor = s.last_cursor;
  starting = has_start s.tasks;
  inbound = s.inbound;
  queued = s.inbound_queued;
  done = s.inbound_done;
  disposed = s.disposed;
  applied = applications s.log;
}

pub core-report :
    (confirmed : Bool) (counts : Option StateCounts) (s : Session)
    → core (report_outbox_state confirmed counts s) ≡ core s
unfolding report_outbox_state core
core-report confirmed none s = refl
core-report confirmed (some counts) s = refl

pub core-flush :
    (r : Reading) (caller : Caller) (s : Session) → core (flush_outbox r caller s) ≡ core s
unfolding flush_outbox core
core-flush r by_timer s = ground arith
core-flush r by_ack s = ground arith
core-flush r by_ready s = ground arith

pub core-send :
    (r : Reading) (caller : Caller) (rows : Option (List PendingOpRecord)) (s : Session)
    → core (send_batch r caller rows s) ≡ core s
unfolding send_batch core
core-send r by_timer rows s = ground arith
core-send r by_ack rows s = ground arith
core-send r by_ready rows s = ground arith

pub core-add :
    (ops : List (List ℕ)) (later : Option (List (List ℕ))) (s : Session)
    → core (add_loop ops later s) ≡ core s
unfolding add_loop core
core-add [] later s = refl
core-add (op ∷ ops) later s = ground (arith, core-add ops later s)

pub core-enqueue :
    (ops : List (List ℕ)) (later : Option (List (List ℕ))) (s : Session)
    → core (enqueue_local ops later s) ≡ core s
unfolding enqueue_local
core-enqueue ops later s =
    core-add ops later (record s { server_confirmed = false }) ∙ (unfold core in refl)

core-begin :
    (port : EnginePort) (after_failure : Bool) (job : Job) (s : Session)
    → core (begin_job port after_failure job s) ≡ core s
unfolding begin_job core
core-begin port after_failure recovers s = ground arith
core-begin port after_failure (enqueues ops) s = ground (arith, core-enqueue ops none s)

core-pump :
    (port : EnginePort) (after_failure : Bool) (jobs : List Job) (s : Session)
    → core (pump_jobs port after_failure jobs s) ≡ core s
unfolding pump_jobs core
core-pump port after_failure [] s = refl
core-pump port after_failure (job ∷ rest) s =
    let begun = begin_job port after_failure job (record s { runs_edit = is_edit job }) in
    ground (
      arith,
      core-begin port after_failure job (record s { runs_edit = is_edit job }),
      core-pump port false rest (job_ended false begun),
    )

pub core-queue_job :
    (port : EnginePort) (job : Job) (s : Session) → core (queue_job port job s) ≡ core s
unfolding queue_job core
core-queue_job port job s = ground (
  arith,
  core-pump port (job_failed s.jobs_done s) (job ∷ [])
      (record s { jobs_queued = s.jobs_queued + 1 }),
)

pub core-end_job :
    (port : EnginePort) (failed : Bool) (s : Session) → core (end_job port failed s) ≡ core s
unfolding core
core-end_job port failed s = ground (arith, core-pump port failed s.jobs (job_ended failed s))

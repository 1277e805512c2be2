-- ===== src/Session/Outbound.antt =====
-- src/lib/sync/sync-session.ts: local operations on their way into the outbox and to the server.
use concord_dev.Identity.{split_colon, identity_from_op_bytes, format_op_identity, ParsedIdentity}
use concord_dev.Outbox.{PendingOpRecord}
use concord_dev.Base.Text.{Text, Text}
use concord_dev.Session.{
  Session, Caller, Caller, Caller, Caller, Session, Session, Session, Session, Session, EnginePort,
  Session, EnginePort, Session, EnginePort, EnginePort, sets_timer, await, tell, reporting, Job,
  ack_counts, reports_local_error, flush_reads, reading_counter, fail_and_reconnect, by_ack,
  marks_sent, flush_marks, adding, enqueues, adds_pending, sends_ops, by_timer, recovers, by_ready,
}
use concord_dev.Transport.{ready, ConnectionStatus, same_status}
use concord_dev.Base.{
  ℕ, ◌+◌, Bool, true, false, not, ◌&&◌, ◌||◌, Option, none, some, List, [], ◌∷◌, ◌++◌, length,
  if◌then◌else◌, ◌==◌, take, map,
}

-- The code that reads `transport.currentStatus` reads it at most once between two awaits. `sends` is
-- whether `sendClientOps` returns.
pub record Reading : Type 0 where
  pub status : ConnectionStatus
  pub sends : Bool

abbrev pub is_ready : Reading → Bool
is_ready r = same_status r.status ready

abbrev pub max_batch : ℕ
max_batch = 512

unfoldable pub schedule_flush : Session → Session
schedule_flush s =
    if s.flush_timer then s else record s { flush_timer = true; log = sets_timer ∷ s.log }

-- `record.id.split(":").slice(-2).join(":")`
unfoldable pub last_two : List Text → List Text
last_two [] = []
last_two (a ∷ []) = a ∷ []
last_two (a ∷ b ∷ []) = a ∷ b ∷ []
last_two (a ∷ b ∷ c ∷ rest) = last_two (b ∷ c ∷ rest)

unfoldable pub join_colon : List Text → Text
join_colon [] = []
join_colon (a ∷ []) = a
join_colon (a ∷ b ∷ rest) = a ++ (b':' ∷ join_colon (b ∷ rest))

unfoldable pub wire_id : PendingOpRecord → Text
wire_id row = join_colon (last_two (split_colon row.id))

-- The end of `flushOutbox`, in its caller.
abbrev pub flushed : Caller → Session → Session
flushed by_timer s = s
flushed by_ready s = s
flushed by_ack s = await ack_counts s

-- An exception of `flushOutbox`.
abbrev pub flush_throws : Caller → Session → Session
flush_throws by_timer s = tell reports_local_error s
flush_throws by_ready s = fail_and_reconnect s
flush_throws by_ack s = fail_and_reconnect s

unfoldable pub flush_outbox : Reading → Caller → Session → Session
flush_outbox r caller s =
    if not (is_ready r) || not s.catchup_complete || s.disposed
    then flushed caller s
    else await (flush_reads caller) s

-- From the answer of `unackedOps` on; none where that rejects.
unfoldable pub send_batch : Reading → Caller → Option (List PendingOpRecord) → Session → Session
send_batch r caller none s = flush_throws caller s
send_batch r caller (some unacked) s =
    let batch = take max_batch unacked in
    let numbered = record s { next_batch_id = s.next_batch_id + 1 } in
    let ids = map wire_id batch in
    if length unacked == 0
    then flushed caller s
    else if r.sends
    then await (flush_marks caller) (record numbered {
      log =
          marks_sent ids
          ∷ sends_ops s.next_batch_id (map (λ (row : PendingOpRecord). row.op) batch)
          ∷ s.log;
    })
    else flushed caller numbered

-- The timer's callback.
unfoldable pub flush_timer_fires : Reading → Session → Session
flush_timer_fires r s = flush_outbox r by_timer (record s { flush_timer = false })

-- The loop of `enqueueLocal`, up to an operation that is added.
unfoldable pub add_loop : List (List ℕ) → Option (List (List ℕ)) → Session → Session
add_loop [] later s = record s { running = some (reporting true true later) }
add_loop (op ∷ ops) later s =
    let next = add_loop ops later s in
    elim (identity_from_op_bytes op) [
      | none ↦ next
      | some identity ↦ record s {
        running = some (adding ops later);
        log =
            adds_pending
              (format_op_identity (ParsedIdentity.replica identity)
                (ParsedIdentity.counter identity))
              op
            ∷ s.log;
      }
    ]

abbrev pub returns_at_once : List (List ℕ) → Session → Bool
returns_at_once ops s = s.disposed || length ops == 0

-- `enqueueLocal` past its guard.
unfoldable pub enqueue_local : List (List ℕ) → Option (List (List ℕ)) → Session → Session
enqueue_local ops later s = add_loop ops later (record s { server_confirmed = false })

-- A link ends at once, or waits: what runs then.
abbrev pub begin_enqueue : List (List ℕ) → Session → Session
begin_enqueue ops s =
    if returns_at_once ops s then record s { running = none } else enqueue_local ops none s

-- `after_failure` is whether the link before rejected.
unfoldable pub begin_job : EnginePort → Bool → Job → Session → Session
begin_job port after_failure recovers s =
    if port.has_local_ops_since
    then record s { running = some (reading_counter none) }
    else record s { running = none }
begin_job port after_failure (enqueues ops) s =
    if after_failure && port.has_local_ops_since
    then record s { running = some (reading_counter (some ops)) }
    else begin_enqueue ops s

-- The handler of an edit's link reports its failure.
abbrev pub job_ended : Bool → Session → Session
job_ended failed s = record s {
  running = none;
  jobs_done = s.jobs_done + 1;
  failed_jobs = if failed then (s.jobs_done + 1) ∷ s.failed_jobs else s.failed_jobs;
  log = if failed && s.runs_edit then reports_local_error ∷ s.log else s.log;
}

abbrev pub is_edit : Job → Bool
is_edit recovers = false
is_edit (enqueues ops) = true

-- The links that are next, up to one that waits.
unfoldable pub pump_jobs : EnginePort → Bool → List Job → Session → Session
pump_jobs port after_failure [] s = record s { jobs = [] }
pump_jobs port after_failure (job ∷ rest) s =
    let begun = begin_job port after_failure job (record s { runs_edit = is_edit job }) in
    let next = pump_jobs port false rest (job_ended false begun) in
    elim begun.running [ none ↦ next | some r ↦ record begun { jobs = rest } ]

unfoldable pub contains_number : ℕ → List ℕ → Bool
contains_number n [] = false
contains_number n (m ∷ ms) = n == m || contains_number n ms

abbrev pub job_failed : ℕ → Session → Bool
job_failed n s = contains_number n s.failed_jobs

-- A link at the end of the tail.
unfoldable pub queue_job : EnginePort → Job → Session → Session
queue_job port job s =
    let queued = record s { jobs_queued = s.jobs_queued + 1 } in
    elim s.running [
      | none ↦ pump_jobs port (job_failed s.jobs_done s) (job ∷ []) queued
      | some r ↦ record queued { jobs = s.jobs ++ job ∷ [] }
    ]

-- The link that runs has ended.
abbrev pub end_job : EnginePort → Bool → Session → Session
end_job port failed s = pump_jobs port failed s.jobs (job_ended failed s)

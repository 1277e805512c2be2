-- ===== src/Session/History.antt =====
-- Each step of the session moves its core, and whole histories keep what every move keeps.
use concord_dev.Transport.{same_status, syncing}
use concord_dev.Session.Steps.{
  has_start-remove, recovery, cursor_read, either, resume-Moves, has_start-get,
  resume_running-Moves,
}
use concord_dev.Base.Decimal.{print}
use mathlib.Core.Path.{subst}
use concord_dev.Briefing.{count_catchup_ops}
use concord_dev.Session.Inbound.{on_sync_batch, queue_remote, on_peer_ops}
use concord_dev.Session.Quiet.{
  core-sync_now, core-authenticated, core-sync_done, core-begin_resync, core-payload,
  core-durable_ack,
}
use concord_dev.Session.Handlers.{stop, start, begin_recovery}
use concord_dev.Session.Core.{core, is_start, core-flush, has_start, core-queue_job, Core}
use concord_dev.Session.Moves.{
  Moves, one-Move, same, stays, Moves-trans, settles, queue_remote-Moves, begins,
  remote_applied-Moves, Move, Moves-kept, disposes,
}
use concord_dev.Session.Outbound.{Reading, Reading, flush_timer_fires}
use concord_dev.Session.{EnginePort, Task, Session, by_timer, enqueues, start_cursor}
use concord_dev.Session.Run.{
  Input, starts, Answer, resume_task, syncs_now, edits, resume, may_resume, text_of, peer_ops,
  sync_batch, resync_required, errs, remote_answers, job_answers, task_answers, step, run, stops,
  authenticated, join_accepted, sync_done, snapshot_payload, durable_ack, timer_fires,
}
use concord_dev.Base.{
  ℕ, suc, ◌≡◌, refl, sym, ◌∙◌, Bool, true, false, ◌&&◌, Option, none, some, List, [], ◌∷◌, ◌++◌,
  arith, get_elem?, take, drop,
}

abbrev pub is_starts : Input → Bool
is_starts starts = true
is_starts _ = false

settled :
    (port : EnginePort) (r : Reading) (t : Task) (i : ℕ) (a : Answer) (s : Session)
    → is_start t ≡ false
    → Moves false (core s) (core (resume_task port r (some t) i a s))
settled port r t i a s h =
    let kept = take i s.tasks ++ drop (suc i) s.tasks in
    let settle : Moves false (core s) (core (record s { tasks = kept })) =
      unfold core in one-Move (settles (core s) (has_start kept) (has_start-remove s.tasks i)) in
    either port (may_resume t s) s _ _
      (Moves-trans settle (resume-Moves port r t a (record s { tasks = kept }) h)) stays

begin-Moves : (port : EnginePort) (s : Session) → Moves true (core s) (core (start port s))
unfolding start
begin-Moves port s =
    let t : Session = record s { server_confirmed = false } in
    let e : core t ≡ core s = unfold core in refl in
    let recover : Moves true (core s) (core (begin_recovery port t)) =
      Moves-trans (same e) (recovery port t) in
    either port port.has_sync_cursor s _ _ (unfold core in one-Move (begins (core s) refl)) recover

resume_task-Moves :
    (port : EnginePort) (r : Reading) (t : Option Task) (i : ℕ) (a : Answer) (s : Session)
    → get_elem? s.tasks i ≡ t
    → Moves false (core s) (core (resume_task port r t i a s))
resume_task-Moves port r none i a s h = stays
resume_task-Moves port r (some start_cursor) i a s h =
    unfold resume in
    cursor_read port (text_of a) (take i s.tasks ++ drop (suc i) s.tasks) s
      (has_start-get s.tasks i h)
resume_task-Moves port r (some t) i a s h = settled port r t i a s refl

batch-Moves :
    {b : Bool} (o : List (List ℕ)) (next : ℕ) (s : Session)
    → Moves b (core s) (core (on_sync_batch o next s))
unfolding on_sync_batch
batch-Moves {b} o next s =
    let t : Session = record s { catchup_counts = count_catchup_ops s.catchup_counts o } in
    let e : core t ≡ core s = unfold core in refl in
    subst (λ x. Moves b x (core (queue_remote o (some (print next)) t))) e
      (queue_remote-Moves o (some (print next)) t)

timer-Moves :
    {b : Bool} (r : Reading) (s : Session) → Moves b (core s) (core (flush_timer_fires r s))
unfolding flush_timer_fires
timer-Moves r s =
    let t : Session = record s { flush_timer = false } in
    let e : core t ≡ core s = unfold core in refl in same (core-flush r by_timer t ∙ e)

pub core-stop : (s : Session) → core (stop s) ≡ record (core s) { disposed = true }
unfolding stop core
core-stop s = ground arith

pub step-Moves :
    (port : EnginePort) (r : Reading) (s : Session) (i : Input)
    → Moves (is_starts i) (core s) (core (step port r s i))
unfolding step
step-Moves port r s starts = begin-Moves port s
step-Moves port r s stops =
    subst (λ c. Moves false (core s) c) (sym (core-stop s)) (one-Move (disposes (core s)))
step-Moves port r s (syncs_now show) = same (core-sync_now r show s)
step-Moves port r s (edits o) =
    either port s.subscribed s _ _ (same (core-queue_job port (enqueues o) s)) stays
step-Moves port r s authenticated = same (core-authenticated port s)
step-Moves port r s join_accepted = unfold core in stays
step-Moves port r s sync_done = same (core-sync_done s)
step-Moves port r s (peer_ops o) = unfold on_peer_ops in queue_remote-Moves o none s
step-Moves port r s (sync_batch o next has_more) = batch-Moves o next s
step-Moves port r s (resync_required signal) = same (core-begin_resync port signal s)
step-Moves port r s (snapshot_payload payload) = same (core-payload payload s)
step-Moves port r s (durable_ack ids) = same (core-durable_ack ids s)
step-Moves port r s (errs unavailable) =
    either port (unavailable && same_status r.status syncing) s _ _ (unfold core in stays) stays
step-Moves port r s timer_fires = either port s.flush_timer s _ _ (timer-Moves r s) stays
step-Moves port r s (remote_answers accepted) = remote_applied-Moves accepted s
step-Moves port r s (job_answers a) = resume_running-Moves port r s.running a s
step-Moves port r s (task_answers i a) = resume_task-Moves port r (get_elem? s.tasks i) i a s refl

-- no input of the history is a call of `start`
abbrev pub NoStart : List (Reading × Input) → Type 0
NoStart [] = Unit {0}
NoStart ((r, i) ∷ is) = (is_starts i ≡ false) × NoStart is

pub run-kept {ℓ} :
    (port : EnginePort) (P : Core → Type ℓ)
    → ((c d : Core) → Move false c d → P c → P d)
    → (is : List (Reading × Input)) (s : Session) → NoStart is
    → P (core s)
    → P (core (run port s is))
unfolding run
run-kept port P keep [] s none_starts p = p
run-kept port P keep ((r, i) ∷ is) s none_starts p =
    run-kept port P keep is (step port r s i) none_starts.1 (
      Moves-kept P keep
        (subst (λ b. Moves b (core s) (core (step port r s i))) none_starts.0
          (step-Moves port r s i))
        p)

pub run-kept_any {ℓ} :
    (port : EnginePort) (P : Core → Type ℓ)
    → ((b : Bool) (c d : Core) → Move b c d → P c → P d)
    → (is : List (Reading × Input)) (s : Session) → P (core s)
    → P (core (run port s is))
unfolding run
run-kept_any port P keep [] s p = p
run-kept_any port P keep ((r, i) ∷ is) s p =
    run-kept_any port P keep is (step port r s i)
      (Moves-kept P (keep (is_starts i)) (step-Moves port r s i) p)

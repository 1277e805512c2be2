-- ===== src/Session/Stop.antt =====
-- src/lib/sync/sync-session.ts, `stop`: what later events find.
use mathlib.Core.Path.{subst}
use concord_dev.Session.History.{run-kept_any, core-stop}
use concord_dev.Session.Handlers.{stop}
use concord_dev.Session.Run.{Input, run}
use concord_dev.Session.Outbound.{Reading}
use concord_dev.Session.Moves.{
  Move, begins, restarts, settles, advances, queues, ends, applies, disposes,
}
use concord_dev.Session.{EnginePort, Session}
use concord_dev.Session.Core.{Core, Core, applications, core}
use concord_dev.Base.{ℕ, ◌≡◌, refl, sym, Bool, true, List, arith}

abbrev IsIdle : ℕ → Core → Type 0
IsIdle k c = (c.disposed ≡ true) × (c.applied ≡ k)

keep-IsIdle : (k : ℕ) (b : Bool) (c d : Core) → Move b c d → IsIdle k c → IsIdle k d
keep-IsIdle k b c d (begins _ h) p = p
keep-IsIdle k b c d (restarts _ cursor h) p = p
keep-IsIdle k b c d (settles _ x h) p = p
keep-IsIdle k b c d (advances _ cursor m n e f le) p = p
keep-IsIdle k b c d (queues _ e) p = p
keep-IsIdle k b c d (ends _ e rest h) p = p
keep-IsIdle k b c d (applies _ h) p = absurd (ground (arith, h, p.0))
keep-IsIdle k b c d (disposes _) p = (refl, p.1)

-- Once the session was stopped, no later history hands remote operations to the engine, not even those
-- that were queued, and the session stays stopped.
pub run-stop :
    (port : EnginePort) (s : Session) (is : List (Reading × Input))
    → ((run port (stop s) is).disposed ≡ true)
      × (applications (run port (stop s) is).log ≡ applications s.log)
run-stop port s is =
    let idle : IsIdle (applications s.log) (record (core s) { disposed = true }) =
      unfold core in (refl, refl) in
    let p = subst (IsIdle (applications s.log)) (sym (core-stop s)) idle in
    let q : IsIdle (applications s.log) (core (run port (stop s) is)) =
      run-kept_any port (IsIdle (applications s.log)) (keep-IsIdle (applications s.log)) is (stop s)
        p in
    (unfold core in q)

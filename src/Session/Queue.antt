-- ===== src/Session/Queue.antt =====
-- src/lib/sync/sync-session.ts, `queueRemote`: how the queue of remote operations comes to its end.
use concord_dev.Session.History.{run-kept_any}
use concord_dev.Session.Run.{Input, run}
use concord_dev.Session.Outbound.{Reading}
use concord_dev.Base.Text.{Text}
use concord_dev.Session.{EnginePort, init}
use concord_dev.Session.Moves.{
  Move, begins, restarts, settles, advances, queues, ends, applies, disposes,
}
use concord_dev.Session.Core.{Core, Core, core}
use concord_dev.Base.{◌+◌, ◌≡◌, ap, Bool, [], ◌∷◌, arith, length, length-append, List, refl}

abbrev IsCounted : Core → Type 0
IsCounted c = c.done + length c.inbound ≡ c.queued

keep-IsCounted : (b : Bool) (c d : Core) → Move b c d → IsCounted c → IsCounted d
keep-IsCounted b c d (begins _ h) p = p
keep-IsCounted b c d (restarts _ cursor h) p = p
keep-IsCounted b c d (settles _ x h) p = p
keep-IsCounted b c d (advances _ cursor k n e f le) p = p
keep-IsCounted b c d (queues _ e) p = omega (arith, p, length-append {0} c.inbound (e ∷ []))
keep-IsCounted b c d (ends _ e rest h) p = omega (arith, p, ap length h)
keep-IsCounted b c d (applies _ h) p = p
keep-IsCounted b c d (disposes _) p = p

-- In every history that starts as the constructor does, as many remote calls ended as were queued,
-- less those that are still in the queue.
pub run-IsCounted :
    (port : EnginePort) (cursor : Text) (is : List (Reading × Input))
    → let s = run port (init cursor) is in s.inbound_done + length s.inbound ≡ s.inbound_queued
run-IsCounted port cursor is =
    let p : IsCounted (core (init cursor)) = unfold core in refl in
    let q : IsCounted (core (run port (init cursor) is)) =
      run-kept_any port IsCounted keep-IsCounted is (init cursor) p in
    unfold core in q

-- ===== src/Session/Cursor.antt =====
-- src/lib/sync/sync-session.ts: the cursor over whole histories of the session.
use concord_dev.Session.History.{NoStart, run-kept}
use concord_dev.Session.Run.{Input, run}
use concord_dev.Session.Outbound.{Reading}
use concord_dev.Identity.{big_int_value}
use concord_dev.Session.Moves.{
  Move, begins, restarts, settles, advances, queues, ends, applies, disposes,
}
use concord_dev.Session.{EnginePort, Session}
use concord_dev.Session.Core.{Core, Core, has_start, core}
use concord_dev.Base.Text.{Text}
use concord_dev.Base.{ℕ, ◌≤◌, ◌≡◌, false, some, List, arith}

-- The text is one of BigInt, with at least this value.
abbrev pub AtLeast : ℕ → Text → Type 0
AtLeast m cursor = (n : ℕ) × (big_int_value cursor ≡ some n) × (m ≤ n)

abbrev Settled : ℕ → Core → Type 0
Settled m c = (c.starting ≡ false) × AtLeast m c.last_cursor

keep-Settled : (m : ℕ) (c d : Core) → Move false c d → Settled m c → Settled m d
keep-Settled m c d (begins _ h) p = absurd (ground (arith, h))
keep-Settled m c d (restarts _ cursor h) p = absurd (ground (arith, h, p.0))
keep-Settled m c d (settles _ b h) (quiet, value) = (h quiet, value)
keep-Settled m c d (advances _ cursor k n e f le) (quiet, (k2, e2, le2)) =
    (quiet, (n, f, ground (arith, e, e2, le, le2)))
keep-Settled m c d (queues _ e) p = p
keep-Settled m c d (ends _ e rest h) p = p
keep-Settled m c d (applies _ h) p = p
keep-Settled m c d (disposes _) p = p

pub run-AtLeast :
    (port : EnginePort) (s : Session) (m : ℕ) (is : List (Reading × Input))
    → has_start s.tasks ≡ false
    → big_int_value s.last_cursor ≡ some m
    → NoStart is
    → AtLeast m (run port s is).last_cursor
run-AtLeast port s m is quiet value none_starts =
    let p : Settled m (core s) = unfold core in (quiet, (m, value, omega arith)) in
    let q : Settled m (core (run port s is)) =
      run-kept port (Settled m) (keep-Settled m) is s none_starts p in
    (unfold core in q.1)

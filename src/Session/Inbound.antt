-- ===== src/Session/Inbound.antt =====
-- src/lib/sync/sync-session.ts, `queueRemote` and `applyRemoteOps`: remote operations on their way to the
-- engine, one call after the other.
use concord_dev.Briefing.{count_catchup_ops}
use concord_dev.Base.Decimal.{print}
use concord_dev.Base.Text.{Text, Text}
use concord_dev.Session.{
  Session, Session, Session, Session, applies_remote, advance_cursor, fail_and_reconnect,
  RemoteCall,
}
use concord_dev.Base.{
  ℕ, ◌+◌, Bool, true, ◌||◌, Option, none, some, List, [], ◌∷◌, ◌++◌, if◌then◌else◌, false, length,
  ◌==◌, ◌&&◌,
}

abbrev pub is_none : Option Text → Bool
is_none none = true
is_none (some t) = false

abbrev pub is_empty_call : RemoteCall → Bool
is_empty_call e = length e.ops == 0 && is_none e.cursor

-- The calls that are next, up to one that waits for the engine.
unfoldable pub pump_inbound : List RemoteCall → Session → Session
pump_inbound [] s = record s { inbound = [] }
pump_inbound (e ∷ rest) s =
    let skipped = pump_inbound rest (record s { inbound_done = s.inbound_done + 1 }) in
    if s.catchup_failed || s.disposed || is_empty_call e then skipped else record s {
      inbound = e ∷ rest;
      log = applies_remote (RemoteCall.ops e) (RemoteCall.cursor e) ∷ s.log;
    }

-- A call behind one that waits stays in the queue.
unfoldable pub append_call : List RemoteCall → RemoteCall → Session → Session
append_call [] e s = pump_inbound (e ∷ []) s
append_call (head ∷ rest) e s = record s { inbound = head ∷ rest ++ e ∷ [] }

unfoldable pub queue_remote : List (List ℕ) → Option Text → Session → Session
queue_remote ops cursor s =
    append_call s.inbound (record { ops = ops; cursor = cursor })
      (record s { inbound_queued = s.inbound_queued + 1 })

abbrev pub advance_to : Option Text → Session → Option Session
advance_to none s = some s
advance_to (some cursor) s = advance_cursor cursor s

abbrev pub end_inbound : Session → Session
end_inbound s = record s { inbound_done = s.inbound_done + 1 }

unfoldable pub fail_inbound : List RemoteCall → Session → Session
fail_inbound rest s =
    pump_inbound rest (end_inbound (fail_and_reconnect (record s { catchup_failed = true })))

-- The answer of `engine.applyRemote` for the first call; false where it rejects.
unfoldable pub answer_call : List RemoteCall → Bool → Session → Session
answer_call [] accepted s = s
answer_call (e ∷ rest) accepted s =
    if accepted
    then elim (advance_to (RemoteCall.cursor e) s) [
      | none ↦ fail_inbound rest s
      | some t ↦ pump_inbound rest (end_inbound t)
    ]
    else fail_inbound rest s

unfoldable pub remote_applied : Bool → Session → Session
remote_applied accepted s = answer_call s.inbound accepted s

-- `onPeerOps` and `onSyncBatch`
unfoldable pub on_peer_ops : List (List ℕ) → Session → Session
on_peer_ops ops s = queue_remote ops none s

unfoldable pub on_sync_batch : List (List ℕ) → ℕ → Session → Session
on_sync_batch ops next_cursor s =
    queue_remote ops (some (print next_cursor))
      (record s { catchup_counts = count_catchup_ops s.catchup_counts ops })

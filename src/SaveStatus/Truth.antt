-- ===== src/SaveStatus/Truth.antt =====
-- src/lib/collaboration/save-status.ts: what a view claims, against the signals that it was made of.
use concord_dev.Base.{
  ◌≡◌, inl, inr, refl, Bool, true, false, not, ◌&&◌, ◌||◌, Option, none, some, arith, ltb,
  Option-cases,
}
use concord_dev.SaveStatus.{status_conflict, is_conflict}
use concord_dev.SaveStatus.{
  SaveStatus, status_idle, status_saved, EditorSaveState, saved_locally, local_only, pending_sync,
  server_acknowledged, saved_mirror, offline, SyncSignals, durable_view, waiting, confirmed,
  to_save_status_view, is_conflict, status_saving, status_error,
}
use Prim.Native.String.{String}

abbrev pub claims_acknowledged : EditorSaveState → Bool
claims_acknowledged server_acknowledged = true
claims_acknowledged _ = false

abbrev pub claims_mirror : EditorSaveState → Bool
claims_mirror saved_mirror = true
claims_mirror _ = false

-- The states whose texts say that the edits are on this device.
abbrev pub claims_device : EditorSaveState → Bool
claims_device saved_locally = true
claims_device local_only = true
claims_device pending_sync = true
claims_device offline = true
claims_device _ = false

abbrev pub no_error : Option String → Bool
no_error none = true
no_error (some message) = false

-- The session saved, or has nothing to save.
abbrev pub is_settled : SaveStatus → Bool
is_settled status_idle = true
is_settled status_saved = true
is_settled _ = false

durable-mirror :
    (online : Bool) (sync : SyncSignals) → claims_mirror (durable_view online sync).state ≡ false
unfolding durable_view
durable-mirror online sync = elim (Option-cases sync.error) [
  | inl e ↦ rw (e, durable_view) (ground arith)
  | inr (m, e) ↦ rw (e, durable_view) refl
]

durable-device :
    (online : Bool) (sync : SyncSignals)
    → claims_device (durable_view online sync).state
      ≡ (no_error sync.error && (ltb 0 (waiting sync.outbox) || not (confirmed sync.outbox)))
unfolding durable_view
durable-device online sync = elim (Option-cases sync.error) [
  | inl e ↦ rw (e, durable_view) (ground arith)
  | inr (m, e) ↦ rw (e, durable_view) refl
]

-- A view says that all changes are saved on the server exactly when there is no durable replica and
-- the save is done or there was none.
pub state-mirror :
    (status : SaveStatus) (online locally_durable : Bool) (sync : SyncSignals)
    → claims_mirror (to_save_status_view status online locally_durable sync).state
      ≡ (not locally_durable && is_settled status)
unfolding to_save_status_view
state-mirror status_idle online true sync = durable-mirror online sync
state-mirror status_idle online false sync = refl
state-mirror status_saving online true sync = durable-mirror online sync
state-mirror status_saving online false sync = ground arith
state-mirror status_saved online true sync = durable-mirror online sync
state-mirror status_saved online false sync = refl
state-mirror status_error online true sync = durable-mirror online sync
state-mirror status_error online false sync = refl
state-mirror status_conflict online true sync = refl
state-mirror status_conflict online false sync = refl

-- A view says that the edits are kept on this device exactly when the replica is durable, the session
-- is not in conflict, there is no sync error, and operations are waiting or none was confirmed.
pub state-device :
    (status : SaveStatus) (online locally_durable : Bool) (sync : SyncSignals)
    → claims_device (to_save_status_view status online locally_durable sync).state ≡ (
        locally_durable
        && not (is_conflict status)
        && (no_error sync.error && (ltb 0 (waiting sync.outbox) || not (confirmed sync.outbox))))
unfolding to_save_status_view
state-device status_idle online true sync = durable-device online sync
state-device status_idle online false sync = refl
state-device status_saving online true sync = durable-device online sync
state-device status_saving online false sync = ground arith
state-device status_saved online true sync = durable-device online sync
state-device status_saved online false sync = refl
state-device status_error online true sync = durable-device online sync
state-device status_error online false sync = refl
state-device status_conflict online true sync = refl
state-device status_conflict online false sync = refl

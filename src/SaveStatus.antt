-- ===== src/SaveStatus.antt =====
-- src/lib/collaboration/save-status.ts: what the editor says of how safe the edits are. The labels
-- and sentences of a view are named, not spelled out.
pub mod Truth
mod Tests
use concord_dev.Base.{
  ℕ, zero, suc, ◌+◌, ◌*◌, ◌-◌, ◌^◌, ◌≤◌, ◌<◌, ◌≡◌, ◌≢◌, ◌↔◌, ◌⊎◌, inl, inr, refl, sym, ap, ◌∙◌,
  Bool, true, false, not, ◌&&◌, ◌||◌, Option, none, some, List, [], ◌∷◌, ◌++◌, arith, ltb, leb,
  length, if◌then◌else◌, Bool-cases, Option-cases,
}
use Prim.Native.String.{String}

pub data SaveStatus : Type 0 where
  status_idle status_saving status_saved status_error status_conflict : SaveStatus

pub data EditorSaveState : Type 0 where
  saved_locally local_only pending_sync server_acknowledged saving : EditorSaveState
  saved_mirror offline error conflict : EditorSaveState

-- The texts of a view: those of `VIEWS` for its state, or those that a branch writes itself.
pub data Wording : Type 0 where
  standard : Wording
  sync_error : String → Wording
  counts_pending counts_offline : ℕ → Wording
  unsaved_conflict : Wording
  not_saved : Bool → Wording

pub record SaveStatusView : Type 0 where
  pub state : EditorSaveState
  pub wording : Wording
  pub prominent : Bool

pub record SyncOutboxStatus : Type 0 where
  pub pending : ℕ
  pub sent : ℕ
  pub durably_acked : ℕ
  pub server_confirmed : Bool

-- The optional argument `sync`; an error that is empty or null counts as none.
pub record SyncSignals : Type 0 where
  pub local_only : Bool
  pub outbox : Option SyncOutboxStatus
  pub error : Option String

-- `prominent` of `VIEWS`
abbrev pub view_prominent : EditorSaveState → Bool
view_prominent saved_locally = false
view_prominent server_acknowledged = false
view_prominent saving = false
view_prominent saved_mirror = false
view_prominent _ = true

abbrev pub standard_view : EditorSaveState → SaveStatusView
standard_view state = record { state = state; wording = standard; prominent = view_prominent state }

-- `(sync?.outbox?.pending ?? 0) + (sync?.outbox?.sent ?? 0)`
abbrev pub waiting : Option SyncOutboxStatus → ℕ
waiting none = 0
waiting (some outbox) = outbox.pending + outbox.sent

abbrev pub confirmed : Option SyncOutboxStatus → Bool
confirmed none = false
confirmed (some outbox) = ltb 0 outbox.durably_acked || outbox.server_confirmed

-- The branch of a session with a durable replica.
unfoldable pub durable_view : Bool → SyncSignals → SaveStatusView
durable_view online sync = elim sync.error [
  | some message ↦ record { state = error; wording = sync_error message; prominent = true }
  | none ↦
      if ltb 0 (waiting sync.outbox)
      then (if online
          then record {
            state = pending_sync;
            wording = counts_pending (waiting sync.outbox);
            prominent = true;
          }
          else record {
            state = offline;
            wording = counts_offline (waiting sync.outbox);
            prominent = true;
          })
      else if confirmed sync.outbox
      then standard_view server_acknowledged
      else if sync.local_only
      then standard_view local_only
      else standard_view (if online then saved_locally else offline)
]

abbrev pub is_conflict : SaveStatus → Bool
is_conflict status_conflict = true
is_conflict _ = false

abbrev pub error_view : Bool → SaveStatusView
error_view online = record { state = error; wording = not_saved online; prominent = true }

unfoldable pub to_save_status_view : SaveStatus → Bool → Bool → SyncSignals → SaveStatusView
to_save_status_view status_conflict online locally_durable sync =
    if locally_durable
    then standard_view conflict
    else record { state = conflict; wording = unsaved_conflict; prominent = true }
to_save_status_view status_error online locally_durable sync =
    if locally_durable then durable_view online sync else error_view online
to_save_status_view status_saving online locally_durable sync =
    if locally_durable
    then durable_view online sync
    else if online
    then standard_view saving
    else error_view online
to_save_status_view status online locally_durable sync =
    if locally_durable then durable_view online sync else standard_view saved_mirror

-- ===== src/SaveStatus/Tests.antt =====
-- Views of concrete sessions.
use concord_dev.Base.{◌≡◌, refl, true, false, none, some}
use concord_dev.SaveStatus.{
  status_saved, server_acknowledged, SyncSignals, to_save_status_view, durable_view,
}

abbrev all_acked : SyncSignals
all_acked = record {
  local_only = false;
  outbox = some (record { pending = 0; sent = 0; durably_acked = 2; server_confirmed = false });
  error = none;
}

acked_view : (to_save_status_view status_saved true true all_acked).state ≡ server_acknowledged
unfolding to_save_status_view durable_view
acked_view = refl

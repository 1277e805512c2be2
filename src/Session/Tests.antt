-- ===== src/Session/Tests.antt =====
-- Runs of the session on small inputs, and the theorems at an input.
use concord_dev.Session.Stall.{flushes, flushes-oversized, batch_ops}
use concord_dev.Wire.{max_batch_payload_bytes, payload_bytes, payload_from}
use concord_dev.Transport
use concord_dev.Briefing.{count_catchup_ops}
use concord_dev.Session.Stop.{run-stop}
use concord_dev.Session.Flush.{IsOwn, send_batch-own}
use concord_dev.Session.Core.{applications}
use concord_dev.Session.Inbound.{
  queue_remote, pump_inbound, remote_applied, on_sync_batch, append_call, answer_call,
}
use concord_dev.Base.Decimal.{print}
use concord_dev.Session.Handlers.{stop}
use concord_dev.Session.Run.{Input, sync_batch, remote_answers, run, step}
use concord_dev.Transport.{ready}
use concord_dev.Identity.{format_op_identity, big_int_value}
use concord_dev.Outbox.{PendingOpRecord, pending, key}
use concord_dev.Session.Outbound.{Reading, Reading, send_batch}
use concord_dev.Base.Text.{Text}
use concord_dev.Session.{EnginePort, Session, init, by_timer, sends_ops, advance_cursor, marks_sent}
use concord_dev.Base.{
  ℕ, zero, suc, ◌+◌, ◌*◌, ◌-◌, ◌^◌, ◌≤◌, ◌<◌, ◌≡◌, ◌≢◌, ◌↔◌, ◌⊎◌, inl, inr, refl, sym, ap, ◌∙◌,
  Bool, true, false, not, ◌&&◌, ◌||◌, Option, none, some, List, [], ◌∷◌, ◌++◌, arith, ltb, leb,
  length, if◌then◌else◌, Bool-cases, Option-cases, map, replicate, length-replicate,
}

abbrev worker_port : EnginePort
worker_port = record {
  has_sync_cursor = true;
  has_persist_cursor = true;
  has_local_ops_since = true;
  has_resync = true;
}

abbrev five : Text
five = b'5' ∷ []

abbrev is_up : Reading
is_up = record { status = ready; sends = true }

-- One page that catches up from 5 to 9, and one that is delivered again.
abbrev catching_up : List (Reading × Input)
catching_up =
    (is_up, sync_batch ((1 ∷ []) ∷ []) 9 false)
    ∷ (is_up, sync_batch [] 7 false)
    ∷ (is_up, remote_answers true)
    ∷ (is_up, remote_answers true)
    ∷ []

catches_up : (run worker_port (init five) catching_up).last_cursor ≡ b'9' ∷ []
unfolding run step queue_remote pump_inbound remote_applied on_sync_batch count_catchup_ops
    append_call answer_call advance_cursor big_int_value print concord_dev.Identity.big_int_trimmed
    concord_dev.Base.Text.trim_end concord_dev.Base.Text.trim_start concord_dev.Identity.in_base
catches_up = refl

run-stop_example :
    ((run worker_port (stop (init five)) catching_up).disposed ≡ true)
    × (applications (run worker_port (stop (init five)) catching_up).log ≡ applications [])
run-stop_example = run-stop worker_port (init five) catching_up

abbrev waiting : Session
waiting = record (init five) {
  inbound = record { ops = (1 ∷ []) ∷ []; cursor = some (b'9' ∷ []) } ∷ [];
  inbound_queued = 1;
}

abbrev row : PendingOpRecord
row = record {
  id = b'd' ∷ b':' ∷ b'7' ∷ b':' ∷ b'2' ∷ [];
  op = 1 ∷ 2 ∷ [];
  state = pending;
  seq = 1;
  saved_at = 1;
}

row-IsOwn : IsOwn (b'd' ∷ []) row
unfolding format_op_identity print
row-IsOwn = (7, 2, refl)

send_batch-own_example :
    let t = send_batch is_up by_timer (some (row ∷ [])) (init five) in
    (ids : List Text) × (t.log ≡ marks_sent ids ∷ sends_ops 1 ((1 ∷ 2 ∷ []) ∷ []) ∷ [])
    × (map (key (b'd' ∷ [])) ids ≡ row.id ∷ [])
    × (1 ≤ 512)
    × (t.next_batch_id ≡ 2)
send_batch-own_example =
    send_batch-own is_up by_timer (b'd' ∷ []) (row ∷ []) (init five) refl (omega arith)
      (row-IsOwn, tt)

zeros : ℕ → List ℕ
zeros zero = []
zeros (suc n) = 0 ∷ zeros n

length-zeros : (n : ℕ) → length (zeros n) ≡ n
unfolding zeros
length-zeros zero = refl
length-zeros (suc n) = ap suc (length-zeros n)

abbrev large_row : PendingOpRecord
large_row = record row { op = zeros max_batch_payload_bytes }

large_row-oversized : max_batch_payload_bytes < payload_bytes (batch_ops (large_row ∷ []))
unfolding payload_bytes payload_from
large_row-oversized = omega (arith, length-zeros max_batch_payload_bytes)

flushes-oversized_example :
    flushes (large_row ∷ []) ((Transport.init, true) ∷ (Transport.init, false) ∷ []) (init five)
    ≡ record (init five) { next_batch_id = 3 }
flushes-oversized_example =
    flushes-oversized (large_row ∷ []) ((Transport.init, true) ∷ (Transport.init, false) ∷ [])
      (init five) (omega arith) large_row-oversized

-- ===== src/Transport/Ready.antt =====
-- How the transport becomes READY, and where its retries stand.
use concord_dev.Wire.{ok, Result, decode_data_frame, DataFrame, err, client_ops, sync_batch}
use Prim.Native.String.{String}
use concord_dev.Control.Value.{Json, Json, obj, field, str, end}
use concord_dev.Transport.Core.{core-set_status, core-schedule, core-send}
use concord_dev.Transport.Backoff.{BackoffConfig}
use concord_dev.Control.{
  ControlFrameType, ControlFrameType, DecodedControlFrame, decode_control_frame,
}
use concord_dev.Base.{
  ℕ, ◌≡◌, ◌≢◌, ◌⊎◌, inl, inr, refl, sym, ◌∙◌, true, false, Option, none, ◌∷◌, arith, Bool-cases,
  Option-cases,
}
use concord_dev.Transport.{
  join_document, fetch_snapshot, connecting, joining, syncing, closed, reconnecting, ready,
  draining, authenticated, set_status, tell, ConnectionStatus, Transport, connect,
  handle_control_frame, Message, schedule_reconnect, open_socket, teardown_socket, handle_message,
  Chance, handle_hello_ack, text_message, send, called, on_fatal, on_error, handle_error,
  payload_text, on_open, handle_text, handle_binary, binary_message, reconnect, request_sync,
  send_client_ops, send_presence, clear_backoff_timer, close, handle_unclean_close, token_ready,
  token_failed,
}
use concord_dev.Transport.Run.{
  step, Input, receives, calls_connect, calls_reconnect, calls_join, calls_sync, calls_fetch,
  calls_send_ops, calls_presence, socket_closes, has_socket, timer_fires, timer_fired,
  token_arrives, token_fails, calls_close, socket_opens,
}

-- The input that makes a transport READY: a text message that decodes to `sync_done`.
abbrev pub IsSyncDone : Input → Type 0
IsSyncDone (receives (text_message json)) =
    (frame : DecodedControlFrame) × (decode_control_frame json ≡ ok frame)
    × (frame.type ≡ ControlFrameType.sync_done)
IsSyncDone _ = ⊥

set_status-ne-ready :
    (next : ConnectionStatus) (s : Transport) → next ≢ ready → (set_status next s).status ≢ ready
set_status-ne-ready next s h = ground (arith, core-set_status next s)

abbrev NotReady : Transport → Type 0
NotReady s = s.status ≢ ready

send-NotReady :
    (t : ControlFrameType) (p : Json) (id : Option String) (s : Transport)
    → NotReady s
    → NotReady (send t p id s)
send-NotReady t p id s h = ground (arith, core-send t p id s)

schedule-NotReady :
    (config : BackoffConfig) (random : ℕ) (s : Transport)
    → NotReady (schedule_reconnect config random s)
schedule-NotReady config random s = ground (arith, core-schedule config random s)

connect-NotReady :
    (config : BackoffConfig) (c : Chance) (s : Transport)
    → NotReady s
    → NotReady (connect config c s)
unfolding connect open_socket
connect-NotReady config c s h = ground (
  arith,
  core-set_status connecting s,
  core-set_status reconnecting s,
  core-schedule config c.random (set_status connecting s),
  core-schedule config c.random (set_status reconnecting s),
)

shut_down-NotReady : (s : Transport) → NotReady (set_status closed (teardown_socket s))
shut_down-NotReady s = ground (arith, core-set_status closed (teardown_socket s))

join_document-NotReady : (p : Json) (s : Transport) → NotReady (join_document p s)
unfolding join_document
join_document-NotReady p s = send-NotReady _ _ _ _ (set_status-ne-ready joining s (ground arith))

on_open-NotReady : (s : Transport) → NotReady s → NotReady (on_open s)
unfolding on_open
on_open-NotReady s h = elim (Option-cases s.ws) [
  | inl e ↦ rw (e, on_open) h
  | inr (w, e) ↦ rw (e, on_open) (send-NotReady _ _ _ _ h)
]

-- A frame other than `sync_done` does not make the transport READY.
handle_control_frame-NotReady :
    (t : ControlFrameType) (p : Json) (s : Transport)
    → NotReady s
    → t ≢ ControlFrameType.sync_done
    → NotReady (handle_control_frame t p s)
unfolding handle_control_frame
handle_control_frame-NotReady ControlFrameType.hello_ack p s h n =
    unfold handle_hello_ack in
    ground (
      arith,
      shut_down-NotReady (record s {
        closed_by_user = true;
        log = called on_fatal ∷ called (on_error "unsupported_protocol_version") ∷ s.log;
      }),
    )
handle_control_frame-NotReady ControlFrameType.error p s h n =
    unfold handle_error in
    ground (
      arith,
      shut_down-NotReady (record s {
        closed_by_user = true;
        log = called on_fatal ∷ called (on_error (payload_text "code" p)) ∷ s.log;
      }),
    )
handle_control_frame-NotReady ControlFrameType.ping p s h n =
    send-NotReady ControlFrameType.pong _ none s h
handle_control_frame-NotReady ControlFrameType.authenticated p s h n =
    set_status-ne-ready authenticated s (ground arith)
handle_control_frame-NotReady ControlFrameType.join_accepted p s h n =
    set_status-ne-ready syncing s (ground arith)
handle_control_frame-NotReady ControlFrameType.server_draining p s h n =
    set_status-ne-ready draining _ (ground arith)
handle_control_frame-NotReady ControlFrameType.sync_done p s h n = absurd (n refl)
handle_control_frame-NotReady t p s h n = h

is_sync_done :
    (t : ControlFrameType) → (t ≡ ControlFrameType.sync_done) ⊎ (t ≢ ControlFrameType.sync_done)
is_sync_done ControlFrameType.sync_done = inl refl
is_sync_done ControlFrameType.hello = inr (λ e. cc)
is_sync_done t = inr (λ e. cc)

sync_done-attempt :
    (t : ControlFrameType) (p : Json) (s : Transport)
    → t ≡ ControlFrameType.sync_done
    → (handle_control_frame t p s).attempt ≡ 0
unfolding handle_control_frame
sync_done-attempt t p s e = rw e (ground (arith, core-set_status ready (record s { attempt = 0 })))

text-ready :
    (r : Result DecodedControlFrame) (s : Transport)
    → NotReady s
    → (handle_text r s).status ≡ ready
    → ((frame : DecodedControlFrame) × (r ≡ ok frame) × (frame.type ≡ ControlFrameType.sync_done))
      × ((handle_text r s).attempt ≡ 0)
unfolding handle_text
text-ready (err x) s h e = absurd (h e)
text-ready (ok frame) s h e = elim (is_sync_done frame.type) [
  | inl q ↦ ((frame, refl, q), sync_done-attempt frame.type frame.payload s q)
  | inr n ↦ absurd (handle_control_frame-NotReady frame.type frame.payload s h n e)
]

binary-status : (r : Result DataFrame) (s : Transport) → (handle_binary r s).status ≡ s.status
unfolding handle_binary
binary-status (err e) s = refl
binary-status (ok (client_ops f)) s = refl
binary-status (ok (sync_batch f)) s = refl

receive-ready :
    (m : Message) (s : Transport)
    → NotReady s
    → (handle_message m s).status ≡ ready
    → IsSyncDone (receives m) × ((handle_message m s).attempt ≡ 0)
unfolding handle_message
receive-ready (text_message json) s h e = text-ready (decode_control_frame json) s h e
receive-ready (binary_message bytes) s h e =
    absurd (h (sym (binary-status (decode_data_frame bytes) s) ∙ e))

-- The transport becomes READY in one way only: by a text message that decodes to a `sync_done`
-- frame, and then the count of failed attempts is back at 0. No other call, message, timer or
-- token answer takes a transport that is not READY to READY.
pub step-ready :
    (config : BackoffConfig) (s : Transport) (i : Input)
    → s.status ≢ ready
    → (step config s i).status ≡ ready
    → IsSyncDone i × ((step config s i).attempt ≡ 0)
unfolding step
step-ready config s (calls_connect c) h e = absurd (connect-NotReady config c s h e)
step-ready config s (calls_reconnect r) h e =
    absurd (unfold reconnect in ground (arith, schedule-NotReady config r (teardown_socket s)))
step-ready config s (calls_join p) h e = absurd (join_document-NotReady p s e)
step-ready config s (calls_sync cursor) h e = absurd (
    unfold request_sync in
    send-NotReady ControlFrameType.sync_request (obj (field "cursor" (str cursor) end)) none s h e)
step-ready config s (calls_fetch id) h e = absurd (
    unfold fetch_snapshot in
    send-NotReady ControlFrameType.fetch_snapshot (obj (field "snapshotId" (str id) end)) none s h
      e)
step-ready config s (calls_send_ops b ops) h e = absurd (unfold send_client_ops in ground arith)
step-ready config s (calls_presence p) h e = absurd (unfold send_presence in ground arith)
step-ready config s calls_close h e = absurd (
    unfold close in shut_down-NotReady (clear_backoff_timer (record s { closed_by_user = true })) e)
step-ready config s socket_opens h e = absurd (on_open-NotReady s h e)
step-ready config s (socket_closes r) h e = absurd (
    unfold handle_unclean_close in
    ground (arith, schedule-NotReady config r (record (teardown_socket s) { is_draining = false })))
step-ready config s (receives m) h e = elim (Bool-cases (has_socket s)) [
  | inl held ↦ simp held (receive-ready m s h (simp held at e))
  | inr lost ↦ absurd (h (simp lost at e))
]
step-ready config s (timer_fires c) h e = absurd (
    unfold timer_fired in
    ground (arith, connect-NotReady config c (record s { backoff_timer = none }) h))
step-ready config s (token_arrives t) h e = absurd (
    unfold token_ready in
    ground (
      arith,
      send-NotReady ControlFrameType.authenticate (obj (field "token" (str t) end)) none
          (record s { authenticate_in_flight = false }) h,
    ))
step-ready config s (token_fails r) h e = absurd (
    unfold token_failed in
    ground (
      arith,
      schedule-NotReady config r
          (tell (called (on_error "unauthorized")) (record s { authenticate_in_flight = false })),
    ))

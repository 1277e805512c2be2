-- ===== src/Transport/Invariant.antt =====
-- What holds after any history of the transport.
use concord_dev.Wire.{
  Result, Result, decode_data_frame, DataFrame, ok, err, client_ops, sync_batch, encode_client_ops,
}
use Prim.Native.String.{String}
use concord_dev.Control.Value.{Json}
use concord_dev.Transport.Backoff.{BackoffConfig}
use concord_dev.Control.{ControlFrameType, DecodedControlFrame, decode_control_frame}
use concord_dev.Transport.Run.{
  has_socket, has_timer, timer_fired, step, or_same, run, Input, calls_connect, calls_reconnect,
  calls_join, calls_sync, calls_fetch, calls_send_ops, calls_presence, socket_closes, receives,
  timer_fires, token_arrives, token_fails, calls_close, socket_opens,
}
use concord_dev.Transport.{
  fetch_snapshot, join_document, authenticated, Transport, ready, set_status, send,
  clear_backoff_timer, teardown_socket, schedule_reconnect, reconnecting, connect,
  handle_unclean_close, reconnect, token_failed, open_socket, Chance, connecting, on_open, close,
  handle_hello_ack, handle_error, handle_control_frame, handle_message, closed, called, Message,
  on_fatal, syncing, text_message, hello_payload, draining, on_error, binary_message, payload_text,
  handle_text, handle_binary, joining, send_client_ops, send_presence, correlation_id, request_sync,
  token_ready, tell, sent_bytes, socket_open,
}
use concord_dev.Base.{
  ℕ, ◌+◌, ◌<◌, ◌≡◌, ◌⊎◌, true, false, Option, none, some, arith, inr, refl, Option-cases, inl, ◌∷◌,
  List, Bool-cases, [],
}
use concord_dev.Transport.Core.{
  core, core-set_status, core-send, core-clear, core-teardown, core-schedule,
}

pub record Inv (s : Transport) : Type 0 where
  -- after a close, or a fatal error, there is no socket
  pub closed_empty : s.closed_by_user ≡ true → s.ws ≡ none
  -- the transport says READY only while it holds a socket
  pub ready_held : s.status ≡ ready → has_socket s ≡ true
  -- a transport that was started and not closed holds a socket or has a retry pending
  pub alive :
      s.closed_by_user ≡ false
      → 0 < s.sockets + s.attempt
      → (has_socket s ≡ true) ⊎ (has_timer s ≡ true)
  pub counted : has_socket s ≡ true → 0 < s.sockets

module _ (config : BackoffConfig) {s : Transport} (v : Inv s) where
  schedule-Inv :
      (random : ℕ) (t : Transport)
      → t.closed_by_user ≡ s.closed_by_user
      → t.sockets ≡ s.sockets
      → (t.ws ≡ none) ⊎ (t.ws ≡ s.ws)
      → Inv (schedule_reconnect config random t)
  schedule-Inv random t same count keep = ground (arith, core-schedule config random t)

  connect-Inv : (c : Chance) → Inv (connect config c s)
  unfolding connect open_socket
  connect-Inv c = ground (
    arith,
    core-set_status connecting s,
    core-set_status reconnecting s,
    core-schedule config c.random (set_status connecting s),
    core-schedule config c.random (set_status reconnecting s),
  )

  handle_unclean_close-Inv : (random : ℕ) → Inv (handle_unclean_close config random s)
  unfolding handle_unclean_close
  handle_unclean_close-Inv random = ground (
    arith,
    core-teardown s,
    core-schedule config random (record (teardown_socket s) { is_draining = false }),
  )

  reconnect-Inv : (random : ℕ) → Inv (reconnect config random s)
  unfolding reconnect
  reconnect-Inv random =
      ground (arith, core-teardown s, core-schedule config random (teardown_socket s))

  token_failed-Inv : (random : ℕ) → Inv (token_failed config random s)
  unfolding token_failed
  token_failed-Inv random = schedule-Inv random _ refl refl (inr refl)

-- A step that leaves the core as it is keeps the invariant.
core-Inv : (s t : Transport) → core t ≡ core s → Inv s → Inv t
core-Inv s t e v = ground arith

module _ {s : Transport} (v : Inv s) where
  send-Inv : (t : ControlFrameType) (p : Json) (id : Option String) → Inv (send t p id s)
  send-Inv t p id = core-Inv s _ (core-send t p id s) v

  on_open-Inv : Inv (on_open s)
  unfolding on_open
  on_open-Inv = elim (Option-cases s.ws) [
    | inl e ↦ rw (e, on_open) v
    | inr (w, e) ↦
        rw (e, on_open)
          (ground (
            arith,
            core-send ControlFrameType.hello hello_payload none
                (record s { ws = some (record w { is_open = true }) }),
          ))
  ]

  close-Inv : Inv (close s)
  unfolding close
  close-Inv = ground (
    arith,
    core-clear (record s { closed_by_user = true }),
    core-teardown (clear_backoff_timer (record s { closed_by_user = true })),
    core-set_status closed
        (teardown_socket (clear_backoff_timer (record s { closed_by_user = true }))),
  )

  handle_hello_ack-Inv : (p : Json) → Inv (handle_hello_ack p s)
  unfolding handle_hello_ack
  handle_hello_ack-Inv p =
      let t = record s {
        closed_by_user = true;
        log = called on_fatal ∷ called (on_error "unsupported_protocol_version") ∷ s.log;
      } in
      ground (arith, core-teardown t, core-set_status closed (teardown_socket t))

  handle_error-Inv : (p : Json) → Inv (handle_error p s)
  unfolding handle_error
  handle_error-Inv p =
      let t = record s {
        closed_by_user = true;
        log = called on_fatal ∷ called (on_error (payload_text "code" p)) ∷ s.log;
      } in
      ground (arith, core-teardown t, core-set_status closed (teardown_socket t))

  handle_control_frame-Inv :
      has_socket s ≡ true → (t : ControlFrameType) (p : Json) → Inv (handle_control_frame t p s)
  unfolding handle_control_frame
  handle_control_frame-Inv held ControlFrameType.hello_ack p = handle_hello_ack-Inv p
  handle_control_frame-Inv held ControlFrameType.error p = handle_error-Inv p
  handle_control_frame-Inv held ControlFrameType.ping p = send-Inv ControlFrameType.pong _ none
  handle_control_frame-Inv held ControlFrameType.authenticated p =
      ground (arith, core-set_status authenticated s)
  handle_control_frame-Inv held ControlFrameType.join_accepted p =
      ground (arith, core-set_status syncing s)
  handle_control_frame-Inv held ControlFrameType.sync_done p =
      ground (arith, core-set_status ready (record s { attempt = 0 }))
  handle_control_frame-Inv held ControlFrameType.server_draining p =
      ground (arith, core-set_status draining (record s { is_draining = true }))
  handle_control_frame-Inv held t p = core-Inv s _ refl v

  handle_text-Inv : has_socket s ≡ true → (r : Result DecodedControlFrame) → Inv (handle_text r s)
  unfolding handle_text
  handle_text-Inv held (ok frame) = handle_control_frame-Inv held frame.type frame.payload
  handle_text-Inv held (err e) = core-Inv s _ refl v

  handle_binary-Inv : (r : Result DataFrame) → Inv (handle_binary r s)
  unfolding handle_binary
  handle_binary-Inv (err e) = core-Inv s _ refl v
  handle_binary-Inv (ok (client_ops f)) = core-Inv s _ refl v
  handle_binary-Inv (ok (sync_batch f)) = core-Inv s _ refl v

  handle_message-Inv : has_socket s ≡ true → (m : Message) → Inv (handle_message m s)
  unfolding handle_message
  handle_message-Inv held (text_message json) = handle_text-Inv held (decode_control_frame json)
  handle_message-Inv held (binary_message bytes) = handle_binary-Inv (decode_data_frame bytes)

  join_document-Inv : (p : Json) → Inv (join_document p s)
  unfolding join_document
  join_document-Inv p = ground (
    arith,
    core-set_status joining s,
    core-send ControlFrameType.join_document p
        (some (correlation_id (set_status joining s).next_correlation))
        (record (set_status joining s) {
          next_correlation = (set_status joining s).next_correlation + 1;
        }),
  )

  send_client_ops-Inv : (b : ℕ) (ops : List (List ℕ)) → Inv (or_same s (send_client_ops b ops s))
  unfolding send_client_ops
  send_client_ops-Inv b ops = elim (Bool-cases (socket_open s.ws)) [
    | inl open_ ↦ rw (open_, send_client_ops) (sent (encode_client_ops _))
    | inr shut ↦ rw (shut, send_client_ops) v
  ]
    where
      sent :
          (r : Result (List ℕ))
          → Inv (or_same s (elim r [ err e ↦ none | ok bytes ↦ some (tell (sent_bytes bytes) s) ]))
      sent (err e) = v
      sent (ok bytes) = core-Inv s _ refl v

  send_presence-Inv : (p : Json) → Inv (send_presence p s)
  unfolding send_presence
  send_presence-Inv p = ground arith

module _ (config : BackoffConfig) where
  timer_fired-Inv : (s : Transport) (c : Chance) → Inv s → Inv (timer_fired config c s)
  unfolding timer_fired connect open_socket
  timer_fired-Inv s c v =
      let t = record s { backoff_timer = none } in
      ground (
        arith,
        core-set_status connecting t,
        core-set_status reconnecting t,
        core-schedule config c.random (set_status connecting t),
        core-schedule config c.random (set_status reconnecting t),
      )

  -- Every step keeps the invariant.
  step-Inv : (s : Transport) (i : Input) → Inv s → Inv (step config s i)
  unfolding step request_sync fetch_snapshot token_ready
  step-Inv s (calls_connect c) v = connect-Inv config v c
  step-Inv s (calls_reconnect r) v = reconnect-Inv config v r
  step-Inv s (calls_join p) v = join_document-Inv v p
  step-Inv s (calls_sync cursor) v = send-Inv v _ _ _
  step-Inv s (calls_fetch id) v = send-Inv v _ _ _
  step-Inv s (calls_send_ops b ops) v = send_client_ops-Inv v b ops
  step-Inv s (calls_presence p) v = send_presence-Inv v p
  step-Inv s calls_close v = close-Inv v
  step-Inv s socket_opens v = on_open-Inv v
  step-Inv s (socket_closes r) v = elim (Bool-cases (has_socket s)) [
    | inl h ↦ rw h (handle_unclean_close-Inv config v r)
    | inr h ↦ rw h v
  ]
  step-Inv s (receives m) v = elim (Bool-cases (has_socket s)) [
    | inl h ↦ rw h (handle_message-Inv v h m)
    | inr h ↦ rw h v
  ]
  step-Inv s (timer_fires c) v = elim (Bool-cases (has_timer s)) [
    | inl h ↦ rw h (timer_fired-Inv s c v)
    | inr h ↦ rw h v
  ]
  step-Inv s (token_arrives t) v = elim (Bool-cases s.authenticate_in_flight) [
    | inl h ↦
        simp h (send-Inv (core-Inv s (record s { authenticate_in_flight = false }) refl v) _ _ _)
    | inr h ↦ simp h v
  ]
  step-Inv s (token_fails r) v = elim (Bool-cases s.authenticate_in_flight) [
    | inl h ↦ simp h (token_failed-Inv config v r)
    | inr h ↦ simp h v
  ]

-- After any history of calls, messages, timer and socket events from the start: a closed transport
-- has no socket; the status is READY only while a socket is held; and a transport that was started
-- and not closed holds a socket or has a reconnect timer pending, so it never goes silent.
pub run-Inv :
    (config : BackoffConfig) (s : Transport) (is : List Input) → Inv s → Inv (run config s is)
unfolding run
run-Inv config s [] v = v
run-Inv config s (i ∷ is) v = run-Inv config (step config s i) is (step-Inv config s i v)

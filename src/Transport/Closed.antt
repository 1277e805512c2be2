-- ===== src/Transport/Closed.antt =====
-- A closed transport stays off the network.
use Prim.Native.String.{String}
use concord_dev.Control.Value.{Json, obj, field, str, end}
use concord_dev.Control.{ControlFrameType}
use concord_dev.Transport.Core.{core-set_status, core-clear}
use concord_dev.Transport.Backoff.{BackoffConfig, BackoffConfig}
use concord_dev.Base.{ℕ, suc, ◌+◌, ◌≡◌, refl, true, false, Option, none, some, List, [], ◌∷◌, arith}
use concord_dev.Transport.{
  join_document, fetch_snapshot, Effect, opened_socket, sent_frame, sent_bytes, called, Transport,
  set_status, send, teardown_socket, clear_backoff_timer, schedule_reconnect, ConnectionStatus,
  reconnecting, connect, reconnect, joining, correlation_id, request_sync, send_client_ops,
  send_presence, close, closed, on_open, token_ready, tell, on_error, token_failed,
}
use concord_dev.Transport.Run.{
  run, step, Input, calls_connect, calls_reconnect, calls_join, calls_sync, calls_fetch,
  calls_send_ops, calls_presence, socket_closes, receives, timer_fires, timer_fired, token_arrives,
  token_fails, calls_close, socket_opens,
}

-- The frames sent and the sockets opened, as far as the log tells.
abbrev pub traffic : List Effect → ℕ
traffic [] = 0
traffic (opened_socket n ∷ l) = suc (traffic l)
traffic (sent_frame f ∷ l) = suc (traffic l)
traffic (sent_bytes b ∷ l) = suc (traffic l)
traffic (_ ∷ l) = traffic l

pub record IsClosed (s t : Transport) : Type 0 where
  pub shut : t.closed_by_user ≡ true
  pub empty : t.ws ≡ none
  pub no_socket : t.sockets ≡ s.sockets
  pub no_traffic : traffic t.log ≡ traffic s.log

traffic-set_status :
    (next : ConnectionStatus) (s : Transport) → traffic (set_status next s).log ≡ traffic s.log
unfolding set_status
traffic-set_status next s = ground arith

send_closed :
    (t : ControlFrameType) (p : Json) (id : Option String) (s : Transport)
    → s.ws ≡ none
    → send t p id s ≡ s
unfolding send
send_closed t p id s e = rw e

teardown_closed : (s : Transport) → s.ws ≡ none → teardown_socket s ≡ s
unfolding teardown_socket
teardown_closed s e = ground arith

traffic-clear : (s : Transport) → traffic (clear_backoff_timer s).log ≡ traffic s.log
unfolding clear_backoff_timer
traffic-clear s = ground arith

schedule-IsClosed :
    (config : BackoffConfig) (random : ℕ) (s t : Transport)
    → IsClosed s t
    → IsClosed s (schedule_reconnect config random t)
unfolding schedule_reconnect
schedule-IsClosed config random s t h =
    let u = record t { attempt = t.attempt + 1 } in
    ground (
      arith,
      core-set_status reconnecting u,
      core-clear (set_status reconnecting u),
      traffic-set_status reconnecting u,
      traffic-clear (set_status reconnecting u),
    )

step-IsClosed :
    (config : BackoffConfig) (s t : Transport) (i : Input)
    → IsClosed s t
    → IsClosed s (step config t i)
unfolding step
step-IsClosed config s t (calls_connect c) h = unfold connect in ground arith
step-IsClosed config s t (calls_reconnect r) h = unfold reconnect in ground arith
step-IsClosed config s t (calls_join p) h =
    unfold join_document in
    ground (
      arith,
      core-set_status joining t,
      traffic-set_status joining t,
      send_closed ControlFrameType.join_document p
          (some (correlation_id (set_status joining t).next_correlation))
          (record (set_status joining t) {
            next_correlation = (set_status joining t).next_correlation + 1;
          }),
    )
step-IsClosed config s t (calls_sync cursor) h =
    unfold request_sync in rw (send_closed _ _ _ t h.empty) h
step-IsClosed config s t (calls_fetch id) h =
    unfold fetch_snapshot in rw (send_closed _ _ _ t h.empty) h
step-IsClosed config s t (calls_send_ops b ops) h = unfold send_client_ops in ground arith
step-IsClosed config s t (calls_presence p) h = unfold send_presence in ground arith
step-IsClosed config s t calls_close h =
    let u = record t { closed_by_user = true } in
    unfold close in
    ground (
      arith,
      core-clear u,
      traffic-clear u,
      teardown_closed (clear_backoff_timer u),
      core-set_status closed (clear_backoff_timer u),
      traffic-set_status closed (clear_backoff_timer u),
    )
step-IsClosed config s t socket_opens h = unfold on_open in ground arith
step-IsClosed config s t (socket_closes r) h = ground arith
step-IsClosed config s t (receives m) h = ground arith
step-IsClosed config s t (timer_fires c) h = unfold timer_fired connect in ground arith
step-IsClosed config s t (token_arrives k) h =
    unfold token_ready in
    ground (
      arith,
      send_closed ControlFrameType.authenticate (obj (field "token" (str k) end)) none
          (record t { authenticate_in_flight = false }),
    )
step-IsClosed config s t (token_fails r) h =
    let u = tell (called (on_error "unauthorized")) (record t { authenticate_in_flight = false }) in
    unfold token_failed in ground (arith, schedule-IsClosed config r s u)

run-IsClosed_from :
    (config : BackoffConfig) (s t : Transport) (is : List Input)
    → IsClosed s t
    → IsClosed s (run config t is)
unfolding run
run-IsClosed_from config s t [] h = h
run-IsClosed_from config s t (i ∷ is) h =
    run-IsClosed_from config s (step config t i) is (step-IsClosed config s t i h)

-- Once a transport is closed and holds no socket, no later history of calls, messages, timers or
-- token answers opens a socket or sends a frame, and it stays closed without a socket.
pub run-IsClosed :
    (config : BackoffConfig) (s : Transport) (is : List Input)
    → s.closed_by_user ≡ true
    → s.ws ≡ none
    → IsClosed s (run config s is)
run-IsClosed config s is e w =
    run-IsClosed_from config s s is
      (record { shut = e; empty = w; no_socket = refl; no_traffic = refl })

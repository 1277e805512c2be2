-- ===== src/Transport/Run.antt =====
-- The transport's calls and the events of its environment, one step for each, and whole histories.
use Prim.Native.String.{String}
use concord_dev.Transport.Backoff.{BackoffConfig}
use concord_dev.Control.Value.{Json}
use concord_dev.Base.{ℕ, Bool, true, false, Option, none, some, List, [], ◌∷◌, if◌then◌else◌}
use concord_dev.Transport.{
  join_document, fetch_snapshot, Transport, Chance, Message, connect, reconnect, request_sync,
  send_client_ops, send_presence, close, on_open, handle_unclean_close, handle_message, token_ready,
  token_failed,
}

pub data Input : Type 0 where
  -- calls of the session
  calls_connect : Chance → Input
  calls_reconnect : ℕ → Input
  calls_join : Json → Input
  calls_sync calls_fetch : String → Input
  calls_send_ops : ℕ → List (List ℕ) → Input
  calls_presence : Json → Input
  calls_close : Input
  -- events of the socket, of the timer and of the token promise
  socket_opens : Input
  socket_closes : ℕ → Input
  receives : Message → Input
  timer_fires : Chance → Input
  token_arrives : String → Input
  token_fails : ℕ → Input

-- A method that throws has changed nothing.
abbrev pub or_same : Transport → Option Transport → Transport
or_same s none = s
or_same s (some t) = t

-- Handlers of a socket run only while the transport holds it, the timer only while one is set, and
-- the token's continuations only while a request is in flight.
abbrev pub has_socket : Transport → Bool
has_socket s = elim s.ws [ none ↦ false | some w ↦ true ]

abbrev pub has_timer : Transport → Bool
has_timer s = elim s.backoff_timer [ none ↦ false | some d ↦ true ]

module _ (config : BackoffConfig) where
  -- The timer's callback.
  unfoldable pub timer_fired : Chance → Transport → Transport
  timer_fired c s = connect config c (record s { backoff_timer = none })

  unfoldable pub step : Transport → Input → Transport
  step s (calls_connect c) = connect config c s
  step s (calls_reconnect r) = reconnect config r s
  step s (calls_join p) = join_document p s
  step s (calls_sync cursor) = request_sync cursor s
  step s (calls_fetch id) = fetch_snapshot id s
  step s (calls_send_ops b ops) = or_same s (send_client_ops b ops s)
  step s (calls_presence p) = send_presence p s
  step s calls_close = close s
  step s socket_opens = on_open s
  step s (socket_closes r) = if has_socket s then handle_unclean_close config r s else s
  step s (receives m) = if has_socket s then handle_message m s else s
  step s (timer_fires c) = if has_timer s then timer_fired c s else s
  step s (token_arrives t) = if s.authenticate_in_flight then token_ready t s else s
  step s (token_fails r) = if s.authenticate_in_flight then token_failed config r s else s

  unfoldable pub run : Transport → List Input → Transport
  run s [] = s
  run s (i ∷ is) = run (step s i) is

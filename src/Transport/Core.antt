-- ===== src/Transport/Core.antt =====
-- What each helper of the transport changes, leaving out the log.
use Prim.Native.String.{String}
use concord_dev.Control.Value.{Json}
use concord_dev.Transport.Backoff.{BackoffConfig, compute_backoff_delay}
use concord_dev.Control.{ControlFrameType}
use concord_dev.Transport.{
  Transport, ConnectionStatus, Socket, set_status, send, clear_backoff_timer, teardown_socket,
  schedule_reconnect, same_status, reconnecting,
}
use concord_dev.Base.{ℕ, ◌+◌, ◌≡◌, Bool, true, Option, none, some, arith}

same_status-eq : (a b : ConnectionStatus) → same_status a b ≡ true → a ≡ b
same_status-eq ConnectionStatus.disconnected b e = ground arith
same_status-eq a b e = ground arith

-- The state without the log: what the invariant is about.
pub record Core : Type 0 where
  pub ws : Option Socket
  pub status : ConnectionStatus
  pub attempt : ℕ
  pub timer : Option ℕ
  pub shut : Bool
  pub sockets : ℕ

abbrev pub core : Transport → Core
core s = record {
  ws = s.ws;
  status = s.status;
  attempt = s.attempt;
  timer = s.backoff_timer;
  shut = s.closed_by_user;
  sockets = s.sockets;
}

pub core-set_status :
    (next : ConnectionStatus) (s : Transport)
    → core (set_status next s) ≡ record (core s) { status = next }
unfolding set_status
core-set_status next s = ground (arith, same_status-eq s.status next)

pub core-send :
    (t : ControlFrameType) (p : Json) (id : Option String) (s : Transport)
    → core (send t p id s) ≡ core s
unfolding send
core-send t p id s = ground arith

pub core-clear : (s : Transport) → core (clear_backoff_timer s) ≡ record (core s) { timer = none }
unfolding clear_backoff_timer
core-clear s = ground arith

pub core-teardown : (s : Transport) → core (teardown_socket s) ≡ record (core s) { ws = none }
unfolding teardown_socket
core-teardown s = ground arith

pub core-schedule :
    (config : BackoffConfig) (random : ℕ) (s : Transport)
    → core (schedule_reconnect config random s) ≡ record (core s) {
      status = reconnecting;
      attempt = s.attempt + 1;
      timer = some (compute_backoff_delay s.attempt config random);
    }
unfolding schedule_reconnect
core-schedule config random s = ground (
  arith,
  core-set_status reconnecting (record s { attempt = s.attempt + 1 }),
  core-clear (set_status reconnecting (record s { attempt = s.attempt + 1 })),
)

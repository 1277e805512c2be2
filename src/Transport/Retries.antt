-- ===== src/Transport/Retries.antt =====
-- The delays of the retries, and retries that do nothing.
use concord_dev.Transport.Core.{core-schedule}
use concord_dev.Transport.Run.{step, step, timer_fired, token_fails, has_timer, timer_fires}
use concord_dev.Transport.Backoff.{BackoffConfig}
use concord_dev.Base.{ℕ, ◌≡◌, true, false, none, some, arith}
use concord_dev.Transport.{
  reconnecting, tell, called, on_error, token_failed, Transport, connect, Socket, Chance,
}

-- A failed token request leaves a live socket with a retry that does nothing: the timer fires, the
-- old socket is still there, no new one is made, no timer is left, and the status stays
-- `reconnecting`.
pub token_failure_strands :
    (config : BackoffConfig) (s : Transport) (w : Socket) (random : ℕ) (c : Chance)
    → s.ws ≡ some w
    → s.authenticate_in_flight ≡ true
    → let t = step config (step config s (token_fails random)) (timer_fires c) in
      (t.ws ≡ some w)
      × (t.backoff_timer ≡ none)
      × (t.sockets ≡ s.sockets)
      × (t.status ≡ reconnecting)
unfolding step token_failed timer_fired connect
token_failure_strands config s w random c live flight = ground (
  arith,
  core-schedule config random
      (tell (called (on_error "unauthorized")) (record s { authenticate_in_flight = false })),
)

-- A token request that fails after a close takes the status from `closed` back to `reconnecting`,
-- and sets a timer.
pub token_failure_reopens :
    (config : BackoffConfig) (s : Transport) (random : ℕ)
    → s.closed_by_user ≡ true
    → s.authenticate_in_flight ≡ true
    → let t = step config s (token_fails random) in
      (t.status ≡ reconnecting) × (has_timer t ≡ true) × (t.closed_by_user ≡ true)
unfolding step token_failed
token_failure_reopens config s random shut flight = ground (
  arith,
  core-schedule config random
      (tell (called (on_error "unauthorized")) (record s { authenticate_in_flight = false })),
)

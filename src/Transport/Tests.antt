-- ===== src/Transport/Tests.antt =====
-- Runs of the transport, and its theorems at concrete states.
use concord_dev.Control.{
  decode_control_frame, decode_envelope, decode_type, decode_id, decode_payload, find_type,
  all_included, validate_payload, is_strict, payload_shape, check_fields, check_extra,
}
use concord_dev.Transport.Retries.{token_failure_reopens, token_failure_strands}
use concord_dev.Transport.Backoff.{
  default_backoff, default_backoff, compute_backoff_delay, compute_backoff_delay,
}
use concord_dev.Transport.Ready.{IsSyncDone, step-ready}
use concord_dev.Transport.Closed.{IsClosed, run-IsClosed}
use concord_dev.Transport.Invariant.{Inv, Inv, run-Inv}
use concord_dev.Base.{◌^◌, ◌≡◌, refl, true, none, some, [], ◌∷◌, arith}
use concord_dev.Transport.{
  ready, reconnecting, closed, init, Transport, text_message, Chance, syncing, connect,
  handle_message, open_socket, handle_text, set_status, handle_control_frame, connecting,
}
use concord_dev.Transport.Run.{
  step, run, calls_connect, token_fails, receives, socket_opens, timer_fires, socket_closes,
}
use concord_dev.Control.Value.{Json, field, end, str, obj, num, uint, is_in, lookup}

abbrev lucky : Chance
lucky = record { random = 0; constructs = true }

abbrev done_json : Json
done_json =
    obj (field "v" (num (uint 1)) (field "type" (str "sync_done") (field "payload" (obj end) end)))

abbrev live : Transport
live = record init {
  ws = some (record { serial = 0; is_open = true });
  sockets = 1;
  status = syncing;
  attempt = 3;
  authenticate_in_flight = true;
}

abbrev shut : Transport
shut = record init { closed_by_user = true; status = closed; authenticate_in_flight = true }

init-Inv : Inv init
init-Inv = record {
  closed_empty = λ e. refl;
  ready_held = λ e. cc;
  alive = λ e h. absurd (omega arith);
  counted = λ e. cc;
}

first_connect : (step default_backoff init (calls_connect lucky)).status ≡ connecting
unfolding step connect open_socket set_status
first_connect = refl

done_makes_ready :
    (step default_backoff live (receives (text_message (some done_json)))).status ≡ ready
unfolding step handle_message handle_text handle_control_frame set_status decode_control_frame
    decode_envelope decode_type decode_id decode_payload find_type all_included validate_payload
    is_strict payload_shape check_fields check_extra is_in lookup
done_makes_ready = refl

third_delay : compute_backoff_delay 3 default_backoff (2 ^ 52) ≡ 1125
unfolding compute_backoff_delay
third_delay = refl

run-Inv_example :
    Inv (run default_backoff init (calls_connect lucky ∷ socket_opens ∷ socket_closes 0 ∷ []))
run-Inv_example = run-Inv default_backoff init _ init-Inv

run-IsClosed_example :
    IsClosed shut (run default_backoff shut (token_fails 0 ∷ timer_fires lucky ∷ []))
run-IsClosed_example = run-IsClosed default_backoff shut _ refl refl

step-ready_example :
    IsSyncDone (receives (text_message (some done_json)))
    × ((step default_backoff live (receives (text_message (some done_json)))).attempt ≡ 0)
step-ready_example =
    step-ready default_backoff live (receives (text_message (some done_json))) (λ e. cc)
      done_makes_ready

token_failure_strands_example :
    (step default_backoff
      (step default_backoff live (token_fails 0))
      (timer_fires lucky)).backoff_timer
    ≡ none
token_failure_strands_example =
    (token_failure_strands default_backoff live (record { serial = 0; is_open = true }) 0 lucky refl
      refl).1

token_failure_reopens_example : (step default_backoff shut (token_fails 0)).status ≡ reconnecting
token_failure_reopens_example = (token_failure_reopens default_backoff shut 0 refl refl).0

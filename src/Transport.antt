-- ===== src/Transport.antt =====
-- src/lib/sync/transport.ts: the WebSocket transport as a state machine. The log holds what the
-- class does to the outside, newest first: frames sent, sockets and timers, callbacks made.
pub mod Backoff
pub mod Run
pub mod Core
pub mod Invariant
pub mod Closed
pub mod Ready
pub mod Retries
mod Tests
use concord_dev.Base.Decimal.{print}
use concord_dev.Base.{
  ℕ, zero, suc, ◌+◌, ◌*◌, ◌-◌, ◌^◌, ◌≤◌, ◌<◌, ◌≡◌, ◌≢◌, ◌↔◌, ◌⊎◌, inl, inr, refl, sym, ap, ◌∙◌,
  Bool, true, false, not, ◌&&◌, ◌||◌, Option, none, some, List, [], ◌∷◌, ◌++◌, arith, ltb, leb,
  length, if◌then◌else◌, Bool-cases, Option-cases, ◌==◌,
}
use Prim.Native.String.{String}
use text.Mathlib.Text.{◌==◌ as str_eq}
use Prim.Native.String
use concord_dev.Control.{DecodedControlFrame, ControlFrameType, decode_control_frame}
use concord_dev.Control.Value.{
  Json, Number, Items, Fields, obj, field, end, str, num, arr, uint, item, nil, entries, lookup,
  to_list,
}
use concord_dev.Wire.{
  Result, ok, err, DataFrame, client_ops, sync_batch, decode_data_frame, encode_client_ops, number,
}
use Backoff.{BackoffConfig, compute_backoff_delay}

pub data ConnectionStatus : Type 0 where
  disconnected connecting authenticated joining syncing : ConnectionStatus
  ready reconnecting draining closed : ConnectionStatus

-- Each callback of `TransportEvents`, with its arguments. A payload is passed on as it was decoded.
pub data Event : Type 0 where
  on_status : ConnectionStatus → Event
  on_durable_ack : Json → Event
  on_authenticated on_join_accepted on_sync_done : Event
  on_peer_ops : List (List ℕ) → Event
  on_sync_batch : List (List ℕ) → ℕ → Bool → Event
  on_snapshot_resync_required on_snapshot_payload : Json → Event
  on_error : String → Event
  on_draining : Json → Event
  on_fatal : Event
  on_presence_update on_presence_leave : Json → Event

pub data Effect : Type 0 where
  opened_socket closed_socket : ℕ → Effect
  sent_frame : DecodedControlFrame → Effect
  sent_bytes : List ℕ → Effect
  set_timer : ℕ → Effect
  cleared_timer asked_token : Effect
  called : Event → Effect

-- A socket that the transport holds, with its handlers. A socket that is torn down has none.
pub record Socket : Type 0 where
  pub serial : ℕ
  pub is_open : Bool

pub record Transport : Type 0 where
  pub ws : Option Socket
  pub status : ConnectionStatus
  pub attempt : ℕ
  pub backoff_timer : Option ℕ
  pub closed_by_user : Bool
  pub next_correlation : ℕ
  pub is_draining : Bool
  pub authenticate_in_flight : Bool
  -- how many sockets were made
  pub sockets : ℕ
  pub log : List Effect

abbrev pub init : Transport
init = record {
  ws = none;
  status = disconnected;
  attempt = 0;
  backoff_timer = none;
  closed_by_user = false;
  next_correlation = 1;
  is_draining = false;
  authenticate_in_flight = false;
  sockets = 0;
  log = [];
}

abbrev pub tell : Effect → Transport → Transport
tell e s = record s { log = e ∷ s.log }

abbrev pub same_status : ConnectionStatus → ConnectionStatus → Bool
same_status disconnected disconnected = true
same_status connecting connecting = true
same_status authenticated authenticated = true
same_status joining joining = true
same_status syncing syncing = true
same_status ready ready = true
same_status reconnecting reconnecting = true
same_status draining draining = true
same_status closed closed = true
same_status _ _ = false

unfoldable pub set_status : ConnectionStatus → Transport → Transport
set_status next s =
    if same_status s.status next
    then s
    else record s { status = next; log = called (on_status next) ∷ s.log }

abbrev pub socket_open : Option Socket → Bool
socket_open none = false
socket_open (some w) = w.is_open

unfoldable pub send : ControlFrameType → Json → Option String → Transport → Transport
send type payload id s =
    if socket_open s.ws
    then tell (sent_frame (record { id = id; type = type; payload = payload })) s
    else s

unfoldable pub clear_backoff_timer : Transport → Transport
clear_backoff_timer s = elim s.backoff_timer [
  | none ↦ s
  | some delay ↦ record s { backoff_timer = none; log = cleared_timer ∷ s.log }
]

unfoldable pub teardown_socket : Transport → Transport
teardown_socket s = elim s.ws [
  | none ↦ s
  | some w ↦ record s { ws = none; log = closed_socket w.serial ∷ s.log }
]

abbrev pub rich_text_capability : String
rich_text_capability = "rich-text-v2"

abbrev pub hello_payload : Json
hello_payload = obj (
    field "clientProtocolVersion" (num (uint 1))
      (field "capabilities" (arr (item (str rich_text_capability) nil)) end))

abbrev pub is_string_value : String → Json → Bool
is_string_value s (str t) = str_eq t s
is_string_value s _ = false

unfoldable pub any_value : String → List Json → Bool
any_value s [] = false
any_value s (v ∷ vs) = is_string_value s v || any_value s vs

abbrev pub array_includes : String → Option Json → Bool
array_includes s (some (arr vs)) = any_value s (to_list vs)
array_includes s _ = false

-- `payload.key`
abbrev pub payload_field : String → Json → Option Json
payload_field key (obj fs) = lookup key (entries fs)
payload_field key _ = none

abbrev pub payload_text : String → Json → String
payload_text key payload = elim (payload_field key payload) [ some (str s) ↦ s | _ ↦ "" ]

-- FATAL_ERROR_CODES
unfoldable pub is_fatal : String → Bool
is_fatal code =
    str_eq code "unauthorized"
    || str_eq code "unsupported_protocol_version"
    || str_eq code "payload_too_large"

-- What the outside chooses at a call: the value of `Math.random()`, and if `new WebSocket` throws.
pub record Chance : Type 0 where
  pub random : ℕ
  pub constructs : Bool

pub data Message : Type 0 where
  -- `none` where the text is no JSON
  text_message : Option Json → Message
  binary_message : List ℕ → Message

module _ (config : BackoffConfig) where
  unfoldable pub schedule_reconnect : ℕ → Transport → Transport
  schedule_reconnect random s =
      let delay = compute_backoff_delay s.attempt config random in
      let t =
        clear_backoff_timer (set_status reconnecting (record s { attempt = s.attempt + 1 })) in
      record t { backoff_timer = some delay; log = set_timer delay ∷ t.log }

  -- From `new WebSocket` on.
  unfoldable pub open_socket : Chance → Transport → Transport
  open_socket c s =
      if c.constructs
      then record s {
        ws = some (record { serial = s.sockets; is_open = false });
        sockets = s.sockets + 1;
        log = opened_socket s.sockets ∷ s.log;
      }
      else schedule_reconnect c.random s

  unfoldable pub connect : Chance → Transport → Transport
  connect c s = elim s.ws [
    | some w ↦ s
    | none ↦
        if s.closed_by_user
        then s
        else open_socket c
            (set_status (elim s.attempt [ zero ↦ connecting | suc n ↦ reconnecting ]) s)
  ]

  unfoldable pub handle_unclean_close : ℕ → Transport → Transport
  handle_unclean_close random s =
      if s.closed_by_user
      then s
      else schedule_reconnect random (record (teardown_socket s) { is_draining = false })

  unfoldable pub reconnect : ℕ → Transport → Transport
  reconnect random s = if s.closed_by_user then s else schedule_reconnect random (teardown_socket s)

  -- The rejection of `getToken()`.
  unfoldable pub token_failed : ℕ → Transport → Transport
  token_failed random s =
      schedule_reconnect random
        (tell (called (on_error "unauthorized")) (record s { authenticate_in_flight = false }))

-- The value of `getToken()`.
unfoldable pub token_ready : String → Transport → Transport
token_ready token s =
    send ControlFrameType.authenticate (obj (field "token" (str token) end)) none
      (record s { authenticate_in_flight = false })

unfoldable pub on_open : Transport → Transport
on_open s = elim s.ws [
  | none ↦ s
  | some w ↦
      send ControlFrameType.hello hello_payload none
        (record s { ws = some (record w { is_open = true }) })
]

unfoldable pub handle_hello_ack : Json → Transport → Transport
handle_hello_ack payload s =
    if not (array_includes rich_text_capability (payload_field "capabilities" payload))
    then set_status closed (
        teardown_socket (record s {
          closed_by_user = true;
          log = called on_fatal ∷ called (on_error "unsupported_protocol_version") ∷ s.log;
        }))
    else if s.authenticate_in_flight
    then s
    else record s { authenticate_in_flight = true; log = asked_token ∷ s.log }

unfoldable pub handle_error : Json → Transport → Transport
handle_error payload s =
    let code = payload_text "code" payload in
    let told = tell (called (on_error code)) s in
    if is_fatal code
    then set_status closed
        (teardown_socket (record told { closed_by_user = true; log = called on_fatal ∷ told.log }))
    else told

unfoldable pub handle_control_frame : ControlFrameType → Json → Transport → Transport
handle_control_frame ControlFrameType.hello_ack p s = handle_hello_ack p s
handle_control_frame ControlFrameType.authenticated p s =
    tell (called on_authenticated) (set_status authenticated s)
handle_control_frame ControlFrameType.join_accepted p s =
    tell (called on_join_accepted) (set_status syncing s)
handle_control_frame ControlFrameType.sync_done p s =
    tell (called on_sync_done) (set_status ready (record s { attempt = 0 }))
handle_control_frame ControlFrameType.snapshot_resync_required p s =
    tell (called (on_snapshot_resync_required p)) s
handle_control_frame ControlFrameType.snapshot_payload p s = tell (called (on_snapshot_payload p)) s
handle_control_frame ControlFrameType.durable_ack p s = tell (called (on_durable_ack p)) s
handle_control_frame ControlFrameType.error p s = handle_error p s
handle_control_frame ControlFrameType.server_draining p s =
    tell (called (on_draining p)) (set_status draining (record s { is_draining = true }))
handle_control_frame ControlFrameType.ping p s =
    send ControlFrameType.pong (obj (field "nonce" (str (payload_text "nonce" p)) end)) none s
handle_control_frame ControlFrameType.presence_update p s = tell (called (on_presence_update p)) s
handle_control_frame ControlFrameType.presence_leave p s = tell (called (on_presence_leave p)) s
handle_control_frame _ p s = s

-- The two branches of `handleMessage`, from the decoder's answer on.
unfoldable pub handle_text : Result DecodedControlFrame → Transport → Transport
handle_text (err e) s = tell (called (on_error "malformed_frame")) s
handle_text (ok frame) s = handle_control_frame frame.type frame.payload s

unfoldable pub handle_binary : Result DataFrame → Transport → Transport
handle_binary (err e) s = tell (called (on_error "malformed_frame")) s
handle_binary (ok (client_ops f)) s = tell (called (on_peer_ops f.ops)) s
handle_binary (ok (sync_batch f)) s = tell (called (on_sync_batch f.ops f.next_cursor f.has_more)) s

unfoldable pub handle_message : Message → Transport → Transport
handle_message (text_message json) s = handle_text (decode_control_frame json) s
handle_message (binary_message bytes) s = handle_binary (decode_data_frame bytes) s

abbrev pub digit_text : ℕ → String
digit_text c =
    if c == b'0'
    then "0"
    else if c == b'1'
    then "1"
    else if c == b'2'
    then "2"
    else if c == b'3'
    then "3"
    else if c == b'4'
    then "4"
    else if c == b'5'
    then "5"
    else if c == b'6'
    then "6"
    else if c == b'7'
    then "7"
    else if c == b'8'
    then "8"
    else "9"

unfoldable pub digits_text : List ℕ → String
digits_text [] = ""
digits_text (c ∷ cs) = String.◌++◌ (digit_text c) (digits_text cs)

-- `j${n}`
unfoldable pub correlation_id : ℕ → String
unfolding digits_text
correlation_id n = String.◌++◌ "j" (digits_text (print n))

-- The document and the state summary are given as the payload that is made of them.
unfoldable pub join_document : Json → Transport → Transport
join_document payload s =
    let t = set_status joining s in
    send ControlFrameType.join_document payload (some (correlation_id t.next_correlation))
      (record t { next_correlation = t.next_correlation + 1 })

unfoldable pub request_sync : String → Transport → Transport
request_sync cursor s =
    send ControlFrameType.sync_request (obj (field "cursor" (str cursor) end)) none s

unfoldable pub fetch_snapshot : String → Transport → Transport
fetch_snapshot id s =
    send ControlFrameType.fetch_snapshot (obj (field "snapshotId" (str id) end)) none s

-- `none` where the method throws.
unfoldable pub send_client_ops : ℕ → List (List ℕ) → Transport → Option Transport
send_client_ops batch_id ops s =
    if not (socket_open s.ws)
    then none
    else elim (encode_client_ops (record { batch_id = number batch_id; ops = ops })) [
      | err e ↦ none
      | ok bytes ↦ some (tell (sent_bytes bytes) s)
    ]

unfoldable pub send_presence : Json → Transport → Transport
send_presence state s =
    if not (same_status s.status ready) || not (socket_open s.ws)
    then s
    else tell (sent_frame (record { id = none; type = ControlFrameType.presence; payload = state }))
        s

unfoldable pub close : Transport → Transport
close s =
    set_status closed (teardown_socket (clear_backoff_timer (record s { closed_by_user = true })))

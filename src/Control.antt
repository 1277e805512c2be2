-- ===== src/Control.antt =====
-- src/lib/sync/protocol.ts, the control codec: the shape validators, `decodeControlFrame` on what
-- `JSON.parse` gave, and the envelope that `encodeControlFrame` hands to `JSON.stringify`.
pub mod Value
pub mod Shape
pub mod RoundTrip
mod Tests
use Prim.Native.Char.{code}
use Prim.Native.String.{String}
use text.Mathlib.Text.{◌==◌ as str_eq}
use concord_dev.Base.{
  ℕ, ◌+◌, ◌*◌, Bool, true, false, not, ◌&&◌, ◌||◌, Option, none, some, List, [], ◌∷◌, ltb, ◌==◌,
  if◌then◌else◌,
}
use concord_dev.Wire.{
  Result, ok, err, invalid_json, bad_envelope, unsupported_version, unknown_frame_type, bad_payload,
  wire_version,
}
use Value.{
  Json, Number, Fields, Items, null, bool, num, str, arr, obj, uint, other, end, field, nil, item,
  to_list, entries, includes, lookup, is_in, keys,
}

abbrev pub max_token_bytes : ℕ
max_token_bytes = 32 * 1024

-- Why a payload is refused.
pub data Reason : Type 0 where
  expected_string expected_uint expected_enum expected_array expected_object : Reason
  missing_field unexpected_field : String → Reason
  in_field : String → Reason → Reason

abbrev pub Check : Type 0
Check = Json → Option Reason

abbrev pub is_string : Check
is_string (str s) = none
is_string _ = some expected_string

abbrev pub is_uint : Check
is_uint (num (uint n)) = none
is_uint _ = some expected_uint

abbrev pub is_enum : List String → Check
is_enum values (str s) = if includes values s then none else some expected_enum
is_enum values _ = some expected_enum

-- The loop of `arrayOf`.
unfoldable pub check_items : Check → List Json → Option Reason
check_items check [] = none
check_items check (v ∷ vs) = elim (check v) [ none ↦ check_items check vs | some e ↦ some e ]

abbrev pub array_of : Check → Check
array_of check (arr vs) = check_items check (to_list vs)
array_of check _ = some expected_array

-- A check of one field; `optional` marks a field that may be absent.
pub record FieldCheck : Type 0 where
  pub is_optional : Bool
  pub check : Check

abbrev pub required : Check → FieldCheck
required check = record { is_optional = false; check = check }

abbrev pub optional : Check → FieldCheck
optional check = record { is_optional = true; check = check }

abbrev pub Shape : Type 0
Shape = List (String × FieldCheck)

abbrev pub named : String → Option Reason → Option Reason
named key none = none
named key (some e) = some (in_field key e)

-- `obj[key]` where `key in obj` holds: an own value, or an inherited one, which is a function or
-- an object with no own keys and passes no check of a shape.
abbrev pub check_value : FieldCheck → String → Option Json → Option Reason
check_value f key (some v) = named key (f.check v)
check_value f key none = named key (f.check null)

-- The first loop of `isStrict`, over the keys of the shape.
unfoldable pub check_fields : Shape → List (String × Json) → Option Reason
check_fields [] given = none
check_fields ((key, f) ∷ shape) given =
    let rest = check_fields shape given in
    if not (is_in key given)
    then (if f.is_optional then rest else some (missing_field key))
    else elim (check_value f key (lookup key given)) [ none ↦ rest | some e ↦ some e ]

-- The second loop, over the keys of the object.
unfoldable pub check_extra : Shape → List String → Option Reason
check_extra shape [] = none
check_extra shape (key ∷ given) =
    if is_in key shape then check_extra shape given else some (unexpected_field key)

unfoldable pub is_strict : Shape → Check
is_strict shape (obj fs) = elim (check_fields shape (entries fs)) [
  | none ↦ check_extra shape (keys (entries fs))
  | some e ↦ some e
]
is_strict shape _ = some expected_object

pub data ControlFrameType : Type 0 where
  hello hello_ack authenticate authenticated join_document join_accepted : ControlFrameType
  sync_request sync_done durable_ack ping pong fetch_snapshot : ControlFrameType
  snapshot_resync_required snapshot_payload error server_draining : ControlFrameType
  presence presence_update presence_leave : ControlFrameType

abbrev pub type_name : ControlFrameType → String
type_name hello = "hello"
type_name hello_ack = "hello_ack"
type_name authenticate = "authenticate"
type_name authenticated = "authenticated"
type_name join_document = "join_document"
type_name join_accepted = "join_accepted"
type_name sync_request = "sync_request"
type_name sync_done = "sync_done"
type_name durable_ack = "durable_ack"
type_name ping = "ping"
type_name pong = "pong"
type_name fetch_snapshot = "fetch_snapshot"
type_name snapshot_resync_required = "snapshot_resync_required"
type_name snapshot_payload = "snapshot_payload"
type_name error = "error"
type_name server_draining = "server_draining"
type_name presence = "presence"
type_name presence_update = "presence_update"
type_name presence_leave = "presence_leave"

abbrev pub control_frame_types : List ControlFrameType
control_frame_types =
    hello ∷ hello_ack ∷ authenticate ∷ authenticated ∷ join_document ∷ join_accepted ∷ sync_request
    ∷ sync_done ∷ durable_ack ∷ ping ∷ pong ∷ fetch_snapshot ∷ snapshot_resync_required
    ∷ snapshot_payload ∷ error ∷ server_draining ∷ presence ∷ presence_update ∷ presence_leave ∷ []

-- `CONTROL_FRAME_TYPES.includes(type)`, with the type that is found.
unfoldable pub find_type : List ControlFrameType → String → Option ControlFrameType
find_type [] name = none
find_type (t ∷ ts) name = if str_eq (type_name t) name then some t else find_type ts name

abbrev pub role_names : List String
role_names = "owner" ∷ "editor" ∷ "commenter" ∷ "viewer" ∷ []

abbrev pub side_names : List String
side_names = "before" ∷ "after" ∷ []

abbrev pub error_codes : List String
error_codes =
    "unauthorized" ∷ "forbidden" ∷ "unsupported_protocol_version" ∷ "unknown_frame_type"
    ∷ "invalid_state" ∷ "malformed_frame" ∷ "payload_too_large" ∷ "rate_limited"
    ∷ "database_unavailable" ∷ "server_draining" ∷ "internal_error" ∷ []

abbrev pub strings : List String → Shape
strings [] = []
strings (k ∷ ks) = (k, required is_string) ∷ strings ks

abbrev pub summary_entry : Shape
summary_entry = strings ("replicaId" ∷ "sequence" ∷ [])

abbrev pub caret : Shape
caret =
    ("anchorItem", optional is_string)
    ∷ ("anchorSide", required (is_enum side_names))
    ∷ ("headItem", optional is_string)
    ∷ ("headSide", required (is_enum side_names))
    ∷ []

-- PAYLOAD_VALIDATORS
unfoldable pub payload_shape : ControlFrameType → Shape
payload_shape hello =
    ("clientProtocolVersion", required is_uint)
    ∷ ("capabilities", optional (array_of is_string))
    ∷ []
payload_shape hello_ack =
    ("protocolVersion", required is_uint)
    ∷ ("connectionId", required is_string)
    ∷ ("capabilities", optional (array_of is_string))
    ∷ []
payload_shape authenticate = strings ("token" ∷ [])
payload_shape authenticated =
    ("userId", required is_string)
    ∷ ("clerkUserId", required is_string)
    ∷ ("orgId", optional is_string)
    ∷ []
payload_shape join_document =
    ("documentId", required is_string)
    ∷ ("stateSummary", required (array_of (is_strict summary_entry)))
    ∷ []
payload_shape join_accepted =
    ("documentId", required is_string)
    ∷ ("role", required (is_enum role_names))
    ∷ ("durableCursor", required is_string)
    ∷ []
payload_shape sync_request = strings ("cursor" ∷ [])
payload_shape sync_done = []
payload_shape durable_ack =
    ("batchId", required is_string) ∷ ("opIds", required (array_of is_string)) ∷ []
payload_shape ping = strings ("nonce" ∷ [])
payload_shape pong = strings ("nonce" ∷ [])
payload_shape fetch_snapshot = strings ("snapshotId" ∷ [])
payload_shape snapshot_resync_required = strings (
    "boundary" ∷ "snapshotId" ∷ "snapshotChecksum" ∷ "snapshotFormatVersion" ∷ "coverageOpCount"
    ∷ [])
payload_shape snapshot_payload = strings (
    "snapshotId" ∷ "formatVersion" ∷ "coverageSeq" ∷ "coveredOpCount" ∷ "stateDigest" ∷ "checksum"
    ∷ "payloadBase64" ∷ "payloadSize" ∷ [])
payload_shape error =
    ("code", required (is_enum error_codes))
    ∷ ("message", required is_string)
    ∷ ("requestId", optional is_string)
    ∷ []
payload_shape server_draining = ("reason", required is_string) ∷ ("graceMs", required is_uint) ∷ []
payload_shape presence = ("replicaId", required is_string) ∷ caret
payload_shape presence_update =
    ("connectionId", required is_string)
    ∷ ("userId", required is_string)
    ∷ ("replicaId", required is_string)
    ∷ caret
payload_shape presence_leave = strings ("connectionId" ∷ [])

unfoldable pub validate_payload : ControlFrameType → Check
validate_payload t = is_strict (payload_shape t)

-- `text.length`: the code units of UTF-16.
abbrev pub code_units : String → ℕ
code_units String.[] = 0
code_units (String.◌∷◌ c s) = (if ltb 0xffff (code c) then 2 else 1) + code_units s

pub record DecodedControlFrame : Type 0 where
  pub id : Option String
  pub type : ControlFrameType
  pub payload : Json

abbrev pub envelope_keys : List String
envelope_keys = "v" ∷ "type" ∷ "payload" ∷ "id" ∷ []

unfoldable pub all_included : List String → List String → Bool
all_included allowed [] = true
all_included allowed (k ∷ ks) = includes allowed k && all_included allowed ks

-- `obj.v !== WIRE_VERSION`
abbrev pub is_wire_version : Option Json → Bool
is_wire_version (some (num (uint n))) = n == wire_version
is_wire_version _ = false

-- `(obj.payload as Authenticate).token.length > MAX_TOKEN_BYTES`
abbrev pub token_too_long : ControlFrameType → Json → Bool
token_too_long authenticate (obj fs) = elim (lookup "token" (entries fs)) [
  | some (str token) ↦ ltb max_token_bytes (code_units token)
  | _ ↦ false
]
token_too_long _ _ = false

-- From the check of the payload on, with the type and the id read.
unfoldable pub decode_payload : ControlFrameType → Option String → Json → Result DecodedControlFrame
decode_payload t id payload = elim (validate_payload t payload) [
  | some e ↦ err bad_payload
  | none ↦
      if token_too_long t payload
      then err bad_payload
      else ok (record { id = id; type = t; payload = payload })
]

-- The check of `id`: absent, or a string.
unfoldable pub decode_id : ControlFrameType → Option Json → Json → Result DecodedControlFrame
decode_id t none payload = decode_payload t none payload
decode_id t (some (str id)) payload = decode_payload t (some id) payload
decode_id t (some _) payload = err bad_envelope

unfoldable pub decode_type : Option Json → Option Json → Json → Result DecodedControlFrame
decode_type (some (str name)) id payload = elim (find_type control_frame_types name) [
  | none ↦ err unknown_frame_type
  | some t ↦ decode_id t id payload
]
decode_type _ id payload = err bad_envelope

abbrev pub or_null : Option Json → Json
or_null none = null
or_null (some v) = v

unfoldable pub decode_envelope : List (String × Json) → Result DecodedControlFrame
decode_envelope given =
    if not (all_included envelope_keys (keys given))
    then err bad_envelope
    else if not (is_in "v" given && is_in "type" given && is_in "payload" given)
    then err bad_envelope
    else if not (is_wire_version (lookup "v" given))
    then err unsupported_version
    else decode_type (lookup "type" given) (lookup "id" given) (or_null (lookup "payload" given))

-- `none` where `JSON.parse` throws.
unfoldable pub decode_control_frame : Option Json → Result DecodedControlFrame
decode_control_frame none = err invalid_json
decode_control_frame (some (obj fs)) = decode_envelope (entries fs)
decode_control_frame (some _) = err bad_envelope

abbrev pub id_field : Option String → Fields → Fields
id_field none rest = rest
id_field (some id) rest = field "id" (str id) rest

unfoldable pub encode_control_frame : DecodedControlFrame → Json
encode_control_frame frame = obj (
    field "v" (num (uint wire_version)) (
      id_field frame.id
        (field "type" (str (type_name frame.type)) (field "payload" frame.payload end))))

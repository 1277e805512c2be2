-- ===== src/Control/Tests.antt =====
-- Runs of the control codec, and its theorems at concrete frames.
use concord_dev.Control.Shape.{
  ShapeHolds, validate_payload_inherited, AllKnown, validate_payload_iff,
}
use concord_dev.Control.RoundTrip.{IsEnvelopeOf, decode_control-encode, decode_control_frame_sound}
use concord_dev.Control.{
  DecodedControlFrame, validate_payload, validate_payload, validate_payload, decode_control_frame,
  decode_control_frame, validate_payload, decode_control_frame, ControlFrameType, is_strict,
  decode_envelope, encode_control_frame, payload_shape, all_included, decode_type, check_fields,
  decode_id, check_extra, decode_payload, missing_field, unexpected_field, find_type,
}
use concord_dev.Base.{◌≡◌, ◌↔◌, refl, none, some}
use concord_dev.Control.Value.{
  Json, Fields, field, end, str, obj, num, uint, includes, entries, is_in, lookup, keys,
}
use concord_dev.Wire.{ok, err, unsupported_version}

abbrev ping_fields : Fields
ping_fields = field "nonce" (str "n1") end

abbrev ping_frame : DecodedControlFrame
ping_frame = record { id = some "j1"; type = ControlFrameType.ping; payload = obj ping_fields }

abbrev ping_json : Json
ping_json = obj (
    field "v" (num (uint 1))
      (field "id" (str "j1") (field "type" (str "ping") (field "payload" (obj ping_fields) end))))

ping_valid : validate_payload ControlFrameType.ping (obj ping_fields) ≡ none
unfolding validate_payload is_strict payload_shape check_fields check_extra is_in lookup
ping_valid = refl

missing_nonce : validate_payload ControlFrameType.ping (obj end) ≡ some (missing_field "nonce")
unfolding validate_payload is_strict payload_shape check_fields check_extra is_in lookup
missing_nonce = refl

extra_key :
    validate_payload ControlFrameType.ping (obj (field "x" Json.null ping_fields))
    ≡ some (unexpected_field "x")
unfolding validate_payload is_strict payload_shape check_fields check_extra is_in lookup
extra_key = refl

wrong_version :
    decode_control_frame (
      some (
        obj (
          field "v"
            (num (uint 2))
            (field "type" (str "ping") (field "payload" (obj ping_fields) end)))))
    ≡ err unsupported_version
unfolding decode_control_frame decode_envelope all_included is_in lookup
wrong_version = refl

ping_decoded : decode_control_frame (some ping_json) ≡ ok ping_frame
unfolding decode_control_frame decode_envelope decode_type decode_id decode_payload find_type
    all_included validate_payload is_strict payload_shape check_fields check_extra is_in lookup
ping_decoded = refl

validate_payload_iff_example : (validate_payload ControlFrameType.ping (obj ping_fields) ≡ none) ↔ (
    ShapeHolds (payload_shape ControlFrameType.ping) (entries ping_fields)
    × AllKnown (payload_shape ControlFrameType.ping) (keys (entries ping_fields)))
validate_payload_iff_example = validate_payload_iff ControlFrameType.ping ping_fields

validate_payload_inherited_example :
    validate_payload ControlFrameType.ping (obj (field "toString" (str "x") ping_fields)) ≡ none
unfolding includes
validate_payload_inherited_example =
    validate_payload_inherited ControlFrameType.ping ping_fields "toString" (str "x") refl
      ping_valid

decode_control-encode_example :
    decode_control_frame (some (encode_control_frame ping_frame)) ≡ ok ping_frame
decode_control-encode_example = decode_control-encode ping_frame ping_valid refl

decode_control_frame_sound_example :
    (fs : Fields) × (ping_json ≡ obj fs) × IsEnvelopeOf ping_frame (entries fs)
decode_control_frame_sound_example = decode_control_frame_sound ping_json ping_frame ping_decoded

-- ===== src/Control/RoundTrip.antt =====
-- The control envelope: what is encoded is decoded, and what is decoded was well formed.
use concord_dev.Control.Shape.{is_in-own}
use text.Mathlib.TextEquality.{eq_iff}
use concord_dev.Wire.{ok, wire_version}
use concord_dev.Control.Value.{
  Json, str, is_in, lookup, keys, num, uint, includes, Fields, prototype_keys, obj, entries,
}
use Prim.Native.String.{String}
use concord_dev.Control.{
  find_type, decode_payload, DecodedControlFrame, ControlFrameType, validate_payload,
  control_frame_types, token_too_long, type_name, decode_control_frame, encode_control_frame,
  decode_envelope, all_included, decode_id, decode_type, envelope_keys, is_wire_version, or_null,
}
use concord_dev.Base.{
  ◌≡◌, inl, inr, refl, true, false, Option, none, some, List, [], ◌∷◌, arith, Option-cases,
}

find_type-name : (t : ControlFrameType) → find_type control_frame_types (type_name t) ≡ some t
unfolding find_type
find_type-name ControlFrameType.hello = refl
find_type-name t = refl

decode_payload-ok :
    (t : ControlFrameType) (id : Option String) (payload : Json)
    → validate_payload t payload ≡ none
    → token_too_long t payload ≡ false
    → decode_payload t id payload ≡ ok (record { id = id; type = t; payload = payload })
unfolding decode_payload
decode_payload-ok t id payload p q = ground arith

-- A frame whose payload its validator accepts, and whose token is within the cap, is decoded from
-- its own envelope unchanged, with its id or without one.
pub decode_control-encode :
    (frame : DecodedControlFrame)
    → validate_payload frame.type frame.payload ≡ none
    → token_too_long frame.type frame.payload ≡ false
    → decode_control_frame (some (encode_control_frame frame)) ≡ ok frame
unfolding decode_control_frame encode_control_frame decode_envelope decode_type decode_id
    all_included is_in lookup
decode_control-encode frame p q = by_id frame.id frame.type frame.payload p q
  where
    by_id :
        (id : Option String) (t : ControlFrameType) (payload : Json)
        → validate_payload t payload ≡ none
        → token_too_long t payload ≡ false
        → decode_control_frame
            (some (encode_control_frame (record { id = id; type = t; payload = payload })))
          ≡ ok (record { id = id; type = t; payload = payload })
    by_id none t payload p q =
        ground (arith, find_type-name t, decode_payload-ok t none payload p q)
    by_id (some id) t payload p q =
        ground (arith, find_type-name t, decode_payload-ok t (some id) payload p q)

-- What the `id` entry of an envelope must be for a decoded id.
abbrev pub id_entry : Option String → Option Json
id_entry none = none
id_entry (some id) = some (str id)

-- The envelope's entries agree with the frame.
pub record IsEnvelopeOf (frame : DecodedControlFrame) (given : List (String × Json)) : Type 0 where
  pub only_known : all_included envelope_keys (keys given) ≡ true
  pub version : lookup "v" given ≡ some (num (uint wire_version))
  pub type_entry : lookup "type" given ≡ some (str (type_name frame.type))
  pub id_kept : lookup "id" given ≡ id_entry frame.id
  pub payload_kept : lookup "payload" given ≡ some frame.payload
  pub payload_valid : validate_payload frame.type frame.payload ≡ none
  pub token_capped : token_too_long frame.type frame.payload ≡ false

find_type_sound :
    (ts : List ControlFrameType) (name : String) (t : ControlFrameType)
    → find_type ts name ≡ some t
    → type_name t ≡ name
unfolding find_type
find_type_sound [] name t e = cc
find_type_sound (u ∷ ts) name t e =
    ground (arith, eq_iff (type_name u) name, find_type_sound ts name t)

decode_payload_sound :
    (t : ControlFrameType) (id : Option String) (payload : Json) (frame : DecodedControlFrame)
    → decode_payload t id payload ≡ ok frame
    → (frame ≡ record { id = id; type = t; payload = payload })
      × (validate_payload t payload ≡ none)
      × (token_too_long t payload ≡ false)
unfolding decode_payload
decode_payload_sound t id payload frame e = ground arith

decode_id_sound :
    (t : ControlFrameType) (id : Option Json) (payload : Json) (frame : DecodedControlFrame)
    → decode_id t id payload ≡ ok frame
    → (frame.type ≡ t)
      × (frame.payload ≡ payload)
      × (id ≡ id_entry frame.id)
      × (validate_payload t payload ≡ none)
      × (token_too_long t payload ≡ false)
unfolding decode_id
decode_id_sound t none payload frame e = ground (arith, decode_payload_sound t none payload frame e)
decode_id_sound t (some (str id)) payload frame e =
    ground (arith, decode_payload_sound t (some id) payload frame e)
decode_id_sound t (some v) payload frame e = cc

decode_type_sound :
    (type id : Option Json) (payload : Json) (frame : DecodedControlFrame)
    → decode_type type id payload ≡ ok frame
    → (type ≡ some (str (type_name frame.type)))
      × (frame.payload ≡ payload)
      × (id ≡ id_entry frame.id)
      × (validate_payload frame.type payload ≡ none)
      × (token_too_long frame.type payload ≡ false)
unfolding decode_type
decode_type_sound (some (str name)) id payload frame e =
    elim (Option-cases (find_type control_frame_types name)) [
      | inl q ↦ ground (arith, q)
      | inr (t, q) ↦ ground (
        arith,
        q,
        find_type_sound control_frame_types name t q,
        decode_id_sound t id payload frame,
      )
    ]
decode_type_sound none id payload frame e = cc
decode_type_sound (some v) id payload frame e = cc

decode_envelope_sound :
    (given : List (String × Json)) (frame : DecodedControlFrame)
    → decode_envelope given ≡ ok frame
    → (all_included envelope_keys (keys given) ≡ true)
      × (is_in "payload" given ≡ true)
      × (is_wire_version (lookup "v" given) ≡ true)
      × (decode_type (lookup "type" given) (lookup "id" given) (or_null (lookup "payload" given))
          ≡ ok frame)
unfolding decode_envelope
decode_envelope_sound given frame e = ground arith

is_wire_version-eq :
    (v : Option Json) → is_wire_version v ≡ true → v ≡ some (num (uint wire_version))
is_wire_version-eq (some (num (uint n))) e = ground arith
is_wire_version-eq none e = cc
is_wire_version-eq (some v) e = cc

own_payload : includes prototype_keys "payload" ≡ false
unfolding includes
own_payload = refl

-- A decoded control frame comes from an object whose only keys are the four of the envelope, with
-- version 1, the name of the frame's type, the id (or none), and a payload that the validator of
-- that very type accepts and whose token is within the cap.
pub decode_control_frame_sound :
    (json : Json) (frame : DecodedControlFrame)
    → decode_control_frame (some json) ≡ ok frame
    → (fs : Fields) × (json ≡ obj fs) × IsEnvelopeOf frame (entries fs)
unfolding decode_control_frame
decode_control_frame_sound (obj fs) frame e =
    let (known, present, version, more) = decode_envelope_sound (entries fs) frame e in
    let (t, p, i, valid, capped) = decode_type_sound _ _ _ frame more in
    (
      fs,
      refl,
      record {
        only_known = known;
        version = is_wire_version-eq _ version;
        type_entry = t;
        id_kept = i;
        payload_kept = ground (arith, p, present, is_in-own "payload" (entries fs) own_payload);
        payload_valid = rw p valid;
        token_capped = rw p capped;
      },
    )
decode_control_frame_sound Json.null frame e = cc
decode_control_frame_sound json frame e = cc

-- ===== src/Control/Shape.antt =====
-- What the strict validators accept.
use mathlib.Core.Path.{subst}
use concord_dev.Base.{
  ◌≡◌, ◌↔◌, refl, sym, Bool, true, false, Option, none, some, List, [], ◌∷◌, arith,
}
use concord_dev.Control.{
  FieldCheck, Shape, Shape, Shape, check_fields, check_extra, payload_shape, ControlFrameType,
  hello, validate_payload, is_strict,
}
use Prim.Native.String.{String}
use text.Mathlib.TextEquality.{eq_iff}
use concord_dev.Control.Value.{
  Json, Fields, obj, field, entries, includes, lookup, is_in, keys, prototype_keys,
}

-- An entry of a shape holds of an object: the field is there and passes, or is absent and optional.
abbrev pub FieldHolds : FieldCheck → Option Json → Type 0
FieldHolds f none = f.is_optional ≡ true
FieldHolds f (some v) = f.check v ≡ none

abbrev pub ShapeHolds : Shape → List (String × Json) → Type 0
ShapeHolds [] given = Unit
ShapeHolds ((key, f) ∷ shape) given = FieldHolds f (lookup key given) × ShapeHolds shape given

-- No entry of the shape is named like a member of `Object.prototype`.
abbrev pub OwnKeys : Shape → Type 0
OwnKeys [] = Unit
OwnKeys ((key, f) ∷ shape) = (includes prototype_keys key ≡ false) × OwnKeys shape

abbrev pub AllKnown : Shape → List String → Type 0
AllKnown shape [] = Unit
AllKnown shape (k ∷ ks) = (is_in k shape ≡ true) × AllKnown shape ks

abbrev pub is_some {ℓ} : {A : Type ℓ} → Option A → Bool
is_some none = false
is_some (some a) = true

includes-keys {ℓ} :
    {V : Type ℓ} (k : String) (m : List (String × V)) → includes (keys m) k ≡ is_some (lookup k m)
unfolding includes lookup
includes-keys k [] = refl
includes-keys k ((j, v) ∷ m) = ground (arith, includes-keys k m)

pub is_in-own {ℓ} :
    {V : Type ℓ} (k : String) (m : List (String × V))
    → includes prototype_keys k ≡ false
    → is_in k m ≡ is_some (lookup k m)
unfolding is_in
is_in-own k m h = ground (arith, includes-keys k m)

check_fields_iff :
    (shape : Shape) (given : List (String × Json))
    → OwnKeys shape
    → (check_fields shape given ≡ none) ↔ ShapeHolds shape given
unfolding check_fields
check_fields_iff [] given own = (λ e. tt, λ h. refl)
check_fields_iff ((key, f) ∷ shape) given own =
    ground (arith, is_in-own key given own.0, check_fields_iff shape given own.1)

check_extra_iff :
    (shape : Shape) (given : List String) → (check_extra shape given ≡ none) ↔ AllKnown shape given
unfolding check_extra
check_extra_iff shape [] = (λ e. tt, λ h. refl)
check_extra_iff shape (key ∷ given) = ground (arith, check_extra_iff shape given)

payload_shape-OwnKeys : (t : ControlFrameType) → OwnKeys (payload_shape t)
unfolding payload_shape includes
payload_shape-OwnKeys hello = ground arith
payload_shape-OwnKeys t = ground arith

-- A payload object passes the validator of its frame type exactly when each field of the type is
-- there with a value that its check accepts, or is optional and absent, and each key of the object
-- is a field of the type or the name of a member of `Object.prototype`.
pub validate_payload_iff :
    (t : ControlFrameType) (fs : Fields)
    → (validate_payload t (obj fs) ≡ none)
      ↔ (ShapeHolds (payload_shape t) (entries fs) × AllKnown (payload_shape t) (keys (entries fs)))
unfolding validate_payload is_strict
validate_payload_iff t fs = ground (
  arith,
  check_fields_iff (payload_shape t) (entries fs) (payload_shape-OwnKeys t),
  check_extra_iff (payload_shape t) (keys (entries fs)),
)

lookup-cons_ne :
    (k j : String) (v : Json) (m : List (String × Json))
    → includes prototype_keys j ≡ true
    → includes prototype_keys k ≡ false
    → lookup k ((j, v) ∷ m) ≡ lookup k m
unfolding lookup
lookup-cons_ne k j v m p q = ground (arith, eq_iff j k)

ShapeHolds-cons :
    (shape : Shape) (key : String) (v : Json) (given : List (String × Json))
    → OwnKeys shape
    → includes prototype_keys key ≡ true
    → ShapeHolds shape given
    → ShapeHolds shape ((key, v) ∷ given)
ShapeHolds-cons [] key v given own p h = tt
ShapeHolds-cons ((k, f) ∷ shape) key v given own p h = (
  subst (FieldHolds f) (sym (lookup-cons_ne k key v given p own.0)) h.0,
  ShapeHolds-cons shape key v given own.1 p h.1,
)

-- The strict validators let inherited names through: a payload that passes still passes with any
-- further field that is named like a member of `Object.prototype`, such as `toString`.
pub validate_payload_inherited :
    (t : ControlFrameType) (fs : Fields) (key : String) (v : Json)
    → includes prototype_keys key ≡ true
    → validate_payload t (obj fs) ≡ none
    → validate_payload t (obj (field key v fs)) ≡ none
validate_payload_inherited t fs key v p e =
    let (holds, known) = (validate_payload_iff t fs).0 e in
    (validate_payload_iff t (field key v fs)).1 (
      ShapeHolds-cons (payload_shape t) key v (entries fs) (payload_shape-OwnKeys t) p holds,
      (unfold is_in in ground arith, known),
    )

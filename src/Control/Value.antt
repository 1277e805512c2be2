-- ===== src/Control/Value.antt =====
-- The values that `JSON.parse` gives, and JavaScript's tests on them.
use Prim.Native.String.{String}
use text.Mathlib.Text.{◌==◌}
use concord_dev.Base.{ℕ, Bool, false, ◌||◌, Option, none, some, List, [], ◌∷◌, if◌then◌else◌}

-- `other` is a number that is negative or no integer.
pub data Number : Type 0 where
  uint : ℕ → Number
  other : Number

mutual
  pub data Json : Type 0 where
    null : Json
    bool : Bool → Json
    num : Number → Json
    str : String → Json
    arr : Items → Json
    obj : Fields → Json

  pub data Items : Type 0 where
    nil : Items
    item : Json → Items → Items

  pub data Fields : Type 0 where
    end : Fields
    field : String → Json → Fields → Fields

abbrev pub to_list : Items → List Json
to_list nil = []
to_list (item v vs) = v ∷ to_list vs

-- The own entries of an object, in order.
abbrev pub entries : Fields → List (String × Json)
entries end = []
entries (field k v fs) = (k, v) ∷ entries fs

unfoldable pub includes : List String → String → Bool
includes [] k = false
includes (j ∷ js) k = j == k || includes js k

-- `obj[key]` of an own key.
unfoldable pub lookup {ℓ} : {V : Type ℓ} → String → List (String × V) → Option V
lookup k [] = none
lookup k ((j, v) ∷ m) = if j == k then some v else lookup k m

abbrev pub keys {ℓ} : {V : Type ℓ} → List (String × V) → List String
keys [] = []
keys ((k, v) ∷ m) = k ∷ keys m

-- What an object literal inherits from `Object.prototype`.
abbrev pub prototype_keys : List String
prototype_keys =
    "constructor" ∷ "__defineGetter__" ∷ "__defineSetter__" ∷ "hasOwnProperty" ∷ "__lookupGetter__"
    ∷ "__lookupSetter__" ∷ "isPrototypeOf" ∷ "propertyIsEnumerable" ∷ "toString" ∷ "valueOf"
    ∷ "__proto__" ∷ "toLocaleString" ∷ []

-- `key in object`: the inherited keys count.
unfoldable pub is_in {ℓ} : {V : Type ℓ} → String → List (String × V) → Bool
unfolding includes
is_in k m = includes (keys m) k || includes prototype_keys k

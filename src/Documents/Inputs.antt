-- ===== src/Documents/Inputs.antt =====
-- src/server/services/documents.ts: the checks of titles, contents, ids and versions.
use concord_dev.Base.{
  ℕ, zero, suc, Bool, true, false, ◌&&◌, ◌||◌, Option, none, some, [], ◌∷◌, ltb, leb, length,
  if◌then◌else◌, ◌==◌,
}
use concord_dev.Access.{Outcome, returns, throws, validation}
use concord_dev.Base.Text.{Text, trim}
use Prim.Native.String.{String}

-- A value of type `unknown`; `other` is any that is none of the rest, such as a negative number.
pub data Given : Type 0 where
  undefined null other : Given
  text : Text → Given
  int : ℕ → Given

abbrev pub max_title_length : ℕ
max_title_length = 200

abbrev pub max_initial_content_length : ℕ
max_initial_content_length = 512000

abbrev pub default_title : Text
default_title =
    b'U' ∷ b'n' ∷ b't' ∷ b'i' ∷ b't' ∷ b'l' ∷ b'e' ∷ b'd' ∷ b' ' ∷ b'd' ∷ b'o' ∷ b'c' ∷ b'u' ∷ b'm'
    ∷ b'e' ∷ b'n' ∷ b't' ∷ []

unfoldable pub normalize_title : Given → Outcome Text
normalize_title undefined = returns default_title
normalize_title null = returns default_title
normalize_title (text s) =
    let trimmed = trim s in
    if length trimmed == 0
    then returns default_title
    else if ltb max_title_length (length trimmed)
    then throws (validation "Title must be at most 200 characters")
    else returns trimmed
normalize_title _ = throws (validation "Title must be a string")

unfoldable pub validate_initial_content : Given → Outcome (Option Text)
validate_initial_content undefined = returns none
validate_initial_content null = returns none
validate_initial_content (text s) =
    if length s == 0
    then returns none
    else if ltb max_initial_content_length (length s)
    then throws (validation "initialContent is too large")
    else returns (some s)
validate_initial_content _ = throws (validation "initialContent must be a string")

-- [0-9a-f] with the flag i
abbrev pub is_hex : ℕ → Bool
is_hex c = leb b'0' c && leb c b'9' || leb b'a' c && leb c b'f' || leb b'A' c && leb c b'F'

infixl 5 ◌>>=◌
abbrev ◌>>=◌ : Option Text → (Text → Option Text) → Option Text
none >>= f = none
some s >>= f = f s

-- `n` hexadecimal digits; what is left of the text.
unfoldable pub skip_hex : ℕ → Text → Option Text
skip_hex zero s = some s
skip_hex (suc n) [] = none
skip_hex (suc n) (c ∷ s) = let rest = skip_hex n s in if is_hex c then rest else none

abbrev pub skip_dash : Text → Option Text
skip_dash [] = none
skip_dash (c ∷ s) = if c == b'-' then some s else none

unfoldable pub is_uuid : Text → Bool
is_uuid s =
    let left : Option Text = do
      a ← skip_hex 8 s
      b ← skip_dash a
      c ← skip_hex 4 b
      d ← skip_dash c
      e ← skip_hex 4 d
      f ← skip_dash e
      g ← skip_hex 4 f
      h ← skip_dash g
      skip_hex 12 h
    in elim left [ some [] ↦ true | _ ↦ false ]

unfoldable pub parse_document_id : Given → Outcome Text
parse_document_id (text s) =
    if is_uuid s then returns s else throws (validation "Invalid document id")
parse_document_id _ = throws (validation "Invalid document id")

-- `z.number().int().min(1)`: a safe integer from 1 on.
unfoldable pub parse_version : String → Given → Outcome ℕ
parse_version message (int n) =
    if leb 1 n && leb n 9007199254740991 then returns n else throws (validation message)
parse_version message _ = throws (validation message)

-- ===== src/Comments/Inputs.antt =====
-- src/server/services/comments.ts: the schemas of what a client gives.
use concord_dev.Identity.{split_colon}
use concord_dev.Base.Decimal.{is_canonical, to_nat}
use concord_dev.Documents.Inputs.{Given, Given, Given, Given, Given, Given, text, is_uuid}
use concord_dev.Base.Text.{Text, Text, Text, Text, Text, Text, text_eq, trim}
use concord_dev.Base.{
  ℕ, Bool, false, ◌&&◌, ◌||◌, Option, none, some, [], ◌∷◌, ltb, leb, length, if◌then◌else◌,
}

pub record CommentAnchor : Type 0 where
  pub start_item_id : Text
  pub start_side : Text
  pub end_item_id : Text
  pub end_side : Text

-- What a client gives; undefined where a field is missing.
pub record ThreadGiven : Type 0 where
  pub thread_id : Given
  pub message_id : Given
  pub start_item_id : Given
  pub start_side : Given
  pub end_item_id : Given
  pub end_side : Given
  pub quote : Given
  pub body : Given

pub record ThreadInput : Type 0 where
  pub thread_id : Text
  pub message_id : Text
  pub anchor : CommentAnchor
  pub quote : Text
  pub body : Text

infixl 5 ◌>>=◌
abbrev pub ◌>>=◌ {ℓ κ} : {A : Type ℓ} {B : Type κ} → Option A → (A → Option B) → Option B
none >>= f = none
some a >>= f = f a

abbrev pub uuid : Given → Option Text
uuid (text s) = if is_uuid s then some s else none
uuid _ = none

abbrev pub is_positive_decimal : Text → ℕ → Bool
is_positive_decimal s bound = is_canonical s && (ltb 0 (to_nat s) && leb (to_nat s) bound)

-- /^[1-9][0-9]*:[1-9][0-9]*$/ with the bounds of the two numbers
unfoldable pub is_item_id : Text → Bool
is_item_id s = elim (split_colon s) [
  | a ∷ b ∷ [] ↦
      is_positive_decimal a 0xffff_ffff_ffff_ffff && is_positive_decimal b 0x7fff_ffff_ffff_ffff
  | _ ↦ false
]

abbrev pub item_id : Given → Option Text
item_id (text s) = if is_item_id s then some s else none
item_id _ = none

abbrev pub before_text : Text
before_text = b'b' ∷ b'e' ∷ b'f' ∷ b'o' ∷ b'r' ∷ b'e' ∷ []

abbrev pub after_text : Text
after_text = b'a' ∷ b'f' ∷ b't' ∷ b'e' ∷ b'r' ∷ []

abbrev pub side : Given → Option Text
side (text s) = if text_eq s before_text || text_eq s after_text then some s else none
side _ = none

-- `z.string().max(bound)`
abbrev pub string_up_to : ℕ → Given → Option Text
string_up_to bound (text s) = if leb (length s) bound then some s else none
string_up_to bound _ = none

-- `z.string().trim().min(1).max(4000)`
unfoldable pub body_text : Given → Option Text
body_text (text s) =
    let trimmed = trim s in
    if leb 1 (length trimmed) && leb (length trimmed) 4000 then some trimmed else none
body_text _ = none

-- createThreadSchema
unfoldable pub parse_thread : ThreadGiven → Option ThreadInput
parse_thread given = do
  thread_id ← uuid given.thread_id
  message_id ← uuid given.message_id
  start_item_id ← item_id given.start_item_id
  start_side ← side given.start_side
  end_item_id ← item_id given.end_item_id
  end_side ← side given.end_side
  quote ← string_up_to 1000 given.quote
  body ← body_text given.body
  some (record {
    thread_id = thread_id;
    message_id = message_id;
    anchor = record {
      start_item_id = start_item_id;
      start_side = start_side;
      end_item_id = end_item_id;
      end_side = end_side;
    };
    quote = quote;
    body = body;
  })

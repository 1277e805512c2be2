-- ===== src/Identity.antt =====
-- src/lib/sync/identities.ts: the identities of operations, as text and in the bytes of an operation.
pub mod Parsing
pub mod Header
mod Tests
use concord_dev.Base.{
  ℕ, zero, suc, ◌+◌, ◌*◌, ◌-◌, ◌^◌, ◌≤◌, ◌<◌, ◌≡◌, ◌≢◌, ◌↔◌, ◌⊎◌, inl, inr, refl, sym, ap, ◌∙◌,
  Bool, true, false, not, ◌&&◌, ◌||◌, Option, none, some, List, [], ◌∷◌, ◌++◌, arith, ltb, leb,
  length, if◌then◌else◌, Bool-cases, Option-cases, ◌==◌,
}
use concord_dev.Base.{take, drop}
use concord_dev.Base.Text.{Text, text_eq, trim}
use concord_dev.Base.Decimal.{all_digits, to_nat, print, is_digit}

pub record ParsedIdentity : Type 0 where
  pub replica : ℕ
  pub counter : ℕ

-- `s.split(":")`
abbrev pub prepend : ℕ → List Text → List Text
prepend c [] = (c ∷ []) ∷ []
prepend c (x ∷ xs) = (c ∷ x) ∷ xs

unfoldable pub split_colon : Text → List Text
split_colon [] = [] ∷ []
split_colon (c ∷ s) = let rest = split_colon s in if c == b':' then [] ∷ rest else prepend c rest

-- The value of a digit up to base 16; 16 for any other unit.
abbrev pub digit_value : ℕ → ℕ
digit_value c =
    if leb b'0' c && leb c b'9'
    then c - b'0'
    else if leb b'a' c && leb c b'f'
    then c - b'a' + 10
    else if leb b'A' c && leb c b'F'
    then c - b'A' + 10
    else 16

unfoldable pub in_base : ℕ → ℕ → Text → Option ℕ
in_base base acc [] = some acc
in_base base acc (c ∷ s) =
    let rest = in_base base (acc * base + digit_value c) s in
    if ltb (digit_value c) base then rest else none

-- Digits behind a prefix or a sign: at least one.
abbrev pub some_digits : ℕ → Text → Option ℕ
some_digits base [] = none
some_digits base (c ∷ s) = in_base base 0 (c ∷ s)

-- What a negative number counts as here, where only positive ones are of use.
abbrev pub as_zero : Option ℕ → Option ℕ
as_zero none = none
as_zero (some n) = some 0

-- `BigInt` of a text with no space around it.
unfoldable pub big_int_trimmed : Text → Option ℕ
big_int_trimmed [] = some 0
big_int_trimmed (c ∷ []) = in_base 10 0 (c ∷ [])
big_int_trimmed (c ∷ d ∷ s) =
    if c == b'-'
    then as_zero (some_digits 10 (d ∷ s))
    else if c == b'+'
    then some_digits 10 (d ∷ s)
    else if c == b'0' && (d == b'x' || d == b'X')
    then some_digits 16 s
    else if c == b'0' && (d == b'o' || d == b'O')
    then some_digits 8 s
    else if c == b'0' && (d == b'b' || d == b'B')
    then some_digits 2 s
    else in_base 10 0 (c ∷ d ∷ s)

-- `BigInt(text)`, none where it throws and 0 where it is negative.
unfoldable pub big_int_value : Text → Option ℕ
big_int_value text = big_int_trimmed (trim text)

abbrev pub positive : ℕ → ℕ → Option ParsedIdentity
positive replica counter =
    if replica == 0 || counter == 0
    then none
    else some (record { replica = replica; counter = counter })

unfoldable pub parse_op_identity : Text → Option ParsedIdentity
parse_op_identity s = elim (split_colon s) [
  | a ∷ b ∷ [] ↦ elim (big_int_value a) [
    | none ↦ none
    | some replica ↦ elim (big_int_value b) [
      | none ↦ none
      | some counter ↦ positive replica counter
    ]
  ]
  | _ ↦ none
]

unfoldable pub format_op_identity : ℕ → ℕ → Text
format_op_identity replica counter = print replica ++ (b':' ∷ print counter)

-- `getBigUint64(offset, true)`: the least significant byte first.
unfoldable pub le_value : List ℕ → ℕ
le_value [] = 0
le_value (b ∷ bs) = b + 256 * le_value bs

abbrev pub get_u64_le : List ℕ → ℕ → ℕ
get_u64_le bytes offset = le_value (take 8 (drop offset bytes))

abbrev pub first_byte : List ℕ → ℕ
first_byte [] = 0
first_byte (b ∷ bs) = b

unfoldable pub identity_from_op_bytes : List ℕ → Option ParsedIdentity
identity_from_op_bytes op =
    if ltb (length op) 18
    then none
    else if not (first_byte op == 1)
    then none
    else positive (get_u64_le op 2) (get_u64_le op 10)

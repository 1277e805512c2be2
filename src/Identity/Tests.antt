-- ===== src/Identity/Tests.antt =====
-- Identities of concrete operations.
use concord_dev.Identity.Header.{parse_op_identity-bytes}
use concord_dev.Base.Text.{trim_start, trim_end, text_eq}
use concord_dev.Identity.{
  ParsedIdentity, identity_from_op_bytes, big_int_value, parse_op_identity, le_value,
  big_int_trimmed, format_op_identity, in_base,
}
use concord_dev.Base.{ℕ, ◌≡◌, refl, some, List, [], ◌∷◌}

abbrev op_bytes : List ℕ
op_bytes = 1 ∷ 0 ∷ 7 ∷ 0 ∷ 0 ∷ 0 ∷ 0 ∷ 0 ∷ 0 ∷ 0 ∷ 3 ∷ 1 ∷ 0 ∷ 0 ∷ 0 ∷ 0 ∷ 0 ∷ 0 ∷ 99 ∷ []

abbrev found : ParsedIdentity
found = record { replica = 7; counter = 259 }

read_header : identity_from_op_bytes op_bytes ≡ some found
unfolding identity_from_op_bytes le_value
read_header = refl

hexadecimal : big_int_value (b'0' ∷ b'x' ∷ b'F' ∷ []) ≡ some 15
unfolding big_int_value big_int_trimmed trim_start trim_end in_base text_eq
hexadecimal = refl

parse_op_identity-bytes_example :
    parse_op_identity (format_op_identity found.replica found.counter) ≡ some found
parse_op_identity-bytes_example = parse_op_identity-bytes op_bytes found read_header

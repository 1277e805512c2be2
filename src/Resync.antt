-- ===== src/Resync.antt =====
-- src/lib/sync/snapshot-resync.ts: the snapshot that replaces a stale replica, from its envelope to
-- the cursor. SHA-256 is an argument.
pub mod Validation
pub mod Import
pub mod Cursor
mod Tests
use concord_dev.Base.{
  ℕ, zero, suc, ◌+◌, ◌*◌, ◌-◌, ◌^◌, ◌≤◌, ◌<◌, ◌≡◌, ◌≢◌, ◌↔◌, ◌⊎◌, inl, inr, refl, sym, ap, ◌∙◌,
  Bool, true, false, not, ◌&&◌, ◌||◌, Option, none, some, List, [], ◌∷◌, ◌++◌, arith, ltb, leb,
  length, if◌then◌else◌, Bool-cases, Option-cases, ◌/◌, ◌==◌, ◌%◌,
}
use concord_dev.Base.{take, drop, map}
use concord_dev.Base.Text.{Text, text_eq, lower}
use concord_dev.Base.Decimal.{is_canonical, to_nat, print, is_digit}
use concord_dev.Identity.{get_u64_le, first_byte}

abbrev pub supported_client_format_version : ℕ
supported_client_format_version = 1

abbrev pub wrapper_header_len : ℕ
wrapper_header_len = 41

abbrev pub u64_max : ℕ
u64_max = 0xffff_ffff_ffff_ffff

pub data SnapshotResyncErrorCode : Type 0 where
  unsupported_format document_mismatch size_mismatch checksum_mismatch : SnapshotResyncErrorCode
  coverage_mismatch truncated trailing_bytes bad_base64 : SnapshotResyncErrorCode
  bad_envelope digest_unavailable : SnapshotResyncErrorCode

pub data Checked {ℓ} (A : Type ℓ) : Type ℓ where
  passes : A → Checked A
  fails : SnapshotResyncErrorCode → Checked A

infixl 5 ◌>>=◌
unfoldable pub ◌>>=◌ {ℓ κ} : {A : Type ℓ} {B : Type κ} → Checked A → (A → Checked B) → Checked B
passes a >>= f = f a
fails e >>= f = fails e

pub record SnapshotEnvelope : Type 0 where
  pub snapshot_id : Text
  pub format_version : ℕ
  pub coverage_seq : Text
  pub covered_op_count : Text
  pub checksum : Text
  pub payload_base64 : Text
  pub state_digest : Text
  pub payload_size : Text

pub record DecodedSnapshotWrapper : Type 0 where
  pub format_version : ℕ
  pub document_id : Text
  pub coverage_seq : ℕ
  pub covered_op_count : ℕ
  pub inner : List ℕ

abbrev pub hex_digit : ℕ → ℕ
hex_digit n = if ltb n 10 then b'0' + n else b'a' + (n - 10)

-- `byte.toString(16).padStart(2, "0")` of each byte
unfoldable pub hex : List ℕ → Text
hex [] = []
hex (b ∷ bs) = hex_digit (b / 16) ∷ hex_digit (b % 16) ∷ hex bs

-- `formatUuid` of 16 bytes
unfoldable pub format_uuid : List ℕ → Text
format_uuid bytes =
    hex (take 4 bytes)
    ++ (b'-' ∷ hex (take 2 (drop 4 bytes)))
    ++ (b'-' ∷ hex (take 2 (drop 6 bytes)))
    ++ (b'-' ∷ hex (take 2 (drop 8 bytes)))
    ++ (b'-' ∷ hex (take 6 (drop 10 bytes)))

unfoldable pub decode_snapshot_wrapper : List ℕ → Checked DecodedSnapshotWrapper
decode_snapshot_wrapper bytes =
    if ltb (length bytes) wrapper_header_len
    then fails truncated
    else if not (first_byte bytes == supported_client_format_version)
    then fails unsupported_format
    else if ltb (length bytes) (wrapper_header_len + get_u64_le bytes 33)
    then fails truncated
    else if ltb (wrapper_header_len + get_u64_le bytes 33) (length bytes)
    then fails trailing_bytes
    else passes (record {
      format_version = first_byte bytes;
      document_id = format_uuid (take 16 (drop 1 bytes));
      coverage_seq = get_u64_le bytes 17;
      covered_op_count = get_u64_le bytes 25;
      inner = drop wrapper_header_len bytes;
    })

-- BASE64_INDEX
abbrev pub base64_index : ℕ → Option ℕ
base64_index c =
    if leb b'A' c && leb c b'Z'
    then some (c - b'A')
    else if leb b'a' c && leb c b'z'
    then some (c - b'a' + 26)
    else if leb b'0' c && leb c b'9'
    then some (c - b'0' + 52)
    else if c == b'+'
    then some 62
    else if c == b'/'
    then some 63
    else none

-- The characters of a chunk, six bits each.
abbrev pub chunk_value : Text → ℕ → Option ℕ
chunk_value [] n = some n
chunk_value (c ∷ s) n = elim (base64_index c) [
  | none ↦ none
  | some value ↦ chunk_value s (n * 64 + value)
]

abbrev pub with_rest : List ℕ → Checked (List ℕ) → Checked (List ℕ)
with_rest bytes (passes out) = passes (bytes ++ out)
with_rest bytes (fails e) = fails e

-- The bytes of a chunk of 4, 3 or fewer characters.
abbrev pub bytes_of_four : Option ℕ → Checked (List ℕ)
bytes_of_four none = fails bad_base64
bytes_of_four (some n) = passes ((n / 65536 % 256) ∷ (n / 256 % 256) ∷ (n % 256) ∷ [])

abbrev pub bytes_of_three : Option ℕ → Checked (List ℕ)
bytes_of_three none = fails bad_base64
bytes_of_three (some n) =
    if n % 4 == 0 then passes ((n / 1024 % 256) ∷ (n / 4 % 256) ∷ []) else fails bad_base64

abbrev pub bytes_of_two : Option ℕ → Checked (List ℕ)
bytes_of_two none = fails bad_base64
bytes_of_two (some n) = if n % 16 == 0 then passes ((n / 16 % 256) ∷ []) else fails bad_base64

-- The loop over chunks of four characters, of which the last may be shorter.
unfoldable pub decode_chunks : Text → Checked (List ℕ)
decode_chunks [] = passes []
decode_chunks (a ∷ []) = bytes_of_two (chunk_value (a ∷ []) 0)
decode_chunks (a ∷ b ∷ []) = bytes_of_two (chunk_value (a ∷ b ∷ []) 0)
decode_chunks (a ∷ b ∷ c ∷ []) = bytes_of_three (chunk_value (a ∷ b ∷ c ∷ []) 0)
decode_chunks (a ∷ b ∷ c ∷ d ∷ s) = bytes_of_four (chunk_value (a ∷ b ∷ c ∷ d ∷ []) 0) >>= λ bytes.
    with_rest bytes (decode_chunks s)

-- `text.endsWith("==") ? 2 : text.endsWith("=") ? 1 : 0`
unfoldable pub pad_count : Text → ℕ
pad_count [] = 0
pad_count (a ∷ []) = if a == b'=' then 1 else 0
pad_count (a ∷ b ∷ []) = if b == b'=' then (if a == b'=' then 2 else 1) else 0
pad_count (a ∷ b ∷ c ∷ s) = pad_count (b ∷ c ∷ s)

unfoldable pub includes_pad : Text → Bool
includes_pad [] = false
includes_pad (c ∷ s) = c == b'=' || includes_pad s

unfoldable pub decode_base64 : Text → Checked (List ℕ)
decode_base64 text =
    let chars = take (length text - pad_count text) text in
    if length text == 0
    then passes []
    else if not (length text % 4 == 0)
    then fails bad_base64
    else if includes_pad chars
    then fails bad_base64
    else decode_chunks chars

unfoldable pub parse_u64_decimal : Text → Option ℕ
parse_u64_decimal value =
    if not (is_canonical value && leb (length value) 20)
    then none
    else if ltb u64_max (to_nat value)
    then none
    else some (to_nat value)

abbrev pub is_hex_digit : ℕ → Bool
is_hex_digit c = is_digit c || leb b'a' c && leb c b'f' || leb b'A' c && leb c b'F'

unfoldable pub all_hex : Text → Bool
all_hex [] = true
all_hex (c ∷ s) = is_hex_digit c && all_hex s

abbrev pub expect_u64 : Text → Checked ℕ
expect_u64 value = elim (parse_u64_decimal value) [ none ↦ fails bad_envelope | some n ↦ passes n ]

abbrev pub require : Bool → SnapshotResyncErrorCode → Checked (Unit {0})
require true e = passes tt
require false e = fails e

-- `sha256_hex` is none where Web Crypto is missing.
unfoldable pub validate_server_snapshot :
    (List ℕ → Option Text) → Text → SnapshotEnvelope → Checked (List ℕ × ℕ)
validate_server_snapshot sha256_hex expected_document_id envelope = do
  supported ←
      require (envelope.format_version == supported_client_format_version) unsupported_format
  bytes ← decode_base64 envelope.payload_base64
  declared_size ← expect_u64 envelope.payload_size
  sized ← require (declared_size == length bytes) size_mismatch
  wrapper ← decode_snapshot_wrapper bytes
  document ←
      require
        (text_eq (DecodedSnapshotWrapper.document_id wrapper) (map lower expected_document_id))
        document_mismatch
  coverage ← expect_u64 envelope.coverage_seq
  covered ← require (coverage == DecodedSnapshotWrapper.coverage_seq wrapper) coverage_mismatch
  op_count ← expect_u64 envelope.covered_op_count
  counted ← require (op_count == DecodedSnapshotWrapper.covered_op_count wrapper) coverage_mismatch
  shaped ← require (length envelope.checksum == 64 && all_hex envelope.checksum) bad_envelope
  elim (sha256_hex bytes) [
    | none ↦ fails digest_unavailable
    | some computed ↦
        if text_eq computed (map lower envelope.checksum)
        then passes
            (DecodedSnapshotWrapper.inner wrapper, DecodedSnapshotWrapper.coverage_seq wrapper)
        else fails checksum_mismatch
  ]

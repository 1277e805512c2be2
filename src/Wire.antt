-- ===== src/Wire.antt =====
-- src/lib/sync/protocol.ts, the binary data codec. A `Uint8Array` is the list of its bytes; a
-- `ProtocolDecodeError` is its kind.
pub mod Bytes
pub mod WriteOps
pub mod RoundTrip
pub mod Reads
pub mod Canonical
mod Tests
use concord_dev.Base.{
  ℕ, zero, suc, ◌+◌, ◌*◌, Bool, true, false, not, ◌&&◌, ◌||◌, List, [], ◌∷◌, ◌++◌, ltb, leb, ◌==◌,
  if◌then◌else◌, length, get_or, take, drop,
}
use concord_dev.Base.Decimal.{is_canonical, to_nat, print}
use Bytes.{be_bytes, be_value}

abbrev pub wire_version : ℕ
wire_version = 1

abbrev pub max_batch_ops : ℕ
max_batch_ops = 1024

abbrev pub max_batch_payload_bytes : ℕ
max_batch_payload_bytes = 4 * 1024 * 1024

abbrev pub max_sync_page_ops : ℕ
max_sync_page_ops = 1024

abbrev pub max_op_bytes : ℕ
max_op_bytes = 64 * 1024

abbrev pub batch_kind_client_ops : ℕ
batch_kind_client_ops = 0x20

abbrev pub batch_kind_sync : ℕ
batch_kind_sync = 0x21

-- `Number.MAX_SAFE_INTEGER`
abbrev pub max_safe_integer : ℕ
max_safe_integer = 0x1f_ffff_ffff_ffff

abbrev pub max_u64 : ℕ
max_u64 = 0xffff_ffff_ffff_ffff

pub data DecodeError : Type 0 where
  frame_too_large invalid_json bad_envelope unsupported_version : DecodeError
  unknown_frame_type bad_payload bad_binary_header bad_binary_body : DecodeError

pub data Result {ℓ} (A : Type ℓ) : Type ℓ where
  ok : A → Result A
  err : DecodeError → Result A

infixl 5 ◌>>=◌
abbrev pub ◌>>=◌ {ℓ κ} : {A : Type ℓ} {B : Type κ} → Result A → (A → Result B) → Result B
ok a >>= f = f a
err e >>= f = err e

-- `number | string`. `other_number` is a number that is negative or no integer.
pub data BatchId : Type 0 where
  number : ℕ → BatchId
  other_number : BatchId
  text : List ℕ → BatchId

pub record ClientOpsFrame : Type 0 where
  pub batch_id : BatchId
  pub ops : List (List ℕ)

pub record SyncBatchFrame : Type 0 where
  pub next_cursor : ℕ
  pub has_more : Bool
  pub ops : List (List ℕ)

pub data DataFrame : Type 0 where
  client_ops : ClientOpsFrame → DataFrame
  sync_batch : SyncBatchFrame → DataFrame

-- `view.getUintN(offset, false)`, and the view `new Uint8Array(buffer, offset, n)`.
abbrev pub slice : List ℕ → ℕ → ℕ → List ℕ
slice bytes offset n = take n (drop offset bytes)

abbrev pub get_uint : List ℕ → ℕ → ℕ → ℕ
get_uint bytes offset n = be_value (slice bytes offset n)

-- The loop of `readOps`, with `left` operations still to read.
unfoldable pub read_loop : List ℕ → ℕ → ℕ → ℕ → List (List ℕ) → Result (List (List ℕ))
read_loop bytes total zero offset ops = if offset == total then ok ops else err bad_binary_body
read_loop bytes total (suc left) offset ops =
    let op_len = get_uint bytes offset 4 in
    let rest =
      read_loop bytes total left (offset + 4 + op_len)
        (ops ++ slice bytes (offset + 4) op_len ∷ []) in
    if ltb total (offset + 4)
    then err bad_binary_body
    else if op_len == 0 || ltb max_op_bytes op_len
    then err bad_binary_body
    else if ltb total (offset + 4 + op_len)
    then err bad_binary_body
    else rest

unfoldable pub read_ops : List ℕ → ℕ → ℕ → ℕ → ℕ → Result (List (List ℕ))
read_ops bytes start count max_count total =
    if ltb max_count count then err bad_binary_body else read_loop bytes total count start []

-- `ops.reduce((sum, o) => sum + o.length + 4, 0)`
unfoldable pub payload_from : ℕ → List (List ℕ) → ℕ
payload_from sum [] = sum
payload_from sum (o ∷ ops) = payload_from (sum + length o + 4) ops

unfoldable pub payload_bytes : List (List ℕ) → ℕ
unfolding payload_from
payload_bytes ops = payload_from 0 ops

-- The batch id of a decoded frame: a number where that is exact, and else its decimal text.
abbrev pub id_of_u64 : ℕ → BatchId
id_of_u64 n = if ltb max_safe_integer n then text (print n) else number n

unfoldable pub decode_client_ops : List ℕ → Result DataFrame
decode_client_ops bytes = if ltb (length bytes) 12 then err bad_binary_header else do
  ops ← read_ops bytes 12 (get_uint bytes 10 2) max_batch_ops (length bytes)
  if ltb max_batch_payload_bytes (payload_bytes ops)
      then err bad_binary_body
      else ok (client_ops (record { batch_id = id_of_u64 (get_uint bytes 2 8); ops = ops }))

unfoldable pub decode_sync_batch : List ℕ → Result DataFrame
decode_sync_batch bytes =
    if ltb (length bytes) 13
    then err bad_binary_header
    else if ltb 1 (get_or bytes 10 0)
    then err bad_binary_header
    else do
      ops ← read_ops bytes 13 (get_uint bytes 11 2) max_sync_page_ops (length bytes)
      if ltb max_safe_integer (get_uint bytes 2 8)
          then err bad_binary_body
          else ok (
              sync_batch (record {
                next_cursor = get_uint bytes 2 8;
                has_more = get_or bytes 10 0 == 1;
                ops = ops;
              }))

unfoldable pub decode_data_frame : List ℕ → Result DataFrame
decode_data_frame bytes =
    if ltb (length bytes) 2
    then err bad_binary_header
    else if not (get_or bytes 0 0 == wire_version)
    then err unsupported_version
    else if get_or bytes 1 0 == batch_kind_client_ops
    then decode_client_ops bytes
    else if get_or bytes 1 0 == batch_kind_sync
    then decode_sync_batch bytes
    else err bad_binary_header

abbrev pub valid_batch_id : BatchId → Bool
valid_batch_id (number n) = leb n max_safe_integer
valid_batch_id other_number = false
valid_batch_id (text s) = is_canonical s

-- `BigInt(frame.batchId)`
abbrev pub batch_number : BatchId → ℕ
batch_number (number n) = n
batch_number other_number = 0
batch_number (text s) = to_nat s

-- The loop that writes each operation behind its length.
unfoldable pub write_ops : List (List ℕ) → List ℕ
write_ops [] = []
write_ops (op ∷ ops) = be_bytes 4 (length op) ++ (op ++ write_ops ops)

unfoldable pub encode_client_ops : ClientOpsFrame → Result (List ℕ)
encode_client_ops frame =
    if not (valid_batch_id frame.batch_id)
    then err bad_binary_body
    else if ltb max_u64 (batch_number frame.batch_id)
    then err bad_binary_body
    else if ltb max_batch_ops (length frame.ops)
    then err bad_binary_body
    else if ltb max_batch_payload_bytes (payload_bytes frame.ops)
    then err bad_binary_body
    else ok (
        wire_version
        ∷ batch_kind_client_ops
        ∷ (be_bytes 8 (batch_number frame.batch_id)
            ++ (be_bytes 2 (length frame.ops) ++ write_ops frame.ops)))

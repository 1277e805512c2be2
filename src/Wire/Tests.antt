-- ===== src/Wire/Tests.antt =====
-- Runs of the binary codec, and its theorems at concrete frames.
use concord_dev.Wire.Bytes.{be_bytes, be_value}
use concord_dev.Wire.RoundTrip.{decode-encode}
use concord_dev.Wire.Canonical.{WithinLimits, encode-decode, decode-WithinLimits}
use concord_dev.Base.{ℕ, ◌≡◌, refl, true, List, [], ◌∷◌, ◌++◌, arith}
use concord_dev.Wire.{
  number, ok, err, ClientOpsFrame, encode_client_ops, decode_data_frame, payload_bytes,
  decode_client_ops, client_ops, write_ops, read_ops, decode_sync_batch, read_loop, bad_binary_body,
  sync_batch,
}

abbrev two_ops : ClientOpsFrame
two_ops = record { batch_id = number 5; ops = (1 ∷ 2 ∷ []) ∷ (3 ∷ []) ∷ [] }

abbrev two_ops_bytes : List ℕ
two_ops_bytes =
    1 ∷ 0x20 ∷ 0 ∷ 0 ∷ 0 ∷ 0 ∷ 0 ∷ 0 ∷ 0 ∷ 5 ∷ 0 ∷ 2 ∷ 0 ∷ 0 ∷ 0 ∷ 2 ∷ 1 ∷ 2 ∷ 0 ∷ 0 ∷ 0 ∷ 1 ∷ 3
    ∷ []

encode_two : encode_client_ops two_ops ≡ ok two_ops_bytes
unfolding encode_client_ops payload_bytes write_ops be_bytes
encode_two = refl

decode_two : decode_data_frame two_ops_bytes ≡ ok (client_ops two_ops)
unfolding decode_data_frame decode_client_ops read_ops read_loop payload_bytes be_value
decode_two = refl

trailing_byte : decode_data_frame (two_ops_bytes ++ 0 ∷ []) ≡ err bad_binary_body
unfolding decode_data_frame decode_client_ops read_ops read_loop payload_bytes be_value
trailing_byte = refl

one_page :
    decode_data_frame (1 ∷ 0x21 ∷ 0 ∷ 0 ∷ 0 ∷ 0 ∷ 0 ∷ 0 ∷ 1 ∷ 0 ∷ 1 ∷ 0 ∷ 0 ∷ [])
    ≡ ok (sync_batch (record { next_cursor = 256; has_more = true; ops = [] }))
unfolding decode_data_frame decode_client_ops decode_sync_batch read_ops read_loop be_value
one_page = refl

-- The encoder takes an operation of no bytes, which the decoder refuses.
empty_op :
    decode_data_frame (1 ∷ 0x20 ∷ 0 ∷ 0 ∷ 0 ∷ 0 ∷ 0 ∷ 0 ∷ 0 ∷ 5 ∷ 0 ∷ 1 ∷ 0 ∷ 0 ∷ 0 ∷ 0 ∷ [])
    ≡ err bad_binary_body
unfolding decode_data_frame decode_client_ops read_ops read_loop payload_bytes be_value
empty_op = refl

decode-encode_example : decode_data_frame two_ops_bytes ≡ ok (client_ops two_ops)
decode-encode_example = decode-encode two_ops two_ops_bytes (omega arith) encode_two

encode-decode_example : encode_client_ops two_ops ≡ ok two_ops_bytes
encode-decode_example = encode-decode two_ops_bytes two_ops (omega arith) decode_two

decode-WithinLimits_example : WithinLimits two_ops_bytes (client_ops two_ops)
decode-WithinLimits_example =
    decode-WithinLimits two_ops_bytes (client_ops two_ops) (omega arith) decode_two

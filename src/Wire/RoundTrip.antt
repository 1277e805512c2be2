-- ===== src/Wire/RoundTrip.antt =====
-- A client_ops frame that is encoded is decoded to itself.
use mathlib.Core.List.{append_assoc}
use concord_dev.Base.{
  ℕ, ◌+◌, ◌≤◌, ◌≡◌, sym, ap, ◌∙◌, List, [], ◌∷◌, ◌++◌, arith, length, length-append,
}
use concord_dev.Wire.{
  ok, client_ops, ClientOpsFrame, get_uint, read_loop, read_ops, payload_bytes, id_of_u64,
  decode_client_ops, decode_data_frame, encode_client_ops, write_ops, batch_number, max_u64,
  max_batch_ops, max_batch_payload_bytes, wire_version, batch_kind_client_ops,
}
use concord_dev.Wire.Bytes.{be_bytes, be_value, be_value-bytes, length-be_bytes, All}
use concord_dev.Wire.WriteOps.{OpFits, slice-append, read_loop-write}

-- What the encoder writes for the batch number `n`.
abbrev pub frame_bytes : ℕ → List (List ℕ) → List ℕ
frame_bytes n ops =
    wire_version
    ∷ batch_kind_client_ops
    ∷ (be_bytes 8 n ++ (be_bytes 2 (length ops) ++ write_ops ops))

pub record Fits (n : ℕ) (ops : List (List ℕ)) : Type 0 where
  pub id_fits : n ≤ max_u64
  pub count_fits : length ops ≤ max_batch_ops
  pub payload_fits : payload_bytes ops ≤ max_batch_payload_bytes

encode_client_ops-ok :
    (frame : ClientOpsFrame) (bytes : List ℕ)
    → encode_client_ops frame ≡ ok bytes
    → Fits (batch_number frame.batch_id) frame.ops
      × (bytes ≡ frame_bytes (batch_number frame.batch_id) frame.ops)
unfolding encode_client_ops
encode_client_ops-ok frame bytes e = (fits, written)
  where
    fits : Fits (batch_number frame.batch_id) frame.ops
    fits = ground arith

    written : bytes ≡ frame_bytes (batch_number frame.batch_id) frame.ops
    written = ground arith

module _ (n : ℕ) (ops : List (List ℕ)) where
  length-frame_bytes : length (frame_bytes n ops) ≡ 12 + length (write_ops ops)
  length-frame_bytes = omega (
    arith,
    length-append (be_bytes 8 n) (be_bytes 2 (length ops) ++ write_ops ops),
    length-append (be_bytes 2 (length ops)) (write_ops ops),
    length-be_bytes 8 n,
    length-be_bytes 2 (length ops),
  )

  id-frame_bytes : n ≤ max_u64 → get_uint (frame_bytes n ops) 2 8 ≡ n
  id-frame_bytes h =
      ap be_value (
        slice-append (wire_version ∷ batch_kind_client_ops ∷ []) (be_bytes 8 n)
          (be_bytes 2 (length ops) ++ write_ops ops) 2 8 (omega arith) (sym (length-be_bytes 8 n)))
      ∙ be_value-bytes 8 n (omega arith)

  count-frame_bytes : length ops ≤ max_batch_ops → get_uint (frame_bytes n ops) 10 2 ≡ length ops
  count-frame_bytes h =
      ap be_value (
        slice-append (wire_version ∷ batch_kind_client_ops ∷ be_bytes 8 n) (be_bytes 2 (length ops))
          (write_ops ops) 10 2 (omega (arith, length-be_bytes 8 n))
          (sym (length-be_bytes 2 (length ops))))
      ∙ be_value-bytes 2 (length ops) (omega arith)

  ops-frame_bytes :
      length ops ≤ max_batch_ops
      → All OpFits ops
      → read_ops (frame_bytes n ops) 12 (length ops) max_batch_ops (length (frame_bytes n ops))
        ≡ ok ops
  unfolding read_ops
  ops-frame_bytes h fits = ground (arith, loop)
    where
      pre : List ℕ
      pre = wire_version ∷ batch_kind_client_ops ∷ (be_bytes 8 n ++ be_bytes 2 (length ops))

      regroup : frame_bytes n ops ≡ pre ++ write_ops ops
      regroup =
          ap (λ (t : List ℕ). wire_version ∷ batch_kind_client_ops ∷ t)
            (sym (append_assoc (be_bytes 8 n) (be_bytes 2 (length ops)) (write_ops ops)))

      loop : read_loop (frame_bytes n ops) (length (frame_bytes n ops)) (length ops) 12 [] ≡ ok ops
      loop =
          ap (λ (t : List ℕ). read_loop t (length (frame_bytes n ops)) (length ops) 12 []) regroup
          ∙ read_loop-write ops pre [] (length (frame_bytes n ops)) 12 fits
              (omega (
                arith,
                length-append (be_bytes 8 n) (be_bytes 2 (length ops)),
                length-be_bytes 8 n,
                length-be_bytes 2 (length ops),
              ))
              length-frame_bytes

  decode-frame_bytes :
      Fits n ops
      → All OpFits ops
      → decode_data_frame (frame_bytes n ops)
        ≡ ok (client_ops (record { batch_id = id_of_u64 n; ops = ops }))
  unfolding decode_data_frame decode_client_ops
  decode-frame_bytes h fits = ground (
    arith,
    length-frame_bytes,
    id-frame_bytes h.id_fits,
    count-frame_bytes h.count_fits,
    ops-frame_bytes h.count_fits fits,
  )

-- Whatever frame the encoder accepts, if each operation has 1 to 65,536 bytes, the decoder reads
-- the bytes back as a client_ops frame with the same operations in the same order and the same
-- batch number, as a number if it is a safe integer and else as decimal text.
pub decode-encode :
    (frame : ClientOpsFrame) (bytes : List ℕ)
    → All OpFits frame.ops
    → encode_client_ops frame ≡ ok bytes
    → decode_data_frame bytes
      ≡ ok (
          client_ops
            (record { batch_id = id_of_u64 (batch_number frame.batch_id); ops = frame.ops }))
decode-encode frame bytes fits e =
    let (h, written) = encode_client_ops-ok frame bytes e in
    ap decode_data_frame written ∙ decode-frame_bytes (batch_number frame.batch_id) frame.ops h fits

-- ===== src/Wire/Canonical.antt =====
-- What the decoder accepts: the bytes are determined by the frame, and the frame is within bounds.
use concord_dev.Base.Decimal.{to_nat-print, is_canonical-print}
use concord_dev.Base.{
  ◌^◌, ℕ, ◌+◌, ◌≤◌, ◌≡◌, refl, sym, ap, ◌∙◌, true, List, [], ◌∷◌, ◌++◌, arith, length, drop,
  length-drop, get_or,
}
use concord_dev.Wire.{
  ok, slice, get_uint, read_ops, write_ops, ClientOpsFrame, decode_sync_batch, decode_client_ops,
  decode_data_frame, batch_number, valid_batch_id, encode_client_ops, DataFrame, payload_bytes,
  wire_version, client_ops, SyncBatchFrame, id_of_u64, max_batch_ops, batch_kind_client_ops,
  sync_batch, max_batch_payload_bytes, max_u64, max_sync_page_ops, max_safe_integer,
}
use concord_dev.Wire.Bytes.{be_bytes, All, IsByte, be_value-lt}
use concord_dev.Wire.RoundTrip.{frame_bytes}
use concord_dev.Wire.WriteOps.{OpFits, payload_bytes-write_ops}
use concord_dev.Wire.Reads.{slice-drop, be_bytes-slice, length-slice, All-slice, read_ops-Reads}

-- What a client_ops result says of the branches taken.
record ClientRead (bytes : List ℕ) (f : ClientOpsFrame) : Type 0 where
  version : get_or bytes 0 0 ≡ wire_version
  kind : get_or bytes 1 0 ≡ batch_kind_client_ops
  long : 12 ≤ length bytes
  read : read_ops bytes 12 (get_uint bytes 10 2) max_batch_ops (length bytes) ≡ ok f.ops
  payload : payload_bytes f.ops ≤ max_batch_payload_bytes
  id : f.batch_id ≡ id_of_u64 (get_uint bytes 2 8)

decode_sync_batch-ne-client :
    (bytes : List ℕ) (f : ClientOpsFrame) → ¬ (decode_sync_batch bytes ≡ ok (client_ops f))
unfolding decode_sync_batch
decode_sync_batch-ne-client bytes f e = ground arith

decode_client_ops-ne-sync :
    (bytes : List ℕ) (f : SyncBatchFrame) → ¬ (decode_client_ops bytes ≡ ok (sync_batch f))
unfolding decode_client_ops
decode_client_ops-ne-sync bytes f e = ground arith

dispatch_client :
    (bytes : List ℕ) (f : ClientOpsFrame)
    → decode_data_frame bytes ≡ ok (client_ops f)
    → (get_or bytes 0 0 ≡ wire_version)
      × (get_or bytes 1 0 ≡ batch_kind_client_ops)
      × (decode_client_ops bytes ≡ ok (client_ops f))
unfolding decode_data_frame
dispatch_client bytes f e = ground (arith, decode_sync_batch-ne-client bytes f)

dispatch_sync :
    (bytes : List ℕ) (f : SyncBatchFrame)
    → decode_data_frame bytes ≡ ok (sync_batch f)
    → decode_sync_batch bytes ≡ ok (sync_batch f)
unfolding decode_data_frame
dispatch_sync bytes f e = ground (arith, decode_client_ops-ne-sync bytes f)

decode_client_ops-read :
    (bytes : List ℕ) (f : ClientOpsFrame)
    → decode_client_ops bytes ≡ ok (client_ops f)
    → (12 ≤ length bytes)
      × (read_ops bytes 12 (get_uint bytes 10 2) max_batch_ops (length bytes) ≡ ok f.ops)
      × (payload_bytes f.ops ≤ max_batch_payload_bytes)
      × (f.batch_id ≡ id_of_u64 (get_uint bytes 2 8))
unfolding decode_client_ops
decode_client_ops-read bytes f e = ground arith

decode_sync_batch-read :
    (bytes : List ℕ) (f : SyncBatchFrame)
    → decode_sync_batch bytes ≡ ok (sync_batch f)
    → (13 ≤ length bytes)
      × (read_ops bytes 13 (get_uint bytes 11 2) max_sync_page_ops (length bytes) ≡ ok f.ops)
      × (f.next_cursor ≤ max_safe_integer)
unfolding decode_sync_batch
decode_sync_batch-read bytes f e = ground arith

ClientRead-decode :
    (bytes : List ℕ) (f : ClientOpsFrame)
    → decode_data_frame bytes ≡ ok (client_ops f)
    → ClientRead bytes f
ClientRead-decode bytes f e =
    let (v, k, d) = dispatch_client bytes f e in
    let (l, r, p, i) = decode_client_ops-read bytes f d in
    record { version = v; kind = k; long = l; read = r; payload = p; id = i }

two_heads :
    (bytes : List ℕ) → 2 ≤ length bytes → bytes ≡ get_or bytes 0 0 ∷ get_or bytes 1 0 ∷ drop 2 bytes
two_heads [] h = absurd (omega arith)
two_heads (a ∷ []) h = absurd (omega arith)
two_heads (a ∷ b ∷ rest) h = refl

frame_bytes-decode :
    (bytes : List ℕ) (f : ClientOpsFrame)
    → All IsByte bytes
    → ClientRead bytes f
    → bytes ≡ frame_bytes (get_uint bytes 2 8) f.ops
frame_bytes-decode bytes f h r =
    let (count, _, _, written) =
      read_ops-Reads bytes 12 (get_uint bytes 10 2) max_batch_ops f.ops h r.read in
    two_heads bytes (omega (arith, r.long))
    ∙ ap (λ (t : ℕ). t ∷ get_or bytes 1 0 ∷ drop 2 bytes) r.version
    ∙ ap (λ (t : ℕ). wire_version ∷ t ∷ drop 2 bytes) r.kind
    ∙ ap (λ (t : List ℕ). wire_version ∷ batch_kind_client_ops ∷ t)
        (slice-drop bytes 2 8
          ∙ ap (λ (t : List ℕ). t ++ drop 10 bytes)
              (sym (be_bytes-slice bytes 2 8 h (omega (arith, r.long))))
          ∙ ap (λ (t : List ℕ). be_bytes 8 (get_uint bytes 2 8) ++ t)
              (slice-drop bytes 10 2
                ∙ ap (λ (t : List ℕ). t ++ drop 12 bytes)
                    (sym (be_bytes-slice bytes 10 2 h (omega (arith, r.long))))
                ∙ ap (λ (t : ℕ). be_bytes 2 t ++ drop 12 bytes) (sym count)
                ∙ ap (λ (t : List ℕ). be_bytes 2 (length f.ops) ++ t) written))

id_of_u64-number : (n : ℕ) → batch_number (id_of_u64 n) ≡ n
id_of_u64-number n = ground (arith, to_nat-print n)

id_of_u64-valid : (n : ℕ) → valid_batch_id (id_of_u64 n) ≡ true
id_of_u64-valid n = ground (arith, is_canonical-print n)

-- The decoder is the encoder's inverse on every accepted client_ops frame: encoding what was
-- decoded gives the very bytes that were read, so no two byte strings decode to one frame.
pub encode-decode :
    (bytes : List ℕ) (f : ClientOpsFrame)
    → All IsByte bytes
    → decode_data_frame bytes ≡ ok (client_ops f)
    → encode_client_ops f ≡ ok bytes
unfolding encode_client_ops
encode-decode bytes f h e =
    let r = ClientRead-decode bytes f e in
    let (count, most, _, _) =
      read_ops-Reads bytes 12 (get_uint bytes 10 2) max_batch_ops f.ops h r.read in
    let small : get_uint bytes 2 8 ≤ max_u64 = omega (
      arith,
      be_value-lt (slice bytes 2 8) (All-slice bytes 2 8 h),
      ap (λ (t : ℕ). 256 ^ t) (length-slice bytes 2 8 (omega (arith, r.long))),
    ) in
    ground (
      arith,
      frame_bytes-decode bytes f h r,
      id_of_u64-number (get_uint bytes 2 8),
      id_of_u64-valid (get_uint bytes 2 8),
      r.payload,
      r.id,
    )

abbrev pub frame_ops : DataFrame → List (List ℕ)
frame_ops (client_ops f) = f.ops
frame_ops (sync_batch f) = f.ops

abbrev pub header_bytes : DataFrame → ℕ
header_bytes (client_ops f) = 12
header_bytes (sync_batch f) = 13

abbrev pub NumbersFit : DataFrame → Type 0
NumbersFit (client_ops f) = payload_bytes f.ops ≤ max_batch_payload_bytes
NumbersFit (sync_batch f) = f.next_cursor ≤ max_safe_integer

pub record WithinLimits (bytes : List ℕ) (frame : DataFrame) : Type 0 where
  pub op_sizes : All OpFits (frame_ops frame)
  pub op_count : length (frame_ops frame) ≤ max_batch_ops
  pub numbers : NumbersFit frame
  pub whole : length bytes ≡ header_bytes frame + payload_bytes (frame_ops frame)

whole_frame :
    (bytes : List ℕ) (start : ℕ) (ops : List (List ℕ))
    → start ≤ length bytes
    → drop start bytes ≡ write_ops ops
    → length bytes ≡ start + payload_bytes ops
whole_frame bytes start ops h e =
    omega (arith, length-drop start bytes, ap length e, payload_bytes-write_ops ops)

-- Every accepted data frame is within the wire limits: at most 1024 operations of 1 to 65,536
-- bytes, a client_ops payload of at most 4 MiB, a sync_batch cursor that is a safe integer, and
-- the header and the operations take up every byte of the message.
pub decode-WithinLimits :
    (bytes : List ℕ) (frame : DataFrame)
    → All IsByte bytes
    → decode_data_frame bytes ≡ ok frame
    → WithinLimits bytes frame
decode-WithinLimits bytes (client_ops f) h e =
    let r = ClientRead-decode bytes f e in
    let (count, most, fits, written) =
      read_ops-Reads bytes 12 (get_uint bytes 10 2) max_batch_ops f.ops h r.read in
    record {
      op_sizes = fits;
      op_count = omega arith;
      numbers = r.payload;
      whole = whole_frame bytes 12 f.ops r.long written;
    }
decode-WithinLimits bytes (sync_batch f) h e =
    let (long, read, cursor) = decode_sync_batch-read bytes f (dispatch_sync bytes f e) in
    let (count, most, fits, written) =
      read_ops-Reads bytes 13 (get_uint bytes 11 2) max_sync_page_ops f.ops h read in
    record {
      op_sizes = fits;
      op_count = omega arith;
      numbers = cursor;
      whole = whole_frame bytes 13 f.ops long written;
    }
